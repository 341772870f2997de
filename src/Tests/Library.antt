-- ===== src/Tests/Library.antt =====
-- What the token library of the concrete chain does to the supply.
use cavern_lsd_wrapper.Base.{
  ℕ, ◌+◌, ◌-◌, ◌≡◌, refl, List, [], ok, arith, ContractResult, Bool-cases, inl, inr, leb,
}
use cavern_lsd_wrapper.Std.{Env, MessageInfo, Response, SubMsg, empty_response}
use cavern_lsd_wrapper.Cw20.{TokenInfo}
use cavern_lsd_wrapper.Cw20.Supply.{Supplies, Keeps}
use cavern_lsd_wrapper.Token.Deployed.{total, IssuesInitial}
use cavern_lsd_wrapper.Tests.World.{supply_library, supply_info}

pub issues : IssuesInitial supply_library (λ s. s)
issues s env info msg r made =
    let same : r ≡ (total msg.initial_balances, empty_response) = cc in rw same

pub informed :
    (s : ℕ) (i : TokenInfo) → supply_library.query_token_info s ≡ ok i → i.total_supply ≡ s
informed s i h = let same : supply_info s ≡ i = cc in rw (← same)

module _ (Quiet : List SubMsg → Type 0) (quiet_none : Quiet []) where
  answered :
      (n : ℕ) (r : ℕ × Response)
      → ◌≡◌ {A = ContractResult (ℕ × Response)} (ok (n, empty_response)) (ok r)
      → Keeps (λ s. s) Quiet n r
  answered n r h = let same : r ≡ (n, empty_response) = cc in rw same (refl, quiet_none)

  burnt :
      (s n : ℕ) (env : Env) (info : MessageInfo) (r : ℕ × Response)
      → supply_library.burn s env info n ≡ ok r
      → (r.0 + n ≡ s) × Quiet r.1.messages
  burnt s n env info r h = elim (Bool-cases (leb n s)) [
    | inr more ↦ let refused = rw more at h in ground arith
    | inl enough ↦ let (left, quiet) = answered (s - n) r (rw enough at h) in (ground arith, quiet)
  ]

  pub supply_laws : Supplies supply_library (λ s. s) Quiet
  supply_laws = record {
    info_law = λ s i h. informed s i h;
    mint_law = λ s env info to n r h. answered (s + n) r h;
    burn_law = λ s env info n r h. burnt s n env info r h;
    burn_from_law = λ s env info owner n r h. burnt s n env info r h;
    transfer_law = λ s env info to n r h. answered s r h;
    send_law = λ s env info to n m r h. answered s r h;
    increase_allowance_law = λ s env info to n e r h. answered s r h;
    decrease_allowance_law = λ s env info to n e r h. answered s r h;
    transfer_from_law = λ s env info owner to n r h. answered s r h;
    send_from_law = λ s env info owner to n m r h. answered s r h;
    update_minter_law = λ s env info m r h. answered s r h;
    update_marketing_law = λ s env info x y z r h. answered s r h;
    upload_logo_law = λ s env info l r h. answered s r h;
  }

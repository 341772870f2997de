-- ===== src/Token/Solvency/Messages.antt =====
-- Every message but a decompounding leaves the supply backed by what the wrapper holds.
use native.Mathlib.Nat.{mul-le-mul_right}
use cavern_lsd_wrapper.Base.{
  ℕ, ◌*◌, ◌≤◌, ◌≡◌, ◌≢◌, String, some, [], List, ok, false, inl, inr, Outcome-cases, Bool-cases,
  arith, ContractResult, ◌>>=◌, ◌==◌, nat_eq, subst,
}
use cavern_lsd_wrapper.Std.{Env, MessageInfo, Response, SubMsg}
use cavern_lsd_wrapper.Std.Decimals.{Documented}
use cavern_lsd_wrapper.Basset.Wrapper
use cavern_lsd_wrapper.Basset.Wrapper.{ExecuteMsg, is_decompound}
use cavern_lsd_wrapper.Cw20.Supply.{Supplies, Keeps}
use cavern_lsd_wrapper.Custody.{Custody}
use cavern_lsd_wrapper.Deployment.{Deployment}
use cavern_lsd_wrapper.Pricing.Bounds.{
  mint_charge, burn_payout, mint_charge-covers, burn_payout-le, issue_amount, issue_amount-le,
}
use cavern_lsd_wrapper.Token.Store.{Store}
use cavern_lsd_wrapper.Token.Contract.{execute}
use cavern_lsd_wrapper.Token.Handler.{
  before_burn, execute_burn, execute_burn_all, execute_burn_from, execute_mint, execute_mint_with,
}
use cavern_lsd_wrapper.Token.Solvency.{
  library_succeeded, mint_succeeded, mint_with_succeeded, before_burn_succeeded, issued_backed,
  burnt_backed,
}

module _ {I T S : Type 0} (p : Deployment I T S) (cap : ℕ) (doc : Documented p.host.decimals cap)
    (s : Store T S) (env : Env) (info : MessageInfo) (cfg : T) (rate : ℕ)
    (has_config : s.lsd_config ≡ some cfg)
    (rated : p.hub.query_exchange_rate cfg p.host env ≡ ok rate) (supply : S → ℕ)
    (custody : Custody p.hub cfg) (laws : Supplies p.cw20 supply custody.Quiet)
    (runs : custody.Runs p.host) (stranger : info.sender ≢ env.contract) (held held' : ℕ)
    (s' : Store T S) (r : Response) (after : custody.After env info r.messages held held')
    (backed : supply s.cw20 * p.host.one ≤ held * rate) where
  -- The supply is backed after the call.
  abbrev pub Backed : Type 0
  Backed = supply s'.cw20 * p.host.one ≤ held' * rate

  mint_backed :
      (recipient : String) (amount : ℕ)
      → execute_mint p s env info recipient amount ≡ ok (s', r)
      → Backed
  mint_backed recipient amount h =
      let (pos, h') =
        mint_succeeded p cap doc s env info cfg rate has_config rated recipient amount s' r h in
      let fair = mint_charge-covers p.host.one rate amount doc.one_pos pos in
      issued_backed p cap doc s env info cfg rate has_config rated supply custody laws runs held
        held' s' r after backed recipient amount (mint_charge p.host.one rate amount) stranger
        (omega arith) (library_succeeded p s _ _ s' r h')

  mint_with_backed :
      (recipient : String) (n : ℕ)
      → execute_mint_with p s env info recipient n ≡ ok (s', r)
      → Backed
  mint_with_backed recipient n h =
      let issued = issue_amount p.host.one rate n in
      issued_backed p cap doc s env info cfg rate has_config rated supply custody laws runs held
        held' s' r after backed recipient issued n stranger
        (issue_amount-le p.host.one rate n doc.one_pos)
        (library_succeeded p s _ _ s' r
          (mint_with_succeeded p cap doc s env info cfg rate has_config rated recipient n s' r h))

  -- A burn by the owner, or by an allowance.
  burn_backed : (amount : ℕ) → execute_burn p s env info amount ≡ ok (s', r) → Backed
  unfolding execute_burn
  burn_backed amount h =
      let (ms, x, made, called, stored, sent) =
        library_succeeded p s (before_burn p s env info amount) (p.cw20.burn s.cw20 env info amount)
          s' r h in
      let (pos, paid) =
        before_burn_succeeded p cap doc s env info cfg rate has_config rated amount ms made in
      burnt_backed p cap doc s env info cfg rate has_config rated supply custody laws runs held
        held' s' r after backed amount (burn_payout p.host.one rate amount) ms x
        (burn_payout-le p.host.one rate amount doc.one_pos pos) paid
        (laws.burn_law s.cw20 env info amount x called) stored sent

  burn_from_backed :
      (owner : String) (amount : ℕ)
      → execute_burn_from p s env info owner amount ≡ ok (s', r)
      → Backed
  unfolding execute_burn_from
  burn_from_backed owner amount h =
      let (ms, x, made, called, stored, sent) =
        library_succeeded p s (before_burn p s env info amount)
          (p.cw20.burn_from s.cw20 env info owner amount) s' r h in
      let (pos, paid) =
        before_burn_succeeded p cap doc s env info cfg rate has_config rated amount ms made in
      burnt_backed p cap doc s env info cfg rate has_config rated supply custody laws runs held
        held' s' r after backed amount (burn_payout p.host.one rate amount) ms x
        (burn_payout-le p.host.one rate amount doc.one_pos pos) paid
        (laws.burn_from_law s.cw20 env info owner amount x called) stored sent

  -- A call of the library, with nothing of the wrapper's own.
  abbrev passed_on : ContractResult (S × Response) → ContractResult (Store T S × Response)
  passed_on called = called >>= λ x. ok (record s { cw20 = x.0 }, x.1)

  library_backed :
      (called : ContractResult (S × Response))
      → ((x : S × Response) → called ≡ ok x → Keeps supply custody.Quiet (supply s.cw20) x)
      → passed_on called ≡ ok (s', r)
      → Backed
  library_backed called keeps h = elim (Outcome-cases called) [
    | inr fails ↦ ground arith
    | inl (x, e) ↦
        let (same, quiet) = keeps x e in
        let sent : r ≡ x.1 = ground arith in
        let stored : s' ≡ record s { cw20 = x.0 } = ground arith in
        let now : supply s'.cw20 ≡ supply s.cw20 = rw stored same in
        let kept : held ≤ held' =
          custody.keeps env info x.1.messages held held' quiet
            (subst (λ (z : Response). custody.After env info z.messages held held') sent after) in
        rw now (omega (arith, mul-le-mul_right rate kept))
  ]

  -- Nothing happens where the sender has no tokens.
  burn_all_backed : execute_burn_all p s env info ≡ ok (s', r) → Backed
  unfolding execute_burn_all
  burn_all_backed h = elim (Outcome-cases (p.cw20.query_balance s.cw20 info.sender)) [
    | inr fails ↦ ground arith
    | inl (balance, e) ↦ elim (Bool-cases (balance == 0)) [
      | inl nothing ↦
          let same : s' ≡ s = ground arith in
          let silent : r.messages ≡ [] = ground arith in
          let kept : held ≤ held' =
            custody.keeps env info [] held held' custody.quiet_none
              (subst (λ (l : List SubMsg). custody.After env info l held held') silent after) in
          rw same (omega (arith, mul-le-mul_right rate kept))
      | inr some_left ↦ burn_backed balance (rw (e, some_left) at h)
    ]
  ]

  -- Every message but a decompounding, from an account other than the wrapper itself.
  pub message_backed :
      (msg : ExecuteMsg)
      → is_decompound msg ≡ false
      → execute p s env info msg ≡ ok (s', r)
      → Backed
  unfolding execute
  message_backed (Wrapper.ExecuteMsg.transfer to n) other h =
      library_backed _ (laws.transfer_law s.cw20 env info to n) h
  message_backed (Wrapper.ExecuteMsg.burn n) other h = burn_backed n h
  message_backed Wrapper.ExecuteMsg.burn_all other h = burn_all_backed h
  message_backed (Wrapper.ExecuteMsg.send to n m) other h =
      library_backed _ (laws.send_law s.cw20 env info to n m) h
  message_backed (Wrapper.ExecuteMsg.increase_allowance to n e) other h =
      library_backed _ (laws.increase_allowance_law s.cw20 env info to n e) h
  message_backed (Wrapper.ExecuteMsg.decrease_allowance to n e) other h =
      library_backed _ (laws.decrease_allowance_law s.cw20 env info to n e) h
  message_backed (Wrapper.ExecuteMsg.transfer_from owner to n) other h =
      library_backed _ (laws.transfer_from_law s.cw20 env info owner to n) h
  message_backed (Wrapper.ExecuteMsg.send_from owner to n m) other h =
      library_backed _ (laws.send_from_law s.cw20 env info owner to n m) h
  message_backed (Wrapper.ExecuteMsg.burn_from owner n) other h = burn_from_backed owner n h
  message_backed (Wrapper.ExecuteMsg.mint to n) other h = mint_backed to n h
  message_backed (Wrapper.ExecuteMsg.mint_with to n) other h = mint_with_backed to n h
  message_backed (Wrapper.ExecuteMsg.update_minter m) other h =
      library_backed _ (laws.update_minter_law s.cw20 env info m) h
  message_backed (Wrapper.ExecuteMsg.update_marketing x y z) other h =
      library_backed _ (laws.update_marketing_law s.cw20 env info x y z) h
  message_backed (Wrapper.ExecuteMsg.upload_logo l) other h =
      library_backed _ (laws.upload_logo_law s.cw20 env info l) h
  message_backed (Wrapper.ExecuteMsg.decompound to) other h = cc

-- No such message changes the configuration.
pub config_kept :
    {I T S : Type 0} (p : Deployment I T S) (s s' : Store T S) (env : Env) (info : MessageInfo)
    (msg : ExecuteMsg) (r : Response)
    → is_decompound msg ≡ false
    → execute p s env info msg ≡ ok (s', r)
    → s'.lsd_config ≡ s.lsd_config
unfolding execute
config_kept p s s' env info (Wrapper.ExecuteMsg.transfer a b) r other h = ground arith
config_kept p s s' env info (Wrapper.ExecuteMsg.burn a) r other h = ground arith
config_kept p s s' env info Wrapper.ExecuteMsg.burn_all r other h = ground arith
config_kept p s s' env info (Wrapper.ExecuteMsg.send a b c) r other h = ground arith
config_kept p s s' env info (Wrapper.ExecuteMsg.increase_allowance a b c) r other h = ground arith
config_kept p s s' env info (Wrapper.ExecuteMsg.decrease_allowance a b c) r other h = ground arith
config_kept p s s' env info (Wrapper.ExecuteMsg.transfer_from a b c) r other h = ground arith
config_kept p s s' env info (Wrapper.ExecuteMsg.send_from a b c d) r other h = ground arith
config_kept p s s' env info (Wrapper.ExecuteMsg.burn_from a b) r other h = ground arith
config_kept p s s' env info (Wrapper.ExecuteMsg.mint a b) r other h = ground arith
config_kept p s s' env info (Wrapper.ExecuteMsg.mint_with a b) r other h = ground arith
config_kept p s s' env info (Wrapper.ExecuteMsg.update_minter a) r other h = ground arith
config_kept p s s' env info (Wrapper.ExecuteMsg.update_marketing a b c) r other h = ground arith
config_kept p s s' env info (Wrapper.ExecuteMsg.upload_logo a) r other h = ground arith
config_kept p s s' env info (Wrapper.ExecuteMsg.decompound a) r other h = cc

-- ===== src/Limited/Solvency/Messages.antt =====
-- Every message but a burn of the wrapper with a limit, and the backing of the supply.
use native.Mathlib.Nat.{mul-le-mul_right}
use cavern_lsd_wrapper.Base.{
  ℕ, ◌+◌, ◌*◌, ◌/◌, ◌≤◌, ◌≡◌, ◌≢◌, String, some, ok, false, inl, inr, Outcome-cases, arith,
  ContractResult, ◌>>=◌, from_std, subst,
}
use cavern_lsd_wrapper.Base.Floor.{div-mul-le}
use cavern_lsd_wrapper.Std.{Env, MessageInfo, Response}
use cavern_lsd_wrapper.Std.Decimals.{Documented}
use cavern_lsd_wrapper.Basset.Wrapper
use cavern_lsd_wrapper.Basset.Wrapper.{ExecuteMsg, is_burn}
use cavern_lsd_wrapper.Cw20.Supply.{Supplies, Keeps}
use cavern_lsd_wrapper.Custody.{Custody}
use cavern_lsd_wrapper.Custody.Calls.{deposit_received}
use cavern_lsd_wrapper.Deployment.{Deployment}
use cavern_lsd_wrapper.Pricing.Bounds.{mint_charge, mint_charge-covers}
use cavern_lsd_wrapper.Limited.Shares.{IsRate, issued_share}
use cavern_lsd_wrapper.Limited.Store.{Store}
use cavern_lsd_wrapper.Limited.Contract.{execute}
use cavern_lsd_wrapper.Limited.Handler.{library_call, execute_mint, execute_mint_with}
use cavern_lsd_wrapper.Limited.Payout.{limited_decompound-backed}
use cavern_lsd_wrapper.Limited.Solvency.{library_succeeded, mint_succeeded, mint_with_succeeded}

module _ {I T S : Type 0} (p : Deployment I T S) (cap : ℕ) (doc : Documented p.host.decimals cap)
    (s : Store T S) (env : Env) (info : MessageInfo) (cfg : T) (rate held : ℕ)
    (has_config : s.lsd_config ≡ some cfg)
    (holds : p.hub.get_balance cfg p.host env env.contract ≡ ok held) (supply : S → ℕ)
    (custody : Custody p.hub cfg) (laws : Supplies p.cw20 supply custody.Quiet)
    (runs : custody.Runs p.host) (held' : ℕ) (s' : Store T S) (r : Response)
    (after : custody.After env info r.messages held held')
    (backed : supply s.cw20 * p.host.one ≤ held * rate) where
  abbrev before : ℕ
  before = supply s.cw20

  module _ (stranger : info.sender ≢ env.contract) (yielding : p.host.one ≤ rate) where
    -- Tokens that are issued at the rate, for a deposit.
    issued_backed :
        (ratio : ℕ) (recipient : String) (issued charge : ℕ)
        → IsRate p.host.one before held ratio
        → issued * p.host.one ≤ ratio * charge
        → (from_std (p.hub.deposit_funds cfg p.host env info charge info.sender) >>= λ ms.
            library_call p s ms
              (p.cw20.mint s.cw20 env (record info { sender = env.contract }) recipient issued))
          ≡ ok (s', r)
        → supply s'.cw20 * p.host.one ≤ held' * rate
    issued_backed ratio recipient issued charge priced fair h =
        let (ms, x, made, called, stored, sent) = library_succeeded p s _ _ s' r h in
        let (grown, quiet) =
          laws.mint_law s.cw20 env (record info { sender = env.contract }) recipient issued x
            called in
        let received =
          deposit_received p.hub cfg custody p.host runs env info charge ms x.1 r held held' quiet
            sent after stranger (ground (arith, made)) in
        let now : supply s'.cw20 ≡ before + issued = rw stored grown in
        rw now (
          issued_share p.host.one before held rate ratio doc.one_pos backed issued charge held'
            yielding priced fair received)

    mint_backed :
        (recipient : String) (amount : ℕ)
        → execute_mint p s env info recipient amount ≡ ok (s', r)
        → supply s'.cw20 * p.host.one ≤ held' * rate
    mint_backed recipient amount h =
        let (ratio, priced, pos, h') =
          mint_succeeded p cap doc s env info cfg held before has_config holds
            (laws.info_law s.cw20) recipient amount s' r h in
        let covers = mint_charge-covers p.host.one ratio amount doc.one_pos pos in
        issued_backed ratio recipient amount (mint_charge p.host.one ratio amount) priced
          (omega arith) h'

    mint_with_backed :
        (recipient : String) (n : ℕ)
        → execute_mint_with p s env info recipient n ≡ ok (s', r)
        → supply s'.cw20 * p.host.one ≤ held' * rate
    mint_with_backed recipient n h =
        let (ratio, priced, h') =
          mint_with_succeeded p cap doc s env info cfg held before has_config holds
            (laws.info_law s.cw20) recipient n s' r h in
        issued_backed ratio recipient (ratio * n / p.host.one) n priced
          (div-mul-le (ratio * n) p.host.one) h'

  -- A call of the library, with nothing of the wrapper's own.
  abbrev passed_on : ContractResult (S × Response) → ContractResult (Store T S × Response)
  passed_on called = called >>= λ x. ok (record s { cw20 = x.0 }, x.1)

  library_backed :
      (called : ContractResult (S × Response))
      → ((x : S × Response) → called ≡ ok x → Keeps supply custody.Quiet before x)
      → passed_on called ≡ ok (s', r)
      → supply s'.cw20 * p.host.one ≤ held' * rate
  library_backed called keeps h = elim (Outcome-cases called) [
    | inr fails ↦ ground arith
    | inl (x, e) ↦
        let (same, quiet) = keeps x e in
        let sent : r ≡ x.1 = ground arith in
        let stored : s' ≡ record s { cw20 = x.0 } = ground arith in
        let now : supply s'.cw20 ≡ before = rw stored same in
        let kept : held ≤ held' =
          custody.keeps env info x.1.messages held held' quiet
            (subst (λ (z : Response). custody.After env info z.messages held held') sent after) in
        rw now (omega (arith, mul-le-mul_right rate kept))
  ]

  module _ (stranger : info.sender ≢ env.contract) (yielding : p.host.one ≤ rate)
      (rated : p.hub.query_exchange_rate cfg p.host env ≡ ok rate) where
    -- Every message but a burn that succeeds where the supply was backed, from an account other
    -- than the wrapper itself, leaves it backed, as long as a wrapped token is worth one or more.
    pub limited_message-backed :
        (msg : ExecuteMsg)
        → is_burn msg ≡ false
        → execute p s env info msg ≡ ok (s', r)
        → supply s'.cw20 * p.host.one ≤ held' * rate
    unfolding execute
    limited_message-backed (Wrapper.ExecuteMsg.transfer to n) other h =
        library_backed _ (laws.transfer_law s.cw20 env info to n) h
    limited_message-backed (Wrapper.ExecuteMsg.send to n m) other h =
        library_backed _ (laws.send_law s.cw20 env info to n m) h
    limited_message-backed (Wrapper.ExecuteMsg.increase_allowance to n e) other h =
        library_backed _ (laws.increase_allowance_law s.cw20 env info to n e) h
    limited_message-backed (Wrapper.ExecuteMsg.decrease_allowance to n e) other h =
        library_backed _ (laws.decrease_allowance_law s.cw20 env info to n e) h
    limited_message-backed (Wrapper.ExecuteMsg.transfer_from owner to n) other h =
        library_backed _ (laws.transfer_from_law s.cw20 env info owner to n) h
    limited_message-backed (Wrapper.ExecuteMsg.send_from owner to n m) other h =
        library_backed _ (laws.send_from_law s.cw20 env info owner to n m) h
    limited_message-backed (Wrapper.ExecuteMsg.mint to n) other h =
        mint_backed stranger yielding to n h
    limited_message-backed (Wrapper.ExecuteMsg.mint_with to n) other h =
        mint_with_backed stranger yielding to n h
    limited_message-backed (Wrapper.ExecuteMsg.update_minter m) other h =
        library_backed _ (laws.update_minter_law s.cw20 env info m) h
    limited_message-backed (Wrapper.ExecuteMsg.update_marketing x y z) other h =
        library_backed _ (laws.update_marketing_law s.cw20 env info x y z) h
    limited_message-backed (Wrapper.ExecuteMsg.upload_logo l) other h =
        library_backed _ (laws.upload_logo_law s.cw20 env info l) h
    limited_message-backed (Wrapper.ExecuteMsg.decompound to) other h =
        (limited_decompound-backed p cap doc s env cfg rate held supply has_config rated holds
          (laws.info_law s.cw20) custody info to s' r held' runs h after backed).1
    limited_message-backed _ other h = cc

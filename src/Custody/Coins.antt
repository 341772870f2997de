-- ===== src/Custody/Coins.antt =====
-- packages/wrapper_implementations/src/coin.rs: what a deposit and a payment of a native coin move.
-- The coins that a depositor attaches arrive before the call.
use cavern_lsd_wrapper.Base.{
  ℕ, ◌+◌, ◌≤◌, ◌≡◌, refl, some, List, [], ◌∷◌, ◌++◌, map, ok, ◌==◌, string_eq, if◌then◌else◌,
  eq_self, arith, subst, ◌∙◌, String,
}
use cavern_lsd_wrapper.Std.{
  Addr, Coin, CosmosMsg, wasm_execute, bank_send, Env, MessageInfo, SubMsg, sub_msg,
}
use cavern_lsd_wrapper.Host.{Host}
use cavern_lsd_wrapper.Custody.{Custody}
use cavern_lsd_wrapper.Custody.Moves.{Move, move_all, moves_of, moves_of-append, move_all-pay}
use cavern_lsd_wrapper.LsdHub.Coin.{StrideLsdConfig, stride_hub, deposit_funds, send_funds}
use cavern_lsd_wrapper.LsdHub.Deposit.{RightFunds, deposit_funds-accepts}

module _ (self : Addr) (denom : String) where
  -- The transfers of the coin, of those that `self` sends to `to`.
  abbrev pub coins_to : Addr → List Coin → List Move
  coins_to to [] = []
  coins_to to (c ∷ cs) =
      let rest = coins_to to cs in
      if c.denom == denom
      then record { payer = self; payee = to; amount = c.amount } ∷ rest
      else rest

  abbrev pub coin_moves : CosmosMsg → List Move
  coin_moves (bank_send to coins) = coins_to to coins
  coin_moves (wasm_execute target b coins) = coins_to target coins

  abbrev pub attached : List Coin → ℕ
  attached [] = 0
  attached (c ∷ cs) = (if c.denom == denom then c.amount else 0) + attached cs

  -- The holdings after a call: the attached coins arrive, and the messages pay.
  abbrev pub AfterCoins : Env → MessageInfo → List SubMsg → ℕ → ℕ → Type 0
  AfterCoins env info ms a b =
      move_all self (moves_of coin_moves ms) (a + attached info.funds) ≡ some b

  pub coins_keep :
      (env : Env) (info : MessageInfo) (qs : List SubMsg) (a b : ℕ)
      → moves_of coin_moves qs ≡ []
      → AfterCoins env info qs a b
      → a ≤ b
  coins_keep env info qs a b quiet moved =
      let same : some (a + attached info.funds) ≡ some b =
        subst (λ (l : List Move). move_all self l (a + attached info.funds) ≡ some b) quiet moved in
      ground arith

module _ (self : Addr) (cfg : StrideLsdConfig) (h : Host) (env : Env) (info : MessageInfo)
    (ms : List CosmosMsg) (qs : List SubMsg) (a b : ℕ) where
  -- An accepted deposit sends nothing.
  no_messages : (n : ℕ) (from : Addr) → deposit_funds cfg h env info n from ≡ ok ms → ms ≡ []
  unfolding deposit_funds
  no_messages n from made = ground arith

  -- The right funds are attached.
  attached-RightFunds :
      (n : ℕ) → RightFunds cfg n info.funds → n ≤ attached self cfg.denom info.funds
  attached-RightFunds n (coin, only, denom, enough) =
      rw only (rw (denom, eq_self cfg.denom) (omega arith))

  pub coins_deposited :
      (n : ℕ)
      → moves_of (coin_moves self cfg.denom) qs ≡ []
      → deposit_funds cfg h env info n info.sender ≡ ok ms
      → AfterCoins self cfg.denom env info (qs ++ map sub_msg ms) a b
      → a + n ≤ b
  coins_deposited n quiet made moved =
      let none_sent : ms ≡ [] = no_messages n info.sender made in
      let accepted : deposit_funds cfg h env info n info.sender ≡ ok [] = rw (← none_sent) made in
      let right = (deposit_funds-accepts cfg h env info n info.sender).0 accepted in
      let moved' : AfterCoins self cfg.denom env info (qs ++ []) a b =
        subst (λ (l : List CosmosMsg). AfterCoins self cfg.denom env info (qs ++ map sub_msg l) a b)
          none_sent moved in
      let empty = moves_of-append (coin_moves self cfg.denom) qs [] quiet in
      let same : some (a + attached self cfg.denom info.funds) ≡ some b =
        subst (λ (l : List Move). move_all self l (a + attached self cfg.denom info.funds) ≡ some b)
          empty moved' in
      let enough : n ≤ attached self cfg.denom info.funds = attached-RightFunds n right in
      ground arith

  pub coins_paid :
      (n : ℕ) (to : Addr)
      → moves_of (coin_moves self cfg.denom) qs ≡ []
      → send_funds cfg h env n to ≡ ok ms
      → AfterCoins self cfg.denom env info (qs ++ map sub_msg ms) a b
      → a ≤ b + n
  unfolding send_funds
  coins_paid n to quiet made moved =
      let sent : ms ≡ bank_send to (record { denom = cfg.denom; amount = n } ∷ []) ∷ [] = cc in
      let single : moves_of (coin_moves self cfg.denom) (qs ++ map sub_msg ms)
          ≡ record { payer = self; payee = to; amount = n } ∷ [] =
        rw sent (moves_of-append (coin_moves self cfg.denom) qs _ quiet ∙ rw (eq_self cfg.denom)) in
      let bound = move_all-pay self to n (a + attached self cfg.denom info.funds) b (
        subst (λ (l : List Move). move_all self l (a + attached self cfg.denom info.funds) ≡ some b)
          single moved) in
      omega arith

-- The native coin as a custody.
unfoldable pub coin_custody : (self : Addr) (cfg : StrideLsdConfig) → Custody stride_hub cfg
coin_custody self cfg = record {
  Runs = λ h. Unit;
  Quiet = λ qs. moves_of (coin_moves self cfg.denom) qs ≡ [];
  After = AfterCoins self cfg.denom;
  quiet_none = refl;
  keeps = coins_keep self cfg.denom;
  deposits = λ h env info n ms qs a b runs ne quiet made after.
      coins_deposited self cfg h env info ms qs a b n quiet made after;
  pays = λ h env info n to ms qs a b runs quiet made after.
      coins_paid self cfg h env info ms qs a b n to quiet made after;
}

-- ===== src/Token/Redeem.antt =====
-- The holders of a solvent wrapper can redeem their tokens.
use native.Mathlib.Nat.{mul-le-mul_right}
use cavern_lsd_wrapper.Base.{ℕ, ◌+◌, ◌*◌, ◌/◌, ◌≤◌, ◌<◌, ◌≡◌, some, ok, arith, List, ◌∙◌}
use cavern_lsd_wrapper.Std.{CosmosMsg, Env, MessageInfo, Response, add_messages}
use cavern_lsd_wrapper.Std.Decimals.{Documented}
use cavern_lsd_wrapper.Deployment.{Deployment}
use cavern_lsd_wrapper.Pricing.Bounds.{le_of_mul_le}
use cavern_lsd_wrapper.Token.Store.{Store}
use cavern_lsd_wrapper.Token.Handler.{execute_burn}
use cavern_lsd_wrapper.Token.Handler.Prices.{execute_burn-pays}

-- A burn of at most the supply succeeds where no value exceeds its range, the library burns and the
-- payment can be serialized,
-- and the amount that it pays is one that a wrapper whose supply is backed holds.
pub execute_burn-payable :
    {I T S : Type 0} (p : Deployment I T S) (cap : ℕ) (doc : Documented p.host.decimals cap)
    (s : Store T S) (env : Env) (info : MessageInfo) (cfg : T) (rate held supply amount : ℕ)
    (ms : ℕ → List CosmosMsg) (x : S × Response)
    → s.lsd_config ≡ some cfg
    → p.hub.query_exchange_rate cfg p.host env ≡ ok rate
    → 0 < rate
    → amount * p.host.one < cap
    → amount * p.host.one * p.host.one / rate < cap
    → supply * p.host.one ≤ held * rate
    → amount ≤ supply
    → ((n : ℕ) → n ≤ held → p.hub.send_funds cfg p.host env n info.sender ≡ ok (ms n))
    → p.cw20.burn s.cw20 env info amount ≡ ok x
    → (n : ℕ) × (n ≤ held)
      × (n * rate ≤ amount * p.host.one)
      × (amount * p.host.one < (n + 1) * rate)
      × (execute_burn p s env info amount ≡ ok (record s { cw20 = x.0 }, add_messages (ms n) x.1))
execute_burn-payable p cap doc s env info cfg rate held supply amount ms x has_config rated rate_pos
      small fits backed part sends burns =
    let (n, burn, _, le, tight) =
      execute_burn-pays p cap doc s env info cfg rate has_config rated rate_pos info.sender amount
        small fits in
    let share : amount * p.host.one ≤ supply * p.host.one = mul-le-mul_right p.host.one part in
    let held_enough : n ≤ held = le_of_mul_le n held rate rate_pos (omega arith) in
    (n, held_enough, le, tight, burn ∙ rw (sends n held_enough, burns))

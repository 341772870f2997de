-- ===== src/Limited/Solvency/Burns.antt =====
-- The burns of the wrapper with a limit, and the backing of the supply.
use cavern_lsd_wrapper.Base.{ℕ, ◌+◌, ◌*◌, ◌≤◌, ◌≡◌, some, none, List, [], ok, err, panic, Option}
use cavern_lsd_wrapper.Std.{CosmosMsg, Env, MessageInfo, Response}
use cavern_lsd_wrapper.Std.Decimals.{Documented}
use cavern_lsd_wrapper.Basset.Wrapper
use cavern_lsd_wrapper.Basset.Wrapper.{ExecuteMsg}
use cavern_lsd_wrapper.Cw20.Supply.{Supplies}
use cavern_lsd_wrapper.Custody.{Custody}
use cavern_lsd_wrapper.Deployment.{Deployment}
use cavern_lsd_wrapper.Limited.Store.{Store}

-- The tokens that a burn is to destroy: those that it names, or all that the sender has.
abbrev pub burnt_amount :
    {I T S : Type 0} → Deployment I T S → Store T S → MessageInfo → ExecuteMsg → Option ℕ
burnt_amount p s info (Wrapper.ExecuteMsg.burn n) = some n
burnt_amount p s info (Wrapper.ExecuteMsg.burn_from owner n) = some n
burnt_amount p s info Wrapper.ExecuteMsg.burn_all = elim (p.cw20.query_balance s.cw20 info.sender) [
  | ok n ↦ some n
  | err e ↦ none
  | panic ↦ none
]
burnt_amount p s info _ = none

-- A burn of all by a sender who has none: nothing changes, and nothing is sent.
abbrev pub NothingBurnt : {T S : Type 0} → ExecuteMsg → ℕ → (s s' : Store T S) → Response → Type 0
NothingBurnt msg amount s s' r =
    (msg ≡ Wrapper.ExecuteMsg.burn_all) × (amount ≡ 0) × (s' ≡ s) × (r.messages ≡ [])

-- A payment to the caller for `amount` tokens that the library destroys, with the supply and the
-- holdings before and after: it exceeds their share of the holdings by no more than the rounding of
-- the rate, and what is left falls short of backing the supply by no more than the worth of that.
abbrev pub PaidShare :
    {I T S : Type 0}
    → Deployment I T S
    → Env
    → MessageInfo
    → T
    → (rate amount supply held supply' held' : ℕ) → Type 0
PaidShare p env info cfg rate amount supply held supply' held' =
    (payout : ℕ) × (ms : List CosmosMsg) × (p.hub.send_funds cfg p.host env payout info.sender
      ≡ ok ms)
    × (supply' + amount ≡ supply)
    × (payout * (supply * p.host.one) ≤ amount * held * p.host.one + payout * held)
    × (supply' * p.host.one * (supply * p.host.one)
        ≤ held' * rate * (supply * p.host.one) + payout * held * rate)

module _ {I T S : Type 0} (p : Deployment I T S) (cap : ℕ) (doc : Documented p.host.decimals cap)
    (s : Store T S) (env : Env) (info : MessageInfo) (cfg : T) (rate held : ℕ)
    (has_config : s.lsd_config ≡ some cfg)
    (holds : p.hub.get_balance cfg p.host env env.contract ≡ ok held) (supply : S → ℕ)
    (custody : Custody p.hub cfg) (laws : Supplies p.cw20 supply custody.Quiet)
    (runs : custody.Runs p.host) (held' : ℕ) (s' : Store T S) (r : Response)
    (after : custody.After env info r.messages held held')
    (backed : supply s.cw20 * p.host.one ≤ held * rate) where
  abbrev before : ℕ
  before = supply s.cw20

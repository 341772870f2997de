-- ===== src/Token/Deployed.antt =====
-- A wrapper from its deployment on (packages/cavern_lsd_wrapper_token/src/contract.rs,
-- `instantiate`): the tokens of the initial balances are the first that must be backed.
use cavern_lsd_wrapper.Base.{
  ℕ, ◌+◌, ◌*◌, ◌≤◌, ◌≡◌, String, List, [], ◌∷◌, some, none, ok, Outcome-cases, inl, inr, arith,
}
use cavern_lsd_wrapper.Std.{Env, MessageInfo, Response}
use cavern_lsd_wrapper.Std.Decimals.{Decimals, Documented}
use cavern_lsd_wrapper.Host.{Host}
use cavern_lsd_wrapper.Cw20.{Cw20, InstantiateMsg}
use cavern_lsd_wrapper.Cw20.Supply.{Supplies}
use cavern_lsd_wrapper.LsdHub.Trait.{LsdHub}
use cavern_lsd_wrapper.Custody.{Custody}
use cavern_lsd_wrapper.Token.Store.{Store, TokenInitMsg}
use cavern_lsd_wrapper.Token.Contract.{instantiate}
use cavern_lsd_wrapper.Token.Reach.{World, Run, IsSolvent, Run-IsSolvent, on}

abbrev pub total : List (String × ℕ) → ℕ
total [] = 0
total ((a, n) ∷ balances) = n + total balances

-- The library issues the initial balances, and nothing else.
abbrev pub IssuesInitial : {S : Type 0} → Cw20 S → (S → ℕ) → Type 0
IssuesInitial {S} c supply =
    (s : S) (env : Env) (info : MessageInfo) (msg : InstantiateMsg) (r : S × Response)
    → c.instantiate s env info msg ≡ ok r
    → supply r.0 ≡ total msg.initial_balances

module _ {I T S : Type 0} (hub : LsdHub I T) (cw20 : Cw20 S) (cfg : T) (custody : Custody hub cfg)
    (d : Decimals) (supply : S → ℕ) (issues : IssuesInitial cw20 supply) where
  instantiated :
      (h : Host) (s s' : Store T S) (env : Env) (info : MessageInfo) (msg : TokenInitMsg I)
      (r : Response)
      → hub.instantiate_config h msg.lsd_config ≡ ok cfg
      → instantiate (on hub cw20 cfg custody d h) s env info msg ≡ ok (s', r)
      → (s'.lsd_config ≡ some cfg) × (supply s'.cw20 ≡ total msg.initial_balances)
  unfolding instantiate
  instantiated h s s' env info msg r configured done =
      elim (Outcome-cases (h.addr_validate msg.hub_contract)) [
        | inr fails ↦ ground arith
        | inl (a, e) ↦
            elim (Outcome-cases (
              cw20.instantiate s.cw20 env info (record {
                name = msg.name;
                symbol = msg.symbol;
                decimals = msg.decimals;
                initial_balances = msg.initial_balances;
                minter = env.contract;
                cap = none;
                marketing = none;
              }))) [
                | inr fails ↦ ground arith
                | inl (x, made) ↦
                    let issued = issues s.cw20 env info _ x made in (ground arith, ground arith)
              ]
      ]

  -- A wrapper deployed with initial balances that are worth at most what it then holds is solvent
  -- in every world that a run of it leads to.
  pub deployed-IsSolvent :
      (cap : ℕ) (doc : Documented d cap) (laws : Supplies cw20 supply custody.Quiet) (h : Host)
      (s s' : Store T S) (env : Env) (info : MessageInfo) (msg : TokenInitMsg I) (r : Response)
      (held rate : ℕ) (v : World T S)
      → hub.instantiate_config h msg.lsd_config ≡ ok cfg
      → instantiate (on hub cw20 cfg custody d h) s env info msg ≡ ok (s', r)
      → total msg.initial_balances * d.one ≤ held * rate
      → Run hub cw20 cfg custody d (record { store = s'; held = held; rate = rate }) v
      → IsSolvent hub cw20 cfg custody d supply v
  deployed-IsSolvent cap doc laws h s s' env info msg r held rate v configured done backed run =
      let (stored, issued) = instantiated h s s' env info msg r configured done in
      Run-IsSolvent hub cw20 cfg custody d supply cap doc laws run
        (record { configured = stored; backed = rw issued backed })

-- ===== src/Contracts/Solvency.antt =====
-- The wrappers without a limit that are deployed (contracts/cavern-lsd-wrapper,
-- contracts/ampLuna-wrapper, contracts/bLuna-wrapper), each with the token that it wraps.
use cavern_lsd_wrapper.Base.{ℕ, ◌*◌, ◌≤◌, ◌≡◌, String, Option, some, ok, StdResult}
use cavern_lsd_wrapper.Std.{Addr, Binary, Env, MessageInfo, Response}
use cavern_lsd_wrapper.Std.Decimals.{Decimals, Documented}
use cavern_lsd_wrapper.Basset.Payload.{Payload}
use cavern_lsd_wrapper.Host.{Host}
use cavern_lsd_wrapper.Cw20.{Cw20}
use cavern_lsd_wrapper.Cw20.Supply.{Supplies}
use cavern_lsd_wrapper.Custody.Coins.{coin_custody}
use cavern_lsd_wrapper.Custody.Implementations.{steak_custody}
use cavern_lsd_wrapper.LsdHub.Coin.{StrideLsdConfig, stride_hub, instantiate_config}
use cavern_lsd_wrapper.LsdHub.Steak
use cavern_lsd_wrapper.LsdHub.Steak.{
  SteakLsdHub, steak_hub, AmpLunaStateResponse, amp_luna_state, BLunaStateResponse, b_luna_state,
}
use cavern_lsd_wrapper.Token.Store.{Store}
use cavern_lsd_wrapper.Token.Reach.{World, Run}
use cavern_lsd_wrapper.Token.Deployed.{total, IssuesInitial, deployed-IsSolvent}
use cavern_lsd_wrapper.Contracts.Coin.{StrideInitMsg}
use cavern_lsd_wrapper.Contracts.Steak.{SteakInitMsg}
use cavern_lsd_wrapper.Contracts.LsdWrapper
use cavern_lsd_wrapper.Contracts.AmpLuna
use cavern_lsd_wrapper.Contracts.BLuna

module _ {S : Type 0} (cw20 : Cw20 S) (supply : S → ℕ) (issues : IssuesInitial cw20 supply)
    (self : Addr) (cfg : StrideLsdConfig) (d : Decimals) (cap : ℕ) (doc : Documented d cap)
    (laws : Supplies cw20 supply (coin_custody self cfg).Quiet) where
  -- The wrapper of a native coin, deployed with initial balances that are worth at most what it
  -- then holds, keeps its configuration and stays backed, whatever calls succeed, as long as the
  -- rate of the coin does not fall.
  pub lsd_wrapper-IsSolvent :
      (h : Host) (s s' : Store StrideLsdConfig S) (env : Env) (info : MessageInfo)
      (msg : StrideInitMsg) (r : Response) (held rate : ℕ) (v : World StrideLsdConfig S)
      → instantiate_config h msg.lsd_config ≡ ok cfg
      → LsdWrapper.instantiate h cw20 s env info msg ≡ ok (s', r)
      → total msg.initial_balances * d.one ≤ held * rate
      → Run stride_hub cw20 cfg
          (coin_custody self cfg)
          d
          (record { store = s'; held = held; rate = rate })
          v
      → (v.store.lsd_config ≡ some cfg) × (supply v.store.cw20 * d.one ≤ v.held * v.rate)
  unfolding LsdWrapper.instantiate
  lsd_wrapper-IsSolvent h s s' env info msg r held rate v configured done backed run =
      let i =
        deployed-IsSolvent stride_hub cw20 cfg (coin_custody self cfg) d supply issues cap doc laws
          h s s' env info msg r held rate v configured done backed run in
      (i.configured, i.backed)

module _ {S : Type 0} (cw20 : Cw20 S) (supply : S → ℕ) (issues : IssuesInitial cw20 supply)
    (decode : Binary → Option Payload) (self : Addr)
    (query_state : String → Binary → StdResult AmpLunaStateResponse) (cfg : SteakLsdHub)
    (d : Decimals) (cap : ℕ) (doc : Documented d cap)
    (laws : Supplies cw20 supply
      (steak_custody decode self query_state amp_luna_state cfg).Quiet) where
  -- The wrapper of ampLuna, deployed with initial balances that are worth at most what it then holds,
  -- keeps its configuration and stays backed, whatever calls succeed, as long as the rate that the
  -- staking hub reports does not fall.
  pub amp_luna-IsSolvent :
      (h : Host) (s s' : Store SteakLsdHub S) (env : Env) (info : MessageInfo) (msg : SteakInitMsg)
      (r : Response) (held rate : ℕ) (v : World SteakLsdHub S)
      → Steak.instantiate_config h msg.lsd_config ≡ ok cfg
      → AmpLuna.instantiate query_state h cw20 s env info msg ≡ ok (s', r)
      → total msg.initial_balances * d.one ≤ held * rate
      → Run
          (steak_hub query_state amp_luna_state)
          cw20
          cfg
          (steak_custody decode self query_state amp_luna_state cfg)
          d
          (record { store = s'; held = held; rate = rate })
          v
      → (v.store.lsd_config ≡ some cfg) × (supply v.store.cw20 * d.one ≤ v.held * v.rate)
  unfolding AmpLuna.instantiate
  amp_luna-IsSolvent h s s' env info msg r held rate v configured done backed run =
      let i =
        deployed-IsSolvent (steak_hub query_state amp_luna_state) cw20 cfg
          (steak_custody decode self query_state amp_luna_state cfg) d supply issues cap doc laws h
          s s' env info msg r held rate v configured done backed run in
      (i.configured, i.backed)

module _ {S : Type 0} (cw20 : Cw20 S) (supply : S → ℕ) (issues : IssuesInitial cw20 supply)
    (decode : Binary → Option Payload) (self : Addr)
    (query_state : String → Binary → StdResult BLunaStateResponse) (cfg : SteakLsdHub)
    (d : Decimals) (cap : ℕ) (doc : Documented d cap)
    (laws : Supplies cw20 supply
      (steak_custody decode self query_state b_luna_state cfg).Quiet) where
  -- The same of the wrapper of bLuna.
  pub b_luna-IsSolvent :
      (h : Host) (s s' : Store SteakLsdHub S) (env : Env) (info : MessageInfo) (msg : SteakInitMsg)
      (r : Response) (held rate : ℕ) (v : World SteakLsdHub S)
      → Steak.instantiate_config h msg.lsd_config ≡ ok cfg
      → BLuna.instantiate query_state h cw20 s env info msg ≡ ok (s', r)
      → total msg.initial_balances * d.one ≤ held * rate
      → Run
          (steak_hub query_state b_luna_state)
          cw20
          cfg
          (steak_custody decode self query_state b_luna_state cfg)
          d
          (record { store = s'; held = held; rate = rate })
          v
      → (v.store.lsd_config ≡ some cfg) × (supply v.store.cw20 * d.one ≤ v.held * v.rate)
  unfolding BLuna.instantiate
  b_luna-IsSolvent h s s' env info msg r held rate v configured done backed run =
      let i =
        deployed-IsSolvent (steak_hub query_state b_luna_state) cw20 cfg
          (steak_custody decode self query_state b_luna_state cfg) d supply issues cap doc laws h s
          s' env info msg r held rate v configured done backed run in
      (i.configured, i.backed)

-- ===== src/Reward/Assets.antt =====
-- contracts/cavern-lsd-reward/src/global.rs: which assets a swap is about.
use cavern_lsd_wrapper.Base.{
  ◌≡◌, ◌≢◌, subst, String, List, [], ◌∷◌, ok, arith, ◌==◌, string_eq, nat_eq, Bool-cases, inl, inr,
  bind_succeeded, eq_false→ne, map_outcome, unwrap_or,
}
use cavern_lsd_wrapper.Base.Each.{Each}
use cavern_lsd_wrapper.Std.{Addr, Coin}
use cavern_lsd_wrapper.Basset.DexRouter.{token, native_token}
use cavern_lsd_wrapper.Host.{Host}
use cavern_lsd_wrapper.Reward.Swap.{Asset}
use cavern_lsd_wrapper.Reward.Querier.{query_token_balance, token_asset}
use cavern_lsd_wrapper.Reward.Global.{native_assets, nonzero_assets}

-- The asset is not the denomination's coin.
abbrev pub OtherThan : String → Asset → Type 0
OtherThan denom a = (d : String) → a.asset_info ≡ native_token d → denom ≢ d

pub native_assets-OtherThan :
    (denom : String) (coins : List Coin) → Each (OtherThan denom) (native_assets denom coins)
unfolding native_assets
native_assets-OtherThan denom [] = tt
native_assets-OtherThan denom (c ∷ coins) = elim (Bool-cases (denom == c.denom)) [
  | inl same ↦ rw same (native_assets-OtherThan denom coins)
  | inr other ↦ rw other (
    (λ d e.
        let same : c.denom ≡ d = ground arith in
        subst (λ (z : String). denom ≢ z) same (eq_false→ne denom c.denom other)),
    native_assets-OtherThan denom coins,
  )
]

pub nonzero_assets-OtherThan :
    (denom : String) (l : List Asset)
    → Each (OtherThan denom) l
    → Each (OtherThan denom) (nonzero_assets l)
unfolding nonzero_assets
nonzero_assets-OtherThan denom [] h = tt
nonzero_assets-OtherThan denom (a ∷ l) (first, rest) = elim (Bool-cases (a.amount == 0)) [
  | inl zero ↦ rw zero (nonzero_assets-OtherThan denom l rest)
  | inr some_left ↦ rw some_left (first, nonzero_assets-OtherThan denom l rest)
]

module _ (h : Host) (denom : String) where
  pub balances-OtherThan :
      (contract : Addr) (tokens : List Addr) (assets : List Asset)
      → map_outcome (token_asset h contract) tokens ≡ ok assets
      → Each (OtherThan denom) assets
  unfolding token_asset map_outcome
  balances-OtherThan contract [] assets made =
      let empty : [] ≡ assets = ground arith in
      subst (λ (l : List Asset). Each (OtherThan denom) l) empty tt
  balances-OtherThan contract (t ∷ tokens) assets made =
      let (first, e, more) = bind_succeeded (token_asset h contract t) _ made in
      let (others, f, same) = bind_succeeded (map_outcome (token_asset h contract) tokens) _ more in
      let joined : first ∷ others ≡ assets = cc in
      let (n, g, built) = bind_succeeded (unwrap_or (query_token_balance h t contract) 0) _ e in
      let is_token : first.asset_info ≡ token t = ground arith in
      subst (λ (l : List Asset). Each (OtherThan denom) l) joined
        ((λ d native. ground arith), balances-OtherThan contract tokens others f)

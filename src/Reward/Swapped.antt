-- ===== src/Reward/Swapped.antt =====
-- contracts/cavern-lsd-reward/src/global.rs: what a swap sends.
use cavern_lsd_wrapper.Base.{
  ◌≡◌, ◌≢◌, refl, subst, String, Option, some, List, [], ◌∷◌, ◌++◌, map, ok, arith, ◌==◌, string_eq,
  nat_eq, Bool-cases, Outcome-cases, Option-cases, inl, inr, ◌⊎◌, bind_succeeded, map_outcome,
}
use cavern_lsd_wrapper.Base.Each.{Each, Each-append, Each-map}
use cavern_lsd_wrapper.Std.{
  Addr, Coin, CosmosMsg, wasm_execute, bank_send, Env, MessageInfo, Response, SubMsg, sub_msg,
}
use cavern_lsd_wrapper.Basset.DexRouter.{
  AssetInfo, token, native_token, SwapMessageType, swap_message_types,
}
use cavern_lsd_wrapper.Basset.Reward
use cavern_lsd_wrapper.Host.{Host}
use cavern_lsd_wrapper.Reward.Store.{Store, Config, SwapConfig}
use cavern_lsd_wrapper.Basset.Payload.{cw20_send}
use cavern_lsd_wrapper.Reward.Swap.{
  get_contract_address, swap_operations, quotes, max_by_price, nth, Asset, create_swap_message_for,
  create_swap_msgs,
}
use cavern_lsd_wrapper.Reward.Querier.{token_asset, query_all_cw20_balances}
use cavern_lsd_wrapper.Reward.Global.{
  native_assets, nonzero_assets, swap_each, swap_balances, execute_swap,
}
use cavern_lsd_wrapper.Reward.Assets.{
  OtherThan, native_assets-OtherThan, nonzero_assets-OtherThan, balances-OtherThan,
}
use cavern_lsd_wrapper.Reward.Contract.{execute}

-- None of the coins is of the denomination.
abbrev pub NoCoinOf : String → List Coin → Type 0
NoCoinOf denom coins = Each (λ (c : Coin). denom ≢ c.denom) coins

-- The message calls a contract, and sends it no coin of the denomination.
abbrev pub KeepsDenom : String → CosmosMsg → Type 0
KeepsDenom denom (wasm_execute target b coins) = NoCoinOf denom coins
KeepsDenom denom (bank_send to coins) = ⊥

AssetInfo-cases :
    (i : AssetInfo) → ((a : Addr) × (i ≡ token a)) ⊎ ((d : String) × (i ≡ native_token d))
AssetInfo-cases (token a) = inl (a, refl)
AssetInfo-cases (native_token d) = inr (d, refl)

module _ (h : Host) (stored : Option SwapConfig) (denom : String) where
  message-KeepsDenom :
      (a : Asset) (t : SwapMessageType) (msg : CosmosMsg)
      → OtherThan denom a
      → create_swap_message_for h stored a denom t ≡ ok msg
      → KeepsDenom denom msg
  unfolding create_swap_message_for
  message-KeepsDenom a t msg other made = elim (Outcome-cases (get_contract_address stored t)) [
    | inr fails ↦ ground arith
    | inl (router, at) ↦
        elim (Outcome-cases
          (h.to_binary (swap_operations h stored a.asset_info (native_token denom) t))) [
            | inr fails ↦ elim (AssetInfo-cases a.asset_info) [
              | inl (contract, e) ↦ ground arith
              | inr (d, e) ↦ ground arith
            ]
            | inl (inner, written) ↦ elim (AssetInfo-cases a.asset_info) [
              | inl (contract, e) ↦
                  elim (Outcome-cases (h.to_binary (cw20_send router a.amount inner))) [
                    | inr fails ↦ ground arith
                    | inl (b, sent) ↦
                        let same : wasm_execute contract b [] ≡ msg = ground arith in
                        subst (λ (m : CosmosMsg). KeepsDenom denom m) same tt
                  ]
              | inr (d, e) ↦
                  let same : wasm_execute router inner
                        (record { denom = d; amount = a.amount } ∷ [])
                      ≡ msg =
                    ground arith in
                  subst (λ (m : CosmosMsg). KeepsDenom denom m) same (other d e, tt)
            ]
          ]
  ]

  -- A swap is no message, or one for some router.
  messages_cases :
      (a : Asset) (ms : List CosmosMsg)
      → create_swap_msgs h stored a denom ≡ ok ms
      → (ms ≡ [])
        ⊎ ((t : SwapMessageType) × (msg : CosmosMsg) × (create_swap_message_for h stored a denom t
              ≡ ok msg)
            × (ms ≡ msg ∷ []))
  unfolding create_swap_msgs
  messages_cases a ms made = elim (Outcome-cases (quotes h stored a denom 0 swap_message_types)) [
    | inr fails ↦ ground arith
    | inl (prices, quoted) ↦ elim (Option-cases (max_by_price prices)) [
      | inl unpriced ↦ inl (ground arith)
      | inr ((i, best), highest) ↦ elim (Bool-cases (best == 0)) [
        | inl worthless ↦ inl (ground arith)
        | inr worth ↦ elim (Option-cases (nth swap_message_types i)) [
          | inl missing ↦ ground arith
          | inr (t, at) ↦ elim (Outcome-cases (create_swap_message_for h stored a denom t)) [
            | inr fails ↦ ground arith
            | inl (msg, e) ↦ inr (t, msg, e, ground arith)
          ]
        ]
      ]
    ]
  ]

  messages-KeepsDenom :
      (a : Asset) (ms : List CosmosMsg)
      → OtherThan denom a
      → create_swap_msgs h stored a denom ≡ ok ms
      → Each (KeepsDenom denom) ms
  messages-KeepsDenom a ms other made = elim (messages_cases a ms made) [
    | inl none_sent ↦ rw none_sent tt
    | inr (t, msg, e, single) ↦ rw single (message-KeepsDenom a t msg other e, tt)
  ]

  swap_each-KeepsDenom :
      (l : List Asset) (ms : List CosmosMsg)
      → Each (OtherThan denom) l
      → swap_each h stored denom l ≡ ok ms
      → Each (KeepsDenom denom) ms
  unfolding swap_each
  swap_each-KeepsDenom [] ms other made =
      let none_sent : [] ≡ ms = cc in
      subst (λ (l : List CosmosMsg). Each (KeepsDenom denom) l) none_sent tt
  swap_each-KeepsDenom (a ∷ l) ms (first, rest) made =
      let (here, e, more) = bind_succeeded (create_swap_msgs h stored a denom) _ made in
      let (there, f, same) = bind_succeeded (swap_each h stored denom l) _ more in
      let joined : here ++ there ≡ ms = cc in
      subst (λ (z : List CosmosMsg). Each (KeepsDenom denom) z) joined
        (Each-append (KeepsDenom denom) here there (messages-KeepsDenom a here first e)
          (swap_each-KeepsDenom l there rest f))

-- The messages of a swap: those of the coins, and those of the tokens.
pub swap_balances-KeepsDenom :
    (h : Host) (stored : Option SwapConfig) (c : Config) (env : Env) (r : Response)
    → swap_balances h stored c env ≡ ok r
    → Each (λ (m : SubMsg). KeepsDenom c.reward_denom m.msg) r.messages
unfolding swap_balances query_all_cw20_balances
swap_balances-KeepsDenom h stored c env r made =
    let denom : String = c.reward_denom in
    let (coins, _, made1) = bind_succeeded (h.query_all_balances env.contract) _ made in
    let (natives, e, made2) =
      bind_succeeded (swap_each h stored denom (native_assets denom coins)) _ made1 in
    let (tokens, f, made3) =
      bind_succeeded (map_outcome (token_asset h env.contract) c.known_cw20_tokens) _ made2 in
    let (others, g, made4) =
      bind_succeeded (swap_each h stored denom (nonzero_assets tokens)) _ made3 in
    let sent : map sub_msg natives ++ map sub_msg others ≡ r.messages = ground arith in
    let first =
      swap_each-KeepsDenom h stored denom (native_assets denom coins) natives
        (native_assets-OtherThan denom coins) e in
    let second =
      swap_each-KeepsDenom h stored denom (nonzero_assets tokens) others
        (nonzero_assets-OtherThan denom tokens
          (balances-OtherThan h denom env.contract c.known_cw20_tokens tokens f))
        g in
    let kept : SubMsg → Type 0 = λ m. KeepsDenom denom m.msg in
    subst (λ (l : List SubMsg). Each kept l) sent
      (Each-append kept (map sub_msg natives) (map sub_msg others)
        (Each-map kept sub_msg natives first) (Each-map kept sub_msg others second))

-- A swap that succeeds was asked for by the hub and leaves the storage alone, and every message of
-- it calls a contract and sends it none of the reward denomination.
pub swap-KeepsDenom :
    (h : Host) (s s' : Store) (env : Env) (info : MessageInfo) (c : Config) (r : Response)
    → s.config ≡ some c
    → execute h s env info Reward.ExecuteMsg.swap_to_reward_denom ≡ ok (s', r)
    → (info.sender ≡ c.hub_contract)
      × (s' ≡ s)
      × Each (λ (m : SubMsg). KeepsDenom c.reward_denom m.msg) r.messages
unfolding execute execute_swap
swap-KeepsDenom h s s' env info c r configured done =
    elim (Bool-cases (info.sender == c.hub_contract)) [
      | inr other ↦ ground arith
      | inl hub ↦ elim (Outcome-cases (swap_balances h s.swap_config c env)) [
        | inr fails ↦ ground arith
        | inl (r', made) ↦
            let same : r' ≡ r = ground arith in
            (
              (string_eq.decides info.sender c.hub_contract).0 hub,
              ground arith,
              swap_balances-KeepsDenom h s.swap_config c env r (rw (← same) made),
            )
      ]
    ]

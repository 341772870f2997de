-- ===== src/Reward/Reach.antt =====
-- The storages of the reward contract (contracts/cavern-lsd-reward/src/contract.rs) that calls lead
-- to from its deployment.
use cavern_lsd_wrapper.Base.{
  ◌≡◌, refl, String, Option, none, some, List, [], ◌∷◌, ok, map_outcome, load, generic_err,
  bind_succeeded, ensure_succeeded, ◌==◌, string_eq, true, ap, ◌∙◌, arith,
}
use cavern_lsd_wrapper.Std.{Addr, Env, MessageInfo, Response}
use cavern_lsd_wrapper.Basset.Reward
use cavern_lsd_wrapper.Basset.Reward.{ExecuteMsg, InstantiateMsg}
use cavern_lsd_wrapper.Host.{Host}
use cavern_lsd_wrapper.Reward.Store.{Store, Config, SwapConfig, read_config}
use cavern_lsd_wrapper.Reward.Tokens.{Distinct, has_unique_elements-Distinct}
use cavern_lsd_wrapper.Reward.Contract.{
  has_unique_elements, duplicates_message, validated_or, validated_custody, validated_tokens,
  instantiate, execute, set_custody_contract,
}

-- A validated address has the text that was given.
abbrev pub SameText : Host → Type 0
SameText h = (raw : String) (a : Addr) → h.addr_validate raw ≡ ok a → a ≡ raw

-- The configuration is saved, with the hub and the denomination of the deployment, no token is
-- known twice, and the routers are saved.
pub record IsConfigured (hub : Addr) (denom : String) (s : Store) : Type 0 where
  pub config : Config
  pub routers : SwapConfig
  pub configured : s.config ≡ some config
  pub swap_configured : s.swap_config ≡ some routers
  pub same_hub : config.hub_contract ≡ hub
  pub same_denom : config.reward_denom ≡ denom
  pub distinct : Distinct config.known_cw20_tokens

module _ (h : Host) (same_text : SameText h) where
  mapped_same : (l l' : List String) → map_outcome h.addr_validate l ≡ ok l' → l' ≡ l
  unfolding map_outcome
  mapped_same [] l' e = ground arith
  mapped_same (x ∷ l) l' e =
      let (a, valid, e₁) = bind_succeeded (h.addr_validate x) _ e in
      let (as', rest, e₂) = bind_succeeded (map_outcome h.addr_validate l) _ e₁ in
      let first : a ≡ x = same_text x a valid in
      let later : as' ≡ l = mapped_same l as' rest in let whole : a ∷ as' ≡ l' = ground arith in cc

  -- Tokens that pass the test are distinct once validated.
  pub mapped-Distinct :
      (l l' : List String)
      → has_unique_elements l ≡ true
      → map_outcome h.addr_validate l ≡ ok l'
      → Distinct l'
  mapped-Distinct l l' unique mapped =
      rw (mapped_same l l' mapped) ((has_unique_elements-Distinct l).0 unique)

  pub validated_tokens-Distinct :
      (raw : Option (List String)) (old l : List Addr)
      → Distinct old
      → validated_tokens h raw old ≡ ok l
      → Distinct l
  validated_tokens-Distinct none old l distinct e =
      let same : old ≡ l = ground arith in rw (← same) distinct
  validated_tokens-Distinct (some raw) old l distinct e =
      let (unique, mapped) =
        ensure_succeeded (has_unique_elements raw) (generic_err duplicates_message)
          (map_outcome h.addr_validate raw) e in
      mapped-Distinct raw l unique mapped

  pub set_custody_contract-IsConfigured :
      (hub : Addr) (denom : String) (s s' : Store) (info : MessageInfo)
      (owner custody astroport phoenix terraswap : Option String) (tokens : Option (List String))
      (r : Response)
      → IsConfigured hub denom s
      → set_custody_contract h s info owner custody tokens astroport phoenix terraswap ≡ ok (s', r)
      → IsConfigured hub denom s'
  unfolding set_custody_contract
  set_custody_contract-IsConfigured hub denom s s' info owner custody astroport phoenix terraswap
        tokens r i e =
      let (c, saved, e₁) = bind_succeeded (read_config s) _ e in
      let (w, _, e₂) = bind_succeeded (load s.swap_config) _ e₁ in
      let (_, e₃) = ensure_succeeded (info.sender == c.owner) (generic_err "unauthorized") _ e₂ in
      let (o, _, e₄) = bind_succeeded (validated_or h owner c.owner) _ e₃ in
      let (v, _, e₅) = bind_succeeded (validated_custody h custody c.custody_contract) _ e₄ in
      let (x, _, e₆) = bind_succeeded (validated_or h astroport w.astroport_addr) _ e₅ in
      let (y, _, e₇) = bind_succeeded (validated_or h phoenix w.phoenix_addr) _ e₆ in
      let (z, _, e₈) = bind_succeeded (validated_or h terraswap w.terraswap_addr) _ e₇ in
      let (k, given, e₉) = bind_succeeded (validated_tokens h tokens c.known_cw20_tokens) _ e₈ in
      let same : c ≡ i.config = let known = i.configured in ground arith in
      let old : Distinct c.known_cw20_tokens = rw same i.distinct in
      record {
        config = record c { owner = o; custody_contract = v; known_cw20_tokens = k };
        routers = record { astroport_addr = x; phoenix_addr = y; terraswap_addr = z };
        configured = ground arith;
        swap_configured = ground arith;
        same_hub = ap (λ (d : Config). d.hub_contract) same ∙ i.same_hub;
        same_denom = ap (λ (d : Config). d.reward_denom) same ∙ i.same_denom;
        distinct = validated_tokens-Distinct tokens c.known_cw20_tokens k old given;
      }

  execute-IsConfigured :
      (hub : Addr) (denom : String) (s s' : Store) (env : Env) (info : MessageInfo)
      (msg : ExecuteMsg) (r : Response)
      → IsConfigured hub denom s
      → execute h s env info msg ≡ ok (s', r)
      → IsConfigured hub denom s'
  unfolding execute
  execute-IsConfigured hub denom s s' env info (Reward.ExecuteMsg.claim_rewards to) r i e =
      let same : s ≡ s' = ground arith in rw (← same) i
  execute-IsConfigured hub denom s s' env info Reward.ExecuteMsg.swap_to_reward_denom r i e =
      let same : s ≡ s' = ground arith in rw (← same) i
  execute-IsConfigured hub denom s s' env info
        (Reward.ExecuteMsg.update_config owner custody tokens astroport phoenix terraswap) r i e =
      set_custody_contract-IsConfigured hub denom s s' info owner custody astroport phoenix
        terraswap tokens r i e

  instantiate-IsConfigured :
      (hub : Addr) (s s' : Store) (env : Env) (info : MessageInfo) (msg : InstantiateMsg)
      (r : Response)
      → h.addr_validate msg.hub_contract ≡ ok hub
      → instantiate h s env info msg ≡ ok (s', r)
      → IsConfigured hub msg.reward_denom s'
  unfolding instantiate
  instantiate-IsConfigured hub s s' env info msg r valid e =
      let (unique, e₁) =
        ensure_succeeded (has_unique_elements msg.known_tokens) (generic_err duplicates_message) _
          e in
      let (a, here, e₂) = bind_succeeded (h.addr_validate msg.hub_contract) _ e₁ in
      let (k, mapped, e₃) = bind_succeeded (map_outcome h.addr_validate msg.known_tokens) _ e₂ in
      let (x, _, e₄) = bind_succeeded (h.addr_validate msg.astroport_addr) _ e₃ in
      let (y, _, e₅) = bind_succeeded (h.addr_validate msg.phoenix_addr) _ e₄ in
      let (z, _, e₆) = bind_succeeded (h.addr_validate msg.terraswap_addr) _ e₅ in
      record {
        config = record {
          owner = info.sender;
          hub_contract = a;
          custody_contract = none;
          reward_denom = msg.reward_denom;
          known_cw20_tokens = k;
        };
        routers = record { astroport_addr = x; phoenix_addr = y; terraswap_addr = z };
        configured = ground arith;
        swap_configured = ground arith;
        same_hub = ground arith;
        same_denom = refl;
        distinct = mapped-Distinct msg.known_tokens k unique mapped;
      }

-- The storages of a contract deployed for `hub` and `denom`. Each call has its own answers of the
-- chain.
pub data Reachable (hub : Addr) (denom : String) : Store → Type 0 where
  deployed :
      (h : Host) (s s' : Store) (env : Env) (info : MessageInfo) (msg : InstantiateMsg)
      (r : Response)
      → SameText h
      → h.addr_validate msg.hub_contract ≡ ok hub
      → msg.reward_denom ≡ denom
      → instantiate h s env info msg ≡ ok (s', r)
      → Reachable hub denom s'
  called :
      (h : Host) (s s' : Store) (env : Env) (info : MessageInfo) (msg : ExecuteMsg) (r : Response)
      → SameText h
      → Reachable hub denom s
      → execute h s env info msg ≡ ok (s', r)
      → Reachable hub denom s'

-- In every storage that calls lead to, the configuration and the routers are saved, the hub and the
-- reward denomination are those of the deployment, and no token is known twice.
pub Reachable-IsConfigured :
    (hub : Addr) (denom : String) (s : Store) → Reachable hub denom s → IsConfigured hub denom s
Reachable-IsConfigured hub denom s' (deployed h s _ env info msg r text valid same e) =
    rw (← same) (instantiate-IsConfigured h text hub s s' env info msg r valid e)
Reachable-IsConfigured hub denom s' (called h s _ env info msg r text before e) =
    execute-IsConfigured h text hub denom s s' env info msg r
      (Reachable-IsConfigured hub denom s before) e

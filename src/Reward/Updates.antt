-- ===== src/Reward/Updates.antt =====
-- contracts/cavern-lsd-reward/src/contract.rs: who may change the configuration, and how.
use cavern_lsd_wrapper.Base.{
  kept_or, ◌≡◌, ◌≢◌, refl, String, Option, none, some, List, [], ◌∷◌, ok, err, generic_err,
  map_option, map_outcome, option_or, arith, eq_self, ne→eq_false, true,
}
use cavern_lsd_wrapper.Std.{Addr, Env, MessageInfo}
use cavern_lsd_wrapper.Basset.Reward
use cavern_lsd_wrapper.Host.{Host}
use cavern_lsd_wrapper.Reward.Store.{Store, Config, SwapConfig}
use cavern_lsd_wrapper.Reward.Tokens.{Distinct, has_unique_elements-Distinct}
use cavern_lsd_wrapper.Reward.Contract.{
  has_unique_elements, validated_custody, validated_tokens, execute, set_custody_contract,
}

-- The given tokens repeat nothing, where any are given.
abbrev pub GivenDistinct : Option (List String) → Type 0
GivenDistinct none = Unit {0}
GivenDistinct (some l) = Distinct l

module _ (h : Host) where
  custody_eq :
      (raw : Option String) (v old : Option Addr)
      → map_option h.addr_validate raw ≡ ok v
      → validated_custody h raw old ≡ ok (kept_or v old)
  custody_eq none none old valid = refl
  custody_eq none (some v) old valid = cc
  custody_eq (some raw) none old valid = ground arith
  custody_eq (some raw) (some v) old valid = ground arith

  tokens_eq :
      (raw : Option (List String)) (v : Option (List Addr)) (old : List Addr)
      → GivenDistinct raw
      → map_option (map_outcome h.addr_validate) raw ≡ ok v
      → validated_tokens h raw old ≡ ok (option_or v old)
  tokens_eq none none old distinct valid = refl
  tokens_eq none (some v) old distinct valid = cc
  tokens_eq (some raw) none old distinct valid = ground arith
  tokens_eq (some raw) (some v) old distinct valid =
      let unique : has_unique_elements raw ≡ true = (has_unique_elements-Distinct raw).1 distinct in
      let mapped : map_outcome h.addr_validate raw ≡ ok v = ground arith in rw (unique, mapped)

  -- An update by the owner whose addresses are valid and whose tokens repeat nothing writes exactly
  -- the fields that it gives.
  pub update_config-writes_given :
      (s : Store) (env : Env) (info : MessageInfo) (c : Config) (w : SwapConfig)
      (owner custody astroport phoenix terraswap : Option String) (tokens : Option (List String))
      (owner' custody' astroport' phoenix' terraswap' : Option Addr) (tokens' : Option (List Addr))
      → s.config ≡ some c
      → s.swap_config ≡ some w
      → info.sender ≡ c.owner
      → map_option h.addr_validate owner ≡ ok owner'
      → map_option h.addr_validate custody ≡ ok custody'
      → map_option h.addr_validate astroport ≡ ok astroport'
      → map_option h.addr_validate phoenix ≡ ok phoenix'
      → map_option h.addr_validate terraswap ≡ ok terraswap'
      → GivenDistinct tokens
      → map_option (map_outcome h.addr_validate) tokens ≡ ok tokens'
      → execute h s env info
          (Reward.ExecuteMsg.update_config owner custody tokens astroport phoenix terraswap)
        ≡ ok (
          record s {
            config = some (record c {
              owner = option_or owner' c.owner;
              custody_contract = kept_or custody' c.custody_contract;
              known_cw20_tokens = option_or tokens' c.known_cw20_tokens;
            });
            swap_config = some (record {
              astroport_addr = option_or astroport' w.astroport_addr;
              phoenix_addr = option_or phoenix' w.phoenix_addr;
              terraswap_addr = option_or terraswap' w.terraswap_addr;
            });
          },
          record { messages = []; attributes = ("action", "set_custody_contract") ∷ [] },
        )
  unfolding execute set_custody_contract
  update_config-writes_given s env info c w owner custody astroport phoenix terraswap tokens owner'
        custody' astroport' phoenix' terraswap' tokens' e f same vo vc va vp vt distinct vk =
      simp (
        e,
        f,
        same,
        eq_self c.owner,
        vo,
        custody_eq custody custody' c.custody_contract vc,
        va,
        vp,
        vt,
        tokens_eq tokens tokens' c.known_cw20_tokens distinct vk,
      )

  -- An update by anyone but the owner is refused, whatever it gives.
  pub reward_update-unauthorized :
      (s : Store) (env : Env) (info : MessageInfo) (c : Config) (w : SwapConfig)
      (owner custody astroport phoenix terraswap : Option String) (tokens : Option (List String))
      → s.config ≡ some c
      → s.swap_config ≡ some w
      → info.sender ≢ c.owner
      → execute h s env info
          (Reward.ExecuteMsg.update_config owner custody tokens astroport phoenix terraswap)
        ≡ err (generic_err "unauthorized")
  unfolding execute set_custody_contract
  reward_update-unauthorized s env info c w owner custody astroport phoenix terraswap tokens e f
        ne =
      simp (e, f, ne→eq_false info.sender c.owner ne)

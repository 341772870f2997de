-- ===== src/Reward/Holders.antt =====
-- contracts/cavern-lsd-reward/src/state.rs: the pages of the stored holders.
use cavern_lsd_wrapper.Base.{
  ℕ, zero, suc, String, Option, List, [], ◌∷◌, map_outcome, min, ok, option_or, StdResult, ◌>>=◌,
}
use cavern_lsd_wrapper.Std.{Addr}
use cavern_lsd_wrapper.Basset.Reward.{HolderResponse}
use cavern_lsd_wrapper.Reward.Store.{Store, Holder, HolderMap}

abbrev pub max_limit : ℕ
max_limit = 30

abbrev pub default_limit : ℕ
default_limit = 10

-- The first `n` elements.
unfoldable pub take {ℓ} : {A : Type ℓ} → ℕ → List A → List A
take zero m = []
take (suc n) [] = []
take (suc n) (x ∷ m) = x ∷ take n m

abbrev pub holder_response : Addr × Holder → HolderResponse
holder_response (a, v) = record {
  address = a;
  balance = v.balance;
  index = v.index;
  pending_rewards = v.pending_rewards;
}

abbrev pub read_entry : StdResult (Addr × Holder) → StdResult HolderResponse
read_entry elem = elem >>= λ x. ok (holder_response x)

abbrev pub page_size : Option ℕ → ℕ
page_size limit = min (option_or limit default_limit) max_limit

unfoldable pub read_holders :
    HolderMap → Store → Option String → Option ℕ → StdResult (List HolderResponse)
unfolding take map_outcome
read_holders map s start_after limit =
    map_outcome read_entry (take (page_size limit) (map.range s.holders start_after))

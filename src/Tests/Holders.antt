-- ===== src/Tests/Holders.antt =====
-- Three stored holders, read one by one and in pages of two.
use Prim.Native.Nat.{Ordering}
use Prim.Native.String.{compare}
use cavern_lsd_wrapper.Base.{
  ℕ, ◌≡◌, refl, String, Option, none, some, List, [], ◌∷◌, map, ok, ◌==◌, string_eq, if◌then◌else◌,
  ◌>>=◌, arith,
}
use cavern_lsd_wrapper.Std.{Addr}
use cavern_lsd_wrapper.Reward.Store
use cavern_lsd_wrapper.Reward.Store.{Holder, HolderMap, store_holder, read_holder}
use cavern_lsd_wrapper.Reward.Holders.{holder_response}
use cavern_lsd_wrapper.Reward.Pages.{Ascending, beyond, Ranges, collect, read_holders-collect}

abbrev holder : ℕ → Holder
holder n = record { balance = n; index = 0; pending_rewards = 0 }

abbrev stored : Store.Store
stored = record {
  state = none;
  config = none;
  swap_config = none;
  holders = ("ann", holder 1) ∷ ("bob", holder 2) ∷ ("eve", holder 3) ∷ [];
}

ordered : Ascending stored.holders
ordered = ((refl, (refl, tt)), ((refl, tt), (tt, tt)))

-- A map that keeps its entries in the order of their addresses.
unfoldable found : Addr → List (Addr × Holder) → Option Holder
found a [] = none
found a ((b, v) ∷ m) = if a == b then some v else found a m

unfoldable inserted : Addr → Holder → List (Addr × Holder) → List (Addr × Holder)
inserted a v [] = (a, v) ∷ []
inserted a v ((b, w) ∷ m) =
    let rest = inserted a v m in
    elim (compare a b) [
      | Ordering.lt ↦ (a, v) ∷ (b, w) ∷ m
      | Ordering.eq ↦ (a, v) ∷ m
      | Ordering.gt ↦ (b, w) ∷ rest
    ]

abbrev entries_after : Option String → List (Addr × Holder) → List (Addr × Holder)
entries_after none m = m
entries_after (some start) m = beyond start m

abbrev entries : HolderMap
entries = record {
  save = λ m a v. ok (inserted a v m);
  may_load = λ m a. ok (found a m);
  range = λ m start. map ok (entries_after start m);
}

ranges : Ranges entries
ranges = record { all_law = λ m. refl; after_law = λ m start. refl }

-- A holder that is stored is read back, and one that is missing has nothing.
stored_read :
    ((store_holder entries stored "dan" (holder 7) >>= λ s. read_holder entries s "dan")
      ≡ ok (holder 7))
    × (read_holder entries stored "dan" ≡ ok (holder 0))
unfolding store_holder read_holder found inserted
stored_read = (refl, refl)

read_holders-collect_example :
    collect entries 4 stored (some 2) none
    ≡ ok (
        holder_response ("ann", holder 1)
        ∷ holder_response ("bob", holder 2)
        ∷ holder_response ("eve", holder 3)
        ∷ [])
read_holders-collect_example =
    read_holders-collect entries ranges stored (some 2) 1 refl ordered 4 (omega arith)

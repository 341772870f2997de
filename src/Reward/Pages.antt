-- ===== src/Reward/Pages.antt =====
-- contracts/cavern-lsd-reward/src/state.rs: the stored holders, and a reader that asks for page after
-- page.
use Prim.Native.String.{compare}
use text.Mathlib.Text.{is_lt}
use cavern_lsd_wrapper.Base.{
  if◌then◌else◌, map_outcome, ℕ, zero, suc, ◌+◌, ◌<◌, ◌≡◌, refl, sym, ap, subst, ◌∙◌, String,
  Option, none, some, List, [], ◌∷◌, ◌++◌, map, ok, err, generic_err, option_or, StdResult, ◌>>=◌,
  arith, string_eq,
}
use mathlib.Core.List.{append_assoc, map-append}
use cavern_lsd_wrapper.Base.TextOrder.{Precedes, not_before, not_before_self}
use cavern_lsd_wrapper.Std.{Addr}
use cavern_lsd_wrapper.Basset.Reward.{HolderResponse}
use cavern_lsd_wrapper.Reward.Store.{Store, Holder, HolderMap}
use cavern_lsd_wrapper.Reward.Holders.{take, holder_response, read_entry, page_size, read_holders}

-- All addresses of the entries come after `a`.
abbrev pub Above : Addr → List (Addr × Holder) → Type 0
Above a [] = Unit {0}
Above a (x ∷ m) = Precedes a x.0 × Above a m

-- The entries stand in the order of their addresses, each once.
abbrev pub Ascending : List (Addr × Holder) → Type 0
Ascending [] = Unit {0}
Ascending (x ∷ m) = Above x.0 m × Ascending m

-- The entries whose address comes after `start`.
unfoldable pub beyond : Addr → List (Addr × Holder) → List (Addr × Holder)
beyond start [] = []
beyond start ((a, v) ∷ m) =
    let rest = beyond start m in if is_lt (compare start a) then (a, v) ∷ rest else rest

-- What the map documents of its ranges: all entries, or those after an excluded key, each of which
-- can be read.
pub record Ranges (map_of : HolderMap) : Type 0 where
  pub all_law : (m : List (Addr × Holder)) → map_of.range m none ≡ map ok m
  pub after_law :
      (m : List (Addr × Holder)) (start : String)
      → map_of.range m (some start) ≡ map ok (beyond start m)

collected-take :
    (n : ℕ) (m : List (Addr × Holder))
    → map_outcome read_entry (take n (map ok m)) ≡ ok (map holder_response (take n m))
unfolding take map_outcome
collected-take zero m = refl
collected-take (suc n) [] = refl
collected-take (suc n) (x ∷ m) = rw (collected-take n m)

beyond-Above : (a : Addr) (m : List (Addr × Holder)) → Above a m → beyond a m ≡ m
unfolding beyond
beyond-Above a [] h = refl
beyond-Above a (x ∷ m) (first, rest) = rw (first, beyond-Above a m rest)

Above-at :
    (b : Addr) (l : List (Addr × Holder)) (x : Addr × Holder) (m : List (Addr × Holder))
    → Above b (l ++ (x ∷ m))
    → Precedes b x.0
Above-at b [] x m h = h.0
Above-at b (y ∷ l) x m h = Above-at b l x m h.1

-- What comes after an entry's address is what stands behind it.
beyond_split :
    (l : List (Addr × Holder)) (x : Addr × Holder) (m : List (Addr × Holder))
    → Ascending (l ++ (x ∷ m))
    → beyond x.0 (l ++ (x ∷ m)) ≡ m
unfolding beyond
beyond_split [] x m (above, rest) = rw (not_before_self x.0) (beyond-Above x.0 m above)
beyond_split (y ∷ l) x m (above, rest) =
    rw (not_before x.0 y.0 (Above-at y.0 l x m above)) (beyond_split l x m rest)

-- How many entries there are.
abbrev pub length : List (Addr × Holder) → ℕ
length [] = 0
length (x ∷ m) = length m + 1

-- The address that a page ends with.
unfoldable pub last_address : List HolderResponse → Option String
last_address [] = none
last_address (r ∷ rs) = let later = last_address rs in some (option_or later r.address)

last_address-append :
    (rs : List HolderResponse) (r : HolderResponse) → last_address (rs ++ (r ∷ [])) ≡ some r.address
unfolding last_address
last_address-append [] r = refl
last_address-append (q ∷ rs) r = rw (last_address-append rs r)

-- What a reader does with a page: it asks for what comes after the page's last address.
abbrev pub go_on :
    (String → StdResult (List HolderResponse))
    → List HolderResponse
    → Option String
    → StdResult (List HolderResponse)
go_on ask page none = ok []
go_on ask page (some a) = ask a >>= λ later. ok (page ++ later)

-- A reader that asks for page after page, until one is empty.
unfoldable pub collect :
    HolderMap → ℕ → Store → Option ℕ → Option String → StdResult (List HolderResponse)
collect map_of zero s limit start = err (generic_err "more pages")
collect map_of (suc fuel) s limit start = read_holders map_of s start limit >>= λ page.
    go_on (λ a. collect map_of fuel s limit (some a)) page (last_address page)

take-nil : (n : ℕ) → take {A = Addr × Holder} (suc n) [] ≡ []
unfolding take
take-nil n = refl

-- A page that is not empty ends with an entry, behind which the others stand.
take_split :
    (n : ℕ) (x : Addr × Holder) (m : List (Addr × Holder))
    → (l : List (Addr × Holder)) × (y : Addr × Holder) × (after : List (Addr × Holder)) × (x ∷ m
        ≡ l ++ (y ∷ after))
      × (take (suc n) (x ∷ m) ≡ l ++ (y ∷ []))
      × (length after < length (x ∷ m))
unfolding take
take_split zero x m = ([], x, m, refl, refl, omega arith)
take_split (suc n) x [] = ([], x, [], refl, refl, omega arith)
take_split (suc n) x (z ∷ m) =
    let (l, y, after, whole, page, less) = take_split n z m in
    (x ∷ l, y, after, ap (λ k. x ∷ k) whole, ap (λ k. x ∷ k) page, omega arith)

module _ (map_of : HolderMap) (ranges : Ranges map_of) (s : Store) (limit : Option ℕ) where
  collect_last :
      (fuel : ℕ) (start : Option String)
      → read_holders map_of s start limit ≡ ok []
      → collect map_of (suc fuel) s limit start ≡ ok []
  unfolding collect last_address
  collect_last fuel start e = rw e

  collect_more :
      (fuel : ℕ) (start : Option String) (page later : List HolderResponse) (a : String)
      → read_holders map_of s start limit ≡ ok page
      → last_address page ≡ some a
      → collect map_of fuel s limit (some a) ≡ ok later
      → collect map_of (suc fuel) s limit start ≡ ok (page ++ later)
  unfolding collect
  collect_more fuel start page later a e last more =
      rw e (ap (go_on (λ a. collect map_of fuel s limit (some a)) page) last ∙ rw more)

  -- What a page shows, where `rest` comes after `start`.
  read_rest :
      (n : ℕ) (start : Option String) (rest page : List (Addr × Holder))
      → page_size limit ≡ n
      → map_of.range s.holders start ≡ map ok rest
      → take n rest ≡ page
      → read_holders map_of s start limit ≡ ok (map holder_response page)
  unfolding read_holders
  read_rest n start rest page size left taken = rw (left, size, collected-take n rest, taken)

module _ (map_of : HolderMap) (ranges : Ranges map_of) (s : Store) (limit : Option ℕ) (n : ℕ)
    (size : page_size limit ≡ suc n) (ordered : Ascending s.holders) where
  collect_rest :
      (fuel : ℕ) (start : Option String) (before rest : List (Addr × Holder))
      → s.holders ≡ before ++ rest
      → map_of.range s.holders start ≡ map ok rest
      → length rest < fuel
      → collect map_of fuel s limit start ≡ ok (map holder_response rest)
  collect_rest zero start before rest whole left h = absurd (omega arith)
  collect_rest (suc fuel) start before [] whole left h =
      collect_last map_of ranges s limit fuel start
        (read_rest map_of ranges s limit (suc n) start [] [] size left (take-nil n))
  collect_rest (suc fuel) start before (x ∷ m) whole left h =
      let (l, y, after, all, page, less) = take_split n x m in
      let at : s.holders ≡ (before ++ l) ++ (y ∷ after) =
        whole ∙ ap (λ k. before ++ k) all ∙ sym (append_assoc before l (y ∷ after)) in
      let behind : beyond y.0 s.holders ≡ after = rw at (
        beyond_split (before ++ l) y after
          (subst (λ (k : List (Addr × Holder)). Ascending k) at ordered)) in
      let later : collect map_of fuel s limit (some y.0) ≡ ok (map holder_response after) =
        collect_rest fuel (some y.0) ((before ++ l) ++ (y ∷ [])) after
          (at ∙ sym (append_assoc (before ++ l) (y ∷ []) after))
          (ranges.after_law s.holders y.0 ∙ ap (λ k. map ok k) behind) (omega arith) in
      let shown : read_holders map_of s start limit
          ≡ ok (map holder_response l ++ (holder_response y ∷ [])) =
        read_rest map_of ranges s limit (suc n) start (x ∷ m) (l ++ (y ∷ [])) size left page
        ∙ ap ok (map-append holder_response l (y ∷ [])) in
      let joined : map holder_response (x ∷ m)
          ≡ (map holder_response l ++ (holder_response y ∷ [])) ++ map holder_response after =
        ap (λ k. map holder_response k) all
        ∙ map-append holder_response l (y ∷ after)
        ∙ sym (
            append_assoc (map holder_response l) (holder_response y ∷ [])
              (map holder_response after)) in
      collect_more map_of ranges s limit fuel start
        (map holder_response l ++ (holder_response y ∷ [])) (map holder_response after) y.0 shown
        (last_address-append (map holder_response l) (holder_response y)) later
      ∙ ap ok (sym joined)

  -- A reader that asks for page after page gets every holder once, in the order of the addresses,
  -- and needs no more requests than there are holders, and one.
  pub read_holders-collect :
      (fuel : ℕ)
      → length s.holders < fuel
      → collect map_of fuel s limit none ≡ ok (map holder_response s.holders)
  read_holders-collect fuel h =
      collect_rest fuel none [] s.holders refl (ranges.all_law s.holders) h

-- ===== src/Reward/Tokens.antt =====
-- contracts/cavern-lsd-reward/src/contract.rs: the test that no token is known twice.
use cavern_lsd_wrapper.Base.{
  ◌≡◌, ◌≢◌, ◌↔◌, sym, String, List, [], ◌∷◌, true, false, string_eq, refl, eq_false→ne, ne→eq_false,
  arith,
}
use cavern_lsd_wrapper.Reward.Contract.{contains, all_new, has_unique_elements}

-- `x` is none of the texts.
abbrev pub Absent : String → List String → Type 0
Absent x [] = Unit {0}
Absent x (y ∷ ys) = (x ≢ y) × Absent x ys

-- No two of the texts are the same.
abbrev pub Distinct : List String → Type 0
Distinct [] = Unit {0}
Distinct (x ∷ xs) = Absent x xs × Distinct xs

-- None of the texts is in `seen`.
abbrev New : List String → List String → Type 0
New seen [] = Unit {0}
New seen (x ∷ xs) = Absent x seen × New seen xs

contains-Absent : (x : String) (l : List String) → contains x l ≡ false → Absent x l
contains-Absent x [] h = tt
contains-Absent x (y ∷ ys) h = (eq_false→ne x y (ground arith), contains-Absent x ys (ground arith))

contains_of_none : (x : String) (l : List String) → Absent x l → contains x l ≡ false
contains_of_none x [] h = refl
contains_of_none x (y ∷ ys) (ne, rest) = rw (ne→eq_false x y ne, contains_of_none x ys rest)

New-split : (x : String) (seen l : List String) → New (x ∷ seen) l → New seen l × Absent x l
New-split x seen [] h = (tt, tt)
New-split x seen (y ∷ ys) ((ne, old), rest) =
    let (later, apart) = New-split x seen ys rest in
    ((old, later), ((λ same. ne (sym same)), apart))

New-join : (x : String) (seen l : List String) → New seen l → Absent x l → New (x ∷ seen) l
New-join x seen [] h k = tt
New-join x seen (y ∷ ys) (old, later) (ne, apart) =
    (((λ same. ne (sym same)), old), New-join x seen ys later apart)

all_new_sound : (seen l : List String) → all_new seen l ≡ true → New seen l × Distinct l
unfolding all_new
all_new_sound seen [] h = (tt, tt)
all_new_sound seen (x ∷ xs) h =
    let old : contains x seen ≡ false = ground arith in
    let rest : all_new (x ∷ seen) xs ≡ true = ground arith in
    let (later, distinct) = all_new_sound (x ∷ seen) xs rest in
    let (new, apart) = New-split x seen xs later in
    ((contains-Absent x seen old, new), (apart, distinct))

all_new_complete : (seen l : List String) → New seen l → Distinct l → all_new seen l ≡ true
unfolding all_new
all_new_complete seen [] h k = refl
all_new_complete seen (x ∷ xs) (old, new) (apart, distinct) =
    rw (contains_of_none x seen old)
      (all_new_complete (x ∷ seen) xs (New-join x seen xs new apart) distinct)

none_seen : (l : List String) → New [] l
none_seen [] = tt
none_seen (x ∷ xs) = (tt, none_seen xs)

-- The test passes exactly when no two of the tokens are the same.
pub has_unique_elements-Distinct : (l : List String) → (has_unique_elements l ≡ true) ↔ Distinct l
unfolding has_unique_elements
has_unique_elements-Distinct l =
    (λ h. (all_new_sound [] l h).1, λ distinct. all_new_complete [] l (none_seen l) distinct)

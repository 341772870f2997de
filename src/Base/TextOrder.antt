-- ===== src/Base/TextOrder.antt =====
-- The order of texts, which is that of their bytes: it is transitive, and any two texts compare.
use Prim.Native.Nat.{ℕ, ◌<◌, Ordering, compare as compare_ℕ}
use Prim.Native.Char.{Char, code}
use Prim.Native.String.{String, [], ◌∷◌, then, compare}
use Prim.Native.String.compare
use mathlib.Core.Path.{◌≡◌, refl, sym, ◌∙◌, ap}
use mathlib.Core.Logic.{◌⊎◌, inl, inr}
use mathlib.Core.Bool.{false}
use native.Mathlib.Omega.{arith}
use text.Mathlib.Text.{is_lt}
use text.Mathlib.TextPositions.{compare_refl}

-- `a` comes before `b`.
abbrev pub Precedes : String → String → Type 0
Precedes a b = compare a b ≡ Ordering.lt

nat_lt : (m n : ℕ) → compare_ℕ m n ≡ Ordering.lt → m < n
nat_lt m n h = ground arith

nat_eq : (m n : ℕ) → compare_ℕ m n ≡ Ordering.eq → m ≡ n
nat_eq m n h = ground arith

lt_nat : (m n : ℕ) → m < n → compare_ℕ m n ≡ Ordering.lt
lt_nat m n h = ground arith

self_nat : (m n : ℕ) → m ≡ n → compare_ℕ m n ≡ Ordering.eq
self_nat m n h = ground arith

then_lt :
    (o r : Ordering)
    → then o r ≡ Ordering.lt
    → (o ≡ Ordering.lt) ⊎ ((o ≡ Ordering.eq) × (r ≡ Ordering.lt))
then_lt Ordering.lt r h = inl refl
then_lt Ordering.eq r h = inr (refl, h)
then_lt Ordering.gt r h = cc

-- A text precedes another by its first character, or by the rest where those are the same.
Precedes-head :
    (c d : Char) (s t : String)
    → (code c < code d) ⊎ ((code c ≡ code d) × Precedes s t)
    → Precedes (c ∷ s) (d ∷ t)
Precedes-head c d s t (inl less) =
    compare.cons-cons c d s t ∙ ap (λ o. then o (compare s t)) (lt_nat (code c) (code d) less)
Precedes-head c d s t (inr (same, rest)) =
    compare.cons-cons c d s t
    ∙ ap (λ o. then o (compare s t)) (self_nat (code c) (code d) same)
    ∙ rest

Precedes-cases :
    (c d : Char) (s t : String)
    → Precedes (c ∷ s) (d ∷ t)
    → (code c < code d) ⊎ ((code c ≡ code d) × Precedes s t)
Precedes-cases c d s t h =
    elim (then_lt (compare_ℕ (code c) (code d)) (compare s t)
      (sym (compare.cons-cons c d s t) ∙ h)) [
        | inl less ↦ inl (nat_lt (code c) (code d) less)
        | inr (same, rest) ↦ inr (nat_eq (code c) (code d) same, rest)
      ]

Precedes-trans : (a b c : String) → Precedes a b → Precedes b c → Precedes a c
Precedes-trans a [] [] h k = let same : Ordering.eq ≡ Ordering.lt = k in cc
Precedes-trans [] (d ∷ t) [] h k =
    let no : Ordering.gt ≡ Ordering.lt = sym (compare.cons-nil d t) ∙ k in cc
Precedes-trans [] b (e ∷ u) h k = compare.nil-cons e u
Precedes-trans (c ∷ s) [] u h k =
    let no : Ordering.gt ≡ Ordering.lt = sym (compare.cons-nil c s) ∙ h in cc
Precedes-trans (c ∷ s) (d ∷ t) [] h k =
    let no : Ordering.gt ≡ Ordering.lt = sym (compare.cons-nil d t) ∙ k in cc
Precedes-trans (c ∷ s) (d ∷ t) (e ∷ u) h k =
    Precedes-head c e s u (elim (Precedes-cases c d s t h) [
      | inl less ↦ elim (Precedes-cases d e t u k) [
        | inl later ↦ inl (omega arith)
        | inr (same, _) ↦ inl (omega arith)
      ]
      | inr (same, rest) ↦ elim (Precedes-cases d e t u k) [
        | inl later ↦ inl (omega arith)
        | inr (equal, tail) ↦ inr (omega arith, Precedes-trans s t u rest tail)
      ]
    ])

pub not_before_self : (a : String) → is_lt (compare a a) ≡ false
not_before_self a = rw (compare_refl a)

-- Of two texts at most one comes before the other.
not_both : (a b : String) (o : Ordering) → compare a b ≡ o → Precedes b a → is_lt o ≡ false
not_both a b Ordering.lt e h =
    let no : Ordering.eq ≡ Ordering.lt = sym (compare_refl a) ∙ Precedes-trans a b a e h in cc
not_both a b Ordering.eq e h = refl
not_both a b Ordering.gt e h = refl

pub not_before : (a b : String) → Precedes b a → is_lt (compare a b) ≡ false
not_before a b h = not_both a b (compare a b) refl h

-- ===== src/Base/Each.antt =====
-- A property of every element of a list.
use mathlib.Core.List.{List, [], ◌∷◌, ◌++◌, map}

abbrev pub Each {ℓ ℓ'} : {A : Type ℓ} → (A → Type ℓ') → List A → Type ℓ'
Each P [] = Unit
Each P (x ∷ l) = P x × Each P l

pub Each-append {ℓ ℓ'} :
    {A : Type ℓ} (P : A → Type ℓ') (l m : List A) → Each P l → Each P m → Each P (l ++ m)
Each-append P [] m p q = q
Each-append P (x ∷ l) m (first, rest) q = (first, Each-append P l m rest q)

pub Each-map {ℓ ℓ' ℓ''} :
    {A : Type ℓ} {B : Type ℓ'} (P : B → Type ℓ'') (f : A → B) (l : List A)
    → Each (λ x. P (f x)) l
    → Each P (map f l)
Each-map P f [] h = tt
Each-map P f (x ∷ l) (first, rest) = (first, Each-map P f l rest)

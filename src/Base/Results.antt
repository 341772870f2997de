-- ===== src/Base/Results.antt =====
-- How a call ends: with a value, with an `Err`, or with a panic, which no handler catches and which
-- aborts the transaction.
use Prim.Native.String.{String}
use mathlib.Core.Path.{◌≡◌, refl}
use mathlib.Core.Bool.{Bool, true, false}
use mathlib.Core.Logic.{◌⊎◌, inl, inr}
use mathlib.Core.Option.{Option, none, some}
use mathlib.Core.List.{List, [], ◌∷◌}

pub data Outcome {ℓ κ} (E : Type ℓ) (A : Type κ) : Type (ℓ ⊔ κ) where
  ok : A → Outcome E A
  err : E → Outcome E A
  panic : Outcome E A

module _ {ℓ κ μ} {E : Type ℓ} {A : Type κ} {B : Type μ} where
  infixl 5 ◌>>=◌
  -- The `?` operator, and a panic ends the call as well.
  abbrev pub ◌>>=◌ : Outcome E A → (A → Outcome E B) → Outcome E B
  panic >>= k = panic
  err e >>= k = err e
  ok a >>= k = k a

-- `cosmwasm_std::StdError`: the variant that the contracts build, the one of an `Item` that was
-- never saved, and any other that a library returns.
pub data StdError : Type 0 where
  generic_err : String → StdError
  not_found : StdError
  other_std : String → StdError

-- `cw20_base::ContractError`, likewise.
pub data ContractError : Type 0 where
  std : StdError → ContractError
  unauthorized : ContractError
  other_cw20 : String → ContractError

abbrev pub StdResult : Type 0 → Type 0
StdResult A = Outcome StdError A

abbrev pub ContractResult : Type 0 → Type 0
ContractResult A = Outcome ContractError A

infixl 5 ◌>>◌
abbrev pub ◌>>◌ {ℓ μ} : {E : Type ℓ} {B : Type μ} → Outcome E (Unit {0}) → Outcome E B → Outcome E B
first >> rest = first >>= λ _. rest

-- An early return under a test.
abbrev pub ensure {ℓ} : {E : Type ℓ} → Bool → E → Outcome E (Unit {0})
ensure true e = ok tt
ensure false e = err e

module _ {ℓ κ} {E : Type ℓ} {A : Type κ} where
  -- An operation that panics where it has no result.
  abbrev pub or_panic : Option A → Outcome E A
  or_panic (some a) = ok a
  or_panic none = panic

  -- `ok_or`
  abbrev pub ok_or : Option A → E → Outcome E A
  ok_or (some a) e = ok a
  ok_or none e = err e

  -- `unwrap`
  abbrev pub unwrap : Outcome E A → Outcome E A
  unwrap (ok a) = ok a
  unwrap (err e) = panic
  unwrap panic = panic

  -- `unwrap_or_else(|_| a)` and `or_else(|_| Ok(a))`: a panic is not an `Err`.
  abbrev pub unwrap_or : Outcome E A → A → Outcome E A
  unwrap_or (ok a) d = ok a
  unwrap_or (err e) d = ok d
  unwrap_or panic d = panic

-- `map_err`
abbrev pub map_err {ℓ κ μ} :
    {E : Type ℓ} {F : Type κ} {A : Type μ} → (E → F) → Outcome E A → Outcome F A
map_err f (ok a) = ok a
map_err f (err e) = err (f e)
map_err f panic = panic

-- `?` on a `StdResult` where the caller returns a `ContractError`.
abbrev pub from_std {κ} : {A : Type κ} → Outcome StdError A → Outcome ContractError A
from_std = map_err std

-- `Item::load` on the optional content of the item.
abbrev pub load {κ} : {A : Type κ} → Option A → Outcome StdError A
load o = ok_or o not_found

-- `collect::<StdResult<Vec<_>>>()` after `map`: the first `Err` ends it.
unfoldable pub map_outcome {ℓ κ μ} :
    {E : Type ℓ} {A : Type κ} {B : Type μ} → (A → Outcome E B) → List A → Outcome E (List B)
map_outcome f [] = ok []
map_outcome f (a ∷ as') = f a >>= λ b. map_outcome f as' >>= λ bs. ok (b ∷ bs)

-- `map(f).transpose()` on an optional argument.
abbrev pub map_option {ℓ κ μ} :
    {E : Type ℓ} {A : Type κ} {B : Type μ} → (A → Outcome E B) → Option A → Outcome E (Option B)
map_option f none = ok none
map_option f (some a) = f a >>= λ b. ok (some b)

abbrev pub option_or {κ} : {A : Type κ} → Option A → A → A
option_or (some a) d = a
option_or none d = d

-- What a successful bind comes from.
pub bind_succeeded {ℓ κ μ} :
    {E : Type ℓ} {A : Type κ} {B : Type μ} (m : Outcome E A) (k : A → Outcome E B) {b : B}
    → (m >>= k) ≡ ok b
    → (a : A) × (m ≡ ok a) × (k a ≡ ok b)
bind_succeeded panic k h = cc
bind_succeeded (err e) k h = cc
bind_succeeded (ok a) k h = (a, refl, h)

pub ensure_succeeded {ℓ κ} :
    {E : Type ℓ} {A : Type κ} (b : Bool) (e : E) (rest : Outcome E A) {a : A}
    → (ensure b e >> rest) ≡ ok a
    → (b ≡ true) × (rest ≡ ok a)
ensure_succeeded false e rest h = cc
ensure_succeeded true e rest h = (refl, h)

pub Outcome-cases {ℓ κ} :
    {E : Type ℓ} {A : Type κ} (m : Outcome E A)
    → ((a : A) × (m ≡ ok a)) ⊎ (((e : E) × (m ≡ err e)) ⊎ (m ≡ panic))
Outcome-cases (ok a) = inl (a, refl)
Outcome-cases (err e) = inr (inl (e, refl))
Outcome-cases panic = inr (inr refl)

pub >>=_assoc {ℓ κ μ ν} :
    {E : Type ℓ} {A : Type κ} {B : Type μ} {C : Type ν} (m : Outcome E A) (f : A → Outcome E B)
    (g : B → Outcome E C)
    → ((m >>= f) >>= g) ≡ (m >>= λ a. f a >>= g)
>>=_assoc (ok a) f g = refl
>>=_assoc (err e) f g = refl
>>=_assoc panic f g = refl

-- A field that is written where a value is given, and kept otherwise.
abbrev pub kept_or {κ} : {A : Type κ} → Option A → Option A → Option A
kept_or (some a) old = some a
kept_or none old = old

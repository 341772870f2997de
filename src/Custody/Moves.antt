-- ===== src/Custody/Moves.antt =====
-- Transfers of one token, and what they do to the holdings of one account.
use cavern_lsd_wrapper.Base.{
  ℕ, ◌+◌, ◌-◌, Option, none, some, List, [], ◌∷◌, ◌++◌, leb, ◌==◌, string_eq, if◌then◌else◌, ◌≡◌,
  refl, ◌≢◌, ◌≤◌, arith, ne→eq_false, eq_self,
}
use mathlib.Core.List.{append-eq-nil_iff}
use cavern_lsd_wrapper.Std.{Addr, CosmosMsg, SubMsg}

pub record Move : Type 0 where
  pub payer : Addr
  pub payee : Addr
  pub amount : ℕ

-- One transfer fails where the account does not hold the amount.
abbrev pub move_once : Addr → Move → ℕ → Option ℕ
move_once account m held =
    if m.payer == account
    then if leb m.amount held
      then some (if m.payee == account then held else held - m.amount)
      else none
    else some (if m.payee == account then held + m.amount else held)

abbrev pub move_all : Addr → List Move → ℕ → Option ℕ
move_all account [] held = some held
move_all account (m ∷ ms) held = elim (move_once account m held) [
  | none ↦ none
  | some left ↦ move_all account ms left
]

-- The transfers of a response's messages, where `f` gives those of one message.
abbrev pub moves_of : (CosmosMsg → List Move) → List SubMsg → List Move
moves_of f [] = []
moves_of f (m ∷ ms) = f m.msg ++ moves_of f ms

-- Messages that move nothing change nothing in front of others.
pub moves_of-append :
    (f : CosmosMsg → List Move) (qs ms : List SubMsg)
    → moves_of f qs ≡ []
    → moves_of f (qs ++ ms) ≡ moves_of f ms
moves_of-append f [] ms quiet = refl
moves_of-append f (q ∷ qs) ms quiet =
    let (first, rest) = (append-eq-nil_iff {p = f q.msg} {q = moves_of f qs}).0 quiet in
    rw (first, moves_of-append f qs ms rest)

pub move_all-deposit :
    (self from : Addr) (n a b : ℕ)
    → from ≢ self
    → move_all self (record { payer = from; payee = self; amount = n } ∷ []) a ≡ some b
    → b ≡ a + n
move_all-deposit self from n a b ne h = grind (arith, ne→eq_false from self ne, eq_self self)

pub move_all-pay :
    (self to : Addr) (n a b : ℕ)
    → move_all self (record { payer = self; payee = to; amount = n } ∷ []) a ≡ some b
    → a ≤ b + n
move_all-pay self to n a b h = ground (arith, eq_self self)

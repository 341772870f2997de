-- ===== src/Base/Floor.antt =====
-- Laws of division that rounds down, in products only.
use Prim.Native.Nat.{ℕ, ◌+◌, ◌*◌, ◌/◌, ◌≤◌, ◌<◌}
use native.Mathlib.Nat.{div-mul-le_self, lt-div-mul-add}
use native.Mathlib.Omega.{arith}

pub div-mul-le : (n d : ℕ) → n / d * d ≤ n
div-mul-le n d = div-mul-le_self n d

pub lt-suc-div-mul : (n d : ℕ) → 0 < d → n < (n / d + 1) * d
lt-suc-div-mul n d h = grind (arith, lt-div-mul-add {a = n} {b = d} h)

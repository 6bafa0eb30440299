-- ===== src/Prelude/Division.antt =====
-- Floor and ceiling division of natural numbers by a variable.
use sovereign_shadow_mev.Prelude.{ℕ, ◌+◌, ◌-◌, ◌*◌, ◌/◌, ◌≤◌, ◌<◌, arith}

pub div-mul-le : (a d : ℕ) → a / d * d ≤ a
div-mul-le a d = grind arith

pub lt-div-mul : (a d : ℕ) → 0 < d → a < a / d * d + d
lt-div-mul a d h = grind arith

pub le-div : (q a d : ℕ) → 0 < d → q * d ≤ a → q ≤ a / d
le-div q a d h e = grind arith

pub div-le : (q a d : ℕ) → 0 < d → a < q * d + d → a / d ≤ q
div-le q a d h e = grind arith

-- The quotient rounded up.
abbrev pub ceil_div : ℕ → ℕ → ℕ
ceil_div a d = (a + d - 1) / d

pub ceil_div-le : (q a d : ℕ) → 0 < d → a ≤ q * d → ceil_div a d ≤ q
ceil_div-le q a d h e = grind arith

pub le-ceil_div : (a d : ℕ) → 0 < d → a ≤ ceil_div a d * d
le-ceil_div a d h = grind arith

pub mul-le : (a b m n : ℕ) → a ≤ m → b ≤ n → a * b ≤ m * n
mul-le a b m n p q = grind arith

pub mul-lt : (a b m n : ℕ) → a < m → b < n → a * b < m * n
mul-lt a b m n p q = grind arith

pub pos_mul : (a b : ℕ) → 0 < a → 0 < b → 0 < a * b
pos_mul a b p q = grind arith

pub ceil_div-pos : (a d : ℕ) → 0 < a → 0 < d → 0 < ceil_div a d
ceil_div-pos a d p q = le-div 1 (a + d - 1) d q (omega arith)

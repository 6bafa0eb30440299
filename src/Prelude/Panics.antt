-- ===== src/Prelude/Panics.antt =====
-- Code that may panic: `panic` is a division by zero, an index or a slice out of bounds, or a
-- failed `unwrap`, as Rust raises them.
use Prim.Native.Nat.{ℕ, ◌/◌}
use mathlib.Core.Path.{◌≡◌, refl}
use mathlib.Core.Logic.{◌⊎◌, inl, inr}
use mathlib.Core.Option.{none, some}
use mathlib.Core.List.{List}
use sovereign_shadow_mev.Prelude.Tests.{◌==◌, if◌then◌else◌}
use sovereign_shadow_mev.Prelude.Lists.{get_elem?}

pub data Run {ℓ} (T : Type ℓ) : Type ℓ where
  panic : Run T
  done : T → Run T

infixl 5 ◌>>=◌
abbrev pub ◌>>=◌ {ℓ κ} : {S : Type ℓ} {T : Type κ} → Run S → (S → Run T) → Run T
done a >>= f = f a
panic >>= f = panic

-- The run ends normally, with a result that satisfies `P`.
abbrev pub Returns {ℓ} : {T : Type ℓ} → Run T → (T → Type 0) → Type 0
Returns (done a) P = P a
Returns panic P = ⊥

-- `a / b` on unsigned integers.
abbrev pub div_run : ℕ → ℕ → Run ℕ
div_run a b = if b == 0 then panic else done (a / b)

-- `xs[i]`.
abbrev pub at_run {ℓ} : {A : Type ℓ} → List A → ℕ → Run A
at_run xs i = elim (get_elem? xs i) [ none ↦ panic | some a ↦ done a ]

pub Run-cases {ℓ} : {A : Type ℓ} (m : Run A) → ((a : A) × (m ≡ done a)) ⊎ (m ≡ panic)
Run-cases (done a) = inl (a, refl)
Run-cases panic = inr refl

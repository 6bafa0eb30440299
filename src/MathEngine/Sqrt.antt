-- ===== src/MathEngine/Sqrt.antt =====
-- src/math_engine.rs: `uint_sqrt_512`, Newton's iteration from above.
pub mod Laws
use mathlib.Core.Logic.{dite}
use mathlib.Core.WellFounded.{Acc}
use sovereign_shadow_mev.Prelude.{ℕ, ◌+◌, ◌/◌, ◌^◌, ◌<◌, ◌==◌, if◌then◌else◌, dec_lt}
use sovereign_shadow_mev.Prelude.Order.{lt_wf}
use sovereign_shadow_mev.Uint.{bit_len}

abbrev pub newton : ℕ → ℕ → ℕ
newton n x = (x + n / x) / 2

-- `while y < x { x = y; y = (x + n / x) >> 1; }`: `x` falls, so the loop ends. It stays above 0 and
-- below 2 ^ 258, so that neither the division nor the sum is in danger.
unfoldable pub newton_loop : (n x : ℕ) → Acc ◌<◌ x → ℕ
newton_loop n x (Acc.intro _ smaller) =
    dite (dec_lt (newton n x) x) (λ h. newton_loop n (newton n x) (smaller (newton n x) h)) (λ _. x)

unfoldable pub uint_sqrt_512 : ℕ → ℕ
unfolding lt_wf
uint_sqrt_512 n =
    if n == 0
    then 0
    else newton_loop n (2 ^ (bit_len 512 n / 2 + 1)) (lt_wf.apply (2 ^ (bit_len 512 n / 2 + 1)))

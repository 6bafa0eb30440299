-- ===== src/MathEngine/Golden.antt =====
-- src/math_engine.rs: `find_optimal_input`, the golden section search, for an objective `f` that
-- returns a signed profit.
pub mod Laws
use sovereign_shadow_mev.Prelude.{ℕ, zero, suc, ◌+◌, ◌-◌, ◌*◌, ◌/◌, ltb, if◌then◌else◌, Bool}
use sovereign_shadow_mev.Prelude.Int.{ℤ, pos, negsuc, pos_part, leb_ℤ, ltb_ℤ}
use sovereign_shadow_mev.Uint.{add256, sub256, mul256}

abbrev pub phi_num : ℕ
phi_num = 618033988749895

abbrev pub phi_den : ℕ
phi_den = 1000000000000000

abbrev pub tolerance : ℕ
tolerance = 100_000_000_000

-- The variables of the loop.
pub record Section : Type 0 where
  pub a : ℕ
  pub b : ℕ
  pub c : ℕ
  pub d : ℕ
  pub f_c : ℤ
  pub f_d : ℤ

-- `(b - a) * PHI_NUM / PHI_DEN`
abbrev pub golden : ℕ → ℕ → ℕ
golden a b = mul256 (sub256 b a) phi_num / phi_den

abbrev pub lower_probe : ℕ → ℕ → ℕ
lower_probe a b = sub256 b (golden a b)

abbrev pub upper_probe : ℕ → ℕ → ℕ
upper_probe a b = add256 a (golden a b)

module _ (f : ℕ → ℤ) where
  unfoldable pub section_start : ℕ → ℕ → Section
  section_start min_in max_in = record {
    a = min_in;
    b = max_in;
    c = lower_probe min_in max_in;
    d = upper_probe min_in max_in;
    f_c = f (lower_probe min_in max_in);
    f_d = f (upper_probe min_in max_in);
  }

  unfoldable pub section_round : Section → Section
  section_round s =
      if ltb_ℤ s.f_d s.f_c
      then record {
        a = s.a;
        b = s.d;
        c = lower_probe s.a s.d;
        d = s.c;
        f_c = f (lower_probe s.a s.d);
        f_d = s.f_c;
      }
      else record {
        a = s.c;
        b = s.b;
        c = s.d;
        d = upper_probe s.c s.b;
        f_c = s.f_d;
        f_d = f (upper_probe s.c s.b);
      }

  unfoldable pub section_loop : ℕ → Section → Section
  section_loop zero s = s
  section_loop (suc rounds) s =
      let next = section_loop rounds (section_round s) in
      if ltb (sub256 s.b s.a) tolerance then s else next

  unfoldable pub section_end : ℕ → ℕ → Section
  section_end min_in max_in = section_loop 40 (section_start min_in max_in)

  unfoldable pub find_optimal_input : ℕ → ℕ → ℕ × ℕ
  find_optimal_input min_in max_in =
      let s = section_end min_in max_in in
      let optimal_input = add256 s.a s.b / 2 in
      let max_profit = f optimal_input in
      if leb_ℤ max_profit (pos 0) then (0, 0) else (optimal_input, pos_part max_profit)

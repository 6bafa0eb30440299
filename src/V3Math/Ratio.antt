-- ===== src/V3Math/Ratio.antt =====
-- src/v3_math.rs: the square root ratio of a tick, by the chain of 128-bit constants, and through the
-- table that is filled once for the ticks from -110000 to 110000. A tick is an integer: the sources
-- keep it in an `i32`, whose range these sums of two ticks at most do not leave.
pub mod Laws
use Prim.Native.Nat.{bit_and}
use sovereign_shadow_mev.Prelude.{
  ℕ, zero, suc, ◌+◌, ◌*◌, ◌/◌, ◌%◌, ◌^◌, ◌&&◌, Bool, not, List, [], ◌∷◌, map, Option, none, some,
  leb, ltb, ◌==◌, if◌then◌else◌, get_elem?, Run, done, panic, ◌>>=◌, at_run, div_run,
}
use sovereign_shadow_mev.Prelude.Int.{ℤ, pos, negsuc, pos_part, neg_part, ◌+ℤ◌, ltb_ℤ, leb_ℤ}
use sovereign_shadow_mev.Uint.{max_u256, add256, from_limbs}
use sovereign_shadow_mev.V3Math.Arith.{mul_shift_128}

abbrev pub max_tick : ℕ
max_tick = 887272

-- `tick.unsigned_abs()`
abbrev pub unsigned_abs : ℤ → ℕ
unsigned_abs t = pos_part t + neg_part t

-- The masks and the constants of the lines `if abs_tick & mask != 0 { ratio = ... }`, in order.
abbrev pub ratio_steps : List (ℕ × ℕ)
ratio_steps =
    (0x2, 0xfff97272373d413259a46990580e213a)
    ∷ (0x4, 0xfff2e50f5f656932ef12357cf3c7fdcc)
    ∷ (0x8, 0xffe5caca7e10e4e61c3624eaa0941cd0)
    ∷ (0x10, 0xffcb9843d60f6159c9db58835c926644)
    ∷ (0x20, 0xff973b41fa98c081472e6896dfb254c0)
    ∷ (0x40, 0xff2ea16466c96a3843ec78b326b52861)
    ∷ (0x80, 0xfe5dee046a99a2a811c461f1969c3053)
    ∷ (0x100, 0xfcbe86c7900a88aedcffc83b479aa3a4)
    ∷ (0x200, 0xf987a7253ac413176f2b074cf7815e54)
    ∷ (0x400, 0xf3392b0822b70005940c7a398e4b70f3)
    ∷ (0x800, 0xe7159475a2c29b7443b29c7fa6e889d9)
    ∷ (0x1000, 0xd097f3bdfd2022b8845ad8f792aa5825)
    ∷ (0x2000, 0xa9f746462d870fdf8a65dc1f90e061e5)
    ∷ (0x4000, 0x70d869a156d2a1b890bb3df62baf32f7)
    ∷ (0x8000, 0x31be135f97d08fd981231505542fcfa6)
    ∷ (0x10000, 0x9aa508b5b7a84e1c677de54f3e99bc9)
    ∷ (0x20000, 0x5d6af8dedb81196699c329225ee604)
    ∷ (0x40000, 0x2216e584f5fa1ea926041bedfe98)
    ∷ (0x80000, 0x48a170391f7dc42444e8fa2)
    ∷ []

-- Those lines.
unfoldable pub apply_steps : List (ℕ × ℕ) → ℕ → ℕ → ℕ
apply_steps [] abs_tick ratio = ratio
apply_steps ((mask, factor) ∷ steps) abs_tick ratio =
    apply_steps steps abs_tick
      (if bit_and abs_tick mask == 0 then ratio else mul_shift_128 ratio factor)

-- The first of them, for the mask 1, starts the chain.
unfoldable pub first_ratio : ℕ → ℕ
first_ratio abs_tick =
    if bit_and abs_tick 0x1 == 0
    then 2 ^ 128
    else from_limbs 0xaa2d162d1a594001 0xfffcb933bd6fad37 0 0

-- The last lines: 32 bits are dropped, rounding up.
unfoldable pub round_ratio : ℕ → ℕ
round_ratio ratio = add256 (ratio / 2 ^ 32) (if ratio % 2 ^ 32 == 0 then 0 else 1)

unfoldable pub get_sqrt_ratio_at_tick_uncached : ℤ → Run ℕ
get_sqrt_ratio_at_tick_uncached tick =
    let abs_tick = unsigned_abs tick in
    let ratio = apply_steps ratio_steps abs_tick (first_ratio abs_tick) in
    if ltb max_tick abs_tick
    then done 0
    else ((if ltb_ℤ (pos 0) tick then div_run max_u256 ratio else done ratio) >>= λ r.
        done (round_ratio r))

-- `SQRT_RATIO_LUT`: the ticks from `start` on.
unfoldable pub ratio_table : ℤ → ℕ → List (Run ℕ)
ratio_table start zero = []
ratio_table start (suc n) = get_sqrt_ratio_at_tick_uncached start ∷ ratio_table (start +ℤ pos 1) n

unfoldable pub get_sqrt_ratio_at_tick : ℤ → Run ℕ
get_sqrt_ratio_at_tick tick =
    if leb_ℤ (negsuc 109999) tick && leb_ℤ tick (pos 110000)
    then (at_run (ratio_table (negsuc 109999) 220001) (pos_part (tick +ℤ pos 110000)) >>= λ r. r)
    else get_sqrt_ratio_at_tick_uncached tick

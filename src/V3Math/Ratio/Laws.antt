-- ===== src/V3Math/Ratio/Laws.antt =====
-- The table gives what the chain gives; the chain's values lie between 0 and 2 ^ 173.
use Prim.Native.Nat.{bit_and}
use sovereign_shadow_mev.Prelude.{
  dec_lt, Run-cases, leb, ℕ, zero, suc, ◌-◌, ◌*◌, ◌/◌, ◌^◌, ◌≤◌, ◌<◌, ◌≡◌, refl, arith, List, [],
  ◌∷◌, some, get_elem?, Run, at_run, done, ◌>>=◌, Returns, ltb, ◌==◌, ◌&&◌, true, Bool-cases, inl,
  inr,
}
use sovereign_shadow_mev.Prelude.Int.{ℤ, pos, negsuc, pos_part, ◌+ℤ◌, leb_ℤ, eq_of_parts, int_laws}
use sovereign_shadow_mev.Prelude.Division.{le-div, div-le}
use sovereign_shadow_mev.Uint.{max_u256, u512_to_u256_safe, from_limbs}
use sovereign_shadow_mev.V3Math.Arith.{mul_shift_128}
use sovereign_shadow_mev.V3Math.Arith.Laws.{mul_shift_128-floor}
use sovereign_shadow_mev.V3Math.Ratio.{
  max_tick, unsigned_abs, ratio_steps, apply_steps, first_ratio, round_ratio,
  get_sqrt_ratio_at_tick_uncached, ratio_table, get_sqrt_ratio_at_tick,
}

cached_run : (r : Run ℕ) → (done r >>= λ x. x) ≡ r
cached_run r = refl

get_elem?-ratio_table :
    (i n : ℕ) (start : ℤ)
    → i < n
    → get_elem? (ratio_table start n) i ≡ some (get_sqrt_ratio_at_tick_uncached (start +ℤ pos i))
unfolding ratio_table
get_elem?-ratio_table i zero start h = absurd (omega arith)
get_elem?-ratio_table zero (suc n) start h =
    rw (eq_of_parts (start +ℤ pos 0) start (omega int_laws))
get_elem?-ratio_table (suc i) (suc n) start h =
    rw (eq_of_parts (start +ℤ pos (suc i)) (start +ℤ pos 1 +ℤ pos i) (omega int_laws))
      (get_elem?-ratio_table i n (start +ℤ pos 1) (omega arith))

table_index :
    (t : ℤ)
    → (leb_ℤ (negsuc 109999) t && leb_ℤ t (pos 110000)) ≡ true
    → (pos_part (t +ℤ pos 110000) < 220001)
      × (negsuc 109999 +ℤ pos (pos_part (t +ℤ pos 110000)) ≡ t)
unfolding ◌+ℤ◌
table_index t h = ground arith

-- For every tick the lookup in the table gives what the chain of multiplications computes, and
-- never leaves the table.
pub get_sqrt_ratio_at_tick-cached :
    (t : ℤ) → get_sqrt_ratio_at_tick t ≡ get_sqrt_ratio_at_tick_uncached t
unfolding get_sqrt_ratio_at_tick
get_sqrt_ratio_at_tick-cached t =
    elim (Bool-cases (leb_ℤ (negsuc 109999) t && leb_ℤ t (pos 110000))) [
      | inl inside ↦
          rw
            (
              inside,
              get_elem?-ratio_table (pos_part (t +ℤ pos 110000)) 220001 (negsuc 109999)
                  (table_index t inside).0,
              at_run,
            )
            (rw (table_index t inside).1 (cached_run (get_sqrt_ratio_at_tick_uncached t)))
      | inr outside ↦ rw outside
    ]

-- Every mask and every constant of the chain is in range.
abbrev IsFactors : List (ℕ × ℕ) → Type 0
IsFactors [] = Unit {0}
IsFactors ((mask, factor) ∷ steps) = (factor < 2 ^ 128) × IsFactors steps

-- The chain with every constant applied.
all_steps : List (ℕ × ℕ) → ℕ → ℕ
all_steps [] ratio = ratio
all_steps ((mask, factor) ∷ steps) ratio = all_steps steps (mul_shift_128 ratio factor)

shift_mono : (a b f : ℕ) → a ≤ b → b ≤ 2 ^ 128 → f < 2 ^ 128 → mul_shift_128 a f ≤ mul_shift_128 b f
shift_mono a b f p q r =
    let m : a * f ≤ b * f = grind arith in
    omega (arith, mul_shift_128-floor a f, mul_shift_128-floor b f)

shift_shrinks : (a f : ℕ) → a ≤ 2 ^ 128 → f < 2 ^ 128 → mul_shift_128 a f ≤ a
shift_shrinks a f p r =
    let m : a * f ≤ a * 2 ^ 128 = grind arith in omega (arith, mul_shift_128-floor a f)

all_steps-le :
    (steps : List (ℕ × ℕ)) (t lo r : ℕ)
    → IsFactors steps
    → lo ≤ r
    → r ≤ 2 ^ 128
    → (all_steps steps lo ≤ apply_steps steps t r) × (apply_steps steps t r ≤ 2 ^ 128)
unfolding all_steps apply_steps
all_steps-le [] t lo r ok p q = (p, q)
all_steps-le ((mask, factor) ∷ steps) t lo r ok p q = elim (Bool-cases (bit_and t mask == 0)) [
  | inl skip ↦ rw skip (
      all_steps-le steps t (mul_shift_128 lo factor) r ok.1 (omega (arith, shift_shrinks lo factor))
        q)
  | inr apply ↦ rw apply (
      all_steps-le steps t (mul_shift_128 lo factor) (mul_shift_128 r factor) ok.1
        (shift_mono lo r factor p q ok.0) (omega (arith, shift_shrinks r factor)))
]

least_ratio : 2 ^ 51 ≤ all_steps ratio_steps (from_limbs 0xaa2d162d1a594001 0xfffcb933bd6fad37 0 0)
unfolding all_steps mul_shift_128 u512_to_u256_safe
least_ratio = omega arith

chain_above :
    (r t : ℕ)
    → from_limbs 0xaa2d162d1a594001 0xfffcb933bd6fad37 0 0 ≤ r
    → r ≤ 2 ^ 128
    → (2 ^ 51 ≤ apply_steps ratio_steps t r) × (apply_steps ratio_steps t r ≤ 2 ^ 128)
chain_above r t p q = omega (
  arith,
  least_ratio,
  all_steps-le ratio_steps t (from_limbs 0xaa2d162d1a594001 0xfffcb933bd6fad37 0 0) r (omega arith)
      p q,
)

chain_bounds :
    (t : ℕ)
    → (2 ^ 51 ≤ apply_steps ratio_steps t (first_ratio t))
      × (apply_steps ratio_steps t (first_ratio t) ≤ 2 ^ 128)
unfolding first_ratio
chain_bounds t =
    let lo = from_limbs 0xaa2d162d1a594001 0xfffcb933bd6fad37 0 0 in
    elim (Bool-cases (bit_and t 0x1 == 0)) [
      | inl even ↦ rw even (chain_above (2 ^ 128) t (omega arith) (omega arith))
      | inr odd ↦ rw odd (chain_above lo t (omega arith) (omega arith))
    ]

inverse_bounds :
    (r : ℕ) → 2 ^ 51 ≤ r → r ≤ 2 ^ 128 → (2 ^ 127 ≤ max_u256 / r) × (max_u256 / r ≤ 2 ^ 205 - 1)
inverse_bounds r p q = (
  le-div (2 ^ 127) max_u256 r (omega arith) (omega arith),
  div-le (2 ^ 205 - 1) max_u256 r (omega arith) (omega arith),
)

uncached-range :
    (t : ℤ)
    → Returns (get_sqrt_ratio_at_tick_uncached t) (λ r.
      (r ≤ 2 ^ 173) × ((unsigned_abs t ≤ max_tick → 0 < r) × (max_tick < unsigned_abs t → r ≡ 0)))
unfolding get_sqrt_ratio_at_tick_uncached round_ratio
uncached-range t = ground (
  arith,
  chain_bounds (unsigned_abs t),
  inverse_bounds (apply_steps ratio_steps (unsigned_abs t) (first_ratio (unsigned_abs t))),
)

pub get_sqrt_ratio_at_tick-range :
    (t : ℤ)
    → Returns (get_sqrt_ratio_at_tick t) (λ r.
      (r ≤ 2 ^ 173) × ((unsigned_abs t ≤ max_tick → 0 < r) × (max_tick < unsigned_abs t → r ≡ 0)))
get_sqrt_ratio_at_tick-range t = rw (get_sqrt_ratio_at_tick-cached t) (uncached-range t)

-- Every tick has a ratio, computed without a panic; it is at most 2 ^ 173, and it is positive
-- exactly for the ticks from -887272 to 887272.
pub get_sqrt_ratio_at_tick-domain :
    (t : ℤ)
    → Returns
        (get_sqrt_ratio_at_tick t)
        (λ r. (r ≤ 2 ^ 173) × (ltb 0 r ≡ leb (unsigned_abs t) max_tick))
get_sqrt_ratio_at_tick-domain t = elim (Run-cases (get_sqrt_ratio_at_tick t)) [
  | inr e ↦ absurd (rw e at (get_sqrt_ratio_at_tick-range t))
  | inl (r, e) ↦
      let b = rw e at (get_sqrt_ratio_at_tick-range t) in
      rw e (
        b.0,
        elim (dec_lt max_tick (unsigned_abs t)) [
          | yes out ↦ let z = b.1.1 out in ground arith
          | no in_ ↦ let z = b.1.0 (omega arith) in ground arith
        ],
      )
]

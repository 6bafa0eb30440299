-- ===== src/Uint/Laws.antt =====
-- What the narrowing of a `U512` computes.
use native.Mathlib.Nat.{pow-suc}
use sovereign_shadow_mev.Prelude.{
  zero, suc, ◌/◌, ◌==◌, Bool-cases, inl, inr, ℕ, ◌/◌, ◌^◌, ◌<◌, ◌≡◌, arith, min,
}
use sovereign_shadow_mev.Uint.{bit_len, max_u256, u512_to_u256_safe}

pub u512_to_u256_safe-min : (v : ℕ) → v < 2 ^ 512 → u512_to_u256_safe v ≡ min v max_u256
unfolding u512_to_u256_safe
u512_to_u256_safe-min v h = ground arith

pub lt-pow-bit_len : (k x : ℕ) → x < 2 ^ k → x < 2 ^ bit_len k x
unfolding bit_len
lt-pow-bit_len zero x h = h
lt-pow-bit_len (suc k) x h = elim (Bool-cases (x == 0)) [
  | inl z ↦ rw z (ground arith)
  | inr nz ↦ rw nz (
      omega (
        arith,
        pow-suc 2 k,
        pow-suc 2 (bit_len k (x / 2)),
        lt-pow-bit_len k (x / 2) (omega (arith, pow-suc 2 k)),
      ))
]

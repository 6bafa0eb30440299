-- ===== src/Bytes/Laws.antt =====
-- Writing a number and reading it back, and slices of joined byte strings.
use native.Mathlib.Nat.{pow-suc}
use sovereign_shadow_mev.Prelude.{
  ℕ, zero, suc, ◌+◌, ◌*◌, ◌/◌, ◌%◌, ◌^◌, ◌<◌, ◌≡◌, refl, arith, ap, ◌∙◌, ◌++◌, List, [], ◌∷◌, take,
  drop, length, length-append,
}
use sovereign_shadow_mev.Bytes.{from_be_bytes, be_from, to_be_bytes}

be_from-append : (acc b : ℕ) (xs : List ℕ) → be_from acc (xs ++ b ∷ []) ≡ be_from acc xs * 256 + b
unfolding be_from
be_from-append acc b [] = refl
be_from-append acc b (x ∷ xs) = be_from-append (acc * 256 + x) b xs

-- A number that fits in `n` bytes is read back from the `n` bytes that are written.
pub from_be_bytes-to_be_bytes : (n x : ℕ) → x < 256 ^ n → from_be_bytes (to_be_bytes n x) ≡ x
unfolding from_be_bytes to_be_bytes be_from
from_be_bytes-to_be_bytes zero x h = omega arith
from_be_bytes-to_be_bytes (suc n) x h =
    be_from-append 0 (x % 256) (to_be_bytes n (x / 256))
    ∙ omega (arith, from_be_bytes-to_be_bytes n (x / 256) (omega (arith, pow-suc 256 n)))

pub length-to_be_bytes : (n x : ℕ) → length (to_be_bytes n x) ≡ n
unfolding to_be_bytes
length-to_be_bytes zero x = refl
length-to_be_bytes (suc n) x =
    length-append (to_be_bytes n (x / 256)) ((x % 256) ∷ [])
    ∙ omega (arith, length-to_be_bytes n (x / 256))

-- What was appended in front is taken off again.
pub take_append {ℓ} : {A : Type ℓ} (n : ℕ) (xs ys : List A) → length xs ≡ n → take n (xs ++ ys) ≡ xs
take_append zero [] ys h = refl
take_append zero (x ∷ xs) ys h = absurd (omega (arith, h))
take_append (suc n) [] ys h = absurd (omega (arith, h))
take_append (suc n) (x ∷ xs) ys h = ap (λ l. x ∷ l) (take_append n xs ys (omega (arith, h)))

pub drop_append {ℓ} : {A : Type ℓ} (n : ℕ) (xs ys : List A) → length xs ≡ n → drop n (xs ++ ys) ≡ ys
drop_append zero [] ys h = refl
drop_append zero (x ∷ xs) ys h = absurd (omega (arith, h))
drop_append (suc n) [] ys h = absurd (omega (arith, h))
drop_append (suc n) (x ∷ xs) ys h = drop_append n xs ys (omega (arith, h))

pub take_all {ℓ} : {A : Type ℓ} (n : ℕ) (xs : List A) → length xs ≡ n → take n xs ≡ xs
take_all zero [] h = refl
take_all zero (x ∷ xs) h = absurd (omega (arith, h))
take_all (suc n) [] h = refl
take_all (suc n) (x ∷ xs) h = ap (λ l. x ∷ l) (take_all n xs (omega (arith, h)))

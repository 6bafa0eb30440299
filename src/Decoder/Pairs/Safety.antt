-- ===== src/Decoder/Pairs/Safety.antt =====
-- Call data of any content cannot make the pair decoders panic.
use sovereign_shadow_mev.Prelude.{
  ℕ, ◌+◌, ◌-◌, ◌^◌, ◌≤◌, ◌<◌, ◌≡◌, arith, List, Option, none, some, length, ltb, Run, done, panic,
  Returns, Bool-cases, Option-cases, inl, inr,
}
use sovereign_shadow_mev.Decoder.Readers.{
  add_usize, mul_usize, slice_run, read_u256, read_address, read_usize, ◌>>=?◌,
}
use sovereign_shadow_mev.Decoder.Pairs.{path_len_ok, decode_v2_path, decode_v2, decode_v2_eth}

-- The run does not panic.
abbrev pub Ends {ℓ} : {A : Type ℓ} → Run A → Type 0
Ends m = Returns m (λ _. Unit)

Ends-try {ℓ κ} :
    {A : Type ℓ} {B : Type κ} (m : Run (Option A)) (f : A → Run (Option B))
    → Ends m
    → ((a : A) → Ends (f a))
    → Ends (m >>=? f)
Ends-try (done none) f h k = tt
Ends-try (done (some a)) f h k = k a
Ends-try panic f h k = h

read_address-Ends :
    (calldata : List ℕ) (offset : ℕ) → offset + 32 < 2 ^ 64 → Ends (read_address calldata offset)
unfolding read_address slice_run
read_address-Ends calldata offset h = ground arith

read_u256-Ends :
    (calldata : List ℕ) (offset : ℕ) → offset + 32 < 2 ^ 64 → Ends (read_u256 calldata offset)
unfolding read_u256 slice_run
read_u256-Ends calldata offset h = ground arith

-- Where a word of 64 bits is read, its end lies within the data.
read_usize-within :
    (calldata : List ℕ) (offset n : ℕ)
    → read_usize calldata offset ≡ some n
    → add_usize offset 32 ≤ length calldata
unfolding read_usize
read_usize-within calldata offset n e = ground arith

path-Ends :
    (calldata : List ℕ) (to amount_in amount_out_min path_start path_len : ℕ)
    → length calldata < 2 ^ 63
    → path_start ≤ length calldata
    → Ends (decode_v2_path calldata to amount_in amount_out_min path_start path_len)
unfolding decode_v2_path
path-Ends calldata to amount_in amount_out_min path_start path_len small inside =
    elim (Bool-cases (path_len_ok path_len)) [
      | inr bad ↦ rw bad tt
      | inl good ↦
          rw good
            (elim (Bool-cases
              (ltb (length calldata) (add_usize path_start (mul_usize path_len 32)))) [
                | inl long ↦ rw long tt
                | inr fits ↦
                    let bound : path_len ≤ 10 = ground arith in
                    rw fits (
                      Ends-try (read_address calldata path_start) _
                        (read_address-Ends calldata path_start (omega arith))
                        (λ token_in.
                          Ends-try
                            (read_address calldata
                              (add_usize path_start (mul_usize (path_len - 1) 32)))
                            _
                            (read_address-Ends calldata
                              (add_usize path_start (mul_usize (path_len - 1) 32)) (omega arith))
                            (λ token_out.
                              Ends-try (read_address calldata 96) _
                                (read_address-Ends calldata 96 (omega arith)) (λ recipient. tt))))
              ])
    ]

-- Whatever the bytes of a call with fewer than 2 ^ 63 of them, decoding it as a pair router's swap
-- ends without a panic, although the offsets in it are 64-bit numbers that wrap.
pub decode_v2-Ends :
    (calldata : List ℕ) (to : ℕ) → length calldata < 2 ^ 63 → Ends (decode_v2 calldata to)
unfolding decode_v2
decode_v2-Ends calldata to small = elim (Bool-cases (ltb (length calldata) 160)) [
  | inl short ↦ rw short tt
  | inr long ↦ rw long (
      Ends-try (read_u256 calldata 0) _ (read_u256-Ends calldata 0 (omega arith)) (λ amount_in.
        Ends-try (read_u256 calldata 32) _ (read_u256-Ends calldata 32 (omega arith))
          (λ amount_out_min. Ends-try (done (read_usize calldata 64)) _ tt (λ path_offset.
            elim (Option-cases (read_usize calldata path_offset)) [
              | inl nothing ↦ rw nothing tt
              | inr (path_len, found) ↦ rw found (
                  path-Ends calldata to amount_in amount_out_min (add_usize path_offset 32) path_len
                    small (read_usize-within calldata path_offset path_len found))
            ]))))
]

-- Whatever the bytes of a call with fewer than 2 ^ 63 of them, decoding it as a pair router's swap
-- of ether ends without a panic, although it does not compare the end of the path with the length
-- of the data.
pub decode_v2_eth-Ends :
    (calldata : List ℕ) (to value : ℕ)
    → length calldata < 2 ^ 63
    → Ends (decode_v2_eth calldata to value)
unfolding decode_v2_eth
decode_v2_eth-Ends calldata to value small = elim (Bool-cases (ltb (length calldata) 128)) [
  | inl short ↦ rw short tt
  | inr long ↦ rw long (
      Ends-try (read_u256 calldata 0) _ (read_u256-Ends calldata 0 (omega arith)) (λ amount_out_min.
        Ends-try (done (read_usize calldata 32)) _ tt (λ path_offset.
          Ends-try (read_address calldata 64) _ (read_address-Ends calldata 64 (omega arith))
            (λ recipient. elim (Option-cases (read_usize calldata path_offset)) [
              | inl nothing ↦ rw nothing tt
              | inr (path_len, found) ↦
                  let within = read_usize-within calldata path_offset path_len found in
                  rw found (elim (Bool-cases (path_len_ok path_len)) [
                    | inr bad ↦ rw bad tt
                    | inl good ↦
                        let bound : path_len ≤ 10 = ground arith in
                        rw good (
                          Ends-try (read_address calldata (add_usize path_offset 32)) _
                            (read_address-Ends calldata (add_usize path_offset 32) (omega arith))
                            (λ token_in.
                              Ends-try
                                (read_address calldata (
                                  add_usize (add_usize path_offset 32)
                                    (mul_usize (path_len - 1) 32)))
                                _
                                (read_address-Ends calldata
                                  (add_usize (add_usize path_offset 32)
                                    (mul_usize (path_len - 1) 32))
                                  (omega arith))
                                (λ token_out. tt)))
                  ])
            ]))))
]

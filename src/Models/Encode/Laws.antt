-- ===== src/Models/Encode/Laws.antt =====
-- The payload of `encode_ghost_multi` read back field by field, as its layout says.
use mathlib.Core.List.{append_assoc}
use sovereign_shadow_mev.Prelude.{
  ℕ, zero, suc, ◌%◌, ◌^◌, ◌<◌, ◌≡◌, refl, arith, ap, ◌∙◌, ◌++◌, List, [], ◌∷◌, take, drop, length,
  map,
}
use sovereign_shadow_mev.Bytes.{from_be_bytes, to_be_bytes}
use sovereign_shadow_mev.Bytes.Laws.{
  from_be_bytes-to_be_bytes, length-to_be_bytes, take_append, drop_append,
}
use sovereign_shadow_mev.Models.{Hop, ArbitragePath, dex_type_id, lender_id}
use sovereign_shadow_mev.Models.Encode.{
  flag, encode_loans, encode_hop, encode_hops, encode_ghost_multi,
}

-- What the payload tells of a hop.
pub record PackedHop : Type 0 where
  pub pool : ℕ
  pub token_out : ℕ
  pub dex_type : ℕ
  pub zero_for_one : ℕ
  pub is_stable : ℕ

abbrev pub pack : Hop → PackedHop
pack hop = record {
  pool = hop.pool;
  token_out = hop.token_out;
  dex_type = dex_type_id hop.dex_type;
  zero_for_one = flag hop.zero_for_one;
  is_stable = flag hop.is_stable;
}

pub record Payload : Type 0 where
  pub min_profit : ℕ
  pub lender : ℕ
  pub loans : List (ℕ × ℕ)
  pub hops : List PackedHop

-- The first byte, 0 where there is none.
abbrev byte : List ℕ → ℕ
byte [] = 0
byte (b ∷ bs) = b

-- `n` loans of 52 bytes, and the bytes that follow.
read_loans : ℕ → List ℕ → List (ℕ × ℕ) × List ℕ
read_loans zero bytes = ([], bytes)
read_loans (suc n) bytes =
    let (loans, rest) = read_loans n (drop 32 (drop 20 bytes)) in
    ((from_be_bytes (take 20 bytes), from_be_bytes (take 32 (drop 20 bytes))) ∷ loans, rest)

-- `n` hops of 43 bytes.
read_hops : ℕ → List ℕ → List PackedHop
read_hops zero bytes = []
read_hops (suc n) bytes =
    let tail = drop 20 (drop 20 bytes) in
    record {
      pool = from_be_bytes (take 20 bytes);
      token_out = from_be_bytes (take 20 (drop 20 bytes));
      dex_type = byte tail;
      zero_for_one = byte (drop 1 tail);
      is_stable = byte (drop 2 tail);
    }
    ∷ read_hops n (drop 3 tail)

pub read_payload : List ℕ → Payload
read_payload bytes =
    let tail = drop 32 bytes in
    let (loans, rest) = read_loans (byte (drop 1 tail)) (drop 2 tail) in
    record {
      min_profit = from_be_bytes (take 32 bytes);
      lender = byte tail;
      loans = loans;
      hops = read_hops (byte rest) (drop 1 rest);
    }

abbrev pub LoansFit : List (ℕ × ℕ) → Type 0
LoansFit [] = Unit
LoansFit ((token, amount) ∷ loans) = (token < 2 ^ 160) × (amount < 2 ^ 256) × LoansFit loans

abbrev pub HopsFit : List Hop → Type 0
HopsFit [] = Unit
HopsFit (hop ∷ hops) = (hop.pool < 2 ^ 160) × (hop.token_out < 2 ^ 160) × HopsFit hops

-- A field of `n` bytes in front of a rest.
module _ (n x : ℕ) (h : x < 256 ^ n) (rest : List ℕ) where
  read_field : from_be_bytes (take n (to_be_bytes n x ++ rest)) ≡ x
  read_field =
      ap from_be_bytes (take_append n (to_be_bytes n x) rest (length-to_be_bytes n x))
      ∙ from_be_bytes-to_be_bytes n x h

skip_field : (n x : ℕ) (rest : List ℕ) → drop n (to_be_bytes n x ++ rest) ≡ rest
skip_field n x rest = drop_append n (to_be_bytes n x) rest (length-to_be_bytes n x)

read_loans-encode_loans :
    (loans : List (ℕ × ℕ)) (rest : List ℕ)
    → LoansFit loans
    → read_loans (length loans) (encode_loans loans ++ rest) ≡ (loans, rest)
unfolding read_loans encode_loans
read_loans-encode_loans [] rest fits = refl
read_loans-encode_loans ((token, amount) ∷ loans) rest fits =
    let more = encode_loans loans ++ rest in
    rw (append_assoc, append_assoc)
      (rw (
        read_field 20 token (omega arith) (to_be_bytes 32 amount ++ more),
        skip_field 20 token (to_be_bytes 32 amount ++ more),
        read_field 32 amount (omega arith) more,
        skip_field 32 amount more,
        read_loans-encode_loans loans rest fits.2,
      ))

read_hops-encode_hops :
    (hops : List Hop) → HopsFit hops → read_hops (length hops) (encode_hops hops) ≡ map pack hops
unfolding read_hops encode_hops encode_hop
read_hops-encode_hops [] fits = refl
read_hops-encode_hops (hop ∷ hops) fits =
    let tail =
      dex_type_id hop.dex_type ∷ flag hop.zero_for_one ∷ flag hop.is_stable ∷ encode_hops hops in
    rw (append_assoc, append_assoc)
      (rw (
        read_field 20 hop.pool (omega arith) (to_be_bytes 20 hop.token_out ++ tail),
        skip_field 20 hop.pool (to_be_bytes 20 hop.token_out ++ tail),
        read_field 20 hop.token_out (omega arith) tail,
        skip_field 20 hop.token_out tail,
        read_hops-encode_hops hops fits.2,
      ))

-- With at most 255 loans and 255 hops, addresses below 2 ^ 160 and amounts below 2 ^ 256, reading
-- the payload by its layout gives back the minimal profit, the lender, the loans and, of every hop,
-- the five fields that are packed, in order.
pub read_payload-encode_ghost_multi :
    (path : ArbitragePath) (loans : List (ℕ × ℕ)) (min_profit : ℕ)
    → min_profit < 2 ^ 256
    → LoansFit loans
    → HopsFit path.hops
    → length loans < 256
    → length path.hops < 256
    → read_payload (encode_ghost_multi path loans min_profit) ≡ record {
      min_profit = min_profit;
      lender = lender_id path.lender;
      loans = loans;
      hops = map pack path.hops;
    }
unfolding encode_ghost_multi read_payload
read_payload-encode_ghost_multi path loans min_profit hp hl hh nl nh =
    let hops = length path.hops % 256 ∷ encode_hops path.hops in
    let tail = lender_id path.lender ∷ length loans % 256 ∷ (encode_loans loans ++ hops) in
    let el : length loans % 256 ≡ length loans = omega arith in
    let eh : length path.hops % 256 ≡ length path.hops = omega arith in
    rw (read_field 32 min_profit (omega arith) tail, skip_field 32 min_profit tail)
      (rw (
        el,
        eh,
        read_loans-encode_loans loans (length path.hops ∷ encode_hops path.hops) hl,
        read_hops-encode_hops path.hops hh,
      ))

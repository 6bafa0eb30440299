-- ===== src/Breaker/DataFee.antt =====
-- src/utils.rs: `estimate_l1_fee`, the cost of a transaction's data on the base layer.
use sovereign_shadow_mev.Prelude.{
  ℕ, ◌+◌, ◌*◌, ◌/◌, ◌^◌, List, [], ◌∷◌, Option, none, some, min, ◌==◌, if◌then◌else◌, Run, done,
  panic, ltb,
}
use sovereign_shadow_mev.Uint.{add256, mul256}

pub record EcotoneScalars : Type 0 where
  pub base_fee_scalar : ℕ
  pub blob_fee_scalar : ℕ
  pub l1_base_fee : ℕ
  pub l1_blob_fee : ℕ
  pub decimals : ℕ
  pub last_updated : ℕ

-- The loop over the bytes: 4 for a zero, 16 for another.
unfoldable pub calldata_gas : List ℕ → ℕ → ℕ
calldata_gas [] gas = gas
calldata_gas (b ∷ bs) gas = calldata_gas bs (gas + (if b == 0 then 4 else 16))

-- `none` is the error that the scalars are not there yet; `decimals.to::<u64>()` panics on a number
-- that does not fit.
unfoldable pub estimate_l1_fee : EcotoneScalars → List ℕ → Run (Option ℕ)
estimate_l1_fee sc tx_data =
    let gas = calldata_gas tx_data (133 * 16) in
    let scaled_base = mul256 (mul256 16 sc.base_fee_scalar) sc.l1_base_fee in
    let scaled_blob = mul256 sc.blob_fee_scalar sc.l1_blob_fee in
    let divisor = mul256 16 (10 ^ min sc.decimals 18) in
    let fee = mul256 (add256 scaled_base scaled_blob) gas / divisor in
    if sc.last_updated == 0
    then done none
    else if ltb sc.decimals (2 ^ 64)
    then (if divisor == 0 then done (some 0) else done (some (mul256 fee 110 / 100)))
    else panic

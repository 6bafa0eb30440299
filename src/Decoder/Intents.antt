-- ===== src/Decoder/Intents.antt =====
-- src/universal_decoder.rs: the signed orders of UniswapX.
pub mod Wrap
use sovereign_shadow_mev.Prelude.{
  ℕ, zero, suc, ◌+◌, ◌-◌, ◌*◌, ◌%◌, ◌^◌, ◌&&◌, ◌||◌, not, Bool, true, false, List, [], ◌∷◌, ◌++◌,
  Option, none, some, length, drop, get_or, leb, ltb, ◌==◌, if◌then◌else◌, min, Run, done, panic,
  ◌>>=◌,
}
use sovereign_shadow_mev.Bytes.{slice, from_be_bytes}
use sovereign_shadow_mev.Models.{DexName, SwapInfo}
use sovereign_shadow_mev.Decoder.Readers.{
  add_usize, mul_usize, slice_run, read_u256, read_address, read_usize, ◌>>=?◌, or_zero, unwrap_or,
  path_leg,
}
use sovereign_shadow_mev.Decoder.Pairs.{pair_swap}

-- The fields of an order's bytes.
unfoldable pub order_fields : List ℕ → ℕ → Run (Option SwapInfo)
order_fields payload reactor =
    if ltb (length payload) 160
    then done none
    else read_address payload 192 >>=? λ token_in. read_u256 payload 204 >>=? λ amount_in.
        done (read_usize payload 288) >>=? λ outputs_abs.
        if ltb (length payload) (add_usize outputs_abs 64)
        then done none
        else done (read_usize payload outputs_abs) >>=? λ outputs_len.
            if outputs_len == 0
            then done none
            else (let first_output_ptr = add_usize outputs_abs 32 in
                read_address payload first_output_ptr >>=? λ token_out.
                read_u256 payload (add_usize first_output_ptr 12) >>=? λ amount_out_min.
                read_address payload (add_usize first_output_ptr 76) >>=? λ recipient. done (
                  some (
                    pair_swap DexName.uniswap_x reactor token_in token_out amount_in amount_out_min
                      recipient)))

unfoldable pub parse_uniswapx_order : List ℕ → ℕ → ℕ → Run (Option SwapInfo)
parse_uniswapx_order calldata offset reactor = done (read_usize calldata offset) >>=? λ order_ptr.
    done (read_usize calldata (add_usize offset order_ptr)) >>=? λ order_len.
    (let start = add_usize (add_usize offset order_ptr) 32 in
      slice_run calldata start (min (add_usize start order_len) (length calldata)) >>= λ payload.
      order_fields payload reactor)

-- An intent that is there joins the list.
abbrev push_some : Run (Option SwapInfo) → Run (List SwapInfo) → Run (List SwapInfo)
push_some (done none) rest = rest
push_some (done (some info)) rest = rest >>= λ infos. done (info ∷ infos)
push_some panic rest = panic

-- The items `i`, `i + 1`, ... of a batch, `n` of them.
unfoldable pub batch_orders : ℕ → ℕ → List ℕ → ℕ → ℕ → Run (List SwapInfo)
batch_orders zero i calldata array_start reactor = done []
batch_orders (suc n) i calldata array_start reactor =
    let rest = batch_orders n (i + 1) calldata array_start reactor in
    elim (read_usize calldata (add_usize (add_usize array_start 32) (i * 32))) [
      | none ↦ rest
      | some rel_ptr ↦
          push_some (parse_uniswapx_order calldata (add_usize array_start rel_ptr) reactor) rest
    ]

unfoldable pub decode_uniswapx : List ℕ → ℕ → Run (List SwapInfo)
decode_uniswapx calldata reactor =
    let selector = from_be_bytes (slice calldata 0 4) in
    if ltb (length calldata) 128
    then done []
    else if selector == 0x8ae0693a
    then push_some (parse_uniswapx_order calldata 4 reactor) (done [])
    else if selector == 0x5b0d135a
    then elim (read_usize calldata 4) [
      | none ↦ done []
      | some array_offset ↦ elim (read_usize calldata (add_usize array_offset 4)) [
        | none ↦ done []
        | some len ↦ batch_orders (min len 5) 0 calldata (add_usize array_offset 4) reactor
      ]
    ]
    else done []

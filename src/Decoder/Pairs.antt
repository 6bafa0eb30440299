-- ===== src/Decoder/Pairs.antt =====
-- src/universal_decoder.rs: the swaps of constant product routers and of Aerodrome's.
pub mod Safety
use sovereign_shadow_mev.Prelude.{
  ℕ, zero, suc, ◌+◌, ◌-◌, ◌*◌, ◌%◌, ◌^◌, ◌&&◌, ◌||◌, not, Bool, true, false, List, [], ◌∷◌, ◌++◌,
  Option, none, some, length, drop, get_or, leb, ltb, ◌==◌, if◌then◌else◌, min, Run, done, panic,
  ◌>>=◌,
}
use sovereign_shadow_mev.Bytes.{slice, from_be_bytes}
use sovereign_shadow_mev.Models.{DexName, SwapInfo}
use sovereign_shadow_mev.Decoder.Readers.{
  add_usize, mul_usize, slice_run, read_u256, read_address, read_usize, ◌>>=?◌, or_zero, unwrap_or,
  path_leg,
}

abbrev pub pair_swap : DexName → ℕ → ℕ → ℕ → ℕ → ℕ → ℕ → SwapInfo
pair_swap dex router token_in token_out amount_in amount_out_min to = record {
  dex = dex;
  router = router;
  token_in = token_in;
  token_out = token_out;
  amount_in = amount_in;
  amount_out_min = amount_out_min;
  to = to;
  fee = none;
  permit2_nonce = none;
}

-- `(2..=10).contains(&path_len)`
abbrev pub path_len_ok : ℕ → Bool
path_len_ok n = leb 2 n && leb n 10

-- The second half of `decode_v2`, once the place and the length of the path are read.
unfoldable pub decode_v2_path : List ℕ → ℕ → ℕ → ℕ → ℕ → ℕ → Run (Option SwapInfo)
decode_v2_path calldata to amount_in amount_out_min path_start path_len =
    if not (path_len_ok path_len)
    then done none
    else if ltb (length calldata) (add_usize path_start (mul_usize path_len 32))
    then done none
    else read_address calldata path_start >>=? λ token_in.
        read_address calldata (add_usize path_start (mul_usize (path_len - 1) 32)) >>=? λ token_out.
        read_address calldata 96 >>=? λ recipient. done (
          some
            (pair_swap DexName.uniswap_v2 to token_in token_out amount_in amount_out_min recipient))

unfoldable pub decode_v2 : List ℕ → ℕ → Run (Option SwapInfo)
decode_v2 calldata to =
    if ltb (length calldata) 160
    then done none
    else read_u256 calldata 0 >>=? λ amount_in. read_u256 calldata 32 >>=? λ amount_out_min.
        done (read_usize calldata 64) >>=? λ path_offset.
        done (read_usize calldata path_offset) >>=? λ path_len.
        decode_v2_path calldata to amount_in amount_out_min (add_usize path_offset 32) path_len

unfoldable pub decode_v2_eth : List ℕ → ℕ → ℕ → Run (Option SwapInfo)
decode_v2_eth calldata to value =
    if ltb (length calldata) 128
    then done none
    else read_u256 calldata 0 >>=? λ amount_out_min.
        done (read_usize calldata 32) >>=? λ path_offset. read_address calldata 64 >>=? λ recipient.
        done (read_usize calldata path_offset) >>=? λ path_len.
        if not (path_len_ok path_len)
        then done none
        else read_address calldata (add_usize path_offset 32) >>=? λ token_in.
            read_address calldata
              (add_usize (add_usize path_offset 32) (mul_usize (path_len - 1) 32))
            >>=? λ token_out. done (
                some (
                  pair_swap DexName.uniswap_v2 to token_in token_out value amount_out_min
                    recipient))

-- The amounts, the place of the routes and the recipient, by selector.
unfoldable pub aerodrome_fields : ℕ → List ℕ → ℕ → Run (Option (ℕ × ℕ × ℕ × ℕ))
aerodrome_fields selector input value =
    if selector == 0xcdf2de83
    then (if ltb (length input) 96
        then done none
        else read_u256 input 0 >>=? λ amount_out_min.
            done (read_usize input 32) >>=? λ routes_offset. read_address input 64 >>=? λ recipient.
            done (some (value, amount_out_min, routes_offset, recipient)))
    else if (selector == 0x15263a6a) || (selector == 0xa1251d75)
    then (if ltb (length input) 128
        then done none
        else read_u256 input 0 >>=? λ amount_in. read_u256 input 32 >>=? λ amount_out_min.
            done (read_usize input 64) >>=? λ routes_offset. read_address input 96 >>=? λ recipient.
            done (some (amount_in, amount_out_min, routes_offset, recipient)))
    else done none

-- The first token of the first route and the last token of the last one, 96 bytes a route.
unfoldable pub aerodrome_tokens : List ℕ → ℕ → Run (Option (ℕ × ℕ))
aerodrome_tokens input routes_offset = done (read_usize input routes_offset) >>=? λ routes_len.
    if routes_len == 0
    then done none
    else (let route_start = add_usize routes_offset 32 in
        read_address input route_start >>=? λ token_in.
        read_address input (add_usize (add_usize route_start (mul_usize (routes_len - 1) 96)) 32)
        >>=? λ token_out. done (some (token_in, token_out)))

unfoldable pub decode_aerodrome : List ℕ → ℕ → ℕ → Run (Option SwapInfo)
decode_aerodrome calldata to value =
    if ltb (length calldata) 4
    then done none
    else aerodrome_fields (from_be_bytes (slice calldata 0 4)) (drop 4 calldata) value
      >>=? λ (amount_in, amount_out_min, routes_offset, recipient).
          aerodrome_tokens (drop 4 calldata) routes_offset >>=? λ (token_in, token_out). done (
            some (
              pair_swap DexName.aerodrome to token_in token_out amount_in amount_out_min recipient))

-- ===== src/Decoder/Router.antt =====
-- src/universal_decoder.rs: single swaps of Uniswap V3 and the commands of the universal router.
use sovereign_shadow_mev.Prelude.{
  ℕ, ◌+◌, ◌-◌, ◌*◌, ◌^◌, ◌&&◌, Bool, false, List, [], ◌∷◌, ◌++◌, Option, none, some, length, drop,
  leb, ltb, ◌==◌, if◌then◌else◌, Run, done, panic, ◌>>=◌,
}
use sovereign_shadow_mev.Models.{DexName, SwapInfo}
use sovereign_shadow_mev.Decoder.Readers.{
  add_usize, mul_usize, slice_run, read_u256, read_address, read_usize, or_zero, unwrap_or,
  path_leg,
}
use sovereign_shadow_mev.Decoder.Pairs.{pair_swap}

abbrev pub v3_swap : ℕ → ℕ → ℕ → ℕ → ℕ → ℕ → ℕ → SwapInfo
v3_swap router token_in token_out fee amount_in amount_out_min to = record {
  dex = DexName.uniswap_v3;
  router = router;
  token_in = token_in;
  token_out = token_out;
  amount_in = amount_in;
  amount_out_min = amount_out_min;
  to = to;
  fee = some fee;
  permit2_nonce = none;
}

abbrev leg_swap : ℕ → ℕ × ℕ × ℕ → ℕ → ℕ → ℕ → SwapInfo
leg_swap router (token_in, fee, token_out) amount_in amount_out_min to =
    v3_swap router token_in token_out fee amount_in amount_out_min to

-- `.to::<u32>()`, which panics on a number that does not fit.
abbrev pub to_u32 : ℕ → Run ℕ
to_u32 n = if ltb n (2 ^ 32) then done n else panic

-- `read_usize(data, 4) == Some(32)`
abbrev pub is_offset_32 : Option ℕ → Bool
is_offset_32 none = false
is_offset_32 (some n) = n == 32

unfoldable pub v3_single_at : List ℕ → ℕ → ℕ → Run (List SwapInfo)
v3_single_at calldata to start = or_zero (read_address calldata start) >>= λ token_in.
    or_zero (read_address calldata (start + 32)) >>= λ token_out.
    or_zero (read_u256 calldata (start + 64)) >>= λ fee_word. to_u32 fee_word >>= λ fee.
    or_zero (read_address calldata (start + 96)) >>= λ recipient.
    or_zero (read_u256 calldata (start + 160)) >>= λ amount_in.
    or_zero (read_u256 calldata (start + 192)) >>= λ amount_out_min.
    done (v3_swap to token_in token_out fee amount_in amount_out_min recipient ∷ [])

unfoldable pub decode_v3_single : List ℕ → ℕ → Run (List SwapInfo)
decode_v3_single calldata to =
    if ltb (length calldata) 228
    then done []
    else v3_single_at calldata to
        (if leb 36 (length calldata) && is_offset_32 (read_usize calldata 4) then 36 else 4)

-- What one command asks for, from its input.
unfoldable pub command_swap : ℕ → List ℕ → ℕ → ℕ → ℕ → ℕ → Run (List SwapInfo)
command_swap cmd inp to recipient amount_in amount_out_min =
    let path_off = unwrap_or (read_usize inp 96) 0 in
    let path_len = unwrap_or (read_usize inp path_off) 0 in
    let path_ptr = add_usize path_off 32 in
    if (cmd == 0) && leb (add_usize path_ptr path_len) (length inp) && leb 43 path_len
    then (slice_run inp path_ptr (add_usize path_ptr path_len) >>= λ pb.
        done (leg_swap to (path_leg pb 0) amount_in amount_out_min recipient ∷ []))
    else if (cmd == 8)
        && leb 2 path_len
        && leb (add_usize path_ptr (mul_usize path_len 32)) (length inp)
    then (or_zero (read_address inp path_ptr) >>= λ token_in.
        or_zero (read_address inp (add_usize path_ptr (mul_usize (path_len - 1) 32)))
        >>= λ token_out. done (
            pair_swap DexName.uniswap_v2 to token_in token_out amount_in amount_out_min recipient
            ∷ []))
    else done []

-- One turn of the loop over the commands.
unfoldable pub router_command : List ℕ → ℕ → ℕ → ℕ → ℕ → Run (List SwapInfo)
router_command calldata to inputs_ptr idx cmd =
    let off = unwrap_or (read_usize calldata (add_usize (add_usize inputs_ptr 32) (idx * 32))) 0 in
    let start = add_usize inputs_ptr off in
    let len = unwrap_or (read_usize calldata start) 0 in
    let slice_start = add_usize start 32 in
    if ltb (length calldata) (add_usize start 32)
    then done []
    else if ltb (length calldata) (add_usize slice_start len)
    then done []
    else slice_run calldata slice_start (add_usize slice_start len) >>= λ inp.
        if ltb (length inp) 160
        then done []
        else or_zero (read_address inp 0) >>= λ recipient.
            or_zero (read_u256 inp 32) >>= λ amount_in.
            or_zero (read_u256 inp 64) >>= λ amount_out_min.
            command_swap cmd inp to recipient amount_in amount_out_min

unfoldable pub router_loop : List ℕ → ℕ → ℕ → ℕ → List ℕ → Run (List SwapInfo)
router_loop calldata to inputs_ptr idx [] = done []
router_loop calldata to inputs_ptr idx (cmd ∷ cmds) =
    let rest = router_loop calldata to inputs_ptr (idx + 1) cmds in
    router_command calldata to inputs_ptr idx cmd >>= λ now. rest >>= λ later. done (now ++ later)

unfoldable pub decode_universal_router : List ℕ → ℕ → Run (List SwapInfo)
decode_universal_router call to =
    let calldata = drop 4 call in
    let cmds_ptr = unwrap_or (read_usize calldata 0) 0 in
    let cmds_len = unwrap_or (read_usize calldata cmds_ptr) 0 in
    let cmds_start = add_usize cmds_ptr 32 in
    if ltb (length call) 4
    then done []
    else if ltb (length calldata) 96
    then done []
    else if ltb (length calldata) (add_usize cmds_start cmds_len)
    then done []
    else slice_run calldata cmds_start (add_usize cmds_start cmds_len) >>= λ commands.
        router_loop calldata to (unwrap_or (read_usize calldata 32) 0) 0 commands

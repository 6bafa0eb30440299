-- ===== src/Decoder/Intents/Wrap.antt =====
-- A length in an order that wraps the offset makes the decoder panic.
use sovereign_shadow_mev.Prelude.{
  ℕ, ◌+◌, ◌^◌, ◌≤◌, ◌<◌, ◌≡◌, refl, arith, List, some, false, length, leb, min, panic,
}
use sovereign_shadow_mev.Decoder.Readers.{add_usize, slice_run, read_usize}
use sovereign_shadow_mev.Decoder.Intents.{parse_uniswapx_order}

-- An order whose two words are read, and whose length, a 64-bit number, carries the sum with the
-- start of its bytes to 2 ^ 64 or beyond, makes the decoder panic instead of being skipped.
pub parse_uniswapx_order-wraps :
    (calldata : List ℕ) (offset reactor order_ptr order_len : ℕ)
    → read_usize calldata offset ≡ some order_ptr
    → read_usize calldata (add_usize offset order_ptr) ≡ some order_len
    → order_len < 2 ^ 64
    → 2 ^ 64 ≤ add_usize (add_usize offset order_ptr) 32 + order_len
    → parse_uniswapx_order calldata offset reactor ≡ panic
unfolding parse_uniswapx_order slice_run
parse_uniswapx_order-wraps calldata offset reactor order_ptr order_len at_ptr at_len word wraps =
    let start = add_usize (add_usize offset order_ptr) 32 in
    let early : leb start (min (add_usize start order_len) (length calldata)) ≡ false =
      ground arith in
    rw (at_ptr, at_len, early) refl

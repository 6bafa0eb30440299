-- ===== src/V3Math/Bitmap.antt =====
-- src/v3_math.rs: the next initialized tick of the bitmap, one 256-bit word at a time.
use Prim.Native.Nat.{bit_and}
use sovereign_shadow_mev.Prelude.{
  ℕ, zero, suc, ◌-◌, ◌/◌, ◌%◌, ◌^◌, ◌&&◌, Bool, true, false, not, Option, Run, done, panic, ltb,
  ◌==◌, if◌then◌else◌,
}
use sovereign_shadow_mev.Prelude.Int.{ℤ, pos, negsuc, ◌+ℤ◌, ◌-ℤ◌, ◌*ℤ◌, ltb_ℤ}
use sovereign_shadow_mev.Uint.{bit_len, add256, sub256, shl256}
use sovereign_shadow_mev.V3Math.Delta.{unwrap_or}

-- `FxHashMap<i16, U256>`, by what it holds at a key.
abbrev pub TickBitmap : Type 0
TickBitmap = ℤ → Option ℕ

-- `a / n` and whether `a % n != 0`, as Rust divides: towards 0.
abbrev pub quot_ℤ : ℤ → ℕ → ℤ
quot_ℤ (pos a) n = pos (a / n)
quot_ℤ (negsuc a) n = pos 0 -ℤ pos (suc a / n)

abbrev pub divides : ℕ → ℤ → Bool
divides n (pos a) = a % n == 0
divides n (negsuc a) = suc a % n == 0

-- `tick >> 8`, `tick as u8` and `as i16`.
abbrev pub shr8 : ℤ → ℤ
shr8 (pos a) = pos (a / 256)
shr8 (negsuc a) = negsuc (a / 256)

abbrev pub as_u8 : ℤ → ℕ
as_u8 (pos a) = a % 256
as_u8 (negsuc a) = 255 - a % 256

abbrev pub as_i16 : ℤ → ℤ
as_i16 (pos a) =
    if ltb (a % 2 ^ 16) (2 ^ 15) then pos (a % 2 ^ 16) else negsuc (2 ^ 16 - 1 - a % 2 ^ 16)
as_i16 (negsuc a) =
    if ltb (a % 2 ^ 16) (2 ^ 15) then negsuc (a % 2 ^ 16) else pos (2 ^ 16 - 1 - a % 2 ^ 16)

unfoldable pub tick_bitmap_position : ℤ → ℤ × ℕ
tick_bitmap_position tick = (as_i16 (shr8 tick), as_u8 tick)

-- `trailing_zeros`, over 256 bits.
unfoldable pub trailing_zeros : ℕ → ℕ → ℕ
trailing_zeros zero x = 0
trailing_zeros (suc n) x = if x % 2 == 1 then 0 else suc (trailing_zeros n (x / 2))

unfoldable pub most_significant_bit : ℕ → ℕ
unfolding bit_len
most_significant_bit x = if x == 0 then 0 else (bit_len 256 x - 1) % 256

unfoldable pub least_significant_bit : ℕ → ℕ
unfolding trailing_zeros
least_significant_bit x = trailing_zeros 256 x % 256

-- Bits 0 to `b`, and bits `b` to 255.
abbrev pub mask_below : ℕ → ℕ
mask_below b = add256 (sub256 (shl256 1 b) 1) (shl256 1 b)

abbrev pub mask_above : ℕ → ℕ
mask_above b = 2 ^ 256 - 1 - sub256 (shl256 1 b) 1

abbrev pub compress : ℤ → ℕ → ℤ
compress tick spacing =
    if ltb_ℤ tick (pos 0) && not (divides spacing tick)
    then quot_ℤ tick spacing -ℤ pos 1
    else quot_ℤ tick spacing

-- The word of `compressed` for `lte`, and the word of the tick above it otherwise.
unfoldable pub next_in_word : ℤ → ℕ → Bool → TickBitmap → ℤ × Bool
next_in_word compressed tick_spacing true tick_bitmap =
    let (word_pos, bit_pos) = tick_bitmap_position compressed in
    let masked = bit_and (unwrap_or (tick_bitmap word_pos) 0) (mask_below bit_pos) in
    let initialized = not (masked == 0) in
    (
      if initialized
          then (compressed -ℤ (pos bit_pos -ℤ pos (most_significant_bit masked)))
            *ℤ pos tick_spacing
          else (compressed -ℤ pos bit_pos) *ℤ pos tick_spacing,
      initialized,
    )
next_in_word compressed tick_spacing false tick_bitmap =
    let (word_pos, bit_pos) = tick_bitmap_position (compressed +ℤ pos 1) in
    let masked = bit_and (unwrap_or (tick_bitmap word_pos) 0) (mask_above bit_pos) in
    let initialized = not (masked == 0) in
    (
      if initialized
          then (compressed +ℤ pos 1 +ℤ (pos (least_significant_bit masked) -ℤ pos bit_pos))
            *ℤ pos tick_spacing
          else (compressed +ℤ pos 1 +ℤ (pos 255 -ℤ pos bit_pos)) *ℤ pos tick_spacing,
      initialized,
    )

-- A spacing of 0 makes `tick / tick_spacing` panic.
unfoldable pub get_next_initialized_tick_precise : ℤ → ℕ → Bool → TickBitmap → Run (ℤ × Bool)
get_next_initialized_tick_precise tick tick_spacing lte tick_bitmap =
    if tick_spacing == 0
    then panic
    else done (next_in_word (compress tick tick_spacing) tick_spacing lte tick_bitmap)

unfoldable pub fee_to_tick_spacing : ℕ → ℕ
fee_to_tick_spacing fee =
    if fee == 100
    then 1
    else if fee == 500
    then 10
    else if fee == 3000
    then 60
    else if fee == 10000
    then 200
    else 1

-- The older search, which takes the neighbour.
unfoldable pub get_next_initialized_tick : ℤ → Bool → ℤ
get_next_initialized_tick tick lte = if lte then tick -ℤ pos 1 else tick +ℤ pos 1

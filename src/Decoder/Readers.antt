-- ===== src/Decoder/Readers.antt =====
-- src/utils.rs: the readers of words in call data. Offsets are 64-bit and wrap, as in a build without
-- overflow checks; a slice outside its bounds panics, and `get` gives nothing there.

use sovereign_shadow_mev.Prelude.{
  ℕ, zero, suc, ◌+◌, ◌-◌, ◌*◌, ◌%◌, ◌^◌, ◌&&◌, List, [], ◌∷◌, Option, none, some, length, leb, ltb,
  if◌then◌else◌, Run, done, panic, ◌>>=◌,
}
use sovereign_shadow_mev.Bytes.{slice, from_be_bytes}

abbrev pub add_usize : ℕ → ℕ → ℕ
add_usize a b = (a + b) % 2 ^ 64

abbrev pub mul_usize : ℕ → ℕ → ℕ
mul_usize a b = a * b % 2 ^ 64

-- `&data[start..stop]`
unfoldable pub slice_run : List ℕ → ℕ → ℕ → Run (List ℕ)
slice_run calldata start stop =
    if leb start stop && leb stop (length calldata)
    then done (slice calldata start (stop - start))
    else panic

unfoldable pub read_u256 : List ℕ → ℕ → Run (Option ℕ)
read_u256 calldata offset =
    let stop = add_usize offset 32 in
    if ltb (length calldata) stop
    then done none
    else slice_run calldata offset stop >>= λ bytes. done (some (from_be_bytes bytes))

unfoldable pub read_address : List ℕ → ℕ → Run (Option ℕ)
read_address calldata offset =
    let addr_start = add_usize offset 12 in
    let stop = add_usize addr_start 20 in
    if ltb (length calldata) stop
    then done none
    else slice_run calldata addr_start stop >>= λ bytes. done (some (from_be_bytes bytes))

unfoldable pub read_usize : List ℕ → ℕ → Option ℕ
read_usize calldata offset =
    let start = add_usize offset 24 in
    let stop = add_usize offset 32 in
    if leb start stop && leb stop (length calldata)
    then some (from_be_bytes (slice calldata start 8))
    else none

-- `?` on what a reader gives.
infixl 5 ◌>>=?◌
abbrev pub ◌>>=?◌ {ℓ κ} :
    {A : Type ℓ} {B : Type κ} → Run (Option A) → (A → Run (Option B)) → Run (Option B)
done none >>=? f = done none
done (some a) >>=? f = f a
panic >>=? f = panic

-- `unwrap_or_default`
abbrev pub or_zero : Run (Option ℕ) → Run ℕ
or_zero (done none) = done 0
or_zero (done (some a)) = done a
or_zero panic = panic

abbrev pub unwrap_or : Option ℕ → ℕ → ℕ
unwrap_or none d = d
unwrap_or (some a) d = a

-- One leg of a packed path: an address, a fee of three bytes, an address.
abbrev pub path_leg : List ℕ → ℕ → ℕ × ℕ × ℕ
path_leg path i = (
  from_be_bytes (slice path i 20),
  from_be_bytes (slice path (i + 20) 3),
  from_be_bytes (slice path (i + 23) 20),
)

unfoldable pub slice_v3_path : List ℕ → Option (ℕ × ℕ × ℕ)
slice_v3_path calldata = if ltb (length calldata) 43 then none else some (path_leg calldata 0)

-- The loop that hops 23 bytes at a time; the length of the path is fuel enough.
unfoldable pub v3_path_loop : ℕ → List ℕ → ℕ → List (ℕ × ℕ × ℕ)
v3_path_loop zero path i = []
v3_path_loop (suc fuel) path i =
    let rest = v3_path_loop fuel path (i + 23) in
    if leb (i + 43) (length path) then path_leg path i ∷ rest else []

unfoldable pub fast_decode_v3_path : List ℕ → List (ℕ × ℕ × ℕ)
fast_decode_v3_path path = if ltb (length path) 43 then [] else v3_path_loop (length path) path 0

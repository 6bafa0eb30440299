-- ===== src/Decoder/Dispatch.antt =====
-- src/universal_decoder.rs: `decode`, which chooses a decoder by the first four bytes.
use sovereign_shadow_mev.Prelude.{
  ℕ, ◌||◌, List, [], ◌∷◌, Option, none, some, length, drop, ltb, ◌==◌, if◌then◌else◌, Run, done,
  panic,
}
use sovereign_shadow_mev.Bytes.{slice, from_be_bytes}
use sovereign_shadow_mev.Models.{SwapInfo}
use sovereign_shadow_mev.Decoder.Readers.{unwrap_or}
use sovereign_shadow_mev.Decoder.Pairs.{decode_v2, decode_v2_eth, decode_aerodrome}
use sovereign_shadow_mev.Decoder.Intents.{decode_uniswapx}
use sovereign_shadow_mev.Decoder.Router.{decode_v3_single, decode_universal_router}

pub data SelectorMethod : Type 0 where
  v2 aerodrome v2_eth v3_single universal_router uniswap_x : SelectorMethod

-- `SELECTORS.get(&selector)`
unfoldable pub selectors : ℕ → Option SelectorMethod
selectors s =
    if (s == 0x38ed1739) || (s == 0x8803dbee) || (s == 0x18cbafe5) || (s == 0x4a25d94a)
    then some SelectorMethod.v2
    else if (s == 0xa1251d75) || (s == 0xcdf2de83) || (s == 0x15263a6a)
    then some SelectorMethod.aerodrome
    else if (s == 0x7ff36449) || (s == 0xfb3bdb41)
    then some SelectorMethod.v2_eth
    else if s == 0x414bf389
    then some SelectorMethod.v3_single
    else if s == 0x3593564c
    then some SelectorMethod.universal_router
    else if (s == 0x8ae0693a) || (s == 0x5b0d135a)
    then some SelectorMethod.uniswap_x
    else none

pub record DecodeTx : Type 0 where
  pub to : Option ℕ
  pub value : ℕ
  pub input : List ℕ

-- `.into_iter().collect()` on an option.
abbrev collect : Run (Option SwapInfo) → Run (List SwapInfo)
collect (done none) = done []
collect (done (some info)) = done (info ∷ [])
collect panic = panic

unfoldable pub decode : DecodeTx → Run (List SwapInfo)
decode tx =
    let calldata = tx.input in
    let to = unwrap_or tx.to 0 in
    if ltb (length calldata) 4
    then done []
    else elim (selectors (from_be_bytes (slice calldata 0 4))) [
      | none ↦ done []
      | some SelectorMethod.v2 ↦ collect (decode_v2 (drop 4 calldata) to)
      | some SelectorMethod.aerodrome ↦ collect (decode_aerodrome calldata to tx.value)
      | some SelectorMethod.v2_eth ↦ collect (decode_v2_eth (drop 4 calldata) to tx.value)
      | some SelectorMethod.v3_single ↦ decode_v3_single calldata to
      | some SelectorMethod.universal_router ↦ decode_universal_router calldata to
      | some SelectorMethod.uniswap_x ↦ decode_uniswapx calldata to
    ]

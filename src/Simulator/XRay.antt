-- ===== src/Simulator/XRay.antt =====
-- src/state_simulator.rs: `xray_scan_bytecode` and `detect_wash_trap`.
pub mod Laws
use sovereign_shadow_mev.Prelude.{
  ℕ, Bool, true, false, ◌||◌, ◌&&◌, Option, none, some, List, [], ◌∷◌, length, ltb, ◌==◌,
  if◌then◌else◌,
}
use sovereign_shadow_mev.Prelude.Assoc.{lookup}
use sovereign_shadow_mev.Constants.{min_unique_traders}
use sovereign_shadow_mev.Models.Errors.{
  Check, err, ok, honeypot_detected, wash_trap, xray_selfdestruct, xray_delegatecall, xray_jail,
  xray_origin,
}
use sovereign_shadow_mev.Mirror.Pools.{StateMirror}

abbrev pub is_stop : ℕ → Bool
is_stop opcode = (opcode == 0xfd) || (opcode == 0xfe)

-- The loop over the bytes; `size` is the length of the whole code.
unfoldable pub xray_loop : ℕ → List ℕ → Bool → Bool → Check
xray_loop size [] has_caller has_sload = ok tt
xray_loop size (opcode ∷ rest) has_caller has_sload =
    let caller = has_caller || (opcode == 0x33) in
    let sload = has_sload || (caller && (opcode == 0x54)) in
    let later = xray_loop size rest caller sload in
    if opcode == 0xff
    then err (honeypot_detected xray_selfdestruct)
    else if (opcode == 0xf4) && ltb size 5000
    then err (honeypot_detected xray_delegatecall)
    else if sload && is_stop opcode && ltb size 4000
    then err (honeypot_detected xray_jail)
    else if (opcode == 0x32) && ltb size 3000
    then err (honeypot_detected xray_origin)
    else later

unfoldable pub xray_scan_bytecode : StateMirror → ℕ → Check
xray_scan_bytecode m token = elim (lookup token m.bytecodes) [
  | none ↦ ok tt
  | some code ↦ xray_loop (length code) code false false
]

unfoldable pub detect_wash_trap : StateMirror → ℕ → Check
detect_wash_trap m pool = elim (lookup pool m.trader_registry) [
  | none ↦ ok tt
  | some traders ↦
      if ltb 0 (length traders) && ltb (length traders) min_unique_traders
      then err (honeypot_detected (wash_trap (length traders)))
      else ok tt
]

-- ===== src/Mirror/Blocks.antt =====
-- src/state_mirror.rs: blocks, the gas market and the age of the state.
pub mod Laws
use sovereign_shadow_mev.Prelude.{
  ℕ, ◌+◌, ◌-◌, ◌*◌, ◌/◌, ◌%◌, ◌^◌, Bool, true, false, List, [], ◌∷◌, not, ◌&&◌, ltb, ◌==◌,
  if◌then◌else◌,
}
use sovereign_shadow_mev.Constants.{max_node_lag_seconds}
use sovereign_shadow_mev.Uint.{mul256}
use sovereign_shadow_mev.Mirror.Pools.{StateMirror, GasState}

unfoldable pub mark_dirty : StateMirror → StateMirror
mark_dirty m = record m { dirty_flag = true }

-- A gap is a block that is not the next one, once a block was seen.
abbrev pub is_gap : ℕ → ℕ → Bool
is_gap prev block_number = not (prev == 0) && ltb ((prev + 1) % 2 ^ 64) block_number

unfoldable pub sync_block : StateMirror → ℕ → ℕ → ℕ → StateMirror
sync_block m block_number base_fee timestamp =
    let marked = if is_gap m.current_block block_number then mark_dirty m else m in
    record marked {
      current_block = block_number;
      last_block_timestamp = timestamp;
      gas_state = record (m.gas_state) {
        base_fee = base_fee;
        next_base_fee = mul256 base_fee 1125 / 1000;
      };
    }

-- Blocks one after another, each with its number, its base fee and its time.
unfoldable pub sync_blocks : StateMirror → List (ℕ × ℕ × ℕ) → StateMirror
sync_blocks m [] = m
sync_blocks m ((block_number, base_fee, timestamp) ∷ blocks) =
    sync_blocks (sync_block m block_number base_fee timestamp) blocks

-- Whether `verify_state_freshness` gives `Ok` at the time `now`.
unfoldable pub verify_state_freshness : StateMirror → ℕ → Bool
verify_state_freshness m now =
    if m.last_block_timestamp == 0
    then true
    else not (ltb max_node_lag_seconds (now - m.last_block_timestamp))

unfoldable pub set_max_priority_fee : StateMirror → ℕ → StateMirror
set_max_priority_fee m fee = record m {
  gas_state = record (m.gas_state) { max_priority_fee_per_gas = fee };
}

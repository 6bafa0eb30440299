-- ===== src/Mirror/Blocks/Laws.antt =====
-- What a run of blocks does to the mirror, and when the state counts as fresh.
use sovereign_shadow_mev.Prelude.{
  ℕ, ◌+◌, ◌*◌, ◌/◌, ◌^◌, ◌<◌, ◌≡◌, refl, arith, Bool, false, ◌&&◌, ◌||◌, List, [], ◌∷◌, ◌++◌, ltb,
  leb, ◌==◌,
}
use sovereign_shadow_mev.Uint.{mul256}
use sovereign_shadow_mev.Mirror.Pools.{StateMirror}
use sovereign_shadow_mev.Mirror.Blocks.{mark_dirty, sync_block, sync_blocks, verify_state_freshness}

-- A block is missed in a run that goes on from the block `prev`, where 0 stands for none.
abbrev pub misses : ℕ → List (ℕ × ℕ × ℕ) → Bool
misses prev [] = false
misses prev ((number, fee, timestamp) ∷ blocks) =
    (ltb 0 prev && ltb (prev + 1) number) || misses number blocks

-- The numbers are below the largest 64-bit number.
abbrev pub AreNumbers : List (ℕ × ℕ × ℕ) → Type 0
AreNumbers [] = Unit
AreNumbers ((number, fee, timestamp) ∷ blocks) = (number + 1 < 2 ^ 64) × AreNumbers blocks

sync_blocks-dirty :
    (m : StateMirror) (blocks : List (ℕ × ℕ × ℕ))
    → m.current_block + 1 < 2 ^ 64
    → AreNumbers blocks
    → (sync_blocks m blocks).dirty_flag ≡ (m.dirty_flag || misses m.current_block blocks)
unfolding sync_blocks sync_block mark_dirty
sync_blocks-dirty m [] h hs = ground arith
sync_blocks-dirty m ((number, fee, timestamp) ∷ blocks) h hs =
    let later = sync_blocks-dirty (sync_block m number fee timestamp) blocks hs.0 hs.1 in
    ground (arith, later)

sync_blocks-append :
    (m : StateMirror) (blocks : List (ℕ × ℕ × ℕ)) (number fee timestamp : ℕ)
    → sync_blocks m (blocks ++ (number, fee, timestamp) ∷ [])
      ≡ sync_block (sync_blocks m blocks) number fee timestamp
unfolding sync_blocks
sync_blocks-append m [] number fee timestamp = refl
sync_blocks-append m (b ∷ blocks) number fee timestamp =
    sync_blocks-append (sync_block m b.0 b.1 b.2) blocks number fee timestamp

-- After a run of blocks whose numbers, like the mirror's, are below 2 ^ 64 - 1 and whose last base
-- fee is below 2 ^ 245, the mirror is dirty if and only if it was dirty or some block of the run is
-- more than one above the block directly before it, which for the first one is the mirror's, and
-- that is not 0; the next base fee is the last fee and an eighth of it, rounded down; and the state
-- is fresh exactly until ten seconds after the last block's time, or always for the time 0.
pub sync_blocks-fresh :
    (m : StateMirror) (blocks : List (ℕ × ℕ × ℕ)) (number fee timestamp now : ℕ)
    → m.current_block + 1 < 2 ^ 64
    → AreNumbers (blocks ++ (number, fee, timestamp) ∷ [])
    → fee < 2 ^ 245
    → let after = sync_blocks m (blocks ++ (number, fee, timestamp) ∷ []) in
      (after.dirty_flag
        ≡ (m.dirty_flag || misses m.current_block (blocks ++ (number, fee, timestamp) ∷ [])))
      × (after.gas_state.next_base_fee ≡ fee + fee / 8)
      × (verify_state_freshness after now ≡ ((timestamp == 0) || leb now (timestamp + 10)))
unfolding sync_block verify_state_freshness
sync_blocks-fresh m blocks number fee timestamp now h hs small =
    let wide : mul256 fee 1125 ≡ fee * 1125 = omega arith in
    let last = sync_blocks-append m blocks number fee timestamp in
    (
      sync_blocks-dirty m (blocks ++ (number, fee, timestamp) ∷ []) h hs,
      rw (last, wide) (omega arith),
      rw last (ground arith),
    )

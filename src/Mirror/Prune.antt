-- ===== src/Mirror/Prune.antt =====
-- src/state_mirror.rs: `prune_stale_pools`.
use sovereign_shadow_mev.Prelude.{
  ℕ, ◌-◌, ◌<◌, ◌≡◌, refl, arith, Bool, false, ◌||◌, none, some, length, contains, ltb, ◌==◌,
  if◌then◌else◌, Option-cases, inl, inr,
}
use sovereign_shadow_mev.Constants.{core_pools}
use sovereign_shadow_mev.Prelude.Assoc.{lookup, retain, contains_key, lookup-retain, HasKeysOnce}
use sovereign_shadow_mev.Mirror.Pools.{StateMirror, PoolState}

-- The pools that stay: core pools, those updated or accessed lately, and those never updated.
unfoldable pub keeps_pool : ℕ → ℕ → ℕ → PoolState → Bool
keeps_pool current now addr pool =
    let block_age = if pool.last_updated_block == 0 then 0 else current - pool.last_updated_block in
    let time_since_access = now - pool.last_access_ts in
    contains core_pools addr
    || ltb block_age 500
    || ltb time_since_access 1800
    || (pool.last_updated_block == 0)

-- Byte codes are dropped with their pools once there are more than 500.
unfoldable pub prune_stale_pools : StateMirror → ℕ → StateMirror
prune_stale_pools m now =
    let pools = retain (keeps_pool m.current_block now) m.pools in
    if m.current_block == 0 then m else record m {
      pools = pools;
      bytecodes =
          if ltb 500 (length m.bytecodes)
          then retain (λ addr _. contains_key addr pools) m.bytecodes
          else m.bytecodes;
    }

-- With every address once in the mirror and a block seen, pruning keeps a pool, unchanged, exactly
-- if it is a core pool, was never updated, was updated less than 500 blocks ago, or was accessed
-- less than 1800 seconds ago; it adds no pool.
pub prune_stale_pools-lookup :
    (m : StateMirror) (now addr : ℕ)
    → HasKeysOnce m.pools
    → 0 < m.current_block
    → lookup addr (prune_stale_pools m now).pools ≡ elim (lookup addr m.pools) [
      | none ↦ none
      | some p ↦
          if contains core_pools addr
            || (p.last_updated_block == 0)
            || ltb (m.current_block - p.last_updated_block) 500
            || ltb (now - p.last_access_ts) 1800
          then some p
          else none
    ]
unfolding prune_stale_pools keeps_pool
prune_stale_pools-lookup m now addr once seen =
    let cut = lookup-retain (keeps_pool m.current_block now) addr m.pools once in
    let seen_block : (m.current_block == 0) ≡ false = ground arith in
    rw (seen_block, cut)
      (elim (Option-cases (lookup addr m.pools)) [
        | inl missing ↦ rw missing refl
        | inr (p, there) ↦ rw there (ground arith)
      ])

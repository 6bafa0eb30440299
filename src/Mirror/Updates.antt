-- ===== src/Mirror/Updates.antt =====
-- src/state_mirror.rs: the reads and writes of the pools.
pub mod Laws
use sovereign_shadow_mev.Prelude.{
  ℕ, Bool, true, Option, none, some, List, [], ◌∷◌, ◌==◌, if◌then◌else◌,
}
use sovereign_shadow_mev.Prelude.Int.{ℤ}
use sovereign_shadow_mev.Prelude.Assoc.{Assoc, lookup, insert, modify}
use sovereign_shadow_mev.Models.{DexType}
use sovereign_shadow_mev.Mirror.Pools.{StateMirror, PoolState}
use sovereign_shadow_mev.Mirror.Blocks.{mark_dirty}

unfoldable pub update_pool : StateMirror → ℕ → PoolState → StateMirror
update_pool m address state = record m { pools = insert address state m.pools }

-- The read stamps the pool with the time of the access and gives the stamped state.
unfoldable pub get_pool_data : StateMirror → ℕ → ℕ → Option PoolState × StateMirror
get_pool_data m address now =
    let stamp : PoolState → PoolState = λ p. record p { last_access_ts = now } in
    (
      elim (lookup address m.pools) [ none ↦ none | some p ↦ some (stamp p) ],
      record m { pools = modify address stamp m.pools },
    )

-- What an entry of a batch changes in a pool that is there.
unfoldable pub merge_state : PoolState → PoolState → PoolState
merge_state state existing =
    let reserves = record existing {
      reserves0 = state.reserves0;
      reserves1 = state.reserves1;
      last_updated_block = state.last_updated_block;
    } in
    let priced = if state.sqrt_price_x96 == 0 then reserves else record reserves {
      sqrt_price_x96 = state.sqrt_price_x96;
      tick = state.tick;
      liquidity = state.liquidity;
    } in
    if state.is_stable
    then record priced { is_stable = true; dex_type = DexType.aerodrome }
    else priced

-- `entry(addr).and_modify(..).or_insert(state)`
unfoldable pub merge_entry : ℕ → PoolState → Assoc PoolState → Assoc PoolState
merge_entry address state pools =
    insert address
      (elim (lookup address pools) [ none ↦ state | some existing ↦ merge_state state existing ])
      pools

unfoldable pub merge_all : List (ℕ × PoolState) → Assoc PoolState → Assoc PoolState
merge_all [] pools = pools
merge_all ((address, state) ∷ updates) pools = merge_all updates (merge_entry address state pools)

unfoldable pub batch_update_reserves : StateMirror → List (ℕ × PoolState) → StateMirror
batch_update_reserves m updates = mark_dirty record m { pools = merge_all updates m.pools }

unfoldable pub update_v2_reserves : StateMirror → ℕ → ℕ → ℕ → StateMirror
update_v2_reserves m address r0 r1 = mark_dirty record m {
  pools =
      modify address
        (λ p. record p { reserves0 = r0; reserves1 = r1; last_updated_block = m.current_block })
        m.pools;
}

unfoldable pub update_v3_state : StateMirror → ℕ → ℕ → ℤ → ℕ → StateMirror
update_v3_state m address sqrt_price tick liquidity = mark_dirty record m {
  pools =
      modify address
        (λ p. record p {
          sqrt_price_x96 = sqrt_price;
          tick = tick;
          liquidity = liquidity;
          last_updated_block = m.current_block;
        })
        m.pools;
}

unfoldable pub update_aerodrome_stable : StateMirror → ℕ → Bool → StateMirror
update_aerodrome_stable m address is_stable = mark_dirty record m {
  pools =
      modify address
        (λ p. record p {
          is_stable = is_stable;
          dex_type = DexType.aerodrome;
          last_updated_block = m.current_block;
        })
        m.pools;
}

-- `storage_ref`: a slot that is not cached reads as 0.
unfoldable pub storage_ref : StateMirror → ℕ → ℕ → ℕ
storage_ref m address index = elim (m.storage_cache address index) [ none ↦ 0 | some v ↦ v ]

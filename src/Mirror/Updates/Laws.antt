-- ===== src/Mirror/Updates/Laws.antt =====
-- What the writes of the mirror leave in a pool, as the next read of it gives it.
use sovereign_shadow_mev.Prelude.{
  ℕ, ◌≡◌, ◌≢◌, refl, ap, ◌∙◌, arith, true, false, none, some, List, [], ◌∷◌, ◌++◌, ◌||◌, ◌==◌,
  if◌then◌else◌, Bool-cases, Option-cases, inl, inr,
}
use sovereign_shadow_mev.Prelude.Assoc.{Assoc, lookup, lookup-insert, lookup-modify}
use sovereign_shadow_mev.Mirror.Pools.{StateMirror, PoolState}
use sovereign_shadow_mev.Models.{DexType}
use sovereign_shadow_mev.Mirror.Blocks.{mark_dirty}
use sovereign_shadow_mev.Mirror.Updates.{
  get_pool_data, update_v2_reserves, merge_state, merge_entry, merge_all, batch_update_reserves,
}

-- New reserves that are written and then read: a pool that is not there stays missing, the pool
-- that is there is given with the two reserves, the mirror's block and the time of the read and
-- nothing else of it changed, every other pool is given with only the time of the read changed, and
-- the mirror is dirty.
pub get_pool_data-update_v2_reserves :
    (m : StateMirror) (address other r0 r1 now : ℕ)
    → ((get_pool_data (update_v2_reserves m address r0 r1) other now).0
        ≡ elim (lookup other m.pools) [
          | none ↦ none
          | some p ↦
              if address == other
              then some (record p {
                reserves0 = r0;
                reserves1 = r1;
                last_updated_block = m.current_block;
                last_access_ts = now;
              })
              else some (record p { last_access_ts = now })
        ])
      × ((update_v2_reserves m address r0 r1).dirty_flag ≡ true)
unfolding get_pool_data update_v2_reserves mark_dirty
get_pool_data-update_v2_reserves m address other r0 r1 now =
    let found =
      lookup-modify address other
        (λ p. record p { reserves0 = r0; reserves1 = r1; last_updated_block = m.current_block })
        m.pools in
    (
      ap (λ o. elim o [ none ↦ none | some p ↦ some (record p { last_access_ts = now }) ]) found
          ∙ elim (Bool-cases (address == other)) [
            | inl same ↦ (elim (Option-cases (lookup other m.pools)) [
              | inl missing ↦ rw missing (ground arith)
              | inr (p, there) ↦ rw (there, same) refl
            ])
            | inr differs ↦ (elim (Option-cases (lookup other m.pools)) [
              | inl missing ↦ rw missing (ground arith)
              | inr (p, there) ↦ rw (there, differs) refl
            ])
          ],
      refl,
    )

-- The addresses of a batch.
abbrev pub Avoids : ℕ → List (ℕ × PoolState) → Type 0
Avoids k [] = Unit
Avoids k ((a, s) ∷ updates) = (a ≢ k) × Avoids k updates

merge_entry-lookup :
    (a k : ℕ) (s : PoolState) (pools : Assoc PoolState)
    → lookup k (merge_entry a s pools) ≡ (
        if a == k
        then some (elim (lookup a pools) [ none ↦ s | some existing ↦ merge_state s existing ])
        else lookup k pools)
unfolding merge_entry
merge_entry-lookup a k s pools =
    lookup-insert a k (elim (lookup a pools) [ none ↦ s | some existing ↦ merge_state s existing ])
      pools

-- A batch leaves every pool that is not in it as it was.
merge_all-Avoids :
    (k : ℕ) (updates : List (ℕ × PoolState)) (pools : Assoc PoolState)
    → Avoids k updates
    → lookup k (merge_all updates pools) ≡ lookup k pools
unfolding merge_all
merge_all-Avoids k [] pools h = refl
merge_all-Avoids k ((a, s) ∷ updates) pools h =
    let differs : (a == k) ≡ false = ground arith in
    rw
      (
        merge_all-Avoids k updates (merge_entry a s pools) h.1,
        merge_entry-lookup a k s pools,
        differs,
      )
      refl

-- `p` is the pool `old` after the update `s`: the reserves and the block are the update's, the price is the
-- update's unless that has none, a pool becomes stable and one of Aerodrome if the update is stable, and all
-- else is as it was.
abbrev pub IsMerged : PoolState → PoolState → PoolState → Type 0
IsMerged old s p =
    (p.reserves0 ≡ s.reserves0)
    × (p.reserves1 ≡ s.reserves1)
    × (p.last_updated_block ≡ s.last_updated_block)
    × (p.sqrt_price_x96 ≡ (if s.sqrt_price_x96 == 0 then old.sqrt_price_x96 else s.sqrt_price_x96))
    × (p.tick ≡ (if s.sqrt_price_x96 == 0 then old.tick else s.tick))
    × (p.liquidity ≡ (if s.sqrt_price_x96 == 0 then old.liquidity else s.liquidity))
    × (p.is_stable ≡ (old.is_stable || s.is_stable))
    × (p.dex_type ≡ (if s.is_stable then DexType.aerodrome else old.dex_type))
    × (p.fee ≡ old.fee)
    × (p.volatility_score ≡ old.volatility_score)
    × (p.ticks ≡ old.ticks)
    × (p.tick_bitmap ≡ old.tick_bitmap)
    × (p.last_swap_timestamp ≡ old.last_swap_timestamp)
    × (p.last_http_update ≡ old.last_http_update)
    × (p.last_access_ts ≡ old.last_access_ts)

merge_state-IsMerged : (s old : PoolState) → IsMerged old s (merge_state s old)
unfolding merge_state
merge_state-IsMerged s old = elim (Bool-cases (s.sqrt_price_x96 == 0)) [
  | inl unpriced ↦ elim (Bool-cases (s.is_stable)) [
    | inl stable ↦
        rw (unpriced, stable)
          (
            refl,
            refl,
            refl,
            refl,
            refl,
            refl,
            ground arith,
            refl,
            refl,
            refl,
            refl,
            refl,
            refl,
            refl,
            refl,
          )
    | inr plain ↦
        rw (unpriced, plain)
          (
            refl,
            refl,
            refl,
            refl,
            refl,
            refl,
            ground arith,
            refl,
            refl,
            refl,
            refl,
            refl,
            refl,
            refl,
            refl,
          )
  ]
  | inr priced ↦ elim (Bool-cases (s.is_stable)) [
    | inl stable ↦
        rw (priced, stable)
          (
            refl,
            refl,
            refl,
            refl,
            refl,
            refl,
            ground arith,
            refl,
            refl,
            refl,
            refl,
            refl,
            refl,
            refl,
            refl,
          )
    | inr plain ↦
        rw (priced, plain)
          (
            refl,
            refl,
            refl,
            refl,
            refl,
            refl,
            ground arith,
            refl,
            refl,
            refl,
            refl,
            refl,
            refl,
            refl,
            refl,
          )
  ]
]

merge_all-append :
    (xs ys : List (ℕ × PoolState)) (pools : Assoc PoolState)
    → merge_all (xs ++ ys) pools ≡ merge_all ys (merge_all xs pools)
unfolding merge_all
merge_all-append [] ys pools = refl
merge_all-append (x ∷ xs) ys pools = merge_all-append xs ys (merge_entry x.0 x.1 pools)

-- Where a pool of the mirror has one entry in a batch, the pool afterwards is the pool that was there with that
-- entry merged into it, whatever the entries of the others before and after.
pub batch_update_reserves-IsMerged :
    (m : StateMirror) (a : ℕ) (s old : PoolState) (earlier later : List (ℕ × PoolState))
    → lookup a m.pools ≡ some old
    → Avoids a earlier
    → Avoids a later
    → (p : PoolState) × (lookup a (batch_update_reserves m (earlier ++ (a, s) ∷ later)).pools
        ≡ some p)
      × IsMerged old s p
unfolding batch_update_reserves mark_dirty merge_all
batch_update_reserves-IsMerged m a s old earlier later there before after =
    let same : (a == a) ≡ true = ground arith in
    let pools = merge_all earlier m.pools in
    let here : lookup a pools ≡ some old = merge_all-Avoids a earlier m.pools before ∙ there in
    (
      merge_state s old,
      rw
          (
            merge_all-append earlier ((a, s) ∷ later) m.pools,
            merge_all-Avoids a later (merge_entry a s pools) after,
            merge_entry-lookup a a s pools,
            same,
            here,
          )
          refl,
      merge_state-IsMerged s old,
    )

-- ===== src/Executor/Pipeline/Locks.antt =====
-- One opportunity for each pool and block.
use sovereign_shadow_mev.Prelude.{
  ℕ, ◌+◌, ◌%◌, ◌^◌, ◌≡◌, refl, sym, ◌∙◌, subst, arith, Bool, true, false, not, ◌||◌, Option, none,
  some, List, [], ◌∷◌, if◌then◌else◌, Bool-cases, inl, inr, ◌⊎◌, ◌==◌,
}
use sovereign_shadow_mev.Models.{Hop, Opportunity}
use sovereign_shadow_mev.Models.Errors.{other, circuit_breaker_open, self_collision}
use sovereign_shadow_mev.Breaker.Switch.{is_open}
use sovereign_shadow_mev.Executor.State.{
  FlashLoanExecutor, Lock, Outside, is_occupied, collides, lock_pools,
}
use sovereign_shadow_mev.Executor.Broadcast.{Sent}
use sovereign_shadow_mev.Executor.Pipeline.{unsent, vetted_order, send_stage, simulate_and_execute}
use sovereign_shadow_mev.Executor.Pipeline.Laws.{
  LeavesLocks, no_return, selected_from, send_stage-IsSafe, vetted_order-IsCovered,
}

-- A pool is one of the hops'.
abbrev pub uses_pool : List Hop → ℕ → Bool
uses_pool [] pool = false
uses_pool (hop ∷ hops) pool = (hop.pool_address == pool) || uses_pool hops pool

-- Two paths have a pool in common.
abbrev pub shares_pool : List Hop → List Hop → Bool
shares_pool hops [] = false
shares_pool hops (hop ∷ others) = uses_pool hops hop.pool_address || shares_pool hops others

is_occupied-lock_pools :
    (locks : List Lock) (block id : ℕ) (hops : List Hop) (pool : ℕ)
    → is_occupied (lock_pools locks block id hops) block pool
      ≡ (uses_pool hops pool || is_occupied locks block pool)
unfolding is_occupied lock_pools
is_occupied-lock_pools locks block id [] pool = refl
is_occupied-lock_pools locks block id (hop ∷ hops) pool =
    let rest =
      is_occupied-lock_pools (record { block = block; pool = hop.pool_address; owner = id } ∷ locks)
        block id hops pool in
    ground (arith, rest)

collides-lock_pools :
    (locks : List Lock) (block id : ℕ) (hops others : List Hop)
    → shares_pool hops others ≡ true
    → collides (lock_pools locks block id hops) block others ≡ true
unfolding collides
collides-lock_pools locks block id hops [] h = h
collides-lock_pools locks block id hops (hop ∷ others) h =
    let here = is_occupied-lock_pools locks block id hops hop.pool_address in
    elim (Bool-cases (uses_pool hops hop.pool_address)) [
      | inl used ↦ ground arith
      | inr unused ↦
          let later = collides-lock_pools locks block id hops others (ground arith) in ground arith
    ]

refuses :
    (built tripped taken : Bool) (a b c d : Option Sent)
    → built ≡ true
    → taken ≡ true
    → ((if not built then a else if tripped then b else if taken then c else d) ≡ c)
      ⊎ ((if not built then a else if tripped then b else if taken then c else d) ≡ b)
refuses true true true a b c d e1 e2 = inr refl
refuses true false true a b c d e1 e2 = inl refl
refuses true tripped false a b c d e1 e2 = ground arith
refuses false tripped taken a b c d e1 e2 = ground arith

module _ {W : Type 0} (next : Outside W) (opp : Opportunity) where
  -- `opp` is refused at once: nothing changes and nothing is sent.
  abbrev pub IsRefused : FlashLoanExecutor → Type 0
  IsRefused t =
      (simulate_and_execute next t opp ≡ unsent (other self_collision) t)
      ⊎ (simulate_and_execute next t opp ≡ unsent circuit_breaker_open t)

  abbrev pub IsRefusedAfter : Option Sent → Type 0
  IsRefusedAfter none = ⊥
  IsRefusedAfter (some (result, bundles, t)) = IsRefused t

  collides-IsRefused :
      (t : FlashLoanExecutor)
      → t.has_builder ≡ true
      → collides t.occupied_pools ((t.current_block + 1) % 2 ^ 64) opp.path.hops ≡ true
      → IsRefused t
  unfolding simulate_and_execute
  collides-IsRefused t built taken =
      refuses t.has_builder (is_open t.circuit_breaker next.now)
        (collides t.occupied_pools ((t.current_block + 1) % 2 ^ 64) opp.path.hops) _ _ _ _ built
        taken

  LeavesLocks-IsRefused :
      (s : FlashLoanExecutor) (sent : Option Sent)
      → s.has_builder ≡ true
      → collides s.occupied_pools ((s.current_block + 1) % 2 ^ 64) opp.path.hops ≡ true
      → LeavesLocks s sent
      → IsRefusedAfter sent
  LeavesLocks-IsRefused s none built taken same = same
  LeavesLocks-IsRefused s (some (result, bundles, t)) built taken same =
      collides-IsRefused t (same.2 ∙ built) (
        subst (λ locks. collides locks ((t.current_block + 1) % 2 ^ 64) opp.path.hops ≡ true)
          (sym same.0)
          (subst (λ block. collides s.occupied_pools ((block + 1) % 2 ^ 64) opp.path.hops ≡ true)
            (sym same.1) taken))

-- Once an opportunity has got past the three early returns, then however its call ends, also where
-- it fails and sends nothing, a second opportunity that has a pool in common with it is refused in
-- the same block, and changes nothing: by the collision, or by a circuit breaker that has opened.
pub simulate_and_execute-IsRefused :
    {V W : Type 0} (out : Outside V) (next : Outside W) (s : FlashLoanExecutor)
    (opp second : Opportunity)
    → s.has_builder ≡ true
    → is_open s.circuit_breaker out.now ≡ false
    → collides s.occupied_pools ((s.current_block + 1) % 2 ^ 64) opp.path.hops ≡ false
    → shares_pool opp.path.hops second.path.hops ≡ true
    → IsRefusedAfter next second (simulate_and_execute out s opp)
unfolding simulate_and_execute
simulate_and_execute-IsRefused out next s opp second built closed free shared =
    let target_block = (s.current_block + 1) % 2 ^ 64 in
    let hops = opp.path.hops in
    let locked : FlashLoanExecutor = record s {
      occupied_pools = lock_pools s.occupied_pools target_block opp.id hops;
    } in
    let stage = vetted_order out locked opp in
    no_return (IsRefusedAfter next second) s.has_builder (is_open s.circuit_breaker out.now)
      (collides s.occupied_pools target_block hops) _ _ _ _ built closed free
      (LeavesLocks-IsRefused next second locked (send_stage out opp target_block stage) built
        (collides-lock_pools s.occupied_pools target_block opp.id hops second.path.hops shared)
        ((send_stage-IsSafe out (selected_from out locked opp) opp target_block
          s.circuit_breaker.current_balance locked stage
          (vetted_order-IsCovered out locked opp)).1))

-- ===== src/MathEngine/PathOutput.antt =====
-- src/math_engine.rs: the output of a path of hops, hop by hop, through given pool states and through
-- the mirror's.
pub mod Laws
use sovereign_shadow_mev.Prelude.{
  ℕ, ◌+◌, List, [], ◌∷◌, Option, none, some, ◌==◌, if◌then◌else◌, Run, done, ◌>>=◌, at_run,
}
use sovereign_shadow_mev.Models.{DexType, Hop}
use sovereign_shadow_mev.Mirror.Pools.{PoolState}
use sovereign_shadow_mev.MathEngine.V2.{get_v2_output}
use sovereign_shadow_mev.MathEngine.Stable.{get_aerodrome_output}

module _ (guess : ℕ → ℕ → ℕ → ℕ) where
  -- The `match` on the kind of pool: concentrated pools give nothing.
  unfoldable pub hop_output : Hop → PoolState → ℕ → Run ℕ
  hop_output hop state amount = elim (hop.dex_type) [
    | DexType.uniswap_v2 ↦
        done (get_v2_output amount state.reserves0 state.reserves1 hop.zero_for_one)
    | DexType.aerodrome ↦
        get_aerodrome_output guess amount state.reserves0 state.reserves1 state.is_stable
          hop.zero_for_one
    | DexType.uniswap_v3 ↦ done 0
    | DexType.maverick_v2 ↦ done 0
  ]

  -- The loop from hop `i` on.
  unfoldable pub path_output_from : ℕ → List Hop → ℕ → List PoolState → Run ℕ
  path_output_from i [] amount states = done amount
  path_output_from i (hop ∷ hops) amount states =
      if amount == 0
      then done 0
      else at_run states i >>= λ state.
          hop_output hop state amount >>= λ out. path_output_from (i + 1) hops out states

  unfoldable pub get_path_output_with_states : List Hop → ℕ → List PoolState → Run ℕ
  get_path_output_with_states hops input_amount states = path_output_from 0 hops input_amount states

  -- `get_path_output` reads the pools of the mirror, by address; a missing pool gives 0.
  unfoldable pub get_path_output : (ℕ → Option PoolState) → List Hop → ℕ → Run ℕ
  get_path_output pool_data [] amount = done amount
  get_path_output pool_data (hop ∷ hops) amount =
      if amount == 0 then done 0 else elim (pool_data hop.pool_address) [
        | none ↦ done 0
        | some state ↦ hop_output hop state amount >>= λ out. get_path_output pool_data hops out
      ]

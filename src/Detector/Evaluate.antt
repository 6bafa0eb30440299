-- ===== src/Detector/Evaluate.antt =====
-- src/arbitrage_detector.rs: what `process_event` makes of the paths that a task finds. The floating-point
-- search for paths through Aerodrome and the hash of a path are parameters.
pub mod Laws
use sovereign_shadow_mev.Prelude.{
  ℕ, zero, suc, ◌+◌, ◌-◌, ◌*◌, ◌/◌, ◌^◌, Bool, true, false, ◌||◌, Option, none, some, List, [], ◌∷◌,
  ltb, if◌then◌else◌, Run, panic, done, ◌>>=◌,
}
use sovereign_shadow_mev.Prelude.Int.{ℤ, pos, ltb_ℤ}
use sovereign_shadow_mev.Uint.{add256, sub256}
use sovereign_shadow_mev.Models.{DexName, Hop, MempoolTx, Opportunity, default_opportunity, Route}
use sovereign_shadow_mev.Mirror.Pools.{PoolState, StateMirror}
use sovereign_shadow_mev.Mirror.Updates.{get_pool_data}
use sovereign_shadow_mev.MathEngine.PathOutput.{get_path_output_with_states}
use sovereign_shadow_mev.MathEngine.Golden.{
  Section, section_start, section_round, section_end, find_optimal_input, tolerance,
}

abbrev pub with_impact : Option (ℕ × ℕ) → PoolState → PoolState
with_impact none state = state
with_impact (some (r0, r1)) state = record state { reserves0 = r0; reserves1 = r1 }

abbrev before_state : Option PoolState → Option (List PoolState) → Option (List PoolState)
before_state (some state) (some states) = some (state ∷ states)
before_state _ _ = none

-- The states of the hops' pools with the projected reserves, or `none` where a pool is missing; every pool up
-- to that one is marked as accessed.
unfoldable pub fetch_states :
    (ℕ → Option (ℕ × ℕ)) → ℕ → List Hop → StateMirror → Option (List PoolState) × StateMirror
fetch_states impacts now [] m = (some [], m)
fetch_states impacts now (hop ∷ hops) m =
    let (found, accessed) = get_pool_data m hop.pool_address now in
    let (states, after) = fetch_states impacts now hops accessed in
    elim found [
      | none ↦ (none, accessed)
      | some state ↦
          (before_state (some (with_impact (impacts hop.pool_address) state)) states, after)
    ]

abbrev pub uses_aerodrome : List Hop → Bool
uses_aerodrome [] = false
uses_aerodrome (hop ∷ hops) = elim (hop.dex_name) [
  | DexName.aerodrome ↦ true
  | _ ↦ uses_aerodrome hops
]

-- `I256::try_from(out.saturating_sub(amt)).unwrap_or_default()`; a run that panics counts here as 0.
abbrev pub gain : Run ℕ → ℕ → ℤ
gain panic amt = pos 0
gain (done out) amt = if ltb (out - amt) (2 ^ 255) then pos (out - amt) else pos 0

abbrev pub is_panic : Run ℕ → Bool
is_panic panic = true
is_panic (done out) = false

module _ (output : ℕ → Run ℕ) where
  abbrev pub objective : ℕ → ℤ
  objective amt = gain (output amt) amt

  -- Whether the objective panics at an input that the loop tries: each round tries one.
  unfoldable pub loop_panics : ℕ → Section → Bool
  loop_panics zero s = false
  loop_panics (suc rounds) s =
      let next = section_round objective s in
      let tried = if ltb_ℤ s.f_d s.f_c then next.c else next.d in
      let later = loop_panics rounds next in
      if ltb (sub256 s.b s.a) tolerance then false else (is_panic (output tried) || later)

  unfoldable pub search_panics : ℕ → ℕ → Bool
  search_panics min_in max_in =
      let first = section_start objective min_in max_in in
      let last = section_end objective min_in max_in in
      is_panic (output first.c)
      || is_panic (output first.d)
      || loop_panics 40 first
      || is_panic (output (add256 last.a last.b / 2))

  -- `find_optimal_input` for an objective that may panic.
  unfoldable pub search_input : ℕ → ℕ → Run (ℕ × ℕ)
  search_input min_in max_in =
      if search_panics min_in max_in
      then panic
      else done (find_optimal_input objective min_in max_in)

abbrev pub min_input : ℕ
min_input = 10 ^ 15

abbrev pub max_input : ℕ
max_input = 100 * 10 ^ 18

module _ (guess : ℕ → ℕ → ℕ → ℕ) (newton : List Hop → List PoolState → Run ℕ)
    (hash : List Hop → ℕ) where
  -- The input and the profit of a path.
  unfoldable pub price_path : List Hop → List PoolState → Run (ℕ × ℕ)
  price_path hops states =
      if uses_aerodrome hops
      then (newton hops states >>= λ opt_in.
          get_path_output_with_states guess hops opt_in states >>= λ out.
          done (opt_in, out - opt_in))
      else search_input (λ amt. get_path_output_with_states guess hops amt states) min_input
          max_input

  -- The opportunity of a path whose profit is more than the minimum; `count` is `CYCLES_FOUND`.
  unfoldable pub opportunity_of :
      ℕ → ℕ → ℕ → Option MempoolTx → ℕ → List Hop → ℕ × ℕ → Option Opportunity
  opportunity_of min_profit_wei count sender mempool_tx start_token hops (optimal_in, profit) =
      if ltb min_profit_wei profit
      then some (record default_opportunity {
        id = count + 1;
        path = record { hops = hops; hash = hash hops; total_gas = 200_000 };
        expected_profit = profit;
        input_token = start_token;
        input_amount = optimal_in;
        pending_txs = elim mempool_tx [ none ↦ [] | some tx ↦ tx ∷ [] ];
        trigger_sender = some sender;
      })
      else none

  -- A path whose pools were fetched. The path has a first hop, or `hops[0]` panics.
  unfoldable pub evaluate :
      ℕ → ℕ → ℕ → Option MempoolTx → List Hop → List PoolState → Run (Option Opportunity)
  evaluate min_profit_wei count sender mempool_tx [] states = panic
  evaluate min_profit_wei count sender mempool_tx (hop ∷ hops) states =
      price_path (hop ∷ hops) states >>= λ priced.
      done (opportunity_of min_profit_wei count sender mempool_tx hop.token_in (hop ∷ hops) priced)

  -- The paths of a task, one after another: the opportunities, the mirror and the count after them.
  unfoldable pub evaluate_all :
      (ℕ → Option (ℕ × ℕ))
      → ℕ
      → ℕ
      → ℕ
      → Option MempoolTx
      → List (List Hop)
      → ℕ
      → StateMirror
      → Run (List Opportunity × ℕ × StateMirror)
  evaluate_all impacts now min_profit_wei sender mempool_tx [] count m = done ([], count, m)
  evaluate_all impacts now min_profit_wei sender mempool_tx (hops ∷ paths) count m =
      let (fetched, after) = fetch_states impacts now hops m in
      let same = evaluate_all impacts now min_profit_wei sender mempool_tx paths count after in
      let next =
        evaluate_all impacts now min_profit_wei sender mempool_tx paths (count + 1) after in
      elim fetched [
        | none ↦ same
        | some states ↦
            (evaluate min_profit_wei count sender mempool_tx hops states >>= λ found. elim found [
              | none ↦ same
              | some opp ↦ (next >>= λ (opps, last, final). done (opp ∷ opps, last, final))
            ])
      ]

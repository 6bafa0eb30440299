-- ===== src/MathEngine/PathOutput/Laws.antt =====
-- The two evaluations of a path agree on the same pool states.
use mathlib.Core.List.{append_assoc}
use sovereign_shadow_mev.Prelude.{
  ℕ, ◌+◌, ◌≡◌, refl, subst, List, [], ◌∷◌, ◌++◌, length, length-append, Option, some, ◌==◌, done,
  at_run, Bool-cases, Run-cases, inl, inr,
}
use sovereign_shadow_mev.Models.{Hop}
use sovereign_shadow_mev.Mirror.Pools.{PoolState}
use sovereign_shadow_mev.MathEngine.PathOutput.{
  hop_output, path_output_from, get_path_output_with_states, get_path_output,
}

-- The states are those that the mirror has for the hops, in order.
abbrev pub AreStates : (ℕ → Option PoolState) → List Hop → List PoolState → Type 0
AreStates pool_data [] [] = Unit
AreStates pool_data [] (s ∷ ss) = ⊥
AreStates pool_data (hop ∷ hops) [] = ⊥
AreStates pool_data (hop ∷ hops) (s ∷ ss) =
    (pool_data hop.pool_address ≡ some s) × AreStates pool_data hops ss

at_run-append :
    (pre rest : List PoolState) (s : PoolState) → at_run (pre ++ s ∷ rest) (length pre) ≡ done s
at_run-append [] rest s = refl
at_run-append (x ∷ pre) rest s = at_run-append pre rest s

module _ (guess : ℕ → ℕ → ℕ → ℕ) (pool_data : ℕ → Option PoolState) where
  path_output_from-append :
      (hops : List Hop) (amount : ℕ) (pre states : List PoolState)
      → AreStates pool_data hops states
      → path_output_from guess (length pre) hops amount (pre ++ states)
        ≡ get_path_output guess pool_data hops amount
  unfolding path_output_from get_path_output
  path_output_from-append [] amount pre [] ok = refl
  path_output_from-append [] amount pre (s ∷ ss) ok = elim ok [ ]
  path_output_from-append (hop ∷ hops) amount pre [] ok = elim ok [ ]
  path_output_from-append (hop ∷ hops) amount pre (s ∷ ss) ok = elim (Bool-cases (amount == 0)) [
    | inl nothing ↦ rw nothing refl
    | inr some_in ↦
        let found = at_run-append pre ss s in
        elim (Run-cases (hop_output guess hop s amount)) [
          | inr e ↦ rw (some_in, at_run, found, ok.0, e) refl
          | inl (out, e) ↦
              let longer : length (pre ++ s ∷ []) ≡ length pre + 1 = length-append pre (s ∷ []) in
              let again = path_output_from-append hops out (pre ++ s ∷ []) ss ok.1 in
              let joined : (pre ++ s ∷ []) ++ ss ≡ pre ++ s ∷ ss = append_assoc pre (s ∷ []) ss in
              rw (some_in, at_run, found, ok.0, e)
                (subst
                  (λ l.
                    path_output_from guess (length pre + 1) hops out l
                    ≡ get_path_output guess pool_data hops out)
                  joined
                  (subst
                    (λ i.
                      path_output_from guess i hops out ((pre ++ s ∷ []) ++ ss)
                      ≡ get_path_output guess pool_data hops out)
                    longer again))
        ]
  ]

  -- On the states that the mirror has for the hops of a path, in order, the evaluation on given
  -- states and the evaluation on the mirror have the same outcome, a panic included, whatever the
  -- first guess of the stable pool.
  pub get_path_output_with_states-get_path_output :
      (hops : List Hop) (amount : ℕ) (states : List PoolState)
      → AreStates pool_data hops states
      → get_path_output_with_states guess hops amount states
        ≡ get_path_output guess pool_data hops amount
  unfolding get_path_output_with_states
  get_path_output_with_states-get_path_output hops amount states ok =
      path_output_from-append hops amount [] states ok

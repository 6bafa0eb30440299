-- ===== src/Detector/Evaluate/Laws.antt =====
-- What an opportunity that is sent promises.
use sovereign_shadow_mev.Prelude.{
  ℕ, zero, suc, ◌+◌, ◌-◌, ◌/◌, ◌^◌, ◌≤◌, ◌<◌, ◌≡◌, refl, ap, subst, arith, false, Option, none,
  some, List, [], ◌∷◌, length, ltb, ltb→lt, ◌==◌, if◌then◌else◌, Run, panic, done, at_run, Returns,
  Bool-cases, inl, inr,
}
use sovereign_shadow_mev.Prelude.Int.{pos, pos_part, ltb_ℤ}
use sovereign_shadow_mev.Uint.{add256}
use sovereign_shadow_mev.Models.{DexType, Hop, MempoolTx, Opportunity}
use sovereign_shadow_mev.Mirror.Pools.{PoolState}
use sovereign_shadow_mev.MathEngine.PathOutput.{
  hop_output, path_output_from, get_path_output_with_states,
}
use sovereign_shadow_mev.MathEngine.Golden.{
  Section, section_round, section_start, section_end, find_optimal_input,
}
use sovereign_shadow_mev.MathEngine.Golden.Laws.{find_optimal_input_sound}
use sovereign_shadow_mev.Detector.Cycles.Laws.{bind-Returns, at_run-Returns}
use sovereign_shadow_mev.Detector.Evaluate.{
  uses_aerodrome, gain, is_panic, objective, loop_panics, search_panics, search_input, min_input,
  max_input, price_path, opportunity_of, evaluate,
}

abbrev pub IsPlain : DexType → Type 0
IsPlain DexType.aerodrome = ⊥
IsPlain _ = Unit

-- No hop is of a pool of Aerodrome.
abbrev pub ArePlain : List Hop → Type 0
ArePlain [] = Unit
ArePlain (hop ∷ hops) = IsPlain hop.dex_type × ArePlain hops

plain_output :
    (t : DexType) (x : ℕ) (y : Run ℕ)
    → IsPlain t
    → Returns
        (elim t [
          | DexType.uniswap_v2 ↦ done x
          | DexType.aerodrome ↦ y
          | DexType.uniswap_v3 ↦ done 0
          | DexType.maverick_v2 ↦ done 0
        ])
        (λ _. Unit)
plain_output DexType.uniswap_v2 x y h = tt
plain_output DexType.aerodrome x y h = absurd h
plain_output DexType.uniswap_v3 x y h = tt
plain_output DexType.maverick_v2 x y h = tt

gain-exact :
    (m : Run ℕ) (amt profit : ℕ) → gain m amt ≡ pos profit → 0 < profit → m ≡ done (amt + profit)
gain-exact panic amt profit e more = let same = ap pos_part e in absurd (omega (arith, same, more))
gain-exact (done out) amt profit e more = elim (Bool-cases (ltb (out - amt) (2 ^ 255))) [
  | inl fits ↦
      let same : pos (out - amt) ≡ pos profit =
        subst (λ b. (if b then pos (out - amt) else pos 0) ≡ pos profit) fits e in
      let exact = ap pos_part same in ap done (omega (arith, exact, more))
  | inr big ↦
      let same : pos 0 ≡ pos profit =
        subst (λ b. (if b then pos (out - amt) else pos 0) ≡ pos profit) big e in
      let exact = ap pos_part same in absurd (omega (arith, exact, more))
]

Returns-is_panic : (m : Run ℕ) → Returns m (λ _. Unit) → is_panic m ≡ false
Returns-is_panic (done out) h = refl
Returns-is_panic panic h = absurd h

module _ (output : ℕ → Run ℕ) (total : (amt : ℕ) → is_panic (output amt) ≡ false) where
  loop_panics-never : (rounds : ℕ) (s : Section) → loop_panics output rounds s ≡ false
  unfolding loop_panics
  loop_panics-never zero s = refl
  loop_panics-never (suc rounds) s =
      let next = section_round (objective output) s in
      let tried = total (if ltb_ℤ s.f_d s.f_c then next.c else next.d) in
      let later = loop_panics-never rounds next in rw (tried, later) (ground arith)

  search_input-finds :
      (lo hi : ℕ) → search_input output lo hi ≡ done (find_optimal_input (objective output) lo hi)
  unfolding search_input search_panics
  search_input-finds lo hi =
      let first = section_start (objective output) lo hi in
      let last = section_end (objective output) lo hi in
      rw
        (total first.c, total first.d, loop_panics-never 40 first, total (add256 last.a last.b / 2))
        refl

module _ (guess : ℕ → ℕ → ℕ → ℕ) (states : List PoolState) where
  hop_output-Returns :
      (hop : Hop) (state : PoolState) (amount : ℕ)
      → IsPlain hop.dex_type
      → Returns (hop_output guess hop state amount) (λ _. Unit)
  unfolding hop_output
  hop_output-Returns hop state amount plain = plain_output hop.dex_type _ _ plain

  path_output_from-Returns :
      (hops : List Hop) (i amount : ℕ)
      → ArePlain hops
      → i + length hops ≤ length states
      → Returns (path_output_from guess i hops amount states) (λ _. Unit)
  unfolding path_output_from
  path_output_from-Returns [] i amount plain within = tt
  path_output_from-Returns (hop ∷ hops) i amount plain within = elim (Bool-cases (amount == 0)) [
    | inl nothing ↦ rw nothing tt
    | inr some_in ↦ rw some_in (
        bind-Returns (at_run states i) _ _ _ (at_run-Returns states i (omega arith)) (λ state there.
          bind-Returns (hop_output guess hop state amount) _ _ _
            (hop_output-Returns hop state amount plain.0)
            (λ out _. path_output_from-Returns hops (i + 1) out plain.1 (omega arith))))
  ]

  -- More profit than the minimum, at an input from 0.001 to 100 ether at which the path gives the input and the
  -- profit.
  abbrev pub IsWorth : ℕ → List Hop → Option Opportunity → Type 0
  IsWorth min_profit_wei hops none = Unit
  IsWorth min_profit_wei hops (some opp) =
      (min_profit_wei < opp.expected_profit)
      × (min_input ≤ opp.input_amount)
      × (opp.input_amount ≤ max_input)
      × (get_path_output_with_states guess hops opp.input_amount states
          ≡ done (opp.input_amount + opp.expected_profit))

  -- An input from 0.001 to 100 ether, and a profit, at which the path gives the two together.
  abbrev IsOffered : List Hop → ℕ × ℕ → Type 0
  IsOffered hops priced =
      (min_input ≤ priced.0)
      × (priced.0 ≤ max_input)
      × (get_path_output_with_states guess hops priced.0 states ≡ done (priced.0 + priced.1))

  found-IsOffered :
      (hops : List Hop) (min_profit_wei : ℕ)
      → min_profit_wei
        < (find_optimal_input
            (objective (λ amt. get_path_output_with_states guess hops amt states))
            min_input
            max_input).1
      → IsOffered hops (
          find_optimal_input
            (objective (λ amt. get_path_output_with_states guess hops amt states))
            min_input
            max_input)
  found-IsOffered hops min_profit_wei more =
      let output : ℕ → Run ℕ = λ amt. get_path_output_with_states guess hops amt states in
      let found = find_optimal_input (objective output) min_input max_input in
      elim (find_optimal_input_sound (objective output) min_input max_input (omega arith)
        (omega arith) (omega arith)) [
          | inl nothing ↦
              let zero_profit = ap (λ (p : ℕ × ℕ). p.1) nothing in
              absurd (omega (arith, zero_profit, more))
          | inr good ↦ (good.0, good.1, gain-exact (output found.0) found.0 found.1 good.2 good.3)
        ]

  module _ (newton : List Hop → List PoolState → Run ℕ) (hash : List Hop → ℕ)
      (min_profit_wei count sender : ℕ) (mempool_tx : Option MempoolTx) where
    opportunity_of-IsWorth :
        (start_token : ℕ) (hops : List Hop) (priced : ℕ × ℕ)
        → (min_profit_wei < priced.1 → IsOffered hops priced)
        → IsWorth min_profit_wei hops (
            opportunity_of guess newton hash min_profit_wei count sender mempool_tx start_token hops
              priced)
    unfolding opportunity_of
    opportunity_of-IsWorth start_token hops (optimal_in, profit) h =
        elim (Bool-cases (ltb min_profit_wei profit)) [
          | inr poor ↦ rw poor tt
          | inl rich ↦
              let more = ltb→lt min_profit_wei profit rich in
              let offered = h more in rw rich (more, offered.0, offered.1, offered.2)
        ]

    -- A path of at least one hop, none of them of a pool of Aerodrome, with a state for each hop,
    -- is evaluated without a panic, whatever the states; an opportunity that comes of it has a
    -- profit above the minimum and an input from 0.001 to 100 ether, and for that input the path
    -- gives exactly the input and the profit.
    pub evaluate-IsWorth :
        (hop : Hop) (hops : List Hop)
        → uses_aerodrome (hop ∷ hops) ≡ false
        → ArePlain (hop ∷ hops)
        → length (hop ∷ hops) ≡ length states
        → Returns
            (evaluate guess newton hash min_profit_wei count sender mempool_tx (hop ∷ hops) states)
            (IsWorth min_profit_wei (hop ∷ hops))
    unfolding evaluate price_path get_path_output_with_states
    evaluate-IsWorth hop hops other plain same =
        let path = hop ∷ hops in
        let output : ℕ → Run ℕ = λ amt. get_path_output_with_states guess path amt states in
        let total : (amt : ℕ) → is_panic (output amt) ≡ false = λ amt.
          Returns-is_panic (output amt) (path_output_from-Returns path 0 amt plain (omega arith)) in
        let found = search_input-finds output total min_input max_input in
        rw (other, found)
          (opportunity_of-IsWorth hop.token_in path
            (find_optimal_input (objective output) min_input max_input)
            (found-IsOffered path min_profit_wei))

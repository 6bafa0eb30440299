-- ===== src/Factory/WarmStart.antt =====
-- src/discovery.rs: `warm_start`, the scan of the last 2000 blocks in batches, and the core pools that are
-- sent at the start.
use sovereign_shadow_mev.Prelude.{
  ℕ, zero, suc, ◌+◌, ◌-◌, ◌≤◌, ◌<◌, ◌≡◌, refl, arith, Bool, true, false, Option, none, some, List,
  [], ◌∷◌, ◌++◌, min, ltb, if◌then◌else◌, Bool-cases, inl, inr, ◌⊎◌, ltb→lt, subst, sym, ◌/◌, ◌%◌,
  ◌^◌,
}
use sovereign_shadow_mev.Listener.{Log}
use sovereign_shadow_mev.Factory.Parse.{NewPoolEvent, parse_historical_log}

-- A batch that was asked for: its first and its last block, and whether the logs came.
pub record Batch : Type 0 where
  pub from_block : ℕ
  pub to_block : ℕ
  pub answered : Bool

unfoldable pub historical_events : List Log → List NewPoolEvent
historical_events [] = []
historical_events (log ∷ logs) =
    let rest = historical_events logs in
    elim (parse_historical_log log) [ none ↦ rest | some event ↦ event ∷ rest ]

abbrev pub lookback : ℕ
lookback = 2000

abbrev pub end_batch : ℕ → ℕ → ℕ
end_batch start_block current_block = min ((start_block + 250) % 2 ^ 64) current_block

-- `ask k` is the answer to the request number `k`: the logs, or `none` for an error, after which the same
-- batch is asked for again. The loop on fuel: the batches and the events, and whether it has ended.
module _ (ask : ℕ → Option (List Log)) where
  unfoldable pub warm_loop : ℕ → ℕ → ℕ → ℕ → Bool × List Batch × List NewPoolEvent
  warm_loop zero k start_block current_block = (false, [], [])
  warm_loop (suc fuel) k start_block current_block =
      let stop = end_batch start_block current_block in
      let again = warm_loop fuel (k + 1) start_block current_block in
      let later = warm_loop fuel (k + 1) ((stop + 1) % 2 ^ 64) current_block in
      if ltb start_block current_block
      then elim (ask k) [
        | none ↦ (
          again.0,
          record { from_block = start_block; to_block = stop; answered = false } ∷ again.1,
          again.2,
        )
        | some logs ↦ (
          later.0,
          record { from_block = start_block; to_block = stop; answered = true } ∷ later.1,
          historical_events logs ++ later.2,
        )
      ]
      else (true, [], [])

  -- From the block number that the provider gives, 0 on an error.
  unfoldable pub warm_start : ℕ → ℕ → Bool × List Batch × List NewPoolEvent
  warm_start fuel current_block = warm_loop fuel 0 (current_block - lookback) current_block

-- The blocks of the answered batches follow on one another from `start` to `stop`.
abbrev pub Covers : ℕ → ℕ → List Batch → Type 0
Covers start stop [] = stop < start
Covers start stop (b ∷ bs) =
    (b.from_block ≡ start)
    × (if b.answered then Covers (b.to_block + 1) stop bs else Covers start stop bs)

-- The start of a batch of the scan: 243 blocks and a multiple of 251 are left, or none.
abbrev InStep : ℕ → ℕ → Type 0
InStep start current = (start ≡ current + 1) ⊎ ((start ≤ current) × ((current - start) % 251 ≡ 243))

abbrev pub is_some : Option (List Log) → Bool
is_some none = false
is_some (some logs) = true

leb_of : (a b : ℕ) → ltb a b ≡ false → b ≤ a
leb_of a b h = ground arith

-- Ended, with batches that cover the blocks.
abbrev pub HasCovered : ℕ → ℕ → Bool × List Batch × List NewPoolEvent → Type 0
HasCovered start current r = (r.0 ≡ true) × Covers start current r.1

module _ (ask : ℕ → Option (List Log)) (n current : ℕ) (room : current + 250 < 2 ^ 64) where
  one_batch :
      (answer : Option (List Log)) (start : ℕ) (again later : Bool × List Batch × List NewPoolEvent)
      → (answer ≡ none → HasCovered start current again)
      → (is_some answer ≡ true → HasCovered (end_batch start current + 1) current later)
      → HasCovered start current (elim answer [
        | none ↦ (
          again.0,
          record { from_block = start; to_block = end_batch start current; answered = false }
              ∷ again.1,
          again.2,
        )
        | some logs ↦ (
          later.0,
          record { from_block = start; to_block = end_batch start current; answered = true }
              ∷ later.1,
          historical_events logs ++ later.2,
        )
      ])
  one_batch none start again later h k = let (e, covers) = h refl in (e, (refl, covers))
  one_batch (some logs) start again later h k = let (e, covers) = k refl in (e, (refl, covers))

  fails_early : (k : ℕ) → ((i : ℕ) → n ≤ i → is_some (ask i) ≡ true) → ask k ≡ none → k < n
  fails_early k answers failed = elim (Bool-cases (ltb k n)) [
    | inl early ↦ ltb→lt k n early
    | inr late ↦
        let there = answers k (leb_of k n late) in
        absurd (subst (λ o. is_some o ≡ true → ⊥) (sym failed) (λ e. ground arith) there)
  ]

  next_step :
      (start : ℕ)
      → InStep start current
      → start < current
      → InStep (end_batch start current + 1) current
  next_step start step more = elim step [
    | inl done ↦ absurd (omega (arith, done, more))
    | inr left ↦
        let (low, rem) = left in
        elim (Bool-cases (ltb (start + 250) current)) [
          | inr last ↦ inl (let h = leb_of (start + 250) current last in omega arith)
          | inl full ↦ inr (let h = ltb→lt (start + 250) current full in (omega arith, omega arith))
        ]
  ]

  fewer :
      (k start fuel : ℕ)
      → start < current
      → (n - k) + (current + 1 - start + 250) / 251 < suc fuel
      → (n - (k + 1)) + (current + 1 - (end_batch start current + 1) + 250) / 251 < fuel
  fewer k start fuel more enough = omega arith

  warm_loop-HasCovered :
      (fuel k start : ℕ)
      → ((i : ℕ) → n ≤ i → is_some (ask i) ≡ true)
      → InStep start current
      → (n - k) + (current + 1 - start + 250) / 251 < fuel
      → HasCovered start current (warm_loop ask fuel k start current)
  unfolding warm_loop
  warm_loop-HasCovered zero k start answers step enough = absurd (omega (arith, enough))
  warm_loop-HasCovered (suc fuel) k start answers step enough =
      elim (Bool-cases (ltb start current)) [
        | inr over ↦
            let past : current < start = elim step [
              | inl done ↦ omega arith
              | inr left ↦ let l = left.1 in omega (arith, leb_of start current over)
            ] in
            rw over (refl, past)
        | inl more ↦ rw more (
            one_batch (ask k) start (warm_loop ask fuel (k + 1) start current)
              (warm_loop ask fuel (k + 1) ((end_batch start current + 1) % 2 ^ 64) current)
              (λ failed.
                let early = fails_early k answers failed in
                warm_loop-HasCovered fuel (k + 1) start answers step (omega arith))
              (λ good.
                let less = ltb→lt start current more in
                let next : (end_batch start current + 1) % 2 ^ 64 ≡ end_batch start current + 1 =
                  omega arith in
                subst
                  (λ i.
                    HasCovered (end_batch start current + 1) current
                      (warm_loop ask fuel (k + 1) i current))
                  (sym next)
                  (warm_loop-HasCovered fuel (k + 1) (end_batch start current + 1) answers
                    (next_step start step less) (fewer k start fuel less enough))))
      ]

-- If every request from number `n` on is answered, and the chain has at least 2000 blocks and fewer
-- than 2 ^ 64 - 250, then the scan ends within `n` and 8 requests, however the others fail, and the
-- batches that were answered cover all the blocks from the first one to the current one in order,
-- each once.
pub warm_start-HasCovered :
    (ask : ℕ → Option (List Log)) (n current : ℕ)
    → 2000 ≤ current
    → current + 250 < 2 ^ 64
    → ((i : ℕ) → n ≤ i → is_some (ask i) ≡ true)
    → HasCovered (current - 2000) current (warm_start ask (n + 9) current)
unfolding warm_start
warm_start-HasCovered ask n current long room answers =
    warm_loop-HasCovered ask n current room (n + 9) 0 (current - 2000) answers
      (inr (omega arith, omega arith)) (omega arith)

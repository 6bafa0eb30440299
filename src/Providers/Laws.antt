-- ===== src/Providers/Laws.antt =====
-- The round robin finds a connection that may be used, where there is one.
use sovereign_shadow_mev.Prelude.{
  ℕ, zero, suc, ◌+◌, ◌-◌, ◌*◌, ◌/◌, ◌%◌, ◌^◌, ◌≤◌, ◌<◌, ◌≡◌, refl, sym, ap, ◌∙◌, subst, arith,
  false, List, [], ◌∷◌, length, leb, ◌==◌, Run, done, panic, at_run, Returns, Bool-cases, inl, inr,
  dec_lt,
}
use sovereign_shadow_mev.Providers.{WsProviderPool, next_loop, next_provider}

mod_at : (q n h : ℕ) → h < n → (q * n + h) % n ≡ h
mod_at q n h lt = grind arith

-- The number of steps from `c` to the next number that leaves the remainder `h`.
distance : (c n h : ℕ) → h < n → (j : ℕ) × (j < n) × ((c + j) % n ≡ h)
distance c n h lt =
    let whole : c ≡ c / n * n + c % n = grind arith in
    let below : c % n < n = grind arith in
    elim (dec_lt h (c % n)) [
      | yes behind ↦ (
        h + n - c % n,
        omega arith,
        ap (λ (k : ℕ). k % n) {x = c + (h + n - c % n)} {y = (c / n + 1) * n + h}
              (omega (arith, whole))
            ∙ mod_at (c / n + 1) n h lt,
      )
      | no ahead ↦ (
        h - c % n,
        omega arith,
        ap (λ (k : ℕ). k % n) {x = c + (h - c % n)} {y = c / n * n + h} (omega (arith, whole))
            ∙ mod_at (c / n) n h lt,
      )
    ]

-- The lists hold one entry for each connection.
abbrev pub IsPool : WsProviderPool → Type 0
IsPool pool =
    (0 < pool.size) × (length pool.health ≡ pool.size) × (length pool.usage_stats ≡ pool.size)

at_run-total : {A : Type 0} (xs : List A) (i : ℕ) → i < length xs → (a : A) × (at_run xs i ≡ done a)
at_run-total [] i h = absurd (omega (arith, h))
at_run-total (x ∷ xs) zero h = (x, refl)
at_run-total (x ∷ xs) (suc i) h = at_run-total xs i (omega arith)

done_inj : (a b : ℕ) → Path (Run ℕ) (done a) (done b) → a ≡ b
done_inj a b e = ap (λ r. elim r [ panic ↦ a | done x ↦ x ]) e

-- The connection that is given may be used at the time `now`.
abbrev pub IsReady : ℕ → WsProviderPool → ℕ × WsProviderPool → Type 0
IsReady now pool result =
    (result.0 < pool.size)
    × (length result.1.health ≡ pool.size)
    × ((t : ℕ) × (at_run pool.health result.0 ≡ done t) × (t ≤ now))

next_loop-IsReady :
    (rounds now j t : ℕ) (pool : WsProviderPool)
    → IsPool pool
    → pool.next + rounds < 2 ^ 64
    → j < rounds
    → at_run pool.health ((pool.next + j) % pool.size) ≡ done t
    → t ≤ now
    → Returns (next_loop rounds now pool) (IsReady now pool)
unfolding next_loop
next_loop-IsReady zero now j t pool ok small less there ready = absurd (omega (arith, less))
next_loop-IsReady (suc rounds) now j t pool ok small less there ready =
    let moved = record pool { next = (pool.next + 1) % 2 ^ 64 } in
    let some_size : (pool.size == 0) ≡ false = ground arith in
    let i = pool.next % pool.size in
    let inside : i < pool.size = grind arith in
    let (resume_at, e) = at_run-total pool.health i (omega arith) in
    let (used, u) = at_run-total pool.usage_stats i (omega arith) in
    elim (Bool-cases (leb resume_at now)) [
      | inl free ↦ rw (some_size, at_run, e, free, u) (inside, ok.1, (resume_at, e, ground arith))
      | inr blocked ↦
          rw (some_size, at_run, e, blocked)
            (elim (dec_lt 0 j) [
              | yes ahead ↦
                  let step : (pool.next + j) % pool.size
                      ≡ ((pool.next + 1) % 2 ^ 64 + (j - 1)) % pool.size =
                    ap (λ (k : ℕ). k % pool.size) (omega arith) in
                  next_loop-IsReady rounds now (j - 1) t moved ok (omega arith) (omega arith)
                    (subst (λ k. at_run pool.health k ≡ done t) step there) ready
              | no here ↦
                  let step : (pool.next + j) % pool.size ≡ i =
                    ap (λ (k : ℕ). k % pool.size) (omega arith) in
                  let same = subst (λ k. at_run pool.health k ≡ done t) step there in
                  let e2 : t ≡ resume_at = done_inj t resume_at (sym same ∙ e) in
                  absurd (ground arith)
            ])
    ]

-- In a pool with at least one connection and a counter that does not wrap during the call, if any
-- connection may be used at the time `now`, the round robin ends without a panic and gives one that
-- may.
pub next_provider-IsReady :
    (now head t : ℕ) (pool : WsProviderPool)
    → IsPool pool
    → pool.next + pool.size < 2 ^ 64
    → head < pool.size
    → at_run pool.health head ≡ done t
    → t ≤ now
    → Returns (next_provider now pool) (IsReady now pool)
unfolding next_provider
next_provider-IsReady now head t pool ok small inside there ready =
    let some_size : (pool.size == 0) ≡ false = ground arith in
    let (j, less, reach) = distance pool.next pool.size head inside in
    rw some_size (
      next_loop-IsReady pool.size now j t pool ok small less
        (subst (λ k. at_run pool.health k ≡ done t) (sym reach) there) ready)

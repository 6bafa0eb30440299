-- ===== src/Inventory/Guard.antt =====
-- src/inventory_manager.rs: the guard `running` of `auto_sweep`, with two calls that take turns at each
-- wait for the network. A call that is in its loop has some tokens left.
use sovereign_shadow_mev.Prelude.{
  ℕ, ◌≡◌, ◌||◌, ◌&&◌, refl, arith, Bool, true, false, Option, none, some, List, [], ◌∷◌,
}

-- The guard, and the tokens that each of two calls has left, if it runs.
pub record Sweeps : Type 0 where
  pub running : Bool
  pub first : Option (List ℕ)
  pub second : Option (List ℕ)

abbrev pub all_idle : Sweeps
all_idle = record { running = false; first = none; second = none }

-- One turn. A call enters where the swap of the guard gives false. It goes on to its next token, or it returns
-- early or at the end and clears the guard.
pub data Step : Sweeps → Sweeps → Type 0 where
  enter_first :
      (tokens : List ℕ) (other : Option (List ℕ))
      → Step
          (record { running = false; first = none; second = other })
          (record { running = true; first = some tokens; second = other })
  enter_second :
      (tokens : List ℕ) (other : Option (List ℕ))
      → Step
          (record { running = false; first = other; second = none })
          (record { running = true; first = other; second = some tokens })
  go_on_first :
      (token : ℕ) (tokens : List ℕ) (guard : Bool) (other : Option (List ℕ))
      → Step
          (record { running = guard; first = some (token ∷ tokens); second = other })
          (record { running = guard; first = some tokens; second = other })
  go_on_second :
      (token : ℕ) (tokens : List ℕ) (guard : Bool) (other : Option (List ℕ))
      → Step
          (record { running = guard; first = other; second = some (token ∷ tokens) })
          (record { running = guard; first = other; second = some tokens })
  return_first :
      (tokens : List ℕ) (guard : Bool) (other : Option (List ℕ))
      → Step
          (record { running = guard; first = some tokens; second = other })
          (record { running = false; first = none; second = other })
  return_second :
      (tokens : List ℕ) (guard : Bool) (other : Option (List ℕ))
      → Step
          (record { running = guard; first = other; second = some tokens })
          (record { running = false; first = other; second = none })

-- The turn in which an approval fails: the guard is cleared, and the loop goes on.
pub data Failure : Sweeps → Sweeps → Type 0 where
  fail_first :
      (token : ℕ) (tokens : List ℕ) (guard : Bool) (other : Option (List ℕ))
      → Failure
          (record { running = guard; first = some (token ∷ tokens); second = other })
          (record { running = false; first = some tokens; second = other })
  fail_second :
      (token : ℕ) (tokens : List ℕ) (guard : Bool) (other : Option (List ℕ))
      → Failure
          (record { running = guard; first = other; second = some (token ∷ tokens) })
          (record { running = false; first = other; second = some tokens })

-- What the two calls reach with no approval that fails, and what they reach at all.
pub data Quiet : Sweeps → Type 0 where
  start : Quiet all_idle
  step : {s t : Sweeps} → Quiet s → Step s t → Quiet t

pub data Reach : Sweeps → Type 0 where
  start : Reach all_idle
  step : {s t : Sweeps} → Reach s → Step s t → Reach t
  failure : {s t : Sweeps} → Reach s → Failure s t → Reach t

abbrev pub runs : Option (List ℕ) → Bool
runs none = false
runs (some tokens) = true

-- The guard is set exactly while a call runs, and at most one runs.
abbrev pub IsExclusive : Sweeps → Type 0
IsExclusive s =
    (s.running ≡ (runs s.first || runs s.second)) × ((runs s.first && runs s.second) ≡ false)

Step-IsExclusive : {s t : Sweeps} → Step s t → IsExclusive s → IsExclusive t
Step-IsExclusive (enter_first tokens other) h = let free = h.0 in (refl, ground arith)
Step-IsExclusive (enter_second tokens other) h = let free = h.0 in (ground arith, ground arith)
Step-IsExclusive (go_on_first token tokens guard other) h = h
Step-IsExclusive (go_on_second token tokens guard other) h = h
Step-IsExclusive (return_first tokens guard other) h = let alone = h.1 in (ground arith, refl)
Step-IsExclusive (return_second tokens guard other) h =
    let alone = h.1 in (ground arith, ground arith)

-- As long as no approval fails, in whatever order two calls of the sweep take turns, the guard is
-- set exactly while one of them runs, and never do both run.
pub Quiet-IsExclusive : {s : Sweeps} → Quiet s → IsExclusive s
Quiet-IsExclusive start = (refl, refl)
Quiet-IsExclusive (step before turn) = Step-IsExclusive turn (Quiet-IsExclusive before)

-- With two tokens, of which the approval of the first one fails, two calls come to run at once, and the guard
-- is set by the second.
pub Reach-overlap :
    (t u : ℕ) (tokens : List ℕ)
    → Reach (record { running = true; first = some (u ∷ []); second = some tokens })
Reach-overlap t u tokens =
    step (failure (step start (enter_first (t ∷ u ∷ []) none)) (fail_first t (u ∷ []) true none))
      (enter_second tokens (some (u ∷ [])))

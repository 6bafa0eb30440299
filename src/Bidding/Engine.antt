-- ===== src/Bidding/Engine.antt =====
-- src/bidding_engine.rs: the state of `BiddingEngine` and the operations that record outcomes. Times are
-- in nanoseconds.
use sovereign_shadow_mev.Prelude.{ℕ, ◌+◌, ◌%◌, ◌^◌, Option, none, some, Bool, false, [], contains}
use sovereign_shadow_mev.Prelude.Assoc.{Assoc, lookup, insert}
use sovereign_shadow_mev.Constants.{known_competitors}
use sovereign_shadow_mev.Models.{Opportunity}

-- `base_fee` is the mirror's current base fee; `competitor_history` counts wins and losses.
pub record BiddingEngine : Type 0 where
  pub default_bribe : ℕ
  pub base_fee : ℕ
  pub last_success : Option (ℕ × ℕ)
  pub predator_hits : ℕ
  pub predator_pressure : ℕ
  pub wins : ℕ
  pub losses : ℕ
  pub consecutive_losses : ℕ
  pub last_heat_score : ℕ
  pub last_pressure_update : ℕ
  pub competitor_history : Assoc (ℕ × ℕ)

abbrev pub new_engine : ℕ → ℕ → BiddingEngine
new_engine base_fee now = record {
  default_bribe = 50;
  base_fee = base_fee;
  last_success = none;
  predator_hits = 0;
  predator_pressure = 0;
  wins = 0;
  losses = 0;
  consecutive_losses = 0;
  last_heat_score = 0;
  last_pressure_update = now;
  competitor_history = [];
}

-- `fetch_add` on an `AtomicU64` wraps.
abbrev pub fetch_add : ℕ → ℕ → ℕ
fetch_add a b = (a + b) % 2 ^ 64

unfoldable pub is_predator_active : Opportunity → Bool
is_predator_active opp = elim opp.trigger_sender [
  | none ↦ false
  | some s ↦ contains known_competitors s
]

-- The counts of a competitor, 0 and 0 where there are none.
abbrev pub history_of : BiddingEngine → ℕ → ℕ × ℕ
history_of e s = elim (lookup s e.competitor_history) [ none ↦ (0, 0) | some h ↦ h ]

unfoldable pub record_success : BiddingEngine → Opportunity → ℕ → ℕ → BiddingEngine
record_success e opp bribe_pct now = record e {
  wins = fetch_add e.wins 1;
  consecutive_losses = 0;
  competitor_history = elim opp.trigger_sender [
    | none ↦ e.competitor_history
    | some s ↦ insert s (fetch_add (history_of e s).0 1, (history_of e s).1) e.competitor_history
  ];
  last_success = some (now, bribe_pct);
}

unfoldable pub record_failure : BiddingEngine → Opportunity → BiddingEngine
record_failure e opp = record e {
  losses = fetch_add e.losses 1;
  consecutive_losses = fetch_add e.consecutive_losses 1;
  competitor_history = elim opp.trigger_sender [
    | none ↦ e.competitor_history
    | some s ↦ insert s ((history_of e s).0, fetch_add (history_of e s).1 1) e.competitor_history
  ];
}

unfoldable pub reset_pressure : BiddingEngine → BiddingEngine
reset_pressure e = record e { predator_pressure = 0 }

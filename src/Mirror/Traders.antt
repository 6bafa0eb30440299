-- ===== src/Mirror/Traders.antt =====
-- src/state_mirror.rs: the traders seen at each pool.
use sovereign_shadow_mev.Prelude.{
  ℕ, ◌+◌, ◌≤◌, ◌≡◌, refl, ap, arith, Bool, Option, none, some, List, [], ◌∷◌, length, contains, leb,
  ltb, ◌==◌, if◌then◌else◌, Bool-cases, inl, inr, ◌⊎◌,
}
use sovereign_shadow_mev.Prelude.Assoc.{lookup, insert, lookup-insert}
use sovereign_shadow_mev.Mirror.Pools.{StateMirror}

-- `DashSet::insert`
unfoldable pub set_insert : ℕ → List ℕ → List ℕ
set_insert x xs = if contains xs x then xs else x ∷ xs

abbrev pub or_empty : Option (List ℕ) → List ℕ
or_empty none = []
or_empty (some xs) = xs

-- A set of more than 100 traders is cleared.
unfoldable pub trader_entry : ℕ → List ℕ → List ℕ
trader_entry trader traders =
    let more = set_insert trader traders in if ltb 100 (length more) then [] else more

unfoldable pub record_trader : StateMirror → ℕ → ℕ → StateMirror
record_trader m pool trader = if trader == 0 then m else record m {
  trader_registry =
      insert pool (trader_entry trader (or_empty (lookup pool m.trader_registry)))
        m.trader_registry;
}

unfoldable pub get_competition_score : StateMirror → ℕ → ℕ
get_competition_score m pool = length (or_empty (lookup pool m.trader_registry))

unfoldable pub is_congested : StateMirror → ℕ → ℕ → Bool
is_congested m pool max_bots = leb max_bots (get_competition_score m pool)

trader_entry-small : (t : ℕ) (ts : List ℕ) → length (trader_entry t ts) ≤ 100
unfolding trader_entry
trader_entry-small t ts = ground arith

trader_entry-grows : (t : ℕ) (ts : List ℕ) → length (trader_entry t ts) ≤ length ts + 1
unfolding trader_entry set_insert
trader_entry-grows t ts = ground arith

-- Where no pool has a score above 100, recording a trader leaves none above 100, raises a score by
-- at most one, and leaves the score of every other pool as it was.
pub record_trader-score :
    (m : StateMirror) (pool trader other : ℕ)
    → ((p : ℕ) → get_competition_score m p ≤ 100)
    → (get_competition_score (record_trader m pool trader) other ≤ 100)
      × (get_competition_score (record_trader m pool trader) other
          ≤ get_competition_score m other + 1)
      × ((pool ≡ other)
          ⊎ (get_competition_score (record_trader m pool trader) other
              ≡ get_competition_score m other))
unfolding record_trader get_competition_score
record_trader-score m pool trader other small =
    let grown = trader_entry-grows trader (or_empty (lookup pool m.trader_registry)) in
    let little = trader_entry-small trader (or_empty (lookup pool m.trader_registry)) in
    let read =
      lookup-insert pool other (trader_entry trader (or_empty (lookup pool m.trader_registry)))
        m.trader_registry in
    let here = small other in
    elim (Bool-cases (trader == 0)) [
      | inl nobody ↦ rw nobody (here, omega arith, inr refl)
      | inr somebody ↦ elim (Bool-cases (pool == other)) [
        | inl same ↦
            let e : pool ≡ other = ground arith in
            let score = ap (λ p. length (or_empty (lookup p m.trader_registry))) e in
            rw (somebody, read, same) (little, omega arith, inl e)
        | inr differs ↦ rw (somebody, read, differs) (here, omega arith, inr refl)
      ]
    ]

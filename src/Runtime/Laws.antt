-- ===== src/Runtime/Laws.antt =====
-- How the tasks play together.
use sovereign_shadow_mev.Prelude.{
  ℕ, ◌≡◌, refl, ap, sym, subst, arith, true, false, Option, none, List, contains, Bool-cases, inl,
  inr,
}
use sovereign_shadow_mev.Prelude.Assoc.{contains_key}
use sovereign_shadow_mev.Mirror.Traders.{set_insert}
use sovereign_shadow_mev.Listener.{Log, SwapEvent}
use sovereign_shadow_mev.Runtime.{Runtime, hash_of, bridge_hash, bridge}

contains-set_insert_self : (x : ℕ) (xs : List ℕ) → contains (set_insert x xs) x ≡ true
unfolding set_insert contains
contains-set_insert_self x xs = ground arith

bridge_hash-seen :
    (hash : ℕ) (log : Log) (rt : Runtime)
    → contains rt.seen_hashes hash ≡ true
    → bridge_hash hash log rt ≡ (rt, none)
unfolding bridge_hash
bridge_hash-seen hash log rt there = rw there refl

bridge_hash-unknown :
    (hash : ℕ) (log : Log) (rt : Runtime)
    → contains rt.seen_hashes hash ≡ false
    → contains_key log.address rt.mirror.pools ≡ false
    → bridge_hash hash log rt ≡ (record rt { seen_hashes = set_insert hash rt.seen_hashes }, none)
unfolding bridge_hash
bridge_hash-unknown hash log rt new unknown = rw (new, unknown) refl

HidesNext : ℕ → Log → Runtime × Option SwapEvent → Type 0
HidesNext hash second answer = (answer.1 ≡ none) × ((bridge_hash hash second answer.0).1 ≡ none)

bridge_hash-HidesNext :
    (hash : ℕ) (first second : Log) (rt : Runtime)
    → contains_key first.address rt.mirror.pools ≡ false
    → HidesNext hash second (bridge_hash hash first rt)
unfolding HidesNext
bridge_hash-HidesNext hash first second rt unknown =
    elim (Bool-cases (contains rt.seen_hashes hash)) [
      | inl there ↦
          let after_first = bridge_hash-seen hash first rt there in
          let after_second = bridge_hash-seen hash second rt there in
          subst (HidesNext hash second) (sym after_first)
            (refl, ap (λ (p : Runtime × Option SwapEvent). p.1) after_second)
      | inr new ↦
          let after_first = bridge_hash-unknown hash first rt new unknown in
          let marked = record rt { seen_hashes = set_insert hash rt.seen_hashes } in
          let after_second =
            bridge_hash-seen hash second marked (contains-set_insert_self hash rt.seen_hashes) in
          subst (HidesNext hash second) (sym after_first)
            (refl, ap (λ (p : Runtime × Option SwapEvent). p.1) after_second)
    ]

-- Two logs of one transaction, of which the first comes from a pool that the mirror does not have: no event
-- is made of the second one either, also where the mirror has its pool.
pub bridge-hides :
    (first second : Log) (rt : Runtime)
    → hash_of first ≡ hash_of second
    → contains_key first.address rt.mirror.pools ≡ false
    → ((bridge first rt).1 ≡ none) × ((bridge second (bridge first rt).0).1 ≡ none)
unfolding bridge HidesNext
bridge-hides first second rt same unknown =
    let (a, b) = bridge_hash-HidesNext (hash_of first) first second rt unknown in
    (
      a,
      subst (λ h. (bridge_hash h second (bridge_hash (hash_of first) first rt).0).1 ≡ none) same b,
    )

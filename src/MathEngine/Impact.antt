-- ===== src/MathEngine/Impact.antt =====
-- src/math_engine.rs: the reserves that a pending pair `swap` call is about to leave.
pub mod Laws
use sovereign_shadow_mev.Prelude.{
  ℕ, ◌+◌, ◌-◌, ◌*◌, ◌/◌, ◌^◌, ◌&&◌, Bool, true, false, List, [], ◌∷◌, Option, none, some, take,
  length, leb, ltb, ◌==◌, if◌then◌else◌,
}
use sovereign_shadow_mev.Bytes.{slice, from_be_bytes}
use sovereign_shadow_mev.Uint.{add256, mul256}
use sovereign_shadow_mev.Models.{MempoolTx}

-- The two halves of the formula: `out` leaves the reserve `r_out`, and the input that pays for it
-- joins `r_in`. A divisor of 0 is 997 times a number that is not 0, so the division does not panic.
unfoldable pub paid_in : ℕ → ℕ → ℕ → ℕ
paid_in r_in new_out out = mul256 (mul256 r_in out) 1000 / mul256 new_out 997

-- The reserves after amounts of token 0 and token 1 are taken; the first that is not 0 counts.
unfoldable pub reserves_after : ℕ → ℕ → ℕ → ℕ → Option (ℕ × ℕ)
reserves_after r0 r1 amt0_out amt1_out =
    let new_r0 = r0 - amt0_out in
    let new_r1 = r1 - amt1_out in
    if ltb 0 amt0_out
    then (if new_r0 == 0 then none else some (new_r0, add256 r1 (paid_in r1 new_r0 amt0_out)))
    else if ltb 0 amt1_out
    then (if new_r1 == 0 then none else some (add256 r0 (paid_in r0 new_r1 amt1_out), new_r1))
    else none

abbrev pub same_bytes : List ℕ → List ℕ → Bool
same_bytes [] [] = true
same_bytes [] (b ∷ bs) = false
same_bytes (a ∷ as_) [] = false
same_bytes (a ∷ as_) (b ∷ bs) = (a == b) && same_bytes as_ bs

-- The map of impacts has one entry at most: the address of the pair and its reserves.
unfoldable pub project_reserve_impact : MempoolTx → (ℕ → Option (ℕ × ℕ)) → List (ℕ × (ℕ × ℕ))
project_reserve_impact tx reserves = if ltb (length tx.payload) 4 then [] else elim tx.to [
  | none ↦ []
  | some target ↦
      if same_bytes (take 4 tx.payload) (0x02 ∷ 0x2c ∷ 0x0d ∷ 0x9f ∷ [])
        && leb 100 (length tx.payload)
      then elim (reserves target) [
        | none ↦ []
        | some (r0, r1) ↦
            elim (reserves_after r0 r1 (from_be_bytes (slice tx.payload 4 32))
              (from_be_bytes (slice tx.payload 36 32))) [
                | none ↦ []
                | some after ↦ (target, after) ∷ []
              ]
      ]
      else []
]

-- Only for an event with a pending transaction whose amount is at least 0.005 ether.
unfoldable pub project_reserve_impact_v2 :
    Option MempoolTx → ℕ → (ℕ → Option (ℕ × ℕ)) → List (ℕ × (ℕ × ℕ))
project_reserve_impact_v2 none amount_in reserves = []
project_reserve_impact_v2 (some tx) amount_in reserves =
    if ltb amount_in (5 * 10 ^ 15) then [] else project_reserve_impact tx reserves

-- ===== src/Mirror/Sync/Laws.antt =====
-- Whose results a pool of a chunk reads.
use sovereign_shadow_mev.Prelude.{ℕ, ◌≡◌, refl, ap, List, [], ◌∷◌, map}
use sovereign_shadow_mev.Models.{DexType}
use sovereign_shadow_mev.Mirror.Sync.{
  Target, Call3, get_reserves_call, slot0_call, liquidity_call, CallResult, calls_for, Effects,
  no_effect, both_effects, Decoders, pair_effect, v3_effect, read_results,
}

-- No pool of the chunk is one of Maverick.
abbrev pub HasNoMaverick : List Target → Type 0
HasNoMaverick [] = Unit
HasNoMaverick ((addr, DexType.maverick_v2) ∷ chunk) = ⊥
HasNoMaverick ((addr, _) ∷ chunk) = HasNoMaverick chunk

module _ (decode : Decoders) (block now : ℕ) (answer : Call3 → CallResult) where
  -- What a pool makes of the answers to its own calls.
  abbrev pub own_effect : Target → Effects
  own_effect (addr, DexType.uniswap_v3) =
      v3_effect decode block now (addr, DexType.uniswap_v3) (answer (slot0_call addr))
        (answer (liquidity_call addr))
  own_effect (addr, dex_type) =
      pair_effect decode block now (addr, dex_type) (answer (get_reserves_call addr))

  abbrev pub own_effects : List Target → Effects
  own_effects [] = no_effect
  own_effects (target ∷ chunk) = both_effects (own_effect target) (own_effects chunk)

  -- Where the multicall answers its calls in order, each pool of a chunk without a pool of Maverick
  -- is set or dropped by the answers to its own calls, and the effects are those of the pools in
  -- order.
  pub read_results-own_effects :
      (chunk : List Target)
      → HasNoMaverick chunk
      → read_results decode block now chunk (map answer (calls_for chunk)) ≡ own_effects chunk
  unfolding read_results calls_for
  read_results-own_effects [] ok = refl
  read_results-own_effects ((addr, DexType.uniswap_v2) ∷ chunk) ok =
      ap (both_effects (own_effect (addr, DexType.uniswap_v2))) (read_results-own_effects chunk ok)
  read_results-own_effects ((addr, DexType.aerodrome) ∷ chunk) ok =
      ap (both_effects (own_effect (addr, DexType.aerodrome))) (read_results-own_effects chunk ok)
  read_results-own_effects ((addr, DexType.uniswap_v3) ∷ chunk) ok =
      ap (both_effects (own_effect (addr, DexType.uniswap_v3))) (read_results-own_effects chunk ok)
  read_results-own_effects ((addr, DexType.maverick_v2) ∷ chunk) ok = absurd ok

  -- A pool of a pair that follows a pool of Maverick in its chunk is set or dropped by the answer to the
  -- call of the pool of Maverick, whatever its own answer is.
  pub read_results-shifted :
      (maverick addr : ℕ)
      → read_results decode block now
          ((maverick, DexType.maverick_v2) ∷ (addr, DexType.uniswap_v2) ∷ [])
          (map answer
            (calls_for ((maverick, DexType.maverick_v2) ∷ (addr, DexType.uniswap_v2) ∷ [])))
        ≡ both_effects
            (pair_effect decode block now
              (addr, DexType.uniswap_v2)
              (answer (get_reserves_call maverick)))
            no_effect
  unfolding read_results calls_for
  read_results-shifted maverick addr = refl

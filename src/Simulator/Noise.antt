-- ===== src/Simulator/Noise.antt =====
-- src/state_simulator.rs: `inject_noise_transactions`, the competing trades of a branch. The random
-- addresses are a stream, read at a position that moves on.
use sovereign_shadow_mev.Prelude.{
  ℕ, zero, suc, ◌+◌, ◌*◌, ◌%◌, ◌^◌, ◌≤◌, ◌≡◌, ◌≢◌, refl, arith, true, false, List, [], ◌∷◌, ◌++◌,
  length, replicate, some, ◌==◌, if◌then◌else◌,
}
use sovereign_shadow_mev.Bytes.{slice, from_be_bytes, to_be_bytes}
use sovereign_shadow_mev.Uint.{from_limbs}
use sovereign_shadow_mev.Models.{Hop}
use sovereign_shadow_mev.Simulator.Evm.{TxEnv, Evm, commit_or_skip}
use sovereign_shadow_mev.Simulator.Honeypot.{copy_from_slice}

pub data SimulationBranch : Type 0 where
  top mid tail : SimulationBranch

-- The rounds of noise in a branch.
unfoldable pub intensity : SimulationBranch → ℕ
intensity top = 0
intensity mid = 3
intensity tail = 8

-- 0 and 1 at the end of a word.
abbrev word_flag : ℕ → List ℕ
word_flag b = replicate 31 0 ++ b ∷ []

-- A swap on a V3 pool; the direction changes with the round.
unfoldable pub v3_noise : ℕ → ℕ → List ℕ
v3_noise i recipient =
    let zfo = if i % 3 == 0 then 1 else 0 in
    let amount = 10 ^ 17 * (i % 20 + 5) in
    let sqrt_limit =
      if zfo == 1
      then 4295128739 + 1
      else from_limbs 0xffffffffffffffff 0xffffffffffffffff 0xffffffffffffffff 0x3ff in
    (0x12 ∷ 0x8a ∷ 0xa6 ∷ 0x9d ∷ [])
    ++ (replicate 12 0
        ++ (to_be_bytes 20 recipient
            ++ (word_flag zfo
                ++ (to_be_bytes 32 amount
                    ++ (to_be_bytes 32 sqrt_limit ++ (word_flag 0xa0 ++ replicate 32 0))))))

-- A swap on a V2 pool. The array `b` is the source of the copy.
unfoldable pub v2_noise : ℕ → ℕ → List ℕ
v2_noise i to =
    let amount_out = 10 ^ 18 * (i % 10 + 1) in
    let b = (copy_from_slice (to_be_bytes 32 amount_out) (replicate 32 0)).1 in
    (0x02 ∷ 0x2c ∷ 0x0d ∷ 0x9f ∷ [])
    ++ ((if i % 2 == 0 then b ++ replicate 32 0 else replicate 32 0 ++ b)
        ++ (replicate 12 0 ++ (to_be_bytes 20 to ++ replicate 64 0)))

unfoldable pub noise_data : ℕ → ℕ → List ℕ
noise_data i address = if i % 2 == 0 then v3_noise i address else v2_noise i address

module _ {W : Type 0} (evm : Evm W) (random : ℕ → ℕ) where
  -- One trade takes two random addresses, the one in its data first.
  unfoldable pub noise_hops : ℕ → List Hop → ℕ → W → W
  noise_hops i [] seed world = world
  noise_hops i (hop ∷ hops) seed world =
      let tx : TxEnv = record {
        caller = random (seed + 1);
        transact_to = hop.pool_address;
        calldata = noise_data i (random seed);
        gas_limit = some 350_000;
      } in
      noise_hops i hops (seed + 2) (commit_or_skip evm tx world)

  -- The rounds `i`, `i + 1`, ..., `n` of them.
  unfoldable pub noise_rounds : ℕ → ℕ → List Hop → ℕ → W → W
  noise_rounds zero i hops seed world = world
  noise_rounds (suc n) i hops seed world =
      noise_rounds n (i + 1) hops (seed + 2 * length hops) (noise_hops i hops seed world)

  unfoldable pub inject_noise_transactions : List Hop → SimulationBranch → ℕ → W → W
  inject_noise_transactions hops branch seed world =
      noise_rounds (intensity branch) 0 hops seed world

-- In every second round of noise the trade asks for 0 of both tokens, whatever amount was computed
-- and whatever the address.
pub noise_data_void :
    (i address : ℕ)
    → i % 2 ≡ 1
    → (from_be_bytes (slice (noise_data i address) 4 32) ≡ 0)
      × (from_be_bytes (slice (noise_data i address) 36 32) ≡ 0)
unfolding noise_data v2_noise from_be_bytes
noise_data_void i address odd = let t : (i % 2 == 0) ≡ false = ground arith in rw t (refl, refl)

-- In the other rounds, unless the number of the round is a multiple of 3, the price limit of the
-- trade does not fit the 160 bits of its type.
pub noise_data_limit :
    (i address : ℕ)
    → i % 2 ≡ 0
    → i % 3 ≢ 0
    → 2 ^ 160 ≤ from_be_bytes (slice (noise_data i address) 100 32)
unfolding noise_data v3_noise to_be_bytes from_be_bytes
noise_data_limit i address even other =
    let t : (i % 2 == 0) ≡ true = ground arith in
    let u : (i % 3 == 0) ≡ false = ground arith in rw (t, u) (omega arith)

-- ===== src/Executor/Broadcast/Laws.antt =====
-- The loop over the blocks ends, and what it sends.
use sovereign_shadow_mev.Prelude.{
  ℕ, zero, suc, ◌+◌, ◌-◌, ◌%◌, ◌^◌, ◌≤◌, ◌<◌, ◌≡◌, refl, arith, true, ◌&&◌, Option, none, some,
  List, [], ◌∷◌, length, ltb, Bool-cases, inl, inr, ◌⊎◌, ltb→lt,
}
use sovereign_shadow_mev.Models.{Opportunity, Bundle, set_bribe}
use sovereign_shadow_mev.Models.Errors.{err, ok, no_relay_accepted}
use sovereign_shadow_mev.Executor.State.{FlashLoanExecutor, RelayResult}
use sovereign_shadow_mev.Executor.Pricing.{Order}
use sovereign_shadow_mev.Executor.Broadcast.{
  any_accepted, any_stale, on_accepted, on_rejected, bundle_for, max_resilience_attempts, Sent,
  sent_before, broadcast_loop,
}

-- The bundles carry the signed bytes of the order alone, with its bribe, for one block after another from the
-- first one on.
abbrev pub AreFor : Order → ℕ → List Bundle → Type 0
AreFor order block [] = Unit
AreFor order block (b ∷ bs) =
    (b ≡ record {
      transactions = order.signed_rlp ∷ [];
      target_block = block;
      bribe = order.bribe_wei;
    })
    × AreFor order ((block + 1) % 2 ^ 64) bs

-- The fields that no stage after the locks changes.
abbrev pub SameLocks : FlashLoanExecutor → FlashLoanExecutor → Type 0
SameLocks s t =
    (t.occupied_pools ≡ s.occupied_pools)
    × (t.current_block ≡ s.current_block)
    × (t.has_builder ≡ s.has_builder)

-- The loop has ended: with the order's hash or with the error of the relays, after at least one and at
-- most `most` bundles.
abbrev pub HasEnded : Order → ℕ → ℕ → FlashLoanExecutor → Option Sent → Type 0
HasEnded order block most s none = ⊥
HasEnded order block most s (some (result, bundles, t)) =
    ((result ≡ ok order.tx_hash) ⊎ (result ≡ err no_relay_accepted))
    × (0 < length bundles)
    × (length bundles ≤ most)
    × AreFor order block bundles
    × SameLocks s t

HasEnded-sent_before :
    (order : Order) (block most : ℕ) (s : FlashLoanExecutor) (later : Option Sent)
    → HasEnded order ((block + 1) % 2 ^ 64) most s later
    → HasEnded order block (suc most) s (sent_before (bundle_for order block) later)
unfolding bundle_for set_bribe
HasEnded-sent_before order block most s none h = h
HasEnded-sent_before order block most s (some (result, bundles, t)) h =
    (h.0, omega arith, omega arith, (refl, h.3), h.4)

module _ (broadcast : ℕ → Bundle → List RelayResult) (opp : Opportunity) (order : Order)
    (now now_ns : ℕ) where
  -- One turn, given what the next one does.
  turn-HasEnded :
      (fuel attempts target_block : ℕ) (s : FlashLoanExecutor)
      → (ltb attempts (max_resilience_attempts - 1) ≡ true
          → HasEnded order ((target_block + 1) % 2 ^ 64) fuel s (
              broadcast_loop broadcast opp order now now_ns fuel
                (attempts + 1)
                ((target_block + 1) % 2 ^ 64)
                s))
      → HasEnded order target_block
          (suc fuel)
          s
          (broadcast_loop broadcast opp order now now_ns (suc fuel) attempts target_block s)
  unfolding broadcast_loop on_accepted on_rejected bundle_for set_bribe
  turn-HasEnded fuel attempts target_block s later =
      let bundle = bundle_for order target_block in
      let results = broadcast attempts bundle in
      elim (Bool-cases (any_accepted results)) [
        | inl taken ↦ rw taken (inl refl, omega arith, omega arith, (refl, tt), (refl, refl, refl))
        | inr refused ↦
            elim (Bool-cases (any_stale results && ltb attempts (max_resilience_attempts - 1))) [
              | inr over ↦
                  rw (refused, over)
                    (inr refl, omega arith, omega arith, (refl, tt), (refl, refl, refl))
              | inl again ↦
                  rw (refused, again)
                    (HasEnded-sent_before order target_block fuel s
                      (broadcast_loop broadcast opp order now now_ns fuel (attempts + 1)
                        ((target_block + 1) % 2 ^ 64) s)
                      (later (ground arith)))
            ]
      ]

  -- Where the attempts so far and the fuel, which is positive, are two together, the loop ends,
  -- whatever the relays answer: with the order's hash or with the error that no relay accepted,
  -- after at least one bundle and at most as many as the fuel, each with the order, for one block
  -- after another from the target on; the locks are as before.
  pub broadcast_loop-HasEnded :
      (fuel attempts target_block : ℕ) (s : FlashLoanExecutor)
      → attempts + suc fuel ≡ max_resilience_attempts
      → HasEnded order target_block
          (suc fuel)
          s
          (broadcast_loop broadcast opp order now now_ns (suc fuel) attempts target_block s)
  broadcast_loop-HasEnded zero attempts target_block s left =
      turn-HasEnded zero attempts target_block s (λ h. absurd (omega (arith, ltb→lt, h)))
  broadcast_loop-HasEnded (suc fuel) attempts target_block s left =
      turn-HasEnded (suc fuel) attempts target_block s (λ h.
        broadcast_loop-HasEnded fuel (attempts + 1) ((target_block + 1) % 2 ^ 64) s (omega arith))

-- ===== src/Listener/Laws.antt =====
-- What a stream of logs leaves in the mirror and sends to the search.
use sovereign_shadow_mev.Prelude.{
  ℕ, suc, ◌+◌, ◌^◌, ◌≤◌, ◌<◌, ◌≡◌, refl, arith, Bool, true, false, Option, none, some, List, [],
  ◌∷◌, ◌++◌, length, length-append, contains, ltb, leb, if◌then◌else◌,
}
use sovereign_shadow_mev.Bytes.{to_be_bytes}
use sovereign_shadow_mev.Bytes.Laws.{
  from_be_bytes-to_be_bytes, length-to_be_bytes, take_append, take_all, drop_append,
}
use sovereign_shadow_mev.Mirror.Pools.{StateMirror}
use sovereign_shadow_mev.Mirror.Traders.{set_insert}
use sovereign_shadow_mev.Mirror.Updates.{update_v2_reserves}
use sovereign_shadow_mev.Listener.{
  Log, SwapEvent, v2_sync_topic, apply_topic, update_mirror_state, process_hash, process_log_event,
  run_logs,
}

-- The hashes of the events.
abbrev pub event_hashes : List SwapEvent → List ℕ
event_hashes [] = []
event_hashes (event ∷ events) = event.tx_hash ∷ event_hashes events

-- No number stands twice.
abbrev pub AreDistinct : List ℕ → Type 0
AreDistinct [] = Unit
AreDistinct (x ∷ xs) = (contains xs x ≡ false) × AreDistinct xs

-- None of the hashes is among the others.
abbrev pub AreNew : List ℕ → List ℕ → Type 0
AreNew seen [] = Unit
AreNew seen (x ∷ xs) = (contains seen x ≡ false) × AreNew seen xs

AreNew-cons :
    (h : ℕ) (seen xs : List ℕ) → AreNew (h ∷ seen) xs → (contains xs h ≡ false) × AreNew seen xs
unfolding contains
AreNew-cons h seen [] new = (refl, tt)
AreNew-cons h seen (x ∷ xs) new =
    let (absent, rest) = AreNew-cons h seen xs new.1 in
    let first = new.0 in (ground arith, (ground arith, rest))

-- The events of the logs from `seen` on are new and distinct.
abbrev AreOnce : List ℕ → List SwapEvent → Type 0
AreOnce seen events = AreNew seen (event_hashes events) × AreDistinct (event_hashes events)

if_either :
    {A : Type 0} (P : A → Type 0) (b : Bool) (x y : A)
    → (b ≡ true → P x)
    → (b ≡ false → P y)
    → P (if b then x else y)
if_either P true x y h k = h refl
if_either P false x y h k = k refl

with_first :
    (log : Log) (hash : Option ℕ) (m : StateMirror) (logs : List Log) (seen : List ℕ)
    → length seen + suc (length logs) ≤ 100_000
    → ((seen2 : List ℕ)
        → length seen2 + length logs ≤ 100_000
        → AreOnce seen2 (run_logs logs m seen2).2)
    → AreOnce seen (elim ((process_hash log hash seen).0) [
      | none ↦ (run_logs logs m (process_hash log hash seen).1).2
      | some event ↦ event ∷ (run_logs logs m (process_hash log hash seen).1).2
    ])
unfolding set_insert
with_first log none m logs seen few rest = rest seen (omega arith)
with_first log (some h) m logs seen few rest =
    if_either
      (λ (r : Option SwapEvent × List ℕ). AreOnce seen (elim (r.0) [
        | none ↦ (run_logs logs m r.1).2
        | some event ↦ event ∷ (run_logs logs m r.1).2
      ]))
      (contains seen h) _ _ (λ known. rest seen (omega arith))
      (λ fresh.
        let all : set_insert h seen ≡ h ∷ seen = rw fresh refl in
        let fits : ltb 100_000 (length (h ∷ seen)) ≡ false = ground arith in
        let (new, once) = rest (h ∷ seen) (omega arith) in
        let (absent, others) =
          AreNew-cons h seen (event_hashes (run_logs logs m (h ∷ seen)).2) new in
        rw (all, fits) ((fresh, others), (absent, once)))

-- With at most 100000 hashes and logs together, a stream of logs sends at most one event for each
-- transaction, and none for a transaction that was seen before.
pub run_logs-AreOnce :
    (logs : List Log) (m : StateMirror) (seen : List ℕ)
    → length seen + length logs ≤ 100_000
    → AreNew seen (event_hashes (run_logs logs m seen).2)
      × AreDistinct (event_hashes (run_logs logs m seen).2)
unfolding run_logs process_log_event
run_logs-AreOnce [] m seen few = (tt, tt)
run_logs-AreOnce (log ∷ logs) m seen few =
    with_first log log.transaction_hash (update_mirror_state log m) logs seen few
      (λ seen2 few2. run_logs-AreOnce logs (update_mirror_state log m) seen2 few2)

-- A Sync log that carries two 256-bit reserves as the bytes of two words has the effect on the
-- mirror that writing these two reserves of its pool has, and no other.
pub update_mirror_state-update_v2_reserves :
    (pool r0 r1 : ℕ) (topics : List ℕ) (hash : Option ℕ) (m : StateMirror)
    → r0 < 2 ^ 256
    → r1 < 2 ^ 256
    → update_mirror_state
        (record {
          address = pool;
          topics = v2_sync_topic ∷ topics;
          payload = to_be_bytes 32 r0 ++ to_be_bytes 32 r1;
          transaction_hash = hash;
        })
        m
      ≡ update_v2_reserves m pool r0 r1
unfolding update_mirror_state apply_topic
update_mirror_state-update_v2_reserves pool r0 r1 topics hash m h0 h1 =
    let size = length-append (to_be_bytes 32 r0) (to_be_bytes 32 r1) in
    let size0 = length-to_be_bytes 32 r0 in
    let size1 = length-to_be_bytes 32 r1 in
    let long : leb 64 (length (to_be_bytes 32 r0 ++ to_be_bytes 32 r1)) ≡ true = ground arith in
    let first = take_append 32 (to_be_bytes 32 r0) (to_be_bytes 32 r1) size0 in
    let second = drop_append 32 (to_be_bytes 32 r0) (to_be_bytes 32 r1) size0 in
    let all = take_all 32 (to_be_bytes 32 r1) size1 in
    let read0 = from_be_bytes-to_be_bytes 32 r0 (omega arith) in
    let read1 = from_be_bytes-to_be_bytes 32 r1 (omega arith) in
    rw (long, first, second, all, read0, read1) refl

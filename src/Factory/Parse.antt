-- ===== src/Factory/Parse.antt =====
-- src/factory_scanner.rs: the factories and their logs; with src/discovery.rs's `parse_historical_log`.
use sovereign_shadow_mev.Prelude.{
  ℕ, ◌+◌, ◌%◌, ◌^◌, ◌<◌, ◌≡◌, refl, arith, Bool, true, false, ◌&&◌, Option, none, some, List, [],
  ◌∷◌, ◌++◌, length, length-append, replicate, ltb, leb, ◌==◌, if◌then◌else◌,
}
use sovereign_shadow_mev.Prelude.Assoc.{Assoc, lookup, insert}
use sovereign_shadow_mev.Bytes.{slice, from_be_bytes, to_be_bytes}
use sovereign_shadow_mev.Bytes.Laws.{from_be_bytes-to_be_bytes, length-to_be_bytes, take_append}
use sovereign_shadow_mev.Constants.{
  event_v2_pair_created, event_v3_pool_created, event_aero_pool_created, base_aerodrome_factory,
  base_sushiswap_factory, base_pancakeswap_factory, base_baseswap_factory, base_maverick_factory,
}
use sovereign_shadow_mev.Models.{DexName}
use sovereign_shadow_mev.Listener.{Log}

pub record V2PoolData : Type 0 where
  pub pair : ℕ
  pub token_0 : ℕ
  pub token_1 : ℕ
  pub dex_name : DexName

pub record V3PoolData : Type 0 where
  pub pool : ℕ
  pub token_0 : ℕ
  pub token_1 : ℕ
  pub fee : ℕ
  pub dex_name : DexName

pub data NewPoolEvent : Type 0 where
  v2 : V2PoolData → NewPoolEvent
  v3 : V3PoolData → NewPoolEvent

-- The insertions, in order; the later ones write over the earlier ones.
unfoldable pub setup_factories : Assoc DexName → Assoc DexName
setup_factories map = insert base_maverick_factory DexName.maverick (
    insert base_baseswap_factory DexName.uniswap_v3 (
      insert 0x3d2d7681335a74be482d207137f814ba688849e8 DexName.uniswap_v2 (
        insert 0x04c9f118a4864700721a163744021d21db27c11f DexName.uniswap_v2 (
          insert 0x33128a8fc170d56ed8068699e168a9a301c035de DexName.uniswap_v3 (
            insert base_maverick_factory DexName.maverick (
              insert base_sushiswap_factory DexName.sushi_swap (
                insert base_pancakeswap_factory DexName.pancake_swap (
                  insert base_baseswap_factory DexName.base_swap
                    (insert base_aerodrome_factory DexName.aerodrome map)))))))))

-- `Address::from_word`: the low 160 bits.
abbrev pub from_word : ℕ → ℕ
from_word word = word % 2 ^ 160

-- `data.get(start..start + 20)?` as an address.
abbrev pub address_at : List ℕ → ℕ → Option ℕ
address_at bytes start =
    if ltb (length bytes) (start + 20) then none else some (from_be_bytes (slice bytes start 20))

abbrev pub v2_event : ℕ → ℕ → DexName → Option ℕ → Option NewPoolEvent
v2_event t0 t1 dex none = none
v2_event t0 t1 dex (some pair) =
    some
      (v2 (record { pair = pair; token_0 = from_word t0; token_1 = from_word t1; dex_name = dex }))

abbrev pub v3_event : ℕ → ℕ → ℕ → DexName → Option ℕ → Option NewPoolEvent
v3_event t0 t1 fee dex none = none
v3_event t0 t1 fee dex (some pool) = some (
    v3 (record {
      pool = pool;
      token_0 = from_word t0;
      token_1 = from_word t1;
      fee = fee;
      dex_name = dex;
    }))

abbrev is_aerodrome : DexName → Bool
is_aerodrome DexName.aerodrome = true
is_aerodrome _ = false

-- A V2 log has two more topics, the others three.
abbrev two_tokens : DexName → List ℕ → List ℕ → Option NewPoolEvent
two_tokens dex bytes (t0 ∷ t1 ∷ rest) = v2_event t0 t1 dex (address_at bytes 12)
two_tokens dex bytes _ = none

abbrev aero_tokens : List ℕ → List ℕ → Option NewPoolEvent
aero_tokens bytes (t0 ∷ t1 ∷ stable ∷ rest) = v2_event t0 t1 DexName.aerodrome (address_at bytes 12)
aero_tokens bytes _ = none

-- The fee is the low 24 bits of its topic.
abbrev fee_tokens : DexName → List ℕ → List ℕ → Option NewPoolEvent
fee_tokens dex bytes (t0 ∷ t1 ∷ fee ∷ rest) =
    v3_event t0 t1 (fee % 2 ^ 24) dex (address_at bytes 44)
fee_tokens dex bytes _ = none

-- What the first topic makes of a log of a known factory.
unfoldable pub parse_topics : DexName → List ℕ → List ℕ → Option NewPoolEvent
parse_topics dex bytes [] = none
parse_topics dex bytes (topic0 ∷ topics) =
    if topic0 == event_v2_pair_created
    then two_tokens dex bytes topics
    else if (topic0 == event_aero_pool_created) && is_aerodrome dex
    then aero_tokens bytes topics
    else if topic0 == event_v3_pool_created
    then fee_tokens dex bytes topics
    else none

abbrev pub parse_known : Option DexName → List ℕ → List ℕ → Option NewPoolEvent
parse_known none bytes topics = none
parse_known (some dex) bytes topics = parse_topics dex bytes topics

-- A log of an unknown address is ignored.
unfoldable pub parse_factory_log : Log → Assoc DexName → Option NewPoolEvent
parse_factory_log log factory_map =
    parse_known (lookup log.address factory_map) log.payload log.topics

-- The exchange of a historical log is told by its topic, and the fee of a V3 pool is 0.
unfoldable pub parse_historical_log : Log → Option NewPoolEvent
parse_historical_log log = elim (log.topics) [
  | topic0 ∷ t0 ∷ t1 ∷ rest ↦
      if (topic0 == event_v2_pair_created) && leb 32 (length log.payload)
      then v2_event t0 t1 DexName.uniswap_v2 (address_at log.payload 12)
      else if (topic0 == event_v3_pool_created) && leb 64 (length log.payload)
      then v3_event t0 t1 0 DexName.uniswap_v3 (address_at log.payload 44)
      else if (topic0 == event_aero_pool_created) && leb 32 (length log.payload)
      then v2_event t0 t1 DexName.aerodrome (address_at log.payload 12)
      else none
  | _ ↦ none
]

-- The factory of the exchange BaseSwap is registered as one of Uniswap V3.
pub setup_factories-base_swap :
    lookup base_baseswap_factory (setup_factories []) ≡ some DexName.uniswap_v3
unfolding setup_factories lookup insert
setup_factories-base_swap = refl

-- The log with which a known factory announces a pair, whose addresses are below 2 ^ 160 and which may
-- carry more data, is read back as that pair, its two tokens and the exchange of the factory.
pub parse_factory_log-pair :
    (factory pair t0 t1 : ℕ) (dex : DexName) (map : Assoc DexName) (hash : Option ℕ) (more : List ℕ)
    → lookup factory map ≡ some dex
    → pair < 2 ^ 160
    → t0 < 2 ^ 160
    → t1 < 2 ^ 160
    → parse_factory_log
        (record {
          address = factory;
          topics = event_v2_pair_created ∷ t0 ∷ t1 ∷ [];
          payload = replicate 12 0 ++ (to_be_bytes 20 pair ++ more);
          transaction_hash = hash;
        })
        map
      ≡ some (v2 (record { pair = pair; token_0 = t0; token_1 = t1; dex_name = dex }))
unfolding parse_factory_log parse_topics
parse_factory_log-pair factory pair t0 t1 dex map hash more known h0 h1 h2 =
    let size = length-to_be_bytes 20 pair in
    let all = length-append (to_be_bytes 20 pair) more in
    let long : ltb (length (replicate 12 0 ++ (to_be_bytes 20 pair ++ more))) (12 + 20) ≡ false =
      ground arith in
    let first = take_append 20 (to_be_bytes 20 pair) more size in
    let read = from_be_bytes-to_be_bytes 20 pair (omega arith) in
    let low0 : t0 % 2 ^ 160 ≡ t0 = omega arith in
    let low1 : t1 % 2 ^ 160 ≡ t1 = omega arith in rw (known, long, first, read, low0, low1) refl

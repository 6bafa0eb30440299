-- ===== src/Providers.antt =====
-- src/lib.rs: `WsProviderPool`, the round robin over the network connections. A connection is its index;
-- the time `now` is in seconds.
pub mod Laws
use sovereign_shadow_mev.Prelude.{
  ℕ, zero, suc, ◌+◌, ◌%◌, ◌^◌, List, length, set, replicate, max, leb, ltb, ◌==◌, if◌then◌else◌,
  Run, done, panic, ◌>>=◌, at_run,
}

-- `health` is the time from which a connection may be used again.
pub record WsProviderPool : Type 0 where
  pub size : ℕ
  pub next : ℕ
  pub health : List ℕ
  pub usage_stats : List ℕ

-- `WsProviderPool::new`
abbrev pub new_pool : ℕ → WsProviderPool
new_pool size = record {
  size = size;
  next = 0;
  health = replicate size 0;
  usage_stats = replicate size 0;
}

-- What `fetch_add(1) % len` gives.
abbrev pub head_of : WsProviderPool → ℕ
head_of pool = if pool.size == 0 then 0 else pool.next % pool.size

-- The `for` loop, of so many rounds; where every round finds a blocked connection, the first one is given.
unfoldable pub next_loop : ℕ → ℕ → WsProviderPool → Run (ℕ × WsProviderPool)
next_loop zero now pool = done (0, pool)
next_loop (suc rounds) now pool =
    let moved = record pool { next = (pool.next + 1) % 2 ^ 64 } in
    let later = next_loop rounds now moved in
    at_run pool.health (head_of pool) >>= λ resume_at.
    if leb resume_at now
    then (at_run pool.usage_stats (head_of pool) >>= λ used. done (
      head_of pool,
      record moved { usage_stats = set pool.usage_stats (head_of pool) ((used + 1) % 2 ^ 64) },
    ))
    else later

-- `WsProviderPool::next`
unfoldable pub next_provider : ℕ → WsProviderPool → Run (ℕ × WsProviderPool)
next_provider now pool = if pool.size == 0 then panic else next_loop pool.size now pool

-- The remainder by 0 panics.
unfoldable pub get_head : ℕ → WsProviderPool → Run ℕ
get_head index pool = if pool.size == 0 then panic else done (index % pool.size)

unfoldable pub mark_unhealthy : ℕ → ℕ → ℕ → WsProviderPool → Run WsProviderPool
mark_unhealthy provider_idx duration_secs now pool =
    if ltb provider_idx (length pool.health)
    then done (record pool {
      health = set pool.health provider_idx ((now + max duration_secs 120) % 2 ^ 64);
    })
    else panic

-- ===== src/V3Math/TickSearch.antt =====
-- src/v3_math.rs: `get_tick_at_sqrt_ratio`, the bisection over all ticks. The loop is on fuel: 21
-- rounds empty the range of 1774545 ticks, and `Laws` shows that they do.
pub mod Laws
use sovereign_shadow_mev.Prelude.{
  ℕ, zero, suc, ◌+◌, ◌/◌, ◌<◌, Option, none, some, ltb, if◌then◌else◌, Run, done, panic, ◌>>=◌,
}
use sovereign_shadow_mev.Prelude.Int.{ℤ, pos, negsuc, ◌+ℤ◌, ◌-ℤ◌, leb_ℤ}
use sovereign_shadow_mev.V3Math.Ratio.{max_tick, get_sqrt_ratio_at_tick}

-- `/` of Rust's signed integers rounds towards 0.
abbrev pub half_ℤ : ℤ → ℤ
half_ℤ (pos n) = pos (n / 2)
half_ℤ (negsuc n) = (pos 0) -ℤ pos (suc n / 2)

abbrev pub mid : ℤ → ℤ → ℤ
mid low high = half_ℤ (low +ℤ high)

-- The `while` loop; `none` means that the fuel ran out. The price function stands for
-- `get_sqrt_ratio_at_tick`.
unfoldable pub search_loop : (ℤ → Run ℕ) → ℕ → ℕ → ℤ → ℤ → Run (Option ℤ)
search_loop ratio zero price low high = done none
search_loop ratio (suc fuel) price low high =
    let above = search_loop ratio fuel price (mid low high +ℤ pos 1) high in
    let below = search_loop ratio fuel price low (mid low high -ℤ pos 1) in
    if leb_ℤ low high
    then (ratio (mid low high) >>= λ mid_price.
        if ltb mid_price price
        then above
        else if ltb price mid_price
        then below
        else done (some (mid low high)))
    else done (some high)

abbrev pub search_fuel : ℕ
search_fuel = 22

unfoldable pub get_tick_at_sqrt_ratio : ℕ → Run (Option ℤ)
get_tick_at_sqrt_ratio sqrt_price_x96 =
    search_loop get_sqrt_ratio_at_tick search_fuel sqrt_price_x96 (negsuc 887271) (pos max_tick)

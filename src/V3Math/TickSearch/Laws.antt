-- ===== src/V3Math/TickSearch/Laws.antt =====
-- The bisection ends, and the tick that it returns brackets the price.
use sovereign_shadow_mev.Prelude.{
  ℕ, zero, suc, ◌+◌, ◌-◌, ◌*◌, ◌^◌, ◌≤◌, ◌<◌, ◌≡◌, refl, arith, ◌⊎◌, inl, inr, Option, none, some,
  ltb, Run, done, ◌>>=◌, Returns, Bool-cases, Run-cases, subst, ◌∙◌, true, false, ap,
}
use sovereign_shadow_mev.Prelude.Int.{
  ℤ, pos, negsuc, pos_part, neg_part, ◌+ℤ◌, ◌-ℤ◌, leb_ℤ, ◌≤ℤ◌, int_laws,
}
use sovereign_shadow_mev.V3Math.Ratio.{max_tick, get_sqrt_ratio_at_tick}
use sovereign_shadow_mev.V3Math.Ratio.Laws.{get_sqrt_ratio_at_tick-range}
use native.Mathlib.Nat.{pow-suc}
use sovereign_shadow_mev.V3Math.TickSearch.{mid, search_loop, get_tick_at_sqrt_ratio}

-- The number of ticks from `low` to `high`.
abbrev width : ℤ → ℤ → ℕ
width low high = pos_part high + neg_part low + 1 - (neg_part high + pos_part low)

-- The midpoint lies in the range, and halves it.
mid_bounds :
    (low high : ℤ)
    → low ≤ℤ high
    → (low ≤ℤ mid low high)
      × (mid low high ≤ℤ high)
      × (2 * width (mid low high +ℤ pos 1) high ≤ width low high)
      × (2 * width low (mid low high -ℤ pos 1) ≤ width low high)
unfolding ◌+ℤ◌ ◌-ℤ◌
mid_bounds low high h = ground arith

-- The price of `t` is known and lies below, or above, `price`.
abbrev pub PriceBelow : (ℤ → Run ℕ) → ℕ → ℤ → Type 0
PriceBelow ratio price t = (r : ℕ) × (ratio t ≡ done r) × (r < price)

abbrev pub PriceAbove : (ℤ → Run ℕ) → ℕ → ℤ → Type 0
PriceAbove ratio price t = (r : ℕ) × (ratio t ≡ done r) × (price < r)

-- The answer is a tick at the price, or the price lies between the answer and the next tick; the
-- ends of the range count as unbounded.
abbrev pub Brackets : (ℤ → Run ℕ) → ℤ → ℤ → ℕ → Option ℤ → Type 0
Brackets ratio first last price none = ⊥
Brackets ratio first last price (some t) =
    (first ≤ℤ t +ℤ pos 1)
    × (t ≤ℤ last)
    × ((ratio t ≡ done price)
        ⊎ (((t +ℤ pos 1 ≡ first) ⊎ PriceBelow ratio price t)
            × ((t ≡ last) ⊎ PriceAbove ratio price (t +ℤ pos 1))))

record Inv (ratio : ℤ → Run ℕ) (first last : ℤ) (price : ℕ) (low high : ℤ) : Type 0 where
  left : first ≤ℤ low
  right : high ≤ℤ last
  ordered : low ≤ℤ high +ℤ pos 1
  below : (low ≡ first) ⊎ PriceBelow ratio price (low -ℤ pos 1)
  above : (high ≡ last) ⊎ PriceAbove ratio price (high +ℤ pos 1)

sub_add : (a : ℤ) → a -ℤ pos 1 +ℤ pos 1 ≡ a
sub_add a = omega int_laws

add_sub : (a : ℤ) → a +ℤ pos 1 -ℤ pos 1 ≡ a
add_sub a = omega int_laws

meets : (low high : ℤ) → low ≤ℤ high +ℤ pos 1 → leb_ℤ low high ≡ false → low ≡ high +ℤ pos 1
meets low high p h =
    let q : pos_part high + neg_part low < pos_part low + neg_part high = ground arith in
    omega int_laws

module _ (ratio : ℤ → Run ℕ) (first last : ℤ) (price : ℕ) where
  left_end :
      (low high : ℤ)
      → low ≡ high +ℤ pos 1
      → (low ≡ first) ⊎ PriceBelow ratio price (low -ℤ pos 1)
      → (high +ℤ pos 1 ≡ first) ⊎ PriceBelow ratio price high
  left_end low high e b =
      rw (add_sub high) at (subst (λ l. (l ≡ first) ⊎ PriceBelow ratio price (l -ℤ pos 1)) e b)

  stop :
      (low high : ℤ)
      → Inv ratio first last price low high
      → leb_ℤ low high ≡ false
      → Brackets ratio first last price (some high)
  stop low high v h =
      let e : low ≡ high +ℤ pos 1 = meets low high v.ordered h in
      (
        omega (int_laws, v.left, ap pos_part e, ap neg_part e),
        v.right,
        inr (left_end low high e v.below, v.above),
      )

  module _ (low high : ℤ) (v : Inv ratio first last price low high)
      (h : leb_ℤ low high ≡ true) where
    upper-Inv :
        PriceBelow ratio price (mid low high)
        → Inv ratio first last price (mid low high +ℤ pos 1) high
    upper-Inv b =
        let m = mid_bounds low high (ground arith) in
        record {
          left = omega (int_laws, m, v.left);
          right = v.right;
          ordered = omega (int_laws, m);
          below = inr (rw (add_sub (mid low high)) b);
          above = v.above;
        }

    lower-Inv :
        PriceAbove ratio price (mid low high)
        → Inv ratio first last price low (mid low high -ℤ pos 1)
    lower-Inv b =
        let m = mid_bounds low high (ground arith) in
        record {
          left = v.left;
          right = omega (int_laws, m, v.right);
          ordered = omega (int_laws, m);
          below = v.below;
          above = inr (rw (sub_add (mid low high)) b);
        }

    found :
        ratio (mid low high) ≡ done price → Brackets ratio first last price (some (mid low high))
    found e =
        let m = mid_bounds low high (ground arith) in
        (omega (int_laws, m, v.left), omega (int_laws, m, v.right), inl e)

  search_loop-Brackets :
      (k : ℕ) (low high : ℤ)
      → ((t : ℤ) → (r : ℕ) × (ratio t ≡ done r))
      → Inv ratio first last price low high
      → width low high < 2 ^ k
      → Returns (search_loop ratio (suc k) price low high) (Brackets ratio first last price)
  unfolding search_loop
  search_loop-Brackets zero low high total v w = elim (Bool-cases (leb_ℤ low high)) [
    | inl more ↦ absurd (ground arith)
    | inr done_ ↦ rw done_ (stop low high v done_)
  ]
  search_loop-Brackets (suc k) low high total v w = elim (Bool-cases (leb_ℤ low high)) [
    | inr done_ ↦ rw done_ (stop low high v done_)
    | inl more ↦
        let (r, e) = total (mid low high) in
        let m = mid_bounds low high (ground arith) in
        let p : 2 ^ suc k ≡ 2 * 2 ^ k = omega (arith, pow-suc 2 k) in
        rw (more, e, ◌>>=◌)
          (elim (Bool-cases (ltb r price)) [
            | inl lt ↦ rw lt (
                search_loop-Brackets k (mid low high +ℤ pos 1) high total
                  (upper-Inv low high v more (r, e, ground arith)) (omega arith))
            | inr ge ↦ rw ge (elim (Bool-cases (ltb price r)) [
              | inl gt ↦ rw gt (
                  search_loop-Brackets k low (mid low high -ℤ pos 1) total
                    (lower-Inv low high v more (r, e, ground arith)) (omega arith))
              | inr le ↦ rw le (found low high v more (e ∙ ap done (ground arith)))
            ])
          ])
  ]

total_ratio : (t : ℤ) → (r : ℕ) × (get_sqrt_ratio_at_tick t ≡ done r)
total_ratio t = elim (Run-cases (get_sqrt_ratio_at_tick t)) [
  | inl e ↦ e
  | inr e ↦ absurd (rw e at (get_sqrt_ratio_at_tick-range t))
]

-- For every price the search ends within its 22 rounds, without a panic, and its answer, from
-- -887273 to 887272, brackets the price: it is a tick at exactly that price, or the ratio of the
-- answer is below the price and that of the next tick above it, at the ends on one side only.
pub get_tick_at_sqrt_ratio-Brackets :
    (price : ℕ)
    → Returns
        (get_tick_at_sqrt_ratio price)
        (Brackets get_sqrt_ratio_at_tick (negsuc 887271) (pos max_tick) price)
unfolding get_tick_at_sqrt_ratio
get_tick_at_sqrt_ratio-Brackets price =
    search_loop-Brackets get_sqrt_ratio_at_tick (negsuc 887271) (pos max_tick) price 21
      (negsuc 887271) (pos max_tick) total_ratio
      (record {
        left = omega arith;
        right = omega arith;
        ordered = omega int_laws;
        below = inl refl;
        above = inl refl;
      })
      (omega arith)

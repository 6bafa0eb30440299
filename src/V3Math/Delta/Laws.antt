-- ===== src/V3Math/Delta/Laws.antt =====
-- The exact amounts of a price range and the price that an input reaches, for prices below 2 ^ 160 and
-- a liquidity below 2 ^ 128.
use sovereign_shadow_mev.Prelude.{
  ℕ, ◌+◌, ◌-◌, ◌*◌, ◌/◌, ◌^◌, ◌≤◌, ◌<◌, ◌≡◌, arith, ap, true, false, leb, ltb, ◌==◌, done, Returns,
  inl, inr, Bool-cases, div_run, ◌∙◌, dec_lt, Run-cases, ◌&&◌,
}
use sovereign_shadow_mev.Prelude.Division.{
  ceil_div, ceil_div-le, le-ceil_div, div-mul-le, lt-div-mul, div-le, mul-le, pos_mul, ceil_div-pos,
}
use sovereign_shadow_mev.Uint.{shl256, sub256, mul256, add256}
use sovereign_shadow_mev.V3Math.Arith.{mul_div, mul_div_round_up}
use sovereign_shadow_mev.V3Math.Arith.Laws.{mul_div-floor, mul_div_round_up-ceil}
use sovereign_shadow_mev.V3Math.Delta.{
  unwrap_or, get_amount0_delta, get_amount1_delta, get_next_sqrt_price_from_input,
}

-- Where the quotient fits, `unwrap_or` takes the exact one.
pub round_up_fits :
    (a b d q : ℕ)
    → a < 2 ^ 256
    → b < 2 ^ 256
    → d < 2 ^ 256
    → 0 < d
    → a * b ≤ q * d
    → q < 2 ^ 256
    → unwrap_or (mul_div_round_up a b d) 0 ≡ ceil_div (a * b) d
round_up_fits a b d q ha hb hd pd h hq =
    let small = ceil_div-le q (a * b) d pd h in
    let e = (mul_div_round_up-ceil a b d ha hb hd).1 pd in ground arith

pub round_down_fits :
    (a b d q : ℕ)
    → a < 2 ^ 256
    → b < 2 ^ 256
    → 0 < d
    → a * b < q * d + d
    → q < 2 ^ 256
    → unwrap_or (mul_div a b d) 0 ≡ a * b / d
round_down_fits a b d q ha hb pd h hq =
    let small = div-le q (a * b) d pd h in let e = (mul_div-floor a b d ha hb).1 pd in ground arith

shift_fits : (l : ℕ) → l < 2 ^ 160 → shl256 l 96 ≡ l * 2 ^ 96
shift_fits l h = omega arith

scale_le : (n x hi : ℕ) → x ≤ hi → n * x ≤ n * hi
scale_le n x hi h = grind arith

-- The amount of token 0 between two prices, rounded up twice.
abbrev pub amount0_up : ℕ → ℕ → ℕ → ℕ
amount0_up lo hi l = ceil_div (ceil_div (l * 2 ^ 96 * (hi - lo)) hi) lo

i-le-mul : (i lo : ℕ) → 0 < lo → i * 1 ≤ i * lo
i-le-mul i lo h = grind arith

nested_up :
    (n x lo hi : ℕ)
    → n < 2 ^ 256
    → x ≤ hi
    → hi < 2 ^ 256
    → 0 < lo
    → lo ≤ hi
    → unwrap_or (mul_div_round_up (unwrap_or (mul_div_round_up n x hi) 0) 1 lo) 0
      ≡ ceil_div (ceil_div (n * x) hi) lo
nested_up n x lo hi hn hx hh pl q =
    let bound = scale_le n x hi hx in
    let small = ceil_div-le n (n * x) hi (omega arith) bound in
    rw (round_up_fits n x hi n hn (omega arith) hh (omega arith) bound hn) (
      round_up_fits (ceil_div (n * x) hi) 1 lo (ceil_div (n * x) hi) (omega arith) (omega arith)
        (omega arith) pl (i-le-mul (ceil_div (n * x) hi) lo pl) (omega arith)
      ∙ ap (λ y. ceil_div y lo) (omega arith))

exact_width : (lo hi : ℕ) → lo ≤ hi → hi < 2 ^ 256 → sub256 hi lo ≡ hi - lo
exact_width lo hi p q = omega arith

not-ltb : (lo hi : ℕ) → lo ≤ hi → ltb hi lo ≡ false
not-ltb lo hi h = ground arith

-- For two prices in order, positive and below 2 ^ 160, and a liquidity below 2 ^ 128, the amount of
-- token 0 rounded up is the exact quotient by the higher and then by the lower price, each rounded
-- up.
pub get_amount0_delta-up :
    (lo hi l : ℕ)
    → 0 < lo
    → lo ≤ hi
    → hi < 2 ^ 160
    → l < 2 ^ 128
    → get_amount0_delta lo hi l true ≡ amount0_up lo hi l
unfolding get_amount0_delta
get_amount0_delta-up lo hi l p q r s =
    rw (not-ltb lo hi q, exact_width lo hi q (omega arith), shift_fits l (omega arith))
      (nested_up (l * 2 ^ 96) (hi - lo) lo hi (omega arith) (omega arith) (omega arith) p q)

-- For two prices in order, below 2 ^ 160, and a liquidity below 2 ^ 128, the amount of token 1
-- rounded up is the exact product of liquidity and distance over 2 ^ 96, rounded up.
pub get_amount1_delta-up :
    (lo hi l : ℕ)
    → lo ≤ hi
    → hi < 2 ^ 160
    → l < 2 ^ 128
    → get_amount1_delta lo hi l true ≡ ceil_div (l * (hi - lo)) (2 ^ 96)
unfolding get_amount1_delta
get_amount1_delta-up lo hi l q r s =
    rw (not-ltb lo hi q, exact_width lo hi q (omega arith))
      (round_up_fits l (hi - lo) (2 ^ 96) (2 ^ 192) (omega arith) (omega arith) (omega arith)
        (omega arith)
        (omega (arith, mul-le l (hi - lo) (2 ^ 128) (2 ^ 160) (omega arith) (omega arith)))
        (omega arith))

-- A range costs at most `amt` where `amt` is enough by the real-valued formula.
pub amount0_up-le :
    (lo hi l amt : ℕ)
    → 0 < lo
    → lo ≤ hi
    → l * 2 ^ 96 * (hi - lo) ≤ amt * lo * hi
    → amount0_up lo hi l ≤ amt
amount0_up-le lo hi l amt p q h =
    ceil_div-le amt (ceil_div (l * 2 ^ 96 * (hi - lo)) hi) lo p
      (ceil_div-le (amt * lo) (l * 2 ^ 96 * (hi - lo)) hi (omega arith) h)

le-amount0_up :
    (lo hi l : ℕ) → 0 < lo → lo ≤ hi → l * 2 ^ 96 * (hi - lo) ≤ amount0_up lo hi l * lo * hi
le-amount0_up lo hi l p q =
    let inner = ceil_div (l * 2 ^ 96 * (hi - lo)) hi in
    let a = le-ceil_div (l * 2 ^ 96 * (hi - lo)) hi (omega arith) in
    let b = le-ceil_div inner lo p in
    omega (arith, a, mul-le inner hi (ceil_div inner lo * lo) hi b (omega arith))

-- The price after `amt` of token 0 stands where the real-valued formula puts it, rounded up.
Reaches : ℕ → ℕ → ℕ → ℕ → Type 0
Reaches cur l amt nx = (l * 2 ^ 96 * cur ≤ nx * (l * 2 ^ 96 + amt * cur)) × (nx ≤ cur) × (0 < nx)

main_reach :
    (n p cur : ℕ)
    → 0 < n
    → 0 < cur
    → let nx = ceil_div (n * cur) (n + p) in (n * cur ≤ nx * (n + p)) × (nx ≤ cur) × (0 < nx)
main_reach n p cur hn hc = (
  le-ceil_div (n * cur) (n + p) (omega arith),
  ceil_div-le cur (n * cur) (n + p) (omega arith)
      (omega (arith, mul-le cur n cur (n + p) (omega arith) (omega arith))),
  ceil_div-pos (n * cur) (n + p) (pos_mul n cur hn hc) (omega arith),
)

fallback_reach :
    (n cur amt : ℕ)
    → 0 < n
    → 0 < cur
    → 0 < amt
    → let nx = ceil_div (n * 1) (n / cur + amt) in
      (n * cur ≤ nx * (n + amt * cur)) × (nx ≤ cur) × (0 < nx)
fallback_reach n cur amt hn hc ha =
    let d = n / cur + amt in
    let c = ceil_div (n * 1) d in
    let up = le-ceil_div (n * 1) d (omega arith) in
    (
      omega (
        arith,
        mul-le (n * 1) cur (c * d) cur up (omega arith),
        mul-le c (n / cur * cur) c n (omega arith) (div-mul-le n cur),
      ),
      ceil_div-le cur (n * 1) d (omega arith)
          (omega (arith, lt-div-mul n cur hc, mul-le 1 cur amt cur ha (omega arith))),
      ceil_div-pos (n * 1) d (omega arith) (omega arith),
    )

reach_cost :
    (n cur amt nx : ℕ) → nx ≤ cur → n * cur ≤ nx * (n + amt * cur) → n * (cur - nx) ≤ amt * nx * cur
reach_cost n cur amt nx h r = grind arith

reach_far :
    (n cur amt nx tgt : ℕ)
    → nx ≤ tgt
    → n * (cur - nx) ≤ amt * nx * cur
    → n * (cur - tgt) ≤ amt * tgt * cur
reach_far n cur amt nx tgt h r = omega (
  arith,
  mul-le n (cur - tgt) n (cur - nx) (omega arith) (omega arith),
  mul-le (amt * nx) cur (amt * tgt) cur (mul-le amt nx amt tgt (omega arith) h) (omega arith),
)

shift96 : (l : ℕ) → 0 < l → l < 2 ^ 128 → (0 < l * 2 ^ 96) × (l * 2 ^ 96 < 2 ^ 224)
shift96 l p q = omega arith

-- Where the two tests pass, neither the product nor the sum has wrapped.
tests_exact :
    (n cur amt : ℕ)
    → n < 2 ^ 224
    → ((mul256 amt cur / amt == cur) && leb n (add256 n (mul256 amt cur))) ≡ true
    → (add256 n (mul256 amt cur) ≡ n + amt * cur) × (n + amt * cur < 2 ^ 256)
tests_exact n cur amt hn t =
    let q : mul256 amt cur / amt ≡ cur = ground arith in
    let le : n ≤ add256 n (mul256 amt cur) = ground arith in
    let big = div-mul-le (mul256 amt cur) amt in
    let exact : amt * cur ≤ mul256 amt cur = omega (arith, big, ap (λ (y : ℕ). y * amt) q) in
    (omega arith, omega arith)

main_value :
    (n cur amt : ℕ)
    → 0 < n
    → n < 2 ^ 224
    → 0 < cur
    → cur < 2 ^ 160
    → n + amt * cur < 2 ^ 256
    → unwrap_or (mul_div_round_up n cur (n + amt * cur)) 0 ≡ ceil_div (n * cur) (n + amt * cur)
main_value n cur amt pn hn pc hc d =
    round_up_fits n cur (n + amt * cur) cur (omega arith) (omega arith) d (omega arith)
      (omega (arith, mul-le cur n cur (n + amt * cur) (omega arith) (omega arith))) (omega arith)

fallback_value :
    (n cur amt : ℕ)
    → n < 2 ^ 224
    → 0 < amt
    → amt < 2 ^ 160
    → unwrap_or (mul_div_round_up n 1 (add256 (n / cur) amt)) 0 ≡ ceil_div (n * 1) (n / cur + amt)
fallback_value n cur amt hn pa ha =
    let small : n / cur ≤ n = grind arith in
    let e : add256 (n / cur) amt ≡ n / cur + amt = omega arith in
    rw e (
      round_up_fits n 1 (n / cur + amt) n (omega arith) (omega arith) (omega arith) (omega arith)
        (omega (arith, mul-le n 1 n (n / cur + amt) (omega arith) (omega arith))) (omega arith))

div_done : (a d : ℕ) → 0 < d → div_run a d ≡ done (a / d)
div_done a d h = ground arith

next0_reach :
    (cur l amt : ℕ)
    → 0 < cur
    → cur < 2 ^ 160
    → 0 < l
    → l < 2 ^ 128
    → 0 < amt
    → amt < 2 ^ 160
    → Returns (get_next_sqrt_price_from_input cur l amt true) (Reaches cur l amt)
unfolding get_next_sqrt_price_from_input Reaches
next0_reach cur l amt hc bc hl bl ha ba =
    let n : ℕ = l * 2 ^ 96 in
    rw (shift_fits l (omega arith), div_done (mul256 amt cur) amt ha)
      (elim (Bool-cases ((mul256 amt cur / amt == cur) && leb n (add256 n (mul256 amt cur)))) [
        | inl t ↦
            let (sum, small) = tests_exact n cur amt (omega arith) t in
            rw (t, sum, main_value n cur amt (omega arith) (omega arith) hc bc small)
              (main_reach n (amt * cur) cur (omega arith) hc)
        | inr f ↦
            rw (f, div_done n cur hc, fallback_value n cur amt (omega arith) ha ba)
              (fallback_reach n cur amt (omega arith) hc ha)
      ])

next0_cost :
    (cur l amt tgt nx : ℕ)
    → 0 < tgt
    → tgt ≤ cur
    → Reaches cur l amt nx
    → amt < amount0_up tgt cur l
    → ((tgt ≤ nx) × (nx ≤ cur)) × (amount0_up nx cur l ≤ amt)
unfolding Reaches
next0_cost cur l amt tgt nx ht le r short =
    let c = reach_cost (l * 2 ^ 96) cur amt nx r.1 r.0 in
    elim (dec_lt nx tgt) [
      | yes below ↦
          let far = reach_far (l * 2 ^ 96) cur amt nx tgt (omega arith) c in
          absurd (omega (arith, amount0_up-le tgt cur l amt ht le far))
      | no above ↦ ((omega arith, r.1), amount0_up-le nx cur l amt r.2 r.1 c)
    ]

-- An input of token 0 never costs more than what is put in.
pub next0_bounds :
    (cur l amt tgt : ℕ)
    → 0 < tgt
    → tgt ≤ cur
    → cur < 2 ^ 160
    → 0 < l
    → l < 2 ^ 128
    → 0 < amt
    → amt < 2 ^ 160
    → amt < amount0_up tgt cur l
    → Returns
        (get_next_sqrt_price_from_input cur l amt true)
        (λ nx. ((tgt ≤ nx) × (nx ≤ cur)) × (amount0_up nx cur l ≤ amt))
next0_bounds cur l amt tgt ht le bc hl bl ha ba short =
    elim (Run-cases (get_next_sqrt_price_from_input cur l amt true)) [
      | inr e ↦ absurd (rw e at (next0_reach cur l amt (omega arith) bc hl bl ha ba))
      | inl (nx, e) ↦ rw e (cost nx (rw e at (next0_reach cur l amt (omega arith) bc hl bl ha ba)))
    ]
  where
    cost : (nx : ℕ) → Reaches cur l amt nx → ((tgt ≤ nx) × (nx ≤ cur)) × (amount0_up nx cur l ≤ amt)
    cost nx r = next0_cost cur l amt tgt nx ht le r short

-- An input of token 1 never costs more than what is put in.
pub next1_bounds :
    (cur l amt tgt : ℕ)
    → cur ≤ tgt
    → tgt < 2 ^ 160
    → 0 < l
    → l < 2 ^ 128
    → amt < 2 ^ 160
    → amt < ceil_div (l * (tgt - cur)) (2 ^ 96)
    → Returns
        (get_next_sqrt_price_from_input cur l amt false)
        (λ nx. ((cur ≤ nx) × (nx ≤ tgt)) × (ceil_div (l * (nx - cur)) (2 ^ 96) ≤ amt))
unfolding get_next_sqrt_price_from_input
next1_bounds cur l amt tgt le bt hl bl ba short =
    let far : amt * 2 ^ 96 < l * (tgt - cur) =
      omega (arith, ceil_div-le amt (l * (tgt - cur)) (2 ^ 96)) in
    let q : ℕ = amt * 2 ^ 96 / l in
    let ql : q ≤ tgt - cur = div-le (tgt - cur) (amt * 2 ^ 96) l hl (omega arith) in
    let same : cur + q - cur ≡ q = omega arith in
    let fits : add256 cur q ≡ cur + q = omega arith in
    rw (shift_fits amt ba, div_done (amt * 2 ^ 96) l hl, fits)
      (
        (omega arith, omega arith),
        ceil_div-le amt (l * (cur + q - cur)) (2 ^ 96) (omega arith)
            (omega (arith, ap (λ (y : ℕ). l * y) same, div-mul-le (amt * 2 ^ 96) l)),
      )

-- ===== src/MathEngine/Impact/Laws.antt =====
-- The projected input is priced by the same formula as the pool's own swaps.
use sovereign_shadow_mev.Prelude.{
  ℕ, ◌+◌, ◌-◌, ◌*◌, ◌/◌, ◌^◌, ◌≤◌, ◌<◌, ◌≡◌, arith, sym, subst, some, false, true,
}
use sovereign_shadow_mev.Prelude.Division.{div-mul-le, div-le, le-div, lt-div-mul, mul-le}
use sovereign_shadow_mev.Uint.{add256, mul256}
use sovereign_shadow_mev.MathEngine.V2.{get_v2_output}
use sovereign_shadow_mev.MathEngine.V2.Laws.{exact_out, get_v2_output-value}
use sovereign_shadow_mev.MathEngine.Impact.{paid_in, reserves_after}

-- The exact input.
abbrev exact_in : ℕ → ℕ → ℕ → ℕ
exact_in r n out = r * out * 1000 / (n * 997)

paid_in-exact :
    (r n out : ℕ) → r < 2 ^ 112 → n < 2 ^ 112 → out < 2 ^ 112 → paid_in r n out ≡ exact_in r n out
unfolding paid_in
paid_in-exact r n out hr hn ho =
    let m = mul-le r out (2 ^ 112) (2 ^ 112) (omega arith) (omega arith) in
    let x : mul256 r out ≡ r * out = omega arith in
    let y : mul256 (r * out) 1000 ≡ r * out * 1000 = omega arith in
    let z : mul256 n 997 ≡ n * 997 = omega arith in rw (x, y, z)

-- By the formula, what is paid for `out` buys no more than `out`.
exact_in_buys : (r n out : ℕ) → 0 < r → 0 < n → exact_out (exact_in r n out) r (n + out) ≤ out
exact_in_buys r n out pr pn =
    let i = exact_in r n out in
    let paid = div-mul-le (r * out * 1000) (n * 997) in
    div-le out (i * 997 * (n + out)) (r * 1000 + i * 997) (omega arith) (omega (arith, paid, pr))

-- By the formula, one unit more buys at least `out`.
exact_in_suffices :
    (r n out : ℕ) → 0 < r → 0 < n → out ≤ exact_out (exact_in r n out + 1) r (n + out)
exact_in_suffices r n out pr pn =
    let i = exact_in r n out in
    let short = lt-div-mul (r * out * 1000) (n * 997) (omega arith) in
    le-div out ((i + 1) * 997 * (n + out)) (r * 1000 + (i + 1) * 997) (omega arith)
      (omega (arith, short, pr))

exact_in-le : (r n out : ℕ) → 0 < n → exact_in r n out ≤ r * out * 1000
exact_in-le r n out p = omega (
  arith,
  div-mul-le (r * out * 1000) (n * 997),
  mul-le (exact_in r n out) 1 (exact_in r n out) (n * 997) (omega arith) (omega arith),
)

-- `paid` is the price of `out` by a quote of outputs: it buys no more than that, and one unit more buys at least
-- that.
abbrev pub IsPriceOf : (ℕ → ℕ) → ℕ → ℕ → Type 0
IsPriceOf quote paid out = (quote paid ≤ out) × (out ≤ quote (paid + 1))

-- For reserves below 2 ^ 112, the one that is paid in positive, and a pending swap that takes a
-- positive amount, less than the other reserve, of token 0, or of token 1 alone, the projection
-- lowers that reserve by exactly the amount and raises the other one by an input that is the same
-- for both tokens, and that by the pool's own formula buys no more than the amount, while one unit
-- more buys at least the amount.
pub reserves_after-priced :
    (r_in r_out out other : ℕ)
    → r_in < 2 ^ 112
    → r_out < 2 ^ 112
    → 0 < r_in
    → 0 < out
    → out < r_out
    → (paid : ℕ) × (reserves_after r_out r_in out other ≡ some (r_out - out, r_in + paid))
      × (reserves_after r_in r_out 0 out ≡ some (r_in + paid, r_out - out))
      × IsPriceOf (λ a. get_v2_output a r_out r_in false) paid out
      × IsPriceOf (λ a. get_v2_output a r_in r_out true) paid out
unfolding reserves_after
reserves_after-priced r_in r_out out other h_in h_out p_in p_out less =
    let n = r_out - out in
    let paid = exact_in r_in n out in
    let split : r_out ≡ n + out = omega arith in
    let exact = paid_in-exact r_in n out h_in (omega arith) (omega arith) in
    let small = exact_in-le r_in n out (omega arith) in
    let m = mul-le r_in out (2 ^ 112) (2 ^ 112) (omega arith) (omega arith) in
    let sum : add256 r_in paid ≡ r_in + paid = omega arith in
    let value = λ (a : ℕ) (fits : a < 2 ^ 256).
      get_v2_output-value a r_out r_in false fits h_out h_in (omega arith) p_in in
    let mirrored = λ (a : ℕ) (fits : a < 2 ^ 256).
      get_v2_output-value a r_in r_out true fits h_in h_out p_in (omega arith) in
    let buys : exact_out paid r_in r_out ≤ out =
      subst (λ r. exact_out paid r_in r ≤ out) (sym split)
        (exact_in_buys r_in n out p_in (omega arith)) in
    let suffices : out ≤ exact_out (paid + 1) r_in r_out =
      subst (λ r. out ≤ exact_out (paid + 1) r_in r) (sym split)
        (exact_in_suffices r_in n out p_in (omega arith)) in
    (
      paid,
      rw (exact, sum) (ground arith),
      rw (exact, sum) (ground arith),
      (rw (value paid (omega arith)) buys, rw (value (paid + 1) (omega arith)) suffices),
      (rw (mirrored paid (omega arith)) buys, rw (mirrored (paid + 1) (omega arith)) suffices),
    )

-- ===== src/MathEngine/Golden/Laws.antt =====
-- The golden section search stays in its interval, and the profit that it returns is the objective's at
-- the input that it returns.
use sovereign_shadow_mev.Prelude.{
  ℕ, zero, suc, ◌+◌, ◌-◌, ◌*◌, ◌/◌, ◌^◌, ◌≤◌, ◌<◌, ◌≡◌, refl, arith, ltb, ◌⊎◌, inl, inr, false,
  Bool-cases,
}
use sovereign_shadow_mev.Prelude.Int.{ℤ, pos, pos_part, leb_ℤ, ltb_ℤ}
use sovereign_shadow_mev.Uint.{add256, sub256}
use sovereign_shadow_mev.MathEngine.Golden.{
  phi_num, phi_den, tolerance, Section, golden, lower_probe, upper_probe, section_start,
  section_round, section_loop, section_end, find_optimal_input,
}

-- The golden part of a width.
abbrev part : ℕ → ℕ
part w = w * phi_num / phi_den

-- `p` is the golden part of `w` but for an error of `e`.
abbrev Near : ℕ → ℕ → ℕ → Type 0
Near e w p = (p ≤ part w + e) × (part w ≤ p + e)

-- One of the two probes is exact, and the other one is off by at most `e`.
abbrev Probes : ℕ → ℕ → ℕ → ℕ → Type 0
Probes e w p q = ((q ≡ part w) × Near e w p) ⊎ ((p ≡ part w) × Near e w q)

abbrev widest : ℕ
widest = 10 ^ 22

abbrev drift : ℕ
drift = 10 ^ 8

-- Both probes lie inside a wide interval.
Probes-inside : (e w p q : ℕ) → tolerance ≤ w → e ≤ 40 * drift → Probes e w p q → (p ≤ w) × (q ≤ w)
Probes-inside e w p q t k h = omega arith

-- The probe that is kept goes wrong by at most `drift` more.
keep_probe :
    (e w p q : ℕ)
    → w ≤ widest
    → tolerance ≤ w
    → e ≤ 40 * drift
    → Probes e w p q
    → Near (e + drift) p (w - q)
keep_probe e w p q m t k h = omega arith

record Inv (lo hi e : ℕ) (s : Section) : Type 0 where
  above : lo ≤ s.a
  below : s.b ≤ hi
  ordered : s.a ≤ s.b
  wide : s.b - s.a ≤ widest
  c_below : s.c ≤ s.b
  d_above : s.a ≤ s.d
  probes : Probes e (s.b - s.a) (s.d - s.a) (s.b - s.c)

swap-Probes : (e w p q : ℕ) → Probes e w p q → Probes e w q p
swap-Probes e w p q (inl h) = inr h
swap-Probes e w p q (inr h) = inl h

exact_golden : (a b : ℕ) → a ≤ b → b < 2 ^ 200 → b - a ≤ widest → golden a b ≡ part (b - a)
exact_golden a b p q r = let e : sub256 b a ≡ b - a = omega arith in rw e (omega arith)

part-le : (w : ℕ) → part w ≤ w
part-le w = omega arith

-- The probe that is computed anew is exact.
lower_exact :
    (a b : ℕ)
    → a ≤ b
    → b < 2 ^ 200
    → b - a ≤ widest
    → (lower_probe a b ≤ b) × (b - lower_probe a b ≡ part (b - a))
lower_exact a b p q r = rw (exact_golden a b p q r) (omega (arith, part-le (b - a)))

upper_exact :
    (a b : ℕ)
    → a ≤ b
    → b < 2 ^ 200
    → b - a ≤ widest
    → (a ≤ upper_probe a b) × (upper_probe a b - a ≡ part (b - a))
upper_exact a b p q r = rw (exact_golden a b p q r) (omega (arith, part-le (b - a)))

not_yet : (a b : ℕ) → a ≤ b → b < 2 ^ 200 → ltb (sub256 b a) tolerance ≡ false → tolerance ≤ b - a
not_yet a b p q h = let e : sub256 b a ≡ b - a = omega arith in ground (arith, e)

positive_value : (z : ℤ) → leb_ℤ z (pos 0) ≡ false → (z ≡ pos (pos_part z)) × (0 < pos_part z)
positive_value z h = ground arith

module _ (f : ℕ → ℤ) (lo hi : ℕ) (small : hi < 2 ^ 200) where
  start-Inv : lo ≤ hi → hi - lo ≤ widest → Inv lo hi 0 (section_start f lo hi)
  unfolding section_start
  start-Inv h w =
      let l = lower_exact lo hi h small w in
      let u = upper_exact lo hi h small w in
      record {
        above = omega arith;
        below = omega arith;
        ordered = h;
        wide = w;
        c_below = l.0;
        d_above = u.0;
        probes = inl (l.1, (omega arith, omega arith));
      }

  left-Inv :
      (e : ℕ) (a b c d : ℕ) (x y x' y' : ℤ)
      → e ≤ 40 * drift
      → tolerance ≤ b - a
      → Inv lo hi e (record { a = a; b = b; c = c; d = d; f_c = x; f_d = y })
      → Inv lo hi
          (e + drift)
          (record { a = a; b = d; c = lower_probe a d; d = c; f_c = x'; f_d = y' })
  left-Inv e a b c d x y x' y' k t v =
      let i = Probes-inside e (b - a) (d - a) (b - c) t k v.probes in
      let n = keep_probe e (b - a) (d - a) (b - c) v.wide t k v.probes in
      let l =
        lower_exact a d v.d_above (omega (arith, v.below, v.ordered)) (omega (arith, v.wide, i)) in
      record {
        above = v.above;
        below = omega (arith, v.below, v.ordered);
        ordered = v.d_above;
        wide = omega (arith, v.wide);
        c_below = l.0;
        d_above = omega (arith, v.c_below, v.ordered);
        probes =
            inl (l.1, (omega (arith, v.c_below, v.ordered), omega (arith, v.c_below, v.ordered)));
      }

  right-Inv :
      (e : ℕ) (a b c d : ℕ) (x y x' y' : ℤ)
      → e ≤ 40 * drift
      → tolerance ≤ b - a
      → Inv lo hi e (record { a = a; b = b; c = c; d = d; f_c = x; f_d = y })
      → Inv lo hi
          (e + drift)
          (record { a = c; b = b; c = d; d = upper_probe c b; f_c = x'; f_d = y' })
  right-Inv e a b c d x y x' y' k t v =
      let i = Probes-inside e (b - a) (d - a) (b - c) t k v.probes in
      let n =
        keep_probe e (b - a) (b - c) (d - a) v.wide t k
          (swap-Probes e (b - a) (d - a) (b - c) v.probes) in
      let u = upper_exact c b v.c_below (omega (arith, v.below)) (omega (arith, v.wide, i)) in
      record {
        above = omega (arith, v.above, v.c_below, v.ordered);
        below = v.below;
        ordered = v.c_below;
        wide = omega (arith, v.wide, i);
        c_below = omega (arith, v.d_above, v.ordered, i);
        d_above = u.0;
        probes =
            inr (
              u.1,
              (omega (arith, v.d_above, v.ordered, i), omega (arith, v.d_above, v.ordered, i)),
            );
      }

  round-Inv :
      (e : ℕ) (s : Section)
      → e ≤ 40 * drift
      → tolerance ≤ s.b - s.a
      → Inv lo hi e s
      → Inv lo hi (e + drift) (section_round f s)
  unfolding section_round
  round-Inv e s k t v = elim (Bool-cases (ltb_ℤ s.f_d s.f_c)) [
    | inl less ↦
        rw less (left-Inv e s.a s.b s.c s.d s.f_c s.f_d (f (lower_probe s.a s.d)) s.f_c k t v)
    | inr more ↦
        rw more (right-Inv e s.a s.b s.c s.d s.f_c s.f_d s.f_d (f (upper_probe s.c s.b)) k t v)
  ]

  loop-Inv :
      (n e : ℕ) (s : Section)
      → e + n * drift ≤ 40 * drift
      → Inv lo hi e s
      → (lo ≤ (section_loop f n s).a)
        × ((section_loop f n s).a ≤ (section_loop f n s).b)
        × ((section_loop f n s).b ≤ hi)
  unfolding section_loop
  loop-Inv zero e s k v = (v.above, v.ordered, v.below)
  loop-Inv (suc n) e s k v = elim (Bool-cases (ltb (sub256 s.b s.a) tolerance)) [
    | inl stop ↦ rw stop (v.above, v.ordered, v.below)
    | inr go ↦
        let t : tolerance ≤ s.b - s.a = not_yet s.a s.b v.ordered (omega (arith, v.below)) go in
        rw go (
          loop-Inv n (e + drift) (section_round f s) (omega arith)
            (round-Inv e s (omega arith) t v))
  ]

  between : (a b : ℕ) → lo ≤ a → a ≤ b → b ≤ hi → (lo ≤ add256 a b / 2) × (add256 a b / 2 ≤ hi)
  between a b p q r = omega arith

  -- For any objective, on an interval of at most 10 ^ 22 wei that ends below 2 ^ 200, the answer is
  -- either (0, 0), or an input inside the interval together with the objective's value at that
  -- input, which is positive.
  pub find_optimal_input_sound :
      lo ≤ hi
      → hi - lo ≤ 10 ^ 22
      → (find_optimal_input f lo hi ≡ (0, 0))
        ⊎ ((lo ≤ (find_optimal_input f lo hi).0)
            × ((find_optimal_input f lo hi).0 ≤ hi)
            × (f (find_optimal_input f lo hi).0 ≡ pos (find_optimal_input f lo hi).1)
            × (0 < (find_optimal_input f lo hi).1))
  unfolding find_optimal_input section_end
  find_optimal_input_sound h w =
      let s = section_loop f 40 (section_start f lo hi) in
      let opt : ℕ = add256 s.a s.b / 2 in
      let v = loop-Inv 40 0 (section_start f lo hi) (omega arith) (start-Inv h w) in
      let m : (lo ≤ opt) × (opt ≤ hi) = between s.a s.b v.0 v.1 v.2 in
      elim (Bool-cases (leb_ℤ (f opt) (pos 0))) [
        | inl loss ↦ rw loss (inl refl)
        | inr gain ↦ let z = positive_value (f opt) gain in rw gain (inr (m.0, m.1, z.0, z.1))
      ]

-- ===== src/Profit/Feed.antt =====
-- src/gas_feed.rs: the priority fee from the median of the last five estimates.
use sovereign_shadow_mev.Prelude.{
  ℕ, zero, suc, subst, Run-cases, ◌*◌, ◌/◌, ◌^◌, ◌≤◌, ◌<◌, ◌≡◌, refl, arith, List, [], ◌∷◌, ◌++◌,
  length, drop, leb, if◌then◌else◌, Run, done, ◌>>=◌, at_run, Returns, length-append, length-drop,
  Bool-cases, inl, inr,
}
use sovereign_shadow_mev.Uint.{mul256}

unfoldable pub sorted_insert : ℕ → List ℕ → List ℕ
sorted_insert x [] = x ∷ []
sorted_insert x (y ∷ ys) = let rest = sorted_insert x ys in if leb x y then x ∷ y ∷ ys else y ∷ rest

-- `sort()` on numbers: equal ones cannot be told apart, so any sort gives the same list.
unfoldable pub sort : List ℕ → List ℕ
sort [] = []
sort (x ∷ xs) = sorted_insert x (sort xs)

-- The history holds five estimates at most; the oldest one leaves.
unfoldable pub push_history : List ℕ → ℕ → List ℕ
push_history h p = (if leb 5 (length h) then drop 1 h else h) ++ p ∷ []

-- What is sent on: 112 percent of the median.
unfoldable pub priority_of : List ℕ → Run ℕ
priority_of h = at_run (sort h) (length (sort h) / 2) >>= λ median. done (mul256 median 112 / 100)

-- One estimate: the new history, and what is sent.
unfoldable pub on_priority : List ℕ → ℕ → List ℕ × Run ℕ
on_priority h p = (push_history h p, priority_of (push_history h p))

length-sorted_insert : (x : ℕ) (ys : List ℕ) → length (sorted_insert x ys) ≡ suc (length ys)
unfolding sorted_insert
length-sorted_insert x [] = refl
length-sorted_insert x (y ∷ ys) = ground (arith, length-sorted_insert x ys)

length-sort : (xs : List ℕ) → length (sort xs) ≡ length xs
unfolding sort
length-sort [] = refl
length-sort (x ∷ xs) = omega (arith, length-sorted_insert x (sort xs), length-sort xs)

-- All numbers of a list lie between two bounds.
abbrev pub Within : ℕ → ℕ → List ℕ → Type 0
Within lo hi [] = Unit
Within lo hi (x ∷ xs) = (lo ≤ x) × (x ≤ hi) × Within lo hi xs

Within-sorted_insert :
    (lo hi x : ℕ) (ys : List ℕ)
    → lo ≤ x
    → x ≤ hi
    → Within lo hi ys
    → Within lo hi (sorted_insert x ys)
unfolding sorted_insert
Within-sorted_insert lo hi x [] p q h = (p, q, tt)
Within-sorted_insert lo hi x (y ∷ ys) p q h = elim (Bool-cases (leb x y)) [
  | inl e ↦ rw e (p, q, h)
  | inr e ↦ rw e (h.0, h.1, Within-sorted_insert lo hi x ys p q h.2)
]

Within-sort : (lo hi : ℕ) (xs : List ℕ) → Within lo hi xs → Within lo hi (sort xs)
unfolding sort
Within-sort lo hi [] h = h
Within-sort lo hi (x ∷ xs) h =
    Within-sorted_insert lo hi x (sort xs) h.0 h.1 (Within-sort lo hi xs h.2)

Within-get :
    (lo hi : ℕ) (xs : List ℕ) (i : ℕ)
    → Within lo hi xs
    → i < length xs
    → Returns (at_run xs i) (λ x. (lo ≤ x) × (x ≤ hi))
Within-get lo hi [] i h p = absurd (omega (arith, p))
Within-get lo hi (x ∷ xs) zero h p = (h.0, h.1)
Within-get lo hi (x ∷ xs) (suc i) h p = Within-get lo hi xs i h.2 (omega arith)

Within-append :
    (lo hi : ℕ) (xs : List ℕ) (p : ℕ)
    → Within lo hi xs
    → lo ≤ p
    → p ≤ hi
    → Within lo hi (xs ++ p ∷ [])
Within-append lo hi [] p h a b = (a, b, tt)
Within-append lo hi (x ∷ xs) p h a b = (h.0, h.1, Within-append lo hi xs p h.2 a b)

Within-tail : (lo hi : ℕ) (xs : List ℕ) → Within lo hi xs → Within lo hi (drop 1 xs)
Within-tail lo hi [] h = tt
Within-tail lo hi (x ∷ xs) h = h.2

Within-push_history :
    (lo hi : ℕ) (h : List ℕ) (p : ℕ)
    → Within lo hi h
    → lo ≤ p
    → p ≤ hi
    → Within lo hi (push_history h p)
unfolding push_history
Within-push_history lo hi h p inside a b = elim (Bool-cases (leb 5 (length h))) [
  | inl e ↦ rw e (Within-append lo hi (drop 1 h) p (Within-tail lo hi h inside) a b)
  | inr e ↦ rw e (Within-append lo hi h p inside a b)
]

length-push_history :
    (h : List ℕ) (p : ℕ)
    → length h ≤ 5
    → (0 < length (push_history h p)) × (length (push_history h p) ≤ 5)
unfolding push_history
length-push_history h p few = elim (Bool-cases (leb 5 (length h))) [
  | inl e ↦ rw (e, length-append (drop 1 h) (p ∷ []), length-drop 1 h) (omega arith, omega arith)
  | inr e ↦ rw (e, length-append h (p ∷ [])) (ground arith)
]

priority_of-range :
    (lo hi : ℕ) (h : List ℕ)
    → 0 < length h
    → Within lo hi h
    → hi < 2 ^ 240
    → Returns (priority_of h) (λ fee. (lo * 112 / 100 ≤ fee) × (fee ≤ hi * 112 / 100))
unfolding priority_of
priority_of-range lo hi h some_there inside small =
    let same = length-sort h in
    let at =
      Within-get lo hi (sort h) (length (sort h) / 2) (Within-sort lo hi h inside) (omega arith) in
    elim (Run-cases (at_run (sort h) (length (sort h) / 2))) [
      | inl (x, e) ↦
          let (above, below) = subst (λ r. Returns r (λ y. (lo ≤ y) × (y ≤ hi))) e at in
          rw (e) (omega arith)
      | inr e ↦ absurd (subst (λ r. Returns r (λ y. (lo ≤ y) × (y ≤ hi))) e at)
    ]

-- From a history of at most five estimates, an estimate leaves at most five, and where all of them
-- lie between two bounds, the upper one below 2 ^ 240, a fee is sent without a panic and lies
-- between 112 percent of these bounds.
pub on_priority-range :
    (lo hi : ℕ) (h : List ℕ) (p : ℕ)
    → length h ≤ 5
    → Within lo hi h
    → lo ≤ p
    → p ≤ hi
    → hi < 2 ^ 240
    → (length (on_priority h p).0 ≤ 5)
      × Returns ((on_priority h p).1) (λ fee. (lo * 112 / 100 ≤ fee) × (fee ≤ hi * 112 / 100))
unfolding on_priority
on_priority-range lo hi h p few inside a b small =
    let (one, five) = length-push_history h p few in
    (
      five,
      priority_of-range lo hi (push_history h p) one (Within-push_history lo hi h p inside a b)
          small,
    )

-- ===== src/Detector/Rebuild/Laws.antt =====
-- The indices of the tokens and pools, and the edges that they know.
use sovereign_shadow_mev.Prelude.{
  ℕ, zero, suc, ◌+◌, ◌<◌, ◌≡◌, refl, ap, subst, arith, Bool, true, false, ◌||◌, Option, none, some,
  List, [], ◌∷◌, ◌++◌, length, get_elem?, contains, ◌==◌, if◌then◌else◌, Returns, Bool-cases, inl,
  inr,
}
use sovereign_shadow_mev.Mirror.Traders.{set_insert}
use sovereign_shadow_mev.Detector.Graph.{StaticEdge}
use sovereign_shadow_mev.Detector.Select.{Selected}
use sovereign_shadow_mev.Detector.Rebuild.{
  PoolEdge, pool_edges, token_set, pool_list, index_from, unwrap,
}

-- An index below `n`, or none where the key is not there.
abbrev pub InRange : Bool → ℕ → Option ℕ → Type 0
InRange there n none = there ≡ false
InRange there n (some j) = j < n

index_step :
    (found : Option ℕ) (i n : ℕ) (there here : Bool)
    → InRange there (suc i + n) found
    → InRange
        (here || there)
        (i + suc n)
        (elim found [ some j ↦ some j | none ↦ if here then some i else none ])
index_step none i n there true h = omega arith
index_step none i n there false h = h
index_step (some j) i n there here h = omega arith

pub index_from-InRange :
    (i : ℕ) (xs : List ℕ) (key : ℕ)
    → InRange (contains xs key) (i + length xs) (index_from i xs key)
unfolding index_from contains
index_from-InRange i [] key = refl
index_from-InRange i (x ∷ xs) key =
    index_step (index_from (suc i) xs key) i (length xs) (contains xs key) (x == key)
      (index_from-InRange (suc i) xs key)

pub unwrap-InRange :
    (there : Bool) (n : ℕ) (found : Option ℕ)
    → there ≡ true
    → InRange there n found
    → Returns (unwrap found) (λ j. j < n)
unwrap-InRange there n none e h = ground arith
unwrap-InRange there n (some j) e h = h

contains-set_insert :
    (y : ℕ) (xs : List ℕ) (x : ℕ) → contains (set_insert y xs) x ≡ ((y == x) || contains xs x)
unfolding set_insert contains
contains-set_insert y xs x = elim (Bool-cases (contains xs y)) [
  | inr absent ↦ rw absent refl
  | inl there ↦ elim (Bool-cases (y == x)) [
    | inr differs ↦ rw (there, differs) refl
    | inl same ↦
        let e : y ≡ x = ground arith in
        let found : contains xs x ≡ true = subst (λ z. contains xs z ≡ true) e there in
        rw (there, same) found
  ]
]

-- Both ends of an edge that the indices know.
abbrev pub IsKnown : List ℕ → List ℕ → PoolEdge → Type 0
IsKnown pools tokens e = (contains pools e.pool_address ≡ true) × (contains tokens e.token_b ≡ true)

abbrev pub AllKnown : List ℕ → List ℕ → List PoolEdge → Type 0
AllKnown pools tokens [] = Unit
AllKnown pools tokens (e ∷ es) = IsKnown pools tokens e × AllKnown pools tokens es

AllKnown-mono :
    (pools pools2 tokens tokens2 : List ℕ) (es : List PoolEdge)
    → ((x : ℕ) → contains pools x ≡ true → contains pools2 x ≡ true)
    → ((x : ℕ) → contains tokens x ≡ true → contains tokens2 x ≡ true)
    → AllKnown pools tokens es
    → AllKnown pools2 tokens2 es
AllKnown-mono pools pools2 tokens tokens2 [] h k known = tt
AllKnown-mono pools pools2 tokens tokens2 (e ∷ es) h k known = (
  (h e.pool_address known.0.0, k e.token_b known.0.1),
  AllKnown-mono pools pools2 tokens tokens2 es h k known.1,
)

pub pool_edges-AllKnown :
    (selected : List Selected)
    → AllKnown (pool_list selected) (token_set selected) (pool_edges selected)
unfolding pool_edges token_set contains
pool_edges-AllKnown [] = tt
pool_edges-AllKnown ((pool, reg) ∷ selected) =
    let inner = set_insert reg.token_0 (token_set selected) in
    let in0 = contains-set_insert reg.token_0 (token_set selected) in
    let in1 = contains-set_insert reg.token_1 inner in
    let at0 = in0 reg.token_0 in
    let at1 = in1 reg.token_1 in
    let then0 = in1 reg.token_0 in
    (
      (ground arith, ground arith),
      (
        (ground arith, ground arith),
        AllKnown-mono (pool_list selected) (pool ∷ pool_list selected) (token_set selected)
            (set_insert reg.token_1 inner) (pool_edges selected) (λ x h. ground arith)
            (λ x h. let a = in0 x in let b = in1 x in ground arith) (pool_edges-AllKnown selected),
      ),
    )

-- Both indices of an edge are in bounds.
abbrev pub AllInside : ℕ → ℕ → List StaticEdge → Type 0
AllInside p t [] = Unit
AllInside p t (e ∷ es) = (e.target_token_idx < t) × (e.pool_idx < p) × AllInside p t es

pub AllInside-append :
    (p t : ℕ) (xs ys : List StaticEdge)
    → AllInside p t xs
    → AllInside p t ys
    → AllInside p t (xs ++ ys)
AllInside-append p t [] ys h k = k
AllInside-append p t (x ∷ xs) ys h k = (h.0, h.1, AllInside-append p t xs ys h.2 k)

pub AllInside-at :
    (p t : ℕ) (es : List StaticEdge) (i : ℕ)
    → AllInside p t es
    → i < length es
    → (e : StaticEdge) × (get_elem? es i ≡ some e) × (e.target_token_idx < t) × (e.pool_idx < p)
AllInside-at p t [] i h lt = absurd (omega (arith, lt))
AllInside-at p t (e ∷ es) zero h lt = (e, refl, h.0, h.1)
AllInside-at p t (e ∷ es) (suc i) h lt = AllInside-at p t es i h.2 (omega arith)

-- An index from `i` on at which the key stands.
abbrev IsAt : ℕ → List ℕ → ℕ → Option ℕ → Type 0
IsAt i xs key none = Unit
IsAt i xs key (some k) = (j : ℕ) × (k ≡ i + j) × (j < length xs) × (get_elem? xs j ≡ some key)

IsAt-step :
    (found : Option ℕ) (i x key : ℕ) (xs : List ℕ)
    → IsAt (suc i) xs key found
    → IsAt i
        (x ∷ xs)
        key
        (elim found [ some j ↦ some j | none ↦ if x == key then some i else none ])
IsAt-step (some k) i x key xs (j, e, lt, there) = (suc j, omega arith, omega arith, there)
IsAt-step none i x key xs h = elim (Bool-cases (x == key)) [
  | inr differs ↦ rw differs tt
  | inl same ↦ let e : x ≡ key = ground arith in rw same (zero, omega arith, omega arith, ap some e)
]

index_from-IsAt : (xs : List ℕ) (key i : ℕ) → IsAt i xs key (index_from i xs key)
unfolding index_from
index_from-IsAt [] key i = tt
index_from-IsAt (x ∷ xs) key i =
    IsAt-step (index_from (suc i) xs key) i x key xs (index_from-IsAt xs key (suc i))

pub index_from-here :
    (xs : List ℕ) (key k : ℕ)
    → index_from 0 xs key ≡ some k
    → (k < length xs) × (get_elem? xs k ≡ some key)
index_from-here xs key k h =
    let (j, e, lt, there) = subst (IsAt 0 xs key) h (index_from-IsAt xs key 0) in
    (omega arith, subst (λ n. get_elem? xs n ≡ some key) {x = j} {y = k} (omega arith) there)

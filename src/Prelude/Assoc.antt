-- ===== src/Prelude/Assoc.antt =====
-- The concurrent maps of the sources as association lists over addresses. A key stands at most once
-- in what these operations build.
use sovereign_shadow_mev.Prelude.{
  ℕ, ◌≡◌, ◌≢◌, refl, arith, Bool, false, ◌||◌, Option, none, some, List, [], ◌∷◌, ◌==◌,
  if◌then◌else◌, Bool-cases, inl, inr, subst,
}

abbrev pub Assoc {ℓ} : Type ℓ → Type ℓ
Assoc V = List (ℕ × V)

module _ {ℓ} {V : Type ℓ} where
  -- `get`
  unfoldable pub lookup : ℕ → Assoc V → Option V
  lookup key [] = none
  lookup key ((here, value) ∷ entries) = if here == key then some value else lookup key entries

  -- `insert`, which writes over an entry that is there and adds a new one last.
  unfoldable pub insert : ℕ → V → Assoc V → Assoc V
  insert key value [] = (key, value) ∷ []
  insert key value ((here, old) ∷ entries) =
      let rest = insert key value entries in
      if here == key then (here, value) ∷ entries else (here, old) ∷ rest

  -- `entry(k).and_modify(f)`: nothing changes where the key is missing.
  unfoldable pub modify : ℕ → (V → V) → Assoc V → Assoc V
  modify k f [] = []
  modify k f ((j, w) ∷ m) = if j == k then (j, f w) ∷ m else (j, w) ∷ modify k f m

  -- `remove`
  unfoldable pub remove : ℕ → Assoc V → Assoc V
  remove k [] = []
  remove k ((j, w) ∷ m) = let rest = remove k m in if j == k then rest else (j, w) ∷ rest

  -- `retain`
  unfoldable pub retain : (ℕ → V → Bool) → Assoc V → Assoc V
  retain p [] = []
  retain p ((j, w) ∷ m) = let rest = retain p m in if p j w then (j, w) ∷ rest else rest

  -- `contains_key`
  unfoldable pub contains_key : ℕ → Assoc V → Bool
  contains_key k [] = false
  contains_key k ((j, w) ∷ m) = (j == k) || contains_key k m

  pub lookup-insert :
      (key other : ℕ) (value : V) (entries : Assoc V)
      → lookup other (insert key value entries)
        ≡ (if key == other then some value else lookup other entries)
  unfolding insert lookup
  lookup-insert key other value [] = refl
  lookup-insert key other value ((here, old) ∷ entries) =
      ground (arith, lookup-insert key other value entries)

  pub lookup-modify :
      (k j : ℕ) (f : V → V) (m : Assoc V)
      → lookup j (modify k f m)
        ≡ (if k == j then elim (lookup j m) [ none ↦ none | some v ↦ some (f v) ] else lookup j m)
  unfolding lookup modify
  lookup-modify k j f [] = ground arith
  lookup-modify k j f ((i, w) ∷ m) = ground (arith, lookup-modify k j f m)

  pub lookup-remove :
      (k j : ℕ) (m : Assoc V) → lookup j (remove k m) ≡ (if k == j then none else lookup j m)
  unfolding lookup remove
  lookup-remove k j [] = ground arith
  lookup-remove k j ((i, w) ∷ m) = ground (arith, lookup-remove k j m)

-- Every key stands once.
abbrev pub IsFresh {ℓ} : {V : Type ℓ} → ℕ → Assoc V → Type 0
IsFresh k [] = Unit
IsFresh k ((j, w) ∷ m) = (j ≢ k) × IsFresh k m

abbrev pub HasKeysOnce {ℓ} : {V : Type ℓ} → Assoc V → Type 0
HasKeysOnce [] = Unit
HasKeysOnce ((j, w) ∷ m) = IsFresh j m × HasKeysOnce m

module _ {ℓ} {V : Type ℓ} where
  pub lookup_fresh : (k : ℕ) (m : Assoc V) → IsFresh k m → lookup k m ≡ none
  unfolding lookup
  lookup_fresh k [] h = refl
  lookup_fresh k ((j, w) ∷ m) h = ground (arith, lookup_fresh k m h.1)

  -- With distinct keys `retain` keeps exactly the entries that pass.
  pub lookup-retain :
      (p : ℕ → V → Bool) (k : ℕ) (m : Assoc V)
      → HasKeysOnce m
      → lookup k (retain p m)
        ≡ elim (lookup k m) [ none ↦ none | some v ↦ if p k v then some v else none ]
  unfolding lookup retain
  lookup-retain p k [] h = refl
  lookup-retain p k ((j, w) ∷ m) h = elim (Bool-cases (j == k)) [
    | inl here ↦
        subst
          (λ i. lookup i (retain p ((j, w) ∷ m)) ≡ elim (lookup i ((j, w) ∷ m)) [
            | none ↦ none
            | some v ↦ if p i v then some v else none
          ])
          {x = j} {y = k} (ground arith)
          (ground (arith, lookup-retain p j m h.1, lookup_fresh j m h.0))
    | inr other ↦ ground (arith, lookup-retain p k m h.1)
  ]

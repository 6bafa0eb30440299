-- ===== src/Detector/Cycles/Laws.antt =====
-- What the search finds are cycles: chains of hops from the first token to the target, within the depth.
use sovereign_shadow_mev.Prelude.{
  ℕ, zero, suc, ◌+◌, ◌-◌, ◌≤◌, ◌<◌, ◌≡◌, refl, arith, ap, ◌∙◌, subst, sym, Bool, true, false, List,
  [], ◌∷◌, ◌++◌, length, length-append, get_elem?, Option, none, some, leb, ◌==◌, Run, done, panic,
  ◌>>=◌, at_run, Returns, Bool-cases, inl, inr,
}
use sovereign_shadow_mev.Prelude.Assoc.{Assoc}
use sovereign_shadow_mev.Models.{Hop}
use sovereign_shadow_mev.Mirror.Pools.{PoolState}
use sovereign_shadow_mev.Detector.Graph.{StaticEdge, StaticGraph, IsGraph}
use sovereign_shadow_mev.Detector.Cycles.{hop_of, take_edge, edge_loop, find_cycles_dfs, mark}

pub bind-Returns :
    {A B : Type 0} (m : Run A) (f : A → Run B) (P : A → Type 0) (Q : B → Type 0)
    → Returns m P
    → ((a : A) → P a → Returns (f a) Q)
    → Returns (m >>= f) Q
bind-Returns (done a) f P Q h k = k a h
bind-Returns panic f P Q h k = h

pub at_run-Returns :
    {A : Type 0} (xs : List A) (i : ℕ)
    → i < length xs
    → Returns (at_run xs i) (λ a. get_elem? xs i ≡ some a)
at_run-Returns [] i h = absurd (omega (arith, h))
at_run-Returns (x ∷ xs) zero h = refl
at_run-Returns (x ∷ xs) (suc i) h = at_run-Returns xs i (omega arith)

-- A chain of hops from one token to another.
abbrev pub IsChain : ℕ → List Hop → ℕ → Type 0
IsChain a [] b = a ≡ b
IsChain a (hop ∷ hops) b = (hop.token_in ≡ a) × IsChain hop.token_out hops b

IsChain-snoc :
    (a : ℕ) (hops : List Hop) (hop : Hop)
    → IsChain a hops hop.token_in
    → IsChain a (hops ++ hop ∷ []) hop.token_out
IsChain-snoc a [] hop h = (sym h, refl)
IsChain-snoc a (x ∷ hops) hop h = (h.0, IsChain-snoc x.token_out hops hop h.1)

-- Every path of a list is a chain from `a` to `b` with at least one hop and at most `n`.
abbrev pub AreCycles : ℕ → ℕ → ℕ → List (List Hop) → Type 0
AreCycles a b n [] = Unit
AreCycles a b n (p ∷ ps) = IsChain a p b × (0 < length p) × (length p ≤ n) × AreCycles a b n ps

AreCycles-append :
    (a b n : ℕ) (ps qs : List (List Hop))
    → AreCycles a b n ps
    → AreCycles a b n qs
    → AreCycles a b n (ps ++ qs)
AreCycles-append a b n [] qs h k = k
AreCycles-append a b n (p ∷ ps) qs h k = (h.0, h.1, h.2, AreCycles-append a b n ps qs h.3 k)

-- The end of an edge lies in the graph.
abbrev pub EdgeOk : StaticGraph → StaticEdge → Type 0
EdgeOk g e = (e.target_token_idx < length g.tokens) × (e.pool_idx < length g.pools)

pub some_inj : {A : Type 0} (x y : A) → Path (Option A) (some x) (some y) → x ≡ y
some_inj x y e = ap (λ o. elim o [ none ↦ x | some z ↦ z ]) e

module _ (graph : StaticGraph) (pools : Assoc PoolState) (target : ℕ) where
  pub hop_of-Returns :
      (current c : ℕ) (e : StaticEdge)
      → current < length graph.tokens
      → get_elem? graph.tokens current ≡ some c
      → EdgeOk graph e
      → Returns (hop_of graph pools target current e) (λ hop.
        (hop.token_in ≡ c) × (get_elem? graph.tokens e.target_token_idx ≡ some hop.token_out))
  unfolding hop_of
  hop_of-Returns current c e inside here ok =
      bind-Returns (at_run graph.pools e.pool_idx) _ _ _
        (at_run-Returns graph.pools e.pool_idx ok.1)
        (λ pool _.
          bind-Returns (at_run graph.tokens current) _ _ _
            (at_run-Returns graph.tokens current inside)
            (λ token_in is_in.
              bind-Returns (at_run graph.tokens e.target_token_idx) _ _ _
                (at_run-Returns graph.tokens e.target_token_idx ok.0)
                (λ token_out is_out. (some_inj token_in c (sym is_in ∙ here), is_out))))

  edge_loop-Returns :
      (a b most : ℕ) (step : StaticEdge → Run (List (List Hop))) (n i : ℕ)
      → IsGraph graph
      → i + n ≤ length graph.edges
      → ((e : StaticEdge) → EdgeOk graph e → Returns (step e) (AreCycles a b most))
      → Returns (edge_loop graph pools target step n i) (AreCycles a b most)
  unfolding edge_loop
  edge_loop-Returns a b most step zero i ok within each = tt
  edge_loop-Returns a b most step (suc n) i ok within each =
      bind-Returns (at_run graph.edges i) _ _ _ (at_run-Returns graph.edges i (omega arith))
        (λ e is_e.
          let (f, is_f, good0, good1) = ok.1 i (omega arith) in
          let same = some_inj f e (sym is_f ∙ is_e) in
          bind-Returns (step e) _ _ _ (each e (subst (EdgeOk graph) same (good0, good1)))
            (λ found cycles.
              bind-Returns (edge_loop graph pools target step n (suc i)) _ _ _
                (edge_loop-Returns a b most step n (suc i) ok (omega arith) each)
                (λ others more. AreCycles-append a b most found others cycles more)))

  take_edge-Returns :
      (a b most fuel : ℕ) (search : ℕ → List Hop → (ℕ → Bool) → Run (List (List Hop)))
      (current c : ℕ) (hops : List Hop) (visited : ℕ → Bool) (e : StaticEdge)
      → IsGraph graph
      → get_elem? graph.tokens target ≡ some b
      → current < length graph.tokens
      → get_elem? graph.tokens current ≡ some c
      → IsChain a hops c
      → length hops + suc fuel ≤ most
      → EdgeOk graph e
      → ((t d : ℕ) (longer : List Hop) (v : ℕ → Bool)
          → t < length graph.tokens
          → get_elem? graph.tokens t ≡ some d
          → IsChain a longer d
          → length longer + fuel ≤ most
          → Returns (search t longer v) (AreCycles a b most))
      → Returns (take_edge graph pools target search current hops visited e) (AreCycles a b most)
  unfolding take_edge
  take_edge-Returns a b most fuel search current c hops visited e ok goal inside here chain short
        good found =
      let fits : leb 4096 e.pool_idx ≡ false = ground arith in
      elim (Bool-cases (visited e.pool_idx)) [
        | inl seen ↦ rw (fits, seen) tt
        | inr fresh ↦
            rw (fits, fresh)
              (bind-Returns (hop_of graph pools target current e) _ _ _
                (hop_of-Returns current c e inside here good)
                (λ hop is_hop.
                  let longer = hops ++ hop ∷ [] in
                  let link =
                    IsChain-snoc a hops hop (subst (IsChain a hops) (sym is_hop.0) chain) in
                  let size = length-append hops (hop ∷ []) in
                  elim (Bool-cases (e.target_token_idx == target)) [
                    | inl back ↦
                        let same : e.target_token_idx ≡ target = ground arith in
                        let last =
                          some_inj hop.token_out b
                            (sym is_hop.1 ∙ ap (get_elem? graph.tokens) same ∙ goal) in
                        let one : leb 1 (length longer) ≡ true = ground arith in
                        rw (back, one)
                          (subst (IsChain a longer) last link, omega arith, omega arith, tt)
                    | inr on ↦ rw on (
                        found e.target_token_idx hop.token_out longer (mark visited e.pool_idx)
                          good.0 is_hop.1 link (omega arith))
                  ]))
      ]

  search-Returns :
      (a b k most t d : ℕ) (so_far : List Hop) (v : ℕ → Bool)
      → IsGraph graph
      → get_elem? graph.tokens target ≡ some b
      → t < length graph.tokens
      → get_elem? graph.tokens t ≡ some d
      → IsChain a so_far d
      → length so_far + k ≤ most
      → Returns (find_cycles_dfs graph pools target k t so_far v) (AreCycles a b most)
  unfolding find_cycles_dfs
  search-Returns a b zero most t d so_far v ok goal lt at link short = tt
  search-Returns a b (suc k) most t d so_far v ok goal lt at link short =
      let (start, stop, is_start, is_stop, order, within) = ok.0 t lt in
      rw (at_run, is_start, is_stop)
        (edge_loop-Returns a b most
          (take_edge graph pools target (find_cycles_dfs graph pools target k) t so_far v)
          (stop - start) start ok (omega arith)
          (λ e good.
            take_edge-Returns a b most k (find_cycles_dfs graph pools target k) t d so_far v e ok
              goal lt at link short good
              (λ t2 d2 longer v2 lt2 at2 link2 short2.
                search-Returns a b k most t2 d2 longer v2 ok goal lt2 at2 link2 short2)))

  -- In a graph whose indices are in bounds the search from any of its tokens, with hops so far that
  -- lead there from `a`, ends without a panic, and all that it finds are chains of hops that begin
  -- at `a` and end at the target's token, each of at least one hop and at most as many as the hops
  -- so far and the fuel together.
  pub find_cycles_dfs-cycles :
      (fuel a b current c : ℕ) (hops : List Hop) (visited : ℕ → Bool)
      → IsGraph graph
      → get_elem? graph.tokens target ≡ some b
      → current < length graph.tokens
      → get_elem? graph.tokens current ≡ some c
      → IsChain a hops c
      → Returns
          (find_cycles_dfs graph pools target fuel current hops visited)
          (AreCycles a b (length hops + fuel))
  find_cycles_dfs-cycles fuel a b current c hops visited ok goal inside here chain =
      search-Returns a b fuel (length hops + fuel) current c hops visited ok goal inside here chain
        (omega arith)

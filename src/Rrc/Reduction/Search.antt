-- ===== src/Rrc/Reduction/Search.antt =====
-- rrc/selection.go: the depth-first search of `transitiveReduction` finds the transitive closure.
use grudge_ai.Prelude.{
  ℕ, zero, suc, ◌≤◌, ◌<◌, String, ◌≡◌, refl, true, false, List, [], ◌∷◌, length, elem, missing,
  missing-lt, missing_mono, missing-le-length, Dict, if◌then◌else◌, eq_iff, arith, Bool-cases, ◌⊎◌,
  ◌↔◌, inl, inr, text_eq,
}
use grudge_ai.Rrc.Dag.{slice_at}
use grudge_ai.Rrc.Reduction.{visit_each, dfs}

module _ (direct : Dict (List String)) where
  -- A chain of direct prerequisites leads from the first message to the second.
  pub data Reaches : String → String → Type 0 where
    at_once : (n x : String) → elem x (slice_at n direct) ≡ true → Reaches n x
    through : (n y x : String) → elem y (slice_at n direct) ≡ true → Reaches y x → Reaches n x

  -- The search from these messages keeps what was visited, visits them, and whatever it visits anew
  -- it visits the prerequisites of.
  record IsSearched (visited todo found : List String) : Type 0 where
    pub grows : (x : String) → elem x visited ≡ true → elem x found ≡ true
    pub done : (x : String) → elem x todo ≡ true → elem x found ≡ true
    pub closed :
        (x y : String)
        → elem x found ≡ true
        → elem x visited ≡ false
        → elem y (slice_at x direct) ≡ true
        → elem y found ≡ true

  module _ (ids : List String)
      (known : (n x : String) → elem x (slice_at n direct) ≡ true → elem x ids ≡ true) where
    visit_each-IsSearched :
        (go : List String → String → List String) (bound : ℕ)
        → ((visited : List String) (p : String)
            → missing visited ids < bound
            → IsSearched visited (slice_at p direct) (go visited p))
        → (todo visited : List String) → ((x : String) → elem x todo ≡ true → elem x ids ≡ true)
        → missing visited ids ≤ bound
        → IsSearched visited todo (visit_each go todo visited)
    unfolding visit_each
    visit_each-IsSearched go bound searches [] visited within h = record {
      grows = λ x m. m;
      done = λ x m. absurd (cc (m));
      closed = λ x y m new p. absurd (cc (m, new));
    }
    visit_each-IsSearched go bound searches (p ∷ todo) visited within h =
        elim (Bool-cases (elem p visited)) [
          | inl old ↦
              let rest =
                visit_each-IsSearched go bound searches todo visited
                  (λ x m. within x (ground (arith, m))) h in
              rw old (record {
                grows = rest.grows;
                done = λ x m. elim (Bool-cases (text_eq p x)) [
                  | inl same ↦ rest.grows x (ground (arith, old, eq_iff p x, same))
                  | inr other ↦ rest.done x (ground (arith, m, other))
                ];
                closed = rest.closed;
              })
          | inr new ↦
              let inside : elem p ids ≡ true = within p (ground (arith, eq_iff p p)) in
              let fewer =
                missing-lt visited (p ∷ visited) (λ x m. ground (arith, m)) p ids inside new
                  (ground (arith, eq_iff p p)) in
              let found = go (p ∷ visited) p in
              let first = searches (p ∷ visited) p (omega (arith, h, fewer)) in
              let less = missing_mono (p ∷ visited) found first.grows ids in
              let rest =
                visit_each-IsSearched go bound searches todo found
                  (λ x m. within x (ground (arith, m))) (omega (arith, h, fewer, less)) in
              rw new (record {
                grows = λ x m. rest.grows x (first.grows x (ground (arith, m)));
                done = λ x m. elim (Bool-cases (text_eq p x)) [
                  | inl same ↦ rest.grows x (first.grows x (ground (arith, same)))
                  | inr other ↦ rest.done x (ground (arith, m, other))
                ];
                closed = λ x y m unseen q. elim (Bool-cases (elem x found)) [
                  | inl early ↦ elim (Bool-cases (text_eq p x)) [
                    | inl same ↦
                        rest.grows y (first.done y (ground (arith, q, (eq_iff p x).0 same)))
                    | inr other ↦
                        rest.grows y (first.closed x y early (ground (arith, unseen, other)) q)
                  ]
                  | inr late ↦ rest.closed x y m late q
                ];
              })
        ]

    dfs-IsSearched :
        (fuel : ℕ) (visited : List String) (node : String)
        → missing visited ids < fuel
        → IsSearched visited (slice_at node direct) (dfs direct fuel visited node)
    unfolding dfs
    dfs-IsSearched zero visited node h = absurd (omega (arith, h))
    dfs-IsSearched (suc fuel) visited node h =
        visit_each-IsSearched (dfs direct fuel) fuel (dfs-IsSearched fuel) (slice_at node direct)
          visited (known node) (omega (arith, h))

    visit_each-Reaches :
        (go : List String → String → List String)
        → ((visited : List String) (p x : String)
            → elem x (go visited p) ≡ true
            → (elem x visited ≡ true) ⊎ Reaches p x)
        → (todo visited : List String) (node x : String)
        → ((y : String) → elem y todo ≡ true → elem y (slice_at node direct) ≡ true)
        → elem x (visit_each go todo visited) ≡ true
        → (elem x visited ≡ true) ⊎ Reaches node x
    unfolding visit_each
    visit_each-Reaches go finds [] visited node x from m = inl m
    visit_each-Reaches go finds (p ∷ todo) visited node x from m =
        let next = if elem p visited then visited else go (p ∷ visited) p in
        let here : elem p (slice_at node direct) ≡ true = from p (ground (arith, eq_iff p p)) in
        elim (visit_each-Reaches go finds todo next node x (λ y q. from y (ground (arith, q))) m) [
          | inr reached ↦ inr reached
          | inl there ↦ elim (Bool-cases (elem p visited)) [
            | inl old ↦ inl (ground (arith, there, old))
            | inr new ↦ elim (finds (p ∷ visited) p x (ground (arith, there, new))) [
              | inr reached ↦ inr (Reaches.through node p x here reached)
              | inl either ↦ elim (Bool-cases (text_eq p x)) [
                | inl same ↦
                    inr (Reaches.at_once node x (ground (arith, here, (eq_iff p x).0 same)))
                | inr other ↦ inl (ground (arith, either, other))
              ]
            ]
          ]
        ]

    dfs-Reaches :
        (fuel : ℕ) (visited : List String) (node x : String)
        → elem x (dfs direct fuel visited node) ≡ true
        → (elem x visited ≡ true) ⊎ Reaches node x
    unfolding dfs
    dfs-Reaches zero visited node x m = inl m
    dfs-Reaches (suc fuel) visited node x m =
        visit_each-Reaches (dfs direct fuel) (dfs-Reaches fuel) (slice_at node direct) visited node
          x (λ y p. p) m

    Reaches-closed :
        (found : List String)
        → ((x y : String)
            → elem x found ≡ true
            → elem y (slice_at x direct) ≡ true
            → elem y found ≡ true)
        → (n x : String) → ((y : String) → elem y (slice_at n direct) ≡ true → elem y found ≡ true)
        → Reaches n x
        → elem x found ≡ true
    Reaches-closed found closed n x from (Reaches.at_once _ _ m) = from x m
    Reaches-closed found closed n x from (Reaches.through _ y _ m r) =
        Reaches-closed found closed y x (λ z q. closed y z (from y m) q) r

    -- With a level for each message and one more, the search finds just what is reached.
    pub dfs_iff :
        (node x : String) → (elem x (dfs direct (suc (length ids)) [] node) ≡ true) ↔ Reaches node x
    dfs_iff node x =
        let found = dfs direct (suc (length ids)) [] node in
        let all =
          dfs-IsSearched (suc (length ids)) [] node (omega (arith, missing-le-length [] ids)) in
        (
          λ m. elim (dfs-Reaches (suc (length ids)) [] node x m) [
            | inl none ↦ absurd (cc (none))
            | inr reached ↦ reached
          ],
          Reaches-closed found (λ y z m q. all.closed y z m refl q) node x all.done,
        )

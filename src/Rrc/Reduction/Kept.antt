-- ===== src/Rrc/Reduction/Kept.antt =====
-- rrc/selection.go: which edges `transitiveReduction` keeps.
use grudge_ai.Prelude.{
  ℕ, suc, ◌≤◌, String, ◌≡◌, ◌≢◌, ◌↔◌, refl, sym, ◌∙◌, ap, Bool, true, false, not, ◌&&◌, List, [],
  ◌∷◌, length, map, filter, any, elem, Dict, insert, lookup-insert, lookup-empty, if◌then◌else◌,
  leb, text_eq, eq_iff, arith, Bool-cases, inl, inr, Memᴰ,
}
use grudge_ai.Rrc.Edge.{Edge}
use grudge_ai.Rrc.Dag.{slice_at}
use grudge_ai.Rrc.Selection.{SelectionEntry}
use grudge_ai.Rrc.Selection.Marks.{entry_ids}
use grudge_ai.Rrc.Reduction.{
  prereqs_of, direct_prereqs, dfs, reachable_from, is_redundant, reduce_entry, transitive_reduction,
}
use grudge_ai.Rrc.Reduction.Search.{Reaches, dfs_iff}

module _ {ℓ} {A : Type ℓ} (p : A → Bool) where
  any-member : (xs : List A) → any p xs ≡ true → (x : A) × Memᴰ x xs × (p x ≡ true)
  any-member [] h = absurd (cc (h))
  any-member (x ∷ xs) h = elim (Bool-cases (p x)) [
    | inl holds ↦ (x, Memᴰ.head refl, holds)
    | inr other ↦
        let later = any-member xs (ground (arith, h, other)) in
        (later.0, Memᴰ.tail later.1, later.2)
  ]

  member-any : (x : A) (xs : List A) → Memᴰ x xs → p x ≡ true → any p xs ≡ true
  member-any x [] m h = elim m [ ]
  member-any x (y ∷ xs) (Memᴰ.head e) h =
      let same : p y ≡ true = ap p (sym e) ∙ h in ground (arith, same)
  member-any x (y ∷ xs) (Memᴰ.tail m) h = ground (arith, member-any x xs m h)

slice_at-insert :
    (k n : String) (v : List String) (m : Dict (List String))
    → slice_at n (insert k v m) ≡ (if text_eq k n then v else slice_at n m)
slice_at-insert k n v m = ground (arith, lookup-insert k n v m)

slice_at-empty : (n : String) → slice_at {A = String} n [] ≡ []
slice_at-empty n = ground (arith, lookup-empty {V = List String} n)

module _ {F : Type 0} where
  prereqs_of-known :
      (ids : List String) (edges : List (Edge F)) (x : String)
      → elem x (prereqs_of ids edges) ≡ true
      → elem x ids ≡ true
  unfolding prereqs_of
  prereqs_of-known ids [] x h = absurd (cc (h))
  prereqs_of-known ids (e ∷ edges) x h = elim (Bool-cases (elem e.from_message_id ids)) [
    | inl known ↦
        ground
          (arith, rw known at h, known, eq_iff e.from_message_id x, prereqs_of-known ids edges x)
    | inr unknown ↦ prereqs_of-known ids edges x (rw unknown at h)
  ]

  direct_prereqs-known :
      (ids : List String) (selected : List (SelectionEntry F)) (m : Dict (List String))
      → ((n x : String) → elem x (slice_at n m) ≡ true → elem x ids ≡ true)
      → (n x : String) → elem x (slice_at n (direct_prereqs ids selected m)) ≡ true
      → elem x ids ≡ true
  unfolding direct_prereqs
  direct_prereqs-known ids [] m known n x h = known n x h
  direct_prereqs-known ids (s ∷ selected) m known n x h =
      let prereqs = prereqs_of ids s.via_edges in
      direct_prereqs-known ids selected (insert s.message_id prereqs m)
        (λ k y g. elim (Bool-cases (text_eq s.message_id k)) [
          | inl same ↦
              prereqs_of-known ids s.via_edges y
                (ground (arith, g, same, ap (elem y) (slice_at-insert s.message_id k prereqs m)))
          | inr other ↦
              known k y
                (ground (arith, g, other, ap (elem y) (slice_at-insert s.message_id k prereqs m)))
        ])
        n x h

  direct_prereqs-keys :
      (ids : List String) (selected : List (SelectionEntry F)) (m : Dict (List String)) (n : String)
      → ((x : String) → elem x (entry_ids selected) ≡ true → elem x ids ≡ true)
      → elem n ids ≡ false
      → slice_at n (direct_prereqs ids selected m) ≡ slice_at n m
  unfolding direct_prereqs
  direct_prereqs-keys ids [] m n within out = refl
  direct_prereqs-keys ids (s ∷ selected) m n within out =
      let prereqs = prereqs_of ids s.via_edges in
      let apart : text_eq s.message_id n ≡ false = ground (arith, within n, out) in
      direct_prereqs-keys ids selected (insert s.message_id prereqs m) n
        (λ x h. within x (ground (arith, h))) out
      ∙ slice_at-insert s.message_id n prereqs m
      ∙ rw apart refl

slice_at-reachable_from :
    (direct : Dict (List String)) (fuel : ℕ) (ids : List String) (m : Dict (List String))
    (n : String)
    → slice_at n (reachable_from direct fuel ids m)
      ≡ (if elem n ids then dfs direct fuel [] n else slice_at n m)
unfolding reachable_from
slice_at-reachable_from direct fuel [] m n = refl
slice_at-reachable_from direct fuel (id ∷ ids) m n =
    let found = dfs direct fuel [] id in
    ground (
      arith,
      slice_at-reachable_from direct fuel ids (insert id found m) n,
      slice_at-insert id n found m,
      eq_iff id n,
    )

module _ {F : Type 0} (selected : List (SelectionEntry F)) where
  abbrev ids : List String
  ids = entry_ids selected

  -- The direct prerequisites of each selected message: the selected sources on its path.
  abbrev pub direct : Dict (List String)
  direct = direct_prereqs ids selected []

  abbrev reachable : Dict (List String)
  reachable = reachable_from direct (suc (length ids)) ids []

  direct-known : (n x : String) → elem x (slice_at n direct) ≡ true → elem x ids ≡ true
  direct-known =
      direct_prereqs-known ids selected []
        (λ n x h. absurd (cc (ap (elem x) (slice_at-empty n), h)))

  nothing_reached : (n x : String) → slice_at n direct ≡ [] → Reaches direct n x → true ≡ false
  nothing_reached n x e (Reaches.at_once _ _ m) = sym m ∙ ap (elem x) e
  nothing_reached n x e (Reaches.through _ y _ m r) = sym m ∙ ap (elem y) e

  reachable_iff : (n x : String) → (elem x (slice_at n reachable) ≡ true) ↔ Reaches direct n x
  reachable_iff n x =
      let slice = slice_at-reachable_from direct (suc (length ids)) ids [] n in
      let search = dfs_iff direct ids direct-known n x in
      elim (Bool-cases (elem n ids)) [
        | inl chosen ↦
            let here : slice_at n reachable ≡ dfs direct (suc (length ids)) [] n =
              slice ∙ rw chosen refl in
            (λ m. search.0 (ap (elem x) (sym here) ∙ m), λ r. ap (elem x) here ∙ search.1 r)
        | inr out ↦
            let here : slice_at n reachable ≡ [] = slice ∙ rw out (slice_at-empty n) in
            let none_direct : slice_at n direct ≡ [] =
              direct_prereqs-keys ids selected [] n (λ y h. h) out ∙ slice_at-empty n in
            (
              λ m. absurd (cc (ap (elem x) here, m)),
              λ r. absurd (cc (nothing_reached n x none_direct r)),
            )
      ]

  -- Another edge of the path has a source that reaches the source of this one.
  abbrev pub Redundant : List (Edge F) → Edge F → Type 0
  Redundant via e =
      (other : Edge F) × Memᴰ other via
      × (other.from_message_id ≢ e.from_message_id)
      × Reaches direct other.from_message_id e.from_message_id

  -- The entry is as it was, but for the edges of its path that are redundant, which are left out.
  pub IsReduced : SelectionEntry F → SelectionEntry F → Type 0
  IsReduced s t =
      (t ≡ record s { via_edges = t.via_edges })
      × (keep : Edge F → Bool) × (t.via_edges ≡ filter keep s.via_edges)
      × ((e : Edge F) → (keep e ≡ false) ↔ Redundant s.via_edges e)

  is_redundant_iff :
      (via : List (Edge F)) (e : Edge F)
      → (not (is_redundant reachable via e) ≡ false) ↔ Redundant via e
  unfolding is_redundant
  is_redundant_iff via e =
      let test : Edge F → Bool = λ other.
        not (text_eq other.from_message_id e.from_message_id)
        && elem e.from_message_id (slice_at other.from_message_id reachable) in
      (
        λ h.
            let found = any-member test via (ground (arith, h)) in
            let o = found.0 in
            (
              o,
              found.1,
              λ same. ground (arith, found.2, (eq_iff o.from_message_id e.from_message_id).1 same),
              (reachable_iff o.from_message_id e.from_message_id).0 (ground (arith, found.2)),
            ),
        λ (o, m, apart, r).
            let reached = (reachable_iff o.from_message_id e.from_message_id).1 r in
            let differ : text_eq o.from_message_id e.from_message_id ≡ false =
              ground (arith, apart, (eq_iff o.from_message_id e.from_message_id).0) in
            let yes = member-any test o via m (ground (arith, reached, differ)) in
            ground (arith, yes),
      )

  -- For two selected messages or more, `transitiveReduction` keeps every entry in its place and
  -- changes nothing of it but its path, from which it drops exactly the edges whose source is
  -- reached, along direct prerequisites of selected messages, from a different source of another edge of
  -- the same path.
  pub transitive_reduction-IsReduced :
      2 ≤ length selected
      → (reduce : SelectionEntry F → SelectionEntry F) × (transitive_reduction selected
          ≡ map reduce selected)
        × ((s : SelectionEntry F) → IsReduced s (reduce s))
  unfolding transitive_reduction reduce_entry IsReduced
  transitive_reduction-IsReduced several = (
    reduce_entry reachable,
    (let many : leb (length selected) 1 ≡ false = ground (arith, several) in rw many refl),
    λ s. (
      refl,
      (λ e. not (is_redundant reachable s.via_edges e)),
      refl,
      is_redundant_iff s.via_edges,
    ),
  )

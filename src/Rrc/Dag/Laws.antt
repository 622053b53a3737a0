-- ===== src/Rrc/Dag/Laws.antt =====
-- What can be read from the graph after edges are added.
use grudge_ai.Prelude.{
  String, ◌≡◌, refl, sym, ap₂, subst, ◌∙◌, All-append, false, none, List, [], ◌∷◌, ◌++◌, append-nil,
  append_assoc, Dict, lookup, insert, erase, lookup-insert, lookup-erase, entries, filter,
  filter-append, text_eq, eq_iff, arith, if◌then◌else◌, All, Bool-cases, inl, inr,
}
use grudge_ai.Rrc.Edge.{Edge}
use grudge_ai.Rrc.Dag.{
  Dag, new_dag, add_edge, prerequisites, dependents, all_edges, add_edges, slice_at, concat_all,
}

module _ {F : Type 0} where
  abbrev pub into : String → List (Edge F) → List (Edge F)
  into id = filter (λ e. text_eq e.to_message_id id)

  abbrev pub out_of : String → List (Edge F) → List (Edge F)
  out_of id = filter (λ e. text_eq e.from_message_id id)

  -- An added edge stands last among the prerequisites of its target, and changes no other list.
  pub prerequisites-add_edge :
      (d : Dag F) (e : Edge F) (id : String)
      → prerequisites (add_edge d e) id
        ≡ (if text_eq e.to_message_id id then prerequisites d id ++ e ∷ [] else prerequisites d id)
  unfolding prerequisites add_edge
  prerequisites-add_edge d e id = ground (
    arith,
    lookup-insert e.to_message_id id (slice_at e.to_message_id d.backward ++ e ∷ []) d.backward,
    eq_iff e.to_message_id id,
  )

  pub dependents-add_edge :
      (d : Dag F) (e : Edge F) (id : String)
      → dependents (add_edge d e) id
        ≡ (if text_eq e.from_message_id id then dependents d id ++ e ∷ [] else dependents d id)
  unfolding dependents add_edge
  dependents-add_edge d e id = ground (
    arith,
    lookup-insert e.from_message_id id (slice_at e.from_message_id d.forward ++ e ∷ []) d.forward,
    eq_iff e.from_message_id id,
  )

  pub prerequisites-add_edges :
      (d : Dag F) (es : List (Edge F)) (id : String)
      → prerequisites (add_edges d es) id ≡ prerequisites d id ++ into id es
  unfolding add_edges
  prerequisites-add_edges d [] id = sym (append-nil (prerequisites d id))
  prerequisites-add_edges d (e ∷ es) id = ground (
    arith,
    prerequisites-add_edges (add_edge d e) es id,
    prerequisites-add_edge d e id,
    append_assoc (prerequisites d id) (e ∷ []) (into id es),
  )

  pub dependents-add_edges :
      (d : Dag F) (es : List (Edge F)) (id : String)
      → dependents (add_edges d es) id ≡ dependents d id ++ out_of id es
  unfolding add_edges
  dependents-add_edges d [] id = sym (append-nil (dependents d id))
  dependents-add_edges d (e ∷ es) id = ground (
    arith,
    dependents-add_edges (add_edge d e) es id,
    dependents-add_edge d e id,
    append_assoc (dependents d id) (e ∷ []) (out_of id es),
  )

  -- The two indexes hold the same edges between any two messages, in the same order.
  pub IsDual : Dag F → Type 0
  IsDual d = (f t : String) → out_of f (prerequisites d t) ≡ into t (dependents d f)

  pub add_edge-IsDual : (d : Dag F) (e : Edge F) → IsDual d → IsDual (add_edge d e)
  unfolding IsDual
  add_edge-IsDual d e h f t = ground (
    arith,
    h f t,
    append-nil (out_of f (prerequisites d t)),
    append-nil (into t (dependents d f)),
    prerequisites-add_edge d e t,
    dependents-add_edge d e f,
    filter-append (λ (x : Edge F). text_eq x.from_message_id f) (prerequisites d t) (e ∷ []),
    filter-append (λ (x : Edge F). text_eq x.to_message_id t) (dependents d f) (e ∷ []),
  )

  -- Every slice of the backward index stands once, under the target of its edges.
  pub IsIndexed : Dict (List (Edge F)) → Type 0
  IsIndexed [] = Unit
  IsIndexed ((k, es) ∷ m) = All (λ e. e.to_message_id ≡ k) es × (lookup k m ≡ none) × IsIndexed m

  erase-IsIndexed : (k : String) (m : Dict (List (Edge F))) → IsIndexed m → IsIndexed (erase k m)
  unfolding erase IsIndexed
  erase-IsIndexed k [] h = tt
  erase-IsIndexed k ((j, es) ∷ m) h = elim (Bool-cases (text_eq j k)) [
    | inl same ↦ rw same (erase-IsIndexed k m h.2)
    | inr other ↦ rw other (h.0, ground (arith, lookup-erase k j m, h.1), erase-IsIndexed k m h.2)
  ]

  pub slice_at-cons :
      (k j : String) (es : List (Edge F)) (m : Dict (List (Edge F)))
      → slice_at k ((j, es) ∷ m) ≡ (if text_eq j k then es else slice_at k m)
  unfolding lookup
  slice_at-cons k j es m = ground arith

  slice_at-IsIndexed :
      (k : String) (m : Dict (List (Edge F)))
      → IsIndexed m
      → All (λ e. e.to_message_id ≡ k) (slice_at k m)
  unfolding IsIndexed lookup
  slice_at-IsIndexed k [] h = tt
  slice_at-IsIndexed k ((j, es) ∷ m) h = elim (Bool-cases (text_eq j k)) [
    | inl same ↦
        subst (All (λ e. e.to_message_id ≡ k)) (sym (slice_at-cons k j es m ∙ rw same))
          (subst (λ i. All (λ e. e.to_message_id ≡ i) es) ((eq_iff j k).0 same) h.0)
    | inr other ↦
        subst (All (λ e. e.to_message_id ≡ k)) (sym (slice_at-cons k j es m ∙ rw other))
          (slice_at-IsIndexed k m h.2)
  ]

  insert-IsIndexed :
      (k : String) (es : List (Edge F)) (m : Dict (List (Edge F)))
      → All (λ e. e.to_message_id ≡ k) es
      → IsIndexed m
      → IsIndexed (insert k es m)
  unfolding insert IsIndexed
  insert-IsIndexed k es m a h =
      (a, ground (arith, lookup-erase k k m, eq_iff k k), erase-IsIndexed k m h)

  pub add_edge-IsIndexed :
      (d : Dag F) (e : Edge F) → IsIndexed d.backward → IsIndexed (add_edge d e).backward
  unfolding add_edge
  add_edge-IsIndexed d e h =
      insert-IsIndexed e.to_message_id (slice_at e.to_message_id d.backward ++ e ∷ []) d.backward
        (All-append (λ x. x.to_message_id ≡ e.to_message_id) (slice_at e.to_message_id d.backward)
          (e ∷ []) (slice_at-IsIndexed e.to_message_id d.backward h) (refl, tt))
        h

  into_own : (k : String) (es : List (Edge F)) → All (λ e. e.to_message_id ≡ k) es → into k es ≡ es
  into_own k [] h = refl
  into_own k (e ∷ es) h = ground (arith, into_own k es h.1, eq_iff e.to_message_id k, h.0)

  into_other :
      (k id : String) (es : List (Edge F))
      → All (λ e. e.to_message_id ≡ k) es
      → text_eq k id ≡ false
      → into id es ≡ []
  into_other k id [] h n = refl
  into_other k id (e ∷ es) h n =
      ground (arith, into_other k id es h.1 n, eq_iff e.to_message_id id, eq_iff k id, h.0)

  into-concat_all :
      (id : String) (m : Dict (List (Edge F)))
      → IsIndexed m
      → into id (concat_all (entries m)) ≡ slice_at id m
  unfolding concat_all IsIndexed lookup
  into-concat_all id [] h = refl
  into-concat_all id ((k, es) ∷ m) h = elim (Bool-cases (text_eq k id)) [
    | inl same ↦
        let e = (eq_iff k id).0 same in
        let gone : lookup id m ≡ none = subst (λ i. lookup i m ≡ none) e h.1 in
        let own : into id es ≡ es =
          into_own id es (subst (λ i. All (λ x. x.to_message_id ≡ i) es) e h.0) in
        let rest : into id (concat_all (entries m)) ≡ [] =
          into-concat_all id m h.2 ∙ rw (gone, slice_at) in
        filter-append (λ (x : Edge F). text_eq x.to_message_id id) es (concat_all (entries m))
        ∙ ap₂ ◌++◌ own rest
        ∙ append-nil es
        ∙ sym (slice_at-cons id k es m ∙ rw same)
    | inr other ↦
        filter-append (λ (x : Edge F). text_eq x.to_message_id id) es (concat_all (entries m))
        ∙ ap₂ ◌++◌ (into_other k id es h.0 other) (into-concat_all id m h.2)
        ∙ sym (slice_at-cons id k es m ∙ rw other)
  ]

  -- `AllEdges` lists, for each message, exactly its prerequisites, in their order.
  pub into-all_edges :
      (d : Dag F) (id : String) → IsIndexed d.backward → into id (all_edges d) ≡ prerequisites d id
  unfolding all_edges prerequisites
  into-all_edges d id h = into-concat_all id d.backward h

pub new_dag-IsDual : (F : Type 0) → IsDual (new_dag {F = F})
unfolding IsDual new_dag prerequisites dependents lookup
new_dag-IsDual F f t = refl

pub new_dag-IsIndexed : (F : Type 0) → IsIndexed (new_dag {F = F}).backward
unfolding IsIndexed new_dag
new_dag-IsIndexed F = tt

pub prerequisites-new_dag : (F : Type 0) (id : String) → prerequisites (new_dag {F = F}) id ≡ []
unfolding prerequisites new_dag lookup
prerequisites-new_dag F id = refl

module _ {F : Type 0} where
  -- `AddEdge` keeps both indexes: sliced by target, and dual to one another.
  pub add_edges-IsIndexed :
      (d : Dag F) (es : List (Edge F)) → IsIndexed d.backward → IsIndexed (add_edges d es).backward
  unfolding add_edges
  add_edges-IsIndexed d [] h = h
  add_edges-IsIndexed d (e ∷ es) h =
      add_edges-IsIndexed (add_edge d e) es (add_edge-IsIndexed d e h)

  -- Adding edges, in any number, keeps the two indexes of a graph in agreement.
  pub add_edges-IsDual : (d : Dag F) (es : List (Edge F)) → IsDual d → IsDual (add_edges d es)
  unfolding add_edges
  add_edges-IsDual d [] h = h
  add_edges-IsDual d (e ∷ es) h = add_edges-IsDual (add_edge d e) es (add_edge-IsDual d e h)

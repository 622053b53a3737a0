-- ===== src/Rrc/Selection/Paths.antt =====
-- rrc/selection.go: how an entry of the cone comes from the prompt.
use grudge_ai.Prelude.{
  suc, String, ◌≡◌, refl, sym, ◌∙◌, ap, subst, true, false, not, ◌&&◌, some, List, [], ◌∷◌, ◌++◌,
  length, length-append, elem, Dict, text_eq, arith, All, All-append, All-self, Memᴰ, Bool-cases,
  inl, inr,
}
use grudge_ai.Prelude.Heap.{push, pop}
use grudge_ai.Prelude.Heap.Each.{All-push, All-pop}
use grudge_ai.Rrc.Floats.{Floats}
use grudge_ai.Rrc.Edge.{Edge, SelectionScope}
use grudge_ai.Rrc.Dag.{Dag, prerequisites, all_edges}
use grudge_ai.Rrc.Selection.{
  SelectionEntry, PqItem, Cone, higher, push_seeds, is_seed, seed_entry, item_of, is_step,
  step_entry, push_prerequisites, walk_round, seeded, seed_edge_score, relational_edge_score,
  extract_subgraph, cone_result,
}
use grudge_ai.Rrc.Selection.Visited.{walk_loop-keeps, seeded-ends}

module _ (fl : Floats) (prompt_thread_id : String) (scope : SelectionScope) (loss_ratio : fl.F)
    (ref_floor : List fl.F) where
  open fl use {F}

  -- The product of the strengths after the first edge.
  unfoldable pub strength_after : F → List (Edge F) → F
  strength_after acc [] = acc
  strength_after acc (e ∷ es) =
      strength_after (fl.mul (relational_edge_score fl e ref_floor) acc) es

  -- The strength of a path: the stored score of its first edge, and the relational score of every
  -- later one.
  unfoldable pub strength : List (Edge F) → F
  strength [] = fl.one
  strength (e ∷ es) = strength_after (seed_edge_score fl e) es

  unfoldable pub evidence_after : F → List (Edge F) → F
  evidence_after acc [] = acc
  evidence_after acc (e ∷ es) = evidence_after (fl.mul acc e.cross_encoder_score) es

  -- The product of the recorded observations along a path.
  unfoldable pub evidence : List (Edge F) → F
  evidence [] = fl.one
  evidence (e ∷ es) = evidence_after e.cross_encoder_score es

  strength_after-snoc :
      (acc : F) (es : List (Edge F)) (e : Edge F)
      → strength_after acc (es ++ e ∷ [])
        ≡ fl.mul (relational_edge_score fl e ref_floor) (strength_after acc es)
  unfolding strength_after
  strength_after-snoc acc [] e = refl
  strength_after-snoc acc (x ∷ es) e =
      strength_after-snoc (fl.mul (relational_edge_score fl x ref_floor) acc) es e

  evidence_after-snoc :
      (acc : F) (es : List (Edge F)) (e : Edge F)
      → evidence_after acc (es ++ e ∷ []) ≡ fl.mul (evidence_after acc es) e.cross_encoder_score
  unfolding evidence_after
  evidence_after-snoc acc [] e = refl
  evidence_after-snoc acc (x ∷ es) e = evidence_after-snoc (fl.mul acc x.cross_encoder_score) es e

  module _ (d : Dag F) (prompt_id : String) where
    -- A path from the prompt back to a message: its edges are prerequisites in the graph, scored,
    -- in scope and accepted, and every message on the way is at or above the floor.
    pub data Trail : List (Edge F) → String → Type 0 where
      seed :
          (e : Edge F)
          → Memᴰ e (prerequisites d prompt_id)
          → is_seed fl prompt_thread_id scope loss_ratio e ≡ true
          → Trail (e ∷ []) e.from_message_id
      step :
          (first : Edge F) (es : List (Edge F)) (id : String) (e : Edge F)
          → Trail (first ∷ es) id
          → fl.lt (strength (first ∷ es)) loss_ratio ≡ false
          → Memᴰ e (prerequisites d id)
          → is_step fl prompt_thread_id scope loss_ratio ref_floor e ≡ true
          → Trail (first ∷ (es ++ e ∷ [])) e.from_message_id

    -- An entry is what its path says: one path leads from the prompt to its message, and its depth,
    -- its score, its weight and its thread are those of the path.
    pub IsExplained : SelectionEntry F → Type 0
    IsExplained entry =
        (first : Edge F) × (rest : List (Edge F)) × (entry.via_edges ≡ first ∷ rest)
        × Trail (first ∷ rest) entry.message_id
        × (entry.hop_depth ≡ length (first ∷ rest))
        × (entry.effective_score ≡ strength (first ∷ rest))
        × (entry.provenance_weight ≡ evidence (first ∷ rest))
        × (entry.cross_thread ≡ not (text_eq entry.thread_id prompt_thread_id))

    seed_entry-IsExplained :
        (e : Edge F)
        → Memᴰ e (prerequisites d prompt_id)
        → is_seed fl prompt_thread_id scope loss_ratio e ≡ true
        → IsExplained (seed_entry fl prompt_thread_id scope loss_ratio e)
    unfolding IsExplained seed_entry strength evidence strength_after evidence_after
    seed_entry-IsExplained e m ok = (e, [], refl, Trail.seed e m ok, refl, refl, refl, refl)

    step_entry-IsExplained :
        (entry : SelectionEntry F) (e : Edge F)
        → IsExplained entry
        → fl.lt entry.effective_score loss_ratio ≡ false
        → Memᴰ e (prerequisites d entry.message_id)
        → is_step fl prompt_thread_id scope loss_ratio ref_floor e ≡ true
        → IsExplained (step_entry fl prompt_thread_id scope loss_ratio ref_floor entry e)
    unfolding IsExplained step_entry strength evidence
    step_entry-IsExplained entry e (first, rest, via, path, depth, score, weight, cross) floor m
          ok =
        (
          first,
          rest ++ e ∷ [],
          ap (λ (es : List (Edge F)). es ++ e ∷ []) via,
          Trail.step first rest entry.message_id e path
              (subst (λ s. fl.lt s loss_ratio ≡ false) score floor) m ok,
          omega (arith, depth, length-append rest (e ∷ [])),
          ap (fl.mul (relational_edge_score fl e ref_floor)) score
              ∙ sym (strength_after-snoc (seed_edge_score fl first) rest e),
          ap (λ w. fl.mul w e.cross_encoder_score) weight
              ∙ sym (evidence_after-snoc first.cross_encoder_score rest e),
          refl,
        )

    abbrev ItemExplained : PqItem F → Type 0
    ItemExplained item = IsExplained item.entry

    push_seeds-IsExplained :
        (es : List (Edge F)) (pq : List (PqItem F))
        → All (λ e. Memᴰ e (prerequisites d prompt_id)) es
        → All ItemExplained pq
        → All ItemExplained (push_seeds fl prompt_thread_id scope loss_ratio es pq)
    unfolding push_seeds
    push_seeds-IsExplained [] pq ms h = h
    push_seeds-IsExplained (e ∷ es) pq ms h =
        elim (Bool-cases (is_seed fl prompt_thread_id scope loss_ratio e)) [
          | inl take ↦
              let item =
                item_of fl prompt_thread_id scope loss_ratio
                  (seed_entry fl prompt_thread_id scope loss_ratio e) in
              rw take (
                push_seeds-IsExplained es (push (higher fl) item pq) ms.1 (
                  All-push ItemExplained (higher fl) item pq (seed_entry-IsExplained e ms.0 take)
                    h))
          | inr skip ↦ rw skip (push_seeds-IsExplained es pq ms.1 h)
        ]

    push_prerequisites-IsExplained :
        (visited : List String) (entry : SelectionEntry F) (es : List (Edge F))
        (pq : List (PqItem F))
        → IsExplained entry
        → fl.lt entry.effective_score loss_ratio ≡ false
        → All (λ e. Memᴰ e (prerequisites d entry.message_id)) es
        → All ItemExplained pq
        → All ItemExplained
            (push_prerequisites fl prompt_thread_id scope loss_ratio ref_floor visited entry es pq)
    unfolding push_prerequisites
    push_prerequisites-IsExplained visited entry [] pq ex floor ms h = h
    push_prerequisites-IsExplained visited entry (e ∷ es) pq ex floor ms h =
        let takes =
          not (elem e.from_message_id visited)
          && is_step fl prompt_thread_id scope loss_ratio ref_floor e in
        elim (Bool-cases takes) [
          | inl take ↦
              let item =
                item_of fl prompt_thread_id scope loss_ratio
                  (step_entry fl prompt_thread_id scope loss_ratio ref_floor entry e) in
              rw take (
                push_prerequisites-IsExplained visited entry es (push (higher fl) item pq) ex floor
                  ms.1
                  (All-push ItemExplained (higher fl) item pq
                    (step_entry-IsExplained entry e ex floor ms.0 (ground (arith, take))) h))
          | inr skip ↦ rw skip (push_prerequisites-IsExplained visited entry es pq ex floor ms.1 h)
        ]

    abbrev ConeExplained : Cone F → Type 0
    ConeExplained c = All IsExplained c.selected × All ItemExplained c.queue

    walk_round-IsExplained :
        (c : Cone F) (item : PqItem F) (pq : List (PqItem F))
        → pop (higher fl) c.queue ≡ some (item, pq)
        → ConeExplained c
        → ConeExplained (walk_round fl prompt_thread_id scope loss_ratio ref_floor d c item pq)
    unfolding walk_round
    walk_round-IsExplained c item pq popped (chosen, queued) =
        let ex = All-pop ItemExplained (higher fl) c.queue item pq popped queued in
        elim (Bool-cases (elem item.entry.message_id c.visited)) [
          | inl old ↦ rw old (chosen, ex.1)
          | inr new ↦ elim (Bool-cases (fl.lt item.entry.effective_score loss_ratio)) [
            | inl below ↦ rw (new, below) (chosen, ex.1)
            | inr above ↦
                rw (new, above)
                  (
                    All-append IsExplained c.selected (item.entry ∷ []) chosen (ex.0, tt),
                    push_prerequisites-IsExplained (item.entry.message_id ∷ c.visited) item.entry
                        (prerequisites d item.entry.message_id) pq ex.0 above
                        (All-self (prerequisites d item.entry.message_id)) ex.1,
                  )
          ]
        ]

    -- `extractSubgraph` selects only what a path leads to: each selected message has a path from the
    -- prompt along scored, accepted edges of the graph in scope, with every message on the way at or
    -- above the floor; its depth, its effective score (the stored score of the first edge times the
    -- relational score of each later one) and its provenance weight are those of that path, and it is
    -- marked as of another thread exactly when its thread is not the prompt's.
    pub extract_subgraph-IsExplained :
        (selected : List (SelectionEntry F)) (below_floor : Dict F)
        → extract_subgraph fl prompt_thread_id scope loss_ratio ref_floor d prompt_id
          ≡ some (selected, below_floor)
        → All IsExplained selected
    unfolding extract_subgraph seeded
    extract_subgraph-IsExplained selected below_floor h =
        let fuel = suc (length (all_edges d)) in
        let start = seeded fl prompt_thread_id scope loss_ratio ref_floor d prompt_id in
        let ended = seeded-ends fl prompt_thread_id scope loss_ratio ref_floor d prompt_id in
        let kept =
          walk_loop-keeps fl prompt_thread_id scope loss_ratio ref_floor d ConeExplained
            walk_round-IsExplained fuel start ended.0 ended.1
            (
              tt,
              push_seeds-IsExplained (prerequisites d prompt_id) []
                  (All-self (prerequisites d prompt_id)) tt,
            ) in
        let result = sym (ap cone_result ended.1) ∙ h in
        let same : ended.0.selected ≡ selected = cc in subst (All IsExplained) same kept.0.0

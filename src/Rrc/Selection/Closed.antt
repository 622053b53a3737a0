-- ===== src/Rrc/Selection/Closed.antt =====
-- rrc/selection.go: the walk leaves out no edge that it would take.
use grudge_ai.Prelude.{
  suc, String, ◌≡◌, sym, ◌∙◌, ap, subst, Bool, true, ◌||◌, some, List, [], ◌∷◌, ◌++◌, length, elem,
  Dict, text_eq, eq_iff, arith, All, All-append, All-map, Bool-cases, inl, inr,
}
use grudge_ai.Prelude.Heap.{pop}
use grudge_ai.Prelude.Heap.Members.{any-pop}
use grudge_ai.Rrc.Floats.{Floats}
use grudge_ai.Rrc.Edge.{Edge, SelectionScope}
use grudge_ai.Rrc.Dag.{Dag, prerequisites, all_edges}
use grudge_ai.Rrc.Selection.{
  SelectionEntry, PqItem, Cone, higher, is_seed, is_step, push_prerequisites, walk_round, seeded,
  extract_subgraph, cone_result,
}
use grudge_ai.Rrc.Selection.Visited.{walk_loop-keeps, seeded-ends}
use grudge_ai.Rrc.Selection.Marks.{marked, walk-IsMarked}
use grudge_ai.Rrc.Selection.Waits.{
  queued, Waits, push_seeds-Waits, queued-push_prerequisites, push_prerequisites-Waits,
}

module _ (fl : Floats) (prompt_thread_id : String) (scope : SelectionScope) (loss_ratio : fl.F)
    (ref_floor : List fl.F) (d : Dag fl.F) (prompt_id : String) where
  open fl use {F}

  abbrev seeds : Edge F → Bool
  seeds = is_seed fl prompt_thread_id scope loss_ratio

  abbrev steps : Edge F → Bool
  steps = is_step fl prompt_thread_id scope loss_ratio ref_floor

  abbrev Follows : (Edge F → Bool) → Cone F → String → Type 0
  Follows takes c id =
      All (λ e. takes e ≡ true → Waits fl prompt_thread_id scope loss_ratio c.visited c.queue e)
        (prerequisites d id)

  -- Every edge that the walk takes from what it has visited leads to what it has seen.
  abbrev IsFollowed : Cone F → Type 0
  IsFollowed c = Follows seeds c prompt_id × All (λ s. Follows steps c s.message_id) c.selected

  abbrev Grows : Cone F → Cone F → Type 0
  Grows c c' =
      (e : Edge F)
      → Waits fl prompt_thread_id scope loss_ratio c.visited c.queue e
      → Waits fl prompt_thread_id scope loss_ratio c'.visited c'.queue e

  grow-IsFollowed :
      (c c' : Cone F)
      → Grows c c'
      → IsFollowed c
      → Follows seeds c' prompt_id × All (λ s. Follows steps c' s.message_id) c.selected
  grow-IsFollowed c c' grows h = (
    All-map (λ e w ok. grows e (w ok)) (prerequisites d prompt_id) h.0,
    All-map (λ s. All-map (λ e w ok. grows e (w ok)) (prerequisites d s.message_id)) c.selected h.1,
  )

  walk_round-IsFollowed :
      (c : Cone F) (item : PqItem F) (pq : List (PqItem F))
      → pop (higher fl) c.queue ≡ some (item, pq)
      → IsFollowed c
      → IsFollowed (walk_round fl prompt_thread_id scope loss_ratio ref_floor d c item pq)
  unfolding walk_round
  walk_round-IsFollowed c item pq popped h =
      let id = item.entry.message_id in
      let held : (x : String)
          → queued fl prompt_thread_id scope loss_ratio x c.queue
            ≡ (text_eq id x || queued fl prompt_thread_id scope loss_ratio x pq) =
        λ x. any-pop (λ i. text_eq i.entry.message_id x) (higher fl) c.queue item pq popped in
      elim (Bool-cases (elem id c.visited)) [
        | inl old ↦ rw old (
            grow-IsFollowed c
              (record {
                visited = c.visited;
                below_floor = c.below_floor;
                selected = c.selected;
                queue = pq;
              })
              (λ e w. ground (arith, w, old, held e.from_message_id, eq_iff id e.from_message_id))
              h)
        | inr new ↦ elim (Bool-cases (fl.lt item.entry.effective_score loss_ratio)) [
          | inl below ↦
              rw (new, below)
                (grow-IsFollowed c
                  (record {
                    visited = id ∷ c.visited;
                    below_floor = c.below_floor;
                    selected = c.selected;
                    queue = pq;
                  })
                  (λ e w. ground (arith, w, held e.from_message_id)) h)
          | inr above ↦
              let es = prerequisites d id in
              let next =
                push_prerequisites fl prompt_thread_id scope loss_ratio ref_floor (id ∷ c.visited)
                  item.entry es pq in
              let c' : Cone F = record {
                visited = id ∷ c.visited;
                below_floor = c.below_floor;
                selected = c.selected ++ item.entry ∷ [];
                queue = next;
              } in
              let grown =
                grow-IsFollowed c c'
                  (λ e w. ground (
                    arith,
                    w,
                    held e.from_message_id,
                    queued-push_prerequisites fl prompt_thread_id scope loss_ratio ref_floor
                        e.from_message_id (id ∷ c.visited) item.entry es pq,
                  ))
                  h in
              rw (new, above)
                (
                  grown.0,
                  All-append (λ s. Follows steps c' s.message_id) c.selected (item.entry ∷ [])
                      grown.1
                      (
                        push_prerequisites-Waits fl prompt_thread_id scope loss_ratio ref_floor
                            (id ∷ c.visited) item.entry es pq,
                        tt,
                      ),
                )
        ]
      ]

  -- `extractSubgraph` leaves out nothing that it may follow: the source of every scored, accepted
  -- edge in scope out of the prompt, and of every such edge out of a selected message under the
  -- relational score, is the prompt, a selected message, or reported as below the floor.
  pub extract_subgraph-closed :
      (selected : List (SelectionEntry F)) (below_floor : Dict F)
      → extract_subgraph fl prompt_thread_id scope loss_ratio ref_floor d prompt_id
        ≡ some (selected, below_floor)
      → All
          (λ e.
            is_seed fl prompt_thread_id scope loss_ratio e ≡ true
            → marked fl loss_ratio prompt_id selected below_floor e.from_message_id ≡ true)
          (prerequisites d prompt_id)
        × All
            (λ s.
              All
                (λ e.
                  is_step fl prompt_thread_id scope loss_ratio ref_floor e ≡ true
                  → marked fl loss_ratio prompt_id selected below_floor e.from_message_id ≡ true)
                (prerequisites d s.message_id))
            selected
  unfolding extract_subgraph seeded
  extract_subgraph-closed selected below_floor h =
      let ended = seeded-ends fl prompt_thread_id scope loss_ratio ref_floor d prompt_id in
      let c = ended.0 in
      let kept =
        walk_loop-keeps fl prompt_thread_id scope loss_ratio ref_floor d IsFollowed
          walk_round-IsFollowed (suc (length (all_edges d)))
          (seeded fl prompt_thread_id scope loss_ratio ref_floor d prompt_id) c ended.1
          (
            push_seeds-Waits fl prompt_thread_id scope loss_ratio (prompt_id ∷ [])
                (prerequisites d prompt_id) [],
            tt,
          ) in
      let marks =
        walk-IsMarked fl loss_ratio prompt_id prompt_thread_id scope ref_floor d c ended.1 in
      let result : some (c.selected, c.below_floor) ≡ some (selected, below_floor) =
        sym (ap cone_result ended.1) ∙ h in
      let chosen : c.selected ≡ selected = cc in
      let low : c.below_floor ≡ below_floor = cc in
      let mark : (e : Edge F)
          → Waits fl prompt_thread_id scope loss_ratio c.visited c.queue e
          → marked fl loss_ratio prompt_id selected below_floor e.from_message_id ≡ true =
        λ e w. ground (
          arith,
          w,
          marks.visits e.from_message_id,
          ap (queued fl prompt_thread_id scope loss_ratio e.from_message_id) kept.1,
          chosen,
          low,
        ) in
      (
        All-map (λ e w ok. mark e (w ok)) (prerequisites d prompt_id) kept.0.0,
        subst
            (All (λ s.
              All
                (λ e.
                  is_step fl prompt_thread_id scope loss_ratio ref_floor e ≡ true
                  → marked fl loss_ratio prompt_id selected below_floor e.from_message_id ≡ true)
                (prerequisites d s.message_id)))
            chosen
            (All-map (λ s. All-map (λ e w ok. mark e (w ok)) (prerequisites d s.message_id))
              c.selected kept.0.1),
      )

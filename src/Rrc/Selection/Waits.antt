-- ===== src/Rrc/Selection/Waits.antt =====
-- rrc/selection.go: what is pushed waits in the queue.
use grudge_ai.Prelude.{
  String, ◌≡◌, Bool, true, not, ◌&&◌, ◌||◌, List, [], ◌∷◌, any, elem, if◌then◌else◌, text_eq,
  eq_iff, arith, All, Bool-cases, inl, inr,
}
use grudge_ai.Prelude.Heap.{push}
use grudge_ai.Prelude.Heap.Members.{any-push}
use grudge_ai.Rrc.Floats.{Floats}
use grudge_ai.Rrc.Edge.{Edge, SelectionScope}
use grudge_ai.Rrc.Selection.{
  SelectionEntry, PqItem, higher, push_seeds, is_seed, seed_entry, item_of, is_step, step_entry,
  push_prerequisites,
}

module _ (fl : Floats) (prompt_thread_id : String) (scope : SelectionScope)
    (loss_ratio : fl.F) where
  open fl use {F}

  abbrev pub queued : String → List (PqItem F) → Bool
  queued x = any (λ i. text_eq i.entry.message_id x)

  -- The source of the edge is visited, or waits in the queue.
  abbrev pub Waits : List String → List (PqItem F) → Edge F → Type 0
  Waits visited pq e = (elem e.from_message_id visited || queued e.from_message_id pq) ≡ true

  abbrev seeds : Edge F → Bool
  seeds = is_seed fl prompt_thread_id scope loss_ratio

  queued-push_seeds :
      (x : String) (es : List (Edge F)) (pq : List (PqItem F))
      → queued x pq ≡ true
      → queued x (push_seeds fl prompt_thread_id scope loss_ratio es pq) ≡ true
  unfolding push_seeds
  queued-push_seeds x [] pq h = h
  queued-push_seeds x (e ∷ es) pq h =
      let item =
        item_of fl prompt_thread_id scope loss_ratio
          (seed_entry fl prompt_thread_id scope loss_ratio e) in
      elim (Bool-cases (seeds e)) [
        | inl take ↦ rw take (
            queued-push_seeds x es (push (higher fl) item pq)
              (ground (arith, h, any-push (λ i. text_eq i.entry.message_id x) (higher fl) item pq)))
        | inr skip ↦ rw skip (queued-push_seeds x es pq h)
      ]

  pub push_seeds-Waits :
      (visited : List String) (es : List (Edge F)) (pq : List (PqItem F))
      → All
          (λ e.
            seeds e ≡ true
            → Waits visited (push_seeds fl prompt_thread_id scope loss_ratio es pq) e)
          es
  unfolding push_seeds seed_entry
  push_seeds-Waits visited [] pq = tt
  push_seeds-Waits visited (e ∷ es) pq =
      let item =
        item_of fl prompt_thread_id scope loss_ratio
          (seed_entry fl prompt_thread_id scope loss_ratio e) in
      let x = e.from_message_id in
      let next = if seeds e then push (higher fl) item pq else pq in
      (
        λ ok. ground (
          arith,
          ok,
          queued-push_seeds x es next,
          any-push (λ i. text_eq i.entry.message_id x) (higher fl) item pq,
          eq_iff x x,
        ),
        push_seeds-Waits visited es next,
      )

  module _ (ref_floor : List F) where
    abbrev steps : Edge F → Bool
    steps = is_step fl prompt_thread_id scope loss_ratio ref_floor

    pub queued-push_prerequisites :
        (x : String) (visited : List String) (entry : SelectionEntry F) (es : List (Edge F))
        (pq : List (PqItem F))
        → queued x pq ≡ true
        → queued x
            (push_prerequisites fl prompt_thread_id scope loss_ratio ref_floor visited entry es pq)
          ≡ true
    unfolding push_prerequisites
    queued-push_prerequisites x visited entry [] pq h = h
    queued-push_prerequisites x visited entry (e ∷ es) pq h =
        let item =
          item_of fl prompt_thread_id scope loss_ratio
            (step_entry fl prompt_thread_id scope loss_ratio ref_floor entry e) in
        elim (Bool-cases (not (elem e.from_message_id visited) && steps e)) [
          | inl take ↦ rw take (
              queued-push_prerequisites x visited entry es (push (higher fl) item pq) (
                ground
                  (arith, h, any-push (λ i. text_eq i.entry.message_id x) (higher fl) item pq)))
          | inr skip ↦ rw skip (queued-push_prerequisites x visited entry es pq h)
        ]

    pub push_prerequisites-Waits :
        (visited : List String) (entry : SelectionEntry F) (es : List (Edge F))
        (pq : List (PqItem F))
        → All
            (λ e.
              steps e ≡ true
              → Waits visited
                  (push_prerequisites fl prompt_thread_id scope loss_ratio ref_floor visited entry
                    es pq)
                  e)
            es
    unfolding push_prerequisites step_entry
    push_prerequisites-Waits visited entry [] pq = tt
    push_prerequisites-Waits visited entry (e ∷ es) pq =
        let item =
          item_of fl prompt_thread_id scope loss_ratio
            (step_entry fl prompt_thread_id scope loss_ratio ref_floor entry e) in
        let x = e.from_message_id in
        let next = if not (elem x visited) && steps e then push (higher fl) item pq else pq in
        (
          λ ok. ground (
            arith,
            ok,
            queued-push_prerequisites x visited entry es next,
            any-push (λ i. text_eq i.entry.message_id x) (higher fl) item pq,
            eq_iff x x,
          ),
          push_prerequisites-Waits visited entry es next,
        )

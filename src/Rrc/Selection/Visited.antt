-- ===== src/Rrc/Selection/Visited.antt =====
-- rrc/selection.go: the loop over the queue ends, and what each of its rounds keeps holds at its end.
use grudge_ai.Prelude.{
  ℕ, zero, suc, ◌+◌, ◌≤◌, ◌<◌, String, ◌≡◌, refl, sym, subst, ◌∙◌, ap, false, not, ◌&&◌, Option,
  some, List, [], ◌∷◌, length, length-append, elem, Dict, lookup, if◌then◌else◌, text_eq, eq_iff,
  arith, entries, Bool-cases, Option-cases, inl, inr,
}
use grudge_ai.Prelude.Heap.{push, pop}
use grudge_ai.Prelude.Heap.Sizes.{length-push, length-pop, pop-none}
use grudge_ai.Rrc.Floats.{Floats}
use grudge_ai.Rrc.Edge.{Edge, SelectionScope}
use grudge_ai.Rrc.Dag.{Dag, prerequisites, all_edges, slice_at, concat_all}
use grudge_ai.Rrc.Dag.Laws.{slice_at-cons}
use grudge_ai.Rrc.Selection.{
  SelectionEntry, PqItem, Cone, higher, push_seeds, is_seed, seed_entry, item_of, is_step,
  step_entry, push_prerequisites, walk_round, walk_loop, seeded, on_pop,
}

module _ {F : Type 0} where
  -- How many edges point into messages that are not visited.
  unfoldable pub remaining : List String → Dict (List (Edge F)) → ℕ
  remaining visited [] = 0
  remaining visited ((k, es) ∷ m) = (if elem k visited then 0 else length es) + remaining visited m

  pub remaining_mono :
      (id : String) (visited : List String) (m : Dict (List (Edge F)))
      → remaining (id ∷ visited) m ≤ remaining visited m
  unfolding remaining
  remaining_mono id visited [] = omega arith
  remaining_mono id visited ((k, es) ∷ m) = ground (arith, remaining_mono id visited m)

  pub remaining_visit :
      (id : String) (visited : List String) (m : Dict (List (Edge F)))
      → elem id visited ≡ false
      → remaining (id ∷ visited) m + length (slice_at id m) ≤ remaining visited m
  unfolding remaining lookup
  remaining_visit id visited [] new = omega arith
  remaining_visit id visited ((k, es) ∷ m) new = elim (Bool-cases (text_eq k id)) [
    | inl same ↦
        let slice : slice_at id ((k, es) ∷ m) ≡ es = slice_at-cons id k es m ∙ rw same refl in
        ground (arith, ap length slice, same, eq_iff k id, eq_iff id k, remaining_mono id visited m)
    | inr other ↦
        let slice : slice_at id ((k, es) ∷ m) ≡ slice_at id m =
          slice_at-cons id k es m ∙ rw other refl in
        ground (
          arith,
          ap length slice,
          other,
          eq_iff k id,
          eq_iff id k,
          remaining_visit id visited m new,
        )
  ]

  pub remaining-nil : (m : Dict (List (Edge F))) → remaining [] m ≡ length (concat_all (entries m))
  unfolding remaining concat_all
  remaining-nil [] = refl
  remaining-nil ((k, es) ∷ m) =
      omega (arith, remaining-nil m, length-append es (concat_all (entries m)))

module _ (fl : Floats) (prompt_thread_id : String) (scope : SelectionScope)
    (loss_ratio : fl.F) where
  open fl use {F}

  length-push_seeds-le :
      (es : List (Edge F)) (pq : List (PqItem F))
      → length (push_seeds fl prompt_thread_id scope loss_ratio es pq) ≤ length pq + length es
  unfolding push_seeds
  length-push_seeds-le [] pq = omega arith
  length-push_seeds-le (e ∷ es) pq =
      let item =
        item_of fl prompt_thread_id scope loss_ratio
          (seed_entry fl prompt_thread_id scope loss_ratio e) in
      elim (Bool-cases (is_seed fl prompt_thread_id scope loss_ratio e)) [
        | inl take ↦ rw take (
            omega (
              arith,
              length-push_seeds-le es (push (higher fl) item pq),
              length-push (higher fl) item pq,
            ))
        | inr skip ↦ rw skip (omega (arith, length-push_seeds-le es pq))
      ]

  module _ (ref_floor : List F) where
    length-push_prerequisites-le :
        (visited : List String) (entry : SelectionEntry F) (es : List (Edge F))
        (pq : List (PqItem F))
        → length
            (push_prerequisites fl prompt_thread_id scope loss_ratio ref_floor visited entry es pq)
          ≤ length pq + length es
    unfolding push_prerequisites
    length-push_prerequisites-le visited entry [] pq = omega arith
    length-push_prerequisites-le visited entry (e ∷ es) pq =
        let item =
          item_of fl prompt_thread_id scope loss_ratio
            (step_entry fl prompt_thread_id scope loss_ratio ref_floor entry e) in
        elim (Bool-cases (
          not (elem e.from_message_id visited)
          && is_step fl prompt_thread_id scope loss_ratio ref_floor e)) [
            | inl take ↦ rw take (
                omega (
                  arith,
                  length-push_prerequisites-le visited entry es (push (higher fl) item pq),
                  length-push (higher fl) item pq,
                ))
            | inr skip ↦ rw skip (omega (arith, length-push_prerequisites-le visited entry es pq))
          ]

    module _ (d : Dag F) where
      abbrev loop : ℕ → Cone F → Option (Cone F)
      loop = walk_loop fl prompt_thread_id scope loss_ratio ref_floor d

      abbrev round : Cone F → PqItem F → List (PqItem F) → Cone F
      round = walk_round fl prompt_thread_id scope loss_ratio ref_floor d

      -- What is left to do: the items of the queue and the edges that can still be pushed.
      abbrev to_do : Cone F → ℕ
      to_do c = length c.queue + remaining c.visited d.backward

      walk_round-lt :
          (c : Cone F) (item : PqItem F) (pq : List (PqItem F))
          → length c.queue ≡ length pq + 1
          → to_do (round c item pq) < to_do c
      unfolding walk_round prerequisites
      walk_round-lt c item pq h = ground (
        arith,
        remaining_mono item.entry.message_id c.visited d.backward,
        remaining_visit item.entry.message_id c.visited d.backward,
        length-push_prerequisites-le (item.entry.message_id ∷ c.visited) item.entry
            (slice_at item.entry.message_id d.backward) pq,
      )

      abbrev after : ℕ → Cone F → Option (PqItem F × List (PqItem F)) → Option (Cone F)
      after fuel c o = on_pop o c (λ item pq. loop fuel (round c item pq))

      walk_loop-ends :
          (fuel : ℕ) (c : Cone F) → to_do c < fuel → (c' : Cone F) × (loop fuel c ≡ some c')
      unfolding walk_loop
      walk_loop-ends zero c h = absurd (omega (arith, h))
      walk_loop-ends (suc fuel) c h = elim (Option-cases (pop (higher fl) c.queue)) [
        | inl nothing ↦ (c, ap (after fuel c) nothing)
        | inr ((item, pq), popped) ↦
            let ih = walk_loop-ends fuel (round c item pq) (
              omega (
                arith,
                h,
                walk_round-lt c item pq (length-pop (higher fl) c.queue item pq popped),
              )) in
            (ih.0, ap (after fuel c) popped ∙ ih.1)
      ]

      -- A predicate that every round keeps holds at the end, where the queue is empty.
      pub walk_loop-keeps {ℓ} :
          (P : Cone F → Type ℓ)
          → ((c : Cone F) (item : PqItem F) (pq : List (PqItem F))
              → pop (higher fl) c.queue ≡ some (item, pq)
              → P c
              → P (walk_round fl prompt_thread_id scope loss_ratio ref_floor d c item pq))
          → (fuel : ℕ) (c c' : Cone F)
          → walk_loop fl prompt_thread_id scope loss_ratio ref_floor d fuel c ≡ some c'
          → P c
          → P c' × (c'.queue ≡ [])
      unfolding walk_loop
      walk_loop-keeps P kept zero c c' h p = absurd (cc)
      walk_loop-keeps P kept (suc fuel) c c' h p = elim (Option-cases (pop (higher fl) c.queue)) [
        | inl nothing ↦
            let end : some c ≡ some c' = sym (ap (after fuel c) nothing) ∙ h in
            let same : c ≡ c' = cc in
            subst (λ x. P x × (x.queue ≡ [])) same (p, pop-none (higher fl) c.queue nothing)
        | inr ((item, pq), popped) ↦
            walk_loop-keeps P kept fuel (round c item pq) c' (sym (ap (after fuel c) popped) ∙ h)
              (kept c item pq popped p)
      ]

      -- The fuel of `extract_subgraph` is enough.
      pub seeded-ends :
          (prompt_id : String)
          → (c : Cone F) × (walk_loop fl prompt_thread_id scope loss_ratio ref_floor d
                (suc (length (all_edges d)))
                (seeded fl prompt_thread_id scope loss_ratio ref_floor d prompt_id)
              ≡ some c)
      unfolding seeded all_edges prerequisites
      seeded-ends prompt_id =
          walk_loop-ends (suc (length (all_edges d)))
            (seeded fl prompt_thread_id scope loss_ratio ref_floor d prompt_id)
            (omega (
              arith,
              length-push_seeds-le (slice_at prompt_id d.backward) [],
              remaining_visit prompt_id [] d.backward refl,
              remaining-nil d.backward,
            ))

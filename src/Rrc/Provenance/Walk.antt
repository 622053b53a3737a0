-- ===== src/Rrc/Provenance/Walk.antt =====
-- rrc/provenance.go: the loop of the first phase ends, and what its rounds keep holds at its end.
use grudge_ai.Prelude.{
  ℕ, zero, suc, ◌+◌, ◌<◌, String, ◌≡◌, sym, ◌∙◌, ap, subst, true, Option, some, List, [], ◌∷◌,
  length, leb, arith, Bool-cases, Option-cases, ◌⊎◌, inl, inr,
}
use grudge_ai.Prelude.Heap.{pop}
use grudge_ai.Prelude.Heap.Sizes.{length-pop, pop-none}
use grudge_ai.Rrc.Floats.{Floats}
use grudge_ai.Rrc.Edge.{SelectionScope}
use grudge_ai.Rrc.Dag.{Dag, all_edges}
use grudge_ai.Rrc.Selection.Visited.{remaining, remaining_visit, remaining-nil}
use grudge_ai.Rrc.Provenance.{
  unreached, BoundEntry, ReachState, provenance_reach_cap, bound_less, contributors_of, noted,
  is_stale, reach_round, on_round, on_top, reach_loop, anchored, reach_start, provenance_reach,
}
use grudge_ai.Rrc.Provenance.Growth.{
  remaining_subset, push_onward-IsPushed, push_anchors-IsPushed, length-contributors-le,
}

module _ (fl : Floats) (d : Dag fl.F) (cone_thread_id : String) (scope : SelectionScope) where
  open fl use {F}

  abbrev loop : ℕ → ReachState F → Option (ReachState F)
  loop = reach_loop fl d cone_thread_id scope

  abbrev round : ReachState F → BoundEntry F → List (BoundEntry F) → ReachState F
  round = reach_round fl d cone_thread_id scope

  abbrev to_do : ReachState F → ℕ
  to_do s = length s.heap + remaining s.settled d.backward

  -- A round that does not stop the loop leaves less to do.
  reach_round-lt :
      (s : ReachState F) (top : BoundEntry F) (rest : List (BoundEntry F))
      → length s.heap ≡ length rest + 1
      → to_do (round s top rest) < to_do s
  unfolding reach_round
  reach_round-lt s top rest h = elim (Bool-cases (is_stale fl d cone_thread_id scope s top)) [
    | inl stale ↦ rw stale (omega (arith, h))
    | inr new ↦ elim (Bool-cases (leb provenance_reach_cap (length s.in_reach))) [
      | inl full ↦ rw (new, full) (omega (arith, h))
      | inr room ↦
          let is = contributors_of fl d cone_thread_id scope top.id in
          let start : ReachState F = noted fl d cone_thread_id scope top.id (record s {
            heap = rest;
            settled = top.id ∷ s.settled;
            in_reach = top.id ∷ s.in_reach;
          }) in
          let pushed = push_onward-IsPushed fl d cone_thread_id scope top.bound is start in
          rw (new, room)
            (omega (
              arith,
              h,
              pushed.grows,
              ap (λ (set : List String). remaining set d.backward) pushed.settled,
              length-contributors-le fl d cone_thread_id scope top.id,
              remaining_visit top.id s.settled d.backward (ground (arith, new)),
            ))
    ]
  ]

  abbrev after :
      ℕ → ReachState F → Option (BoundEntry F × List (BoundEntry F)) → Option (ReachState F)
  after fuel s o = on_top fl d cone_thread_id scope o s (λ top rest.
      on_round fl d cone_thread_id scope (round s top rest).truncated (round s top rest)
        (loop fuel (round s top rest)))

  reach_loop-ends :
      (fuel : ℕ) (s : ReachState F) → to_do s < fuel → (s' : ReachState F) × (loop fuel s ≡ some s')
  unfolding reach_loop
  reach_loop-ends zero s h = absurd (omega (arith, h))
  reach_loop-ends (suc fuel) s h = elim (Option-cases (pop (bound_less fl) s.heap)) [
    | inl nothing ↦ (s, ap (after fuel s) nothing)
    | inr ((top, rest), popped) ↦
        let t = round s top rest in
        let fewer = reach_round-lt s top rest (length-pop (bound_less fl) s.heap top rest popped) in
        let ih = reach_loop-ends fuel t (omega (arith, h, fewer)) in
        elim (Bool-cases t.truncated) [
          | inl stop ↦ (
            t,
            ap (after fuel s) popped
                ∙ ap (λ b. on_round fl d cone_thread_id scope b t (loop fuel t)) stop,
          )
          | inr go ↦ (
            ih.0,
            ap (after fuel s) popped
                ∙ ap (λ b. on_round fl d cone_thread_id scope b t (loop fuel t)) go
                ∙ ih.1,
          )
        ]
  ]

  -- A predicate that every round keeps holds at the end, with the heap empty or the walk cut off.
  pub reach_loop-keeps {ℓ} :
      (P : ReachState F → Type ℓ)
      → ((s : ReachState F) (top : BoundEntry F) (rest : List (BoundEntry F))
          → pop (bound_less fl) s.heap ≡ some (top, rest)
          → P s
          → P (reach_round fl d cone_thread_id scope s top rest))
      → (fuel : ℕ) (s s' : ReachState F) → reach_loop fl d cone_thread_id scope fuel s ≡ some s'
      → P s
      → P s' × ((s'.heap ≡ []) ⊎ (s'.truncated ≡ true))
  unfolding reach_loop
  reach_loop-keeps P kept zero s s' h p = absurd (cc)
  reach_loop-keeps P kept (suc fuel) s s' h p = elim (Option-cases (pop (bound_less fl) s.heap)) [
    | inl nothing ↦
        let end : some s ≡ some s' = sym (ap (after fuel s) nothing) ∙ h in
        let same : s ≡ s' = cc in
        subst (λ x. P x × ((x.heap ≡ []) ⊎ (x.truncated ≡ true))) same
          (p, inl (pop-none (bound_less fl) s.heap nothing))
    | inr ((top, rest), popped) ↦
        let t = round s top rest in
        let q = kept s top rest popped p in
        elim (Bool-cases t.truncated) [
          | inl stop ↦
              let end : some t ≡ some s' =
                sym (
                  ap (after fuel s) popped
                  ∙ ap (λ b. on_round fl d cone_thread_id scope b t (loop fuel t)) stop)
                ∙ h in
              let same : t ≡ s' = cc in
              subst (λ x. P x × ((x.heap ≡ []) ⊎ (x.truncated ≡ true))) same (q, inr stop)
          | inr go ↦
              reach_loop-keeps P kept fuel t s'
                (sym (
                    ap (after fuel s) popped
                    ∙ ap (λ b. on_round fl d cone_thread_id scope b t (loop fuel t)) go)
                  ∙ h)
                q
        ]
  ]

  -- The fuel of `provenance_reach` is enough.
  pub provenance_reach-ends :
      (anchor_ids : List String)
      → (s : ReachState F) × (provenance_reach fl d cone_thread_id scope anchor_ids ≡ some s)
  unfolding provenance_reach reach_start all_edges
  provenance_reach-ends anchor_ids =
      let empty = unreached anchor_ids in
      let pushed = push_anchors-IsPushed fl d cone_thread_id scope anchor_ids empty in
      reach_loop-ends (suc (anchored fl d cone_thread_id scope anchor_ids + length (all_edges d)))
        (reach_start fl d cone_thread_id scope anchor_ids)
        (omega (
          arith,
          pushed.grows,
          ap (λ (set : List String). remaining set d.backward) pushed.settled,
          remaining_subset anchor_ids d.backward,
          remaining-nil d.backward,
        ))

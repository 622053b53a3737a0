-- ===== src/Rrc/Provenance/Descent.antt =====
-- rrc/provenance.go: what the first phase reaches descends from the anchors.
use grudge_ai.Prelude.{
  suc, ◌+◌, String, ◌≡◌, sym, subst, not, ◌&&◌, some, List, [], ◌∷◌, map, length, elem, lookup, leb,
  All, All-map, All-self, Memᴰ, Bool-cases, inl, inr,
}
use grudge_ai.Prelude.Heap.{pop}
use grudge_ai.Prelude.Heap.Each.{All-push, All-pop}
use grudge_ai.Rrc.Floats.{Floats}
use grudge_ai.Rrc.Edge.{Edge, SelectionScope}
use grudge_ai.Rrc.Dag.{Dag, all_edges}
use grudge_ai.Rrc.Provenance.{
  unreached, ProvIn, BoundEntry, ReachState, provenance_reach_cap, bound_less, clamp01, improves,
  push_bound, contributing, contributors_of, prov_in_of, noted, push_anchored, push_anchors,
  push_onward, is_stale, reach_round, anchored, reach_start, provenance_reach,
}
use grudge_ai.Rrc.Provenance.Growth.{push_onward-IsPushed, push_anchors-IsPushed}
use grudge_ai.Rrc.Provenance.Walk.{reach_loop-keeps}

All-to-map {ℓ κ μ} :
    {A : Type ℓ} {B : Type κ} (P : B → Type μ) (f : A → B) (xs : List A)
    → All (λ x. P (f x)) xs
    → All P (map f xs)
All-to-map P f [] h = tt
All-to-map P f (x ∷ xs) h = (h.0, All-to-map P f xs h.1)

module _ (fl : Floats) (d : Dag fl.F) (cone_thread_id : String) (scope : SelectionScope)
    (anchor_ids : List String) where
  open fl use {F}

  -- A chain of provenance edges in scope leads from an anchor back to the message.
  pub data Descends : String → Type 0 where
    root :
        (anchor : String) (e : Edge F)
        → Memᴰ anchor anchor_ids
        → Memᴰ e (contributing fl d cone_thread_id scope anchor)
        → Descends e.from_message_id
    onward :
        (id : String) (e : Edge F)
        → Descends id
        → Memᴰ e (contributing fl d cone_thread_id scope id)
        → Descends e.from_message_id

  abbrev HeapDescends : ReachState F → Type 0
  HeapDescends s = All (λ (i : BoundEntry F). Descends i.id) s.heap

  abbrev IsDescended : ReachState F → Type 0
  IsDescended s = HeapDescends s × All Descends s.in_reach

  push_bound-Descends :
      (id : String) (bound : F) (s : ReachState F)
      → Descends id
      → HeapDescends s
      → HeapDescends (push_bound fl id bound s)
  unfolding push_bound
  push_bound-Descends id bound s from h =
      elim (Bool-cases (not (elem id s.settled) && improves fl (lookup id s.best) bound)) [
        | inl take ↦ rw take (
            All-push (λ (i : BoundEntry F). Descends i.id) (bound_less fl)
              (record { id = id; bound = bound }) s.heap from h)
        | inr skip ↦ rw skip h
      ]

  push_anchored-Descends :
      (is : List (ProvIn F)) (s : ReachState F)
      → All (λ i. Descends i.from) is
      → HeapDescends s
      → HeapDescends (push_anchored fl d cone_thread_id scope is s)
  unfolding push_anchored
  push_anchored-Descends [] s from h = h
  push_anchored-Descends (i ∷ is) s from h =
      push_anchored-Descends is (push_bound fl i.from (clamp01 fl i.weight) s) from.1
        (push_bound-Descends i.from (clamp01 fl i.weight) s from.0 h)

  push_onward-Descends :
      (bound : F) (is : List (ProvIn F)) (s : ReachState F)
      → All (λ i. Descends i.from) is
      → HeapDescends s
      → HeapDescends (push_onward fl d cone_thread_id scope bound is s)
  unfolding push_onward
  push_onward-Descends bound [] s from h = h
  push_onward-Descends bound (i ∷ is) s from h =
      let b = fl.mul bound (clamp01 fl i.weight) in
      push_onward-Descends bound is (push_bound fl i.from b s) from.1
        (push_bound-Descends i.from b s from.0 h)

  contributors-Descends :
      (id : String)
      → ((e : Edge F)
          → Memᴰ e (contributing fl d cone_thread_id scope id)
          → Descends e.from_message_id)
      → All (λ i. Descends i.from) (contributors_of fl d cone_thread_id scope id)
  unfolding contributors_of
  contributors-Descends id from =
      All-to-map (λ i. Descends i.from) (prov_in_of fl d cone_thread_id scope)
        (contributing fl d cone_thread_id scope id)
        (All-map from (contributing fl d cone_thread_id scope id)
          (All-self (contributing fl d cone_thread_id scope id)))

  push_anchors-Descends :
      (anchors : List String) (s : ReachState F)
      → All (λ a. Memᴰ a anchor_ids) anchors
      → HeapDescends s
      → HeapDescends (push_anchors fl d cone_thread_id scope anchors s)
  unfolding push_anchors
  push_anchors-Descends [] s ms h = h
  push_anchors-Descends (a ∷ anchors) s ms h =
      let start = noted fl d cone_thread_id scope a s in
      let is = contributors_of fl d cone_thread_id scope a in
      push_anchors-Descends anchors (push_anchored fl d cone_thread_id scope is start) ms.1 (
        push_anchored-Descends is start (contributors-Descends a (λ e m. Descends.root a e ms.0 m))
          h)

  reach_round-Descends :
      (s : ReachState F) (top : BoundEntry F) (rest : List (BoundEntry F))
      → pop (bound_less fl) s.heap ≡ some (top, rest)
      → IsDescended s
      → IsDescended (reach_round fl d cone_thread_id scope s top rest)
  unfolding reach_round
  reach_round-Descends s top rest popped h =
      let both =
        All-pop (λ (i : BoundEntry F). Descends i.id) (bound_less fl) s.heap top rest popped h.0 in
      elim (Bool-cases (is_stale fl d cone_thread_id scope s top)) [
        | inl stale ↦ rw stale (both.1, h.1)
        | inr new ↦ elim (Bool-cases (leb provenance_reach_cap (length s.in_reach))) [
          | inl full ↦ rw (new, full) (both.1, h.1)
          | inr room ↦
              let id = top.id in
              let settled : ReachState F = record s {
                heap = rest;
                settled = id ∷ s.settled;
                in_reach = id ∷ s.in_reach;
              } in
              let start = noted fl d cone_thread_id scope id settled in
              let is = contributors_of fl d cone_thread_id scope id in
              let pushed = push_onward-IsPushed fl d cone_thread_id scope top.bound is start in
              rw (new, room)
                (
                  push_onward-Descends top.bound is start
                      (contributors-Descends id (λ e m. Descends.onward id e both.0 m)) both.1,
                  subst (All Descends) (sym pushed.in_reach) (both.0, h.1),
                )
        ]
      ]

  -- Whatever the walk reaches, a chain of provenance edges in scope leads back to it from an anchor.
  pub provenance_reach-Descends :
      (s : ReachState F)
      → provenance_reach fl d cone_thread_id scope anchor_ids ≡ some s
      → All Descends s.in_reach
  unfolding provenance_reach reach_start
  provenance_reach-Descends s h =
      let empty = unreached anchor_ids in
      let pushed = push_anchors-IsPushed fl d cone_thread_id scope anchor_ids empty in
      (reach_loop-keeps fl d cone_thread_id scope IsDescended reach_round-Descends
        (suc (anchored fl d cone_thread_id scope anchor_ids + length (all_edges d)))
        (reach_start fl d cone_thread_id scope anchor_ids) s h
        (
          push_anchors-Descends anchor_ids empty (All-self anchor_ids) tt,
          subst (All Descends) (sym pushed.in_reach) tt,
        )).0.1

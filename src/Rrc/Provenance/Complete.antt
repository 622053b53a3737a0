-- ===== src/Rrc/Provenance/Complete.antt =====
-- rrc/provenance.go: the first phase as a whole.
use grudge_ai.Prelude.{
  suc, ◌+◌, String, ◌≡◌, sym, ◌∙◌, ap, true, false, ◌||◌, some, List, [], length, elem, All,
  All-map, any, inl, inr, arith, Bool-cases, lookup,
}
use grudge_ai.Rrc.Floats.{Floats}
use grudge_ai.Rrc.Edge.{Edge, SelectionScope}
use grudge_ai.Rrc.Dag.{Dag, all_edges, is_some}
use grudge_ai.Rrc.Provenance.{ReachState, contributing, anchored, reach_start, provenance_reach}
use grudge_ai.Rrc.Provenance.Walk.{reach_loop-keeps, provenance_reach-ends}
use grudge_ai.Rrc.Provenance.Reached.{IsReached, reach_round-IsReached, reach_start-IsReached}
use grudge_ai.Rrc.Provenance.Pushes.{Known, IsLive, is_live}
use grudge_ai.Rrc.Provenance.Followed.{IsFollowed, reach_round-IsFollowed, reach_start-IsFollowed}

module _ (fl : Floats) (irreflexive : (x : fl.F) → fl.lt x x ≡ false) (d : Dag fl.F)
    (cone_thread_id : String) (scope : SelectionScope) (anchor_ids : List String) where
  open fl use {F}

  -- The contributors of a message are reached, or are anchors.
  pub IsWithin : ReachState F → String → Type 0
  IsWithin s id =
      All (λ e. (elem e.from_message_id s.in_reach || elem e.from_message_id anchor_ids) ≡ true)
        (contributing fl d cone_thread_id scope id)

  abbrev Both : ReachState F → Type 0
  Both s =
      IsReached fl d cone_thread_id scope anchor_ids s
      × IsFollowed fl irreflexive d cone_thread_id scope anchor_ids s

  -- Where the heap is empty and the walk was not cut off, what is known is settled.
  Known-settled :
      (s : ReachState F) (x : String)
      → IsLive fl irreflexive s
      → s.heap ≡ []
      → s.truncated ≡ false
      → Known fl irreflexive s x
      → elem x s.settled ≡ true
  Known-settled s x live empty whole known = elim (Bool-cases (is_some (lookup x s.best))) [
    | inl has ↦
        ground
          (arith, live x whole has, ap (any (is_live fl irreflexive (lookup x s.best) x)) empty)
    | inr lacks ↦ ground (arith, known, lacks)
  ]

  -- For an order of the bounds in which none is below itself: the walk back along provenance edges
  -- ends on every graph. It reaches 64 messages at most, none twice and none of the anchors. If it
  -- reports that it was cut off, it reached 64; if not, every contributor in scope of an anchor or of
  -- a message that it reached is one of these itself.
  pub provenance_reach-IsReached :
      (s : ReachState F) × (provenance_reach fl d cone_thread_id scope anchor_ids ≡ some s)
      × IsReached fl d cone_thread_id scope anchor_ids s
      × (s.truncated ≡ false → All (IsWithin s) anchor_ids × All (IsWithin s) s.in_reach)
  unfolding provenance_reach IsWithin
  provenance_reach-IsReached =
      let ended = provenance_reach-ends fl d cone_thread_id scope anchor_ids in
      let s = ended.0 in
      let kept =
        reach_loop-keeps fl d cone_thread_id scope Both
          (λ s top rest popped h. (
            reach_round-IsReached fl d cone_thread_id scope anchor_ids s top rest h.0,
            reach_round-IsFollowed fl irreflexive d cone_thread_id scope anchor_ids s top rest
                popped h.1,
          ))
          (suc (anchored fl d cone_thread_id scope anchor_ids + length (all_edges d)))
          (reach_start fl d cone_thread_id scope anchor_ids) s ended.1
          (
            reach_start-IsReached fl d cone_thread_id scope anchor_ids,
            reach_start-IsFollowed fl irreflexive d cone_thread_id scope anchor_ids,
          ) in
      let marks = kept.0.0 in
      let followed = kept.0.1 in
      (
        s,
        ended.1,
        marks,
        λ whole.
            let empty : s.heap ≡ [] = elim kept.1 [
              | inl done ↦ done
              | inr cut ↦ absurd (cc (cut, whole))
            ] in
            let within : (e : Edge F)
                → Known fl irreflexive s e.from_message_id
                → (elem e.from_message_id s.in_reach || elem e.from_message_id anchor_ids) ≡ true =
              λ e k.
                sym (marks.settles e.from_message_id)
                ∙ Known-settled s e.from_message_id followed.live empty whole k in
            let all_within =
              λ (id : String). All-map within (contributing fl d cone_thread_id scope id) in
            (
              All-map all_within anchor_ids followed.anchors,
              All-map all_within s.in_reach (followed.reached whole),
            ),
      )

-- ===== src/Rrc/Provenance/Followed.antt =====
-- rrc/provenance.go: what is pushed is settled in the end, though the heap keeps stale entries.
use grudge_ai.Prelude.{
  String, ◌≡◌, sym, ◌∙◌, subst, Bool, true, false, ◌||◌, some, List, ◌∷◌, length, any, elem, lookup,
  lookup-empty, text_eq, eq_iff, leb, All, All-map, arith, Bool-cases, inl, inr,
}
use grudge_ai.Prelude.Heap.{pop}
use grudge_ai.Prelude.Heap.Members.{any-pop}
use grudge_ai.Rrc.Floats.{Floats}
use grudge_ai.Rrc.Edge.{SelectionScope}
use grudge_ai.Rrc.Dag.{Dag}
use grudge_ai.Rrc.Provenance.Growth.{push_onward-IsPushed, push_anchors-IsPushed}
use grudge_ai.Rrc.Provenance.{
  unreached, BoundEntry, ReachState, provenance_reach_cap, bound_less, bound_or_zero, contributing,
  contributors_of, noted, push_onward, is_stale, reach_round, reach_start,
}
use grudge_ai.Rrc.Provenance.Pushes.{
  Known, IsLive, is_live, Follows, push_onward-IsPut, follow_put, push_anchors-IsPut,
}

module _ (fl : Floats) (irreflexive : (x : fl.F) → fl.lt x x ≡ false) (d : Dag fl.F)
    (cone_thread_id : String) (scope : SelectionScope) (anchor_ids : List String) where
  open fl use {F}

  abbrev live_in : ReachState F → String → List (BoundEntry F) → Bool
  live_in s x = any (is_live fl irreflexive (lookup x s.best) x)

  pub record IsFollowed (s : ReachState F) : Type 0 where
    pub live : IsLive fl irreflexive s
    pub anchors : All (Follows fl irreflexive d cone_thread_id scope s) anchor_ids
    pub reached :
        s.truncated ≡ false → All (Follows fl irreflexive d cone_thread_id scope s) s.in_reach

  -- A popped entry is left out where it is settled, or stale, or settled now.
  pub reach_round-IsFollowed :
      (s : ReachState F) (top : BoundEntry F) (rest : List (BoundEntry F))
      → pop (bound_less fl) s.heap ≡ some (top, rest)
      → IsFollowed s
      → IsFollowed (reach_round fl d cone_thread_id scope s top rest)
  unfolding reach_round
  reach_round-IsFollowed s top rest popped h =
      let held : (x : String)
          → live_in s x s.heap
            ≡ (is_live fl irreflexive (lookup x s.best) x top || live_in s x rest) =
        λ x.
          any-pop (is_live fl irreflexive (lookup x s.best) x) (bound_less fl) s.heap top rest
            popped in
      elim (Bool-cases (is_stale fl d cone_thread_id scope s top)) [
        | inl stale ↦ rw stale (record {
          live = λ x whole has. elim (Bool-cases (text_eq top.id x)) [
            | inl same ↦
                let id_same = (eq_iff top.id x).0 same in
                let stale_here =
                  subst
                    (λ y.
                      (elem y s.settled || fl.lt top.bound (bound_or_zero fl (lookup y s.best)))
                      ≡ true)
                    id_same stale in
                ground (arith, h.live x whole has, held x, stale_here)
            | inr other ↦ ground (arith, h.live x whole has, held x, other)
          ];
          anchors = h.anchors;
          reached = h.reached;
        })
        | inr new ↦ elim (Bool-cases (leb provenance_reach_cap (length s.in_reach))) [
          | inl full ↦
              rw (new, full)
                (record {
                  live = λ x whole has. absurd (cc (whole));
                  anchors = h.anchors;
                  reached = λ whole. absurd (cc (whole));
                })
          | inr room ↦
              let id = top.id in
              let settled : ReachState F = record s {
                heap = rest;
                settled = id ∷ s.settled;
                in_reach = id ∷ s.in_reach;
              } in
              let start = noted fl d cone_thread_id scope id settled in
              let is = contributors_of fl d cone_thread_id scope id in
              let t = push_onward fl d cone_thread_id scope top.bound is start in
              let put =
                push_onward-IsPut fl irreflexive d cone_thread_id scope top.bound is start in
              let pushed = push_onward-IsPushed fl d cone_thread_id scope top.bound is start in
              let grown : (x : String) → Known fl irreflexive s x → Known fl irreflexive t x =
                λ x e. put.0.knows x (ground (arith, e)) in
              rw (new, room)
                (record {
                  live = put.0.live (λ x whole has. ground (arith, h.live x whole has, held x));
                  anchors =
                      All-map
                        (λ a.
                          All-map (λ e. grown e.from_message_id)
                            (contributing fl d cone_thread_id scope a))
                        anchor_ids h.anchors;
                  reached = λ whole.
                      subst (All (Follows fl irreflexive d cone_thread_id scope t))
                        (sym pushed.in_reach)
                        (
                          follow_put fl irreflexive d cone_thread_id scope start t id put,
                          All-map
                              (λ a.
                                All-map (λ e. grown e.from_message_id)
                                  (contributing fl d cone_thread_id scope a))
                              s.in_reach (h.reached (sym pushed.truncated ∙ whole)),
                        );
                })
        ]
      ]

  pub reach_start-IsFollowed : IsFollowed (reach_start fl d cone_thread_id scope anchor_ids)
  unfolding reach_start
  reach_start-IsFollowed =
      let empty = unreached anchor_ids in
      let put = push_anchors-IsPut fl irreflexive d cone_thread_id scope anchor_ids empty in
      let pushed = push_anchors-IsPushed fl d cone_thread_id scope anchor_ids empty in
      record {
        live = put.0.live (λ x whole has. absurd (cc (has, lookup-empty {V = F} x)));
        anchors = put.1;
        reached = λ whole.
            subst
              (All (
                Follows fl irreflexive d cone_thread_id scope
                  (reach_start fl d cone_thread_id scope anchor_ids)))
              (sym pushed.in_reach) tt;
      }

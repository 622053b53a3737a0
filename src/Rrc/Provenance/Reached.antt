-- ===== src/Rrc/Provenance/Reached.antt =====
-- rrc/provenance.go: which messages the first phase settles, and how many.
use grudge_ai.Prelude.{
  ◌≤◌, String, ◌≡◌, refl, sym, ◌∙◌, ap, subst, true, false, ◌||◌, List, ◌∷◌, length, elem,
  IsDistinct, leb, eq_iff, arith, Bool-cases, inl, inr,
}
use grudge_ai.Rrc.Floats.{Floats}
use grudge_ai.Rrc.Edge.{SelectionScope}
use grudge_ai.Rrc.Dag.{Dag}
use grudge_ai.Rrc.Provenance.{
  unreached, BoundEntry, ReachState, provenance_reach_cap, contributors_of, noted, push_onward,
  is_stale, reach_round, reach_start,
}
use grudge_ai.Rrc.Provenance.Growth.{push_onward-IsPushed, push_anchors-IsPushed}

module _ (fl : Floats) (d : Dag fl.F) (cone_thread_id : String) (scope : SelectionScope)
    (anchor_ids : List String) where
  open fl use {F}

  -- At most so many messages as the cap are reached, none twice and no anchor among them; just these
  -- and the anchors are settled; and where the walk is cut off, the cap is full.
  pub record IsReached (s : ReachState F) : Type 0 where
    pub bounded : length s.in_reach ≤ 64
    pub distinct : IsDistinct s.in_reach
    pub settles : (x : String) → elem x s.settled ≡ (elem x s.in_reach || elem x anchor_ids)
    pub apart : (x : String) → elem x s.in_reach ≡ true → elem x anchor_ids ≡ false
    pub full : s.truncated ≡ true → length s.in_reach ≡ 64

  same-IsReached :
      (s t : ReachState F)
      → t.settled ≡ s.settled
      → t.in_reach ≡ s.in_reach
      → t.truncated ≡ s.truncated
      → IsReached s
      → IsReached t
  same-IsReached s t a b c h = record {
    bounded = subst (λ ids. length ids ≤ 64) (sym b) h.bounded;
    distinct = subst IsDistinct (sym b) h.distinct;
    settles =
        λ x. ap (elem x) a ∙ h.settles x ∙ ap (λ ids. elem x ids || elem x anchor_ids) (sym b);
    apart = λ x m. h.apart x (ap (elem x) (sym b) ∙ m);
    full = λ e. ap length b ∙ h.full (sym c ∙ e);
  }

  pub reach_round-IsReached :
      (s : ReachState F) (top : BoundEntry F) (rest : List (BoundEntry F))
      → IsReached s
      → IsReached (reach_round fl d cone_thread_id scope s top rest)
  unfolding reach_round
  reach_round-IsReached s top rest h =
      elim (Bool-cases (is_stale fl d cone_thread_id scope s top)) [
        | inl stale ↦ rw stale (same-IsReached s (record s { heap = rest }) refl refl refl h)
        | inr new ↦ elim (Bool-cases (leb provenance_reach_cap (length s.in_reach))) [
          | inl full ↦
              rw (new, full)
                (record {
                  bounded = h.bounded;
                  distinct = h.distinct;
                  settles = h.settles;
                  apart = h.apart;
                  full = λ e. ground (arith, h.bounded, full);
                })
          | inr room ↦
              let id = top.id in
              let unseen : elem id s.settled ≡ false = ground (arith, new) in
              let settled : ReachState F = record s {
                heap = rest;
                settled = id ∷ s.settled;
                in_reach = id ∷ s.in_reach;
              } in
              let start = noted fl d cone_thread_id scope id settled in
              let is = contributors_of fl d cone_thread_id scope id in
              let pushed = push_onward-IsPushed fl d cone_thread_id scope top.bound is start in
              rw (new, room)
                (same-IsReached start (push_onward fl d cone_thread_id scope top.bound is start)
                  pushed.settled pushed.in_reach pushed.truncated
                  (record {
                    bounded = ground (arith, room);
                    distinct = (ground (arith, unseen, h.settles id), h.distinct);
                    settles = λ x. ground (arith, h.settles x);
                    apart = λ x m.
                        ground
                          (arith, m, unseen, h.apart x, h.settles id, h.settles x, eq_iff id x);
                    full = λ e. ground (arith, h.full e, room);
                  }))
        ]
      ]

  pub reach_start-IsReached : IsReached (reach_start fl d cone_thread_id scope anchor_ids)
  unfolding reach_start
  reach_start-IsReached =
      let empty = unreached anchor_ids in
      let pushed = push_anchors-IsPushed fl d cone_thread_id scope anchor_ids empty in
      same-IsReached empty (reach_start fl d cone_thread_id scope anchor_ids) pushed.settled
        pushed.in_reach pushed.truncated
        (record {
          bounded = omega arith;
          distinct = tt;
          settles = λ x. refl;
          apart = λ x m. absurd (cc (m));
          full = λ e. absurd (cc (e));
        })

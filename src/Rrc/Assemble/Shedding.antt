-- ===== src/Rrc/Assemble/Shedding.antt =====
-- The shed loop of `Assemble`: it ends, and what it returns.
use grudge_ai.Prelude.{
  ℕ, zero, suc, ◌+◌, ◌≤◌, ◌<◌, String, ◌≡◌, ◌≢◌, sym, ◌∙◌, ap, subst, true, some, List, elem, All,
  All-map, ok, err, Result-cases, inl, inr, arith, missing, missing-lt,
}
use grudge_ai.Rrc.Floats.{Floats}
use grudge_ai.Rrc.Protocol.{DeliveryGroup}
use grudge_ai.Rrc.Assembly.{lowest_density_group}
use grudge_ai.Rrc.Assemble.{
  out_of_fuel, fixed_overflow, finish, again, fits, ordered_groups, density_of, final_wire,
  wire_total, ShedInput, ShedState, ShedResult, shed_loop, SelectedMessage,
}
use grudge_ai.Rrc.Assemble.Groups.{
  IsNamed, selected_ids, IsDeliverable, selected_groups-ne-out_of_fuel,
}
use grudge_ai.Rrc.Assemble.Delivery.{
  IsAccounted, selected_groups-IsDeliverable, selected_groups-IsAccounted,
  ordered_groups-IsDeliverable, stands_for-ordered_groups,
}
use grudge_ai.Rrc.Assemble.Rounds.{
  elem-add_ids, lowest_density_group-All, ids, after_drop, collected_in, shed_round_ways,
  shed_loop-suc, shed_loop_failed,
}

module _ (fl : Floats) where
  open fl use {F}

  -- What is known of a result of the shed loop: the wire is that of its groups, its total is that
  -- of the wire and fits; every group may be delivered; every selected message is accounted for; and
  -- what was dropped at the start stays so.
  pub record IsShed (i : ShedInput fl) (dropped : List String) (out : ShedResult fl) : Type 0 where
    pub wired : out.wire ≡ final_wire fl i out.delivered
    pub counted : out.total ≡ wire_total fl i out.wire
    pub fitting : fits i.budget i.effective out.total ≡ true
    pub deliverable :
        All (IsDeliverable out.state.dropped i.local_ids (selected_ids i.selected)) out.delivered
    pub accounted :
        All (IsAccounted fl i.corpus i.index out.state.dropped i.local_ids out.delivered) i.selected
    pub kept : (x : String) → elem x dropped ≡ true → elem x out.state.dropped ≡ true

  module _ (i : ShedInput fl) where
    module _ (named : IsNamed i.corpus) where
      round-IsDeliverable :
          (st : ShedState fl) (groups : List (DeliveryGroup F))
          → collected_in fl i st ≡ ok groups
          → All (IsDeliverable st.dropped i.local_ids (ids fl i)) (ordered_groups fl i groups)
      round-IsDeliverable st groups found =
          ordered_groups-IsDeliverable fl st.dropped i.local_ids (ids fl i) i groups (
            selected_groups-IsDeliverable fl i.corpus i.index st.dropped i.local_ids named
              i.selected groups found)

      order-IsAccounted :
          (st : ShedState fl) (groups : List (DeliveryGroup F)) (s : SelectedMessage F)
          → IsAccounted fl i.corpus i.index st.dropped i.local_ids groups s
          → IsAccounted fl i.corpus i.index st.dropped i.local_ids (ordered_groups fl i groups) s
      order-IsAccounted st groups s (inl h) =
          inl (ground (arith, h, stands_for-ordered_groups fl s.message_id i groups))
      order-IsAccounted st groups s (inr h) = inr h

      round-IsAccounted :
          (st : ShedState fl) (groups : List (DeliveryGroup F))
          → collected_in fl i st ≡ ok groups
          → All
              (IsAccounted fl i.corpus i.index st.dropped i.local_ids (ordered_groups fl i groups))
              i.selected
      round-IsAccounted st groups found = All-map (order-IsAccounted st groups) i.selected (
          selected_groups-IsAccounted fl i.corpus i.index st.dropped i.local_ids named i.selected
            groups found)

      finished-IsShed :
          (st : ShedState fl) (groups : List (DeliveryGroup F)) (out : ShedResult fl)
          → collected_in fl i st ≡ ok groups
          → out.delivered ≡ ordered_groups fl i groups
          → out.state ≡ st
          → out.wire ≡ final_wire fl i (ordered_groups fl i groups)
          → out.total ≡ wire_total fl i out.wire
          → fits i.budget i.effective out.total ≡ true
          → IsShed i st.dropped out
      finished-IsShed st groups out found delivered state wire total enough = record {
        wired = wire ∙ ap (final_wire fl i) (sym delivered);
        counted = total;
        fitting = enough;
        deliverable =
            subst
              (λ (s : ShedState fl).
                All (IsDeliverable s.dropped i.local_ids (ids fl i)) out.delivered)
              (sym state)
              (subst (All (IsDeliverable st.dropped i.local_ids (ids fl i))) (sym delivered)
                (round-IsDeliverable st groups found));
        accounted =
            subst
              (λ (s : ShedState fl).
                All (IsAccounted fl i.corpus i.index s.dropped i.local_ids out.delivered)
                  i.selected)
              (sym state)
              (subst
                (λ gs. All (IsAccounted fl i.corpus i.index st.dropped i.local_ids gs) i.selected)
                (sym delivered) (round-IsAccounted st groups found));
        kept = λ x h. subst (λ (s : ShedState fl). elem x s.dropped ≡ true) (sym state) h;
      }

      dropped_grows :
          (st : ShedState fl) (g : DeliveryGroup F) (x : String)
          → elem x st.dropped ≡ true
          → elem x (after_drop fl i st g).dropped ≡ true
      dropped_grows st g x h = ground (arith, elem-add_ids x g.root_ids st.dropped, h)

      -- A round that drops a group leaves fewer selected messages that are not dropped.
      after_drop_fewer :
          (st : ShedState fl) (groups : List (DeliveryGroup F)) (g : DeliveryGroup F)
          → collected_in fl i st ≡ ok groups
          → lowest_density_group fl
              (ordered_groups fl i groups)
              (density_of fl i.meter i.local_ids i.loss_ratio)
            ≡ some g
          → missing (after_drop fl i st g).dropped (ids fl i) + 1 ≤ missing st.dropped (ids fl i)
      after_drop_fewer st groups g found lowest =
          let d =
            lowest_density_group-All fl (IsDeliverable st.dropped i.local_ids (ids fl i))
              (density_of fl i.meter i.local_ids i.loss_ratio) g (ordered_groups fl i groups)
              (round-IsDeliverable st groups found) lowest in
          missing-lt st.dropped (after_drop fl i st g).dropped (dropped_grows st g) d.root
            (ids fl i) (d.selected d.root d.rooted) (d.undropped d.root d.rooted)
            (ground (arith, elem-add_ids d.root g.root_ids st.dropped, d.rooted))

      -- Where the corpus names messages by their ids, and with more fuel than there are selected
      -- messages that are not dropped, the shed loop ends. In what it returns the wire is that of the
      -- groups that are delivered, and its total fits; a message that such a group stands for is
      -- selected and not dropped, and no message of such a group is in Local Context; every selected
      -- message is dropped, in Local Context, one that such a group stands for, or one of which the
      -- closure meets Local Context; and what was dropped at the start stays so.
      pub shed_loop-IsShed :
          (fuel : ℕ) (st : ShedState fl)
          → missing st.dropped (ids fl i) < fuel
          → (shed_loop fl fuel i st ≢ err out_of_fuel)
            × ((out : ShedResult fl) → shed_loop fl fuel i st ≡ ok out → IsShed i st.dropped out)
      unfolding shed_loop
      shed_loop-IsShed zero st h = absurd (omega arith)
      shed_loop-IsShed (suc fuel) st h = elim (Result-cases (collected_in fl i st)) [
        | inr (e, failed) ↦
            let r = shed_loop_failed fl i fuel st e failed in
            (
              λ q.
                  let same : e ≡ out_of_fuel = cc in
                  selected_groups-ne-out_of_fuel fl i.corpus i.index st.dropped i.local_ids
                    i.selected (failed ∙ ap err same),
              λ out q. absurd (cc),
            )
        | inl (groups, found) ↦ elim (shed_round_ways fl i st (ordered_groups fl i groups)) [
          | inl (out, done, delivered, state, wire, total, enough) ↦
              let r = shed_loop-suc fl i fuel st groups (finish (ok out)) found done in
              (
                λ q. cc,
                λ out' q.
                    let same : out ≡ out' = cc in
                    subst (IsShed i st.dropped) same
                      (finished-IsShed st groups out found delivered state wire total enough),
              )
          | inr (inl (n, overflow)) ↦
              let r =
                shed_loop-suc fl i fuel st groups (finish (err (fixed_overflow n))) found
                  overflow in
              (λ q. cc, λ out q. absurd (cc))
          | inr (inr (g, more, lowest)) ↦
              let r = shed_loop-suc fl i fuel st groups (again (after_drop fl i st g)) found more in
              let fewer = after_drop_fewer st groups g found lowest in
              let ih = shed_loop-IsShed fuel (after_drop fl i st g) (omega arith) in
              (
                λ q. ih.0 (sym r ∙ q),
                λ out q.
                    let s = ih.1 out (sym r ∙ q) in
                    record {
                      wired = s.wired;
                      counted = s.counted;
                      fitting = s.fitting;
                      deliverable = s.deliverable;
                      accounted = s.accounted;
                      kept = λ x k. s.kept x (dropped_grows st g x k);
                    },
              )
        ]
      ]

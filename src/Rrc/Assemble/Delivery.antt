-- ===== src/Rrc/Assemble/Delivery.antt =====
-- The delivery groups of a round: every group may be delivered, and every selected message is
-- accounted for.
use grudge_ai.Prelude.{
  String, ◌≡◌, refl, sym, ◌∙◌, ap, subst, true, ◌||◌, some, List, [], ◌∷◌, any, elem, All, All-map,
  All-sort_stable, any-sort_stable, ok, Dict, lookup, Bool-cases, inl, inr, ◌⊎◌, arith, eq_iff,
}
use grudge_ai.Rrc.Floats.{Floats}
use grudge_ai.Rrc.Message.{Message}
use grudge_ai.Rrc.Protocol.{DeliveryGroup, ProtocolIndex, close_group}
use grudge_ai.Rrc.Protocol.Closure.{close_group-closure}
use grudge_ai.Rrc.Assembly.{group_overlaps, merge_delivery_groups}
use grudge_ai.Rrc.Assembly.Merging.{
  stands_for, stands_for-merge_delivery_groups, All-merge_delivery_groups,
}
use grudge_ai.Rrc.Assemble.{
  SelectedMessage, selected_groups, ordered_groups, ShedInput, position_less,
}
use grudge_ai.Rrc.Assemble.Groups.{
  IsNamed, selected_ids, IsDeliverable, Collected, selected_groups-step, wider,
  single-IsDeliverable, absorb-IsDeliverable, sort_root_ids-IsDeliverable,
}

module _ (fl : Floats) where
  open fl use {F}

  -- The closure of a selected message holds a message of Local Context, which delivers it.
  pub record IsLocal (corpus : Dict Message) (index : ProtocolIndex) (local_ids : List String)
      (s : SelectedMessage F) : Type 0 where
    pub root : Message
    pub found : lookup s.message_id corpus ≡ some root
    pub group : DeliveryGroup F
    pub closed : close_group index root s.effective_score ≡ ok group
    pub overlaps : group_overlaps group local_ids ≡ true

  -- A selected message is dropped, or local, or a group stands for it, or its closure is local.
  abbrev pub IsAccounted :
      Dict Message
      → ProtocolIndex
      → List String
      → List String
      → List (DeliveryGroup F)
      → SelectedMessage F
      → Type 0
  IsAccounted corpus index dropped local_ids gs s =
      ((elem s.message_id dropped || elem s.message_id local_ids || stands_for s.message_id gs)
        ≡ true)
      ⊎ IsLocal corpus index local_ids s

  module _ (corpus : Dict Message) (index : ProtocolIndex) (dropped local_ids : List String)
      (named : IsNamed corpus) where
    Collected-root_ids :
        (s : SelectedMessage F) (ss : List (SelectedMessage F)) (gs : List (DeliveryGroup F))
        (c : Collected fl corpus index dropped local_ids s ss gs)
        → c.group.root_ids ≡ s.message_id ∷ []
    Collected-root_ids s ss gs c =
        let (here, closed, reached, roots, score) =
          close_group-closure index c.root s.effective_score c.closed in
        subst (λ r. c.group.root_ids ≡ r ∷ []) (named s.message_id c.root c.found) roots

    -- Every group that is collected may be delivered.
    pub selected_groups-IsDeliverable :
        (ss : List (SelectedMessage F)) (gs : List (DeliveryGroup F))
        → selected_groups fl corpus index dropped local_ids ss ≡ ok gs
        → All (IsDeliverable dropped local_ids (selected_ids ss)) gs
    unfolding selected_groups
    selected_groups-IsDeliverable [] gs h =
        let e : [] ≡ gs = cc in subst (All (IsDeliverable dropped local_ids [])) e tt
    selected_groups-IsDeliverable (s ∷ ss) gs h =
        let widen = All-map (wider fl dropped local_ids s.message_id (selected_ids ss)) in
        let deliverable = All (IsDeliverable dropped local_ids (selected_ids (s ∷ ss))) in
        elim (selected_groups-step fl corpus index dropped local_ids s ss gs h) [
          | inl (skip, rest) ↦ widen gs (selected_groups-IsDeliverable ss gs rest)
          | inr c ↦
              let ih = widen c.others (selected_groups-IsDeliverable ss c.others c.rest) in
              subst deliverable (sym c.shape)
                (elim (Bool-cases (group_overlaps c.group local_ids)) [
                  | inl over ↦ rw over ih
                  | inr apart ↦ rw apart (
                    single-IsDeliverable fl dropped local_ids s.message_id (selected_ids ss) c.group
                        (Collected-root_ids s ss gs c) c.undropped apart,
                    ih,
                  )
                ])
        ]

    keep-IsAccounted :
        (g : DeliveryGroup F) (gs : List (DeliveryGroup F)) (s : SelectedMessage F)
        → IsAccounted corpus index dropped local_ids gs s
        → IsAccounted corpus index dropped local_ids (g ∷ gs) s
    unfolding stands_for
    keep-IsAccounted g gs s (inl h) = inl (ground (arith, h))
    keep-IsAccounted g gs s (inr h) = inr h

    -- Every selected message is accounted for by the groups that are collected.
    pub selected_groups-IsAccounted :
        (ss : List (SelectedMessage F)) (gs : List (DeliveryGroup F))
        → selected_groups fl corpus index dropped local_ids ss ≡ ok gs
        → All (IsAccounted corpus index dropped local_ids gs) ss
    unfolding stands_for
    selected_groups-IsAccounted [] gs h = tt
    selected_groups-IsAccounted (s ∷ ss) gs h =
        elim (selected_groups-step fl corpus index dropped local_ids s ss gs h) [
          | inl (skip, rest) ↦ (inl (ground (arith, skip)), selected_groups-IsAccounted ss gs rest)
          | inr c ↦
              let ih = selected_groups-IsAccounted ss c.others c.rest in
              let accounted = λ (gs : List (DeliveryGroup F)).
                All (IsAccounted corpus index dropped local_ids gs) (s ∷ ss) in
              elim (Bool-cases (group_overlaps c.group local_ids)) [
                | inl over ↦
                    let local : IsLocal corpus index local_ids s = record {
                      root = c.root;
                      found = c.found;
                      group = c.group;
                      closed = c.closed;
                      overlaps = over;
                    } in
                    subst accounted {x = c.others} (sym (c.shape ∙ rw over refl)) (inr local, ih)
                | inr apart ↦
                    let stands : (elem s.message_id dropped
                          || elem s.message_id local_ids
                          || stands_for s.message_id (c.group ∷ c.others))
                        ≡ true =
                      ground (
                        arith,
                        ap (elem s.message_id) (Collected-root_ids s ss gs c),
                        eq_iff s.message_id s.message_id,
                      ) in
                    subst accounted {x = c.group ∷ c.others} (sym (c.shape ∙ rw apart refl))
                      (inl stands, All-map (keep-IsAccounted c.group c.others) ss ih)
              ]
        ]

  module _ (dropped local_ids ids : List String) where
    -- Merging and ordering keep what is known of each group.
    pub ordered_groups-IsDeliverable :
        (i : ShedInput fl) (gs : List (DeliveryGroup F))
        → All (IsDeliverable dropped local_ids ids) gs
        → All (IsDeliverable dropped local_ids ids) (ordered_groups fl i gs)
    unfolding ordered_groups
    ordered_groups-IsDeliverable i gs h =
        All-sort_stable (position_less fl i.corpus) (IsDeliverable dropped local_ids ids)
          (merge_delivery_groups fl gs)
          (All-merge_delivery_groups fl (IsDeliverable dropped local_ids ids)
            (absorb-IsDeliverable fl dropped local_ids ids)
            (sort_root_ids-IsDeliverable fl dropped local_ids ids) gs h)

  stands_for-eq-any :
      (x : String) (gs : List (DeliveryGroup F)) → stands_for x gs ≡ any (λ g. elem x g.root_ids) gs
  unfolding stands_for
  stands_for-eq-any x [] = refl
  stands_for-eq-any x (g ∷ gs) = ground (arith, stands_for-eq-any x gs)

  -- Merging and ordering keep what the groups stand for.
  pub stands_for-ordered_groups :
      (x : String) (i : ShedInput fl) (gs : List (DeliveryGroup F))
      → stands_for x (ordered_groups fl i gs) ≡ stands_for x gs
  unfolding ordered_groups
  stands_for-ordered_groups x i gs =
      stands_for-eq-any x (ordered_groups fl i gs)
      ∙ any-sort_stable (position_less fl i.corpus) (λ g. elem x g.root_ids)
          (merge_delivery_groups fl gs)
      ∙ sym (stands_for-eq-any x (merge_delivery_groups fl gs))
      ∙ stands_for-merge_delivery_groups fl x gs

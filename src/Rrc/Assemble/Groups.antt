-- ===== src/Rrc/Assemble/Groups.antt =====
-- The groups that a round of the shed loop collects: what each of them is, and that no selected
-- message is forgotten.
use grudge_ai.Prelude.{
  String, ◌≡◌, refl, sym, ◌∙◌, ap, true, false, ◌||◌, none, some, List, [], ◌∷◌, elem, elem-append,
  Result, ok, err, ◌>>=◌, >>=-eq-ok, >>=-eq-err, ◌≢◌, Dict, lookup, eq_iff, Bool-cases,
  Option-cases, inl, inr, ◌⊎◌, arith, if◌then◌else◌,
}
use grudge_ai.Rrc.Floats.{Floats}
use grudge_ai.Rrc.Message.{Message}
use grudge_ai.Rrc.Protocol.{DeliveryGroup, ProtocolError, ProtocolIndex, close_group}
use grudge_ai.Rrc.Assembly.{group_overlaps, absorb, sort_root_ids}
use grudge_ai.Rrc.Assembly.Merging.{elem-sort_stable, absorb_messages, absorb_root_ids}
use grudge_ai.Rrc.Assemble.{
  AssembleError, out_of_fuel, missing_from_corpus, SelectedMessage, lift_protocol, selected_groups,
}
use grudge_ai.Rrc.Assemble.Fitting.{lift_protocol-ok}

-- The store gives under an id the message of that id.
abbrev pub IsNamed : Dict Message → Type 0
IsNamed corpus = (id : String) (m : Message) → lookup id corpus ≡ some m → m.id ≡ id

abbrev pub selected_ids : {F : Type 0} → List (SelectedMessage F) → List String
selected_ids [] = []
selected_ids (s ∷ ss) = s.message_id ∷ selected_ids ss

-- A group that may be delivered: none of its messages is in Local Context, and the messages it
-- stands for, of which there is one, are selected and not dropped.
pub record IsDeliverable {F : Type 0} (dropped local_ids ids : List String) (g : DeliveryGroup F)
    : Type 0 where
  pub apart : group_overlaps g local_ids ≡ false
  pub undropped : (r : String) → elem r g.root_ids ≡ true → elem r dropped ≡ false
  pub selected : (r : String) → elem r g.root_ids ≡ true → elem r ids ≡ true
  pub root : String
  pub rooted : elem root g.root_ids ≡ true

module _ (fl : Floats) where
  open fl use {F}

  module _ (dropped local_ids : List String) where
    pub absorb-IsDeliverable :
        (ids : List String) (old g : DeliveryGroup F)
        → IsDeliverable dropped local_ids ids old
        → IsDeliverable dropped local_ids ids g
        → IsDeliverable dropped local_ids ids (absorb fl old g)
    unfolding group_overlaps
    absorb-IsDeliverable ids old g a b = record {
      apart = rw (absorb_messages fl old g) a.apart;
      undropped = λ r h. ground (
        arith,
        elem-append r old.root_ids g.root_ids,
        ap (elem r) (absorb_root_ids fl old g),
        a.undropped r,
        b.undropped r,
        h,
      );
      selected = λ r h. ground (
        arith,
        elem-append r old.root_ids g.root_ids,
        ap (elem r) (absorb_root_ids fl old g),
        a.selected r,
        b.selected r,
        h,
      );
      root = a.root;
      rooted = ground (
        arith,
        elem-append a.root old.root_ids g.root_ids,
        ap (elem a.root) (absorb_root_ids fl old g),
        a.rooted,
      );
    }

    pub sort_root_ids-IsDeliverable :
        (ids : List String) (g : DeliveryGroup F)
        → IsDeliverable dropped local_ids ids g
        → IsDeliverable dropped local_ids ids (sort_root_ids fl g)
    unfolding group_overlaps
    sort_root_ids-IsDeliverable ids g a = record {
      apart = a.apart;
      undropped = λ r h. a.undropped r (sym (elem-sort_stable r g.root_ids) ∙ h);
      selected = λ r h. a.selected r (sym (elem-sort_stable r g.root_ids) ∙ h);
      root = a.root;
      rooted = elem-sort_stable a.root g.root_ids ∙ a.rooted;
    }

    pub wider :
        (x : String) (ids : List String) (g : DeliveryGroup F)
        → IsDeliverable dropped local_ids ids g
        → IsDeliverable dropped local_ids (x ∷ ids) g
    wider x ids g a = record {
      apart = a.apart;
      undropped = a.undropped;
      selected = λ r h. ground (arith, a.selected r h);
      root = a.root;
      rooted = a.rooted;
    }

    pub single-IsDeliverable :
        (x : String) (ids : List String) (g : DeliveryGroup F)
        → g.root_ids ≡ x ∷ []
        → elem x dropped ≡ false
        → group_overlaps g local_ids ≡ false
        → IsDeliverable dropped local_ids (x ∷ ids) g
    single-IsDeliverable x ids g e u a = record {
      apart = a;
      undropped = λ r h. ground (arith, ap (elem r) e, eq_iff x r, h, u);
      selected = λ r h. ground (arith, ap (elem r) e, eq_iff x r, h);
      root = x;
      rooted = ground (arith, ap (elem x) e, eq_iff x x);
    }

  -- What a selected message that is neither dropped nor local gave.
  pub record Collected (corpus : Dict Message) (index : ProtocolIndex)
      (dropped local_ids : List String) (s : SelectedMessage F) (ss : List (SelectedMessage F))
      (gs : List (DeliveryGroup F)) : Type 0 where
    pub undropped : elem s.message_id dropped ≡ false
    pub root : Message
    pub found : lookup s.message_id corpus ≡ some root
    pub group : DeliveryGroup F
    pub closed : close_group index root s.effective_score ≡ ok group
    pub others : List (DeliveryGroup F)
    pub rest : selected_groups fl corpus index dropped local_ids ss ≡ ok others
    pub shape : gs ≡ (if group_overlaps group local_ids then others else group ∷ others)

  module _ (corpus : Dict Message) (index : ProtocolIndex) (dropped local_ids : List String)
      (s : SelectedMessage F) (ss : List (SelectedMessage F)) (gs : List (DeliveryGroup F)) where
    collected :
        (root : Message)
        → elem s.message_id dropped ≡ false
        → lookup s.message_id corpus ≡ some root
        → (lift_protocol (close_group index root s.effective_score) >>= λ g.
            selected_groups fl corpus index dropped local_ids ss >>= λ others.
            ok (if group_overlaps g local_ids then others else g ∷ others))
          ≡ ok gs
        → Collected corpus index dropped local_ids s ss gs
    collected root undropped found h =
        let (g, closed, h') =
          >>=-eq-ok (lift_protocol (close_group index root s.effective_score)) _ h in
        let (others, rest, h'') =
          >>=-eq-ok (selected_groups fl corpus index dropped local_ids ss) _ h' in
        record {
          undropped = undropped;
          root = root;
          found = found;
          group = g;
          closed = lift_protocol-ok fl (close_group index root s.effective_score) g closed;
          others = others;
          rest = rest;
          shape = cc;
        }

    abbrev rest_of : Result AssembleError (List (DeliveryGroup F))
    rest_of = selected_groups fl corpus index dropped local_ids ss

    selected_groups-skipped :
        (elem s.message_id dropped || elem s.message_id local_ids) ≡ true
        → selected_groups fl corpus index dropped local_ids (s ∷ ss) ≡ rest_of
    unfolding selected_groups
    selected_groups-skipped skip = rw skip refl

    selected_groups-lost :
        (elem s.message_id dropped || elem s.message_id local_ids) ≡ false
        → lookup s.message_id corpus ≡ none
        → selected_groups fl corpus index dropped local_ids (s ∷ ss)
          ≡ err (missing_from_corpus s.message_id)
    unfolding selected_groups
    selected_groups-lost keep lost = rw (keep, lost) refl

    selected_groups-found :
        (root : Message)
        → (elem s.message_id dropped || elem s.message_id local_ids) ≡ false
        → lookup s.message_id corpus ≡ some root
        → selected_groups fl corpus index dropped local_ids (s ∷ ss) ≡ (
            lift_protocol (close_group index root s.effective_score) >>= λ g.
            rest_of >>= λ others. ok (if group_overlaps g local_ids then others else g ∷ others))
    unfolding selected_groups
    selected_groups-found root keep found = rw (keep, found) refl

    pub selected_groups-step :
        selected_groups fl corpus index dropped local_ids (s ∷ ss) ≡ ok gs
        → (((elem s.message_id dropped || elem s.message_id local_ids) ≡ true) × (rest_of ≡ ok gs))
          ⊎ Collected corpus index dropped local_ids s ss gs
    selected_groups-step h =
        elim (Bool-cases (elem s.message_id dropped || elem s.message_id local_ids)) [
          | inl skip ↦ inl (skip, sym (selected_groups-skipped skip) ∙ h)
          | inr keep ↦ elim (Option-cases (lookup s.message_id corpus)) [
            | inl lost ↦ absurd (cc (selected_groups-lost keep lost, h))
            | inr (root, found) ↦ inr (
                collected root (ground (arith, keep)) found
                  (sym (selected_groups-found root keep found) ∙ h))
          ]
        ]

  lift_protocol-ne-out_of_fuel :
      {A : Type 0} (r : Result ProtocolError A) → lift_protocol r ≢ err out_of_fuel
  lift_protocol-ne-out_of_fuel (ok a) h = cc
  lift_protocol-ne-out_of_fuel (err e) h = cc

  -- Collecting the groups of a round takes no fuel.
  pub selected_groups-ne-out_of_fuel :
      (corpus : Dict Message) (index : ProtocolIndex) (dropped local_ids : List String)
      (ss : List (SelectedMessage F))
      → selected_groups fl corpus index dropped local_ids ss ≢ err out_of_fuel
  unfolding selected_groups
  selected_groups-ne-out_of_fuel corpus index dropped local_ids [] h = cc
  selected_groups-ne-out_of_fuel corpus index dropped local_ids (s ∷ ss) h =
      let ih = selected_groups-ne-out_of_fuel corpus index dropped local_ids ss in
      elim (Bool-cases (elem s.message_id dropped || elem s.message_id local_ids)) [
        | inl skip ↦
            ih (sym (selected_groups-skipped corpus index dropped local_ids s ss [] skip) ∙ h)
        | inr keep ↦ elim (Option-cases (lookup s.message_id corpus)) [
          | inl lost ↦ cc (selected_groups-lost corpus index dropped local_ids s ss [] keep lost, h)
          | inr (root, found) ↦
              elim (>>=-eq-err (lift_protocol (close_group index root s.effective_score)) _ (
                sym (selected_groups-found corpus index dropped local_ids s ss [] root keep found)
                ∙ h)) [
                  | inl e ↦
                      lift_protocol-ne-out_of_fuel (close_group index root s.effective_score) e
                  | inr (g, closed, e) ↦
                      elim (>>=-eq-err (selected_groups fl corpus index dropped local_ids ss) _ e) [
                        | inl e' ↦ ih e'
                        | inr (others, rest, e') ↦ cc
                      ]
                ]
        ]
      ]

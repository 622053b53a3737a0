-- ===== src/Rrc/Assemble/Steps.antt =====
-- `Assemble` step by step: how far a successful assembly came, and which steps fail how.
use grudge_ai.Prelude.{
  ℕ, suc, String, ◌≡◌, ◌≢◌, refl, sym, ◌∙◌, not, Option, none, some, List, length, Result, ok, err,
  >>=-eq-ok, Bool-cases, inl, inr, ◌⊎◌, if◌then◌else◌,
}
use grudge_ai.Rrc.Floats.{Floats}
use grudge_ai.Rrc.Message.{Message}
use grudge_ai.Rrc.Edge.{SelectionScope}
use grudge_ai.Rrc.Engine.{Engine}
use grudge_ai.Rrc.Protocol.{ProtocolIndex}
use grudge_ai.Rrc.Chunk.{Config}
use grudge_ai.Rrc.LocalContext.{SerializedLocalContext, serialize_local_context}
use grudge_ai.Rrc.Assembly.{pinned_local_ids, last_semantic}
use grudge_ai.Rrc.Assemble.{
  AssembleError, out_of_fuel, empty_local_context, anchor_not_last_semantic, LocalFit, fit_local,
  SelectionResult,
}
use grudge_ai.Rrc.Assemble.Whole.{
  AssembleRequest, AssembleResult, Event, protocol_scope, effective_budget_of, meter_of,
  selected_event, event_from, selection_event, deliver, is_empty_list, is_focus, reuse_serialized,
  assemble_checked, assemble_from, assemble_for,
}

module _ (fl : Floats) where
  open fl use {F}

  module _
      (select : Engine F
        → SerializedLocalContext
        → Message
        → SelectionScope
        → String
        → Result String (Event F))
      (digest : List ℕ → String) (cfg : Config) (loss_ratio : F) (e : Engine F)
      (req : AssembleRequest F) where
    pub selected_event-ne-out_of_fuel :
        (r : Result String (Event F))
        → selected_event fl select digest cfg loss_ratio r ≢ err out_of_fuel
    selected_event-ne-out_of_fuel (ok ev) h = cc
    selected_event-ne-out_of_fuel (err e) h = cc

    pub event_from-ne-out_of_fuel :
        (anchor : Message) (prior : Option (SelectionResult F))
        (serialized : Option SerializedLocalContext)
        → event_from fl select digest cfg loss_ratio e req anchor prior serialized ≢ err out_of_fuel
    event_from-ne-out_of_fuel anchor (some prior) serialized h = cc
    event_from-ne-out_of_fuel anchor none (some s) h =
        selected_event-ne-out_of_fuel (select e s anchor req.scope req.thread_id) h
    event_from-ne-out_of_fuel anchor none none h = cc

    abbrev pub fitted : Message → ProtocolIndex → Result AssembleError (LocalFit F)
    fitted anchor index =
        fit_local fl (suc (length req.local_context)) (meter_of fl cfg req) req.budget
          (effective_budget_of fl req) req.system index
          (pinned_local_ids req.local_context anchor.id) req.local_context

    abbrev pub serialized_for : LocalFit F → Option SerializedLocalContext
    serialized_for fit =
        if reuse_serialized req.serialized_local_context fit.local
        then req.serialized_local_context
        else serialize_local_context digest fit.local req.current_turn_id cfg

    abbrev pub event_for : Message → LocalFit F → Result AssembleError (Event F)
    event_for anchor fit =
        selection_event fl select digest cfg loss_ratio e req anchor (serialized_for fit)

    -- How far a successful assembly came.
    pub record Steps (anchor : Message) (result : Engine F × AssembleResult F) : Type 0 where
      pub fit : LocalFit F
      pub ev : Event F
      pub selected : event_for anchor fit ≡ ok ev
      pub delivered :
          deliver fl select digest cfg loss_ratio req fit (serialized_for fit) ev ≡ ok result

    pub assemble_checked-ok :
        (anchor : Message) (result : Engine F × AssembleResult F)
        → assemble_checked fl select digest cfg loss_ratio e req anchor ≡ ok result
        → Steps anchor result
    unfolding assemble_checked
    assemble_checked-ok anchor result h =
        let (index, indexed, h') = >>=-eq-ok (protocol_scope req.store req.local_context) _ h in
        let (fit, fits, h'') = >>=-eq-ok (fitted anchor index) _ h' in
        let (ev, selected, delivered) = >>=-eq-ok (event_for anchor fit) _ h'' in
        record { fit = fit; ev = ev; selected = selected; delivered = delivered }

    -- An assembly that succeeds passed the checks.
    pub assemble_from-ways :
        (anchor : Message)
        → ((assemble_from fl select digest cfg loss_ratio e req anchor ≡ err empty_local_context)
            ⊎ (assemble_from fl select digest cfg loss_ratio e req anchor
                ≡ err anchor_not_last_semantic))
          ⊎ (assemble_from fl select digest cfg loss_ratio e req anchor
              ≡ assemble_checked fl select digest cfg loss_ratio e req anchor)
    unfolding assemble_from
    assemble_from-ways anchor =
        let focus = is_focus (last_semantic req.local_context req.current_turn_id) anchor in
        elim (Bool-cases (is_empty_list req.local_context)) [
          | inl empty ↦ inl (inl (rw empty refl))
          | inr some_left ↦ elim (Bool-cases (not focus)) [
            | inl other ↦ inl (inr (rw (some_left, other) refl))
            | inr same ↦ inr (rw (some_left, same) refl)
          ]
        ]

    pub assemble_for-ok :
        (anchor : Option Message) (result : Engine F × AssembleResult F)
        → assemble_for fl select digest cfg loss_ratio e req anchor ≡ ok result
        → (a : Message) × Steps a result
    assemble_for-ok none result h = absurd (cc)
    assemble_for-ok (some a) result h = elim (assemble_from-ways a) [
      | inl (inl empty) ↦ absurd (cc)
      | inl (inr other) ↦ absurd (cc)
      | inr passed ↦ (a, assemble_checked-ok a result (sym passed ∙ h))
    ]

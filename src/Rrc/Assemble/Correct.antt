-- ===== src/Rrc/Assemble/Correct.antt =====
-- `Assemble` as a whole: it ends, and its result holds what a caller relies on.
use grudge_ai.Prelude.{
  ℕ, suc, String, ◌≡◌, ◌≢◌, sym, ◌∙◌, Option, none, some, List, length, Result, ok, err, >>=-eq-err,
  Dict, inl, inr, arith,
}
use grudge_ai.Rrc.Floats.{Floats}
use grudge_ai.Rrc.Message.{Message}
use grudge_ai.Rrc.Edge.{SelectionScope}
use grudge_ai.Rrc.Engine.{Engine}
use grudge_ai.Rrc.Chunk.{Config}
use grudge_ai.Rrc.LocalContext.{SerializedLocalContext}
use grudge_ai.Rrc.Assembly.{pinned_local_ids}
use grudge_ai.Rrc.Assemble.{out_of_fuel}
use grudge_ai.Rrc.Assemble.Fitting.{fit_local-IsFit}
use grudge_ai.Rrc.Assemble.Groups.{IsNamed}
use grudge_ai.Rrc.Assemble.Whole.{
  AssembleRequest, AssembleResult, Event, protocol_scope, effective_budget_of, meter_of,
  selection_event, assemble_checked, assemble_for, assemble,
}
use grudge_ai.Rrc.Assemble.Outcome.{
  IsAssembled, protocol_scope-ne-out_of_fuel, deliver-ne-out_of_fuel, deliver-IsAssembled,
}
use grudge_ai.Rrc.Assemble.Steps.{
  event_from-ne-out_of_fuel, fitted, serialized_for, event_for, assemble_from-ways, assemble_for-ok,
}

module _ (fl : Floats) where
  open fl use {F}

  module _
      (select : Engine F
        → SerializedLocalContext
        → Message
        → SelectionScope
        → String
        → Result String (Event F))
      (digest : List ℕ → String) (cfg : Config) (loss_ratio : F) (e : Engine F)
      (req : AssembleRequest F) where
    module _
        (named : (ids : List String) (corpus : Dict Message)
          → req.store.messages ids ≡ ok corpus
          → IsNamed corpus) where
      assemble_checked-ne-out_of_fuel :
          (anchor : Message)
          → assemble_checked fl select digest cfg loss_ratio e req anchor ≢ err out_of_fuel
      unfolding assemble_checked selection_event
      assemble_checked-ne-out_of_fuel anchor h =
          elim (>>=-eq-err (protocol_scope req.store req.local_context) _ h) [
            | inl q ↦ protocol_scope-ne-out_of_fuel req.store req.local_context q
            | inr (index, indexed, h') ↦
                elim (>>=-eq-err (fitted fl select digest cfg loss_ratio e req anchor index) _ h') [
                  | inl q ↦
                      (fit_local-IsFit fl (meter_of fl cfg req) req.budget
                          (effective_budget_of fl req) req.system index
                          (pinned_local_ids req.local_context anchor.id)
                          (suc (length req.local_context)) req.local_context (omega arith)).0
                        q
                  | inr (fit, fits, h'') ↦
                      elim (>>=-eq-err (event_for fl select digest cfg loss_ratio e req anchor fit)
                        _ h'') [
                          | inl q ↦
                              event_from-ne-out_of_fuel fl select digest cfg loss_ratio e req anchor
                                req.prior_selection
                                (serialized_for fl select digest cfg loss_ratio e req fit) q
                          | inr (ev, selected, q) ↦
                              deliver-ne-out_of_fuel fl select digest cfg loss_ratio req fit
                                (serialized_for fl select digest cfg loss_ratio e req fit) ev named
                                q
                        ]
                ]
          ]

      assemble_for-ne-out_of_fuel :
          (anchor : Option Message)
          → assemble_for fl select digest cfg loss_ratio e req anchor ≢ err out_of_fuel
      assemble_for-ne-out_of_fuel none h = cc
      assemble_for-ne-out_of_fuel (some a) h =
          elim (assemble_from-ways fl select digest cfg loss_ratio e req a) [
            | inl (inl empty) ↦ cc
            | inl (inr other) ↦ cc
            | inr passed ↦ assemble_checked-ne-out_of_fuel a (sym passed ∙ h)
          ]

      -- Where the store names messages by their ids, `Assemble` ends, whatever the request, the
      -- selection and the floating-point numbers are. A result fits the effective budget (where there
      -- is a budget), its price is the engine's last price for the thread, every excluded message is
      -- among those that were shed, and every group that is delivered stands only for messages that were
      -- selected and not shed.
      pub assemble-IsAssembled :
          (assemble fl select digest cfg loss_ratio e req ≢ err out_of_fuel)
          × ((e' : Engine F) (r : AssembleResult F)
              → assemble fl select digest cfg loss_ratio e req ≡ ok (e', r)
              → IsAssembled fl req e' r)
      unfolding assemble
      assemble-IsAssembled = (
        assemble_for-ne-out_of_fuel req.anchor,
        λ e' r h.
            let (a, steps) =
              assemble_for-ok fl select digest cfg loss_ratio e req req.anchor (e', r) h in
            deliver-IsAssembled fl select digest cfg loss_ratio req steps.fit
              (serialized_for fl select digest cfg loss_ratio e req steps.fit) steps.ev named e' r
              steps.delivered,
      )

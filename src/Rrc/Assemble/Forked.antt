-- ===== src/Rrc/Assemble/Forked.antt =====
-- `Assemble` on an engine without a price map, as `Fork` makes it: it never succeeds.
use grudge_ai.Prelude.{
  ℕ, String, ◌≡◌, ◌≢◌, refl, ◌∙◌, subst, ap, Result-cases, succeeds, false, Option, none, some,
  List, Result, ok, err, inl, inr,
}
use grudge_ai.Rrc.Floats.{Floats}
use grudge_ai.Rrc.Message.{Message}
use grudge_ai.Rrc.Edge.{SelectionScope}
use grudge_ai.Rrc.Engine.{Engine, set_price, fork}
use grudge_ai.Rrc.Chunk.{Config}
use grudge_ai.Rrc.LocalContext.{SerializedLocalContext}
use grudge_ai.Rrc.Assemble.{AssembleError, LocalFit, SelectionResult}
use grudge_ai.Rrc.Assemble.Whole.{
  AssembleRequest, AssembleResult, Event, selected_event, event_from, selection_event, deliver,
  assemble,
}
use grudge_ai.Rrc.Assemble.Outcome.{deliver-ok, publish-ok}
use grudge_ai.Rrc.Assemble.Steps.{serialized_for, assemble_for-ok}

module _ (fl : Floats) where
  open fl use {F}

  module _
      (select : Engine F
        → SerializedLocalContext
        → Message
        → SelectionScope
        → String
        → Result String (Event F))
      (digest : List ℕ → String) (cfg : Config) (loss_ratio : F) (e : Engine F)
      (req : AssembleRequest F) where
    selected_event-ok :
        (r : Result String (Event F)) (ev : Event F)
        → selected_event fl select digest cfg loss_ratio r ≡ ok ev
        → r ≡ ok ev
    selected_event-ok (ok ev') ev h = cc
    selected_event-ok (err q) ev h = absurd (cc)

    same_price :
        (x ev : Event F)
        → ◌≡◌ {A = Result AssembleError (Event F)} (ok x) (ok ev)
        → x.engine.price ≡ none
        → ev.engine.price ≡ none
    same_price x ev h nil =
        let same : x ≡ ev = cc in subst (λ (x : Event F). x.engine.price ≡ none) same nil

    set_price_unmade :
        (e : Engine F) (t : String) (mu : F) (e' : Engine F)
        → e.price ≡ none
        → set_price e t mu ≢ some e'
    unfolding set_price
    set_price_unmade e t mu e' nil h = let k : set_price e t mu ≡ none = rw nil refl in cc

    module _
        (keeps : (s : SerializedLocalContext) (anchor : Message) (ev : Event F)
          → select e s anchor req.scope req.thread_id ≡ ok ev
          → ev.engine.price ≡ e.price)
        (nil : e.price ≡ none) where
      event_from-price :
          (anchor : Message) (prior : Option (SelectionResult F))
          (serialized : Option SerializedLocalContext) (ev : Event F)
          → event_from fl select digest cfg loss_ratio e req anchor prior serialized ≡ ok ev
          → ev.engine.price ≡ none
      event_from-price anchor (some prior) serialized ev h = same_price _ ev h nil
      event_from-price anchor none (some s) ev h =
          keeps s anchor ev (selected_event-ok (select e s anchor req.scope req.thread_id) ev h)
          ∙ nil
      event_from-price anchor none none ev h = same_price _ ev h nil

      deliver_unpriced :
          (fit : LocalFit F) (serialized : Option SerializedLocalContext) (ev : Event F)
          (result : Engine F × AssembleResult F)
          → ev.engine.price ≡ none
          → deliver fl select digest cfg loss_ratio req fit serialized ev ≢ ok result
      deliver_unpriced fit serialized ev result unpriced h =
          let d = deliver-ok fl select digest cfg loss_ratio req fit serialized ev result h in
          let (set, same) =
            publish-ok fl select digest cfg loss_ratio req fit serialized ev d.out result.0 result.1
              d.done in
          set_price_unmade ev.engine req.thread_id d.out.state.price result.0 unpriced set

      assemble_unpriced :
          (result : Engine F × AssembleResult F)
          → assemble fl select digest cfg loss_ratio e req ≢ ok result
      unfolding assemble selection_event
      assemble_unpriced result h =
          let (a, steps) =
            assemble_for-ok fl select digest cfg loss_ratio e req req.anchor result h in
          deliver_unpriced steps.fit
            (serialized_for fl select digest cfg loss_ratio e req steps.fit) steps.ev result
            (event_from-price a req.prior_selection
              (serialized_for fl select digest cfg loss_ratio e req steps.fit) steps.ev
              steps.selected)
            steps.delivered

  -- On a fork of any engine `Assemble` never succeeds, where selecting leaves the engine's price map as
  -- it is: the price that it publishes at its end goes to a nil map.
  pub assemble-fork_fails :
      (select : Engine F
        → SerializedLocalContext
        → Message
        → SelectionScope
        → String
        → Result String (Event F))
      (digest : List ℕ → String) (cfg : Config) (loss_ratio : F) (e : Engine F)
      (req : AssembleRequest F)
      → ((s : SerializedLocalContext) (anchor : Message) (ev : Event F)
          → select (fork e) s anchor req.scope req.thread_id ≡ ok ev
          → ev.engine.price ≡ (fork e).price)
      → succeeds (assemble fl select digest cfg loss_ratio (fork e) req) ≡ false
  unfolding fork
  assemble-fork_fails select digest cfg loss_ratio e req keeps =
      elim (Result-cases (assemble fl select digest cfg loss_ratio (fork e) req)) [
        | inl (result, done) ↦
            absurd
              (assemble_unpriced select digest cfg loss_ratio (fork e) req keeps refl result done)
        | inr (failure, failed) ↦ ap succeeds failed
      ]

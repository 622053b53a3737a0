-- ===== src/Rrc/Assemble/Whole.antt =====
-- `Assemble` itself: the checks, Local Context, the selection event, the shed loop, the price.
use Prim.Native.String.{◌++◌ as concat}
use grudge_ai.Prelude.{
  ℕ, suc, ◌+◌, String, Bool, true, false, not, ◌&&◌, Option, none, some, List, [], ◌∷◌, ◌++◌, map,
  length, text_eq, text_ltb, sort_stable, Result, ok, err, ◌>>=◌, Dict, entries, ℤ, if◌then◌else◌,
}
use grudge_ai.Rrc.Floats.{Floats}
use grudge_ai.Rrc.Message.{Message}
use grudge_ai.Rrc.Edge.{Edge, SelectionScope}
use grudge_ai.Rrc.Engine.{Engine, set_price}
use grudge_ai.Rrc.Protocol.{DeliveryGroup, ProtocolIndex, new_protocol_index}
use grudge_ai.Rrc.Chunk.{Config}
use grudge_ai.Rrc.LocalContext.{SerializedLocalContext, serialize_local_context, message_ids_of}
use grudge_ai.Rrc.Assembly.{
  LlmMessage, pinned_local_ids, last_semantic, closure_count, same_ids, flatten_groups,
}
use grudge_ai.Rrc.Assemble.{
  AssembleError, nil_anchor, empty_local_context, anchor_not_last_semantic, store_failed,
  select_failed, nil_price_map, SelectionResult, Meter, LocalFit, fit_local, add_ids, ShedInput,
  ShedResult, shed_loop,
}

-- The interface `CorpusStore`.
pub record CorpusStore : Type 0 where
  pub messages : List String → Result String (Dict Message)
  pub turn_peers : List Message → Result String (List Message)

pub record AssembleRequest (F : Type 0) : Type 0 where
  pub serialized_local_context : Option SerializedLocalContext
  pub anchor : Option Message
  pub store : CorpusStore
  pub local_context : List Message
  pub scope : SelectionScope
  pub thread_id : String
  pub system : Option LlmMessage
  pub budget : ℤ
  pub headroom_pct : F
  pub per_msg_delim : ℕ
  pub fixed_tokens : ℕ
  pub exclude_ids : List String
  pub current_turn_id : String
  pub count_text : LlmMessage → List ℕ
  pub prior_selection : Option (SelectionResult F)

pub record AssembleResult (F : Type 0) : Type 0 where
  pub wire : List LlmMessage
  pub selection : SelectionResult F
  pub serialized_local_context : Option SerializedLocalContext
  pub edges : List (Edge F)
  pub shed : List String
  pub delivered : List (DeliveryGroup F)
  pub local_groups : List (DeliveryGroup F)
  pub selected_count : ℕ
  pub local_context_count : ℕ
  pub closures : ℕ
  pub shedded_count : ℕ
  pub total_tokens : ℕ
  pub effective_budget : ℤ
  pub realized_price : F

-- What the locked section gives: the engine after it, the selection, and the edges it formed.
pub record Event (F : Type 0) : Type 0 where
  pub engine : Engine F
  pub selection : SelectionResult F
  pub edges : List (Edge F)

abbrev pub from_store {ℓ} : {A : Type ℓ} → Result String A → Result AssembleError A
from_store (ok a) = ok a
from_store (err e) = err (store_failed e)

-- `protocolScope` with a store; a nil store, for which it indexes the messages alone, is not among
-- the requests of the model.
unfoldable pub protocol_scope : CorpusStore → List Message → Result AssembleError ProtocolIndex
protocol_scope store msgs =
    from_store (store.turn_peers msgs) >>= λ peers. ok (new_protocol_index (msgs ++ peers))

-- `last == nil || last.Id != req.Anchor.Id`
abbrev pub is_focus : Option Message → Message → Bool
is_focus none anchor = false
is_focus (some last) anchor = text_eq last.id anchor.id

abbrev pub is_empty_list : List Message → Bool
is_empty_list [] = true
is_empty_list (m ∷ ms) = false

-- The serialization that came with the request, where it is that of the messages which stay.
abbrev pub reuse_serialized : Option SerializedLocalContext → List Message → Bool
reuse_serialized none local = false
reuse_serialized (some s) local = same_ids s.message_ids (message_ids_of local)

module _ (fl : Floats) where
  open fl use {F}

  unfoldable pub effective_budget_of : AssembleRequest F → ℤ
  effective_budget_of req =
      if fl.lt fl.zero req.headroom_pct && fl.le req.headroom_pct fl.one
      then fl.to_ℤ (fl.mul (fl.of_ℤ req.budget) req.headroom_pct)
      else req.budget

  abbrev pub meter_of : Config → AssembleRequest F → Meter
  meter_of cfg req = record {
    count_text = req.count_text;
    estimate = cfg.estimator;
    fixed = req.fixed_tokens;
    delim = req.per_msg_delim;
  }

  module _
      (select : Engine F
        → SerializedLocalContext
        → Message
        → SelectionScope
        → String
        → Result String (Event F))
      (digest : List ℕ → String) (cfg : Config) (loss_ratio : F) where
    abbrev pub selected_event : Result String (Event F) → Result AssembleError (Event F)
    selected_event (ok ev) = ok ev
    selected_event (err e) = err (select_failed e)

    abbrev pub event_from :
        Engine F
        → AssembleRequest F
        → Message
        → Option (SelectionResult F)
        → Option SerializedLocalContext
        → Result AssembleError (Event F)
    event_from e req anchor (some prior) serialized =
        ok (record { engine = e; selection = prior; edges = [] })
    event_from e req anchor none (some s) =
        selected_event (select e s anchor req.scope req.thread_id)
    event_from e req anchor none none = ok (record {
      engine = e;
      selection = record {
        event_id = concat "sel-" anchor.id;
        scope = req.scope;
        thread_id = req.thread_id;
        selected = [];
        anchor_message_id = anchor.id;
      };
      edges = [];
    })

    -- The `switch`: an earlier selection, a new event, or none where nothing is asked.
    unfoldable pub selection_event :
        Engine F
        → AssembleRequest F
        → Message
        → Option SerializedLocalContext
        → Result AssembleError (Event F)
    selection_event e req anchor serialized = event_from e req anchor req.prior_selection serialized

    -- What the shed loop reads.
    unfoldable pub shed_input_of :
        AssembleRequest F → LocalFit F → Event F → Dict Message → ProtocolIndex → ShedInput fl
    shed_input_of req fit ev corpus index = record {
      meter = meter_of cfg req;
      budget = req.budget;
      effective = effective_budget_of req;
      loss_ratio = loss_ratio;
      system = req.system;
      corpus = corpus;
      index = index;
      local_ids = message_ids_of (flatten_groups fit.groups);
      local_wire = fit.wire;
      selected = ev.selection.selected;
    }

    unfoldable pub result_of :
        AssembleRequest F
        → LocalFit F
        → Option SerializedLocalContext
        → Event F
        → ShedResult fl
        → AssembleResult F
    result_of req fit serialized ev out = record {
      wire = out.wire;
      selection = ev.selection;
      serialized_local_context = serialized;
      edges = ev.edges;
      shed = sort_stable text_ltb out.state.dropped;
      delivered = out.delivered;
      local_groups = fit.groups;
      selected_count = length out.delivered;
      local_context_count = length fit.local;
      closures = closure_count out.delivered + closure_count fit.groups;
      shedded_count = length out.state.dropped;
      total_tokens = out.total;
      effective_budget = effective_budget_of req;
      realized_price = out.state.price;
    }

    abbrev pub returned :
        Option (Engine F) → AssembleResult F → Result AssembleError (Engine F × AssembleResult F)
    returned none r = err nil_price_map
    returned (some engine) r = ok (engine, r)

    -- The end of `Assemble`: the price is published, and the result returned.
    unfoldable pub publish :
        AssembleRequest F
        → LocalFit F
        → Option SerializedLocalContext
        → Event F
        → ShedResult fl
        → Result AssembleError (Engine F × AssembleResult F)
    publish req fit serialized ev out =
        returned (set_price ev.engine req.thread_id out.state.price)
          (result_of req fit serialized ev out)

    -- The part after the selection: fetch, shed, publish the price.
    unfoldable pub deliver :
        AssembleRequest F
        → LocalFit F
        → Option SerializedLocalContext
        → Event F
        → Result AssembleError (Engine F × AssembleResult F)
    deliver req fit serialized ev =
        from_store (req.store.messages (map (λ s. s.message_id) ev.selection.selected))
        >>= λ corpus. protocol_scope req.store (entries corpus) >>= λ index.
            shed_loop fl (suc (length ev.selection.selected))
              (shed_input_of req fit ev corpus index)
              (record { dropped = add_ids req.exclude_ids []; price = fl.zero })
            >>= λ out. publish req fit serialized ev out

    -- `Assemble` after its checks of the request.
    unfoldable pub assemble_checked :
        Engine F → AssembleRequest F → Message → Result AssembleError (Engine F × AssembleResult F)
    assemble_checked e req anchor = protocol_scope req.store req.local_context >>= λ index.
        fit_local fl (suc (length req.local_context)) (meter_of cfg req) req.budget
          (effective_budget_of req) req.system index (pinned_local_ids req.local_context anchor.id)
          req.local_context
        >>= λ fit.
            let serialized =
              if reuse_serialized req.serialized_local_context fit.local
              then req.serialized_local_context
              else serialize_local_context digest fit.local req.current_turn_id cfg in
            selection_event e req anchor serialized >>= λ ev. deliver req fit serialized ev

    unfoldable pub assemble_from :
        Engine F → AssembleRequest F → Message → Result AssembleError (Engine F × AssembleResult F)
    assemble_from e req anchor =
        if is_empty_list req.local_context
        then err empty_local_context
        else if not (is_focus (last_semantic req.local_context req.current_turn_id) anchor)
        then err anchor_not_last_semantic
        else assemble_checked e req anchor

    abbrev pub assemble_for :
        Engine F
        → AssembleRequest F
        → Option Message
        → Result AssembleError (Engine F × AssembleResult F)
    assemble_for e req none = err nil_anchor
    assemble_for e req (some anchor) = assemble_from e req anchor

    unfoldable pub assemble :
        Engine F → AssembleRequest F → Result AssembleError (Engine F × AssembleResult F)
    assemble e req = assemble_for e req req.anchor

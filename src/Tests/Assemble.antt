-- ===== src/Tests/Assemble.antt =====
-- Local Context and the shed loop on the sample thread.
use grudge_ai.Prelude.{
  ℕ, ◌<◌, ◌≡◌, ◌≢◌, refl, List, [], ◌∷◌, none, some, Result, ok, err, pos, arith, subst, false,
  true, String, Dict, lookup, missing, missing-le-length, succeeds, eq_iff,
}
use grudge_ai.Rrc.Message.{Message}
use grudge_ai.Rrc.Edge.{SelectionScope}
use grudge_ai.Rrc.Engine.{Engine, new_engine, fork}
use grudge_ai.Rrc.Protocol.{DeliveryGroup, ProtocolIndex, new_protocol_index}
use grudge_ai.Rrc.Chunk.{Config}
use grudge_ai.Rrc.LocalContext.{SerializedLocalContext}
use grudge_ai.Rrc.Assembly.{merge_delivery_groups}
use grudge_ai.Rrc.Assembly.Merging.{
  stands_for, stands_for-merge_delivery_groups, HaveDistinctKeys,
  merge_delivery_groups-HaveDistinctKeys,
}
use grudge_ai.Rrc.Assemble.{
  Meter, LocalFit, fit_local, out_of_fuel, SelectedMessage, ShedInput, ShedState, ShedResult,
  shed_loop,
}
use grudge_ai.Rrc.Assemble.Fitting.{IsFit, fit_local-IsFit}
use grudge_ai.Rrc.Assemble.Groups.{IsNamed, selected_ids}
use grudge_ai.Rrc.Assemble.Shedding.{IsShed, shed_loop-IsShed}
use grudge_ai.Rrc.Assemble.Whole.{CorpusStore, AssembleRequest, AssembleResult, Event, assemble}
use grudge_ai.Rrc.Assemble.Outcome.{IsAssembled}
use grudge_ai.Rrc.Assemble.Correct.{assemble-IsAssembled}
use grudge_ai.Rrc.Assemble.Forked.{assemble-fork_fails}
use grudge_ai.Rrc.Assembly.{
  close_roots, close_each, merge_loop, merge_into, absorb, closure_key, groups_to_wire,
  collect_messages, flatten_groups, message_to_llm, wire_tokens, message_tokens, pinned_local_ids,
  pin_loop, reversed, last_semantic, first_semantic, group_overlaps,
}
use grudge_ai.Rrc.Message.{wire_less, thread_position_less}
use grudge_ai.Rrc.LocalContext.{has_semantic_block}
use grudge_ai.Rrc.Protocol.{
  close_group, close_loop, visit_blocks, note, counterpart, index_messages, index_blocks,
  index_block, protocol_key,
}
use grudge_ai.Rrc.Engine.{set_price}
use grudge_ai.Rrc.Assemble.{
  AssembleError, fit_round, shed_round, selected_groups, ordered_groups, final_wire, wire_total,
  add_ids,
}
use grudge_ai.Rrc.Assemble.Whole.{
  assemble_from, assemble_checked, protocol_scope, selection_event, deliver, publish, result_of,
  shed_input_of, effective_budget_of,
}
use grudge_ai.Prelude.{sort_stable}
use grudge_ai.Tests.{nat_floats, question, call, result}

abbrev thread : List Message
thread = question ∷ call ∷ result ∷ []

abbrev thread_index : ProtocolIndex
thread_index = new_protocol_index thread

abbrev meter : Meter
meter = record { count_text = λ m. []; estimate = λ s. 3; fixed = 1; delim = 1 }

fit_local-IsFit_example :
    (fit_local nat_floats 4 meter (pos 10) (pos 10) none thread_index ("m3" ∷ []) thread
      ≢ err out_of_fuel)
    × ((f : LocalFit ℕ)
        → fit_local nat_floats 4 meter (pos 10) (pos 10) none thread_index ("m3" ∷ []) thread ≡ ok f
        → IsFit nat_floats meter (pos 10) (pos 10) none thread_index ("m3" ∷ []) thread f)
fit_local-IsFit_example =
    fit_local-IsFit nat_floats meter (pos 10) (pos 10) none thread_index ("m3" ∷ []) 4 thread
      (omega arith)

abbrev call_group : DeliveryGroup ℕ
call_group = record {
  root_id = "m2";
  root_ids = "m2" ∷ [];
  score = 0;
  messages = call ∷ result ∷ [];
}

abbrev result_group : DeliveryGroup ℕ
result_group = record {
  root_id = "m3";
  root_ids = "m3" ∷ [];
  score = 5;
  messages = call ∷ result ∷ [];
}

abbrev groups : List (DeliveryGroup ℕ)
groups = call_group ∷ result_group ∷ []

stands_for-merge_delivery_groups_example :
    stands_for "m3" (merge_delivery_groups nat_floats groups) ≡ stands_for "m3" groups
stands_for-merge_delivery_groups_example = stands_for-merge_delivery_groups nat_floats "m3" groups

merge_delivery_groups-HaveDistinctKeys_example :
    HaveDistinctKeys (merge_delivery_groups nat_floats groups)
merge_delivery_groups-HaveDistinctKeys_example =
    merge_delivery_groups-HaveDistinctKeys nat_floats groups

abbrev corpus : Dict Message
corpus = ("m2", call) ∷ ("m3", result) ∷ []

corpus-IsNamed : IsNamed corpus
unfolding lookup
corpus-IsNamed id m h = ground (arith, eq_iff "m2" id, eq_iff "m3" id, h)

abbrev selected : String → SelectedMessage ℕ
selected id = record {
  message_id = id;
  effective_score = 0;
  hop_depth = 1;
  via_edges = [];
  thread_id = "t";
  cross_thread = false;
  provenance_weight = 0;
}

abbrev input : ShedInput nat_floats
input = record {
  meter = meter;
  budget = pos 7;
  effective = pos 7;
  loss_ratio = 0;
  system = none;
  corpus = corpus;
  index = thread_index;
  local_ids = "m1" ∷ [];
  local_wire = [];
  selected = selected "m2" ∷ selected "m3" ∷ [];
}

abbrev start : ShedState nat_floats
start = record { dropped = []; price = 0 }

start_missing : missing start.dropped (selected_ids input.selected) < 3
start_missing = omega (arith, missing-le-length start.dropped (selected_ids input.selected))

shed_loop-IsShed_example :
    (shed_loop nat_floats 3 input start ≢ err out_of_fuel)
    × ((out : ShedResult nat_floats)
        → shed_loop nat_floats 3 input start ≡ ok out
        → IsShed nat_floats input [] out)
shed_loop-IsShed_example = shed_loop-IsShed nat_floats input corpus-IsNamed 3 start start_missing

abbrev store : CorpusStore
store = record { messages = λ ids. ok corpus; turn_peers = λ ms. ok [] }

store-IsNamed : (ids : List String) (c : Dict Message) → store.messages ids ≡ ok c → IsNamed c
store-IsNamed ids c h = let same : corpus ≡ c = cc in subst IsNamed same corpus-IsNamed

abbrev request : AssembleRequest ℕ
request = record {
  serialized_local_context = none;
  anchor = some question;
  store = store;
  local_context = question ∷ [];
  scope = SelectionScope.thread;
  thread_id = "t";
  system = none;
  budget = pos 20;
  headroom_pct = 1;
  per_msg_delim = 1;
  fixed_tokens = 1;
  exclude_ids = [];
  current_turn_id = "u1";
  count_text = λ m. [];
  prior_selection = none;
}

abbrev event_of : Engine ℕ → SerializedLocalContext → Message → SelectionScope → String → Event ℕ
event_of e s anchor scope thread_id = record {
  engine = e;
  selection = record {
    event_id = s.event_id;
    scope = scope;
    thread_id = thread_id;
    selected = selected "m2" ∷ selected "m3" ∷ [];
    anchor_message_id = anchor.id;
  };
  edges = [];
}

abbrev select :
    Engine ℕ → SerializedLocalContext → Message → SelectionScope → String → Result String (Event ℕ)
select e s anchor scope thread_id = ok (event_of e s anchor scope thread_id)

abbrev digest : List ℕ → String
digest bytes = "digest"

abbrev config : Config
config = record { max_chars = pos 4; overlap_chars = pos 1; estimator = λ s. 3 }

abbrev engine : Engine ℕ
engine = new_engine "s"

assemble-IsAssembled_example :
    (assemble nat_floats select digest config 0 engine request ≢ err out_of_fuel)
    × ((e' : Engine ℕ) (r : AssembleResult ℕ)
        → assemble nat_floats select digest config 0 engine request ≡ ok (e', r)
        → IsAssembled nat_floats request e' r)
assemble-IsAssembled_example =
    assemble-IsAssembled nat_floats select digest config 0 engine request store-IsNamed

select_keeps :
    (s : SerializedLocalContext) (anchor : Message) (ev : Event ℕ)
    → select (fork engine) s anchor request.scope request.thread_id ≡ ok ev
    → ev.engine.price ≡ (fork engine).price
select_keeps s anchor ev h =
    let same : event_of (fork engine) s anchor request.scope request.thread_id ≡ ev = cc in
    subst (λ (x : Event ℕ). x.engine.price ≡ (fork engine).price) same refl

assemble-fork_fails_example :
    succeeds (assemble nat_floats select digest config 0 (fork engine) request) ≡ false
assemble-fork_fails_example =
    assemble-fork_fails nat_floats select digest config 0 engine request select_keeps

-- A retry with an earlier selection: the engine assembles the request, and delivers the call with
-- its result.
abbrev retry : AssembleRequest ℕ
retry = record request {
  prior_selection = some (record {
    event_id = "sel-m1";
    scope = SelectionScope.thread;
    thread_id = "t";
    selected = selected "m2" ∷ [];
    anchor_message_id = "m1";
  });
  store = record {
    messages = λ ids. ok (("m2", call) ∷ []);
    turn_peers = λ ms. ok (call ∷ result ∷ []);
  };
}

abbrev total_of : Result AssembleError (Engine ℕ × AssembleResult ℕ) → ℕ
total_of (ok (e, r)) = r.total_tokens
total_of (err e) = 0

total_of-retry : total_of (assemble nat_floats select digest config 0 engine retry) ≡ 13
unfolding assemble assemble_from assemble_checked protocol_scope fit_local fit_round close_roots
    close_each merge_delivery_groups merge_loop merge_into absorb closure_key groups_to_wire
    collect_messages flatten_groups message_to_llm wire_tokens message_tokens wire_less sort_stable
    pinned_local_ids pin_loop reversed last_semantic first_semantic has_semantic_block
    selection_event deliver publish result_of shed_input_of shed_loop shed_round selected_groups
    ordered_groups final_wire wire_total group_overlaps add_ids effective_budget_of close_group
    close_loop visit_blocks note counterpart new_protocol_index index_messages index_blocks
    index_block protocol_key thread_position_less lookup grudge_ai.Prelude.insert
    grudge_ai.Prelude.erase set_price new_engine
total_of-retry = refl

-- ===== src/Rrc/Select.antt =====
-- rrc/engine.go: `selectLocked`, the selection of what is already in the graph.
pub mod Parted
use Prim.Native.String.{◌++◌ as concat}
use grudge_ai.Prelude.{
  String, Bool, true, false, not, ◌&&◌, ◌||◌, Option, none, some, List, [], ◌∷◌, ◌++◌, map, elem,
  Dict, lookup, if◌then◌else◌, text_eq, Result, ok, err,
}
use grudge_ai.Rrc.Floats.{Floats}
use grudge_ai.Rrc.Edge.{Edge, SelectionScope, scope_allows}
use grudge_ai.Rrc.Dag.{Dag, prerequisites}
use grudge_ai.Rrc.Assemble.{SelectedMessage, SelectionResult}
use grudge_ai.Rrc.Selection.{SelectionEntry, extract_subgraph}
use grudge_ai.Rrc.Selection.Marks.{entry_ids}
use grudge_ai.Rrc.Reduction.{transitive_reduction}

pub data ExclusionReason : Type 0 where
  unspecified below_threshold transitive_reduction_reason depth_limit : ExclusionReason

pub record ExcludedMessage (F : Type 0) : Type 0 where
  pub message_id : String
  pub reason : ExclusionReason
  pub score : F

-- ErrThreadNotFound; `no_fuel` is the answer of the model alone to a walk that does not end.
pub data SelectError : Type 0 where
  thread_not_found no_fuel : SelectError

abbrev pub is_thread_scope : SelectionScope → Bool
is_thread_scope SelectionScope.thread = true
is_thread_scope _ = false

module _ (fl : Floats) where
  open fl use {F}

  unfoldable pub selected_message : SelectionEntry F → SelectedMessage F
  selected_message item = record {
    message_id = item.message_id;
    effective_score = fl.to_float32 item.effective_score;
    hop_depth = item.hop_depth;
    via_edges = item.via_edges;
    thread_id = item.thread_id;
    cross_thread = item.cross_thread;
    provenance_weight = fl.to_float32 item.provenance_weight;
  }

  -- The loop over the messages below the floor.
  unfoldable pub exclude_below : List String → Dict F → List (ExcludedMessage F)
  exclude_below selected_ids [] = []
  exclude_below selected_ids ((message_id, score) ∷ below_floor) =
      let rest = exclude_below selected_ids below_floor in
      if elem message_id selected_ids
      then rest
      else record {
        message_id = message_id;
        reason = ExclusionReason.below_threshold;
        score = fl.to_float32 score;
      }
        ∷ rest

  -- belowFloor[id] > 0: zero for a missing key.
  abbrev pub is_above_zero : Option F → Bool
  is_above_zero none = fl.lt fl.zero fl.zero
  is_above_zero (some score) = fl.lt fl.zero score

  -- The loop over the direct prerequisites that are out of scope.
  unfoldable pub exclude_out_of_scope :
      List String → Dict F → String → SelectionScope → List (Edge F) → List (ExcludedMessage F)
  exclude_out_of_scope selected_ids below_floor thread_id scope [] = []
  exclude_out_of_scope selected_ids below_floor thread_id scope (edge ∷ edges) =
      let rest = exclude_out_of_scope selected_ids below_floor thread_id scope edges in
      if elem edge.from_message_id selected_ids
        || is_above_zero (lookup edge.from_message_id below_floor)
        || scope_allows edge thread_id scope
      then rest
      else record {
        message_id = edge.from_message_id;
        reason = ExclusionReason.unspecified;
        score = edge.score;
      }
        ∷ rest

  module _ (loss_ratio : F) (d : Dag F) (anchor_id : String) (scope : SelectionScope)
      (thread_id : String) (ref_floor : List F) where
    -- What follows `transitiveReduction`.
    unfoldable pub selection_of :
        List (SelectionEntry F) → Dict F → SelectionResult F × List (ExcludedMessage F)
    selection_of selected below_floor = (
      record {
        event_id = concat "sel-" anchor_id;
        scope = scope;
        thread_id = thread_id;
        selected = map selected_message selected;
        anchor_message_id = anchor_id;
      },
      exclude_below (entry_ids selected) below_floor
          ++ exclude_out_of_scope (entry_ids selected) below_floor thread_id scope
              (prerequisites d anchor_id),
    )

    abbrev pub select_walked :
        Option (List (SelectionEntry F) × Dict F)
        → Result SelectError (SelectionResult F × List (ExcludedMessage F))
    select_walked none = err no_fuel
    select_walked (some (selected, below_floor)) =
        ok (selection_of (transitive_reduction selected) below_floor)

    unfoldable pub select_locked : Result SelectError (SelectionResult F × List (ExcludedMessage F))
    select_locked =
        if is_thread_scope scope && text_eq thread_id ""
        then err thread_not_found
        else select_walked (extract_subgraph fl thread_id scope loss_ratio ref_floor d anchor_id)

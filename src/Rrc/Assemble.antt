-- ===== src/Rrc/Assemble.antt =====
-- rrc/assembly.go: `Assemble`. The corpus store is an interface of the host, and the selection event
-- (`selectPrerequisitesLocked`, `selectLocked` and `ApplyMMR` under the engine's lock) an argument.
-- The two loops take fuel: one round for each message of Local Context, and one for each selected
-- message, with one more. The cost cache is left out: it holds what `cost_of` gives, since groups
-- with one root have one closure. Durations are left out.
pub mod Fitting
pub mod Groups
pub mod Delivery
pub mod Rounds
pub mod Unshed
pub mod Shedding
pub mod Whole
pub mod Outcome
pub mod Steps
pub mod Correct
pub mod Forked
use grudge_ai.Prelude.{
  ℕ, zero, suc, ◌+◌, String, Bool, true, false, not, ◌&&◌, ◌||◌, Option, none, some, List, [], ◌∷◌,
  ◌++◌, map, elem, length, text_eq, text_ltb, sort_stable, Result, ok, err, ◌>>=◌, Dict, lookup,
  entries, ℤ, is_positive, at_most, ltb, if◌then◌else◌,
}
use grudge_ai.Rrc.Floats.{Floats}
use grudge_ai.Rrc.Message.{Message}
use grudge_ai.Rrc.Edge.{Edge, SelectionScope}
use grudge_ai.Rrc.Detect.{stance_bits, bits_from_confidence}
use grudge_ai.Rrc.Protocol.{
  DeliveryGroup, ProtocolIndex, ProtocolError, new_protocol_index, close_group,
}
use grudge_ai.Rrc.Chunk.{Config}
use grudge_ai.Rrc.LocalContext.{SerializedLocalContext, serialize_local_context, message_ids_of}
use grudge_ai.Rrc.Assembly.{
  LlmMessage, groups_to_wire, wire_tokens, with_system, pinned_local_ids, last_semantic,
  oldest_unpinned, remove_message, group_overlaps, closure_count, same_ids, merge_delivery_groups,
  lowest_density_group, close_roots,
}

-- The errors of `Assemble`, by the format string of each, with its numbers; an error of the host is
-- its text. `nil_price_map` is the panic of a write to a nil map. `out_of_fuel` is not an
-- error of the code.
pub data AssembleError : Type 0 where
  nil_anchor empty_local_context anchor_not_last_semantic : AssembleError
  store_failed select_failed : String → AssembleError
  protocol : ProtocolError → AssembleError
  pinned_overflow : ℕ → AssembleError
  missing_from_corpus : String → AssembleError
  fixed_overflow : ℕ → AssembleError
  nil_price_map : AssembleError
  out_of_fuel : AssembleError

pub record SelectedMessage (F : Type 0) : Type 0 where
  pub message_id : String
  pub effective_score : F
  pub hop_depth : ℕ
  pub via_edges : List (Edge F)
  pub thread_id : String
  pub cross_thread : Bool
  pub provenance_weight : F

pub record SelectionResult (F : Type 0) : Type 0 where
  pub event_id : String
  pub scope : SelectionScope
  pub thread_id : String
  pub selected : List (SelectedMessage F)
  pub anchor_message_id : String

abbrev pub lift_protocol {ℓ} : {A : Type ℓ} → Result ProtocolError A → Result AssembleError A
lift_protocol (ok a) = ok a
lift_protocol (err e) = err (protocol e)

-- What a round of a loop decides.
pub data Round {ℓ κ} (A : Type ℓ) (B : Type κ) : Type (ℓ ⊔ κ) where
  finish : A → Round A B
  again : B → Round A B

-- How a wire is measured: the caller's projection and tokenizer, the delimiter and the fixed share.
pub record Meter : Type 0 where
  pub count_text : LlmMessage → List ℕ
  pub estimate : List ℕ → ℕ
  pub fixed : ℕ
  pub delim : ℕ

-- `req.Budget <= 0 || total <= effectiveBudget`
abbrev pub fits : ℤ → ℤ → ℕ → Bool
fits budget effective total = not (is_positive budget) || at_most total effective

-- The Local Context that fits: its messages, groups and wire.
pub record LocalFit (F : Type 0) : Type 0 where
  pub local : List Message
  pub groups : List (DeliveryGroup F)
  pub wire : List LlmMessage

-- corpusByID[id].Position; the map has the id of every group's root.
abbrev pub position_of : Dict Message → String → ℕ
position_of corpus id = elim (lookup id corpus) [ none ↦ 0 | some m ↦ m.position ]

-- Adding keys to a set.
unfoldable pub add_ids : List String → List String → List String
add_ids [] set = set
add_ids (x ∷ xs) set = add_ids xs (if elem x set then set else x ∷ set)

module _ (fl : Floats) where
  open fl use {F}

  -- One round of the first loop of `Assemble`: what fits is kept, else the oldest message that is
  -- not pinned is dropped.
  unfoldable pub fit_round :
      Meter
      → ℤ
      → ℤ
      → Option LlmMessage
      → List String
      → List Message
      → List (DeliveryGroup F)
      → Round (Result AssembleError (LocalFit F)) (List Message)
  fit_round meter budget effective system pinned local groups =
      let wire = groups_to_wire groups [] in
      let total =
        wire_tokens meter.count_text meter.estimate system [] wire meter.fixed meter.delim in
      let drop = oldest_unpinned local pinned in
      if fits budget effective total
      then finish (ok (record { local = local; groups = groups; wire = wire }))
      else if text_eq drop ""
      then finish (err (pinned_overflow total))
      else again (remove_message local drop)

  unfoldable pub fit_local :
      ℕ
      → Meter
      → ℤ
      → ℤ
      → Option LlmMessage
      → ProtocolIndex
      → List String
      → List Message
      → Result AssembleError (LocalFit F)
  fit_local zero meter budget effective system index pinned local = err out_of_fuel
  fit_local (suc fuel) meter budget effective system index pinned local =
      lift_protocol (close_roots fl index local) >>= λ groups.
      elim (fit_round meter budget effective system pinned local groups) [
        | finish r ↦ r
        | again local' ↦ fit_local fuel meter budget effective system index pinned local'
      ]

  -- The groups of the selected messages that are neither dropped nor local.
  unfoldable pub selected_groups :
      Dict Message
      → ProtocolIndex
      → List String
      → List String
      → List (SelectedMessage F)
      → Result AssembleError (List (DeliveryGroup F))
  selected_groups corpus index dropped local_ids [] = ok []
  selected_groups corpus index dropped local_ids (s ∷ ss) =
      let rest = selected_groups corpus index dropped local_ids ss in
      if elem s.message_id dropped || elem s.message_id local_ids
      then rest
      else elim (lookup s.message_id corpus) [
        | none ↦ err (missing_from_corpus s.message_id)
        | some root ↦ lift_protocol (close_group index root s.effective_score) >>= λ g.
            rest >>= λ gs. ok (if group_overlaps g local_ids then gs else g ∷ gs)
      ]

  abbrev pub position_less : Dict Message → DeliveryGroup F → DeliveryGroup F → Bool
  position_less corpus a b = ltb (position_of corpus a.root_id) (position_of corpus b.root_id)

  unfoldable pub cost_of : Meter → List String → DeliveryGroup F → ℕ
  cost_of meter local_ids g =
      let c =
        wire_tokens meter.count_text meter.estimate none (groups_to_wire (g ∷ []) local_ids) [] 0
          meter.delim in
      if ltb c 1 then 1 else c

  unfoldable pub density_of : Meter → List String → F → DeliveryGroup F → F
  density_of meter local_ids loss_ratio g =
      fl.div (fl.sub (bits_from_confidence fl g.score) (stance_bits fl loss_ratio))
        (fl.of_ℕ (cost_of meter local_ids g))

  -- What the shed loop reads and does not change.
  pub record ShedInput : Type 0 where
    pub meter : Meter
    pub budget : ℤ
    pub effective : ℤ
    pub loss_ratio : F
    pub system : Option LlmMessage
    pub corpus : Dict Message
    pub index : ProtocolIndex
    pub local_ids : List String
    pub local_wire : List LlmMessage
    pub selected : List (SelectedMessage F)

  pub record ShedState : Type 0 where
    pub dropped : List String
    pub price : F

  pub record ShedResult : Type 0 where
    pub delivered : List (DeliveryGroup F)
    pub wire : List LlmMessage
    pub total : ℕ
    pub state : ShedState

  unfoldable pub final_wire : ShedInput → List (DeliveryGroup F) → List LlmMessage
  final_wire i groups = with_system i.system (groups_to_wire groups i.local_ids ++ i.local_wire)

  unfoldable pub wire_total : ShedInput → List LlmMessage → ℕ
  wire_total i wire =
      wire_tokens i.meter.count_text i.meter.estimate none wire [] i.meter.fixed i.meter.delim

  -- The groups in the order of their roots' positions.
  unfoldable pub ordered_groups : ShedInput → List (DeliveryGroup F) → List (DeliveryGroup F)
  ordered_groups i groups = sort_stable (position_less i.corpus) (merge_delivery_groups fl groups)

  -- One round of the second loop of `Assemble` over the groups it collected.
  unfoldable pub shed_round :
      ShedInput
      → ShedState
      → List (DeliveryGroup F)
      → Round (Result AssembleError ShedResult) ShedState
  shed_round i st groups =
      let wire = final_wire i groups in
      let total = wire_total i wire in
      if fits i.budget i.effective total
      then finish (ok (record { delivered = groups; wire = wire; total = total; state = st }))
      else elim (lowest_density_group fl groups (density_of i.meter i.local_ids i.loss_ratio)) [
        | none ↦ finish (err (fixed_overflow total))
        | some drop ↦
            let d = density_of i.meter i.local_ids i.loss_ratio drop in
            again (record {
              dropped = add_ids drop.root_ids st.dropped;
              price = if fl.lt st.price d then d else st.price;
            })
      ]

  unfoldable pub shed_loop : ℕ → ShedInput → ShedState → Result AssembleError ShedResult
  shed_loop zero i st = err out_of_fuel
  shed_loop (suc fuel) i st =
      selected_groups i.corpus i.index st.dropped i.local_ids i.selected >>= λ groups.
      elim (shed_round i st (ordered_groups i groups)) [
        | finish r ↦ r
        | again st' ↦ shed_loop fuel i st'
      ]

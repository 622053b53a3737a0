-- ===== src/Rrc/Provenance.antt =====
-- rrc/provenance.go: the first phase of `provenanceMassWalk`, which finds the messages that provenance
-- edges lead back to from the delivered ones, the strongest path first and up to a cap. The second
-- phase, which sums their masses, is left out.
pub mod Growth
pub mod Walk
pub mod Reached
pub mod Pushes
pub mod Followed
pub mod Complete
pub mod Descent
use grudge_ai.Prelude.{
  ℕ, zero, suc, ◌+◌, String, Bool, true, false, not, ◌&&◌, ◌||◌, Option, none, some, List, [], ◌∷◌,
  length, map, filter, elem, Dict, lookup, insert, if◌then◌else◌, leb, text_ltb,
}
use grudge_ai.Prelude.Heap.{push, pop}
use grudge_ai.Rrc.Floats.{Floats}
use grudge_ai.Rrc.Edge.{Edge, SelectionScope, is_provenance, scope_allows}
use grudge_ai.Rrc.Dag.{Dag, prerequisites, all_edges}

abbrev pub provenance_reach_cap : ℕ
provenance_reach_cap = 64

pub record ProvIn (F : Type 0) : Type 0 where
  pub from : String
  pub weight : F

pub record BoundEntry (F : Type 0) : Type 0 where
  pub id : String
  pub bound : F

-- The variables of the first phase.
pub record ReachState (F : Type 0) : Type 0 where
  pub in_reach : List String
  pub thread_by_id : Dict String
  pub settled : List String
  pub best : Dict F
  pub heap : List (BoundEntry F)
  pub truncated : Bool

-- The variables as they are declared.
abbrev pub unreached : {F : Type 0} → List String → ReachState F
unreached anchor_ids = record {
  in_reach = [];
  thread_by_id = [];
  settled = anchor_ids;
  best = [];
  heap = [];
  truncated = false;
}

module _ (fl : Floats) where
  open fl use {F}

  -- boundHeap.Less; two bounds differ unless each is at most the other.
  unfoldable pub bound_less : BoundEntry F → BoundEntry F → Bool
  bound_less a b =
      if not (fl.le a.bound b.bound && fl.le b.bound a.bound)
      then fl.lt b.bound a.bound
      else text_ltb a.id b.id

  unfoldable pub clamp01 : F → F
  clamp01 w = if fl.lt w fl.zero then fl.zero else if fl.lt fl.one w then fl.one else w

  -- best[id]: zero for a missing key.
  abbrev pub bound_or_zero : Option F → F
  bound_or_zero none = fl.zero
  bound_or_zero (some b) = b

  -- `!ok || bound > cur`
  abbrev pub improves : Option F → F → Bool
  improves none bound = true
  improves (some cur) bound = fl.lt cur bound

  -- The closure `push`.
  unfoldable pub push_bound : String → F → ReachState F → ReachState F
  push_bound id bound s =
      if not (elem id s.settled) && improves (lookup id s.best) bound
      then record s {
        best = insert id bound s.best;
        heap = push bound_less (record { id = id; bound = bound }) s.heap;
      }
      else s

  module _ (d : Dag F) (cone_thread_id : String) (scope : SelectionScope) where
    -- The edges that `contributorsOf` does not pass over.
    unfoldable pub contributing : String → List (Edge F)
    contributing id =
        filter (λ e. is_provenance e.source && scope_allows e cone_thread_id scope)
          (prerequisites d id)

    abbrev pub prov_in_of : Edge F → ProvIn F
    prov_in_of e = record { from = e.from_message_id; weight = e.score }

    unfoldable pub contributors_of : String → List (ProvIn F)
    contributors_of id = map prov_in_of (contributing id)

    -- `threadByID[edge.FromMessageId] = edge.FromThreadId` for each of them.
    unfoldable pub note_threads : List (Edge F) → Dict String → Dict String
    note_threads [] m = m
    note_threads (e ∷ es) m = note_threads es (insert e.from_message_id e.from_thread_id m)

    abbrev pub noted : String → ReachState F → ReachState F
    noted id s = record s { thread_by_id = note_threads (contributing id) s.thread_by_id }

    -- The loop over the contributors of an anchor.
    unfoldable pub push_anchored : List (ProvIn F) → ReachState F → ReachState F
    push_anchored [] s = s
    push_anchored (i ∷ is) s = push_anchored is (push_bound i.from (clamp01 i.weight) s)

    unfoldable pub push_anchors : List String → ReachState F → ReachState F
    push_anchors [] s = s
    push_anchors (a ∷ anchors) s =
        push_anchors anchors (push_anchored (contributors_of a) (noted a s))

    -- The loop over the contributors of a message that is settled with this bound.
    unfoldable pub push_onward : F → List (ProvIn F) → ReachState F → ReachState F
    push_onward bound [] s = s
    push_onward bound (i ∷ is) s =
        push_onward bound is (push_bound i.from (fl.mul bound (clamp01 i.weight)) s)

    -- Settled already, or a stale duplicate.
    abbrev pub is_stale : ReachState F → BoundEntry F → Bool
    is_stale s top = elem top.id s.settled || fl.lt top.bound (bound_or_zero (lookup top.id s.best))

    -- A round of the loop: `top` is popped and `rest` is what the heap is left with.
    unfoldable pub reach_round : ReachState F → BoundEntry F → List (BoundEntry F) → ReachState F
    reach_round s top rest =
        if is_stale s top
        then record s { heap = rest }
        else if leb provenance_reach_cap (length s.in_reach)
        then record s { heap = rest; truncated = true }
        else push_onward top.bound (contributors_of top.id) (
            noted top.id (record s {
              heap = rest;
              settled = top.id ∷ s.settled;
              in_reach = top.id ∷ s.in_reach;
            }))

    abbrev pub on_round : Bool → ReachState F → Option (ReachState F) → Option (ReachState F)
    on_round true s more = some s
    on_round false s more = more

    abbrev pub on_top :
        Option (BoundEntry F × List (BoundEntry F))
        → ReachState F
        → (BoundEntry F → List (BoundEntry F) → Option (ReachState F))
        → Option (ReachState F)
    on_top none s next = some s
    on_top (some (top, rest)) s next = next top rest

    -- `none` when the fuel is spent.
    unfoldable pub reach_loop : ℕ → ReachState F → Option (ReachState F)
    reach_loop zero s = none
    reach_loop (suc fuel) s = on_top (pop bound_less s.heap) s (λ top rest.
        on_round (reach_round s top rest).truncated (reach_round s top rest)
          (reach_loop fuel (reach_round s top rest)))

    -- How many contributors the anchors have.
    unfoldable pub anchored : List String → ℕ
    anchored [] = 0
    anchored (a ∷ anchors) = length (contributors_of a) + anchored anchors

    unfoldable pub reach_start : List String → ReachState F
    reach_start anchor_ids = push_anchors anchor_ids (unreached anchor_ids)

    -- A round for each contributor of an anchor and for each edge, and one more.
    unfoldable pub provenance_reach : List String → Option (ReachState F)
    provenance_reach anchor_ids =
        reach_loop (suc (anchored anchor_ids + length (all_edges d))) (reach_start anchor_ids)

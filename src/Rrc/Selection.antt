-- ===== src/Rrc/Selection.antt =====
-- rrc/selection.go: the best-first walk back from a prompt along the prerequisite edges. The queue
-- is the heap of Prelude/Heap under the order of `priorityQueue.Less`; the index that an item keeps
-- of itself is left out, since only `Swap`, `Push` and `Pop` write it and nothing reads it.
pub mod Visited
pub mod Paths
pub mod Marks
pub mod Waits
pub mod Closed
use grudge_ai.Prelude.{
  ℕ, zero, suc, ◌+◌, String, Bool, true, false, not, ◌&&◌, ◌||◌, Option, none, some, List, [], ◌∷◌,
  ◌++◌, length, elem, Dict, lookup, insert, if◌then◌else◌, text_eq, leb,
}
use grudge_ai.Prelude.Heap.{push, pop}
use grudge_ai.Rrc.Floats.{Floats}
use grudge_ai.Rrc.Edge.{Edge, SelectionScope, is_provenance, scope_allows}
use grudge_ai.Rrc.Dag.{Dag, prerequisites, all_edges}
use grudge_ai.Rrc.Detect.{
  accept, null_p, surprisal_bits, confidence_from_bits, min_reference_sample,
}

pub record SelectionEntry (F : Type 0) : Type 0 where
  pub message_id : String
  pub effective_score : F
  pub hop_depth : ℕ
  pub via_edges : List (Edge F)
  pub thread_id : String
  pub cross_thread : Bool
  pub provenance_weight : F

pub record PqItem (F : Type 0) : Type 0 where
  pub entry : SelectionEntry F
  pub priority : F

-- The variables of the loop over the queue.
pub record Cone (F : Type 0) : Type 0 where
  pub visited : List String
  pub below_floor : Dict F
  pub selected : List (SelectionEntry F)
  pub queue : List (PqItem F)

-- What the loop does with what the queue gives: it stops on an empty queue.
abbrev pub on_pop {ℓ κ} :
    {A : Type ℓ} {C : Type κ} → Option (A × List A) → C → (A → List A → Option C) → Option C
on_pop none c next = some c
on_pop (some (item, pq)) c next = next item pq

-- What `extractSubgraph` returns.
abbrev pub cone_result : {F : Type 0} → Option (Cone F) → Option (List (SelectionEntry F) × Dict F)
cone_result none = none
cone_result (some c) = some (c.selected, c.below_floor)

module _ (fl : Floats) where
  open fl use {F}

  -- pq[i].priority > pq[j].priority
  unfoldable pub higher : PqItem F → PqItem F → Bool
  higher a b = fl.lt b.priority a.priority

  unfoldable pub seed_edge_score : Edge F → F
  seed_edge_score edge = edge.score

  unfoldable pub relational_edge_score : Edge F → List F → F
  relational_edge_score edge ref_floor =
      let raw = edge.cross_encoder_score in
      let p = null_p fl raw ref_floor in
      if leb min_reference_sample (length ref_floor)
      then (if fl.lt (fl.div fl.one (fl.of_ℕ (length ref_floor + 1))) p
          then fl.zero
          else confidence_from_bits fl (surprisal_bits fl p))
      else raw

  module _ (prompt_thread_id : String) (scope : SelectionScope) (loss_ratio : F) where
    -- The guards of the loop over the direct prerequisites of the prompt.
    unfoldable pub is_seed : Edge F → Bool
    is_seed edge =
        not (is_provenance edge.source)
        && scope_allows edge prompt_thread_id scope
        && accept fl (seed_edge_score edge) loss_ratio fl.zero 0

    unfoldable pub seed_entry : Edge F → SelectionEntry F
    seed_entry edge = record {
      message_id = edge.from_message_id;
      effective_score = seed_edge_score edge;
      hop_depth = 1;
      via_edges = edge ∷ [];
      thread_id = edge.from_thread_id;
      cross_thread = not (text_eq edge.from_thread_id prompt_thread_id);
      provenance_weight = edge.cross_encoder_score;
    }

    abbrev pub item_of : SelectionEntry F → PqItem F
    item_of entry = record { entry = entry; priority = entry.effective_score }

    unfoldable pub push_seeds : List (Edge F) → List (PqItem F) → List (PqItem F)
    push_seeds [] pq = pq
    push_seeds (edge ∷ edges) pq =
        push_seeds edges (if is_seed edge then push higher (item_of (seed_entry edge)) pq else pq)

    module _ (ref_floor : List F) where
      -- The guards of the loop over the prerequisites of a selected message, but for the visited set.
      unfoldable pub is_step : Edge F → Bool
      is_step edge =
          not (is_provenance edge.source)
          && scope_allows edge prompt_thread_id scope
          && accept fl (relational_edge_score edge ref_floor) loss_ratio fl.zero 0

      unfoldable pub step_entry : SelectionEntry F → Edge F → SelectionEntry F
      step_entry entry edge = record {
        message_id = edge.from_message_id;
        effective_score = fl.mul (relational_edge_score edge ref_floor) entry.effective_score;
        hop_depth = entry.hop_depth + 1;
        via_edges = entry.via_edges ++ edge ∷ [];
        thread_id = edge.from_thread_id;
        cross_thread = not (text_eq edge.from_thread_id prompt_thread_id);
        provenance_weight = fl.mul entry.provenance_weight edge.cross_encoder_score;
      }

      unfoldable pub push_prerequisites :
          List String → SelectionEntry F → List (Edge F) → List (PqItem F) → List (PqItem F)
      push_prerequisites visited entry [] pq = pq
      push_prerequisites visited entry (edge ∷ edges) pq = push_prerequisites visited entry edges (
          if not (elem edge.from_message_id visited) && is_step edge
          then push higher (item_of (step_entry entry edge)) pq
          else pq)

      -- A round of the loop: `item` is popped and `pq` is what the queue is left with.
      unfoldable pub walk_round : Dag F → Cone F → PqItem F → List (PqItem F) → Cone F
      walk_round d c item pq =
          let entry = item.entry in
          let visited = entry.message_id ∷ c.visited in
          if elem entry.message_id c.visited
          then record {
            visited = c.visited;
            below_floor = c.below_floor;
            selected = c.selected;
            queue = pq;
          }
          else if fl.lt entry.effective_score loss_ratio
          then record {
            visited = visited;
            below_floor = insert entry.message_id entry.effective_score c.below_floor;
            selected = c.selected;
            queue = pq;
          }
          else record {
            visited = visited;
            below_floor = c.below_floor;
            selected = c.selected ++ entry ∷ [];
            queue = push_prerequisites visited entry (prerequisites d entry.message_id) pq;
          }

      -- `none` when the fuel is spent.
      unfoldable pub walk_loop : Dag F → ℕ → Cone F → Option (Cone F)
      walk_loop d zero c = none
      walk_loop d (suc fuel) c =
          on_pop (pop higher c.queue) c (λ item pq. walk_loop d fuel (walk_round d c item pq))

      unfoldable pub seeded : Dag F → String → Cone F
      seeded d prompt_id = record {
        visited = prompt_id ∷ [];
        below_floor = [];
        selected = [];
        queue = push_seeds (prerequisites d prompt_id) [];
      }

      -- A round for each edge of the graph, and one that finds the queue empty.
      unfoldable pub extract_subgraph : Dag F → String → Option (List (SelectionEntry F) × Dict F)
      extract_subgraph d prompt_id =
          cone_result (walk_loop d (suc (length (all_edges d))) (seeded d prompt_id))

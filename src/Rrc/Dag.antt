-- ===== src/Rrc/Dag.antt =====
-- rrc/dag.go: the edges by the message that they point into and by the one they leave. Go visits
-- the entries of a map in any order; `all_edges` and `thread_edges` visit them in one.
pub mod Laws
use grudge_ai.Prelude.{
  String, Bool, ◌||◌, ◌&&◌, Option, none, some, true, false, List, [], ◌∷◌, ◌++◌, Dict, lookup,
  insert, entries, filter, text_eq,
}
use grudge_ai.Rrc.Edge.{Edge}

-- The type `dag`.
pub record Dag (F : Type 0) : Type 0 where
  pub backward : Dict (List (Edge F))
  pub forward : Dict (List (Edge F))

-- m[k] of a map of slices: the empty slice for a missing key.
abbrev pub slice_at {ℓ} : {A : Type ℓ} → String → Dict (List A) → List A
slice_at k m = elim (lookup k m) [ none ↦ [] | some l ↦ l ]

abbrev pub is_some {ℓ} : {A : Type ℓ} → Option A → Bool
is_some none = false
is_some (some a) = true

unfoldable pub concat_all {ℓ} : {A : Type ℓ} → List (List A) → List A
concat_all [] = []
concat_all (l ∷ ls) = l ++ concat_all ls

module _ {F : Type 0} where
  unfoldable pub new_dag : Dag F
  new_dag = record { backward = []; forward = [] }

  unfoldable pub add_edge : Dag F → Edge F → Dag F
  add_edge d edge = record {
    backward =
        insert edge.to_message_id (slice_at edge.to_message_id d.backward ++ edge ∷ []) d.backward;
    forward =
        insert edge.from_message_id (slice_at edge.from_message_id d.forward ++ edge ∷ [])
          d.forward;
  }

  unfoldable pub prerequisites : Dag F → String → List (Edge F)
  prerequisites d message_id = slice_at message_id d.backward

  unfoldable pub dependents : Dag F → String → List (Edge F)
  dependents d message_id = slice_at message_id d.forward

  unfoldable pub has_message : Dag F → String → Bool
  has_message d message_id =
      is_some (lookup message_id d.backward) || is_some (lookup message_id d.forward)

  unfoldable pub all_edges : Dag F → List (Edge F)
  all_edges d = concat_all (entries d.backward)

  unfoldable pub thread_edges : Dag F → String → List (Edge F)
  thread_edges d thread_id =
      filter (λ e. text_eq e.from_thread_id thread_id && text_eq e.to_thread_id thread_id)
        (concat_all (entries d.backward))

  -- `for _, edge := range edges { d.AddEdge(edge) }`
  unfoldable pub add_edges : Dag F → List (Edge F) → Dag F
  add_edges d [] = d
  add_edges d (edge ∷ edges) = add_edges (add_edge d edge) edges

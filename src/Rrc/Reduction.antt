-- ===== src/Rrc/Reduction.antt =====
-- rrc/selection.go: `transitiveReduction`. The sets of the code are lists, and the order in which Go
-- visits the keys of a map is the order of the edges.
pub mod Search
pub mod Kept
use grudge_ai.Prelude.{
  ℕ, zero, suc, String, Bool, not, ◌&&◌, List, [], ◌∷◌, length, map, filter, any, elem, Dict,
  insert, if◌then◌else◌, leb, text_eq,
}
use grudge_ai.Rrc.Edge.{Edge}
use grudge_ai.Rrc.Dag.{slice_at}
use grudge_ai.Rrc.Selection.{SelectionEntry}
use grudge_ai.Rrc.Selection.Marks.{entry_ids}

-- The loop of the closure `dfs`, with the closure as an argument.
unfoldable pub visit_each :
    (List String → String → List String) → List String → List String → List String
visit_each go [] visited = visited
visit_each go (p ∷ prereqs) visited =
    visit_each go prereqs (if elem p visited then visited else go (p ∷ visited) p)

-- The closure `dfs`; the fuel bounds its depth.
unfoldable pub dfs : Dict (List String) → ℕ → List String → String → List String
dfs direct zero visited node = visited
dfs direct (suc fuel) visited node = visit_each (dfs direct fuel) (slice_at node direct) visited

-- What is reached from each of the ids.
unfoldable pub reachable_from :
    Dict (List String) → ℕ → List String → Dict (List String) → Dict (List String)
reachable_from direct fuel [] m = m
reachable_from direct fuel (id ∷ ids) m =
    reachable_from direct fuel ids (insert id (dfs direct fuel [] id) m)

module _ {F : Type 0} where
  -- The sources of the edges that are selected.
  unfoldable pub prereqs_of : List String → List (Edge F) → List String
  prereqs_of ids edges =
      map (λ e. e.from_message_id) (filter (λ e. elem e.from_message_id ids) edges)

  unfoldable pub direct_prereqs :
      List String → List (SelectionEntry F) → Dict (List String) → Dict (List String)
  direct_prereqs ids [] m = m
  direct_prereqs ids (s ∷ selected) m =
      direct_prereqs ids selected (insert s.message_id (prereqs_of ids s.via_edges) m)

  -- The source of another edge of the path reaches that of this one.
  unfoldable pub is_redundant : Dict (List String) → List (Edge F) → Edge F → Bool
  is_redundant reachable via e =
      any
        (λ other.
          not (text_eq other.from_message_id e.from_message_id)
          && elem e.from_message_id (slice_at other.from_message_id reachable))
        via

  unfoldable pub reduce_entry : Dict (List String) → SelectionEntry F → SelectionEntry F
  reduce_entry reachable s = record s {
    via_edges = filter (λ e. not (is_redundant reachable s.via_edges e)) s.via_edges;
  }

  -- A level of the search for each selected message, and one more.
  unfoldable pub transitive_reduction : List (SelectionEntry F) → List (SelectionEntry F)
  transitive_reduction selected =
      let ids = entry_ids selected in
      let direct = direct_prereqs ids selected [] in
      let reachable = reachable_from direct (suc (length ids)) ids [] in
      if leb (length selected) 1 then selected else map (reduce_entry reachable) selected

-- ===== src/Tests/Selection.antt =====
-- A graph with a cycle, walked from a prompt.
use grudge_ai.Prelude.{
  ℕ, String, ◌≡◌, refl, true, false, some, List, [], ◌∷◌, All, Dict, map, arith, ◌&&◌, ok, err,
  if◌then◌else◌, text_eq,
}
use grudge_ai.Rrc.Edge.{Edge, EdgeSource, SelectionScope}
use grudge_ai.Rrc.Dag.{Dag, new_dag, add_edges, prerequisites}
use grudge_ai.Rrc.Selection.{SelectionEntry, extract_subgraph, is_seed, is_step}
use grudge_ai.Rrc.Selection.Paths.{IsExplained, extract_subgraph-IsExplained}
use grudge_ai.Rrc.Selection.Marks.{IsCone, marked, extract_subgraph-IsCone}
use grudge_ai.Rrc.Selection.Closed.{extract_subgraph-closed}
use grudge_ai.Rrc.Reduction.{transitive_reduction}
use grudge_ai.Rrc.Reduction.Kept.{IsReduced, transitive_reduction-IsReduced}
use grudge_ai.Rrc.Assemble.{SelectionResult}
use grudge_ai.Rrc.Select.{ExcludedMessage, select_locked, thread_not_found, is_thread_scope}
use grudge_ai.Rrc.Select.Parted.{IsParted, select_locked-IsParted}
use grudge_ai.Tests.{nat_floats}

abbrev link : String → String → ℕ → Edge ℕ
link from to score = record {
  from_message_id = from;
  to_message_id = to;
  score = score;
  source = EdgeSource.cross_encoder;
  cross_encoder_score = score;
  from_thread_id = "t";
  to_thread_id = "t";
  scorer_model = "s";
}

-- p is the prompt; a and b point at one another; c is too weak to enter.
abbrev cyclic : Dag ℕ
cyclic =
    add_edges new_dag
      (link "a" "p" 3 ∷ link "c" "p" 1 ∷ link "b" "a" 4 ∷ link "a" "b" 5 ∷ link "p" "b" 6 ∷ [])

abbrev first_entry : SelectionEntry ℕ
first_entry = record {
  message_id = "a";
  effective_score = 3;
  hop_depth = 1;
  via_edges = link "a" "p" 3 ∷ [];
  thread_id = "t";
  cross_thread = false;
  provenance_weight = 3;
}

abbrev second_entry : SelectionEntry ℕ
second_entry = record {
  message_id = "b";
  effective_score = 12;
  hop_depth = 2;
  via_edges = link "a" "p" 3 ∷ link "b" "a" 4 ∷ [];
  thread_id = "t";
  cross_thread = false;
  provenance_weight = 12;
}

abbrev entries_of_cycle : List (SelectionEntry ℕ)
entries_of_cycle = first_entry ∷ second_entry ∷ []

cyclic_run :
    extract_subgraph nat_floats "t" SelectionScope.thread 2 [] cyclic "p"
    ≡ some (entries_of_cycle, [])
unfolding extract_subgraph grudge_ai.Rrc.Selection.walk_loop grudge_ai.Rrc.Selection.seeded
    grudge_ai.Rrc.Selection.push_seeds is_seed grudge_ai.Rrc.Selection.seed_entry
    grudge_ai.Rrc.Selection.seed_edge_score is_step grudge_ai.Rrc.Selection.step_entry
    grudge_ai.Rrc.Selection.relational_edge_score grudge_ai.Rrc.Selection.push_prerequisites
    grudge_ai.Rrc.Selection.walk_round grudge_ai.Rrc.Selection.higher
    grudge_ai.Rrc.Edge.scope_allows grudge_ai.Rrc.Detect.accept grudge_ai.Rrc.Detect.null_p
    grudge_ai.Rrc.Detect.count_at_least grudge_ai.Rrc.Detect.surprisal_bits
    grudge_ai.Rrc.Detect.confidence_from_bits grudge_ai.Rrc.Dag.all_edges
    grudge_ai.Rrc.Dag.concat_all prerequisites add_edges new_dag grudge_ai.Rrc.Dag.add_edge
    grudge_ai.Prelude.lookup grudge_ai.Prelude.insert grudge_ai.Prelude.erase
    grudge_ai.Prelude.Heap.push grudge_ai.Prelude.Heap.pop grudge_ai.Prelude.Heap.up
    grudge_ai.Prelude.Heap.down grudge_ai.Prelude.Heap.swap grudge_ai.Prelude.Heap.take_last
cyclic_run = refl

extract_subgraph-IsCone_example :
    (selected : List (SelectionEntry ℕ)) × (below_floor : Dict ℕ) × (extract_subgraph nat_floats "t"
        SelectionScope.thread 2 [] cyclic "p"
      ≡ some (selected, below_floor))
    × IsCone nat_floats 2 "p" selected below_floor
extract_subgraph-IsCone_example =
    extract_subgraph-IsCone nat_floats 2 "p" "t" SelectionScope.thread [] cyclic

extract_subgraph-IsExplained_example :
    All (IsExplained nat_floats "t" SelectionScope.thread 2 [] cyclic "p") entries_of_cycle
extract_subgraph-IsExplained_example =
    extract_subgraph-IsExplained nat_floats "t" SelectionScope.thread 2 [] cyclic "p"
      entries_of_cycle [] cyclic_run

extract_subgraph-closed_example :
    All
      (λ e.
        is_seed nat_floats "t" SelectionScope.thread 2 e ≡ true
        → marked nat_floats 2 "p" entries_of_cycle [] e.from_message_id ≡ true)
      (prerequisites cyclic "p")
    × All
        (λ s.
          All
            (λ e.
              is_step nat_floats "t" SelectionScope.thread 2 [] e ≡ true
              → marked nat_floats 2 "p" entries_of_cycle [] e.from_message_id ≡ true)
            (prerequisites cyclic s.message_id))
        entries_of_cycle
extract_subgraph-closed_example =
    extract_subgraph-closed nat_floats "t" SelectionScope.thread 2 [] cyclic "p" entries_of_cycle []
      cyclic_run

-- Of a path of two edges only the last is left.
last_edge_left :
    transitive_reduction entries_of_cycle
    ≡ first_entry ∷ record second_entry { via_edges = link "b" "a" 4 ∷ [] } ∷ []
unfolding transitive_reduction grudge_ai.Rrc.Reduction.reduce_entry
    grudge_ai.Rrc.Reduction.is_redundant grudge_ai.Rrc.Reduction.reachable_from
    grudge_ai.Rrc.Reduction.dfs grudge_ai.Rrc.Reduction.visit_each
    grudge_ai.Rrc.Reduction.direct_prereqs grudge_ai.Rrc.Reduction.prereqs_of
    grudge_ai.Prelude.lookup grudge_ai.Prelude.insert grudge_ai.Prelude.erase
last_edge_left = refl

transitive_reduction-IsReduced_example :
    (reduce : SelectionEntry ℕ → SelectionEntry ℕ) × (transitive_reduction entries_of_cycle
      ≡ map reduce entries_of_cycle)
    × ((s : SelectionEntry ℕ) → IsReduced entries_of_cycle s (reduce s))
transitive_reduction-IsReduced_example =
    transitive_reduction-IsReduced entries_of_cycle (omega arith)

select_locked-IsParted_example :
    (r : SelectionResult ℕ × List (ExcludedMessage ℕ)) × (select_locked nat_floats 2 cyclic "p"
        SelectionScope.thread "t" []
      ≡ (if is_thread_scope SelectionScope.thread && text_eq "t" ""
          then err thread_not_found
          else ok r))
    × IsParted nat_floats 2 cyclic "p" SelectionScope.thread "t" [] r
select_locked-IsParted_example =
    select_locked-IsParted nat_floats 2 cyclic "p" SelectionScope.thread "t" []

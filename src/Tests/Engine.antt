-- ===== src/Tests/Engine.antt =====
-- An engine with one edge: its fork, the merge, a price, and records of provenance.
use grudge_ai.Prelude.{
  IsDistinct, ℕ, String, ◌≡◌, refl, none, some, List, [], ◌∷◌, ◌++◌, All, if◌then◌else◌, text_eq,
}
use grudge_ai.Rrc.Dag.{prerequisites, add_edges, new_dag}
use grudge_ai.Rrc.Dag.Laws.{
  IsDual, add_edges-IsDual, new_dag-IsDual, add_edges-IsIndexed, new_dag-IsIndexed,
}
use grudge_ai.Rrc.ScoreCache.{ScoreKey, get_local_context, new_score_cache}
use grudge_ai.Rrc.ScoreCache.Laws.{IsKeyed}
use grudge_ai.Rrc.Engine.{
  Engine, Contributor, new_engine, fork, merge, set_price, last_price, admit_edges,
  record_provenance,
}
use grudge_ai.Rrc.Engine.Forks.{
  IsValid, fork-reads, merge-reads, merge-fork_doubles, set_price_made_or_forked,
}
use grudge_ai.Rrc.Engine.Records.{
  admit_edges-dag, record_provenance-dag, record_provenance_unfiltered,
}
use grudge_ai.Rrc.Engine.Sources.{IsFresh, froms, IsCovered, IsRecordOf}
use grudge_ai.Tests.{nat_floats, result, edge}

abbrev start : Engine ℕ
start = new_engine "s"

abbrev grown : Engine ℕ
grown = record start { dag = add_edges new_dag (edge ∷ []) }

start-IsKeyed : IsKeyed start.scores.scores
unfolding IsKeyed new_engine new_score_cache
start-IsKeyed = tt

grown-IsValid : IsValid grown
unfolding new_engine
grown-IsValid = record {
  indexed = add_edges-IsIndexed new_dag (edge ∷ []) (new_dag-IsIndexed ℕ);
  keyed = start-IsKeyed;
}

fork-reads_example :
    IsValid (fork grown)
    × ((id : String) → prerequisites (fork grown).dag id ≡ prerequisites grown.dag id)
    × ((k : ScoreKey) → get_local_context k (fork grown).scores ≡ get_local_context k grown.scores)
fork-reads_example = fork-reads grown grown-IsValid

merge-reads_example :
    ((id : String)
      → prerequisites (merge start grown).dag id
        ≡ prerequisites start.dag id ++ prerequisites grown.dag id)
    × ((k : ScoreKey)
        → get_local_context k (merge start grown).scores ≡ elim (get_local_context k start.scores) [
          | some v ↦ some v
          | none ↦
              if text_eq k.local_context_fingerprint ""
              then none
              else get_local_context k grown.scores
        ])
merge-reads_example = merge-reads start grown grown-IsValid

merge-fork_doubles_example :
    prerequisites (merge grown (fork grown)).dag "m2"
    ≡ prerequisites grown.dag "m2" ++ prerequisites grown.dag "m2"
merge-fork_doubles_example = merge-fork_doubles grown grown-IsValid "m2"

set_price_made_or_forked_example :
    ((e' : Engine ℕ) × (set_price (record grown { price = some [] }) "t" 7 ≡ some e')
      × ((t : String)
          → last_price 0 e' t
            ≡ (if text_eq "t" t then 7 else last_price 0 (record grown { price = some [] }) t)))
    × (set_price (fork grown) "t" 7 ≡ none)
set_price_made_or_forked_example = set_price_made_or_forked grown 0 [] "t" 7

add_edges-IsDual_example : IsDual (add_edges new_dag (edge ∷ edge ∷ []))
add_edges-IsDual_example = add_edges-IsDual new_dag (edge ∷ edge ∷ []) (new_dag-IsDual ℕ)

admit_edges-dag_example :
    (admit_edges start (edge ∷ [])).0
    ≡ record start { dag = add_edges start.dag (admit_edges start (edge ∷ [])).1 }
admit_edges-dag_example = admit_edges-dag start (edge ∷ [])

abbrev contributors : List (Contributor ℕ)
contributors =
    record { message_id = "m2"; thread_id = "t"; weight = 2 }
    ∷ record { message_id = "m1"; thread_id = "t"; weight = 4 }
    ∷ record { message_id = "m2"; thread_id = "t"; weight = 6 }
    ∷ []

record_provenance-dag_example :
    (record_provenance nat_floats grown (some result) contributors).0 ≡ record grown {
      dag = add_edges grown.dag (record_provenance nat_floats grown (some result) contributors).1;
    }
record_provenance-dag_example = record_provenance-dag nat_floats grown result contributors

start_unfiltered : start.edge_filter ≡ none
unfolding new_engine
start_unfiltered = refl

record_provenance_unfiltered_example :
    All
      (IsFresh nat_floats result [])
      (record_provenance nat_floats start (some result) contributors).1
    × IsDistinct
        (froms nat_floats (record_provenance nat_floats start (some result) contributors).1)
    × All
        (IsRecordOf nat_floats start contributors)
        (record_provenance nat_floats start (some result) contributors).1
    × All
        (IsCovered nat_floats result []
          (record_provenance nat_floats start (some result) contributors).1)
        contributors
record_provenance_unfiltered_example =
    record_provenance_unfiltered nat_floats start result contributors start_unfiltered

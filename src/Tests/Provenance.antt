-- ===== src/Tests/Provenance.antt =====
-- Provenance edges with a cycle, walked back from one delivered message.
use grudge_ai.Prelude.{
  ℕ, String, ◌≡◌, refl, Bool, true, false, Option, none, some, List, [], ◌∷◌, All, ltb, lookup,
  insert, erase, arith, map,
}
use grudge_ai.Rrc.Edge.{Edge, EdgeSource, SelectionScope, scope_allows}
use grudge_ai.Rrc.Dag.{Dag, new_dag, add_edges, add_edge, prerequisites, all_edges, concat_all}
use grudge_ai.Rrc.Provenance.{ReachState, provenance_reach}
use grudge_ai.Rrc.Provenance.Reached.{IsReached}
use grudge_ai.Rrc.Provenance.Complete.{IsWithin, provenance_reach-IsReached}
use grudge_ai.Rrc.Provenance.Descent.{Descends, provenance_reach-Descends}
use grudge_ai.Tests.{nat_floats}

abbrev grounded : String → String → Edge ℕ
grounded from to = record {
  from_message_id = from;
  to_message_id = to;
  score = 1;
  source = EdgeSource.provenance;
  cross_encoder_score = 1;
  from_thread_id = "t";
  to_thread_id = "t";
  scorer_model = "s";
}

abbrev ancestry : Dag ℕ
ancestry = add_edges new_dag (grounded "a" "p" ∷ grounded "b" "a" ∷ grounded "a" "b" ∷ [])

ltb_irreflexive : (n : ℕ) → ltb n n ≡ false
ltb_irreflexive n = ground arith

provenance_reach-IsReached_example :
    (s : ReachState ℕ) × (provenance_reach nat_floats ancestry "t" SelectionScope.thread ("p" ∷ [])
      ≡ some s)
    × IsReached nat_floats ancestry "t" SelectionScope.thread ("p" ∷ []) s
    × (s.truncated ≡ false
        → All
            (IsWithin nat_floats ltb_irreflexive ancestry "t" SelectionScope.thread ("p" ∷ []) s)
            ("p" ∷ [])
          × All
              (IsWithin nat_floats ltb_irreflexive ancestry "t" SelectionScope.thread ("p" ∷ []) s)
              s.in_reach)
provenance_reach-IsReached_example =
    provenance_reach-IsReached nat_floats ltb_irreflexive ancestry "t" SelectionScope.thread
      ("p" ∷ [])

abbrev at_end : ReachState ℕ
at_end = record {
  in_reach = "b" ∷ "a" ∷ [];
  thread_by_id = ("a", "t") ∷ ("b", "t") ∷ [];
  settled = "b" ∷ "a" ∷ "p" ∷ [];
  best = ("b", 1) ∷ ("a", 1) ∷ [];
  heap = [];
  truncated = false;
}

ancestors_end :
    provenance_reach nat_floats ancestry "t" SelectionScope.thread ("p" ∷ []) ≡ some at_end
unfolding provenance_reach grudge_ai.Rrc.Provenance.reach_start grudge_ai.Rrc.Provenance.anchored
    grudge_ai.Rrc.Provenance.reach_loop grudge_ai.Rrc.Provenance.reach_round
    grudge_ai.Rrc.Provenance.push_onward grudge_ai.Rrc.Provenance.push_anchors
    grudge_ai.Rrc.Provenance.push_anchored grudge_ai.Rrc.Provenance.note_threads
    grudge_ai.Rrc.Provenance.contributors_of grudge_ai.Rrc.Provenance.contributing
    grudge_ai.Rrc.Provenance.push_bound grudge_ai.Rrc.Provenance.clamp01
    grudge_ai.Rrc.Provenance.bound_less scope_allows all_edges concat_all prerequisites add_edges
    new_dag add_edge grudge_ai.Prelude.lookup grudge_ai.Prelude.insert grudge_ai.Prelude.erase
    grudge_ai.Prelude.Heap.push grudge_ai.Prelude.Heap.pop grudge_ai.Prelude.Heap.up
    grudge_ai.Prelude.Heap.down grudge_ai.Prelude.Heap.swap grudge_ai.Prelude.Heap.take_last
ancestors_end = refl

provenance_reach-Descends_example :
    All (Descends nat_floats ancestry "t" SelectionScope.thread ("p" ∷ [])) at_end.in_reach
provenance_reach-Descends_example =
    provenance_reach-Descends nat_floats ancestry "t" SelectionScope.thread ("p" ∷ []) at_end
      ancestors_end

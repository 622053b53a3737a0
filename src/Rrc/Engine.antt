-- ===== src/Rrc/Engine.antt =====
-- rrc/engine.go and the recording half of rrc/provenance.go: the engine's state, the admission of
-- edges, forking and merging, the realized prices. Locks are left out: each function is what one
-- holder of the engine's lock does. The price map is `none` where Go's is nil: a write to it panics.
pub mod Forks
pub mod Sources
pub mod Records
use grudge_ai.Prelude.{
  String, Bool, true, false, not, ◌&&◌, ◌||◌, Option, none, some, List, [], ◌∷◌, ◌++◌, Dict, lookup,
  insert, elem, text_eq, if◌then◌else◌,
}
use grudge_ai.Rrc.Floats.{Floats}
use grudge_ai.Rrc.Message.{Message}
use grudge_ai.Rrc.Edge.{Edge, EdgeSource}
use grudge_ai.Rrc.Dag.{Dag, new_dag, add_edge, add_edges, all_edges}
use grudge_ai.Rrc.ScoreCache.{ScoreCache, new_score_cache, set_persister, load_all, merge_scores}

-- The fields of `Engine` that change or that the functions below read. The edge filter gives the
-- edge that it leaves, or nothing for an edge that it drops.
pub record Engine (F : Type 0) : Type 0 where
  pub dag : Dag F
  pub scores : ScoreCache F
  pub edge_filter : Option (Edge F → Option (Edge F))
  pub scorer_model_id : String
  pub price : Option (Dict F)

pub record Contributor (F : Type 0) : Type 0 where
  pub message_id : String
  pub thread_id : String
  pub weight : F

module _ {F : Type 0} where
  -- `NewEngine` before its options; `make` gives an empty price map.
  unfoldable pub new_engine : String → Engine F
  new_engine scorer_model_id = record {
    dag = new_dag;
    scores = new_score_cache;
    edge_filter = none;
    scorer_model_id = scorer_model_id;
    price = some [];
  }

  -- e.price[threadID]: zero for a missing key and for a nil map.
  unfoldable pub last_price : F → Engine F → String → F
  last_price zero e thread_id = elim e.price [
    | none ↦ zero
    | some m ↦ elim (lookup thread_id m) [ none ↦ zero | some p ↦ p ]
  ]

  -- e.price[threadID] = mu; `none` is the panic of a write to a nil map.
  unfoldable pub set_price : Engine F → String → F → Option (Engine F)
  set_price e thread_id mu = elim e.price [
    | none ↦ none
    | some m ↦ some (record e { price = some (insert thread_id mu m) })
  ]

  abbrev pub filtered : Option (Edge F → Option (Edge F)) → Edge F → Option (Edge F)
  filtered none edge = some edge
  filtered (some f) edge = f edge

  abbrev admit : Engine F → Option (Edge F) → Engine F × Option (Edge F)
  admit e none = (e, none)
  admit e (some edge) = (record e { dag = add_edge e.dag edge }, some edge)

  -- The edge as the filter leaves it, where it is admitted. The filter of the source changes the edge
  -- in place; here it returns the changed edge.
  unfoldable pub admit_edge : Engine F → Edge F → Engine F × Option (Edge F)
  admit_edge e edge = admit e (filtered e.edge_filter edge)

  abbrev pub cons_some : Option (Edge F) → List (Edge F) → List (Edge F)
  cons_some none l = l
  cons_some (some x) l = x ∷ l

  -- The loop of `AddEdges` over edges that are not nil: the engine, and the edges admitted.
  unfoldable pub admit_edges : Engine F → List (Edge F) → Engine F × List (Edge F)
  admit_edges e [] = (e, [])
  admit_edges e (edge ∷ edges) =
      let (e', admitted) = admit_edge e edge in
      let (e'', rest) = admit_edges e' edges in (e'', cons_some admitted rest)

  -- `Fork`: the price map is not among the fields that the literal sets.
  unfoldable pub fork : Engine F → Engine F
  fork e = record {
    dag = add_edges new_dag (all_edges e.dag);
    scores = load_all e.scores.scores (set_persister e.scores.persist new_score_cache);
    edge_filter = e.edge_filter;
    scorer_model_id = e.scorer_model_id;
    price = none;
  }

  unfoldable pub merge : Engine F → Engine F → Engine F
  merge e forked = record e {
    dag = add_edges e.dag (all_edges forked.dag);
    scores = merge_scores forked.scores.scores e.scores;
  }

module _ (fl : Floats) where
  open fl use {F}

  -- The edge literal of `RecordProvenance`.
  unfoldable pub provenance_edge : Engine F → Message → Contributor F → Edge F
  provenance_edge e anchor c = record {
    from_message_id = c.message_id;
    to_message_id = anchor.id;
    score = fl.to_float32 c.weight;
    source = EdgeSource.provenance;
    cross_encoder_score = fl.zero;
    from_thread_id = c.thread_id;
    to_thread_id = anchor.thread_id;
    scorer_model = e.scorer_model_id;
  }

  -- `c.MessageID == "" || c.MessageID == anchor.Id || seen[c.MessageID]`
  abbrev pub is_skipped : Message → List String → Contributor F → Bool
  is_skipped anchor seen c =
      text_eq c.message_id "" || text_eq c.message_id anchor.id || elem c.message_id seen

  unfoldable pub record_loop :
      Engine F → Message → List String → List (Contributor F) → Engine F × List (Edge F)
  record_loop e anchor seen [] = (e, [])
  record_loop e anchor seen (c ∷ cs) =
      let skipped = record_loop e anchor seen cs in
      let (e', admitted) = admit_edge e (provenance_edge e anchor c) in
      let recorded = record_loop e' anchor (c.message_id ∷ seen) cs in
      if is_skipped anchor seen c then skipped else (recorded.0, cons_some admitted recorded.1)

  unfoldable pub record_provenance :
      Engine F → Option Message → List (Contributor F) → Engine F × List (Edge F)
  record_provenance e none cs = (e, [])
  record_provenance e (some anchor) cs = record_loop e anchor [] cs

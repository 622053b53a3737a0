-- ===== src/Rrc/Engine/Records.antt =====
-- What recording a turn's provenance adds to the graph.
use grudge_ai.Prelude.{
  ◌∙◌, IsDistinct, String, ◌≡◌, refl, false, none, some, List, [], ◌∷◌, All, eq_iff, arith,
  Bool-cases, inl, inr,
}
use grudge_ai.Rrc.Floats.{Floats}
use grudge_ai.Rrc.Message.{Message}
use grudge_ai.Rrc.Edge.{Edge}
use grudge_ai.Rrc.Dag.{add_edges, add_edge}
use grudge_ai.Rrc.Engine.{
  Engine, Contributor, admit_edge, admit_edges, provenance_edge, is_skipped, record_loop,
  record_provenance,
}
use grudge_ai.Rrc.Engine.Sources.{
  IsFresh, froms, IsRecordOf, All-IsRecordOf-later, skipped_other, taken_other, IsCovered,
  unseen_of_IsFresh, IsCovered-before,
}

module _ {F : Type 0} where
  -- `AddEdges` changes the graph by exactly the edges that it returns, in their order, and nothing
  -- else of the engine.
  pub admit_edges-dag :
      (e : Engine F) (edges : List (Edge F))
      → (admit_edges e edges).0 ≡ record e { dag = add_edges e.dag (admit_edges e edges).1 }
  unfolding admit_edges admit_edge add_edges
  admit_edges-dag e [] = refl
  admit_edges-dag e (edge ∷ edges) =
      ground (arith, admit_edges-dag e edges, admit_edges-dag (admit_edge e edge).0 edges)

module _ (fl : Floats) where
  open fl use {F}

  -- The edges of an unfiltered recording.
  record Recorded (e : Engine F) (anchor : Message) (seen : List String) (cs : List (Contributor F))
      (edges : List (Edge F)) : Type 0 where
    records : All (IsRecordOf fl e cs) edges
    fresh : All (IsFresh fl anchor seen) edges
    distinct : IsDistinct (froms fl edges)
    covered : All (IsCovered fl anchor seen edges) cs

  admit_edge_unfiltered :
      (e : Engine F) (edge : Edge F)
      → e.edge_filter ≡ none
      → admit_edge e edge ≡ (record e { dag = add_edge e.dag edge }, some edge)
  unfolding admit_edge
  admit_edge_unfiltered e edge h = ground arith

  Recorded-cons :
      (e : Engine F) (anchor : Message) (seen : List String) (c : Contributor F)
      (cs : List (Contributor F)) (edges : List (Edge F))
      → is_skipped fl anchor seen c ≡ false
      → Recorded e anchor (c.message_id ∷ seen) cs edges
      → Recorded e anchor seen (c ∷ cs) (provenance_edge fl e anchor c ∷ edges)
  unfolding provenance_edge
  Recorded-cons e anchor seen c cs edges taken r =
      let (rest, out) = unseen_of_IsFresh fl anchor c.message_id seen edges r.fresh in
      let edge : Edge F = provenance_edge fl e anchor c in
      record {
        records = (
          (
            [],
            c,
            cs,
            refl,
            record {
              from = refl;
              first = refl;
              from_thread = refl;
              score = refl;
              observation = refl;
              scorer = refl;
            },
          ),
          All-IsRecordOf-later fl e anchor (c.message_id ∷ seen) c cs edges
              (taken_other fl anchor seen c) r.fresh r.records,
        );
        fresh = (
          record {
            named = ground (arith, eq_iff c.message_id "");
            other = ground (arith, eq_iff c.message_id anchor.id);
            first = ground arith;
            target = refl;
            target_thread = refl;
            source = refl;
          },
          rest,
        );
        distinct = (out, r.distinct);
        covered = (
          ground (arith, eq_iff c.message_id c.message_id),
          IsCovered-before fl anchor c.message_id seen edge edges cs refl r.covered,
        );
      }

  All-same_scorer :
      (e e' : Engine F) (cs : List (Contributor F)) (edges : List (Edge F))
      → e.scorer_model_id ≡ e'.scorer_model_id
      → All (IsRecordOf fl e cs) edges
      → All (IsRecordOf fl e' cs) edges
  All-same_scorer e e' cs [] same h = tt
  All-same_scorer e e' cs (edge ∷ edges) same ((before, c, after, split, r), h) = (
    (
      before,
      c,
      after,
      split,
      record {
        from = r.from;
        first = r.first;
        from_thread = r.from_thread;
        score = r.score;
        observation = r.observation;
        scorer = r.scorer ∙ same;
      },
    ),
    All-same_scorer e e' cs edges same h,
  )

  same_scorer :
      (e e' : Engine F) (anchor : Message) (seen : List String) (cs : List (Contributor F))
      (edges : List (Edge F))
      → e.scorer_model_id ≡ e'.scorer_model_id
      → Recorded e anchor seen cs edges
      → Recorded e' anchor seen cs edges
  same_scorer e e' anchor seen cs edges same r = record {
    records = All-same_scorer e e' cs edges same r.records;
    fresh = r.fresh;
    distinct = r.distinct;
    covered = r.covered;
  }

  record_loop-Recorded :
      (e : Engine F) (anchor : Message) (seen : List String) (cs : List (Contributor F))
      → e.edge_filter ≡ none
      → Recorded e anchor seen cs (record_loop fl e anchor seen cs).1
  unfolding record_loop
  record_loop-Recorded e anchor seen [] h = record {
    records = tt;
    fresh = tt;
    distinct = tt;
    covered = tt;
  }
  record_loop-Recorded e anchor seen (c ∷ cs) h =
      let edge = provenance_edge fl e anchor c in
      let e' : Engine F = record e { dag = add_edge e.dag edge } in
      elim (Bool-cases (is_skipped fl anchor seen c)) [
        | inl skipped ↦
            let r = record_loop-Recorded e anchor seen cs h in
            rw skipped (record {
              records =
                  All-IsRecordOf-later fl e anchor seen c cs (record_loop fl e anchor seen cs).1
                    (skipped_other fl anchor seen c skipped) r.fresh r.records;
              fresh = r.fresh;
              distinct = r.distinct;
              covered = (ground arith, r.covered);
            })
        | inr taken ↦
            rw (taken, admit_edge_unfiltered e edge h)
              (Recorded-cons e anchor seen c cs
                (record_loop fl e' anchor (c.message_id ∷ seen) cs).1 taken
                (same_scorer e' e anchor (c.message_id ∷ seen) cs
                  (record_loop fl e' anchor (c.message_id ∷ seen) cs).1 refl
                  (record_loop-Recorded e' anchor (c.message_id ∷ seen) cs h)))
      ]

  record_loop-dag :
      (e : Engine F) (anchor : Message) (seen : List String) (cs : List (Contributor F))
      → (record_loop fl e anchor seen cs).0
        ≡ record e { dag = add_edges e.dag (record_loop fl e anchor seen cs).1 }
  unfolding record_loop admit_edge add_edges
  record_loop-dag e anchor seen [] = refl
  record_loop-dag e anchor seen (c ∷ cs) = ground (
    arith,
    record_loop-dag e anchor seen cs,
    record_loop-dag (admit_edge e (provenance_edge fl e anchor c)).0 anchor (c.message_id ∷ seen)
        cs,
  )

  -- Whatever the filter, recording changes the graph by exactly the edges that it returns and
  -- nothing else of the engine.
  pub record_provenance-dag :
      (e : Engine F) (anchor : Message) (cs : List (Contributor F))
      → (record_provenance fl e (some anchor) cs).0
        ≡ record e { dag = add_edges e.dag (record_provenance fl e (some anchor) cs).1 }
  unfolding record_provenance
  record_provenance-dag e anchor cs = record_loop-dag e anchor [] cs

  -- With no filter installed, recording returns provenance edges into the anchor and its thread, no two
  -- from one message. Each is the record of a contributor that has a name and is not the anchor, the
  -- first of the list with its id: from its message and its thread, with its weight, rounded, as the
  -- score, no observation of a scorer, and the engine's scorer. Every contributor that has a name and
  -- is not the anchor has an edge from its message.
  pub record_provenance_unfiltered :
      (e : Engine F) (anchor : Message) (cs : List (Contributor F))
      → e.edge_filter ≡ none
      → All (IsFresh fl anchor []) (record_provenance fl e (some anchor) cs).1
        × IsDistinct (froms fl (record_provenance fl e (some anchor) cs).1)
        × All (IsRecordOf fl e cs) (record_provenance fl e (some anchor) cs).1
        × All (IsCovered fl anchor [] (record_provenance fl e (some anchor) cs).1) cs
  unfolding record_provenance
  record_provenance_unfiltered e anchor cs h =
      let r = record_loop-Recorded e anchor [] cs h in (r.fresh, r.distinct, r.records, r.covered)

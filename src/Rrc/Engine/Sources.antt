-- ===== src/Rrc/Engine/Sources.antt =====
-- The edges of rrc/engine.go's RecordProvenance: whose record each is, and whom they cover.
use grudge_ai.Prelude.{
  ◌++◌, ap, subst, String, ◌≡◌, ◌≢◌, refl, true, false, ◌||◌, List, [], ◌∷◌, All, elem, text_eq,
  eq_iff, arith, Bool-cases, inl, inr,
}
use grudge_ai.Rrc.Floats.{Floats}
use grudge_ai.Rrc.Message.{Message}
use grudge_ai.Rrc.Edge.{Edge, EdgeSource}
use grudge_ai.Rrc.Engine.{Engine, Contributor, is_skipped}

module _ (fl : Floats) where
  open fl use {F}

  -- A contributor that is recorded: named, not the anchor itself, not among those seen.
  pub record IsFresh (anchor : Message) (seen : List String) (edge : Edge F) : Type 0 where
    pub named : edge.from_message_id ≢ ""
    pub other : edge.from_message_id ≢ anchor.id
    pub first : elem edge.from_message_id seen ≡ false
    pub target : edge.to_message_id ≡ anchor.id
    pub target_thread : edge.to_thread_id ≡ anchor.thread_id
    pub source : edge.source ≡ EdgeSource.provenance

  abbrev pub froms : List (Edge F) → List String
  froms [] = []
  froms (edge ∷ edges) = edge.from_message_id ∷ froms edges

  abbrev pub ids_of : List (Contributor F) → List String
  ids_of [] = []
  ids_of (c ∷ cs) = c.message_id ∷ ids_of cs

  -- The edge is the record of one contributor, the first of the list with its id: its thread, its
  -- weight, rounded, as the score, no observation of a scorer, and the scorer of the engine.
  pub record Records (e : Engine F) (edge : Edge F) (before : List (Contributor F))
      (c : Contributor F) : Type 0 where
    pub from : edge.from_message_id ≡ c.message_id
    pub first : elem c.message_id (ids_of before) ≡ false
    pub from_thread : edge.from_thread_id ≡ c.thread_id
    pub score : edge.score ≡ fl.to_float32 c.weight
    pub observation : edge.cross_encoder_score ≡ fl.zero
    pub scorer : edge.scorer_model ≡ e.scorer_model_id

  abbrev pub IsRecordOf : Engine F → List (Contributor F) → Edge F → Type 0
  IsRecordOf e cs edge =
      (before : List (Contributor F)) × (c : Contributor F) × (after : List (Contributor F)) × (cs
        ≡ before ++ c ∷ after)
      × Records e edge before c

  -- A contributor before the others is no record's own, if it has another id.
  IsRecordOf-later :
      (e : Engine F) (x : Contributor F) (cs : List (Contributor F)) (edge : Edge F)
      → text_eq x.message_id edge.from_message_id ≡ false
      → IsRecordOf e cs edge
      → IsRecordOf e (x ∷ cs) edge
  IsRecordOf-later e x cs edge apart (before, c, after, split, r) = (
    x ∷ before,
    c,
    after,
    ap (◌∷◌ x) split,
    record {
      from = r.from;
      first = ground (
        arith,
        r.first,
        apart,
        r.from,
        eq_iff x.message_id c.message_id,
        eq_iff x.message_id edge.from_message_id,
      );
      from_thread = r.from_thread;
      score = r.score;
      observation = r.observation;
      scorer = r.scorer;
    },
  )

  pub All-IsRecordOf-later :
      (e : Engine F) (anchor : Message) (seen : List String) (x : Contributor F)
      (cs : List (Contributor F)) (edges : List (Edge F))
      → ((edge : Edge F)
          → IsFresh anchor seen edge
          → text_eq x.message_id edge.from_message_id ≡ false)
      → All (IsFresh anchor seen) edges
      → All (IsRecordOf e cs) edges
      → All (IsRecordOf e (x ∷ cs)) edges
  All-IsRecordOf-later e anchor seen x cs [] apart f h = tt
  All-IsRecordOf-later e anchor seen x cs (edge ∷ edges) apart f h = (
    IsRecordOf-later e x cs edge (apart edge f.0) h.0,
    All-IsRecordOf-later e anchor seen x cs edges apart f.1 h.1,
  )

  -- A contributor that is passed over has another id than every edge that is fresh.
  pub skipped_other :
      (anchor : Message) (seen : List String) (x : Contributor F)
      → is_skipped fl anchor seen x ≡ true
      → (edge : Edge F) → IsFresh anchor seen edge
      → text_eq x.message_id edge.from_message_id ≡ false
  skipped_other anchor seen x skipped edge f =
      elim (Bool-cases (text_eq x.message_id edge.from_message_id)) [
        | inr other ↦ other
        | inl same ↦
            let id = (eq_iff x.message_id edge.from_message_id).0 same in
            let passed : (text_eq edge.from_message_id ""
                  || text_eq edge.from_message_id anchor.id
                  || elem edge.from_message_id seen)
                ≡ true =
              subst (λ i. (text_eq i "" || text_eq i anchor.id || elem i seen) ≡ true) id skipped in
            absurd (
              ground (
                arith,
                passed,
                f.named,
                f.other,
                f.first,
                eq_iff edge.from_message_id "",
                eq_iff edge.from_message_id anchor.id,
              ))
      ]

  -- A contributor that is recorded is seen, and so has another id than every later edge.
  pub taken_other :
      (anchor : Message) (seen : List String) (x : Contributor F) (edge : Edge F)
      → IsFresh anchor (x.message_id ∷ seen) edge
      → text_eq x.message_id edge.from_message_id ≡ false
  taken_other anchor seen x edge f = ground (arith, f.first)

  -- The contributor has an edge, unless it is nameless, the anchor, or seen.
  abbrev pub IsCovered : Message → List String → List (Edge F) → Contributor F → Type 0
  IsCovered anchor seen edges c =
      (text_eq c.message_id ""
        || text_eq c.message_id anchor.id
        || elem c.message_id seen
        || elem c.message_id (froms edges))
      ≡ true

  pub unseen_of_IsFresh :
      (anchor : Message) (x : String) (seen : List String) (edges : List (Edge F))
      → All (IsFresh anchor (x ∷ seen)) edges
      → All (IsFresh anchor seen) edges × (elem x (froms edges) ≡ false)
  unseen_of_IsFresh anchor x seen [] h = (tt, refl)
  unseen_of_IsFresh anchor x seen (edge ∷ edges) h =
      let (rest, out) = unseen_of_IsFresh anchor x seen edges h.1 in
      let first = h.0.first in
      (
        (
          record {
            named = h.0.named;
            other = h.0.other;
            first = ground arith;
            target = h.0.target;
            target_thread = h.0.target_thread;
            source = h.0.source;
          },
          rest,
        ),
        ground (arith, eq_iff x edge.from_message_id, eq_iff edge.from_message_id x),
      )

  pub IsCovered-before :
      (anchor : Message) (x : String) (seen : List String) (edge : Edge F) (edges : List (Edge F))
      (cs : List (Contributor F))
      → edge.from_message_id ≡ x
      → All (IsCovered anchor (x ∷ seen) edges) cs
      → All (IsCovered anchor seen (edge ∷ edges)) cs
  IsCovered-before anchor x seen edge edges [] e h = tt
  IsCovered-before anchor x seen edge edges (c ∷ cs) e h =
      (ground arith, IsCovered-before anchor x seen edge edges cs e h.1)

-- ===== src/Rrc/Selection/Marks.antt =====
-- rrc/selection.go: the ids that the walk marks as visited, and what it makes of each.
use grudge_ai.Prelude.{
  IsDistinct, suc, String, ◌≡◌, refl, sym, ◌∙◌, ap, subst, Bool, true, false, ◌||◌, none, some,
  List, [], ◌∷◌, ◌++◌, map, length, elem, elem-append, Dict, lookup, insert, lookup-insert,
  lookup-empty, text_eq, eq_iff, arith, All, All-append, Bool-cases, inl, inr,
}
use grudge_ai.Rrc.Floats.{Floats}
use grudge_ai.Rrc.Edge.{SelectionScope}
use grudge_ai.Rrc.Dag.{Dag, all_edges, is_some}
use grudge_ai.Rrc.Selection.{
  SelectionEntry, PqItem, Cone, walk_round, walk_loop, seeded, extract_subgraph, cone_result,
}
use grudge_ai.Rrc.Selection.Visited.{walk_loop-keeps, seeded-ends}

abbrev pub entry_ids : {F : Type 0} → List (SelectionEntry F) → List String
entry_ids = map (λ e. e.message_id)

IsDistinct-snoc :
    (xs : List String) (x : String) → IsDistinct xs → elem x xs ≡ false → IsDistinct (xs ++ x ∷ [])
IsDistinct-snoc [] x h new = (refl, tt)
IsDistinct-snoc (y ∷ xs) x h new = (
  ground (arith, elem-append y xs (x ∷ []), h.0, new, eq_iff y x, eq_iff x y),
  IsDistinct-snoc xs x h.1 (ground (arith, new)),
)

entry_ids-snoc :
    {F : Type 0} (es : List (SelectionEntry F)) (e : SelectionEntry F)
    → entry_ids (es ++ e ∷ []) ≡ entry_ids es ++ e.message_id ∷ []
entry_ids-snoc [] e = refl
entry_ids-snoc (x ∷ es) e = ap (◌∷◌ x.message_id) (entry_ids-snoc es e)

module _ (fl : Floats) (loss_ratio : fl.F) (prompt_id : String) where
  open fl use {F}

  -- The selected messages and those below the floor: no message is selected twice, none of them is
  -- the prompt, none is both selected and below, and each stands on its side of the floor.
  pub record IsCone (selected : List (SelectionEntry F)) (below_floor : Dict F) : Type 0 where
    pub distinct : IsDistinct (entry_ids selected)
    pub no_prompt : elem prompt_id (entry_ids selected) ≡ false
    pub below_no_prompt : lookup prompt_id below_floor ≡ none
    pub apart : (x : String) → elem x (entry_ids selected) ≡ true → lookup x below_floor ≡ none
    pub above : All (λ e. fl.lt e.effective_score loss_ratio ≡ false) selected
    pub below : (x : String) (s : F) → lookup x below_floor ≡ some s → fl.lt s loss_ratio ≡ true

  -- What the walk has marked: the prompt, the selected messages and those below the floor.
  abbrev pub marked : List (SelectionEntry F) → Dict F → String → Bool
  marked selected below_floor x =
      text_eq prompt_id x || (elem x (entry_ids selected) || is_some (lookup x below_floor))

  pub record IsMarked (c : Cone F) : Type 0 where
    pub cone : IsCone c.selected c.below_floor
    pub visits : (x : String) → elem x c.visited ≡ marked c.selected c.below_floor x

  add_below-IsCone :
      (selected : List (SelectionEntry F)) (below_floor : Dict F) (id : String) (score : F)
      → marked selected below_floor id ≡ false
      → fl.lt score loss_ratio ≡ true
      → IsCone selected below_floor
      → IsCone selected (insert id score below_floor)
  add_below-IsCone selected below_floor id score new low h = record {
    distinct = h.distinct;
    no_prompt = h.no_prompt;
    below_no_prompt = ground (
      arith,
      new,
      h.below_no_prompt,
      lookup-insert id prompt_id score below_floor,
      eq_iff id prompt_id,
      eq_iff prompt_id id,
    );
    apart =
        λ x m. ground (arith, new, m, h.apart x, lookup-insert id x score below_floor, eq_iff id x);
    above = h.above;
    below = λ x s e.
        ground (arith, low, e, h.below x s, lookup-insert id x score below_floor, eq_iff id x);
  }

  add_selected-IsCone :
      (selected : List (SelectionEntry F)) (below_floor : Dict F) (e : SelectionEntry F)
      → marked selected below_floor e.message_id ≡ false
      → fl.lt e.effective_score loss_ratio ≡ false
      → IsCone selected below_floor
      → IsCone (selected ++ e ∷ []) below_floor
  add_selected-IsCone selected below_floor e new high h =
      let id = e.message_id in
      let ids = entry_ids-snoc selected e in
      record {
        distinct =
            subst IsDistinct (sym ids)
              (IsDistinct-snoc (entry_ids selected) id h.distinct (ground (arith, new)));
        no_prompt = ground (
          arith,
          ap (elem prompt_id) ids,
          elem-append prompt_id (entry_ids selected) (id ∷ []),
          new,
          h.no_prompt,
          eq_iff id prompt_id,
          eq_iff prompt_id id,
        );
        below_no_prompt = h.below_no_prompt;
        apart = λ x m. ground (
          arith,
          ap (elem x) ids,
          elem-append x (entry_ids selected) (id ∷ []),
          m,
          new,
          h.apart x,
          eq_iff id x,
        );
        above =
            All-append (λ e. fl.lt e.effective_score loss_ratio ≡ false) selected (e ∷ []) h.above
              (high, tt);
        below = h.below;
      }

  module _ (prompt_thread_id : String) (scope : SelectionScope) (ref_floor : List F)
      (d : Dag F) where
    walk_round-IsMarked :
        (c : Cone F) (item : PqItem F) (pq : List (PqItem F))
        → IsMarked c
        → IsMarked (walk_round fl prompt_thread_id scope loss_ratio ref_floor d c item pq)
    unfolding walk_round
    walk_round-IsMarked c item pq h =
        let id = item.entry.message_id in
        elim (Bool-cases (elem id c.visited)) [
          | inl old ↦ rw old (record { cone = h.cone; visits = h.visits })
          | inr new ↦ elim (Bool-cases (fl.lt item.entry.effective_score loss_ratio)) [
            | inl below ↦
                rw (new, below)
                  (record {
                    cone =
                        add_below-IsCone c.selected c.below_floor id item.entry.effective_score
                          (sym (h.visits id) ∙ new) below h.cone;
                    visits = λ x. ground (
                      arith,
                      h.visits x,
                      lookup-insert id x item.entry.effective_score c.below_floor,
                      eq_iff id x,
                    );
                  })
            | inr above ↦
                rw (new, above)
                  (record {
                    cone =
                        add_selected-IsCone c.selected c.below_floor item.entry
                          (sym (h.visits id) ∙ new) above h.cone;
                    visits = λ x. ground (
                      arith,
                      h.visits x,
                      ap (elem x) (entry_ids-snoc c.selected item.entry),
                      elem-append x (entry_ids c.selected) (id ∷ []),
                    );
                  })
          ]
        ]

    seeded-IsMarked : IsMarked (seeded fl prompt_thread_id scope loss_ratio ref_floor d prompt_id)
    unfolding seeded
    seeded-IsMarked = record {
      cone = record {
        distinct = tt;
        no_prompt = refl;
        below_no_prompt = lookup-empty prompt_id;
        apart = λ x m. absurd (cc);
        above = tt;
        below = λ x s e. absurd (cc (e, lookup-empty {V = F} x));
      };
      visits = λ x. ground (arith, lookup-empty {V = F} x);
    }

    -- At the end of the walk the queue is empty and every mark has its side.
    pub walk-IsMarked :
        (c : Cone F)
        → walk_loop fl prompt_thread_id scope loss_ratio ref_floor d
            (suc (length (all_edges d)))
            (seeded fl prompt_thread_id scope loss_ratio ref_floor d prompt_id)
          ≡ some c
        → IsMarked c
    walk-IsMarked c h =
        (walk_loop-keeps fl prompt_thread_id scope loss_ratio ref_floor d IsMarked
          (λ c item pq popped. walk_round-IsMarked c item pq) (suc (length (all_edges d)))
          (seeded fl prompt_thread_id scope loss_ratio ref_floor d prompt_id) c h seeded-IsMarked).0

    -- `extractSubgraph` ends on every graph, also one with cycles. No message is selected twice, the
    -- prompt is neither selected nor below the floor, no message is both, every selected message has
    -- an effective score at or above the floor, and every message that is reported below it has one
    -- below.
    pub extract_subgraph-IsCone :
        (selected : List (SelectionEntry F)) × (below_floor : Dict F) × (extract_subgraph fl
            prompt_thread_id scope loss_ratio ref_floor d prompt_id
          ≡ some (selected, below_floor))
        × IsCone selected below_floor
    unfolding extract_subgraph
    extract_subgraph-IsCone =
        let ended = seeded-ends fl prompt_thread_id scope loss_ratio ref_floor d prompt_id in
        (
          ended.0.selected,
          ended.0.below_floor,
          ap cone_result ended.1,
          (walk-IsMarked ended.0 ended.1).cone,
        )

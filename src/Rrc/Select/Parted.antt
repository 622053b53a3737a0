-- ===== src/Rrc/Select/Parted.antt =====
-- rrc/engine.go: `selectLocked` answers, and parts the messages into selected and excluded ones.
use grudge_ai.Prelude.{
  String, ◌≡◌, refl, sym, ◌∙◌, ap, subst, false, ◌&&◌, ◌||◌, List, [], ◌∷◌, ◌++◌, map, length, elem,
  Dict, lookup, if◌then◌else◌, text_eq, ok, err, leb, IsDistinct, All, All-append, Bool-cases,
  arith, inl, inr,
}
use grudge_ai.Rrc.Floats.{Floats}
use grudge_ai.Rrc.Edge.{Edge, SelectionScope, scope_allows}
use grudge_ai.Rrc.Dag.{Dag, prerequisites}
use grudge_ai.Rrc.Assemble.{SelectedMessage, SelectionResult}
use grudge_ai.Rrc.Selection.{SelectionEntry}
use grudge_ai.Rrc.Selection.Marks.{entry_ids, extract_subgraph-IsCone}
use grudge_ai.Rrc.Reduction.{transitive_reduction, reduce_entry}
use grudge_ai.Rrc.Select.{
  ExcludedMessage, thread_not_found, is_thread_scope, is_above_zero, selected_message,
  exclude_below, exclude_out_of_scope, selection_of, select_walked, select_locked,
}

entry_ids-map :
    {F : Type 0} (f : SelectionEntry F → SelectionEntry F)
    → ((s : SelectionEntry F) → (f s).message_id ≡ s.message_id)
    → (es : List (SelectionEntry F)) → entry_ids (map f es) ≡ entry_ids es
entry_ids-map f same [] = refl
entry_ids-map f same (e ∷ es) = cc (same e, entry_ids-map f same es)

entry_ids-transitive_reduction :
    {F : Type 0} (es : List (SelectionEntry F)) → entry_ids (transitive_reduction es) ≡ entry_ids es
unfolding transitive_reduction reduce_entry
entry_ids-transitive_reduction es = elim (Bool-cases (leb (length es) 1)) [
  | inl few ↦ rw few refl
  | inr many ↦ rw many (entry_ids-map _ (λ s. refl) es)
]

module _ (fl : Floats) where
  open fl use {F}

  abbrev pub selected_ids : List (SelectedMessage F) → List String
  selected_ids = map (λ m. m.message_id)

  selected_ids-of-entries :
      (es : List (SelectionEntry F)) → selected_ids (map (selected_message fl) es) ≡ entry_ids es
  unfolding selected_message
  selected_ids-of-entries [] = refl
  selected_ids-of-entries (e ∷ es) = ap (◌∷◌ e.message_id) (selected_ids-of-entries es)

  abbrev pub IsLeftOut : List String → ExcludedMessage F → Type 0
  IsLeftOut ids x = elem x.message_id ids ≡ false

  exclude_below-IsLeftOut :
      (ids : List String) (below_floor : Dict F)
      → All (IsLeftOut ids) (exclude_below fl ids below_floor)
  unfolding exclude_below
  exclude_below-IsLeftOut ids [] = tt
  exclude_below-IsLeftOut ids ((id, score) ∷ below_floor) = elim (Bool-cases (elem id ids)) [
    | inl chosen ↦ rw chosen (exclude_below-IsLeftOut ids below_floor)
    | inr out ↦ rw out (out, exclude_below-IsLeftOut ids below_floor)
  ]

  exclude_out_of_scope-IsLeftOut :
      (ids : List String) (below_floor : Dict F) (thread_id : String) (scope : SelectionScope)
      (edges : List (Edge F))
      → All (IsLeftOut ids) (exclude_out_of_scope fl ids below_floor thread_id scope edges)
  unfolding exclude_out_of_scope
  exclude_out_of_scope-IsLeftOut ids below_floor thread_id scope [] = tt
  exclude_out_of_scope-IsLeftOut ids below_floor thread_id scope (e ∷ edges) =
      let passed =
        elem e.from_message_id ids
        || is_above_zero fl (lookup e.from_message_id below_floor)
        || scope_allows e thread_id scope in
      let rest = exclude_out_of_scope-IsLeftOut ids below_floor thread_id scope edges in
      elim (Bool-cases passed) [
        | inl pass ↦ rw pass rest
        | inr out ↦ rw out (ground (arith, out), rest)
      ]

  module _ (loss_ratio : F) (d : Dag F) (anchor_id : String) (scope : SelectionScope)
      (thread_id : String) (ref_floor : List F) where
    -- The selection names its messages once, in the order of the walk, and never the anchor; no
    -- message is both selected and excluded.
    pub record IsParted (r : SelectionResult F × List (ExcludedMessage F)) : Type 0 where
      pub anchor : r.0.anchor_message_id ≡ anchor_id
      pub distinct : IsDistinct (selected_ids r.0.selected)
      pub no_anchor : elem anchor_id (selected_ids r.0.selected) ≡ false
      pub left_out : All (IsLeftOut (selected_ids r.0.selected)) r.1

    -- `selectLocked` answers for every graph. For the scope of a thread with no thread named it fails
    -- with the error for a missing thread, and only then. Otherwise its selection names each message
    -- once and the anchor never, and no message that it excludes is selected.
    pub select_locked-IsParted :
        (r : SelectionResult F × List (ExcludedMessage F)) × (select_locked fl loss_ratio d
            anchor_id scope thread_id ref_floor
          ≡ (if is_thread_scope scope && text_eq thread_id "" then err thread_not_found else ok r))
        × IsParted r
    unfolding select_locked selection_of
    select_locked-IsParted =
        let walk = extract_subgraph-IsCone fl loss_ratio anchor_id thread_id scope ref_floor d in
        let chosen = transitive_reduction walk.0 in
        let names : selected_ids (map (selected_message fl) chosen) ≡ entry_ids walk.0 =
          selected_ids-of-entries chosen ∙ entry_ids-transitive_reduction walk.0 in
        let own : selected_ids (map (selected_message fl) chosen) ≡ entry_ids chosen =
          selected_ids-of-entries chosen in
        let unnamed = is_thread_scope scope && text_eq thread_id "" in
        (
          selection_of fl loss_ratio d anchor_id scope thread_id ref_floor chosen walk.1,
          ap (λ r. if unnamed then err thread_not_found else r)
              (ap (select_walked fl loss_ratio d anchor_id scope thread_id ref_floor) walk.2),
          record {
            anchor = refl;
            distinct = subst IsDistinct (sym names) walk.3.distinct;
            no_anchor = ap (elem anchor_id) names ∙ walk.3.no_prompt;
            left_out =
                subst
                  (λ ids. All (IsLeftOut ids) (
                    exclude_below fl (entry_ids chosen) walk.1
                    ++ exclude_out_of_scope fl (entry_ids chosen) walk.1 thread_id scope
                        (prerequisites d anchor_id)))
                  (sym own)
                  (All-append (IsLeftOut (entry_ids chosen))
                    (exclude_below fl (entry_ids chosen) walk.1)
                    (exclude_out_of_scope fl (entry_ids chosen) walk.1 thread_id scope
                      (prerequisites d anchor_id))
                    (exclude_below-IsLeftOut (entry_ids chosen) walk.1)
                    (exclude_out_of_scope-IsLeftOut (entry_ids chosen) walk.1 thread_id scope
                      (prerequisites d anchor_id)));
          },
        )

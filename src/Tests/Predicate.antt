-- ===== src/Tests/Predicate.antt =====
-- A predicate that pins a thread, put to the theorems.
use grudge_ai.Prelude.{◌≡◌, refl, true, [], ◌∷◌, some, filter, text_eq}
use grudge_ai.Rrc.Predicate.{
  Predicate, CandidateAttrs, eval_predicate, compile_predicate, thread_scope_of, pred_and, child,
  no_children, pred_thread, pred_exclude_message_ids,
}
use grudge_ai.Rrc.Predicate.Compile.{compile_predicate-eq-eval_predicate}
use grudge_ai.Rrc.Predicate.Routing.{thread_scope_of_routing}

abbrev pinned : Predicate
pinned =
    pred_and (child (pred_exclude_message_ids ("m1" ∷ [])) (child (pred_thread "t") no_children))

abbrev inside : CandidateAttrs
inside = record { message_id = "m2"; thread_id = "t"; metadata = [] }

abbrev outside : CandidateAttrs
outside = record { message_id = "m4"; thread_id = "s"; metadata = [] }

compile_predicate-eq-eval_predicate_example :
    compile_predicate pinned inside ≡ eval_predicate pinned inside
compile_predicate-eq-eval_predicate_example = compile_predicate-eq-eval_predicate pinned inside

thread_scope_of-pinned : thread_scope_of pinned ≡ some "t"
unfolding thread_scope_of
thread_scope_of-pinned = refl

eval_predicate-pinned : eval_predicate pinned inside ≡ true
unfolding eval_predicate
eval_predicate-pinned = refl

thread_scope_of_routing_example :
    filter (eval_predicate pinned) (filter (λ a. text_eq a.thread_id "t") (outside ∷ inside ∷ []))
    ≡ filter (eval_predicate pinned) (outside ∷ inside ∷ [])
thread_scope_of_routing_example =
    thread_scope_of_routing pinned "t" (outside ∷ inside ∷ []) thread_scope_of-pinned

-- ===== src/Rrc/Predicate/Compile.antt =====
-- `CompilePredicate` against `EvalPredicate`.
use grudge_ai.Prelude.{
  String, ◌≡◌, refl, ◌||◌, List, [], ◌∷◌, elem, Dict, lookup, insert, lookup-insert, lookup-empty,
  arith,
}
use grudge_ai.Rrc.Predicate.{
  Predicate, Predicates, CandidateAttrs, eval_predicate, eval_every, eval_some, id_set, present,
  run_every, run_some, compile_predicate, compile_children, nil, pred_all, pred_thread, pred_scope,
  pred_and, pred_or, pred_not, pred_has_metadata, pred_exclude_message_ids, unknown, no_children,
  child, scope_thread, scope_all,
}

present-id_set :
    (x : String) (set : Dict (Unit {0})) (ids : List String)
    → present (lookup x (id_set set ids)) ≡ (present (lookup x set) || elem x ids)
unfolding id_set
present-id_set x set [] = ground arith
present-id_set x set (id ∷ ids) =
    ground (arith, present-id_set x (insert id tt set) ids, lookup-insert id x tt set)

mutual
  unfolding eval_predicate compile_predicate run_every run_some

  compile-eval : (p : Predicate) (a : CandidateAttrs) → compile_predicate p a ≡ eval_predicate p a
  compile-eval nil a = refl
  compile-eval pred_all a = refl
  compile-eval (pred_thread t) a = refl
  compile-eval (pred_scope t scope_thread) a = refl
  compile-eval (pred_scope t scope_all) a = refl
  compile-eval (pred_exclude_message_ids ids) a =
      ground (arith, present-id_set a.message_id [] ids, lookup-empty {V = Unit {0}} a.message_id)
  compile-eval (pred_and ps) a = compile-every ps a
  compile-eval (pred_or ps) a = compile-some ps a
  compile-eval (pred_not p) a = rw (compile-eval p a)
  compile-eval (pred_has_metadata k v) a = refl
  compile-eval unknown a = refl

  compile-every :
      (ps : Predicates) (a : CandidateAttrs) → run_every (compile_children ps) a ≡ eval_every ps a
  compile-every no_children a = refl
  compile-every (child p ps) a = rw (compile-eval p a, compile-every ps a)

  compile-some :
      (ps : Predicates) (a : CandidateAttrs) → run_some (compile_children ps) a ≡ eval_some ps a
  compile-some no_children a = refl
  compile-some (child p ps) a = rw (compile-eval p a, compile-some ps a)

-- For every predicate and every candidate the compiled closure gives the evaluator's answer.
pub compile_predicate-eq-eval_predicate :
    (p : Predicate) (a : CandidateAttrs) → compile_predicate p a ≡ eval_predicate p a
compile_predicate-eq-eval_predicate = compile-eval

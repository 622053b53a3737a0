-- ===== src/Rrc/Predicate/Routing.antt =====
-- `ThreadScopeOf`: routing a query to one thread's partition loses no result.
use text.Mathlib.Text.{◌==◌}
use grudge_ai.Prelude.{String, ◌≡◌, refl, true, some, List, [], ◌∷◌, filter, eq_iff, arith}
use grudge_ai.Rrc.Predicate.{
  Predicate, Predicates, CandidateAttrs, eval_predicate, eval_every, thread_scope_of,
  first_thread_scope, nil, pred_all, pred_thread, pred_scope, pred_and, pred_or, pred_not,
  pred_has_metadata, pred_exclude_message_ids, unknown, no_children, child, scope_thread, scope_all,
}

mutual
  unfolding eval_predicate thread_scope_of

  pins :
      (p : Predicate) (a : CandidateAttrs) (t : String)
      → thread_scope_of p ≡ some t
      → eval_predicate p a ≡ true
      → a.thread_id ≡ t
  pins nil a t h e = cc
  pins pred_all a t h e = cc
  pins (pred_thread u) a t h e = ground (arith, eq_iff a.thread_id u)
  pins (pred_scope u scope_thread) a t h e = ground (arith, eq_iff a.thread_id u)
  pins (pred_scope u scope_all) a t h e = cc
  pins (pred_exclude_message_ids ids) a t h e = cc
  pins (pred_and ps) a t h e = pins_first ps a t h e
  pins (pred_or ps) a t h e = cc
  pins (pred_not p) a t h e = cc
  pins (pred_has_metadata k v) a t h e = cc
  pins unknown a t h e = cc

  pins_first :
      (ps : Predicates) (a : CandidateAttrs) (t : String)
      → first_thread_scope ps ≡ some t
      → eval_every ps a ≡ true
      → a.thread_id ≡ t
  pins_first no_children a t h e = cc
  pins_first (child p ps) a t h e = ground (arith, pins p a t, pins_first ps a t)

-- A predicate that pins a thread passes no candidate of another thread.
thread_scope_of-pins :
    (p : Predicate) (a : CandidateAttrs) (t : String)
    → thread_scope_of p ≡ some t
    → eval_predicate p a ≡ true
    → a.thread_id ≡ t
thread_scope_of-pins = pins

-- Routing a query to the pinned thread's candidates, with the predicate as residual filter, gives
-- the same candidates in the same order as filtering all of them.
pub thread_scope_of_routing :
    (p : Predicate) (t : String) (candidates : List CandidateAttrs)
    → thread_scope_of p ≡ some t
    → filter (eval_predicate p) (filter (λ a. a.thread_id == t) candidates)
      ≡ filter (eval_predicate p) candidates
thread_scope_of_routing p t [] h = refl
thread_scope_of_routing p t (a ∷ rest) h =
    ground (arith, thread_scope_of_routing p t rest h, pins p a t h, eq_iff a.thread_id t)

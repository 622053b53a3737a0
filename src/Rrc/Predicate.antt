-- ===== src/Rrc/Predicate.antt =====
-- rrc/predicate.go: the retrieval predicates, the evaluator that walks one, the compiler that
-- lowers one to a closure, and the thread that a predicate pins.
pub mod Compile
pub mod Routing
use text.Mathlib.Text.{◌==◌}
use grudge_ai.Prelude.{
  String, Bool, true, false, not, ◌&&◌, ◌||◌, Option, none, some, List, [], ◌∷◌, elem, Dict, lookup,
  insert, if◌then◌else◌,
}

-- ScopeThread and ScopeAll.
pub data RetrievalScope : Type 0 where
  scope_thread scope_all : RetrievalScope

-- The sealed interface `Predicate`. `nil` is the nil interface value, and `unknown` any value
-- that the type switches send to their default branch.
mutual
  pub data Predicate : Type 0 where
    nil : Predicate
    pred_all : Predicate
    pred_thread : String → Predicate
    pred_scope : String → RetrievalScope → Predicate
    pred_and : Predicates → Predicate
    pred_or : Predicates → Predicate
    pred_not : Predicate → Predicate
    pred_has_metadata : String → String → Predicate
    pred_exclude_message_ids : List String → Predicate
    unknown : Predicate

  pub data Predicates : Type 0 where
    no_children : Predicates
    child : Predicate → Predicates → Predicates

pub record CandidateAttrs : Type 0 where
  pub message_id : String
  pub thread_id : String
  pub metadata : Dict String

-- a.Metadata[key]: the empty text for a missing key.
abbrev pub metadata_at : CandidateAttrs → String → String
metadata_at a key = elim (lookup key a.metadata) [ none ↦ "" | some v ↦ v ]

abbrev pub is_scope_all : RetrievalScope → Bool
is_scope_all scope_thread = false
is_scope_all scope_all = true

unfoldable mutual
  pub eval_predicate : Predicate → CandidateAttrs → Bool
  eval_predicate nil a = true
  eval_predicate pred_all a = true
  eval_predicate (pred_thread t) a = a.thread_id == t
  eval_predicate (pred_scope t s) a = is_scope_all s || a.thread_id == t
  eval_predicate (pred_exclude_message_ids ids) a = not (elem a.message_id ids)
  eval_predicate (pred_and ps) a = eval_every ps a
  eval_predicate (pred_or ps) a = eval_some ps a
  eval_predicate (pred_not p) a = not (eval_predicate p a)
  eval_predicate (pred_has_metadata k v) a =
      if k == "thread_id" then a.thread_id == v else metadata_at a k == v
  eval_predicate unknown a = false

  -- the loop of the PredAnd case: false at the first child that fails
  pub eval_every : Predicates → CandidateAttrs → Bool
  eval_every no_children a = true
  eval_every (child p ps) a = eval_predicate p a && eval_every ps a

  -- the loop of the PredOr case: true at the first child that passes
  pub eval_some : Predicates → CandidateAttrs → Bool
  eval_some no_children a = false
  eval_some (child p ps) a = eval_predicate p a || eval_some ps a

-- `set[id] = struct{}{}` for every excluded id.
unfoldable pub id_set : Dict (Unit {0}) → List String → Dict (Unit {0})
id_set set [] = set
id_set set (id ∷ ids) = id_set (insert id tt set) ids

abbrev pub present : Option (Unit {0}) → Bool
present none = false
present (some _) = true

-- The loops that the compiled PredAnd and PredOr closures run over their compiled children.
unfoldable pub run_every : List (CandidateAttrs → Bool) → CandidateAttrs → Bool
run_every [] a = true
run_every (f ∷ fs) a = f a && run_every fs a

unfoldable pub run_some : List (CandidateAttrs → Bool) → CandidateAttrs → Bool
run_some [] a = false
run_some (f ∷ fs) a = f a || run_some fs a

-- The closures keep what `CompilePredicate` computes once: the wanted thread, the id set.
unfoldable mutual
  pub compile_predicate : Predicate → CandidateAttrs → Bool
  compile_predicate nil = λ a. true
  compile_predicate pred_all = λ a. true
  compile_predicate (pred_thread t) = λ a. a.thread_id == t
  compile_predicate (pred_scope t scope_all) = λ a. true
  compile_predicate (pred_scope t scope_thread) = λ a. a.thread_id == t
  compile_predicate (pred_exclude_message_ids ids) =
      let set = id_set [] ids in λ a. not (present (lookup a.message_id set))
  compile_predicate (pred_and ps) = run_every (compile_children ps)
  compile_predicate (pred_or ps) = run_some (compile_children ps)
  compile_predicate (pred_not p) = let inner = compile_predicate p in λ a. not (inner a)
  compile_predicate (pred_has_metadata k v) =
      λ a. if k == "thread_id" then a.thread_id == v else metadata_at a k == v
  compile_predicate unknown = λ a. false

  pub compile_children : Predicates → List (CandidateAttrs → Bool)
  compile_children no_children = []
  compile_children (child p ps) = compile_predicate p ∷ compile_children ps

-- `none` is the result ("", false).
unfoldable mutual
  pub thread_scope_of : Predicate → Option String
  thread_scope_of nil = none
  thread_scope_of pred_all = none
  thread_scope_of (pred_thread t) = some t
  thread_scope_of (pred_scope t scope_thread) = some t
  thread_scope_of (pred_scope t scope_all) = none
  thread_scope_of (pred_and ps) = first_thread_scope ps
  thread_scope_of (pred_or ps) = none
  thread_scope_of (pred_not p) = none
  thread_scope_of (pred_has_metadata k v) = none
  thread_scope_of (pred_exclude_message_ids ids) = none
  thread_scope_of unknown = none

  -- the loop of the PredAnd case: the first child that pins a thread
  pub first_thread_scope : Predicates → Option String
  first_thread_scope no_children = none
  first_thread_scope (child p ps) = elim (thread_scope_of p) [
    | some t ↦ some t
    | none ↦ first_thread_scope ps
  ]

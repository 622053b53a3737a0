-- ===== src/Tests/Runtime.antt =====
-- Two calls of `GetOrBuild` for one thread: the first builds, the second waits for it.
use grudge_ai.Prelude.{ℕ, String, ◌≡◌, refl, Option, none, some, ◌⊎◌, lookup, insert, erase, Result}
use grudge_ai.Service.Runtime.{
  Entry, BuildSignal, Pc, update, new_registry, enter, error_of, get, settle, stop_all,
}
use grudge_ai.Service.Runtime.Steps.{System, Step, Reach, Runs}
use grudge_ai.Service.Runtime.Single.{single_build}
use grudge_ai.Service.Runtime.Waiters.{waiter_served, after_build}

abbrev cells : ℕ → Entry
cells i = record { runner = none; cancel = none; parent_thread_id = "" }

abbrev called : System → ℕ → System
called s i = record { registry = s.registry; pc = update s.pc i (Pc.looking "t") }

abbrev entered : System → ℕ → System
entered s i = record {
  registry = (enter s.registry "t").0;
  pc = update s.pc i (enter s.registry "t").1;
}

abbrev at_start : System
at_start = record { registry = new_registry cells; pc = λ i. Pc.idle }

abbrev one_builds : System
one_builds = entered (called at_start 0) 0

abbrev two_calls : System
two_calls = entered (called one_builds 1) 1

two_calls_reached : Reach cells two_calls
unfolding enter new_registry lookup insert erase
two_calls_reached =
    Reach.later
      (Reach.later
        (Reach.later (Reach.later Reach.start (Step.call 0 "t" refl)) (Step.enters 0 "t" refl))
        (Step.call 1 "t" refl))
      (Step.enters 1 "t" refl)

first_builds : two_calls.pc 0 ≡ Pc.constructing "t" 0
unfolding enter new_registry lookup insert erase
first_builds = refl

second_waits : two_calls.pc 1 ≡ Pc.waiting "t" 0
unfolding enter new_registry lookup insert erase
second_waits = refl

-- A build that ends after `StopAll` still stores its entry.
late_entry : get (settle (stop_all two_calls.registry).1 "t" 0 (Result.ok 7)).0 "t" ≡ some 7
unfolding enter new_registry get settle stop_all lookup insert erase
late_entry = refl

single_build_example : ◌≡◌ {A = ℕ} 0 0
single_build_example =
    single_build cells two_calls 0 0 "t" 0 0 two_calls_reached first_builds first_builds

waiter_served_example :
    ((e : Option String) × (two_calls.registry.signals 0 ≡ BuildSignal.closed e))
    ⊎ ((j : ℕ) × (two_calls.pc j ≡ Pc.constructing "t" 0)
        × ((result : Result String ℕ) (t : System)
            → Runs (after_build two_calls j "t" 0 result) t
            → t.registry.signals 0 ≡ BuildSignal.closed (error_of result)))
waiter_served_example = waiter_served cells two_calls 1 "t" 0 two_calls_reached second_waits

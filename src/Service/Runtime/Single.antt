-- ===== src/Service/Runtime/Single.antt =====
-- service/runtime/registry.go: one build at a time for a thread.
use grudge_ai.Prelude.{ℕ, String, ◌≡◌, ◌≢◌, refl, Option, none, some, lookup, lookup-empty}
use grudge_ai.Service.Runtime.{
  Entry, Registry, Pc, new_registry, woken, set, set_cancel, set_cancel_found, delete, get, stop,
  stop_found, stop_all,
}
use grudge_ai.Service.Runtime.Steps.{System, Step, Reach}
use grudge_ai.Service.Runtime.Sound.{IsSound, move-IsSound, SameBuilds, entries-IsSound}
use grudge_ai.Service.Runtime.Sections.{settle-IsSound, enter-IsSound}

woken-returns : (t u : String) (sig : ℕ) (e : Option String) → woken t e ≢ Pc.constructing u sig
woken-returns t u sig none q = absurd (cc (q))
woken-returns t u sig (some x) q = absurd (cc (q))

woken-waits : (t u : String) (sig : ℕ) (e : Option String) → woken t e ≢ Pc.waiting u sig
woken-waits t u sig none q = absurd (cc (q))
woken-waits t u sig (some x) q = absurd (cc (q))

set_cancel-SameBuilds :
    (r : Registry) (o cancel : Option ℕ) → SameBuilds r (set_cancel_found o cancel r)
set_cancel-SameBuilds r none cancel = (refl, refl, refl)
set_cancel-SameBuilds r (some e) cancel = (refl, refl, refl)

stop-SameBuilds :
    (r : Registry) (o : Option ℕ) (thread_id : String) → SameBuilds r (stop_found o r thread_id).2
unfolding delete
stop-SameBuilds r none thread_id = (refl, refl, refl)
stop-SameBuilds r (some e) thread_id = (refl, refl, refl)

pub step-IsSound : {s t : System} → IsSound s → Step s t → IsSound t
unfolding set set_cancel delete stop stop_all
step-IsSound {s} h (Step.call i thread_id at) =
    move-IsSound s i (Pc.looking thread_id) (λ t sig q. absurd (cc (q, at)))
      (λ t sig q. absurd (cc (q))) (λ t sig q. absurd (cc (q))) h
step-IsSound {s} h (Step.enters i thread_id at) = enter-IsSound s i thread_id at h
step-IsSound {s} h (Step.settles i thread_id sig result at) =
    settle-IsSound s i thread_id sig result at h
step-IsSound {s} h (Step.wakes i thread_id sig e at shut) =
    move-IsSound s i (woken thread_id e) (λ t g q. absurd (cc (q, at)))
      (λ t g q. woken-returns thread_id t g e q) (λ t g q. absurd (woken-waits thread_id t g e q)) h
step-IsSound {s} h (Step.sets thread_id e) =
    entries-IsSound s.registry (set s.registry thread_id e) s.pc (refl, refl, refl) h
step-IsSound {s} h (Step.sets_cancel thread_id cancel) =
    entries-IsSound s.registry (set_cancel s.registry thread_id cancel) s.pc
      (set_cancel-SameBuilds s.registry (lookup thread_id s.registry.m) cancel) h
step-IsSound {s} h (Step.deletes thread_id) =
    entries-IsSound s.registry (delete s.registry thread_id) s.pc (refl, refl, refl) h
step-IsSound {s} h (Step.stops thread_id) =
    entries-IsSound s.registry (stop s.registry thread_id).2 s.pc
      (stop-SameBuilds s.registry (get s.registry thread_id) thread_id) h
step-IsSound {s} h Step.stops_all =
    entries-IsSound s.registry (stop_all s.registry).1 s.pc (refl, refl, refl) h

pub reach-IsSound : {cells : ℕ → Entry} {s : System} → Reach cells s → IsSound s
unfolding new_registry
reach-IsSound Reach.start = record {
  fresh = λ t sig e. absurd (cc (e, lookup-empty {V = ℕ} t));
  unclosed = λ t sig e. absurd (cc (e, lookup-empty {V = ℕ} t));
  apart = λ t u sig e f. absurd (cc (e, lookup-empty {V = ℕ} t));
  built = λ t sig e. absurd (cc (e, lookup-empty {V = ℕ} t));
  held = λ i t sig e. absurd (cc (e));
  single = λ i j t sig sig' e f. absurd (cc (e));
  old = λ i t sig e. absurd (cc (e));
  waits = λ i t sig e. absurd (cc (e));
}
reach-IsSound (Reach.later r step) = step-IsSound (reach-IsSound r) step

-- However calls of `GetOrBuild` interleave with one another and with the other operations, no two of
-- them run the build of one thread at the same time.
pub single_build :
    (cells : ℕ → Entry) (s : System) (i j : ℕ) (thread_id : String) (sig other : ℕ)
    → Reach cells s
    → s.pc i ≡ Pc.constructing thread_id sig
    → s.pc j ≡ Pc.constructing thread_id other
    → i ≡ j
single_build cells s i j thread_id sig other r = (reach-IsSound r).single i j thread_id sig other

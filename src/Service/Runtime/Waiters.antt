-- ===== src/Service/Runtime/Waiters.antt =====
-- service/runtime/registry.go: what a caller that waits for a build gets.
use grudge_ai.Prelude.{
  ℕ, ◌<◌, String, ◌≡◌, refl, Option, none, some, lookup, ◌==◌, ==_iff, arith, Bool-cases,
  Option-cases, ◌⊎◌, inl, inr, Result,
}
use grudge_ai.Service.Runtime.{
  Entry, BuildSignal, Registry, Pc, update, enter, settle, error_of, set, set_cancel,
  set_cancel_found, delete, get, stop, stop_found, stop_all,
}
use grudge_ai.Service.Runtime.Steps.{System, Step, Reach, Runs}
use grudge_ai.Service.Runtime.Sound.{IsSound}
use grudge_ai.Service.Runtime.Single.{step-IsSound, reach-IsSound}

-- The signal is made, and closed with this error.
abbrev IsClosed : Registry → ℕ → Option String → Type 0
IsClosed r sig e = (r.signals sig ≡ BuildSignal.closed e) × (sig < r.next_signal)

enter-IsClosed :
    (r : Registry) (thread_id : String) (sig : ℕ) (e : Option String)
    → IsClosed r sig e
    → IsClosed (enter r thread_id).0 sig e
unfolding enter
enter-IsClosed r thread_id sig e h = elim (Option-cases (lookup thread_id r.m)) [
  | inr (x, found) ↦ rw found h
  | inl gone ↦ elim (Option-cases (lookup thread_id r.building)) [
    | inr (x, under_way) ↦ rw (gone, under_way) h
    | inl free ↦
        rw (gone, free) (ground (arith, h.0, h.1, ==_iff r.next_signal sig), omega (arith, h.1))
  ]
]

settle-IsClosed :
    (s : System) (i : ℕ) (thread_id : String) (own : ℕ) (result : Result String ℕ) (sig : ℕ)
    (e : Option String)
    → IsSound s
    → s.pc i ≡ Pc.constructing thread_id own
    → IsClosed s.registry sig e
    → IsClosed (settle s.registry thread_id own result).0 sig e
unfolding settle
settle-IsClosed s i thread_id own result sig e sound at h = elim (Bool-cases (own == sig)) [
  | inl same ↦
      let own_same = (==_iff own sig).0 same in
      let mine : s.registry.signals own ≡ BuildSignal.opened =
        sound.unclosed thread_id own (sound.held i thread_id own at) in
      absurd (cc (mine, h.0, own_same))
  | inr other ↦ rw other h
]

set_cancel-IsClosed :
    (r : Registry) (o cancel : Option ℕ) (sig : ℕ) (e : Option String)
    → IsClosed r sig e
    → IsClosed (set_cancel_found o cancel r) sig e
set_cancel-IsClosed r none cancel sig e h = h
set_cancel-IsClosed r (some x) cancel sig e h = h

stop-IsClosed :
    (r : Registry) (o : Option ℕ) (thread_id : String) (sig : ℕ) (e : Option String)
    → IsClosed r sig e
    → IsClosed (stop_found o r thread_id).2 sig e
unfolding delete
stop-IsClosed r none thread_id sig e h = h
stop-IsClosed r (some x) thread_id sig e h = h

step-IsClosed :
    {s t : System} (sig : ℕ) (e : Option String)
    → IsSound s
    → IsClosed s.registry sig e
    → Step s t
    → IsClosed t.registry sig e
unfolding set set_cancel delete stop stop_all
step-IsClosed {s} sig e sound h (Step.call i thread_id at) = h
step-IsClosed {s} sig e sound h (Step.enters i thread_id at) =
    enter-IsClosed s.registry thread_id sig e h
step-IsClosed {s} sig e sound h (Step.settles i thread_id own result at) =
    settle-IsClosed s i thread_id own result sig e sound at h
step-IsClosed {s} sig e sound h (Step.wakes i thread_id own x at shut) = h
step-IsClosed {s} sig e sound h (Step.sets thread_id x) = h
step-IsClosed {s} sig e sound h (Step.sets_cancel thread_id cancel) =
    set_cancel-IsClosed s.registry (lookup thread_id s.registry.m) cancel sig e h
step-IsClosed {s} sig e sound h (Step.deletes thread_id) = h
step-IsClosed {s} sig e sound h (Step.stops thread_id) =
    stop-IsClosed s.registry (get s.registry thread_id) thread_id sig e h
step-IsClosed {s} sig e sound h Step.stops_all = h

Runs-IsClosed :
    {s t : System} (sig : ℕ) (e : Option String)
    → IsSound s
    → IsClosed s.registry sig e
    → Runs s t
    → IsSound t × IsClosed t.registry sig e
Runs-IsClosed sig e sound h Runs.none_yet = (sound, h)
Runs-IsClosed sig e sound h (Runs.further runs step) =
    let before = Runs-IsClosed sig e sound h runs in
    (step-IsSound before.0 step, step-IsClosed sig e before.0 before.1 step)

-- The state after the builder of a thread ends with a result.
abbrev pub after_build : System → ℕ → String → ℕ → Result String ℕ → System
after_build s j thread_id sig result = record {
  registry = (settle s.registry thread_id sig result).0;
  pc = update s.pc j (settle s.registry thread_id sig result).1;
}

-- A caller that waits for a build is never left behind: its signal is closed, so that it can go on,
-- or another call is running the build that closes it. Once that build ends, with whatever result and
-- whatever steps follow, the caller finds the signal closed with the error of just that build.
pub waiter_served :
    (cells : ℕ → Entry) (s : System) (i : ℕ) (thread_id : String) (sig : ℕ)
    → Reach cells s
    → s.pc i ≡ Pc.waiting thread_id sig
    → ((e : Option String) × (s.registry.signals sig ≡ BuildSignal.closed e))
      ⊎ ((j : ℕ) × (s.pc j ≡ Pc.constructing thread_id sig)
          × ((result : Result String ℕ) (t : System)
              → Runs (after_build s j thread_id sig result) t
              → t.registry.signals sig ≡ BuildSignal.closed (error_of result)))
unfolding settle
waiter_served cells s i thread_id sig r at =
    let sound = reach-IsSound r in
    elim (sound.waits i thread_id sig at) [
      | inr shut ↦ inl shut
      | inl there ↦
          let b = sound.built thread_id sig there in
          inr (
            b.0,
            b.1,
            λ result t runs.
                (Runs-IsClosed sig (error_of result)
                  (step-IsSound sound (Step.settles b.0 thread_id sig result b.1))
                  (rw ((==_iff sig sig).1 refl) refl, sound.fresh thread_id sig there) runs).1.0,
          )
    ]

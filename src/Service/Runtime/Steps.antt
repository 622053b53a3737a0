-- ===== src/Service/Runtime/Steps.antt =====
-- service/runtime/registry.go: calls of `GetOrBuild`, interleaved in any order with one another and
-- with the other operations of the registry. Each step is what one holder of the lock does.
use grudge_ai.Prelude.{ℕ, String, ◌≡◌, Option, Result}
use grudge_ai.Service.Runtime.{
  Entry, BuildSignal, Registry, Pc, update, new_registry, enter, settle, woken, set, set_cancel,
  delete, stop, stop_all,
}

pub record System : Type 0 where
  pub registry : Registry
  pub pc : ℕ → Pc

pub data Step (s : System) : System → Type 0 where
  call :
      (i : ℕ) (thread_id : String)
      → s.pc i ≡ Pc.idle
      → Step s (record { registry = s.registry; pc = update s.pc i (Pc.looking thread_id) })
  enters :
      (i : ℕ) (thread_id : String)
      → s.pc i ≡ Pc.looking thread_id
      → Step s (record {
        registry = (enter s.registry thread_id).0;
        pc = update s.pc i (enter s.registry thread_id).1;
      })
  settles :
      (i : ℕ) (thread_id : String) (sig : ℕ) (result : Result String ℕ)
      → s.pc i ≡ Pc.constructing thread_id sig
      → Step s (record {
        registry = (settle s.registry thread_id sig result).0;
        pc = update s.pc i (settle s.registry thread_id sig result).1;
      })
  wakes :
      (i : ℕ) (thread_id : String) (sig : ℕ) (error : Option String)
      → s.pc i ≡ Pc.waiting thread_id sig
      → s.registry.signals sig ≡ BuildSignal.closed error
      → Step s (record { registry = s.registry; pc = update s.pc i (woken thread_id error) })
  sets :
      (thread_id : String) (e : ℕ)
      → Step s (record { registry = set s.registry thread_id e; pc = s.pc })
  sets_cancel :
      (thread_id : String) (cancel : Option ℕ)
      → Step s (record { registry = set_cancel s.registry thread_id cancel; pc = s.pc })
  deletes :
      (thread_id : String) → Step s (record { registry = delete s.registry thread_id; pc = s.pc })
  stops :
      (thread_id : String) → Step s (record { registry = (stop s.registry thread_id).2; pc = s.pc })
  stops_all : Step s (record { registry = (stop_all s.registry).1; pc = s.pc })

-- The states that a new registry comes to, with no call under way at first.
pub data Reach (cells : ℕ → Entry) : System → Type 0 where
  start : Reach cells (record { registry = new_registry cells; pc = λ i. Pc.idle })
  later : {s t : System} → Reach cells s → Step s t → Reach cells t

-- Any number of steps.
pub data Runs (s : System) : System → Type 0 where
  none_yet : Runs s s
  further : {t u : System} → Runs s t → Step t u → Runs s u

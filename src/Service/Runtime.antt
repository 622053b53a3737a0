-- ===== src/Service/Runtime.antt =====
-- service/runtime/registry.go: the registry of runners. Entries and build signals are shared through
-- pointers, which are numbers here. `GetOrBuild` is cut at its locks: `enter` is its first critical
-- section, `settle` the second, and the build runs between them with the lock released.
pub mod Steps
pub mod Sound
pub mod Sections
pub mod Single
pub mod Waiters
use grudge_ai.Prelude.{
  ℕ, ◌+◌, String, Bool, true, false, not, ◌&&◌, Option, none, some, List, [], ◌∷◌, ◌++◌, Dict,
  lookup, insert, erase, entries, if◌then◌else◌, ◌==◌, text_eq, Result, ok, err,
}

-- `Runner` and `Cancel` are handles, `none` where they are nil.
pub record Entry : Type 0 where
  pub runner : Option ℕ
  pub cancel : Option ℕ
  pub parent_thread_id : String

-- The channel `done` is open, or closed with the error of the build.
pub data BuildSignal : Type 0 where
  opened : BuildSignal
  closed : Option String → BuildSignal

-- f[i] = v
abbrev pub update {ℓ} : {A : Type ℓ} → (ℕ → A) → ℕ → A → ℕ → A
update f i v j = if i == j then v else f j

-- `m` and `building` hold pointers; `cells` and `signals` are what they point to, and
-- `next_signal` is where the next signal is made.
pub record Registry : Type 0 where
  pub m : Dict ℕ
  pub building : Dict ℕ
  pub cells : ℕ → Entry
  pub signals : ℕ → BuildSignal
  pub next_signal : ℕ

-- Where a call of `GetOrBuild` stands.
pub data Pc : Type 0 where
  idle : Pc
  looking : String → Pc
  waiting : String → ℕ → Pc
  constructing : String → ℕ → Pc
  returned : String → Result String ℕ → Pc

unfoldable pub new_registry : (ℕ → Entry) → Registry
new_registry cells = record {
  m = [];
  building = [];
  cells = cells;
  signals = λ s. opened;
  next_signal = 0;
}

unfoldable pub get : Registry → String → Option ℕ
get r thread_id = lookup thread_id r.m

abbrev pub enter_found : Option ℕ → Option ℕ → Registry → String → Registry × Pc
enter_found (some e) sig r thread_id = (r, returned thread_id (ok e))
enter_found none (some sig) r thread_id = (r, waiting thread_id sig)
enter_found none none r thread_id = (
  record r {
    building = insert thread_id r.next_signal r.building;
    signals = update r.signals r.next_signal opened;
    next_signal = r.next_signal + 1;
  },
  constructing thread_id r.next_signal,
)

-- Up to the return, the wait, or the call of `build`.
unfoldable pub enter : Registry → String → Registry × Pc
enter r thread_id = enter_found (lookup thread_id r.m) (lookup thread_id r.building) r thread_id

abbrev pub error_of : Result String ℕ → Option String
error_of (ok e) = none
error_of (err x) = some x

abbrev pub stored : Result String ℕ → String → Dict ℕ → Dict ℕ
stored (ok e) thread_id m = insert thread_id e m
stored (err x) thread_id m = m

-- What follows the return of `build`.
unfoldable pub settle : Registry → String → ℕ → Result String ℕ → Registry × Pc
settle r thread_id sig result = (
  record r {
    building = erase thread_id r.building;
    m = stored result thread_id r.m;
    signals = update r.signals sig (closed (error_of result));
  },
  returned thread_id result,
)

-- What a waiter does when the channel is closed: it returns the error, or looks again.
abbrev pub woken : String → Option String → Pc
woken thread_id (some x) = returned thread_id (err x)
woken thread_id none = looking thread_id

unfoldable pub set : Registry → String → ℕ → Registry
set r thread_id e = record r { m = insert thread_id e r.m }

abbrev pub set_cancel_found : Option ℕ → Option ℕ → Registry → Registry
set_cancel_found none cancel r = r
set_cancel_found (some e) cancel r = record r {
  cells = update r.cells e (record (r.cells e) { cancel = cancel });
}

unfoldable pub set_cancel : Registry → String → Option ℕ → Registry
set_cancel r thread_id cancel = set_cancel_found (lookup thread_id r.m) cancel r

unfoldable pub delete : Registry → String → Registry
delete r thread_id = record r { m = erase thread_id r.m }

-- What stopping does outside the registry, in its order.
pub data Effect : Type 0 where
  merge_subagent : ℕ → ℕ → Effect
  publish_subagent : String → String → Effect
  cancel_turn : ℕ → Effect
  cancelled : ℕ → Effect

abbrev merged : Option ℕ → Option ℕ → List Effect
merged (some parent) (some child) = merge_subagent parent child ∷ []
merged (some parent) none = []
merged none child = []

abbrev parent_runner : Registry → Option ℕ → Option ℕ
parent_runner r none = none
parent_runner r (some e) = (r.cells e).runner

abbrev turn_cancelled : Option ℕ → List Effect
turn_cancelled none = []
turn_cancelled (some runner) = cancel_turn runner ∷ []

abbrev loop_cancelled : Option ℕ → List Effect
loop_cancelled none = []
loop_cancelled (some cancel) = cancelled cancel ∷ []

abbrev pub stop_effects : Registry → String → Entry → List Effect
stop_effects r thread_id e =
    (if text_eq e.parent_thread_id ""
      then []
      else merged (parent_runner r (lookup e.parent_thread_id r.m)) e.runner
        ++ publish_subagent e.parent_thread_id thread_id ∷ [])
    ++ turn_cancelled e.runner
    ++ loop_cancelled e.cancel

abbrev pub stop_found : Option ℕ → Registry → String → Bool × List Effect × Registry
stop_found none r thread_id = (false, [], r)
stop_found (some e) r thread_id = (true, stop_effects r thread_id (r.cells e), delete r thread_id)

unfoldable pub stop : Registry → String → Bool × List Effect × Registry
stop r thread_id = stop_found (get r thread_id) r thread_id

abbrev pub cancel_all : (ℕ → Entry) → List ℕ → List Effect
cancel_all cells [] = []
cancel_all cells (e ∷ es) = loop_cancelled (cells e).cancel ++ cancel_all cells es

unfoldable pub stop_all : Registry → List Effect × Registry
stop_all r = (cancel_all r.cells (entries r.m), record r { m = [] })

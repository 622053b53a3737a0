-- ===== src/Service/Runtime/Sound.antt =====
-- service/runtime/registry.go: what holds of the builds under way, and the steps that only move a caller
-- or the entries.
use grudge_ai.Prelude.{
  ℕ, ◌<◌, String, ◌≡◌, ◌≢◌, refl, sym, ◌∙◌, ap, subst, false, Option, some, lookup, ◌==◌, ==_iff,
  arith, Bool-cases, ◌⊎◌, inl, inr,
}
use grudge_ai.Service.Runtime.{BuildSignal, Registry, Pc, update}
use grudge_ai.Service.Runtime.Steps.{System}

pub update_cases {ℓ} :
    {A : Type ℓ} (f : ℕ → A) (i : ℕ) (v : A) (j : ℕ) (a : A)
    → update f i v j ≡ a
    → ((i ≡ j) × (v ≡ a)) ⊎ ((i == j ≡ false) × (f j ≡ a))
update_cases f i v j a h = elim (Bool-cases (i == j)) [
  | inl same ↦ let e : update f i v j ≡ v = rw same refl in inl ((==_iff i j).0 same, sym e ∙ h)
  | inr other ↦ let e : update f i v j ≡ f j = rw other refl in inr (other, sym e ∙ h)
]

pub update_here {ℓ} : {A : Type ℓ} (f : ℕ → A) (i : ℕ) (v : A) → update f i v i ≡ v
update_here f i v = rw ((==_iff i i).1 refl) refl

-- A place that does not hold what the changed one held is not the changed one.
pub update_keeps {ℓ} :
    {A : Type ℓ} (f : ℕ → A) (i : ℕ) (v : A) (j : ℕ) (a : A)
    → f i ≢ a
    → f j ≡ a
    → update f i v j ≡ a
update_keeps f i v j a was h = elim (Bool-cases (i == j)) [
  | inl same ↦ absurd (was (ap f ((==_iff i j).0 same) ∙ h))
  | inr other ↦ rw other h
]

-- A builder for the thread holds the signal.
abbrev pub Builds : (ℕ → Pc) → String → ℕ → Type 0
Builds pc thread_id sig = (i : ℕ) × (pc i ≡ Pc.constructing thread_id sig)

-- Each signal of `building` is new, open, and held by the one caller that builds for the thread; a
-- waiter's signal is held by a builder, or closed.
pub record IsSound (s : System) : Type 0 where
  pub fresh :
      (t : String) (sig : ℕ)
      → lookup t s.registry.building ≡ some sig
      → sig < s.registry.next_signal
  pub unclosed :
      (t : String) (sig : ℕ)
      → lookup t s.registry.building ≡ some sig
      → s.registry.signals sig ≡ BuildSignal.opened
  pub apart :
      (t u : String) (sig : ℕ)
      → lookup t s.registry.building ≡ some sig
      → lookup u s.registry.building ≡ some sig
      → t ≡ u
  pub built : (t : String) (sig : ℕ) → lookup t s.registry.building ≡ some sig → Builds s.pc t sig
  pub held :
      (i : ℕ) (t : String) (sig : ℕ)
      → s.pc i ≡ Pc.constructing t sig
      → lookup t s.registry.building ≡ some sig
  pub single :
      (i j : ℕ) (t : String) (sig other : ℕ)
      → s.pc i ≡ Pc.constructing t sig
      → s.pc j ≡ Pc.constructing t other
      → i ≡ j
  pub old :
      (i : ℕ) (t : String) (sig : ℕ) → s.pc i ≡ Pc.waiting t sig → sig < s.registry.next_signal
  pub waits :
      (i : ℕ) (t : String) (sig : ℕ)
      → s.pc i ≡ Pc.waiting t sig
      → (lookup t s.registry.building ≡ some sig)
        ⊎ ((e : Option String) × (s.registry.signals sig ≡ BuildSignal.closed e))

-- A caller that neither builds nor waits, before or after, changes nothing of this.
pub move-IsSound :
    (s : System) (i : ℕ) (p : Pc)
    → ((t : String) (sig : ℕ) → s.pc i ≢ Pc.constructing t sig)
    → ((t : String) (sig : ℕ) → p ≢ Pc.constructing t sig)
    → ((t : String) (sig : ℕ)
        → p ≡ Pc.waiting t sig
        → (sig < s.registry.next_signal) × (lookup t s.registry.building ≡ some sig))
    → IsSound s
    → IsSound (record { registry = s.registry; pc = update s.pc i p })
move-IsSound s i p was now waits h = record {
  fresh = h.fresh;
  unclosed = h.unclosed;
  apart = h.apart;
  built = λ t sig e.
      let b = h.built t sig e in
      (b.0, update_keeps s.pc i p b.0 (Pc.constructing t sig) (was t sig) b.1);
  held = λ j t sig e. elim (update_cases s.pc i p j (Pc.constructing t sig) e) [
    | inl (same, q) ↦ absurd (now t sig q)
    | inr (other, q) ↦ h.held j t sig q
  ];
  single = λ j k t sig sig' e f. elim (update_cases s.pc i p j (Pc.constructing t sig) e) [
    | inl (same, q) ↦ absurd (now t sig q)
    | inr (other, q) ↦ elim (update_cases s.pc i p k (Pc.constructing t sig') f) [
      | inl (same, r) ↦ absurd (now t sig' r)
      | inr (different, r) ↦ h.single j k t sig sig' q r
    ]
  ];
  old = λ j t sig e. elim (update_cases s.pc i p j (Pc.waiting t sig) e) [
    | inl (same, q) ↦ (waits t sig q).0
    | inr (other, q) ↦ h.old j t sig q
  ];
  waits = λ j t sig e. elim (update_cases s.pc i p j (Pc.waiting t sig) e) [
    | inl (same, q) ↦ inl (waits t sig q).1
    | inr (other, q) ↦ h.waits j t sig q
  ];
}

-- What only changes the entries keeps it.
abbrev pub SameBuilds : Registry → Registry → Type 0
SameBuilds r r' =
    (r.building ≡ r'.building) × (r.signals ≡ r'.signals) × (r.next_signal ≡ r'.next_signal)

pub entries-IsSound :
    (r r' : Registry) (pc : ℕ → Pc)
    → SameBuilds r r'
    → IsSound (record { registry = r; pc = pc })
    → IsSound (record { registry = r'; pc = pc })
entries-IsSound r r' pc (b, g, n) h = record {
  fresh = λ t sig e. ground (arith, h.fresh t sig, e, b, n);
  unclosed = λ t sig e. ap (λ f. f sig) (sym g) ∙ h.unclosed t sig (ap (lookup t) b ∙ e);
  apart = λ t u sig e f. h.apart t u sig (ap (lookup t) b ∙ e) (ap (lookup u) b ∙ f);
  built = λ t sig e. h.built t sig (ap (lookup t) b ∙ e);
  held = λ i t sig e. ap (lookup t) (sym b) ∙ h.held i t sig e;
  single = h.single;
  old = λ i t sig e. subst (λ m. sig < m) n (h.old i t sig e);
  waits = λ i t sig e. elim (h.waits i t sig e) [
    | inl here ↦ inl (ap (lookup t) (sym b) ∙ here)
    | inr (x, shut) ↦ inr (x, ap (λ f. f sig) (sym g) ∙ shut)
  ];
}

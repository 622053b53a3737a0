-- ===== src/Core/Retry/Run.antt =====
-- core/httpc/retry/retry.go: what a run of `Do` does, attempt by attempt.
use grudge_ai.Prelude.{
  ℕ, zero, suc, ◌+◌, ◌-◌, ◌≤◌, ◌<◌, ◌≡◌, ◌≢◌, refl, sym, ◌∙◌, ap, subst, true, false, not, ◌||◌,
  Option, none, some, List, [], ◌∷◌, map, any, All, All-map, if◌then◌else◌, ◌==◌, ==_iff, ℤ, pos,
  pos_part, int_ltb, arith, Bool-cases, Option-cases, ◌⊎◌, inl, inr,
}
use grudge_ai.Rrc.Floats.{Floats}
use grudge_ai.Core.Retry.{
  Failure, is_retryable, Policy, World, Outcome, attempts_of, base_delay_of, next_delay_of,
  apply_jitter, event_of, after_wait, do_loop, retry_do,
}

-- n numbers, from the first.
abbrev pub count_from : ℕ → ℕ → List ℕ
count_from first zero = []
count_from first (suc n) = first ∷ count_from (first + 1) n

module _ (fl : Floats) (policy : Policy fl) (w : World fl) where
  open fl use {F}

  -- The delay that the loop has after so many failures.
  unfoldable pub delay_after : ℕ → ℤ
  delay_after zero = base_delay_of fl policy
  delay_after (suc n) = next_delay_of fl policy (delay_after n)

  -- The attempt failed with an error that is tried again, and the context was alive throughout.
  abbrev pub IsRetried : ℕ → Type 0
  IsRetried k =
      (e : Failure) × (w.op k ≡ some e)
      × (is_retryable (some e) ≡ true)
      × (w.ctx_err k ≡ none)
      × (w.ctx_done k ≡ none)

  -- How a run ends whose next attempt would have this number: the last attempt succeeded; or it
  -- failed, and its error is not tried again or it was the last one allowed; or the context was
  -- done, before the next attempt or while waiting for it.
  pub data Ending (r : Outcome fl) (next : ℕ) : Type 0 where
    succeeded :
        (n : ℕ)
        → n + 1 ≡ next
        → w.ctx_err n ≡ none
        → w.op n ≡ none
        → r.returned ≡ none
        → any (λ e. e.final) r.events ≡ true
        → Ending r next
    gave_up :
        (n : ℕ) (e : Failure)
        → n + 1 ≡ next
        → w.ctx_err n ≡ none
        → w.op n ≡ some e
        → r.returned ≡ some e
        → (is_retryable (some e) ≡ false) ⊎ (n ≡ attempts_of fl policy)
        → any (λ e. e.final) r.events ≡ true
        → Ending r next
    cancelled :
        (n : ℕ) (e : Failure)
        → n + 1 ≡ next
        → (w.ctx_err next ≡ some e) ⊎ (w.ctx_done n ≡ some e)
        → r.returned ≡ some e
        → any (λ e. e.final) r.events ≡ false
        → Ending r next

  -- The run of the attempts from `first` on: at most `left` of them, each reported by one event in
  -- order; each but the last was retried; only the last event can be final; and each wait is the
  -- backed-off delay with its jitter.
  pub record IsRun (first left : ℕ) (r : Outcome fl) : Type 0 where
    pub bounded : r.calls ≤ left
    pub numbered : map (λ e. e.attempt) r.events ≡ count_from first r.calls
    pub retried : (k : ℕ) → first ≤ k → k + 1 < first + r.calls → IsRetried k
    pub finals : All (λ e. e.final ≡ true → e.attempt + 1 ≡ first + r.calls) r.events
    pub waits :
        All
          (λ e.
            e.final ≡ false
            → e.next_delay
              ≡ apply_jitter fl (w.draw e.attempt) (delay_after (e.attempt - 1)) policy.jitter)
          r.events
    pub ended : Ending r (first + r.calls)

  delay_after_next :
      (a : ℕ) (delay : ℤ)
      → 1 ≤ a
      → delay ≡ delay_after (a - 1)
      → next_delay_of fl policy delay ≡ delay_after (a + 1 - 1)
  unfolding delay_after
  delay_after_next zero delay h e = absurd (omega (arith, h))
  delay_after_next (suc b) delay h e =
      let now : suc b - 1 ≡ b = omega arith in
      let then_on : suc b ≡ suc b + 1 - 1 = omega arith in
      ap (next_delay_of fl policy) (e ∙ ap delay_after now) ∙ ap delay_after then_on

  -- One more attempt that is retried, before a run.
  retry-IsRun :
      (a left : ℕ) (delay : ℤ) (err : Failure) (r : Outcome fl)
      → delay ≡ delay_after (a - 1)
      → IsRetried a
      → IsRun (a + 1) left r
      → IsRun a (suc left) (
          after_wait fl policy w none
            (event_of fl policy w a
              (some err)
              (apply_jitter fl (w.draw a) delay policy.jitter)
              false)
            r)
  retry-IsRun a left delay err r d again h = record {
    bounded = omega (arith, h.bounded);
    numbered = ap (◌∷◌ a) h.numbered;
    retried = λ k from to. elim (Bool-cases (k == a)) [
      | inl same ↦ subst IsRetried (sym ((==_iff k a).0 same)) again
      | inr other ↦ h.retried k (ground (arith, ==_iff k a, other, from)) (omega (arith, to))
    ];
    finals = (λ f. absurd (cc (f)), All-map (λ e g f. omega (arith, g f)) r.events h.finals);
    waits = (λ f. ap (λ x. apply_jitter fl (w.draw a) x policy.jitter) d, h.waits);
    ended = elim h.ended [
      | Ending.succeeded n next c o ret last ↦ Ending.succeeded n (omega (arith, next)) c o ret last
      | Ending.gave_up n e next c o ret why last ↦
          Ending.gave_up n e (omega (arith, next)) c o ret why last
      | Ending.cancelled n e next why ret last ↦
          let same : a + 1 + r.calls ≡ a + suc r.calls = omega arith in
          Ending.cancelled n e (omega (arith, next))
            (subst (λ x. (w.ctx_err x ≡ some e) ⊎ (w.ctx_done n ≡ some e)) same why) ret last
    ];
  }

  why_stop :
      (a : ℕ) (err : Failure)
      → (not (is_retryable (some err)) || a == attempts_of fl policy) ≡ true
      → (is_retryable (some err) ≡ false) ⊎ (a ≡ attempts_of fl policy)
  why_stop a err h = elim (Bool-cases (is_retryable (some err))) [
    | inl again ↦ inr (ground (arith, ==_iff a (attempts_of fl policy), again, h))
    | inr never ↦ inl never
  ]

  go_on :
      (a : ℕ) (err : Failure)
      → (not (is_retryable (some err)) || a == attempts_of fl policy) ≡ false
      → (is_retryable (some err) ≡ true) × (a ≢ attempts_of fl policy)
  go_on a err h =
      (ground (arith, h), λ e. ground (arith, h, (==_iff a (attempts_of fl policy)).1 e))

  do_loop-IsRun :
      (left a : ℕ) (delay : ℤ) (last_err : Option Failure)
      → 1 ≤ a
      → 1 ≤ left
      → a + left ≡ attempts_of fl policy + 1
      → delay ≡ delay_after (a - 1)
      → IsRun a left (do_loop fl policy w left a delay last_err)
  unfolding do_loop
  do_loop-IsRun zero a delay last_err from some_left total d = absurd (omega (arith, some_left))
  do_loop-IsRun (suc left) a delay last_err from some_left total d =
      elim (Option-cases (w.ctx_err a)) [
        | inr (e, dead) ↦
            let here : a ≡ a + 0 = omega arith in
            rw dead (record {
              bounded = omega arith;
              numbered = refl;
              retried = λ k l h. absurd (omega (arith, l, h));
              finals = tt;
              waits = tt;
              ended =
                  Ending.cancelled (a - 1) e (omega (arith, from))
                    (inl (subst (λ x. w.ctx_err x ≡ some e) here dead)) refl refl;
            })
        | inl alive ↦ elim (Option-cases (w.op a)) [
          | inl good ↦
              rw (alive, good)
                (record {
                  bounded = omega arith;
                  numbered = refl;
                  retried = λ k l h. absurd (omega (arith, l, h));
                  finals = (λ f. omega arith, tt);
                  waits = (λ f. absurd (cc (f)), tt);
                  ended = Ending.succeeded a refl alive good refl refl;
                })
          | inr (err, bad) ↦
              let stops = not (is_retryable (some err)) || a == attempts_of fl policy in
              elim (Bool-cases stops) [
                | inl stop ↦
                    rw (alive, bad, stop)
                      (record {
                        bounded = omega arith;
                        numbered = refl;
                        retried = λ k l h. absurd (omega (arith, l, h));
                        finals = (λ f. omega arith, tt);
                        waits = (λ f. absurd (cc (f)), tt);
                        ended = Ending.gave_up a err refl alive bad refl (why_stop a err stop) refl;
                      })
                | inr go ↦ elim (Option-cases (w.ctx_done a)) [
                  | inr (e, done) ↦
                      rw (alive, bad, go, done)
                        (record {
                          bounded = omega arith;
                          numbered = refl;
                          retried = λ k l h. absurd (omega (arith, l, h));
                          finals = (λ f. omega arith, tt);
                          waits = (λ f. ap (λ x. apply_jitter fl (w.draw a) x policy.jitter) d, tt);
                          ended = Ending.cancelled a e refl (inr done) refl refl;
                        })
                  | inl waited ↦
                      let again = go_on a err go in
                      rw (alive, bad, go, waited)
                        (retry-IsRun a left delay err
                          (do_loop fl policy w left (a + 1) (next_delay_of fl policy delay)
                            (some err))
                          d (err, bad, again.0, alive, waited)
                          (do_loop-IsRun left (a + 1) (next_delay_of fl policy delay) (some err)
                            (omega arith) (omega (arith, total, again.1)) (omega (arith, total))
                            (delay_after_next a delay from d)))
                ]
              ]
        ]
      ]

  attempts_of-positive : 1 ≤ attempts_of fl policy
  unfolding attempts_of
  attempts_of-positive = positive policy.max_attempts
    where
      positive : (z : ℤ) → 1 ≤ (if int_ltb z (pos 1) then 1 else pos_part z)
      positive (pos n) = ground arith
      positive (ℤ.negsuc n) = ground arith

  -- `Do` ends within the attempts that the policy allows, one at least. Every attempt emits one event,
  -- in order, and only the last can be a final one. Every attempt but the last failed with an error
  -- that is tried again, with the context alive before it and during the wait after it, a wait which
  -- is the backed-off delay with its jitter. The run ends with a success and returns nothing; or with
  -- the error of its last attempt, which is not tried again or is the last one allowed; or, without a
  -- final event, with the error of the context that is done.
  pub retry_do-IsRun : IsRun 1 (attempts_of fl policy) (retry_do fl policy w)
  unfolding retry_do delay_after
  retry_do-IsRun =
      do_loop-IsRun (attempts_of fl policy) 1 (base_delay_of fl policy) none (omega arith)
        attempts_of-positive (omega arith) refl

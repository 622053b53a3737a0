-- ===== src/Core/Retry/Classes.antt =====
-- core/httpc/retry/retry.go and core/httpc/status.go: which errors are tried again, and how long the
-- delays grow.
use grudge_ai.Prelude.{
  ℕ, zero, suc, ◌≤◌, ◌<◌, ◌≡◌, ◌↔◌, ◌⊎◌, ◌-◌, refl, ◌∙◌, ℤ, if◌then◌else◌, subst, All, All-map, inl,
  inr, String, Bool, true, false, some, ◌==◌, ==_iff, int_ltb, int_ltb_irrefl, arith, Bool-cases,
}
use grudge_ai.Rrc.Floats.{Floats}
use grudge_ai.Core.Retry.{
  is_retryable, status_retryable, status_error, unwrap, is_auth_sentinel, is_rate_sentinel, Policy,
  World, next_delay_of, max_delay_of, apply_jitter, retry_do,
}
use grudge_ai.Core.Retry.Run.{delay_after, retry_do-IsRun}

abbrev pub IsTransient : ℕ → Type 0
IsTransient code = (code ≡ 408) ⊎ (code ≡ 429) ⊎ ((500 ≤ code) × (code < 600))

status_retryable_iff : (code : ℕ) → (status_retryable code ≡ true) ↔ IsTransient code
unfolding status_retryable
status_retryable_iff code = (there, back)
  where
    there : status_retryable code ≡ true → IsTransient code
    there h = elim (Bool-cases (code == 408)) [
      | inl timeout ↦ inl ((==_iff code 408).0 timeout)
      | inr no_timeout ↦ elim (Bool-cases (code == 429)) [
        | inl many ↦ inr (inl ((==_iff code 429).0 many))
        | inr few ↦
            inr (inr (ground (arith, h, no_timeout, few), ground (arith, h, no_timeout, few)))
      ]
    ]

    back : IsTransient code → status_retryable code ≡ true
    back (inl timeout) = ground (arith, (==_iff code 408).1 timeout)
    back (inr (inl many)) = ground (arith, (==_iff code 429).1 many)
    back (inr (inr (low, high))) = ground (arith, low, high)

-- Whatever a `StatusError` says, it is tried again exactly for the statuses 408, 429 and 500 to 599;
-- never where it unwraps to `ErrAuth`, and always where it unwraps to `ErrRateLimited`.
pub is_retryable-status_error :
    (code : ℕ) (says : String → Bool)
    → ((is_retryable (some (status_error code says)) ≡ true) ↔ IsTransient code)
      × (is_auth_sentinel (unwrap code) ≡ true
          → is_retryable (some (status_error code says)) ≡ false)
      × (is_rate_sentinel (unwrap code) ≡ true
          → is_retryable (some (status_error code says)) ≡ true)
unfolding is_retryable status_error status_retryable unwrap
is_retryable-status_error code says = (
  status_retryable_iff code,
  λ h. ground (arith, h, ==_iff code 401, ==_iff code 403, ==_iff code 408, ==_iff code 429),
  λ h. ground (arith, h, ==_iff code 429),
)

module _ (fl : Floats) (policy : Policy fl) (w : World fl) where
  delay_after-bound :
      (n : ℕ) → int_ltb (max_delay_of fl policy) (delay_after fl policy w (suc n)) ≡ false
  unfolding delay_after next_delay_of
  delay_after-bound n = ground (arith, int_ltb_irrefl (max_delay_of fl policy))

  late_delay-bound :
      (k : ℕ) → 2 ≤ k → int_ltb (max_delay_of fl policy) (delay_after fl policy w (k - 1)) ≡ false
  late_delay-bound zero h = absurd (omega (arith, h))
  late_delay-bound (suc zero) h = absurd (omega (arith, h))
  late_delay-bound (suc (suc k)) h =
      let here : suc k ≡ suc (suc k) - 1 = omega arith in
      subst (λ n. int_ltb (max_delay_of fl policy) (delay_after fl policy w n) ≡ false) here
        (delay_after-bound k)

  -- What jitter makes of a delay, which without jitter is the delay itself.
  abbrev pub jittered : ℕ → ℤ → ℤ
  jittered attempt d =
      if fl.le policy.jitter fl.zero then d else apply_jitter fl (w.draw attempt) d policy.jitter

  jittered_lem :
      (attempt : ℕ) (d : ℤ) → apply_jitter fl (w.draw attempt) d policy.jitter ≡ jittered attempt d
  unfolding apply_jitter
  jittered_lem attempt d = elim (Bool-cases (fl.le policy.jitter fl.zero)) [
    | inl steady ↦ rw steady refl
    | inr shaken ↦ rw shaken refl
  ]

  -- Every wait that `Do` announces after the first is made of a delay that is at most the largest of
  -- the policy: it is that delay itself where the policy has no jitter, and else that delay with the
  -- jitter of the attempt put on it. Nothing is said of the first wait, which is not cut, or of how
  -- far jitter takes a wait beyond the largest delay.
  pub retry_do-bounded_waits :
      All
        (λ e.
          e.final ≡ false
          → 2 ≤ e.attempt
          → (d : ℤ) × (int_ltb (max_delay_of fl policy) d ≡ false)
            × (e.next_delay ≡ jittered e.attempt d))
        (retry_do fl policy w).events
  retry_do-bounded_waits =
      All-map
        (λ e wait f late. (
          delay_after fl policy w (e.attempt - 1),
          late_delay-bound e.attempt late,
          wait f ∙ jittered_lem e.attempt (delay_after fl policy w (e.attempt - 1)),
        ))
        (retry_do fl policy w).events (retry_do-IsRun fl policy w).waits

-- ===== src/Tests/Retry.antt =====
-- A remote call that fails once with 503 and then succeeds.
use grudge_ai.Prelude.{
  ℕ, ◌≡◌, ◌≤◌, ◌↔◌, ℤ, ◌||◌, [], ◌∷◌, map, refl, true, false, Option, none, some, All, pos, int_ltb,
  if◌then◌else◌, ◌==◌,
}
use grudge_ai.Core.Retry.{
  Failure, Policy, World, is_retryable, is_auth_sentinel, is_rate_sentinel, status_error, unwrap,
  retry_do, attempts_of, max_delay_of,
}
use grudge_ai.Core.Retry.Run.{IsRun, retry_do-IsRun}
use grudge_ai.Core.Retry.Classes.{
  IsTransient, is_retryable-status_error, retry_do-bounded_waits, jittered,
}
use grudge_ai.Tests.{nat_floats}

abbrev unavailable : Failure
unavailable = status_error 503 (λ s. false)

abbrev first_fails : ℕ → Option Failure
first_fails k = if k == 1 then some unavailable else none

abbrev policy : Policy nat_floats
policy = record {
  max_attempts = pos 3;
  base_delay = pos 5;
  max_delay = pos 8;
  multiplier = 2;
  jitter = 0;
}

abbrev world : World nat_floats
world = record { op = first_fails; ctx_err = λ k. none; ctx_done = λ k. none; draw = λ k. 0 }

second_try : (retry_do nat_floats policy world).calls ≡ 2
unfolding retry_do grudge_ai.Core.Retry.do_loop attempts_of is_retryable status_error unwrap
    grudge_ai.Core.Retry.status_retryable
second_try = refl

retry_do-IsRun_example :
    IsRun nat_floats policy world 1
      (attempts_of nat_floats policy)
      (retry_do nat_floats policy world)
retry_do-IsRun_example = retry_do-IsRun nat_floats policy world

abbrev first_two_fail : ℕ → Option Failure
first_two_fail k = if k == 1 || k == 2 then some unavailable else none

abbrev hard_world : World nat_floats
hard_world = record {
  op = first_two_fail;
  ctx_err = λ k. none;
  ctx_done = λ k. none;
  draw = λ k. 0;
}

-- The second wait would be 10, and is cut.
waits_cut :
    map
      (λ e. if e.final then pos 0 else e.next_delay)
      (retry_do nat_floats policy hard_world).events
    ≡ pos 5 ∷ pos 8 ∷ pos 0 ∷ []
unfolding retry_do grudge_ai.Core.Retry.do_loop attempts_of is_retryable status_error unwrap
    grudge_ai.Core.Retry.status_retryable grudge_ai.Core.Retry.base_delay_of
    grudge_ai.Core.Retry.next_delay_of grudge_ai.Core.Retry.max_delay_of
    grudge_ai.Core.Retry.multiplier_of grudge_ai.Core.Retry.apply_jitter
waits_cut = refl

retry_do-bounded_waits_example :
    All
      (λ e.
        e.final ≡ false
        → 2 ≤ e.attempt
        → (d : ℤ) × (int_ltb (max_delay_of nat_floats policy) d ≡ false)
          × (e.next_delay ≡ jittered nat_floats policy hard_world e.attempt d))
      (retry_do nat_floats policy hard_world).events
retry_do-bounded_waits_example = retry_do-bounded_waits nat_floats policy hard_world

is_retryable-status_error_example :
    ((is_retryable (some (status_error 503 (λ s. false))) ≡ true) ↔ IsTransient 503)
    × (is_auth_sentinel (unwrap 503) ≡ true
        → is_retryable (some (status_error 503 (λ s. false))) ≡ false)
    × (is_rate_sentinel (unwrap 503) ≡ true
        → is_retryable (some (status_error 503 (λ s. false))) ≡ true)
is_retryable-status_error_example = is_retryable-status_error 503 (λ s. false)

-- ===== src/Core/Retry.antt =====
-- core/httpc/retry/retry.go and core/httpc/status.go: the retry policy. The operation, the context
-- and the random numbers are arguments, by the number of the attempt that meets them.
pub mod Run
pub mod Classes
use grudge_ai.Prelude.{
  ℕ, zero, suc, ◌+◌, String, Bool, true, false, not, ◌&&◌, ◌||◌, Option, none, some, List, [], ◌∷◌,
  any, if◌then◌else◌, ◌==◌, leb, ltb, ℤ, pos, pos_part, is_positive, int_ltb,
}
use grudge_ai.Rrc.Floats.{Floats}

-- What `errors.Is`, `errors.As` and `Error` find of an error.
pub record Failure : Type 0 where
  pub is_canceled : Bool
  pub is_deadline_exceeded : Bool
  pub status : Option ℕ
  pub is_auth : Bool
  pub is_rate_limited : Bool
  pub is_provider_unavailable : Bool
  -- strings.Contains(err.Error(), s)
  pub says : String → Bool

unfoldable pub status_retryable : ℕ → Bool
status_retryable code = if code == 408 || code == 429 then true else leb 500 code && ltb code 600

unfoldable pub contains_any : (String → Bool) → List String → Bool
contains_any says needles = any says needles

-- The case of `core.ErrProviderUnavailable`.
unfoldable pub message_retryable : (String → Bool) → Bool
message_retryable says =
    if contains_any says (
      "500" ∷ "502" ∷ "503" ∷ "504" ∷ "Bad Gateway" ∷ "Gateway Timeout" ∷ "Service Unavailable"
      ∷ "Service Temporarily Unavailable" ∷ "Internal Server Error" ∷ [])
    then true
    else if contains_any says (
        "context deadline exceeded" ∷ "Client.Timeout exceeded" ∷ "connection refused"
        ∷ "connection reset" ∷ "no such host" ∷ "unexpected EOF" ∷ "broken pipe" ∷ "i/o timeout"
        ∷ "TLS handshake timeout" ∷ [])
    then true
    else if contains_any says ("400" ∷ "404" ∷ "409" ∷ "410" ∷ "422" ∷ [])
    then false
    else true

unfoldable pub is_retryable : Option Failure → Bool
is_retryable none = false
is_retryable (some err) =
    if err.is_canceled || err.is_deadline_exceeded then false else elim err.status [
      | some code ↦ status_retryable code
      | none ↦
          if err.is_auth
          then false
          else if err.is_rate_limited
          then true
          else if err.is_provider_unavailable
          then message_retryable err.says
          else false
    ]

-- The three errors that a `StatusError` unwraps to.
pub data Sentinel : Type 0 where
  err_auth err_rate_limited err_provider_unavailable : Sentinel

-- StatusError.Unwrap
unfoldable pub unwrap : ℕ → Sentinel
unwrap code =
    if code == 401 || code == 403
    then err_auth
    else if code == 429
    then err_rate_limited
    else err_provider_unavailable

abbrev pub is_auth_sentinel : Sentinel → Bool
is_auth_sentinel err_auth = true
is_auth_sentinel err_rate_limited = false
is_auth_sentinel err_provider_unavailable = false

abbrev pub is_rate_sentinel : Sentinel → Bool
is_rate_sentinel err_auth = false
is_rate_sentinel err_rate_limited = true
is_rate_sentinel err_provider_unavailable = false

-- What is found of a `StatusError`: its status code, and the error that it unwraps to.
unfoldable pub status_error : ℕ → (String → Bool) → Failure
status_error code says = record {
  is_canceled = false;
  is_deadline_exceeded = false;
  status = some code;
  is_auth = is_auth_sentinel (unwrap code);
  is_rate_limited = is_rate_sentinel (unwrap code);
  is_provider_unavailable =
      not (is_auth_sentinel (unwrap code)) && not (is_rate_sentinel (unwrap code));
  says = says;
}

module _ (fl : Floats) where
  open fl use {F}

  -- The durations are in nanoseconds.
  pub record Policy : Type 0 where
    pub max_attempts : ℤ
    pub base_delay : ℤ
    pub max_delay : ℤ
    pub multiplier : F
    pub jitter : F

  unfoldable pub default_policy : Policy
  default_policy = record {
    max_attempts = pos 10;
    base_delay = pos 5000000000;
    max_delay = pos 300000000000;
    multiplier = fl.of_ℕ 2;
    jitter = fl.div (fl.of_ℕ 1) (fl.of_ℕ 5);
  }

  unfoldable pub local_service_policy : Policy
  local_service_policy = record {
    max_attempts = pos 3;
    base_delay = pos 1000000000;
    max_delay = pos 10000000000;
    multiplier = fl.of_ℕ 3;
    jitter = fl.div (fl.of_ℕ 1) (fl.of_ℕ 4);
  }

  pub record Event : Type 0 where
    pub attempt : ℕ
    pub max_attempts : ℕ
    pub err : Option Failure
    pub next_delay : ℤ
    pub final : Bool

  -- rand.Float64() * 2 - 1, then the factor 1 + delta on the delay.
  unfoldable pub apply_jitter : F → ℤ → F → ℤ
  apply_jitter draw d fraction =
      if fl.le fraction fl.zero
      then d
      else let fraction = if fl.lt fl.one fraction then fl.one else fraction in
        let delta = fl.mul (fl.sub (fl.mul draw (fl.of_ℕ 2)) fl.one) fraction in
        fl.to_ℤ (fl.mul (fl.of_ℤ d) (fl.add fl.one delta))

  -- What `Do` meets at each attempt: the result of the operation, the error of the context when the
  -- attempt begins and while it waits after it, and the number that is drawn.
  pub record World : Type 0 where
    pub op : ℕ → Option Failure
    pub ctx_err : ℕ → Option Failure
    pub ctx_done : ℕ → Option Failure
    pub draw : ℕ → F

  -- What `Do` returns, the events that it emits, and how often it calls the operation.
  pub record Outcome : Type 0 where
    pub returned : Option Failure
    pub events : List Event
    pub calls : ℕ

  -- The checks of the policy at the start of `Do`.
  unfoldable pub attempts_of : Policy → ℕ
  attempts_of policy =
      if int_ltb policy.max_attempts (pos 1) then 1 else pos_part policy.max_attempts

  unfoldable pub multiplier_of : Policy → F
  multiplier_of policy = if fl.le policy.multiplier fl.zero then fl.of_ℕ 2 else policy.multiplier

  unfoldable pub base_delay_of : Policy → ℤ
  base_delay_of policy = if is_positive policy.base_delay then policy.base_delay else pos 1000000000

  unfoldable pub max_delay_of : Policy → ℤ
  max_delay_of policy = if is_positive policy.max_delay then policy.max_delay else pos 60000000000

  -- The delay after the next failure.
  unfoldable pub next_delay_of : Policy → ℤ → ℤ
  next_delay_of policy delay =
      let next = fl.to_ℤ (fl.mul (fl.of_ℤ delay) (multiplier_of policy)) in
      if int_ltb (max_delay_of policy) next then max_delay_of policy else next

  module _ (policy : Policy) (w : World) where
    abbrev pub event_of : ℕ → Option Failure → ℤ → Bool → Event
    event_of attempt err next_delay final = record {
      attempt = attempt;
      max_attempts = attempts_of policy;
      err = err;
      next_delay = next_delay;
      final = final;
    }

    -- The `select`: the context is done, or the timer fires and the loop goes on.
    abbrev pub after_wait : Option Failure → Event → Outcome → Outcome
    after_wait (some e) event rest = record { returned = some e; events = event ∷ []; calls = 1 }
    after_wait none event rest = record {
      returned = rest.returned;
      events = event ∷ rest.events;
      calls = suc rest.calls;
    }

    -- From the return of the operation on.
    abbrev pub after_op : Option Failure → ℕ → ℤ → Outcome → Outcome
    after_op none attempt delay rest = record {
      returned = none;
      events = event_of attempt none (pos 0) true ∷ [];
      calls = 1;
    }
    after_op (some err) attempt delay rest =
        if not (is_retryable (some err)) || attempt == attempts_of policy
        then record {
          returned = some err;
          events = event_of attempt (some err) (pos 0) true ∷ [];
          calls = 1;
        }
        else after_wait (w.ctx_done attempt)
            (event_of attempt (some err) (apply_jitter (w.draw attempt) delay policy.jitter) false)
            rest

    abbrev pub do_round : Option Failure → ℕ → ℤ → Outcome → Outcome
    do_round (some e) attempt delay rest = record { returned = some e; events = []; calls = 0 }
    do_round none attempt delay rest = after_op (w.op attempt) attempt delay rest

    -- `left` counts the rounds that the loop has left.
    unfoldable pub do_loop : ℕ → ℕ → ℤ → Option Failure → Outcome
    do_loop zero attempt delay last_err = record { returned = last_err; events = []; calls = 0 }
    do_loop (suc left) attempt delay last_err =
        do_round (w.ctx_err attempt) attempt delay
          (do_loop left (attempt + 1) (next_delay_of policy delay) (w.op attempt))

    -- `Do`, with the events that it hands to the callback.
    unfoldable pub retry_do : Outcome
    retry_do = do_loop (attempts_of policy) 1 (base_delay_of policy) none

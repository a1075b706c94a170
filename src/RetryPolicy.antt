-- ===== src/RetryPolicy.antt =====
-- apps/worker/src/engine/retry-policy-resolver.ts: how often a failed step is tried again, and when.
-- Times are milliseconds.
pub mod Laws
use flowmind.Prelude.{
  ℕ, zero, suc, ◌+◌, ◌-◌, ◌*◌, ◌^◌, String, Bool, true, false, Option, none, some, ◌==◌,
  if◌then◌else◌, min, max,
}
use flowmind.Json.{
  Number, nan, infinite, finite, Value, undefined, null, num, str, obj, Fields, end, get, nat, Host,
  to_number, or_else,
}
use flowmind.Text

pub data Strategy : Type 0 where
  fixed exponential : Strategy

pub record RetryPolicy : Type 0 where
  pub max_attempts : ℕ
  pub backoff_ms : ℕ
  pub strategy : Strategy
  pub timeout_seconds : ℕ

-- `clampNumber` for bounds that are natural numbers: a negative number is below each of them.
unfoldable pub clamp_number : Number → ℕ → ℕ → ℕ
clamp_number (finite false whole fraction) lo hi = min hi (max lo whole)
clamp_number (finite true whole fraction) lo hi = min hi lo
clamp_number nan lo hi = lo
clamp_number (infinite negative) lo hi = lo

unfoldable pub default_timeout : String → ℕ
unfolding Text.starts_with
default_timeout type =
    if Text.starts_with "ai_" type then 60 else if type == "http_request" then 15 else 30

abbrev pub is_exponential : Value → Bool
is_exponential (str s) = s == "exponential"
is_exponential _ = false

-- isRecord(raw?.retry) ? raw.retry : raw
unfoldable pub retry_fields : Fields → Fields
unfolding get
retry_fields raw = elim (get "retry" raw) [ obj inner ↦ inner | _ ↦ raw ]

-- The policy without its timeout.
pub record Normalized : Type 0 where
  pub max_attempts : ℕ
  pub backoff_ms : ℕ
  pub strategy : Strategy

unfoldable pub normalize_retry_policy : Host → Fields → Normalized
unfolding retry_fields get to_number or_else clamp_number
normalize_retry_policy host raw =
    let retry = retry_fields raw in
    record {
      max_attempts =
          clamp_number (to_number host (or_else (get "maxAttempts" retry) (num (nat 1)))) 1 5;
      backoff_ms =
          clamp_number (to_number host (or_else (get "backoffMs" retry) (num (nat 1000)))) 100
            60000;
      strategy = if is_exponential (get "strategy" retry) then exponential else fixed;
    }

unfoldable pub normalize_timeout_seconds : Host → Value → Option ℕ
unfolding to_number clamp_number
normalize_timeout_seconds host undefined = none
normalize_timeout_seconds host null = none
normalize_timeout_seconds host v = some (clamp_number (to_number host v) 1 120)

abbrev pub number_or : Option Number → ℕ → Number
number_or none d = nat d
number_or (some n) d = n

-- `resolve`, at the type, the timeout and the policy of the step
unfoldable pub resolve : Host → String → Option Number → Option Fields → RetryPolicy
unfolding normalize_retry_policy default_timeout clamp_number
resolve host type timeout policy =
    let p = normalize_retry_policy host (elim policy [ none ↦ end | some fs ↦ fs ]) in
    record {
      max_attempts = p.max_attempts;
      backoff_ms = p.backoff_ms;
      strategy = p.strategy;
      timeout_seconds = clamp_number (number_or timeout (default_timeout type)) 1 120;
    }

-- Math.max(1, 2 ** Math.max(0, attemptCount - 1))
unfoldable pub multiplier : Strategy → ℕ → ℕ
multiplier fixed attempts = 1
multiplier exponential attempts = max 1 (2 ^ (attempts - 1))

unfoldable pub next_retry_at : RetryPolicy → ℕ → ℕ → ℕ
unfolding multiplier
next_retry_at policy attempts now =
    now + min (policy.backoff_ms * multiplier policy.strategy attempts) 60000

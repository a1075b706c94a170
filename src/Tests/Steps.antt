-- ===== src/Tests/Steps.antt =====
-- The rows of steps under the executor.
use flowmind.Prelude.{ℕ, ◌≡◌, refl, false, none, some, List, [], ◌∷◌}
use flowmind.Text
use flowmind.RetryPolicy.{RetryPolicy, exponential, multiplier, next_retry_at}
use flowmind.StepExecutor.{
  pending, completed, StepRow, StepError, http_step_error, other_error, retryable, non_retryable,
  ambiguous, retryable_texts, non_retryable_texts, classify, returns, retrying_at, next_attempt,
  begin, after_result, after_error, execute,
}

abbrev policy : RetryPolicy
policy = record {
  max_attempts = 2;
  backoff_ms = 1000;
  strategy = exponential;
  timeout_seconds = 30;
}

abbrev row : StepRow
row = record {
  status = pending;
  attempt_count = 0;
  max_attempts = 2;
  next_retry_at = none;
  effect_status = none;
}

-- What the executor calls.
executor : Unit {0}
unfolding retryable_texts non_retryable_texts classify next_attempt begin after_result after_error
    execute multiplier next_retry_at Text.includes Text.starts_with
executor = tt

timeout_classified : classify (other_error "request timed out") ≡ retryable
unfolding executor
timeout_classified = refl

config_classified : classify (other_error "invalid config") ≡ non_retryable
unfolding executor
config_classified = refl

not_found_classified : classify (http_step_error 404) ≡ ambiguous
unfolding executor
not_found_classified = refl

-- A handler that asks for a wait: the step is retrying until then.
delayed :
    (execute false policy 5
      (returns (record {
        status = completed;
        durable_wait = false;
        wait_until = some 9;
        wait_reason = some "delay";
      }))
      row).1
    ≡ retrying_at 9
unfolding executor
delayed = refl

abbrev errors : List (ℕ × StepError)
errors = (10, http_step_error 503) ∷ (2000, http_step_error 503) ∷ []

-- The row of a step that resumes after its approval.
abbrev approved : StepRow
approved = record row { attempt_count = 1; effect_status = some "approval_waiting" }

-- ===== src/StepExecutor.antt =====
-- apps/worker/src/engine/step-executor.ts: the row of a step under `execute`, `skip` and
-- `completeWait`; and error-classifier.ts beside it. How the handler of the step ends is an argument.
-- Outputs, the rows of attempts, logs, metrics and audits are left out; times are milliseconds.
pub mod Laws
use flowmind.Prelude.{
  ℕ, suc, String, Bool, true, false, not, ◌&&◌, Option, none, some, List, [], ◌∷◌, ◌==◌,
  if◌then◌else◌, ltb, nat_beq, any,
}
use flowmind.Text
use flowmind.RetryPolicy.{RetryPolicy, next_retry_at}

pub data StepStatus : Type 0 where
  pending running completed failed skipped retrying : StepStatus

-- StepExecutionRecord
pub record StepRow : Type 0 where
  pub status : StepStatus
  pub attempt_count : ℕ
  pub max_attempts : ℕ
  pub next_retry_at : Option ℕ
  pub effect_status : Option String

-- What a step throws; of an error that is none of the three classes, the message in lower case.
pub data StepError : Type 0 where
  ambiguous_step_error : StepError
  non_retryable_step_error : StepError
  http_step_error : (status : ℕ) → StepError
  other_error : (message : String) → StepError

pub data Classification : Type 0 where
  retryable non_retryable ambiguous : Classification

unfoldable pub retryable_texts : List String
retryable_texts =
    "timed out" ∷ "timeout" ∷ "rate limit" ∷ "temporar" ∷ "econn" ∷ "connection" ∷ "socket"
    ∷ "network" ∷ []

unfoldable pub non_retryable_texts : List String
non_retryable_texts =
    "config" ∷ "expression" ∷ "private, reserved or metadata ip" ∷ "internal host" ∷ "method"
    ∷ "ssrf" ∷ "schema" ∷ []

abbrev pub mentions : List String → String → Bool
mentions texts message = any (λ t. Text.includes t message) texts

unfoldable pub classify : StepError → Classification
unfolding retryable_texts non_retryable_texts Text.includes
classify ambiguous_step_error = ambiguous
classify non_retryable_step_error = non_retryable
classify (http_step_error status) =
    if any (nat_beq status) (429 ∷ 502 ∷ 503 ∷ 504 ∷ [])
    then retryable
    else if any (nat_beq status) (400 ∷ 401 ∷ 403 ∷ [])
    then non_retryable
    else ambiguous
classify (other_error message) =
    if mentions retryable_texts message
    then retryable
    else if mentions non_retryable_texts message
    then non_retryable
    else ambiguous

-- result.control of a handler; `wait_until` is none where the date is missing or invalid.
pub record HandlerResult : Type 0 where
  pub status : StepStatus
  pub durable_wait : Bool
  pub wait_until : Option ℕ
  pub wait_reason : Option String

pub data HandlerOutcome : Type 0 where
  returns : HandlerResult → HandlerOutcome
  raises : StepError → HandlerOutcome

pub data StepOutcome : Type 0 where
  completed_with : StepStatus → StepOutcome
  retrying_at : ℕ → StepOutcome
  durable_wait_on_approval : StepOutcome
  thrown : StepError → StepOutcome

-- A step that waited for an approval goes on with the attempt that it had.
abbrev pub is_approval_waiting : Option String → Bool
is_approval_waiting none = false
is_approval_waiting (some s) = s == "approval_waiting"

unfoldable pub next_attempt : Bool → StepRow → ℕ
next_attempt is_approval row =
    if is_approval && is_approval_waiting row.effect_status
    then row.attempt_count
    else suc row.attempt_count

-- The first update: the step runs.
unfoldable pub begin : Bool → RetryPolicy → StepRow → StepRow
unfolding next_attempt
begin is_approval policy row = record {
  status = running;
  attempt_count = next_attempt is_approval row;
  max_attempts = policy.max_attempts;
  next_retry_at = none;
  effect_status = row.effect_status;
}

abbrev pub or_reason : Option String → String → String
or_reason none d = d
or_reason (some reason) d = reason

abbrev pub later : Option ℕ → ℕ → Option ℕ
later none now = none
later (some t) now = if ltb now t then some t else none

abbrev pub settle : StepRow → HandlerResult → Option ℕ → StepRow × StepOutcome
settle row result (some t) = (
  record row {
    status = retrying;
    next_retry_at = some t;
    effect_status = some (or_reason result.wait_reason "waiting");
  },
  retrying_at t,
)
settle row result none = (
  record row { status = result.status; effect_status = some "succeeded" },
  completed_with result.status,
)

-- What follows a handler that returns, at the time `now`.
unfoldable pub after_result : ℕ → StepRow → HandlerResult → StepRow × StepOutcome
after_result now row result =
    if result.durable_wait
    then (
      record row {
        status = retrying;
        next_retry_at = none;
        effect_status = some "approval_waiting";
      },
      durable_wait_on_approval,
    )
    else settle row result (later result.wait_until now)

abbrev pub is_retryable : Classification → Bool
is_retryable retryable = true
is_retryable _ = false

abbrev pub effect_of : Classification → String
effect_of ambiguous = "ambiguous"
effect_of _ = "failed"

-- What follows a handler that throws.
unfoldable pub after_error : RetryPolicy → ℕ → StepRow → StepError → StepRow × StepOutcome
unfolding classify next_retry_at
after_error policy now row error =
    let classification = classify error in
    let retry_at = next_retry_at policy row.attempt_count now in
    if is_retryable classification && ltb row.attempt_count policy.max_attempts
    then (
      record row {
        status = retrying;
        next_retry_at = some retry_at;
        effect_status = some (effect_of classification);
      },
      retrying_at retry_at,
    )
    else (
      record row {
        status = failed;
        next_retry_at = none;
        effect_status = some (effect_of classification);
      },
      thrown error,
    )

unfoldable pub execute : Bool → RetryPolicy → ℕ → HandlerOutcome → StepRow → StepRow × StepOutcome
unfolding begin after_result after_error
execute is_approval policy now (returns result) row =
    after_result now (begin is_approval policy row) result
execute is_approval policy now (raises error) row =
    after_error policy now (begin is_approval policy row) error

unfoldable pub skip : StepRow → StepRow
skip row = record row { status = skipped; effect_status = some "skipped" }

unfoldable pub complete_wait : StepRow → StepRow
complete_wait row = record row {
  status = completed;
  next_retry_at = none;
  effect_status = some "succeeded";
}

-- ===== src/StepExecutor/Laws.antt =====
-- When a step is tried again, and how often.
use flowmind.Prelude.{
  ℕ, ◌+◌, ◌≤◌, ◌≡◌, Bool, true, false, ◌&&◌, some, List, [], ◌∷◌, if◌then◌else◌, ltb,
}
use flowmind.RetryPolicy.{RetryPolicy, next_retry_at}
use flowmind.StepExecutor.{
  StepStatus, pending, retrying, StepRow, StepError, classify, raises, is_retryable, next_attempt,
  execute,
}

abbrev is_over : StepStatus → Bool
is_over retrying = false
is_over pending = false
is_over _ = true

-- The attempts of a step that throws each time, one error after another, until it is tried no more.
unfoldable pub try_all : Bool → RetryPolicy → List (ℕ × StepError) → StepRow → StepRow
unfolding execute
try_all is_approval policy [] row = row
try_all is_approval policy ((now, error) ∷ rest) row =
    let after = (execute is_approval policy now (raises error) row).0 in
    let others = try_all is_approval policy rest after in
    if is_over after.status then after else others

-- Whether another attempt follows an error.
abbrev pub can_retry : Bool → RetryPolicy → StepError → StepRow → Bool
can_retry is_approval policy error row =
    is_retryable (classify error) && ltb (next_attempt is_approval row) policy.max_attempts

-- What the row says where it does.
pub record IsRetrying (policy : RetryPolicy) (now : ℕ) (after : StepRow) : Type 0 where
  pub status : after.status ≡ retrying
  pub time : ℕ
  pub planned : after.next_retry_at ≡ some time
  pub not_sooner : now + policy.backoff_ms ≤ time
  pub not_later : time ≤ now + 60000

-- ===== src/LinearRunner.antt =====
-- apps/worker/src/engine/workflow-runner.ts: the loop of `run` over the steps of a workflow without a
-- graph. What the database, the lease and the handlers answer during one run stands with each step.
pub mod Kept
pub mod Laws
use flowmind.Prelude.{
  ℕ, zero, suc, Bool, true, false, not, ◌&&◌, Option, none, some, List, [], ◌∷◌, if◌then◌else◌, ltb,
  any,
}
use flowmind.RetryPolicy.{RetryPolicy}
use flowmind.StepExecutor.{
  StepStatus, pending, completed, failed, skipped, retrying, StepRow, StepError, HandlerOutcome,
  StepOutcome, completed_with, retrying_at, durable_wait_on_approval, thrown, execute, skip,
}

pub record LinearStep : Type 0 where
  pub is_approval : Bool
  pub policy : RetryPolicy
  -- The row of the step, if there is one, and what shouldSkipNext says of its output.
  pub row : Option StepRow
  pub skips_next : Bool
  -- Whether a recovery takes the result of another execution over, and shouldSkipNext of that.
  pub reused : Bool
  pub reused_skips : Bool
  -- What the loop finds when it comes to the step.
  pub cancelled : Bool
  pub lease_lost : Bool
  -- How the handler ends, and its control.skipNext.
  pub handler : HandlerOutcome
  pub control_skips : Bool
  -- Whether the lease is lost when the executor has returned.
  pub lease_lost_after : Bool

pub data RunResult : Type 0 where
  run_completed : RunResult
  run_waiting : Option ℕ → RunResult
  run_cancelled run_lost_lease attempts_used_up has_failed_steps : RunResult
  run_failed : StepError → RunResult

-- `ensure`, below the limit on the number of rows.
unfoldable pub ensure : RetryPolicy → Option StepRow → StepRow
ensure policy none = record {
  status = pending;
  attempt_count = 0;
  max_attempts = policy.max_attempts;
  next_retry_at = none;
  effect_status = none;
}
ensure policy (some row) = record row { max_attempts = policy.max_attempts }

-- What becomes of a step in one round: its row, and either `skipNext` or the result of the run.
pub data Turn : Type 0 where
  goes_on : Option StepRow → Bool → Turn
  stops : Option StepRow → RunResult → Turn

abbrev pub after_outcome : LinearStep → StepRow → StepOutcome → Turn
after_outcome p row (completed_with status) = goes_on (some row) p.control_skips
after_outcome p row (retrying_at t) = stops (some row) (run_waiting (some t))
after_outcome p row durable_wait_on_approval = stops (some row) (run_waiting none)
after_outcome p row (thrown e) = stops (some row) (run_failed e)

-- After the executor, `assertOwned`; an error of the executor comes before it.
abbrev pub after_execute : LinearStep → StepRow × StepOutcome → Turn
after_execute p (row, thrown e) = after_outcome p row (thrown e)
after_execute p (row, outcome) =
    if p.lease_lost_after then stops (some row) run_lost_lease else after_outcome p row outcome

unfoldable pub act : ℕ → Bool → LinearStep → StepRow → Turn
unfolding skip execute
act now skip_next p row =
    if skip_next
    then goes_on (some (skip row)) false
    else after_execute p (execute p.is_approval p.policy now p.handler row)

abbrev pub is_due : ℕ → Option ℕ → Bool
is_due now none = true
is_due now (some t) = not (ltb now t)

unfoldable pub turn_row : ℕ → Bool → LinearStep → StepRow → Turn
unfolding act
turn_row now skip_next p row = elim row.status [
  | completed ↦ goes_on (some row) p.skips_next
  | skipped ↦ goes_on (some row) false
  | retrying ↦
      if is_due now row.next_retry_at
      then act now skip_next p row
      else stops (some row) (run_waiting row.next_retry_at)
  | failed ↦
      if ltb row.attempt_count row.max_attempts
      then act now skip_next p row
      else stops (some row) attempts_used_up
  | _ ↦ act now skip_next p row
]

unfoldable pub turn : ℕ → Bool → LinearStep → Turn
unfolding ensure turn_row
turn now skip_next p =
    if p.cancelled
    then stops p.row run_cancelled
    else if p.lease_lost
    then stops p.row run_lost_lease
    else if p.reused
    then goes_on p.row p.reused_skips
    else turn_row now skip_next p (ensure p.policy p.row)

abbrev pub rows : List LinearStep → List (Option StepRow)
rows [] = []
rows (p ∷ steps) = p.row ∷ rows steps

-- The loop: the rows after it, and its result.
unfoldable pub run_steps : ℕ → Bool → List LinearStep → List (Option StepRow) × RunResult
unfolding turn
run_steps now skip_next [] = ([], run_completed)
run_steps now skip_next (p ∷ steps) = elim (turn now skip_next p) [
  | goes_on row skips ↦ let (others, result) = run_steps now skips steps in (row ∷ others, result)
  | stops row result ↦ (row ∷ rows steps, result)
]

abbrev pub is_failed : Option StepRow → Bool
is_failed none = false
is_failed (some row) = elim row.status [ failed ↦ true | _ ↦ false ]

-- `assertOwned` and `assertNoFailedSteps` after the loop. The transition that follows has the result
-- `completed`, whether it finds the execution running or not.
abbrev pub checked : Bool → List (Option StepRow) → RunResult → RunResult
checked lease_lost after run_completed =
    if lease_lost
    then run_lost_lease
    else if any is_failed after
    then has_failed_steps
    else run_completed
checked lease_lost after result = result

-- `lease_lost` is what the check of the lease after the loop finds.
unfoldable pub run : ℕ → Bool → List LinearStep → List (Option StepRow) × RunResult
unfolding run_steps
run now lease_lost steps =
    let (after, result) = run_steps now false steps in (after, checked lease_lost after result)

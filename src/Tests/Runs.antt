-- ===== src/Tests/Runs.antt =====
-- Runs over the steps of a workflow without a graph.
use flowmind.Prelude.{ℕ, ◌+◌, ◌≡◌, refl, true, false, none, some, List, [], ◌∷◌}
use flowmind.RetryPolicy.{RetryPolicy, fixed, multiplier, next_retry_at}
use flowmind.StepExecutor.{
  retrying, completed, skipped, StepRow, http_step_error, HandlerOutcome, returns, raises, classify,
  next_attempt, begin, after_result, after_error, execute, skip, retryable_texts,
  non_retryable_texts,
}
use flowmind.LinearRunner.{
  LinearStep, run_completed, run_waiting, run_lost_lease, ensure, act, turn_row, turn, rows,
  run_steps, run,
}
use flowmind.LinearRunner.Kept.{KeepsAll, run-KeepsAll}
use flowmind.LinearRunner.Laws.{AllDone, completed_run-AllDone}

abbrev pub policy : RetryPolicy
policy = record { max_attempts = 2; backoff_ms = 1000; strategy = fixed; timeout_seconds = 30 }

abbrev pub succeeds : HandlerOutcome
succeeds =
    returns
      (record { status = completed; durable_wait = false; wait_until = none; wait_reason = none })

abbrev step : LinearStep
step = record {
  is_approval = false;
  policy = policy;
  row = none;
  skips_next = false;
  reused = false;
  reused_skips = false;
  cancelled = false;
  lease_lost = false;
  handler = succeeds;
  control_skips = false;
  lease_lost_after = false;
}

abbrev pub done_row : StepRow
done_row = record {
  status = completed;
  attempt_count = 1;
  max_attempts = 2;
  next_retry_at = none;
  effect_status = some "succeeded";
}

-- The first step is done and asks to skip the next, and the third has no row yet.
abbrev steps : List LinearStep
steps = record step { row = some done_row; skips_next = true } ∷ step ∷ step ∷ []

-- What the loop calls.
runner : Unit {0}
unfolding classify retryable_texts non_retryable_texts next_attempt begin after_result after_error
    execute skip ensure act turn_row turn run_steps run multiplier next_retry_at
runner = tt

abbrev skipped_row : StepRow
skipped_row = record {
  status = skipped;
  attempt_count = 0;
  max_attempts = 2;
  next_retry_at = none;
  effect_status = some "skipped";
}

run_of_steps :
    run 7 false steps ≡ (some done_row ∷ some skipped_row ∷ some done_row ∷ [], run_completed)
unfolding runner
run_of_steps = refl

-- The run of a step that fails for a while leaves the ones after it alone.
waiting_run :
    (run 7 false (record step { handler = raises (http_step_error 503) } ∷ step ∷ [])).1
    ≡ run_waiting (some 1007)
unfolding runner
waiting_run = refl

run-KeepsAll_example : KeepsAll (rows steps) (run 7 false steps).0
run-KeepsAll_example = run-KeepsAll 7 false steps

steps_completed : (run 7 false steps).1 ≡ run_completed
unfolding runner
steps_completed = refl

completed_run-AllDone_example : AllDone steps (run 7 false steps).0
completed_run-AllDone_example =
    completed_run-AllDone 7 false steps (refl, (refl, (refl, tt))) steps_completed

-- A delay that is over is waited for again: the loop runs its handler once more.
abbrev delay_of_five : ℕ → LinearStep
delay_of_five now = record step {
  row = some (record done_row { status = retrying; next_retry_at = some 7 });
  handler = returns (record {
    status = completed;
    durable_wait = false;
    wait_until = some (now + 5);
    wait_reason = some "delay";
  });
}

delay_waits_again : (run 8 false (delay_of_five 8 ∷ [])).1 ≡ run_waiting (some 13)
unfolding runner
delay_waits_again = refl

-- A step whose lease is lost while it runs keeps the row that the executor wrote.
lost_after_step :
    run 7 false (record step { lease_lost_after = true } ∷ step ∷ [])
    ≡ (some done_row ∷ none ∷ [], run_lost_lease)
unfolding runner
lost_after_step = refl

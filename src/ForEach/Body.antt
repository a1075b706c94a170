-- ===== src/ForEach/Body.antt =====
-- apps/worker/src/engine/for-each-execution.service.ts: the inner loop of `execute`, which walks through
-- the body of the loop for one item, on the rows under the path of the iteration. The answers
-- of the database, the handlers and the services stand with each step, as in GraphRunner.
pub mod Inside
use flowmind.Prelude.{
  ℕ, zero, suc, String, Bool, true, false, not, ◌&&◌, Option, none, some, List, [], ◌∷◌, ◌==◌,
  if◌then◌else◌, ltb, foldl, filter, length, map, has,
}
use flowmind.Json.{Value, undefined}
use flowmind.StepExecutor.{
  StepStatus, completed, StepRow, StepOutcome, completed_with, retrying_at,
  durable_wait_on_approval, thrown, execute,
}
use flowmind.LinearRunner.{is_due}
use flowmind.LinearRunner.Kept.{is_final}
use flowmind.Walk.{collect}
use flowmind.RuntimeGraph.{RuntimeGraph, successors}
use flowmind.RuntimeGraph.Planner.{selected_next_step_key, branch_skip_keys}
use flowmind.GraphRunner.{
  StepType, try_catch, execute_workflow, if_step, switch_step, Saved, Rows, put, ServiceOutcome,
  ends_with, waits_until, service_throws, GraphStep, step_row_by_key, ensured, edge_target,
  is_retrying, is_completed, is_approval, is_failed, resume, output_after, skip_found,
}
use flowmind.ForEach.{BodyOutcome, body_ends, body_fails, body_waits, body_throws, IterationFailure}

-- The run of one iteration: where the body ends, its keys, and what is read of a step that is reused or
-- failed: its status, and the code and the message of its error.
pub record BodyRun : Type 0 where
  pub now : ℕ
  pub graph : RuntimeGraph
  pub steps : List GraphStep
  pub done_step_key : String
  pub body_step_keys : List String
  pub reused_status : String → StepStatus
  pub failure : String → IterationFailure

-- bodyRegion of apps/worker/src/engine/workflow-runner.ts
unfoldable pub body_region : RuntimeGraph → String → String → List String
unfolding successors collect
body_region graph entry done =
    collect (successors graph) (λ k. k == done) (suc (length (entry ∷ map (λ e. e.to) graph.edges)))
      [] entry

-- lastStatus and lastOutput
abbrev pub Last : Type 0
Last = StepStatus × Value

pub data BodyRound : Type 0 where
  goes_to : Rows → Last → String → BodyRound
  comes_to : Rows → BodyOutcome → BodyRound

-- selected ?? input.doneStepKey
abbrev pub or_done : BodyRun → Option String → String
or_done run none = run.done_step_key
or_done run (some key) = key

abbrev pub next_after : BodyRun → GraphStep → Value → Option String
next_after run step output = elim step.type [
  | try_catch ↦ edge_target run.graph "try_done" step.key
  | _ ↦ selected_next_step_key run.graph step.key output
]

-- skipUnselected
unfoldable pub skip_unselected : BodyRun → String → String → Rows → Rows
unfolding branch_skip_keys has
skip_unselected run control selected rows =
    foldl (λ rs k. skip_found (step_row_by_key run.steps k) rs) rows
      (filter (λ k. has k run.body_step_keys) (branch_skip_keys run.graph control selected))

abbrev pub is_branch : StepType → Bool
is_branch if_step = true
is_branch switch_step = true
is_branch _ = false

-- The end of a round, for a step that is over with this status and output.
abbrev pub settle_to : BodyRun → GraphStep → Rows → Last → Option String → BodyRound
settle_to run step rows last none = comes_to rows body_throws
settle_to run step rows last (some selected) =
    goes_to
      (if is_branch step.type && not (selected == run.done_step_key)
        then skip_unselected run step.key selected rows
        else rows)
      last selected

unfoldable pub settle : BodyRun → GraphStep → Rows → Last → BodyRound
unfolding selected_next_step_key skip_unselected
settle run step rows last =
    settle_to run step rows last (selected_next_step_key run.graph step.key last.1)

abbrev pub after_execute : BodyRun → GraphStep → Rows → StepOutcome → BodyRound
after_execute run step rows (thrown e) = comes_to rows (body_fails (run.failure step.key))
after_execute run step rows (completed_with status) = settle run step rows (status, step.output)
after_execute run step rows durable_wait_on_approval = comes_to rows (body_waits step.key)
after_execute run step rows (retrying_at t) = comes_to rows (body_waits step.key)

unfoldable pub execute_step : BodyRun → GraphStep → Saved → Rows → BodyRound
unfolding execute settle
execute_step run step saved rows =
    let (row, outcome) =
      execute (is_approval step.type) step.policy run.now step.handler saved.row in
    after_execute run step
      (put step.key
        (record { row = row; output = output_after step.handler step.stored saved.output }) rows)
      outcome

abbrev pub resumed_step : BodyRun → GraphStep → Saved → Rows → BodyRound
resumed_step run step saved rows =
    if is_failed saved.row.status && not (ltb saved.row.attempt_count saved.row.max_attempts)
    then comes_to rows (body_fails (run.failure step.key))
    else if is_final saved.row.status
    then settle run step rows (saved.row.status, saved.output)
    else execute_step run step saved rows

abbrev pub plain_step : BodyRun → GraphStep → Saved → Rows → BodyRound
plain_step run step saved rows =
    if is_retrying saved.row.status && not (is_due run.now saved.row.next_retry_at)
    then comes_to rows (body_waits step.key)
    else resumed_step run step (resume saved) (put step.key (resume saved) rows)

-- What follows a service, which has left a row.
abbrev pub after_service : String → Rows → (Value → BodyRound) → ServiceOutcome → BodyRound
after_service key rows next (ends_with output) = next output
after_service key rows next (waits_until t) = comes_to rows (body_waits key)
after_service key rows next service_throws = comes_to rows body_throws

abbrev pub run_service : GraphStep → Saved → Rows → (Rows → Value → BodyRound) → BodyRound
run_service step saved rows next =
    let (saved', outcome) = step.service saved in
    let rows' = put step.key saved' rows in after_service step.key rows' (next rows') outcome

abbrev pub try_catch_to : GraphStep → Saved → Rows → Last → Option String → BodyRound
try_catch_to step saved rows last none = comes_to rows body_throws
try_catch_to step saved rows last (some target) =
    if is_completed saved.row.status
    then goes_to rows last target
    else run_service step saved rows (λ rs output. goes_to rs last target)

-- A step with its row, which `ensure` has stored.
unfoldable pub own_step : BodyRun → GraphStep → Saved → Rows → Last → BodyRound
unfolding edge_target selected_next_step_key resume execute_step settle
own_step run step saved rows last = elim step.type [
  | try_catch ↦ try_catch_to step saved rows last (edge_target run.graph "try_done" step.key)
  | execute_workflow ↦ run_service step saved rows (λ rs output.
      goes_to rs (completed, output)
        (or_done run (selected_next_step_key run.graph step.key output)))
  | _ ↦ plain_step run step saved rows
]

abbrev pub reuse_or : BodyRun → GraphStep → Rows → Option Value → BodyRound → BodyRound
reuse_or run step rows (some output) own =
    goes_to rows (run.reused_status step.key, output) (or_done run (next_after run step output))
reuse_or run step rows none own = own

abbrev pub visit_found : BodyRun → Rows → Last → Option GraphStep → BodyRound
visit_found run rows last none = comes_to rows body_throws
visit_found run rows last (some step) =
    let saved = ensured step rows in
    reuse_or run step rows step.reused (own_step run step saved (put step.key saved rows) last)

-- One round of the inner loop.
unfoldable pub visit : BodyRun → Rows → Last → String → BodyRound
unfolding has ensured edge_target selected_next_step_key own_step
visit run rows last key =
    if has key run.body_step_keys
    then visit_found run rows last (step_row_by_key run.steps key)
    else comes_to rows body_throws

-- `while (nextStepKey !== input.doneStepKey)`; the outcome is none if the fuel runs out.
unfoldable pub walk : BodyRun → ℕ → Rows → Last → String → Rows × Option BodyOutcome
unfolding visit
walk run zero rows last next =
    if next == run.done_step_key then (rows, some (body_ends last.0 last.1)) else (rows, none)
walk run (suc fuel) rows last next =
    if next == run.done_step_key
    then (rows, some (body_ends last.0 last.1))
    else elim (visit run rows last next) [
      | goes_to rows' last' next' ↦ walk run fuel rows' last' next'
      | comes_to rows' outcome ↦ (rows', some outcome)
    ]

-- The iteration, from the step where it goes on.
unfoldable pub run_body : BodyRun → ℕ → Rows → String → Rows × Option BodyOutcome
unfolding walk
run_body run fuel rows key = walk run fuel rows (completed, undefined) key

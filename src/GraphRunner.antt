-- ===== src/GraphRunner.antt =====
-- apps/worker/src/engine/workflow-runner.ts: `runGraph`, the walk over the graph of a workflow, on the
-- rows of its steps under the path "root". What the database, the lease, the handlers and the services
-- of for_each, try_catch and execute_workflow answer during one run stands with each step, and
-- so does a handler's output as `sanitizePersisted` leaves it. The three services are present.
-- The context of expressions, the row of the execution, logs, metrics and audits are left out.
pub mod Stores
pub mod Rounds
pub mod Executed
pub mod Visits
pub mod Kept
pub mod Led
pub mod Reached
pub mod Ends
use flowmind.Prelude.{
  ℕ, zero, suc, String, Bool, true, false, not, ◌&&◌, ◌||◌, Option, none, some, List, ◌==◌,
  if◌then◌else◌, ltb, any, map, foldl, find,
}
use flowmind.Json.{Value, undefined, obj, bool, str, field, end, has_own, or_else}
use flowmind.RetryPolicy.{RetryPolicy}
use flowmind.StepExecutor.{
  StepStatus, completed, failed, retrying, StepRow, StepError, HandlerOutcome, returns, raises,
  StepOutcome, completed_with, retrying_at, durable_wait_on_approval, thrown, execute, skip,
  complete_wait,
}
use flowmind.LinearRunner.{ensure, is_due}
use flowmind.LinearRunner.Kept.{is_final}
use flowmind.RuntimeGraph.{RuntimeGraph, validate_runtime_graph}
use flowmind.RuntimeGraph.Planner.{
  target_of, explicit_key, selected_next_step_key, branch_skip_keys, is_terminal,
}

-- The types of steps that the walk treats on their own.
pub data StepType : Type 0 where
  for_each try_catch execute_workflow return_workflow_output : StepType
  if_step switch_step approval other_step : StepType

-- A row with its outputJson.
pub record Saved : Type 0 where
  pub row : StepRow
  pub output : Value

-- The rows by the keys of their steps.
abbrev pub Rows : Type 0
Rows = String → Option Saved

abbrev pub put : String → Saved → Rows → Rows
put key saved rows = λ k. if key == k then some saved else rows k

-- How a service ends.
pub data ServiceOutcome : Type 0 where
  ends_with : (output : Value) → ServiceOutcome
  waits_until : Option ℕ → ServiceOutcome
  service_throws : ServiceOutcome

pub record GraphStep : Type 0 where
  pub key : String
  pub type : StepType
  pub policy : RetryPolicy
  -- The output that a recovery takes over from another execution.
  pub reused : Option Value
  -- How the handler ends, its output, and what is stored of it.
  pub handler : HandlerOutcome
  pub output : Value
  pub stored : Value
  -- What the service of the step makes of its row, and how it ends.
  pub service : Saved → Saved × ServiceOutcome

-- One run: its time, the graph, `stepRows`, and what the loop finds when it comes to a key: whether the
-- execution is cancelled, and whether the lease is lost, before the step, while it executes, and
-- when the loop has ended.
pub record GraphRun : Type 0 where
  pub now : ℕ
  pub graph : RuntimeGraph
  pub steps : List GraphStep
  pub cancelled : String → Bool
  pub lease_lost : String → Bool
  pub lease_lost_after : String → Bool
  pub lease_lost_at_end : Bool

pub data GraphResult : Type 0 where
  graph_completed graph_cancelled graph_lost_lease missing_step : GraphResult
  invalid_connections invalid_graph attempts_used_up no_next_step : GraphResult
  has_failed_steps service_failed : GraphResult
  graph_waiting : Option ℕ → GraphResult
  graph_failed : StepError → GraphResult

-- What one round comes to: the rows, and the next key or the result.
pub data Round : Type 0 where
  goes_on : Rows → Option String → Round
  stops : Rows → GraphResult → Round

-- `stepRowsByKey`; the keys of a version are distinct.
abbrev pub step_row_by_key : List GraphStep → String → Option GraphStep
step_row_by_key steps key = find (λ s. s.key == key) steps

abbrev pub row_of : Option Saved → Option StepRow
row_of none = none
row_of (some saved) = some saved.row

abbrev pub output_of : Option Saved → Value
output_of none = undefined
output_of (some saved) = saved.output

-- `ensure`, with the output that is there.
unfoldable pub ensured : GraphStep → Rows → Saved
unfolding ensure
ensured step rows = record {
  row = ensure step.policy (row_of (rows step.key));
  output = output_of (rows step.key);
}

-- graph.edges.find((edge) => edge.from === key && edge.kind === kind)?.to
unfoldable pub edge_target : RuntimeGraph → String → String → Option String
edge_target graph kind key = target_of (find (λ e. e.from == key && e.kind == kind) graph.edges)

unfoldable pub next_after_reuse : RuntimeGraph → GraphStep → Value → Option String
unfolding edge_target selected_next_step_key
next_after_reuse graph step output = elim step.type [
  | for_each ↦ edge_target graph "for_each_done" step.key
  | try_catch ↦ edge_target graph "try_done" step.key
  | _ ↦ selected_next_step_key graph step.key output
]

-- isControlStep
unfoldable pub is_control_step : StepType → Bool
is_control_step if_step = true
is_control_step switch_step = true
is_control_step approval = true
is_control_step _ = false

abbrev pub is_approval : StepType → Bool
is_approval approval = true
is_approval _ = false

abbrev pub names_wait : Option String → Bool
names_wait none = false
names_wait (some s) = s == "delay" || s == "wait_until" || s == "waiting"

abbrev pub names_approval : Option String → Bool
names_approval none = false
names_approval (some s) = s == "approval_waiting"

abbrev pub has_wait_reason : Value → Bool
has_wait_reason (obj fields) = has_own "waitReason" fields
has_wait_reason _ = false

-- isIntentionalWait
unfoldable pub is_intentional_wait : Saved → Bool
unfolding has_own
is_intentional_wait saved =
    if names_approval saved.row.effect_status
    then false
    else names_wait saved.row.effect_status || has_wait_reason saved.output

abbrev pub is_retrying : StepStatus → Bool
is_retrying retrying = true
is_retrying _ = false

abbrev pub is_completed : StepStatus → Bool
is_completed completed = true
is_completed _ = false

abbrev pub is_failed : StepStatus → Bool
is_failed failed = true
is_failed _ = false

-- `completeWait`, if the wait of the step is over.
unfoldable pub resume : Saved → Saved
unfolding is_intentional_wait complete_wait or_else
resume saved =
    if is_retrying saved.row.status && is_intentional_wait saved
    then record {
      row = complete_wait saved.row;
      output = or_else saved.output (obj (field "resumed" (bool true) end));
    }
    else saved

abbrev pub skip_output : Value
skip_output = obj (field "skipped" (bool true) (field "reason" (str "branch_not_selected") end))

-- The body of the loop of `skipUnselectedBranches`.
abbrev pub skip_row : GraphStep → Saved → Rows → Rows
skip_row step saved rows =
    if is_final saved.row.status
    then put step.key saved rows
    else put step.key (record { row = skip saved.row; output = skip_output }) rows

abbrev pub skip_found : Option GraphStep → Rows → Rows
skip_found none rows = rows
skip_found (some step) rows = skip_row step (ensured step rows) rows

unfoldable pub skip_unselected_branches : GraphRun → String → String → Rows → Rows
unfolding branch_skip_keys skip ensured
skip_unselected_branches run control selected rows =
    foldl (λ rs k. skip_found (step_row_by_key run.steps k) rs) rows
      (branch_skip_keys run.graph control selected)

-- The end of a round: the next step after the output that the row has, or the end of the walk.
abbrev pub leave_for : GraphRun → String → Rows → Option String → Round
leave_for run key rows (some next) = goes_on rows (some next)
leave_for run key rows none =
    if is_terminal run.graph key then goes_on rows none else stops rows no_next_step

unfoldable pub select_next : GraphRun → String → Rows → Round
unfolding selected_next_step_key is_terminal
select_next run key rows =
    leave_for run key rows (selected_next_step_key run.graph key (output_of (rows key)))

abbrev pub skip_branches : GraphRun → GraphStep → Rows → Option String → Rows
skip_branches run step rows none = rows
skip_branches run step rows (some selected) =
    if is_control_step step.type then skip_unselected_branches run step.key selected rows else rows

abbrev pub is_return : StepType → Bool
is_return return_workflow_output = true
is_return _ = false

-- The output that the row has after `execute`.
abbrev pub output_after : HandlerOutcome → Value → Value → Value
output_after (returns result) stored before = stored
output_after (raises e) stored before = before

-- A step that is completed: either the walk ends, or branches are skipped and it goes on.
abbrev pub advance : GraphRun → GraphStep → Rows → Round
advance run step rows =
    if is_return step.type
    then goes_on rows none
    else select_next run step.key
        (skip_branches run step rows (selected_next_step_key run.graph step.key step.output))

-- What follows `execute`: the rows as it has left them, and its outcome.
abbrev pub after_execute : GraphRun → GraphStep → Rows → StepOutcome → Round
after_execute run step rows (thrown e) = stops rows (graph_failed e)
after_execute run step rows (completed_with status) =
    if run.lease_lost_after step.key then stops rows graph_lost_lease else advance run step rows
after_execute run step rows durable_wait_on_approval =
    stops rows (if run.lease_lost_after step.key then graph_lost_lease else graph_waiting none)
after_execute run step rows (retrying_at t) =
    stops rows (if run.lease_lost_after step.key then graph_lost_lease else graph_waiting (some t))

unfoldable pub execute_step : GraphRun → GraphStep → Saved → Rows → Round
unfolding execute selected_next_step_key skip_unselected_branches is_control_step select_next
execute_step run step saved rows =
    let (row, outcome) =
      execute (is_approval step.type) step.policy run.now step.handler saved.row in
    after_execute run step
      (put step.key
        (record { row = row; output = output_after step.handler step.stored saved.output }) rows)
      outcome

-- After the tests for a wait: `saved` is the row, which is over, failed or to be executed.
abbrev pub settle_step : GraphRun → GraphStep → Saved → Rows → Round
settle_step run step saved rows =
    if is_failed saved.row.status && not (ltb saved.row.attempt_count saved.row.max_attempts)
    then stops rows attempts_used_up
    else if is_final saved.row.status
    then select_next run step.key rows
    else execute_step run step saved rows

unfoldable pub plain_step : GraphRun → GraphStep → Saved → Rows → Round
unfolding resume execute_step select_next
plain_step run step saved rows =
    if is_retrying saved.row.status && not (is_due run.now saved.row.next_retry_at)
    then stops rows (graph_waiting saved.row.next_retry_at)
    else settle_step run step (resume saved) (put step.key (resume saved) rows)

-- A service runs on the row of the step.
abbrev pub after_service : String → Rows → (Value → Option String) → Saved × ServiceOutcome → Round
after_service key rows next (saved, ends_with output) = goes_on (put key saved rows) (next output)
after_service key rows next (saved, waits_until t) = stops (put key saved rows) (graph_waiting t)
after_service key rows next (saved, service_throws) = stops (put key saved rows) service_failed

-- A for_each or try_catch step that leads to `done`.
abbrev pub block_to : GraphStep → Saved → Rows → String → Round
block_to step saved rows done =
    if is_completed saved.row.status
    then goes_on rows (some done)
    else after_service step.key rows (λ output. some done) (step.service saved)

abbrev pub for_each_to : GraphStep → Saved → Rows → Option String → Option String → Round
for_each_to step saved rows (some body) (some done) =
    if body == done then stops rows invalid_connections else block_to step saved rows done
for_each_to step saved rows _ _ = stops rows invalid_connections

abbrev pub try_catch_to :
    GraphStep → Saved → Rows → Option String → Option String → Option String → Round
try_catch_to step saved rows (some body) (some caught) (some done) = block_to step saved rows done
try_catch_to step saved rows _ _ _ = stops rows invalid_connections

-- A step with its row, which `ensure` has stored.
unfoldable pub own_step : GraphRun → GraphStep → Saved → Rows → Round
unfolding edge_target plain_step selected_next_step_key
own_step run step saved rows = elim step.type [
  | for_each ↦
      for_each_to step saved rows (edge_target run.graph "for_each_body" step.key)
        (edge_target run.graph "for_each_done" step.key)
  | try_catch ↦
      try_catch_to step saved rows (edge_target run.graph "try_body" step.key)
        (edge_target run.graph "try_catch" step.key) (edge_target run.graph "try_done" step.key)
  | execute_workflow ↦
      after_service step.key rows (selected_next_step_key run.graph step.key) (step.service saved)
  | _ ↦ plain_step run step saved rows
]

abbrev pub reuse_or : GraphRun → GraphStep → Rows → Option Value → Round → Round
reuse_or run step rows (some output) own = goes_on rows (next_after_reuse run.graph step output)
reuse_or run step rows none own = own

abbrev pub visit_found : GraphRun → Rows → Option GraphStep → Round
visit_found run rows none = stops rows missing_step
visit_found run rows (some step) =
    let saved = ensured step rows in
    reuse_or run step rows step.reused (own_step run step saved (put step.key saved rows))

-- One round of the loop.
unfoldable pub visit : GraphRun → Rows → String → Round
unfolding ensured next_after_reuse own_step
visit run rows key =
    if run.cancelled key
    then stops rows graph_cancelled
    else if run.lease_lost key
    then stops rows graph_lost_lease
    else visit_found run rows (step_row_by_key run.steps key)

-- The loop `while (nextStepKey)`, which also the empty text ends; the result is none if the fuel runs out.
unfoldable pub walk : GraphRun → ℕ → Rows → Option String → Rows × Option GraphResult
unfolding visit
walk run zero rows next = elim (explicit_key next) [
  | none ↦ (rows, some graph_completed)
  | some key ↦ (rows, none)
]
walk run (suc fuel) rows next = elim (explicit_key next) [
  | none ↦ (rows, some graph_completed)
  | some key ↦ elim (visit run rows key) [
    | goes_on rows' next' ↦ walk run fuel rows' next'
    | stops rows' result ↦ (rows', some result)
  ]
]

abbrev pub keys_of : List GraphStep → List String
keys_of steps = map (λ s. s.key) steps

abbrev pub has_failed : Option Saved → Bool
has_failed none = false
has_failed (some saved) = is_failed saved.row.status

-- After the loop: the lease, and `assertNoFailedSteps` on the rows of the path "root".
unfoldable pub finish : GraphRun → Rows × Option GraphResult → Rows × Option GraphResult
finish run (rows, some graph_completed) = (
  rows,
  some (
      if run.lease_lost_at_end
      then graph_lost_lease
      else if any (λ s. has_failed (rows s.key)) run.steps
      then has_failed_steps
      else graph_completed),
)
finish run (rows, result) = (rows, result)

unfoldable pub run_graph : GraphRun → ℕ → Rows → Rows × Option GraphResult
unfolding validate_runtime_graph walk finish
run_graph run fuel rows = elim (validate_runtime_graph run.graph (keys_of run.steps)) [
  | none ↦ (rows, some invalid_graph)
  | some colours ↦ finish run (walk run fuel rows (some run.graph.entry_step_key))
]

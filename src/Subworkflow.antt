-- ===== src/Subworkflow.antt =====
-- apps/worker/src/engine/execute-workflow-execution.service.ts: `execute` of an execute_workflow step, on
-- the row of the step and its latest child. What the database answers stands with the call; whether
-- `assertSubworkflowJson` accepts a value is an argument. The transaction is one step; the queue, the
-- rows of attempts, metrics and audits are left out, and times are milliseconds.
pub mod Started
pub mod Served
use flowmind.Prelude.{
  ℕ, suc, ◌+◌, ◌*◌, String, Bool, true, false, not, ◌||◌, Option, none, some, List, [], ◌∷◌, ◌==◌,
  if◌then◌else◌, leb, ltb, has,
}
use flowmind.Json.{Value, obj, str, num, nat, field, end}
use flowmind.StepExecutor.{StepStatus, completed, failed, retrying, StepRow}
use flowmind.GraphRunner.{Saved, ServiceOutcome, ends_with, waits_until, service_throws}

-- SUBWORKFLOW_LIMITS
abbrev pub max_depth : ℕ
max_depth = 8

abbrev pub max_children_per_root : ℕ
max_children_per_root = 1000

abbrev pub recheck_milliseconds : ℕ
recheck_milliseconds = 2000

-- children[0]: its status, how long ago it was created, and what the output of the step tells of it.
pub record Child : Type 0 where
  pub id : String
  pub status : String
  pub age : ℕ
  pub output : Value

-- What `resolveTarget` comes to; of a version, the type of its trigger.
pub data Target : Type 0 where
  unavailable : Target
  version : (trigger_type : String) → Target

pub record Call : Type 0 where
  pub now : ℕ
  pub workflow_id : String
  pub timeout_seconds : ℕ
  pub max_attempts : ℕ
  pub child : Option Child
  -- The depth of the execution, the workflows that `ancestry` collects, and how many executions
  -- stand below the root.
  pub depth : ℕ
  pub ancestry : List String
  pub children : ℕ
  pub target : Target
  pub input : Value
  pub accepts : Value → Bool

-- What a call does: the row, how it ends, the depth of the child that it starts, if it starts one, and
-- whether it cancels the child.
pub record Effects : Type 0 where
  pub saved : Saved
  pub outcome : ServiceOutcome
  pub started : Option ℕ
  pub cancels : Bool

unfoldable pub wait : Call → Saved → Effects
wait call saved = record {
  saved = record saved {
    row = record saved.row {
      status = retrying;
      next_retry_at = some (call.now + recheck_milliseconds);
      effect_status = some "subworkflow_waiting";
    };
  };
  outcome = waits_until (some (call.now + recheck_milliseconds));
  started = none;
  cancels = false;
}

unfoldable pub fail : Saved → Effects
fail saved = record {
  saved = record saved {
    row = record saved.row { status = failed; next_retry_at = none; effect_status = some "failed" };
  };
  outcome = service_throws;
  started = none;
  cancels = false;
}

-- An error that leaves the row as it is.
abbrev pub throw : Saved → Effects
throw saved = record { saved = saved; outcome = service_throws; started = none; cancels = false }

-- The output of the step; the durations and the version are left out.
abbrev pub result_of : Call → Child → Value
result_of call child = obj (
    field "output" child.output (
      field "childExecutionId" (str child.id)
        (field "workflowId" (str call.workflow_id) (field "status" (str "COMPLETED") end))))

unfoldable pub complete : Call → Child → Saved → Effects
complete call child saved = record {
  saved = record {
    row = record saved.row {
      status = completed;
      next_retry_at = none;
      effect_status = some "succeeded";
    };
    output = result_of call child;
  };
  outcome = ends_with (result_of call child);
  started = none;
  cancels = false;
}

-- The transaction that creates the child, and the wait that follows it.
unfoldable pub create_child : Call → Saved → Effects
unfolding wait
create_child call saved =
    record (wait call (record saved {
      row = record saved.row {
        attempt_count = suc saved.row.attempt_count;
        max_attempts = call.max_attempts;
      };
    })) { started = some (suc call.depth) }

abbrev pub create_for : Call → Saved → Target → Effects
create_for call saved unavailable = throw saved
create_for call saved (version trigger) =
    if not (trigger == "subworkflow_trigger")
    then fail saved
    else if call.accepts call.input
    then create_child call saved
    else throw saved

unfoldable pub start : Call → Saved → Effects
unfolding fail create_child has
start call saved =
    if ltb max_depth (suc call.depth)
    then fail saved
    else if has call.workflow_id call.ancestry
    then fail saved
    else if leb max_children_per_root call.children
    then fail saved
    else create_for call saved call.target

abbrev pub used_up : Call → Saved → Bool
used_up call saved = leb call.max_attempts saved.row.attempt_count

abbrev pub is_active : String → Bool
is_active status =
    status == "PENDING" || status == "QUEUED" || status == "RUNNING" || status == "RETRYING"

abbrev pub cancelling : Effects → Effects
cancelling effects = record effects { cancels = true }

-- A child that is not at its end.
abbrev pub watch : Call → Child → Saved → Effects
watch call child saved =
    if leb (call.timeout_seconds * 1000) child.age
    then cancelling (if used_up call saved then fail saved else wait call saved)
    else wait call saved

-- A child, by its status.
unfoldable pub continue_with : Call → Child → Saved → Effects
unfolding wait fail complete start
continue_with call child saved =
    if is_active child.status
    then watch call child saved
    else if child.status == "COMPLETED"
    then if call.accepts child.output then complete call child saved else throw saved
    else if child.status == "FAILED" || child.status == "CANCELLED"
    then if used_up call saved then fail saved else start call saved
    else start call saved

abbrev pub execute_for : Call → Option Child → Saved → Effects
execute_for call none saved = start call saved
execute_for call (some child) saved = continue_with call child saved

unfoldable pub execute : Call → Saved → Effects
unfolding start continue_with
execute call saved = execute_for call call.child saved

-- What the walk over a graph calls.
abbrev pub service : Call → Saved → Saved × ServiceOutcome
service call saved = let effects = execute call saved in (effects.saved, effects.outcome)

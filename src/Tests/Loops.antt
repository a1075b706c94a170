-- ===== src/Tests/Loops.antt =====
-- Loops over items, and subworkflows.
use flowmind.Prelude.{
  ◌≤◌, ◌≡◌, refl, String, true, false, ◌⊎◌, Option, none, [], ◌∷◌, ◌==◌, arith, if◌then◌else◌,
  nat_beq, has, add,
}
use flowmind.Json.{property, Value, undefined, str, null}
use flowmind.Walk.{Reaches, collect}
use flowmind.RuntimeGraph.{RuntimeGraph, text_value, successors, outgoing_edges}
use flowmind.StepExecutor.{completed}
use flowmind.GraphRunner.{Saved}
use flowmind.LinearRunner.{ensure}
use flowmind.ForEach.{
  LoopConfig, LoopState, initial, body_ends, body_waits, body_fails, Body, limit_preview,
  end_iteration, handle_iteration_failure, iterate, run_loop,
}
use flowmind.ForEach.Accounts.{Accounts, run_loop-Accounts}
use flowmind.ForEach.Resumed.{spliced, run_loop-resumes}
use flowmind.ForEach.Body.{BodyRun, body_region, run_body}
use flowmind.ForEach.Body.Inside.{iteration_stays_in_body}
use flowmind.Subworkflow.{
  service, Child, Call, version, execute, continue_with, start, create_child, wait, fail, complete,
}
use flowmind.Subworkflow.Served.{service-Serves}
use flowmind.GraphRunner.Stores.{Serves}
use flowmind.GraphRunner.Led.{IsLed}
use flowmind.Subworkflow.Started.{IsWithin, started_child-IsWithin, call_all, children_are_bounded}
use flowmind.Tests.GraphRuns.{edge, plain, no_rows}
use flowmind.Tests.Runs.{policy}

abbrev config : LoopConfig
config = record {
  continue_on_error = true;
  max_items = 10;
  collect_results = true;
  max_results = 1;
}

abbrev two_items : LoopState
two_items = initial (str "x" ∷ str "y" ∷ [])

abbrev stringify : Value → Option String
stringify v = none

abbrev echo : Body
echo i item from = body_ends completed item

-- The second item waits.
abbrev waits_at_second : Body
waits_at_second i item from = if nat_beq i 1 then body_waits "b" else body_ends completed item

abbrev fails_at_first : Body
fails_at_first i item from =
    if nat_beq i 0
    then body_fails (record { failed_key = "b"; failed_code = none; failed_message = none })
    else body_ends completed item

-- One result is listed, and a failure is counted.
loop_runs :
    ((run_loop config stringify echo two_items).0.results_truncated ≡ true)
    × ((run_loop config stringify fails_at_first two_items).0.failures ≡ 1)
    × ((run_loop config stringify fails_at_first two_items).0.succeeded ≡ 1)
unfolding run_loop iterate end_iteration limit_preview handle_iteration_failure
loop_runs = (refl, refl, refl)

run_loop-Accounts_example : Accounts config 2 (run_loop config stringify echo two_items)
run_loop-Accounts_example =
    run_loop-Accounts config stringify echo two_items (λ i item key. tt)
      (record {
        at = refl;
        size = refl;
        counted = refl;
        few_results = omega arith;
        few_errors = omega arith;
      })
      (omega arith)

run_loop-resumes_example :
    let s' = (run_loop config stringify waits_at_second two_items).0 in
    (run_loop config stringify echo s').1
    ≡ (run_loop config stringify
        (spliced s'.next_index s'.current_step_key waits_at_second echo)
        two_items).1
unfolding run_loop iterate end_iteration limit_preview
run_loop-resumes_example = run_loop-resumes config stringify waits_at_second echo two_items refl

-- A loop with the body "b".
abbrev loop_graph : RuntimeGraph
loop_graph = record {
  entry_step_key = "l";
  edges = edge "l" "b" "for_each_body" ∷ edge "l" "d" "for_each_done" ∷ edge "b" "d" "next" ∷ [];
  terminal_step_keys = none;
}

abbrev body_run : BodyRun
body_run = record {
  now = 0;
  graph = loop_graph;
  steps = plain "b" ∷ plain "d" ∷ [];
  done_step_key = "d";
  body_step_keys = "b" ∷ [];
  reused_status = λ k. completed;
  failure = λ k. record { failed_key = k; failed_code = none; failed_message = none };
}

iteration_stays_in_body_example :
    ((run_body body_run 3 no_rows "b").0 "d" ≡ none)
    ⊎ Reaches (successors loop_graph) (λ j. j == "d") "b" "d"
unfolding body_region collect successors outgoing_edges has add
iteration_stays_in_body_example = iteration_stays_in_body body_run 3 no_rows "b" "b" "d" refl

abbrev call : Call
call = record {
  now = 100;
  workflow_id = "w";
  timeout_seconds = 120;
  max_attempts = 2;
  child = none;
  depth = 2;
  ancestry = "v" ∷ [];
  children = 4;
  target = version "subworkflow_trigger";
  input = null;
  accepts = λ v. true;
}

abbrev fresh_row : Saved
fresh_row = record { row = ensure policy none; output = undefined }

abbrev failed_child : Child
failed_child = record { id = "c"; status = "FAILED"; age = 5; output = null }

-- The second child is started after the first has failed, and no third.
three_calls :
    (call_all
      ((call, failed_child) ∷ (call, failed_child) ∷ (call, failed_child) ∷ [])
      false
      fresh_row).1
    ≡ 2
unfolding ensure call_all execute continue_with start create_child wait fail complete has
three_calls = refl

started_child-IsWithin_example : IsWithin call fresh_row (execute call fresh_row) 3
unfolding execute start create_child wait has
started_child-IsWithin_example = started_child-IsWithin call fresh_row 3 refl

children_are_bounded_example :
    (call_all ((call, failed_child) ∷ (call, failed_child) ∷ []) false fresh_row).1 ≤ 2
unfolding ensure
children_are_bounded_example =
    children_are_bounded 2 ((call, failed_child) ∷ (call, failed_child) ∷ []) fresh_row
      (omega arith) ((refl, refl), ((refl, refl), tt)) refl

service-Serves_example : Serves (IsLed loop_graph "l") (service call fresh_row)
unfolding ensure text_value property
service-Serves_example = service-Serves loop_graph "l" call fresh_row tt

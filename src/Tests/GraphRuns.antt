-- ===== src/Tests/GraphRuns.antt =====
-- Runs over a graph.
use flowmind.Prelude.{
  ◌≡◌, ◌≢◌, refl, String, false, ◌⊎◌, Option, none, some, [], ◌∷◌, arith, has, add, delete,
}
use flowmind.Json.{Value, undefined, str, obj, field, end, get, has_own, or_else, property}
use flowmind.RetryPolicy.{next_retry_at, multiplier}
use flowmind.Walk.Search.{Leads}
use flowmind.RuntimeGraph.{
  RuntimeEdge, RuntimeGraph, text_value, successors, outgoing_edges, descendants,
  validate_runtime_graph, assert_acyclic, check, leave, is_invalid,
}
use flowmind.RuntimeGraph.Planner.{
  selected_next_step_key, next_by_decision, is_terminal, branch_skip_keys, skip_edges,
}
use flowmind.Walk.{descend}
use flowmind.StepExecutor.{
  StepStatus, completed, skipped, classify, retryable_texts, non_retryable_texts, next_attempt,
  begin, after_result, after_error, execute, skip, complete_wait,
}
use flowmind.LinearRunner.{ensure}
use flowmind.GraphRunner.{
  Saved, Rows, put, GraphStep, GraphRun, if_step, other_step, waits_until, graph_completed, ensured,
  edge_target, next_after_reuse, is_control_step, is_intentional_wait, resume,
  skip_unselected_branches, select_next, execute_step, plain_step, own_step, visit, walk, finish,
  run_graph,
}
use flowmind.GraphRunner.Stores.{unlimited}
use flowmind.GraphRunner.Kept.{run_graph_keeps}
use flowmind.GraphRunner.Reached.{changed_is_reachable}
use flowmind.GraphRunner.Ends.{run_graph_ends}
use flowmind.Tests.Runs.{policy, succeeds, done_row}

abbrev pub edge : String → String → String → RuntimeEdge
edge a b kind = record { from = a; to = b; kind = kind; label = none; case_key = none }

-- An if step with two branches, which meet.
abbrev diamond : RuntimeGraph
diamond = record {
  entry_step_key = "a";
  edges =
      edge "a" "b" "if_true"
      ∷ edge "a" "c" "if_false"
      ∷ edge "b" "d" "next"
      ∷ edge "c" "d" "next"
      ∷ [];
  terminal_step_keys = none;
}

abbrev pub plain : String → GraphStep
plain key = record {
  key = key;
  type = other_step;
  policy = policy;
  reused = none;
  handler = succeeds;
  output = undefined;
  stored = undefined;
  service = λ saved. (saved, waits_until none);
}

abbrev to_b : Value
to_b = obj (field "nextStepKey" (str "b") end)

abbrev run : GraphRun
run = record {
  now = 0;
  graph = diamond;
  steps =
      record (plain "a") { type = if_step; output = to_b; stored = to_b }
      ∷ plain "b"
      ∷ plain "c"
      ∷ plain "d"
      ∷ [];
  cancelled = λ k. false;
  lease_lost = λ k. false;
  lease_lost_after = λ k. false;
  lease_lost_at_end = false;
}

abbrev pub no_rows : Rows
no_rows k = none

abbrev status_at : String → Rows → Option StepStatus
status_at k rows = elim (rows k) [ none ↦ none | some saved ↦ some saved.row.status ]

-- The branch that is not selected is skipped, and the step where both meet is executed.
diamond_run :
    let (after, result) = run_graph run 5 no_rows in
    (result ≡ some graph_completed)
    × (status_at "b" after ≡ some completed)
    × (status_at "c" after ≡ some skipped)
    × (status_at "d" after ≡ some completed)
unfolding classify retryable_texts non_retryable_texts next_attempt begin after_result after_error
    execute skip complete_wait ensure multiplier next_retry_at text_value property get
    selected_next_step_key next_by_decision is_terminal branch_skip_keys skip_edges descendants
    successors outgoing_edges descend has add delete validate_runtime_graph assert_acyclic check
    leave is_invalid has_own or_else ensured edge_target next_after_reuse is_control_step
    is_intentional_wait resume skip_unselected_branches select_next execute_step plain_step own_step
    visit walk finish run_graph
diamond_run = (refl, refl, refl, refl)

-- The first step is done in an earlier run.
abbrev done_before : Saved
done_before = record { row = done_row; output = to_b }

run_graph_keeps_example :
    (saved' : Saved) × ((run_graph run 5 (put "a" done_before no_rows)).0 "a" ≡ some saved')
    × (unlimited saved' ≡ unlimited done_before)
run_graph_keeps_example =
    run_graph_keeps run 5 (put "a" done_before no_rows) "a" done_before refl refl

changed_is_reachable_example :
    ((run_graph run 5 no_rows).0 "c" ≡ none) ⊎ Leads (successors diamond) "a" "c"
unfolding text_value property successors outgoing_edges has
changed_is_reachable_example =
    changed_is_reachable run 5 no_rows "c" ((refl, tt), ((tt, tt), ((tt, tt), ((tt, tt), tt))))
      (λ k. tt) (λ saved l. l, (λ saved l. l, (λ saved l. l, (λ saved l. l, tt))))

run_graph_ends_example : (run_graph run 5 no_rows).1 ≢ none
unfolding text_value property successors outgoing_edges has
run_graph_ends_example =
    run_graph_ends run 5 no_rows ((refl, tt), ((tt, tt), ((tt, tt), ((tt, tt), tt)))) (λ k. tt)
      (λ saved l. l, (λ saved l. l, (λ saved l. l, (λ saved l. l, tt)))) (omega arith)

-- ===== src/Subworkflow/Served.antt =====
-- The service of execute_workflow steps as the walk over a graph calls it.
use flowmind.Prelude.{
  suc, ◌*◌, String, not, ◌||◌, Bool-cases, inl, inr, Option, none, some, ◌==◌, leb, ltb, has,
}
use flowmind.Json.{property, get}
use flowmind.RuntimeGraph.{RuntimeGraph, text_value}
use flowmind.GraphRunner.{Saved}
use flowmind.GraphRunner.Stores.{Serves}
use flowmind.GraphRunner.Led.{IsLed}
use flowmind.Subworkflow.{
  max_depth, max_children_per_root, Child, Target, unavailable, version, Call, Effects, wait, fail,
  complete, create_child, create_for, start, used_up, is_active, watch, continue_with, execute_for,
  execute, service,
}

module _ (graph : RuntimeGraph) (k : String) (call : Call) (saved : Saved)
    (led : IsLed graph k saved.output) where
  abbrev Leaves : Effects → Type 0
  Leaves effects = Serves (IsLed graph k) (effects.saved, effects.outcome)

  Leaves-create_for : (target : Target) → Leaves (create_for call saved target)
  unfolding create_child wait fail
  Leaves-create_for unavailable = led
  Leaves-create_for (version trigger) = elim (Bool-cases (not (trigger == "subworkflow_trigger"))) [
    | inl other ↦ rw other led
    | inr invocable ↦ rw invocable (elim (Bool-cases (call.accepts call.input)) [
      | inl accepted ↦ rw accepted led
      | inr refused ↦ rw refused led
    ])
  ]

  Leaves-start : Leaves (start call saved)
  unfolding start fail
  Leaves-start = elim (Bool-cases (ltb max_depth (suc call.depth))) [
    | inl deep ↦ rw deep led
    | inr shallow ↦ rw shallow (elim (Bool-cases (has call.workflow_id call.ancestry)) [
      | inl again ↦ rw again led
      | inr new ↦ rw new (elim (Bool-cases (leb max_children_per_root call.children)) [
        | inl many ↦ rw many led
        | inr few ↦ rw few (Leaves-create_for call.target)
      ])
    ])
  ]

  Leaves-watch : (child : Child) → Leaves (watch call child saved)
  unfolding wait fail
  Leaves-watch child = elim (Bool-cases (leb (call.timeout_seconds * 1000) child.age)) [
    | inr young ↦ rw young led
    | inl old ↦
        rw old (elim (Bool-cases (used_up call saved)) [
          | inl used ↦ rw used led
          | inr left ↦ rw left led
        ])
  ]

  Leaves-complete : (child : Child) → Leaves (complete call child saved)
  unfolding complete text_value property get
  Leaves-complete child = (tt, tt)

  Leaves-continue_with : (child : Child) → Leaves (continue_with call child saved)
  unfolding continue_with fail
  Leaves-continue_with child = elim (Bool-cases (is_active child.status)) [
    | inl active ↦ rw active (Leaves-watch child)
    | inr over ↦ rw over (elim (Bool-cases (child.status == "COMPLETED")) [
      | inl completed ↦ rw completed (elim (Bool-cases (call.accepts child.output)) [
        | inl fits ↦ rw fits (Leaves-complete child)
        | inr large ↦ rw large led
      ])
      | inr open' ↦
          rw open' (elim (Bool-cases (child.status == "FAILED" || child.status == "CANCELLED")) [
            | inr unknown ↦ rw unknown Leaves-start
            | inl ended ↦ rw ended (elim (Bool-cases (used_up call saved)) [
              | inl used ↦ rw used led
              | inr left ↦ rw left Leaves-start
            ])
          ])
    ])
  ]

  Leaves-execute_for : (child : Option Child) → Leaves (execute_for call child saved)
  Leaves-execute_for none = Leaves-start
  Leaves-execute_for (some child) = Leaves-continue_with child

-- The service of an execute_workflow step makes no output that names a step: if the output of the row
-- names no step but a successor of its own, so do the output that the service stores and the one with which
-- it ends, as the walk over a graph asks of its services.
pub service-Serves :
    (graph : RuntimeGraph) (k : String) (call : Call) (saved : Saved)
    → IsLed graph k saved.output
    → Serves (IsLed graph k) (service call saved)
unfolding execute
service-Serves graph k call saved led = Leaves-execute_for graph k call saved led call.child

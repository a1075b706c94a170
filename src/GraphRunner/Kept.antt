-- ===== src/GraphRunner/Kept.antt =====
-- What a run over a graph keeps.
use flowmind.Prelude.{
  ℕ, zero, suc, String, ◌≡◌, refl, sym, ap, ◌∙◌, subst, true, Bool-cases, inl, inr, Option, none,
  some, Option-cases, ◌==◌, eq_iff, arith,
}
use flowmind.Json.{Value}
use flowmind.RuntimeGraph.{validate_runtime_graph}
use flowmind.RuntimeGraph.Planner.{explicit_key}
use flowmind.GraphRunner.{
  StepType, other_step, Saved, Rows, put, ServiceOutcome, ends_with, waits_until, service_throws,
  GraphStep, GraphRun, GraphResult, Round, goes_on, stops, step_row_by_key, visit, walk, keys_of,
  finish, graph_completed, graph_cancelled, graph_lost_lease, missing_step, invalid_connections,
  invalid_graph, attempts_used_up, no_next_step, has_failed_steps, service_failed, graph_waiting,
  graph_failed, run_graph,
}
use flowmind.GraphRunner.Stores.{
  protects, unlimited, Serves, Outputs, IsStore, Stores, nothing, store, Comes, Round-cases,
}
use flowmind.GraphRunner.Visits.{visit-Comes}

-- No condition on outputs and keys.
abbrev AnyOutput : String → Value → Type 0
AnyOutput k output = Unit

abbrev AnyNext : String → Option String → Type 0
AnyNext k next = Unit

Serves-any : (end' : Saved × ServiceOutcome) → Serves (λ v. Unit) end'
Serves-any (saved, ends_with output) = (tt, tt)
Serves-any (saved, waits_until t) = tt
Serves-any (saved, service_throws) = tt

outputs-any : (run : GraphRun) → Outputs run AnyOutput AnyNext
outputs-any run = record {
  blank = λ k. tt;
  skips = λ k. tt;
  resumed = λ k. tt;
  stored = λ k step e. tt;
  reused = λ k step output e r. tt;
  serves = λ k step saved e l. Serves-any (step.service saved);
  selects = λ k output l. tt;
  leads = λ kind k. tt;
  ends = λ k. tt;
}

-- The type of the step of a key.
abbrev pub type_of : Option GraphStep → StepType
type_of none = other_step
type_of (some step) = step.type

abbrev rows_after : Round → Rows
rows_after (goes_on rows next) = rows
rows_after (stops rows result) = rows

module _ (run : GraphRun) (k : String) where
  abbrev IsOver : Saved → Type 0
  IsOver saved = protects (type_of (step_row_by_key run.steps k)) saved.row.status ≡ true

  -- A row that is over stays, but for the limit of its attempts.
  abbrev Stays : Rows → Rows → Type 0
  Stays before after =
      (saved : Saved)
      → before k ≡ some saved
      → IsOver saved
      → (saved' : Saved) × (after k ≡ some saved') × (unlimited saved' ≡ unlimited saved)

  Stays-refl : (rows : Rows) → Stays rows rows
  Stays-refl rows saved e o = (saved, e, refl)

  Stays-trans : (before mid after : Rows) → Stays before mid → Stays mid after → Stays before after
  Stays-trans before mid after f g saved e o =
      let (saved', e', same) = f saved e o in
      let over =
        subst (λ s. protects (type_of (step_row_by_key run.steps k)) s.row.status ≡ true) (sym same)
          o in
      let (saved'', e'', same') = g saved' e' over in (saved'', e'', same' ∙ same)

  Stays-put :
      (key : String) (rows : Rows) (step : GraphStep) (saved : Saved)
      → IsStore run AnyOutput AnyNext key rows step saved
      → Stays rows (put step.key saved rows)
  Stays-put key rows step saved h before e o = elim (Bool-cases (step.key == k)) [
    | inr other ↦ rw other (before, e, refl)
    | inl same ↦
        let key≡ : step.key ≡ k = ground (arith, eq_iff step.key k) in
        let typed = subst (λ j. step_row_by_key run.steps j ≡ some step) key≡ h.found in
        rw same (
          saved,
          refl,
          h.kept before (ap rows key≡ ∙ e)
              (subst (λ t. protects (type_of t) before.row.status ≡ true) typed o),
        )
  ]

  Stays-Stores :
      (key : String) {before after : Rows}
      → Stores run AnyOutput AnyNext key before after
      → Stays before after
  Stays-Stores key {before = rows} nothing = Stays-refl rows
  Stays-Stores key {before = rows} {after = after} (store step saved h rest) =
      Stays-trans rows (put step.key saved rows) after (Stays-put key rows step saved h)
        (Stays-Stores key rest)

  Stays-Comes :
      (key : String) (rows : Rows) (round : Round)
      → Comes run AnyOutput AnyNext key rows round
      → Stays rows (rows_after round)
  Stays-Comes key rows (goes_on rows' next) (s, n) = Stays-Stores key s
  Stays-Comes key rows (stops rows' result) s = Stays-Stores key s

  Stays-visit : (rows : Rows) (key : String) → Stays rows (rows_after (visit run rows key))
  Stays-visit rows key =
      Stays-Comes key rows (visit run rows key)
        (visit-Comes run AnyOutput AnyNext (outputs-any run) rows key (λ j. tt))

  Stays-walk :
      (fuel : ℕ) (rows : Rows) (next : Option String) → Stays rows (walk run fuel rows next).0
  unfolding walk
  Stays-walk zero rows next = elim (Option-cases (explicit_key next)) [
    | inl e ↦ rw (walk, e) (Stays-refl rows)
    | inr (key, e) ↦ rw (walk, e) (Stays-refl rows)
  ]
  Stays-walk (suc fuel) rows next = elim (Option-cases (explicit_key next)) [
    | inl e ↦ rw (walk, e) (Stays-refl rows)
    | inr (key, e) ↦ elim (Round-cases (visit run rows key)) [
      | inl (rows', next', v) ↦
          rw (walk, e, v)
            (Stays-trans rows rows' (walk run fuel rows' next').0
              (subst (λ r. Stays rows (rows_after r)) v (Stays-visit rows key))
              (Stays-walk fuel rows' next'))
      | inr (rows', result, v) ↦
          rw (walk, e, v) (subst (λ r. Stays rows (rows_after r)) v (Stays-visit rows key))
    ]
  ]

  pub finish-rows : (after : Rows × Option GraphResult) → (finish run after).0 ≡ after.0
  unfolding finish
  finish-rows (rows, none) = refl
  finish-rows (rows, some graph_completed) = refl
  finish-rows (rows, some graph_cancelled) = refl
  finish-rows (rows, some graph_lost_lease) = refl
  finish-rows (rows, some missing_step) = refl
  finish-rows (rows, some invalid_connections) = refl
  finish-rows (rows, some invalid_graph) = refl
  finish-rows (rows, some attempts_used_up) = refl
  finish-rows (rows, some no_next_step) = refl
  finish-rows (rows, some has_failed_steps) = refl
  finish-rows (rows, some service_failed) = refl
  finish-rows (rows, some (graph_waiting t)) = refl
  finish-rows (rows, some (graph_failed e)) = refl

-- However a run over a graph ends, a step whose row was completed has the same row and output after it, but
-- for the limit of its attempts, and so has a step whose row was skipped, unless the step is a for_each
-- or a try_catch; an execute_workflow step is left out, whose service is called again.
pub run_graph_keeps :
    (run : GraphRun) (fuel : ℕ) (rows : Rows) (k : String) (saved : Saved)
    → rows k ≡ some saved
    → protects (type_of (step_row_by_key run.steps k)) saved.row.status ≡ true
    → (saved' : Saved) × ((run_graph run fuel rows).0 k ≡ some saved')
      × (unlimited saved' ≡ unlimited saved)
unfolding run_graph
run_graph_keeps run fuel rows k saved e o =
    elim (Option-cases (validate_runtime_graph run.graph (keys_of run.steps))) [
      | inl bad ↦ rw (run_graph, bad) (saved, e, refl)
      | inr (colours, good) ↦
          rw (run_graph, good, finish-rows run k)
            (Stays-walk run k fuel rows (some run.graph.entry_step_key) saved e o)
    ]

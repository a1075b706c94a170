-- ===== src/ForEach/Body/Inside.antt =====
-- Which rows an iteration of a loop can change.
use flowmind.Prelude.{
  ℕ, zero, suc, String, ◌≡◌, refl, subst, sym, ◌∙◌, true, false, not, ◌&&◌, Bool-cases, inl, inr,
  ◌⊎◌, ◌↔◌, Option, none, some, Option-cases, List, [], ◌∷◌, ◌==◌, eq_iff, arith, ltb, foldl,
  filter, has, has-cons,
}
use flowmind.Json.{Value, undefined}
use flowmind.StepExecutor.{
  completed, StepOutcome, completed_with, retrying_at, durable_wait_on_approval, thrown, execute,
}
use flowmind.LinearRunner.{is_due}
use flowmind.LinearRunner.Kept.{is_final}
use flowmind.Walk.{Reaches}
use flowmind.Walk.Collect.{collect_iff}
use flowmind.RuntimeGraph.{RuntimeGraph, successors}
use flowmind.RuntimeGraph.Acyclic.{targets, successors-targets}
use flowmind.RuntimeGraph.Planner.{selected_next_step_key, branch_skip_keys}
use flowmind.GraphRunner.{
  StepType, for_each, try_catch, execute_workflow, return_workflow_output, if_step, switch_step,
  approval, other_step, Saved, Rows, put, ServiceOutcome, ends_with, waits_until, service_throws,
  GraphStep, step_row_by_key, ensured, is_retrying, is_completed, is_approval, is_failed, resume,
  output_after, skip_found,
}
use flowmind.GraphRunner.Stores.{find-key}
use flowmind.ForEach.{BodyOutcome}
use flowmind.ForEach.Body.{
  BodyRun, body_region, Last, BodyRound, goes_to, comes_to, or_done, skip_unselected, is_branch,
  settle_to, settle, after_execute, execute_step, resumed_step, plain_step, after_service,
  run_service, try_catch_to, own_step, reuse_or, visit, walk, run_body,
}

-- The region of the body holds the keys that a path from its first step reaches without the last.
body_region_iff :
    (graph : RuntimeGraph) (entry done y : String)
    → (has y (body_region graph entry done) ≡ true)
      ↔ Reaches (successors graph) (λ j. j == done) entry y
unfolding body_region
body_region_iff graph entry done y =
    collect_iff (successors graph) (λ j. j == done) (entry ∷ targets graph)
      (λ k m h e. ground (arith, successors-targets graph k m, has-cons m entry (targets graph)))
      entry y (ground (arith, has-cons entry entry (targets graph), eq_iff entry entry))

abbrev rows_after : BodyRound → Rows
rows_after (goes_to rows last next) = rows
rows_after (comes_to rows outcome) = rows

Round-cases :
    (round : BodyRound)
    → ((rows : Rows) × (last : Last) × (next : String) × (round ≡ goes_to rows last next))
      ⊎ ((rows : Rows) × (outcome : BodyOutcome) × (round ≡ comes_to rows outcome))
Round-cases (goes_to rows last next) = inl (rows, last, next, refl)
Round-cases (comes_to rows outcome) = inr (rows, outcome, refl)

module _ (run : BodyRun) (k : String) (outside : has k run.body_step_keys ≡ false) where
  abbrev Apart : GraphStep → Type 0
  Apart step = (step.key == k) ≡ false

  abbrev Same : Rows → Rows → Type 0
  Same before after = after k ≡ before k

  apart : (key : String) → has key run.body_step_keys ≡ true → (key == k) ≡ false
  apart key h = elim (Bool-cases (key == k)) [
    | inl same ↦
        absurd
          (clash (subst (λ j. has j run.body_step_keys ≡ true) (ground (arith, eq_iff key k)) h))
    | inr other ↦ other
  ]
    where
      clash : has k run.body_step_keys ≡ true → ⊥
      clash h = cc

  Same-put :
      (step : GraphStep) (saved : Saved) (rows : Rows)
      → Apart step
      → Same rows (put step.key saved rows)
  Same-put step saved rows a = rw a refl

  Same-skip_found :
      (key : String) (rows : Rows)
      → has key run.body_step_keys ≡ true
      → Same rows (skip_found (step_row_by_key run.steps key) rows)
  Same-skip_found key rows h = elim (Option-cases (step_row_by_key run.steps key)) [
    | inl e ↦ rw e refl
    | inr (step, e) ↦
        let a = subst (λ j. (j == k) ≡ false) (sym (find-key run.steps key step e)) (apart key h) in
        rw e (elim (Bool-cases (is_final (ensured step rows).row.status)) [
          | inl on ↦ rw (on, a) refl
          | inr off ↦ rw (off, a) refl
        ])
  ]

  Same-skip_all :
      (ks : List String) (rows : Rows)
      → Same rows (
          foldl
            (λ rs j. skip_found (step_row_by_key run.steps j) rs)
            rows
            (filter (λ j. has j run.body_step_keys) ks))
  Same-skip_all [] rows = refl
  Same-skip_all (j ∷ ks) rows = elim (Bool-cases (has j run.body_step_keys)) [
    | inl in' ↦ rw in' (
        Same-skip_all ks (skip_found (step_row_by_key run.steps j) rows)
        ∙ Same-skip_found j rows in')
    | inr out ↦ rw out (Same-skip_all ks rows)
  ]

  Same-settle :
      (step : GraphStep) (rows : Rows) (last : Last)
      → Same rows (rows_after (settle run step rows last))
  unfolding settle skip_unselected
  Same-settle step rows last = settled (selected_next_step_key run.graph step.key last.1)
    where
      settled : (o : Option String) → Same rows (rows_after (settle_to run step rows last o))
      settled none = refl
      settled (some selected) =
          elim (Bool-cases (is_branch step.type && not (selected == run.done_step_key))) [
            | inl branch ↦
                rw branch (Same-skip_all (branch_skip_keys run.graph step.key selected) rows)
            | inr plain ↦ rw plain refl
          ]

  Same-after_execute :
      (step : GraphStep) (rows : Rows) (outcome : StepOutcome)
      → Same rows (rows_after (after_execute run step rows outcome))
  Same-after_execute step rows (thrown e) = refl
  Same-after_execute step rows (completed_with status) = Same-settle step rows (status, step.output)
  Same-after_execute step rows durable_wait_on_approval = refl
  Same-after_execute step rows (retrying_at t) = refl

  Same-execute_step :
      (step : GraphStep) (saved : Saved) (rows : Rows)
      → Apart step
      → Same rows (rows_after (execute_step run step saved rows))
  unfolding execute_step
  Same-execute_step step saved rows a =
      let after = execute (is_approval step.type) step.policy run.now step.handler saved.row in
      let saved' : Saved = record {
        row = after.0;
        output = output_after step.handler step.stored saved.output;
      } in
      Same-after_execute step (put step.key saved' rows) after.1 ∙ Same-put step saved' rows a

  Same-resumed_step :
      (step : GraphStep) (saved : Saved) (rows : Rows)
      → Apart step
      → Same rows (rows_after (resumed_step run step saved rows))
  Same-resumed_step step saved rows a =
      elim (Bool-cases
        (is_failed saved.row.status && not (ltb saved.row.attempt_count saved.row.max_attempts))) [
          | inl over ↦ rw over refl
          | inr left ↦ rw left (elim (Bool-cases (is_final saved.row.status)) [
            | inl done ↦ rw done (Same-settle step rows (saved.row.status, saved.output))
            | inr going ↦ rw going (Same-execute_step step saved rows a)
          ])
        ]

  Same-plain_step :
      (step : GraphStep) (saved : Saved) (rows : Rows)
      → Apart step
      → Same rows (rows_after (plain_step run step saved rows))
  Same-plain_step step saved rows a =
      elim (Bool-cases
        (is_retrying saved.row.status && not (is_due run.now saved.row.next_retry_at))) [
          | inl early ↦ rw early refl
          | inr due ↦ rw due (
              Same-resumed_step step (resume saved) (put step.key (resume saved) rows) a
              ∙ Same-put step (resume saved) rows a)
        ]

  Same-service :
      (key : String) (rows : Rows) (next : Value → BodyRound) (outcome : ServiceOutcome)
      → ((output : Value) → Same rows (rows_after (next output)))
      → Same rows (rows_after (after_service key rows next outcome))
  Same-service key rows next (ends_with output) h = h output
  Same-service key rows next (waits_until t) h = refl
  Same-service key rows next service_throws h = refl

  Same-run_service :
      (step : GraphStep) (saved : Saved) (rows : Rows) (next : Rows → Value → BodyRound)
      → Apart step
      → ((rs : Rows) (output : Value) → Same rs (rows_after (next rs output)))
      → Same rows (rows_after (run_service step saved rows next))
  Same-run_service step saved rows next a h =
      let after = step.service saved in
      let rows' = put step.key after.0 rows in
      Same-service step.key rows' (next rows') after.1 (h rows') ∙ Same-put step after.0 rows a

  Same-try_catch_to :
      (step : GraphStep) (saved : Saved) (rows : Rows) (last : Last) (target : Option String)
      → Apart step
      → Same rows (rows_after (try_catch_to step saved rows last target))
  Same-try_catch_to step saved rows last none a = refl
  Same-try_catch_to step saved rows last (some target) a =
      elim (Bool-cases (is_completed saved.row.status)) [
        | inl is ↦ rw is refl
        | inr isnt ↦ rw isnt (
            Same-run_service step saved rows (λ rs output. goes_to rs last target) a
              (λ rs output. refl))
      ]

  Same-own_step :
      (t : StepType) (step : GraphStep) (saved : Saved) (rows : Rows) (last : Last)
      → Apart step
      → Same rows (rows_after (own_step run (record step { type = t }) saved rows last))
  unfolding own_step
  Same-own_step try_catch step saved rows last a =
      Same-try_catch_to (record step { type = try_catch }) saved rows last _ a
  Same-own_step execute_workflow step saved rows last a =
      Same-run_service (record step { type = execute_workflow }) saved rows
        (λ rs output.
          goes_to rs (completed, output)
            (or_done run (selected_next_step_key run.graph step.key output)))
        a (λ rs output. refl)
  Same-own_step for_each step saved rows last a =
      Same-plain_step (record step { type = for_each }) saved rows a
  Same-own_step return_workflow_output step saved rows last a =
      Same-plain_step (record step { type = return_workflow_output }) saved rows a
  Same-own_step if_step step saved rows last a =
      Same-plain_step (record step { type = if_step }) saved rows a
  Same-own_step switch_step step saved rows last a =
      Same-plain_step (record step { type = switch_step }) saved rows a
  Same-own_step approval step saved rows last a =
      Same-plain_step (record step { type = approval }) saved rows a
  Same-own_step other_step step saved rows last a =
      Same-plain_step (record step { type = other_step }) saved rows a

  Same-reuse_or :
      (step : GraphStep) (rows : Rows) (reused : Option Value) (own : BodyRound)
      → Same rows (rows_after own)
      → Same rows (rows_after (reuse_or run step rows reused own))
  Same-reuse_or step rows none own h = h
  Same-reuse_or step rows (some output) own h = refl

  Same-visit :
      (rows : Rows) (last : Last) (key : String) → Same rows (rows_after (visit run rows last key))
  unfolding visit
  Same-visit rows last key = elim (Bool-cases (has key run.body_step_keys)) [
    | inr out ↦ rw out refl
    | inl in' ↦ rw in' (elim (Option-cases (step_row_by_key run.steps key)) [
      | inl e ↦ rw e refl
      | inr (step, e) ↦
          let a =
            subst (λ j. (j == k) ≡ false) (sym (find-key run.steps key step e)) (apart key in') in
          let saved = ensured step rows in
          rw e (
            Same-reuse_or step rows step.reused
              (own_step run step saved (put step.key saved rows) last)
              (Same-own_step step.type step saved (put step.key saved rows) last a
                ∙ Same-put step saved rows a))
    ])
  ]

  Same-walk :
      (fuel : ℕ) (rows : Rows) (last : Last) (next : String)
      → Same rows (walk run fuel rows last next).0
  unfolding walk
  Same-walk zero rows last next = elim (Bool-cases (next == run.done_step_key)) [
    | inl at ↦ rw (walk, at) refl
    | inr on ↦ rw (walk, on) refl
  ]
  Same-walk (suc fuel) rows last next = elim (Bool-cases (next == run.done_step_key)) [
    | inl at ↦ rw (walk, at) refl
    | inr on ↦ elim (Round-cases (visit run rows last next)) [
      | inl (rows', last', next', v) ↦
          rw (walk, on, v)
            (Same-walk fuel rows' last' next'
              ∙ subst (λ r. Same rows (rows_after r)) v (Same-visit rows last next))
      | inr (rows', outcome, v) ↦
          rw (walk, on, v) (subst (λ r. Same rows (rows_after r)) v (Same-visit rows last next))
    ]
  ]

-- An iteration changes no row but those of the steps of the body.
iteration_stays_inside :
    (run : BodyRun) (fuel : ℕ) (rows : Rows) (key k : String)
    → has k run.body_step_keys ≡ false
    → (run_body run fuel rows key).0 k ≡ rows k
unfolding run_body
iteration_stays_inside run fuel rows key k outside =
    Same-walk run k outside fuel rows (completed, undefined) key

-- If the keys of the body are those that `bodyRegion` collects, then an iteration changes no row under its
-- path but those of the steps that the edges of the graph lead to from the first step of the body without
-- passing the step where the body ends, whatever the outputs, the recoveries and the services say.
pub iteration_stays_in_body :
    (run : BodyRun) (fuel : ℕ) (rows : Rows) (entry key k : String)
    → run.body_step_keys ≡ body_region run.graph entry run.done_step_key
    → ((run_body run fuel rows key).0 k ≡ rows k)
      ⊎ Reaches (successors run.graph) (λ j. j == run.done_step_key) entry k
iteration_stays_in_body run fuel rows entry key k region =
    elim (Bool-cases (has k run.body_step_keys)) [
      | inr out ↦ inl (iteration_stays_inside run fuel rows key k out)
      | inl in' ↦ inr (
          (body_region_iff run.graph entry run.done_step_key k).0
            (subst (λ ks. has k ks ≡ true) region in'))
    ]

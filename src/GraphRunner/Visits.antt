-- ===== src/GraphRunner/Visits.antt =====
-- One round of the walk: its services, and its parts put together.
use flowmind.Prelude.{
  String, ◌≡◌, refl, subst, false, Bool-cases, inl, inr, Option, none, some, Option-cases, ◌==◌,
}
use flowmind.Json.{Value}
use flowmind.RuntimeGraph.Planner.{selected_next_step_key}
use flowmind.GraphRunner.{
  StepType, for_each, try_catch, execute_workflow, return_workflow_output, if_step, switch_step,
  approval, other_step, Saved, Rows, put, ServiceOutcome, ends_with, waits_until, service_throws,
  GraphStep, GraphRun, Round, step_row_by_key, output_of, ensured, edge_target, next_after_reuse,
  is_completed, after_service, block_to, for_each_to, try_catch_to, own_step, reuse_or, visit_found,
  visit,
}
use flowmind.GraphRunner.Stores.{
  protects, Serves, Outputs, find-key, nothing, Comes, AllLed-put, put_self,
}
use flowmind.GraphRunner.Rounds.{Fine, Passes, IsFound, one, ensured-IsStore, refound}
use flowmind.GraphRunner.Executed.{service-IsStore, plain_step-Passes, stored}

module _ (run : GraphRun) (Led : String → Value → Type 0) (Next : String → Option String → Type 0)
    (outputs : Outputs run Led Next) where
  abbrev FineRows : Rows → Type 0
  FineRows rows = Fine run Led Next outputs rows

  abbrev PassesAt : GraphStep → Rows → Round → Type 0
  PassesAt step rows round = Passes run Led Next outputs step.key rows round

  abbrev FoundAt : GraphStep → Type 0
  FoundAt step = IsFound run Led Next outputs step

  -- A service whose row is not protected.
  after_service-Passes :
      (step : GraphStep) (rows : Rows) (saved : Saved) (next : Value → Option String)
      (end' : Saved × ServiceOutcome)
      → FoundAt step
      → rows step.key ≡ some saved
      → protects step.type saved.row.status ≡ false
      → Serves (Led step.key) end'
      → ((output : Value) → Led step.key output → Next step.key (next output))
      → PassesAt step rows (after_service step.key rows next end')
  after_service-Passes step rows saved next (saved', ends_with output) f e p (led, out) n = (
    one run Led Next outputs step.key rows step saved'
        (service-IsStore run Led Next outputs step rows saved saved' f e p led),
    n output out,
  )
  after_service-Passes step rows saved next (saved', waits_until t) f e p led n =
      one run Led Next outputs step.key rows step saved'
        (service-IsStore run Led Next outputs step rows saved saved' f e p led)
  after_service-Passes step rows saved next (saved', service_throws) f e p led n =
      one run Led Next outputs step.key rows step saved'
        (service-IsStore run Led Next outputs step rows saved saved' f e p led)

  block_to-Passes :
      (step : GraphStep) (saved : Saved) (rows : Rows) (done : String)
      → FoundAt step
      → FineRows rows
      → rows step.key ≡ some saved
      → (is_completed saved.row.status ≡ false → protects step.type saved.row.status ≡ false)
      → Next step.key (some done)
      → PassesAt step rows (block_to step saved rows done)
  block_to-Passes step saved rows done f h e p n =
      elim (Bool-cases (is_completed saved.row.status)) [
        | inl is ↦ rw is (nothing, n)
        | inr isnt ↦ rw isnt (
            after_service-Passes step rows saved (λ output. some done) (step.service saved) f e
              (p isnt)
              (outputs.serves step.key step saved f
                (subst (λ o. Led step.key (output_of o)) e (h step.key)))
              (λ output l. n))
      ]

  for_each_to-Passes :
      (step : GraphStep) (saved : Saved) (rows : Rows) (body target : Option String)
      → FoundAt step
      → FineRows rows
      → rows step.key ≡ some saved
      → (is_completed saved.row.status ≡ false → protects step.type saved.row.status ≡ false)
      → Next step.key target
      → PassesAt step rows (for_each_to step saved rows body target)
  for_each_to-Passes step saved rows (some body) (some target) f h e p n =
      elim (Bool-cases (body == target)) [
        | inl same ↦ rw same nothing
        | inr other ↦ rw other (block_to-Passes step saved rows target f h e p n)
      ]
  for_each_to-Passes step saved rows none target f h e p n = nothing
  for_each_to-Passes step saved rows (some body) none f h e p n = nothing

  try_catch_to-Passes :
      (step : GraphStep) (saved : Saved) (rows : Rows) (body caught target : Option String)
      → FoundAt step
      → FineRows rows
      → rows step.key ≡ some saved
      → (is_completed saved.row.status ≡ false → protects step.type saved.row.status ≡ false)
      → Next step.key target
      → PassesAt step rows (try_catch_to step saved rows body caught target)
  try_catch_to-Passes step saved rows (some body) (some caught) (some target) f h e p n =
      block_to-Passes step saved rows target f h e p n
  try_catch_to-Passes step saved rows none caught target f h e p n = nothing
  try_catch_to-Passes step saved rows (some body) none target f h e p n = nothing
  try_catch_to-Passes step saved rows (some body) (some caught) none f h e p n = nothing

  own_typed-Passes :
      (t : StepType) (step : GraphStep) (saved : Saved) (rows : Rows)
      → FoundAt (record step { type = t })
      → FineRows rows
      → rows step.key ≡ some saved
      → PassesAt step rows (own_step run (record step { type = t }) saved rows)
  unfolding own_step
  own_typed-Passes for_each step saved rows f h e =
      for_each_to-Passes (record step { type = for_each }) saved rows _
        (edge_target run.graph "for_each_done" step.key) f h e (λ p. p)
        (outputs.leads "for_each_done" step.key)
  own_typed-Passes try_catch step saved rows f h e =
      try_catch_to-Passes (record step { type = try_catch }) saved rows _ _
        (edge_target run.graph "try_done" step.key) f h e (λ p. p)
        (outputs.leads "try_done" step.key)
  own_typed-Passes execute_workflow step saved rows f h e =
      after_service-Passes (record step { type = execute_workflow }) rows saved
        (selected_next_step_key run.graph step.key) (step.service saved) f e refl
        (outputs.serves step.key (record step { type = execute_workflow }) saved f
          (subst (λ o. Led step.key (output_of o)) e (h step.key)))
        (outputs.selects step.key)
  own_typed-Passes return_workflow_output step saved rows f h e =
      plain_step-Passes run Led Next outputs (record step { type = return_workflow_output }) saved
        rows f h e
  own_typed-Passes if_step step saved rows f h e =
      plain_step-Passes run Led Next outputs (record step { type = if_step }) saved rows f h e
  own_typed-Passes switch_step step saved rows f h e =
      plain_step-Passes run Led Next outputs (record step { type = switch_step }) saved rows f h e
  own_typed-Passes approval step saved rows f h e =
      plain_step-Passes run Led Next outputs (record step { type = approval }) saved rows f h e
  own_typed-Passes other_step step saved rows f h e =
      plain_step-Passes run Led Next outputs (record step { type = other_step }) saved rows f h e

  next_after_reuse-Next :
      (t : StepType) (step : GraphStep) (output : Value)
      → Led step.key output
      → Next step.key (next_after_reuse run.graph (record step { type = t }) output)
  unfolding next_after_reuse
  next_after_reuse-Next for_each step output l = outputs.leads "for_each_done" step.key
  next_after_reuse-Next try_catch step output l = outputs.leads "try_done" step.key
  next_after_reuse-Next execute_workflow step output l = outputs.selects step.key output l
  next_after_reuse-Next return_workflow_output step output l = outputs.selects step.key output l
  next_after_reuse-Next if_step step output l = outputs.selects step.key output l
  next_after_reuse-Next switch_step step output l = outputs.selects step.key output l
  next_after_reuse-Next approval step output l = outputs.selects step.key output l
  next_after_reuse-Next other_step step output l = outputs.selects step.key output l

  reuse_or-Passes :
      (step : GraphStep) (rows : Rows) (reused : Option Value) (own : Round)
      → FoundAt step
      → step.reused ≡ reused
      → PassesAt step rows own
      → PassesAt step rows (reuse_or run step rows reused own)
  reuse_or-Passes step rows none own f e p = p
  reuse_or-Passes step rows (some output) own f e p = (
    nothing,
    next_after_reuse-Next step.type step output (outputs.reused step.key step output f e),
  )

  visit_step-Passes :
      (step : GraphStep) (rows : Rows)
      → FoundAt step
      → FineRows rows
      → PassesAt step rows (visit_found run rows (some step))
  visit_step-Passes step rows f h =
      let first = ensured-IsStore run Led Next outputs step.key rows step f (inl refl) h in
      let saved = ensured step rows in
      reuse_or-Passes step rows step.reused (own_step run step saved (put step.key saved rows)) f
        refl
        (stored run Led Next outputs step rows saved _ first (
          own_typed-Passes step.type step saved (put step.key saved rows) f
            (AllLed-put run Led Next step.key saved rows h first.led)
            (put_self run Led Next step.key saved rows)))

  -- A round stores rows that it may store, and the key that follows is one that may follow.
  pub visit-Comes :
      (rows : Rows) (key : String)
      → FineRows rows
      → Comes run Led Next key rows (visit run rows key)
  unfolding visit
  visit-Comes rows key h = elim (Bool-cases (run.cancelled key)) [
    | inl stopped ↦ rw stopped nothing
    | inr going ↦ rw going (elim (Bool-cases (run.lease_lost key)) [
      | inl lost ↦ rw lost nothing
      | inr owned ↦ rw owned (elim (Option-cases (step_row_by_key run.steps key)) [
        | inl missing ↦ rw missing nothing
        | inr (step, e) ↦ rw e (
            subst (λ k. Comes run Led Next k rows (visit_found run rows (some step)))
              (find-key run.steps key step e)
              (visit_step-Passes step rows (refound run Led Next outputs key step e) h))
      ])
    ])
  ]

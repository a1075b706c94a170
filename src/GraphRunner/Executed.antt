-- ===== src/GraphRunner/Executed.antt =====
-- What a round of the walk makes of a step that it executes.
use flowmind.Prelude.{
  String, ◌≡◌, refl, sym, ap, ◌∙◌, subst, true, false, not, ◌&&◌, Bool-cases, inl, inr, ◌⊎◌, Option,
  some, arith, ltb,
}
use flowmind.Json.{Value, undefined, null, obj, bool, num, str, arr, field, end, or_else}
use flowmind.StepExecutor.{
  StepStatus, HandlerOutcome, returns, raises, StepOutcome, completed_with, retrying_at,
  durable_wait_on_approval, thrown, execute,
}
use flowmind.LinearRunner.{is_due}
use flowmind.LinearRunner.Kept.{is_final}
use flowmind.RuntimeGraph.Planner.{selected_next_step_key}
use flowmind.GraphRunner.{
  StepType, Saved, Rows, put, GraphStep, GraphRun, Round, is_approval, output_of, is_retrying,
  is_intentional_wait, is_failed, resume, skip_branches, is_return, output_after, advance,
  after_execute, execute_step, settle_step, plain_step,
}
use flowmind.GraphRunner.Stores.{
  some_injective, protects, unlimited, Outputs, IsStore, nothing, prepend, AllLed-put, put_self,
  Stores-AllLed,
}
use flowmind.GraphRunner.Rounds.{
  protects-final, final-not-retrying, Fine, Passes, IsFound, one, fresh-IsStore,
  skip_branches-Stores, select_next-Passes,
}

or_else-cases : (v d : Value) → (or_else v d ≡ v) ⊎ (or_else v d ≡ d)
unfolding or_else
or_else-cases undefined d = inr refl
or_else-cases null d = inr refl
or_else-cases (bool b) d = inl refl
or_else-cases (num n) d = inl refl
or_else-cases (str s) d = inl refl
or_else-cases (arr vs) d = inl refl
or_else-cases (obj fs) d = inl refl

open_protects : (t : StepType) (s : StepStatus) → is_final s ≡ false → protects t s ≡ false
open_protects t s off = elim (Bool-cases (protects t s)) [
  | inl on ↦ cc (protects-final t s on)
  | inr off' ↦ off'
]

retrying-open : (s : StepStatus) → is_retrying s ≡ true → is_final s ≡ false
retrying-open s h = elim (Bool-cases (is_final s)) [
  | inl on ↦ cc (final-not-retrying s on)
  | inr off ↦ off
]

module _ (run : GraphRun) (Led : String → Value → Type 0) (Next : String → Option String → Type 0)
    (outputs : Outputs run Led Next) where
  abbrev FineRows : Rows → Type 0
  FineRows rows = Fine run Led Next outputs rows

  abbrev PassesAt : GraphStep → Rows → Round → Type 0
  PassesAt step rows round = Passes run Led Next outputs step.key rows round

  abbrev FoundAt : GraphStep → Type 0
  FoundAt step = IsFound run Led Next outputs step

  advance-Passes :
      (step : GraphStep) (rows : Rows) → FineRows rows → PassesAt step rows (advance run step rows)
  advance-Passes step rows h = elim (Bool-cases (is_return step.type)) [
    | inl is ↦ rw is (nothing, outputs.ends step.key)
    | inr isnt ↦ rw isnt (
        let selected = selected_next_step_key run.graph step.key step.output in
        let skipping = skip_branches-Stores run Led Next outputs step rows selected h in
        prepend run Led Next _ skipping (
          select_next-Passes run Led Next outputs step.key (skip_branches run step rows selected)
            (Stores-AllLed run Led Next skipping h)))
  ]

  after_execute-Passes :
      (step : GraphStep) (rows : Rows) (outcome : StepOutcome)
      → FineRows rows
      → PassesAt step rows (after_execute run step rows outcome)
  after_execute-Passes step rows (thrown e) h = nothing
  after_execute-Passes step rows durable_wait_on_approval h = nothing
  after_execute-Passes step rows (retrying_at t) h = nothing
  after_execute-Passes step rows (completed_with status) h =
      elim (Bool-cases (run.lease_lost_after step.key)) [
        | inl lost ↦ rw lost nothing
        | inr owned ↦ rw owned (advance-Passes step rows h)
      ]

  output_after-Led :
      (k : String) (handler : HandlerOutcome) (stored before : Value)
      → Led k stored
      → Led k before
      → Led k (output_after handler stored before)
  output_after-Led k (returns result) stored before s b = s
  output_after-Led k (raises e) stored before s b = b

  -- A put is a store, and what follows it goes on from there.
  pub stored :
      (step : GraphStep) (rows : Rows) (saved : Saved) (round : Round)
      → IsStore run Led Next step.key rows step saved
      → PassesAt step (put step.key saved rows) round
      → PassesAt step rows round
  stored step rows saved round h p =
      prepend run Led Next round (one run Led Next outputs step.key rows step saved h) p

  still_open :
      (step : GraphStep) (rows : Rows) (saved : Saved)
      → rows step.key ≡ some saved
      → is_final saved.row.status ≡ false
      → (before : Saved) → rows step.key ≡ some before
      → protects step.type before.row.status ≡ false
  still_open step rows saved e off before e' =
      subst (λ s. protects step.type s.row.status ≡ false) (some_injective (sym e ∙ e'))
        (open_protects step.type saved.row.status off)

  execute_step-Passes :
      (step : GraphStep) (saved : Saved) (rows : Rows)
      → FoundAt step
      → FineRows rows
      → rows step.key ≡ some saved
      → is_final saved.row.status ≡ false
      → PassesAt step rows (execute_step run step saved rows)
  unfolding execute_step
  execute_step-Passes step saved rows f h e off =
      let after = execute (is_approval step.type) step.policy run.now step.handler saved.row in
      let led =
        output_after-Led step.key step.handler step.stored saved.output
          (outputs.stored step.key step f)
          (subst (λ o. Led step.key (output_of o)) e (h step.key)) in
      let saved' : Saved = record {
        row = after.0;
        output = output_after step.handler step.stored saved.output;
      } in
      stored step rows saved' _
        (fresh-IsStore run Led Next outputs step.key rows step saved' f (inl refl)
          (still_open step rows saved e off) led)
        (after_execute-Passes step (put step.key saved' rows) after.1
          (AllLed-put run Led Next step.key saved' rows h led))

  settle_step-Passes :
      (step : GraphStep) (saved : Saved) (rows : Rows)
      → FoundAt step
      → FineRows rows
      → rows step.key ≡ some saved
      → PassesAt step rows (settle_step run step saved rows)
  settle_step-Passes step saved rows f h e =
      elim (Bool-cases
        (is_failed saved.row.status && not (ltb saved.row.attempt_count saved.row.max_attempts))) [
          | inl over ↦ rw over nothing
          | inr left ↦ rw left (elim (Bool-cases (is_final saved.row.status)) [
            | inl done ↦ rw done (select_next-Passes run Led Next outputs step.key rows h)
            | inr going ↦ rw going (execute_step-Passes step saved rows f h e going)
          ])
        ]

  resumed-Led :
      (step : GraphStep) (saved : Saved)
      → Led step.key saved.output
      → Led step.key (or_else saved.output (obj (field "resumed" (bool true) end)))
  resumed-Led step saved h =
      elim (or_else-cases saved.output (obj (field "resumed" (bool true) end))) [
        | inl e ↦ rw e h
        | inr e ↦ rw e (outputs.resumed step.key)
      ]

  pub service-IsStore :
      (step : GraphStep) (rows : Rows) (saved saved' : Saved)
      → FoundAt step
      → rows step.key ≡ some saved
      → protects step.type saved.row.status ≡ false
      → Led step.key saved'.output
      → IsStore run Led Next step.key rows step saved'
  service-IsStore step rows saved saved' f e p led =
      fresh-IsStore run Led Next outputs step.key rows step saved' f (inl refl)
        (λ before e'.
          subst (λ s. protects step.type s.row.status ≡ false) (some_injective (sym e ∙ e')) p)
        led

  -- A row that is stored again as it is.
  same-IsStore :
      (step : GraphStep) (rows : Rows) (saved : Saved)
      → FoundAt step
      → FineRows rows
      → rows step.key ≡ some saved
      → IsStore run Led Next step.key rows step saved
  same-IsStore step rows saved f h e = record {
    found = f;
    near = inl refl;
    kept = λ before e' p. ap unlimited (some_injective (sym e ∙ e'));
    led = subst (λ o. Led step.key (output_of o)) e (h step.key);
  }

  resume-IsStore :
      (step : GraphStep) (rows : Rows) (saved : Saved)
      → FoundAt step
      → FineRows rows
      → rows step.key ≡ some saved
      → IsStore run Led Next step.key rows step (resume saved)
  unfolding resume
  resume-IsStore step rows saved f h e =
      elim (Bool-cases (is_retrying saved.row.status && is_intentional_wait saved)) [
        | inr not_yet ↦ rw not_yet (same-IsStore step rows saved f h e)
        | inl over ↦ rw over (
            fresh-IsStore run Led Next outputs step.key rows step _ f (inl refl)
              (still_open step rows saved e (retrying-open saved.row.status (ground arith)))
              (resumed-Led step saved (subst (λ o. Led step.key (output_of o)) e (h step.key))))
      ]

  pub plain_step-Passes :
      (step : GraphStep) (saved : Saved) (rows : Rows)
      → FoundAt step
      → FineRows rows
      → rows step.key ≡ some saved
      → PassesAt step rows (plain_step run step saved rows)
  unfolding plain_step
  plain_step-Passes step saved rows f h e =
      elim (Bool-cases
        (is_retrying saved.row.status && not (is_due run.now saved.row.next_retry_at))) [
          | inl early ↦ rw early nothing
          | inr due ↦ rw due (
              let again = resume-IsStore step rows saved f h e in
              stored step rows (resume saved) _ again (
                settle_step-Passes step (resume saved) (put step.key (resume saved) rows) f
                  (AllLed-put run Led Next step.key (resume saved) rows h again.led)
                  (put_self run Led Next step.key (resume saved) rows)))
        ]

-- ===== src/GraphRunner/Stores.antt =====
-- What a round of the walk stores: a sequence of rows of steps that the round may write, for any
-- predicate of the outputs of a step and of the key that follows it.
use flowmind.Prelude.{
  String, ◌≡◌, refl, subst, Bool, true, false, Bool-cases, inl, inr, ◌⊎◌, Option, none, some, List,
  [], ◌∷◌, ◌==◌, eq_iff, eq_refl, arith,
}
use flowmind.Json.{Value, undefined, obj, bool, field, end}
use flowmind.StepExecutor.{StepStatus}
use flowmind.LinearRunner.Kept.{is_final}
use flowmind.Walk.Cycle.{Cycles}
use flowmind.RuntimeGraph.{successors}
use flowmind.RuntimeGraph.Planner.{selected_next_step_key}
use flowmind.GraphRunner.{
  StepType, for_each, try_catch, execute_workflow, Saved, Rows, put, ServiceOutcome, ends_with,
  GraphStep, GraphRun, GraphResult, Round, goes_on, stops, step_row_by_key, output_of, edge_target,
  is_completed, skip_output,
}

-- A row of the step with this status is not written again, but for the limit of its attempts.
abbrev pub protects : StepType → StepStatus → Bool
protects execute_workflow status = false
protects for_each status = is_completed status
protects try_catch status = is_completed status
protects _ status = is_final status

-- The row and its output without the limit of the attempts.
abbrev pub unlimited : Saved → Saved
unlimited saved = record saved { row = record saved.row { max_attempts = 0 } }

-- What a service stores, and the output with which it ends.
abbrev pub Serves : (Value → Type 0) → Saved × ServiceOutcome → Type 0
Serves P (saved, ends_with output) = P saved.output × P output
Serves P (saved, _) = P saved.output

-- The outputs that a run can come across, and the keys that follow them.
pub record Outputs (run : GraphRun) (Led : String → Value → Type 0)
    (Next : String → Option String → Type 0) : Type 1 where
  pub blank : (k : String) → Led k undefined
  pub skips : (k : String) → Led k skip_output
  pub resumed : (k : String) → Led k (obj (field "resumed" (bool true) end))
  pub stored :
      (k : String) (step : GraphStep)
      → step_row_by_key run.steps k ≡ some step
      → Led step.key step.stored
  pub reused :
      (k : String) (step : GraphStep) (output : Value)
      → step_row_by_key run.steps k ≡ some step
      → step.reused ≡ some output
      → Led step.key output
  pub serves :
      (k : String) (step : GraphStep) (saved : Saved)
      → step_row_by_key run.steps k ≡ some step
      → Led step.key saved.output
      → Serves (Led step.key) (step.service saved)
  pub selects :
      (k : String) (output : Value)
      → Led k output
      → Next k (selected_next_step_key run.graph k output)
  pub leads : (kind k : String) → Next k (edge_target run.graph kind k)
  pub ends : (k : String) → Next k none

pub some_injective {ℓ} : {A : Type ℓ} {a b : A} → some a ≡ some b → a ≡ b
some_injective e = cc

pub find-key :
    (steps : List GraphStep) (k : String) (step : GraphStep)
    → step_row_by_key steps k ≡ some step
    → step.key ≡ k
find-key [] k step e = cc
find-key (s ∷ steps) k step e = elim (Bool-cases (s.key == k)) [
  | inl same ↦
      subst (λ x. x.key ≡ k) (some_injective (rw same at e)) (ground (arith, eq_iff s.key k))
  | inr other ↦ find-key steps k step (rw other at e)
]

module _ (run : GraphRun) (Led : String → Value → Type 0)
    (Next : String → Option String → Type 0) where
  -- A row that a round for the step of `key` may store.
  pub record IsStore (key : String) (rows : Rows) (step : GraphStep) (saved : Saved) : Type 0 where
    pub found : step_row_by_key run.steps step.key ≡ some step
    pub near : (step.key ≡ key) ⊎ Cycles (successors run.graph) key step.key
    pub kept :
        (before : Saved)
        → rows step.key ≡ some before
        → protects step.type before.row.status ≡ true
        → unlimited saved ≡ unlimited before
    pub led : Led step.key saved.output

  pub data Stores (key : String) : Rows → Rows → Type 0 where
    nothing : {rows : Rows} → Stores key rows rows
    store :
        {rows rows' : Rows} (step : GraphStep) (saved : Saved)
        → IsStore key rows step saved
        → Stores key (put step.key saved rows) rows'
        → Stores key rows rows'

  -- What a round comes to.
  abbrev pub Comes : String → Rows → Round → Type 0
  Comes key rows (goes_on rows' next) = Stores key rows rows' × Next key next
  Comes key rows (stops rows' result) = Stores key rows rows'

  pub Stores-append :
      {key : String} {rows mid after : Rows}
      → Stores key rows mid
      → Stores key mid after
      → Stores key rows after
  Stores-append nothing t = t
  Stores-append (store step saved h rest) t = store step saved h (Stores-append rest t)

  pub prepend :
      {key : String} {rows mid : Rows} (round : Round)
      → Stores key rows mid
      → Comes key mid round
      → Comes key rows round
  prepend (goes_on rows' next) s (t, n) = (Stores-append s t, n)
  prepend (stops rows' result) s t = Stores-append s t

  abbrev pub AllLed : Rows → Type 0
  AllLed rows = (k : String) → Led k (output_of (rows k))

  pub AllLed-put :
      (key : String) (saved : Saved) (rows : Rows)
      → AllLed rows
      → Led key saved.output
      → AllLed (put key saved rows)
  AllLed-put key saved rows h one k = elim (Bool-cases (key == k)) [
    | inl same ↦ rw same (subst (λ j. Led j saved.output) (ground (arith, eq_iff key k)) one)
    | inr other ↦ rw other (h k)
  ]

  pub Stores-AllLed :
      {key : String} {rows after : Rows} → Stores key rows after → AllLed rows → AllLed after
  Stores-AllLed nothing h = h
  Stores-AllLed {rows = rows} (store step saved ok rest) h =
      Stores-AllLed rest (AllLed-put step.key saved rows h ok.led)

  pub put_self : (key : String) (saved : Saved) (rows : Rows) → put key saved rows key ≡ some saved
  put_self key saved rows = rw (eq_refl key) refl

pub Round-cases :
    (round : Round)
    → ((rows : Rows) × (next : Option String) × (round ≡ goes_on rows next))
      ⊎ ((rows : Rows) × (result : GraphResult) × (round ≡ stops rows result))
Round-cases (goes_on rows next) = inl (rows, next, refl)
Round-cases (stops rows result) = inr (rows, result, refl)

-- ===== src/GraphRunner/Rounds.antt =====
-- What each part of a round of the walk stores, and which key follows it.
use flowmind.Prelude.{
  String, ◌≡◌, refl, sym, subst, true, false, Bool-cases, inl, inr, ◌⊎◌, Option, none, some,
  Option-cases, List, [], ◌∷◌, eq_refl, arith, foldl, has, has-cons,
}
use flowmind.Json.{Value}
use flowmind.StepExecutor.{StepStatus, pending, running, completed, failed, skipped, retrying}
use flowmind.LinearRunner.{ensure}
use flowmind.LinearRunner.Kept.{is_final}
use flowmind.Walk.Cycle.{Cycles}
use flowmind.RuntimeGraph.{successors}
use flowmind.RuntimeGraph.Planner.{branch_skip_keys, is_terminal}
use flowmind.RuntimeGraph.Skipping.{branch_skip_keys-Cycles}
use flowmind.GraphRunner.{
  StepType, for_each, try_catch, execute_workflow, return_workflow_output, if_step, switch_step,
  approval, other_step, Saved, Rows, put, GraphStep, GraphRun, Round, step_row_by_key, output_of,
  ensured, is_retrying, skip_row, skip_found, skip_unselected_branches, leave_for, select_next,
  skip_branches, is_control_step,
}
use flowmind.GraphRunner.Stores.{
  protects, unlimited, Outputs, find-key, IsStore, Stores, nothing, store, Comes, Stores-append,
  AllLed, Stores-AllLed,
}

pub protects-final : (t : StepType) (s : StepStatus) → protects t s ≡ true → is_final s ≡ true
protects-final for_each completed h = refl
protects-final for_each pending h = h
protects-final for_each running h = h
protects-final for_each failed h = h
protects-final for_each retrying h = h
protects-final for_each skipped h = refl
protects-final try_catch completed h = refl
protects-final try_catch pending h = h
protects-final try_catch running h = h
protects-final try_catch failed h = h
protects-final try_catch retrying h = h
protects-final try_catch skipped h = refl
protects-final execute_workflow s h = cc
protects-final return_workflow_output s h = h
protects-final if_step s h = h
protects-final switch_step s h = h
protects-final approval s h = h
protects-final other_step s h = h

pub final-not-retrying : (s : StepStatus) → is_final s ≡ true → is_retrying s ≡ false
final-not-retrying completed h = refl
final-not-retrying skipped h = refl
final-not-retrying pending h = refl
final-not-retrying running h = refl
final-not-retrying failed h = refl
final-not-retrying retrying h = cc

module _ (run : GraphRun) (Led : String → Value → Type 0) (Next : String → Option String → Type 0)
    (outputs : Outputs run Led Next) where
  abbrev pub Fine : Rows → Type 0
  Fine rows = AllLed run Led Next rows

  abbrev pub Stored : String → Rows → Rows → Type 0
  Stored key before after = Stores run Led Next key before after

  abbrev pub Passes : String → Rows → Round → Type 0
  Passes key rows round = Comes run Led Next key rows round

  abbrev Near : String → String → Type 0
  Near key k = (k ≡ key) ⊎ Cycles (successors run.graph) key k

  abbrev pub IsFound : GraphStep → Type 0
  IsFound step = step_row_by_key run.steps step.key ≡ some step

  pub one :
      (key : String) (rows : Rows) (step : GraphStep) (saved : Saved)
      → IsStore run Led Next key rows step saved
      → Stored key rows (put step.key saved rows)
  one key rows step saved h = store step saved h nothing

  ensured-kept :
      (step : GraphStep) (rows : Rows) (before : Saved)
      → rows step.key ≡ some before
      → unlimited (ensured step rows) ≡ unlimited before
  unfolding ensured ensure
  ensured-kept step rows before e = rw e refl

  ensured-Led :
      (step : GraphStep) (rows : Rows) → Fine rows → Led step.key (ensured step rows).output
  unfolding ensured
  ensured-Led step rows h = h step.key

  pub ensured-IsStore :
      (key : String) (rows : Rows) (step : GraphStep)
      → IsFound step
      → Near key step.key
      → Fine rows
      → IsStore run Led Next key rows step (ensured step rows)
  ensured-IsStore key rows step found near h = record {
    found = found;
    near = near;
    kept = λ before e p. ensured-kept step rows before e;
    led = ensured-Led step rows h;
  }

  -- A store over a row that is not finished.
  pub fresh-IsStore :
      (key : String) (rows : Rows) (step : GraphStep) (saved : Saved)
      → IsFound step
      → Near key step.key
      → ((before : Saved)
          → rows step.key ≡ some before
          → protects step.type before.row.status ≡ false)
      → Led step.key saved.output
      → IsStore run Led Next key rows step saved
  fresh-IsStore key rows step saved found near fresh led = record {
    found = found;
    near = near;
    kept = λ before e p. cc (fresh before e);
    led = led;
  }

  ensured-fresh :
      (step : GraphStep) (rows : Rows)
      → is_final (ensured step rows).row.status ≡ false
      → (before : Saved) → rows step.key ≡ some before
      → protects step.type before.row.status ≡ false
  ensured-fresh step rows off before e = elim (Bool-cases (protects step.type before.row.status)) [
    | inl on ↦ absurd (
        clash (
          subst (λ s. is_final s.row.status ≡ true) (sym (ensured-kept step rows before e))
            (protects-final step.type before.row.status on)))
    | inr off' ↦ off'
  ]
    where
      clash : is_final (ensured step rows).row.status ≡ true → ⊥
      clash on = cc

  -- The branches that are not selected.
  skip_row-Stores :
      (key : String) (rows : Rows) (step : GraphStep)
      → IsFound step
      → Near key step.key
      → Fine rows
      → Stored key rows (skip_row step (ensured step rows) rows)
  skip_row-Stores key rows step found near h =
      elim (Bool-cases (is_final (ensured step rows).row.status)) [
        | inl on ↦ rw on (one key rows step _ (ensured-IsStore key rows step found near h))
        | inr off ↦ rw off (
            one key rows step _ (
              fresh-IsStore key rows step _ found near (ensured-fresh step rows off)
                (outputs.skips step.key)))
      ]

  pub refound :
      (k : String) (step : GraphStep) → step_row_by_key run.steps k ≡ some step → IsFound step
  refound k step e =
      subst (λ j. step_row_by_key run.steps j ≡ some step) (sym (find-key run.steps k step e)) e

  skip_found-Stores :
      (key k : String) (rows : Rows)
      → Cycles (successors run.graph) key k
      → Fine rows
      → Stored key rows (skip_found (step_row_by_key run.steps k) rows)
  skip_found-Stores key k rows path h = elim (Option-cases (step_row_by_key run.steps k)) [
    | inl e ↦ rw e nothing
    | inr (step, e) ↦ rw e (
        skip_row-Stores key rows step (refound k step e)
          (inr (subst (Cycles (successors run.graph) key) (sym (find-key run.steps k step e)) path))
          h)
  ]

  skip_all-Stores :
      (key : String) (ks : List String) (rows : Rows)
      → ((k : String) → has k ks ≡ true → Cycles (successors run.graph) key k)
      → Fine rows
      → Stored key rows (foldl (λ rs k. skip_found (step_row_by_key run.steps k) rs) rows ks)
  skip_all-Stores key [] rows paths h = nothing
  skip_all-Stores key (k ∷ ks) rows paths h =
      let first =
        skip_found-Stores key k rows (paths k (ground (arith, has-cons k k ks, eq_refl k))) h in
      Stores-append run Led Next first (
        skip_all-Stores key ks (skip_found (step_row_by_key run.steps k) rows)
          (λ j m. paths j (ground (arith, has-cons j k ks))) (Stores-AllLed run Led Next first h))

  skip_unselected-Stores :
      (key selected : String) (rows : Rows)
      → Fine rows
      → Stored key rows (skip_unselected_branches run key selected rows)
  unfolding skip_unselected_branches
  skip_unselected-Stores key selected rows h =
      skip_all-Stores key (branch_skip_keys run.graph key selected) rows
        (branch_skip_keys-Cycles run.graph key selected) h

  pub skip_branches-Stores :
      (step : GraphStep) (rows : Rows) (selected : Option String)
      → Fine rows
      → Stored step.key rows (skip_branches run step rows selected)
  skip_branches-Stores step rows none h = nothing
  skip_branches-Stores step rows (some selected) h = elim (Bool-cases (is_control_step step.type)) [
    | inl is ↦ rw is (skip_unselected-Stores step.key selected rows h)
    | inr isnt ↦ rw isnt nothing
  ]

  leave_for-Passes :
      (key : String) (rows : Rows) (next : Option String)
      → Next key next
      → Passes key rows (leave_for run key rows next)
  leave_for-Passes key rows (some next) n = (nothing, n)
  leave_for-Passes key rows none n = elim (Bool-cases (is_terminal run.graph key)) [
    | inl is ↦ rw is (nothing, n)
    | inr isnt ↦ rw isnt nothing
  ]

  pub select_next-Passes :
      (key : String) (rows : Rows) → Fine rows → Passes key rows (select_next run key rows)
  unfolding select_next
  select_next-Passes key rows h =
      leave_for-Passes key rows _ (outputs.selects key (output_of (rows key)) (h key))

-- ===== src/LinearRunner/Laws.antt =====
-- What a run that completes has done.
use flowmind.Prelude.{
  ℕ, ◌&&◌, ◌≡◌, ◌≢◌, refl, subst, Bool, true, false, Bool-cases, inl, inr, ◌⊎◌, Option, none, some,
  List, [], ◌∷◌, if◌then◌else◌, ltb, All,
}
use flowmind.StepExecutor.{
  StepStatus, pending, running, completed, failed, skipped, retrying, StepRow, HandlerOutcome,
  HandlerResult, settle, later, is_retryable, classify, returns, raises, execute, skip,
  after_result, after_error, begin,
}
use flowmind.LinearRunner.{
  LinearStep, RunResult, run_completed, run_waiting, run_cancelled, run_lost_lease,
  attempts_used_up, run_failed, has_failed_steps, ensure, Turn, goes_on, stops, after_execute, act,
  is_due, turn_row, turn, run_steps, checked, run,
}
use flowmind.LinearRunner.Kept.{IsFinished, turn-cases}

-- A handler that returns says that the step is completed.
abbrev pub Completes : HandlerOutcome → Type 0
Completes (returns result) = result.status ≡ completed
Completes (raises e) = Unit

-- The result of the step is there: its row is finished, or another execution has it.
abbrev pub IsDone : LinearStep → Option StepRow → Type 0
IsDone p row = (p.reused ≡ true) ⊎ IsFinished row

abbrev pub AllDone : List LinearStep → List (Option StepRow) → Type 0
AllDone [] [] = Unit
AllDone (p ∷ steps) (row ∷ after) = IsDone p row × AllDone steps after
AllDone _ _ = ⊥

-- What a round that goes on leaves.
abbrev Advances : Turn → Type 0
Advances (goes_on row skips) = IsFinished row
Advances (stops row result) = result ≢ run_completed

-- A turn that the loss of the lease may stop.
owned_turn :
    (lost : Bool) (row : StepRow) (t : Turn)
    → Advances t
    → Advances (if lost then stops (some row) run_lost_lease else t)
owned_turn true row t h = λ e. cc
owned_turn false row t h = h

settled :
    (p : LinearStep) (row : StepRow) (result : HandlerResult) (t : Option ℕ)
    → result.status ≡ completed
    → Advances (after_execute p (settle row result t))
settled p row result none ok = owned_turn p.lease_lost_after _ _ (rw ok refl)
settled p row result (some t) ok = owned_turn p.lease_lost_after _ _ (λ e. cc)

handled :
    (p : LinearStep) (now : ℕ) (h : HandlerOutcome) (row : StepRow)
    → Completes h
    → Advances (after_execute p (execute p.is_approval p.policy now h row))
unfolding execute after_result after_error
handled p now (returns result) row ok = elim (Bool-cases result.durable_wait) [
  | inl waits ↦ rw waits (owned_turn p.lease_lost_after _ _ (λ e. cc))
  | inr free ↦
      rw free (settled p (begin p.is_approval p.policy row) result (later result.wait_until now) ok)
]
handled p now (raises error) row ok =
    elim (Bool-cases (
      is_retryable (classify error)
      && ltb (begin p.is_approval p.policy row).attempt_count p.policy.max_attempts)) [
        | inl again ↦ rw again (owned_turn p.lease_lost_after _ _ (λ e. cc))
        | inr enough ↦ rw enough (λ e. cc)
      ]

Advances-act :
    (now : ℕ) (skip_next : Bool) (p : LinearStep) (row : StepRow)
    → Completes p.handler
    → Advances (act now skip_next p row)
unfolding act skip
Advances-act now true p row ok = refl
Advances-act now false p row ok = handled p now p.handler row ok

Advances-turn_row :
    (now : ℕ) (skip_next : Bool) (p : LinearStep) (status : StepStatus) (row : StepRow)
    → Completes p.handler
    → Advances (turn_row now skip_next p (record row { status = status }))
unfolding turn_row
Advances-turn_row now skip_next p completed row ok = refl
Advances-turn_row now skip_next p skipped row ok = refl
Advances-turn_row now skip_next p pending row ok = Advances-act now skip_next p _ ok
Advances-turn_row now skip_next p running row ok = Advances-act now skip_next p _ ok
Advances-turn_row now skip_next p failed row ok =
    elim (Bool-cases (ltb row.attempt_count row.max_attempts)) [
      | inl left ↦ rw left (Advances-act now skip_next p (record row { status = failed }) ok)
      | inr none_left ↦ rw none_left (λ e. cc)
    ]
Advances-turn_row now skip_next p retrying row ok =
    elim (Bool-cases (is_due now row.next_retry_at)) [
      | inl due ↦ rw due (Advances-act now skip_next p (record row { status = retrying }) ok)
      | inr early ↦ rw early (λ e. cc)
    ]

-- A round that goes on leaves the result of its step.
abbrev Leaves : LinearStep → Turn → Type 0
Leaves p (goes_on row skips) = IsDone p row
Leaves p (stops row result) = result ≢ run_completed

advances-Leaves : (p : LinearStep) (t : Turn) → Advances t → Leaves p t
advances-Leaves p (goes_on row skips) h = inr h
advances-Leaves p (stops row result) h = h

-- The three tests before a row is looked at.
guarded :
    (p : LinearStep) (cancelled lost reused : Bool) (own : Turn)
    → p.reused ≡ reused
    → Leaves p own
    → Leaves p (
        if cancelled
        then stops p.row run_cancelled
        else if lost
        then stops p.row run_lost_lease
        else if reused
        then goes_on p.row p.reused_skips
        else own)
guarded p true lost reused own e h = λ e'. cc
guarded p false true reused own e h = λ e'. cc
guarded p false false true own e h = inl e
guarded p false false false own e h = h

Leaves-turn :
    (now : ℕ) (skip_next : Bool) (p : LinearStep)
    → Completes p.handler
    → Leaves p (turn now skip_next p)
unfolding turn
Leaves-turn now skip_next p ok =
    let row = ensure p.policy p.row in
    guarded p p.cancelled p.lease_lost p.reused (turn_row now skip_next p row) refl (
      advances-Leaves p (turn_row now skip_next p row)
        (Advances-turn_row now skip_next p row.status row ok))

steps_done :
    (now : ℕ) (skip_next : Bool) (steps : List LinearStep)
    → All (λ p. Completes p.handler) steps
    → (run_steps now skip_next steps).1 ≡ run_completed
    → AllDone steps (run_steps now skip_next steps).0
unfolding run_steps
steps_done now skip_next [] ok h = tt
steps_done now skip_next (p ∷ steps) (one, more) h = elim (turn-cases (turn now skip_next p)) [
  | inl (row, skips, e) ↦
      rw (run_steps, e)
        (
          subst (Leaves p) e (Leaves-turn now skip_next p one),
          steps_done now skips steps more (rw (run_steps, e) at h),
        )
  | inr (row, result, e) ↦
      absurd (subst (Leaves p) e (Leaves-turn now skip_next p one) (rw (run_steps, e) at h))
]

checked-completed :
    (lease_lost : Bool) (after : List (Option StepRow)) (result : RunResult)
    → checked lease_lost after result ≡ run_completed
    → result ≡ run_completed
checked-completed lease_lost after run_completed h = refl
checked-completed lease_lost after (run_waiting t) h = h
checked-completed lease_lost after run_cancelled h = h
checked-completed lease_lost after run_lost_lease h = h
checked-completed lease_lost after attempts_used_up h = h
checked-completed lease_lost after has_failed_steps h = h
checked-completed lease_lost after (run_failed e) h = h

-- As long as handlers that return say that their step is completed, an execution that a run completes has
-- the result of every step: it is completed or skipped, or was taken over from another execution.
pub completed_run-AllDone :
    (now : ℕ) (lease_lost : Bool) (steps : List LinearStep)
    → All (λ p. Completes p.handler) steps
    → (run now lease_lost steps).1 ≡ run_completed
    → AllDone steps (run now lease_lost steps).0
unfolding run
completed_run-AllDone now lease_lost steps ok h =
    steps_done now false steps ok
      (checked-completed lease_lost (run_steps now false steps).0 (run_steps now false steps).1 h)

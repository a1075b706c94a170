-- ===== src/LinearRunner/Kept.antt =====
-- What a run over the steps of a workflow keeps.
use flowmind.Prelude.{
  ℕ, ◌≡◌, refl, subst, Bool, true, false, Bool-cases, inl, inr, ◌⊎◌, Option, none, some, List, [],
  ◌∷◌,
}
use flowmind.StepExecutor.{
  StepStatus, pending, running, completed, failed, skipped, retrying, StepRow,
}
use flowmind.LinearRunner.{
  LinearStep, RunResult, ensure, Turn, goes_on, stops, turn_row, turn, rows, run_steps, run,
}

abbrev pub is_final : StepStatus → Bool
is_final completed = true
is_final skipped = true
is_final _ = false

-- The step is finished: it is completed or skipped.
abbrev pub IsFinished : Option StepRow → Type 0
IsFinished none = ⊥
IsFinished (some row) = is_final row.status ≡ true

-- A row that is finished stays as it is, but for the limit of its attempts, which is that of the policy.
abbrev pub IsLike : Bool → StepRow → Option StepRow → Type 0
IsLike false before after = Unit
IsLike true before none = ⊥
IsLike true before (some after) =
    (after.status ≡ before.status)
    × (after.attempt_count ≡ before.attempt_count)
    × (after.next_retry_at ≡ before.next_retry_at)
    × (after.effect_status ≡ before.effect_status)

abbrev pub Keeps : Option StepRow → Option StepRow → Type 0
Keeps none after = Unit
Keeps (some before) after = IsLike (is_final before.status) before after

abbrev pub KeepsAll : List (Option StepRow) → List (Option StepRow) → Type 0
KeepsAll [] [] = Unit
KeepsAll (before ∷ befores) (after ∷ afters) = Keeps before after × KeepsAll befores afters
KeepsAll _ _ = ⊥

abbrev row_after : Turn → Option StepRow
row_after (goes_on row skips) = row
row_after (stops row result) = row

IsLike-self : (final : Bool) (row : StepRow) → IsLike final row (some row)
IsLike-self true row = (refl, refl, refl, refl)
IsLike-self false row = tt

Keeps-self : (row : Option StepRow) → Keeps row row
Keeps-self none = tt
Keeps-self (some row) = IsLike-self (is_final row.status) row

KeepsAll-self : (rs : List (Option StepRow)) → KeepsAll rs rs
KeepsAll-self [] = tt
KeepsAll-self (r ∷ rs) = (Keeps-self r, KeepsAll-self rs)

-- A round with an existing row keeps it, if it is finished.
Keeps-turn_row :
    (now : ℕ) (skip_next : Bool) (p : LinearStep) (status : StepStatus) (row : StepRow)
    → Keeps (some (record row { status = status })) (
        row_after (
          turn_row now skip_next p
            (record row { status = status; max_attempts = p.policy.max_attempts })))
unfolding turn_row
Keeps-turn_row now skip_next p completed row = (refl, refl, refl, refl)
Keeps-turn_row now skip_next p skipped row = (refl, refl, refl, refl)
Keeps-turn_row now skip_next p pending row = tt
Keeps-turn_row now skip_next p running row = tt
Keeps-turn_row now skip_next p failed row = tt
Keeps-turn_row now skip_next p retrying row = tt

Keeps-ensured :
    (now : ℕ) (skip_next : Bool) (p : LinearStep) (row : Option StepRow)
    → Keeps row (row_after (turn_row now skip_next p (ensure p.policy row)))
unfolding ensure
Keeps-ensured now skip_next p none = tt
Keeps-ensured now skip_next p (some row) = Keeps-turn_row now skip_next p row.status row

Keeps-turn :
    (now : ℕ) (skip_next : Bool) (p : LinearStep) → Keeps p.row (row_after (turn now skip_next p))
unfolding turn
Keeps-turn now skip_next p = elim (Bool-cases p.cancelled) [
  | inl stopped ↦ rw stopped (Keeps-self p.row)
  | inr going ↦ elim (Bool-cases p.lease_lost) [
    | inl lost ↦ rw (going, lost) (Keeps-self p.row)
    | inr owned ↦ elim (Bool-cases p.reused) [
      | inl taken ↦ rw (going, owned, taken) (Keeps-self p.row)
      | inr own ↦ rw (going, owned, own) (Keeps-ensured now skip_next p p.row)
    ]
  ]
]

pub turn-cases :
    (t : Turn)
    → ((row : Option StepRow) × (skips : Bool) × (t ≡ goes_on row skips))
      ⊎ ((row : Option StepRow) × (result : RunResult) × (t ≡ stops row result))
turn-cases (goes_on row skips) = inl (row, skips, refl)
turn-cases (stops row result) = inr (row, result, refl)

KeepsAll-run_steps :
    (now : ℕ) (skip_next : Bool) (steps : List LinearStep)
    → KeepsAll (rows steps) (run_steps now skip_next steps).0
unfolding run_steps
KeepsAll-run_steps now skip_next [] = tt
KeepsAll-run_steps now skip_next (p ∷ steps) = elim (turn-cases (turn now skip_next p)) [
  | inl (row, skips, e) ↦
      rw (run_steps, e)
        (
          subst (λ t. Keeps p.row (row_after t)) e (Keeps-turn now skip_next p),
          KeepsAll-run_steps now skips steps,
        )
  | inr (row, result, e) ↦
      rw (run_steps, e)
        (
          subst (λ t. Keeps p.row (row_after t)) e (Keeps-turn now skip_next p),
          KeepsAll-self (rows steps),
        )
]

-- However a run ends, each step that was completed or skipped before it has the same row after it, but for
-- the limit of its attempts: a finished step is not run again.
pub run-KeepsAll :
    (now : ℕ) (lease_lost : Bool) (steps : List LinearStep)
    → KeepsAll (rows steps) (run now lease_lost steps).0
unfolding run
run-KeepsAll now lease_lost steps = KeepsAll-run_steps now false steps

-- ===== src/ForEach/Accounts.antt =====
-- The counters and the lists of a loop.
use flowmind.Prelude.{
  ℕ, suc, ◌+◌, ◌≤◌, ◌<◌, String, ◌≡◌, refl, subst, Bool, true, false, Bool-cases, inl, inr, Option,
  List, [], ◌∷◌, arith, ltb, length, length-append, drop, length-drop,
}
use flowmind.Json.{Value}
use flowmind.StepExecutor.{StepStatus, failed, skipped, pending, running, completed, retrying}
use flowmind.ForEach.{
  LoopConfig, LoopState, ForEachOutput, summary, max_errors, limit_preview, IterationFailure,
  failure_summary, BodyOutcome, body_ends, body_fails, body_waits, body_throws, Body,
  handle_iteration_failure, is_skipped, count, collect_result, advance, end_iteration, LoopEnd,
  loop_done, loop_waits, loop_throws, go_on_if, iterate, LoopResult, loop_completed, loop_waiting,
  loop_failed, result_of, run_loop,
}

-- A loop over `total` items comes to item `n`: every iteration before it is counted once, and the lists
-- keep within their limits.
pub record IsSound (config : LoopConfig) (total n : ℕ) (s : LoopState) : Type 0 where
  pub at : s.next_index ≡ n
  pub size : length s.elements ≡ total
  pub counted : s.succeeded + s.failures + s.skips ≡ n
  pub few_results : length s.results ≤ config.max_results
  pub few_errors : length s.errors ≤ max_errors

-- An iteration that comes to its end does so with a status other than failed.
abbrev pub IsEnding : BodyOutcome → Type 0
IsEnding (body_ends failed output) = ⊥
IsEnding _ = Unit

abbrev pub total_of : ForEachOutput → ℕ
total_of out = out.succeeded_count + out.failed_count + out.skipped_count

-- What holds of the state and the result of a run.
abbrev pub Accounts : LoopConfig → ℕ → LoopState × LoopResult → Type 0
Accounts config total (s, loop_completed out) =
    IsSound config total total s × (out.total ≡ total) × (total_of out ≡ total)
Accounts config total (s, loop_waiting) =
    IsSound config total s.next_index s × (s.next_index < total)
Accounts config total (s, loop_failed out) = (out.total ≡ total) × (total_of out ≤ total)

failure-IsSound :
    (config : LoopConfig) (total n : ℕ) (f : IterationFailure) (s : LoopState)
    → IsSound config total n s
    → IsSound config total (suc n) (advance (handle_iteration_failure f s))
unfolding handle_iteration_failure
failure-IsSound config total n f s h = elim (Bool-cases (ltb (length s.errors) max_errors)) [
  | inl room ↦ rw room (record {
    at = omega (arith, h.at);
    size = h.size;
    counted = omega (arith, h.counted);
    few_results = h.few_results;
    few_errors = ground (arith, length-append s.errors (failure_summary f s ∷ []));
  })
  | inr full ↦ rw full (record {
    at = omega (arith, h.at);
    size = h.size;
    counted = omega (arith, h.counted);
    few_results = h.few_results;
    few_errors = h.few_errors;
  })
]

-- The state while an iteration is counted: one more than the iterations before it.
record IsCounted (config : LoopConfig) (total n : ℕ) (s : LoopState) : Type 0 where
  at : s.next_index ≡ n
  size : length s.elements ≡ total
  counted : s.succeeded + s.failures + s.skips ≡ suc n
  few_results : length s.results ≤ config.max_results
  few_errors : length s.errors ≤ max_errors

count-IsCounted :
    (config : LoopConfig) (total n : ℕ) (status : StepStatus) (s : LoopState)
    → IsSound config total n s
    → IsCounted config total n (count status s)
count-IsCounted config total n status s h = elim (Bool-cases (is_skipped status)) [
  | inl is ↦ rw is (record {
    at = h.at;
    size = h.size;
    counted = omega (arith, h.counted);
    few_results = h.few_results;
    few_errors = h.few_errors;
  })
  | inr isnt ↦ rw isnt (record {
    at = h.at;
    size = h.size;
    counted = omega (arith, h.counted);
    few_results = h.few_results;
    few_errors = h.few_errors;
  })
]

collect_result-IsSound :
    (config : LoopConfig) (total n : ℕ) (preview : Value) (s : LoopState)
    → IsCounted config total n s
    → IsSound config total (suc n) (advance (collect_result config preview s))
collect_result-IsSound config total n preview s h = elim (Bool-cases config.collect_results) [
  | inr off ↦ rw off (record {
    at = omega (arith, h.at);
    size = h.size;
    counted = h.counted;
    few_results = h.few_results;
    few_errors = h.few_errors;
  })
  | inl on ↦ rw on (elim (Bool-cases (ltb (length s.results) config.max_results)) [
    | inl room ↦ rw room (record {
      at = omega (arith, h.at);
      size = h.size;
      counted = h.counted;
      few_results = ground (arith, length-append s.results (preview ∷ []));
      few_errors = h.few_errors;
    })
    | inr full ↦ rw full (record {
      at = omega (arith, h.at);
      size = h.size;
      counted = h.counted;
      few_results = h.few_results;
      few_errors = h.few_errors;
    })
  ])
]

ending-IsSound :
    (config : LoopConfig) (total n : ℕ) (stringify : Value → Option String) (status : StepStatus)
    (output : Value) (s : LoopState)
    → IsEnding (body_ends status output)
    → IsSound config total n s
    → IsSound config total (suc n) (end_iteration config stringify status output s)
unfolding end_iteration
ending-IsSound config total n stringify failed output s ok h = absurd ok
ending-IsSound config total n stringify skipped output s ok h =
    collect_result-IsSound config total n (limit_preview stringify output) (count skipped s)
      (count-IsCounted config total n skipped s h)
ending-IsSound config total n stringify pending output s ok h =
    collect_result-IsSound config total n (limit_preview stringify output) (count pending s)
      (count-IsCounted config total n pending s h)
ending-IsSound config total n stringify running output s ok h =
    collect_result-IsSound config total n (limit_preview stringify output) (count running s)
      (count-IsCounted config total n running s h)
ending-IsSound config total n stringify completed output s ok h =
    collect_result-IsSound config total n (limit_preview stringify output) (count completed s)
      (count-IsCounted config total n completed s h)
ending-IsSound config total n stringify retrying output s ok h =
    collect_result-IsSound config total n (limit_preview stringify output) (count retrying s)
      (count-IsCounted config total n retrying s h)

-- The same of the state and the end of the loop.
abbrev Counts : LoopConfig → ℕ → LoopState × LoopEnd → Type 0
Counts config total (s, loop_done) = IsSound config total total s
Counts config total (s, loop_waits) = IsSound config total s.next_index s × (s.next_index < total)
Counts config total (s, loop_throws) =
    (length s.elements ≡ total) × (s.succeeded + s.failures + s.skips ≤ total)

thrown-Counts :
    (config : LoopConfig) (total n : ℕ) (f : IterationFailure) (s : LoopState)
    → IsSound config total n s
    → n < total
    → Counts config total (handle_iteration_failure f s, loop_throws)
unfolding handle_iteration_failure
thrown-Counts config total n f s h more = elim (Bool-cases (ltb (length s.errors) max_errors)) [
  | inl room ↦ rw room (h.size, omega (arith, h.counted))
  | inr full ↦ rw full (h.size, omega (arith, h.counted))
]

-- To split on what an iteration comes to and keep the equation.
pub data Form (o : BodyOutcome) : Type 0 where
  ended : (status : StepStatus) (output : Value) → o ≡ body_ends status output → Form o
  failing : (f : IterationFailure) → o ≡ body_fails f → Form o
  waiting : (key : String) → o ≡ body_waits key → Form o
  throwing : o ≡ body_throws → Form o

pub form : (o : BodyOutcome) → Form o
form (body_ends status output) = ended status output refl
form (body_fails f) = failing f refl
form (body_waits key) = waiting key refl
form body_throws = throwing refl

module _ (config : LoopConfig) (stringify : Value → Option String) (body : Body)
    (never_fails : (i : ℕ) (item : Value) (key : Option String) → IsEnding (body i item key)) where
  go_on_if-Counts :
      (goes : Bool) (total : ℕ) (s : LoopState) (rest : LoopState × LoopEnd)
      → Counts config total rest
      → Counts config total (s, loop_throws)
      → Counts config total (go_on_if goes s rest)
  go_on_if-Counts true total s rest h t = h
  go_on_if-Counts false total s rest h t = t

  iterate-Counts :
      (xs : List Value) (total n : ℕ) (s : LoopState)
      → IsSound config total n s
      → length xs + n ≡ total
      → Counts config total (iterate config stringify body xs s)
  unfolding iterate
  iterate-Counts [] total n s h e = subst (λ m. IsSound config total m s) (omega (arith, e)) h
  iterate-Counts (item ∷ rest) total n s h e =
      elim (form (body s.next_index item s.current_step_key)) [
        | ended status output is ↦
            rw (iterate, is)
              (iterate-Counts rest total (suc n) (end_iteration config stringify status output s)
                (ending-IsSound config total n stringify status output s
                  (subst IsEnding is (never_fails s.next_index item s.current_step_key)) h)
                (omega (arith, e)))
        | failing f is ↦
            rw (iterate, is)
              (go_on_if-Counts config.continue_on_error total (handle_iteration_failure f s) _
                (iterate-Counts rest total (suc n) (advance (handle_iteration_failure f s))
                  (failure-IsSound config total n f s h) (omega (arith, e)))
                (thrown-Counts config total n f s h (omega (arith, e))))
        | waiting key is ↦
            rw (iterate, is)
              (
                record {
                  at = refl;
                  size = h.size;
                  counted = omega (arith, h.counted, h.at);
                  few_results = h.few_results;
                  few_errors = h.few_errors;
                },
                omega (arith, e, h.at),
              )
        | throwing is ↦ rw (iterate, is) (h.size, omega (arith, h.counted, e))
      ]

  Accounts-Counts :
      (total : ℕ) (after : LoopState × LoopEnd)
      → Counts config total after
      → Accounts config total (after.0, result_of config after)
  unfolding summary
  Accounts-Counts total (s, loop_done) h = (h, h.size, h.counted)
  Accounts-Counts total (s, loop_waits) h = h
  Accounts-Counts total (s, loop_throws) h = h

-- If no iteration ends with the status failed, then a run of the loop from a state whose counters add up to
-- the items before it and whose lists keep within their limits leaves such a state where it waits or
-- completes; where it completes, the three counts of its output add up to the number of items, and where
-- it fails, to no more than that.
pub run_loop-Accounts :
    (config : LoopConfig) (stringify : Value → Option String) (body : Body) (s : LoopState)
    → ((i : ℕ) (item : Value) (key : Option String) → IsEnding (body i item key))
    → IsSound config (length s.elements) s.next_index s
    → s.next_index ≤ length s.elements
    → Accounts config (length s.elements) (run_loop config stringify body s)
unfolding run_loop
run_loop-Accounts config stringify body s never h inside =
    Accounts-Counts config stringify body never (length s.elements) _ (
      iterate-Counts config stringify body never (drop s.next_index s.elements) (length s.elements)
        s.next_index s h (length-drop s.next_index s.elements inside))

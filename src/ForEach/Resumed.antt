-- ===== src/ForEach/Resumed.antt =====
-- A loop that waits and is run again.
use flowmind.Prelude.{
  ℕ, suc, ◌≤◌, ◌<◌, String, ◌≡◌, refl, subst, sym, ap, ◌∙◌, Bool, true, false, Bool-cases, inl, inr,
  Option, some, List, [], ◌∷◌, arith, if◌then◌else◌, ltb, nat_beq, length, drop, drop-tail,
}
use flowmind.Json.{Value}
use flowmind.StepExecutor.{StepStatus}
use flowmind.ForEach.{
  LoopConfig, LoopState, summary, max_errors, IterationFailure, Body, handle_iteration_failure,
  advance, end_iteration, LoopEnd, loop_done, loop_waits, loop_throws, go_on_if, iterate,
  loop_waiting, loop_failed, result_of, run_loop,
}
use flowmind.ForEach.Accounts.{form, ended, failing, waiting, throwing}

-- The iterations of two runs: those of the first up to the one where it waits, which goes on from its
-- step in the second, and those of the second from there on.
unfoldable pub spliced : ℕ → Option String → Body → Body → Body
spliced at key first second i item from =
    if ltb i at
    then first i item from
    else if nat_beq i at
    then second i item key
    else second i item from

spliced_early :
    (at : ℕ) (key : Option String) (first second : Body) (i : ℕ) (item : Value)
    (from : Option String)
    → i < at
    → spliced at key first second i item from ≡ first i item from
unfolding spliced
spliced_early at key first second i item from h = ground arith

spliced_at :
    (at : ℕ) (key : Option String) (first second : Body) (item : Value) (from : Option String)
    → spliced at key first second at item from ≡ second at item key
unfolding spliced
spliced_at at key first second item from = ground arith

spliced_late :
    (at : ℕ) (key : Option String) (first second : Body) (i : ℕ) (item : Value)
    (from : Option String)
    → at < i
    → spliced at key first second i item from ≡ second i item from
unfolding spliced
spliced_late at key first second i item from h = ground arith

-- What an iteration makes of a state but for the step where it goes on.
abbrev at_key : Option String → LoopState → LoopState
at_key key s = record s { current_step_key = key }

abbrev paused : LoopState → LoopState × LoopEnd
paused s = (s, loop_waits)

module _ (config : LoopConfig) (stringify : Value → Option String) where
  ending_at_key :
      (status : StepStatus) (output : Value) (key : Option String) (s : LoopState)
      → end_iteration config stringify status output (at_key key s)
        ≡ end_iteration config stringify status output s
  unfolding end_iteration
  ending_at_key status output key s = ground arith

  ending_index :
      (status : StepStatus) (output : Value) (s : LoopState)
      → (end_iteration config stringify status output s).next_index ≡ suc s.next_index
  unfolding end_iteration
  ending_index status output s = ground arith

  ending_elements :
      (status : StepStatus) (output : Value) (s : LoopState)
      → (end_iteration config stringify status output s).elements ≡ s.elements
  unfolding end_iteration
  ending_elements status output s = ground arith

  failure_at_key :
      (f : IterationFailure) (key : Option String) (s : LoopState)
      → advance (handle_iteration_failure f (at_key key s)) ≡ advance (handle_iteration_failure f s)
  unfolding handle_iteration_failure
  failure_at_key f key s = ground arith

  failure_index :
      (f : IterationFailure) (s : LoopState)
      → (advance (handle_iteration_failure f s)).next_index ≡ suc s.next_index
  unfolding handle_iteration_failure
  failure_index f s = ground arith

  failure_elements :
      (f : IterationFailure) (s : LoopState)
      → (advance (handle_iteration_failure f s)).elements ≡ s.elements
  unfolding handle_iteration_failure
  failure_elements f s = ground arith

  failure_summary_at_key :
      (f : IterationFailure) (key : Option String) (s : LoopState)
      → summary config (handle_iteration_failure f (at_key key s))
        ≡ summary config (handle_iteration_failure f s)
  unfolding handle_iteration_failure summary
  failure_summary_at_key f key s = elim (Bool-cases (ltb (length s.errors) max_errors)) [
    | inl room ↦ rw room refl
    | inr full ↦ rw full refl
  ]

  go_on_if-waits :
      (goes : Bool) (s s' : LoopState) (rest : LoopState × LoopEnd)
      → go_on_if goes s rest ≡ paused s'
      → (goes ≡ true) × (rest ≡ paused s')
  go_on_if-waits true s s' rest e = (refl, e)
  go_on_if-waits false s s' rest e = cc

  go_on_if-true :
      (goes : Bool) (s : LoopState) (rest : LoopState × LoopEnd)
      → goes ≡ true
      → go_on_if goes s rest ≡ rest
  go_on_if-true true s rest e = refl
  go_on_if-true false s rest e = cc

  go_on_if-result :
      (goes : Bool) (s t : LoopState) (rest rest' : LoopState × LoopEnd)
      → summary config s ≡ summary config t
      → rest ≡ rest'
      → result_of config (go_on_if goes s rest) ≡ result_of config (go_on_if goes t rest')
  go_on_if-result true s t rest rest' e e' = ap (result_of config) e'
  go_on_if-result false s t rest rest' e e' = ap loop_failed e

  state_eq : (s s' : LoopState) → paused s ≡ paused s' → s ≡ s'
  state_eq s s' e = ap (λ p. p.0) e

  waits_here :
      (s s' : LoopState) (key : String)
      → paused (at_key (some key) s) ≡ paused s'
      → (s.next_index ≤ s'.next_index) × (s'.elements ≡ s.elements)
  waits_here s s' key e =
      let is = state_eq (at_key (some key) s) s' e in
      (subst (λ t. s.next_index ≤ t.next_index) is (omega arith), sym (ap (λ t. t.elements) is))

  -- No run goes back.
  iterate-index :
      (body : Body) (xs : List Value) (s s' : LoopState)
      → iterate config stringify body xs s ≡ paused s'
      → (s.next_index ≤ s'.next_index) × (s'.elements ≡ s.elements)
  unfolding iterate
  iterate-index body [] s s' e = cc
  iterate-index body (item ∷ rest) s s' e =
      elim (form (body s.next_index item s.current_step_key)) [
        | ended status output is ↦
            let (le, same) =
              iterate-index body rest (end_iteration config stringify status output s) s'
                (rw (iterate, is) at e) in
            (
              omega (arith, le, ending_index status output s),
              same ∙ ending_elements status output s,
            )
        | failing f is ↦
            let (goes, e') =
              go_on_if-waits config.continue_on_error (handle_iteration_failure f s) s' _
                (rw (iterate, is) at e) in
            let (le, same) =
              iterate-index body rest (advance (handle_iteration_failure f s)) s' e' in
            (omega (arith, le, failure_index f s), same ∙ failure_elements f s)
        | waiting key is ↦ waits_here s s' key (rw (iterate, is) at e)
        | throwing is ↦ cc (rw (iterate, is) at e)
      ]

  module _ (first second : Body) (at : ℕ) (key : Option String) where
    abbrev both : Body
    both = spliced at key first second

    -- After the iteration where the first run waited, the two agree.
    iterate_late :
        (xs : List Value) (s : LoopState)
        → at < s.next_index
        → iterate config stringify second xs s ≡ iterate config stringify both xs s
    unfolding iterate
    iterate_late [] s h = refl
    iterate_late (item ∷ rest) s h =
        let same = spliced_late at key first second s.next_index item s.current_step_key h in
        elim (form (second s.next_index item s.current_step_key)) [
          | ended status output is ↦
              rw (iterate, is, same ∙ is)
                (iterate_late rest (end_iteration config stringify status output s)
                  (omega (arith, ending_index status output s)))
          | failing f is ↦
              rw (iterate, is, same ∙ is)
                (ap (go_on_if config.continue_on_error (handle_iteration_failure f s)) (
                  iterate_late rest (advance (handle_iteration_failure f s))
                    (omega (arith, failure_index f s))))
          | waiting k is ↦ rw (iterate, is, same ∙ is) refl
          | throwing is ↦ rw (iterate, is, same ∙ is) refl
        ]

    -- The iteration where the first run waited.
    iterate_at :
        (item : Value) (rest : List Value) (s : LoopState)
        → s.next_index ≡ at
        → result_of config (iterate config stringify second (item ∷ rest) (at_key key s))
          ≡ result_of config (iterate config stringify both (item ∷ rest) s)
    unfolding iterate summary
    iterate_at item rest s h =
        let same : both s.next_index item s.current_step_key ≡ second s.next_index item key =
          subst (λ n. both n item s.current_step_key ≡ second n item key) (sym h)
            (spliced_at at key first second item s.current_step_key) in
        elim (form (second s.next_index item key)) [
          | ended status output is ↦
              rw (iterate, is, same ∙ is, ending_at_key status output key s)
                (ap (result_of config) (
                  iterate_late rest (end_iteration config stringify status output s)
                    (omega (arith, ending_index status output s))))
          | failing f is ↦
              rw (iterate, is, same ∙ is, failure_at_key f key s)
                (go_on_if-result config.continue_on_error _ _ _ _ (failure_summary_at_key f key s) (
                  iterate_late rest (advance (handle_iteration_failure f s))
                    (omega (arith, failure_index f s))))
          | waiting k is ↦ rw (iterate, is, same ∙ is) refl
          | throwing is ↦ rw (iterate, is, same ∙ is) refl
        ]

    next_drop :
        (s t : LoopState) (item : Value) (rest : List Value)
        → t.next_index ≡ suc s.next_index
        → t.elements ≡ s.elements
        → drop s.next_index s.elements ≡ item ∷ rest
        → drop t.next_index t.elements ≡ rest
    next_drop s t item rest n e d =
        ap (λ m. drop m t.elements) n
        ∙ ap (drop (suc s.next_index)) e
        ∙ drop-tail s.next_index s.elements item rest d

    iterate_here :
        (item : Value) (rest : List Value) (s s' : LoopState) (from : String)
        → drop s.next_index s.elements ≡ item ∷ rest
        → paused (at_key (some from) s) ≡ paused s'
        → s'.next_index ≡ at
        → s'.current_step_key ≡ key
        → result_of config (iterate config stringify second (drop s'.next_index s'.elements) s')
          ≡ result_of config (iterate config stringify both (item ∷ rest) s)
    iterate_here item rest s s' from d e i k =
        let is = state_eq (at_key (some from) s) s' e in
        let key' : some from ≡ key = ap (λ t. t.current_step_key) is ∙ k in
        let is' = ap (λ o. at_key o s) (sym key') ∙ is in
        subst
          (λ t.
            result_of config (iterate config stringify second (drop t.next_index t.elements) t)
            ≡ result_of config (iterate config stringify both (item ∷ rest) s))
          is'
          (subst
            (λ xs.
              result_of config (iterate config stringify second xs (at_key key s))
              ≡ result_of config (iterate config stringify both (item ∷ rest) s))
            (sym d) (iterate_at item rest s (ap (λ t. t.next_index) is ∙ i)))

    -- The whole run.
    iterate_whole :
        (xs : List Value) (s s' : LoopState)
        → drop s.next_index s.elements ≡ xs
        → iterate config stringify first xs s ≡ paused s'
        → s'.next_index ≡ at
        → s'.current_step_key ≡ key
        → result_of config (iterate config stringify second (drop s'.next_index s'.elements) s')
          ≡ result_of config (iterate config stringify both xs s)
    unfolding iterate
    iterate_whole [] s s' d e i k = cc
    iterate_whole (item ∷ rest) s s' d e i k =
        elim (form (first s.next_index item s.current_step_key)) [
          | throwing is ↦ cc (rw (iterate, is) at e)
          | waiting from is ↦ iterate_here item rest s s' from d (rw (iterate, is) at e) i k
          | ended status output is ↦
              let t = end_iteration config stringify status output s in
              let e' = rw (iterate, is) at e in
              let early = spliced_early at key first second s.next_index item s.current_step_key (
                omega
                  (arith, i, ending_index status output s, (iterate-index first rest t s' e').0)) in
              rw (iterate, early ∙ is)
                (iterate_whole rest t s'
                  (next_drop s t item rest (ending_index status output s)
                    (ending_elements status output s) d)
                  e' i k)
          | failing f is ↦
              let t = advance (handle_iteration_failure f s) in
              let (goes, e') =
                go_on_if-waits config.continue_on_error (handle_iteration_failure f s) s' _
                  (rw (iterate, is) at e) in
              let early =
                spliced_early at key first second s.next_index item s.current_step_key
                  (omega (arith, i, failure_index f s, (iterate-index first rest t s' e').0)) in
              iterate_whole rest t s'
                (next_drop s t item rest (failure_index f s) (failure_elements f s) d) e' i k
              ∙ rw (iterate, early ∙ is)
                  (ap (result_of config) (
                    sym (
                      go_on_if-true config.continue_on_error (handle_iteration_failure f s) _
                        goes)))
        ]

waiting-end :
    (config : LoopConfig) (after : LoopState × LoopEnd)
    → result_of config after ≡ loop_waiting
    → after ≡ paused after.0
waiting-end config (s, loop_done) e = cc
waiting-end config (s, loop_waits) e = refl
waiting-end config (s, loop_throws) e = cc

-- If a run of a loop waits, then a later run from the state that it leaves comes to the same result as
-- one run from the first state whose iterations are those of the first run before the item where it waited,
-- and those of the later run from there on, where the later run enters that item at its saved step.
pub run_loop-resumes :
    (config : LoopConfig) (stringify : Value → Option String) (first second : Body) (s : LoopState)
    → (run_loop config stringify first s).1 ≡ loop_waiting
    → let s' = (run_loop config stringify first s).0 in
      (run_loop config stringify second s').1
      ≡ (run_loop config stringify (spliced s'.next_index s'.current_step_key first second) s).1
unfolding run_loop
run_loop-resumes config stringify first second s w =
    let after = iterate config stringify first (drop s.next_index s.elements) s in
    iterate_whole config stringify first second after.0.next_index after.0.current_step_key
      (drop s.next_index s.elements) s after.0 refl (waiting-end config after w) refl refl

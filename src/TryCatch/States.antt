-- ===== src/TryCatch/States.antt =====
-- The states that a try_catch step may be in, given how its regions end.
use flowmind.Prelude.{String, ◌≡◌, refl, sym, subst, Bool, true, Option, none, some, List, [], All}
use flowmind.TryCatch.{
  try_succeeded, try_handled, Phase, in_body, in_catch, in_finally, complete, failed, succeeded,
  run_failed, body_region, catch_region, finally_region, StructuredStepFailure, TryState, initial,
  Entries, RegionOutcome, completed, waits, throws, lost, Runner, or_text, summary, restored, Frame,
  saves, phase_after, after_body, after_catch, after_finally, boundary, body_block, catch_block,
  finally_from, finally_block, TryResult, done_with, waiting, fails_with, broken, ending, then_on,
  execute,
}
use flowmind.TryCatch.Reference.{Verdicts, answers, raises, reference, answer, Fits, Follows}

-- What is known before the Finally region: the state, but for its phase and step, and `primary`.
pub data Before (v : Verdicts) : TryState → Option StructuredStepFailure → Type 0 where
  went : v.body ≡ none → Before v (record initial { body_status = succeeded }) none
  caught :
      (f : StructuredStepFailure)
      → v.body ≡ some f
      → v.catch f.safe_error ≡ none
      → Before v
          (record initial {
            body_status = run_failed;
            catch_status = succeeded;
            handled = true;
            primary = some f;
            original_primary = some f;
          })
          (some f)
  uncaught :
      (f g : StructuredStepFailure)
      → v.body ≡ some f
      → v.catch f.safe_error ≡ some g
      → Before v
          (record initial {
            body_status = run_failed;
            catch_status = run_failed;
            primary = some g;
            original_primary = some f;
          })
          (some g)

abbrev pub in_catch_with : Option String → StructuredStepFailure → TryState
in_catch_with key f = record initial {
  phase = in_catch;
  current_step_key = key;
  body_status = run_failed;
  primary = some f;
  original_primary = some f;
}

abbrev pub IsEnd : Phase → Type 0
IsEnd complete = Unit
IsEnd failed = Unit
IsEnd _ = ⊥

-- The states that the row may hold, given the verdicts.
pub data At (entries : Entries) (v : Verdicts) : TryState → Type 0 where
  at_body : (key : Option String) → At entries v (record initial { current_step_key = key })
  at_catch :
      (key : Option String) (f : StructuredStepFailure)
      → v.body ≡ some f
      → At entries v (in_catch_with key f)
  at_finally :
      (key : Option String) (entry : String) (t : TryState) (p : Option StructuredStepFailure)
      → entries.finally_entry ≡ some entry
      → Before v t p
      → At entries v (record t { phase = in_finally; current_step_key = key })
  at_end :
      (s : TryState)
      → IsEnd s.phase
      → answer (ending (s, s.primary)) ≡ some (reference entries.finally_entry v)
      → At entries v s

abbrev pub Good : Bool → Entries → Verdicts → TryResult → Type 0
Good may_stop entries v waiting = may_stop ≡ true
Good may_stop entries v broken = may_stop ≡ true
Good may_stop entries v r = answer r ≡ some (reference entries.finally_entry v)

abbrev pub Fine : Bool → Entries → Verdicts → List TryState × TryResult → Type 0
Fine may_stop entries v (saved, result) = All (At entries v) saved × Good may_stop entries v result

module _ (may_stop : Bool) (entries : Entries) (v : Verdicts) where
  finally_ok :
      (key : Option String) (entry : String) (t : TryState) (p : Option StructuredStepFailure)
      (o : RegionOutcome)
      → entries.finally_entry ≡ some entry
      → Before v t p
      → Fits may_stop v.finally o
      → Fine may_stop entries v (
          then_on
            (after_finally (record t { phase = in_finally; current_step_key = key }, p) o)
            (record t { phase = in_finally; current_step_key = key }, p)
            (λ last. ([], ending last)))
  unfolding after_finally ending summary reference
  finally_ok key entry t p (waits k) e before fit = ((at_finally k entry t p e before, tt), fit)
  finally_ok key entry t p lost e before fit = (tt, fit)
  finally_ok key entry _ _ completed e (went b) fit =
      let good : some (answers try_succeeded) ≡ some (reference entries.finally_entry v) =
        rw (e, b, fit) refl in
      ((at_end _ tt good, tt), good)
  finally_ok key entry _ _ completed e (caught f b c) fit =
      let good : some (answers try_handled) ≡ some (reference entries.finally_entry v) =
        rw (e, b, c, fit) refl in
      ((at_end _ tt good, tt), good)
  finally_ok key entry _ _ completed e (uncaught f g b c) fit =
      let good : some (raises g) ≡ some (reference entries.finally_entry v) = rw (b, c) refl in
      ((at_end _ tt good, tt), good)
  finally_ok key entry _ _ (throws h) e (went b) fit =
      let good : some (raises h) ≡ some (reference entries.finally_entry v) = rw (e, b, fit) refl in
      ((at_end _ tt good, tt), good)
  finally_ok key entry _ _ (throws h) e (caught f b c) fit =
      let good : some (raises f) ≡ some (reference entries.finally_entry v) =
        rw (e, b, c, fit) refl in
      ((at_end _ tt good, tt), good)
  finally_ok key entry _ _ (throws h) e (uncaught f g b c) fit =
      let good : some (raises g) ≡ some (reference entries.finally_entry v) = rw (b, c) refl in
      ((at_end _ tt good, tt), good)

  module _ (run : Runner) (follows : Follows may_stop v run) where
    -- What is left from a frame on, once the Catch region is behind it, and once the body is.
    from_finally : Frame → List TryState × TryResult
    from_finally frame = then_on (finally_block entries run frame) frame (λ last. ([], ending last))

    from_catch : Frame → List TryState × TryResult
    from_catch frame = then_on (catch_block entries run frame) frame from_finally

    at_finally_ok :
        (key : Option String) (entry : String) (t : TryState) (p : Option StructuredStepFailure)
        → entries.finally_entry ≡ some entry
        → Before v t p
        → Fine may_stop entries v
            (from_finally (record t { phase = in_finally; current_step_key = key }, p))
    unfolding finally_block from_finally
    at_finally_ok key entry t p e before =
        let s : TryState = record t { phase = in_finally; current_step_key = key } in
        subst
          (λ o.
            Fine may_stop entries v
              (then_on (finally_from entries run (s, p) o) (s, p) (λ last. ([], ending last))))
          (sym e)
          (finally_ok key entry t p (run finally_region (or_text key entry) entries.done none) e
            before (follows finally_region (or_text key entry) entries.done none))

    answered :
        (r : TryResult)
        → answer r ≡ some (reference entries.finally_entry v)
        → Good may_stop entries v r
    answered (done_with output) h = h
    answered (fails_with output f) h = h
    answered waiting h = cc
    answered broken h = cc

    -- Past the Catch region: either the Finally region is entered, or there is none.
    past_catch :
        (fin : Option String) (t : TryState) (otherwise : Phase)
        → entries.finally_entry ≡ fin
        → Before v t t.primary
        → IsEnd otherwise
        → (entries.finally_entry ≡ none
            → answer (ending (record t { phase = otherwise; current_step_key = none }, t.primary))
              ≡ some (reference entries.finally_entry v))
        → Fine may_stop entries v (
            then_on
              (saves (
                record t { phase = phase_after fin otherwise; current_step_key = none },
                t.primary,
              ))
              (t, t.primary)
              from_finally)
    unfolding from_finally finally_block
    past_catch (some entry) t otherwise e before end none_left =
        let (saved, good) = at_finally_ok none entry t t.primary e before in
        ((at_finally none entry t t.primary e before, saved), good)
    past_catch none t complete e before end none_left =
        ((at_end _ tt (none_left e), tt), answered _ (none_left e))
    past_catch none t failed e before end none_left =
        ((at_end _ tt (none_left e), tt), answered _ (none_left e))
    past_catch none t in_body e before end none_left = absurd end
    past_catch none t in_catch e before end none_left = absurd end
    past_catch none t in_finally e before end none_left = absurd end

    catch_ok :
        (key : Option String) (f : StructuredStepFailure) (o : RegionOutcome)
        → v.body ≡ some f
        → Fits may_stop (v.catch f.safe_error) o
        → Fine may_stop entries v (
            then_on
              (after_catch entries (in_catch_with key f, some f) o)
              (in_catch_with key f, some f)
              from_finally)
    unfolding after_catch ending summary reference
    catch_ok key f (waits k) b fit = ((at_catch k f b, tt), fit)
    catch_ok key f lost b fit = (tt, fit)
    catch_ok key f completed b fit =
        past_catch entries.finally_entry _ complete refl (caught f b fit) tt
          (λ e. rw (e, b, fit) refl)
    catch_ok key f (throws g) b fit =
        past_catch entries.finally_entry _ failed refl (uncaught f g b fit) tt
          (λ e. rw (b, fit) refl)

    at_catch_ok :
        (key : Option String) (f : StructuredStepFailure)
        → v.body ≡ some f
        → Fine may_stop entries v (from_catch (in_catch_with key f, some f))
    unfolding catch_block from_catch
    at_catch_ok key f b =
        let from = or_text key entries.catch_entry in
        catch_ok key f (run catch_region from (boundary entries run) (some f.safe_error)) b
          (follows catch_region from (boundary entries run) (some f.safe_error))

    body_ok :
        (key : Option String) (o : RegionOutcome)
        → Fits may_stop v.body o
        → Fine may_stop entries v (
            then_on
              (after_body entries (record initial { current_step_key = key }, none) o)
              (record initial { current_step_key = key }, none)
              from_catch)
    unfolding after_body ending summary reference from_catch catch_block
    body_ok key (waits k) fit = ((at_body k, tt), fit)
    body_ok key lost fit = (tt, fit)
    body_ok key completed fit = through entries.finally_entry refl
      where
        through :
            (fin : Option String)
            → entries.finally_entry ≡ fin
            → Fine may_stop entries v (
                then_on
                  (saves (
                    record initial {
                      body_status = succeeded;
                      phase = phase_after fin complete;
                      current_step_key = none;
                    },
                    none,
                  ))
                  (record initial { current_step_key = key }, none)
                  from_catch)
        through none e =
            past_catch none (record initial { body_status = succeeded }) complete e (went fit) tt
              (λ e'. rw (e, fit) refl)
        through (some entry) e =
            past_catch (some entry) (record initial { body_status = succeeded }) complete e
              (went fit) tt (λ e'. rw (e', fit) refl)
    body_ok key (throws f) fit =
        let (saved, good) = at_catch_ok none f fit in ((at_catch none f fit, saved), good)

    end_ok :
        (ph : Phase) (t : TryState)
        → IsEnd ph
        → answer (ending (record t { phase = ph }, t.primary))
          ≡ some (reference entries.finally_entry v)
        → Fine may_stop entries v (execute entries run (record t { phase = ph }))
    unfolding execute body_block catch_block finally_block restored
    end_ok complete t end good =
        (tt, answered (ending (record t { phase = complete }, t.primary)) good)
    end_ok failed t end good = (tt, answered (ending (record t { phase = failed }, t.primary)) good)
    end_ok in_body t end good = absurd end
    end_ok in_catch t end good = absurd end
    end_ok in_finally t end good = absurd end

    pub execute_ok :
        (s : TryState) → At entries v s → Fine may_stop entries v (execute entries run s)
    unfolding execute body_block catch_block finally_block restored from_catch from_finally
    execute_ok _ (at_body key) =
        let from = or_text key entries.body_entry in
        body_ok key (run body_region from (boundary entries run) none)
          (follows body_region from (boundary entries run) none)
    execute_ok _ (at_catch key f b) = at_catch_ok key f b
    execute_ok _ (at_finally key entry _ _ e (went b)) = at_finally_ok key entry _ _ e (went b)
    execute_ok _ (at_finally key entry _ _ e (caught f b c)) =
        at_finally_ok key entry _ _ e (caught f b c)
    execute_ok _ (at_finally key entry _ _ e (uncaught f g b c)) =
        at_finally_ok key entry _ _ e (uncaught f g b c)
    execute_ok s (at_end _ end good) = end_ok s.phase s end good

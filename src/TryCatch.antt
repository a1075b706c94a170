-- ===== src/TryCatch.antt =====
-- apps/worker/src/engine/try-catch-execution.service.ts: `execute`, the state machine of a try_catch
-- step. How a region runs is an argument, which stands for `runRegion`; the times, the audit log, the
-- metrics and the rows of attempts are left out.

pub mod Reference
pub mod States
pub mod Laws
use flowmind.Prelude.{
  ℕ, String, Bool, true, false, ◌⊎◌, inl, inr, Option, none, some, List, [], ◌∷◌,
}

-- The `phase` of the state, and the status of a region.
pub data Phase : Type 0 where
  in_body in_catch in_finally complete failed : Phase

pub data RegionStatus : Type 0 where
  not_run succeeded run_failed : RegionStatus

pub data TryStatus : Type 0 where
  try_succeeded try_handled try_failed : TryStatus

pub data Region : Type 0 where
  body_region catch_region finally_region : Region

pub record SafeStepError : Type 0 where
  pub message : String
  pub category : String
  pub code : Option String
  pub step_key : String
  pub execution_path : String
  pub retryable : Bool
  pub attempts : ℕ

pub record StructuredStepFailure : Type 0 where
  pub safe_error : SafeStepError
  pub step_execution_id : String

-- `tryState`, as the row of the step keeps it.
pub record TryState : Type 0 where
  pub phase : Phase
  pub current_step_key : Option String
  pub body_status : RegionStatus
  pub catch_status : RegionStatus
  pub finally_status : RegionStatus
  pub handled : Bool
  pub primary : Option StructuredStepFailure
  pub original_primary : Option StructuredStepFailure
  pub secondary : Option SafeStepError

abbrev pub initial : TryState
initial = record {
  phase = in_body;
  current_step_key = none;
  body_status = not_run;
  catch_status = not_run;
  finally_status = not_run;
  handled = false;
  primary = none;
  original_primary = none;
  secondary = none;
}

-- Where the regions begin and end.
pub record Entries : Type 0 where
  pub body_entry : String
  pub catch_entry : String
  pub finally_entry : Option String
  pub done : String

-- What one run of a region comes to: it waits at a step, it throws the failure of a step, or it
-- throws an error for which no row of a failed step is found.
pub data RegionOutcome : Type 0 where
  completed : RegionOutcome
  waits : (current_step_key : Option String) → RegionOutcome
  throws : StructuredStepFailure → RegionOutcome
  lost : RegionOutcome

-- `runRegion`: the region, where it begins and ends, and the error of its frame.
abbrev pub Runner : Type 0
Runner = Region → String → String → Option SafeStepError → RegionOutcome

pub record TryCatchOutput : Type 0 where
  pub status : TryStatus
  pub body_status : RegionStatus
  pub catch_status : RegionStatus
  pub finally_status : RegionStatus
  pub error_handled : Bool
  pub failed_step_key : Option String
  pub error_category : Option String

abbrev pub or_some {ℓ} : {A : Type ℓ} → Option A → Option A → Option A
or_some none d = d
or_some (some a) d = some a

abbrev pub or_text : Option String → String → String
or_text none d = d
or_text (some s) d = s

abbrev pub status_of : Phase → Bool → TryStatus
status_of failed handled = try_failed
status_of _ true = try_handled
status_of _ false = try_succeeded

abbrev pub step_key_of : Option StructuredStepFailure → Option String
step_key_of none = none
step_key_of (some f) = some f.safe_error.step_key

abbrev pub category_of : Option StructuredStepFailure → Option String
category_of none = none
category_of (some f) = some f.safe_error.category

unfoldable pub summary : TryState → TryCatchOutput
summary s = record {
  status = status_of s.phase s.handled;
  body_status = s.body_status;
  catch_status = s.catch_status;
  finally_status = s.finally_status;
  error_handled = s.handled;
  failed_step_key = step_key_of s.primary;
  error_category = category_of s.primary;
}

-- The failure that the variable `primary` begins with.
unfoldable pub restored : TryState → Option StructuredStepFailure
restored s = elim s.phase [ in_catch ↦ or_some s.original_primary s.primary | _ ↦ s.primary ]

-- The state and the variable `primary`.
abbrev pub Frame : Type 0
Frame = TryState × Option StructuredStepFailure

-- What a block of `execute` comes to: it is not its phase, it saves a state and goes on, it has saved
-- a state and waits, or it throws.
pub data Progress : Type 0 where
  idle : Progress
  saves : Frame → Progress
  pauses : TryState → Progress
  breaks : Progress

abbrev pub phase_after : Option String → Phase → Phase
phase_after none otherwise = otherwise
phase_after (some entry) otherwise = in_finally

abbrev pub safe_error_of : Option StructuredStepFailure → Option SafeStepError
safe_error_of none = none
safe_error_of (some f) = some f.safe_error

unfoldable pub after_body : Entries → Frame → RegionOutcome → Progress
after_body entries (s, primary) completed = saves (
  record s {
    body_status = succeeded;
    phase = phase_after entries.finally_entry complete;
    current_step_key = none;
  },
  primary,
)
after_body entries (s, primary) (waits key) = pauses (record s { current_step_key = key })
after_body entries (s, primary) (throws f) = saves (
  record s {
    primary = some f;
    original_primary = or_some s.original_primary (some f);
    body_status = run_failed;
    phase = in_catch;
    current_step_key = none;
  },
  some f,
)
after_body entries (s, primary) lost = breaks

unfoldable pub after_catch : Entries → Frame → RegionOutcome → Progress
after_catch entries (s, primary) completed = saves (
  record s {
    catch_status = succeeded;
    handled = true;
    phase = phase_after entries.finally_entry complete;
    current_step_key = none;
  },
  primary,
)
after_catch entries (s, primary) (waits key) = pauses (record s { current_step_key = key })
after_catch entries (s, primary) (throws f) = saves (
  record s {
    original_primary = or_some s.original_primary s.primary;
    primary = some f;
    catch_status = run_failed;
    phase = phase_after entries.finally_entry failed;
    current_step_key = none;
  },
  some f,
)
after_catch entries (s, primary) lost = breaks

abbrev pub phase_at_end : Option StructuredStepFailure → Bool → Phase
phase_at_end (some f) false = failed
phase_at_end _ _ = complete

abbrev pub secondary_of :
    Option StructuredStepFailure → StructuredStepFailure → Option SafeStepError
secondary_of none f = none
secondary_of (some g) f = some f.safe_error

unfoldable pub after_finally : Frame → RegionOutcome → Progress
after_finally (s, primary) completed = saves (
  record s {
    finally_status = succeeded;
    phase = phase_at_end primary s.handled;
    current_step_key = none;
  },
  primary,
)
after_finally (s, primary) (waits key) = pauses (record s { current_step_key = key })
after_finally (s, primary) (throws f) = saves (
  record s {
    finally_status = run_failed;
    secondary = secondary_of primary f;
    primary = or_some s.primary (or_some primary (some f));
    phase = failed;
    current_step_key = none;
  },
  or_some primary (some f),
)
after_finally (s, primary) lost = breaks

-- The three blocks.
module _ (entries : Entries) (run : Runner) where
  abbrev pub boundary : String
  boundary = or_text entries.finally_entry entries.done

  unfoldable pub body_block : Frame → Progress
  unfolding after_body
  body_block (s, primary) = elim s.phase [
    | in_body ↦
        after_body entries (s, primary)
          (run body_region (or_text s.current_step_key entries.body_entry) boundary none)
    | _ ↦ idle
  ]

  unfoldable pub catch_block : Frame → Progress
  unfolding after_catch
  catch_block (s, primary) = elim s.phase [
    | in_catch ↦
        after_catch entries (s, primary)
          (run catch_region (or_text s.current_step_key entries.catch_entry) boundary
            (safe_error_of primary))
    | _ ↦ idle
  ]

  abbrev pub finally_from : Frame → Option String → Progress
  finally_from (s, primary) none = idle
  finally_from (s, primary) (some entry) =
      after_finally (s, primary)
        (run finally_region (or_text s.current_step_key entry) entries.done none)

  unfoldable pub finally_block : Frame → Progress
  unfolding after_finally
  finally_block (s, primary) = elim s.phase [
    | in_finally ↦ finally_from (s, primary) entries.finally_entry
    | _ ↦ idle
  ]

pub data TryResult : Type 0 where
  done_with : TryCatchOutput → TryResult
  waiting : TryResult
  fails_with : TryCatchOutput → StructuredStepFailure → TryResult
  broken : TryResult

abbrev pub throw_primary : TryState → Option StructuredStepFailure → TryResult
throw_primary s none = broken
throw_primary s (some f) = fails_with (record (summary s) { status = try_failed }) f

unfoldable pub ending : Frame → TryResult
unfolding summary
ending (s, primary) = elim s.phase [ failed ↦ throw_primary s primary | _ ↦ done_with (summary s) ]

-- After a block: the states that are saved from there on, and the result.
abbrev pub then_on :
    Progress → Frame → (Frame → List TryState × TryResult) → List TryState × TryResult
then_on idle frame rest = rest frame
then_on (saves (s, primary)) frame rest =
    let (saved, result) = rest (s, primary) in (s ∷ saved, result)
then_on (pauses s) frame rest = (s ∷ [], waiting)
then_on breaks frame rest = ([], broken)

-- `execute` from the state that the row keeps: the states that it saves, and the result.
unfoldable pub execute : Entries → Runner → TryState → List TryState × TryResult
unfolding restored body_block catch_block finally_block ending
execute entries run s =
    let frame : Frame = (s, restored s) in
    then_on (body_block entries run frame) frame (λ after_try.
      then_on (catch_block entries run after_try) after_try
        (λ caught. then_on (finally_block entries run caught) caught (λ last. ([], ending last))))

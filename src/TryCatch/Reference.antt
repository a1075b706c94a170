-- ===== src/TryCatch/Reference.antt =====
-- What a try_catch step means, said of the verdicts of its regions alone.
use flowmind.Prelude.{String, ◌≡◌, Bool, true, Option, none, some}
use flowmind.TryCatch.{
  TryStatus, try_succeeded, try_handled, Region, body_region, catch_region, finally_region,
  SafeStepError, StructuredStepFailure, RegionOutcome, completed, waits, throws, lost, Runner,
  TryResult, done_with, waiting, fails_with, broken,
}

-- How each region ends once it has run to its end: `none` is success.
pub record Verdicts : Type 0 where
  pub body : Option StructuredStepFailure
  pub catch : SafeStepError → Option StructuredStepFailure
  pub finally : Option StructuredStepFailure

pub data Answer : Type 0 where
  answers : TryStatus → Answer
  raises : StructuredStepFailure → Answer

-- The failure of a Finally region counts only where nothing has failed before.
abbrev and_then : Option StructuredStepFailure → TryStatus → Answer
and_then none status = answers status
and_then (some f) status = raises f

abbrev with_finally : Option String → Option StructuredStepFailure → Option StructuredStepFailure
with_finally none verdict = none
with_finally (some entry) verdict = verdict

abbrev or_first : Option StructuredStepFailure → StructuredStepFailure → TryStatus → Answer
or_first none f status = answers status
or_first (some h) f status = raises f

abbrev handled_by :
    Option StructuredStepFailure → StructuredStepFailure → Option StructuredStepFailure → Answer
handled_by none f finally = or_first finally f try_handled
handled_by (some g) f finally = raises g

abbrev by_body :
    Option StructuredStepFailure
    → (SafeStepError → Option StructuredStepFailure)
    → Option StructuredStepFailure
    → Answer
by_body none catch finally = and_then finally try_succeeded
by_body (some f) catch finally = handled_by (catch f.safe_error) f finally

-- The body succeeds, or its failure is handed to the Catch region; the Finally region follows in
-- either case, if there is one. A failure that no Catch region has handled is raised, and so is the
-- first failure where the Finally region fails.
unfoldable pub reference : Option String → Verdicts → Answer
reference finally_entry v = by_body v.body v.catch (with_finally finally_entry v.finally)

abbrev pub answer : TryResult → Option Answer
answer (done_with output) = some (answers output.status)
answer (fails_with output f) = some (raises f)
answer waiting = none
answer broken = none

abbrev pub verdict : Verdicts → Region → Option SafeStepError → Option StructuredStepFailure
verdict v body_region e = v.body
verdict v catch_region none = none
verdict v catch_region (some e) = v.catch e
verdict v finally_region e = v.finally

-- A run of a region ends as the verdict says, or it stops before its end, where that may happen.
abbrev pub Fits : Bool → Option StructuredStepFailure → RegionOutcome → Type 0
Fits may_stop verdict completed = verdict ≡ none
Fits may_stop verdict (throws f) = verdict ≡ some f
Fits may_stop verdict (waits key) = may_stop ≡ true
Fits may_stop verdict lost = may_stop ≡ true

abbrev pub Follows : Bool → Verdicts → Runner → Type 0
Follows may_stop v run =
    (r : Region) (from to : String) (e : Option SafeStepError)
    → Fits may_stop (verdict v r e) (run r from to e)

-- ===== src/ForEach.antt =====
-- apps/worker/src/engine/for-each-execution.service.ts: `execute`, the loop over the items of a for_each
-- step, with its state. What one iteration comes to is an argument, which ForEach/Body models; the
-- configuration is in its normal form, and `JSON.stringify` is an argument. Times, the audit log, the
-- metrics and the rows of attempts are left out.
pub mod Accounts
pub mod Body
pub mod Resumed
use flowmind.Prelude.{
  ℕ, zero, suc, ◌+◌, String, Bool, true, false, ◌||◌, ◌⊎◌, inl, inr, Option, none, some, List, [],
  ◌∷◌, ◌++◌, if◌then◌else◌, ltb, length, is_empty, drop,
}
use flowmind.Json.{Value, arr, obj, bool, num, str, field, end, nat, items}
use flowmind.Text
use flowmind.StepExecutor.{StepStatus, failed, skipped}

-- FOR_EACH_LIMITS
abbrev pub max_loop_items : ℕ
max_loop_items = 1000

abbrev pub max_errors : ℕ
max_errors = 20

abbrev pub max_source_bytes : ℕ
max_source_bytes = 1048576

-- normalizeConfig, of the names of an iteration only what the loop itself reads.
pub record LoopConfig : Type 0 where
  pub continue_on_error : Bool
  pub max_items : ℕ
  pub collect_results : Bool
  pub max_results : ℕ

pub record ErrorSummary : Type 0 where
  pub iteration_index : ℕ
  pub step_key : String
  pub code : Option String
  pub message : String

pub record LoopState : Type 0 where
  pub elements : List Value
  pub next_index : ℕ
  pub current_step_key : Option String
  pub succeeded : ℕ
  pub failures : ℕ
  pub skips : ℕ
  pub results : List Value
  pub errors : List ErrorSummary
  pub results_truncated : Bool
  pub errors_truncated : Bool

pub record ForEachOutput : Type 0 where
  pub total : ℕ
  pub succeeded_count : ℕ
  pub failed_count : ℕ
  pub skipped_count : ℕ
  pub listed_results : Option (List Value × Bool)
  pub listed_errors : Option (List ErrorSummary × Bool)

unfoldable pub summary : LoopConfig → LoopState → ForEachOutput
summary config s = record {
  total = length s.elements;
  succeeded_count = s.succeeded;
  failed_count = s.failures;
  skipped_count = s.skips;
  listed_results = if config.collect_results then some (s.results, s.results_truncated) else none;
  listed_errors = if is_empty s.errors then none else some (s.errors, s.errors_truncated);
}

pub data StartError : Type 0 where
  source_not_array exceeds_max_items snapshot_too_large : StartError

abbrev pub initial : List Value → LoopState
initial vs = record {
  elements = vs;
  next_index = 0;
  current_step_key = none;
  succeeded = 0;
  failures = 0;
  skips = 0;
  results = [];
  errors = [];
  results_truncated = false;
  errors_truncated = false;
}

-- `start`: the source as the expressions resolve it, with the bytes of its JSON text.
unfoldable pub start : LoopConfig → ℕ → Value → StartError ⊎ LoopState
start config bytes (arr vs) =
    if ltb config.max_items (length (items vs)) || ltb max_loop_items (length (items vs))
    then inl exceeds_max_items
    else if ltb max_source_bytes bytes
    then inl snapshot_too_large
    else inr (initial (items vs))
start config bytes _ = inl source_not_array

-- limitPreview: a value whose text is long is cut.
abbrev pub preview_of : Value → Option String → Value
preview_of v none = v
preview_of v (some text) =
    if ltb 4096 (Text.utf16_length text)
    then obj (
        field "truncated" (bool true) (
          field "originalSize" (num (nat (Text.utf16_length text)))
            (field "preview" (str (Text.take 4096 text)) end)))
    else v

unfoldable pub limit_preview : (Value → Option String) → Value → Value
unfolding Text.take
limit_preview stringify v = preview_of v (stringify v)

-- The failed step of an iteration: its key, and the code and the message of its errorJson.
pub record IterationFailure : Type 0 where
  pub failed_key : String
  pub failed_code : Option String
  pub failed_message : Option String

-- What one iteration comes to.
pub data BodyOutcome : Type 0 where
  body_ends : (last_status : StepStatus) → (last_output : Value) → BodyOutcome
  body_fails : IterationFailure → BodyOutcome
  body_waits : (key : String) → BodyOutcome
  body_throws : BodyOutcome

-- The index, the item, and the step where the iteration goes on.
abbrev pub Body : Type 0
Body = ℕ → Value → Option String → BodyOutcome

abbrev pub message_of : Option String → String
message_of none = "Iteration failed"
message_of (some m) = Text.take 500 m

abbrev pub failure_summary : IterationFailure → LoopState → ErrorSummary
failure_summary f s = record {
  iteration_index = s.next_index;
  step_key = f.failed_key;
  code = f.failed_code;
  message = message_of f.failed_message;
}

-- handleIterationFailure
unfoldable pub handle_iteration_failure : IterationFailure → LoopState → LoopState
unfolding Text.take
handle_iteration_failure f s =
    if ltb (length s.errors) max_errors
    then record s { failures = suc s.failures; errors = s.errors ++ failure_summary f s ∷ [] }
    else record s { failures = suc s.failures; errors_truncated = true }

abbrev pub is_failed : StepStatus → Bool
is_failed failed = true
is_failed _ = false

abbrev pub is_skipped : StepStatus → Bool
is_skipped skipped = true
is_skipped _ = false

abbrev pub count : StepStatus → LoopState → LoopState
count status s =
    if is_skipped status
    then record s { skips = suc s.skips }
    else record s { succeeded = suc s.succeeded }

abbrev pub collect_result : LoopConfig → Value → LoopState → LoopState
collect_result config preview s =
    if config.collect_results
    then if ltb (length s.results) config.max_results
      then record s { results = s.results ++ preview ∷ [] }
      else record s { results_truncated = true }
    else s

abbrev pub advance : LoopState → LoopState
advance s = record s { next_index = suc s.next_index; current_step_key = none }

-- What follows an iteration that comes to the end of the body.
unfoldable pub end_iteration :
    LoopConfig → (Value → Option String) → StepStatus → Value → LoopState → LoopState
unfolding limit_preview
end_iteration config stringify status output s =
    if is_failed status
    then advance s
    else advance (collect_result config (limit_preview stringify output) (count status s))

pub data LoopEnd : Type 0 where
  loop_done loop_waits loop_throws : LoopEnd

-- After a failure, the loop goes on or throws.
abbrev pub go_on_if : Bool → LoopState → LoopState × LoopEnd → LoopState × LoopEnd
go_on_if true s rest = rest
go_on_if false s rest = (s, loop_throws)

-- The loop over the items from `nextIndex` on.
unfoldable pub iterate :
    LoopConfig → (Value → Option String) → Body → List Value → LoopState → LoopState × LoopEnd
unfolding end_iteration handle_iteration_failure
iterate config stringify body [] s = (s, loop_done)
iterate config stringify body (item ∷ rest) s = elim (body s.next_index item s.current_step_key) [
  | body_ends status output ↦
      iterate config stringify body rest (end_iteration config stringify status output s)
  | body_fails f ↦
      let s' = handle_iteration_failure f s in
      go_on_if config.continue_on_error s' (iterate config stringify body rest (advance s'))
  | body_waits key ↦ (record s { current_step_key = some key }, loop_waits)
  | body_throws ↦ (s, loop_throws)
]

pub data LoopResult : Type 0 where
  loop_completed : ForEachOutput → LoopResult
  loop_waiting : LoopResult
  loop_failed : ForEachOutput → LoopResult

abbrev pub result_of : LoopConfig → LoopState × LoopEnd → LoopResult
result_of config (s, loop_done) = loop_completed (summary config s)
result_of config (s, loop_waits) = loop_waiting
result_of config (s, loop_throws) = loop_failed (summary config s)

-- `execute` from a state: the state at the end, and the result.
unfoldable pub run_loop :
    LoopConfig → (Value → Option String) → Body → LoopState → LoopState × LoopResult
unfolding iterate summary
run_loop config stringify body s =
    let (after, end') = iterate config stringify body (drop s.next_index s.elements) s in
    (after, result_of config (after, end'))

-- `execute`: from the state that the row keeps, or from the source.
unfoldable pub execute :
    LoopConfig
    → (Value → Option String)
    → Body
    → ℕ
    → Value
    → Option LoopState
    → LoopState × LoopResult
unfolding run_loop start summary
execute config stringify body bytes source (some s) = run_loop config stringify body s
execute config stringify body bytes source none = elim (start config bytes source) [
  | inl e ↦ (initial [], loop_failed (summary config (initial [])))
  | inr s ↦ run_loop config stringify body s
]

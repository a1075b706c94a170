-- ===== src/Tests/TryCatch.antt =====
-- The state machine of a try_catch step.
use flowmind.Prelude.{◌≡◌, refl, inl, inr, true, false, none, some, String}
use flowmind.TryCatch.{
  body_region, catch_region, finally_region, StructuredStepFailure, TryState, initial, Entries,
  completed, waits, throws, Runner, in_catch, run_failed, summary, restored, after_body,
  after_catch, after_finally, body_block, catch_block, finally_block, ending, try_handled, execute,
}
use flowmind.TryCatch.Reference.{Verdicts, answers, raises, reference, answer, Follows}
use flowmind.TryCatch.Laws.{Resumable, fresh, resumed, execute-reference, no_other_result}

abbrev failure : String → StructuredStepFailure
failure key = record {
  safe_error = record {
    message = "Step failed";
    category = "non_retryable";
    code = none;
    step_key = key;
    execution_path = "root";
    retryable = false;
    attempts = 1;
  };
  step_execution_id = key;
}

abbrev entries : Entries
entries = record { body_entry = "b"; catch_entry = "c"; finally_entry = some "f"; done = "d" }

-- The body fails, the Catch region handles it, and the Finally region succeeds.
abbrev verdicts : Verdicts
verdicts = record { body = some (failure "b"); catch = λ e. none; finally = none }

abbrev straight : Runner
straight body_region from to e = throws (failure "b")
straight catch_region from to e = completed
straight finally_region from to e = completed

-- In this run the Catch region waits at its second step.
abbrev waits_in_catch : Runner
waits_in_catch catch_region from to e = waits (some "c2")
waits_in_catch body_region from to e = throws (failure "b")
waits_in_catch finally_region from to e = completed

straight-Follows : Follows false verdicts straight
straight-Follows body_region from to e = refl
straight-Follows catch_region from to none = refl
straight-Follows catch_region from to (some e) = refl
straight-Follows finally_region from to e = refl

waits-Follows : Follows true verdicts waits_in_catch
waits-Follows body_region from to e = refl
waits-Follows catch_region from to none = refl
waits-Follows catch_region from to (some e) = refl
waits-Follows finally_region from to e = refl

-- What the state machine calls.
machine : Unit {0}
unfolding summary restored after_body after_catch after_finally body_block catch_block finally_block
    ending execute reference
machine = tt

abbrev second_state : TryState
second_state = record initial {
  phase = in_catch;
  current_step_key = some "c2";
  body_status = run_failed;
  primary = some (failure "b");
  original_primary = some (failure "b");
}

waited : Resumable entries verdicts second_state
unfolding machine
waited = resumed initial second_state waits_in_catch fresh waits-Follows (inr (inl refl))

execute-reference_example :
    answer (execute entries straight second_state).1 ≡ some (reference (some "f") verdicts)
execute-reference_example =
    execute-reference entries verdicts second_state straight waited straight-Follows

handled_again : answer (execute entries straight second_state).1 ≡ some (answers try_handled)
unfolding machine
handled_again = refl

straight_may_stop : Follows true verdicts straight
straight_may_stop body_region from to e = refl
straight_may_stop catch_region from to none = refl
straight_may_stop catch_region from to (some e) = refl
straight_may_stop finally_region from to e = refl

no_other_result_example : answers try_handled ≡ reference (some "f") verdicts
no_other_result_example =
    no_other_result entries verdicts second_state straight (answers try_handled) waited
      straight_may_stop handled_again

-- A handled failure is what is raised when the Finally region fails.
abbrev finally_fails : Runner
finally_fails body_region from to e = throws (failure "b")
finally_fails catch_region from to e = completed
finally_fails finally_region from to e = throws (failure "f")

handled_is_raised : answer (execute entries finally_fails initial).1 ≡ some (raises (failure "b"))
unfolding machine
handled_is_raised = refl

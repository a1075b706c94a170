-- ===== src/Tests/Configs.antt =====
-- The configurations of execute_workflow and for_each steps.
use flowmind.Prelude.{◌&&◌, ◌≡◌, inl, inr, refl, true, false, none, some, [], has}
use flowmind.Json.{
  nan, null, num, str, obj, end, field, get, nat, is_integer, below, above, Host, to_number,
  or_else, string_value,
}
use flowmind.Text
use flowmind.GraphValidation.{GraphStep, issue, is_missing}
use flowmind.GraphValidation.Rules.{out_of_range, validate_execute_workflow}
use flowmind.GraphValidation.Regions.{validate_for_each_config, repeats, is_alias, reserved_aliases}
use flowmind.StepConfig.{
  pinned_version, is_pinned, published, timeout_invalid, ExecuteWorkflowConfig, policy_of,
  timeout_of, with_policy, normalize_execute_workflow_config, normalize_for_each_config,
}
use flowmind.StepConfig.Laws.{policy_text, normalized_is_accepted, accepted_loop_is_bounded}

abbrev host : Host
host = record { number_text = λ n. "1"; number_of_text = λ s. nan; is_date = λ s. true }

abbrev call : GraphStep
call = record {
  id = none;
  key = "c";
  kind = "execute_workflow";
  config =
      field "workflowId" (str " w ")
        (field "versionPolicy" (str "PUBLISHED") (field "timeoutSeconds" (num (nat 30)) end));
}

abbrev call_config : ExecuteWorkflowConfig
call_config = record {
  workflow_id = "w";
  version_policy = published;
  workflow_version_id = none;
  input = null;
  timeout_seconds = nat 30;
}

-- What the two readings call.
readers : Unit {0}
unfolding normalize_execute_workflow_config with_policy policy_of timeout_of out_of_range is_integer
    below above get string_value to_number or_else Text.trim Text.trim_start Text.trim_end
    Text.is_blank Text.is_space validate_execute_workflow validate_for_each_config repeats is_alias
    reserved_aliases has issue
readers = tt

call_read : normalize_execute_workflow_config host (obj call.config) ≡ inr call_config
unfolding readers
call_read = refl

-- A call that pins a version.
abbrev pinned_call : GraphStep
pinned_call = record {
  id = none;
  key = "p";
  kind = "execute_workflow";
  config = field "workflowId" (str "w") (
      field "versionPolicy" (str "PINNED_VERSION") (
        field "workflowVersionId" (str " v ")
          (field "input" (str "x") (field "timeoutSeconds" (num (nat 30)) end))));
}

abbrev pinned_config : ExecuteWorkflowConfig
pinned_config = record {
  workflow_id = "w";
  version_policy = pinned_version;
  workflow_version_id = some "v";
  input = str "x";
  timeout_seconds = nat 30;
}

pinned_read : normalize_execute_workflow_config host (obj pinned_call.config) ≡ inr pinned_config
unfolding readers
pinned_read = refl

normalized_is_accepted_example :
    (validate_execute_workflow host pinned_call ≡ [])
    × (string_value (get "workflowId" pinned_call.config) ≡ some "w")
    × (string_value (get "versionPolicy" pinned_call.config) ≡ some (policy_text pinned_version))
    × (some "v" ≡ string_value (get "workflowVersionId" pinned_call.config))
    × ((is_pinned pinned_version && is_missing (some "v")) ≡ false)
    × (str "x" ≡ or_else (get "input" pinned_call.config) null)
    × (out_of_range 1 120 (nat 30) ≡ false)
normalized_is_accepted_example = normalized_is_accepted host pinned_call pinned_config pinned_read

-- A timeout of null passes the editor, and the worker refuses it.
abbrev null_timeout : GraphStep
null_timeout = record {
  id = none;
  key = "c";
  kind = "execute_workflow";
  config =
      field "workflowId" (str "w")
        (field "versionPolicy" (str "PUBLISHED") (field "timeoutSeconds" null end));
}

null_passes : validate_execute_workflow host null_timeout ≡ []
unfolding readers
null_passes = refl

null_refused :
    normalize_execute_workflow_config host (obj null_timeout.config) ≡ inl timeout_invalid
unfolding readers
null_refused = refl

abbrev loop : GraphStep
loop = record {
  id = none;
  key = "l";
  kind = "for_each";
  config = field "source" (str "{{x}}") (field "maxItems" (num (nat 7)) end);
}

loop_passes : validate_for_each_config host loop ≡ []
unfolding readers
loop_passes = refl

accepted_loop_is_bounded_example :
    (out_of_range 0 1000 (normalize_for_each_config host loop.config).max_items ≡ false)
    × (out_of_range 0 100 (normalize_for_each_config host loop.config).max_results ≡ false)
accepted_loop_is_bounded_example = accepted_loop_is_bounded host loop loop_passes

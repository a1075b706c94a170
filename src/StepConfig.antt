-- ===== src/StepConfig.antt =====
-- `normalizeExecuteWorkflowConfig` of packages/shared-types/src/subworkflow.ts and
-- `normalizeForEachConfig` of packages/shared-types/src/for-each.ts: the configuration of a step in
-- its normal form. Where the source throws, the result is an error.
pub mod Laws
use flowmind.Prelude.{
  ℕ, String, Bool, true, false, not, ◌&&◌, ◌⊎◌, inl, inr, Option, none, some, ◌==◌, if◌then◌else◌,
}
use flowmind.Json.{
  Number, Value, undefined, null, bool, str, obj, Fields, get, nat, is_integer, Host, to_number,
  or_else, string_value,
}
use flowmind.GraphValidation.{is_missing}
use flowmind.GraphValidation.Rules.{out_of_range}

pub data VersionPolicy : Type 0 where
  published pinned_version : VersionPolicy

pub data Error : Type 0 where
  not_an_object workflow_id_required version_policy_invalid version_id_required timeout_invalid :
      Error

pub record ExecuteWorkflowConfig : Type 0 where
  pub workflow_id : String
  pub version_policy : VersionPolicy
  pub workflow_version_id : Option String
  pub input : Value
  pub timeout_seconds : Number

unfoldable pub policy_of : Value → Option VersionPolicy
policy_of (str s) =
    if s == "PINNED_VERSION"
    then some pinned_version
    else if s == "PUBLISHED"
    then some published
    else none
policy_of _ = none

-- The timeout that the configuration gives, or 120 seconds.
unfoldable pub timeout_of : Host → Value → Number
unfolding to_number
timeout_of host undefined = nat 120
timeout_of host v = to_number host v

abbrev pub is_pinned : VersionPolicy → Bool
is_pinned pinned_version = true
is_pinned published = false

-- The tests after the one of the identifier; a text that is empty when trimmed is `none`.
unfoldable pub with_policy :
    Host → Fields → String → Option VersionPolicy → Error ⊎ ExecuteWorkflowConfig
unfolding get timeout_of string_value or_else out_of_range
with_policy host fs workflow_id none = inl version_policy_invalid
with_policy host fs workflow_id (some policy) =
    let version = string_value (get "workflowVersionId" fs) in
    let timeout = timeout_of host (get "timeoutSeconds" fs) in
    if is_pinned policy && is_missing version
    then inl version_id_required
    else if out_of_range 1 120 timeout
    then inl timeout_invalid
    else inr (record {
      workflow_id = workflow_id;
      version_policy = policy;
      workflow_version_id = version;
      input = or_else (get "input" fs) null;
      timeout_seconds = timeout;
    })

unfoldable pub normalize_execute_workflow_config : Host → Value → Error ⊎ ExecuteWorkflowConfig
unfolding get string_value policy_of with_policy
normalize_execute_workflow_config host (obj fs) = elim (string_value (get "workflowId" fs)) [
  | none ↦ inl workflow_id_required
  | some workflow_id ↦ with_policy host fs workflow_id (policy_of (get "versionPolicy" fs))
]
normalize_execute_workflow_config host _ = inl not_an_object

-- The mode is always SEQUENTIAL, and the concurrency 1.
pub record ForEachConfig : Type 0 where
  pub source : Value
  pub item_variable : Option String
  pub index_variable : Option String
  pub continue_on_error : Bool
  pub max_items : Number
  pub collect_results : Bool
  pub max_results : Number

abbrev pub is_true : Value → Bool
is_true (bool b) = b
is_true _ = false

abbrev pub is_false : Value → Bool
is_false (bool b) = not b
is_false _ = false

-- `integer` of for-each.ts
unfoldable pub integer : Host → Value → ℕ → Number
unfolding to_number is_integer
integer host v fallback =
    let parsed = to_number host v in if is_integer parsed then parsed else nat fallback

unfoldable pub normalize_for_each_config : Host → Fields → ForEachConfig
unfolding get string_value integer
normalize_for_each_config host fs = record {
  source = get "source" fs;
  item_variable = string_value (get "itemVariable" fs);
  index_variable = string_value (get "indexVariable" fs);
  continue_on_error = is_true (get "continueOnError" fs);
  max_items = integer host (get "maxItems" fs) 100;
  collect_results = not (is_false (get "collectResults" fs));
  max_results = integer host (get "maxResults" fs) 20;
}

-- ===== src/StepConfig/Laws.antt =====
-- The editor's rules, and the configurations that subworkflow.ts and for-each.ts normalise.
use flowmind.Prelude.{
  ℕ, ◌≤◌, String, ◌≡◌, inl, inr, refl, false, ◌&&◌, Option, none, some, [], ◌==◌, arith, eq_iff,
  Bool-cases, Option-cases, append-eq-nil,
}
use flowmind.Json.{
  Number, Value, undefined, null, bool, num, str, arr, obj, Fields, get, nat, is_integer, below,
  above, Host, to_number, or_else, string_value,
}
use flowmind.Text
use flowmind.GraphValidation.{GraphStep, is_missing}
use flowmind.GraphValidation.Rules.{out_of_range, validate_execute_workflow}
use flowmind.GraphValidation.Accepted.{when-eq-nil}
use flowmind.GraphValidation.Regions.{validate_for_each_config}
use flowmind.StepConfig.{
  VersionPolicy, published, pinned_version, ExecuteWorkflowConfig, policy_of, timeout_of, is_pinned,
  with_policy, normalize_execute_workflow_config, integer, normalize_for_each_config,
}

-- The text by which a policy is chosen.
abbrev pub policy_text : VersionPolicy → String
policy_text published = "PUBLISHED"
policy_text pinned_version = "PINNED_VERSION"

policy_text_trimmed :
    (p : VersionPolicy) → string_value (str (policy_text p)) ≡ some (policy_text p)
unfolding string_value Text.trim Text.trim_start Text.trim_end Text.is_blank Text.is_space
policy_text_trimmed published = refl
policy_text_trimmed pinned_version = refl

policy_text_of : (s : String) (p : VersionPolicy) → policy_of (str s) ≡ some p → s ≡ policy_text p
unfolding policy_of
policy_text_of s p h = elim (Bool-cases (s == "PINNED_VERSION")) [
  | inl pinned ↦ cc (rw pinned at h, (eq_iff s "PINNED_VERSION").0 pinned)
  | inr other ↦ elim (Bool-cases (s == "PUBLISHED")) [
    | inl public ↦ cc (rw (other, public) at h, (eq_iff s "PUBLISHED").0 public)
    | inr neither ↦ cc (rw (other, neither) at h)
  ]
]

policy_is :
    (v : Value) (p : VersionPolicy) → policy_of v ≡ some p → string_value v ≡ some (policy_text p)
unfolding policy_of
policy_is (str s) p h = rw (policy_text_of s p h) (policy_text_trimmed p)
policy_is _ p h = cc

timeout_same :
    (host : Host) (v : Value)
    → out_of_range 1 120 (timeout_of host v) ≡ false
    → out_of_range 1 120 (to_number host (or_else v (num (nat 120)))) ≡ false
unfolding timeout_of to_number or_else out_of_range
timeout_same host undefined h = h
timeout_same host null h = ground arith
timeout_same host (bool b) h = h
timeout_same host (num n) h = h
timeout_same host (str s) h = h
timeout_same host (arr vs) h = h
timeout_same host (obj fs) h = h

module _ (host : Host) (fs : Fields) where
  abbrev version : Option String
  version = string_value (get "workflowVersionId" fs)

  abbrev timeout : Number
  timeout = timeout_of host (get "timeoutSeconds" fs)

  with_policy_accepted :
      (workflow_id : String) (o : Option VersionPolicy) (c : ExecuteWorkflowConfig)
      → with_policy host fs workflow_id o ≡ inr c
      → (o ≡ some c.version_policy)
        × (c.workflow_id ≡ workflow_id)
        × ((is_pinned c.version_policy && is_missing version) ≡ false)
        × (out_of_range 1 120 timeout ≡ false)
        × (c.timeout_seconds ≡ timeout)
        × (c.workflow_version_id ≡ version)
        × (c.input ≡ or_else (get "input" fs) null)
  unfolding with_policy
  with_policy_accepted workflow_id none c h = cc
  with_policy_accepted workflow_id (some p) c h =
      elim (Bool-cases (is_pinned p && is_missing version)) [
        | inl unversioned ↦ cc (rw unversioned at h)
        | inr versioned ↦ elim (Bool-cases (out_of_range 1 120 timeout)) [
          | inl bad ↦ cc (rw (versioned, bad) at h)
          | inr good ↦
              let same = rw (versioned, good) at h in
              (cc same, cc same, cc (same, versioned), good, cc same, cc same, cc same)
        ]
      ]

validate-eq-nil :
    (host : Host) (step : GraphStep) (workflow_id : String) (p : VersionPolicy)
    → string_value (get "workflowId" step.config) ≡ some workflow_id
    → string_value (get "versionPolicy" step.config) ≡ some (policy_text p)
    → (is_pinned p && is_missing (string_value (get "workflowVersionId" step.config))) ≡ false
    → out_of_range 1 120
        (to_number host (or_else (get "timeoutSeconds" step.config) (num (nat 120))))
      ≡ false
    → validate_execute_workflow host step ≡ []
unfolding validate_execute_workflow
validate-eq-nil host step workflow_id published w p v t = rw (w, p, t) refl
validate-eq-nil host step workflow_id pinned_version w p v t = rw (w, p, v, t) refl

-- What the worker accepts as the configuration of an execute_workflow step, the editor accepts; and
-- the worker then runs the workflow that the editor reads, by the policy that the editor reads, in
-- the version that the editor reads, which is there where the policy pins one, on the configured input
-- (null where there is none), for a whole number of seconds from 1 to 120.
pub normalized_is_accepted :
    (host : Host) (step : GraphStep) (c : ExecuteWorkflowConfig)
    → normalize_execute_workflow_config host (obj step.config) ≡ inr c
    → (validate_execute_workflow host step ≡ [])
      × (string_value (get "workflowId" step.config) ≡ some c.workflow_id)
      × (string_value (get "versionPolicy" step.config) ≡ some (policy_text c.version_policy))
      × (c.workflow_version_id ≡ string_value (get "workflowVersionId" step.config))
      × ((is_pinned c.version_policy && is_missing c.workflow_version_id) ≡ false)
      × (c.input ≡ or_else (get "input" step.config) null)
      × (out_of_range 1 120 c.timeout_seconds ≡ false)
unfolding normalize_execute_workflow_config
normalized_is_accepted host step c h =
    elim (Option-cases (string_value (get "workflowId" step.config))) [
      | inl missing ↦ cc (rw (normalize_execute_workflow_config, missing) at h)
      | inr (workflow_id, given) ↦
          let (policy, same_id, versioned, timely, same_time, same_version, same_input) =
            with_policy_accepted host step.config workflow_id _ c
              (rw (normalize_execute_workflow_config, given) at h) in
          let policy_given = policy_is (get "versionPolicy" step.config) c.version_policy policy in
          let timely' = timeout_same host (get "timeoutSeconds" step.config) timely in
          (
            validate-eq-nil host step workflow_id c.version_policy given policy_given versioned
                timely',
            cc (given, same_id),
            policy_given,
            same_version,
            rw same_version versioned,
            same_input,
            rw same_time timely,
          )
    ]

read_number :
    (host : Host) (v : Value) (n : Number) (hi d : ℕ)
    → to_number host v ≡ n
    → out_of_range 0 hi n ≡ false
    → out_of_range 0 hi (integer host v d) ≡ false
unfolding integer out_of_range
read_number host v n hi d e h = rw e (ground arith)

integer_in_range :
    (host : Host) (v : Value) (hi d : ℕ)
    → d ≤ hi
    → out_of_range 0 hi (to_number host (or_else v (num (nat d)))) ≡ false
    → out_of_range 0 hi (integer host v d) ≡ false
unfolding integer out_of_range to_number or_else is_integer below above
integer_in_range host undefined hi d le h = ground arith
integer_in_range host null hi d le h = ground arith
integer_in_range host (bool b) hi d le h = read_number host (bool b) _ hi d refl h
integer_in_range host (num n) hi d le h = read_number host (num n) _ hi d refl h
integer_in_range host (str s) hi d le h = read_number host (str s) _ hi d refl h
integer_in_range host (arr vs) hi d le h = read_number host (arr vs) _ hi d refl h
integer_in_range host (obj fs) hi d le h = read_number host (obj fs) _ hi d refl h

-- If the editor accepts the configuration of a for_each step, the limits that the shared
-- normalisation reads from it are whole numbers: from 0 to 1000 items and from 0 to 100 results.
pub accepted_loop_is_bounded :
    (host : Host) (step : GraphStep)
    → validate_for_each_config host step ≡ []
    → (out_of_range 0 1000 (normalize_for_each_config host step.config).max_items ≡ false)
      × (out_of_range 0 100 (normalize_for_each_config host step.config).max_results ≡ false)
unfolding validate_for_each_config normalize_for_each_config
accepted_loop_is_bounded host step h =
    let few_items : 100 ≤ 1000 = omega arith in
    let few_results : 20 ≤ 100 = omega arith in
    let before_aliases = (append-eq-nil _ _ (append-eq-nil _ _ h).0).0 in
    let (before_results, results) = append-eq-nil _ _ before_aliases in
    let (before_items, items) = append-eq-nil _ _ before_results in
    (
      integer_in_range host (get "maxItems" step.config) 1000 100 few_items (when-eq-nil _ _ items),
      integer_in_range host (get "maxResults" step.config) 100 20 few_results
          (when-eq-nil _ _ results),
    )

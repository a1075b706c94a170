-- ===== src/GraphValidation/Rules.antt =====
-- The rules of graph-validation.ts that look at one step and the edges that leave it.
use flowmind.Prelude.{
  ℕ, String, Bool, true, false, not, ◌&&◌, ◌||◌, Option, none, some, List, [], ◌∷◌, ◌++◌, map, ◌==◌,
  if◌then◌else◌, nat_beq, length, filter, any, flat_map, is_empty, has, add,
}
use flowmind.Json.{
  Number, finite, Value, num, str, arr, items, get, property, nat, is_integer, below, above, Host,
  to_text, to_number, or_else, string_value,
}
use flowmind.Text
use flowmind.Duration.{is_duration}
use flowmind.Approval.{is_approval_config}
use flowmind.GraphValidation.{
  Issue, GraphStep, Edge, is_missing, when, issue, text_or, is_text, has_kind, other_kind,
  outgoing_edges, edge_issue,
}

-- The configured branch `name` names no other step of the graph.
abbrev pub bad_branch : GraphStep → List String → Option String → Bool
bad_branch step step_keys none = true
bad_branch step step_keys (some key) = not (has key step_keys) || key == step.key

-- The issues of the outgoing edges whose kind is none of the list.
abbrev pub strays : Host → String → GraphStep → List String → List Edge → List Issue
strays host code step kinds edges =
    map (edge_issue host code (some step.key)) (filter (other_kind kinds) edges)

abbrev pub at_step : String → GraphStep → Issue
at_step code step = issue code (some step.key) none none

abbrev pub at_handle : String → GraphStep → String → Issue
at_handle code step handle = issue code (some step.key) none (some handle)

-- One round of the loop of `validateApproval` over the kinds.
unfoldable pub approval_branch : GraphStep → List Edge → String → String → List Issue
unfolding has_kind issue
approval_branch step outgoing kind handle =
    when (not (nat_beq (length (filter (has_kind kind) outgoing)) 1))
      (at_handle (Text.append "invalid_approval_" handle) step handle)

unfoldable pub approval_kinds : List String
approval_kinds = "approval_approved" ∷ "approval_rejected" ∷ "approval_expired" ∷ []

unfoldable pub validate_approval : Host → GraphStep → List Edge → List Issue
unfolding approval_branch approval_kinds outgoing_edges other_kind edge_issue issue
validate_approval host step edges =
    let outgoing = outgoing_edges step.key edges in
    when (not (is_approval_config host step.config)) (at_step "invalid_approval_config" step)
    ++ approval_branch step outgoing "approval_approved" "approved"
    ++ approval_branch step outgoing "approval_rejected" "rejected"
    ++ approval_branch step outgoing "approval_expired" "expired"
    ++ strays host "invalid_approval_edge" step approval_kinds outgoing

-- Not a whole number from `lo` to `hi`.
unfoldable pub out_of_range : ℕ → ℕ → Number → Bool
unfolding is_integer below above
out_of_range lo hi n = not (is_integer n) || below n lo || above n hi

unfoldable pub validate_execute_workflow : Host → GraphStep → List Issue
unfolding get string_value out_of_range to_number or_else issue
validate_execute_workflow host step =
    let policy = string_value (get "versionPolicy" step.config) in
    when (is_missing (string_value (get "workflowId" step.config)))
      (at_step "invalid_subworkflow" step)
    ++ when (not (is_text policy "PUBLISHED") && not (is_text policy "PINNED_VERSION"))
        (at_step "invalid_subworkflow_policy" step)
    ++ when
        (is_text policy "PINNED_VERSION"
          && is_missing (string_value (get "workflowVersionId" step.config)))
        (at_step "invalid_subworkflow_version" step)
    ++ when
        (out_of_range 1 120
          (to_number host (or_else (get "timeoutSeconds" step.config) (num (nat 120)))))
        (at_step "invalid_subworkflow_timeout" step)

unfoldable pub validate_return_workflow_output : GraphStep → List Edge → List Issue
unfolding outgoing_edges issue
validate_return_workflow_output step edges =
    when (not (is_empty (outgoing_edges step.key edges))) (at_step "return_has_output" step)

unfoldable pub validate_if : Host → GraphStep → List String → List Edge → List Issue
unfolding outgoing_edges get string_value has_kind other_kind edge_issue issue
validate_if host step step_keys edges =
    let outgoing = outgoing_edges step.key edges in
    when (bad_branch step step_keys (string_value (get "trueStepKey" step.config)))
      (at_handle "invalid_if_true" step "true")
    ++ when (bad_branch step step_keys (string_value (get "falseStepKey" step.config)))
        (at_handle "invalid_if_false" step "false")
    ++ when (not (any (has_kind "if_true") outgoing)) (at_handle "missing_if_true_edge" step "true")
    ++ when (not (any (has_kind "if_false") outgoing))
        (at_handle "missing_if_false_edge" step "false")
    ++ strays host "invalid_if_edge" step ("if_true" ∷ "if_false" ∷ []) outgoing

-- The edge that carries a case of a switch.
unfoldable pub carries_case : String → Edge → Bool
unfolding has_kind string_value
carries_case key e = has_kind "switch_case" e && is_text (string_value e.case_key) key

abbrev pub case_handle : Option String → Option String
case_handle none = none
case_handle (some key) = some (Text.append "case:" key)

abbrev pub unconnected_case : GraphStep → List Edge → Option String → List Issue
unconnected_case step outgoing none = []
unconnected_case step outgoing (some key) =
    when (not (any (carries_case key) outgoing))
      (issue "missing_switch_case_edge" (some step.key) none (some (Text.append "case:" key)))

-- !key || keys.has(key)
abbrev pub is_repeated : Option String → List String → Bool
is_repeated none keys = true
is_repeated (some key) keys = has key keys

abbrev pub add_present : Option String → List String → List String
add_present none keys = keys
add_present (some key) keys = add key keys

-- The loop of `validateSwitch` over its cases: the issues, and the case keys in the end.
unfoldable pub switch_cases :
    Host
    → GraphStep
    → List String
    → List Edge
    → List String
    → List String
    → List Value
    → List Issue × List String
unfolding has add carries_case property string_value to_text or_else issue
switch_cases host step step_keys outgoing case_keys case_matches [] = ([], case_keys)
switch_cases host step step_keys outgoing case_keys case_matches (entry ∷ rest) =
    let key = string_value (property "key" entry) in
    let match = to_text host (or_else (property "match" entry) (str "")) in
    let target = string_value (property "stepKey" entry) in
    let (issues, final) =
      switch_cases host step step_keys outgoing (add_present key case_keys)
        (if match == "" then case_matches else add match case_matches) rest in
    (
      when (is_repeated key case_keys) (at_step "invalid_switch_case_key" step)
          ++ when (not (match == "") && has match case_matches)
              (issue "duplicate_switch_case_match" (some step.key) none (case_handle key))
          ++ when (bad_branch step step_keys target)
              (issue "invalid_switch_case_target" (some step.key) none (case_handle key))
          ++ unconnected_case step outgoing key
          ++ issues,
      final,
    )

unfoldable pub switch_entries : Value → List Value
switch_entries (arr vs) = items vs
switch_entries _ = []

-- The last loop of `validateSwitch`: at each edge a case that is not defined, then a foreign kind.
unfoldable pub switch_edge : Host → GraphStep → List String → Edge → List Issue
unfolding has_kind other_kind has string_value edge_issue
switch_edge host step case_keys e =
    when (has_kind "switch_case" e && not (has (text_or "" (string_value e.case_key)) case_keys))
      (edge_issue host "orphan_switch_case_edge" (some step.key) e)
    ++ when (other_kind ("switch_case" ∷ "switch_default" ∷ []) e)
        (edge_issue host "invalid_switch_edge" (some step.key) e)

unfoldable pub validate_switch : Host → GraphStep → List String → List Edge → List Issue
unfolding outgoing_edges get string_value has_kind switch_entries switch_cases switch_edge issue
validate_switch host step step_keys edges =
    let outgoing = outgoing_edges step.key edges in
    let cases = switch_entries (get "cases" step.config) in
    let (issues, case_keys) = switch_cases host step step_keys outgoing [] [] cases in
    when (is_empty cases) (at_step "missing_switch_cases" step)
    ++ issues
    ++ when (bad_branch step step_keys (string_value (get "defaultStepKey" step.config)))
        (at_handle "invalid_switch_default" step "default")
    ++ when (not (any (has_kind "switch_default") outgoing))
        (at_handle "missing_switch_default_edge" step "default")
    ++ flat_map (switch_edge host step case_keys) outgoing

unfoldable pub validate_non_control : Host → GraphStep → List Edge → List Issue
unfolding outgoing_edges has_kind edge_issue
validate_non_control host step edges =
    map (edge_issue host "invalid_non_control_edge" (some step.key))
      (filter (λ e. not (has_kind "next" e)) (outgoing_edges step.key edges))

-- Number.isFinite(n) && n > 0
unfoldable pub is_positive : Number → Bool
is_positive (finite true w f) = false
is_positive (finite false w f) = not (nat_beq w 0 && nat_beq f 0)
is_positive _ = false

unfoldable pub validate_delay : GraphStep → List Issue
unfolding get is_positive Text.includes is_duration issue
validate_delay step = elim (get "duration" step.config) [
  | num n ↦ when (not (is_positive n)) (at_step "invalid_delay_duration" step)
  | str s ↦
      when (not (Text.includes "{{" s) && not (is_duration s))
        (at_step "invalid_delay_duration" step)
  | _ ↦ at_step "invalid_delay_duration" step ∷ []
]

unfoldable pub validate_wait_until : Host → GraphStep → List Issue
unfolding get Text.trim Text.includes issue
validate_wait_until host step = elim (get "timestamp" step.config) [
  | str s ↦
      if Text.trim s == ""
      then at_step "invalid_wait_until_timestamp" step ∷ []
      else when (not (Text.includes "{{" s) && not (host.is_date s))
          (at_step "invalid_wait_until_timestamp" step)
  | _ ↦ at_step "invalid_wait_until_timestamp" step ∷ []
]

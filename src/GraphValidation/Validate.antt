-- ===== src/GraphValidation/Validate.antt =====
-- `validateGraphV2` and `graphAvailableStepKeys` of graph-validation.ts.
use flowmind.Prelude.{
  suc, String, Bool, true, false, not, ◌||◌, Option, none, some, List, [], ◌∷◌, ◌++◌, map, ◌==◌,
  if◌then◌else◌, length, any, flat_map, is_empty, has, add, delete,
}
use flowmind.Json.{Host, string_value}
use flowmind.Text
use flowmind.Walk.{descend}
use flowmind.GraphValidation.{
  Issue, GraphStep, Edge, Graph, when, issue, edge_kinds, text_or, from_of, to_of, kind_of,
  normalized_edges, acyclic_issues, reachable_issues, handle_for_kind, edge_id, edge_issue,
}
use flowmind.GraphValidation.Rules.{
  validate_approval, validate_execute_workflow, validate_return_workflow_output, validate_if,
  validate_switch, validate_non_control, validate_delay, validate_wait_until,
}
use flowmind.GraphValidation.Regions.{validate_for_each}
use flowmind.GraphValidation.TryCatch.{validate_try_catch, parents, keys_before}

abbrev pub keys_of : List GraphStep → List String
keys_of steps = map (λ s. s.key) steps

-- `stepIds.add(step.id)`, for an id that is not empty
abbrev pub add_id : Option String → List String → List String
add_id none ids = ids
add_id (some id) ids = if id == "" then ids else add id ids

-- The first loop: an id or a key that an earlier step has.
unfoldable pub step_issues : List String → List String → List GraphStep → List Issue
step_issues ids keys [] = []
step_issues ids keys (s ∷ rest) =
    when (has (text_or "" s.id) ids) (issue "duplicate_step_id" (some s.key) none none)
    ++ when (has s.key keys) (issue "duplicate_step_key" (some s.key) none none)
    ++ step_issues (add_id s.id ids) (add s.key keys) rest

-- An end of an edge that is missing, or no step of the graph.
abbrev pub is_bad_end : List String → Option String → Bool
is_bad_end step_keys none = true
is_bad_end step_keys (some key) = not (has key step_keys)

unfoldable pub is_invalid_edge : List String → Edge → Bool
is_invalid_edge step_keys e =
    is_bad_end step_keys (from_of e)
    || is_bad_end step_keys (to_of e)
    || not (has (text_or "" (kind_of e)) edge_kinds)

abbrev pub same_ends : Option String → Option String → Bool
same_ends none b = false
same_ends (some a) none = false
same_ends (some a) (some b) = a == b

unfoldable pub is_self_loop : Edge → Bool
is_self_loop e = same_ends (from_of e) (to_of e)

-- `${from}:${handle}`
unfoldable pub handle_key : Edge → String
handle_key e =
    Text.append (text_or "undefined" (from_of e)) (Text.append ":" (handle_for_kind (kind_of e) e))

-- The second loop; the rest of a round is skipped at an invalid edge.
unfoldable pub edge_issues : Host → List String → List String → List String → List Edge → List Issue
edge_issues host step_keys seen handles [] = []
edge_issues host step_keys seen handles (e ∷ rest) =
    let seen' = add (edge_id host e) seen in
    let skipped = edge_issues host step_keys seen' handles rest in
    let passed = edge_issues host step_keys seen' (add (handle_key e) handles) rest in
    when (has (edge_id host e) seen) (edge_issue host "duplicate_edge" (from_of e) e)
    ++ (if is_invalid_edge step_keys e
        then edge_issue host "invalid_edge" (from_of e) e ∷ skipped
        else when (is_self_loop e) (edge_issue host "self_loop" (from_of e) e)
          ++ when (has (handle_key e) handles) (edge_issue host "duplicate_output" (from_of e) e)
          ++ passed)

abbrev pub bad_entry : List String → Option String → Bool
bad_entry step_keys none = true
bad_entry step_keys (some key) = not (has key step_keys)

abbrev pub reachable_from : Option String → List String → List Edge → List Issue
reachable_from none step_keys edges = []
reachable_from (some entry) step_keys edges = reachable_issues entry step_keys edges

-- Cycles and steps out of reach are looked for only if no edge is invalid so far.
unfoldable pub path_issues : List Issue → Option String → List String → List Edge → List Issue
path_issues issues entry step_keys edges =
    if any (λ i. i.code == "invalid_edge") issues
    then []
    else acyclic_issues step_keys edges ++ reachable_from entry step_keys edges

-- The rule of the step's type.
unfoldable pub kind_issues : Host → List GraphStep → List Edge → GraphStep → List Issue
unfolding validate_approval validate_if validate_switch validate_non_control validate_for_each
    validate_try_catch issue
kind_issues host steps edges s =
    let keys = keys_of steps in
    if s.kind == "conditional"
    then issue "legacy_conditional_not_supported" (some s.key) none none ∷ []
    else if s.kind == "if"
    then validate_if host s keys edges
    else if s.kind == "switch"
    then validate_switch host s keys edges
    else if s.kind == "for_each"
    then validate_for_each host s steps keys edges
    else if s.kind == "try_catch"
    then validate_try_catch host s steps keys edges
    else if s.kind == "approval"
    then validate_approval host s edges
    else validate_non_control host s edges

-- The rules that some types have in addition.
unfoldable pub config_issues : Host → List Edge → GraphStep → List Issue
unfolding validate_delay validate_wait_until validate_execute_workflow
    validate_return_workflow_output
config_issues host edges s =
    (if s.kind == "delay" then validate_delay s else [])
    ++ (if s.kind == "wait_until" then validate_wait_until host s else [])
    ++ (if s.kind == "execute_workflow" then validate_execute_workflow host s else [])
    ++ (if s.kind == "return_workflow_output" then validate_return_workflow_output s edges else [])

-- What is pushed before the search for cycles.
unfoldable pub shape_issues : Host → List GraphStep → Graph → List Issue
shape_issues host steps graph =
    step_issues [] [] steps
    ++ when (is_empty steps) (issue "empty_graph" none none none)
    ++ when (bad_entry (keys_of steps) (string_value graph.entry_step_key))
        (issue "invalid_entry" none none none)
    ++ edge_issues host (keys_of steps) [] [] (normalized_edges graph)

unfoldable pub validate_graph_v2 : Host → List GraphStep → Option Graph → List Issue
validate_graph_v2 host steps none = issue "missing_graph" none none none ∷ []
validate_graph_v2 host steps (some graph) =
    let edges = normalized_edges graph in
    let shape = shape_issues host steps graph in
    shape
    ++ path_issues shape (string_value graph.entry_step_key) (keys_of steps) edges
    ++ flat_map (λ s. kind_issues host steps edges s ++ config_issues host edges s) steps

abbrev pub or_empty : Option (List String) → List String
or_empty none = []
or_empty (some ks) = ks

-- The steps whose output a step may use: without edges the steps before it, with edges its
-- ancestors.
unfoldable pub graph_available_step_keys : String → List GraphStep → Option Graph → List String
unfolding keys_before parents descend delete
graph_available_step_keys current steps none = or_empty (keys_before current steps)
graph_available_step_keys current steps (some graph) = elim graph.edges [
  | none ↦ or_empty (keys_before current steps)
  | some edges ↦ delete current (descend (parents edges) (suc (suc (length edges))) [] current)
]

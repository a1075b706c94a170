-- ===== src/GraphValidation/Regions.antt =====
-- The rules of graph-validation.ts for the steps that own a region of the graph: for_each and
-- try_catch. A region is the list of the keys between its entry and the key where it ends.
use flowmind.Prelude.{
  String, Bool, true, false, not, ◌&&◌, ◌||◌, Option, none, some, List, [], ◌∷◌, ◌++◌, map, ◌==◌,
  if◌then◌else◌, code, leb, nat_beq, length, filter, find, flat_map, is_empty, has,
}
use flowmind.Json.{
  Number, finite, Value, undefined, null, num, str, get, nat, Host, to_number, or_else,
}
use flowmind.Text
use flowmind.GraphValidation.{
  Issue, GraphStep, Edge, when, issue, from_of, to_of, has_kind, other_kind, outgoing_edges,
  descendants_until, can_reach, edge_id, edge_issue,
}
use flowmind.GraphValidation.Rules.{at_step, at_handle, strays, out_of_range}

-- Some element stands twice.
unfoldable pub repeats : List String → Bool
unfolding has
repeats [] = false
repeats (x ∷ xs) = has x xs || repeats xs

-- /^[A-Za-z_][A-Za-z0-9_-]{0,63}$/
unfoldable pub is_alias : String → Bool
unfolding Text.is_letter Text.is_digit
is_alias String.[] = false
is_alias (String.◌∷◌ c s) =
    (Text.is_letter (code c) || nat_beq (code c) b'_')
    && Text.all (λ d. Text.is_letter d || Text.is_digit d || nat_beq d b'_' || nat_beq d b'-') s
    && leb (Text.length s) 63

unfoldable pub reserved_aliases : List String
reserved_aliases = "item" ∷ "index" ∷ "__proto__" ∷ "prototype" ∷ "constructor" ∷ []

abbrev pub alias_of : Value → List String
alias_of (str s) = if s == "" then [] else s ∷ []
alias_of _ = []

abbrev pub is_absent : Value → Bool
is_absent undefined = true
is_absent null = true
is_absent (str s) = s == ""
is_absent _ = false

-- config.mode !== undefined && config.mode !== "SEQUENTIAL"
abbrev pub is_bad_mode : Value → Bool
is_bad_mode undefined = false
is_bad_mode (str s) = not (s == "SEQUENTIAL")
is_bad_mode _ = true

-- Number(config.concurrency) !== 1
abbrev pub is_one : Number → Bool
is_one (finite false w f) = nat_beq w 1 && nat_beq f 0
is_one _ = false

abbrev pub is_bad_concurrency : Host → Value → Bool
is_bad_concurrency host undefined = false
is_bad_concurrency host v = not (is_one (to_number host v))

unfoldable pub validate_for_each_config : Host → GraphStep → List Issue
unfolding get to_number or_else out_of_range repeats is_alias reserved_aliases has issue
validate_for_each_config host step =
    let config = step.config in
    let aliases = alias_of (get "itemVariable" config) ++ alias_of (get "indexVariable" config) in
    when (is_absent (get "source" config)) (at_step "invalid_for_each_source" step)
    ++ when (is_bad_mode (get "mode" config)) (at_step "invalid_for_each_mode" step)
    ++ when (is_bad_concurrency host (get "concurrency" config))
        (at_step "invalid_for_each_concurrency" step)
    ++ when (out_of_range 0 1000 (to_number host (or_else (get "maxItems" config) (num (nat 100)))))
        (at_step "invalid_for_each_max_items" step)
    ++ when (out_of_range 0 100 (to_number host (or_else (get "maxResults" config) (num (nat 20)))))
        (at_step "invalid_for_each_max_results" step)
    ++ when (repeats aliases) (at_step "duplicate_for_each_alias" step)
    ++ flat_map
        (λ alias.
          when (not (is_alias alias) || has alias reserved_aliases)
            (at_step "invalid_for_each_alias" step))
        aliases

-- steps.find((candidate) => candidate.key === key)?.type === kind
unfoldable pub is_step_of_kind : List GraphStep → String → String → Bool
is_step_of_kind steps kind key = elim (find (λ s. s.key == key) steps) [
  | none ↦ false
  | some s ↦ s.kind == kind
]

-- An edge that leaves a region other than to the key where the region ends.
unfoldable pub escapes : List String → String → Edge → Bool
unfolding to_of has
escapes region end' e = elim (to_of e) [
  | none ↦ false
  | some to ↦ not (to == end') && not (has to region)
]

-- The issues of one key of a region that ends at `end'`.
unfoldable pub region_key :
    Host
    → String
    → String
    → String
    → List GraphStep
    → List Edge
    → List String
    → String
    → String
    → List Issue
unfolding is_step_of_kind can_reach outgoing_edges escapes edge_id issue
region_key host kind nested escape steps edges region end' key =
    when (is_step_of_kind steps kind key) (issue nested (some key) none none)
    ++ when (not (can_reach key end' edges)) (issue escape (some key) none none)
    ++ map (λ e. issue escape (some key) (some (edge_id host e)) none)
        (filter (escapes region end') (outgoing_edges key edges))

-- An edge that enters the body from outside, other than the one Body edge of the loop.
unfoldable pub enters_body : String → String → List String → Edge → Bool
unfolding from_of to_of has_kind has
enters_body loop entry body e = elim (from_of e) [
  | none ↦ false
  | some from ↦ elim (to_of e) [
    | none ↦ false
    | some to ↦
        has to body
        && not (has from body)
        && not (from == loop && to == entry && has_kind "for_each_body" e)
  ]
]

unfoldable pub for_each_body :
    Host → GraphStep → List GraphStep → List Edge → String → String → List Issue
unfolding descendants_until region_key enters_body to_of edge_id has issue
for_each_body host step steps edges entry done =
    let body = descendants_until entry done edges in
    when (is_empty body) (at_handle "empty_for_each_body" step "body")
    ++ when (has step.key body) (at_step "for_each_back_edge" step)
    ++ flat_map
        (region_key host "for_each" "nested_for_each" "for_each_body_escape" steps edges body done)
        body
    ++ map (λ e. issue "for_each_external_entry" (to_of e) (some (edge_id host e)) none)
        (filter (enters_body step.key entry body) edges)

-- The target of the only edge of a list.
abbrev pub single_target : List Edge → Option String
single_target (e ∷ []) = to_of e
single_target _ = none

abbrev pub known : List String → Option String → Option String
known step_keys none = none
known step_keys (some key) = if has key step_keys then some key else none

unfoldable pub for_each_region_issues :
    Host → GraphStep → List GraphStep → List Edge → Option String → Option String → List Issue
unfolding for_each_body issue
for_each_region_issues host step steps edges (some entry) (some done) =
    if entry == done
    then at_handle "empty_for_each_body" step "body" ∷ []
    else for_each_body host step steps edges entry done
for_each_region_issues host step steps edges _ _ = []

unfoldable pub validate_for_each :
    Host → GraphStep → List GraphStep → List String → List Edge → List Issue
unfolding outgoing_edges has_kind other_kind edge_issue validate_for_each_config
    for_each_region_issues to_of has issue
validate_for_each host step steps step_keys edges =
    let outgoing = outgoing_edges step.key edges in
    let body_edges = filter (has_kind "for_each_body") outgoing in
    let done_edges = filter (has_kind "for_each_done") outgoing in
    when (not (nat_beq (length body_edges) 1)) (at_handle "invalid_for_each_body" step "body")
    ++ when (not (nat_beq (length done_edges) 1)) (at_handle "invalid_for_each_done" step "done")
    ++ strays host "invalid_for_each_edge" step ("for_each_body" ∷ "for_each_done" ∷ []) outgoing
    ++ validate_for_each_config host step
    ++ for_each_region_issues host step steps edges (known step_keys (single_target body_edges))
        (known step_keys (single_target done_edges))

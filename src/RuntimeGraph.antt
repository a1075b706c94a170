-- ===== src/RuntimeGraph.antt =====
-- apps/worker/src/engine/graph/graph-validator.ts and graph-planner.ts: the graph that the worker
-- runs, and the choice of the next step. Where the source throws, the result is `none`.

pub mod Acyclic
pub mod Planner
pub mod Skipping
use flowmind.Prelude.{
  ℕ, zero, suc, String, Bool, true, false, not, ◌&&◌, ◌||◌, Option, none, some, List, [], ◌∷◌, ◌++◌,
  map, foldl, ◌==◌, if◌then◌else◌, length, filter, has, add, delete, nat_beq,
}
use flowmind.Json.{Value, num, finite, str, arr, obj, items, get, property, Host, to_text, or_else}
use flowmind.Walk.{descend}

pub record RuntimeEdge : Type 0 where
  pub from : String
  pub to : String
  pub kind : String
  pub label : Option String
  pub case_key : Option String

pub record RuntimeGraph : Type 0 where
  pub entry_step_key : String
  pub edges : List RuntimeEdge
  pub terminal_step_keys : Option (List String)

-- typeof value === "string" ? value : undefined
unfoldable pub text_value : Value → Option String
text_value (str s) = some s
text_value _ = none

-- The texts among the elements.
unfoldable pub text_values : List Value → List String
text_values [] = []
text_values (str s ∷ vs) = s ∷ text_values vs
text_values (_ ∷ vs) = text_values vs

unfoldable pub runtime_kinds : List String
runtime_kinds =
    "next" ∷ "if_true" ∷ "if_false" ∷ "switch_case" ∷ "switch_default" ∷ "for_each_body"
    ∷ "for_each_done" ∷ "try_body" ∷ "try_catch" ∷ "try_finally" ∷ "try_done" ∷ "approval_approved"
    ∷ "approval_rejected" ∷ "approval_expired" ∷ []

-- String(value ?? "")
abbrev pub text_of : Host → Value → String
text_of host v = to_text host (or_else v (str ""))

unfoldable pub parse_edge : Host → Value → RuntimeEdge
unfolding property text_value to_text or_else
parse_edge host item = record {
  from = text_of host (property "from" item);
  to = text_of host (property "to" item);
  kind = text_of host (property "kind" item);
  label = text_value (property "label" item);
  case_key = text_value (property "caseKey" item);
}

unfoldable pub is_usable : RuntimeEdge → Bool
unfolding runtime_kinds has
is_usable e = not (e.from == "") && not (e.to == "") && has e.kind runtime_kinds

unfoldable pub parse_edges : Host → Value → List RuntimeEdge
unfolding parse_edge is_usable
parse_edges host (arr vs) = filter is_usable (map (parse_edge host) (items vs))
parse_edges host _ = []

abbrev pub is_version_2 : Value → Bool
is_version_2 (num (finite false w f)) = nat_beq w 2 && nat_beq f 0
is_version_2 _ = false

abbrev pub terminal_keys : Value → Option (List String)
terminal_keys (arr vs) = some (text_values (items vs))
terminal_keys _ = none

abbrev pub text_or_empty : Option String → String
text_or_empty none = ""
text_or_empty (some s) = s

unfoldable pub parse_runtime_graph : Host → Value → Option RuntimeGraph
unfolding property text_value text_values parse_edges
parse_runtime_graph host definition =
    let graph = property "graph" definition in
    let entry = text_or_empty (text_value (property "entryStepKey" graph)) in
    if is_version_2 (property "workflowDefinitionSchemaVersion" definition) && not (entry == "")
    then some (record {
      entry_step_key = entry;
      edges = parse_edges host (property "edges" graph);
      terminal_step_keys = terminal_keys (property "terminalStepKeys" graph);
    })
    else none

unfoldable pub outgoing_edges : RuntimeGraph → String → List RuntimeEdge
outgoing_edges graph key = filter (λ e. e.from == key) graph.edges

unfoldable pub successors : RuntimeGraph → String → List String
unfolding outgoing_edges
successors graph key = map (λ e. e.to) (outgoing_edges graph key)

-- Every key that a walk can meet is a target of an edge, so this many rounds are enough.
unfoldable pub descendants : RuntimeGraph → String → List String
unfolding successors descend
descendants graph key = descend (successors graph) (suc (suc (length graph.edges))) [] key

-- The sets `visiting` and `visited` of `assertAcyclic`.
pub record Colours : Type 0 where
  pub visiting : List String
  pub visited : List String

-- A loop that ends at the first call that throws.
abbrev pub for_each_key :
    (Colours → String → Option Colours) → Colours → List String → Option Colours
for_each_key visit s [] = some s
for_each_key visit s (k ∷ ks) = elim (visit s k) [
  | none ↦ none
  | some s' ↦ for_each_key visit s' ks
]

unfoldable pub leave : String → Option Colours → Option Colours
unfolding add delete
leave key none = none
leave key (some s) = some (record { visiting = delete key s.visiting; visited = add key s.visited })

unfoldable pub check : (String → List String) → ℕ → Colours → String → Option Colours
check next zero s key = some s
check next (suc fuel) s key =
    let rest =
      leave key
        (for_each_key (check next fuel) (record s { visiting = add key s.visiting }) (next key)) in
    if has key s.visiting then none else if has key s.visited then some s else rest

unfoldable pub assert_acyclic : RuntimeGraph → List String → Option Colours
unfolding successors check leave has add delete
assert_acyclic graph step_keys =
    for_each_key
      (check (successors graph) (suc (length (step_keys ++ map (λ e. e.to) graph.edges))))
      (record { visiting = []; visited = [] }) step_keys

-- The edge that `validateRuntimeGraph` refuses.
unfoldable pub is_invalid : List String → RuntimeEdge → Bool
unfolding has
is_invalid step_keys e = not (has e.from step_keys) || not (has e.to step_keys) || e.from == e.to

abbrev pub first_invalid : List String → List RuntimeEdge → Bool
first_invalid step_keys [] = false
first_invalid step_keys (e ∷ es) = is_invalid step_keys e || first_invalid step_keys es

unfoldable pub validate_runtime_graph : RuntimeGraph → List String → Option Colours
unfolding has is_invalid assert_acyclic
validate_runtime_graph graph step_keys =
    if not (has graph.entry_step_key step_keys)
    then none
    else if first_invalid step_keys graph.edges
    then none
    else assert_acyclic graph step_keys

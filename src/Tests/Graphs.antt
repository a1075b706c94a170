-- ===== src/Tests/Graphs.antt =====
-- graph-validation.ts on a branching workflow: `i` branches to `a` and `b`, and `a` goes on to `b`.
use flowmind.Prelude.{
  String, ◌≡◌, ◌≢◌, ◌↔◌, ◌⊎◌, refl, true, inl, inr, Option, none, some, List, [], ◌∷◌, arith, has,
  ◌==◌, eq_iff, has-cons, has-nil, add, delete,
}
use flowmind.Json.{nan, undefined, str, end, field, get, Host, to_text, or_else, string_value}
use flowmind.Text
use flowmind.Walk.{Reaches, collect, search, mark, leave}
use flowmind.Walk.Cycle.{Terminates}
use flowmind.GraphValidation.{
  GraphStep, Edge, Graph, issue, edge_kinds, from_of, to_of, kind_of, has_kind, other_kind,
  normalized_edges, outgoing_edges, targets, adjacency, descendants_until, can_reach,
  acyclic_issues, reachable_issues, handle_for_kind, edge_id, edge_issue,
}
use flowmind.GraphValidation.Rules.{validate_if, validate_non_control}
use flowmind.GraphValidation.TryCatch.{first_target, validate_try_catch}
use flowmind.GraphValidation.Validate.{
  step_issues, is_invalid_edge, is_self_loop, handle_key, edge_issues, path_issues, kind_issues,
  config_issues, shape_issues, validate_graph_v2,
}
use flowmind.GraphValidation.Accepted.{IsWellFormed, validate_graph_v2-IsWellFormed}
use flowmind.GraphValidation.Paths.{descendants_until_iff, acyclic_issues_iff}
use flowmind.GraphValidation.Finally.{try_without_finally_rejected}

abbrev host : Host
host = record { number_text = λ n. "1"; number_of_text = λ s. nan; is_date = λ s. true }

abbrev plain : String → GraphStep
plain key = record { id = none; key = key; kind = "http_request"; config = end }

abbrev branching : GraphStep
branching = record {
  id = none;
  key = "i";
  kind = "if";
  config = field "trueStepKey" (str "a") (field "falseStepKey" (str "b") end);
}

abbrev edge : String → String → String → Edge
edge from to kind = record {
  source = str from;
  target = str to;
  kind = str kind;
  case_key = undefined;
}

abbrev steps : List GraphStep
steps = branching ∷ plain "a" ∷ plain "b" ∷ []

abbrev edges : List Edge
edges = edge "i" "a" "if_true" ∷ edge "i" "b" "if_false" ∷ edge "a" "b" "next" ∷ []

abbrev graph : Graph
graph = record { entry_step_key = str "i"; edges = some edges }

-- What the validator calls.
validator : Unit {0}
unfolding validate_graph_v2 shape_issues path_issues kind_issues config_issues step_issues
    edge_issues is_invalid_edge is_self_loop handle_key handle_for_kind edge_id edge_issue issue
    edge_kinds from_of to_of kind_of has_kind other_kind normalized_edges outgoing_edges targets
    adjacency acyclic_issues reachable_issues validate_if validate_non_control collect search mark
    leave has add delete string_value Text.trim get to_text or_else descendants_until can_reach
    first_target
validator = tt

accepts : validate_graph_v2 host steps (some graph) ≡ []
unfolding validator
accepts = refl

validate_graph_v2-IsWellFormed_example : IsWellFormed steps graph
validate_graph_v2-IsWellFormed_example = validate_graph_v2-IsWellFormed host steps graph accepts

-- An edge back to the start is reported as a cycle.
cycle_reported :
    acyclic_issues ("i" ∷ "a" ∷ "b" ∷ []) (edge "b" "i" "next" ∷ edges)
    ≡ issue "cycle" (some "i") none none ∷ []
unfolding validator
cycle_reported = refl

targets_are_steps :
    (m : String) → has m (targets edges) ≡ true → has m ("i" ∷ "a" ∷ "b" ∷ []) ≡ true
unfolding validator
targets_are_steps m h = ground (
  arith,
  has-cons m "i" ("a" ∷ "b" ∷ []),
  has-cons m "a" ("b" ∷ []),
  has-cons m "b" [],
  has-cons m "a" ("b" ∷ "b" ∷ []),
  has-cons m "b" ("b" ∷ []),
  has-nil m,
)

descendants_until_iff_example :
    (has "b" (descendants_until "i" "a" edges) ≡ true)
    ↔ Reaches (adjacency edges) (λ k. k == "a") "i" "b"
descendants_until_iff_example = descendants_until_iff edges "i" "a" "b"

acyclic_issues_iff_example :
    (acyclic_issues ("i" ∷ "a" ∷ "b" ∷ []) edges ≡ [])
    ↔ ((k : String) → has k ("i" ∷ "a" ∷ "b" ∷ []) ≡ true → Terminates (adjacency edges) k)
acyclic_issues_iff_example = acyclic_issues_iff edges ("i" ∷ "a" ∷ "b" ∷ []) targets_are_steps

-- A try_catch step `t` with a body, a catch and a continuation, and no Finally.
abbrev trying : List Edge
trying = edge "t" "a" "try_body" ∷ edge "t" "b" "try_catch" ∷ edge "t" "i" "try_done" ∷ []

abbrev catcher : GraphStep
catcher = record { id = none; key = "t"; kind = "try_catch"; config = end }

TryTarget : Option String → String → Type 0
TryTarget o kind = first_target kind (outgoing_edges "t" trying) ≡ o

body_target : TryTarget (some "a") "try_body"
unfolding validator TryTarget
body_target = refl

catch_target : TryTarget (some "b") "try_catch"
unfolding validator TryTarget
catch_target = refl

finally_target : TryTarget none "try_finally"
unfolding validator TryTarget
finally_target = refl

done_target : TryTarget (some "i") "try_done"
unfolding validator TryTarget
done_target = refl

key_known : (k : String) → (k ≡ "a") ⊎ (k ≡ "b") ⊎ (k ≡ "i") → has k ("i" ∷ "a" ∷ "b" ∷ []) ≡ true
key_known k h = ground (
  arith,
  has-cons k "i" ("a" ∷ "b" ∷ []),
  has-cons k "a" ("b" ∷ []),
  has-cons k "b" [],
  eq_iff k "a",
  eq_iff k "b",
  eq_iff k "i",
  eq_iff "i" k,
  eq_iff "a" k,
  eq_iff "b" k,
)

try_without_finally_rejected_example :
    validate_try_catch host catcher (catcher ∷ steps) ("i" ∷ "a" ∷ "b" ∷ []) trying ≢ []
unfolding TryTarget
try_without_finally_rejected_example =
    try_without_finally_rejected host catcher (catcher ∷ steps) ("i" ∷ "a" ∷ "b" ∷ []) trying "a"
      "b" "i" body_target catch_target finally_target done_target (key_known "a" (inl refl))
      (key_known "b" (inr (inl refl))) (key_known "i" (inr (inr refl)))

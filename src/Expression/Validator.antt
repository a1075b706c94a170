-- ===== src/Expression/Validator.antt =====
-- packages/expression-engine/src/validator.ts and references.ts: which expressions a step may use,
-- and which a value holds. The prose of an issue is left out.
pub mod Laws
use flowmind.Prelude.{
  ℕ, String, Bool, true, false, not, ◌&&◌, ◌||◌, inl, inr, Option, none, some, List, [], ◌∷◌, ◌++◌,
  ◌==◌, if◌then◌else◌, leb, ltb, nat_beq, length, any, flat_map, flatten, has,
}
use flowmind.Json.{Value, str, arr, obj, Elements, no_more, element, Fields, end, field}
use flowmind.Text
use flowmind.Expression.{
  Options, Fault, segment_forbidden, ExpressionError, ExpressionPath, TemplatePart, text,
  expression, ParsedTemplate, parse_template,
}

pub record Context : Type 0 where
  pub options : Options
  pub available_step_keys : List String
  pub current_step_key : Option String
  -- `false` only if the caller says so.
  pub allow_metadata : Bool
  pub allow_connection : Bool
  pub local_namespaces : List String

-- An issue has a code, the expression that it is about, and the namespace where it is known.
pub record ExpressionIssue : Type 0 where
  pub code : String
  pub expression : String
  pub namespace : Option String

unfoldable pub namespaces : List String
namespaces =
    "trigger" ∷ "workflow" ∷ "steps" ∷ "execution" ∷ "variables" ∷ "system" ∷ "timestamp"
    ∷ "organization" ∷ "connection" ∷ "metadata" ∷ []

unfoldable pub connection_allowed : List String
connection_allowed = "connection.id" ∷ "connection.name" ∷ "connection.type" ∷ []

unfoldable pub connection_blocked : List String
connection_blocked =
    "secret" ∷ "secretValue" ∷ "password" ∷ "apiKey" ∷ "encryptedValue" ∷ "headers"
    ∷ "additionalHeaders" ∷ "authName" ∷ []

unfoldable pub error_fields : List String
error_fields =
    "message" ∷ "category" ∷ "code" ∷ "stepKey" ∷ "executionPath" ∷ "retryable" ∷ "attempts" ∷ []

unfoldable pub trigger_paths : List String
trigger_paths =
    "trigger.body" ∷ "trigger.input" ∷ "trigger.headers" ∷ "trigger.query" ∷ "trigger.method"
    ∷ "trigger.receivedAt" ∷ "trigger.event" ∷ []

unfoldable pub event_fields : List String
event_fields =
    "id" ∷ "schemaVersion" ∷ "type" ∷ "occurredAt" ∷ "source" ∷ "subject" ∷ "correlationId"
    ∷ "rootEventId" ∷ "causationId" ∷ "depth" ∷ "data" ∷ []

-- segments[i], where a segment that is missing is the empty text: no segment is empty.
abbrev pub second : List String → String
second (a ∷ b ∷ rest) = b
second _ = ""

abbrev pub third : List String → String
third (a ∷ b ∷ c ∷ rest) = c
third _ = ""

abbrev pub is_local : String → Bool
is_local namespace = namespace == "item" || namespace == "index" || namespace == "error"

abbrev pub issue_at : String → ExpressionPath → ExpressionIssue
issue_at code path = record { code = code; expression = path.raw; namespace = some path.namespace }

abbrev pub issue_if : Bool → String → ExpressionPath → List ExpressionIssue
issue_if true code path = issue_at code path ∷ []
issue_if false code path = []

abbrev pub is_current : Option String → String → Bool
is_current none key = false
is_current (some current) key = key == current

unfoldable pub validate_step_path : Context → ExpressionPath → List ExpressionIssue
unfolding has
validate_step_path context path =
    let key = second path.segments in
    if key == ""
    then issue_at "EXPRESSION_SYNTAX_INVALID" path ∷ []
    else issue_if (not (has key context.available_step_keys)) "EXPRESSION_STEP_NOT_AVAILABLE" path
      ++ issue_if (is_current context.current_step_key key) "EXPRESSION_STEP_NOT_AVAILABLE" path
      ++ issue_if
          (not (third path.segments == "")
            && not (has (third path.segments) ("output" ∷ "status" ∷ [])))
          "EXPRESSION_ACCESS_DENIED" path

unfoldable pub is_bad_error_path : List String → Bool
unfolding error_fields has
is_bad_error_path segments =
    not (nat_beq (length segments) 2) || not (has (second segments) error_fields)

unfoldable pub is_bad_connection : Context → ExpressionPath → Bool
unfolding connection_allowed connection_blocked has
is_bad_connection context path =
    not context.allow_connection
    || not (has path.raw connection_allowed)
    || any (λ s. has s connection_blocked) path.segments

unfoldable pub is_trigger_path : String → Bool
unfolding trigger_paths Text.starts_with
is_trigger_path raw = any (λ p. raw == p || Text.starts_with (Text.append p ".") raw) trigger_paths

unfoldable pub is_bad_event : List String → Bool
unfolding event_fields has
is_bad_event segments =
    second segments == "event"
    && not (third segments == "")
    && not (has (third segments) event_fields)

-- The rules of the namespaces, in the order of the source.
unfoldable pub namespace_rules : Context → ExpressionPath → List (List ExpressionIssue)
unfolding is_bad_error_path is_bad_connection validate_step_path is_trigger_path is_bad_event
namespace_rules context path =
    let ns = path.namespace in
    let denied : String = "EXPRESSION_ACCESS_DENIED" in
    let short = ltb (length path.segments) 2 in
    issue_if (ns == "error" && is_bad_error_path path.segments) denied path
    ∷ issue_if (ns == "metadata" && not context.allow_metadata) denied path
    ∷ issue_if (ns == "connection" && is_bad_connection context path) denied path
    ∷ (if ns == "steps" then validate_step_path context path else [])
    ∷ issue_if (ns == "variables" && short) "EXPRESSION_SYNTAX_INVALID" path
    ∷ issue_if (ns == "system" && short) "EXPRESSION_SYNTAX_INVALID" path
    ∷ issue_if (ns == "timestamp" && ltb 1 (length path.segments)) denied path
    ∷ issue_if (ns == "trigger" && not (is_trigger_path path.raw)) denied path
    ∷ issue_if (ns == "trigger" && is_bad_event path.segments) denied path
    ∷ []

-- A namespace that is known here; a local one only where the context lists it.
unfoldable pub is_known : Context → String → Bool
unfolding namespaces has
is_known context ns = has ns namespaces || (is_local ns && has ns context.local_namespaces)

-- The rounds of the loop. The test for a local namespace that is not available stands after the one
-- for an unknown namespace, which has refused it already.
unfoldable pub path_issues : Context → ExpressionPath → List ExpressionIssue
unfolding is_known namespace_rules
path_issues context path =
    if not (is_known context path.namespace)
    then issue_at "EXPRESSION_NAMESPACE_UNKNOWN" path ∷ []
    else issue_if (is_local path.namespace && not (has path.namespace context.local_namespaces))
        "EXPRESSION_ACCESS_DENIED" path
      ++ flatten (namespace_rules context path)

unfoldable pub parts_issues : Context → List TemplatePart → List ExpressionIssue
unfolding path_issues
parts_issues context [] = []
parts_issues context (text s ∷ rest) = parts_issues context rest
parts_issues context (expression raw path ∷ rest) =
    path_issues context path ++ parts_issues context rest

-- error.toJSON()
abbrev pub error_issue : ExpressionError → ExpressionIssue
error_issue e = record {
  code = elim e.fault [
    | segment_forbidden ↦ "EXPRESSION_SEGMENT_FORBIDDEN"
    | _ ↦ "EXPRESSION_SYNTAX_INVALID"
  ];
  expression = e.expression;
  namespace = none;
}

unfoldable pub validate_expression_string : Context → String → List ExpressionIssue
unfolding parse_template parts_issues
validate_expression_string context value = elim (parse_template context.options value) [
  | inl e ↦ error_issue e ∷ []
  | inr t ↦ parts_issues context t.parts
]

-- `visit`: the texts of a value, the keys of its objects excluded.
unfoldable mutual
  pub texts : Value → List String
  texts (str s) = s ∷ []
  texts (arr vs) = element_texts vs
  texts (obj fs) = field_texts fs
  texts _ = []

  pub element_texts : Elements → List String
  element_texts no_more = []
  element_texts (element v vs) = texts v ++ element_texts vs

  pub field_texts : Fields → List String
  field_texts end = []
  field_texts (field k v fs) = texts v ++ field_texts fs

abbrev pub with_open : (String → List ExpressionIssue) → String → List ExpressionIssue
with_open validate s = if Text.includes "{{" s then validate s else []

unfoldable pub validate_expressions_in_value : Context → Value → List ExpressionIssue
unfolding texts validate_expression_string Text.includes
validate_expressions_in_value context v =
    flat_map (with_open (validate_expression_string context)) (texts v)

-- The paths of the expressions among the parts.
unfoldable pub paths_of : List TemplatePart → List ExpressionPath
paths_of [] = []
paths_of (text s ∷ rest) = paths_of rest
paths_of (expression raw path ∷ rest) = path ∷ paths_of rest

-- `extractExpressionReferences`, without the place of each; a template that does not parse has none.
unfoldable pub references_in : Options → String → List ExpressionPath
unfolding parse_template paths_of Text.includes
references_in defaults s =
    if Text.includes "{{" s
    then (elim (parse_template defaults s) [ inl e ↦ [] | inr t ↦ paths_of t.parts ])
    else []

unfoldable pub extract_expression_references : Options → Value → List ExpressionPath
unfolding references_in texts
extract_expression_references defaults v = flat_map (references_in defaults) (texts v)

-- ===== src/Expression/Validator/Laws.antt =====
-- The expressions of a value that the validator accepts.
use flowmind.Prelude.{
  ℕ, String, ◌≡◌, refl, Bool, true, false, not, ◌&&◌, Bool-cases, outcome, inl, inr, List, [], ◌∷◌,
  ◌++◌, ◌||◌, ◌≤◌, any, length, ltb, arith, ◌==◌, eq_iff, append-eq-nil, All, flat_map, flatten,
  flatten-eq-nil, not-eq-false, has,
}
use flowmind.Json.{Value}
use flowmind.Text
use flowmind.Expression.{ExpressionPath, TemplatePart, text, expression, parse_template}
use flowmind.Expression.Parse.{IsSafePath, parse_path-IsSafePath}
use flowmind.Expression.Template.{Spells, parse_template-IsParsed}
use flowmind.Expression.Validator.{
  Context, second, third, error_fields, event_fields, connection_blocked, is_bad_error_path,
  is_bad_event, is_local, issue_if, is_current, connection_allowed, is_bad_connection,
  is_trigger_path, validate_step_path, namespace_rules, is_known, path_issues, parts_issues,
  validate_expression_string, texts, with_open, validate_expressions_in_value, paths_of,
  references_in, extract_expression_references,
}

-- A segment that is missing, or one of the given texts; no segment is empty.
abbrev pub is_optional : String → List String → Bool
is_optional segment texts = segment == "" || has segment texts

-- A step that is available and not the current one, and of it the output or the status.
abbrev pub IsStepPath : Context → List String → Type 0
IsStepPath context segments =
    (has (second segments) context.available_step_keys ≡ true)
    × (is_current context.current_step_key (second segments) ≡ false)
    × (is_optional (third segments) ("output" ∷ "status" ∷ []) ≡ true)

-- What an expression may refer to in the namespace that it begins with.
pub record IsAllowed (context : Context) (path : ExpressionPath) : Type 0 where
  pub safe : IsSafePath context.options path
  pub known : is_known context path.namespace ≡ true
  pub local : is_local path.namespace ≡ true → has path.namespace context.local_namespaces ≡ true
  pub error :
      path.namespace ≡ "error"
      → (length path.segments ≡ 2) × (has (second path.segments) error_fields ≡ true)
  pub metadata : path.namespace ≡ "metadata" → context.allow_metadata ≡ true
  pub connection :
      path.namespace ≡ "connection"
      → (context.allow_connection ≡ true)
        × (has path.raw connection_allowed ≡ true)
        × (any (λ s. has s connection_blocked) path.segments ≡ false)
  pub step : path.namespace ≡ "steps" → IsStepPath context path.segments
  pub variable : path.namespace ≡ "variables" → 2 ≤ length path.segments
  pub system : path.namespace ≡ "system" → 2 ≤ length path.segments
  pub timestamp : path.namespace ≡ "timestamp" → length path.segments ≤ 1
  pub trigger :
      path.namespace ≡ "trigger"
      → (is_trigger_path path.raw ≡ true)
        × (second path.segments ≡ "event" → is_optional (third path.segments) event_fields ≡ true)

issue_if-eq-nil :
    (b : Bool) (code : String) (path : ExpressionPath) → issue_if b code path ≡ [] → b ≡ false
issue_if-eq-nil true code path h = cc
issue_if-eq-nil false code path h = refl

step_ok :
    (context : Context) (path : ExpressionPath)
    → validate_step_path context path ≡ []
    → IsStepPath context path.segments
unfolding validate_step_path
step_ok context path h = elim (Bool-cases (second path.segments == "")) [
  | inl missing ↦ cc (rw (validate_step_path, missing) at h)
  | inr given ↦
      let absent = not (has (second path.segments) context.available_step_keys) in
      let own = is_current context.current_step_key (second path.segments) in
      let missing' = issue_if absent "EXPRESSION_STEP_NOT_AVAILABLE" path in
      let itself = issue_if own "EXPRESSION_STEP_NOT_AVAILABLE" path in
      let (front, last) =
        append-eq-nil (missing' ++ itself) _ (rw (validate_step_path, given) at h) in
      let (available, current) = append-eq-nil missing' itself front in
      let field = issue_if-eq-nil _ _ path last in
      (
        not-eq-false _ (issue_if-eq-nil absent _ path available),
        issue_if-eq-nil own _ path current,
        ground arith,
      )
]

-- A rule of one namespace that finds nothing, in that namespace.
rule_ok :
    (namespace expected : String) (bad : Bool)
    → (namespace == expected && bad) ≡ false
    → namespace ≡ expected
    → bad ≡ false
rule_ok namespace expected bad h e = ground (arith, eq_iff namespace expected)

connection_ok :
    (context : Context) (path : ExpressionPath)
    → is_bad_connection context path ≡ false
    → (context.allow_connection ≡ true)
      × (has path.raw connection_allowed ≡ true)
      × (any (λ s. has s connection_blocked) path.segments ≡ false)
unfolding is_bad_connection
connection_ok context path h = (ground arith, ground arith, ground arith)

error_ok :
    (segments : List String)
    → is_bad_error_path segments ≡ false
    → (length segments ≡ 2) × (has (second segments) error_fields ≡ true)
unfolding is_bad_error_path
error_ok segments h = (ground arith, ground arith)

event_ok :
    (segments : List String)
    → is_bad_event segments ≡ false
    → second segments ≡ "event"
    → is_optional (third segments) event_fields ≡ true
unfolding is_bad_event
event_ok segments h e = ground (arith, eq_iff (second segments) "event")

local_ok : (a b : Bool) → (a && not b) ≡ false → a ≡ true → b ≡ true
local_ok a b h e = ground arith

long_ok : (n : ℕ) → ltb n 2 ≡ false → 2 ≤ n
long_ok n h = ground arith

alone_ok : (n : ℕ) → ltb 1 n ≡ false → n ≤ 1
alone_ok n h = ground arith

-- What the rules of the namespaces leave.
rules-IsAllowed :
    (context : Context) (path : ExpressionPath)
    → IsSafePath context.options path
    → is_known context path.namespace ≡ true
    → (is_local path.namespace && not (has path.namespace context.local_namespaces)) ≡ false
    → flatten (namespace_rules context path) ≡ []
    → IsAllowed context path
unfolding namespace_rules
rules-IsAllowed context path safe known available h =
    let ns = path.namespace in
    let rules = flatten-eq-nil (namespace_rules context path) h in
    let from_connection = rules.1.1 in
    let from_variable = from_connection.1.1 in
    let from_timestamp = from_variable.1.1 in
    let short = ltb (length path.segments) 2 in
    record {
      safe = safe;
      known = known;
      local = local_ok _ _ available;
      error =
          λ e. error_ok path.segments (rule_ok ns "error" _ (issue_if-eq-nil _ _ path rules.0) e);
      metadata =
          λ e. not-eq-false _ (rule_ok ns "metadata" _ (issue_if-eq-nil _ _ path rules.1.0) e);
      connection = λ e.
          connection_ok context path
            (rule_ok ns "connection" _ (issue_if-eq-nil _ _ path from_connection.0) e);
      step = λ e.
          step_ok context path (rw ((eq_iff path.namespace "steps").1 e) at from_connection.1.0);
      variable = λ e.
          long_ok _ (rule_ok ns "variables" short (issue_if-eq-nil _ _ path from_variable.0) e);
      system =
          λ e. long_ok _ (rule_ok ns "system" short (issue_if-eq-nil _ _ path from_variable.1.0) e);
      timestamp =
          λ e. alone_ok _ (rule_ok ns "timestamp" _ (issue_if-eq-nil _ _ path from_timestamp.0) e);
      trigger = λ e. (
        not-eq-false _ (rule_ok ns "trigger" _ (issue_if-eq-nil _ _ path from_timestamp.1.0) e),
        event_ok path.segments
            (rule_ok ns "trigger" _ (issue_if-eq-nil _ _ path from_timestamp.1.1.0) e),
      );
    }

path-IsAllowed :
    (context : Context) (path : ExpressionPath)
    → IsSafePath context.options path
    → path_issues context path ≡ []
    → IsAllowed context path
unfolding path_issues
path-IsAllowed context path safe h = elim (Bool-cases (is_known context path.namespace)) [
  | inr unknown ↦ cc (rw (path_issues, unknown) at h)
  | inl known ↦
      let (local, rules) =
        append-eq-nil
          (issue_if (is_local path.namespace && not (has path.namespace context.local_namespaces))
            "EXPRESSION_ACCESS_DENIED" path)
          (flatten (namespace_rules context path)) (rw (path_issues, known) at h) in
      rules-IsAllowed context path safe known (issue_if-eq-nil _ _ path local) rules
]

parts-IsAllowed :
    (context : Context) (parts : List TemplatePart) (source : String)
    → Spells context.options parts source
    → parts_issues context parts ≡ []
    → All (IsAllowed context) (paths_of parts)
unfolding parts_issues paths_of
parts-IsAllowed context [] source s h = tt
parts-IsAllowed context (text v ∷ parts) source (rest, e, s) h =
    parts-IsAllowed context parts rest s h
parts-IsAllowed context (expression raw path ∷ parts) source (group, rest, e, t, parsed, s) h =
    let (one, more) = append-eq-nil (path_issues context path) (parts_issues context parts) h in
    (
      path-IsAllowed context path (parse_path-IsSafePath context.options raw path parsed).0 one,
      parts-IsAllowed context parts rest s more,
    )

references-IsAllowed :
    (context : Context) (s : String)
    → with_open (validate_expression_string context) s ≡ []
    → All (IsAllowed context) (references_in context.options s)
unfolding references_in validate_expression_string
references-IsAllowed context s h = elim (Bool-cases (Text.includes "{{" s)) [
  | inr plain ↦ rw (references_in, plain) tt
  | inl open' ↦ elim (outcome (parse_template context.options s)) [
    | inl (e, bad) ↦ cc (rw (open', validate_expression_string, bad) at h)
    | inr (t, good) ↦
        rw (references_in, open', good)
          (parts-IsAllowed context t.parts s
            (parse_template-IsParsed context.options s t good).spelled
            (rw (open', validate_expression_string, good) at h))
  ]
]

All-append {ℓ κ} :
    {A : Type ℓ} (P : A → Type κ) (xs ys : List A) → All P xs → All P ys → All P (xs ++ ys)
All-append P [] ys h k = k
All-append P (x ∷ xs) ys (one, more) k = (one, All-append P xs ys more k)

All-texts :
    (context : Context) (ss : List String)
    → flat_map (with_open (validate_expression_string context)) ss ≡ []
    → All (IsAllowed context) (flat_map (references_in context.options) ss)
All-texts context [] h = tt
All-texts context (s ∷ ss) h =
    let (one, more) = append-eq-nil (with_open (validate_expression_string context) s) _ h in
    All-append (IsAllowed context) _ _ (references-IsAllowed context s one)
      (All-texts context ss more)

-- Every expression of a value that the validator accepts has a safe path in a namespace that is known
-- there. One about a step names a step that is available and not the current one, and nothing of it but
-- its output or status; one about a connection stands where connections are allowed, is a path that is
-- open, and has no blocked segment; one about the trigger is an open path, and for an internal event one
-- of its fields; one about metadata stands where it is allowed; one about an error names one field of it;
-- a local namespace is one that the context lists; variables and system name a member, timestamp none.
pub accepted_references :
    (context : Context) (v : Value)
    → validate_expressions_in_value context v ≡ []
    → All (IsAllowed context) (extract_expression_references context.options v)
unfolding validate_expressions_in_value extract_expression_references
accepted_references context v h = All-texts context (texts v) h

-- ===== src/Tests/Expressions.antt =====
-- The expressions of packages/expression-engine.
use flowmind.Prelude.{◌≡◌, inl, inr, refl, true, false, none, some, String, ◌++◌, [], ◌∷◌, All, has}
use flowmind.Json.{
  nan, nat, num, str, arr, obj, no_more, element, end, field, get, has_own, Value, Host, to_text,
}
use flowmind.Duration.{digits}
use flowmind.Text
use flowmind.Expression.{
  Options, too_long, segment_forbidden, unsupported_syntax, invalid_delimiters, ExpressionError,
  ExpressionPath, text, expression, ParsedTemplate, split_dots, is_unsupported, is_array_index,
  is_identifier, forbidden_segments, segment_fault, segments_fault, path_fault, parse_path, cut,
  matches, parse_matches, parse_template,
}
use flowmind.Expression.Parse.{IsSafePath, parse_path-IsSafePath}
use flowmind.Expression.Template.{IsParsed, parse_template-IsParsed}
use flowmind.Expression.Cache.{Cache, find_template, parse_cached}
use flowmind.Expression.Cache.Laws.{IsFaithful, parse_cached-eq, empty_key_stops_eviction}
use flowmind.Expression.Resolver.{
  legacy, strict, not_parsed, path_not_found, read_segment, read_path, stringify_interpolated,
  resolve_expression, resolve_parts, resolve_single, resolve_template, resolve_string,
  resolve_value, resolve_elements, resolve_fields,
}
use flowmind.Expression.Resolver.Laws.{strict_refines_legacy}
use flowmind.Expression.Validator.{
  Context, namespaces, connection_allowed, connection_blocked, error_fields, trigger_paths,
  event_fields, validate_step_path, is_bad_error_path, is_bad_connection, is_trigger_path,
  is_bad_event, namespace_rules, is_known, path_issues, parts_issues, validate_expression_string,
  texts, element_texts, field_texts, validate_expressions_in_value, paths_of, references_in,
  extract_expression_references,
}
use flowmind.Expression.Validator.Laws.{IsAllowed, accepted_references}

abbrev defaults : Options
defaults = record {
  max_expression_length = none;
  max_interpolations = none;
  max_path_depth = none;
  max_array_index = none;
}

-- What the parser calls.
parser : Unit {0}
unfolding split_dots is_unsupported is_array_index is_identifier forbidden_segments segment_fault
    segments_fault path_fault parse_path cut matches parse_matches parse_template has digits
    Text.starts_with Text.drop Text.trim Text.trim_start Text.trim_end Text.is_blank Text.is_space
    Text.is_digit Text.is_letter Text.includes
parser = tt

abbrev output_path : ExpressionPath
output_path = record {
  raw = "steps.a.output";
  namespace = "steps";
  segments = "steps" ∷ "a" ∷ "output" ∷ [];
}

path_parsed : parse_path defaults "steps.a.output" ≡ inr output_path
unfolding parser
path_parsed = refl

prototype_refused :
    parse_path defaults "steps.__proto__"
    ≡ inl (record { fault = segment_forbidden; expression = "steps.__proto__" })
unfolding parser
prototype_refused = refl

-- A dash is refused, although the pattern of a name allows it.
dash_refused :
    parse_path defaults "steps.fetch-data"
    ≡ inl (record { fault = unsupported_syntax; expression = "steps.fetch-data" })
unfolding parser
dash_refused = refl

parse_path-IsSafePath_example :
    IsSafePath defaults output_path × (output_path.raw ≡ "steps.a.output")
parse_path-IsSafePath_example =
    parse_path-IsSafePath defaults "steps.a.output" output_path path_parsed

abbrev greeting : String
greeting = "got {{ steps.a.output }}!"

abbrev greeting_template : ParsedTemplate
greeting_template = record {
  source = greeting;
  parts = text "got " ∷ expression "steps.a.output" output_path ∷ text "!" ∷ [];
  expression_count = 1;
  is_single_expression = false;
}

greeting_parsed : parse_template defaults greeting ≡ inr greeting_template
unfolding parser
greeting_parsed = refl

open_refused :
    parse_template defaults "a {{ b"
    ≡ inl (record { fault = invalid_delimiters; expression = "a {{ b" })
unfolding parser
open_refused = refl

parse_template-IsParsed_example : IsParsed defaults greeting greeting_template
parse_template-IsParsed_example =
    parse_template-IsParsed defaults greeting greeting_template greeting_parsed

abbrev one_entry : Cache
one_entry = (greeting, greeting_template) ∷ []

parse_cached-eq_example :
    ((parse_cached defaults "{{ b" one_entry).0 ≡ parse_template defaults "{{ b")
    × IsFaithful defaults (parse_cached defaults "{{ b" one_entry).1
parse_cached-eq_example = parse_cached-eq defaults "{{ b" one_entry (greeting_parsed, tt)

-- The cache does not ask for the options: a text that is too long for them is not parsed again.
cached_too_long :
    (parse_cached (record defaults { max_expression_length = some 3 }) greeting one_entry).0
    ≡ inr greeting_template
unfolding parse_cached find_template
cached_too_long = refl

parsed_too_long :
    parse_template (record defaults { max_expression_length = some 3 }) greeting
    ≡ inl (record { fault = too_long; expression = "steps.a.output" })
unfolding parser
parsed_too_long = refl

abbrev plain : String → ParsedTemplate
plain s = record {
  source = s;
  parts = text s ∷ [];
  expression_count = 0;
  is_single_expression = false;
}

abbrev empty_template : ParsedTemplate
empty_template = record {
  source = "";
  parts = [];
  expression_count = 0;
  is_single_expression = false;
}

is_new : find_template "b" (("", empty_template) ∷ one_entry) ≡ none
unfolding find_template
is_new = refl

b_parsed : parse_template defaults "b" ≡ inr (plain "b")
unfolding parser
b_parsed = refl

empty_key_stops_eviction_example :
    (parse_cached defaults "b" (("", empty_template) ∷ one_entry)).1
    ≡ ("", empty_template) ∷ (one_entry ++ ("b", plain "b") ∷ [])
empty_key_stops_eviction_example =
    empty_key_stops_eviction defaults "b" empty_template (plain "b") one_entry is_new b_parsed

abbrev host : Host
host = record { number_text = λ n. "1"; number_of_text = λ s. nan; is_date = λ s. true }

abbrev json_text : Value → String
json_text v = "{}"

-- What the resolver calls.
resolver : Unit {0}
unfolding parser has_own get to_text read_segment read_path stringify_interpolated
    resolve_expression resolve_parts resolve_single resolve_template resolve_string resolve_value
    resolve_elements resolve_fields
resolver = tt

abbrev scope : Value
scope = obj (
    field "steps"
      (obj (field "a" (obj (field "output" (arr (element (num (nat 7)) no_more)) end)) end)) end)

-- A single expression keeps its type.
abbrev config : Value
config =
    obj (field "x" (str "{{steps.a.output.0}}") (field "y" (str "is {{ steps.a.output.0 }}") end))

abbrev resolved : Value
resolved = obj (field "x" (num (nat 7)) (field "y" (str "is 1") end))

strictly_resolved : resolve_value host json_text defaults strict scope config ≡ inr resolved
unfolding resolver
strictly_resolved = refl

missing_refused :
    resolve_value host json_text defaults strict scope (str "{{steps.b}}")
    ≡ inl (path_not_found "steps.b")
unfolding resolver
missing_refused = refl

strict_refines_legacy_example :
    resolve_value host json_text defaults legacy scope config ≡ inr resolved
strict_refines_legacy_example =
    strict_refines_legacy host json_text defaults scope config resolved strictly_resolved

abbrev bad_call : ExpressionError
bad_call = record { fault = unsupported_syntax; expression = "a()" }

call_refused :
    resolve_value host json_text defaults legacy scope (str "{{a()}}") ≡ inl (not_parsed bad_call)
unfolding resolver
call_refused = refl

abbrev context : Context
context = record {
  options = defaults;
  available_step_keys = "a" ∷ [];
  current_step_key = some "b";
  allow_metadata = true;
  allow_connection = true;
  local_namespaces = [];
}

-- What the validator calls.
validator : Unit {0}
unfolding parser namespaces connection_allowed connection_blocked error_fields trigger_paths
    event_fields validate_step_path is_bad_error_path is_bad_connection is_trigger_path is_bad_event
    namespace_rules is_known path_issues parts_issues validate_expression_string texts element_texts
    field_texts validate_expressions_in_value paths_of references_in extract_expression_references
validator = tt

accepted : validate_expressions_in_value context config ≡ []
unfolding validator
accepted = refl

secret_refused :
    validate_expressions_in_value context (str "{{connection.secret}}")
    ≡ record {
      code = "EXPRESSION_ACCESS_DENIED";
      expression = "connection.secret";
      namespace = some "connection";
    }
      ∷ []
unfolding validator
secret_refused = refl

-- A value with an expression about a connection, one about a field of an internal event, one about a
-- step and one about a variable.
abbrev referring : Value
referring = obj (
    field "id" (str "{{connection.id}}") (
      field "event" (str "{{trigger.event.type}} of {{steps.a.output}}")
        (field "name" (arr (element (str "{{variables.name}}") no_more)) end)))

referring_accepted : validate_expressions_in_value context referring ≡ []
unfolding validator
referring_accepted = refl

accepted_references_example :
    All (IsAllowed context) (extract_expression_references defaults referring)
accepted_references_example = accepted_references context referring referring_accepted

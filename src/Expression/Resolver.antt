-- ===== src/Expression/Resolver.antt =====
-- packages/expression-engine/src/resolver.ts: what the templates of a value stand for in a scope.
pub mod Laws
use Prim.Native.String
use flowmind.Prelude.{
  ℕ, zero, suc, String, Bool, true, false, not, ◌&&◌, ◌||◌, ◌⊎◌, inl, inr, ◌>>=◌, Option, none,
  some, List, [], ◌∷◌, ◌==◌, if◌then◌else◌, nat_beq,
}
use flowmind.Duration.{digits}
use flowmind.Json.{
  Value, undefined, null, bool, num, str, arr, obj, Elements, no_more, element, Fields, end, field,
  items, get, has_own, Host, to_text,
}
use flowmind.Text
use flowmind.Expression.{
  Options, ExpressionError, ExpressionPath, TemplatePart, text, expression, ParsedTemplate,
  is_array_index, parse_template,
}

pub data Mode : Type 0 where
  legacy strict : Mode

-- The errors of the engine: those of the parser, and a path that was not found.
pub data ResolveError : Type 0 where
  not_parsed : ExpressionError → ResolveError
  path_not_found : String → ResolveError

-- current[index]
abbrev pub at_index : ℕ → List Value → Option Value
at_index n [] = none
at_index zero (v ∷ vs) = some v
at_index (suc n) (v ∷ vs) = at_index n vs

abbrev pub own_property : String → Value → Option Value
own_property key (obj fs) = if has_own key fs then some (get key fs) else none
own_property key _ = none

-- One round of the loop of `readPath`.
unfoldable pub read_segment : Value → String → Option Value
unfolding is_array_index digits has_own get
read_segment (arr vs) segment =
    if is_array_index segment then at_index (digits 0 segment).0 (items vs) else none
read_segment v segment = own_property segment v

-- `none` is `found: false`.
unfoldable pub read_path : Value → List String → Option Value
unfolding read_segment
read_path current [] = some current
read_path current (segment ∷ rest) = elim (read_segment current segment) [
  | none ↦ none
  | some next ↦ read_path next rest
]

-- `JSON.stringify` is the runtime's.
module _ (host : Host) (json_text : Value → String) where
  unfoldable pub stringify_interpolated : Value → String
  unfolding to_text
  stringify_interpolated (str s) = s
  stringify_interpolated (num n) = to_text host (num n)
  stringify_interpolated (bool b) = to_text host (bool b)
  stringify_interpolated v = json_text v

  -- The text for a part that was found: a value that is undefined or null counts as not found.
  abbrev pub interpolated : Option Value → Option String
  interpolated none = none
  interpolated (some undefined) = none
  interpolated (some null) = none
  interpolated (some v) = some (stringify_interpolated v)

  unfoldable pub resolve_expression : Mode → Value → String → List String → ResolveError ⊎ String
  unfolding read_path stringify_interpolated
  resolve_expression mode scope raw segments = elim (interpolated (read_path scope segments)) [
    | some s ↦ inr s
    | none ↦ elim mode [ legacy ↦ inr "" | strict ↦ inl (path_not_found raw) ]
  ]

  -- The loop over the parts.
  unfoldable pub resolve_parts : Mode → Value → List TemplatePart → ResolveError ⊎ String
  unfolding resolve_expression
  resolve_parts mode scope [] = inr ""
  resolve_parts mode scope (text s ∷ rest) = do
    out ← resolve_parts mode scope rest
    inr (Text.append s out)
  resolve_parts mode scope (expression raw path ∷ rest) = do
    s ← resolve_expression mode scope raw path.segments
    out ← resolve_parts mode scope rest
    inr (Text.append s out)

  -- A single expression keeps the type of its value.
  unfoldable pub resolve_single : Mode → Value → String → List String → ResolveError ⊎ Value
  unfolding read_path
  resolve_single mode scope raw segments = elim (read_path scope segments) [
    | some v ↦ inr v
    | none ↦ elim mode [ legacy ↦ inr (str "") | strict ↦ inl (path_not_found raw) ]
  ]

  unfoldable pub resolve_template : Mode → Value → List TemplatePart → ResolveError ⊎ Value
  unfolding resolve_single resolve_parts
  resolve_template mode scope (expression raw path ∷ []) =
      resolve_single mode scope raw path.segments
  resolve_template mode scope parts = do s ← resolve_parts mode scope parts; inr (str s)

  unfoldable pub resolve_string : Options → Mode → Value → String → ResolveError ⊎ Value
  unfolding parse_template resolve_template
  resolve_string options mode scope source = elim (parse_template options source) [
    | inl e ↦ inl (not_parsed e)
    | inr t ↦
        if nat_beq t.expression_count 0
        then inr (str source)
        else resolve_template mode scope t.parts
  ]

  module _ (options : Options) (mode : Mode) (scope : Value) where
    unfoldable mutual
      pub resolve_value : Value → ResolveError ⊎ Value
      resolve_value (str s) = resolve_string options mode scope s
      resolve_value (arr vs) = do ws ← resolve_elements vs; inr (arr ws)
      resolve_value (obj fs) = do gs ← resolve_fields fs; inr (obj gs)
      resolve_value v = inr v

      pub resolve_elements : Elements → ResolveError ⊎ Elements
      resolve_elements no_more = inr no_more
      resolve_elements (element v vs) = do
        w ← resolve_value v
        ws ← resolve_elements vs
        inr (element w ws)

      pub resolve_fields : Fields → ResolveError ⊎ Fields
      resolve_fields end = inr end
      resolve_fields (field k v fs) = do
        w ← resolve_value v
        gs ← resolve_fields fs
        inr (field k w gs)

-- ===== src/Expression/Resolver/Laws.antt =====
-- The two modes of the resolver, the values without templates, and the composition of paths.
use Prim.Native.String.{[], ◌∷◌}
use flowmind.Prelude.{
  String, ◌≡◌, refl, Bool-cases, Option-cases, inl, inr, Agrees, Fails, outcome, bind-Agrees,
  bind-Fails, Option, none, some, List, [], ◌∷◌, ◌++◌, nat_beq,
}
use flowmind.Json.{
  Value, undefined, null, bool, num, str, arr, obj, Elements, no_more, element, Fields, end, field,
  Host,
}
use flowmind.Expression.{Options, ExpressionError, TemplatePart, text, expression, parse_template}
use flowmind.Expression.Resolver.{
  legacy, strict, ResolveError, not_parsed, read_segment, read_path, interpolated,
  resolve_expression, resolve_parts, resolve_single, resolve_template, resolve_string,
  resolve_value, resolve_elements, resolve_fields,
}

abbrev then_read : Option Value → List String → Option Value
then_read none rest = none
then_read (some v) rest = read_path v rest

-- To read a path is to read its beginning and then, from there, the rest.
pub read_path-append :
    (v : Value) (front rest : List String)
    → read_path v (front ++ rest) ≡ then_read (read_path v front) rest
unfolding read_path
read_path-append v [] rest = refl
read_path-append v (segment ∷ front) rest = elim (Option-cases (read_segment v segment)) [
  | inl missing ↦ rw (read_path, missing) refl
  | inr (next, found) ↦ rw (read_path, found) (read_path-append next front rest)
]

module _ (host : Host) (json_text : Value → String) (scope : Value) where
  expression-Agrees :
      (raw : String) (segments : List String) (s : String)
      → resolve_expression host json_text strict scope raw segments ≡ inr s
      → resolve_expression host json_text legacy scope raw segments ≡ inr s
  unfolding resolve_expression
  expression-Agrees raw segments s h =
      elim (Option-cases (interpolated host json_text (read_path scope segments))) [
        | inl missing ↦ cc (rw (resolve_expression, missing) at h)
        | inr (t, found) ↦ rw (resolve_expression, found) (rw (resolve_expression, found) at h)
      ]

  parts-Agrees :
      (parts : List TemplatePart)
      → Agrees
          (resolve_parts host json_text strict scope parts)
          (resolve_parts host json_text legacy scope parts)
  unfolding resolve_parts
  parts-Agrees [] = λ s h. h
  parts-Agrees (text t ∷ rest) = bind-Agrees _ _ _ _ (parts-Agrees rest) (λ out s h. h)
  parts-Agrees (expression raw path ∷ rest) =
      bind-Agrees _ _ _ _ (expression-Agrees raw path.segments)
        (λ t. bind-Agrees _ _ _ _ (parts-Agrees rest) (λ out s h. h))

  single-Agrees :
      (raw : String) (segments : List String)
      → Agrees
          (resolve_single host json_text strict scope raw segments)
          (resolve_single host json_text legacy scope raw segments)
  unfolding resolve_single
  single-Agrees raw segments v h = elim (Option-cases (read_path scope segments)) [
    | inl missing ↦ cc (rw (resolve_single, missing) at h)
    | inr (t, found) ↦ rw (resolve_single, found) (rw (resolve_single, found) at h)
  ]

  template-Agrees :
      (parts : List TemplatePart)
      → Agrees
          (resolve_template host json_text strict scope parts)
          (resolve_template host json_text legacy scope parts)
  unfolding resolve_template
  template-Agrees (expression raw path ∷ []) = single-Agrees raw path.segments
  template-Agrees [] = λ s h. h
  template-Agrees (text t ∷ rest) = bind-Agrees _ _ _ _ (parts-Agrees (text t ∷ rest)) (λ s v h. h)
  template-Agrees (expression raw path ∷ p ∷ rest) =
      bind-Agrees _ _ _ _ (parts-Agrees (expression raw path ∷ p ∷ rest)) (λ s v h. h)

  string-Agrees :
      (options : Options) (source : String)
      → Agrees
          (resolve_string host json_text options strict scope source)
          (resolve_string host json_text options legacy scope source)
  unfolding resolve_string
  string-Agrees options source v h = elim (outcome (parse_template options source)) [
    | inl (e, bad) ↦ cc (rw (resolve_string, bad) at h)
    | inr (t, good) ↦ elim (Bool-cases (nat_beq t.expression_count 0)) [
      | inl plain ↦ rw (resolve_string, good, plain) (rw (resolve_string, good, plain) at h)
      | inr some_expressions ↦
          rw (resolve_string, good, some_expressions)
            (template-Agrees t.parts v (rw (resolve_string, good, some_expressions) at h))
    ]
  ]

  module _ (options : Options) where
    mutual
      unfolding resolve_value resolve_elements resolve_fields

      value-Agrees :
          (v : Value)
          → Agrees
              (resolve_value host json_text options strict scope v)
              (resolve_value host json_text options legacy scope v)
      value-Agrees (str s) = string-Agrees options s
      value-Agrees (arr vs) = bind-Agrees _ _ _ _ (elements-Agrees vs) (λ ws v h. h)
      value-Agrees (obj fs) = bind-Agrees _ _ _ _ (fields-Agrees fs) (λ gs v h. h)
      value-Agrees undefined = λ v h. h
      value-Agrees null = λ v h. h
      value-Agrees (bool b) = λ v h. h
      value-Agrees (num n) = λ v h. h

      elements-Agrees :
          (vs : Elements)
          → Agrees
              (resolve_elements host json_text options strict scope vs)
              (resolve_elements host json_text options legacy scope vs)
      elements-Agrees no_more = λ ws h. h
      elements-Agrees (element v vs) =
          bind-Agrees _ _ _ _ (value-Agrees v)
            (λ w. bind-Agrees _ _ _ _ (elements-Agrees vs) (λ ws us h. h))

      fields-Agrees :
          (fs : Fields)
          → Agrees
              (resolve_fields host json_text options strict scope fs)
              (resolve_fields host json_text options legacy scope fs)
      fields-Agrees end = λ gs h. h
      fields-Agrees (field k v fs) =
          bind-Agrees _ _ _ _ (value-Agrees v)
            (λ w. bind-Agrees _ _ _ _ (fields-Agrees fs) (λ gs us h. h))

  abbrev IsSyntax : ResolveError → Type 0
  IsSyntax e = (pe : ExpressionError) × (e ≡ not_parsed pe)

  expression_total :
      (raw : String) (segments : List String)
      → Fails IsSyntax (resolve_expression host json_text legacy scope raw segments)
  unfolding resolve_expression
  expression_total raw segments e h =
      elim (Option-cases (interpolated host json_text (read_path scope segments))) [
        | inl missing ↦ cc (rw (resolve_expression, missing) at h)
        | inr (t, found) ↦ cc (rw (resolve_expression, found) at h)
      ]

  parts_total :
      (parts : List TemplatePart) → Fails IsSyntax (resolve_parts host json_text legacy scope parts)
  unfolding resolve_parts
  parts_total [] = λ e h. cc
  parts_total (text t ∷ rest) = bind-Fails IsSyntax _ _ (parts_total rest) (λ out e h. cc)
  parts_total (expression raw path ∷ rest) =
      bind-Fails IsSyntax _ _ (expression_total raw path.segments)
        (λ t. bind-Fails IsSyntax _ _ (parts_total rest) (λ out e h. cc))

  template_total :
      (parts : List TemplatePart)
      → Fails IsSyntax (resolve_template host json_text legacy scope parts)
  unfolding resolve_template resolve_single
  template_total (expression raw path ∷ []) = λ e h.
      elim (Option-cases (read_path scope path.segments)) [
        | inl missing ↦ cc (rw (resolve_single, missing) at h)
        | inr (t, found) ↦ cc (rw (resolve_single, found) at h)
      ]
  template_total [] = λ e h. cc
  template_total (text t ∷ rest) =
      bind-Fails IsSyntax _ _ (parts_total (text t ∷ rest)) (λ s e h. cc)
  template_total (expression raw path ∷ p ∷ rest) =
      bind-Fails IsSyntax _ _ (parts_total (expression raw path ∷ p ∷ rest)) (λ s e h. cc)

  string_total :
      (options : Options) (source : String)
      → Fails IsSyntax (resolve_string host json_text options legacy scope source)
  unfolding resolve_string
  string_total options source e h = elim (outcome (parse_template options source)) [
    | inl (pe, bad) ↦ (pe, cc (rw (resolve_string, bad) at h))
    | inr (t, good) ↦ elim (Bool-cases (nat_beq t.expression_count 0)) [
      | inl plain ↦ cc (rw (resolve_string, good, plain) at h)
      | inr some_expressions ↦
          template_total t.parts e (rw (resolve_string, good, some_expressions) at h)
    ]
  ]

  module _ (options : Options) where
    mutual
      unfolding resolve_value resolve_elements resolve_fields

      value_total :
          (v : Value) → Fails IsSyntax (resolve_value host json_text options legacy scope v)
      value_total (str s) = string_total options s
      value_total (arr vs) = bind-Fails IsSyntax _ _ (elements_total vs) (λ ws e h. cc)
      value_total (obj fs) = bind-Fails IsSyntax _ _ (fields_total fs) (λ gs e h. cc)
      value_total undefined = λ e h. cc
      value_total null = λ e h. cc
      value_total (bool b) = λ e h. cc
      value_total (num n) = λ e h. cc

      elements_total :
          (vs : Elements) → Fails IsSyntax (resolve_elements host json_text options legacy scope vs)
      elements_total no_more = λ e h. cc
      elements_total (element v vs) =
          bind-Fails IsSyntax _ _ (value_total v)
            (λ w. bind-Fails IsSyntax _ _ (elements_total vs) (λ ws e h. cc))

      fields_total :
          (fs : Fields) → Fails IsSyntax (resolve_fields host json_text options legacy scope fs)
      fields_total end = λ e h. cc
      fields_total (field k v fs) =
          bind-Fails IsSyntax _ _ (value_total v)
            (λ w. bind-Fails IsSyntax _ _ (fields_total fs) (λ gs e h. cc))

-- Where strict mode resolves a value, legacy mode resolves it to the same value.
pub strict_refines_legacy :
    (host : Host) (json_text : Value → String) (options : Options) (scope v w : Value)
    → resolve_value host json_text options strict scope v ≡ inr w
    → resolve_value host json_text options legacy scope v ≡ inr w
strict_refines_legacy host json_text options scope v w h =
    value-Agrees host json_text scope options v w h

-- In legacy mode a value fails to resolve only where one of its templates does not parse.
legacy_fails_by_syntax :
    (host : Host) (json_text : Value → String) (options : Options) (scope v : Value)
    (e : ResolveError)
    → resolve_value host json_text options legacy scope v ≡ inl e
    → (pe : ExpressionError) × (e ≡ not_parsed pe)
legacy_fails_by_syntax host json_text options scope v e h =
    value_total host json_text scope options v e h

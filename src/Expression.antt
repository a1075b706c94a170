-- ===== src/Expression.antt =====
-- packages/expression-engine/src/parser.ts: the templates `{{ path }}` that the texts of a step's
-- configuration hold. A throw is an error value; of an ExpressionError the message is kept as a
-- constructor, which determines its code.

pub mod Scan
pub mod Parse
pub mod Template
pub mod Cache
pub mod Resolver
pub mod Validator
use Prim.Native.String
use Prim.Native.String.{[], ◌∷◌}
use flowmind.Prelude.{
  ℕ, zero, suc, Char, code, String, Bool, true, false, not, ◌&&◌, ◌||◌, ◌⊎◌, inl, inr, Option, none,
  some, List, [], ◌∷◌, ◌++◌, ◌==◌, if◌then◌else◌, ltb, leb, nat_beq, length, any, has,
}
use flowmind.Duration.{digits}
use flowmind.Text

-- The limits that the caller may set, and what holds where it does not.
pub record Options : Type 0 where
  pub max_expression_length : Option ℕ
  pub max_interpolations : Option ℕ
  pub max_path_depth : Option ℕ
  pub max_array_index : Option ℕ

abbrev pub limit_or : Option ℕ → ℕ → ℕ
limit_or none d = d
limit_or (some n) d = n

pub data Fault : Type 0 where
  empty_expression too_long unsupported_syntax empty_segment too_deep segment_forbidden : Fault
  index_too_large segment_invalid too_many_expressions invalid_delimiters : Fault

pub record ExpressionError : Type 0 where
  pub fault : Fault
  pub expression : String

pub record ExpressionPath : Type 0 where
  pub raw : String
  pub namespace : String
  pub segments : List String

pub data TemplatePart : Type 0 where
  text : String → TemplatePart
  expression : String → ExpressionPath → TemplatePart

pub record ParsedTemplate : Type 0 where
  pub source : String
  pub parts : List TemplatePart
  pub expression_count : ℕ
  pub is_single_expression : Bool

-- Some character satisfies the test.
abbrev pub some_char : (ℕ → Bool) → String → Bool
some_char p [] = false
some_char p (c ∷ s) = p (code c) || some_char p s

-- A character before the segments of what follows it.
abbrev pub push_char : Char → List String → List String
push_char c [] = (c ∷ "") ∷ []
push_char c (first ∷ rest) = if nat_beq (code c) b'.' then "" ∷ first ∷ rest else (c ∷ first) ∷ rest

-- raw.split(".")
unfoldable pub split_dots : String → List String
split_dots [] = "" ∷ []
split_dots (c ∷ s) = push_char c (split_dots s)

-- /[()[\]'"`|+\-*/%?:,]/
unfoldable pub is_unsupported : ℕ → Bool
is_unsupported c =
    (leb b'(' c && leb c b'-')
    || nat_beq c b'['
    || nat_beq c b']'
    || nat_beq c b'\''
    || nat_beq c b'"'
    || nat_beq c b'`'
    || nat_beq c b'|'
    || nat_beq c b'/'
    || nat_beq c b'%'
    || nat_beq c b'?'
    || nat_beq c b':'

-- ARRAY_INDEX: /^[0-9]+$/
unfoldable pub is_array_index : String → Bool
unfolding Text.is_digit
is_array_index s = not (s == "") && Text.all Text.is_digit s

abbrev pub is_word_start : ℕ → Bool
is_word_start c = Text.is_letter c || nat_beq c b'_'

-- IDENTIFIER: /^[A-Za-z_][A-Za-z0-9_-]*$/
unfoldable pub is_identifier : String → Bool
unfolding Text.is_letter Text.is_digit
is_identifier [] = false
is_identifier (c ∷ s) =
    is_word_start (code c) && Text.all (λ d. is_word_start d || Text.is_digit d || nat_beq d b'-') s

unfoldable pub forbidden_segments : List String
forbidden_segments = "__proto__" ∷ "prototype" ∷ "constructor" ∷ "eval" ∷ []

-- What one round of the loop over the segments throws.
unfoldable pub segment_fault : Options → String → Option Fault
unfolding is_array_index is_identifier forbidden_segments has digits
segment_fault options segment =
    if has segment forbidden_segments
    then some segment_forbidden
    else if is_array_index segment
    then (if ltb (limit_or options.max_array_index 10000) (digits 0 segment).0
        then some index_too_large
        else none)
    else if is_identifier segment
    then none
    else some segment_invalid

unfoldable pub segments_fault : Options → List String → Option Fault
unfolding segment_fault
segments_fault options [] = none
segments_fault options (s ∷ rest) = elim (segment_fault options s) [
  | some fault ↦ some fault
  | none ↦ segments_fault options rest
]

unfoldable pub path_fault : Options → String → Option Fault
unfolding is_unsupported split_dots segments_fault
path_fault options raw =
    let segments = split_dots raw in
    if raw == ""
    then some empty_expression
    else if ltb (limit_or options.max_expression_length 512) (Text.length raw)
    then some too_long
    else if some_char is_unsupported raw
    then some unsupported_syntax
    else if any (λ s. s == "") segments
    then some empty_segment
    else if ltb (limit_or options.max_path_depth 16) (length segments)
    then some too_deep
    else segments_fault options segments

abbrev pub first_segment : List String → String
first_segment [] = ""
first_segment (s ∷ rest) = s

unfoldable pub parse_path : Options → String → ExpressionError ⊎ ExpressionPath
unfolding path_fault split_dots
parse_path options raw = elim (path_fault options raw) [
  | some fault ↦ inl (record { fault = fault; expression = raw })
  | none ↦
      inr (record {
        raw = raw;
        namespace = first_segment (split_dots raw);
        segments = split_dots raw;
      })
]

-- A text before and after the first place where the mark stands.
unfoldable pub cut : String → String → Option (String × String)
unfolding Text.starts_with Text.drop
cut mark [] = if mark == "" then some ("", "") else none
cut mark (c ∷ s) = elim (Text.starts_with mark (c ∷ s)) [
  | true ↦ some ("", Text.drop (Text.length mark) (c ∷ s))
  | false ↦ elim (cut mark s) [ none ↦ none | some (before, after) ↦ some (c ∷ before, after) ]
]

-- One match of the regular expression: the text from the end of the match before, and the group.
pub record Match : Type 0 where
  pub before : String
  pub group : String

-- The matches of /\{\{([\s\S]*?)\}\}/g, and what follows the last of them. A match is four characters
-- long at least, so the length of the text is fuel enough.
unfoldable pub matches : ℕ → String → List Match × String
unfolding cut
matches zero s = ([], s)
matches (suc fuel) s = elim (cut "{{" s) [
  | none ↦ ([], s)
  | some (before, after) ↦ elim (cut "}}" after) [
    | none ↦ ([], s)
    | some (group, rest) ↦
        let (found, tail) = matches fuel rest in
        (record { before = before; group = group } ∷ found, tail)
  ]
]

abbrev pub text_part : String → List TemplatePart
text_part s = if s == "" then [] else text s ∷ []

-- The loop over the matches, after `count` of them.
unfoldable pub parse_matches : Options → ℕ → List Match → ExpressionError ⊎ List TemplatePart
unfolding parse_path Text.trim
parse_matches options count [] = inr []
parse_matches options count (m ∷ rest) =
    let raw = Text.trim m.group in
    if ltb (limit_or options.max_interpolations 50) (suc count)
    then inl (record { fault = too_many_expressions; expression = raw })
    else elim (parse_path options raw) [
      | inl e ↦ inl e
      | inr path ↦ elim (parse_matches options (suc count) rest) [
        | inl e ↦ inl e
        | inr parts ↦ inr (text_part m.before ++ expression raw path ∷ parts)
      ]
    ]

abbrev pub is_single : List TemplatePart → Bool
is_single (expression raw path ∷ []) = true
is_single _ = false

abbrev pub has_delimiter : String → Bool
has_delimiter s = Text.includes "{{" s || Text.includes "}}" s

-- `parseTemplate` without its cache.
unfoldable pub parse_template : Options → String → ExpressionError ⊎ ParsedTemplate
unfolding matches parse_matches Text.includes
parse_template options source =
    let (found, tail) = matches (Text.length source) source in
    elim (parse_matches options 0 found) [
      | inl e ↦ inl e
      | inr parts ↦
          if not (tail == "") && has_delimiter tail
            || Text.includes "{{" source && nat_beq (length found) 0
          then inl (record { fault = invalid_delimiters; expression = source })
          else inr (record {
            source = source;
            parts = parts ++ text_part tail;
            expression_count = length found;
            is_single_expression = is_single (parts ++ text_part tail);
          })
    ]

-- ===== src/Expression/Template.antt =====
-- What parseTemplate accepts, and how the parts spell the source.
use Prim.Native.String.{[], ◌∷◌}
use flowmind.Prelude.{
  ℕ, suc, ◌+◌, ◌≤◌, String, ◌≡◌, refl, ap, sym, ◌∙◌, subst, Bool, not, ◌&&◌, ◌||◌, Bool-cases, ◌⊎◌,
  inl, inr, List, [], ◌∷◌, ◌++◌, arith, nat_beq, ltb, ◌==◌, eq_iff, length,
}
use flowmind.Text
use flowmind.Expression.{
  Options, limit_or, ExpressionError, ExpressionPath, TemplatePart, text, expression,
  ParsedTemplate, Match, parse_path, matches, text_part, is_single, has_delimiter, parse_matches,
  parse_template,
}
use flowmind.Expression.Scan.{spell, spell-matches}

-- The parts stand in the source in their order, an expression between its delimiters with white
-- space around it, and its path is what parsePath makes of it.
abbrev pub Spells : Options → List TemplatePart → String → Type 0
Spells options [] s = s ≡ ""
Spells options (text v ∷ parts) s =
    (rest : String) × (s ≡ Text.append v rest) × Spells options parts rest
Spells options (expression raw path ∷ parts) s =
    (group : String) × (rest : String) × (s
      ≡ Text.append "{{" (Text.append group (Text.append "}}" rest)))
    × (Text.trim group ≡ raw)
    × (parse_path options raw ≡ inr path)
    × Spells options parts rest

Spells-text_part :
    (options : Options) (v : String) (parts : List TemplatePart) (s : String)
    → Spells options parts s
    → Spells options (text_part v ++ parts) (Text.append v s)
Spells-text_part options v parts s h = elim (Bool-cases (v == "")) [
  | inl empty ↦ rw ((eq_iff v "").0 empty) h
  | inr full ↦ rw full (s, refl, h)
]

-- How many of the parts are expressions.
abbrev pub expressions : List TemplatePart → ℕ
expressions [] = 0
expressions (text v ∷ parts) = expressions parts
expressions (expression raw path ∷ parts) = suc (expressions parts)

expressions-text_part :
    (v : String) (parts : List TemplatePart)
    → expressions (text_part v ++ parts) ≡ expressions parts
expressions-text_part v parts = elim (Bool-cases (v == "")) [
  | inl empty ↦ rw empty refl
  | inr full ↦ rw full refl
]

text_part-append :
    (v : String) (parts more : List TemplatePart)
    → (text_part v ++ parts) ++ more ≡ text_part v ++ (parts ++ more)
text_part-append v parts more = elim (Bool-cases (v == "")) [
  | inl empty ↦ rw empty refl
  | inr full ↦ rw full refl
]

pub result :
    {A : Type 0} (r : ExpressionError ⊎ A)
    → ((e : ExpressionError) × (r ≡ inl e)) ⊎ ((a : A) × (r ≡ inr a))
result (inl e) = inl (e, refl)
result (inr a) = inr (a, refl)

append-nil : (s : String) → Text.append s "" ≡ s
append-nil [] = refl
append-nil (c ∷ s) = cc (append-nil s)

-- What a round of the loop needs and leaves.
parse_matches-cons :
    (options : Options) (count : ℕ) (m : Match) (rest : List Match) (parts : List TemplatePart)
    → parse_matches options count (m ∷ rest) ≡ inr parts
    → (path : ExpressionPath) × (more : List TemplatePart) × (parse_path options (Text.trim m.group)
        ≡ inr path)
      × (parse_matches options (suc count) rest ≡ inr more)
      × (parts ≡ text_part m.before ++ expression (Text.trim m.group) path ∷ more)
      × (suc count ≤ limit_or options.max_interpolations 50)
unfolding parse_matches
parse_matches-cons options count m rest parts h =
    elim (Bool-cases (ltb (limit_or options.max_interpolations 50) (suc count))) [
      | inl many ↦ cc (rw (parse_matches, many) at h)
      | inr few ↦ elim (result (parse_path options (Text.trim m.group))) [
        | inl (e, bad) ↦ cc (rw (parse_matches, few, bad) at h)
        | inr (path, good) ↦ elim (result (parse_matches options (suc count) rest)) [
          | inl (e, bad) ↦ cc (rw (parse_matches, few, good, bad) at h)
          | inr (more, fine) ↦
              (path, more, good, fine, cc (rw (parse_matches, few, good, fine) at h), ground arith)
        ]
      ]
    ]

parse_matches-Spells :
    (options : Options) (count : ℕ) (ms : List Match) (parts tail_parts : List TemplatePart)
    (tail : String)
    → parse_matches options count ms ≡ inr parts
    → Spells options tail_parts tail
    → count ≤ limit_or options.max_interpolations 50
    → Spells options (parts ++ tail_parts) (spell ms tail)
      × (expressions (parts ++ tail_parts) ≡ length ms + expressions tail_parts)
      × (count + length ms ≤ limit_or options.max_interpolations 50)
unfolding parse_matches
parse_matches-Spells options count [] parts tail_parts tail h t le =
    let e : [] ≡ parts = cc in
    subst
      (λ ps.
        Spells options (ps ++ tail_parts) tail
        × (expressions (ps ++ tail_parts) ≡ 0 + expressions tail_parts)
        × (count + 0 ≤ limit_or options.max_interpolations 50))
      e (t, omega arith, omega arith)
parse_matches-Spells options count (m ∷ rest) parts tail_parts tail h t le =
    let (path, more, good, fine, e, few) = parse_matches-cons options count m rest parts h in
    let (spelled, counted, bounded) =
      parse_matches-Spells options (suc count) rest more tail_parts tail fine t few in
    let regroup =
      text_part-append m.before (expression (Text.trim m.group) path ∷ more) tail_parts in
    rw (e, regroup)
      (
        Spells-text_part options m.before _ _ (m.group, spell rest tail, refl, refl, good, spelled),
        expressions-text_part m.before _ ∙ ap suc counted ∙ omega arith,
        omega arith,
      )

tail-Spells : (options : Options) (tail : String) → Spells options (text_part tail) tail
tail-Spells options tail = elim (Bool-cases (tail == "")) [
  | inl empty ↦ rw empty ((eq_iff tail "").0 empty)
  | inr full ↦ rw full ("", sym (append-nil tail), refl)
]

no_expressions : (tail : String) → expressions (text_part tail) ≡ 0
no_expressions tail = elim (Bool-cases (tail == "")) [
  | inl empty ↦ rw empty refl
  | inr full ↦ rw full refl
]

-- What the parser makes of a source.
pub record IsParsed (options : Options) (source : String) (t : ParsedTemplate) : Type 0 where
  pub kept : t.source ≡ source
  pub spelled : Spells options t.parts source
  pub counted : t.expression_count ≡ expressions t.parts
  pub bounded : t.expression_count ≤ limit_or options.max_interpolations 50

-- A template that parses loses nothing: its parts stand in the source in their order, each
-- expression between its delimiters, with white space around it and the path that parsePath makes of
-- it; and the count of expressions is right and within the limit.
pub parse_template-IsParsed :
    (options : Options) (source : String) (t : ParsedTemplate)
    → parse_template options source ≡ inr t
    → IsParsed options source t
unfolding parse_template
parse_template-IsParsed options source t h = elim (result (parse_matches options 0 found)) [
  | inl (e, bad) ↦ cc (rw (parse_template, bad) at h)
  | inr (parts, good) ↦ elim (Bool-cases rejected) [
    | inl yes' ↦ cc (rw (parse_template, good, yes') at h)
    | inr no' ↦
        let (spelled, counted, bounded) =
          parse_matches-Spells options 0 found parts (text_part tail) tail good
            (tail-Spells options tail) (omega arith) in
        let same : record {
          source = source;
          parts = parts ++ text_part tail;
          expression_count = length found;
          is_single_expression = is_single (parts ++ text_part tail);
        }
            ≡ t =
          cc (rw (parse_template, good, no') at h) in
        subst (IsParsed options source) same (record {
          kept = refl;
          spelled =
              subst (Spells options (parts ++ text_part tail))
                (sym (spell-matches (Text.length source) source)) spelled;
          counted = omega (arith, counted, no_expressions tail);
          bounded = omega arith;
        })
  ]
]
  where
    found : List Match
    found = (matches (Text.length source) source).0

    tail : String
    tail = (matches (Text.length source) source).1

    rejected : Bool
    rejected =
        not (tail == "") && has_delimiter tail
        || Text.includes "{{" source && nat_beq (length found) 0

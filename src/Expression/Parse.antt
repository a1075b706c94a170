-- ===== src/Expression/Parse.antt =====
-- What parseTemplate and parsePath accept.
use Prim.Native.String.{[], ◌∷◌}
use flowmind.Prelude.{
  ℕ, ◌≤◌, Char, code, String, ◌≡◌, ◌≢◌, refl, ap, sym, ◌∙◌, subst, Bool, true, false, ◌||◌,
  Bool-cases, Option-cases, inl, inr, none, List, [], ◌∷◌, arith, nat_beq, ◌==◌, eq_iff, length,
  any, has, All,
}
use flowmind.Duration.{digits}
use flowmind.Text
use flowmind.Expression.{
  Options, limit_or, ExpressionPath, some_char, push_char, split_dots, is_unsupported,
  is_array_index, is_word_start, is_identifier, forbidden_segments, segment_fault, segments_fault,
  path_fault, parse_path, first_segment,
}
use flowmind.Expression.Scan.{code_eq}

-- segments.join(".")
unfoldable pub join_dots : List String → String
join_dots [] = ""
join_dots (s ∷ []) = s
join_dots (s ∷ t ∷ rest) = Text.append s (Text.append "." (join_dots (t ∷ rest)))

abbrev dot_char : Char
dot_char = "."

join-push :
    (c : Char) (first : String) (rest : List String)
    → join_dots (push_char c (first ∷ rest)) ≡ c ∷ join_dots (first ∷ rest)
unfolding join_dots
join-push c first [] = elim (Bool-cases (nat_beq (code c) b'.')) [
  | inl dot ↦ rw dot (cc (code_eq c dot_char dot))
  | inr other ↦ rw other refl
]
join-push c first (second ∷ rest) = elim (Bool-cases (nat_beq (code c) b'.')) [
  | inl dot ↦ rw dot (cc (code_eq c dot_char dot))
  | inr other ↦ rw other refl
]

-- Some segment always stands there.
split-cons : (s : String) → (first : String) × (rest : List String) × (split_dots s ≡ first ∷ rest)
unfolding split_dots
split-cons [] = ("", [], refl)
split-cons (c ∷ s) =
    let (first, rest, e) = split-cons s in
    elim (Bool-cases (nat_beq (code c) b'.')) [
      | inl dot ↦ ("", first ∷ rest, rw (e, dot) refl)
      | inr other ↦ (c ∷ first, rest, rw (e, other) refl)
    ]

join-split : (s : String) → join_dots (split_dots s) ≡ s
unfolding split_dots join_dots
join-split [] = refl
join-split (c ∷ s) =
    let (first, rest, e) = split-cons s in
    rw e (join-push c first rest ∙ ap (λ t. c ∷ t) (ap join_dots (sym e) ∙ join-split s))

-- A segment is a name of letters, digits and underscores that is not forbidden, or an index within
-- the limit. A dash, which the identifiers allow, is refused before they are read.
pub record IsSafeSegment (options : Options) (s : String) : Type 0 where
  pub allowed : has s forbidden_segments ≡ false
  pub named : s ≢ ""
  pub plain : Text.all (λ c. is_word_start c || Text.is_digit c) s ≡ true
  pub small : is_array_index s ≡ true → (digits 0 s).0 ≤ limit_or options.max_array_index 10000

split-clean :
    (p : ℕ → Bool) (s : String)
    → some_char p s ≡ false
    → All (λ segment. some_char p segment ≡ false) (split_dots s)
unfolding split_dots
split-clean p [] h = (refl, tt)
split-clean p (c ∷ s) h =
    let (first, rest, e) = split-cons s in
    let ih = split-clean p s (ground arith) in
    rw e (push p c first rest (ground arith) (rw e at ih))
  where
    push :
        (p : ℕ → Bool) (c : Char) (first : String) (rest : List String)
        → p (code c) ≡ false
        → All (λ segment. some_char p segment ≡ false) (first ∷ rest)
        → All (λ segment. some_char p segment ≡ false) (push_char c (first ∷ rest))
    push p c first rest clean (one, more) = elim (Bool-cases (nat_beq (code c) b'.')) [
      | inl dot ↦ rw dot (refl, (one, more))
      | inr other ↦ rw other (ground arith, more)
    ]

fault_free :
    (options : Options) (raw : String)
    → path_fault options raw ≡ none
    → (Text.length raw ≤ limit_or options.max_expression_length 512)
      × (some_char is_unsupported raw ≡ false)
      × (any (λ s. s == "") (split_dots raw) ≡ false)
      × (length (split_dots raw) ≤ limit_or options.max_path_depth 16)
      × (segments_fault options (split_dots raw) ≡ none)
unfolding path_fault
fault_free options raw h = ground arith

plain_index :
    (s : String)
    → Text.all Text.is_digit s ≡ true
    → Text.all (λ c. is_word_start c || Text.is_digit c) s ≡ true
plain_index [] h = refl
plain_index (c ∷ s) h = ground (arith, plain_index s)

plain_tail :
    (s : String)
    → some_char is_unsupported s ≡ false
    → Text.all (λ d. is_word_start d || Text.is_digit d || nat_beq d b'-') s ≡ true
    → Text.all (λ c. is_word_start c || Text.is_digit c) s ≡ true
unfolding is_unsupported
plain_tail [] clean h = refl
plain_tail (c ∷ s) clean h = ground (arith, plain_tail s)

plain_identifier :
    (s : String)
    → some_char is_unsupported s ≡ false
    → is_identifier s ≡ true
    → Text.all (λ c. is_word_start c || Text.is_digit c) s ≡ true
unfolding is_identifier
plain_identifier [] clean h = cc
plain_identifier (c ∷ s) clean h = ground (arith, plain_tail s)

safe_segment :
    (options : Options) (s : String)
    → segment_fault options s ≡ none
    → some_char is_unsupported s ≡ false
    → (s == "") ≡ false
    → IsSafeSegment options s
unfolding segment_fault
safe_segment options s h clean named = elim (Bool-cases (is_array_index s)) [
  | inl index ↦ record {
    allowed = ground arith;
    named = λ e. ground (arith, eq_iff s "");
    plain = plain_index s (digits_only s index);
    small = λ i. ground arith;
  }
  | inr other ↦ record {
    allowed = ground arith;
    named = λ e. ground (arith, eq_iff s "");
    plain = plain_identifier s clean (ground arith);
    small = λ i. cc (other, i);
  }
]
  where
    digits_only : (s : String) → is_array_index s ≡ true → Text.all Text.is_digit s ≡ true
    digits_only s h = unfold is_array_index in ground arith

safe_segments :
    (options : Options) (segments : List String)
    → segments_fault options segments ≡ none
    → All (λ s. some_char is_unsupported s ≡ false) segments
    → any (λ s. s == "") segments ≡ false
    → All (IsSafeSegment options) segments
unfolding segments_fault
safe_segments options [] h clean named = tt
safe_segments options (s ∷ rest) h (one, more) named =
    elim (Option-cases (segment_fault options s)) [
      | inl fine ↦ (
        safe_segment options s fine one (ground arith),
        safe_segments options rest (rw (segments_fault, fine) at h) more (ground arith),
      )
      | inr (fault, bad) ↦ cc (rw (segments_fault, bad) at h)
    ]

-- What the engine may read: a path that spells the expression.
pub record IsSafePath (options : Options) (path : ExpressionPath) : Type 0 where
  pub spelled : join_dots path.segments ≡ path.raw
  pub begins : (rest : List String) × (path.segments ≡ path.namespace ∷ rest)
  pub short : Text.length path.raw ≤ limit_or options.max_expression_length 512
  pub shallow : length path.segments ≤ limit_or options.max_path_depth 16
  pub safe : All (IsSafeSegment options) path.segments

-- An expression that parses is the path of its segments joined by dots, within the limits on its
-- length and depth, and each segment is a name of letters, digits and underscores that is not
-- forbidden, or an index within its limit.
pub parse_path-IsSafePath :
    (options : Options) (raw : String) (path : ExpressionPath)
    → parse_path options raw ≡ inr path
    → IsSafePath options path × (path.raw ≡ raw)
unfolding parse_path
parse_path-IsSafePath options raw path h = elim (Option-cases (path_fault options raw)) [
  | inr (fault, bad) ↦ cc (rw (parse_path, bad) at h)
  | inl fine ↦
      let (short, clean, named, shallow, rest) = fault_free options raw fine in
      let same : record {
        raw = raw;
        namespace = first_segment (split_dots raw);
        segments = split_dots raw;
      }
          ≡ path =
        cc (rw (parse_path, fine) at h) in
      subst (λ p. IsSafePath options p × (p.raw ≡ raw)) same
        (
          record {
            spelled = join-split raw;
            begins = let (first, tail, e) = split-cons raw in rw e (tail, refl);
            short = short;
            shallow = shallow;
            safe =
                safe_segments options (split_dots raw) rest (split-clean is_unsupported raw clean)
                  named;
          },
          refl,
        )
]

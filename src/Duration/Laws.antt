-- ===== src/Duration/Laws.antt =====
-- The editor's pattern for durations and the worker's parser of them, side by side.
use Prim.Native.String.{[], ◌∷◌}
use flowmind.Prelude.{
  leb, ◌≤◌, ℕ, ◌+◌, ◌*◌, ◌-◌, ◌<◌, Char, code, String, ◌≡◌, ◌↔◌, refl, ap, sym, ◌∙◌, true, false,
  ◌&&◌, Option, none, some, arith, Bool-cases, Option-cases, inl, inr,
}
use flowmind.Json.{str}
use flowmind.Text
use flowmind.Duration.{
  digits, unit_ms, is_word, after_digits, amount, is_duration, parse_duration_ms,
}

trim_start_blank : (t : String) → Text.is_blank t ≡ true → Text.trim_start t ≡ []
unfolding Text.trim_start Text.is_blank
trim_start_blank [] h = refl
trim_start_blank (c ∷ t) h = ground (arith, trim_start_blank t)

-- Trimming one end does not change what trimming the other does.
trim_start-trim_end :
    (s : String) → Text.trim_start (Text.trim_end s) ≡ Text.trim_end (Text.trim_start s)
unfolding Text.trim_start Text.trim_end Text.is_blank
trim_start-trim_end [] = refl
trim_start-trim_end (c ∷ s) = elim (Bool-cases (Text.is_space (code c))) [
  | inl space ↦ elim (Bool-cases (Text.is_blank s)) [
    | inl blank ↦ rw (space, blank) (rw (trim_start_blank s blank) refl)
    | inr more ↦ rw (space, more) (rw space (trim_start-trim_end s))
  ]
  | inr other ↦ rw other (rw other refl)
]

digit_not_space : (c : ℕ) → Text.is_digit c ≡ true → Text.is_space c ≡ false
unfolding Text.is_space Text.is_digit
digit_not_space c h = elim (Bool-cases (Text.is_space c)) [
  | inl space ↦ ground arith
  | inr other ↦ other
]

digits-trim_end :
    (n : ℕ) (s : String)
    → digits n (Text.trim_end s) ≡ ((digits n s).0, Text.trim_end (digits n s).1)
unfolding digits Text.trim_end Text.is_blank
digits-trim_end n [] = refl
digits-trim_end n (c ∷ s) = elim (Bool-cases (Text.is_digit (code c))) [
  | inl d ↦ rw (d, digit_not_space (code c) d) (rw d (digits-trim_end (n * 10 + (code c - 48)) s))
  | inr other ↦ elim (Bool-cases (Text.is_blank (c ∷ s))) [
    | inl blank ↦ rw (other, blank) refl
    | inr more ↦ rw (other, more) (rw other refl)
  ]
]

unit_ms-nil : unit_ms [] ≡ none
unfolding unit_ms is_word
unit_ms-nil = refl

trim_end-nil : Text.trim_end [] ≡ []
unfolding Text.trim_end
trim_end-nil = refl

trim_end-blank : (s : String) → Text.is_blank s ≡ true → Text.trim_end s ≡ []
unfolding Text.trim_end
trim_end-blank [] h = refl
trim_end-blank (c ∷ s) h = rw h refl

trim_end-cons :
    (c : Char) (s : String)
    → Text.is_blank (c ∷ s) ≡ false
    → Text.trim_end (c ∷ s) ≡ c ∷ Text.trim_end s
unfolding Text.trim_end
trim_end-cons c s h = rw h refl

blank-tail : (c : Char) (s : String) → Text.is_blank (c ∷ s) ≡ true → Text.is_blank s ≡ true
unfolding Text.is_blank
blank-tail c s h = ground arith

after_digits-none :
    (unit : String → Option ℕ) (n : ℕ) (c : Char) (s : String)
    → unit (Text.trim_start s) ≡ none
    → after_digits unit (n, c ∷ s) ≡ none
unfolding after_digits
after_digits-none unit n c s h = rw (h, after_digits)

after_digits-cong :
    (unit unit' : String → Option ℕ) (n : ℕ) (c : Char) (s s' : String)
    → unit (Text.trim_start s) ≡ unit' (Text.trim_start s')
    → after_digits unit (n, c ∷ s) ≡ after_digits unit' (n, c ∷ s')
unfolding after_digits
after_digits-cong unit unit' n c s s' h = rw (h, after_digits)

after_digits-nil : (unit : String → Option ℕ) (n : ℕ) → after_digits unit (n, []) ≡ none
unfolding after_digits
after_digits-nil unit n = refl

after_digits-trim_end :
    (n : ℕ) (s : String)
    → after_digits unit_ms (n, Text.trim_end s)
      ≡ after_digits (λ u. unit_ms (Text.trim_end u)) (n, s)
after_digits-trim_end n [] = rw trim_end-nil (rw (after_digits-nil, after_digits-nil) refl)
after_digits-trim_end n (c ∷ s) = elim (Bool-cases (Text.is_blank (c ∷ s))) [
  | inl blank ↦
      rw (trim_end-blank (c ∷ s) blank, after_digits-nil)
        (sym (
          after_digits-none (λ u. unit_ms (Text.trim_end u)) n c s
            (rw (trim_start_blank s (blank-tail c s blank), trim_end-nil) unit_ms-nil)))
  | inr more ↦ rw (trim_end-cons c s more) (
      after_digits-cong unit_ms (λ u. unit_ms (Text.trim_end u)) n c (Text.trim_end s) s
        (ap unit_ms (trim_start-trim_end s)))
]

digit_of_first : (d : ℕ) → (leb b'1' d && leb d b'9') ≡ true → Text.is_digit d ≡ true
unfolding Text.is_digit
digit_of_first d h = ground arith

amount-trim_end :
    (s : String) → amount unit_ms (Text.trim_end s) ≡ amount (λ u. unit_ms (Text.trim_end u)) s
unfolding amount Text.trim_end Text.is_blank
amount-trim_end [] = refl
amount-trim_end (c ∷ s) = elim (Bool-cases (leb b'1' (code c) && leb (code c) b'9')) [
  | inl first ↦ rw (digit_not_space (code c) (digit_of_first (code c) first)) (
      rw first (
        rw (digits-trim_end (code c - 48) s)
          (after_digits-trim_end (digits (code c - 48) s).0 (digits (code c - 48) s).1)))
  | inr other ↦ elim (Bool-cases (Text.is_blank (c ∷ s))) [
    | inl blank ↦ rw (other, blank) refl
    | inr more ↦ rw (other, more) (rw other refl)
  ]
]

digits-ge : (n : ℕ) (s : String) → n ≤ (digits n s).0
unfolding digits
digits-ge n [] = omega arith
digits-ge n (c ∷ s) = ground (arith, digits-ge (n * 10 + (code c - 48)) s)

unit_ms-pos : (s : String) (ms : ℕ) → unit_ms s ≡ some ms → 0 < ms
unfolding unit_ms
unit_ms-pos s ms h = ground arith

after_digits-pos :
    (n : ℕ) (s : String) (ms : ℕ) → 0 < n → after_digits unit_ms (n, s) ≡ some ms → 0 < ms
unfolding after_digits
after_digits-pos n [] ms pos h = cc
after_digits-pos n (c ∷ s) ms pos h = elim (Option-cases (unit_ms (Text.trim_start s))) [
  | inl e ↦ ground (arith, e)
  | inr (u, e) ↦ grind (arith, e, unit_ms-pos (Text.trim_start s) u e)
]

amount-pos : (s : String) (ms : ℕ) → amount unit_ms s ≡ some ms → 0 < ms
unfolding amount
amount-pos [] ms h = cc
amount-pos (c ∷ s) ms h =
    after_digits-pos (digits (code c - 48) s).0 (digits (code c - 48) s).1 ms
      (ground (arith, digits-ge (code c - 48) s)) (ground arith)

abbrev pattern_amount : String → Option ℕ
pattern_amount s = amount (λ u. unit_ms (Text.trim_end u)) (Text.trim_start s)

parse-trim : (s : String) → parse_duration_ms (str s) ≡ amount unit_ms (Text.trim s)
unfolding parse_duration_ms
parse-trim s = refl

trim-eq : (s : String) → Text.trim s ≡ Text.trim_end (Text.trim_start s)
unfolding Text.trim
trim-eq s = refl

parse_duration_ms-eq : (s : String) → parse_duration_ms (str s) ≡ pattern_amount s
parse_duration_ms-eq s =
    parse-trim s ∙ ap (amount unit_ms) (trim-eq s) ∙ amount-trim_end (Text.trim_start s)

is_duration-eq :
    (s : String) → is_duration s ≡ (elim (pattern_amount s) [ none ↦ false | some ms ↦ true ])
unfolding is_duration
is_duration-eq s = refl

is_duration-some : (s : String) → is_duration s ≡ true → (ms : ℕ) × (pattern_amount s ≡ some ms)
is_duration-some s h = elim (Option-cases (pattern_amount s)) [
  | inl e ↦ absurd (ground (arith, is_duration-eq s, e, h))
  | inr (ms, e) ↦ (ms, e)
]

some-is_duration : (s : String) (ms : ℕ) → pattern_amount s ≡ some ms → is_duration s ≡ true
some-is_duration s ms e = ground (arith, is_duration-eq s, e)

-- A text passes the editor's duration pattern exactly when the worker parses it, and the number of
-- milliseconds that the worker reads is then positive.
pub is_duration_iff :
    (s : String)
    → (is_duration s ≡ true) ↔ ((ms : ℕ) × (parse_duration_ms (str s) ≡ some ms) × (0 < ms))
is_duration_iff s = (
  (λ h.
      let (ms, e) = is_duration-some s h in
      let e' = parse_duration_ms-eq s ∙ e in
      (ms, e', amount-pos (Text.trim s) ms (sym (parse-trim s) ∙ e'))),
  (λ (ms, e, pos). some-is_duration s ms (sym (parse_duration_ms-eq s) ∙ e)),
)

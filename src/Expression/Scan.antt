-- ===== src/Expression/Scan.antt =====
-- The scan for `{{ … }}`: the pieces of a text that it finds.

use Prim.Native.String.{[], ◌∷◌}
use text.Mathlib.TextEquality.{Char-path}
use flowmind.Prelude.{
  ℕ, zero, suc, ◌+◌, ◌≤◌, Char, code, String, ◌≡◌, refl, ap, ◌∙◌, true, Bool-cases, Option-cases,
  inl, inr, none, some, List, arith, nat_beq, ◌==◌, eq_iff,
}
use flowmind.Text
use flowmind.Expression.{Match, cut, matches}

pub code_eq : (c d : Char) → nat_beq (code c) (code d) ≡ true → c ≡ d
code_eq c d h = Char-path c d (ground arith)

starts_with_sound :
    (p s : String) → Text.starts_with p s ≡ true → s ≡ Text.append p (Text.drop (Text.length p) s)
unfolding Text.starts_with Text.drop
starts_with_sound [] s h = refl
starts_with_sound (c ∷ p) [] h = cc
starts_with_sound (c ∷ p) (d ∷ s) h =
    let same = code_eq c d (ground arith) in
    let rest = starts_with_sound p s (ground arith) in cc (same, rest)

cut_sound :
    (mark s before after : String)
    → cut mark s ≡ some (before, after)
    → s ≡ Text.append before (Text.append mark after)
unfolding cut
cut_sound mark [] before after h = elim (Bool-cases (mark == "")) [
  | inl empty ↦ cc (rw empty at h, (eq_iff mark "").0 empty)
  | inr some_mark ↦ cc (rw some_mark at h)
]
cut_sound mark (c ∷ s) before after h = elim (Bool-cases (Text.starts_with mark (c ∷ s))) [
  | inl here ↦ cc (rw (cut, here) at h, starts_with_sound mark (c ∷ s) here)
  | inr later ↦ elim (Option-cases (cut mark s)) [
    | inl missing ↦ cc (rw (cut, later, missing) at h)
    | inr ((b, a), found) ↦ cc (rw (cut, later, found) at h, cut_sound mark s b a found)
  ]
]

length-append : (s t : String) → Text.length (Text.append s t) ≡ Text.length s + Text.length t
length-append [] t = omega arith
length-append (c ∷ s) t = omega (arith, length-append s t)

cut_shorter :
    (mark s before after : String)
    → cut mark s ≡ some (before, after)
    → Text.length mark + Text.length after ≤ Text.length s
cut_shorter mark s before after h = omega (
  arith,
  ap Text.length (cut_sound mark s before after h),
  length-append before (Text.append mark after),
  length-append mark after,
)

-- The text that a list of matches and a tail were read from.
abbrev pub spell : List Match → String → String
spell List.[] tail = tail
spell (List.◌∷◌ m rest) tail =
    Text.append m.before
      (Text.append "{{" (Text.append m.group (Text.append "}}" (spell rest tail))))

pub spell-matches : (fuel : ℕ) (s : String) → s ≡ spell (matches fuel s).0 (matches fuel s).1
unfolding matches
spell-matches zero s = refl
spell-matches (suc fuel) s = elim (Option-cases (cut "{{" s)) [
  | inl no_open ↦ rw (matches, no_open) refl
  | inr ((before, after), opened) ↦ elim (Option-cases (cut "}}" after)) [
    | inl no_close ↦ rw (matches, opened, no_close) refl
    | inr ((group, rest), closed) ↦
        rw (matches, opened, closed)
          (cut_sound "{{" s before after opened
            ∙ ap (λ t. Text.append before (Text.append "{{" t))
                (cut_sound "}}" after group rest closed
                  ∙ ap (λ t. Text.append group (Text.append "}}" t)) (spell-matches fuel rest)))
  ]
]

-- No "{{" that a "}}" follows.
abbrev pub IsUnmatched : String → Type 0
IsUnmatched s = (before after : String) → cut "{{" s ≡ some (before, after) → cut "}}" after ≡ none

-- The scan ends with every expression found, if its fuel is the length of the text or more: in what it
-- leaves, no "{{" has a "}}" after it.
matches-IsUnmatched :
    (fuel : ℕ) (s : String) → Text.length s ≤ fuel → IsUnmatched (matches fuel s).1
unfolding matches
matches-IsUnmatched zero [] h = λ before after e. cc
matches-IsUnmatched zero (c ∷ s) h = absurd (omega arith)
matches-IsUnmatched (suc fuel) s h = elim (Option-cases (cut "{{" s)) [
  | inl no_open ↦ rw (matches, no_open) (λ before after e. cc (no_open, e))
  | inr ((b, a), opened) ↦ elim (Option-cases (cut "}}" a)) [
    | inl no_close ↦ rw (matches, opened, no_close) (λ before after e. cc (opened, no_close, e))
    | inr ((group, rest), closed) ↦
        rw (matches, opened, closed)
          (matches-IsUnmatched fuel rest
            (omega (arith, cut_shorter "{{" s b a opened, cut_shorter "}}" a group rest closed)))
  ]
]

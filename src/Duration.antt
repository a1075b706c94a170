-- ===== src/Duration.antt =====
-- `parseDurationMs` of apps/worker/src/engine/wait-time-parser.ts, and the pattern by which
-- packages/shared-types/src/graph-validation.ts accepts a duration. Both are regular expressions;
-- the digits, the white space and the unit are read one after the other.
pub mod Laws
use Prim.Native.String.{[], ◌∷◌}
use flowmind.Prelude.{
  ℕ, zero, suc, ◌+◌, ◌-◌, ◌*◌, Char, code, String, Bool, true, false, not, ◌&&◌, ◌||◌, Option, none,
  some, List, ◌==◌, if◌then◌else◌, leb, nat_beq,
}
use flowmind.Json.{Number, nan, infinite, finite, Value, num, str}
use flowmind.Text

-- /[0-9]*/: the number that the digits denote, and the rest
unfoldable pub digits : ℕ → String → ℕ × String
digits n [] = (n, [])
digits n (c ∷ s) =
    let d = code c in if Text.is_digit d then digits (n * 10 + (d - 48)) s else (n, c ∷ s)

-- Letters of the ASCII range are compared without regard to case.
unfoldable pub lower : ℕ → ℕ
unfolding Text.is_upper
lower c = if Text.is_upper c then c + 32 else c

-- The text is `word`, in any case.
unfoldable pub is_word : String → String → Bool
is_word [] [] = true
is_word (c ∷ w) (d ∷ s) = nat_beq (code c) (lower (code d)) && is_word w s
is_word _ _ = false

-- The milliseconds of a unit: /^(second|seconds|minute|minutes|hour|hours)$/i
unfoldable pub unit_ms : String → Option ℕ
unit_ms s =
    if is_word "second" s || is_word "seconds" s
    then some 1000
    else if is_word "minute" s || is_word "minutes" s
    then some 60000
    else if is_word "hour" s || is_word "hours" s
    then some 3600000
    else none

-- What follows the digits: white space, at least one character of it, and a text for the unit.
unfoldable pub after_digits : (String → Option ℕ) → ℕ × String → Option ℕ
unfolding Text.trim_start
after_digits unit (n, []) = none
after_digits unit (n, c ∷ s) = elim (unit (Text.trim_start s)) [
  | none ↦ none
  | some ms ↦ if Text.is_space (code c) then some (n * ms) else none
]

-- Digits of which the first is not 0, and what follows them.
unfoldable pub amount : (String → Option ℕ) → String → Option ℕ
amount unit [] = none
amount unit (c ∷ s) =
    let d = code c in
    if leb b'1' d && leb d b'9' then after_digits unit (digits (d - 48) s) else none

-- DURATION_PATTERN.test(s): /^\s*([1-9][0-9]*)\s+(second|seconds|minute|minutes|hour|hours)\s*$/i
unfoldable pub is_duration : String → Bool
unfolding amount digits after_digits unit_ms is_word lower Text.trim_start Text.trim_end
    Text.is_blank Text.is_space Text.is_digit
is_duration s = elim (amount (λ u. unit_ms (Text.trim_end u)) (Text.trim_start s)) [
  | none ↦ false
  | some ms ↦ true
]

-- The milliseconds, or `none` for the errors. An amount is exact, as a double is up to 2 ^ 53.
unfoldable pub parse_duration_ms : Value → Option ℕ
unfolding amount digits after_digits unit_ms is_word lower Text.trim Text.is_digit
parse_duration_ms (num (finite false w f)) = if nat_beq w 0 && nat_beq f 0 then none else some w
parse_duration_ms (str s) = amount unit_ms (Text.trim s)
parse_duration_ms _ = none

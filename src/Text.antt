-- ===== src/Text.antt =====
-- JavaScript's string methods that the program calls. A text is a list of code points: `length` counts
-- those, for texts that the program takes apart itself, and `utf16_length` counts code units, as
-- `s.length` does.
use Prim.Native.String.{[], ◌∷◌}
use flowmind.Prelude.{
  ℕ, zero, suc, ◌+◌, ◌-◌, code, String, Bool, true, false, ◌&&◌, ◌||◌, leb, nat_beq, if◌then◌else◌,
}

-- a + b
abbrev pub append : String → String → String
append [] b = b
append (c ∷ a) b = c ∷ append a b

-- How many code points there are.
abbrev pub length : String → ℕ
length [] = 0
length (c ∷ s) = suc (length s)

-- The code units of a code point in UTF-16.
abbrev pub units : ℕ → ℕ
units c = if leb 65536 c then 2 else 1

-- s.length
abbrev pub utf16_length : String → ℕ
utf16_length [] = 0
utf16_length (c ∷ s) = units (code c) + utf16_length s

-- Every character satisfies the test.
abbrev pub all : (ℕ → Bool) → String → Bool
all p [] = true
all p (c ∷ s) = p (code c) && all p s

-- White space of ECMAScript, for `trim` and `\s`.
unfoldable pub is_space : ℕ → Bool
is_space c =
    (leb 9 c && leb c 13)
    || nat_beq c 32
    || nat_beq c 160
    || nat_beq c 5760
    || (leb 8192 c && leb c 8202)
    || nat_beq c 8232
    || nat_beq c 8233
    || nat_beq c 8239
    || nat_beq c 8287
    || nat_beq c 12288
    || nat_beq c 65279

unfoldable pub is_digit : ℕ → Bool
is_digit c = leb b'0' c && leb c b'9'

unfoldable pub is_upper : ℕ → Bool
is_upper c = leb b'A' c && leb c b'Z'

unfoldable pub is_letter : ℕ → Bool
unfolding is_upper
is_letter c = is_upper c || (leb b'a' c && leb c b'z')

unfoldable pub trim_start : String → String
trim_start [] = []
trim_start (c ∷ s) = let rest = trim_start s in if is_space (code c) then rest else c ∷ s

-- No character but white space.
unfoldable pub is_blank : String → Bool
is_blank [] = true
is_blank (c ∷ s) = is_space (code c) && is_blank s

unfoldable pub trim_end : String → String
trim_end [] = []
trim_end (c ∷ s) = let rest = trim_end s in if is_blank (c ∷ s) then [] else c ∷ rest

unfoldable pub trim : String → String
unfolding trim_start trim_end is_blank is_space
trim s = trim_end (trim_start s)

-- s.startsWith(p)
unfoldable pub starts_with : String → String → Bool
starts_with [] s = true
starts_with (c ∷ p) [] = false
starts_with (c ∷ p) (d ∷ s) = nat_beq (code c) (code d) && starts_with p s

-- s.includes(p)
unfoldable pub includes : String → String → Bool
unfolding starts_with
includes p [] = starts_with p []
includes p (c ∷ s) = starts_with p (c ∷ s) || includes p s

-- s.slice(0, n), which counts code units. Where it would keep the first half of a pair of them, the
-- character is left out, since a text of the model has no half of one.
unfoldable pub take : ℕ → String → String
take n [] = []
take n (c ∷ s) =
    let rest = take (n - units (code c)) s in if leb (units (code c)) n then c ∷ rest else []

-- s.slice(n)
unfoldable pub drop : ℕ → String → String
drop zero s = s
drop (suc n) [] = []
drop (suc n) (c ∷ s) = drop n s

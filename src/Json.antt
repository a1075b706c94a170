-- ===== src/Json.antt =====
-- The `unknown` values that the program reads: JSON values, and `undefined`.

use flowmind.Prelude.{
  ℕ, String, Bool, true, false, not, ◌&&◌, ◌||◌, Option, none, some, List, [], ◌∷◌, ◌==◌,
  if◌then◌else◌, ltb, nat_beq,
}
use flowmind.Text

-- A finite number is plus or minus `whole` + `fraction` / 2 ^ 1074: every double is a multiple of
-- 2 ^ -1074, and `fraction` is below 2 ^ 1074.
pub data Number : Type 0 where
  nan : Number
  infinite : (negative : Bool) → Number
  finite : (negative : Bool) (whole fraction : ℕ) → Number

mutual
  pub data Value : Type 0 where
    undefined : Value
    null : Value
    bool : Bool → Value
    num : Number → Value
    str : String → Value
    arr : Elements → Value
    obj : Fields → Value

  -- The own properties of an object, in their order.
  pub data Fields : Type 0 where
    end : Fields
    field : String → Value → Fields → Fields

  pub data Elements : Type 0 where
    no_more : Elements
    element : Value → Elements → Elements

abbrev pub items : Elements → List Value
items no_more = []
items (element v vs) = v ∷ items vs

abbrev pub entries : Fields → List (String × Value)
entries end = []
entries (field k v fs) = (k, v) ∷ entries fs

-- fields[key]
unfoldable pub get : String → Fields → Value
get key end = undefined
get key (field k v fs) = if k == key then v else get key fs

-- Object.prototype.hasOwnProperty.call(fields, key)
unfoldable pub has_own : String → Fields → Bool
has_own key end = false
has_own key (field k v fs) = k == key || has_own key fs

abbrev pub nat : ℕ → Number
nat n = finite false n 0

-- Number.isInteger
unfoldable pub is_integer : Number → Bool
is_integer (finite s w f) = nat_beq f 0
is_integer _ = false

-- n < k and n > k, for a natural number k
unfoldable pub below : Number → ℕ → Bool
below nan k = false
below (infinite s) k = s
below (finite true w f) k = not (nat_beq w 0 && nat_beq f 0) || ltb 0 k
below (finite false w f) k = ltb w k

unfoldable pub above : Number → ℕ → Bool
above nan k = false
above (infinite s) k = not s
above (finite true w f) k = false
above (finite false w f) k = ltb k w || (nat_beq w k && ltb 0 f)

-- What the program uses of the JavaScript runtime and does not implement: the text of a number, the
-- number that a text denotes (both of ECMA-262), and whether `Date.parse` reads a text.
pub record Host : Type 0 where
  pub number_text : Number → String
  pub number_of_text : String → Number
  pub is_date : String → Bool

module _ (host : Host) where
  open host use {number_text, number_of_text}

  unfoldable mutual
    -- String(value)
    pub to_text : Value → String
    to_text undefined = "undefined"
    to_text null = "null"
    to_text (bool true) = "true"
    to_text (bool false) = "false"
    to_text (num n) = number_text n
    to_text (str s) = s
    to_text (arr vs) = join_items vs
    to_text (obj fs) = "[object Object]"

    -- values.join(","), in which `undefined` and `null` are empty
    pub join_items : Elements → String
    join_items no_more = ""
    join_items (element v no_more) = join_item v
    join_items (element v (element w vs)) =
        Text.append (join_item v) (Text.append "," (join_items (element w vs)))

    pub join_item : Value → String
    join_item undefined = ""
    join_item null = ""
    join_item (bool true) = "true"
    join_item (bool false) = "false"
    join_item (num n) = number_text n
    join_item (str s) = s
    join_item (arr vs) = join_items vs
    join_item (obj fs) = "[object Object]"

  -- Number(value)
  unfoldable pub to_number : Value → Number
  unfolding to_text
  to_number undefined = nan
  to_number null = nat 0
  to_number (bool true) = nat 1
  to_number (bool false) = nat 0
  to_number (num n) = n
  to_number (str s) = number_of_text s
  to_number (arr vs) = number_of_text (to_text (arr vs))
  to_number (obj fs) = number_of_text "[object Object]"

-- value ?? fallback
unfoldable pub or_else : Value → Value → Value
or_else undefined d = d
or_else null d = d
or_else v d = v

-- `stringValue` of graph-validation.ts: the trimmed text, if it is not empty
unfoldable pub string_value : Value → Option String
string_value (str s) = if Text.trim s == "" then none else some (Text.trim s)
string_value _ = none

-- A property of a value that the source takes for a record; a value that is none has no property.
unfoldable pub property : String → Value → Value
unfolding get
property key (obj fs) = get key fs
property key _ = undefined

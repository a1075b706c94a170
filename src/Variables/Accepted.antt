-- ===== src/Variables/Accepted.antt =====
-- Which values assertVariableValue accepts, and what its clone keeps.
use flowmind.Prelude.{
  ℕ, zero, suc, ◌≤◌, String, ◌≡◌, refl, ap, ◌↔◌, false, bind-inr, inr, none, some, arith,
  if◌then◌else◌, ltb, length,
}
use flowmind.Json.{
  Number, nan, infinite, finite, Value, undefined, null, bool, num, str, arr, obj, Elements,
  no_more, element, Fields, end, field, items,
}
use flowmind.Text
use flowmind.Variables.{
  value_too_large, max_value_bytes, max_operations, visit, clone_number, clone, clone_elements,
  clone_fields, assert_safe_json, assert_variable_value,
}
use flowmind.Variables.Limits.{
  nodes, element_nodes, field_nodes, IsSafe, AreSafe, HasSafe, checked-inr, visit_sound,
  visit_complete,
}

clone_number-IsSafe :
    (depth : ℕ) (n : Number) → IsSafe depth (num n) → IsSafe depth (clone_number n)
unfolding IsSafe
clone_number-IsSafe depth nan safe = absurd safe
clone_number-IsSafe depth (infinite s) safe = absurd safe
clone_number-IsSafe depth (finite s zero zero) safe = safe
clone_number-IsSafe depth (finite s zero (suc f)) safe = safe
clone_number-IsSafe depth (finite s (suc w) f) safe = safe

number_nodes : (n : Number) → nodes (clone_number n) ≤ nodes (num n)
unfolding nodes
number_nodes nan = omega arith
number_nodes (infinite s) = omega arith
number_nodes (finite s zero zero) = omega arith
number_nodes (finite s zero (suc f)) = omega arith
number_nodes (finite s (suc w) f) = omega arith

clone_length : (vs : Elements) → length (items (clone_elements vs)) ≡ length (items vs)
unfolding clone_elements
clone_length no_more = refl
clone_length (element undefined vs) = ap suc (clone_length vs)
clone_length (element null vs) = ap suc (clone_length vs)
clone_length (element (bool b) vs) = ap suc (clone_length vs)
clone_length (element (num n) vs) = ap suc (clone_length vs)
clone_length (element (str s) vs) = ap suc (clone_length vs)
clone_length (element (arr ws) vs) = ap suc (clone_length vs)
clone_length (element (obj fs) vs) = ap suc (clone_length vs)

mutual
  unfolding clone IsSafe

  pub clone-IsSafe : (depth : ℕ) (v : Value) → IsSafe depth v → IsSafe depth (clone v)
  clone-IsSafe depth undefined safe = safe
  clone-IsSafe depth null safe = safe
  clone-IsSafe depth (bool b) safe = safe
  clone-IsSafe depth (num n) safe = clone_number-IsSafe depth n safe
  clone-IsSafe depth (str s) safe = safe
  clone-IsSafe depth (arr vs) (shallow, short, safe) =
      (shallow, omega (arith, clone_length vs), clone-AreSafe (suc depth) vs safe)
  clone-IsSafe depth (obj fs) (shallow, safe) = (shallow, clone-HasSafe (suc depth) fs safe)

  clone-AreSafe : (depth : ℕ) (vs : Elements) → AreSafe depth vs → AreSafe depth (clone_elements vs)
  clone-AreSafe depth no_more safe = tt
  clone-AreSafe depth (element undefined vs) (one, more) = absurd one
  clone-AreSafe depth (element null vs) (one, more) = (one, clone-AreSafe depth vs more)
  clone-AreSafe depth (element (bool b) vs) (one, more) = (one, clone-AreSafe depth vs more)
  clone-AreSafe depth (element (num n) vs) (one, more) =
      (clone-IsSafe depth (num n) one, clone-AreSafe depth vs more)
  clone-AreSafe depth (element (str s) vs) (one, more) = (one, clone-AreSafe depth vs more)
  clone-AreSafe depth (element (arr ws) vs) (one, more) =
      (clone-IsSafe depth (arr ws) one, clone-AreSafe depth vs more)
  clone-AreSafe depth (element (obj fs) vs) (one, more) =
      (clone-IsSafe depth (obj fs) one, clone-AreSafe depth vs more)

  clone-HasSafe : (depth : ℕ) (fs : Fields) → HasSafe depth fs → HasSafe depth (clone_fields fs)
  clone-HasSafe depth end safe = tt
  clone-HasSafe depth (field key undefined fs) (named, one, more) = absurd one
  clone-HasSafe depth (field key null fs) (named, one, more) =
      (named, one, clone-HasSafe depth fs more)
  clone-HasSafe depth (field key (bool b) fs) (named, one, more) =
      (named, one, clone-HasSafe depth fs more)
  clone-HasSafe depth (field key (num n) fs) (named, one, more) =
      (named, clone-IsSafe depth (num n) one, clone-HasSafe depth fs more)
  clone-HasSafe depth (field key (str s) fs) (named, one, more) =
      (named, one, clone-HasSafe depth fs more)
  clone-HasSafe depth (field key (arr vs) fs) (named, one, more) =
      (named, clone-IsSafe depth (arr vs) one, clone-HasSafe depth fs more)
  clone-HasSafe depth (field key (obj gs) fs) (named, one, more) =
      (named, clone-IsSafe depth (obj gs) one, clone-HasSafe depth fs more)

-- A clone holds no more values than what it is made of.
mutual
  unfolding clone nodes

  pub nodes-clone : (v : Value) → nodes (clone v) ≤ nodes v
  nodes-clone undefined = omega arith
  nodes-clone null = omega arith
  nodes-clone (bool b) = omega arith
  nodes-clone (num n) = number_nodes n
  nodes-clone (str s) = omega arith
  nodes-clone (arr vs) = omega (arith, element_nodes-clone_elements vs)
  nodes-clone (obj fs) = omega (arith, field_nodes-clone_fields fs)

  element_nodes-clone_elements :
      (vs : Elements) → element_nodes (clone_elements vs) ≤ element_nodes vs
  element_nodes-clone_elements no_more = omega arith
  element_nodes-clone_elements (element undefined vs) =
      omega (arith, element_nodes-clone_elements vs)
  element_nodes-clone_elements (element null vs) = omega (arith, element_nodes-clone_elements vs)
  element_nodes-clone_elements (element (bool b) vs) =
      omega (arith, element_nodes-clone_elements vs)
  element_nodes-clone_elements (element (num n) vs) =
      omega (arith, number_nodes n, element_nodes-clone_elements vs)
  element_nodes-clone_elements (element (str s) vs) = omega (arith, element_nodes-clone_elements vs)
  element_nodes-clone_elements (element (arr ws) vs) =
      omega (arith, nodes-clone (arr ws), element_nodes-clone_elements vs)
  element_nodes-clone_elements (element (obj fs) vs) =
      omega (arith, nodes-clone (obj fs), element_nodes-clone_elements vs)

  field_nodes-clone_fields : (fs : Fields) → field_nodes (clone_fields fs) ≤ field_nodes fs
  field_nodes-clone_fields end = omega arith
  field_nodes-clone_fields (field key undefined fs) = omega (arith, field_nodes-clone_fields fs)
  field_nodes-clone_fields (field key null fs) = omega (arith, field_nodes-clone_fields fs)
  field_nodes-clone_fields (field key (bool b) fs) = omega (arith, field_nodes-clone_fields fs)
  field_nodes-clone_fields (field key (num n) fs) =
      omega (arith, number_nodes n, field_nodes-clone_fields fs)
  field_nodes-clone_fields (field key (str s) fs) = omega (arith, field_nodes-clone_fields fs)
  field_nodes-clone_fields (field key (arr ws) fs) =
      omega (arith, nodes-clone (arr ws), field_nodes-clone_fields fs)
  field_nodes-clone_fields (field key (obj gs) fs) =
      omega (arith, nodes-clone (obj gs), field_nodes-clone_fields fs)

-- What assertVariableValue asks of a value.
pub record IsAccepted (json_text : Value → String) (v : Value) : Type 0 where
  pub safe : IsSafe 0 v
  pub small : nodes v ≤ max_operations
  pub short : Text.utf16_length (json_text v) ≤ max_value_bytes

-- Of the values in which no object stands twice, assertVariableValue accepts exactly the JSON values within
-- its limits: finite numbers, texts, arrays, depth, keys, the number of values in it and the length of its
-- text; and it returns their clone.
pub assert_variable_value_iff :
    (json_text : Value → String) (v w : Value)
    → (assert_variable_value json_text v ≡ inr w) ↔ IsAccepted json_text v × (clone v ≡ w)
unfolding assert_variable_value assert_safe_json
assert_variable_value_iff json_text v w = (
  λ h.
      let (operations, checked', same) = bind-inr (assert_safe_json json_text v) _ _ h in
      let (counted, visited, sized) = bind-inr (visit 0 0 v) _ _ checked' in
      let (safe, count, bound) = visit_sound 0 0 v counted visited in
      (
        record { safe = safe; small = omega arith; short = size_ok (checked-inr _ _ _ sized).0 },
        cc,
      ),
  λ (accepted, same).
      rw (visit_complete 0 0 v accepted.safe (omega (arith, accepted.small)))
        (rw (too_long accepted.short) (ap inr same)),
)
  where
    size_ok :
        (if ltb max_value_bytes (Text.utf16_length (json_text v))
            then some value_too_large
            else none)
          ≡ none
        → Text.utf16_length (json_text v) ≤ max_value_bytes
    size_ok h = ground arith

    too_long :
        Text.utf16_length (json_text v) ≤ max_value_bytes
        → ltb max_value_bytes (Text.utf16_length (json_text v)) ≡ false
    too_long h = ground arith

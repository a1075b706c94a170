-- ===== src/Variables/Limits.antt =====
-- Which values the visitor accepts.
use flowmind.Prelude.{
  ℕ, suc, ◌+◌, ◌≤◌, String, ◌≡◌, refl, ap, ◌∙◌, Bool, true, false, bind-inr, inr, Option, none,
  some, arith, if◌then◌else◌, length,
}
use flowmind.Json.{
  Number, nan, infinite, finite, Value, undefined, null, bool, num, str, arr, obj, Elements,
  no_more, element, Fields, end, field, items,
}
use flowmind.Text
use flowmind.Variables.{
  VariableFault, dangerous_key, max_depth, max_string_length, max_array_items, max_operations,
  is_reserved, entry_fault, node_fault, checked, visit, visit_elements, visit_fields,
}

-- How many values there are in a value, itself included.
unfoldable mutual
  pub nodes : Value → ℕ
  nodes (arr vs) = suc (element_nodes vs)
  nodes (obj fs) = suc (field_nodes fs)
  nodes v = 1

  pub element_nodes : Elements → ℕ
  element_nodes no_more = 0
  element_nodes (element v vs) = nodes v + element_nodes vs

  pub field_nodes : Fields → ℕ
  field_nodes end = 0
  field_nodes (field key v fs) = nodes v + field_nodes fs

-- JSON within the limits, at a depth: finite numbers, texts and arrays of a bounded length, no key that
-- is dangerous or reserved, and nothing below the greatest depth.
unfoldable mutual
  pub IsSafe : ℕ → Value → Type 0
  IsSafe depth undefined = ⊥
  IsSafe depth null = depth ≤ max_depth
  IsSafe depth (bool b) = depth ≤ max_depth
  IsSafe depth (num (finite s w f)) = depth ≤ max_depth
  IsSafe depth (num n) = ⊥
  IsSafe depth (str s) = (depth ≤ max_depth) × (Text.utf16_length s ≤ max_string_length)
  IsSafe depth (arr vs) =
      (depth ≤ max_depth) × (length (items vs) ≤ max_array_items) × AreSafe (suc depth) vs
  IsSafe depth (obj fs) = (depth ≤ max_depth) × HasSafe (suc depth) fs

  pub AreSafe : ℕ → Elements → Type 0
  AreSafe depth no_more = Unit
  AreSafe depth (element v vs) = IsSafe depth v × AreSafe depth vs

  pub HasSafe : ℕ → Fields → Type 0
  HasSafe depth end = Unit
  HasSafe depth (field key v fs) = (is_reserved key ≡ false) × IsSafe depth v × HasSafe depth fs

pub checked-inr :
    (fault : Option VariableFault) (operations n : ℕ)
    → checked fault operations ≡ inr n
    → (fault ≡ none) × (operations ≡ n)
checked-inr none operations n h = (refl, cc)
checked-inr (some fault) operations n h = cc

node_ok :
    (operations depth : ℕ) (v : Value)
    → node_fault operations depth v ≡ none
    → (operations ≤ max_operations) × (depth ≤ max_depth) × (entry_fault v ≡ none)
unfolding node_fault
node_ok operations depth v h = ground arith

entered :
    (operations depth : ℕ) (v : Value) (n : ℕ)
    → checked (node_fault (suc operations) depth v) (suc operations) ≡ inr n
    → (depth ≤ max_depth) × (entry_fault v ≡ none) × (n ≡ operations + 1) × (n ≤ max_operations)
entered operations depth v n h =
    let (free, e) = checked-inr _ _ _ h in
    let (few, shallow, fine) = node_ok (suc operations) depth v free in
    (shallow, fine, omega arith, omega arith)

text_ok : (s : String) → entry_fault (str s) ≡ none → Text.utf16_length s ≤ max_string_length
unfolding entry_fault
text_ok s h = ground arith

array_ok : (vs : Elements) → entry_fault (arr vs) ≡ none → length (items vs) ≤ max_array_items
unfolding entry_fault
array_ok vs h = ground arith

number_ok :
    (depth : ℕ) (n : Number) → depth ≤ max_depth → entry_fault (num n) ≡ none → IsSafe depth (num n)
unfolding entry_fault IsSafe
number_ok depth nan shallow h = cc
number_ok depth (infinite s) shallow h = cc
number_ok depth (finite s w f) shallow h = shallow

named_ok : (b : Bool) (fault : VariableFault) → (if b then some fault else none) ≡ none → b ≡ false
named_ok true fault h = cc
named_ok false fault h = refl

undefined_not_ok : entry_fault undefined ≡ none → ⊥
unfolding entry_fault
undefined_not_ok h = cc

mutual
  unfolding visit nodes IsSafe

  pub visit_sound :
      (operations depth : ℕ) (v : Value) (n : ℕ)
      → visit operations depth v ≡ inr n
      → IsSafe depth v × (n ≡ operations + nodes v) × (n ≤ max_operations)
  visit_sound operations depth undefined n h =
      let (shallow, fine, count, bound) = entered operations depth undefined n h in
      absurd (undefined_not_ok fine)
  visit_sound operations depth null n h =
      let (shallow, fine, count, bound) = entered operations depth null n h in
      (shallow, count, bound)
  visit_sound operations depth (bool b) n h =
      let (shallow, fine, count, bound) = entered operations depth (bool b) n h in
      (shallow, count, bound)
  visit_sound operations depth (num k) n h =
      let (shallow, fine, count, bound) = entered operations depth (num k) n h in
      (number_ok depth k shallow fine, count, bound)
  visit_sound operations depth (str s) n h =
      let (shallow, fine, count, bound) = entered operations depth (str s) n h in
      ((shallow, text_ok s fine), count, bound)
  visit_sound operations depth (arr vs) n h =
      let (counted, free, rest) = bind-inr _ _ _ h in
      let (shallow, fine, one, few) = entered operations depth (arr vs) counted free in
      let (safe, count, bound) = elements_sound counted (suc depth) vs n few rest in
      ((shallow, array_ok vs fine, safe), omega arith, bound)
  visit_sound operations depth (obj fs) n h =
      let (counted, free, rest) = bind-inr _ _ _ h in
      let (shallow, fine, one, few) = entered operations depth (obj fs) counted free in
      let (safe, count, bound) = fields_sound counted (suc depth) fs n few rest in
      ((shallow, safe), omega arith, bound)

  elements_sound :
      (operations depth : ℕ) (vs : Elements) (n : ℕ)
      → operations ≤ max_operations
      → visit_elements operations depth vs ≡ inr n
      → AreSafe depth vs × (n ≡ operations + element_nodes vs) × (n ≤ max_operations)
  elements_sound operations depth no_more n few h = (tt, ground arith, ground arith)
  elements_sound operations depth (element v vs) n few h =
      let (counted, one, rest) = bind-inr _ _ _ h in
      let (safe, count, bound) = visit_sound operations depth v counted one in
      let (others, count', bound') = elements_sound counted depth vs n bound rest in
      ((safe, others), omega arith, bound')

  fields_sound :
      (operations depth : ℕ) (fs : Fields) (n : ℕ)
      → operations ≤ max_operations
      → visit_fields operations depth fs ≡ inr n
      → HasSafe depth fs × (n ≡ operations + field_nodes fs) × (n ≤ max_operations)
  fields_sound operations depth end n few h = (tt, ground arith, ground arith)
  fields_sound operations depth (field key v fs) n few h =
      let (named, free, rest) = bind-inr _ _ _ h in
      let (free', same) = checked-inr _ _ _ free in
      let (counted, one, more) = bind-inr _ _ _ rest in
      let (safe, count, bound) = visit_sound named depth v counted one in
      let (others, count', bound') = fields_sound counted depth fs n bound more in
      ((named_ok (is_reserved key) dangerous_key free', safe, others), omega arith, bound')

node_free :
    (operations depth : ℕ) (v : Value)
    → operations ≤ max_operations
    → depth ≤ max_depth
    → entry_fault v ≡ none
    → node_fault operations depth v ≡ none
unfolding node_fault
node_free operations depth v few shallow fine = ground arith

text_free : (s : String) → Text.utf16_length s ≤ max_string_length → entry_fault (str s) ≡ none
unfolding entry_fault
text_free s h = ground arith

array_free : (vs : Elements) → length (items vs) ≤ max_array_items → entry_fault (arr vs) ≡ none
unfolding entry_fault
array_free vs h = ground arith

mutual
  unfolding visit nodes IsSafe entry_fault

  pub visit_complete :
      (operations depth : ℕ) (v : Value)
      → IsSafe depth v
      → operations + nodes v ≤ max_operations
      → visit operations depth v ≡ inr (operations + nodes v)
  visit_complete operations depth undefined safe few = absurd safe
  visit_complete operations depth null safe few =
      rw (node_free (suc operations) depth null (omega arith) safe refl) (ap inr (omega arith))
  visit_complete operations depth (bool b) safe few =
      rw (node_free (suc operations) depth (bool b) (omega arith) safe refl) (ap inr (omega arith))
  visit_complete operations depth (num nan) safe few = absurd safe
  visit_complete operations depth (num (infinite s)) safe few = absurd safe
  visit_complete operations depth (num (finite s w f)) safe few =
      rw (node_free (suc operations) depth (num (finite s w f)) (omega arith) safe refl)
        (ap inr (omega arith))
  visit_complete operations depth (str s) (shallow, short) few =
      rw (node_free (suc operations) depth (str s) (omega arith) shallow (text_free s short))
        (ap inr (omega arith))
  visit_complete operations depth (arr vs) (shallow, short, safe) few =
      rw (node_free (suc operations) depth (arr vs) (omega arith) shallow (array_free vs short)) (
        elements_complete (suc operations) (suc depth) vs safe (omega arith) ∙ ap inr (omega arith))
  visit_complete operations depth (obj fs) (shallow, safe) few =
      rw (node_free (suc operations) depth (obj fs) (omega arith) shallow refl)
        (fields_complete (suc operations) (suc depth) fs safe (omega arith) ∙ ap inr (omega arith))

  elements_complete :
      (operations depth : ℕ) (vs : Elements)
      → AreSafe depth vs
      → operations + element_nodes vs ≤ max_operations
      → visit_elements operations depth vs ≡ inr (operations + element_nodes vs)
  elements_complete operations depth no_more safe few = ap inr (omega arith)
  elements_complete operations depth (element v vs) (one, others) few =
      rw (visit_complete operations depth v one (omega arith)) (
        elements_complete (operations + nodes v) depth vs others (omega arith)
        ∙ ap inr (omega arith))

  fields_complete :
      (operations depth : ℕ) (fs : Fields)
      → HasSafe depth fs
      → operations + field_nodes fs ≤ max_operations
      → visit_fields operations depth fs ≡ inr (operations + field_nodes fs)
  fields_complete operations depth end safe few = ap inr (omega arith)
  fields_complete operations depth (field key v fs) (named, one, others) few =
      rw (named, visit_complete operations depth v one (omega arith))
        (fields_complete (operations + nodes v) depth fs others (omega arith)
          ∙ ap inr (omega arith))

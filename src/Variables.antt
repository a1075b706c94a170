-- ===== src/Variables.antt =====
-- packages/shared-types/src/workflow-variables.ts: the names and the values that a variable may have.
-- A value is a tree without identities of its objects: the refusal of a value in which one object stands
-- twice is left out, as are functions, symbols and instances of classes. Texts are measured in the code
-- units of UTF-16.
pub mod Limits
pub mod Accepted
pub mod Context
use Prim.Native.String.{[], ◌∷◌}
use flowmind.Prelude.{
  ℕ, zero, suc, code, String, Bool, true, false, not, ◌&&◌, ◌||◌, ◌⊎◌, inl, inr, ◌>>=◌, Option,
  none, some, List, [], ◌∷◌, ◌==◌, if◌then◌else◌, leb, ltb, nat_beq, length, has,
}
use flowmind.Json.{
  Number, nan, infinite, finite, nat, Value, undefined, null, bool, num, str, arr, obj, Elements,
  no_more, element, Fields, end, field, items, entries,
}
use flowmind.Text
use flowmind.Expression.{is_word_start}

pub data VariableScope : Type 0 where
  execution workflow : VariableScope

-- The codes of a WorkflowVariableValidationError, one constructor for each place that throws it.
pub data VariableFault : Type 0 where
  invalid_scope invalid_name reserved_name invalid_variables : VariableFault
  too_complex too_deep value_not_json not_finite string_too_long too_many_items : VariableFault
  dangerous_key value_too_large : VariableFault

abbrev pub max_name_length : ℕ
max_name_length = 64

abbrev pub max_value_bytes : ℕ
max_value_bytes = 64000

abbrev pub max_depth : ℕ
max_depth = 12

abbrev pub max_string_length : ℕ
max_string_length = 32000

abbrev pub max_array_items : ℕ
max_array_items = 1000

abbrev pub max_operations : ℕ
max_operations = 10000

unfoldable pub dangerous_keys : List String
dangerous_keys = "__proto__" ∷ "prototype" ∷ "constructor" ∷ []

unfoldable pub reserved_names : List String
reserved_names =
    "trigger" ∷ "workflow" ∷ "execution" ∷ "variables" ∷ "steps" ∷ "system" ∷ "timestamp" ∷ "item"
    ∷ "index" ∷ "metadata" ∷ "organization" ∷ "connection" ∷ "environment" ∷ "__runtime" ∷ []

abbrev pub is_reserved : String → Bool
is_reserved key = has key reserved_names || has key dangerous_keys

-- `isVariableScope`, with the scope that the text names.
unfoldable pub assert_variable_scope : Value → VariableFault ⊎ VariableScope
assert_variable_scope (str s) =
    if s == "execution"
    then inr execution
    else if s == "workflow"
    then inr workflow
    else inl invalid_scope
assert_variable_scope _ = inl invalid_scope

-- VARIABLE_NAME_PATTERN: /^[A-Za-z_][A-Za-z0-9_-]{0,63}$/
unfoldable pub is_variable_name : String → Bool
unfolding Text.is_letter Text.is_digit
is_variable_name [] = false
is_variable_name (c ∷ s) =
    is_word_start (code c)
    && Text.all (λ d. is_word_start d || Text.is_digit d || nat_beq d b'-') s
    && ltb (Text.length s) max_name_length

unfoldable pub assert_variable_name : Value → VariableFault ⊎ String
unfolding is_variable_name reserved_names dangerous_keys has
assert_variable_name (str s) =
    if not (is_variable_name s)
    then inl invalid_name
    else if is_reserved s
    then inl reserved_name
    else inr s
assert_variable_name _ = inl invalid_name

-- What one call of `visit` throws about its entry.
unfoldable pub entry_fault : Value → Option VariableFault
entry_fault undefined = some value_not_json
entry_fault (num (finite s w f)) = none
entry_fault (num n) = some not_finite
entry_fault (str s) =
    if ltb max_string_length (Text.utf16_length s) then some string_too_long else none
entry_fault (arr vs) = if ltb max_array_items (length (items vs)) then some too_many_items else none
entry_fault v = none

-- What it throws before it visits the children; the number of operations counts this call.
unfoldable pub node_fault : ℕ → ℕ → Value → Option VariableFault
unfolding entry_fault
node_fault operations depth v =
    if ltb max_operations operations
    then some too_complex
    else if ltb max_depth depth
    then some too_deep
    else entry_fault v

abbrev pub checked : Option VariableFault → ℕ → VariableFault ⊎ ℕ
checked none operations = inr operations
checked (some fault) operations = inl fault

-- `visit`: the number of operations after it.
unfoldable mutual
  unfolding node_fault reserved_names dangerous_keys has

  pub visit : ℕ → ℕ → Value → VariableFault ⊎ ℕ
  visit operations depth (arr vs) = do
    counted ← checked (node_fault (suc operations) depth (arr vs)) (suc operations)
    visit_elements counted (suc depth) vs
  visit operations depth (obj fs) = do
    counted ← checked (node_fault (suc operations) depth (obj fs)) (suc operations)
    visit_fields counted (suc depth) fs
  visit operations depth v = checked (node_fault (suc operations) depth v) (suc operations)

  pub visit_elements : ℕ → ℕ → Elements → VariableFault ⊎ ℕ
  visit_elements operations depth no_more = inr operations
  visit_elements operations depth (element v vs) = do
    counted ← visit operations depth v
    visit_elements counted depth vs

  pub visit_fields : ℕ → ℕ → Fields → VariableFault ⊎ ℕ
  visit_fields operations depth end = inr operations
  visit_fields operations depth (field key v fs) = do
    named ← checked (if is_reserved key then some dangerous_key else none) operations
    counted ← visit named depth v
    visit_fields counted depth fs

-- JSON.parse(JSON.stringify(n))
abbrev pub clone_number : Number → Value
clone_number (finite s zero zero) = num (nat zero)
clone_number (finite s w f) = num (finite s w f)
clone_number n = null

-- `cloneJson`; of `undefined` alone it would throw, and no caller comes to that.
unfoldable mutual
  pub clone : Value → Value
  clone (num n) = clone_number n
  clone (arr vs) = arr (clone_elements vs)
  clone (obj fs) = obj (clone_fields fs)
  clone v = v

  pub clone_elements : Elements → Elements
  clone_elements no_more = no_more
  clone_elements (element undefined vs) = element null (clone_elements vs)
  clone_elements (element v vs) = element (clone v) (clone_elements vs)

  pub clone_fields : Fields → Fields
  clone_fields end = end
  clone_fields (field key undefined fs) = clone_fields fs
  clone_fields (field key v fs) = field key (clone v) (clone_fields fs)

-- `JSON.stringify` is the runtime's.
module _ (json_text : Value → String) where
  -- `assertSafeWorkflowVariableJson`
  unfoldable pub assert_safe_json : Value → VariableFault ⊎ ℕ
  unfolding visit
  assert_safe_json v = do
    operations ← visit 0 0 v
    checked
        (if ltb max_value_bytes (Text.utf16_length (json_text v))
          then some value_too_large
          else none)
        operations

  unfoldable pub assert_variable_value : Value → VariableFault ⊎ Value
  unfolding assert_safe_json clone
  assert_variable_value v = do operations ← assert_safe_json v; inr (clone v)

  unfoldable pub assert_entries : Fields → VariableFault ⊎ Unit {0}
  unfolding assert_variable_name assert_variable_value
  assert_entries end = inr tt
  assert_entries (field key v fs) = do
    name ← assert_variable_name (str key)
    value ← assert_variable_value v
    assert_entries fs

  unfoldable pub assert_workflow_variables : Value → VariableFault ⊎ Fields
  unfolding assert_entries clone
  assert_workflow_variables undefined = inr end
  assert_workflow_variables null = inr end
  assert_workflow_variables (obj fs) = do
    entries_are_safe ← assert_entries fs
    inr (clone_fields fs)
  assert_workflow_variables _ = inl invalid_variables

-- typeof, but for arrays and null
unfoldable pub variable_value_type : Value → String
variable_value_type undefined = "undefined"
variable_value_type null = "null"
variable_value_type (bool b) = "boolean"
variable_value_type (num n) = "number"
variable_value_type (str s) = "string"
variable_value_type (arr vs) = "array"
variable_value_type (obj fs) = "object"

-- The type of a value, and how long it is or how many keys it has.
unfoldable pub variable_value_summary : Value → String × Option ℕ
unfolding variable_value_type
variable_value_summary (arr vs) = ("array", some (length (items vs)))
variable_value_summary (obj fs) = ("object", some (length (entries fs)))
variable_value_summary (str s) = ("string", some (Text.utf16_length s))
variable_value_summary v = (variable_value_type v, none)

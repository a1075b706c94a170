-- ===== src/Variables/Context.antt =====
-- apps/worker/src/engine/execution-runtime-context.ts: the variables of an execution, and the frame
-- of an iteration, whose names hide variables. The views that are handed out are read-only proxies;
-- the operations are the only way to change a variable, and one that throws changes none.
pub mod Records
pub mod Changes
pub mod Laws
use flowmind.Prelude.{
  ℕ, String, Bool, true, false, not, ◌&&◌, ◌||◌, ◌⊎◌, inl, inr, ◌>>=◌, List, ◌==◌, if◌then◌else◌,
}
use flowmind.Json.{
  Number, nan, infinite, finite, nat, Value, undefined, null, num, str, arr, Elements, no_more,
  element, Fields, end, field, get, has_own, Host, to_number,
}
use flowmind.Variables.{
  VariableScope, execution, workflow, VariableFault, assert_variable_scope, assert_variable_name,
  assert_variable_value, variable_value_type,
}

-- The two records of an ExecutionRuntimeContext that its operations change.
pub record Store : Type 0 where
  pub execution_variables : Fields
  pub workflow_variables : Fields

-- What `get` returns; the value of a variable that does not exist is `undefined`.
pub record Entry : Type 0 where
  pub exists : Bool
  pub value : Value
  pub type : String

pub data ContextFault : Type 0 where
  refused : VariableFault → ContextFault
  amount_not_finite not_a_number result_not_finite not_an_array read_only : ContextFault

-- record[key] = v
unfoldable pub put : String → Value → Fields → Fields
put key v end = field key v end
put key v (field k w fs) = if k == key then field k v fs else field k w (put key v fs)

-- delete record[key]
unfoldable pub remove : String → Fields → Fields
remove key end = end
remove key (field k w fs) = if k == key then remove key fs else field k w (remove key fs)

-- `target`, and the store with another target.
abbrev pub target : VariableScope → Store → Fields
target workflow store = store.workflow_variables
target execution store = store.execution_variables

abbrev pub with_target : VariableScope → Fields → Store → Store
with_target workflow fs store = record store { workflow_variables = fs }
with_target execution fs store = record store { execution_variables = fs }

abbrev pub scope_text : VariableScope → String
scope_text execution = "execution"
scope_text workflow = "workflow"

unfoldable pub checked : {A : Type 0} → VariableFault ⊎ A → ContextFault ⊎ A
checked (inl fault) = inl (refused fault)
checked (inr a) = inr a

abbrev pub is_finite : Number → Bool
is_finite (finite s w f) = true
is_finite _ = false

abbrev pub is_number : Value → Bool
is_number (num n) = true
is_number _ = false

abbrev pub is_array : Value → Bool
is_array (arr vs) = true
is_array _ = false

-- The number of a value that is one.
abbrev pub number_of : Value → Number
number_of (num n) = n
number_of _ = nat 0

abbrev pub elements_of : Value → Elements
elements_of (arr vs) = vs
elements_of _ = no_more

abbrev pub snoc : Elements → Value → Elements
snoc no_more v = element v no_more
snoc (element w ws) v = element w (snoc ws v)

-- The entry of a name in a record of variables.
unfoldable pub entry_in : String → Fields → Entry
unfolding has_own get variable_value_type
entry_in name fs =
    if has_own name fs
    then record { exists = true; value = get name fs; type = variable_value_type (get name fs) }
    else record { exists = false; value = undefined; type = "undefined" }

abbrev pub get_variable : Store → VariableScope → String → Entry
get_variable store scope name = entry_in name (target scope store)

-- `JSON.stringify` and the sum of two doubles are the runtime's.
module _ (host : Host) (json_text : Value → String) (sum : Number → Number → Number) where
  unfoldable pub set : Value → Value → Value → Store → ContextFault ⊎ Entry × Store
  unfolding checked assert_variable_scope assert_variable_name assert_variable_value put entry_in
  set scope_value name_value v store = do
    scope ← checked (assert_variable_scope scope_value)
    name ← checked (assert_variable_name name_value)
    kept ← checked (assert_variable_value json_text v)
    let after = with_target scope (put name kept (target scope store)) store
    inr (get_variable after scope name, after)

  -- The result is whether the variable existed.
  unfoldable pub delete : Value → Value → Store → ContextFault ⊎ Bool × Store
  unfolding checked assert_variable_scope assert_variable_name remove has_own
  delete scope_value name_value store = do
    scope ← checked (assert_variable_scope scope_value)
    name ← checked (assert_variable_name name_value)
    inr (
      has_own name (target scope store),
      with_target scope (remove name (target scope store)) store,
    )

  -- amountValue, where `undefined`, null and the empty text are 1.
  unfoldable pub amount_of : Value → Number
  unfolding to_number
  amount_of undefined = nat 1
  amount_of null = nat 1
  amount_of (str s) = if s == "" then nat 1 else to_number host (str s)
  amount_of v = to_number host v

  unfoldable pub increment : Value → Value → Value → Store → ContextFault ⊎ Entry × Store
  unfolding checked assert_variable_scope assert_variable_name amount_of entry_in set
  increment scope_value name_value amount_value store = do
    scope ← checked (assert_variable_scope scope_value)
    name ← checked (assert_variable_name name_value)
    let amount = amount_of amount_value
    let current = get_variable store scope name
    let next = sum (if current.exists then number_of current.value else nat 0) amount
    if not (is_finite amount)
        then inl amount_not_finite
        else if current.exists && not (is_number current.value)
        then inl not_a_number
        else if not (is_finite next)
        then inl result_not_finite
        else set (str (scope_text scope)) (str name) (num next) store

  unfoldable pub append : Value → Value → Value → Store → ContextFault ⊎ Entry × Store
  unfolding checked assert_variable_scope assert_variable_name assert_variable_value entry_in set
  append scope_value name_value v store = do
    scope ← checked (assert_variable_scope scope_value)
    name ← checked (assert_variable_name name_value)
    let current = get_variable store scope name
    let before = if current.exists then elements_of current.value else no_more
    if current.exists && not (is_array current.value) then inl not_an_array else do
      item ← checked (assert_variable_value json_text v)
      set (str (scope_text scope)) (str name) (arr (snoc before item)) store

  -- `getExecutionRuntimeContext`: the operations of a frame, whose aliases are read-only.
  module _ (aliases : Fields) where
    abbrev pub is_alias : VariableScope → String → Bool
    is_alias execution name = has_own name aliases
    is_alias workflow name = false

    unfoldable pub frame_get : Store → VariableScope → String → Entry
    unfolding has_own get variable_value_type entry_in
    frame_get store scope name =
        if is_alias scope name
        then record {
          exists = true;
          value = get name aliases;
          type = variable_value_type (get name aliases);
        }
        else get_variable store scope name

    -- The scope and the name that an operation of the frame may change.
    unfoldable pub open_name : Value → Value → ContextFault ⊎ VariableScope × String
    unfolding checked assert_variable_scope assert_variable_name has_own
    open_name scope_value name_value = do
      scope ← checked (assert_variable_scope scope_value)
      name ← checked (assert_variable_name name_value)
      if is_alias scope name then inl read_only else inr (scope, name)

    unfoldable pub frame_set : Value → Value → Value → Store → ContextFault ⊎ Entry × Store
    unfolding open_name set
    frame_set scope_value name_value v store = do
      (scope, name) ← open_name scope_value name_value
      set (str (scope_text scope)) (str name) v store

    unfoldable pub frame_delete : Value → Value → Store → ContextFault ⊎ Bool × Store
    unfolding open_name delete
    frame_delete scope_value name_value store = do
      (scope, name) ← open_name scope_value name_value
      delete (str (scope_text scope)) (str name) store

    unfoldable pub frame_increment : Value → Value → Value → Store → ContextFault ⊎ Entry × Store
    unfolding open_name increment
    frame_increment scope_value name_value amount store = do
      (scope, name) ← open_name scope_value name_value
      increment (str (scope_text scope)) (str name) amount store

    unfoldable pub frame_append : Value → Value → Value → Store → ContextFault ⊎ Entry × Store
    unfolding open_name append
    frame_append scope_value name_value v store = do
      (scope, name) ← open_name scope_value name_value
      append (str (scope_text scope)) (str name) v store

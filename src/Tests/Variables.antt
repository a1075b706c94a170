-- ===== src/Tests/Variables.antt =====
-- The variables of an execution.
use flowmind.Prelude.{◌≡◌, ◌≤◌, refl, inl, inr, true, String, List, [], ◌∷◌, has, arith}
use flowmind.Json.{
  Number, nan, nat, undefined, null, num, str, arr, obj, no_more, element, Fields, end, field, get,
  has_own, Value, Host, to_number,
}
use flowmind.Text
use flowmind.Variables.{
  execution, max_operations, dangerous_key, dangerous_keys, reserved_names, assert_variable_scope,
  is_variable_name, assert_variable_name, entry_fault, node_fault, visit, clone, assert_safe_json,
  assert_variable_value, variable_value_type,
}
use flowmind.Variables.Limits.{nodes, IsSafe}
use flowmind.Variables.Context.{
  Store, Entry, put, remove, checked, entry_in, get_variable, set, delete, amount_of, increment,
  append, frame_get, open_name, frame_set, frame_delete, frame_increment, frame_append,
}
use flowmind.Variables.Context.Records.{IsKept, IsSound}
use flowmind.Variables.Context.Laws.{
  Operation, setting, deleting, incrementing, appending, perform, perform_all,
  variables_stay-IsSound, hidden_variable_is_kept,
}

abbrev host : Host
host = record { number_text = λ n. "1"; number_of_text = λ s. nan; is_date = λ s. true }

abbrev json_text : Value → String
json_text v = "{}"

abbrev sum : Number → Number → Number
sum m n = nat 3

-- What the operations call.
operations : Unit {0}
unfolding dangerous_keys reserved_names assert_variable_scope is_variable_name assert_variable_name
    has Text.is_letter Text.is_upper Text.is_digit entry_fault node_fault visit clone
    assert_safe_json assert_variable_value variable_value_type get has_own put remove checked
    entry_in set delete to_number amount_of increment append frame_get open_name frame_set
    frame_delete frame_increment frame_append perform perform_all
operations = tt

abbrev list : Value
list = arr (element (num (nat 1)) (element (str "x") no_more))

reserved_key_refused :
    assert_variable_value json_text (obj (field "steps" null end)) ≡ inl dangerous_key
unfolding operations
reserved_key_refused = refl

-- A character outside the basic plane is two code units.
astral_counts_twice : Text.utf16_length "𝕏" ≡ 2
astral_counts_twice = refl

abbrev empty_store : Store
empty_store = record { execution_variables = end; workflow_variables = end }

abbrev one_variable : Store
one_variable = record {
  execution_variables = field "n" (num (nat 2)) end;
  workflow_variables = end;
}

two-IsSafe : IsSafe 0 (num (nat 2))
unfolding IsSafe
two-IsSafe = omega arith

two-nodes : nodes (num (nat 2)) ≤ max_operations
unfolding nodes
two-nodes = omega arith

two-IsKept : IsKept json_text (num (nat 2))
unfolding clone
two-IsKept = record {
  given = num (nat 2);
  accepted = record { safe = two-IsSafe; small = two-nodes; short = omega arith };
  same = refl;
  safe = two-IsSafe;
  small = two-nodes;
}

one_variable-IsSound : IsSound json_text one_variable
unfolding operations
one_variable-IsSound = record { execution_sound = (refl, two-IsKept, tt); workflow_sound = tt }

abbrev aliases : Fields
aliases = field "n" (str "item") end

abbrev ops : List Operation
ops =
    incrementing (str "execution") (str "n") undefined
    ∷ setting (str "workflow") (str "n") list
    ∷ appending (str "workflow") (str "n") null
    ∷ deleting (str "execution") (str "m")
    ∷ []

run_of_ops : perform_all host json_text sum aliases ops one_variable ≡ record {
  execution_variables = field "n" (num (nat 2)) end;
  workflow_variables =
      field "n" (arr (element (num (nat 1)) (element (str "x") (element null no_more)))) end;
}
unfolding operations
run_of_ops = refl

variables_stay-IsSound_example :
    IsSound json_text (perform_all host json_text sum aliases ops one_variable)
variables_stay-IsSound_example =
    variables_stay-IsSound host json_text sum aliases ops one_variable one_variable-IsSound

n_hidden : has_own "n" aliases ≡ true
unfolding operations
n_hidden = refl

hidden_variable_is_kept_example :
    (get_variable (perform_all host json_text sum aliases ops one_variable) execution "n"
      ≡ get_variable one_variable execution "n")
    × ((frame_get host json_text sum aliases
          (perform_all host json_text sum aliases ops one_variable)
          execution
          "n").value
        ≡ get "n" aliases)
hidden_variable_is_kept_example =
    hidden_variable_is_kept host json_text sum aliases ops one_variable "n" n_hidden

abbrev list_entry : Entry
list_entry = record { exists = true; value = list; type = "array" }

abbrev with_list : Store
with_list = record { execution_variables = field "v" list end; workflow_variables = end }

list-set :
    set host json_text sum (str "execution") (str "v") list empty_store
    ≡ inr (list_entry, with_list)
unfolding operations
list-set = refl

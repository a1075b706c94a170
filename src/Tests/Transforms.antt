-- ===== src/Tests/Transforms.antt =====
-- The configurations of transform steps.
use flowmind.Prelude.{◌≡◌, refl, true, String, [], ◌∷◌, has}
use flowmind.Json.{
  nan, null, str, arr, obj, no_more, element, end, field, get, has_own, Value, Host,
}
use flowmind.Text
use flowmind.Expression.{split_dots, is_identifier, is_array_index}
use flowmind.TransformStep.{
  issue, mode_named, mode_of, output_types, conflict_policies, dangerous_keys, allowed_keys,
  is_dangerous_transform_key, is_safe_transform_path, validate_safe_object_keys, validate_fields,
  validate_object_output_type, path_issues, validate_paths, validate_item_variable,
  validate_merge_sources, mode_issues, key_issues, config_issues, validate_transform_step_config,
}
use flowmind.TransformStep.Laws.{IsTransformConfig, accepted-IsTransformConfig}

abbrev host : Host
host = record { number_text = λ n. "1"; number_of_text = λ s. nan; is_date = λ s. true }

abbrev json_text : Value → String
json_text v = "{}"

-- What the check calls.
check_of_config : Unit {0}
unfolding mode_named mode_of output_types conflict_policies dangerous_keys allowed_keys
    is_dangerous_transform_key is_safe_transform_path validate_safe_object_keys validate_fields
    validate_object_output_type path_issues validate_paths validate_item_variable
    validate_merge_sources mode_issues key_issues config_issues validate_transform_step_config get
    has_own has split_dots is_identifier is_array_index Text.trim Text.trim_start Text.trim_end
    Text.is_blank Text.is_space Text.is_letter Text.is_upper Text.is_digit
check_of_config = tt

abbrev pick_config : Value
pick_config = obj (
    field "mode" (str "PICK") (
      field "source" (str "{{steps.a.output}}")
        (field "paths" (arr (element (str "a.0") (element (str "b-c") no_more))) end)))

pick_accepted : validate_transform_step_config host json_text pick_config ≡ []
unfolding check_of_config
pick_accepted = refl

accepted-IsTransformConfig_example : IsTransformConfig json_text pick_config
accepted-IsTransformConfig_example =
    accepted-IsTransformConfig host json_text pick_config pick_accepted

-- A dangerous key within a field is found, and so is a path that stands twice.
deep_key_found :
    validate_transform_step_config host json_text (
      obj (
        field "mode"
          (str "OBJECT")
          (field "fields" (obj (field "a" (obj (field "__proto__" null end)) end)) end)))
    ≡ issue "dangerous_key" "$.fields.a.__proto__" ∷ []
unfolding check_of_config
deep_key_found = refl

repeated_path_found :
    validate_transform_step_config host json_text (
      obj (
        field "mode" (str "OMIT") (
          field "source" null
            (field "paths" (arr (element (str "a") (element (str "a") no_more))) end))))
    ≡ issue "duplicate_path" "$.paths.1" ∷ []
unfolding check_of_config
repeated_path_found = refl

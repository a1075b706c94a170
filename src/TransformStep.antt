-- ===== src/TransformStep.antt =====
-- packages/shared-types/src/transform-step.ts: the check of the configuration of a transform step. An
-- issue keeps its code and its path; its prose is left out.
pub mod Parts
pub mod Laws
use flowmind.Prelude.{
  ℕ, suc, String, Bool, true, false, not, ◌&&◌, ◌||◌, Option, none, some, List, [], ◌∷◌, ◌++◌, ◌==◌,
  if◌then◌else◌, ltb, leb, nat_beq, length, all, is_empty, has, map, flatten, when,
}
use flowmind.Json.{
  Number, finite, nat, Value, undefined, num, str, arr, obj, Elements, no_more, element, Fields,
  end, field, entries, items, get, has_own, Host,
}
use flowmind.Text
use flowmind.Expression.{split_dots, is_identifier, is_array_index}

pub record TransformValidationIssue : Type 0 where
  pub code : String
  pub path : String

pub data TransformMode : Type 0 where
  object pick omit map_array filter_array merge : TransformMode

abbrev pub max_fields : ℕ
max_fields = 100

abbrev pub max_paths : ℕ
max_paths = 100

abbrev pub max_merge_sources : ℕ
max_merge_sources = 20

abbrev pub max_config_bytes : ℕ
max_config_bytes = 64000

abbrev pub issue : String → String → TransformValidationIssue
issue code path = record { code = code; path = path }

-- The mode that a text names.
unfoldable pub mode_named : String → Option TransformMode
mode_named s =
    if s == "OBJECT"
    then some object
    else if s == "PICK"
    then some pick
    else if s == "OMIT"
    then some omit
    else if s == "MAP_ARRAY"
    then some map_array
    else if s == "FILTER_ARRAY"
    then some filter_array
    else if s == "MERGE"
    then some merge
    else none

unfoldable pub mode_of : Value → Option TransformMode
unfolding mode_named
mode_of (str s) = mode_named s
mode_of _ = none

unfoldable pub output_types : List String
output_types = "AUTO" ∷ "OBJECT" ∷ "ARRAY" ∷ "STRING" ∷ "NUMBER" ∷ "BOOLEAN" ∷ []

unfoldable pub conflict_policies : List String
conflict_policies = "LAST_WINS" ∷ "FIRST_WINS" ∷ "ERROR" ∷ []

unfoldable pub dangerous_keys : List String
dangerous_keys = "__proto__" ∷ "prototype" ∷ "constructor" ∷ []

unfoldable pub allowed_keys : TransformMode → List String
allowed_keys object = "configVersion" ∷ "mode" ∷ "fields" ∷ "outputType" ∷ []
allowed_keys pick = "configVersion" ∷ "mode" ∷ "source" ∷ "paths" ∷ "outputType" ∷ []
allowed_keys omit = "configVersion" ∷ "mode" ∷ "source" ∷ "paths" ∷ "outputType" ∷ []
allowed_keys map_array =
    "configVersion" ∷ "mode" ∷ "source" ∷ "template" ∷ "itemVariable" ∷ "outputType" ∷ []
allowed_keys filter_array =
    "configVersion" ∷ "mode" ∷ "source" ∷ "condition" ∷ "itemVariable" ∷ "outputType" ∷ []
allowed_keys merge =
    "configVersion" ∷ "mode" ∷ "mergeSources" ∷ "conflictPolicy" ∷ "outputType" ∷ []

-- set.has(value)
abbrev pub is_among : List String → Value → Bool
is_among texts (str s) = has s texts
is_among texts _ = false

-- value !== undefined && value !== 1
abbrev pub is_bad_version : Value → Bool
is_bad_version undefined = false
is_bad_version (num (finite false w f)) = not (nat_beq w 1 && nat_beq f 0)
is_bad_version _ = true

abbrev pub is_given : Value → Bool
is_given undefined = false
is_given _ = true

unfoldable pub is_dangerous_transform_key : String → Bool
unfolding dangerous_keys has
is_dangerous_transform_key key = has key dangerous_keys

-- PATH_SEGMENT: /^[A-Za-z_][A-Za-z0-9_-]*$|^[0-9]+$/
abbrev pub is_path_segment : String → Bool
is_path_segment s =
    not (s == "") && not (is_dangerous_transform_key s) && (is_identifier s || is_array_index s)

unfoldable pub is_safe_transform_path : String → Bool
unfolding Text.trim split_dots is_dangerous_transform_key is_identifier is_array_index
is_safe_transform_path path =
    not (Text.trim path == "")
    && leb (Text.utf16_length path) 512
    && all is_path_segment (split_dots path)

-- `${path}.${name}`
abbrev pub below_path : String → String → String
below_path path name = Text.append path (Text.append "." name)

-- `JSON.stringify` is the runtime's.
module _ (host : Host) (json_text : Value → String) where
  open host use {number_text}

  unfoldable mutual
    unfolding is_dangerous_transform_key

    pub validate_safe_object_keys : String → Value → List TransformValidationIssue
    validate_safe_object_keys path (arr vs) = safe_elements path 0 vs
    validate_safe_object_keys path (obj fs) = safe_fields path fs
    validate_safe_object_keys path _ = []

    pub safe_elements : String → ℕ → Elements → List TransformValidationIssue
    safe_elements path index no_more = []
    safe_elements path index (element v vs) =
        validate_safe_object_keys (below_path path (number_text (nat index))) v
        ++ safe_elements path (suc index) vs

    pub safe_fields : String → Fields → List TransformValidationIssue
    safe_fields path end = []
    safe_fields path (field key v fs) =
        when (is_dangerous_transform_key key) (issue "dangerous_key" (below_path path key))
        ++ (validate_safe_object_keys (below_path path key) v ++ safe_fields path fs)

  unfoldable pub validate_fields : Value → List TransformValidationIssue
  unfolding safe_fields
  validate_fields (obj fs) =
      when (ltb max_fields (length (entries fs))) (issue "config_limit_exceeded" "$.fields")
      ++ safe_fields "$.fields" fs
  validate_fields _ = issue "invalid_fields" "$.fields" ∷ []

  -- Exactly one field, named "value".
  abbrev pub is_value_only : Fields → Bool
  is_value_only (field key v end) = key == "value"
  is_value_only _ = false

  abbrev pub is_scalar_type : Value → Bool
  is_scalar_type (str s) = s == "STRING" || s == "NUMBER" || s == "BOOLEAN"
  is_scalar_type _ = false

  unfoldable pub validate_object_output_type : Value → Value → List TransformValidationIssue
  validate_object_output_type (obj fs) output_type =
      when (is_scalar_type output_type && not (is_value_only fs))
        (issue "invalid_output_type" "$.outputType")
  validate_object_output_type _ output_type = []

  -- The loop over the paths, after those seen.
  unfoldable pub path_issues : List String → ℕ → List Value → List TransformValidationIssue
  unfolding is_safe_transform_path has
  path_issues seen index [] = []
  path_issues seen index (str path ∷ vs) =
      if is_safe_transform_path path
      then when (has path seen)
          (issue "duplicate_path" (below_path "$.paths" (number_text (nat index))))
        ++ path_issues (path ∷ seen) (suc index) vs
      else issue "invalid_path" (below_path "$.paths" (number_text (nat index)))
        ∷ path_issues seen (suc index) vs
  path_issues seen index (v ∷ vs) =
      issue "invalid_path" (below_path "$.paths" (number_text (nat index)))
      ∷ path_issues seen (suc index) vs

  unfoldable pub validate_paths : Value → List TransformValidationIssue
  unfolding path_issues
  validate_paths (arr no_more) = issue "invalid_paths" "$.paths" ∷ []
  validate_paths (arr vs) =
      when (ltb max_paths (length (items vs))) (issue "config_limit_exceeded" "$.paths")
      ++ path_issues [] 0 (items vs)
  validate_paths _ = issue "invalid_paths" "$.paths" ∷ []

  unfoldable pub validate_item_variable : Value → List TransformValidationIssue
  unfolding has
  validate_item_variable v =
      when (is_given v && not (is_among ("item" ∷ []) v))
        (issue "invalid_item_variable" "$.itemVariable")

  abbrev pub required : String → Fields → List TransformValidationIssue
  required key fs = when (not (has_own key fs)) (issue "required_property" (Text.append "$." key))

  unfoldable pub validate_merge_sources : Value → List TransformValidationIssue
  validate_merge_sources (arr vs) =
      if ltb (length (items vs)) 2
      then issue "invalid_merge_sources" "$.mergeSources" ∷ []
      else when (ltb max_merge_sources (length (items vs)))
          (issue "config_limit_exceeded" "$.mergeSources")
  validate_merge_sources _ = issue "invalid_merge_sources" "$.mergeSources" ∷ []

  unfoldable pub mode_issues : TransformMode → Fields → List TransformValidationIssue
  unfolding get has_own validate_fields validate_object_output_type validate_paths
      validate_item_variable validate_merge_sources conflict_policies has
  mode_issues object fs =
      validate_fields (get "fields" fs)
      ++ validate_object_output_type (get "fields" fs) (get "outputType" fs)
  mode_issues map_array fs =
      required "source" fs
      ++ required "template" fs
      ++ validate_item_variable (get "itemVariable" fs)
  mode_issues filter_array fs =
      required "source" fs
      ++ required "condition" fs
      ++ validate_item_variable (get "itemVariable" fs)
  mode_issues merge fs =
      validate_merge_sources (get "mergeSources" fs)
      ++ when (not (is_among conflict_policies (get "conflictPolicy" fs)))
          (issue "invalid_conflict_policy" "$.conflictPolicy")
  mode_issues _ fs = required "source" fs ++ validate_paths (get "paths" fs)

  unfoldable pub key_issues : TransformMode → Fields → List TransformValidationIssue
  unfolding allowed_keys has
  key_issues mode end = []
  key_issues mode (field key v fs) =
      when (not (has key (allowed_keys mode)))
        (issue "incompatible_property" (Text.append "$." key))
      ++ key_issues mode fs

  -- What is checked once the mode is known.
  unfoldable pub config_issues : TransformMode → Fields → List TransformValidationIssue
  unfolding key_issues mode_issues get output_types has
  config_issues mode fs =
      let output_type = get "outputType" fs in
      key_issues mode fs
      ++ when (is_given output_type && not (is_among output_types output_type))
          (issue "invalid_output_type" "$.outputType")
      ++ when (ltb max_config_bytes (Text.utf16_length (json_text (obj fs))))
          (issue "config_limit_exceeded" "$")
      ++ mode_issues mode fs

  unfoldable pub validate_transform_step_config : Value → List TransformValidationIssue
  unfolding mode_of config_issues get
  validate_transform_step_config (obj fs) =
      when (is_bad_version (get "configVersion" fs))
        (issue "invalid_config_version" "$.configVersion")
      ++ (elim (mode_of (get "mode" fs)) [
        | none ↦ issue "invalid_mode" "$.mode" ∷ []
        | some mode ↦ config_issues mode fs
      ])
  validate_transform_step_config _ = issue "invalid_config" "$" ∷ []

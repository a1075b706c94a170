-- ===== src/TransformStep/Laws.antt =====
-- The configurations of transform steps that are accepted.
use flowmind.Prelude.{
  ◌≤◌, String, ◌≡◌, refl, true, not, ◌&&◌, Bool-cases, Option-cases, inl, inr, some, [], ◌++◌, ltb,
  length, All, has, append-eq-nil, when, when-eq-nil, not-eq-false,
}
use flowmind.Json.{
  Value, undefined, null, bool, num, str, arr, obj, Elements, Fields, end, field, entries, items,
  get, has_own, Host,
}
use flowmind.Text
use flowmind.TransformStep.{
  TransformMode, object, pick, omit, map_array, filter_array, merge, max_fields, max_merge_sources,
  max_config_bytes, issue, mode_of, conflict_policies, allowed_keys, is_among, validate_fields,
  validate_merge_sources, mode_issues, key_issues, config_issues, validate_transform_step_config,
  required, is_bad_version, is_given, output_types,
}
use flowmind.TransformStep.Parts.{HasClean, ArePaths, bounded, paths_ok, fields_ok}

-- What a step of each mode has.
abbrev pub IsTransform : TransformMode → Fields → Type 0
IsTransform object fs =
    (gs : Fields) × (get "fields" fs ≡ obj gs) × (length (entries gs) ≤ max_fields) × HasClean gs
IsTransform map_array fs = (has_own "source" fs ≡ true) × (has_own "template" fs ≡ true)
IsTransform filter_array fs = (has_own "source" fs ≡ true) × (has_own "condition" fs ≡ true)
IsTransform merge fs =
    (vs : Elements) × (get "mergeSources" fs ≡ arr vs)
    × (2 ≤ length (items vs))
    × (length (items vs) ≤ max_merge_sources)
    × (is_among conflict_policies (get "conflictPolicy" fs) ≡ true)
IsTransform _ fs = (has_own "source" fs ≡ true) × ArePaths (get "paths" fs)

module _ (host : Host) (json_text : Value → String) where
  required_ok :
      (key : String) (fs : Fields) → required host json_text key fs ≡ [] → has_own key fs ≡ true
  required_ok key fs h = not-eq-false _ (when-eq-nil _ _ h)

  merge_sources_ok :
      (v : Value)
      → validate_merge_sources host json_text v ≡ []
      → (vs : Elements) × (v ≡ arr vs)
        × (2 ≤ length (items vs))
        × (length (items vs) ≤ max_merge_sources)
  unfolding validate_merge_sources
  merge_sources_ok (arr vs) h = elim (Bool-cases (ltb (length (items vs)) 2)) [
    | inl few ↦ cc (rw (validate_merge_sources, few) at h)
    | inr enough ↦ (
      vs,
      refl,
      bounded 2 (length (items vs)) enough,
      bounded _ _ (when-eq-nil _ _ (rw (validate_merge_sources, enough) at h)),
    )
  ]
  merge_sources_ok undefined h = cc
  merge_sources_ok null h = cc
  merge_sources_ok (bool b) h = cc
  merge_sources_ok (num n) h = cc
  merge_sources_ok (str s) h = cc
  merge_sources_ok (obj fs) h = cc

  mode_ok :
      (mode : TransformMode) (fs : Fields)
      → mode_issues host json_text mode fs ≡ []
      → IsTransform mode fs
  unfolding mode_issues
  mode_ok object fs h =
      let (fields, scalar) = append-eq-nil (validate_fields host json_text (get "fields" fs)) _ h in
      fields_ok host json_text (get "fields" fs) fields
  mode_ok pick fs h =
      let (source, paths) = append-eq-nil (required host json_text "source" fs) _ h in
      (required_ok "source" fs source, paths_ok host json_text (get "paths" fs) paths)
  mode_ok omit fs h =
      let (source, paths) = append-eq-nil (required host json_text "source" fs) _ h in
      (required_ok "source" fs source, paths_ok host json_text (get "paths" fs) paths)
  mode_ok map_array fs h =
      let (front, item) =
        append-eq-nil (required host json_text "source" fs ++ required host json_text "template" fs)
          _ h in
      let (source, template) = append-eq-nil (required host json_text "source" fs) _ front in
      (required_ok "source" fs source, required_ok "template" fs template)
  mode_ok filter_array fs h =
      let (front, item) =
        append-eq-nil
          (required host json_text "source" fs ++ required host json_text "condition" fs) _ h in
      let (source, condition) = append-eq-nil (required host json_text "source" fs) _ front in
      (required_ok "source" fs source, required_ok "condition" fs condition)
  mode_ok merge fs h =
      let (sources, policy) =
        append-eq-nil (validate_merge_sources host json_text (get "mergeSources" fs)) _ h in
      let (vs, listed, enough, few) = merge_sources_ok (get "mergeSources" fs) sources in
      (vs, listed, enough, few, not-eq-false _ (when-eq-nil _ _ policy))

  keys_ok :
      (mode : TransformMode) (fs : Fields)
      → key_issues host json_text mode fs ≡ []
      → All (λ entry. has entry.0 (allowed_keys mode) ≡ true) (entries fs)
  unfolding key_issues
  keys_ok mode end h = tt
  keys_ok mode (field key v fs) h =
      let (one, more) = append-eq-nil (when (not (has key (allowed_keys mode))) _) _ h in
      (not-eq-false _ (when-eq-nil _ _ one), keys_ok mode fs more)

  config_ok :
      (mode : TransformMode) (fs : Fields)
      → config_issues host json_text mode fs ≡ []
      → All (λ entry. has entry.0 (allowed_keys mode) ≡ true) (entries fs)
        × (Text.utf16_length (json_text (obj fs)) ≤ max_config_bytes)
        × IsTransform mode fs
  unfolding config_issues
  config_ok mode fs h =
      let output_type = get "outputType" fs in
      let keys = key_issues host json_text mode fs in
      let output =
        when (is_given output_type && not (is_among output_types output_type))
          (issue "invalid_output_type" "$.outputType") in
      let size =
        when (ltb max_config_bytes (Text.utf16_length (json_text (obj fs))))
          (issue "config_limit_exceeded" "$") in
      let (front, of_mode) = append-eq-nil (keys ++ output ++ size) _ h in
      let (first, small) = append-eq-nil (keys ++ output) size front in
      let (allowed, typed) = append-eq-nil keys output first in
      (keys_ok mode fs allowed, bounded _ _ (when-eq-nil _ _ small), mode_ok mode fs of_mode)

-- What a configuration that is accepted is.
pub record IsTransformConfig (json_text : Value → String) (v : Value) : Type 0 where
  pub fields : Fields
  pub mode : TransformMode
  pub given : v ≡ obj fields
  pub named : mode_of (get "mode" fields) ≡ some mode
  pub keys : All (λ entry. has entry.0 (allowed_keys mode) ≡ true) (entries fields)
  pub small : Text.utf16_length (json_text v) ≤ max_config_bytes
  pub complete : IsTransform mode fields

-- A configuration without issues names a mode, has only the keys of that mode and what the mode needs, and
-- its text is within the limit: an object step has at most 100 fields, in which no key at any depth is
-- dangerous; a pick or omit step has from 1 to 100 distinct safe paths; a merge step has from 2 to 20
-- sources and a policy.
pub accepted-IsTransformConfig :
    (host : Host) (json_text : Value → String) (v : Value)
    → validate_transform_step_config host json_text v ≡ []
    → IsTransformConfig json_text v
unfolding validate_transform_step_config config_issues
accepted-IsTransformConfig host json_text (obj fs) h =
    let (version, rest) = append-eq-nil (when (is_bad_version (get "configVersion" fs)) _) _ h in
    elim (Option-cases (mode_of (get "mode" fs))) [
      | inl unknown ↦ cc (rw unknown at rest)
      | inr (mode, known) ↦
          let (keys, small, complete) = config_ok host json_text mode fs (rw known at rest) in
          record {
            fields = fs;
            mode = mode;
            given = refl;
            named = known;
            keys = keys;
            small = small;
            complete = complete;
          }
    ]
accepted-IsTransformConfig host json_text undefined h = cc
accepted-IsTransformConfig host json_text null h = cc
accepted-IsTransformConfig host json_text (bool b) h = cc
accepted-IsTransformConfig host json_text (num n) h = cc
accepted-IsTransformConfig host json_text (str s) h = cc
accepted-IsTransformConfig host json_text (arr vs) h = cc

-- ===== src/TransformStep/Parts.antt =====
-- The parts of a configuration of a transform step: its fields and its paths.
use flowmind.Prelude.{
  ℕ, suc, ◌≤◌, String, ◌≡◌, refl, ap, ◌∙◌, true, false, Bool-cases, inl, inr, List, [], ◌∷◌, arith,
  eq_iff, ltb, length, All, map, has, has-cons, has-nil, IsDistinct, append-eq-nil, when,
  when-eq-nil,
}
use flowmind.Json.{
  Value, undefined, null, bool, num, str, arr, obj, Elements, no_more, element, Fields, end, field,
  entries, items, Host, nat,
}
use flowmind.TransformStep.{
  max_fields, max_paths, issue, is_dangerous_transform_key, is_safe_transform_path, below_path,
  validate_safe_object_keys, safe_elements, safe_fields, validate_fields, path_issues,
  validate_paths,
}

-- No key at any depth is dangerous.
unfoldable mutual
  pub IsClean : Value → Type 0
  IsClean (arr vs) = AreClean vs
  IsClean (obj fs) = HasClean fs
  IsClean _ = Unit

  pub AreClean : Elements → Type 0
  AreClean no_more = Unit
  AreClean (element v vs) = IsClean v × AreClean vs

  pub HasClean : Fields → Type 0
  HasClean end = Unit
  HasClean (field key v fs) = (is_dangerous_transform_key key ≡ false) × IsClean v × HasClean fs

-- The paths of a pick or omit step: texts, each safe, no two the same.
pub record ArePaths (v : Value) : Type 0 where
  pub elements : Elements
  pub paths : List String
  pub listed : v ≡ arr elements
  pub texts : items elements ≡ map str paths
  pub many : (1 ≤ length paths) × (length paths ≤ max_paths)
  pub safe : All (λ p. is_safe_transform_path p ≡ true) paths
  pub distinct : IsDistinct paths

pub bounded : (n limit : ℕ) → ltb limit n ≡ false → n ≤ limit
bounded n limit h = ground arith

module _ (host : Host) (json_text : Value → String) where
  mutual
    unfolding validate_safe_object_keys safe_elements safe_fields IsClean

    IsClean-value :
        (path : String) (v : Value)
        → validate_safe_object_keys host json_text path v ≡ []
        → IsClean v
    IsClean-value path (arr vs) h = AreClean-elements path 0 vs h
    IsClean-value path (obj fs) h = HasClean-fields path fs h
    IsClean-value path undefined h = tt
    IsClean-value path null h = tt
    IsClean-value path (bool b) h = tt
    IsClean-value path (num n) h = tt
    IsClean-value path (str s) h = tt

    AreClean-elements :
        (path : String) (index : ℕ) (vs : Elements)
        → safe_elements host json_text path index vs ≡ []
        → AreClean vs
    AreClean-elements path index no_more h = tt
    AreClean-elements path index (element v vs) h =
        let (one, more) =
          append-eq-nil
            (validate_safe_object_keys host json_text
              (below_path path (host.number_text (nat index))) v)
            _ h in
        (IsClean-value _ v one, AreClean-elements path (suc index) vs more)

    HasClean-fields :
        (path : String) (fs : Fields) → safe_fields host json_text path fs ≡ [] → HasClean fs
    HasClean-fields path end h = tt
    HasClean-fields path (field key v fs) h =
        let (named, rest) =
          append-eq-nil
            (when (is_dangerous_transform_key key) (issue "dangerous_key" (below_path path key))) _
            h in
        let (one, more) =
          append-eq-nil (validate_safe_object_keys host json_text (below_path path key) v) _ rest in
        (
          when-eq-nil _ _ named,
          IsClean-value (below_path path key) v one,
          HasClean-fields path fs more,
        )

  -- What is known of the paths that follow those seen.
  record Listed (seen : List String) (vs : List Value) : Type 0 where
    pub paths : List String
    pub texts : vs ≡ map str paths
    pub safe : All (λ p. is_safe_transform_path p ≡ true) paths
    pub new : All (λ p. has p seen ≡ false) paths
    pub distinct : IsDistinct paths

  fresh_from :
      (p : String) (seen paths : List String)
      → All (λ q. has q (p ∷ seen) ≡ false) paths
      → (has p paths ≡ false) × All (λ q. has q seen ≡ false) paths
  fresh_from p seen [] h = (has-nil p, tt)
  fresh_from p seen (q ∷ paths) (one, more) =
      let (absent, others) = fresh_from p seen paths more in
      (
        ground (arith, has-cons p q paths, has-cons q p seen, eq_iff p q, eq_iff q p),
        (ground (arith, has-cons q p seen), others),
      )

  paths-Listed :
      (seen : List String) (index : ℕ) (vs : List Value)
      → path_issues host json_text seen index vs ≡ []
      → Listed seen vs
  unfolding path_issues
  paths-Listed seen index [] h = record {
    paths = [];
    texts = refl;
    safe = tt;
    new = tt;
    distinct = tt;
  }
  paths-Listed seen index (str path ∷ vs) h = elim (Bool-cases (is_safe_transform_path path)) [
    | inr unsafe ↦ cc (rw (path_issues, unsafe) at h)
    | inl safe ↦
        let (unseen, more) =
          append-eq-nil
            (when (has path seen)
              (issue "duplicate_path" (below_path "$.paths" (host.number_text (nat index)))))
            _ (rw (path_issues, safe) at h) in
        let rest = paths-Listed (path ∷ seen) (suc index) vs more in
        let (absent, others) = fresh_from path seen rest.paths rest.new in
        record {
          paths = path ∷ rest.paths;
          texts = ap (λ ws. str path ∷ ws) rest.texts;
          safe = (safe, rest.safe);
          new = (when-eq-nil _ _ unseen, others);
          distinct = (absent, rest.distinct);
        }
  ]
  paths-Listed seen index (undefined ∷ vs) h = cc
  paths-Listed seen index (null ∷ vs) h = cc
  paths-Listed seen index (bool b ∷ vs) h = cc
  paths-Listed seen index (num n ∷ vs) h = cc
  paths-Listed seen index (arr ws ∷ vs) h = cc
  paths-Listed seen index (obj fs ∷ vs) h = cc

  length-map : (paths : List String) → length (map str paths) ≡ length paths
  length-map [] = refl
  length-map (p ∷ paths) = ap suc (length-map paths)

  pub paths_ok : (v : Value) → validate_paths host json_text v ≡ [] → ArePaths v
  unfolding validate_paths
  paths_ok (arr no_more) h = cc
  paths_ok (arr (element w ws)) h =
      let vs = element w ws in
      let (few, rest) =
        append-eq-nil
          (when (ltb max_paths (length (items vs))) (issue "config_limit_exceeded" "$.paths")) _
          h in
      let listed = paths-Listed [] 0 (items vs) rest in
      let count : suc (length (items ws)) ≡ length listed.paths =
        ap length listed.texts ∙ length-map listed.paths in
      let bound : ltb max_paths (suc (length (items ws))) ≡ false = when-eq-nil _ _ few in
      record {
        elements = vs;
        paths = listed.paths;
        listed = refl;
        texts = listed.texts;
        many = (omega (arith, count), ground (arith, count, bound));
        safe = listed.safe;
        distinct = listed.distinct;
      }
  paths_ok undefined h = cc
  paths_ok null h = cc
  paths_ok (bool b) h = cc
  paths_ok (num n) h = cc
  paths_ok (str s) h = cc
  paths_ok (obj fs) h = cc

  pub fields_ok :
      (v : Value)
      → validate_fields host json_text v ≡ []
      → (gs : Fields) × (v ≡ obj gs) × (length (entries gs) ≤ max_fields) × HasClean gs
  unfolding validate_fields
  fields_ok (obj gs) h =
      let (few, clean) =
        append-eq-nil
          (when (ltb max_fields (length (entries gs))) (issue "config_limit_exceeded" "$.fields")) _
          h in
      (
        gs,
        refl,
        bounded (length (entries gs)) max_fields (when-eq-nil _ _ few),
        HasClean-fields "$.fields" gs clean,
      )
  fields_ok undefined h = cc
  fields_ok null h = cc
  fields_ok (bool b) h = cc
  fields_ok (num n) h = cc
  fields_ok (str s) h = cc
  fields_ok (arr vs) h = cc

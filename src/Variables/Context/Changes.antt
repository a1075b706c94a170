-- ===== src/Variables/Context/Changes.antt =====
-- Which variable each operation changes.
use flowmind.Prelude.{
  ◌≤◌, arith, String, ◌≡◌, refl, subst, false, not, ◌&&◌, Bool-cases, Yields, inr-Yields, if-Yields,
  bind-Yields, ◌⊎◌, inl, inr, if◌then◌else◌,
}
use flowmind.Json.{
  Number, nat, no_more, Value, undefined, null, bool, obj, str, num, arr, Fields, Host,
}
use flowmind.Variables.{
  max_operations, VariableScope, execution, workflow, VariableFault, assert_variable_scope,
  assert_variable_name, assert_variable_value, is_variable_name, is_reserved,
}
use flowmind.Variables.Limits.{nodes, IsSafe}
use flowmind.Variables.Accepted.{assert_variable_value_iff, clone-IsSafe, nodes-clone}
use flowmind.Variables.Context.Records.{IsKept}
use flowmind.Variables.Context.{
  Store, read_only, amount_not_finite, not_a_number, result_not_finite, not_an_array, is_finite,
  is_number, is_array, number_of, elements_of, put, remove, target, with_target, scope_text,
  checked, snoc, get_variable, set, delete, amount_of, increment, append, is_alias, open_name,
  frame_set, frame_delete, frame_increment, frame_append,
}

pub checked-inr : {A : Type 0} (m : VariableFault ⊎ A) (a : A) → checked m ≡ inr a → m ≡ inr a
unfolding checked
checked-inr (inl fault) a h = cc
checked-inr (inr b) a h = cc

-- A name that is accepted is a text, and accepted again.
pub name_ok :
    (v : Value) (name : String)
    → assert_variable_name v ≡ inr name
    → assert_variable_name (str name) ≡ inr name
unfolding assert_variable_name
name_ok (str s) name h = elim (Bool-cases (is_variable_name s)) [
  | inl named ↦ elim (Bool-cases (is_reserved s)) [
    | inl reserved ↦ cc (rw (assert_variable_name, named, reserved) at h)
    | inr free ↦
        let same : s ≡ name = cc (rw (assert_variable_name, named, free) at h) in
        subst (λ n. assert_variable_name (str n) ≡ inr n) same (rw (named, free) refl)
  ]
  | inr not_named ↦ cc (rw (assert_variable_name, not_named) at h)
]
name_ok undefined name h = cc
name_ok null name h = cc
name_ok (bool b) name h = cc
name_ok (num n) name h = cc
name_ok (arr vs) name h = cc
name_ok (obj fs) name h = cc

scope_ok : (scope : VariableScope) → assert_variable_scope (str (scope_text scope)) ≡ inr scope
unfolding assert_variable_scope
scope_ok execution = refl
scope_ok workflow = refl

-- What an operation may do to the variable of a scope and a name.
pub data Change (json_text : Value → String) (scope : VariableScope) (name : String)
    (before : Store) : Store → Type 0 where
  wrote :
      (kept : Value)
      → assert_variable_name (str name) ≡ inr name
      → IsKept json_text kept
      → Change json_text scope name before
          (with_target scope (put name kept (target scope before)) before)
  removed :
      Change json_text scope name before
        (with_target scope (remove name (target scope before)) before)

-- It changes at most the variable that its two first arguments name.
abbrev Changed : (Value → String) → Value → Value → Store → Store → Type 0
Changed json_text scope_value name_value before after =
    (scope : VariableScope) × (name : String) × (assert_variable_scope scope_value ≡ inr scope)
    × (assert_variable_name name_value ≡ inr name)
    × Change json_text scope name before after

pub stored-IsKept :
    (json_text : Value → String) (v kept : Value)
    → assert_variable_value json_text v ≡ inr kept
    → IsKept json_text kept
stored-IsKept json_text v kept h =
    let (accepted, same) = (assert_variable_value_iff json_text v kept).0 h in
    record {
      given = v;
      accepted = accepted;
      same = same;
      safe = subst (IsSafe 0) same (clone-IsSafe 0 v accepted.safe);
      small =
          subst (λ w. nodes w ≤ max_operations) same (omega (arith, nodes-clone v, accepted.small));
    }

again :
    {json_text : Value → String} {scope : VariableScope} {name : String} {before after : Store}
    → Changed json_text (str (scope_text scope)) (str name) before after
    → assert_variable_name (str name) ≡ inr name
    → Change json_text scope name before after
again {json_text} {scope} {name} {before} {after} (s, n, scoped, named, change) named' =
    let same_scope : s ≡ scope = cc (scoped, scope_ok scope) in
    let same_name : n ≡ name = cc (named, named') in
    subst (λ t. Change json_text t name before after) same_scope
      (subst (λ m. Change json_text s m before after) same_name change)

module _ (host : Host) (json_text : Value → String) (sum : Number → Number → Number) where
  pub set-Changed :
      (scope_value name_value v : Value) (store : Store)
      → Yields
          (λ r. Changed json_text scope_value name_value store r.1)
          (set host json_text sum scope_value name_value v store)
  unfolding set
  set-Changed scope_value name_value v store = bind-Yields _ _ _ (λ scope scoped.
      bind-Yields _ _ _ (λ name named. bind-Yields _ _ _ (λ kept valued. inr-Yields _ _ (
        scope,
        name,
        checked-inr _ _ scoped,
        checked-inr _ _ named,
        wrote kept (name_ok name_value name (checked-inr _ _ named))
            (stored-IsKept json_text v kept (checked-inr _ _ valued)),
      ))))

  delete-Changed :
      (scope_value name_value : Value) (store : Store)
      → Yields
          (λ r. Changed json_text scope_value name_value store r.1)
          (delete host json_text sum scope_value name_value store)
  unfolding delete
  delete-Changed scope_value name_value store = bind-Yields _ _ _ (λ scope scoped.
      bind-Yields _ _ _ (λ name named.
        inr-Yields _ _ (scope, name, checked-inr _ _ scoped, checked-inr _ _ named, removed)))

  -- Once the scope and the name are checked, checking them again gives the same.
  set_again :
      (scope : VariableScope) (name : String) (v : Value) (store : Store)
      → assert_variable_name (str name) ≡ inr name
      → Yields
          (λ r. Change json_text scope name store r.1)
          (set host json_text sum (str (scope_text scope)) (str name) v store)
  set_again scope name v store named (entry, after) h =
      again (set-Changed (str (scope_text scope)) (str name) v store (entry, after) h) named

  increment-Changed :
      (scope_value name_value amount_value : Value) (store : Store)
      → Yields
          (λ r. Changed json_text scope_value name_value store r.1)
          (increment host json_text sum scope_value name_value amount_value store)
  unfolding increment
  increment-Changed scope_value name_value amount_value store = bind-Yields _ _ _ (λ scope scoped.
      bind-Yields _ _ _ (λ name named.
        let amount = amount_of host json_text sum amount_value in
        let current = get_variable store scope name in
        let next = sum (if current.exists then number_of current.value else nat 0) amount in
        if-Yields _ (not (is_finite amount)) amount_not_finite _ (
          if-Yields _ (current.exists && not (is_number current.value)) not_a_number _ (
            if-Yields _ (not (is_finite next)) result_not_finite _ (λ r h. (
              scope,
              name,
              checked-inr _ _ scoped,
              checked-inr _ _ named,
              set_again scope name (num next) store
                  (name_ok name_value name (checked-inr _ _ named)) r h,
            ))))))

  append-Changed :
      (scope_value name_value v : Value) (store : Store)
      → Yields
          (λ r. Changed json_text scope_value name_value store r.1)
          (append host json_text sum scope_value name_value v store)
  unfolding append
  append-Changed scope_value name_value v store = bind-Yields _ _ _ (λ scope scoped.
      bind-Yields _ _ _ (λ name named.
        let current = get_variable store scope name in
        let before = if current.exists then elements_of current.value else no_more in
        if-Yields _ (current.exists && not (is_array current.value)) not_an_array _ (
          bind-Yields _ _ _ (λ item f r h. (
            scope,
            name,
            checked-inr _ _ scoped,
            checked-inr _ _ named,
            set_again scope name (arr (snoc before item)) store
                (name_ok name_value name (checked-inr _ _ named)) r h,
          )))))

  module _ (aliases : Fields) where
    -- The variable that an operation of the frame changes is hidden by no alias.
    abbrev pub Opened : Store → Store → Type 0
    Opened before after =
        (scope : VariableScope) × (name : String) × (is_alias host json_text sum aliases scope name
          ≡ false)
        × Change json_text scope name before after

    abbrev Visible : VariableScope × String → Type 0
    Visible (scope, name) =
        (is_alias host json_text sum aliases scope name ≡ false)
        × (assert_variable_name (str name) ≡ inr name)

    opened :
        (scope_value name_value : Value)
        → Yields Visible (open_name host json_text sum aliases scope_value name_value)
    unfolding open_name
    opened scope_value name_value = bind-Yields _ _ _ (λ scope scoped.
        bind-Yields _ _ _
          (λ name named. free scope name (name_ok name_value name (checked-inr _ _ named))))
      where
        free :
            (scope : VariableScope) (name : String)
            → assert_variable_name (str name) ≡ inr name
            → Yields Visible (
                if is_alias host json_text sum aliases scope name
                then inl read_only
                else inr (scope, name))
        free scope name named = elim (Bool-cases (is_alias host json_text sum aliases scope name)) [
          | inl hidden ↦ rw hidden (λ r h. cc)
          | inr visible ↦ rw visible (inr-Yields _ _ (visible, named))
        ]

    pub frame_set-Opened :
        (scope_value name_value v : Value) (store : Store)
        → Yields
            (λ r. Opened store r.1)
            (frame_set host json_text sum aliases scope_value name_value v store)
    unfolding frame_set
    frame_set-Opened scope_value name_value v store = bind-Yields _ _ _ (λ (scope, name) found r h.
        let (visible, named) = opened scope_value name_value (scope, name) found in
        (scope, name, visible, set_again scope name v store named r h))

    pub frame_delete-Opened :
        (scope_value name_value : Value) (store : Store)
        → Yields
            (λ r. Opened store r.1)
            (frame_delete host json_text sum aliases scope_value name_value store)
    unfolding frame_delete
    frame_delete-Opened scope_value name_value store = bind-Yields _ _ _ (λ (scope, name) found r h.
        let (visible, named) = opened scope_value name_value (scope, name) found in
        (
          scope,
          name,
          visible,
          again (delete-Changed (str (scope_text scope)) (str name) store r h) named,
        ))

    pub frame_increment-Opened :
        (scope_value name_value amount : Value) (store : Store)
        → Yields
            (λ r. Opened store r.1)
            (frame_increment host json_text sum aliases scope_value name_value amount store)
    unfolding frame_increment
    frame_increment-Opened scope_value name_value amount store =
        bind-Yields _ _ _ (λ (scope, name) found r h.
          let (visible, named) = opened scope_value name_value (scope, name) found in
          (
            scope,
            name,
            visible,
            again (increment-Changed (str (scope_text scope)) (str name) amount store r h) named,
          ))

    pub frame_append-Opened :
        (scope_value name_value v : Value) (store : Store)
        → Yields
            (λ r. Opened store r.1)
            (frame_append host json_text sum aliases scope_value name_value v store)
    unfolding frame_append
    frame_append-Opened scope_value name_value v store =
        bind-Yields _ _ _ (λ (scope, name) found r h.
          let (visible, named) = opened scope_value name_value (scope, name) found in
          (
            scope,
            name,
            visible,
            again (append-Changed (str (scope_text scope)) (str name) v store r h) named,
          ))

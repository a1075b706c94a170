-- ===== src/Variables/Context/Laws.antt =====
-- What the operations on variables change, and what they keep.
use flowmind.Prelude.{
  String, ◌≡◌, refl, ◌∙◌, true, false, List, [], ◌∷◌, Bool-cases, Yields, inr-Yields, bind-Yields,
  ◌⊎◌, inl, inr, ◌==◌, eq_iff, eq_refl,
}
use flowmind.Json.{Number, Value, Fields, get, has_own, Host}
use flowmind.Variables.{
  VariableScope, execution, workflow, assert_variable_scope, assert_variable_name, clone,
  variable_value_type,
}
use flowmind.Variables.Accepted.{IsAccepted, assert_variable_value_iff}
use flowmind.Variables.Context.{
  Store, Entry, ContextFault, put, remove, target, with_target, entry_in, get_variable, set,
  is_alias, frame_get, frame_set, frame_delete, frame_increment, frame_append,
}
use flowmind.Variables.Context.Records.{
  IsSound, put-AreVariables, remove-AreVariables, has_own-put, get-put, get_other-put,
  has_other-remove, get_other-remove,
}
use flowmind.Variables.Context.Changes.{
  Change, wrote, removed, Opened, name_ok, stored-IsKept, checked-inr, frame_set-Opened,
  frame_delete-Opened, frame_increment-Opened, frame_append-Opened,
}

Change-IsSound :
    (json_text : Value → String) (scope : VariableScope) (name : String) (before after : Store)
    → Change json_text scope name before after
    → IsSound json_text before
    → IsSound json_text after
Change-IsSound json_text execution name before _ (wrote kept named safe) ok = record {
  execution_sound =
      put-AreVariables json_text name kept before.execution_variables named safe ok.execution_sound;
  workflow_sound = ok.workflow_sound;
}
Change-IsSound json_text workflow name before _ (wrote kept named safe) ok = record {
  execution_sound = ok.execution_sound;
  workflow_sound =
      put-AreVariables json_text name kept before.workflow_variables named safe ok.workflow_sound;
}
Change-IsSound json_text execution name before _ removed ok = record {
  execution_sound =
      remove-AreVariables json_text name before.execution_variables ok.execution_sound;
  workflow_sound = ok.workflow_sound;
}
Change-IsSound json_text workflow name before _ removed ok = record {
  execution_sound = ok.execution_sound;
  workflow_sound = remove-AreVariables json_text name before.workflow_variables ok.workflow_sound;
}

entry-put :
    (name : String) (v : Value) (fs : Fields)
    → entry_in name (put name v fs)
      ≡ record { exists = true; value = v; type = variable_value_type v }
unfolding entry_in
entry-put name v fs = rw (has_own-put name name v fs, eq_refl name, get-put name v fs) refl

entry_other-put :
    (j name : String) (v : Value) (fs : Fields)
    → (name == j) ≡ false
    → entry_in j (put name v fs) ≡ entry_in j fs
unfolding entry_in
entry_other-put j name v fs other =
    rw (has_own-put j name v fs, other, get_other-put j name v fs other) refl

entry_other-remove :
    (j name : String) (fs : Fields)
    → (name == j) ≡ false
    → entry_in j (remove name fs) ≡ entry_in j fs
unfolding entry_in
entry_other-remove j name fs other =
    rw (has_other-remove j name fs other, get_other-remove j name fs other) refl

-- The variable of a scope and a name is another than that of two others.
abbrev pub IsOther : VariableScope → String → VariableScope → String → Type 0
IsOther execution name execution j = (name == j) ≡ false
IsOther workflow name workflow j = (name == j) ≡ false
IsOther execution name workflow j = Unit
IsOther workflow name execution j = Unit

Change-keeps :
    (json_text : Value → String) (scope s : VariableScope) (name j : String) (before after : Store)
    → Change json_text scope name before after
    → IsOther scope name s j
    → get_variable after s j ≡ get_variable before s j
Change-keeps json_text execution execution name j before _ (wrote kept named safe) other =
    entry_other-put j name kept before.execution_variables other
Change-keeps json_text workflow workflow name j before _ (wrote kept named safe) other =
    entry_other-put j name kept before.workflow_variables other
Change-keeps json_text execution execution name j before _ removed other =
    entry_other-remove j name before.execution_variables other
Change-keeps json_text workflow workflow name j before _ removed other =
    entry_other-remove j name before.workflow_variables other
Change-keeps json_text execution workflow name j before _ (wrote kept named safe) other = refl
Change-keeps json_text execution workflow name j before _ removed other = refl
Change-keeps json_text workflow execution name j before _ (wrote kept named safe) other = refl
Change-keeps json_text workflow execution name j before _ removed other = refl

-- A step of an execution on its variables, through the frame in which it runs.
pub data Operation : Type 0 where
  setting : (scope name value : Value) → Operation
  deleting : (scope name : Value) → Operation
  incrementing : (scope name amount : Value) → Operation
  appending : (scope name value : Value) → Operation

-- The store that is left; an operation that throws leaves it as it was.
abbrev left : {A : Type 0} → ContextFault ⊎ A × Store → Store → Store
left (inl fault) store = store
left (inr (a, after)) store = after

left-cases :
    {A : Type 0} (P : Store → Type 0) (r : ContextFault ⊎ A × Store) (store : Store)
    → Yields (λ p. P p.1) r
    → P store
    → P (left r store)
left-cases P (inl fault) store h p = p
left-cases P (inr (a, after)) store h p = h (a, after) refl

module _ (host : Host) (json_text : Value → String) (sum : Number → Number → Number) where
  module _ (aliases : Fields) where
    unfoldable pub perform : Operation → Store → Store
    unfolding frame_set frame_delete frame_increment frame_append
    perform (setting scope name v) store =
        left (frame_set host json_text sum aliases scope name v store) store
    perform (deleting scope name) store =
        left (frame_delete host json_text sum aliases scope name store) store
    perform (incrementing scope name amount) store =
        left (frame_increment host json_text sum aliases scope name amount store) store
    perform (appending scope name v) store =
        left (frame_append host json_text sum aliases scope name v store) store

    unfoldable pub perform_all : List Operation → Store → Store
    unfolding perform
    perform_all [] store = store
    perform_all (op ∷ ops) store = perform_all ops (perform op store)

    perform-cases :
        (P : Store → Type 0) (op : Operation) (store : Store)
        → ((after : Store) → Opened host json_text sum aliases store after → P after)
        → P store
        → P (perform op store)
    unfolding perform
    perform-cases P (setting scope name v) store h p =
        left-cases P _ store
          (λ r e. h r.1 (frame_set-Opened host json_text sum aliases scope name v store r e)) p
    perform-cases P (deleting scope name) store h p =
        left-cases P _ store
          (λ r e. h r.1 (frame_delete-Opened host json_text sum aliases scope name store r e)) p
    perform-cases P (incrementing scope name amount) store h p =
        left-cases P _ store
          (λ r e.
            h r.1 (frame_increment-Opened host json_text sum aliases scope name amount store r e))
          p
    perform-cases P (appending scope name v) store h p =
        left-cases P _ store
          (λ r e. h r.1 (frame_append-Opened host json_text sum aliases scope name v store r e)) p

    all-IsSound :
        (ops : List Operation) (store : Store)
        → IsSound json_text store
        → IsSound json_text (perform_all ops store)
    unfolding perform_all
    all-IsSound [] store ok = ok
    all-IsSound (op ∷ ops) store ok = all-IsSound ops (perform op store) (
        perform-cases (IsSound json_text) op store
          (λ after (scope, name, visible, change).
            Change-IsSound json_text scope name store after change ok)
          ok)

    visible-IsOther :
        (scope : VariableScope) (name j : String)
        → is_alias host json_text sum aliases scope name ≡ false
        → has_own j aliases ≡ true
        → IsOther scope name execution j
    visible-IsOther workflow name j visible hidden = tt
    visible-IsOther execution name j visible hidden = elim (Bool-cases (name == j)) [
      | inr other ↦ other
      | inl same ↦ cc (rw ((eq_iff name j).0 same) at visible, hidden)
    ]

    all_hidden :
        (ops : List Operation) (store : Store) (j : String)
        → has_own j aliases ≡ true
        → get_variable (perform_all ops store) execution j ≡ get_variable store execution j
    unfolding perform_all
    all_hidden [] store j hidden = refl
    all_hidden (op ∷ ops) store j hidden =
        all_hidden ops (perform op store) j hidden
        ∙ perform-cases (λ s. get_variable s execution j ≡ get_variable store execution j) op store
            (λ after (scope, name, visible, change).
              Change-keeps json_text scope execution name j store after change
                (visible-IsOther scope name j visible hidden))
            refl

-- Whatever operations a frame runs, failing ones included, every variable goes on having a name that may
-- be used and a value that is kept: the clone of a value that assertVariableValue accepts, whose number of
-- values and length as JSON text are within the limits, and itself JSON within the limits for numbers,
-- texts, arrays, depth, keys and the number of values in it.
pub variables_stay-IsSound :
    (host : Host) (json_text : Value → String) (sum : Number → Number → Number) (aliases : Fields)
    (ops : List Operation) (store : Store)
    → IsSound json_text store
    → IsSound json_text (perform_all host json_text sum aliases ops store)
variables_stay-IsSound host json_text sum aliases ops store ok =
    all-IsSound host json_text sum aliases ops store ok

-- Whatever operations the frame of an iteration runs, a variable of the execution that one of its
-- names hides keeps its entry, and the frame reads the value of the iteration under that name.
pub hidden_variable_is_kept :
    (host : Host) (json_text : Value → String) (sum : Number → Number → Number) (aliases : Fields)
    (ops : List Operation) (store : Store) (name : String)
    → has_own name aliases ≡ true
    → (get_variable (perform_all host json_text sum aliases ops store) execution name
        ≡ get_variable store execution name)
      × ((frame_get host json_text sum aliases
            (perform_all host json_text sum aliases ops store)
            execution
            name).value
          ≡ get name aliases)
unfolding frame_get
hidden_variable_is_kept host json_text sum aliases ops store name hidden =
    (all_hidden host json_text sum aliases ops store name hidden, rw hidden refl)

-- What `set` leaves: the variable has the clone of the value, and every other one its entry.
pub record HasSet (json_text : Value → String) (scope_value name_value v : Value) (before : Store)
    (r : Entry × Store) : Type 0 where
  pub scope : VariableScope
  pub name : String
  pub scoped : assert_variable_scope scope_value ≡ inr scope
  pub named : assert_variable_name name_value ≡ inr name
  pub accepted : IsAccepted json_text v
  pub entry : r.0 ≡ record { exists = true; value = clone v; type = variable_value_type (clone v) }
  pub found : get_variable r.1 scope name ≡ r.0
  pub others :
      (s : VariableScope) (j : String)
      → IsOther scope name s j
      → get_variable r.1 s j ≡ get_variable before s j

set_target :
    (scope : VariableScope) (fs : Fields) (store : Store)
    → target scope (with_target scope fs store) ≡ fs
set_target execution fs store = refl
set_target workflow fs store = refl

-- A variable that is set has a scope and a name that may be used and a value within the limits; what
-- is read back is the clone of that value, and no other variable has changed.
set-HasSet :
    (host : Host) (json_text : Value → String) (sum : Number → Number → Number)
    (scope_value name_value v : Value) (store : Store) (entry : Entry) (after : Store)
    → set host json_text sum scope_value name_value v store ≡ inr (entry, after)
    → HasSet json_text scope_value name_value v store (entry, after)
unfolding set
set-HasSet host json_text sum scope_value name_value v store entry after h = yields (entry, after) h
  where
    yields :
        Yields
          (HasSet json_text scope_value name_value v store)
          (set host json_text sum scope_value name_value v store)
    yields = bind-Yields _ _ _ (λ scope scoped. bind-Yields _ _ _ (λ name named.
        bind-Yields _ _ _ (λ kept valued.
          let (accepted, same) =
            (assert_variable_value_iff json_text v kept).0 (checked-inr _ _ valued) in
          inr-Yields _ _ (record {
            scope = scope;
            name = name;
            scoped = checked-inr _ _ scoped;
            named = checked-inr _ _ named;
            accepted = accepted;
            entry =
                rw (set_target scope (put name kept (target scope store)) store, same)
                  (entry-put name kept (target scope store));
            found = refl;
            others = λ s j other.
                Change-keeps json_text scope s name j store _
                  (wrote kept (name_ok name_value name (checked-inr _ _ named))
                    (stored-IsKept json_text v kept (checked-inr _ _ valued)))
                  other;
          }))))

-- ===== src/Variables/Context/Records.antt =====
-- Records of variables under `put` and `remove`.
use flowmind.Prelude.{
  ◌≤◌, String, ◌≡◌, refl, false, ◌||◌, Bool-cases, inl, inr, arith, ◌==◌, eq_iff, eq_refl,
}
use flowmind.Json.{Value, str, Fields, end, field, get, has_own}
use flowmind.Variables.{max_operations, clone, assert_variable_name}
use flowmind.Variables.Limits.{nodes, IsSafe}
use flowmind.Variables.Accepted.{IsAccepted}
use flowmind.Variables.Context.{Store, put, remove}

-- A value that is kept: the clone of one that assertVariableValue accepts, and itself within the limits
-- that do not need the runtime's text of it.
pub record IsKept (json_text : Value → String) (kept : Value) : Type 0 where
  pub given : Value
  pub accepted : IsAccepted json_text given
  pub same : clone given ≡ kept
  pub safe : IsSafe 0 kept
  pub small : nodes kept ≤ max_operations

-- The names and the values of a record of variables.
abbrev pub AreVariables : (Value → String) → Fields → Type 0
AreVariables json_text end = Unit
AreVariables json_text (field k v fs) =
    (assert_variable_name (str k) ≡ inr k) × IsKept json_text v × AreVariables json_text fs

pub record IsSound (json_text : Value → String) (store : Store) : Type 0 where
  pub execution_sound : AreVariables json_text store.execution_variables
  pub workflow_sound : AreVariables json_text store.workflow_variables

pub put-AreVariables :
    (json_text : Value → String) (key : String) (v : Value) (fs : Fields)
    → assert_variable_name (str key) ≡ inr key
    → IsKept json_text v
    → AreVariables json_text fs
    → AreVariables json_text (put key v fs)
unfolding put
put-AreVariables json_text key v end named safe ok = (named, safe, tt)
put-AreVariables json_text key v (field k w fs) named safe (name, one, more) =
    elim (Bool-cases (k == key)) [
      | inl same ↦ rw same (name, safe, more)
      | inr other ↦ rw other (name, one, put-AreVariables json_text key v fs named safe more)
    ]

pub remove-AreVariables :
    (json_text : Value → String) (key : String) (fs : Fields)
    → AreVariables json_text fs
    → AreVariables json_text (remove key fs)
unfolding remove
remove-AreVariables json_text key end ok = tt
remove-AreVariables json_text key (field k w fs) (name, one, more) = elim (Bool-cases (k == key)) [
  | inl same ↦ rw same (remove-AreVariables json_text key fs more)
  | inr other ↦ rw other (name, one, remove-AreVariables json_text key fs more)
]

pub has_own-put :
    (j key : String) (v : Value) (fs : Fields)
    → has_own j (put key v fs) ≡ (key == j || has_own j fs)
unfolding put has_own
has_own-put j key v end = refl
has_own-put j key v (field k w fs) = elim (Bool-cases (k == key)) [
  | inl same ↦ rw (same, (eq_iff k key).0 same) (ground arith)
  | inr other ↦ rw (other, has_own-put j key v fs) (ground arith)
]

pub get-put : (key : String) (v : Value) (fs : Fields) → get key (put key v fs) ≡ v
unfolding put get
get-put key v end = rw (eq_refl key) refl
get-put key v (field k w fs) = elim (Bool-cases (k == key)) [
  | inl same ↦ rw same (rw same refl)
  | inr other ↦ rw other (rw other (get-put key v fs))
]

pub get_other-put :
    (j key : String) (v : Value) (fs : Fields)
    → (key == j) ≡ false
    → get j (put key v fs) ≡ get j fs
unfolding put get
get_other-put j key v end other = rw other refl
get_other-put j key v (field k w fs) other = elim (Bool-cases (k == key)) [
  | inl same ↦ rw (same, (eq_iff k key).0 same, other) refl
  | inr differs ↦ rw (differs, get_other-put j key v fs other) refl
]

pub has_other-remove :
    (j key : String) (fs : Fields) → (key == j) ≡ false → has_own j (remove key fs) ≡ has_own j fs
unfolding remove has_own
has_other-remove j key end other = refl
has_other-remove j key (field k w fs) other = elim (Bool-cases (k == key)) [
  | inl same ↦ rw (same, (eq_iff k key).0 same, other) (has_other-remove j key fs other)
  | inr differs ↦ rw (differs, has_other-remove j key fs other) refl
]

pub get_other-remove :
    (j key : String) (fs : Fields) → (key == j) ≡ false → get j (remove key fs) ≡ get j fs
unfolding remove get
get_other-remove j key end other = refl
get_other-remove j key (field k w fs) other = elim (Bool-cases (k == key)) [
  | inl same ↦ rw (same, (eq_iff k key).0 same, other) (get_other-remove j key fs other)
  | inr differs ↦ rw (differs, get_other-remove j key fs other) refl
]

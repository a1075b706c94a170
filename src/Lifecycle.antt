-- ===== src/Lifecycle.antt =====
-- packages/shared-types/src/execution-lifecycle.ts: the states of an execution and their names.
-- Statuses are the strings of the source, so that a string that names no status is covered.
pub mod Laws
use flowmind.Prelude.{
  String, Bool, true, false, ◌||◌, Option, none, some, List, [], ◌∷◌, ◌==◌, if◌then◌else◌, has,
}

pub data PublicStatus : Type 0 where
  queued running waiting completed failed cancelled : PublicStatus

pub data Status : Type 0 where
  pending queued' running' retrying completed' failed' cancelled' : Status

-- The values of `ExecutionStatusValues`.
unfoldable pub text : Status → String
text pending = "PENDING"
text queued' = "QUEUED"
text running' = "RUNNING"
text retrying = "RETRYING"
text completed' = "COMPLETED"
text failed' = "FAILED"
text cancelled' = "CANCELLED"

unfoldable pub public_text : PublicStatus → String
public_text queued = "queued"
public_text running = "running"
public_text waiting = "waiting"
public_text completed = "completed"
public_text failed = "failed"
public_text cancelled = "cancelled"

unfoldable pub active_execution_statuses : List String
active_execution_statuses = "PENDING" ∷ "QUEUED" ∷ "RUNNING" ∷ "RETRYING" ∷ []

unfoldable pub terminal_execution_statuses : List String
terminal_execution_statuses = "COMPLETED" ∷ "FAILED" ∷ "CANCELLED" ∷ []

unfoldable pub cancelable_execution_statuses : List String
unfolding active_execution_statuses
cancelable_execution_statuses = active_execution_statuses

unfoldable pub retryable_execution_statuses : List String
retryable_execution_statuses = "FAILED" ∷ []

-- Names that every object inherits. A lookup of one finds a value that has no `includes`.
unfoldable pub inherited : List String
inherited =
    "constructor" ∷ "toString" ∷ "toLocaleString" ∷ "valueOf" ∷ "hasOwnProperty" ∷ "isPrototypeOf"
    ∷ "propertyIsEnumerable" ∷ "__proto__" ∷ "__defineGetter__" ∷ "__defineSetter__"
    ∷ "__lookupGetter__" ∷ "__lookupSetter__" ∷ []

-- The own entries of `VALID_TRANSITIONS`.
unfoldable pub valid_transitions : String → Option (List String)
valid_transitions from =
    if from == "PENDING"
    then some ("QUEUED" ∷ "RUNNING" ∷ "FAILED" ∷ "CANCELLED" ∷ [])
    else if from == "QUEUED"
    then some ("RUNNING" ∷ "RETRYING" ∷ "FAILED" ∷ "CANCELLED" ∷ [])
    else if from == "RUNNING"
    then some ("RETRYING" ∷ "COMPLETED" ∷ "FAILED" ∷ "CANCELLED" ∷ "QUEUED" ∷ [])
    else if from == "RETRYING"
    then some ("QUEUED" ∷ "RUNNING" ∷ "FAILED" ∷ "CANCELLED" ∷ [])
    else if from == "COMPLETED"
    then some []
    else if from == "FAILED"
    then some []
    else if from == "CANCELLED"
    then some []
    else none

unfoldable pub public_execution_status : String → PublicStatus
public_execution_status status =
    if status == "PENDING" || status == "QUEUED"
    then queued
    else if status == "RUNNING"
    then running
    else if status == "RETRYING"
    then waiting
    else if status == "COMPLETED"
    then completed
    else if status == "FAILED"
    then failed
    else if status == "CANCELLED"
    then cancelled
    else failed

unfoldable pub execution_status_from_public : String → Option Status
execution_status_from_public status =
    if status == "queued" || status == "PENDING" || status == "QUEUED"
    then some queued'
    else if status == "running" || status == "RUNNING"
    then some running'
    else if status == "waiting" || status == "RETRYING"
    then some retrying
    else if status == "completed" || status == "COMPLETED"
    then some completed'
    else if status == "failed" || status == "FAILED"
    then some failed'
    else if status == "cancelled" || status == "CANCELLED"
    then some cancelled'
    else none

unfoldable pub is_terminal_execution_status : String → Bool
unfolding terminal_execution_statuses has
is_terminal_execution_status status = has status terminal_execution_statuses

unfoldable pub is_active_execution_status : String → Bool
unfolding active_execution_statuses has
is_active_execution_status status = has status active_execution_statuses

unfoldable pub is_cancelable_execution_status : String → Bool
unfolding cancelable_execution_statuses has
is_cancelable_execution_status status = has status cancelable_execution_statuses

unfoldable pub is_retryable_execution_status : String → Bool
unfolding retryable_execution_statuses has
is_retryable_execution_status status = has status retryable_execution_statuses

-- `none` is the TypeError of a call of `includes` that is not there.
unfoldable pub can_transition_execution : String → String → Option Bool
unfolding valid_transitions inherited has
can_transition_execution from to = elim (valid_transitions from) [
  | some targets ↦ some (has to targets)
  | none ↦ if has from inherited then none else some false
]

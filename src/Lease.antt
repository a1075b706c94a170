-- ===== src/Lease.antt =====
-- apps/worker/src/engine/execution-lease.service.ts: the lease by which one worker at a time holds
-- an execution. A row of the table of executions has the fields that the queries read or write; a
-- conditional `updateMany` is one atomic step of the database. Times are milliseconds.
pub mod Laws
use flowmind.Prelude.{
  ℕ, suc, ◌+◌, String, Bool, true, false, ◌&&◌, ◌||◌, Option, none, some, List, [], ◌∷◌, ◌==◌,
  if◌then◌else◌, ltb, has,
}

pub record Row : Type 0 where
  pub id : String
  pub organization_id : String
  pub status : String
  pub locked_by : Option String
  pub locked_until : Option ℕ
  pub last_heartbeat_at : Option ℕ
  pub run_attempt : ℕ

unfoldable pub processable_statuses : List String
processable_statuses = "PENDING" ∷ "QUEUED" ∷ "RETRYING" ∷ "RUNNING" ∷ []

-- lockedBy: worker
abbrev pub is_locked_by : Option String → String → Bool
is_locked_by none worker = false
is_locked_by (some w) worker = w == worker

abbrev pub is_unlocked : Option String → Bool
is_unlocked none = true
is_unlocked (some w) = false

-- lockedUntil: { lt: now } and { gt: now }; a missing time satisfies neither.
abbrev pub is_past : Option ℕ → ℕ → Bool
is_past none now = false
is_past (some t) now = ltb t now

abbrev pub is_future : Option ℕ → ℕ → Bool
is_future none now = false
is_future (some t) now = ltb now t

unfoldable pub can_acquire : String → String → String → ℕ → Row → Bool
unfolding has processable_statuses
can_acquire worker execution organization now r =
    r.id == execution
    && r.organization_id == organization
    && has r.status processable_statuses
    && (is_unlocked r.locked_by || is_past r.locked_until now || is_locked_by r.locked_by worker)

-- `acquire`: the row, and whether the lease was taken.
unfoldable pub acquire : String → ℕ → String → String → ℕ → Row → Row × Bool
unfolding can_acquire
acquire worker duration execution organization now r =
    if can_acquire worker execution organization now r
    then (
      record r {
        locked_by = some worker;
        locked_until = some (now + duration);
        last_heartbeat_at = some now;
        status = "RUNNING";
        run_attempt = suc r.run_attempt;
      },
      true,
    )
    else (r, false)

unfoldable pub owns : String → String → ℕ → Row → Bool
owns worker execution now r =
    r.id == execution && is_locked_by r.locked_by worker && is_future r.locked_until now

-- `heartbeat`: `false` is the LeaseLostError.
unfoldable pub heartbeat : String → ℕ → String → ℕ → Row → Row × Bool
unfolding owns
heartbeat worker duration execution now r =
    if owns worker execution now r
    then (record r { locked_until = some (now + duration); last_heartbeat_at = some now }, true)
    else (r, false)

-- `assertOwned`: `false` is the LeaseLostError.
unfoldable pub assert_owned : String → String → ℕ → Row → Bool
unfolding owns
assert_owned worker execution now r = owns worker execution now r

unfoldable pub release : String → String → Row → Row
release worker execution r =
    if r.id == execution && is_locked_by r.locked_by worker
    then record r { locked_by = none; locked_until = none }
    else r

-- ===== src/Tests/Policies.antt =====
-- The duration, approval, retry and lease rules on concrete inputs.
use flowmind.Prelude.{
  sym, ℕ, ◌<◌, ◌≡◌, ◌≢◌, ◌↔◌, refl, String, true, false, none, some, [], ◌∷◌, arith, has, add,
  eq_iff,
}
use flowmind.Json.{
  nan, str, Fields, end, field, get, nat, Host, to_text, to_number, is_integer, below, above,
}
use flowmind.Text
use flowmind.Duration.{
  is_duration, parse_duration_ms, amount, digits, after_digits, unit_ms, is_word, lower,
}
use flowmind.Duration.Laws.{is_duration_iff}
use flowmind.Approval.{
  ApprovalConfig, ok, normalize_approval_config, clean_text, blank_controls, strip_tags,
  expiration_of, roles_of, assemble, approval_allowed_roles,
}
use flowmind.Approval.Laws.{IsNormal, normalize-IsNormal}
use flowmind.RetryPolicy.{RetryPolicy, exponential, resolve}
use flowmind.RetryPolicy.Laws.{IsBounded, resolve-IsBounded}
use flowmind.Lease.{
  Row, processable_statuses, acquire, heartbeat, assert_owned, release, can_acquire,
}
use flowmind.Lease.Laws.{
  Others, idle, Holds, lease_is_exclusive, lost_lease_is_fenced, abandoned_lease_can_be_taken,
  Retaken,
}

abbrev editor : String
editor = "editor"

abbrev holder : String
holder = "w"

abbrev rival : String
rival = "v"

abbrev host : Host
host = record { number_text = λ n. "1"; number_of_text = λ s. nan; is_date = λ s. true }

five_minutes : parse_duration_ms (str " 5 Minutes ") ≡ some 300000
unfolding parse_duration_ms amount digits after_digits unit_ms is_word lower Text.trim
    Text.trim_start Text.trim_end Text.is_blank Text.is_space Text.is_digit Text.is_upper
five_minutes = refl

is_duration_iff_example :
    (is_duration " 5 Minutes " ≡ true)
    ↔ ((ms : ℕ) × (parse_duration_ms (str " 5 Minutes ") ≡ some ms) × (0 < ms))
is_duration_iff_example = is_duration_iff " 5 Minutes "

abbrev request : Fields
request = field "title" (str " Sign <b>off</b> ") end

abbrev config : ApprovalConfig
config = record {
  title = "Sign off";
  description = none;
  summary = none;
  expiration_seconds = none;
  allowed_roles = "editor" ∷ "admin" ∷ "owner" ∷ [];
}

normalized : normalize_approval_config host request ≡ ok config
unfolding normalize_approval_config get clean_text blank_controls strip_tags Text.includes Text.trim
    Text.trim_start Text.trim_end Text.is_blank Text.is_space Text.starts_with Text.take
    expiration_of roles_of to_text to_number is_integer below above approval_allowed_roles has add
    assemble
normalized = refl

normalize-IsNormal_example : IsNormal config
normalize-IsNormal_example = normalize-IsNormal host request config normalized

resolve-IsBounded_example : IsBounded (resolve host "http_request" (some (nat 600)) none)
resolve-IsBounded_example = resolve-IsBounded host "http_request" (some (nat 600)) none

abbrev policy : RetryPolicy
policy = record {
  max_attempts = 5;
  backoff_ms = 1000;
  strategy = exponential;
  timeout_seconds = 30;
}

abbrev waiting_row : Row
waiting_row = record {
  id = "x";
  organization_id = "o";
  status = "QUEUED";
  locked_by = none;
  locked_until = none;
  last_heartbeat_at = none;
  run_attempt = 0;
}

abbrev held_row : Row
held_row = record {
  id = "x";
  organization_id = "o";
  status = "RUNNING";
  locked_by = some "w";
  locked_until = some 160;
  last_heartbeat_at = some 100;
  run_attempt = 1;
}

acquired : acquire "w" 60 "x" "o" 100 waiting_row ≡ (held_row, true)
unfolding acquire can_acquire has processable_statuses
acquired = refl

apart : rival ≢ holder
apart e = cc ((eq_iff rival holder).1 e)

tried : acquire "v" 60 "x" "o" 150 held_row ≡ (held_row, false)
unfolding acquire can_acquire has processable_statuses
tried = refl

-- Another worker tries to take the lease before it ends.
attempt : Others "w" 60 160 held_row held_row
unfolding acquire can_acquire has processable_statuses
attempt = Others.acquires "v" "x" "o" 150 held_row held_row apart (omega arith) (idle held_row)

lease_is_exclusive_example : (held_row ≡ held_row) × (assert_owned "w" "x" 155 held_row ≡ true)
lease_is_exclusive_example =
    lease_is_exclusive "w" "x" "o" 60 100 155 waiting_row held_row held_row acquired attempt
      (omega arith)

other_way : holder ≢ rival
other_way e = cc ((eq_iff holder rival).1 e)

lost_lease_is_fenced_example :
    (heartbeat "v" 60 "x" 120 held_row ≡ (held_row, false))
    × (assert_owned "v" "x" 120 held_row ≡ false)
    × (release "v" "x" held_row ≡ held_row)
lost_lease_is_fenced_example =
    lost_lease_is_fenced "v" "w" "x" "o" 60 100 120 waiting_row held_row other_way acquired

holds : Holds "w" 160 held_row
holds = record { holder = refl; until = refl }

processable : has "RUNNING" processable_statuses ≡ true
unfolding has processable_statuses
processable = refl

rival_is_other : rival ≢ holder
rival_is_other e = other_way (sym e)

abandoned_lease_can_be_taken_example :
    Retaken "w" "v" "x" 60 200 230 held_row (acquire "v" 60 "x" "o" 200 held_row)
abandoned_lease_can_be_taken_example =
    abandoned_lease_can_be_taken "w" "v" "x" "o" 60 100 200 230 waiting_row held_row held_row
      rival_is_other acquired attempt (omega arith)

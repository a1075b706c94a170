-- ===== src/Lifecycle/Laws.antt =====
-- The state machine of executions, and the two vocabularies of statuses.
use flowmind.Prelude.{String, ◌≡◌, ◌≢◌, refl, true, false, not, ◌||◌, some, Bool-cases, inl, inr}
use flowmind.Lifecycle.{
  Status, pending, queued', running', retrying, completed', failed', cancelled', PublicStatus,
  queued, running, waiting, completed, failed, cancelled, text, public_text,
  public_execution_status, execution_status_from_public, is_terminal_execution_status,
  is_active_execution_status, is_cancelable_execution_status, is_retryable_execution_status,
  can_transition_execution,
}

-- One status change that `canTransitionExecution` allows.
pub data Step : Status → Status → Type 0 where
  step : {s t : Status} → can_transition_execution (text s) (text t) ≡ some true → Step s t

-- A history of status changes.
pub data History (s : Status) : Status → Type 0 where
  start : History s s
  then_to : {t u : Status} → History s t → Step t u → History s u

-- Each status is active or terminal and never both, it can be cancelled exactly while it is active,
-- and only a terminal status can be retried.
status-partition :
    (s : Status)
    → (is_active_execution_status (text s) ≡ not (is_terminal_execution_status (text s)))
      × (is_cancelable_execution_status (text s) ≡ is_active_execution_status (text s))
      × ((not (is_retryable_execution_status (text s)) || is_terminal_execution_status (text s))
          ≡ true)
unfolding text is_active_execution_status is_terminal_execution_status
    is_cancelable_execution_status is_retryable_execution_status
status-partition pending = (refl, refl, refl)
status-partition _ = (refl, refl, refl)

-- A terminal status allows no change, to whatever string.
terminal_allows_nothing :
    (s : Status) (target : String)
    → is_terminal_execution_status (text s) ≡ true
    → can_transition_execution (text s) target ≡ some false
unfolding text is_terminal_execution_status can_transition_execution
terminal_allows_nothing completed' target e = refl
terminal_allows_nothing failed' target e = refl
terminal_allows_nothing cancelled' target e = refl
terminal_allows_nothing _ target e = cc

Step-not_terminal : {s t : Status} → Step s t → is_terminal_execution_status (text s) ≡ false
Step-not_terminal {s} {t} (step e) = elim (Bool-cases (is_terminal_execution_status (text s))) [
  | inl over ↦ cc (terminal_allows_nothing s (text t) over)
  | inr open' ↦ open'
]

-- An execution that has reached a terminal status keeps it in every later history.
terminal_is_final :
    (s t : Status) → is_terminal_execution_status (text s) ≡ true → History s t → s ≡ t
terminal_is_final s t over start = refl
terminal_is_final s t over (then_to {t = m} h last) =
    let same = terminal_is_final s m over h in cc (Step-not_terminal last, same)

before_completed : (s : Status) → Step s completed' → s ≡ running'
unfolding text can_transition_execution
before_completed running' (step e) = refl
before_completed pending (step e) = cc
before_completed queued' (step e) = cc
before_completed retrying (step e) = cc
before_completed completed' (step e) = cc
before_completed failed' (step e) = cc
before_completed cancelled' (step e) = cc

-- An execution that was not completed at first and is completed in the end has been running just
-- before.
completed_ran :
    (s : Status)
    → s ≢ completed'
    → History s completed'
    → (t : Status) × History s t × Step t completed' × (t ≡ running')
completed_ran s new start = absurd (new refl)
completed_ran s new (then_to {t = t} h last) = (t, h, last, before_completed t last)

-- From every active status each terminal status can be reached.
active_can_finish :
    (s t : Status)
    → is_active_execution_status (text s) ≡ true
    → is_terminal_execution_status (text t) ≡ true
    → History s t
unfolding text is_active_execution_status is_terminal_execution_status can_transition_execution
active_can_finish pending completed' a b =
    then_to (then_to start (step {t = running'} refl)) (step refl)
active_can_finish queued' completed' a b =
    then_to (then_to start (step {t = running'} refl)) (step refl)
active_can_finish retrying completed' a b =
    then_to (then_to start (step {t = running'} refl)) (step refl)
active_can_finish running' completed' a b = then_to start (step refl)
active_can_finish pending failed' a b = then_to start (step refl)
active_can_finish pending cancelled' a b = then_to start (step refl)
active_can_finish queued' failed' a b = then_to start (step refl)
active_can_finish queued' cancelled' a b = then_to start (step refl)
active_can_finish retrying failed' a b = then_to start (step refl)
active_can_finish retrying cancelled' a b = then_to start (step refl)
active_can_finish running' failed' a b = then_to start (step refl)
active_can_finish running' cancelled' a b = then_to start (step refl)
active_can_finish s t a b = cc

there_and_back :
    (p : PublicStatus)
    → (t : Status) × (execution_status_from_public (public_text p) ≡ some t)
      × (public_execution_status (text t) ≡ p)
unfolding text public_text execution_status_from_public public_execution_status
there_and_back queued = (queued', refl, refl)
there_and_back running = (running', refl, refl)
there_and_back waiting = (retrying, refl, refl)
there_and_back completed = (completed', refl, refl)
there_and_back failed = (failed', refl, refl)
there_and_back cancelled = (cancelled', refl, refl)

back_and_there :
    (s : Status)
    → s ≢ pending
    → execution_status_from_public (public_text (public_execution_status (text s))) ≡ some s
unfolding text public_text execution_status_from_public public_execution_status
back_and_there pending new = absurd (new refl)
back_and_there queued' new = refl
back_and_there running' new = refl
back_and_there retrying new = refl
back_and_there completed' new = refl
back_and_there failed' new = refl
back_and_there cancelled' new = refl

-- A public status survives the way through the stored status and back, and a stored status the way
-- through its public name and back, but for PENDING, which becomes QUEUED.
pub public_roundtrip :
    (p : PublicStatus) (s : Status)
    → s ≢ pending
    → ((t : Status) × (execution_status_from_public (public_text p) ≡ some t)
        × (public_execution_status (text t) ≡ p))
      × (execution_status_from_public (public_text (public_execution_status (text s))) ≡ some s)
      × (execution_status_from_public (public_text (public_execution_status (text pending)))
          ≡ some queued')
unfolding text public_text execution_status_from_public public_execution_status
public_roundtrip p s other = (there_and_back p, back_and_there s other, refl)

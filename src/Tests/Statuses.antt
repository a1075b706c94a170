-- ===== src/Tests/Statuses.antt =====
-- The statuses of executions, on concrete histories.
use flowmind.Prelude.{◌≡◌, ◌≢◌, refl, true, some}
use flowmind.Lifecycle.{
  Status, pending, queued', running', completed', failed', waiting, text, public_text,
  public_execution_status, execution_status_from_public, is_terminal_execution_status,
  is_active_execution_status, can_transition_execution,
}
use flowmind.Lifecycle.Laws.{step, History, start, then_to, public_roundtrip}

failed_is_terminal : is_terminal_execution_status (text failed') ≡ true
unfolding text is_terminal_execution_status
failed_is_terminal = refl

running_is_active : is_active_execution_status (text running') ≡ true
unfolding text is_active_execution_status
running_is_active = refl

ran : History pending completed'
unfolding text can_transition_execution
ran = then_to (then_to start (step {t = running'} refl)) (step refl)

not_pending : running' ≢ pending
not_pending e = cc

public_roundtrip_example :
    ((t : Status) × (execution_status_from_public (public_text waiting) ≡ some t)
      × (public_execution_status (text t) ≡ waiting))
    × (execution_status_from_public (public_text (public_execution_status (text running')))
        ≡ some running')
    × (execution_status_from_public (public_text (public_execution_status (text pending)))
        ≡ some queued')
public_roundtrip_example = public_roundtrip waiting running' not_pending

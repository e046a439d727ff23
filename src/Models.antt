-- ===== src/Models.antt =====
-- The closed vocabularies that several parts share (src/multiplayer/domain/models.py).
use xyzzy.Prelude.{Bool, List, String, [], contains, ◌∷◌}

pub data ExecutionStatus : Type 0 where
  pending running completed failed cancelled paused : ExecutionStatus

unfoldable pub ExecutionStatus-discrete : Discrete ExecutionStatus
ExecutionStatus-discrete = hlevel

unfoldable pub terminal_execution_statuses : List ExecutionStatus
terminal_execution_statuses =
    ExecutionStatus.completed ∷ ExecutionStatus.failed ∷ ExecutionStatus.cancelled ∷ []

-- `status in TERMINAL_EXECUTION_STATUSES`
unfoldable pub is_terminal_status : ExecutionStatus → Bool
unfolding terminal_execution_statuses contains ExecutionStatus-discrete
is_terminal_status s = contains ExecutionStatus-discrete s terminal_execution_statuses

pub data RunSettlement : Type 0 where
  end_turn run_cancelled max_tokens run_failed orphaned authority_revoked : RunSettlement
  agent_removed approval_refused approval_expired parked : RunSettlement

unfoldable pub settlement_value : RunSettlement → String
settlement_value end_turn = "END_TURN"
settlement_value run_cancelled = "CANCELLED"
settlement_value max_tokens = "MAX_TOKENS"
settlement_value run_failed = "FAILED"
settlement_value orphaned = "ORPHANED"
settlement_value authority_revoked = "AUTHORITY_REVOKED"
settlement_value agent_removed = "AGENT_REMOVED"
settlement_value approval_refused = "APPROVAL_REFUSED"
settlement_value approval_expired = "APPROVAL_EXPIRED"
settlement_value parked = "PARKED"

pub data HarnessState : Type 0 where
  starting streaming awaiting_approval cancel_requested settled : HarnessState

pub data BranchStatus : Type 0 where
  pending running completed partial failed cancelled : BranchStatus

-- ===== src/Delegation.antt =====
-- The task one agent asks of another: its states, the moves between them, the negotiation of
-- output modes and the bound on a chain of delegations (src/multiplayer/domain/agent_tasks.py).
pub mod Lifecycle
pub mod Chain
pub mod Rows
pub mod Parts
use xyzzy.Prelude.{
  Bool, List, Option, Result, String, [], contains, err, if◌then◌else◌, keep, length, ltb, null, ok,
  str, ℕ, ◌∷◌,
}

pub data TaskState : Type 0 where
  submitted working input_required auth_required completed failed canceled rejected : TaskState

unfoldable pub TaskState-discrete : Discrete TaskState
TaskState-discrete = hlevel

-- The `DomainError` family; the messages' texts are left out.
pub data TaskError : Type 0 where
  domain_error unsupported_operation delegation_cycle depth_exceeded : TaskError

unfoldable pub terminal_states : List TaskState
terminal_states = completed ∷ failed ∷ canceled ∷ rejected ∷ []

unfoldable pub legal_transitions : TaskState → List TaskState
legal_transitions submitted = working ∷ rejected ∷ canceled ∷ auth_required ∷ []
legal_transitions working = input_required ∷ auth_required ∷ completed ∷ failed ∷ canceled ∷ []
legal_transitions input_required = working ∷ canceled ∷ failed ∷ []
legal_transitions auth_required = working ∷ canceled ∷ failed ∷ rejected ∷ []
legal_transitions completed = []
legal_transitions failed = []
legal_transitions canceled = []
legal_transitions rejected = []

-- `state in TERMINAL_STATES`
unfoldable pub in_terminal_states : TaskState → Bool
unfolding terminal_states contains TaskState-discrete
in_terminal_states s = contains TaskState-discrete s terminal_states

unfoldable pub require_transition : TaskState → TaskState → Result TaskError (Unit {0})
unfolding legal_transitions contains TaskState-discrete
require_transition current target =
    if contains TaskState-discrete target (legal_transitions current)
    then ok tt
    else err TaskError.domain_error

unfoldable pub negotiate_output_modes : List String → List String → Result TaskError (List String)
negotiate_output_modes requested supported =
    if null requested
    then ok supported
    else let agreed = keep (λ mode. contains str mode supported) requested in
      if null agreed then err TaskError.unsupported_operation else ok agreed

abbrev pub max_delegation_depth : ℕ
max_delegation_depth = 4

unfoldable pub require_delegable : List String → String → ℕ → Result TaskError ℕ
require_delegable ancestry target_agent_id max_depth =
    if contains str target_agent_id ancestry
    then err TaskError.delegation_cycle
    else let depth = length ancestry in
      if ltb max_depth depth then err TaskError.depth_exceeded else ok depth

pub record AgentTask : Type 0 where
  pub task_id : String
  pub context_id : String
  pub room_id : String
  pub target_agent_id : String
  pub authorized_by : String
  pub requested_by : String
  pub delegating_agent_id : Option String
  pub delegating_run_id : Option String
  pub execution_id : Option String
  pub state : TaskState
  pub accepted_output_modes : List String
  pub depth : ℕ
  pub created_at : ℕ
  pub updated_at : ℕ
  pub terminal_at : Option ℕ
  pub refusal_reason : String

unfoldable pub is_terminal : AgentTask → Bool
unfolding in_terminal_states
is_terminal task = in_terminal_states task.state

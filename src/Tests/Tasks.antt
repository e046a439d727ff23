-- ===== src/Tests/Tasks.antt =====
-- The delegated task's theorems on one stored task.
use xyzzy.Prelude.{
  Option, String, [], contains, false, insert, lookup, none, ok, refl, some, str, suc, true, ℕ,
  ◌&&◌, ◌||◌, ◌↔◌, ◌∷◌, ◌≡◌, ◌≢◌, ◌≤◌,
}
use xyzzy.Models.{end_turn}
use xyzzy.Delegation.{
  AgentTask, TaskState, canceled, in_terminal_states, input_required, max_delegation_depth,
  negotiate_output_modes, require_delegable, require_transition, submitted, working,
}
use xyzzy.Delegation.Lifecycle.{
  Visits, completed_needs_working, here, next, terminal_iff_stuck, ◌⟶*◌, ◌⟶◌,
}
use xyzzy.Delegation.Chain.{Distinct, IsChain-bounded, agreed_iff, hop, require_delegable_iff, root}
use xyzzy.Delegation.Parts.{as_dict, from_dict, from_dict-as_dict, url}
use xyzzy.Delegation.Rows.{
  TaskRows, attach_execution_in_transaction, create_in_transaction, for_execution, moved, repeats,
  transition_in_transaction, update_where_state,
}
use xyzzy.Delegation.Rows.Guards.{IsMove, terminal_rows_refuse, transition-IsMove}
use xyzzy.Delegation.Rows.Invariant.{IsValid, create-IsValid, transition-IsValid}
use xyzzy.Delegation.Rows.Settling.{settle_for_execution_in_transaction, settled_output}
use xyzzy.Delegation.Rows.Settling.Outcome.{Ends, settle_finishes_task}

abbrev task_in : TaskState → Option ℕ → AgentTask
task_in s end = record {
  task_id = "t1";
  context_id = "c";
  room_id = "r1";
  target_agent_id = "b";
  authorized_by = "u1";
  requested_by = "u1";
  delegating_agent_id = some "a";
  delegating_run_id = none;
  execution_id = some "x1";
  state = s;
  accepted_output_modes = "text/plain" ∷ [];
  depth = 1;
  created_at = 1;
  updated_at = 1;
  terminal_at = end;
  refusal_reason = "";
}

abbrev no_rows : TaskRows
no_rows = record {
  owns_current_transaction = true;
  agent_tasks = [];
  agent_task_chain = [];
  agent_task_messages = [];
  execution_tasks = [];
  output_contents = [];
}

-- One task, driven by an execution that wrote an output.
abbrev rows_with : AgentTask → TaskRows
rows_with t = record no_rows {
  agent_tasks = ("t1", t) ∷ [];
  agent_task_chain = ("t1", "a" ∷ []) ∷ [];
  execution_tasks = ("x1", "t1") ∷ [];
  output_contents = ("x1", "done") ∷ [];
}

abbrev held_task : AgentTask
held_task = task_in input_required none

abbrev held_rows : TaskRows
held_rows = rows_with held_task

terminal_iff_stuck_example :
    (in_terminal_states working ≡ true) ↔ ((t : TaskState) → ¬ (working ⟶ t))
terminal_iff_stuck_example = terminal_iff_stuck working

one_move : submitted ⟶ working
unfolding require_transition
one_move = refl

last_move : working ⟶ TaskState.completed
unfolding require_transition
last_move = refl

abbrev finished_run : submitted ⟶* TaskState.completed
finished_run = next (next here one_move) last_move

completed_needs_working_example : Visits working finished_run
completed_needs_working_example = completed_needs_working (λ e. cc) finished_run refl

IsChain-bounded_example : Distinct ("a" ∷ "b" ∷ []) × (2 ≤ suc max_delegation_depth)
IsChain-bounded_example = IsChain-bounded {chain = "a" ∷ "b" ∷ []} (
    hop ("a" ∷ []) "b" 1 (hop [] "a" 0 root (unfold require_delegable contains str in refl))
      (unfold require_delegable contains str in refl))

require_delegable_iff_example :
    (require_delegable ("a" ∷ []) "a" 4 ≡ ok 1)
    ↔ ((contains str "a" ("a" ∷ []) ≡ false) × (1 ≤ 4) × (◌≡◌ {A = ℕ} 1 1))
require_delegable_iff_example = require_delegable_iff ("a" ∷ []) "a" 4 1

agreed_iff_example : contains str "text/plain" ("text/plain" ∷ []) ≡ (
    contains str "text/plain" ("text/plain" ∷ [])
    && (false || contains str "text/plain" ("image/png" ∷ "text/plain" ∷ [])))
agreed_iff_example =
    agreed_iff ("image/png" ∷ "text/plain" ∷ []) ("text/plain" ∷ []) ("text/plain" ∷ [])
      "text/plain" (unfold negotiate_output_modes contains str in refl)

from_dict-as_dict_example :
    from_dict (as_dict (record { kind = url; content = "x"; media_type = "" }))
    ≡ ok (record { kind = url; content = "x"; media_type = "" })
from_dict-as_dict_example =
    from_dict-as_dict (record { kind = url; content = "x"; media_type = "" })

abbrev working_task : AgentTask
working_task = moved held_task working "" 5

abbrev working_rows : TaskRows
working_rows = record held_rows { agent_tasks = ("t1", working_task) ∷ [] }

went_to_work :
    transition_in_transaction held_rows "t1" input_required working "" 5
    ≡ ok (working_rows, working_task)
unfolding transition_in_transaction update_where_state require_transition lookup str insert
    in_terminal_states
went_to_work = refl

transition-IsMove_example : IsMove held_rows "t1" input_required working working_rows working_task
transition-IsMove_example =
    transition-IsMove held_rows "t1" input_required working "" 5 {db' = working_rows}
      {t' = working_task} went_to_work

terminal_rows_refuse_example :
    ((expected target : TaskState) (reason : String) (now : ℕ) (db' : TaskRows) (t' : AgentTask)
      → transition_in_transaction
          (rows_with (task_in canceled (some 3)))
          "t1"
          expected
          target
          reason
          now
        ≢ ok (db', t'))
    × ((execution_id : String) (now : ℕ) (db' : TaskRows)
        → attach_execution_in_transaction
            (rows_with (task_in canceled (some 3)))
            "t1"
            execution_id
            now
          ≢ ok db')
unfolding lookup str in_terminal_states
terminal_rows_refuse_example =
    terminal_rows_refuse (rows_with (task_in canceled (some 3))) "t1" (task_in canceled (some 3))
      refl refl

no_rows-IsValid : IsValid no_rows
unfolding lookup
no_rows-IsValid = record { ended = λ id t h. cc; chained = λ id t h. cc }

abbrev created_task : AgentTask
created_task = record (task_in submitted none) { depth = 0; execution_id = none }

abbrev created_rows : TaskRows
created_rows = record no_rows {
  agent_tasks = ("t1", created_task) ∷ [];
  agent_task_chain = ("t1", []) ∷ [];
}

created : create_in_transaction no_rows created_task [] ≡ ok (created_rows, created_task)
unfolding create_in_transaction repeats lookup str insert
created = refl

created-IsValid : IsValid created_rows
unfolding in_terminal_states
created-IsValid =
    create-IsValid no_rows created_task [] created_rows created_task no_rows-IsValid
      (λ h. refl, λ h. refl) created

create-IsValid_example : IsValid created_rows
unfolding in_terminal_states
create-IsValid_example =
    create-IsValid no_rows created_task [] created_rows created_task no_rows-IsValid
      (λ h. refl, λ h. refl) created

abbrev started_task : AgentTask
started_task = moved created_task working "" 5

abbrev started_rows : TaskRows
started_rows = record created_rows { agent_tasks = ("t1", started_task) ∷ [] }

started :
    transition_in_transaction created_rows "t1" submitted working "" 5
    ≡ ok (started_rows, started_task)
unfolding transition_in_transaction update_where_state require_transition lookup str insert
    in_terminal_states
started = refl

transition-IsValid_example : IsValid started_rows
transition-IsValid_example =
    transition-IsValid created_rows "t1" submitted working "" 5 started_rows started_task
      created-IsValid started

settle_finishes_task_example :
    Ends "t1" TaskState.completed
      (settle_for_execution_in_transaction held_rows "x1" end_turn "u1" "m1" 9)
    × (in_terminal_states TaskState.completed ≡ true)
unfolding for_execution lookup str in_terminal_states settled_output
settle_finishes_task_example =
    settle_finishes_task held_rows "x1" end_turn "u1" "m1" 9 held_task refl refl refl refl (λ e. cc)

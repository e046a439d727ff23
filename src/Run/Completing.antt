-- ===== src/Run/Completing.antt =====
-- What an execution's end with an output has done (`AgentOutputRepo.complete_execution`).
use xyzzy.Prelude.{
  List, Option, Result, String, ap, arith, err, lookup, none, ok, refl, some, str, sym, true, ℕ,
  ◌∙◌, ◌≡◌,
}
use xyzzy.Models.{ExecutionStatus, ExecutionStatus-discrete, end_turn, is_terminal_status}
use xyzzy.Events.{RoomEvent}
use xyzzy.Run.{Execution, Message, RunError, RunRows, session_completed, update_execution_where}
use xyzzy.Run.Finish.{
  AgentOutput, append_notices, complete_execution, complete_in_transaction, end_session,
  insert_output, owned_by, post_if, post_message, settle_and_finish,
}
use xyzzy.Run.Kept.{IsKept, settle_and_finish-IsSettling}
use xyzzy.Run.Endings.{IsEnd, end_session-IsKept, ending, owned-IsEnd, transaction-ok}

completed-is_terminal : is_terminal_status ExecutionStatus.completed ≡ true
unfolding is_terminal_status ExecutionStatus-discrete
completed-is_terminal = refl

insert_output-IsKept :
    (db : RunRows) (output : AgentOutput) (db' : RunRows)
    → insert_output db output ≡ ok db'
    → IsKept db db'
unfolding insert_output
insert_output-IsKept db output db' h = record {
  executions_kept = ground arith;
  runs_kept = ground arith;
}

post_message-IsKept :
    (db : RunRows) (message : Message) (e : RoomEvent) (db' : RunRows)
    → post_message db message e ≡ ok db'
    → IsKept db db'
unfolding post_message append_notices
post_message-IsKept db message e db' h = record {
  executions_kept = ground arith;
  runs_kept = ground arith;
}

post_if-IsKept :
    (db : RunRows) (m : Option (Message × RoomEvent)) (db' : RunRows)
    → post_if db m ≡ ok db'
    → IsKept db db'
post_if-IsKept db none db' h = record { executions_kept = ground arith; runs_kept = ground arith }
post_if-IsKept db (some (message, e)) db' h = post_message-IsKept db message e db' h

kept-IsEnd :
    (db db₁ db₂ db' : RunRows) (execution_id : String) (expected : ExecutionStatus)
    → IsKept db db₁
    → IsEnd db₁ execution_id expected db₂
    → IsKept db₂ db'
    → IsEnd db execution_id expected db'
kept-IsEnd db db₁ db₂ db' execution_id expected k x k' =
    let rows = λ (j : String). ap (lookup str j) k.executions_kept in
    let runs = λ (j : String). ap (lookup str j) k.runs_kept in
    let rows' = λ (j : String). ap (lookup str j) k'.executions_kept in
    let runs' = λ (j : String). ap (lookup str j) k'.runs_kept in
    record {
      before = x.before;
      found = sym (rows execution_id) ∙ x.found;
      was = x.was;
      after = x.after;
      stored = rows' execution_id ∙ x.stored;
      over = x.over;
      other_executions = λ j ne. rows' j ∙ (x.other_executions j ne ∙ rows j);
      settled_after = λ run hit. x.settled_after run (sym (runs' execution_id) ∙ hit);
      other_runs = λ j ne. runs' j ∙ (x.other_runs j ne ∙ runs j);
    }

complete_in_transaction-IsEnd :
    (db : RunRows) (output : AgentOutput) (events : List RoomEvent) (expected : ExecutionStatus)
    (message : Option (Message × RoomEvent)) (token_usage : ℕ) (message_id : String) (now : ℕ)
    (db' : RunRows)
    → complete_in_transaction db output events expected message token_usage message_id now ≡ ok db'
    → IsEnd db output.execution_id expected db'
unfolding complete_in_transaction
complete_in_transaction-IsEnd db output events expected message token_usage message_id now db' h =
    by_output (insert_output db output) refl
  where
    change : Execution → Execution
    change e = record e {
      status = ExecutionStatus.completed;
      output_data = some output.output_data;
      completed_at = some now;
      token_usage = token_usage;
    }

    settling : RunRows → Result RunError RunRows
    settling db₂ =
        settle_and_finish (end_session db₂ output.session_id session_completed now)
          output.execution_id end_turn output.agent_id none output.branch_id output.room_id
          output.agent_id events message_id now

    by_settled :
        (db₁ db₂ : RunRows) (r : Result RunError RunRows)
        → insert_output db output ≡ ok db₁
        → update_execution_where db₁ output.execution_id expected change ≡ ok db₂
        → settling db₂ ≡ r
        → IsEnd db output.execution_id expected db'
    by_settled db₁ db₂ (err _) e₁ e₂ e = ground arith
    by_settled db₁ db₂ (ok db₃) e₁ e₂ e =
        kept-IsEnd db db₁ db₃ db' output.execution_id expected
          (insert_output-IsKept db output db₁ e₁)
          (ending db₁ db₂ (end_session db₂ output.session_id session_completed now) db₃
            output.execution_id expected change e₂ (λ _. completed-is_terminal)
            (end_session-IsKept db₂ output.session_id session_completed now)
            (settle_and_finish-IsSettling (end_session db₂ output.session_id session_completed now)
              output.execution_id end_turn output.agent_id none output.branch_id output.room_id
              output.agent_id events message_id now db₃ e))
          (post_if-IsKept db₃ message db' (ground arith))

    by_update :
        (db₁ : RunRows) (r : Result RunError RunRows)
        → insert_output db output ≡ ok db₁
        → update_execution_where db₁ output.execution_id expected change ≡ r
        → IsEnd db output.execution_id expected db'
    by_update db₁ (err _) e₁ e = ground arith
    by_update db₁ (ok db₂) e₁ e = by_settled db₁ db₂ (settling db₂) e₁ e refl

    by_output :
        (r : Result RunError RunRows)
        → insert_output db output ≡ r
        → IsEnd db output.execution_id expected db'
    by_output (err _) e = ground arith
    by_output (ok db₁) e =
        by_update db₁ (update_execution_where db₁ output.execution_id expected change) e refl

pub complete-IsEnd :
    (db : RunRows) (output : AgentOutput) (events : List RoomEvent) (expected : ExecutionStatus)
    (message : Option (Message × RoomEvent)) (token_usage : ℕ) (message_id : String) (now : ℕ)
    (db' : RunRows)
    → complete_execution db output events expected message token_usage message_id now ≡ ok db'
    → IsEnd db output.execution_id expected db'
unfolding complete_execution
complete-IsEnd db output events expected message token_usage message_id now db' h =
    let (mid, body, d) =
      transaction-ok db
        (λ (r : RunRows).
          complete_in_transaction r output events expected message token_usage message_id now)
        {db' = db'} h in
    owned-IsEnd db mid db' output.execution_id expected
      (complete_in_transaction-IsEnd (owned_by true db) output events expected message token_usage
        message_id now mid body)
      d

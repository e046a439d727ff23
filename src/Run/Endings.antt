-- ===== src/Run/Endings.antt =====
-- What an execution's end without an output has done
-- (`terminalize_without_output_in_transaction`).
use xyzzy.Prelude.{
  List, Option, Option-cases, Result, String, ap, arith, err, false, inl, inr, insert, lookup,
  lookup-insert_ne, lookup-insert_self, ok, refl, some, str, subst, sym, true, ℕ, ◌∙◌, ◌≡◌, ◌≢◌,
}
use xyzzy.Models.{ExecutionStatus, ExecutionStatus-discrete, RunSettlement, is_terminal_status}
use xyzzy.Events.{RoomEvent}
use xyzzy.Run.{
  AgentRun, Execution, RunError, RunRows, SessionStatus, session_failed, update_execution_where,
}
use xyzzy.Run.Envelope.{is_settled}
use xyzzy.Run.Finish.{
  default_settlement, end_session, ends_without_output, or_else, owned_by,
  terminalize_without_output, terminalize_without_output_in_transaction, transaction,
}
use xyzzy.Run.Kept.{IsKept, IsSettling, settle_and_finish-IsSettling}

-- An execution that was stored in the expected status is stored in a terminal one, its envelope is
-- settled where it has one, and no other execution or envelope has changed.
pub record IsEnd (db : RunRows) (execution_id : String) (expected : ExecutionStatus) (db' : RunRows)
    : Type 0 where
  pub before : Execution
  pub found : lookup str execution_id db.executions ≡ some before
  pub was : before.status ≡ expected
  pub after : Execution
  pub stored : lookup str execution_id db'.executions ≡ some after
  pub over : is_terminal_status after.status ≡ true
  pub other_executions :
      (j : String) → j ≢ execution_id → lookup str j db'.executions ≡ lookup str j db.executions
  pub settled_after :
      (run : AgentRun) → lookup str execution_id db'.agent_runs ≡ some run → is_settled run ≡ true
  pub other_runs :
      (j : String) → j ≢ execution_id → lookup str j db'.agent_runs ≡ lookup str j db.agent_runs

pub update_execution-ok :
    (db : RunRows) (execution_id : String) (expected : ExecutionStatus)
    (change : Execution → Execution) {db' : RunRows}
    → update_execution_where db execution_id expected change ≡ ok db'
    → (e : Execution) × (lookup str execution_id db.executions ≡ some e)
      × (e.status ≡ expected)
      × (db' ≡ record db { executions = insert str execution_id (change e) db.executions })
unfolding update_execution_where
update_execution-ok db execution_id expected change h = ground arith

pub end_session-IsKept :
    (db : RunRows) (session_id : String) (status : SessionStatus) (now : ℕ)
    → IsKept db (end_session db session_id status now)
unfolding end_session
end_session-IsKept db session_id status now = record {
  executions_kept = ground arith;
  runs_kept = ground arith;
}

-- The status is written, then the envelope settled.
pub ending :
    (db db₁ db₂ db' : RunRows) (execution_id : String) (expected : ExecutionStatus)
    (change : Execution → Execution)
    → update_execution_where db execution_id expected change ≡ ok db₁
    → ((e : Execution) → is_terminal_status (change e).status ≡ true)
    → IsKept db₁ db₂
    → IsSettling db₂ execution_id db'
    → IsEnd db execution_id expected db'
ending db db₁ db₂ db' execution_id expected change h terminal k s =
    let (e, hit, was, d) = update_execution-ok db execution_id expected change {db' = db₁} h in
    let rows : db'.executions ≡ insert str execution_id (change e) db.executions =
      s.same_executions ∙ (k.executions_kept ∙ ap (λ (r : RunRows). r.executions) d) in
    let runs : db₂.agent_runs ≡ db.agent_runs =
      k.runs_kept ∙ ap (λ (r : RunRows). r.agent_runs) d in
    record {
      before = e;
      found = hit;
      was = was;
      after = change e;
      stored =
          ap (lookup str execution_id) rows
          ∙ lookup-insert_self str execution_id (change e) db.executions;
      over = terminal e;
      other_executions = λ j ne.
          ap (lookup str j) rows ∙ lookup-insert_ne str execution_id j (change e) db.executions ne;
      settled_after = s.settled_here;
      other_runs = λ j ne. s.others_kept j ne ∙ ap (lookup str j) runs;
    }

ends_without_output-is_terminal :
    (s : ExecutionStatus) → ends_without_output s ≡ true → is_terminal_status s ≡ true
unfolding is_terminal_status ExecutionStatus-discrete
ends_without_output-is_terminal ExecutionStatus.completed h = cc
ends_without_output-is_terminal ExecutionStatus.failed h = refl
ends_without_output-is_terminal ExecutionStatus.cancelled h = refl
ends_without_output-is_terminal ExecutionStatus.pending h = cc
ends_without_output-is_terminal ExecutionStatus.running h = cc
ends_without_output-is_terminal ExecutionStatus.paused h = cc

terminalize_in_transaction-IsEnd :
    (db : RunRows) (execution : Execution) (status : ExecutionStatus) (error : String)
    (events : List RoomEvent) (settlement : Option RunSettlement) (decided_by : String)
    (lease : Option ℕ) (message_id : String) (now : ℕ) (db' : RunRows)
    → terminalize_without_output_in_transaction db execution status error events settlement
        decided_by lease message_id now
      ≡ ok db'
    → IsEnd db execution.execution_id execution.status db'
unfolding terminalize_without_output_in_transaction
terminalize_in_transaction-IsEnd db execution status error events settlement decided_by lease
      message_id now db' h =
    by_update
      (update_execution_where db execution.execution_id execution.status
        (λ (e : Execution). record e { status = status; error = error; completed_at = some now }))
      refl
  where
    by_update :
        (r : Result RunError RunRows)
        → update_execution_where db execution.execution_id execution.status (λ (e : Execution).
          record e { status = status; error = error; completed_at = some now })
          ≡ r
        → IsEnd db execution.execution_id execution.status db'
    by_update (err _) e = ground arith
    by_update (ok db₁) e =
        elim (Option-cases (
          lookup str execution.session_id
            (end_session db₁ execution.session_id session_failed now).agent_sessions)) [
              | inl missing ↦ ground arith
              | inr (session, there) ↦
                  let db₂ = end_session db₁ execution.session_id session_failed now in
                  let terminal : is_terminal_status status ≡ true =
                    ends_without_output-is_terminal status (ground arith) in
                  ending db db₁ db₂ db' execution.execution_id execution.status
                    (λ (x : Execution). record x {
                      status = status;
                      error = error;
                      completed_at = some now;
                    })
                    e (λ _. terminal)
                    (end_session-IsKept db₁ execution.session_id session_failed now)
                    (settle_and_finish-IsSettling db₂ execution.execution_id
                      (default_settlement settlement status) (or_else decided_by execution.agent_id)
                      lease execution.branch_id session.room_id execution.agent_id events message_id
                      now db' (ground arith))
            ]

-- A transaction that returns is its body, run while it owns the connection.
pub transaction-ok :
    (db : RunRows) (body : RunRows → Result RunError RunRows) {db' : RunRows}
    → transaction db body ≡ ok db'
    → (mid : RunRows) × (body (owned_by true db) ≡ ok mid) × (db' ≡ owned_by false mid)
transaction-ok db body {db'} h = by_body (body (owned_by true db)) refl
  where
    by_body :
        (r : Result RunError RunRows)
        → body (owned_by true db) ≡ r
        → (mid : RunRows) × (body (owned_by true db) ≡ ok mid) × (db' ≡ owned_by false mid)
    by_body (err _) e = ground arith
    by_body (ok mid) e = (mid, e, ground arith)

pub owned-IsEnd :
    (db mid db' : RunRows) (execution_id : String) (expected : ExecutionStatus)
    → IsEnd (owned_by true db) execution_id expected mid
    → db' ≡ owned_by false mid
    → IsEnd db execution_id expected db'
owned-IsEnd db mid db' execution_id expected x d =
    subst (IsEnd db execution_id expected) (sym d) (record {
      before = x.before;
      found = x.found;
      was = x.was;
      after = x.after;
      stored = x.stored;
      over = x.over;
      other_executions = x.other_executions;
      settled_after = x.settled_after;
      other_runs = x.other_runs;
    })

pub terminalize-IsEnd :
    (db : RunRows) (execution : Execution) (status : ExecutionStatus) (error : String)
    (events : List RoomEvent) (settlement : Option RunSettlement) (decided_by : String)
    (lease : Option ℕ) (message_id : String) (now : ℕ) (db' : RunRows)
    → terminalize_without_output db execution status error events settlement decided_by lease
        message_id now
      ≡ ok db'
    → IsEnd db execution.execution_id execution.status db'
unfolding terminalize_without_output
terminalize-IsEnd db execution status error events settlement decided_by lease message_id now db'
      h =
    let (mid, body, d) =
      transaction-ok db
        (λ (r : RunRows).
          terminalize_without_output_in_transaction r execution status error events settlement
            decided_by lease message_id now)
        {db' = db'} h in
    owned-IsEnd db mid db' execution.execution_id execution.status
      (terminalize_in_transaction-IsEnd (owned_by true db) execution status error events settlement
        decided_by lease message_id now mid body)
      d

-- ===== src/Run/Started.antt =====
-- What the start of an execution has done (`ExecutionRepo.start_with_event`).
use xyzzy.Models.{is_terminal_status}
use xyzzy.Run.Synced.{IsSynced}
use mathlib.Core.Option.{some-injective}
use xyzzy.Prelude.{
  Option, Option-cases, Result, String, [], ap, arith, err, false, inl, inr, insert, lookup,
  lookup-insert_ne, lookup-insert_self, none, ok, refl, some, str, subst, sym, true, true≢false, ℕ,
  ◌>>=◌, ◌∙◌, ◌∷◌, ◌≡◌, ◌≢◌,
}
use xyzzy.Events.{RoomEvent}
use xyzzy.Run.{AgentRun, AgentSession, Execution, RunError, RunRows, given}
use xyzzy.Run.Callers.{record_launch_caller}
use xyzzy.Run.Finish.{append_notices, owned_by}
use xyzzy.Run.Start.{
  activate_session, create_run_if, create_run_in_transaction, get_or_create_legacy,
  insert_execution, start_in_transaction, start_with_event, with_branch,
}
use xyzzy.Run.Kept.{IsKept}
use xyzzy.Run.Endings.{transaction-ok}

-- One new execution, and an envelope for it or none.
pub record IsOpening (db : RunRows) (execution : Execution) (db' : RunRows) : Type 0 where
  pub new : Execution
  pub same_id : new.execution_id ≡ execution.execution_id
  pub same_status : new.status ≡ execution.status
  pub fresh : lookup str execution.execution_id db.executions ≡ none
  pub rows : db'.executions ≡ insert str execution.execution_id new db.executions
  pub other_runs :
      (j : String)
      → j ≢ execution.execution_id
      → lookup str j db'.agent_runs ≡ lookup str j db.agent_runs

with_branch-IsKept :
    (db : RunRows) (e : Execution) (room_id new_branch_id : String) (now : ℕ)
    → IsKept db (with_branch db e room_id new_branch_id now).0
      × ((with_branch db e room_id new_branch_id now).1.execution_id ≡ e.execution_id)
      × ((with_branch db e room_id new_branch_id now).1.status ≡ e.status)
unfolding with_branch get_or_create_legacy
with_branch-IsKept db e room_id new_branch_id now = (
  record { executions_kept = ground arith; runs_kept = ground arith },
  ground arith,
  ground arith,
)

insert_execution-ok :
    (db : RunRows) (e : Execution) (agent_task_id : Option String) {db' : RunRows}
    → insert_execution db e agent_task_id ≡ ok db'
    → (lookup str e.execution_id db.executions ≡ none)
      × (db'.executions ≡ insert str e.execution_id e db.executions)
      × (db'.agent_runs ≡ db.agent_runs)
unfolding insert_execution
insert_execution-ok db e agent_task_id h = ground arith

create_run_if-ok :
    (db : RunRows) (execution_id : String) (run : Option AgentRun) {db' : RunRows}
    → create_run_if db execution_id run ≡ ok db'
    → (db'.executions ≡ db.executions)
      × ((j : String) → j ≢ execution_id → lookup str j db'.agent_runs ≡ lookup str j db.agent_runs)
unfolding create_run_in_transaction
create_run_if-ok db execution_id none {db'} h =
    let d : db' ≡ db = ground arith in
    (
      ap (λ (r : RunRows). r.executions) d,
      λ j ne. ap (λ (r : RunRows). lookup str j r.agent_runs) d,
    )
create_run_if-ok db execution_id (some run) {db'} h =
    let d : db' ≡ record db {
      agent_runs = insert str execution_id run db.agent_runs;
      execution_callers = record_launch_caller execution_id run db.execution_callers;
    } =
      ground arith in
    (
      ap (λ (r : RunRows). r.executions) d,
      λ j ne.
          ap (λ (r : RunRows). lookup str j r.agent_runs) d
          ∙ lookup-insert_ne str execution_id j run db.agent_runs ne,
    )

start_in_transaction-IsOpening :
    (db : RunRows) (execution : Execution) (agent_task_id : Option String) (event : RoomEvent)
    (agent_run : Option AgentRun) (new_branch_id : String) (now : ℕ) (db' : RunRows)
    → start_in_transaction db execution agent_task_id event agent_run new_branch_id now ≡ ok db'
    → IsOpening db execution db'
unfolding start_in_transaction append_notices activate_session
start_in_transaction-IsOpening db execution agent_task_id event agent_run new_branch_id now db' h =
    elim (Option-cases (lookup str execution.session_id db.agent_sessions)) [
      | inl missing ↦ ground arith
      | inr (session, there) ↦
          let w = with_branch db execution session.room_id new_branch_id now in
          let (k, id, status) = with_branch-IsKept db execution session.room_id new_branch_id now in
          by_inserted session w.0 w.1 k id status
            (insert_execution (activate_session w.0 w.1.session_id session) w.1 agent_task_id) refl
            (ground arith)
    ]
  where
    by_created :
        (db₁ db₂ : RunRows) (e : Execution)
        → IsKept db db₁
        → e.execution_id ≡ execution.execution_id
        → e.status ≡ execution.status
        → (lookup str e.execution_id db₁.executions ≡ none)
        → (db₂.executions ≡ insert str e.execution_id e db₁.executions)
        → (db₂.agent_runs ≡ db₁.agent_runs)
        → (r : Result RunError RunRows) → create_run_if db₂ e.execution_id agent_run ≡ r
        → (do db₃ ← r; ok (append_notices db₃ (given event ∷ []))) ≡ ok db'
        → IsOpening db execution db'
    by_created db₁ db₂ e k id status f rows runs (err _) eq h' = cc
    by_created db₁ db₂ e k id status f rows runs (ok db₃) eq h' =
        let (rows', runs') = create_run_if-ok db₂ e.execution_id agent_run {db' = db₃} eq in
        let x : db'.executions ≡ db₃.executions = ground arith in
        let y : db'.agent_runs ≡ db₃.agent_runs = ground arith in
        record {
          new = e;
          same_id = id;
          same_status = status;
          fresh =
              ap (lookup str execution.execution_id) (sym k.executions_kept)
              ∙ (ap (λ i. lookup str i db₁.executions) (sym id) ∙ f);
          rows =
              x
              ∙ (rows'
                  ∙ (rows
                      ∙ (ap (λ i. insert str i e db₁.executions) id
                          ∙ ap (λ d. insert str execution.execution_id e d) k.executions_kept)));
          other_runs = λ j ne.
              ap (lookup str j) y
              ∙ (runs' j (λ z. ne (z ∙ id)) ∙ ap (lookup str j) (runs ∙ k.runs_kept));
        }

    by_inserted :
        (session : AgentSession) (db₁ : RunRows) (e : Execution)
        → IsKept db db₁
        → e.execution_id ≡ execution.execution_id
        → e.status ≡ execution.status
        → (r : Result RunError RunRows)
        → insert_execution (activate_session db₁ e.session_id session) e agent_task_id ≡ r
        → (do
          db₂ ← r
          db₃ ← create_run_if db₂ e.execution_id agent_run
          ok (append_notices db₃ (given event ∷ [])))
          ≡ ok db'
        → IsOpening db execution db'
    by_inserted session db₁ e k id status (err _) eq h' = cc
    by_inserted session db₁ e k id status (ok db₂) eq h' =
        let (f, rows, runs) =
          insert_execution-ok (activate_session db₁ e.session_id session) e agent_task_id
            {db' = db₂} eq in
        by_created db₁ db₂ e k id status f rows runs (create_run_if db₂ e.execution_id agent_run)
          refl h'

pub start-IsOpening :
    (db : RunRows) (execution : Execution) (agent_task_id : Option String) (event : RoomEvent)
    (agent_run : Option AgentRun) (new_branch_id : String) (now : ℕ) (db' : RunRows)
    → start_with_event db execution agent_task_id event agent_run new_branch_id now ≡ ok db'
    → IsOpening db execution db'
unfolding start_with_event
start-IsOpening db execution agent_task_id event agent_run new_branch_id now db' h =
    let (mid, body, d) =
      transaction-ok db
        (λ (r : RunRows).
          start_in_transaction r execution agent_task_id event agent_run new_branch_id now)
        {db' = db'} h in
    let x =
      start_in_transaction-IsOpening (owned_by true db) execution agent_task_id event agent_run
        new_branch_id now mid body in
    subst (IsOpening db execution) (sym d) (record {
      new = x.new;
      same_id = x.same_id;
      same_status = x.same_status;
      fresh = x.fresh;
      rows = x.rows;
      other_runs = x.other_runs;
    })

pub start-IsSynced :
    (db : RunRows) (execution : Execution) (db' : RunRows)
    → IsOpening db execution db'
    → is_terminal_status execution.status ≡ false
    → IsSynced db
    → IsSynced db'
start-IsSynced db execution db' x live v j e run hit over found =
    elim (str j execution.execution_id) [
      | yes same ↦
          let row : x.new ≡ e = some-injective x.new e (
            sym (lookup-insert_self str execution.execution_id x.new db.executions)
            ∙ (ap (λ i. lookup str i (insert str execution.execution_id x.new db.executions))
                  (sym same)
                ∙ (ap (lookup str j) (sym x.rows) ∙ hit))) in
          let ended : is_terminal_status execution.status ≡ true =
            subst (λ s. is_terminal_status s ≡ true)
              (ap (λ (r : Execution). r.status) (sym row) ∙ x.same_status) over in
          absurd (true≢false (sym ended ∙ live))
      | no ne ↦
          v j e run
            (sym (lookup-insert_ne str execution.execution_id j x.new db.executions ne)
              ∙ (ap (lookup str j) (sym x.rows) ∙ hit))
            over (sym (x.other_runs j ne) ∙ found)
    ]

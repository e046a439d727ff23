-- ===== src/Run/Envelope.antt =====
-- The envelope around an execution: its lease, its attempts and its settlement (`AgentRunRepo`,
-- `_require_open_agent_run`, `_settle_agent_run_in_transaction` of
-- src/multiplayer/db/repositories.py).
use xyzzy.Prelude.{
  Bool, List, Option, Result, String, [], err, false, if◌then◌else◌, insert, ite, leb, lookup, ltb,
  map, none, not, ok, some, str, true, update_all, ℕ, ◌&&◌, ◌++◌, ◌+◌, ◌==◌, ◌>>=◌, ◌∷◌,
}
use xyzzy.Models.{HarnessState, RunSettlement, orphaned, settled}
use xyzzy.Delegation.Rows.{RowError}
use xyzzy.Delegation.Rows.Settling.{settle_for_execution_in_transaction}
use xyzzy.Run.{
  AgentRun, HarnessState-discrete, Notice, RunError, RunRows, any_row, run_orphaned, run_settled,
  task_error, task_moved,
}
use xyzzy.Run.Callers.{record_acting_callers}

abbrev pub state_is : HarnessState → HarnessState → Bool
state_is a b = ite (HarnessState-discrete a b) true false

unfoldable pub is_settled : AgentRun → Bool
unfolding HarnessState-discrete
is_settled run = state_is run.harness_state settled

unfoldable pub require_open_agent_run : RunRows → String → Result RunError (Unit {0})
unfolding is_settled
require_open_agent_run db execution_id = elim (lookup str execution_id db.agent_runs) [
  | none ↦ ok tt
  | some run ↦ if is_settled run then err RunError.domain_error else ok tt
]

-- `AND lease_expires_at = ?`, where one is given
abbrev pub lease_matches : Option ℕ → ℕ → Bool
lease_matches none lease = true
lease_matches (some expected) lease = lease == expected

abbrev pub lift_row {ℓ} : {A : Type ℓ} → Result RowError A → Result RunError A
lift_row (ok a) = ok a
lift_row (err e) = err (task_error e)

abbrev pub settled_run : AgentRun → RunSettlement → ℕ → AgentRun
settled_run run settlement now = record run {
  harness_state = settled;
  settlement = some settlement;
  settled_at = some now;
}

-- The events of a settled envelope, before those of the task that the run answers.
unfoldable pub settlement_notices : AgentRun → String → RunSettlement → String → List Notice
settlement_notices run execution_id orphaned decided_by =
    run_settled run.room_id run.run_id execution_id orphaned decided_by
    ∷ run_orphaned run.room_id run.run_id execution_id decided_by
    ∷ []
settlement_notices run execution_id settlement decided_by =
    run_settled run.room_id run.run_id execution_id settlement decided_by ∷ []

unfoldable pub settle_agent_run_in_transaction :
    RunRows
    → String
    → RunSettlement
    → String
    → Option ℕ
    → String
    → ℕ
    → Result RunError (RunRows × List Notice)
unfolding is_settled settlement_notices
settle_agent_run_in_transaction db execution_id settlement decided_by expected_lease message_id
      now =
    elim (lookup str execution_id db.agent_runs) [
      | none ↦ ok (db, [])
      | some run ↦
          if is_settled run
          then ok (db, [])
          else if not (lease_matches expected_lease run.lease_expires_at)
          then err RunError.domain_error
          else (do
            (tasks, moves) ← lift_row (
                settle_for_execution_in_transaction db.tasks execution_id settlement decided_by
                  message_id now)
            ok (
              record db {
                agent_runs = insert str execution_id (settled_run run settlement now) db.agent_runs;
                tasks = tasks;
              },
              settlement_notices run execution_id settlement decided_by ++ map task_moved moves,
            ))
    ]

-- Where `harness_state` is the one expected, or none is expected and the run is open.
abbrev pub may_advance : Option HarnessState → HarnessState → Bool
may_advance none state = not (state_is state settled)
may_advance (some expected) state = state_is state expected

-- The runs that the two writes below find.
abbrev pub advances : String → Option HarnessState → String → AgentRun → Bool
advances run_id expected _ run =
    ite (str run.run_id run_id) (may_advance expected run.harness_state) false

unfoldable pub spends : String → ℕ → String → AgentRun → Bool
unfolding is_settled
spends run_id expected _ run =
    ite (str run.run_id run_id)
      (run.attempts == expected && ltb run.attempts run.max_attempts && not (is_settled run)) false

-- A settled run never moves: a trigger of the schema aborts the write that would move one.
unfoldable pub advance :
    RunRows
    → String
    → HarnessState
    → ℕ
    → String
    → Option HarnessState
    → Result RunError (RunRows × Bool)
unfolding is_settled HarnessState-discrete record_acting_callers
advance db run_id state lease_expires_at acting_user_id expected =
    if any_row (λ (k : String) (run : AgentRun). advances run_id expected k run && is_settled run)
      db.agent_runs
    then err RunError.integrity_error
    else ok (
      record db {
        agent_runs =
            update_all (advances run_id expected)
              (λ (run : AgentRun). record run {
                harness_state = state;
                lease_expires_at = lease_expires_at;
                acting_user_id = acting_user_id;
              })
              db.agent_runs;
        execution_callers =
            record_acting_callers (advances run_id expected) acting_user_id db.agent_runs
              db.execution_callers;
      },
      any_row (advances run_id expected) db.agent_runs,
    )

unfoldable pub spend_attempt : RunRows → String → ℕ → RunRows × Bool
unfolding spends
spend_attempt db run_id expected = (
  record db {
    agent_runs =
        update_all (spends run_id expected)
          (λ (run : AgentRun). record run { attempts = run.attempts + 1 }) db.agent_runs;
  },
  any_row (spends run_id expected) db.agent_runs,
)

-- The open runs whose lease has run out; their order is left out.
unfoldable pub list_expired : List (String × AgentRun) → ℕ → List AgentRun
unfolding is_settled
list_expired [] now = []
list_expired ((_, run) ∷ rest) now =
    let later = list_expired rest now in
    if not (is_settled run) && leb run.lease_expires_at now then run ∷ later else later

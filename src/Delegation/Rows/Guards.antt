-- ===== src/Delegation/Rows/Guards.antt =====
-- The guards of the task rows' writes (`transition_in_transaction`,
-- `attach_execution_in_transaction`).
use xyzzy.Delegation.Lifecycle.{terminal_iff_stuck}
use xyzzy.Prelude.{
  String, arith, insert, lookup, lookup-insert_ne, lookup-insert_self, ok, some, str, true, ℕ, ◌≡◌,
  ◌≢◌,
}
use xyzzy.Delegation.{AgentTask, TaskState, in_terminal_states, require_transition}
use xyzzy.Delegation.Rows.{
  TaskRows, attach_execution_in_transaction, moved, transition_in_transaction, update_where_state,
}

-- What a transition that returns has done: the move is one of the machine's, the stored state was
-- the expected one, the returned task is the stored one, and no other task has changed.
pub record IsMove (db : TaskRows) (task_id : String) (expected target : TaskState) (db' : TaskRows)
    (t' : AgentTask) : Type 0 where
  pub permitted : require_transition expected target ≡ ok tt
  pub before : (t : AgentTask) × (lookup str task_id db.agent_tasks ≡ some t) × (t.state ≡ expected)
  pub stored : lookup str task_id db'.agent_tasks ≡ some t'
  pub reached : t'.state ≡ target
  pub others :
      (j : String) → j ≢ task_id → lookup str j db'.agent_tasks ≡ lookup str j db.agent_tasks
  pub chain_kept : db'.agent_task_chain ≡ db.agent_task_chain

pub update_where_state-ok :
    (db : TaskRows) (task_id : String) (expected target : TaskState) (reason : String) (now : ℕ)
    {db' : TaskRows} {t' : AgentTask}
    → update_where_state db task_id expected target reason now ≡ ok (db', t')
    → (t : AgentTask) × (lookup str task_id db.agent_tasks ≡ some t)
      × (t.state ≡ expected)
      × (t' ≡ moved t target reason now)
      × (db' ≡ record db { agent_tasks = insert str task_id t' db.agent_tasks })
unfolding update_where_state
update_where_state-ok db task_id expected target reason now h = ground arith

-- A transition that returns has made one of the machine's moves on a row that still stood in the
-- expected state, has stored the task that it returns, and has left every other task and every
-- chain alone.
pub transition-IsMove :
    (db : TaskRows) (task_id : String) (expected target : TaskState) (reason : String) (now : ℕ)
    {db' : TaskRows} {t' : AgentTask}
    → transition_in_transaction db task_id expected target reason now ≡ ok (db', t')
    → IsMove db task_id expected target db' t'
unfolding transition_in_transaction
transition-IsMove db task_id expected target reason now {db'} {t'} h =
    let p : require_transition expected target ≡ ok tt = ground arith in
    let (t, hit, e, e', d) =
      update_where_state-ok db task_id expected target reason now {db' = db'} {t' = t'}
        (ground arith) in
    record {
      permitted = p;
      before = (t, hit, e);
      stored = rw d (lookup-insert_self str task_id t' db.agent_tasks);
      reached = ground arith;
      others = λ j ne. rw d (lookup-insert_ne str task_id j t' db.agent_tasks ne);
      chain_kept = ground arith;
    }

-- A task in a terminal state is beyond every later write: no transition, from whatever state the
-- caller read, and no attachment of an execution goes through.
pub terminal_rows_refuse :
    (db : TaskRows) (task_id : String) (t : AgentTask)
    → lookup str task_id db.agent_tasks ≡ some t
    → in_terminal_states t.state ≡ true
    → ((expected target : TaskState) (reason : String) (now : ℕ) (db' : TaskRows) (t' : AgentTask)
        → transition_in_transaction db task_id expected target reason now ≢ ok (db', t'))
      × ((execution_id : String) (now : ℕ) (db' : TaskRows)
          → attach_execution_in_transaction db task_id execution_id now ≢ ok db')
unfolding attach_execution_in_transaction
terminal_rows_refuse db task_id t hit done = (
  λ expected target reason now db' t' h.
      let m = transition-IsMove db task_id expected target reason now {db' = db'} {t' = t'} h in
      let (u, hit', e) = m.before in
      let same : t ≡ u = cc in
      (terminal_iff_stuck expected).0 (rw (← e, ← same) done) target m.permitted,
  λ execution_id now db' h. ground arith,
)

-- ===== src/Delegation/Rows/Settling/Outcome.antt =====
-- What a settlement leaves behind.
use Prim.Native.String
use xyzzy.Models.{RunSettlement, settlement_value}
use xyzzy.Delegation.Parts.{AgentTaskMessage, Part, TaskMessageRole, delegate, text}
use xyzzy.Delegation.Lifecycle.{resume_permitted}
use xyzzy.Prelude.{
  List, Option, Result, String, [], arith, false, insert, lookup, lookup-insert_self, none, ok,
  refl, some, str, subst, true, ℕ, ◌++◌, ◌+◌, ◌∷◌, ◌≡◌, ◌≢◌,
}
use xyzzy.Delegation.{
  AgentTask, TaskState, TaskState-discrete, in_terminal_states, require_transition, submitted,
  working,
}
use xyzzy.Delegation.Rows.{
  RowError, TaskRows, append_message_in_transaction, for_execution, max_sequence, moved, rows_of,
  transition_in_transaction, update_where_state,
}
use xyzzy.Delegation.Rows.Settling.{
  LifecycleEvent, decider, lifecycle_event, make_working, refusal_target, settle_answered,
  settle_for_execution_in_transaction, settle_refused, settled_output,
}

-- The rows after a move of one task.
abbrev after_move : TaskRows → String → AgentTask → TaskRows
after_move db task_id t' = record db { agent_tasks = insert str task_id t' db.agent_tasks }

-- A permitted move on a row that stands in the expected state goes through.
transition-ok :
    (db : TaskRows) (task_id : String) (t : AgentTask) (target : TaskState) (reason : String)
    (now : ℕ)
    → db.owns_current_transaction ≡ true
    → lookup str task_id db.agent_tasks ≡ some t
    → require_transition t.state target ≡ ok tt
    → transition_in_transaction db task_id t.state target reason now
      ≡ ok (after_move db task_id (moved t target reason now), moved t target reason now)
unfolding transition_in_transaction update_where_state
transition-ok db task_id t target reason now own hit p = ground arith

-- A message is appended to any stored task, and the tasks stay as they were.
append-ok :
    (db : TaskRows) (task_id : String) (t : AgentTask) (role : TaskMessageRole) (parts : List Part)
    (message_id : String) (now : ℕ)
    → db.owns_current_transaction ≡ true
    → lookup str task_id db.agent_tasks ≡ some t
    → (db' : TaskRows) × (m : AgentTaskMessage) × (append_message_in_transaction db task_id role
          parts message_id now
        ≡ ok (db', m))
      × (db'.owns_current_transaction ≡ true)
      × (db'.agent_tasks ≡ db.agent_tasks)
unfolding append_message_in_transaction
append-ok db task_id t role parts message_id now own hit =
    let rows = rows_of (lookup str task_id db.agent_task_messages) in
    let m : AgentTaskMessage = record {
      message_id = message_id;
      task_id = task_id;
      sequence = max_sequence rows + 1;
      role = role;
      parts = parts;
      created_at = now;
    } in
    (
      record db {
        agent_task_messages = insert str task_id (rows ++ m ∷ []) db.agent_task_messages;
      },
      m,
      ground arith,
      own,
      refl,
    )

-- The settlement returned, and the task stands in the given state.
abbrev pub Ends : String → TaskState → Result RowError (TaskRows × List LifecycleEvent) → Type 0
Ends task_id s r =
    (db' : TaskRows) × (events : List LifecycleEvent) × (t' : AgentTask) × (r ≡ ok (db', events))
    × (lookup str task_id db'.agent_tasks ≡ some t')
    × (t'.state ≡ s)

module _ (db : TaskRows) (t : AgentTask) (decided_by message_id : String) (now : ℕ)
    (own : db.owns_current_transaction ≡ true)
    (stored : lookup str t.task_id db.agent_tasks ≡ some t) where
  settle_refused-Ends :
      (settlement : RunSettlement)
      → require_transition t.state (refusal_target settlement t.state) ≡ ok tt
      → Ends t.task_id
          (refusal_target settlement t.state)
          (settle_refused db t settlement decided_by now)
  unfolding settle_refused
  settle_refused-Ends settlement p =
      let target = refusal_target settlement t.state in
      let reason = String.◌++◌ (String.◌++◌ "run settled (" (settlement_value settlement)) ")" in
      let t' = moved t target reason now in
      (
        after_move db t.task_id t',
        lifecycle_event t' (decider decided_by) "system" ∷ [],
        t',
        rw (transition-ok db t.task_id t target reason now own stored p),
        lookup-insert_self str t.task_id t' db.agent_tasks,
        refl,
      )

  make_working_lem :
      in_terminal_states t.state ≡ false
      → (db' : TaskRows) × (t' : AgentTask) × (events : List LifecycleEvent) × (make_working db t
            decided_by now
          ≡ ok (db', t', events))
        × (db'.owns_current_transaction ≡ true)
        × (lookup str t.task_id db'.agent_tasks ≡ some t')
        × (t'.state ≡ working)
        × (t'.task_id ≡ t.task_id)
  unfolding make_working
  make_working_lem live = elim (TaskState-discrete t.state working) [
    | yes e ↦ (db, t, [], ground arith, own, stored, e, refl)
    | no ne ↦
        let p = resume_permitted t.state live ne in
        let t' = moved t working "" now in
        (
          after_move db t.task_id t',
          t',
          lifecycle_event t' (decider decided_by) "system" ∷ [],
          ground (arith, transition-ok db t.task_id t working "" now own stored p),
          own,
          lookup-insert_self str t.task_id t' db.agent_tasks,
          refl,
          refl,
        )
  ]

  settle_answered-Ends :
      (content : String)
      → in_terminal_states t.state ≡ false
      → Ends t.task_id TaskState.completed (settle_answered db t content decided_by message_id now)
  unfolding settle_answered
  settle_answered-Ends content live =
      let (db₁, t₁, events, e, own₁, stored₁, w, same) = make_working_lem live in
      let parts : List Part =
        record { kind = text; content = content; media_type = "text/plain" } ∷ [] in
      let stored₁' : lookup str t₁.task_id db₁.agent_tasks ≡ some t₁ = rw same stored₁ in
      let (db₂, m, e', own₂, kept) =
        append-ok db₁ t₁.task_id t₁ delegate parts message_id now own₁ stored₁' in
      let t₃ = moved t₁ TaskState.completed "" now in
      let done =
        transition-ok db₂ t₁.task_id t₁ TaskState.completed "" now own₂ (rw kept stored₁')
          (rw w (unfold require_transition in refl)) in
      (
        after_move db₂ t₁.task_id t₃,
        events ++ lifecycle_event t₃ (decider decided_by) "system" ∷ [],
        t₃,
        rw e (rw e' (rw done)),
        subst (λ k. lookup str k (insert str t₁.task_id t₃ db₂.agent_tasks) ≡ some t₃) same
            (lookup-insert_self str t₁.task_id t₃ db₂.agent_tasks),
        refl,
      )

-- The state in which a settlement must leave the task: completed where an output answers it, else
-- the refusal that the settlement stands for.
abbrev pub settled_state : Option String → RunSettlement → TaskState → TaskState
settled_state (some _) settlement state = TaskState.completed
settled_state none settlement state = refusal_target settlement state

refusal_permitted :
    (s : TaskState) (settlement : RunSettlement)
    → in_terminal_states s ≡ false
    → s ≢ submitted
    → require_transition s (refusal_target settlement s) ≡ ok tt
unfolding in_terminal_states require_transition refusal_target
refusal_permitted s settlement live ne = ground arith

refusal_target-terminal :
    (s : TaskState) (settlement : RunSettlement)
    → in_terminal_states (refusal_target settlement s) ≡ true
unfolding in_terminal_states refusal_target
refusal_target-terminal s settlement = ground arith

-- A run's settlement always ends the task that the run drives, if the task was taken up (it is
-- neither terminal nor still `submitted`): the call returns, and the stored task is completed
-- where the run ended its turn with an output, canceled or rejected or failed as the settlement
-- says otherwise, and in each case terminal.
pub settle_finishes_task :
    (db : TaskRows) (execution_id : String) (settlement : RunSettlement)
    (decided_by message_id : String) (now : ℕ) (t : AgentTask)
    → db.owns_current_transaction ≡ true
    → for_execution db execution_id ≡ some t
    → lookup str t.task_id db.agent_tasks ≡ some t
    → in_terminal_states t.state ≡ false
    → t.state ≢ submitted
    → Ends t.task_id
        (settled_state (settled_output db execution_id settlement) settlement t.state)
        (settle_for_execution_in_transaction db execution_id settlement decided_by message_id now)
      × (in_terminal_states
            (settled_state (settled_output db execution_id settlement) settlement t.state)
          ≡ true)
unfolding settle_for_execution_in_transaction for_execution lookup settled_output in_terminal_states
settle_finishes_task db execution_id settlement decided_by message_id now t own driving stored live
      ne =
    rw (own, driving, settle_for_execution_in_transaction)
      (rw (live, settle_for_execution_in_transaction)
        (by_output (settled_output db execution_id settlement)))
  where
    by_output :
        (o : Option String)
        → Ends t.task_id (settled_state o settlement t.state) (elim o [
          | some content ↦ settle_answered db t content decided_by message_id now
          | none ↦ settle_refused db t settlement decided_by now
        ])
          × (in_terminal_states (settled_state o settlement t.state) ≡ true)
    by_output none = (
      settle_refused-Ends db t decided_by message_id now own stored settlement
          (refusal_permitted t.state settlement live ne),
      refusal_target-terminal t.state settlement,
    )
    by_output (some content) = (
      settle_answered-Ends db t decided_by message_id now own stored content live,
      unfold in_terminal_states in refl,
    )

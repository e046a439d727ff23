-- ===== src/Records/Calls.antt =====
-- Each call on a task or a decision keeps the stored rows on their tables.
use Prim.Native.String
use xyzzy.Capability.{RunAuthorization}
use xyzzy.Prelude.{
  Bool, Option, Option-cases, String, arith, contains, inl, inr, lookup, none, ok, some, str, subst,
  sym, true, ◌≡◌,
}
use xyzzy.Records.{
  Decision, DecisionStatus, DecisionStatus-discrete, RecordNotice, RecordRows, RoomTask, TaskStatus,
  TaskStatus-discrete, assign_task, cancel_task, complete_task, create_decision, create_task,
  decision_created, decision_moved, delegate_task, find_task, insert_task, or_system, or_text,
  task_assigned, task_cancelled, task_completed, task_created, task_delegated,
  update_decision_status, valid_decision_transitions, valid_task_transitions, with_decision,
  with_task,
}
use xyzzy.Records.Paths.{
  IsMoved, MayWriteDecision, MayWriteTask, with_decision-IsMoved, with_task-IsMoved,
}

module _ (may_mutate : String → String → Bool)
    (has_run_authority : RunAuthorization → String → Bool) where
  insert_task-IsMoved :
      (db : RecordRows) (id : String) (new : RoomTask) (notice : RecordNotice) (db' : RecordRows)
      → insert_task db id new notice ≡ ok db'
      → IsMoved db db'
  unfolding insert_task
  insert_task-IsMoved db id new notice db' h = elim (Option-cases (lookup str id db.room_tasks)) [
    | inl fresh ↦
        let d : db' ≡ with_task db id new notice = ground arith in
        subst (IsMoved db) (sym d) (
          with_task-IsMoved db id new notice
            (subst (λ o. MayWriteTask o new.status) (sym fresh) tt))
    | inr (t, there) ↦ ground arith
  ]

  write_task-IsMoved :
      (db : RecordRows) (id : String) (t new : RoomTask) (notice : RecordNotice) (db' : RecordRows)
      → lookup str id db.room_tasks ≡ some t
      → contains TaskStatus-discrete new.status (valid_task_transitions t.status) ≡ true
      → db' ≡ with_task db id new notice
      → IsMoved db db'
  write_task-IsMoved db id t new notice db' there ok_move d = subst (IsMoved db) (sym d) (
      with_task-IsMoved db id new notice
        (subst (λ o. MayWriteTask o new.status) (sym there) ok_move))

  pub assign_task-IsMoved :
      (db : RecordRows) (id agent_id requested_by : String) (require_member : Bool)
      (db' : RecordRows)
      → assign_task may_mutate has_run_authority db id agent_id requested_by require_member ≡ ok db'
      → IsMoved db db'
  unfolding assign_task find_task
  assign_task-IsMoved db id agent_id requested_by require_member db' h =
      elim (Option-cases (lookup str id db.room_tasks)) [
        | inl missing ↦ ground arith
        | inr (t, there) ↦
            write_task-IsMoved db id t
              (record t { status = TaskStatus.assigned; assigned_agent_id = some agent_id })
              (task_assigned t.room_id id agent_id) db' there (ground arith) (ground arith)
      ]

  pub complete_task-IsMoved :
      (db : RecordRows) (id requested_by : String) (require_member : Bool) (db' : RecordRows)
      → complete_task may_mutate has_run_authority db id requested_by require_member ≡ ok db'
      → IsMoved db db'
  unfolding complete_task find_task
  complete_task-IsMoved db id requested_by require_member db' h =
      elim (Option-cases (lookup str id db.room_tasks)) [
        | inl missing ↦ ground arith
        | inr (t, there) ↦
            write_task-IsMoved db id t (record t { status = TaskStatus.completed })
              (task_completed t.room_id id (or_system t.assigned_agent_id)) db' there (ground arith)
              (ground arith)
      ]

  pub cancel_task-IsMoved :
      (db : RecordRows) (id requested_by : String) (require_member : Bool) (db' : RecordRows)
      → cancel_task may_mutate has_run_authority db id requested_by require_member ≡ ok db'
      → IsMoved db db'
  unfolding cancel_task find_task
  cancel_task-IsMoved db id requested_by require_member db' h =
      elim (Option-cases (lookup str id db.room_tasks)) [
        | inl missing ↦ ground arith
        | inr (t, there) ↦
            write_task-IsMoved db id t (record t { status = TaskStatus.cancelled })
              (task_cancelled t.room_id id t.created_by) db' there (ground arith) (ground arith)
      ]

  pub create_decision-IsMoved :
      (db : RecordRows) (id room_id title created_by : String) (require_member : Bool)
      (db' : RecordRows)
      → create_decision may_mutate has_run_authority db id room_id title created_by require_member
        ≡ ok db'
      → IsMoved db db'
  unfolding create_decision
  create_decision-IsMoved db id room_id title created_by require_member db' h =
      elim (Option-cases (lookup str id db.decisions)) [
        | inl fresh ↦
            let new : Decision = record {
              room_id = room_id;
              title = title;
              status = DecisionStatus.proposed;
              created_by = created_by;
              reviewed_by = "";
            } in
            let d : db' ≡ with_decision db id new (decision_created room_id id title created_by) =
              ground arith in
            subst (IsMoved db) (sym d) (
              with_decision-IsMoved db id new (decision_created room_id id title created_by)
                (subst (λ o. MayWriteDecision o DecisionStatus.proposed) (sym fresh) tt))
        | inr (t, there) ↦ ground arith
      ]

  pub update_decision_status-IsMoved :
      (db : RecordRows) (id : String) (status : DecisionStatus) (reviewed_by : String)
      (require_member : Bool) (db' : RecordRows)
      → update_decision_status may_mutate has_run_authority db id status reviewed_by require_member
        ≡ ok db'
      → IsMoved db db'
  unfolding update_decision_status
  update_decision_status-IsMoved db id status reviewed_by require_member db' h =
      elim (Option-cases (lookup str id db.decisions)) [
        | inl missing ↦ ground arith
        | inr (t, there) ↦
            let new = record t { status = status; reviewed_by = reviewed_by } in
            let notice = decision_moved t.room_id id status reviewed_by in
            let d : db' ≡ with_decision db id new notice = ground arith in
            let ok_move : contains DecisionStatus-discrete status
                  (valid_decision_transitions t.status)
                ≡ true =
              ground arith in
            subst (IsMoved db) (sym d) (
              with_decision-IsMoved db id new notice
                (subst (λ o. MayWriteDecision o status) (sym there) ok_move))
      ]

  pub create_task-IsMoved :
      (db : RecordRows) (id room_id title description created_by : String)
      (parent_task_id : Option String) (require_member : Bool)
      (authorization : Option RunAuthorization) (db' : RecordRows)
      → create_task may_mutate has_run_authority db id room_id title description created_by
          parent_task_id require_member authorization
        ≡ ok db'
      → IsMoved db db'
  unfolding create_task
  create_task-IsMoved db id room_id title description created_by parent_task_id require_member
        authorization db' h =
      insert_task-IsMoved db id
        (record {
          room_id = room_id;
          title = title;
          description = description;
          status = TaskStatus.created;
          assigned_agent_id = none;
          created_by = created_by;
          parent_task_id = parent_task_id;
          delegation_id = none;
        })
        (task_created room_id id title created_by) db' (ground arith)

  pub delegate_task-IsMoved :
      (db : RecordRows)
      (id child_id delegation_id from_agent_id to_agent_id description requested_by : String)
      (require_member : Bool) (db' : RecordRows)
      → delegate_task may_mutate has_run_authority db id child_id delegation_id from_agent_id
          to_agent_id description requested_by require_member
        ≡ ok db'
      → IsMoved db db'
  unfolding delegate_task find_task
  delegate_task-IsMoved db id child_id delegation_id from_agent_id to_agent_id description
        requested_by require_member db' h =
      elim (Option-cases (lookup str id db.room_tasks)) [
        | inl missing ↦ ground arith
        | inr (task, there) ↦
            insert_task-IsMoved db child_id
              (record {
                room_id = task.room_id;
                title = Prim.Native.String.◌++◌ "Delegated: " task.title;
                description = or_text description task.description;
                status = TaskStatus.assigned;
                assigned_agent_id = some to_agent_id;
                created_by = from_agent_id;
                parent_task_id = some id;
                delegation_id = some delegation_id;
              })
              (task_delegated task.room_id id child_id from_agent_id to_agent_id) db' (ground arith)
      ]

-- ===== src/Records/Moves.antt =====
-- The tasks and decisions of a room over any sequence of calls.
use xyzzy.Capability.{RunAuthorization}
use xyzzy.Prelude.{Bool, Option, String, arith, lookup, ok, some, str, subst, ◌≡◌}
use xyzzy.Records.{
  Decision, DecisionStatus, RecordRows, RoomTask, TaskStatus, assign_task, cancel_task,
  complete_task, create_decision, create_task, delegate_task, update_decision_status,
}
use xyzzy.Records.Paths.{
  DecisionReaches, IsMoved, TaskReaches, completed_path, joined-IsMoved, proposed_path,
  same-IsMoved,
}
use xyzzy.Records.Calls.{
  assign_task-IsMoved, cancel_task-IsMoved, complete_task-IsMoved, create_decision-IsMoved,
  create_task-IsMoved, delegate_task-IsMoved, update_decision_status-IsMoved,
}

module _ (may_mutate : String → String → Bool)
    (has_run_authority : RunAuthorization → String → Bool) where
  -- One call that returns.
  pub data RecordStep (db : RecordRows) : RecordRows → Type 0 where
    task_opened :
        (id room_id title description created_by : String) (parent_task_id : Option String)
        (require_member : Bool) (authorization : Option RunAuthorization) (db' : RecordRows)
        → create_task may_mutate has_run_authority db id room_id title description created_by
            parent_task_id require_member authorization
          ≡ ok db'
        → RecordStep db db'
    task_taken :
        (id agent_id requested_by : String) (require_member : Bool) (db' : RecordRows)
        → assign_task may_mutate has_run_authority db id agent_id requested_by require_member
          ≡ ok db'
        → RecordStep db db'
    task_passed :
        (id child_id delegation_id from_agent_id to_agent_id description requested_by : String)
        (require_member : Bool) (db' : RecordRows)
        → delegate_task may_mutate has_run_authority db id child_id delegation_id from_agent_id
            to_agent_id description requested_by require_member
          ≡ ok db'
        → RecordStep db db'
    task_done :
        (id requested_by : String) (require_member : Bool) (db' : RecordRows)
        → complete_task may_mutate has_run_authority db id requested_by require_member ≡ ok db'
        → RecordStep db db'
    task_dropped :
        (id requested_by : String) (require_member : Bool) (db' : RecordRows)
        → cancel_task may_mutate has_run_authority db id requested_by require_member ≡ ok db'
        → RecordStep db db'
    decision_opened :
        (id room_id title created_by : String) (require_member : Bool) (db' : RecordRows)
        → create_decision may_mutate has_run_authority db id room_id title created_by require_member
          ≡ ok db'
        → RecordStep db db'
    decision_taken :
        (id : String) (status : DecisionStatus) (reviewed_by : String) (require_member : Bool)
        (db' : RecordRows)
        → update_decision_status may_mutate has_run_authority db id status reviewed_by
            require_member
          ≡ ok db'
        → RecordStep db db'

  pub data RecordSteps (db : RecordRows) : RecordRows → Type 0 where
    still : RecordSteps db db
    more : {mid db' : RecordRows} → RecordSteps db mid → RecordStep mid db' → RecordSteps db db'

  step-IsMoved : (db db' : RecordRows) → RecordStep db db' → IsMoved db db'
  step-IsMoved db _
        (task_opened id room_id title description created_by parent_task_id require_member
          authorization db' h) =
      create_task-IsMoved may_mutate has_run_authority db id room_id title description created_by
        parent_task_id require_member authorization db' h
  step-IsMoved db _ (task_taken id agent_id requested_by require_member db' h) =
      assign_task-IsMoved may_mutate has_run_authority db id agent_id requested_by require_member
        db' h
  step-IsMoved db _
        (task_passed id child_id delegation_id from_agent_id to_agent_id description requested_by
          require_member db' h) =
      delegate_task-IsMoved may_mutate has_run_authority db id child_id delegation_id from_agent_id
        to_agent_id description requested_by require_member db' h
  step-IsMoved db _ (task_done id requested_by require_member db' h) =
      complete_task-IsMoved may_mutate has_run_authority db id requested_by require_member db' h
  step-IsMoved db _ (task_dropped id requested_by require_member db' h) =
      cancel_task-IsMoved may_mutate has_run_authority db id requested_by require_member db' h
  step-IsMoved db _ (decision_opened id room_id title created_by require_member db' h) =
      create_decision-IsMoved may_mutate has_run_authority db id room_id title created_by
        require_member db' h
  step-IsMoved db _ (decision_taken id status reviewed_by require_member db' h) =
      update_decision_status-IsMoved may_mutate has_run_authority db id status reviewed_by
        require_member db' h

  rows-IsMoved : (db db' : RecordRows) → RecordSteps db db' → IsMoved db db'
  rows-IsMoved db _ still = same-IsMoved db
  rows-IsMoved db _ (more {mid} {db'} steps step) =
      joined-IsMoved db mid db' (rows-IsMoved db mid steps) (step-IsMoved mid db' step)

  -- However tasks and decisions are created, assigned, delegated, completed, cancelled and decided,
  -- every stored one is still there with a status that its table of transitions reaches from the
  -- old one, a completed task is completed still, and a decision that was stored before and is proposed now
  -- was proposed then.
  pub steps-IsMoved :
      (db db' : RecordRows)
      → RecordSteps db db'
      → IsMoved db db'
        × ((id : String) (t : RoomTask)
            → lookup str id db.room_tasks ≡ some t
            → t.status ≡ TaskStatus.completed
            → (t' : RoomTask) × (lookup str id db'.room_tasks ≡ some t')
              × (t'.status ≡ TaskStatus.completed))
        × ((id : String) (d d' : Decision)
            → lookup str id db.decisions ≡ some d
            → lookup str id db'.decisions ≡ some d'
            → d'.status ≡ DecisionStatus.proposed
            → d.status ≡ DecisionStatus.proposed)
  steps-IsMoved db db' steps =
      let kept = rows-IsMoved db db' steps in
      (
        kept,
        λ id t h e.
            let (t', h', path) = kept.tasks_moved id t h in
            (t', h', completed_path t'.status (subst (λ s. TaskReaches s t'.status) e path)),
        λ id d d' h h' e.
            let (d'', h'', path) = kept.decisions_moved id d h in
            let same : d''.status ≡ DecisionStatus.proposed = ground arith in
            proposed_path d.status (subst (DecisionReaches d.status) same path),
      )

-- ===== src/Tests/Ledgers.antt =====
-- The theorem on tasks and decisions at one task that is assigned, then completed.
use xyzzy.Prelude.{
  Bool, String, [], contains, false, insert, lookup, none, ok, refl, some, str, true, ◌∷◌, ◌≡◌,
}
use xyzzy.Capability.{RunAuthorization}
use xyzzy.Records.{
  Decision, DecisionStatus, RecordRows, RoomTask, TaskStatus, TaskStatus-discrete, assign_task,
  complete_task, find_task, task_assigned, task_completed, valid_task_transitions,
}
use xyzzy.Records.Paths.{IsMoved}
use xyzzy.Records.Moves.{RecordSteps, more, steps-IsMoved, still, task_done, task_taken}

abbrev any_member : String → String → Bool
any_member room_id user_id = true

abbrev any_authority : RunAuthorization → String → Bool
any_authority authorization stage = true

abbrev opened : RoomTask
opened = record {
  room_id = "r1";
  title = "Draft";
  description = "";
  status = TaskStatus.created;
  assigned_agent_id = none;
  created_by = "u1";
  parent_task_id = none;
  delegation_id = none;
}

abbrev proposal : Decision
proposal = record {
  room_id = "r1";
  title = "Ship";
  status = DecisionStatus.proposed;
  created_by = "u1";
  reviewed_by = "";
}

abbrev at_first : RecordRows
at_first = record {
  room_tasks = ("t1", opened) ∷ [];
  decisions = ("d1", proposal) ∷ [];
  appended = [];
}

abbrev assigned_rows : RecordRows
assigned_rows = record at_first {
  room_tasks =
      ("t1", record opened { status = TaskStatus.assigned; assigned_agent_id = some "a1" }) ∷ [];
  appended = task_assigned "r1" "t1" "a1" ∷ [];
}

abbrev completed_rows : RecordRows
completed_rows = record assigned_rows {
  room_tasks =
      ("t1", record opened { status = TaskStatus.completed; assigned_agent_id = some "a1" }) ∷ [];
  appended = task_assigned "r1" "t1" "a1" ∷ task_completed "r1" "t1" "a1" ∷ [];
}

assigned_call : assign_task any_member any_authority at_first "t1" "a1" "u1" true ≡ ok assigned_rows
unfolding assign_task find_task valid_task_transitions TaskStatus-discrete contains lookup insert
    str
assigned_call = refl

completed_call :
    complete_task any_member any_authority assigned_rows "t1" "u1" false ≡ ok completed_rows
unfolding complete_task find_task valid_task_transitions TaskStatus-discrete contains lookup insert
    str
completed_call = refl

abbrev calls : RecordSteps any_member any_authority at_first completed_rows
calls =
    more (more still (task_taken "t1" "a1" "u1" true assigned_rows assigned_call))
      (task_done "t1" "u1" false completed_rows completed_call)

steps-IsMoved_example :
    IsMoved at_first completed_rows
    × ((id : String) (t : RoomTask)
        → lookup str id at_first.room_tasks ≡ some t
        → t.status ≡ TaskStatus.completed
        → (t' : RoomTask) × (lookup str id completed_rows.room_tasks ≡ some t')
          × (t'.status ≡ TaskStatus.completed))
    × ((id : String) (d d' : Decision)
        → lookup str id at_first.decisions ≡ some d
        → lookup str id completed_rows.decisions ≡ some d'
        → d'.status ≡ DecisionStatus.proposed
        → d.status ≡ DecisionStatus.proposed)
steps-IsMoved_example = steps-IsMoved any_member any_authority at_first completed_rows calls

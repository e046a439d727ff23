-- ===== src/Records.antt =====
-- The tasks and decisions that people keep in a room, and the state machines they follow
-- (src/multiplayer/services/records.py, the tables and `_validate_transition` of
-- src/multiplayer/services/_shared.py). `may_mutate` stands for the membership check that a caller
-- asks for, `has_run_authority` for the check of a run's authorization, and an event is a `RecordNotice` before the append of Events. Texts are taken as
-- validated, and columns that no operation here reads are left out.
pub mod Paths
pub mod Calls
pub mod Moves
use Prim.Native.String
use xyzzy.Capability.{RunAuthorization}
use xyzzy.Prelude.{
  Bool, List, Option, Result, String, [], contains, err, false, guard, insert, ite, lookup, none,
  ok, some, str, true, ◌++◌, ◌>>=◌, ◌>>◌, ◌∷◌,
}

pub data TaskStatus : Type 0 where
  created assigned in_progress blocked completed failed cancelled : TaskStatus

pub data DecisionStatus : Type 0 where
  proposed active superseded rejected : DecisionStatus

unfoldable pub TaskStatus-discrete : Discrete TaskStatus
TaskStatus-discrete = hlevel

unfoldable pub DecisionStatus-discrete : Discrete DecisionStatus
DecisionStatus-discrete = hlevel

unfoldable pub valid_task_transitions : TaskStatus → List TaskStatus
valid_task_transitions TaskStatus.created = TaskStatus.assigned ∷ TaskStatus.cancelled ∷ []
valid_task_transitions TaskStatus.assigned =
    TaskStatus.in_progress ∷ TaskStatus.completed ∷ TaskStatus.failed ∷ TaskStatus.cancelled ∷ []
valid_task_transitions TaskStatus.in_progress =
    TaskStatus.blocked ∷ TaskStatus.completed ∷ TaskStatus.failed ∷ TaskStatus.cancelled ∷ []
valid_task_transitions TaskStatus.blocked = TaskStatus.in_progress ∷ TaskStatus.cancelled ∷ []
valid_task_transitions TaskStatus.completed = []
valid_task_transitions TaskStatus.failed = TaskStatus.assigned ∷ TaskStatus.created ∷ []
valid_task_transitions TaskStatus.cancelled = TaskStatus.created ∷ []

unfoldable pub valid_decision_transitions : DecisionStatus → List DecisionStatus
valid_decision_transitions DecisionStatus.proposed =
    DecisionStatus.active ∷ DecisionStatus.rejected ∷ []
valid_decision_transitions DecisionStatus.active = DecisionStatus.superseded ∷ []
valid_decision_transitions DecisionStatus.superseded = []
valid_decision_transitions DecisionStatus.rejected = []

pub data RecordError : Type 0 where
  domain_error integrity_error not_a_member not_authorized : RecordError

-- `_validate_transition`: raise DomainError if the transition is not valid.
abbrev pub validate_transition :
    {S : Type 0} → Discrete S → S → S → (S → List S) → Result RecordError (Unit {0})
validate_transition dec current target valid =
    guard (contains dec target (valid current)) domain_error

pub record RoomTask : Type 0 where
  pub room_id : String
  pub title : String
  pub description : String
  pub status : TaskStatus
  pub assigned_agent_id : Option String
  pub created_by : String
  pub parent_task_id : Option String
  pub delegation_id : Option String

pub record Decision : Type 0 where
  pub room_id : String
  pub title : String
  pub status : DecisionStatus
  pub created_by : String
  pub reviewed_by : String

-- An event before it has a sequence.
pub data RecordNotice : Type 0 where
  task_created : String → String → String → String → RecordNotice
  task_assigned : String → String → String → RecordNotice
  task_delegated : String → String → String → String → String → RecordNotice
  task_completed : String → String → String → RecordNotice
  task_cancelled : String → String → String → RecordNotice
  decision_created : String → String → String → String → RecordNotice
  decision_superseded decision_updated : String → String → DecisionStatus → String → RecordNotice

pub record RecordRows : Type 0 where
  pub room_tasks : List (String × RoomTask)
  pub decisions : List (String × Decision)
  pub appended : List RecordNotice

abbrev pub with_task : RecordRows → String → RoomTask → RecordNotice → RecordRows
with_task db id task notice = record db {
  room_tasks = insert str id task db.room_tasks;
  appended = db.appended ++ notice ∷ [];
}

abbrev pub with_decision : RecordRows → String → Decision → RecordNotice → RecordRows
with_decision db id decision notice = record db {
  decisions = insert str id decision db.decisions;
  appended = db.appended ++ notice ∷ [];
}

abbrev pub or_system : Option String → String
or_system none = "system"
or_system (some agent_id) = ite (str agent_id "") "system" agent_id

abbrev pub decision_moved : String → String → DecisionStatus → String → RecordNotice
decision_moved room_id id status reviewed_by =
    ite (DecisionStatus-discrete status DecisionStatus.superseded)
      (decision_superseded room_id id status reviewed_by)
      (decision_updated room_id id status reviewed_by)

abbrev pub or_text : String → String → String
or_text a b = ite (str a "") b a

-- `INSERT INTO tasks`, whose key is new.
unfoldable pub insert_task :
    RecordRows → String → RoomTask → RecordNotice → Result RecordError RecordRows
insert_task db id task notice = elim (lookup str id db.room_tasks) [
  | some _ ↦ err integrity_error
  | none ↦ ok (with_task db id task notice)
]

unfoldable pub find_task : RecordRows → String → Result RecordError RoomTask
find_task db id = elim (lookup str id db.room_tasks) [ none ↦ err domain_error | some t ↦ ok t ]

module _ (may_mutate : String → String → Bool)
    (has_run_authority : RunAuthorization → String → Bool) where
  -- `if require_member: await self._require_mutate_in_transaction(…)`
  abbrev pub require_mutate : Bool → String → String → Result RecordError (Unit {0})
  require_mutate false room_id user_id = ok tt
  require_mutate true room_id user_id = guard (may_mutate room_id user_id) not_a_member

  -- `if authorization is not None: await self._require_run_authority_in_transaction(…)`
  abbrev pub require_authorization :
      Option RunAuthorization → String → Result RecordError (Unit {0})
  require_authorization none stage = ok tt
  require_authorization (some authorization) stage =
      guard (has_run_authority authorization stage) not_authorized

  unfoldable pub create_task :
      RecordRows
      → String
      → String
      → String
      → String
      → String
      → Option String
      → Bool
      → Option RunAuthorization
      → Result RecordError RecordRows
  unfolding insert_task
  create_task db id room_id title description created_by parent_task_id require_member
        authorization =
      do
        require_mutate require_member room_id created_by
        require_authorization authorization "task.create"
        insert_task db id
            (record {
              room_id = room_id;
              title = title;
              description = description;
              status = TaskStatus.created;
              assigned_agent_id = none;
              created_by = created_by;
              parent_task_id = parent_task_id;
              delegation_id = none;
            })
            (task_created room_id id title created_by)

  unfoldable pub assign_task :
      RecordRows → String → String → String → Bool → Result RecordError RecordRows
  unfolding find_task valid_task_transitions TaskStatus-discrete contains
  assign_task db id agent_id requested_by require_member = do
    task ← find_task db id
    require_mutate require_member task.room_id requested_by
    validate_transition TaskStatus-discrete task.status TaskStatus.assigned valid_task_transitions
    ok (
        with_task db id
          (record task { status = TaskStatus.assigned; assigned_agent_id = some agent_id })
          (task_assigned task.room_id id agent_id))

  unfoldable pub delegate_task :
      RecordRows
      → String
      → String
      → String
      → String
      → String
      → String
      → String
      → Bool
      → Result RecordError RecordRows
  unfolding find_task insert_task
  delegate_task db id child_id delegation_id from_agent_id to_agent_id description requested_by
        require_member =
      do
        task ← find_task db id
        require_mutate require_member task.room_id requested_by
        insert_task db child_id
            (record {
              room_id = task.room_id;
              title = Prim.Native.String.◌++◌ "Delegated: " task.title;
              description = or_text description task.description;
              status = TaskStatus.assigned;
              assigned_agent_id = some to_agent_id;
              created_by = from_agent_id;
              parent_task_id = some id;
              delegation_id = some delegation_id;
            })
            (task_delegated task.room_id id child_id from_agent_id to_agent_id)

  unfoldable pub complete_task : RecordRows → String → String → Bool → Result RecordError RecordRows
  unfolding find_task valid_task_transitions TaskStatus-discrete contains
  complete_task db id requested_by require_member = do
    task ← find_task db id
    require_mutate require_member task.room_id requested_by
    validate_transition TaskStatus-discrete task.status TaskStatus.completed valid_task_transitions
    ok (
        with_task db id (record task { status = TaskStatus.completed })
          (task_completed task.room_id id (or_system task.assigned_agent_id)))

  unfoldable pub cancel_task : RecordRows → String → String → Bool → Result RecordError RecordRows
  unfolding find_task valid_task_transitions TaskStatus-discrete contains
  cancel_task db id requested_by require_member = do
    task ← find_task db id
    require_mutate require_member task.room_id requested_by
    validate_transition TaskStatus-discrete task.status TaskStatus.cancelled valid_task_transitions
    ok (
        with_task db id (record task { status = TaskStatus.cancelled })
          (task_cancelled task.room_id id task.created_by))

  unfoldable pub create_decision :
      RecordRows → String → String → String → String → Bool → Result RecordError RecordRows
  create_decision db id room_id title created_by require_member = do
    require_mutate require_member room_id created_by
    elim (lookup str id db.decisions) [
      | some _ ↦ err integrity_error
      | none ↦ ok (
          with_decision db id
            (record {
              room_id = room_id;
              title = title;
              status = DecisionStatus.proposed;
              created_by = created_by;
              reviewed_by = "";
            })
            (decision_created room_id id title created_by))
    ]

  unfoldable pub update_decision_status :
      RecordRows → String → DecisionStatus → String → Bool → Result RecordError RecordRows
  unfolding valid_decision_transitions DecisionStatus-discrete contains
  update_decision_status db id status reviewed_by require_member =
      elim (lookup str id db.decisions) [
        | none ↦ err domain_error
        | some decision ↦ do
          require_mutate require_member decision.room_id reviewed_by
          validate_transition DecisionStatus-discrete decision.status status
              valid_decision_transitions
          ok (
              with_decision db id (record decision { status = status; reviewed_by = reviewed_by })
                (decision_moved decision.room_id id status reviewed_by))
      ]

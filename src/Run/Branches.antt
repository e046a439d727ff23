-- ===== src/Run/Branches.antt =====
-- A branch's status, derived from its runs, and the lock on a room's turn
-- (`_finish_managed_branch_if_terminal`, `TurnLockRepo`, `BranchRepo.update_status` of
-- src/multiplayer/db/repositories.py).
use xyzzy.Prelude.{
  Bool, List, Option, Result, String, [], contains, err, false, if◌then◌else◌, insert, ite, length,
  lookup, ltb, none, not, ok, some, str, true, update_all, ℕ, ◌&&◌, ◌∷◌,
}
use xyzzy.Models.{BranchStatus, ExecutionStatus, ExecutionStatus-discrete, is_terminal_status}
use xyzzy.Run.{
  Branch, Execution, Notice, RunError, RunRows, TurnLock, active, branch_ended, is_none,
  lock_released, released,
}

-- `branch_row["status"] in {"COMPLETED", "PARTIAL", "FAILED", "CANCELLED"}`
unfoldable pub is_ended : BranchStatus → Bool
is_ended BranchStatus.pending = false
is_ended BranchStatus.running = false
is_ended BranchStatus.completed = true
is_ended BranchStatus.partial = true
is_ended BranchStatus.failed = true
is_ended BranchStatus.cancelled = true

-- The statuses of a branch's executions. Their order, by id in the source, is that of the rows.
unfoldable pub statuses_of : String → List (String × Execution) → List ExecutionStatus
statuses_of branch_id [] = []
statuses_of branch_id ((_, e) ∷ rest) =
    let later = statuses_of branch_id rest in
    ite (str e.branch_id branch_id) (e.status ∷ later) later

abbrev pub all_terminal : List ExecutionStatus → Bool
all_terminal [] = true
all_terminal (s ∷ ss) = is_terminal_status s && all_terminal ss

-- `set(statuses)`
unfoldable pub distinct : List ExecutionStatus → List ExecutionStatus
unfolding contains ExecutionStatus-discrete
distinct [] = []
distinct (s ∷ ss) =
    let rest = distinct ss in if contains ExecutionStatus-discrete s rest then rest else s ∷ rest

unfoldable pub single_status : ExecutionStatus → BranchStatus
single_status ExecutionStatus.completed = BranchStatus.completed
single_status ExecutionStatus.failed = BranchStatus.failed
single_status _ = BranchStatus.cancelled

unfoldable pub derived_status : ExecutionStatus → List ExecutionStatus → BranchStatus
unfolding distinct single_status
derived_status first rest =
    if ltb 1 (length (distinct (first ∷ rest))) then BranchStatus.partial else single_status first

abbrev pub is_active : TurnLock → Bool
is_active lock = elim lock.status [ active ↦ true | released ↦ false ]

abbrev pub holds : String → TurnLock → Bool
holds branch_id lock = ite (str lock.branch_id branch_id) (is_active lock) false

-- `SELECT lock_id FROM turn_locks WHERE branch_id = ? AND status = 'ACTIVE'`
unfoldable pub active_lock_of : String → List (String × TurnLock) → Option String
active_lock_of branch_id [] = none
active_lock_of branch_id ((lock_id, lock) ∷ rest) =
    if holds branch_id lock then some lock_id else active_lock_of branch_id rest

-- `UPDATE turn_locks SET … WHERE lock_id = ?`
abbrev pub released_lock : String → ℕ → TurnLock → TurnLock
released_lock reason now lock = record lock {
  status = released;
  released_at = some now;
  release_reason = reason;
}

unfoldable pub branch_status_value : BranchStatus → String
branch_status_value BranchStatus.pending = "PENDING"
branch_status_value BranchStatus.running = "RUNNING"
branch_status_value BranchStatus.completed = "COMPLETED"
branch_status_value BranchStatus.partial = "PARTIAL"
branch_status_value BranchStatus.failed = "FAILED"
branch_status_value BranchStatus.cancelled = "CANCELLED"

-- `if lock_row is not None: …`
abbrev pub release_row :
    RunRows → String → String → BranchStatus → String → ℕ → Option String → RunRows × List Notice
release_row db branch_id room_id status actor_id now none = (db, [])
release_row db branch_id room_id status actor_id now (some lock_id) = (
  record db {
    turn_locks =
        update_all (λ (k : String) (_ : TurnLock). ite (str k lock_id) true false)
          (released_lock (branch_status_value status) now) db.turn_locks;
  },
  lock_released room_id lock_id branch_id status actor_id ∷ [],
)

unfoldable pub release_lock_of :
    RunRows → String → String → BranchStatus → String → ℕ → RunRows × List Notice
release_lock_of db branch_id room_id status actor_id now =
    release_row db branch_id room_id status actor_id now (active_lock_of branch_id db.turn_locks)

unfoldable pub end_branch :
    RunRows → String → Branch → String → BranchStatus → String → ℕ → RunRows × List Notice
unfolding release_lock_of
end_branch db branch_id branch room_id status actor_id now =
    let ended = record branch { status = status; updated_at = now; completed_at = some now } in
    let (db', notices) =
      release_lock_of (record db { branches = insert str branch_id ended db.branches }) branch_id
        room_id status actor_id now in
    (db', branch_ended room_id branch_id status actor_id ∷ notices)

-- Nothing happens until every execution of the branch is terminal.
abbrev pub finish_owned :
    RunRows → String → Branch → String → String → ℕ → List ExecutionStatus → RunRows × List Notice
finish_owned db branch_id branch room_id actor_id now [] = (db, [])
finish_owned db branch_id branch room_id actor_id now (first ∷ rest) =
    if not (all_terminal (first ∷ rest))
    then (db, [])
    else end_branch db branch_id branch room_id (derived_status first rest) actor_id now

abbrev pub finish_row :
    RunRows → String → String → String → ℕ → Option Branch → RunRows × List Notice
finish_row db branch_id room_id actor_id now none = (db, [])
finish_row db branch_id room_id actor_id now (some branch) =
    if not branch.lifecycle_managed
    then (db, [])
    else if is_ended branch.status
    then (db, [])
    else finish_owned db branch_id branch room_id actor_id now (statuses_of branch_id db.executions)

unfoldable pub finish_managed_branch_if_terminal :
    RunRows → String → String → String → ℕ → RunRows × List Notice
unfolding is_ended statuses_of end_branch derived_status is_terminal_status
finish_managed_branch_if_terminal db branch_id room_id actor_id now =
    finish_row db branch_id room_id actor_id now (lookup str branch_id db.branches)

-- `SELECT * FROM turn_locks WHERE scope_type = ? AND scope_id = ? AND status = 'ACTIVE'`
unfoldable pub get_active : List (String × TurnLock) → String → Option TurnLock
get_active [] room_id = none
get_active ((_, lock) ∷ rest) room_id =
    if ite (str lock.scope_id room_id) (is_active lock) false
    then some lock
    else get_active rest room_id

-- A lock's branch is one of the room that it locks.
abbrev pub in_scope : Option Branch → String → Bool
in_scope none scope_id = false
in_scope (some branch) scope_id = ite (str branch.room_id scope_id) true false

-- One active lock to a room, as the unique index wants, and on a branch of it, as a trigger does.
unfoldable pub create_lock : RunRows → String → TurnLock → Result RunError RunRows
unfolding get_active
create_lock db lock_id lock = elim (lookup str lock_id db.turn_locks) [
  | some _ ↦ err RunError.integrity_error
  | none ↦
      if not (in_scope (lookup str lock.branch_id db.branches) lock.scope_id)
      then err RunError.integrity_error
      else if is_active lock && not (is_none (get_active db.turn_locks lock.scope_id))
      then err RunError.integrity_error
      else ok (record db { turn_locks = insert str lock_id lock db.turn_locks })
]

unfoldable pub release : RunRows → String → String → ℕ → RunRows
release db branch_id reason now = record db {
  turn_locks =
      update_all (λ (_ : String) (lock : TurnLock). holds branch_id lock) (released_lock reason now)
        db.turn_locks;
}

abbrev pub moved_branch : RunRows → String → BranchStatus → ℕ → Option Branch → RunRows
moved_branch db branch_id status now none = db
moved_branch db branch_id status now (some branch) = record db {
  branches =
      insert str branch_id
        (record branch {
          status = status;
          updated_at = now;
          completed_at = if is_ended status then some now else none;
        })
        db.branches;
}

unfoldable pub update_branch_status : RunRows → String → BranchStatus → ℕ → RunRows
unfolding is_ended
update_branch_status db branch_id status now =
    moved_branch db branch_id status now (lookup str branch_id db.branches)

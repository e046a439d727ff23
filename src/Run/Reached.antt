-- ===== src/Run/Reached.antt =====
-- The operations that write the locks on the rooms' turns, in any order.
use xyzzy.Prelude.{
  Option, String, false, if◌then◌else◌, insert, ite, lookup, none, ok, refl, some, str, true, ℕ,
  ◌≡◌,
}
use xyzzy.Models.{BranchStatus}
use xyzzy.Run.{Branch, RunRows, TurnLock}
use xyzzy.Run.Branches.{
  active_lock_of, branch_status_value, create_lock, end_branch, finish_managed_branch_if_terminal,
  holds, is_ended, moved_branch, release, release_lock_of, release_row, update_branch_status,
}
use xyzzy.Run.Kept.{finish-cases}
use xyzzy.Run.Turns.{IsLockTable, create_lock-IsLockTable, release_all-IsLockTable}
use xyzzy.Run.Ended.{with_branch_row-IsLockTable}

release_row-IsLockTable :
    (db : RunRows) (branch_id room_id : String) (status : BranchStatus) (actor_id : String)
    (now : ℕ) (o : Option String)
    → IsLockTable db
    → IsLockTable (release_row db branch_id room_id status actor_id now o).0
release_row-IsLockTable db branch_id room_id status actor_id now none t = t
release_row-IsLockTable db branch_id room_id status actor_id now (some lock_id) t =
    release_all-IsLockTable db (λ (k : String) (_ : TurnLock). ite (str k lock_id) true false)
      (branch_status_value status) now t

end_branch-IsLockTable :
    (db : RunRows) (branch_id : String) (branch : Branch) (room_id : String) (status : BranchStatus)
    (actor_id : String) (now : ℕ)
    → lookup str branch_id db.branches ≡ some branch
    → IsLockTable db
    → IsLockTable (end_branch db branch_id branch room_id status actor_id now).0
unfolding end_branch release_lock_of
end_branch-IsLockTable db branch_id branch room_id status actor_id now hit t =
    let ended = record branch { status = status; updated_at = now; completed_at = some now } in
    let mid = record db { branches = insert str branch_id ended db.branches } in
    release_row-IsLockTable mid branch_id room_id status actor_id now
      (active_lock_of branch_id db.turn_locks)
      (with_branch_row-IsLockTable db branch_id branch ended t hit refl)

finish-IsLockTable :
    (db : RunRows) (branch_id room_id actor_id : String) (now : ℕ)
    → IsLockTable db
    → IsLockTable (finish_managed_branch_if_terminal db branch_id room_id actor_id now).0
finish-IsLockTable db branch_id room_id actor_id now t =
    finish-cases IsLockTable db branch_id room_id actor_id now t (λ branch status hit.
      end_branch-IsLockTable db branch_id branch room_id status actor_id now hit t)

update_branch_status-IsLockTable :
    (db : RunRows) (branch_id : String) (status : BranchStatus) (now : ℕ)
    → IsLockTable db
    → IsLockTable (update_branch_status db branch_id status now)
unfolding update_branch_status
update_branch_status-IsLockTable db branch_id status now t =
    by_row (lookup str branch_id db.branches) refl
  where
    by_row :
        (o : Option Branch)
        → lookup str branch_id db.branches ≡ o
        → IsLockTable (moved_branch db branch_id status now o)
    by_row none e = t
    by_row (some branch) e =
        with_branch_row-IsLockTable db branch_id branch
          (record branch {
            status = status;
            updated_at = now;
            completed_at = if is_ended status then some now else none;
          })
          t e refl

-- One write of a room's turn or of its branches.
pub data TurnStep (db : RunRows) : RunRows → Type 0 where
  lock_taken :
      (lock_id : String) (lock : TurnLock) (db' : RunRows)
      → create_lock db lock_id lock ≡ ok db'
      → TurnStep db db'
  turn_released :
      (branch_id reason : String) (now : ℕ) → TurnStep db (release db branch_id reason now)
  branch_finished :
      (branch_id room_id actor_id : String) (now : ℕ)
      → TurnStep db (finish_managed_branch_if_terminal db branch_id room_id actor_id now).0
  branch_moved :
      (branch_id : String) (status : BranchStatus) (now : ℕ)
      → TurnStep db (update_branch_status db branch_id status now)

pub data TurnSteps (db : RunRows) : RunRows → Type 0 where
  still : TurnSteps db db
  more : {mid db' : RunRows} → TurnSteps db mid → TurnStep mid db' → TurnSteps db db'

step-IsLockTable : (db db' : RunRows) → TurnStep db db' → IsLockTable db → IsLockTable db'
unfolding release
step-IsLockTable db _ (lock_taken lock_id lock db' h) t =
    create_lock-IsLockTable db lock_id lock db' t h
step-IsLockTable db _ (turn_released branch_id reason now) t =
    release_all-IsLockTable db (λ (_ : String) (lock : TurnLock). holds branch_id lock) reason now t
step-IsLockTable db _ (branch_finished branch_id room_id actor_id now) t =
    finish-IsLockTable db branch_id room_id actor_id now t
step-IsLockTable db _ (branch_moved branch_id status now) t =
    update_branch_status-IsLockTable db branch_id status now t

-- However the locks are taken and released and the branches moved and ended, in any order: where
-- each room had one active lock at most, each on a branch of that room, it still has.
pub steps-IsLockTable : (db db' : RunRows) → TurnSteps db db' → IsLockTable db → IsLockTable db'
steps-IsLockTable db _ still t = t
steps-IsLockTable db _ (more {mid} {db'} steps step) t =
    step-IsLockTable mid db' step (steps-IsLockTable db mid steps t)

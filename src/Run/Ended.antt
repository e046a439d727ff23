-- ===== src/Run/Ended.antt =====
-- The end of a managed branch (`_finish_managed_branch_if_terminal`).
use xyzzy.Run.Status.{Agrees, Agrees-is_ended, derived-Agrees}
use xyzzy.Prelude.{
  Bool-cases, List, Option, String, [], ap, arith, false, inl, inr, insert, ite, lookup,
  lookup-insert_ne, lookup-insert_self, lookup-update_all, map_found, none, refl, some, str, subst,
  sym, true, updated, ℕ, ◌∙◌, ◌∷◌, ◌≡◌,
}
use xyzzy.Models.{BranchStatus, ExecutionStatus}
use xyzzy.Run.{Branch, Notice, RunRows, TurnLock}
use xyzzy.Run.Branches.{
  active_lock_of, all_terminal, branch_status_value, derived_status, end_branch,
  finish_managed_branch_if_terminal, holds, in_scope, is_active, is_ended, release_lock_of,
  release_row, released_lock, statuses_of,
}
use xyzzy.Run.Turns.{IsLockTable, active_in, found_lock, no_active_lock}

held :
    (branch_id : String) (o : Option TurnLock)
    → active_in branch_id o ≡ true
    → (a : TurnLock) × (o ≡ some a) × (a.branch_id ≡ branch_id) × (is_active a ≡ true)
held branch_id none h = cc
held branch_id (some a) h = elim (str a.branch_id branch_id) [
  | yes e ↦ (a, refl, e, ground arith)
  | no ne ↦ ground arith
]

same_scope : (o : Option Branch) (r s : String) → in_scope o r ≡ true → in_scope o s ≡ true → r ≡ s
same_scope none r s h h' = cc
same_scope (some b) r s h h' = ground arith

-- A branch has one active lock at most, for its room has.
one_lock :
    (db : RunRows) (branch_id : String)
    → IsLockTable db
    → (j k : String) → active_in branch_id (lookup str j db.turn_locks) ≡ true
    → active_in branch_id (lookup str k db.turn_locks) ≡ true
    → j ≡ k
one_lock db branch_id t j k h h' =
    let (a, hit, e, on) = held branch_id (lookup str j db.turn_locks) h in
    let (b, hit', e', on') = held branch_id (lookup str k db.turn_locks) h' in
    let here : in_scope (lookup str branch_id db.branches) a.scope_id ≡ true =
      subst (λ i. in_scope (lookup str i db.branches) a.scope_id ≡ true) e (t.in_room j a hit) in
    let there : in_scope (lookup str branch_id db.branches) b.scope_id ≡ true =
      subst (λ i. in_scope (lookup str i db.branches) b.scope_id ≡ true) e' (t.in_room k b hit') in
    t.one_active j k a b hit hit' on on'
      (same_scope (lookup str branch_id db.branches) a.scope_id b.scope_id here there)

released_here :
    (reason : String) (now : ℕ) (branch_id lock_id k : String) (o : Option TurnLock)
    → (active_in branch_id o ≡ true → k ≡ lock_id)
    → active_in branch_id
        (map_found (λ w. updated (ite (str k lock_id) true false) (released_lock reason now) w) o)
      ≡ false
released_here reason now branch_id lock_id k none h = refl
released_here reason now branch_id lock_id k (some a) h = elim (str k lock_id) [
  | yes e ↦ ground arith
  | no ne ↦ elim (Bool-cases (holds branch_id a)) [
    | inl on ↦ absurd (ne (h on))
    | inr off ↦ ground arith
  ]
]

release_lock-Quiet :
    (db : RunRows) (branch_id room_id : String) (status : BranchStatus) (actor_id : String)
    (now : ℕ)
    → IsLockTable db
    → (k : String)
    → active_in branch_id
        (lookup str k (release_lock_of db branch_id room_id status actor_id now).0.turn_locks)
      ≡ false
unfolding release_lock_of
release_lock-Quiet db branch_id room_id status actor_id now t k =
    by_lock (active_lock_of branch_id db.turn_locks) refl
  where
    by_lock :
        (o : Option String)
        → active_lock_of branch_id db.turn_locks ≡ o
        → active_in branch_id
            (lookup str k (release_row db branch_id room_id status actor_id now o).0.turn_locks)
          ≡ false
    by_lock none e = no_active_lock branch_id db.turn_locks e k
    by_lock (some lock_id) e =
        rw
          (lookup-update_all str (λ (i : String) (_ : TurnLock). ite (str i lock_id) true false)
            (released_lock (branch_status_value status) now) k db.turn_locks)
          (released_here (branch_status_value status) now branch_id lock_id k
            (lookup str k db.turn_locks)
            (λ on.
              one_lock db branch_id t k lock_id on
                (found_lock branch_id lock_id db.turn_locks t.keyed e)))

-- What the end of a branch has done, for the statuses of its executions.
pub record IsEnded (db' : RunRows) (branch_id : String) (statuses : List ExecutionStatus)
    : Type 0 where
  pub row : Branch
  pub stored : lookup str branch_id db'.branches ≡ some row
  pub agrees : Agrees row.status statuses
  pub over : is_ended row.status ≡ true
  pub quiet : (k : String) → active_in branch_id (lookup str k db'.turn_locks) ≡ false

release_lock_of-branches :
    (db : RunRows) (branch_id room_id : String) (status : BranchStatus) (actor_id : String)
    (now : ℕ)
    → (release_lock_of db branch_id room_id status actor_id now).0.branches ≡ db.branches
unfolding release_lock_of
release_lock_of-branches db branch_id room_id status actor_id now =
    by_lock (active_lock_of branch_id db.turn_locks)
  where
    by_lock :
        (o : Option String)
        → (release_row db branch_id room_id status actor_id now o).0.branches ≡ db.branches
    by_lock none = refl
    by_lock (some lock_id) = refl

in_scope-insert :
    (branch_id : String) (old new : Branch) (branches : List (String × Branch))
    → lookup str branch_id branches ≡ some old
    → old.room_id ≡ new.room_id
    → (i s : String)
    → in_scope (lookup str i (insert str branch_id new branches)) s
      ≡ in_scope (lookup str i branches) s
in_scope-insert branch_id old new branches hit e i s = elim (str i branch_id) [
  | yes ei ↦
      ap (λ j. in_scope (lookup str j (insert str branch_id new branches)) s) ei
      ∙ (ap (λ o. in_scope o s) (lookup-insert_self str branch_id new branches)
          ∙ (ap (λ r. ite (str r s) true false) (sym e)
              ∙ (ap (λ o. in_scope o s) (sym hit)
                  ∙ ap (λ j. in_scope (lookup str j branches) s) (sym ei))))
  | no ne ↦ ap (λ o. in_scope o s) (lookup-insert_ne str branch_id i new branches ne)
]

pub with_branch_row-IsLockTable :
    (db : RunRows) (branch_id : String) (old new : Branch)
    → IsLockTable db
    → lookup str branch_id db.branches ≡ some old
    → old.room_id ≡ new.room_id
    → IsLockTable (record db { branches = insert str branch_id new db.branches })
with_branch_row-IsLockTable db branch_id old new t hit e = record {
  keyed = t.keyed;
  one_active = t.one_active;
  in_room = λ k a h.
      in_scope-insert branch_id old new db.branches hit e a.branch_id a.scope_id ∙ t.in_room k a h;
}

end_branch-IsEnded :
    (db : RunRows) (branch_id : String) (branch : Branch) (room_id : String) (status : BranchStatus)
    (actor_id : String) (now : ℕ) (statuses : List ExecutionStatus)
    → IsLockTable db
    → lookup str branch_id db.branches ≡ some branch
    → Agrees status statuses
    → IsEnded (end_branch db branch_id branch room_id status actor_id now).0 branch_id statuses
unfolding end_branch
end_branch-IsEnded db branch_id branch room_id status actor_id now statuses t hit a =
    let ended = record branch { status = status; updated_at = now; completed_at = some now } in
    let mid = record db { branches = insert str branch_id ended db.branches } in
    let table : IsLockTable mid =
      with_branch_row-IsLockTable db branch_id branch ended t hit refl in
    record {
      row = ended;
      stored =
          ap (lookup str branch_id)
            (release_lock_of-branches mid branch_id room_id status actor_id now)
          ∙ lookup-insert_self str branch_id ended db.branches;
      agrees = a;
      over = Agrees-is_ended status statuses a;
      quiet = release_lock-Quiet mid branch_id room_id status actor_id now table;
    }

-- A managed branch that has not ended ends as soon as every one of its executions has: its status
-- then says what they came to (one outcome that they share, or that they differ), and the room's
-- turn is no longer with it. Before that nothing changes and nothing is announced.
pub finish_managed_branch_lem :
    (db : RunRows) (branch_id room_id actor_id : String) (now : ℕ) (branch : Branch)
    → IsLockTable db
    → lookup str branch_id db.branches ≡ some branch
    → branch.lifecycle_managed ≡ true
    → is_ended branch.status ≡ false
    → (first : ExecutionStatus) (rest : List ExecutionStatus)
    → statuses_of branch_id db.executions ≡ first ∷ rest
    → ((all_terminal (first ∷ rest) ≡ true)
        → IsEnded
            (finish_managed_branch_if_terminal db branch_id room_id actor_id now).0
            branch_id
            (first ∷ rest))
      × ((all_terminal (first ∷ rest) ≡ false)
          → finish_managed_branch_if_terminal db branch_id room_id actor_id now ≡ (db, []))
unfolding finish_managed_branch_if_terminal
finish_managed_branch_lem db branch_id room_id actor_id now branch t hit managed live first rest
      own =
    (
      λ done.
          let ends : finish_managed_branch_if_terminal db branch_id room_id actor_id now
              ≡ end_branch db branch_id branch room_id (derived_status first rest) actor_id now =
            ground arith in
          subst (λ (r : RunRows × List Notice). IsEnded r.0 branch_id (first ∷ rest)) (sym ends)
            (end_branch-IsEnded db branch_id branch room_id (derived_status first rest) actor_id now
              (first ∷ rest) t hit (derived-Agrees first rest done)),
      λ going. ground arith,
    )

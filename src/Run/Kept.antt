-- ===== src/Run/Kept.antt =====
-- What the settlement of an envelope and the end of a branch leave alone.
use xyzzy.Run.Finish.{append_notices, settle_and_finish}
use mathlib.Core.Option.{some-injective}
use xyzzy.Prelude.{
  Bool, Bool-cases, List, Option, Option-cases, Result, String, [], ap, arith, err, false, if_pos,
  if◌then◌else◌, inl, inr, insert, lookup, lookup-insert_ne, lookup-insert_self, map, none, not, ok,
  refl, some, str, subst, sym, true, ℕ, ◌++◌, ◌>>=◌, ◌∙◌, ◌∷◌, ◌≡◌, ◌≢◌,
}
use xyzzy.Models.{BranchStatus, ExecutionStatus, RunSettlement, settled}
use xyzzy.Run.{AgentRun, Branch, HarnessState-discrete, Notice, RunError, RunRows, given}
use xyzzy.Events.{RoomEvent}
use xyzzy.Run.Envelope.{is_settled, settle_agent_run_in_transaction, settled_run}
use xyzzy.Run.Branches.{
  active_lock_of, all_terminal, derived_status, end_branch, finish_managed_branch_if_terminal,
  finish_owned, finish_row, is_ended, release_lock_of, release_row, statuses_of,
}

-- The end of a managed branch changes nothing, or ends the branch that the row shows.
pub finish-cases {ℓ} :
    (P : RunRows → Type ℓ) (db : RunRows) (branch_id room_id actor_id : String) (now : ℕ)
    → P db
    → ((branch : Branch) (status : BranchStatus)
        → lookup str branch_id db.branches ≡ some branch
        → P (end_branch db branch_id branch room_id status actor_id now).0)
    → P (finish_managed_branch_if_terminal db branch_id room_id actor_id now).0
unfolding finish_managed_branch_if_terminal
finish-cases P db branch_id room_id actor_id now same ended =
    by_row (lookup str branch_id db.branches) refl
  where
    by_done :
        (branch : Branch) (first : ExecutionStatus) (rest : List ExecutionStatus) (b : Bool)
        → lookup str branch_id db.branches ≡ some branch
        → P
            (if b
              then (db, [])
              else end_branch db branch_id branch room_id
                  (derived_status first rest)
                  actor_id
                  now).0
    by_done branch first rest true e = same
    by_done branch first rest false e = ended branch (derived_status first rest) e

    by_owned :
        (branch : Branch) (ss : List ExecutionStatus)
        → lookup str branch_id db.branches ≡ some branch
        → P (finish_owned db branch_id branch room_id actor_id now ss).0
    by_owned branch [] e = same
    by_owned branch (first ∷ rest) e =
        by_done branch first rest (not (all_terminal (first ∷ rest))) e

    by_tests :
        (branch : Branch) (b c : Bool)
        → lookup str branch_id db.branches ≡ some branch
        → P
            (if b
              then (db, [])
              else if c
              then (db, [])
              else finish_owned db branch_id branch room_id actor_id now
                  (statuses_of branch_id db.executions)).0
    by_tests branch true c e = same
    by_tests branch false true e = same
    by_tests branch false false e = by_owned branch (statuses_of branch_id db.executions) e

    by_row :
        (o : Option Branch)
        → lookup str branch_id db.branches ≡ o
        → P (finish_row db branch_id room_id actor_id now o).0
    by_row none e = same
    by_row (some branch) e =
        by_tests branch (not branch.lifecycle_managed) (is_ended branch.status) e

-- The executions and the envelopes are as they were.
pub record IsKept (db db' : RunRows) : Type 0 where
  pub executions_kept : db'.executions ≡ db.executions
  pub runs_kept : db'.agent_runs ≡ db.agent_runs

release_row-IsKept :
    (db : RunRows) (branch_id room_id : String) (status : BranchStatus) (actor_id : String)
    (now : ℕ) (o : Option String)
    → IsKept db (release_row db branch_id room_id status actor_id now o).0
release_row-IsKept db branch_id room_id status actor_id now none = record {
  executions_kept = refl;
  runs_kept = refl;
}
release_row-IsKept db branch_id room_id status actor_id now (some lock_id) = record {
  executions_kept = refl;
  runs_kept = refl;
}

pub finish-IsKept :
    (db : RunRows) (branch_id room_id actor_id : String) (now : ℕ)
    → IsKept db (finish_managed_branch_if_terminal db branch_id room_id actor_id now).0
unfolding end_branch release_lock_of
finish-IsKept db branch_id room_id actor_id now =
    finish-cases (IsKept db) db branch_id room_id actor_id now
      (record { executions_kept = refl; runs_kept = refl })
      (λ branch status hit.
        let ended = record branch { status = status; updated_at = now; completed_at = some now } in
        let mid = record db { branches = insert str branch_id ended db.branches } in
        let k =
          release_row-IsKept mid branch_id room_id status actor_id now
            (active_lock_of branch_id db.turn_locks) in
        record { executions_kept = k.executions_kept; runs_kept = k.runs_kept })

-- A settlement that returns has settled the envelope, where there is one, and no other.
pub record IsSettling (db : RunRows) (execution_id : String) (db' : RunRows) : Type 0 where
  pub same_executions : db'.executions ≡ db.executions
  pub settled_here :
      (run : AgentRun) → lookup str execution_id db'.agent_runs ≡ some run → is_settled run ≡ true
  pub others_kept :
      (j : String) → j ≢ execution_id → lookup str j db'.agent_runs ≡ lookup str j db.agent_runs

settled_run-is_settled :
    (run : AgentRun) (settlement : RunSettlement) (now : ℕ)
    → is_settled (settled_run run settlement now) ≡ true
unfolding is_settled
settled_run-is_settled run settlement now =
    if_pos (HarnessState-discrete settled settled) refl true false

pub settle-IsSettling :
    (db : RunRows) (execution_id : String) (settlement : RunSettlement) (decided_by : String)
    (lease : Option ℕ) (message_id : String) (now : ℕ) (db' : RunRows) (notices : List Notice)
    → settle_agent_run_in_transaction db execution_id settlement decided_by lease message_id now
      ≡ ok (db', notices)
    → IsSettling db execution_id db'
unfolding settle_agent_run_in_transaction
settle-IsSettling db execution_id settlement decided_by lease message_id now db' notices h =
    elim (Option-cases (lookup str execution_id db.agent_runs)) [
      | inl missing ↦
          let d : db' ≡ db = ground arith in
          subst (IsSettling db execution_id) (sym d) (record {
            same_executions = refl;
            settled_here = λ run hit. cc;
            others_kept = λ j ne. refl;
          })
      | inr (run, found) ↦ elim (Bool-cases (is_settled run)) [
        | inl done ↦
            let d : db' ≡ db = ground arith in
            subst (IsSettling db execution_id) (sym d) (record {
              same_executions = refl;
              settled_here = λ run' hit.
                  subst (λ r. is_settled r ≡ true) (some-injective run run' (sym found ∙ hit)) done;
              others_kept = λ j ne. refl;
            })
        | inr live ↦
            let runs : db'.agent_runs
                ≡ insert str execution_id (settled_run run settlement now) db.agent_runs =
              ground arith in
            record {
              same_executions = ground arith;
              settled_here = λ run' hit.
                  subst (λ r. is_settled r ≡ true)
                    (some-injective (settled_run run settlement now) run' (
                      sym (
                        lookup-insert_self str execution_id (settled_run run settlement now)
                          db.agent_runs)
                      ∙ (ap (lookup str execution_id) (sym runs) ∙ hit)))
                    (settled_run-is_settled run settlement now);
              others_kept = λ j ne.
                  ap (lookup str j) runs
                  ∙ lookup-insert_ne str execution_id j (settled_run run settlement now)
                      db.agent_runs ne;
            }
      ]
    ]

-- The same for the settlement followed by the end of the branch.
pub settle_and_finish-IsSettling :
    (db : RunRows) (execution_id : String) (settlement : RunSettlement) (decided_by : String)
    (lease : Option ℕ) (branch_id room_id agent_id : String) (events : List RoomEvent)
    (message_id : String) (now : ℕ) (db' : RunRows)
    → settle_and_finish db execution_id settlement decided_by lease branch_id room_id agent_id
        events message_id now
      ≡ ok db'
    → IsSettling db execution_id db'
unfolding settle_and_finish append_notices
settle_and_finish-IsSettling db execution_id settlement decided_by lease branch_id room_id agent_id
      events message_id now db' h =
    by_settled
      (settle_agent_run_in_transaction db execution_id settlement decided_by lease message_id now)
      refl h
  where
    by_settled :
        (r : Result RunError (RunRows × List Notice))
        → settle_agent_run_in_transaction db execution_id settlement decided_by lease message_id now
          ≡ r
        → (do
          (db₁, settle_events) ← r
          let (db₂, branch_events) =
              finish_managed_branch_if_terminal db₁ branch_id room_id agent_id now
          ok (append_notices db₂ (map given events ++ (settle_events ++ branch_events))))
          ≡ ok db'
        → IsSettling db execution_id db'
    by_settled (err _) e h' = cc
    by_settled (ok (db₁, settle_events)) e h' =
        let s =
          settle-IsSettling db execution_id settlement decided_by lease message_id now db₁
            settle_events e in
        let k = finish-IsKept db₁ branch_id room_id agent_id now in
        let kept_runs = k.runs_kept in
        let kept_executions = k.executions_kept in
        let runs : db'.agent_runs ≡ db₁.agent_runs = ground arith in
        let executions : db'.executions ≡ db₁.executions = ground arith in
        record {
          same_executions = executions ∙ s.same_executions;
          settled_here =
              λ run hit. s.settled_here run (ap (lookup str execution_id) (sym runs) ∙ hit);
          others_kept = λ j ne. ap (lookup str j) runs ∙ s.others_kept j ne;
        }

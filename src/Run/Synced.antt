-- ===== src/Run/Synced.antt =====
-- The executions and their envelopes, over any sequence of writes.
use mathlib.Core.Option.{some-injective}
use xyzzy.Prelude.{
  Bool, List, Option, String, [], arith, false, insert, lookup, lookup-insert_all,
  lookup-update_all, map_found, none, ok, refl, some, str, subst, subst₂, sym, true, true≢false,
  update_all, updated, ◌∙◌, ◌∷◌, ◌≡◌,
}
use xyzzy.Models.{ExecutionStatus, is_terminal_status}
use xyzzy.Run.{AgentRun, Execution, RunRows, any_row, update_execution_where}
use xyzzy.Run.Envelope.{is_settled}
use xyzzy.Run.Endings.{IsEnd, update_execution-ok}

-- The envelope of an execution that has ended is settled.
abbrev pub IsSynced : RunRows → Type 0
IsSynced db =
    (id : String) (e : Execution) (run : AgentRun)
    → lookup str id db.executions ≡ some e
    → is_terminal_status e.status ≡ true
    → lookup str id db.agent_runs ≡ some run
    → is_settled run ≡ true

-- A row is written whose execution has not ended, or whose envelope is settled.
pub insert_row-IsSynced :
    (db : RunRows) (id : String) (new : Execution)
    → IsSynced db
    → (is_terminal_status new.status ≡ true
        → (run : AgentRun) → lookup str id db.agent_runs ≡ some run
        → is_settled run ≡ true)
    → IsSynced (record db { executions = insert str id new db.executions })
insert_row-IsSynced db id new v h = λ j e run hit over found.
    lookup-insert_all str
      (λ i (x : Execution).
        is_terminal_status x.status ≡ true
        → (r : AgentRun) → lookup str i db.agent_runs ≡ some r
        → is_settled r ≡ true)
      id new db.executions (λ i x hit' over' r found'. v i x r hit' over' found') h j e hit over run
      found

pub update_row-IsSynced :
    (db : RunRows) (id : String) (expected : ExecutionStatus) (change : Execution → Execution)
    (db' : RunRows)
    → update_execution_where db id expected change ≡ ok db'
    → ((e : Execution) → is_terminal_status (change e).status ≡ false)
    → IsSynced db
    → IsSynced db'
update_row-IsSynced db id expected change db' h live v =
    let (e, hit, was, d) = update_execution-ok db id expected change {db' = db'} h in
    subst IsSynced (sym d) (
      insert_row-IsSynced db id (change e) v
        (λ over run found. absurd (true≢false (sym over ∙ live e))))

pub same_status-IsSynced :
    (db : RunRows) (id : String) (old new : Execution)
    → lookup str id db.executions ≡ some old
    → new.status ≡ old.status
    → IsSynced db
    → IsSynced (record db { executions = insert str id new db.executions })
same_status-IsSynced db id old new hit same v =
    insert_row-IsSynced db id new v (λ over run found.
      v id old run hit (subst (λ s. is_terminal_status s ≡ true) same over) found)

pub end-IsSynced :
    (db : RunRows) (id : String) (expected : ExecutionStatus) (db' : RunRows)
    → IsEnd db id expected db'
    → IsSynced db
    → IsSynced db'
end-IsSynced db id expected db' x v j e run hit over found = elim (str j id) [
  | yes same ↦ x.settled_after run (subst (λ i. lookup str i db'.agent_runs ≡ some run) same found)
  | no ne ↦ v j e run (sym (x.other_executions j ne) ∙ hit) over (sym (x.other_runs j ne) ∙ found)
]

-- The settled envelopes stay so.
pub update_runs-IsSynced :
    (db : RunRows) (p : String → AgentRun → Bool) (change : AgentRun → AgentRun)
    → ((k : String) (run : AgentRun)
        → lookup str k db.agent_runs ≡ some run
        → is_settled run ≡ true
        → is_settled (updated (p k run) change run) ≡ true)
    → IsSynced db
    → IsSynced (record db { agent_runs = update_all p change db.agent_runs })
update_runs-IsSynced db p change stays v id e run hit over found =
    by_old (lookup str id db.agent_runs) refl
      (sym (lookup-update_all str p change id db.agent_runs) ∙ found)
  where
    by_old :
        (o : Option AgentRun)
        → lookup str id db.agent_runs ≡ o
        → map_found (λ r. updated (p id r) change r) o ≡ some run
        → is_settled run ≡ true
    by_old none old h = cc
    by_old (some r) old h =
        subst (λ x. is_settled x ≡ true) (some-injective (updated (p id r) change r) run h)
          (stays id r old (v id e r hit over old))

pub any_row-no :
    (p : String → AgentRun → Bool) (d : List (String × AgentRun))
    → any_row p d ≡ false
    → (k : String) (r : AgentRun) → lookup str k d ≡ some r
    → p k r ≡ false
unfolding lookup
any_row-no p [] h k r hit = cc
any_row-no p ((j, x) ∷ d) h k r hit = elim (str k j) [
  | yes e ↦
      let row : x ≡ r = ground arith in
      let no : p j x ≡ false = ground arith in subst₂ (λ i y. p i y ≡ false) (sym e) row no
  | no ne ↦ any_row-no p d (ground arith) k r (ground arith)
]

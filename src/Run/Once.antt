-- ===== src/Run/Once.antt =====
-- The ends of an execution, one after another.
use mathlib.Core.Option.{some-injective}
use xyzzy.Prelude.{
  List, Option, Result, String, ap, err, false, lookup, ok, refl, str, subst, sym, true, true≢false,
  ℕ, ◌∙◌, ◌≡◌,
}
use xyzzy.Models.{ExecutionStatus, RunSettlement, is_terminal_status}
use xyzzy.Events.{RoomEvent}
use xyzzy.Run.{Execution, Message, RunError, RunRows}
use xyzzy.Run.Finish.{AgentOutput, complete_execution, terminalize_without_output}
use xyzzy.Run.Endings.{IsEnd, terminalize-IsEnd}
use xyzzy.Run.Completing.{complete-IsEnd}

-- A call that ends an execution, with what its caller read.
pub data EndWrite : Type 0 where
  without_output :
      Execution
      → ExecutionStatus
      → String
      → List RoomEvent
      → Option RunSettlement
      → String
      → Option ℕ
      → EndWrite
  with_output :
      AgentOutput → List RoomEvent → ExecutionStatus → Option (Message × RoomEvent) → ℕ → EndWrite

unfoldable pub end_write : RunRows → EndWrite → String → ℕ → Result RunError RunRows
end_write db (without_output execution status error events settlement decided_by lease) message_id
      now =
    terminalize_without_output db execution status error events settlement decided_by lease
      message_id now
end_write db (with_output output events expected message token_usage) message_id now =
    complete_execution db output events expected message token_usage message_id now

abbrev pub ended_id : EndWrite → String
ended_id (without_output execution _ _ _ _ _ _) = execution.execution_id
ended_id (with_output output _ _ _ _) = output.execution_id

abbrev pub read_status : EndWrite → ExecutionStatus
read_status (without_output execution _ _ _ _ _ _) = execution.status
read_status (with_output _ _ expected _ _) = expected

pub end_write-IsEnd :
    (db : RunRows) (w : EndWrite) (message_id : String) (now : ℕ) (db' : RunRows)
    → end_write db w message_id now ≡ ok db'
    → IsEnd db (ended_id w) (read_status w) db'
unfolding end_write
end_write-IsEnd db (without_output execution status error events settlement decided_by lease)
      message_id now db' h =
    terminalize-IsEnd db execution status error events settlement decided_by lease message_id now
      db' h
end_write-IsEnd db (with_output output events expected message token_usage) message_id now db' h =
    complete-IsEnd db output events expected message token_usage message_id now db' h

-- An execution ends once. After a call that ended it, with an output or without, every further call
-- to end the same execution by a caller that had read it while it was still open is refused, whatever
-- else the call asks for.
pub ends_once :
    (db : RunRows) (w : EndWrite) (message_id : String) (now : ℕ) (db' : RunRows)
    → end_write db w message_id now ≡ ok db'
    → (w' : EndWrite) (message_id' : String) (now' : ℕ) → ended_id w' ≡ ended_id w
    → is_terminal_status (read_status w') ≡ false
    → (e : RunError) × (end_write db' w' message_id' now' ≡ err e)
ends_once db w message_id now db' h w' message_id' now' same open_before =
    by_result (end_write db' w' message_id' now') refl
  where
    by_result :
        (r : Result RunError RunRows)
        → end_write db' w' message_id' now' ≡ r
        → (e : RunError) × (end_write db' w' message_id' now' ≡ err e)
    by_result (err e) eq = (e, eq)
    by_result (ok db'') eq =
        let x = end_write-IsEnd db w message_id now db' h in
        let y = end_write-IsEnd db' w' message_id' now' db'' eq in
        let row : x.after ≡ y.before =
          some-injective x.after y.before
            (sym x.stored ∙ (ap (λ i. lookup str i db'.executions) (sym same) ∙ y.found)) in
        let status : x.after.status ≡ read_status w' =
          ap (λ (r : Execution). r.status) row ∙ y.was in
        absurd
          (true≢false (sym (subst (λ s. is_terminal_status s ≡ true) status x.over) ∙ open_before))

-- ===== src/Run/Callers.antt =====
-- The humans on record as acting on an execution (`execution_callers`, written by `ExecutionRepo` of
-- src/multiplayer/db/repositories.py and by two triggers of the schema on `agent_runs`).
use xyzzy.Prelude.{
  Bool, List, String, [], contains, if◌then◌else◌, insert, ite, lookup, str, ◌++◌, ◌∷◌,
}
use xyzzy.Delegation.Rows.{rows_of}
use xyzzy.Run.{AgentRun}

abbrev pub callers_of : List (String × List String) → String → List String
callers_of callers execution_id = rows_of (lookup str execution_id callers)

abbrev pub with_caller : String → List String → List String
with_caller caller_id callers =
    if contains str caller_id callers then callers else callers ++ caller_id ∷ []

-- `INSERT OR IGNORE INTO execution_callers`, of a caller that is not empty
unfoldable pub insert_caller :
    String → String → List (String × List String) → List (String × List String)
insert_caller execution_id caller_id callers =
    ite (str caller_id "") callers
      (insert str execution_id (with_caller caller_id (callers_of callers execution_id)) callers)

-- The trigger `agent_runs_record_acting_caller`, of the runs that a write has changed.
unfoldable pub record_acting_callers :
    (String → AgentRun → Bool)
    → String
    → List (String × AgentRun)
    → List (String × List String)
    → List (String × List String)
unfolding insert_caller
record_acting_callers changed acting_user_id [] callers = callers
record_acting_callers changed acting_user_id ((execution_id, run) ∷ rest) callers =
    let later = record_acting_callers changed acting_user_id rest callers in
    if changed execution_id run then insert_caller execution_id acting_user_id later else later

-- The trigger `agent_runs_record_launch_caller`.
unfoldable pub record_launch_caller :
    String → AgentRun → List (String × List String) → List (String × List String)
unfolding insert_caller
record_launch_caller execution_id run callers =
    ite (str run.acting_user_id run.authorized_by) callers
      (insert_caller execution_id run.acting_user_id callers)

-- ===== src/Lib.antt =====
-- A verification library for the XYZZY server (src/multiplayer).
--
-- XYZZY lets people and agents share rooms. Whatever happens in a room is an event of the room's
-- hash-chained log; a run of an agent acts under the intersection of what five parties permit; one
-- agent may ask another, as a task with a state machine of its own; and the events reach the sockets
-- of a room through a hub with bounded queues. The files model these parts as functions on records
-- that hold the rows or the memory they read and write. An operation that raises returns `err`, and
-- with it no rows: the caller's transaction is rolled back.
--
--   * Prelude: shared names and lemmas. Tests: Boolean tests and equality of texts. Lists: lists with
--     native lengths. Sets: finite sets as lists read through membership. Dict: Python's dictionaries
--     as association lists. Outcome: results of calls that may raise.
--   * Models: closed vocabularies of src/multiplayer/domain/models.py.
--   * Json: the values of `json.loads`.
--   * Audit: `event_chain_hash`, `header_snapshot_hash`, `_redaction_marker`, `_announced_redactions`
--     of src/multiplayer/security/audit.py. Audit/Verify: the loop of `verify_event_chain` over one
--     room, one pass of which is `check_row`. Audit/Rooms: its end, where redactions left pending and
--     the room's counter are checked (`check_tail`), and its loop over the rooms. Audit/Linked states
--     the chain without the loop; Audit/Pass and Audit/Prefix take a walk apart at a row;
--     Audit/Commitment and Audit/Tamper are about changed logs.
--   * Events: `EventRepo` of src/multiplayer/db/repositories.py over the same rows, from the
--     allocation of a sequence to the chained insertion. Events/Added and Events/Append are about it
--     and the verifier together.
--   * Delegation: src/multiplayer/domain/agent_tasks.py, the states, transitions, negotiation and
--     bound; Delegation/Parts, the message parts; Delegation/Rows and Delegation/Rows/Settling,
--     `AgentTaskRepo` of src/multiplayer/db/repositories.py, with `settle_for_execution_in_transaction`
--     cut into its two ways of ending a task. Lifecycle, Chain, Rows/Guards, Rows/Invariant and
--     Rows/Settling/Outcome hold the proofs.
--   * Capability: src/multiplayer/security/capabilities.py; Capability/Bounds and Capability/Gateway
--     hold the proofs.
--   * Hub and Hub/Delivery: `RealtimeHub` of src/multiplayer/realtime/hub.py, with the queues in a
--     store, since subscriptions may share one. Hub/Fanout: `RedisFanout._handle_message`, the
--     message that `publish` sends and the delay of `_subscribe_forever`, of
--     src/multiplayer/realtime/fanout.py. Hub/Queues, Loss, Index, Revocation, Consistency, Reach,
--     Replay and Silence hold the proofs.
--   * Session: `UserSession`, `SessionRefreshToken` and `UserSessionRepo`; Session/Refresh,
--     `SessionService.refresh` with `_revalidate`, and Session/Idle, `note_used`, of
--     src/multiplayer/security/sessions.py. Session/Revoked, Rotation, Reuse and Provider hold the
--     proofs.
--   * Run: `Execution`, `AgentRun`, `Branch`, `TurnLock` of src/multiplayer/domain/models.py and
--     `ExecutionRepo` of src/multiplayer/db/repositories.py. Run/Callers: `execution_callers`, with the
--     two triggers that write it. Run/Envelope: `AgentRunRepo` and
--     `_settle_agent_run_in_transaction`. Run/Branches: `_finish_managed_branch_if_terminal`,
--     `TurnLockRepo` and `BranchRepo.update_status`. Run/Finish: `terminalize_without_output` and
--     `AgentOutputRepo.complete_execution`, which settle the envelope and the task that the run
--     answers (Delegation/Rows/Settling) and end the branch. Run/Start: `start_with_event` and
--     `bounding_principals`. An event before it has a sequence is a `Notice`; the append of Events
--     gives it one. Status, Turns, Ended, Reached, Kept, Endings, Completing, Once, Synced, Started,
--     History and Principals hold the proofs.
--   * Erasure: what `erase_user` of src/multiplayer/services/erasure.py does to a room's log, with
--     `EventRedactionRepo` of src/multiplayer/db/redactions.py. It writes the redactions that
--     Audit/Verify reads, and appends their announcement by Events. Redacted, Owing, Walked,
--     Announced, Stored, Step, Ready, Loop and Room hold the proofs.
--   * Reader: `get_room_events` of src/multiplayer/services/audit.py and the backfill of
--     src/multiplayer/realtime/websocket.py, over `list_since` of Events. Sorted, Pages and Backfill
--     hold the proofs.
--   * Records: the tasks and decisions of a room, from src/multiplayer/services/records.py with the
--     tables of src/multiplayer/services/_shared.py. Paths holds the paths through a table, Calls each
--     call, Moves the calls in any order.
--   * Tests: runs of the theorems at concrete inputs.
--
-- Constraints of the schema. Keys, the foreign keys from an event to its room and from a caller or a
-- run to its execution, and the triggers that write rows or refuse a move are part of the operations;
-- the other foreign keys are taken to hold.
--
-- Parameters. `digest` stands for SHA-256 over the JSON text of a list of fields; nothing is assumed
-- of it but, where a theorem says so, that it has no collision on the rows at hand. `loads` and
-- `dumps` stand for the standard parser and printer of JSON. `may_mutate` and `has_run_authority`
-- stand for the checks of membership and of a run's authorization that Records asks for. The clock,
-- new ids and new queues are arguments of the operations that take them. Each loop over a list is a
-- recursion on it. Two loops run on fuel: the pages of `get_room_events` on one more than its cap,
-- which is enough since each page but the last adds a row, and the backfill on fuel above the number
-- of rows to send.
--
-- Bounds. A queue holds 256 entries, and a chain of delegations has at most four hops below its root,
-- as in the source. Numbers are unbounded, as Python's are.
--
-- Not modelled: SQLite, HTTP, the sockets, Redis, the OpenID Connect exchange and the model
-- providers, which are I/O; logins and logouts, the sweeps of an erasure over the tables outside the
-- log, and the services above the rows. Of the modelled parts, log lines and the texts of messages
-- are left out, and so are the listing queries of `AgentTaskRepo`, `ExecutionRepo` and `BranchRepo`,
-- the redaction of an asker's parts, the creation of branches, and the artifacts, memories and
-- notifications beside the tasks and decisions.
pub mod Prelude
pub mod Models
pub mod Delegation
pub mod Json
pub mod Audit
pub mod Events
pub mod Capability
pub mod Hub
pub mod Session
pub mod Run
pub mod Erasure
pub mod Reader
pub mod Records
pub mod Tests

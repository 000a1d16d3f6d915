-- ===== src/Store/Sqlite.antt =====
-- `SqliteExecutionStore` of src/workspace_guard_mcp/execution_store.py on the tables of a database
-- with the current schema. Each method is one transaction: where it raises, nothing is written.
-- Failures of the database itself, such as a lock held too long, are left out.
pub mod Rows
pub mod Tables
pub mod RoundTrip
pub mod Selected
pub mod Inserted
pub mod Agrees
pub mod Rewritten
pub mod Kept
pub mod Changed
pub mod Simulated
pub mod Reads
pub mod Cancelled
pub mod Created
pub mod Runs
use sandboxed_workspace_mcp.Base.{
  is_nil, text_in, map, ℕ, suc, ◌+◌, Bool, true, false, not, ◌&&◌, Option, none, some, Result, ok,
  err, ◌>>=◌, ◌>>◌, raise_if, Text, List, [], ◌∷◌, ◌++◌, ltb, leb, length, filter, if◌then◌else◌,
}
use sandboxed_workspace_mcp.Dict.{lookup, insert}
use sandboxed_workspace_mcp.Execution.State.{
  ExecutionState, starting, running, cancelling, ExecutionReason, Error, value_error, store_error,
  duplicate_execution, unknown_execution, overflow_error, execution_conflict, is_terminal_state,
  ensure_execution_transition,
}
use sandboxed_workspace_mcp.Execution.Record.{ExecutionRecord}
use sandboxed_workspace_mcp.Store.Events.{
  Outcome, created_event, transition_event, cancellation_requested_event, transitioned_record,
}
use sandboxed_workspace_mcp.Store.History.{validate_event_history}
use sandboxed_workspace_mcp.Store.Memory.{
  Manifest, max_event_page_size, max_artifact_manifest_items, member, found,
  normalize_artifact_manifest, cancellation,
}
use sandboxed_workspace_mcp.Store.Queries.{ExecutionEventPage, page_of}
use sandboxed_workspace_mcp.Store.Sqlite.Rows.{
  state_value, resource_values, integers_fit, ExecutionRow, record_values, record_from_row,
  records_from_rows, events_from_rows,
}
use sandboxed_workspace_mcp.Store.Sqlite.Tables.{
  Database, order_by, by_sequence, events_of, next_sequence, insert_event, insert_manifest,
  update_execution, artifacts_of, delete_artifacts, insert_artifacts, set_complete, by_creation,
  row_order,
}

-- `_UNFINISHED_STATES`
abbrev pub unfinished_states : List ExecutionState
unfinished_states = starting ∷ running ∷ cancelling ∷ []

-- A transaction: committed where it ends, rolled back where it raises.
abbrev pub commit {ℓ} :
    {A : Type ℓ} → Result Error (A × Database) → Database → Result Error A × Database
commit (ok (a, after)) before = (ok a, after)
commit (err e) before = (err e, before)

unfoldable pub insert_execution : ExecutionRecord → Database → Result Error Database
insert_execution r d =
    if integers_fit r.exit_code (resource_values r.resources)
    then elim (lookup r.execution_id d.executions) [
      | some _ ↦ err duplicate_execution
      | none ↦ ok (record d { executions = insert r.execution_id (record_values r) d.executions })
    ]
    else err overflow_error

unfoldable pub create : ExecutionRecord → Database → Result Error (Unit {0}) × Database
create r d =
    commit
      (do
        event ← created_event r
        inserted ← insert_execution r d
        logged ← insert_event event inserted
        listed ← insert_manifest r.execution_id logged
        ok (tt, listed))
      d

unfoldable pub get : Text → Database → Result Error ExecutionRecord
get id d = do row ← found (lookup id d.executions) unknown_execution; record_from_row row

-- The guards that `transition` and `request_cancellation` share.
unfoldable pub expect :
    Text → List ExecutionState → ExecutionState → Database → Result Error ExecutionRecord
expect id expected new_state d = do
  raise_if (is_nil expected) value_error
  current ← get id d
  raise_if (not (member current.state expected)) execution_conflict
  ensure_execution_transition current.state new_state
  ok current

unfoldable pub write_manifest : Text → Option Manifest → Database → Result Error Database
write_manifest id none d = ok d
write_manifest id (some manifest) d = do
  artifacts ← insert_artifacts manifest (delete_artifacts id d.execution_artifacts)
  ok (record d {
    execution_artifacts = artifacts;
    execution_artifact_manifests = set_complete id d.execution_artifact_manifests;
  })

unfoldable pub run_transition :
    Text
    → List ExecutionState
    → ExecutionState
    → Outcome
    → Option Manifest
    → ℕ
    → Database
    → Result Error (ExecutionRecord × Database)
run_transition id expected new_state outcome artifacts time d = do
  current ← expect id expected new_state d
  updated ← transitioned_record current new_state outcome time
  manifest ← normalize_artifact_manifest id artifacts (is_terminal_state updated.state)
  event ← transition_event current updated (next_sequence id d.execution_events)
  changed ← update_execution id expected updated d
  logged ← insert_event event changed
  written ← write_manifest id manifest logged
  ok (updated, written)

unfoldable pub transition :
    Text
    → List ExecutionState
    → ExecutionState
    → Outcome
    → Option Manifest
    → ℕ
    → Database
    → Result Error ExecutionRecord × Database
transition id expected new_state outcome artifacts time d =
    commit (run_transition id expected new_state outcome artifacts time d) d

-- `time` is `time.time()`, read once.
unfoldable pub run_cancellation :
    Text
    → List ExecutionState
    → ExecutionReason
    → ℕ
    → Database
    → Result Error (ExecutionRecord × Database)
run_cancellation id expected reason time d = do
  current ← expect id expected cancelling d
  updated ← transitioned_record current cancelling (cancellation reason time) time
  requested ← cancellation_requested_event current reason (next_sequence id d.execution_events) time
  transitioned ← transition_event current updated (next_sequence id d.execution_events + 1)
  changed ← update_execution id expected updated d
  logged ← insert_event requested changed
  written ← insert_event transitioned logged
  ok (updated, written)

unfoldable pub request_cancellation :
    Text
    → List ExecutionState
    → ExecutionReason
    → ℕ
    → Database
    → Result Error ExecutionRecord × Database
request_cancellation id expected reason time d =
    commit (run_cancellation id expected reason time d) d

unfoldable pub rows_of : List (Text × ExecutionRow) → List ExecutionRow
rows_of [] = []
rows_of ((id, row) ∷ rows) = row ∷ rows_of rows

unfoldable pub list_unfinished : Database → Result Error (List ExecutionRecord)
list_unfinished d = records_from_rows (
    order_by row_order (
      filter (λ (row : ExecutionRow). text_in row.state (map state_value unfinished_states))
        (rows_of d.executions)))

unfoldable pub list_events : Text → ℕ → ℕ → Database → Result Error ExecutionEventPage
list_events id cursor limit d = do
  raise_if (not (leb 1 limit && leb limit max_event_page_size)) value_error
  row ← found (lookup id d.executions) unknown_execution
  r ← record_from_row row
  all_events ← events_from_rows (order_by by_sequence (events_of id d.execution_events))
  complete ← validate_event_history r all_events
  ok (page_of cursor limit all_events complete)

-- The checks of `list_artifacts` on what it has read.
unfoldable pub read_manifest : ExecutionRecord → Bool → Manifest → Result Error (Manifest × Bool)
read_manifest r complete artifacts = do
  raise_if (ltb max_artifact_manifest_items (length artifacts)) store_error
  raise_if (not complete && not (is_nil artifacts)) store_error
  raise_if (complete && not (is_terminal_state r.state)) store_error
  ok (artifacts, complete)

unfoldable pub list_artifacts : Text → Database → Result Error (Manifest × Bool)
list_artifacts id d = do
  row ← found (lookup id d.executions) unknown_execution
  complete ← found (lookup id d.execution_artifact_manifests) store_error
  r ← record_from_row row
  read_manifest r complete (order_by by_creation (artifacts_of id d.execution_artifacts))

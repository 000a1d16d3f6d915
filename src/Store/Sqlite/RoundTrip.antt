-- ===== src/Store/Sqlite/RoundTrip.antt =====
-- What is read back from the rows that are written (src/workspace_guard_mcp/execution_store.py).
use sandboxed_workspace_mcp.Base.{
  Text-discrete, ◌≡◌, refl, Option, none, some, ok, List, [], ◌∷◌, All,
}
use sandboxed_workspace_mcp.Execution.State.{
  ExecutionState, starting, running, cancelling, succeeded, failed, cancelled, timed_out, crashed,
  ExecutionReason, user_cancelled, client_cancelled, server_shutdown, timeout,
  workspace_limit_exceeded, artifact_limit_exceeded, artifact_policy_violation,
  artifact_collection_failed, output_limit_exceeded, runtime_start_failed, runtime_monitor_failed,
  cleanup_failed, server_restarted, ExecutionKind, task, profile, ExecutionMode, run, service,
}
use sandboxed_workspace_mcp.Execution.Record.{
  ExecutionResources, ExecutionRecord, validate_accounting, validate_record,
}
use sandboxed_workspace_mcp.Execution.Event.{ExecutionEvent, validate_event}
use sandboxed_workspace_mcp.Store.Sqlite.Rows.{
  kind_value, mode_value, state_value, reason_value, all_kinds, all_modes, all_states, all_reasons,
  member_of, reason_column, reason_from_row, resource_values, record_values, is_partial,
  required_columns, resources_from_row, record_from_row, event_from_row, events_from_rows,
}

-- Resources that their own model has accepted.
abbrev pub Accounted : Option ExecutionResources → Type 0
Accounted none = Unit
Accounted (some r) = validate_accounting r ≡ ok r

pub resources_from_row-resource_values :
    (resources : Option ExecutionResources)
    → Accounted resources
    → resources_from_row (resource_values resources) ≡ ok resources
unfolding resources_from_row resource_values is_partial required_columns
resources_from_row-resource_values none h = refl
resources_from_row-resource_values (some r) h = rw h refl

parse_kind : (k : ExecutionKind) → member_of kind_value all_kinds (kind_value k) ≡ some k
unfolding member_of kind_value Text-discrete
parse_kind task = refl
parse_kind profile = refl

parse_mode : (m : ExecutionMode) → member_of mode_value all_modes (mode_value m) ≡ some m
unfolding member_of mode_value Text-discrete
parse_mode run = refl
parse_mode service = refl

parse_state : (s : ExecutionState) → member_of state_value all_states (state_value s) ≡ some s
unfolding member_of state_value Text-discrete
parse_state starting = refl
parse_state running = refl
parse_state cancelling = refl
parse_state succeeded = refl
parse_state failed = refl
parse_state cancelled = refl
parse_state timed_out = refl
parse_state crashed = refl

parse_reason : (r : ExecutionReason) → member_of reason_value all_reasons (reason_value r) ≡ some r
unfolding member_of reason_value Text-discrete
parse_reason user_cancelled = refl
parse_reason client_cancelled = refl
parse_reason server_shutdown = refl
parse_reason timeout = refl
parse_reason workspace_limit_exceeded = refl
parse_reason artifact_limit_exceeded = refl
parse_reason artifact_policy_violation = refl
parse_reason artifact_collection_failed = refl
parse_reason output_limit_exceeded = refl
parse_reason runtime_start_failed = refl
parse_reason runtime_monitor_failed = refl
parse_reason cleanup_failed = refl
parse_reason server_restarted = refl

reason_from_row-reason_column :
    (o : Option ExecutionReason) → reason_from_row (reason_column o) ≡ ok o
unfolding reason_from_row
reason_from_row-reason_column none = refl
reason_from_row-reason_column (some r) = rw (parse_reason r) refl

-- A valid record with valid resources is read back from its row as it was.
pub record_from_row-record_values :
    (r : ExecutionRecord)
    → validate_record r ≡ ok r
    → Accounted r.resources
    → record_from_row (record_values r) ≡ ok r
unfolding record_from_row record_values
record_from_row-record_values r h accounted =
    rw
      (
        resources_from_row-resource_values r.resources accounted,
        parse_kind r.kind,
        parse_mode r.mode,
        parse_state r.state,
        reason_from_row-reason_column r.reason,
        h,
      )
      refl

abbrev pub IsValidEvent : ExecutionEvent → Type 0
IsValidEvent e = validate_event e ≡ ok e

pub events_from_rows-eq :
    (es : List ExecutionEvent) → All IsValidEvent es → events_from_rows es ≡ ok es
unfolding events_from_rows event_from_row
events_from_rows-eq [] v = refl
events_from_rows-eq (e ∷ es) v = rw (v.0, events_from_rows-eq es v.1) refl

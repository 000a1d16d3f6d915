-- ===== src/Execution/Event.antt =====
-- `ExecutionEvent` of src/workspace_guard_mcp/execution.py with its validator.
use sandboxed_workspace_mcp.Base.{
  ℕ, Bool, true, false, not, ◌&&◌, Option, none, some, Result, ok, err, ◌>>◌, Text, ite, leb,
  if◌then◌else◌,
}
use sandboxed_workspace_mcp.Execution.State.{
  ExecutionState, starting, running, ExecutionReason, Error, value_error, ExecutionState-discrete,
  is_cancellation_reason, present, validate_event_state_metadata, ensure_execution_transition,
}
use sandboxed_workspace_mcp.Execution.Record.{execution_id_bounded, error_summary_bounded}

pub data ExecutionEventType : Type 0 where
  created cancellation_requested state_transition : ExecutionEventType

pub record ExecutionEvent : Type 0 where
  pub execution_id : Text
  pub sequence : ℕ
  pub timestamp : ℕ
  pub event_type : ExecutionEventType
  pub from_state : Option ExecutionState
  pub to_state : ExecutionState
  pub reason : Option ExecutionReason
  pub error_summary : Option Text

unfoldable pub is_starting : ExecutionState → Bool
is_starting starting = true
is_starting _ = false

unfoldable pub is_cancellable : ExecutionState → Bool
is_cancellable starting = true
is_cancellable running = true
is_cancellable _ = false

-- `_validate_event_lifecycle`, branching on the type of the event and on `from_state`.
unfoldable pub event_lifecycle :
    ExecutionEventType
    → Option ExecutionState
    → ExecutionState
    → Option ExecutionReason
    → Option Text
    → Result Error (Unit {0})
unfolding is_starting is_cancellable
event_lifecycle created (some old) new reason summary = err value_error
event_lifecycle created none new reason summary =
    if is_starting new && (not (present reason) && not (present summary))
    then ok tt
    else err value_error
event_lifecycle cancellation_requested none new reason summary = err value_error
event_lifecycle cancellation_requested (some old) new reason summary =
    ite (ExecutionState-discrete old new)
      (if is_cancellable old && (is_cancellation_reason reason && not (present summary))
        then ok tt
        else err value_error)
      (err value_error)
event_lifecycle state_transition none new reason summary = err value_error
event_lifecycle state_transition (some old) new reason summary =
    ensure_execution_transition old new >> validate_event_state_metadata new reason summary

-- The construction of an event: its fields, then its lifecycle.
unfoldable pub validate_event : ExecutionEvent → Result Error ExecutionEvent
validate_event e =
    if execution_id_bounded e.execution_id
      && (leb 1 e.sequence && error_summary_bounded e.error_summary)
    then event_lifecycle e.event_type e.from_state e.to_state e.reason e.error_summary >> ok e
    else err value_error

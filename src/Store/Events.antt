-- ===== src/Store/Events.antt =====
-- The functions of src/workspace_guard_mcp/execution_store.py that build events and records.
use sandboxed_workspace_mcp.Base.{ℕ, Bool, true, false, Option, none, some, Result, ℤ}
use sandboxed_workspace_mcp.Execution.State.{
  ExecutionState, running, cancelling, succeeded, failed, cancelled, timed_out, crashed,
  ExecutionReason, Error, public_execution_error_summary,
}
use sandboxed_workspace_mcp.Execution.Record.{ExecutionResources, ExecutionRecord, validate_record}
use sandboxed_workspace_mcp.Execution.Event.{
  ExecutionEvent, created, cancellation_requested, state_transition, validate_event,
}

-- The events before their validation.
unfoldable pub created_event_of : ExecutionRecord → ExecutionEvent
created_event_of r = record {
  execution_id = r.execution_id;
  sequence = 1;
  timestamp = r.created_at;
  event_type = created;
  from_state = none;
  to_state = r.state;
  reason = r.reason;
  error_summary = r.error_summary;
}

unfoldable pub transition_event_of : ExecutionRecord → ExecutionRecord → ℕ → ExecutionEvent
transition_event_of current updated sequence = record {
  execution_id = updated.execution_id;
  sequence = sequence;
  timestamp = updated.updated_at;
  event_type = state_transition;
  from_state = some current.state;
  to_state = updated.state;
  reason = updated.reason;
  error_summary = updated.error_summary;
}

unfoldable pub cancellation_requested_event_of :
    ExecutionRecord → ExecutionReason → ℕ → ℕ → ExecutionEvent
cancellation_requested_event_of current reason sequence timestamp = record {
  execution_id = current.execution_id;
  sequence = sequence;
  timestamp = timestamp;
  event_type = cancellation_requested;
  from_state = some current.state;
  to_state = current.state;
  reason = some reason;
  error_summary = none;
}

-- `_created_event`, `_transition_event`, `_cancellation_requested_event`: the constructor validates.
unfoldable pub created_event : ExecutionRecord → Result Error ExecutionEvent
created_event r = validate_event (created_event_of r)

unfoldable pub transition_event :
    ExecutionRecord → ExecutionRecord → ℕ → Result Error ExecutionEvent
transition_event current updated sequence =
    validate_event (transition_event_of current updated sequence)

unfoldable pub cancellation_requested_event :
    ExecutionRecord → ExecutionReason → ℕ → ℕ → Result Error ExecutionEvent
cancellation_requested_event current reason sequence timestamp =
    validate_event (cancellation_requested_event_of current reason sequence timestamp)

-- The keyword arguments of `_transitioned_record`.
pub record Outcome : Type 0 where
  pub reason : Option ExecutionReason
  pub exit_code : Option ℤ
  pub resources : Option ExecutionResources
  pub started_at : Option ℕ
  pub finished_at : Option ℕ
  pub updated_at : Option ℕ

-- `current if given is None else given`
abbrev pub or_else {ℓ} : {A : Type ℓ} → Option A → Option A → Option A
or_else none current = current
or_else (some given) current = some given

abbrev pub value_or {ℓ} : {A : Type ℓ} → Option A → A → A
value_or none current = current
value_or (some given) current = given

-- `new_state in {RUNNING, CANCELLING}`
unfoldable pub starts : ExecutionState → Bool
starts running = true
starts cancelling = true
starts _ = false

unfoldable pub finishes : ExecutionState → Bool
finishes succeeded = true
finishes failed = true
finishes cancelled = true
finishes timed_out = true
finishes crashed = true
finishes _ = false

-- An absent timestamp is filled with `now` when the new state calls for it.
unfoldable pub fill : Bool → Option ℕ → ℕ → Option ℕ
fill wanted (some t) now = some t
fill true none now = some now
fill false none now = none

-- The values that `_transitioned_record` hands to `model_validate`.
unfoldable pub updated_values : ExecutionRecord → ExecutionState → Outcome → ℕ → ExecutionRecord
updated_values current new_state outcome time =
    let now = value_or outcome.updated_at time in
    record current {
      state = new_state;
      updated_at = now;
      started_at = fill (starts new_state) (or_else outcome.started_at current.started_at) now;
      finished_at = fill (finishes new_state) (or_else outcome.finished_at current.finished_at) now;
      exit_code = outcome.exit_code;
      reason = outcome.reason;
      error_summary = public_execution_error_summary new_state outcome.reason;
      resources = outcome.resources;
    }

-- `time` is what `time.time()` returns.
unfoldable pub transitioned_record :
    ExecutionRecord → ExecutionState → Outcome → ℕ → Result Error ExecutionRecord
transitioned_record current new_state outcome time =
    validate_record (updated_values current new_state outcome time)

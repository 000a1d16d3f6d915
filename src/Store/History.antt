-- ===== src/Store/History.antt =====
-- `_validate_event_history` of src/workspace_guard_mcp/execution_store.py.
use sandboxed_workspace_mcp.Base.{
  ℕ, suc, Bool, true, false, not, ◌&&◌, ◌||◌, Option, none, some, Result, ok, err, ◌>>=◌, Text,
  Text-discrete, Option-Text-discrete, List, [], ◌∷◌, ite, ltb, ◌==◌, if◌then◌else◌,
}
use sandboxed_workspace_mcp.Execution.State.{
  ExecutionState, starting, ExecutionReason, Error, store_error, ExecutionState-discrete,
  Option-ExecutionReason-discrete, ensure_execution_transition,
}
use sandboxed_workspace_mcp.Execution.Record.{ExecutionRecord}
use sandboxed_workspace_mcp.Execution.Event.{
  ExecutionEvent, ExecutionEventType, created, cancellation_requested, state_transition,
}

-- The variables of the loop.
pub record Replay : Type 0 where
  pub current_state : ExecutionState
  pub previous_timestamp : ℕ
  pub last_state_timestamp : ℕ
  pub last_state_reason : Option ExecutionReason
  pub last_state_error_summary : Option Text

unfoldable pub is_state : Option ExecutionState → ExecutionState → Bool
is_state none state = false
is_state (some other) state = ite (ExecutionState-discrete other state) true false

unfoldable pub is_created : ExecutionEventType → Bool
is_created created = true
is_created _ = false

-- The body of the loop behind its two tests, by the type of the event.
unfoldable pub replay_event : ExecutionEventType → Replay → ExecutionEvent → Result Error Replay
unfolding is_state
replay_event created h e = err store_error
replay_event cancellation_requested h e =
    if is_state e.from_state h.current_state && is_state (some e.to_state) h.current_state
    then ok (record h { previous_timestamp = e.timestamp })
    else err store_error
replay_event state_transition h e =
    if is_state e.from_state h.current_state
    then elim (ensure_execution_transition h.current_state e.to_state) [
      | ok _ ↦ ok (record {
        current_state = e.to_state;
        previous_timestamp = e.timestamp;
        last_state_timestamp = e.timestamp;
        last_state_reason = e.reason;
        last_state_error_summary = e.error_summary;
      })
      | err _ ↦ err store_error
    ]
    else err store_error

unfoldable pub replay_step : ℕ → Replay → ExecutionEvent → Result Error Replay
replay_step expected_sequence h e =
    if e.sequence == expected_sequence && not (ltb e.timestamp h.previous_timestamp)
    then (if expected_sequence == 1
        then ok (record h { previous_timestamp = e.timestamp })
        else replay_event e.event_type h e)
    else err store_error

-- `for expected_sequence, event in enumerate(events, start=…)`
unfoldable pub replay : ℕ → Replay → List ExecutionEvent → Result Error Replay
replay n h [] = ok h
replay n h (e ∷ es) = do h' ← replay_step n h e; replay (suc n) h' es

unfoldable pub replay_start : ExecutionEvent → Replay
replay_start first = record {
  current_state = starting;
  previous_timestamp = first.timestamp;
  last_state_timestamp = first.timestamp;
  last_state_reason = first.reason;
  last_state_error_summary = first.error_summary;
}

-- The comparison with the record after the loop.
unfoldable pub agrees : ExecutionRecord → Replay → Bool
agrees r h =
    ite (ExecutionState-discrete h.current_state r.state)
      (h.last_state_timestamp == r.updated_at
        && ite (Option-ExecutionReason-discrete h.last_state_reason r.reason)
            (ite (Option-Text-discrete h.last_state_error_summary r.error_summary) true false)
            false)
      false

unfoldable pub all_of_execution : Text → List ExecutionEvent → Bool
all_of_execution id [] = true
all_of_execution id (e ∷ es) =
    ite (Text-discrete e.execution_id id) true false && all_of_execution id es

unfoldable pub any_created : List ExecutionEvent → Bool
unfolding is_created
any_created [] = false
any_created (e ∷ es) = is_created e.event_type || any_created es

-- `false` is a history whose beginning is lost, as after the upgrade of an old database.
unfoldable pub validate_event_history : ExecutionRecord → List ExecutionEvent → Result Error Bool
validate_event_history r [] = ok false
validate_event_history r (first ∷ rest) =
    if all_of_execution r.execution_id (first ∷ rest)
    then (if first.sequence == 1 && is_created first.event_type
        then (if first.timestamp == r.created_at
            then (do
              h ← replay 1 (replay_start first) (first ∷ rest)
              if agrees r h then ok true else err store_error)
            else err store_error)
        else if any_created (first ∷ rest)
        then err store_error
        else ok false)
    else err store_error

-- ===== src/Store/Written.antt =====
-- The records and events that a transition of src/workspace_guard_mcp/execution_store.py writes.
use sandboxed_workspace_mcp.Base.{ℕ, suc, ◌≡◌, refl, sym, subst, true, none, some, ok, arith}
use sandboxed_workspace_mcp.Execution.State.{
  ExecutionState, starting, cancelling, ExecutionReason, ensure_execution_transition, event_reason,
  public_execution_error_summary, validate_public_error_summary, validate_event_state_metadata,
  is_cancellation_reason, allowed, ExecutionState-discrete,
}
use sandboxed_workspace_mcp.Execution.Record.{
  ExecutionRecord, validate_record, validate_lifecycle, execution_id_bounded, error_summary_bounded,
}
use sandboxed_workspace_mcp.Execution.Event.{validate_event, event_lifecycle}
use sandboxed_workspace_mcp.Execution.Validation.{IsWellFormed, validate_record-IsWellFormed}
use sandboxed_workspace_mcp.Store.Events.{
  Outcome, created_event_of, transition_event_of, cancellation_requested_event_of, created_event,
  transition_event, cancellation_requested_event, updated_values, transitioned_record, value_or,
}

-- Validation hands back the record that it was given.
pub validate_record-eq :
    (r : ExecutionRecord) {r' : ExecutionRecord} → validate_record r ≡ ok r' → r' ≡ r
unfolding validate_record validate_lifecycle
validate_record-eq r h = ground arith

pub validate_record_self :
    (r : ExecutionRecord) {r' : ExecutionRecord}
    → validate_record r ≡ ok r'
    → validate_record r ≡ ok r
validate_record_self r h = ground (arith, validate_record-eq r h)

-- What `_transitioned_record` keeps of the current record and takes from its arguments.
pub record IsWritten (current : ExecutionRecord) (state : ExecutionState) (outcome : Outcome)
    (time : ℕ) (updated : ExecutionRecord) : Type 0 where
  pub id : updated.execution_id ≡ current.execution_id
  pub new_state : updated.state ≡ state
  pub created : updated.created_at ≡ current.created_at
  pub moment : updated.updated_at ≡ value_or outcome.updated_at time
  pub cause : updated.reason ≡ outcome.reason
  pub summary : updated.error_summary ≡ public_execution_error_summary updated.state updated.reason
  pub well_formed : IsWellFormed updated
  pub validated : validate_record updated ≡ ok updated

module _ (current : ExecutionRecord) (state : ExecutionState) (outcome : Outcome) (time : ℕ) where
  updated_values-IsWritten :
      validate_record (updated_values current state outcome time)
        ≡ ok (updated_values current state outcome time)
      → IsWritten current state outcome time (updated_values current state outcome time)
  unfolding updated_values
  updated_values-IsWritten h = record {
    id = refl;
    new_state = refl;
    created = refl;
    moment = refl;
    cause = refl;
    summary = refl;
    well_formed = validate_record-IsWellFormed _ h;
    validated = h;
  }

  -- A record that `_transitioned_record` returns is the one it computed, and is well formed.
  pub transitioned_record-IsWritten :
      {updated : ExecutionRecord}
      → transitioned_record current state outcome time ≡ ok updated
      → IsWritten current state outcome time updated
  unfolding transitioned_record
  transitioned_record-IsWritten {updated} h =
      let e : updated ≡ updated_values current state outcome time = validate_record-eq _ h in
      subst (IsWritten current state outcome time) (sym e)
        (updated_values-IsWritten (validate_record_self _ h))

-- The event of a permitted transition to a well-formed record passes the event's own validation, for
-- each positive sequence number.
pub transition_event-total :
    (current updated : ExecutionRecord) (n : ℕ)
    → ensure_execution_transition current.state updated.state ≡ ok tt
    → IsWellFormed updated
    → transition_event current updated (suc n) ≡ ok (transition_event_of current updated (suc n))
unfolding transition_event transition_event_of validate_event event_lifecycle
    validate_event_state_metadata validate_public_error_summary
transition_event-total current updated n permitted w =
    ground (arith, w.id_bounded, w.summary_bounded, w.reason_fits, w.summary_canonical)

created_event-total :
    (r : ExecutionRecord)
    → IsWellFormed r
    → r.state ≡ starting
    → r.error_summary ≡ none
    → created_event r ≡ ok (created_event_of r)
unfolding created_event created_event_of validate_event event_lifecycle event_reason
created_event-total r w fresh quiet = ground (arith, w.id_bounded, w.summary_bounded, w.reason_fits)

-- The second event of a cancellation is refused only where the first one is.
pub cancellation_requested_event-total :
    (current : ExecutionRecord) (reason : ExecutionReason) (n time : ℕ)
    → execution_id_bounded current.execution_id ≡ true
    → ensure_execution_transition current.state cancelling ≡ ok tt
    → is_cancellation_reason (some reason) ≡ true
    → cancellation_requested_event current reason (suc n) time
      ≡ ok (cancellation_requested_event_of current reason (suc n) time)
unfolding cancellation_requested_event cancellation_requested_event_of validate_event
    event_lifecycle ensure_execution_transition allowed error_summary_bounded
    ExecutionState-discrete
cancellation_requested_event-total current reason n time bounded permitted cause = ground arith

-- ===== src/Tests/StoreRuns.antt =====
-- The theorems on executions and their store, applied to runs.
use sandboxed_workspace_mcp.Base.{
  text_in, ◌≡◌, ◌≢◌, refl, Bool, true, false, if◌then◌else◌, some, none, ok, err, Text, List, [],
  ◌∷◌, ◌++◌, arith, ◌≤◌, Text-discrete, Option-Text-discrete, utf8_size, utf8_width, is_zero,
}
use sandboxed_workspace_mcp.Dict.{lookup, insert, erase}
use sandboxed_workspace_mcp.Execution.State.{
  starting, running, timed_out, timeout, execution_conflict, store_error,
  ensure_execution_transition, is_terminal_state, allowed, ExecutionState-discrete,
  Option-ExecutionReason-discrete, is_cancellation_reason, is_failed_reason, is_crash_reason,
  is_timeout_reason, public_summary, public_execution_error_summary, validate_public_error_summary,
  event_reason, validate_event_state_metadata,
}
use sandboxed_workspace_mcp.Execution.Record.{
  ExecutionRecord, validate_record, bounded_text, bounded_option, execution_id_bounded,
  error_summary_bounded, fields_bounded, started_in_order, finished_in_order, times_in_order,
  terminal_fields, exit_is, is_early_crash, state_fields, validate_lifecycle,
}
use sandboxed_workspace_mcp.Execution.Event.{
  ExecutionEvent, is_starting, is_cancellable, event_lifecycle, validate_event,
}
use sandboxed_workspace_mcp.Execution.Validation.{IsWellFormed, validate_record-IsWellFormed}
use sandboxed_workspace_mcp.Execution.Lifecycle.{here, next, Reaches-bounded}
use sandboxed_workspace_mcp.Store.Events.{
  transition_event, transition_event_of, transitioned_record, created_event_of, created_event,
  starts, finishes, fill, updated_values,
}
use sandboxed_workspace_mcp.Store.History.{validate_event_history}
use sandboxed_workspace_mcp.Store.Memory.{
  Store, create, get, transition, prune, member, expect, check_artifacts,
  normalize_artifact_manifest, add_record, forget, forget_terminal, plan_transition, write_manifest,
  write_record, retire, commit_transition,
}
use sandboxed_workspace_mcp.Store.Queries.{list_events, ExecutionEventPage}
use sandboxed_workspace_mcp.Store.Invariant.{IsValid}
use sandboxed_workspace_mcp.Store.Prune.{SameAt}
use sandboxed_workspace_mcp.Store.Pages.{IsSlice, list_events-IsSlice}
use sandboxed_workspace_mcp.Store.Reach.{Reach-IsValid, reachable_history}
use sandboxed_workspace_mcp.Store.Behaviour.{refusal, transition_accepted, transition_refused}
use sandboxed_workspace_mcp.Store.Frame.{transition_frame, get-transition}
use sandboxed_workspace_mcp.Store.Backwards.{backwards_clock}
use sandboxed_workspace_mcp.Tests.Records.{
  first_id, second_id, first_record, second_record, running_record, ended, start_outcome,
  timeout_outcome, empty_run, two_run, running_run, first_valid, init_empty, two_holds,
  two_holds_second, running_reached, running_holds, empty-IsValid, two-IsValid, running-IsValid,
}

-- Facts about the runs that the theorems below ask for.
ids_differ : first_id ≢ second_id
ids_differ e = ground arith

second_live : is_terminal_state second_record.state ≡ false
unfolding is_terminal_state
second_live = refl

no_manifest : (id : Text) (terminal : Bool) → normalize_artifact_manifest id none terminal ≡ ok none
unfolding normalize_artifact_manifest
no_manifest id terminal = refl

start_free : refusal first_id (starting ∷ []) running two_run ≡ none
unfolding ExecutionState-discrete Option-ExecutionReason-discrete is_terminal_state
    is_cancellation_reason is_failed_reason is_crash_reason is_timeout_reason public_summary
    public_execution_error_summary validate_public_error_summary event_reason
    validate_event_state_metadata allowed ensure_execution_transition bounded_text bounded_option
    execution_id_bounded error_summary_bounded fields_bounded started_in_order finished_in_order
    times_in_order terminal_fields exit_is is_early_crash state_fields validate_lifecycle
    validate_record is_starting is_cancellable event_lifecycle validate_event created_event_of
    transition_event_of created_event transition_event starts finishes fill updated_values
    transitioned_record member get expect text_in check_artifacts normalize_artifact_manifest
    add_record create forget forget_terminal prune plan_transition write_manifest write_record
    retire commit_transition transition lookup insert erase Text-discrete Option-Text-discrete
    utf8_size utf8_width is_zero
start_free = refl

start_conflict : refusal first_id (running ∷ []) timed_out two_run ≡ some execution_conflict
unfolding ExecutionState-discrete Option-ExecutionReason-discrete is_terminal_state
    is_cancellation_reason is_failed_reason is_crash_reason is_timeout_reason public_summary
    public_execution_error_summary validate_public_error_summary event_reason
    validate_event_state_metadata allowed ensure_execution_transition bounded_text bounded_option
    execution_id_bounded error_summary_bounded fields_bounded started_in_order finished_in_order
    times_in_order terminal_fields exit_is is_early_crash state_fields validate_lifecycle
    validate_record is_starting is_cancellable event_lifecycle validate_event created_event_of
    transition_event_of created_event transition_event starts finishes fill updated_values
    transitioned_record member get expect text_in check_artifacts normalize_artifact_manifest
    add_record create forget forget_terminal prune plan_transition write_manifest write_record
    retire commit_transition transition lookup insert erase Text-discrete Option-Text-discrete
    utf8_size utf8_width is_zero
start_conflict = refl

start_allowed : ensure_execution_transition starting running ≡ ok tt
unfolding ensure_execution_transition allowed
start_allowed = refl

running_record_valid : validate_record running_record ≡ ok running_record
unfolding ExecutionState-discrete Option-ExecutionReason-discrete is_terminal_state
    is_cancellation_reason is_failed_reason is_crash_reason is_timeout_reason public_summary
    public_execution_error_summary validate_public_error_summary event_reason
    validate_event_state_metadata allowed ensure_execution_transition bounded_text bounded_option
    execution_id_bounded error_summary_bounded fields_bounded started_in_order finished_in_order
    times_in_order terminal_fields exit_is is_early_crash state_fields validate_lifecycle
    validate_record is_starting is_cancellable event_lifecycle validate_event created_event_of
    transition_event_of created_event transition_event starts finishes fill updated_values
    transitioned_record member get expect text_in check_artifacts normalize_artifact_manifest
    add_record create forget forget_terminal prune plan_transition write_manifest write_record
    retire commit_transition transition lookup insert erase Text-discrete Option-Text-discrete
    utf8_size utf8_width is_zero
running_record_valid = refl

Reach-IsValid_example : IsValid running_run
Reach-IsValid_example = Reach-IsValid empty-IsValid running_reached

start_accepted : transitioned_record first_record running start_outcome 12 ≡ ok running_record
unfolding ExecutionState-discrete Option-ExecutionReason-discrete is_terminal_state
    is_cancellation_reason is_failed_reason is_crash_reason is_timeout_reason public_summary
    public_execution_error_summary validate_public_error_summary event_reason
    validate_event_state_metadata allowed ensure_execution_transition bounded_text bounded_option
    execution_id_bounded error_summary_bounded fields_bounded started_in_order finished_in_order
    times_in_order terminal_fields exit_is is_early_crash state_fields validate_lifecycle
    validate_record is_starting is_cancellable event_lifecycle validate_event created_event_of
    transition_event_of created_event transition_event starts finishes fill updated_values
    transitioned_record member get expect text_in check_artifacts normalize_artifact_manifest
    add_record create forget forget_terminal prune plan_transition write_manifest write_record
    retire commit_transition transition lookup insert erase Text-discrete Option-Text-discrete
    utf8_size utf8_width is_zero
start_accepted = refl

Reaches-bounded_example : 1 ≤ (if is_terminal_state starting then 0 else 3)
Reaches-bounded_example = Reaches-bounded starting running 1 (next running here start_allowed)

validate_record-IsWellFormed_example : IsWellFormed first_record
validate_record-IsWellFormed_example = validate_record-IsWellFormed first_record first_valid

reachable_history_example :
    (es : List ExecutionEvent) × (lookup first_id running_run.events ≡ some es)
    × (validate_event_history running_record es ≡ ok true)
    × IsWellFormed running_record
reachable_history_example =
    reachable_history 1 empty_run running_run first_id running_record init_empty running_reached
      running_holds

transition_accepted_example :
    (transition first_id (starting ∷ []) running start_outcome none 12 two_run).0
    ≡ ok running_record
transition_accepted_example =
    transition_accepted first_id (starting ∷ []) running start_outcome none 12 two_run first_record
      running_record none two-IsValid start_free two_holds start_accepted (no_manifest first_id _)

transition_refused_example :
    transition first_id (running ∷ []) timed_out timeout_outcome none 13 two_run
    ≡ (err execution_conflict, two_run)
transition_refused_example =
    transition_refused first_id (running ∷ []) timed_out timeout_outcome none 13 two_run
      execution_conflict start_conflict

list_events-IsSlice_example :
    (es : List ExecutionEvent) × (p : ExecutionEventPage) × (lookup first_id running_run.events
      ≡ some es)
    × (list_events first_id 1 1 running_run ≡ ok p)
    × IsSlice es 1 1 p
list_events-IsSlice_example =
    list_events-IsSlice running_run first_id running_record 1 1 running-IsValid running_holds
      (omega arith) (omega arith)

transition_frame_example :
    SameAt second_id two_run
      (transition first_id (starting ∷ []) timed_out timeout_outcome none 12 two_run).1
transition_frame_example =
    transition_frame first_id (starting ∷ []) timed_out timeout_outcome none 12 two_run second_id
      second_record ids_differ two_holds_second second_live

get-transition_example :
    (get first_id running_run ≡ ok running_record)
    × ((es : List ExecutionEvent) × (e : ExecutionEvent) × (lookup first_id two_run.events
          ≡ some es)
        × (lookup first_id running_run.events ≡ some (es ++ e ∷ [])))
get-transition_example =
    get-transition first_id (starting ∷ []) running start_outcome none 12 two_run running_record
      two-IsValid transition_accepted_example

abbrev stopped_record : ExecutionRecord
stopped_record = record running_record {
  state = timed_out;
  updated_at = 11;
  finished_at = some 11;
  reason = some timeout;
}

stopped_early :
    (transition first_id (running ∷ []) timed_out timeout_outcome none 11 running_run).0
    ≡ ok stopped_record
unfolding ExecutionState-discrete Option-ExecutionReason-discrete is_terminal_state
    is_cancellation_reason is_failed_reason is_crash_reason is_timeout_reason public_summary
    public_execution_error_summary validate_public_error_summary event_reason
    validate_event_state_metadata allowed ensure_execution_transition bounded_text bounded_option
    execution_id_bounded error_summary_bounded fields_bounded started_in_order finished_in_order
    times_in_order terminal_fields exit_is is_early_crash state_fields validate_lifecycle
    validate_record is_starting is_cancellable event_lifecycle validate_event created_event_of
    transition_event_of created_event transition_event starts finishes fill updated_values
    transitioned_record member get expect text_in check_artifacts normalize_artifact_manifest
    add_record create forget forget_terminal prune plan_transition write_manifest write_record
    retire commit_transition transition lookup insert erase Text-discrete Option-Text-discrete
    utf8_size utf8_width is_zero
stopped_early = refl

backwards_clock_example :
    list_events first_id 0 50
      (transition first_id (running ∷ []) timed_out timeout_outcome none 11 running_run).1
    ≡ err store_error
backwards_clock_example =
    backwards_clock first_id (running ∷ []) timed_out timeout_outcome none 11 running_run
      running_record stopped_record 0 50 running-IsValid running_holds stopped_early (omega arith)
      (omega arith) (omega arith)

abbrev ended_run : Store
ended_run = record empty_run {
  records = (first_id, ended first_id) ∷ (second_id, ended second_id) ∷ [];
}

abbrev crowded_run : Store
crowded_run = record ended_run { max_retained_terminal_executions = 1 }

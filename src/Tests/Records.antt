-- ===== src/Tests/Records.antt =====
-- The records and stores of the runs: one execution that is created and starts to run.
use sandboxed_workspace_mcp.Execution.Event.{
  is_starting, is_cancellable, event_lifecycle, validate_event,
}
use sandboxed_workspace_mcp.Base.{
  text_in, ℕ, ◌≡◌, refl, Bool, true, false, Option, some, none, Result, ok, err, Text, text, List,
  [], ◌∷◌, arith, subst, ◌≤◌, Text-discrete, Option-Text-discrete, utf8_size, utf8_width, is_zero,
}
use sandboxed_workspace_mcp.Dict.{lookup, insert, erase}
use sandboxed_workspace_mcp.Execution.State.{
  ExecutionState, starting, running, timed_out, ExecutionReason, timeout, ExecutionKind, task,
  ExecutionMode, run, ExecutionState-discrete, Option-ExecutionReason-discrete, is_terminal_state,
  is_cancellation_reason, is_failed_reason, is_crash_reason, is_timeout_reason, public_summary,
  public_execution_error_summary, validate_public_error_summary, event_reason,
  validate_event_state_metadata, allowed, ensure_execution_transition,
}
use sandboxed_workspace_mcp.Execution.Record.{
  ExecutionRecord, validate_record, bounded_text, bounded_option, execution_id_bounded,
  error_summary_bounded, fields_bounded, started_in_order, finished_in_order, times_in_order,
  terminal_fields, exit_is, is_early_crash, state_fields, validate_lifecycle,
}
use sandboxed_workspace_mcp.Store.Events.{
  Outcome, created_event_of, transition_event_of, created_event, transition_event, starts, finishes,
  fill, updated_values, transitioned_record,
}
use sandboxed_workspace_mcp.Store.Memory.{
  Store, init, create, transition, member, get, expect, check_artifacts,
  normalize_artifact_manifest, add_record, forget, forget_terminal, prune, plan_transition,
  write_manifest, write_record, retire, commit_transition,
}
use sandboxed_workspace_mcp.Store.Invariant.{IsValid}
use sandboxed_workspace_mcp.Store.Keeps.{IsLater}
use sandboxed_workspace_mcp.Store.Reach.{
  Reach, here, next, creates, transitions, Reach-IsValid, init-IsValid,
}

abbrev pub fresh_record : Text → ℕ → ExecutionRecord
fresh_record id t = record {
  execution_id = id;
  kind = task;
  name = text "test";
  tool = none;
  mode = run;
  state = starting;
  created_at = t;
  updated_at = t;
  started_at = none;
  finished_at = none;
  exit_code = none;
  reason = none;
  error_summary = none;
  resources = none;
}

abbrev pub first_id : Text
first_id = text "a"

abbrev pub second_id : Text
second_id = text "b"

abbrev pub first_record : ExecutionRecord
first_record = fresh_record first_id 10

abbrev pub second_record : ExecutionRecord
second_record = fresh_record second_id 10

abbrev pub running_record : ExecutionRecord
running_record = record first_record { state = running; updated_at = 12; started_at = some 10 }

abbrev pub ended : Text → ExecutionRecord
ended id = record (fresh_record id 10) {
  state = timed_out;
  updated_at = 20;
  finished_at = some 20;
  reason = some timeout;
}

abbrev pub start_outcome : Outcome
start_outcome = record {
  reason = none;
  exit_code = none;
  resources = none;
  started_at = some 10;
  finished_at = none;
  updated_at = none;
}

abbrev pub timeout_outcome : Outcome
timeout_outcome = record {
  reason = some timeout;
  exit_code = none;
  resources = none;
  started_at = none;
  finished_at = none;
  updated_at = none;
}

abbrev pub empty_run : Store
empty_run = record {
  max_retained_terminal_executions = 1;
  records = [];
  events = [];
  artifact_manifests = [];
  artifact_manifest_complete = [];
  terminal_order = [];
}

abbrev pub one_run : Store
one_run = (create first_record empty_run).1

abbrev pub two_run : Store
two_run = (create second_record one_run).1

abbrev pub running_run : Store
running_run = (transition first_id (starting ∷ []) running start_outcome none 12 two_run).1

pub first_valid : validate_record first_record ≡ ok first_record
unfolding validate_record sandboxed_workspace_mcp.Execution.Record.fields_bounded
    sandboxed_workspace_mcp.Base.utf8_size sandboxed_workspace_mcp.Base.utf8_width
    sandboxed_workspace_mcp.Execution.Record.validate_lifecycle
    sandboxed_workspace_mcp.Execution.Record.times_in_order
    sandboxed_workspace_mcp.Execution.Record.terminal_fields
    sandboxed_workspace_mcp.Execution.Record.state_fields
    sandboxed_workspace_mcp.Execution.State.validate_public_error_summary
first_valid = refl

pub second_valid : validate_record second_record ≡ ok second_record
unfolding validate_record sandboxed_workspace_mcp.Execution.Record.fields_bounded
    sandboxed_workspace_mcp.Base.utf8_size sandboxed_workspace_mcp.Base.utf8_width
    sandboxed_workspace_mcp.Execution.Record.validate_lifecycle
    sandboxed_workspace_mcp.Execution.Record.times_in_order
    sandboxed_workspace_mcp.Execution.Record.terminal_fields
    sandboxed_workspace_mcp.Execution.Record.state_fields
    sandboxed_workspace_mcp.Execution.State.validate_public_error_summary
second_valid = refl

pub init_empty : init 1 ≡ ok empty_run
unfolding init
init_empty = refl

pub two_reached : Reach empty_run two_run
two_reached =
    next (next here (creates first_record first_valid refl))
      (creates second_record second_valid refl)

pub two_holds : lookup first_id two_run.records ≡ some first_record
unfolding lookup create sandboxed_workspace_mcp.Store.Events.created_event
    sandboxed_workspace_mcp.Execution.Event.validate_event
    sandboxed_workspace_mcp.Execution.Record.execution_id_bounded
    sandboxed_workspace_mcp.Store.Events.created_event_of sandboxed_workspace_mcp.Base.utf8_size
    sandboxed_workspace_mcp.Base.utf8_width
    sandboxed_workspace_mcp.Execution.Record.error_summary_bounded
    sandboxed_workspace_mcp.Execution.Event.event_lifecycle
    sandboxed_workspace_mcp.Store.Memory.add_record sandboxed_workspace_mcp.Dict.insert
    sandboxed_workspace_mcp.Base.Text-discrete
two_holds = refl

pub two_holds_second : lookup second_id two_run.records ≡ some second_record
unfolding lookup create sandboxed_workspace_mcp.Store.Events.created_event
    sandboxed_workspace_mcp.Execution.Event.validate_event
    sandboxed_workspace_mcp.Execution.Record.execution_id_bounded
    sandboxed_workspace_mcp.Store.Events.created_event_of sandboxed_workspace_mcp.Base.utf8_size
    sandboxed_workspace_mcp.Base.utf8_width
    sandboxed_workspace_mcp.Execution.Record.error_summary_bounded
    sandboxed_workspace_mcp.Execution.Event.event_lifecycle
    sandboxed_workspace_mcp.Store.Memory.add_record sandboxed_workspace_mcp.Dict.insert
    sandboxed_workspace_mcp.Base.Text-discrete
two_holds_second = refl

two-IsLater : IsLater first_id two_run 12
two-IsLater r e =
    let same : first_record ≡ r = cc (two_holds, e) in
    subst (λ (x : ExecutionRecord). x.updated_at ≤ 12) same (omega arith)

pub running_reached : Reach empty_run running_run
running_reached =
    next two_reached
      (transitions first_id (starting ∷ []) running start_outcome none 12 two-IsLater)

pub running_holds : lookup first_id running_run.records ≡ some running_record
unfolding ExecutionState-discrete Option-ExecutionReason-discrete is_terminal_state
    is_cancellation_reason is_failed_reason is_crash_reason is_timeout_reason public_summary
    public_execution_error_summary validate_public_error_summary event_reason
    validate_event_state_metadata allowed ensure_execution_transition bounded_text bounded_option
    execution_id_bounded error_summary_bounded fields_bounded started_in_order finished_in_order
    times_in_order terminal_fields exit_is is_early_crash state_fields validate_lifecycle
    validate_record is_starting is_cancellable event_lifecycle validate_event created_event_of
    transition_event_of created_event transition_event starts finishes fill updated_values
    transitioned_record member get expect text_in check_artifacts normalize_artifact_manifest
    add_record create forget forget_terminal prune plan_transition write_manifest write_record
    retire commit_transition transition lookup insert erase Text-discrete Option-Text-discrete
    utf8_size utf8_width is_zero
running_holds = refl

pub empty-IsValid : IsValid empty_run
empty-IsValid = init-IsValid 1 init_empty

pub two-IsValid : IsValid two_run
two-IsValid = Reach-IsValid (init-IsValid 1 init_empty) two_reached

pub running-IsValid : IsValid running_run
running-IsValid = Reach-IsValid (init-IsValid 1 init_empty) running_reached

-- ===== src/Execution/State.antt =====
-- The enumerations of src/workspace_guard_mcp/execution.py, the transition table and the mappings
-- of a state and a reason to a public text.
use sandboxed_workspace_mcp.Base.{
  Bool, true, false, not, Option, none, some, Result, ok, err, Text, text, Option-Text-discrete,
  ite, if◌then◌else◌,
}

pub data ExecutionState : Type 0 where
  starting running cancelling succeeded failed cancelled timed_out crashed : ExecutionState

pub data ExecutionReason : Type 0 where
  user_cancelled client_cancelled server_shutdown timeout : ExecutionReason
  workspace_limit_exceeded artifact_limit_exceeded artifact_policy_violation : ExecutionReason
  artifact_collection_failed output_limit_exceeded runtime_start_failed : ExecutionReason
  runtime_monitor_failed cleanup_failed server_restarted : ExecutionReason

pub data ExecutionKind : Type 0 where
  task profile : ExecutionKind

pub data ExecutionMode : Type 0 where
  run service : ExecutionMode

-- Every exception that the execution model and its stores raise. A pydantic `ValidationError` is a
-- `ValueError`, and `key_error` is the `KeyError` of an unguarded subscript.
pub data Error : Type 0 where
  value_error transition_error duplicate_execution unknown_execution : Error
  execution_conflict store_error key_error overflow_error : Error

unfoldable pub ExecutionState-discrete : Discrete ExecutionState
ExecutionState-discrete = hlevel

unfoldable pub Option-ExecutionReason-discrete : Discrete (Option ExecutionReason)
Option-ExecutionReason-discrete = hlevel

-- `TERMINAL_EXECUTION_STATES`
unfoldable pub is_terminal_state : ExecutionState → Bool
is_terminal_state starting = false
is_terminal_state running = false
is_terminal_state cancelling = false
is_terminal_state _ = true

-- `reason in _CANCELLATION_REASONS`, where `None` is no member.
unfoldable pub is_cancellation_reason : Option ExecutionReason → Bool
is_cancellation_reason (some user_cancelled) = true
is_cancellation_reason (some client_cancelled) = true
is_cancellation_reason (some server_shutdown) = true
is_cancellation_reason _ = false

unfoldable pub is_failed_reason : Option ExecutionReason → Bool
is_failed_reason (some workspace_limit_exceeded) = true
is_failed_reason (some artifact_limit_exceeded) = true
is_failed_reason (some artifact_policy_violation) = true
is_failed_reason (some output_limit_exceeded) = true
is_failed_reason _ = false

unfoldable pub is_crash_reason : Option ExecutionReason → Bool
is_crash_reason (some artifact_collection_failed) = true
is_crash_reason (some runtime_start_failed) = true
is_crash_reason (some runtime_monitor_failed) = true
is_crash_reason (some cleanup_failed) = true
is_crash_reason (some server_restarted) = true
is_crash_reason _ = false

unfoldable pub is_timeout_reason : Option ExecutionReason → Bool
is_timeout_reason (some timeout) = true
is_timeout_reason _ = false

-- The table `_PUBLIC_EXECUTION_ERROR_SUMMARIES`.
unfoldable pub public_summary : ExecutionReason → Option Text
public_summary runtime_start_failed = some (text "execution runtime failed to start")
public_summary runtime_monitor_failed = some (text "execution runtime monitor failed")
public_summary artifact_collection_failed = some (text "artifact collection failed")
public_summary cleanup_failed = some (text "execution runtime cleanup failed")
public_summary server_restarted = some (text "execution interrupted by server restart")
public_summary _ = none

unfoldable pub public_execution_error_summary :
    ExecutionState → Option ExecutionReason → Option Text
unfolding public_summary
public_execution_error_summary crashed (some reason) = public_summary reason
public_execution_error_summary _ _ = none

-- A summary that is present must be the canonical one.
unfoldable pub validate_public_error_summary :
    ExecutionState → Option ExecutionReason → Option Text → Result Error (Unit {0})
validate_public_error_summary state reason none = ok tt
validate_public_error_summary state reason (some summary) =
    ite (Option-Text-discrete (some summary) (public_execution_error_summary state reason)) (ok tt)
      (err value_error)

abbrev pub present {ℓ} : {A : Type ℓ} → Option A → Bool
present none = false
present (some _) = true

-- The `if`/`elif` ladder of `_validate_event_state_metadata`.
unfoldable pub event_reason : ExecutionState → Option ExecutionReason → Bool
event_reason starting reason = not (present reason)
event_reason running reason = not (present reason)
event_reason succeeded reason = not (present reason)
event_reason cancelling reason = is_cancellation_reason reason
event_reason cancelled reason = is_cancellation_reason reason
event_reason failed none = true
event_reason failed (some reason) = is_failed_reason (some reason)
event_reason timed_out reason = is_timeout_reason reason
event_reason crashed reason = is_crash_reason reason

unfoldable pub validate_event_state_metadata :
    ExecutionState → Option ExecutionReason → Option Text → Result Error (Unit {0})
validate_event_state_metadata state reason summary =
    if event_reason state reason
    then validate_public_error_summary state reason summary
    else err value_error

-- `_ALLOWED_TRANSITIONS`
unfoldable pub allowed : ExecutionState → ExecutionState → Bool
allowed starting running = true
allowed starting cancelling = true
allowed starting timed_out = true
allowed starting crashed = true
allowed running succeeded = true
allowed running failed = true
allowed running cancelling = true
allowed running timed_out = true
allowed running crashed = true
allowed cancelling cancelled = true
allowed cancelling timed_out = true
allowed cancelling crashed = true
allowed _ _ = false

unfoldable pub ensure_execution_transition :
    ExecutionState → ExecutionState → Result Error (Unit {0})
ensure_execution_transition old_state new_state =
    if allowed old_state new_state then ok tt else err transition_error

-- The status strings of `legacy_execution_status`.
pub data LegacyStatus : Type 0 where
  running stopping succeeded workspace_limit_exceeded output_limit_exceeded failed : LegacyStatus
  stopped cancelled timed_out start_failed : LegacyStatus

unfoldable pub legacy_failed : Option ExecutionReason → LegacyStatus
legacy_failed (some workspace_limit_exceeded) = LegacyStatus.workspace_limit_exceeded
legacy_failed (some output_limit_exceeded) = LegacyStatus.output_limit_exceeded
legacy_failed _ = LegacyStatus.failed

unfoldable pub legacy_crashed : Option ExecutionReason → Bool → LegacyStatus
legacy_crashed (some runtime_start_failed) as_service = LegacyStatus.start_failed
legacy_crashed (some runtime_monitor_failed) as_service =
    if as_service then LegacyStatus.failed else LegacyStatus.start_failed
legacy_crashed _ as_service = LegacyStatus.failed

unfoldable pub legacy_execution_status :
    ExecutionState → Option ExecutionReason → Bool → LegacyStatus
unfolding legacy_failed legacy_crashed
legacy_execution_status starting reason as_service = LegacyStatus.running
legacy_execution_status running reason as_service = LegacyStatus.running
legacy_execution_status cancelling reason as_service = LegacyStatus.stopping
legacy_execution_status succeeded reason as_service = LegacyStatus.succeeded
legacy_execution_status failed reason as_service = legacy_failed reason
legacy_execution_status cancelled reason as_service =
    if as_service then LegacyStatus.stopped else LegacyStatus.cancelled
legacy_execution_status timed_out reason as_service = LegacyStatus.timed_out
legacy_execution_status crashed reason as_service = legacy_crashed reason as_service

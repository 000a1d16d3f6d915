-- ===== src/Execution/Record.antt =====
-- `ExecutionResources` and `ExecutionRecord` of src/workspace_guard_mcp/execution.py with their
-- validators. A timestamp is a count of clock ticks: the code only compares timestamps. A field
-- with `ge=0` is a natural number, so the field itself excludes a negative value.
use sandboxed_workspace_mcp.Base.{
  ℕ, ◌+◌, ◌-◌, ◌*◌, Bool, true, false, not, ◌&&◌, ◌||◌, Option, none, some, Result, ok, err, ◌>>◌,
  ℤ, is_zero, Text, utf8_size, length, leb, ◌==◌, if◌then◌else◌,
}
use sandboxed_workspace_mcp.Execution.State.{
  ExecutionState, starting, running, cancelling, succeeded, failed, cancelled, timed_out, crashed,
  ExecutionReason, runtime_start_failed, server_restarted, ExecutionKind, ExecutionMode, Error,
  value_error, is_terminal_state, is_cancellation_reason, is_failed_reason, is_timeout_reason,
  is_crash_reason, present, validate_public_error_summary,
}

pub record ExecutionResources : Type 0 where
  pub wall_time_ms : ℕ
  pub cpu_time_ms : Option ℕ
  pub peak_memory_bytes : Option ℕ
  pub workspace_initial_bytes : Option ℕ
  pub workspace_final_bytes : Option ℕ
  pub workspace_growth_bytes : Option ℕ
  pub stdout_bytes : ℕ
  pub stderr_bytes : ℕ
  pub output_bytes : ℕ

-- The three workspace measurements. `final - initial` stops at 0 as `max(0, final - initial)` does.
unfoldable pub growth_accounted : Option ℕ → Option ℕ → Option ℕ → Bool
growth_accounted initial none growth = not (present growth)
growth_accounted none (some final) growth = false
growth_accounted (some initial) (some final) none = false
growth_accounted (some initial) (some final) (some growth) = growth == final - initial

unfoldable pub validate_accounting : ExecutionResources → Result Error ExecutionResources
unfolding growth_accounted
validate_accounting r =
    if r.output_bytes == r.stdout_bytes + r.stderr_bytes
    then (if growth_accounted r.workspace_initial_bytes r.workspace_final_bytes
          r.workspace_growth_bytes
        then ok r
        else err value_error)
    else err value_error

pub record ExecutionRecord : Type 0 where
  pub execution_id : Text
  pub kind : ExecutionKind
  pub name : Text
  pub tool : Option Text
  pub mode : ExecutionMode
  pub state : ExecutionState
  pub created_at : ℕ
  pub updated_at : ℕ
  pub started_at : Option ℕ
  pub finished_at : Option ℕ
  pub exit_code : Option ℤ
  pub reason : Option ExecutionReason
  pub error_summary : Option Text
  pub resources : Option ExecutionResources

-- `Field(min_length=…, max_length=…)` followed by `_bound_utf8`.
unfoldable pub bounded_text : ℕ → ℕ → ℕ → Text → Bool
bounded_text least most bytes value =
    leb least (length value) && (leb (length value) most && leb (utf8_size value) bytes)

unfoldable pub bounded_option : ℕ → ℕ → ℕ → Option Text → Bool
unfolding bounded_text
bounded_option least most bytes none = true
bounded_option least most bytes (some value) = bounded_text least most bytes value

unfoldable pub execution_id_bounded : Text → Bool
unfolding bounded_text
execution_id_bounded = bounded_text 1 128 512

unfoldable pub error_summary_bounded : Option Text → Bool
unfolding bounded_option
error_summary_bounded = bounded_option 0 4096 (16 * 1024)

unfoldable pub fields_bounded : ExecutionRecord → Bool
unfolding execution_id_bounded error_summary_bounded bounded_option
fields_bounded r =
    execution_id_bounded r.execution_id
    && (bounded_text 1 256 1024 r.name
        && (bounded_option 1 128 512 r.tool && error_summary_bounded r.error_summary))

-- The order of the four timestamps: the first part of `_validate_lifecycle`.
unfoldable pub started_in_order : ℕ → ℕ → Option ℕ → Bool
started_in_order created updated none = true
started_in_order created updated (some started) = leb created started && leb started updated

unfoldable pub finished_in_order : ℕ → ℕ → Option ℕ → Option ℕ → Bool
finished_in_order created updated started none = true
finished_in_order created updated none (some finished) =
    leb created finished && leb finished updated
finished_in_order created updated (some started) (some finished) =
    leb started finished && leb finished updated

unfoldable pub times_in_order : ExecutionRecord → Bool
unfolding started_in_order finished_in_order
times_in_order r =
    leb r.created_at r.updated_at
    && (started_in_order r.created_at r.updated_at r.started_at
        && finished_in_order r.created_at r.updated_at r.started_at r.finished_at)

-- What a terminal record has and an unfinished one lacks: the second part.
unfoldable pub terminal_fields : ExecutionRecord → Bool
unfolding is_terminal_state
terminal_fields r =
    if is_terminal_state r.state
    then present r.finished_at
    else not (present r.finished_at) && (not (present r.exit_code) && not (present r.resources))

unfoldable pub exit_is : Bool → Option ℤ → Bool
exit_is zero_wanted none = false
exit_is true (some code) = is_zero code
exit_is false (some code) = not (is_zero code)

-- The crash reasons for which an execution need not have started.
unfoldable pub is_early_crash : Option ExecutionReason → Bool
is_early_crash (some runtime_start_failed) = true
is_early_crash (some server_restarted) = true
is_early_crash _ = false

-- The ladder over the states: the third part.
unfoldable pub state_fields : ExecutionState → Option ℕ → Option ExecutionReason → Option ℤ → Bool
unfolding exit_is is_early_crash
state_fields starting started reason code = not (present started) && not (present reason)
state_fields running started reason code = present started && not (present reason)
state_fields cancelling started reason code = present started && is_cancellation_reason reason
state_fields succeeded started reason code =
    present started && (not (present reason) && exit_is true code)
state_fields failed started none code = present started && exit_is false code
state_fields failed started (some reason) code = present started && is_failed_reason (some reason)
state_fields cancelled started reason code = present started && is_cancellation_reason reason
state_fields timed_out started reason code = is_timeout_reason reason
state_fields crashed started reason code =
    is_crash_reason reason && (present started || is_early_crash reason)

unfoldable pub validate_lifecycle : ExecutionRecord → Result Error ExecutionRecord
validate_lifecycle r =
    if times_in_order r
      && (terminal_fields r && state_fields r.state r.started_at r.reason r.exit_code)
    then validate_public_error_summary r.state r.reason r.error_summary >> ok r
    else err value_error

-- `ExecutionRecord.model_validate`
unfoldable pub validate_record : ExecutionRecord → Result Error ExecutionRecord
validate_record r = if fields_bounded r then validate_lifecycle r else err value_error

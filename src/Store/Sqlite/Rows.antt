-- ===== src/Store/Sqlite/Rows.antt =====
-- The rows of the SQLite tables in src/workspace_guard_mcp/execution_store.py, and the records read
-- from them. The columns are named as in `_EXECUTION_COLUMNS`, which has the order of the values. An
-- event has the columns of `ExecutionEvent`, so an event row is an event that has not been validated.
use sandboxed_workspace_mcp.Base.{
  ℕ, ltb, ite, Text-discrete, text, pos, negsuc, ◌&&◌, Bool, true, ◌||◌, Option, none, some, Result,
  ok, err, ◌>>=◌, ℤ, Text, List, [], ◌∷◌, if◌then◌else◌,
}
use sandboxed_workspace_mcp.Execution.State.{
  ExecutionState, starting, running, cancelling, succeeded, failed, cancelled, timed_out, crashed,
  ExecutionReason, user_cancelled, client_cancelled, server_shutdown, timeout,
  workspace_limit_exceeded, artifact_limit_exceeded, artifact_policy_violation,
  artifact_collection_failed, output_limit_exceeded, runtime_start_failed, runtime_monitor_failed,
  cleanup_failed, server_restarted, ExecutionKind, task, profile, ExecutionMode, run, service,
  Error, value_error, store_error, present,
}
use sandboxed_workspace_mcp.Execution.Record.{
  ExecutionResources, ExecutionRecord, validate_accounting, validate_record,
}
use sandboxed_workspace_mcp.Execution.Event.{ExecutionEvent, validate_event}

-- The `value` of each member of an enumeration, and the member with a given value.
unfoldable pub kind_value : ExecutionKind → Text
kind_value task = text "task"
kind_value profile = text "profile"

unfoldable pub mode_value : ExecutionMode → Text
mode_value run = text "run"
mode_value service = text "service"

unfoldable pub state_value : ExecutionState → Text
state_value starting = text "starting"
state_value running = text "running"
state_value cancelling = text "cancelling"
state_value succeeded = text "succeeded"
state_value failed = text "failed"
state_value cancelled = text "cancelled"
state_value timed_out = text "timed_out"
state_value crashed = text "crashed"

unfoldable pub reason_value : ExecutionReason → Text
reason_value user_cancelled = text "user_cancelled"
reason_value client_cancelled = text "client_cancelled"
reason_value server_shutdown = text "server_shutdown"
reason_value timeout = text "timeout"
reason_value workspace_limit_exceeded = text "workspace_limit_exceeded"
reason_value artifact_limit_exceeded = text "artifact_limit_exceeded"
reason_value artifact_policy_violation = text "artifact_policy_violation"
reason_value artifact_collection_failed = text "artifact_collection_failed"
reason_value output_limit_exceeded = text "output_limit_exceeded"
reason_value runtime_start_failed = text "runtime_start_failed"
reason_value runtime_monitor_failed = text "runtime_monitor_failed"
reason_value cleanup_failed = text "cleanup_failed"
reason_value server_restarted = text "server_restarted"

abbrev pub all_kinds : List ExecutionKind
all_kinds = task ∷ profile ∷ []

abbrev pub all_modes : List ExecutionMode
all_modes = run ∷ service ∷ []

abbrev pub all_states : List ExecutionState
all_states =
    starting ∷ running ∷ cancelling ∷ succeeded ∷ failed ∷ cancelled ∷ timed_out ∷ crashed ∷ []

abbrev pub all_reasons : List ExecutionReason
all_reasons =
    user_cancelled ∷ client_cancelled ∷ server_shutdown ∷ timeout ∷ workspace_limit_exceeded
    ∷ artifact_limit_exceeded ∷ artifact_policy_violation ∷ artifact_collection_failed
    ∷ output_limit_exceeded ∷ runtime_start_failed ∷ runtime_monitor_failed ∷ cleanup_failed
    ∷ server_restarted ∷ []

unfoldable pub member_of {ℓ} : {A : Type ℓ} → (A → Text) → List A → Text → Option A
member_of value [] t = none
member_of value (a ∷ members) t =
    ite (Text-discrete (value a) t) (some a) (member_of value members t)

abbrev pub reason_column : Option ExecutionReason → Option Text
reason_column none = none
reason_column (some reason) = some (reason_value reason)

-- A text that is no value fails the validation.
abbrev pub parsed {ℓ} : {A : Type ℓ} → Option A → Result Error A
parsed none = err value_error
parsed (some a) = ok a

unfoldable pub reason_from_row : Option Text → Result Error (Option ExecutionReason)
reason_from_row none = ok none
reason_from_row (some t) = do
  reason ← parsed (member_of reason_value all_reasons t)
  ok (some reason)

-- The nine columns of the resources.
pub record ResourceColumns : Type 0 where
  pub wall_time_ms : Option ℕ
  pub cpu_time_ms : Option ℕ
  pub peak_memory_bytes : Option ℕ
  pub workspace_initial_bytes : Option ℕ
  pub workspace_final_bytes : Option ℕ
  pub workspace_growth_bytes : Option ℕ
  pub stdout_bytes : Option ℕ
  pub stderr_bytes : Option ℕ
  pub output_bytes : Option ℕ

pub record ExecutionRow : Type 0 where
  pub execution_id : Text
  pub kind : Text
  pub name : Text
  pub tool : Option Text
  pub mode : Text
  pub state : Text
  pub created_at : ℕ
  pub updated_at : ℕ
  pub started_at : Option ℕ
  pub finished_at : Option ℕ
  pub exit_code : Option ℤ
  pub reason : Option Text
  pub error_summary : Option Text
  pub resources : ResourceColumns

unfoldable pub resource_values : Option ExecutionResources → ResourceColumns
resource_values none = record {
  wall_time_ms = none;
  cpu_time_ms = none;
  peak_memory_bytes = none;
  workspace_initial_bytes = none;
  workspace_final_bytes = none;
  workspace_growth_bytes = none;
  stdout_bytes = none;
  stderr_bytes = none;
  output_bytes = none;
}
resource_values (some r) = record {
  wall_time_ms = some r.wall_time_ms;
  cpu_time_ms = r.cpu_time_ms;
  peak_memory_bytes = r.peak_memory_bytes;
  workspace_initial_bytes = r.workspace_initial_bytes;
  workspace_final_bytes = r.workspace_final_bytes;
  workspace_growth_bytes = r.workspace_growth_bytes;
  stdout_bytes = some r.stdout_bytes;
  stderr_bytes = some r.stderr_bytes;
  output_bytes = some r.output_bytes;
}

unfoldable pub record_values : ExecutionRecord → ExecutionRow
record_values r = record {
  execution_id = r.execution_id;
  kind = kind_value r.kind;
  name = r.name;
  tool = r.tool;
  mode = mode_value r.mode;
  state = state_value r.state;
  created_at = r.created_at;
  updated_at = r.updated_at;
  started_at = r.started_at;
  finished_at = r.finished_at;
  exit_code = r.exit_code;
  reason = reason_column r.reason;
  error_summary = r.error_summary;
  resources = resource_values r.resources;
}

-- `sqlite3` raises `OverflowError` for an integer that does not fit in 64 bits.
abbrev pub integer_fits : ℕ → Bool
integer_fits n = ltb n 0x8000000000000000

unfoldable pub signed_fits : Option ℤ → Bool
signed_fits none = true
signed_fits (some (pos n)) = integer_fits n
signed_fits (some (negsuc n)) = integer_fits n

unfoldable pub column_fits : Option ℕ → Bool
column_fits none = true
column_fits (some n) = integer_fits n

-- The integers that a statement on `executions` binds.
unfoldable pub integers_fit : Option ℤ → ResourceColumns → Bool
integers_fit exit_code c =
    signed_fits exit_code
    && column_fits c.wall_time_ms
    && column_fits c.cpu_time_ms
    && column_fits c.peak_memory_bytes
    && column_fits c.workspace_initial_bytes
    && column_fits c.workspace_final_bytes
    && column_fits c.workspace_growth_bytes
    && column_fits c.stdout_bytes
    && column_fits c.stderr_bytes
    && column_fits c.output_bytes

-- `except (ValidationError, ValueError) as exc: raise ExecutionStoreError(...)`
abbrev pub stored_value {ℓ} : {A : Type ℓ} → Result Error A → Result Error A
stored_value (ok a) = ok a
stored_value (err e) = err store_error

-- Whether a column other than that of the wall time holds a value.
unfoldable pub is_partial : ResourceColumns → Bool
is_partial c =
    present c.cpu_time_ms
    || present c.peak_memory_bytes
    || present c.workspace_initial_bytes
    || present c.workspace_final_bytes
    || present c.workspace_growth_bytes
    || present c.stdout_bytes
    || present c.stderr_bytes
    || present c.output_bytes

-- `ExecutionResources.model_validate`: the four fields that are not optional are required.
unfoldable pub required_columns :
    Option ℕ → Option ℕ → Option ℕ → Option ℕ → ResourceColumns → Result Error ExecutionResources
required_columns (some wall) (some stdout) (some stderr) (some output) c =
    validate_accounting record {
      wall_time_ms = wall;
      cpu_time_ms = c.cpu_time_ms;
      peak_memory_bytes = c.peak_memory_bytes;
      workspace_initial_bytes = c.workspace_initial_bytes;
      workspace_final_bytes = c.workspace_final_bytes;
      workspace_growth_bytes = c.workspace_growth_bytes;
      stdout_bytes = stdout;
      stderr_bytes = stderr;
      output_bytes = output;
    }
required_columns _ _ _ _ c = err store_error

unfoldable pub resources_from_row : ResourceColumns → Result Error (Option ExecutionResources)
resources_from_row c = elim c.wall_time_ms [
  | none ↦ if is_partial c then err store_error else ok none
  | some wall ↦ do
    resources ← required_columns (some wall) c.stdout_bytes c.stderr_bytes c.output_bytes c
    ok (some resources)
]

-- `_record_from_row`
unfoldable pub record_from_row : ExecutionRow → Result Error ExecutionRecord
record_from_row row = stored_value (do
  resources ← resources_from_row row.resources
  kind ← parsed (member_of kind_value all_kinds row.kind)
  mode ← parsed (member_of mode_value all_modes row.mode)
  state ← parsed (member_of state_value all_states row.state)
  reason ← reason_from_row row.reason
  validate_record record {
    execution_id = row.execution_id;
    kind = kind;
    name = row.name;
    tool = row.tool;
    mode = mode;
    state = state;
    created_at = row.created_at;
    updated_at = row.updated_at;
    started_at = row.started_at;
    finished_at = row.finished_at;
    exit_code = row.exit_code;
    reason = reason;
    error_summary = row.error_summary;
    resources = resources;
  })

-- `_event_from_row`
unfoldable pub event_from_row : ExecutionEvent → Result Error ExecutionEvent
event_from_row row = stored_value (validate_event row)

-- `[_record_from_row(row) for row in rows]`, and the same for events.
unfoldable pub records_from_rows : List ExecutionRow → Result Error (List ExecutionRecord)
records_from_rows [] = ok []
records_from_rows (row ∷ rows) = do
  r ← record_from_row row
  rs ← records_from_rows rows
  ok (r ∷ rs)

unfoldable pub events_from_rows : List ExecutionEvent → Result Error (List ExecutionEvent)
events_from_rows [] = ok []
events_from_rows (row ∷ rows) = do e ← event_from_row row; es ← events_from_rows rows; ok (e ∷ es)

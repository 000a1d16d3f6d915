-- ===== src/Execution/Validation.antt =====
-- What the validators of src/workspace_guard_mcp/execution.py accept.
use sandboxed_workspace_mcp.Base.{
  ℕ, ◌≤◌, ◌≡◌, ◌≢◌, ◌⊎◌, true, false, none, some, ok, arith, length, utf8_size, Text, pos, is_zero,
  zero, suc, refl, inl, inr, ℤ, negsuc, Option, false≢true, subst,
}
use sandboxed_workspace_mcp.Execution.State.{
  ExecutionState, ExecutionReason, starting, running, cancelling, cancelled, succeeded, failed,
  timed_out, crashed, runtime_start_failed, server_restarted, is_terminal_state, event_reason,
  present, validate_public_error_summary, public_execution_error_summary,
}
use sandboxed_workspace_mcp.Execution.Record.{
  ExecutionRecord, validate_record, validate_lifecycle, fields_bounded, times_in_order,
  terminal_fields, state_fields, execution_id_bounded, error_summary_bounded, bounded_text,
  bounded_option, exit_is, is_early_crash,
}

-- At least `least` and at most `most` characters, in at most `bytes` bytes of UTF-8.
abbrev pub Within : ℕ → ℕ → ℕ → Text → Type 0
Within least most bytes t = (least ≤ length t) × (length t ≤ most) × (utf8_size t ≤ bytes)

-- What a reader of a stored record may rely on.
pub record IsWellFormed (r : ExecutionRecord) : Type 0 where
  pub id_within : Within 1 128 512 r.execution_id
  pub name_within : Within 1 256 1024 r.name
  pub tool_within : (t : Text) → r.tool ≡ some t → Within 1 128 512 t
  pub summary_within : (t : Text) → r.error_summary ≡ some t → Within 0 4096 16384 t
  pub id_bounded : execution_id_bounded r.execution_id ≡ true
  pub summary_bounded : error_summary_bounded r.error_summary ≡ true
  pub not_before_creation : r.created_at ≤ r.updated_at
  pub started_between : (t : ℕ) → r.started_at ≡ some t → (r.created_at ≤ t) × (t ≤ r.updated_at)
  pub finished_between : (t : ℕ) → r.finished_at ≡ some t → (r.created_at ≤ t) × (t ≤ r.updated_at)
  pub started_first : (t u : ℕ) → r.started_at ≡ some t → r.finished_at ≡ some u → t ≤ u
  pub finished_iff_terminal : present r.finished_at ≡ is_terminal_state r.state
  pub results_only_if_terminal :
      is_terminal_state r.state ≡ false → (r.exit_code ≡ none) × (r.resources ≡ none)
  pub started_if_running : r.state ≡ running → present r.started_at ≡ true
  pub not_started_if_starting : r.state ≡ starting → r.started_at ≡ none
  pub started_if_run :
      r.state ≢ starting → r.state ≢ timed_out → r.state ≢ crashed → present r.started_at ≡ true
  pub early_crash :
      r.state ≡ crashed
      → r.started_at ≡ none
      → (r.reason ≡ some runtime_start_failed) ⊎ (r.reason ≡ some server_restarted)
  pub exit_of_success : r.state ≡ succeeded → r.exit_code ≡ some (pos 0)
  pub exit_of_failure :
      r.state ≡ failed
      → r.reason ≡ none
      → (present r.exit_code ≡ true) × (r.exit_code ≢ some (pos 0))
  pub reason_fits : event_reason r.state r.reason ≡ true
  pub summary_canonical :
      (r.error_summary ≡ none) ⊎ (r.error_summary ≡ public_execution_error_summary r.state r.reason)

bounded_text-Within :
    (least most bytes : ℕ) (t : Text)
    → bounded_text least most bytes t ≡ true
    → Within least most bytes t
unfolding bounded_text
bounded_text-Within least most bytes t h = (ground (arith, h), ground (arith, h), ground (arith, h))

bounded_option-Within :
    (least most bytes : ℕ) (t : Text) (o : Option Text)
    → o ≡ some t
    → bounded_option least most bytes o ≡ true
    → Within least most bytes t
unfolding bounded_option
bounded_option-Within least most bytes t none e h = absurd cc
bounded_option-Within least most bytes t (some u) e h =
    let same : u ≡ t = cc in
    subst (Within least most bytes) same (bounded_text-Within least most bytes u h)

-- A crash of these reasons may come before the start.
early_reason :
    (reason : Option ExecutionReason)
    → is_early_crash reason ≡ true
    → (reason ≡ some runtime_start_failed) ⊎ (reason ≡ some server_restarted)
unfolding is_early_crash
early_reason none h = absurd (false≢true h)
early_reason (some runtime_start_failed) h = inl refl
early_reason (some server_restarted) h = inr refl
early_reason (some x) h = absurd (false≢true h)

exit_zero : (code : Option ℤ) → exit_is true code ≡ true → code ≡ some (pos 0)
unfolding exit_is is_zero
exit_zero none h = absurd (false≢true h)
exit_zero (some (pos zero)) h = refl
exit_zero (some (pos (suc n))) h = absurd (false≢true h)
exit_zero (some (negsuc n)) h = absurd (false≢true h)

nonzero : (code : ℤ) → exit_is false (some code) ≡ true → code ≢ pos 0
unfolding exit_is is_zero
nonzero code h e = false≢true (rw e at h)

exit_nonzero :
    (code : Option ℤ) → exit_is false code ≡ true → (present code ≡ true) × (code ≢ some (pos 0))
unfolding exit_is is_zero
exit_nonzero none h = absurd (false≢true h)
exit_nonzero (some code) h = (refl, λ e. nonzero code h (cc))

started_of :
    (state : ExecutionState) (started : Option ℕ) (reason : Option ExecutionReason)
    (code : Option ℤ)
    → state_fields state started reason code ≡ true
    → state ≢ starting
    → state ≢ timed_out
    → state ≢ crashed
    → present started ≡ true
unfolding state_fields
started_of starting started reason code h a b c = absurd (a refl)
started_of running started reason code h a b c = ground (arith, h)
started_of cancelling started reason code h a b c = ground (arith, h)
started_of succeeded started reason code h a b c = ground (arith, h)
started_of failed started none code h a b c = ground (arith, h)
started_of failed started (some x) code h a b c = ground (arith, h)
started_of cancelled started reason code h a b c = ground (arith, h)
started_of timed_out started reason code h a b c = absurd (b refl)
started_of crashed started reason code h a b c = absurd (c refl)

-- What each state asks of the other fields.
record StateFields (state : ExecutionState) (started : Option ℕ) (reason : Option ExecutionReason)
    (code : Option ℤ) : Type 0 where
  started_if_run : state ≢ starting → state ≢ timed_out → state ≢ crashed → present started ≡ true
  early_crash :
      state ≡ crashed
      → started ≡ none
      → (reason ≡ some runtime_start_failed) ⊎ (reason ≡ some server_restarted)
  exit_of_success : state ≡ succeeded → code ≡ some (pos 0)
  exit_of_failure : state ≡ failed → reason ≡ none → (present code ≡ true) × (code ≢ some (pos 0))

state_fields-StateFields :
    (state : ExecutionState) (started : Option ℕ) (reason : Option ExecutionReason)
    (code : Option ℤ)
    → state_fields state started reason code ≡ true
    → StateFields state started reason code
unfolding state_fields
state_fields-StateFields state started reason code h = record {
  started_if_run = started_of state started reason code h;
  early_crash = λ e n. early_reason reason (let crash = rw (e, n) at h in ground (arith, crash));
  exit_of_success = λ e. exit_zero code (let success = rw e at h in ground (arith, success));
  exit_of_failure =
      λ e n. exit_nonzero code (let failure = rw (e, n) at h in ground (arith, failure));
}

module _ (r : ExecutionRecord) where
  texts_of :
      fields_bounded r ≡ true
      → Within 1 128 512 r.execution_id
        × Within 1 256 1024 r.name
        × ((t : Text) → r.tool ≡ some t → Within 1 128 512 t)
        × ((t : Text) → r.error_summary ≡ some t → Within 0 4096 16384 t)
  unfolding fields_bounded execution_id_bounded error_summary_bounded
  texts_of h = (
    bounded_text-Within 1 128 512 r.execution_id (ground (arith, h)),
    bounded_text-Within 1 256 1024 r.name (ground (arith, h)),
    (λ t e. bounded_option-Within 1 128 512 t r.tool e (ground (arith, h))),
    (λ t e. bounded_option-Within 0 4096 16384 t r.error_summary e (ground (arith, h))),
  )

  exits_of :
      state_fields r.state r.started_at r.reason r.exit_code ≡ true
      → StateFields r.state r.started_at r.reason r.exit_code
  exits_of = state_fields-StateFields r.state r.started_at r.reason r.exit_code

  bounds_of :
      fields_bounded r ≡ true
      → (execution_id_bounded r.execution_id ≡ true)
        × (error_summary_bounded r.error_summary ≡ true)
  unfolding fields_bounded
  bounds_of h = ground arith

  times_of :
      times_in_order r ≡ true
      → (r.created_at ≤ r.updated_at)
        × ((t : ℕ) → r.started_at ≡ some t → (r.created_at ≤ t) × (t ≤ r.updated_at))
        × ((t : ℕ) → r.finished_at ≡ some t → (r.created_at ≤ t) × (t ≤ r.updated_at))
        × ((t u : ℕ) → r.started_at ≡ some t → r.finished_at ≡ some u → t ≤ u)
  unfolding times_in_order
  times_of h = (ground arith, λ t e. ground arith, λ t e. ground arith, λ t u e f. ground arith)

  terminal_of :
      terminal_fields r ≡ true
      → (present r.finished_at ≡ is_terminal_state r.state)
        × (is_terminal_state r.state ≡ false → (r.exit_code ≡ none) × (r.resources ≡ none))
  unfolding terminal_fields
  terminal_of h = (ground arith, λ e. ground arith)

  state_of :
      state_fields r.state r.started_at r.reason r.exit_code ≡ true
      → (r.state ≡ running → present r.started_at ≡ true)
        × (r.state ≡ starting → r.started_at ≡ none)
        × (event_reason r.state r.reason ≡ true)
  unfolding state_fields event_reason
  state_of h = (λ e. ground arith, λ e. ground arith, ground arith)

  summary_of :
      validate_public_error_summary r.state r.reason r.error_summary ≡ ok tt
      → (r.error_summary ≡ none)
        ⊎ (r.error_summary ≡ public_execution_error_summary r.state r.reason)
  unfolding validate_public_error_summary
  summary_of h = ground arith

  lifecycle_of :
      validate_lifecycle r ≡ ok r
      → (times_in_order r ≡ true)
        × (terminal_fields r ≡ true)
        × (state_fields r.state r.started_at r.reason r.exit_code ≡ true)
        × (validate_public_error_summary r.state r.reason r.error_summary ≡ ok tt)
  unfolding validate_lifecycle
  lifecycle_of h = ground arith

  parts_of : validate_record r ≡ ok r → (fields_bounded r ≡ true) × (validate_lifecycle r ≡ ok r)
  unfolding validate_record
  parts_of h = ground arith

  -- Every record that passes `model_validate` is well formed.
  pub validate_record-IsWellFormed : validate_record r ≡ ok r → IsWellFormed r
  validate_record-IsWellFormed h =
      let (fields, lifecycle) = parts_of h in
      let (times, terminal, state, summary) = lifecycle_of lifecycle in
      record {
        id_within = (texts_of fields).0;
        name_within = (texts_of fields).1;
        tool_within = (texts_of fields).2;
        summary_within = (texts_of fields).3;
        started_if_run = (exits_of state).started_if_run;
        early_crash = (exits_of state).early_crash;
        exit_of_success = (exits_of state).exit_of_success;
        exit_of_failure = (exits_of state).exit_of_failure;
        id_bounded = (bounds_of fields).0;
        summary_bounded = (bounds_of fields).1;
        not_before_creation = (times_of times).0;
        started_between = (times_of times).1;
        finished_between = (times_of times).2;
        started_first = (times_of times).3;
        finished_iff_terminal = (terminal_of terminal).0;
        results_only_if_terminal = (terminal_of terminal).1;
        started_if_running = (state_of state).0;
        not_started_if_starting = (state_of state).1;
        reason_fits = (state_of state).2;
        summary_canonical = summary_of summary;
      }

-- ===== src/Store/Sqlite/Changed.antt =====
-- The statements of a method of `SqliteExecutionStore` that has passed its checks
-- (src/workspace_guard_mcp/execution_store.py).
use sandboxed_workspace_mcp.Base.{
  text_in, map, Text-discrete, if_pos, if_neg, ◌||◌, Bool, ℕ, ◌≡◌, refl, sym, ap, ◌∙◌, subst, true,
  false, Option, none, some, ok, Text, List, [], ◌∷◌, ◌++◌,
}
use sandboxed_workspace_mcp.Dict.{lookup}
use sandboxed_workspace_mcp.Execution.State.{
  ExecutionState-discrete, ExecutionState, ExecutionReason, is_terminal_state,
}
use sandboxed_workspace_mcp.Execution.Record.{ExecutionRecord}
use sandboxed_workspace_mcp.Execution.Event.{ExecutionEvent, validate_event}
use sandboxed_workspace_mcp.Store.Events.{
  created_event, created_event_of, Outcome, updated_values, transitioned_record,
  transition_event_of, transition_event, cancellation_requested_event_of,
  cancellation_requested_event,
}
use sandboxed_workspace_mcp.Store.Written.{validate_record-eq}
use sandboxed_workspace_mcp.Store.Writes.{validate_event-eq}
use sandboxed_workspace_mcp.Store.Memory.{Manifest, member}
use sandboxed_workspace_mcp.Store.Sqlite
use sandboxed_workspace_mcp.Store.Sqlite.Rows.{
  record_values, state_value, resource_values, integers_fit,
}
use sandboxed_workspace_mcp.Store.Sqlite.Tables.{
  Database, has_event, insert_event, set_columns, update_execution, delete_artifacts,
}
use sandboxed_workspace_mcp.Store.Sqlite.RoundTrip.{Accounted, IsValidEvent}
use sandboxed_workspace_mcp.Store.Sqlite.Inserted.{Unused, Sized, insert_artifacts-ok}
use sandboxed_workspace_mcp.Store.Sqlite.Agrees.{Admitted}
use sandboxed_workspace_mcp.Store.Sqlite.Rewritten.{rewritten}

-- No artifact of a manifest has the identifier of an artifact of another execution, and their sizes
-- fit in the column.
abbrev pub IsUnused : Text → Option Manifest → Database → Type 0
IsUnused id none d = Unit
IsUnused id (some m) d = Unused m (delete_artifacts id d.execution_artifacts) × Sized m

module _ (current : ExecutionRecord) (state : ExecutionState) (outcome : Outcome) (time : ℕ) where
  values_columns :
      set_columns (updated_values current state outcome time) (record_values current)
      ≡ record_values (updated_values current state outcome time)
  unfolding set_columns record_values updated_values
  values_columns = refl

  values_resources : (updated_values current state outcome time).resources ≡ outcome.resources
  unfolding updated_values
  values_resources = refl

  -- The columns that are not written keep the values that they have in the new record.
  pub written_columns :
      (updated : ExecutionRecord)
      → transitioned_record current state outcome time ≡ ok updated
      → set_columns updated (record_values current) ≡ record_values updated
  unfolding transitioned_record
  written_columns updated h =
      let same : updated ≡ updated_values current state outcome time = validate_record-eq _ h in
      subst (λ u. set_columns u (record_values current) ≡ record_values u) (sym same) values_columns

  pub written_resources :
      (updated : ExecutionRecord)
      → transitioned_record current state outcome time ≡ ok updated
      → Accounted outcome.resources
      → Accounted updated.resources
  unfolding transitioned_record
  written_resources updated h accounted =
      let same : updated ≡ updated_values current state outcome time = validate_record-eq _ h in
      subst Accounted (sym values_resources ∙ ap (λ (u : ExecutionRecord). u.resources) (sym same))
        accounted

abbrev pub OutcomeFits : Outcome → Type 0
OutcomeFits outcome = integers_fit outcome.exit_code (resource_values outcome.resources) ≡ true

pub written_fits :
    (current : ExecutionRecord) (state : ExecutionState) (outcome : Outcome) (time : ℕ)
    (updated : ExecutionRecord)
    → transitioned_record current state outcome time ≡ ok updated
    → OutcomeFits outcome
    → integers_fit updated.exit_code (resource_values updated.resources) ≡ true
unfolding transitioned_record updated_values
written_fits current state outcome time updated h fits =
    let same : updated ≡ updated_values current state outcome time = validate_record-eq _ h in
    subst (λ (u : ExecutionRecord). integers_fit u.exit_code (resource_values u.resources) ≡ true)
      (sym same) fits

-- The condition on the state in SQL is that of the guard.
text_in-member :
    (s : ExecutionState) (expected : List ExecutionState)
    → member s expected ≡ true
    → text_in (state_value s) (map state_value expected) ≡ true
unfolding member text_in
text_in-member s [] h = h
text_in-member s (t ∷ ts) h = elim (ExecutionState-discrete t s) [
  | yes same ↦
      rw (if_pos (Text-discrete (state_value t) (state_value s)) (ap state_value same) true false)
        refl
  | no other ↦
      let later =
        text_in-member s ts (rw (if_neg (ExecutionState-discrete t s) other true false) at h) in
      or_true _ _ later
]
  where
    or_true : (a b : Bool) → b ≡ true → (a || b) ≡ true
    or_true true b k = refl
    or_true false b k = k

validate_event_self : (e e' : ExecutionEvent) → validate_event e ≡ ok e' → IsValidEvent e'
validate_event_self e e' h = let same : e' ≡ e = validate_event-eq e h in cc

-- An event that a builder returns.
pub record IsEventOf (id : Text) (n : ℕ) (e : ExecutionEvent) : Type 0 where
  pub own : e.execution_id ≡ id
  pub number : e.sequence ≡ n
  pub valid : IsValidEvent e

pub transition_event-IsEventOf :
    (id : Text) (current updated : ExecutionRecord) (n : ℕ) (e : ExecutionEvent)
    → updated.execution_id ≡ id
    → transition_event current updated n ≡ ok e
    → IsEventOf id n e
unfolding transition_event transition_event_of
transition_event-IsEventOf id current updated n e own h =
    let same : e ≡ transition_event_of current updated n = validate_event-eq _ h in
    record {
      own = ap (λ (e : ExecutionEvent). e.execution_id) same ∙ own;
      number = ap (λ (e : ExecutionEvent). e.sequence) same;
      valid = validate_event_self _ e h;
    }

pub cancellation_requested_event-IsEventOf :
    (id : Text) (current : ExecutionRecord) (reason : ExecutionReason) (n time : ℕ)
    (e : ExecutionEvent)
    → current.execution_id ≡ id
    → cancellation_requested_event current reason n time ≡ ok e
    → IsEventOf id n e
unfolding cancellation_requested_event cancellation_requested_event_of
cancellation_requested_event-IsEventOf id current reason n time e own h =
    let same : e ≡ cancellation_requested_event_of current reason n time = validate_event-eq _ h in
    record {
      own = ap (λ (e : ExecutionEvent). e.execution_id) same ∙ own;
      number = ap (λ (e : ExecutionEvent). e.sequence) same;
      valid = validate_event_self _ e h;
    }

pub update_execution-ok :
    (id : Text) (expected : List ExecutionState) (current updated : ExecutionRecord) (d : Database)
    → lookup id d.executions ≡ some (record_values current)
    → member current.state expected ≡ true
    → integers_fit updated.exit_code (resource_values updated.resources) ≡ true
    → set_columns updated (record_values current) ≡ record_values updated
    → update_execution id expected updated d ≡ ok (rewritten id updated d.execution_events none d)
unfolding update_execution record_values
update_execution-ok id expected current updated d row named fits columns =
    rw fits
      (rw (row, update_execution) (rw (text_in-member current.state expected named, columns) refl))

pub insert_event-ok :
    (id : Text) (n : ℕ) (e : ExecutionEvent) (d : Database)
    → IsEventOf id n e
    → has_event id n d.execution_events ≡ false
    → insert_event e d ≡ ok (record d { execution_events = d.execution_events ++ e ∷ [] })
unfolding insert_event
insert_event-ok id n e d k free = rw (k.own, k.number, free) refl

pub write_manifest-ok :
    (id : Text) (updated : ExecutionRecord) (log : List ExecutionEvent) (m : Option Manifest)
    (d : Database)
    → Admitted id (is_terminal_state updated.state) m
    → IsUnused id m d
    → Sqlite.write_manifest id m (rewritten id updated log none d)
      ≡ ok (rewritten id updated log m d)
unfolding Sqlite.write_manifest
write_manifest-ok id updated log none d admitted unused = refl
write_manifest-ok id updated log (some m) d admitted unused =
    rw
      (insert_artifacts-ok id [] m (delete_artifacts id d.execution_artifacts) admitted.0 unused.0
        unused.1)
      refl

pub created_event-IsEventOf :
    (r : ExecutionRecord) (e : ExecutionEvent)
    → created_event r ≡ ok e
    → IsEventOf r.execution_id 1 e
unfolding created_event created_event_of
created_event-IsEventOf r e h =
    let same : e ≡ created_event_of r = validate_event-eq _ h in
    record {
      own = ap (λ (e : ExecutionEvent). e.execution_id) same;
      number = ap (λ (e : ExecutionEvent). e.sequence) same;
      valid = validate_event_self _ e h;
    }

-- ===== src/Store/Writes.antt =====
-- What the writes of `InMemoryExecutionStore` leave behind.
use sandboxed_workspace_mcp.Base.{
  ℕ, suc, ◌+◌, ◌≤◌, ◌≡◌, ◌≢◌, refl, sym, subst, ap, ◌∙◌, Bool, true, false, Option, none, some, ok,
  arith, Text, List, [], ◌∷◌, ◌++◌, length, false≢true,
}
use sandboxed_workspace_mcp.Dict.{lookup, lookup-insert_self, lookup-insert_ne}
use sandboxed_workspace_mcp.Execution.State.{
  ExecutionState, starting, cancelling, ExecutionReason, ensure_execution_transition, allowed,
  is_terminal_state,
}
use sandboxed_workspace_mcp.Execution.Record.{ExecutionRecord}
use sandboxed_workspace_mcp.Execution.Event.{
  ExecutionEvent, validate_event, event_lifecycle, is_starting,
}
use sandboxed_workspace_mcp.Execution.Validation.{IsWellFormed}
use sandboxed_workspace_mcp.Store.Events.{
  transition_event, transition_event_of, cancellation_requested_event,
  cancellation_requested_event_of, created_event, created_event_of,
}
use sandboxed_workspace_mcp.Store.Append.{IsHistory, IsHistory-transition, IsHistory-cancellation}
use sandboxed_workspace_mcp.Store.Memory.{
  Store, Manifest, normalize_artifact_manifest, write_manifest, write_record,
}
use sandboxed_workspace_mcp.Store.Prune.{SameAt, SameAt-refl, SameAt-trans, IsTerminalAt}
use sandboxed_workspace_mcp.Store.Invariant.{IsStored, IsUpdate}

-- Events are built exactly as asked, or not at all.
pub validate_event-eq :
    (e : ExecutionEvent) {e' : ExecutionEvent} → validate_event e ≡ ok e' → e' ≡ e
unfolding validate_event
validate_event-eq e h = ground arith

pub created_event-eq :
    (r : ExecutionRecord) {e : ExecutionEvent}
    → created_event r ≡ ok e
    → (e ≡ created_event_of r) × (r.state ≡ starting)
unfolding created_event
created_event-eq r h = (
  validate_event-eq _ h,
  unfold validate_event event_lifecycle created_event_of is_starting in ground arith,
)

pub transition_event-eq :
    (current updated : ExecutionRecord) (n : ℕ) {e : ExecutionEvent}
    → transition_event current updated n ≡ ok e
    → e ≡ transition_event_of current updated n
unfolding transition_event
transition_event-eq current updated n h = validate_event-eq _ h

pub cancellation_requested_event-eq :
    (current : ExecutionRecord) (reason : ExecutionReason) (n time : ℕ) {e : ExecutionEvent}
    → cancellation_requested_event current reason n time ≡ ok e
    → e ≡ cancellation_requested_event_of current reason n time
unfolding cancellation_requested_event
cancellation_requested_event-eq current reason n time h = validate_event-eq _ h

pub cancelling_live : is_terminal_state cancelling ≡ false
unfolding is_terminal_state
cancelling_live = refl

pub starting_live : is_terminal_state starting ≡ false
unfolding is_terminal_state
starting_live = refl

-- A terminal record permits no transition.
pub permitted_live :
    (s t : ExecutionState) → ensure_execution_transition s t ≡ ok tt → is_terminal_state s ≡ false
unfolding ensure_execution_transition allowed is_terminal_state
permitted_live s t h = ground arith

pub not_terminal :
    (id : Text) (s : Store) (r : ExecutionRecord)
    → lookup id s.records ≡ some r
    → is_terminal_state r.state ≡ false
    → ¬ IsTerminalAt s id
not_terminal id s r e live (q, f, terminal) =
    let same : q ≡ r = cc (e, f) in
    false≢true
      (sym live ∙ (ap (λ (x : ExecutionRecord). is_terminal_state x.state) (sym same) ∙ terminal))

pub normalized_terminal :
    (id : Text) (artifacts : Option Manifest) (terminal : Bool) (m : Manifest)
    → normalize_artifact_manifest id artifacts terminal ≡ ok (some m)
    → terminal ≡ true
unfolding normalize_artifact_manifest
normalized_terminal id artifacts terminal m h = ground arith

pub write_record_ne :
    (id j : Text) (r : ExecutionRecord) (events : List ExecutionEvent) (s : Store)
    → id ≢ j
    → SameAt j s (write_record id r events s)
unfolding write_record
write_record_ne id j r events s apart = record {
  records = lookup-insert_ne id j r s.records apart;
  events = lookup-insert_ne id j events s.events apart;
  manifests = refl;
  complete = refl;
}

pub write_manifest_ne :
    (id j : Text) (m : Option Manifest) (s : Store) → id ≢ j → SameAt j s (write_manifest id m s)
unfolding write_manifest
write_manifest_ne id j none s apart = SameAt-refl j s
write_manifest_ne id j (some m) s apart = record {
  records = refl;
  events = refl;
  manifests = lookup-insert_ne id j m s.artifact_manifests apart;
  complete = lookup-insert_ne id j true s.artifact_manifest_complete apart;
}

-- A record, its extended history and its manifest, written over those of a live execution.
module _ (id : Text) (current updated : ExecutionRecord) (events : List ExecutionEvent) (s : Store)
    (old : IsStored id current s) (own : updated.execution_id ≡ id) (w : IsWellFormed updated)
    (valid_history : IsHistory updated events)
    (live : is_terminal_state current.state ≡ false) where
  written-IsStored :
      (m : Option Manifest)
      → ((n : Manifest) → m ≡ some n → is_terminal_state updated.state ≡ true)
      → IsStored id updated (write_manifest id m (write_record id updated events s))
  unfolding write_manifest write_record
  written-IsStored none final = record {
    own = own;
    well_formed = w;
    events = events;
    has_events = lookup-insert_self id events s.events;
    valid_history = valid_history;
    manifest = old.manifest;
    has_manifest = old.has_manifest;
    complete = old.complete;
    has_complete = old.has_complete;
    settled = λ c. absurd (false≢true (sym live ∙ old.settled c));
    no_partial = old.no_partial;
  }
  written-IsStored (some m) final = record {
    own = own;
    well_formed = w;
    events = events;
    has_events = lookup-insert_self id events s.events;
    valid_history = valid_history;
    manifest = m;
    has_manifest = lookup-insert_self id m s.artifact_manifests;
    complete = true;
    has_complete = lookup-insert_self id true s.artifact_manifest_complete;
    settled = λ c. final m refl;
    no_partial = λ c. cc;
  }

  written_here :
      (m : Option Manifest)
      → lookup id (write_manifest id m (write_record id updated events s)).records ≡ some updated
  unfolding write_manifest write_record
  written_here none = lookup-insert_self id updated s.records
  written_here (some m) = lookup-insert_self id updated s.records

  written_order :
      (m : Option Manifest)
      → (write_manifest id m (write_record id updated events s)).terminal_order ≡ s.terminal_order
  unfolding write_manifest write_record
  written_order none = refl
  written_order (some m) = refl

  written_limit :
      (m : Option Manifest)
      → (write_manifest id m (write_record id updated events s)).max_retained_terminal_executions
        ≡ s.max_retained_terminal_executions
  unfolding write_manifest write_record
  written_limit none = refl
  written_limit (some m) = refl

  pub written-IsUpdate :
      (m : Option Manifest)
      → ((n : Manifest) → m ≡ some n → is_terminal_state updated.state ≡ true)
      → IsUpdate id updated s (write_manifest id m (write_record id updated events s))
  written-IsUpdate m final = record {
    others = λ j apart.
        SameAt-trans (write_record_ne id j updated events s apart)
          (write_manifest_ne id j m (write_record id updated events s) apart);
    here = written_here m;
    stored = written-IsStored m final;
    order = written_order m;
    limit = written_limit m;
  }

pub IsHistory-extended :
    (current updated : ExecutionRecord) (es events : List ExecutionEvent) {e : ExecutionEvent}
    → IsHistory current es
    → es ≡ events
    → updated.execution_id ≡ current.execution_id
    → updated.created_at ≡ current.created_at
    → ensure_execution_transition current.state updated.state ≡ ok tt
    → current.updated_at ≤ updated.updated_at
    → transition_event current updated (length events + 1) ≡ ok e
    → IsHistory updated (events ++ e ∷ [])
IsHistory-extended current updated es events {e} h same id at permitted later announced =
    let n : length events + 1 ≡ suc (length events) = omega arith in
    let exact =
      transition_event-eq current updated _ announced
      ∙ ap (transition_event_of current updated) n in
    rw exact (
      IsHistory-transition current updated (subst (IsHistory current) same h) id at permitted later)

pub IsHistory-cancelled :
    (current updated : ExecutionRecord) (reason : ExecutionReason) (es events : List ExecutionEvent)
    {e f : ExecutionEvent}
    → IsHistory current es
    → es ≡ events
    → updated.execution_id ≡ current.execution_id
    → updated.created_at ≡ current.created_at
    → ensure_execution_transition current.state updated.state ≡ ok tt
    → current.updated_at ≤ updated.updated_at
    → cancellation_requested_event current reason (length events + 1) updated.updated_at ≡ ok e
    → transition_event current updated (length events + 2) ≡ ok f
    → IsHistory updated (events ++ e ∷ f ∷ [])
IsHistory-cancelled current updated reason es events {e} {f} h same id at permitted later asked
      announced =
    let n : length events + 1 ≡ suc (length events) = omega arith in
    let m : length events + 2 ≡ suc (suc (length events)) = omega arith in
    let first =
      cancellation_requested_event-eq current reason _ _ asked
      ∙ ap (λ k. cancellation_requested_event_of current reason k updated.updated_at) n in
    let second =
      transition_event-eq current updated _ announced
      ∙ ap (transition_event_of current updated) m in
    rw (first, second)
      (IsHistory-cancellation current updated (subst (IsHistory current) same h) id at permitted
        later reason)

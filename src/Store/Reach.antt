-- ===== src/Store/Reach.antt =====
-- The stores that a process can reach by the three writing operations of `InMemoryExecutionStore`
-- while its clock does not go back.
use sandboxed_workspace_mcp.Base.{
  ℕ, zero, suc, ◌≡◌, Option, true, some, ok, Text, List, [], arith, subst,
}
use sandboxed_workspace_mcp.Dict.{lookup}
use sandboxed_workspace_mcp.Execution.State.{ExecutionState, ExecutionReason}
use sandboxed_workspace_mcp.Execution.Record.{ExecutionRecord, validate_record}
use sandboxed_workspace_mcp.Execution.Event.{ExecutionEvent}
use sandboxed_workspace_mcp.Execution.Validation.{IsWellFormed, validate_record-IsWellFormed}
use sandboxed_workspace_mcp.Store.Events.{Outcome, value_or}
use sandboxed_workspace_mcp.Store.History.{validate_event_history}
use sandboxed_workspace_mcp.Store.Memory.{
  Store, Manifest, init, create, transition, request_cancellation,
}
use sandboxed_workspace_mcp.Store.Append.{IsHistory-validates}
use sandboxed_workspace_mcp.Store.Invariant.{IsValid}
use sandboxed_workspace_mcp.Store.Keeps.{
  IsLater, create-IsValid, transition-IsValid, request_cancellation-IsValid,
}

-- One call, with any arguments and any result. A record is built at its creation time, and a
-- transition is stamped no earlier than the record that it replaces.
pub data Step (s : Store) : Store → Type 0 where
  creates :
      (r : ExecutionRecord)
      → validate_record r ≡ ok r
      → r.updated_at ≡ r.created_at
      → Step s (create r s).1
  transitions :
      (id : Text) (expected : List ExecutionState) (new_state : ExecutionState) (outcome : Outcome)
      (artifacts : Option Manifest) (time : ℕ)
      → IsLater id s (value_or outcome.updated_at time)
      → Step s (transition id expected new_state outcome artifacts time s).1
  cancels :
      (id : Text) (expected : List ExecutionState) (reason : ExecutionReason) (time : ℕ)
      → IsLater id s time
      → Step s (request_cancellation id expected reason time s).1

pub data Reach (s : Store) : Store → Type 0 where
  here : Reach s s
  next : {t u : Store} → Reach s t → Step t u → Reach s u

pub Step-IsValid : {s t : Store} → Step s t → IsValid s → IsValid t
Step-IsValid {s} (creates r w at) v = create-IsValid r s v (validate_record-IsWellFormed r w) at
Step-IsValid {s} (transitions id expected new_state outcome artifacts time later) v =
    transition-IsValid id expected s v new_state outcome artifacts time later
Step-IsValid {s} (cancels id expected reason time later) v =
    request_cancellation-IsValid id expected s v reason time later

-- Every store that is reachable from a valid store by the writing operations is valid.
pub Reach-IsValid : {s t : Store} → IsValid s → Reach s t → IsValid t
Reach-IsValid v here = v
Reach-IsValid v (next r st) = Step-IsValid st (Reach-IsValid v r)

abbrev empty_store : ℕ → Store
empty_store n = record {
  max_retained_terminal_executions = n;
  records = [];
  events = [];
  artifact_manifests = [];
  artifact_manifest_complete = [];
  terminal_order = [];
}

empty_store-IsValid : (n : ℕ) → IsValid (empty_store (suc n))
unfolding lookup
empty_store-IsValid n = record {
  stored = λ j r e. cc;
  queued = λ j at. cc (at.1);
  terminal = tt;
  distinct = tt;
  bounded = omega arith;
  positive = omega arith;
}

pub init-IsValid : (n : ℕ) {s : Store} → init n ≡ ok s → IsValid s
unfolding init
init-IsValid zero h = cc
init-IsValid (suc n) {s} h =
    let same : empty_store (suc n) ≡ s = cc in subst IsValid same (empty_store-IsValid n)

-- In every reachable store, a record that can be read has an event history, the stored history passes
-- the validation of `list_events` as complete, and the record is well formed.
pub reachable_history :
    (n : ℕ) (s t : Store) (id : Text) (r : ExecutionRecord)
    → init n ≡ ok s
    → Reach s t
    → lookup id t.records ≡ some r
    → (es : List ExecutionEvent) × (lookup id t.events ≡ some es)
      × (validate_event_history r es ≡ ok true)
      × IsWellFormed r
reachable_history n s t id r started reach e =
    let held = (Reach-IsValid (init-IsValid n started) reach).stored id r e in
    (held.events, held.has_events, IsHistory-validates r held.valid_history, held.well_formed)

-- ===== src/Store/Queries.antt =====
-- The reading methods of `InMemoryExecutionStore` and `reconcile_unfinished_executions`
-- (src/workspace_guard_mcp/execution_store.py).
use sandboxed_workspace_mcp.Base.{
  ℕ, ◌+◌, Bool, true, false, not, ◌&&◌, none, some, Result, ok, err, ◌>>=◌, ◌>>◌, raise_if, Text,
  List, [], ◌∷◌, ltb, leb, length, take, filter, if◌then◌else◌,
}
use sandboxed_workspace_mcp.Dict.{Dict, lookup}
use sandboxed_workspace_mcp.Execution.State.{
  ExecutionState, starting, running, cancelling, crashed, server_restarted, Error, value_error,
  unknown_execution, key_error,
}
use sandboxed_workspace_mcp.Execution.Record.{ExecutionRecord}
use sandboxed_workspace_mcp.Execution.Event.{ExecutionEvent}
use sandboxed_workspace_mcp.Store.Events.{Outcome}
use sandboxed_workspace_mcp.Store.History.{validate_event_history}
use sandboxed_workspace_mcp.Store.Memory.{Manifest, Store, max_event_page_size, found, transition}

-- `_UNFINISHED_STATES`
unfoldable pub is_unfinished_state : ExecutionState → Bool
is_unfinished_state starting = true
is_unfinished_state running = true
is_unfinished_state cancelling = true
is_unfinished_state _ = false

unfoldable pub unfinished : Dict ExecutionRecord → List ExecutionRecord
unfinished [] = []
unfinished ((id, r) ∷ d) =
    let rest = unfinished d in if is_unfinished_state r.state then r ∷ rest else rest

unfoldable pub list_unfinished : Store → List ExecutionRecord
list_unfinished s = unfinished s.records

pub record ExecutionEventPage : Type 0 where
  pub events : List ExecutionEvent
  pub next_cursor : ℕ
  pub has_more : Bool
  pub history_complete : Bool

-- `events[-1].sequence if events else cursor`
unfoldable pub last_sequence : ℕ → List ExecutionEvent → ℕ
last_sequence cursor [] = cursor
last_sequence cursor (e ∷ es) = last_sequence e.sequence es

unfoldable pub page_of : ℕ → ℕ → List ExecutionEvent → Bool → ExecutionEventPage
page_of cursor limit all_events complete =
    let selected = filter (λ (e : ExecutionEvent). ltb cursor e.sequence) all_events in
    let page = take (limit + 1) selected in
    let events = take limit page in
    record {
      events = events;
      next_cursor = last_sequence cursor events;
      has_more = ltb limit (length page);
      history_complete = complete;
    }

unfoldable pub list_events : Text → ℕ → ℕ → Store → Result Error ExecutionEventPage
list_events id cursor limit s = do
  raise_if (not (leb 1 limit && leb limit max_event_page_size)) value_error
  r ← found (lookup id s.records) unknown_execution
  all_events ← found (lookup id s.events) key_error
  complete ← validate_event_history r all_events
  ok (page_of cursor limit all_events complete)

unfoldable pub list_artifacts : Text → Store → Result Error (Manifest × Bool)
list_artifacts id s = do
  found (lookup id s.records) unknown_execution
  manifest ← found (lookup id s.artifact_manifests) key_error
  complete ← found (lookup id s.artifact_manifest_complete) key_error
  ok (manifest, complete)

-- `reconcile_unfinished_executions`, which stops at the first error.
abbrev pub restarted : ℕ → Outcome
restarted now = record {
  reason = some server_restarted;
  exit_code = none;
  resources = none;
  started_at = none;
  finished_at = some now;
  updated_at = some now;
}

unfoldable pub reconcile_each :
    List ExecutionRecord → ℕ → Store → Result Error (List ExecutionRecord) × Store
reconcile_each [] now s = (ok [], s)
reconcile_each (r ∷ rs) now s =
    let (outcome, s') =
      transition r.execution_id (r.state ∷ []) crashed (restarted now) none now s in
    elim outcome [
      | err e ↦ (err e, s')
      | ok r' ↦
          let (others, s'') = reconcile_each rs now s' in ((do rest ← others; ok (r' ∷ rest)), s'')
    ]

unfoldable pub reconcile_unfinished_executions :
    ℕ → Store → Result Error (List ExecutionRecord) × Store
reconcile_unfinished_executions now s = reconcile_each (list_unfinished s) now s

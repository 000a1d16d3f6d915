-- ===== src/Store/Memory.antt =====
-- `InMemoryExecutionStore` of src/workspace_guard_mcp/execution_store.py. Each method holds the
-- store's lock from its first read to its last write, so it is one step. The statements that can
-- raise stand before the first write: a method is a plan, which may raise, and a commit.
use sandboxed_workspace_mcp.Base.{
  is_nil, text_in, ℕ, zero, suc, ◌+◌, Bool, true, false, not, ◌||◌, Option, none, some, Result, ok,
  err, ◌>>=◌, ◌>>◌, raise_if, Text, Text-discrete, List, [], ◌∷◌, ◌++◌, ite, ltb, length,
  if◌then◌else◌,
}
use sandboxed_workspace_mcp.Dict.{Dict, lookup, insert, erase}
use sandboxed_workspace_mcp.Execution.State.{
  ExecutionState, cancelling, ExecutionReason, Error, value_error, duplicate_execution,
  unknown_execution, execution_conflict, key_error, ExecutionState-discrete, is_terminal_state,
  ensure_execution_transition,
}
use sandboxed_workspace_mcp.Execution.Record.{ExecutionRecord}
use sandboxed_workspace_mcp.Execution.Event.{ExecutionEvent}
use sandboxed_workspace_mcp.Store.Events.{
  Outcome, created_event, transition_event, cancellation_requested_event, transitioned_record,
}

-- `ArtifactRecord` of artifact.py; its own validators are not modelled.
pub record ArtifactRecord : Type 0 where
  pub artifact_id : Text
  pub execution_id : Text
  pub name : Text
  pub media_type : Text
  pub size_bytes : ℕ
  pub sha256 : Text
  pub created_at : ℕ

abbrev pub Manifest : Type 0
Manifest = List ArtifactRecord

pub record Store : Type 0 where
  pub max_retained_terminal_executions : ℕ
  pub records : Dict ExecutionRecord
  pub events : Dict (List ExecutionEvent)
  pub artifact_manifests : Dict Manifest
  pub artifact_manifest_complete : Dict Bool
  pub terminal_order : List Text

abbrev pub max_event_page_size : ℕ
max_event_page_size = 100

abbrev pub max_artifact_manifest_items : ℕ
max_artifact_manifest_items = 100

unfoldable pub init : ℕ → Result Error Store
init zero = err value_error
init (suc n) = ok (record {
  max_retained_terminal_executions = suc n;
  records = [];
  events = [];
  artifact_manifests = [];
  artifact_manifest_complete = [];
  terminal_order = [];
})

-- `state in expected`
unfoldable pub member : ExecutionState → List ExecutionState → Bool
member s [] = false
member s (t ∷ ts) = ite (ExecutionState-discrete t s) true false || member s ts

-- `d[k]`, with the error of the handler around it.
abbrev pub found {ℓ} : {A : Type ℓ} → Option A → Error → Result Error A
found none e = err e
found (some a) e = ok a

-- `_normalize_artifact_manifest`; `seen` is the set of identifiers met so far.
unfoldable pub check_artifacts : Text → List Text → Manifest → Result Error (Unit {0})
check_artifacts id seen [] = ok tt
check_artifacts id seen (a ∷ as') =
    if ite (Text-discrete a.execution_id id) (not (text_in a.artifact_id seen)) false
    then check_artifacts id (a.artifact_id ∷ seen) as'
    else err value_error

unfoldable pub normalize_artifact_manifest :
    Text → Option Manifest → Bool → Result Error (Option Manifest)
normalize_artifact_manifest id none terminal = ok none
normalize_artifact_manifest id (some artifacts) terminal = do
  raise_if (not terminal) value_error
  raise_if (ltb max_artifact_manifest_items (length artifacts)) value_error
  check_artifacts id [] artifacts
  ok (some artifacts)

unfoldable pub add_record : ExecutionRecord → ExecutionEvent → Store → Store
add_record r event s = record s {
  records = insert r.execution_id r s.records;
  events = insert r.execution_id (event ∷ []) s.events;
  artifact_manifests = insert r.execution_id [] s.artifact_manifests;
  artifact_manifest_complete = insert r.execution_id false s.artifact_manifest_complete;
}

unfoldable pub create : ExecutionRecord → Store → Result Error (Unit {0}) × Store
create r s = elim (created_event r) [
  | err e ↦ (err e, s)
  | ok event ↦ elim (lookup r.execution_id s.records) [
    | some _ ↦ (err duplicate_execution, s)
    | none ↦ (ok tt, add_record r event s)
  ]
]

unfoldable pub get : Text → Store → Result Error ExecutionRecord
get id s = found (lookup id s.records) unknown_execution

-- The guards that `transition` and `request_cancellation` share.
unfoldable pub expect :
    Text → List ExecutionState → ExecutionState → Store → Result Error ExecutionRecord
expect id expected new_state s = do
  raise_if (is_nil expected) value_error
  current ← get id s
  raise_if (not (member current.state expected)) execution_conflict
  ensure_execution_transition current.state new_state
  ok current

-- `_prune_terminal_locked`: forget one execution, and the loop over the deque.
unfoldable pub forget : Text → Store → Store
forget id s = record s {
  records = erase id s.records;
  events = erase id s.events;
  artifact_manifests = erase id s.artifact_manifests;
  artifact_manifest_complete = erase id s.artifact_manifest_complete;
}

unfoldable pub forget_terminal : Text → Store → Store
forget_terminal id s = elim (lookup id s.records) [
  | none ↦ s
  | some r ↦ if is_terminal_state r.state then forget id s else s
]

unfoldable pub prune : List Text → Store → Store
prune [] s = record s { terminal_order = [] }
prune (id ∷ rest) s =
    let pruned = prune rest (forget_terminal id s) in
    if ltb s.max_retained_terminal_executions (length (id ∷ rest))
    then pruned
    else record s { terminal_order = id ∷ rest }

-- What `transition` has computed when it begins to write.
pub record Plan : Type 0 where
  pub updated : ExecutionRecord
  pub event : ExecutionEvent
  pub manifest : Option Manifest

unfoldable pub plan_transition :
    Text
    → List ExecutionState
    → ExecutionState
    → Outcome
    → Option Manifest
    → ℕ
    → Store
    → Result Error (Plan × List ExecutionEvent)
plan_transition id expected new_state outcome artifacts time s = do
  current ← expect id expected new_state s
  updated ← transitioned_record current new_state outcome time
  manifest ← normalize_artifact_manifest id artifacts (is_terminal_state updated.state)
  events ← found (lookup id s.events) key_error
  event ← transition_event current updated (length events + 1)
  ok (record { updated = updated; event = event; manifest = manifest }, events)

unfoldable pub write_manifest : Text → Option Manifest → Store → Store
write_manifest id none s = s
write_manifest id (some manifest) s = record s {
  artifact_manifests = insert id manifest s.artifact_manifests;
  artifact_manifest_complete = insert id true s.artifact_manifest_complete;
}

unfoldable pub write_record : Text → ExecutionRecord → List ExecutionEvent → Store → Store
write_record id updated events s = record s {
  records = insert id updated s.records;
  events = insert id events s.events;
}

unfoldable pub retire : Text → ExecutionState → Store → Store
retire id state s = if is_terminal_state state then prune (s.terminal_order ++ id ∷ []) s else s

unfoldable pub commit_transition : Text → Plan → List ExecutionEvent → Store → Store
commit_transition id p events s =
    retire id p.updated.state
      (write_manifest id p.manifest (write_record id p.updated (events ++ p.event ∷ []) s))

unfoldable pub transition :
    Text
    → List ExecutionState
    → ExecutionState
    → Outcome
    → Option Manifest
    → ℕ
    → Store
    → Result Error ExecutionRecord × Store
transition id expected new_state outcome artifacts time s =
    elim (plan_transition id expected new_state outcome artifacts time s) [
      | err e ↦ (err e, s)
      | ok (p, events) ↦ (ok p.updated, commit_transition id p events s)
    ]

-- `time` is `time.time()`, read once.
abbrev pub cancellation : ExecutionReason → ℕ → Outcome
cancellation reason time = record {
  reason = some reason;
  exit_code = none;
  resources = none;
  started_at = none;
  finished_at = none;
  updated_at = some time;
}

unfoldable pub plan_cancellation :
    Text
    → List ExecutionState
    → ExecutionReason
    → ℕ
    → Store
    → Result Error (ExecutionRecord × List ExecutionEvent)
plan_cancellation id expected reason time s = do
  current ← expect id expected cancelling s
  updated ← transitioned_record current cancelling (cancellation reason time) time
  events ← found (lookup id s.events) key_error
  requested ← cancellation_requested_event current reason (length events + 1) time
  transitioned ← transition_event current updated (length events + 2)
  ok (updated, events ++ requested ∷ transitioned ∷ [])

unfoldable pub request_cancellation :
    Text → List ExecutionState → ExecutionReason → ℕ → Store → Result Error ExecutionRecord × Store
request_cancellation id expected reason time s =
    elim (plan_cancellation id expected reason time s) [
      | err e ↦ (err e, s)
      | ok (updated, events) ↦ (ok updated, write_record id updated events s)
    ]

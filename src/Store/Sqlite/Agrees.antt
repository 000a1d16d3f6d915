-- ===== src/Store/Sqlite/Agrees.antt =====
-- When the two stores of src/workspace_guard_mcp/execution_store.py hold the same of an execution.
use sandboxed_workspace_mcp.Base.{
  ◌≡◌, refl, sym, ap, ◌∙◌, subst, Bool, true, false, Option, none, some, ok, Text, List, [], ltb,
  length, All, arith,
}
use sandboxed_workspace_mcp.Dict.{lookup}
use sandboxed_workspace_mcp.Execution.State.{ExecutionState, is_terminal_state}
use sandboxed_workspace_mcp.Execution.Record.{ExecutionRecord, validate_record}
use sandboxed_workspace_mcp.Execution.Event.{ExecutionEvent}
use sandboxed_workspace_mcp.Store.Memory
use sandboxed_workspace_mcp.Store.Memory.{
  Store, Manifest, check_artifacts, max_artifact_manifest_items, write_manifest, write_record,
  normalize_artifact_manifest,
}
use sandboxed_workspace_mcp.Store.Prune.{SameAt}
use sandboxed_workspace_mcp.Store.Pages.{Numbered}
use sandboxed_workspace_mcp.Store.Sqlite
use sandboxed_workspace_mcp.Store.Sqlite.Rows.{record_values}
use sandboxed_workspace_mcp.Store.Sqlite.Tables.{Database, events_of, artifacts_of}
use sandboxed_workspace_mcp.Store.Sqlite.RoundTrip.{
  Accounted, IsValidEvent, record_from_row-record_values,
}

-- The rows of the database are the record, the history and the manifest that the memory holds.
pub record HoldsSame (j : Text) (r : ExecutionRecord) (s : Store) (d : Database) : Type 0 where
  pub own : r.execution_id ≡ j
  pub row : lookup j d.executions ≡ some (record_values r)
  pub valid : validate_record r ≡ ok r
  pub accounted : Accounted r.resources
  pub events : List ExecutionEvent
  pub has_events : lookup j s.events ≡ some events
  pub same_events : events_of j d.execution_events ≡ events
  pub numbered : Numbered 1 events
  pub valid_events : All IsValidEvent events
  pub manifest : Manifest
  pub has_manifest : lookup j s.artifact_manifests ≡ some manifest
  pub same_artifacts : artifacts_of j d.execution_artifacts ≡ manifest
  pub small : ltb max_artifact_manifest_items (length manifest) ≡ false
  pub complete : Bool
  pub has_complete : lookup j s.artifact_manifest_complete ≡ some complete
  pub same_complete : lookup j d.execution_artifact_manifests ≡ some complete
  pub settled : complete ≡ true → is_terminal_state r.state ≡ true
  pub no_partial : complete ≡ false → manifest ≡ []

-- The database has no row of an execution that it does not know, as its foreign keys demand.
abbrev pub Clean : Database → Type 0
Clean d =
    (j : Text)
    → lookup j d.executions ≡ none
    → (events_of j d.execution_events ≡ [])
      × (lookup j d.execution_artifact_manifests ≡ none)
      × (artifacts_of j d.execution_artifacts ≡ [])

-- The database holds at least what the memory holds, which forgets old executions.
abbrev pub Agrees : Store → Database → Type 0
Agrees s d =
    ((j : Text) (r : ExecutionRecord) → lookup j s.records ≡ some r → HoldsSame j r s d) × Clean d

pub HoldsSame-same :
    {j : Text} {r : ExecutionRecord} {s t : Store} {d : Database}
    → SameAt j s t
    → HoldsSame j r s d
    → HoldsSame j r t d
HoldsSame-same same h = record {
  own = h.own;
  row = h.row;
  valid = h.valid;
  accounted = h.accounted;
  events = h.events;
  has_events = same.events ∙ h.has_events;
  same_events = h.same_events;
  numbered = h.numbered;
  valid_events = h.valid_events;
  manifest = h.manifest;
  has_manifest = same.manifests ∙ h.has_manifest;
  same_artifacts = h.same_artifacts;
  small = h.small;
  complete = h.complete;
  has_complete = same.complete ∙ h.has_complete;
  same_complete = h.same_complete;
  settled = h.settled;
  no_partial = h.no_partial;
}

-- Two databases have the same rows of one execution.
pub record SameRows (j : Text) (d b : Database) : Type 0 where
  pub executions : lookup j b.executions ≡ lookup j d.executions
  pub events : events_of j b.execution_events ≡ events_of j d.execution_events
  pub artifacts : artifacts_of j b.execution_artifacts ≡ artifacts_of j d.execution_artifacts
  pub manifests : lookup j b.execution_artifact_manifests ≡ lookup j d.execution_artifact_manifests

pub HoldsSame-rows :
    {j : Text} {r : ExecutionRecord} {s : Store} {d b : Database}
    → SameRows j d b
    → HoldsSame j r s d
    → HoldsSame j r s b
HoldsSame-rows same h = record {
  own = h.own;
  row = same.executions ∙ h.row;
  valid = h.valid;
  accounted = h.accounted;
  events = h.events;
  has_events = h.has_events;
  same_events = same.events ∙ h.same_events;
  numbered = h.numbered;
  valid_events = h.valid_events;
  manifest = h.manifest;
  has_manifest = h.has_manifest;
  same_artifacts = same.artifacts ∙ h.same_artifacts;
  small = h.small;
  complete = h.complete;
  has_complete = h.has_complete;
  same_complete = same.manifests ∙ h.same_complete;
  settled = h.settled;
  no_partial = h.no_partial;
}

pub get-same :
    (id : Text) (r : ExecutionRecord) (s : Store) (d : Database)
    → HoldsSame id r s d
    → Sqlite.get id d ≡ ok r
unfolding Sqlite.get
get-same id r s d h = rw h.row (record_from_row-record_values r h.valid h.accounted)

-- Both stores check the same guards.
pub expect-same :
    (id : Text) (expected : List ExecutionState) (new_state : ExecutionState) (r : ExecutionRecord)
    (s : Store) (d : Database)
    → lookup id s.records ≡ some r
    → HoldsSame id r s d
    → Sqlite.expect id expected new_state d ≡ Memory.expect id expected new_state s
unfolding Sqlite.expect Memory.expect Memory.get
expect-same id expected new_state r s d e h = rw (e, get-same id r s d h) refl

-- A manifest that `_normalize_artifact_manifest` has let pass.
abbrev pub Admitted : Text → Bool → Option Manifest → Type 0
Admitted id terminal none = Unit
Admitted id terminal (some m) =
    (check_artifacts id [] m ≡ ok tt)
    × (ltb max_artifact_manifest_items (length m) ≡ false)
    × (terminal ≡ true)

admitted_of :
    (id : Text) (n m : Manifest) (terminal : Bool)
    → normalize_artifact_manifest id (some n) terminal ≡ ok (some m)
    → (m ≡ n)
      × (check_artifacts id [] n ≡ ok tt)
      × (ltb max_artifact_manifest_items (length n) ≡ false)
      × (terminal ≡ true)
unfolding normalize_artifact_manifest
admitted_of id n m terminal h = (ground arith, ground arith, ground arith, ground arith)

some≢none :
    (id : Text) (n : Manifest) (terminal : Bool)
    → ¬ (normalize_artifact_manifest id (some n) terminal ≡ ok none)
unfolding normalize_artifact_manifest
some≢none id n terminal h = ground arith

none≢some :
    (id : Text) (m : Manifest) (terminal : Bool)
    → ¬ (normalize_artifact_manifest id none terminal ≡ ok (some m))
unfolding normalize_artifact_manifest
none≢some id m terminal h = cc

pub normalize_artifact_manifest-Admitted :
    (id : Text) (artifacts m : Option Manifest) (terminal : Bool)
    → normalize_artifact_manifest id artifacts terminal ≡ ok m
    → (m ≡ artifacts) × Admitted id terminal m
normalize_artifact_manifest-Admitted id none none terminal h = (refl, tt)
normalize_artifact_manifest-Admitted id none (some m) terminal h =
    absurd (none≢some id m terminal h)
normalize_artifact_manifest-Admitted id (some n) none terminal h =
    absurd (some≢none id n terminal h)
normalize_artifact_manifest-Admitted id (some n) (some m) terminal h =
    let (same, checked, small, last) = admitted_of id n m terminal h in
    (ap some same, subst (λ m. Admitted id terminal (some m)) (sym same) (checked, small, last))

-- ===== src/Store/Sqlite/Tables.antt =====
-- The tables of the SQLite database in src/workspace_guard_mcp/execution_store.py and the statements
-- on them. The tables with a text as primary key are dictionaries. A statement that breaks a primary
-- key raises; a foreign key cannot be broken, since each method reads the execution first.
use sandboxed_workspace_mcp.Base.{
  ℕ, map, text_in, ◌+◌, max, Bool, true, false, not, ◌&&◌, ◌||◌, none, some, Result, ok, err, Text,
  Text-discrete, List, [], ◌∷◌, ◌++◌, ite, ltb, leb, ◌==◌, filter, if◌then◌else◌,
}
use sandboxed_workspace_mcp.Dict.{Dict, lookup, insert}
use sandboxed_workspace_mcp.Execution.State.{
  ExecutionState, Error, store_error, execution_conflict, overflow_error,
}
use sandboxed_workspace_mcp.Execution.Record.{ExecutionRecord}
use sandboxed_workspace_mcp.Execution.Event.{ExecutionEvent}
use sandboxed_workspace_mcp.Store.Memory.{ArtifactRecord, Manifest}
use sandboxed_workspace_mcp.Store.Sqlite.Rows.{
  ExecutionRow, resource_values, state_value, reason_column, integer_fits, integers_fit,
}

pub record Database : Type 0 where
  pub executions : Dict ExecutionRow
  pub execution_events : List ExecutionEvent
  pub execution_artifact_manifests : Dict Bool
  pub execution_artifacts : Manifest

-- `ORDER BY`; equal rows keep the order of the table.
unfoldable pub insert_by {ℓ} : {A : Type ℓ} → (A → A → Bool) → A → List A → List A
insert_by le x [] = x ∷ []
insert_by le x (y ∷ ys) = let rest = insert_by le x ys in if le x y then x ∷ y ∷ ys else y ∷ rest

unfoldable pub order_by {ℓ} : {A : Type ℓ} → (A → A → Bool) → List A → List A
order_by le [] = []
order_by le (x ∷ xs) = insert_by le x (order_by le xs)

-- `WHERE execution_id = ?`
unfoldable pub is_event_of : Text → ExecutionEvent → Bool
is_event_of id e = ite (Text-discrete e.execution_id id) true false

unfoldable pub events_of : Text → List ExecutionEvent → List ExecutionEvent
events_of id = filter (is_event_of id)

abbrev pub by_sequence : ExecutionEvent → ExecutionEvent → Bool
by_sequence a b = leb a.sequence b.sequence

-- `SELECT COALESCE(MAX(sequence), 0) + 1`
unfoldable pub max_sequence : List ExecutionEvent → ℕ
max_sequence [] = 0
max_sequence (e ∷ es) = max e.sequence (max_sequence es)

unfoldable pub next_sequence : Text → List ExecutionEvent → ℕ
next_sequence id rows = max_sequence (events_of id rows) + 1

-- The primary key of `execution_events`.
unfoldable pub has_event : Text → ℕ → List ExecutionEvent → Bool
has_event id sequence [] = false
has_event id sequence (e ∷ es) =
    is_event_of id e && e.sequence == sequence || has_event id sequence es

unfoldable pub insert_event : ExecutionEvent → Database → Result Error Database
insert_event e d =
    if has_event e.execution_id e.sequence d.execution_events
    then err store_error
    else ok (record d { execution_events = d.execution_events ++ e ∷ [] })

unfoldable pub insert_manifest : Text → Database → Result Error Database
insert_manifest id d = elim (lookup id d.execution_artifact_manifests) [
  | some _ ↦ err store_error
  | none ↦
      ok
        (record d { execution_artifact_manifests = insert id false d.execution_artifact_manifests })
]

-- The columns that `UPDATE executions SET` writes.
unfoldable pub set_columns : ExecutionRecord → ExecutionRow → ExecutionRow
set_columns updated row = record row {
  state = state_value updated.state;
  updated_at = updated.updated_at;
  started_at = updated.started_at;
  finished_at = updated.finished_at;
  exit_code = updated.exit_code;
  reason = reason_column updated.reason;
  error_summary = updated.error_summary;
  resources = resource_values updated.resources;
}

-- `UPDATE executions … WHERE execution_id = ? AND state IN (…)` and the test on `rowcount`; the
-- parameters are bound first.
unfoldable pub update_execution :
    Text → List ExecutionState → ExecutionRecord → Database → Result Error Database
update_execution id expected updated d =
    if integers_fit updated.exit_code (resource_values updated.resources)
    then elim (lookup id d.executions) [
      | none ↦ err execution_conflict
      | some row ↦
          if text_in row.state (map state_value expected)
          then ok (record d { executions = insert id (set_columns updated row) d.executions })
          else err execution_conflict
    ]
    else err overflow_error

unfoldable pub is_artifact_of : Text → ArtifactRecord → Bool
is_artifact_of id a = ite (Text-discrete a.execution_id id) true false

unfoldable pub artifacts_of : Text → Manifest → Manifest
artifacts_of id = filter (is_artifact_of id)

-- `DELETE FROM execution_artifacts WHERE execution_id = ?`
unfoldable pub delete_artifacts : Text → Manifest → Manifest
delete_artifacts id = filter (λ a. not (is_artifact_of id a))

-- The primary key of `execution_artifacts`, and `executemany`.
unfoldable pub has_artifact : Text → Manifest → Bool
has_artifact id [] = false
has_artifact id (a ∷ rows) = ite (Text-discrete a.artifact_id id) true (has_artifact id rows)

unfoldable pub insert_artifacts : Manifest → Manifest → Result Error Manifest
insert_artifacts [] rows = ok rows
insert_artifacts (a ∷ artifacts) rows =
    let others = insert_artifacts artifacts (rows ++ a ∷ []) in
    if integer_fits a.size_bytes
    then (if has_artifact a.artifact_id rows then err store_error else others)
    else err overflow_error

-- `UPDATE execution_artifact_manifests SET complete = 1 WHERE execution_id = ?`
unfoldable pub set_complete : Text → Dict Bool → Dict Bool
set_complete id d = elim (lookup id d) [ none ↦ d | some _ ↦ insert id true d ]

-- The text order of SQLite's `BINARY` collation.
unfoldable pub text_before : Text → Text → Bool
text_before [] t = true
text_before (c ∷ s) [] = false
text_before (c ∷ s) (e ∷ t) = ltb c e || c == e && text_before s t

-- `ORDER BY created_at, artifact_id`
unfoldable pub by_creation : ArtifactRecord → ArtifactRecord → Bool
by_creation a b =
    ltb a.created_at b.created_at
    || a.created_at == b.created_at && text_before a.artifact_id b.artifact_id

abbrev pub row_order : ExecutionRow → ExecutionRow → Bool
row_order a b = leb a.created_at b.created_at

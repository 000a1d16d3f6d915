-- ===== src/Store/Sqlite/Created.antt =====
-- `SqliteExecutionStore` against `InMemoryExecutionStore` (src/workspace_guard_mcp/execution_store.py):
-- new executions.
use sandboxed_workspace_mcp.Base.{
  ◌≡◌, ◌≢◌, refl, sym, ap, ◌∙◌, subst, true, false, false≢true, Option, none, some, ok, err,
  Result-cases, Option-cases, Text, Text-discrete, List, [], ◌∷◌, ◌++◌, inl, inr,
}
use sandboxed_workspace_mcp.Dict.{lookup, insert, lookup-insert_self, lookup-insert_ne}
use sandboxed_workspace_mcp.Execution.State.{duplicate_execution}
use sandboxed_workspace_mcp.Execution.Record.{ExecutionRecord, validate_record}
use sandboxed_workspace_mcp.Execution.Event.{ExecutionEvent}
use sandboxed_workspace_mcp.Store.Events.{created_event}
use sandboxed_workspace_mcp.Store.Memory
use sandboxed_workspace_mcp.Store.Memory.{Store, add_record}
use sandboxed_workspace_mcp.Store.Sqlite
use sandboxed_workspace_mcp.Store.Sqlite.{insert_execution}
use sandboxed_workspace_mcp.Store.Sqlite.Rows.{
  ExecutionRow, record_values, resource_values, integers_fit,
}
use sandboxed_workspace_mcp.Store.Sqlite.Tables.{
  Database, events_of, next_sequence, max_sequence, has_event, insert_manifest,
}
use sandboxed_workspace_mcp.Store.Sqlite.RoundTrip.{Accounted}
use sandboxed_workspace_mcp.Store.Sqlite.Selected.{events_of-append_own, events_of-append_other}
use sandboxed_workspace_mcp.Store.Sqlite.Agrees.{
  Clean, HoldsSame, HoldsSame-same, SameRows, HoldsSame-rows, Agrees,
}
use sandboxed_workspace_mcp.Store.Sqlite.Changed.{
  IsEventOf, created_event-IsEventOf, insert_event-ok,
}
use sandboxed_workspace_mcp.Store.Sqlite.Simulated.{next_free_above}

first_number :
    (id : Text) (rows : List ExecutionEvent) → events_of id rows ≡ [] → next_sequence id rows ≡ 1
unfolding next_sequence max_sequence
first_number id rows none_yet = rw none_yet refl

-- The first number is free where there are no events.
first_free :
    (id : Text) (rows : List ExecutionEvent) → events_of id rows ≡ [] → has_event id 1 rows ≡ false
first_free id rows none_yet = next_free_above id rows 1 (first_number id rows none_yet)

module _ (r : ExecutionRecord) (s : Store) (d : Database) (agrees : Agrees s d)
    (valid : validate_record r ≡ ok r) (accounted : Accounted r.resources)
    (fits : integers_fit r.exit_code (resource_values r.resources) ≡ true) where
  abbrev with_record : ExecutionEvent → Database
  with_record event = record {
    executions = insert r.execution_id (record_values r) d.executions;
    execution_events = d.execution_events ++ event ∷ [];
    execution_artifact_manifests = insert r.execution_id false d.execution_artifact_manifests;
    execution_artifacts = d.execution_artifacts;
  }

  added_here :
      (event : ExecutionEvent)
      → IsEventOf r.execution_id 1 event
      → lookup r.execution_id d.executions ≡ none
      → HoldsSame r.execution_id r (add_record r event s) (with_record event)
  unfolding add_record
  added_here event made absent =
      let (no_events, no_manifest, no_artifacts) = agrees.1 r.execution_id absent in
      record {
        own = refl;
        row = lookup-insert_self r.execution_id (record_values r) d.executions;
        valid = valid;
        accounted = accounted;
        events = event ∷ [];
        has_events = lookup-insert_self r.execution_id (event ∷ []) s.events;
        same_events =
            events_of-append_own r.execution_id d.execution_events event made.own
            ∙ ap (λ es. es ++ event ∷ []) no_events;
        numbered = (made.number, tt);
        valid_events = (made.valid, tt);
        manifest = [];
        has_manifest = lookup-insert_self r.execution_id [] s.artifact_manifests;
        same_artifacts = no_artifacts;
        small = refl;
        complete = false;
        has_complete = lookup-insert_self r.execution_id false s.artifact_manifest_complete;
        same_complete = lookup-insert_self r.execution_id false d.execution_artifact_manifests;
        settled = λ c. absurd (false≢true c);
        no_partial = λ c. refl;
      }

  with_record-SameRows :
      (event : ExecutionEvent) (j : Text)
      → r.execution_id ≢ j
      → event.execution_id ≡ r.execution_id
      → SameRows j d (with_record event)
  with_record-SameRows event j apart own = record {
    executions = lookup-insert_ne r.execution_id j (record_values r) d.executions apart;
    events = events_of-append_other j d.execution_events event λ f. apart (sym own ∙ f);
    artifacts = refl;
    manifests = lookup-insert_ne r.execution_id j false d.execution_artifact_manifests apart;
  }

  added_there :
      (event : ExecutionEvent) (j : Text) (q : ExecutionRecord)
      → r.execution_id ≢ j
      → event.execution_id ≡ r.execution_id
      → HoldsSame j q s d
      → HoldsSame j q (add_record r event s) (with_record event)
  unfolding add_record
  added_there event j q apart own old =
      HoldsSame-same
        record {
          records = lookup-insert_ne r.execution_id j r s.records apart;
          events = lookup-insert_ne r.execution_id j (event ∷ []) s.events apart;
          manifests = lookup-insert_ne r.execution_id j [] s.artifact_manifests apart;
          complete = lookup-insert_ne r.execution_id j false s.artifact_manifest_complete apart;
        }
        (HoldsSame-rows (with_record-SameRows event j apart own) old)

  added-Clean :
      (event : ExecutionEvent) → event.execution_id ≡ r.execution_id → Clean (with_record event)
  added-Clean event own j absent = elim (Text-discrete r.execution_id j) [
    | yes here ↦ absurd (
        some_and_none (record_values r)
          (lookup j (insert r.execution_id (record_values r) d.executions))
          (subst
            (λ k.
              lookup k (insert r.execution_id (record_values r) d.executions)
              ≡ some (record_values r))
            here (lookup-insert_self r.execution_id (record_values r) d.executions))
          absent)
    | no apart ↦
        let before =
          sym (lookup-insert_ne r.execution_id j (record_values r) d.executions apart) ∙ absent in
        let (no_events, no_manifest, no_artifacts) = agrees.1 j before in
        (
          events_of-append_other j d.execution_events event (λ f. apart (sym own ∙ f)) ∙ no_events,
          lookup-insert_ne r.execution_id j false d.execution_artifact_manifests apart
              ∙ no_manifest,
          no_artifacts,
        )
  ]
    where
      some_and_none : (row : ExecutionRow) (o : Option ExecutionRow) → o ≡ some row → ¬ (o ≡ none)
      some_and_none row o e n = cc

  added-Agrees :
      (event : ExecutionEvent)
      → IsEventOf r.execution_id 1 event
      → lookup r.execution_id d.executions ≡ none
      → Agrees (add_record r event s) (with_record event)
  unfolding add_record
  added-Agrees event made absent = (
    (λ j q f. elim (Text-discrete r.execution_id j) [
      | yes here ↦
          let found = lookup-insert_self r.execution_id r s.records in
          let same : r ≡ q =
            cc (f, found, ap (λ k. lookup k (add_record r event s).records) here) in
          subst (λ k. HoldsSame k q (add_record r event s) (with_record event)) here
            (subst (λ x. HoldsSame r.execution_id x (add_record r event s) (with_record event)) same
              (added_here event made absent))
      | no apart ↦
          added_there event j q apart made.own
            (agrees.0 j q (sym (lookup-insert_ne r.execution_id j r s.records apart) ∙ f))
    ]),
    added-Clean event made.own,
  )

  insert_execution-ok :
      lookup r.execution_id d.executions ≡ none
      → insert_execution r d
        ≡ ok (record d { executions = insert r.execution_id (record_values r) d.executions })
  unfolding insert_execution
  insert_execution-ok missing = rw fits (rw (missing, insert_execution) refl)

  insert_execution-err :
      (row : ExecutionRow)
      → lookup r.execution_id d.executions ≡ some row
      → insert_execution r d ≡ err duplicate_execution
  unfolding insert_execution
  insert_execution-err row found = rw fits (rw (found, insert_execution) refl)

  insert_manifest-ok :
      (id : Text) (b : Database)
      → lookup id b.execution_artifact_manifests ≡ none
      → insert_manifest id b
        ≡ ok (record b {
          execution_artifact_manifests = insert id false b.execution_artifact_manifests;
        })
  unfolding insert_manifest
  insert_manifest-ok id b missing = rw (missing, insert_manifest) refl

  created_alike :
      (event : ExecutionEvent)
      → created_event r ≡ ok event
      → lookup r.execution_id s.records ≡ none
      → lookup r.execution_id d.executions ≡ none
      → ((Sqlite.create r d).0 ≡ (Memory.create r s).0)
        × Agrees (Memory.create r s).1 (Sqlite.create r d).1
  unfolding Sqlite.create Memory.create
  created_alike event made absent missing =
      let (no_events, no_manifest, no_artifacts) = agrees.1 r.execution_id missing in
      let built = created_event-IsEventOf r event made in
      let log =
        insert_event-ok r.execution_id 1 event
          (record d { executions = insert r.execution_id (record_values r) d.executions }) built
          (first_free r.execution_id d.execution_events no_events) in
      let listed =
        insert_manifest-ok r.execution_id
          (record d {
            executions = insert r.execution_id (record_values r) d.executions;
            execution_events = d.execution_events ++ event ∷ [];
          })
          no_manifest in
      rw (made, insert_execution-ok missing, log, listed, absent, Memory.create)
        (refl, added-Agrees event built missing)

  -- Where the database has no execution under an identifier that the memory has forgotten, both
  -- stores answer the creation of a record alike, and the database then still holds what the memory
  -- holds.
  pub create-Agrees :
      (lookup r.execution_id s.records ≡ none → lookup r.execution_id d.executions ≡ none)
      → ((Sqlite.create r d).0 ≡ (Memory.create r s).0)
        × Agrees (Memory.create r s).1 (Sqlite.create r d).1
  unfolding Sqlite.create Memory.create
  create-Agrees missing = elim (Result-cases (created_event r)) [
    | inr (x, bad) ↦ rw (bad, Memory.create) (refl, agrees)
    | inl (event, made) ↦ elim (Option-cases (lookup r.execution_id s.records)) [
      | inl absent ↦ created_alike event made absent (missing absent)
      | inr (q, present) ↦
          let row = (agrees.0 r.execution_id q present).row in
          rw (made, insert_execution-err _ row, present, Memory.create) (refl, agrees)
    ]
  ]

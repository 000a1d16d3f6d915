-- ===== src/Store/Sqlite/Runs.antt =====
-- Both stores of src/workspace_guard_mcp/execution_store.py under the same calls, from their start.
use sandboxed_workspace_mcp.Base.{
  ℕ, true, zero, suc, ◌≡◌, refl, subst, Option, none, some, ok, ◌>>=◌, Text, List, [],
}
use sandboxed_workspace_mcp.Dict.{lookup}
use sandboxed_workspace_mcp.Execution.State.{ExecutionState, ExecutionReason}
use sandboxed_workspace_mcp.Execution.Record.{ExecutionRecord, validate_record}
use sandboxed_workspace_mcp.Store.Events.{Outcome}
use sandboxed_workspace_mcp.Store.Memory
use sandboxed_workspace_mcp.Store.Memory.{Store, Manifest, init}
use sandboxed_workspace_mcp.Store.Queries
use sandboxed_workspace_mcp.Store.Sqlite
use sandboxed_workspace_mcp.Store.Sqlite.Rows.{integers_fit, resource_values}
use sandboxed_workspace_mcp.Store.Sqlite.Tables.{
  Database, order_by, by_creation, events_of, artifacts_of,
}
use sandboxed_workspace_mcp.Store.Sqlite.RoundTrip.{Accounted}
use sandboxed_workspace_mcp.Store.Sqlite.Agrees.{Agrees}
use sandboxed_workspace_mcp.Store.Sqlite.Changed.{IsUnused, OutcomeFits}
use sandboxed_workspace_mcp.Store.Sqlite.Simulated.{transition-Agrees}
use sandboxed_workspace_mcp.Store.Sqlite.Cancelled.{request_cancellation-Agrees}
use sandboxed_workspace_mcp.Store.Sqlite.Created.{create-Agrees}
use sandboxed_workspace_mcp.Store.Sqlite.Reads.{
  get-Agrees, list_events-Agrees, list_artifacts-Agrees,
}

-- One call on both stores, with any result. An identifier that the memory has forgotten is not used
-- again, the updated execution is one that the memory holds, artifacts have new identifiers, and exit
-- codes, resources and artifact sizes fit in 64 bits.
pub data BothStep (s : Store) (d : Database) : Store → Database → Type 0 where
  creates :
      (r : ExecutionRecord)
      → validate_record r ≡ ok r
      → Accounted r.resources
      → integers_fit r.exit_code (resource_values r.resources) ≡ true
      → (lookup r.execution_id s.records ≡ none → lookup r.execution_id d.executions ≡ none)
      → BothStep s d (Memory.create r s).1 (Sqlite.create r d).1
  transitions :
      (id : Text) (expected : List ExecutionState) (new_state : ExecutionState) (outcome : Outcome)
      (artifacts : Option Manifest) (time : ℕ) (current : ExecutionRecord)
      → lookup id s.records ≡ some current
      → IsUnused id artifacts d
      → Accounted outcome.resources
      → OutcomeFits outcome
      → BothStep s d
          (Memory.transition id expected new_state outcome artifacts time s).1
          (Sqlite.transition id expected new_state outcome artifacts time d).1
  cancels :
      (id : Text) (expected : List ExecutionState) (reason : ExecutionReason) (time : ℕ)
      (current : ExecutionRecord)
      → lookup id s.records ≡ some current
      → BothStep s d
          (Memory.request_cancellation id expected reason time s).1
          (Sqlite.request_cancellation id expected reason time d).1

pub data BothRun (s : Store) (d : Database) : Store → Database → Type 0 where
  here : BothRun s d s d
  next : {t u : Store} {b c : Database} → BothRun s d t b → BothStep t b u c → BothRun s d u c

BothStep-Agrees :
    {s : Store} {d : Database} {t : Store} {b : Database}
    → Agrees s d
    → BothStep s d t b
    → Agrees t b
BothStep-Agrees {s} {d} agrees (creates r valid accounted fits missing) =
    (create-Agrees r s d agrees valid accounted fits missing).1
BothStep-Agrees {s} {d} agrees
      (transitions id expected new_state outcome artifacts time current e unused accounted fits) =
    (transition-Agrees id expected new_state outcome artifacts time s d agrees current e unused
      accounted fits).1
BothStep-Agrees {s} {d} agrees (cancels id expected reason time current e) =
    (request_cancellation-Agrees id expected reason time s d agrees current e).1

pub BothRun-Agrees :
    {s : Store} {d : Database} {t : Store} {b : Database}
    → Agrees s d
    → BothRun s d t b
    → Agrees t b
BothRun-Agrees agrees here = agrees
BothRun-Agrees agrees (next run step) = BothStep-Agrees (BothRun-Agrees agrees run) step

-- The tables as `_initialize` creates them.
abbrev pub new_database : Database
new_database = record {
  executions = [];
  execution_events = [];
  execution_artifact_manifests = [];
  execution_artifacts = [];
}

none≢some : (r : ExecutionRecord) → ¬ (Path (Option ExecutionRecord) none (some r))
none≢some r h = cc

no_records : (n : ℕ) (s : Store) → init n ≡ ok s → s.records ≡ []
unfolding init
no_records zero s h = cc
no_records (suc n) s h = cc

pub new-Agrees : (n : ℕ) (s : Store) → init n ≡ ok s → Agrees s new_database
unfolding lookup events_of artifacts_of
new-Agrees n s h = (
  (λ j r e.
      absurd (none≢some r (subst (λ records. lookup j records ≡ some r) (no_records n s h) e))),
  λ j absent. (refl, refl, refl),
)

-- After the same calls from new stores, under the conditions on a call (`BothStep`), for each execution
-- that the store in memory still holds, both stores return the same record, the same pages of its
-- events and the same artifacts, those of the database in the order of their creation times.
pub runs_alike :
    (n : ℕ) (s t : Store) (b : Database) (id : Text) (r : ExecutionRecord)
    → init n ≡ ok s
    → BothRun s new_database t b
    → lookup id t.records ≡ some r
    → (Sqlite.get id b ≡ Memory.get id t)
      × ((cursor limit : ℕ)
          → Sqlite.list_events id cursor limit b ≡ Queries.list_events id cursor limit t)
      × (Sqlite.list_artifacts id b ≡ (
          Queries.list_artifacts id t >>= λ (manifest, complete).
          ok (order_by by_creation manifest, complete)))
runs_alike n s t b id r started run e =
    let agrees = BothRun-Agrees (new-Agrees n s started) run in
    (
      get-Agrees id t b agrees r e,
      list_events-Agrees id t b agrees r e,
      list_artifacts-Agrees id t b agrees r e,
    )

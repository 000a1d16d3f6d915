-- ===== src/Tests/SqliteRuns.antt =====
-- The theorems on the SQLite store, applied to runs of both stores.
use sandboxed_workspace_mcp.Base.{
  true, ℕ, ◌≡◌, refl, none, utf8_size, utf8_width, Text-discrete, ok, ◌>>=◌, [], ◌∷◌,
}
use sandboxed_workspace_mcp.Dict.{lookup, insert}
use sandboxed_workspace_mcp.Execution.State.{starting, running, user_cancelled}
use sandboxed_workspace_mcp.Execution.Record.{execution_id_bounded, error_summary_bounded}
use sandboxed_workspace_mcp.Execution.Event.{validate_event, event_lifecycle}
use sandboxed_workspace_mcp.Store.Events.{created_event, created_event_of}
use sandboxed_workspace_mcp.Store.Memory
use sandboxed_workspace_mcp.Store.Queries
use sandboxed_workspace_mcp.Store.Sqlite
use sandboxed_workspace_mcp.Store.Sqlite.Rows.{
  integers_fit, resource_values, signed_fits, column_fits,
}
use sandboxed_workspace_mcp.Store.Sqlite.Tables.{
  Database, insert_event, has_event, insert_manifest, order_by, by_creation,
}
use sandboxed_workspace_mcp.Store.Sqlite.Agrees.{Agrees}
use sandboxed_workspace_mcp.Store.Sqlite.Simulated.{transition-Agrees}
use sandboxed_workspace_mcp.Store.Sqlite.Cancelled.{request_cancellation-Agrees}
use sandboxed_workspace_mcp.Store.Sqlite.Runs.{
  BothRun, here, next, creates, transitions, BothRun-Agrees, new_database, new-Agrees, runs_alike,
}
use sandboxed_workspace_mcp.Tests.Records.{
  first_id, second_id, first_record, second_record, running_record, start_outcome, empty_run,
  two_run, running_run, first_valid, second_valid, init_empty, two_holds, running_holds,
}

abbrev one_data : Database
one_data = (Sqlite.create first_record new_database).1

abbrev two_data : Database
two_data = (Sqlite.create second_record one_data).1

abbrev running_data : Database
running_data = (Sqlite.transition first_id (starting ∷ []) running start_outcome none 12 two_data).1

no_first : lookup first_id new_database.executions ≡ none
unfolding lookup
no_first = refl

no_second : lookup second_id one_data.executions ≡ none
unfolding lookup Sqlite.create created_event validate_event execution_id_bounded created_event_of
    utf8_size utf8_width error_summary_bounded event_lifecycle Sqlite.insert_execution insert_event
    has_event insert_manifest insert Text-discrete integers_fit signed_fits column_fits
    resource_values
no_second = refl

fresh_fits : integers_fit none (resource_values none) ≡ true
unfolding integers_fit resource_values signed_fits column_fits
fresh_fits = refl

two_together : BothRun empty_run new_database two_run two_data
two_together =
    next (next here (creates first_record first_valid tt fresh_fits (λ e. no_first)))
      (creates second_record second_valid tt fresh_fits (λ e. no_second))

running_together : BothRun empty_run new_database running_run running_data
running_together = next two_together (
    transitions first_id (starting ∷ []) running start_outcome none 12 first_record two_holds tt tt
      fresh_fits)

two-Agrees : Agrees two_run two_data
two-Agrees = BothRun-Agrees (new-Agrees 1 empty_run init_empty) two_together

running-Agrees : Agrees running_run running_data
running-Agrees = BothRun-Agrees (new-Agrees 1 empty_run init_empty) running_together

runs_alike_example :
    (Sqlite.get first_id running_data ≡ Memory.get first_id running_run)
    × ((cursor limit : ℕ)
        → Sqlite.list_events first_id cursor limit running_data
          ≡ Queries.list_events first_id cursor limit running_run)
    × (Sqlite.list_artifacts first_id running_data ≡ (
        Queries.list_artifacts first_id running_run >>= λ (manifest, complete).
        ok (order_by by_creation manifest, complete)))
runs_alike_example =
    runs_alike 1 empty_run running_run running_data first_id running_record init_empty
      running_together running_holds

transition-Agrees_example :
    ((Sqlite.transition first_id (starting ∷ []) running start_outcome none 12 two_data).0
      ≡ (Memory.transition first_id (starting ∷ []) running start_outcome none 12 two_run).0)
    × Agrees running_run running_data
transition-Agrees_example =
    transition-Agrees first_id (starting ∷ []) running start_outcome none 12 two_run two_data
      two-Agrees first_record two_holds tt tt fresh_fits

request_cancellation-Agrees_example :
    ((Sqlite.request_cancellation first_id (running ∷ []) user_cancelled 13 running_data).0
      ≡ (Memory.request_cancellation first_id (running ∷ []) user_cancelled 13 running_run).0)
    × Agrees
        (Memory.request_cancellation first_id (running ∷ []) user_cancelled 13 running_run).1
        (Sqlite.request_cancellation first_id (running ∷ []) user_cancelled 13 running_data).1
request_cancellation-Agrees_example =
    request_cancellation-Agrees first_id (running ∷ []) user_cancelled 13 running_run running_data
      running-Agrees running_record running_holds

-- ===== src/Store/Sqlite/Reads.antt =====
-- `SqliteExecutionStore` against `InMemoryExecutionStore` (src/workspace_guard_mcp/execution_store.py):
-- the reading methods.
use sandboxed_workspace_mcp.Base.{
  ℕ, suc, ◌≡◌, refl, sym, ap, ◌∙◌, subst, Bool, true, false, some, ok, ◌>>=◌, Text, List, [], ◌∷◌,
  ltb, length, arith,
}
use sandboxed_workspace_mcp.Dict.{lookup}
use sandboxed_workspace_mcp.Execution.State.{is_terminal_state}
use sandboxed_workspace_mcp.Execution.Record.{ExecutionRecord}
use sandboxed_workspace_mcp.Store.Memory
use sandboxed_workspace_mcp.Store.Memory.{
  Store, Manifest, max_event_page_size, max_artifact_manifest_items,
}
use sandboxed_workspace_mcp.Store.Queries
use sandboxed_workspace_mcp.Store.Sqlite
use sandboxed_workspace_mcp.Store.Sqlite.{read_manifest}
use sandboxed_workspace_mcp.Store.Sqlite.Tables.{
  Database, order_by, insert_by, by_sequence, by_creation,
}
use sandboxed_workspace_mcp.Store.Sqlite.RoundTrip.{
  record_from_row-record_values, events_from_rows-eq,
}
use sandboxed_workspace_mcp.Store.Sqlite.Selected.{order_by-Numbered}
use sandboxed_workspace_mcp.Store.Sqlite.Agrees.{Agrees, get-same}

length-insert_by {ℓ} :
    {A : Type ℓ} (le : A → A → Bool) (x : A) (xs : List A)
    → length (insert_by le x xs) ≡ suc (length xs)
unfolding insert_by
length-insert_by le x [] = refl
length-insert_by le x (y ∷ ys) = ground (arith, length-insert_by le x ys)

length-order_by {ℓ} :
    {A : Type ℓ} (le : A → A → Bool) (xs : List A) → length (order_by le xs) ≡ length xs
unfolding order_by
length-order_by le [] = refl
length-order_by le (x ∷ xs) =
    length-insert_by le x (order_by le xs) ∙ ap suc (length-order_by le xs)

module _ (id : Text) (s : Store) (d : Database) (agrees : Agrees s d) (r : ExecutionRecord)
    (e : lookup id s.records ≡ some r) where
  -- Both stores return the same record and the same pages of events, or the same error, for each
  -- execution that the store in memory still holds; the database returns the same manifest, in the
  -- order of its creation times.
  pub get-Agrees : Sqlite.get id d ≡ Memory.get id s
  unfolding Memory.get
  get-Agrees = rw e (get-same id r s d (agrees.0 id r e))

  pub list_events-Agrees :
      (cursor limit : ℕ)
      → Sqlite.list_events id cursor limit d ≡ Queries.list_events id cursor limit s
  unfolding Sqlite.list_events Queries.list_events
  list_events-Agrees cursor limit =
      let h = agrees.0 id r e in
      let read = record_from_row-record_values r h.valid h.accounted in
      let sorted =
        ap (order_by by_sequence) h.same_events ∙ order_by-Numbered 1 h.events h.numbered in
      rw (e, h.row, read, sorted, events_from_rows-eq h.events h.valid_events, h.has_events) refl

  passes :
      (complete : Bool) (m : Manifest)
      → ltb max_artifact_manifest_items (length m) ≡ false
      → (complete ≡ false → m ≡ [])
      → (complete ≡ true → is_terminal_state r.state ≡ true)
      → read_manifest r complete (order_by by_creation m) ≡ ok (order_by by_creation m, complete)
  unfolding read_manifest
  passes true m small partial settled = rw (length-order_by by_creation m, small, settled refl) refl
  passes false m small partial settled =
      subst
        (λ m. read_manifest r false (order_by by_creation m) ≡ ok (order_by by_creation m, false))
        (sym (partial refl)) (unfold order_by in refl)

  pub list_artifacts-Agrees : Sqlite.list_artifacts id d ≡ (
      Queries.list_artifacts id s >>= λ (manifest, complete).
      ok (order_by by_creation manifest, complete))
  unfolding Sqlite.list_artifacts Queries.list_artifacts
  list_artifacts-Agrees =
      let h = agrees.0 id r e in
      let read = record_from_row-record_values r h.valid h.accounted in
      rw (e, h.row, h.same_complete, read, h.same_artifacts, h.has_manifest, h.has_complete)
        (passes h.complete h.manifest h.small h.no_partial h.settled)

-- ===== src/Store/Sqlite/Kept.antt =====
-- A write of the same to both stores of src/workspace_guard_mcp/execution_store.py keeps what they
-- share.
use sandboxed_workspace_mcp.Base.{
  Text-discrete, ◌≡◌, ◌≢◌, sym, ap, ◌∙◌, subst, false, Option, none, some, ok, Text, List, ◌++◌,
  All,
}
use sandboxed_workspace_mcp.Dict.{lookup, lookup-insert_self, lookup-insert_ne}
use sandboxed_workspace_mcp.Execution.State.{is_terminal_state}
use sandboxed_workspace_mcp.Execution.Record.{ExecutionRecord, validate_record}
use sandboxed_workspace_mcp.Execution.Event.{ExecutionEvent}
use sandboxed_workspace_mcp.Store.Memory.{Store, Manifest, write_manifest, write_record}
use sandboxed_workspace_mcp.Store.Pages.{Numbered}
use sandboxed_workspace_mcp.Store.Sqlite.Rows.{ExecutionRow, record_values}
use sandboxed_workspace_mcp.Store.Sqlite.Tables.{Database, events_of}
use sandboxed_workspace_mcp.Store.Sqlite.RoundTrip.{Accounted, IsValidEvent}
use sandboxed_workspace_mcp.Store.Sqlite.Agrees.{Clean, HoldsSame, Agrees, Admitted}
use sandboxed_workspace_mcp.Store.Sqlite.Rewritten.{
  rewritten, updated_store, rewritten-SameRows, HoldsSame-here, HoldsSame-there,
}

updated_here :
    (id : Text) (updated : ExecutionRecord) (events : List ExecutionEvent) (m : Option Manifest)
    (s : Store)
    → lookup id (updated_store id updated events m s).records ≡ some updated
unfolding write_manifest write_record
updated_here id updated events none s = lookup-insert_self id updated s.records
updated_here id updated events (some m) s = lookup-insert_self id updated s.records

updated_there :
    (id j : Text) (updated : ExecutionRecord) (events : List ExecutionEvent) (m : Option Manifest)
    (s : Store)
    → id ≢ j
    → lookup j (updated_store id updated events m s).records ≡ lookup j s.records
unfolding write_manifest write_record
updated_there id j updated events none s apart = lookup-insert_ne id j updated s.records apart
updated_there id j updated events (some m) s apart = lookup-insert_ne id j updated s.records apart

some_and_none : (row : ExecutionRow) (o : Option ExecutionRow) → o ≡ some row → ¬ (o ≡ none)
some_and_none row o e n = cc

rewritten-Clean :
    (id : Text) (updated : ExecutionRecord) (log : List ExecutionEvent) (m : Option Manifest)
    (d : Database)
    → Clean d
    → ((j : Text) → id ≢ j → events_of j log ≡ events_of j d.execution_events)
    → Admitted id (is_terminal_state updated.state) m
    → Clean (rewritten id updated log m d)
rewritten-Clean id updated log m d clean others admitted j absent = elim (Text-discrete id j) [
  | yes here ↦ absurd (
      some_and_none (record_values updated) (lookup j (rewritten id updated log m d).executions)
        (subst
          (λ k. lookup k (rewritten id updated log m d).executions ≡ some (record_values updated))
          here (present m))
        absent)
  | no apart ↦
      let same = rewritten-SameRows id updated log d j m apart (others j apart) admitted in
      let (no_events, no_manifest, no_artifacts) = clean j (sym same.executions ∙ absent) in
      (same.events ∙ no_events, same.manifests ∙ no_manifest, same.artifacts ∙ no_artifacts)
]
  where
    present :
        (m : Option Manifest)
        → lookup id (rewritten id updated log m d).executions ≡ some (record_values updated)
    present none = lookup-insert_self id (record_values updated) d.executions
    present (some m) = lookup-insert_self id (record_values updated) d.executions

-- A method that writes the same to both stores keeps them in agreement.
pub rewritten-Agrees :
    (id : Text) (current updated : ExecutionRecord) (log events more : List ExecutionEvent)
    (m : Option Manifest) (s : Store) (d : Database) (agrees : Agrees s d)
    (old : HoldsSame id current s d)
    → events ≡ old.events ++ more
    → updated.execution_id ≡ id
    → validate_record updated ≡ ok updated
    → Accounted updated.resources
    → is_terminal_state current.state ≡ false
    → (events_of id log ≡ old.events ++ more)
      × Numbered 1 (old.events ++ more)
      × All IsValidEvent (old.events ++ more)
    → ((j : Text) → id ≢ j → events_of j log ≡ events_of j d.execution_events)
    → Admitted id (is_terminal_state updated.state) m
    → Agrees (updated_store id updated events m s) (rewritten id updated log m d)
rewritten-Agrees id current updated log events more m s d agrees old grown own valid accounted live
      (logged, numbered, checked) others admitted =
    (holds, rewritten-Clean id updated log m d agrees.1 others admitted)
  where
    holds :
        (j : Text) (q : ExecutionRecord)
        → lookup j (updated_store id updated events m s).records ≡ some q
        → HoldsSame j q (updated_store id updated events m s) (rewritten id updated log m d)
    holds j q f = elim (Text-discrete id j) [
      | no apart ↦
          HoldsSame-there id updated log s d j q events m apart (others j apart) admitted
            (agrees.0 j q (sym (updated_there id j updated events m s apart) ∙ f))
      | yes here ↦
          let found = updated_here id updated events m s in
          let same : updated ≡ q =
            cc (f, found, ap (λ k. lookup k (updated_store id updated events m s).records) here) in
          let same_here =
            HoldsSame-here id updated log s d current more m old own valid accounted live logged
              numbered checked admitted in
          subst
            (λ k.
              HoldsSame k q (updated_store id updated events m s) (rewritten id updated log m d))
            here
            (subst
              (λ r.
                HoldsSame id r (updated_store id updated events m s) (rewritten id updated log m d))
              same
              (subst
                (λ es.
                  HoldsSame id updated (updated_store id updated es m s)
                    (rewritten id updated log m d))
                (sym grown) same_here))
    ]

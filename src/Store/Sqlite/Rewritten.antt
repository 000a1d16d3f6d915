-- ===== src/Store/Sqlite/Rewritten.antt =====
-- Both stores of src/workspace_guard_mcp/execution_store.py after a method has written.
use sandboxed_workspace_mcp.Base.{
  ◌≡◌, ◌≢◌, refl, sym, ◌∙◌, Bool, true, false, false≢true, Option, none, some, ok, Text, List, [],
  ◌++◌, All, Option-cases, inl, inr,
}
use sandboxed_workspace_mcp.Dict.{Dict, lookup, insert, lookup-insert_self, lookup-insert_ne}
use sandboxed_workspace_mcp.Execution.State.{is_terminal_state}
use sandboxed_workspace_mcp.Execution.Record.{ExecutionRecord, validate_record}
use sandboxed_workspace_mcp.Execution.Event.{ExecutionEvent}
use sandboxed_workspace_mcp.Store.Memory.{Store, Manifest, write_manifest, write_record}
use sandboxed_workspace_mcp.Store.Pages.{Numbered}
use sandboxed_workspace_mcp.Store.Writes.{write_record_ne, write_manifest_ne}
use sandboxed_workspace_mcp.Store.Sqlite.Rows.{record_values}
use sandboxed_workspace_mcp.Store.Sqlite.Tables.{
  Database, events_of, delete_artifacts, set_complete,
}
use sandboxed_workspace_mcp.Store.Sqlite.RoundTrip.{Accounted, IsValidEvent}
use sandboxed_workspace_mcp.Store.Sqlite.Selected.{artifacts_of-replaced, artifacts_of-others}
use sandboxed_workspace_mcp.Store.Sqlite.Inserted.{check_artifacts-AllOf}
use sandboxed_workspace_mcp.Store.Sqlite.Agrees.{
  HoldsSame, HoldsSame-same, SameRows, HoldsSame-rows, Admitted,
}

-- The database after a method has replaced the row of `id`, with `log` for its table of events.
abbrev pub rewritten :
    Text → ExecutionRecord → List ExecutionEvent → Option Manifest → Database → Database
rewritten id updated log none d = record d {
  executions = insert id (record_values updated) d.executions;
  execution_events = log;
}
rewritten id updated log (some m) d = record d {
  executions = insert id (record_values updated) d.executions;
  execution_events = log;
  execution_artifacts = delete_artifacts id d.execution_artifacts ++ m;
  execution_artifact_manifests = set_complete id d.execution_artifact_manifests;
}

-- The memory after the same method, before it prunes.
abbrev pub updated_store :
    Text → ExecutionRecord → List ExecutionEvent → Option Manifest → Store → Store
updated_store id updated events m s = write_manifest id m (write_record id updated events s)

set_complete_self :
    (id : Text) (c : Bool) (d : Dict Bool)
    → lookup id d ≡ some c
    → lookup id (set_complete id d) ≡ some true
unfolding set_complete
set_complete_self id c d h = rw (h, set_complete) (lookup-insert_self id true d)

set_complete-ne : (id j : Text) (d : Dict Bool) → id ≢ j → lookup j (set_complete id d) ≡ lookup j d
unfolding set_complete
set_complete-ne id j d apart = elim (Option-cases (lookup id d)) [
  | inl nothing ↦ rw (nothing, set_complete) refl
  | inr (c, found) ↦ rw (found, set_complete) (lookup-insert_ne id j true d apart)
]

module _ (id : Text) (updated : ExecutionRecord) (log : List ExecutionEvent) (d : Database) where
  pub rewritten-SameRows :
      (j : Text) (m : Option Manifest)
      → id ≢ j
      → events_of j log ≡ events_of j d.execution_events
      → Admitted id (is_terminal_state updated.state) m
      → SameRows j d (rewritten id updated log m d)
  rewritten-SameRows j none apart logged admitted = record {
    executions = lookup-insert_ne id j (record_values updated) d.executions apart;
    events = logged;
    artifacts = refl;
    manifests = refl;
  }
  rewritten-SameRows j (some m) apart logged (passed, small, last) = record {
    executions = lookup-insert_ne id j (record_values updated) d.executions apart;
    events = logged;
    artifacts =
        artifacts_of-others id j d.execution_artifacts m apart
          (check_artifacts-AllOf id [] m passed);
    manifests = set_complete-ne id j d.execution_artifact_manifests apart;
  }

module _ (id : Text) (updated : ExecutionRecord) (log : List ExecutionEvent) (s : Store)
    (d : Database) where
  -- The execution that is written.
  pub HoldsSame-here :
      (current : ExecutionRecord) (more : List ExecutionEvent) (m : Option Manifest)
      (old : HoldsSame id current s d)
      → updated.execution_id ≡ id
      → validate_record updated ≡ ok updated
      → Accounted updated.resources
      → is_terminal_state current.state ≡ false
      → events_of id log ≡ old.events ++ more
      → Numbered 1 (old.events ++ more)
      → All IsValidEvent (old.events ++ more)
      → Admitted id (is_terminal_state updated.state) m
      → HoldsSame id updated
          (updated_store id updated (old.events ++ more) m s)
          (rewritten id updated log m d)
  unfolding write_manifest write_record
  HoldsSame-here current more none old own valid accounted live logged numbered checked admitted =
      record {
        own = own;
        row = lookup-insert_self id (record_values updated) d.executions;
        valid = valid;
        accounted = accounted;
        events = old.events ++ more;
        has_events = lookup-insert_self id (old.events ++ more) s.events;
        same_events = logged;
        numbered = numbered;
        valid_events = checked;
        manifest = old.manifest;
        has_manifest = old.has_manifest;
        same_artifacts = old.same_artifacts;
        small = old.small;
        complete = old.complete;
        has_complete = old.has_complete;
        same_complete = old.same_complete;
        settled = λ c. absurd (false≢true (sym live ∙ old.settled c));
        no_partial = old.no_partial;
      }
  HoldsSame-here current more (some m) old own valid accounted live logged numbered checked
        (passed, small, last) =
      record {
        own = own;
        row = lookup-insert_self id (record_values updated) d.executions;
        valid = valid;
        accounted = accounted;
        events = old.events ++ more;
        has_events = lookup-insert_self id (old.events ++ more) s.events;
        same_events = logged;
        numbered = numbered;
        valid_events = checked;
        manifest = m;
        has_manifest = lookup-insert_self id m s.artifact_manifests;
        same_artifacts =
            artifacts_of-replaced id d.execution_artifacts m (check_artifacts-AllOf id [] m passed);
        small = small;
        complete = true;
        has_complete = lookup-insert_self id true s.artifact_manifest_complete;
        same_complete =
            set_complete_self id old.complete d.execution_artifact_manifests old.same_complete;
        settled = λ c. last;
        no_partial = λ c. absurd (false≢true (sym c));
      }

  -- Any other execution.
  pub HoldsSame-there :
      (j : Text) (q : ExecutionRecord) (events : List ExecutionEvent) (m : Option Manifest)
      → id ≢ j
      → events_of j log ≡ events_of j d.execution_events
      → Admitted id (is_terminal_state updated.state) m
      → HoldsSame j q s d
      → HoldsSame j q (updated_store id updated events m s) (rewritten id updated log m d)
  HoldsSame-there j q events m apart logged admitted old =
      HoldsSame-same (write_manifest_ne id j m (write_record id updated events s) apart) (
        HoldsSame-same (write_record_ne id j updated events s apart)
          (HoldsSame-rows (rewritten-SameRows id updated log d j m apart logged admitted) old))

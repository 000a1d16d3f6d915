-- ===== src/Store/Sqlite/Simulated.antt =====
-- `SqliteExecutionStore` against `InMemoryExecutionStore` (src/workspace_guard_mcp/execution_store.py):
-- transitions.
use sandboxed_workspace_mcp.Base.{
  ℕ, ◌+◌, ◌≡◌, refl, sym, ap, ◌∙◌, subst, false, Option, none, some, ok, ◌>>=◌, Result-cases, Text,
  List, [], ◌∷◌, ◌++◌, length, All, All-append, arith, inl, inr,
}
use sandboxed_workspace_mcp.Dict.{lookup}
use sandboxed_workspace_mcp.Execution.State.{ExecutionState, is_terminal_state}
use sandboxed_workspace_mcp.Execution.Record.{ExecutionRecord}
use sandboxed_workspace_mcp.Execution.Event.{ExecutionEvent}
use sandboxed_workspace_mcp.Store.Events.{Outcome, transitioned_record, transition_event}
use sandboxed_workspace_mcp.Store.Written.{transitioned_record-IsWritten}
use sandboxed_workspace_mcp.Store.Memory
use sandboxed_workspace_mcp.Store.Memory.{
  Store, Manifest, Plan, plan_transition, commit_transition, write_record, write_manifest, retire,
  normalize_artifact_manifest,
}
use sandboxed_workspace_mcp.Store.Prune.{kept, gone}
use sandboxed_workspace_mcp.Store.Plans.{expect-IsExpected, plan_transition-IsPlanned}
use sandboxed_workspace_mcp.Store.Writes.{permitted_live}
use sandboxed_workspace_mcp.Store.Frame.{retire-Shrinks}
use sandboxed_workspace_mcp.Store.Pages.{Numbered}
use sandboxed_workspace_mcp.Store.Sqlite
use sandboxed_workspace_mcp.Store.Sqlite.{run_transition}
use sandboxed_workspace_mcp.Store.Sqlite.Tables.{Database, events_of, next_sequence, has_event}
use sandboxed_workspace_mcp.Store.Sqlite.RoundTrip.{Accounted, IsValidEvent}
use sandboxed_workspace_mcp.Store.Sqlite.Selected.{
  next_sequence-Numbered, has_event-beyond, Numbered-append, events_of-append_own,
  events_of-append_other,
}
use sandboxed_workspace_mcp.Store.Sqlite.Agrees.{
  HoldsSame, Agrees, HoldsSame-same, expect-same, normalize_artifact_manifest-Admitted,
}
use sandboxed_workspace_mcp.Store.Sqlite.Rewritten.{rewritten, updated_store}
use sandboxed_workspace_mcp.Store.Sqlite.Kept.{rewritten-Agrees}
use sandboxed_workspace_mcp.Store.Sqlite.Changed.{
  IsUnused, OutcomeFits, written_fits, written_columns, written_resources, IsEventOf,
  transition_event-IsEventOf, update_execution-ok, insert_event-ok, write_manifest-ok,
}

-- The next number is free.
pub next_free_above :
    (id : Text) (rows : List ExecutionEvent) (n : ℕ)
    → next_sequence id rows ≡ n
    → has_event id n rows ≡ false
unfolding next_sequence
next_free_above id rows n h = has_event-beyond id n rows (omega (arith, h))

pub next_free :
    (id : Text) (current : ExecutionRecord) (s : Store) (d : Database)
    (h : HoldsSame id current s d)
    → (next_sequence id d.execution_events ≡ length h.events + 1)
      × (has_event id (length h.events + 1) d.execution_events ≡ false)
next_free id current s d h =
    let numbered = subst (Numbered 1) (sym h.same_events) h.numbered in
    let next =
      next_sequence-Numbered id d.execution_events numbered
      ∙ ap (λ es. length es + 1) h.same_events in
    (next, next_free_above id d.execution_events (length h.events + 1) next)

some_and_none : (q : ExecutionRecord) (o : Option ExecutionRecord) → o ≡ some q → ¬ (o ≡ none)
some_and_none q o e n = cc

-- A store that has retired what it has written agrees as before.
pub retire-Agrees :
    (id : Text) (state : ExecutionState) (t : Store) (d : Database)
    → Agrees t d
    → Agrees (retire id state t) d
retire-Agrees id state t d agrees = (
  (λ j q e. elim (retire-Shrinks id j state t) [
    | kept same ↦ HoldsSame-same same (agrees.0 j q (sym same.records ∙ e))
    | gone r f terminal n ↦ absurd (some_and_none q _ e n)
  ]),
  agrees.1,
)

module _ (id : Text) (expected : List ExecutionState) (new_state : ExecutionState)
    (outcome : Outcome) (artifacts : Option Manifest) (time : ℕ) (s : Store) (d : Database)
    (current : ExecutionRecord) (e : lookup id s.records ≡ some current)
    (h : HoldsSame id current s d) (unused : IsUnused id artifacts d)
    (fits : OutcomeFits outcome) where
  abbrev Run : Type 0
  Run = run_transition id expected new_state outcome artifacts time d ≡ (
      plan_transition id expected new_state outcome artifacts time s >>= λ (p, events).
      ok (p.updated, rewritten id p.updated (d.execution_events ++ p.event ∷ []) p.manifest d))

  run_rest :
      (updated : ExecutionRecord) (m : Option Manifest) (event : ExecutionEvent)
      → Memory.expect id expected new_state s ≡ ok current
      → transitioned_record current new_state outcome time ≡ ok updated
      → normalize_artifact_manifest id artifacts (is_terminal_state updated.state) ≡ ok m
      → transition_event current updated (length h.events + 1) ≡ ok event
      → Run
  unfolding run_transition plan_transition
  run_rest updated m event good written normal announced =
      let (next, free) = next_free id current s d h in
      let guarded = expect-IsExpected id expected new_state s good in
      let w = transitioned_record-IsWritten current new_state outcome time written in
      let (same, admitted) =
        normalize_artifact_manifest-Admitted id artifacts m (is_terminal_state updated.state)
          normal in
      let columns = written_columns current new_state outcome time updated written in
      let made =
        transition_event-IsEventOf id current updated (length h.events + 1) event (w.id ∙ h.own)
          announced in
      let update =
        update_execution-ok id expected current updated d h.row guarded.named
          (written_fits current new_state outcome time updated written fits) columns in
      let insert =
        insert_event-ok id (length h.events + 1) event
          (rewritten id updated d.execution_events none d) made free in
      let write =
        write_manifest-ok id updated (d.execution_events ++ event ∷ []) m d admitted
          (subst (λ m. IsUnused id m d) (sym same) unused) in
      rw
        (
          expect-same id expected new_state current s d e h,
          good,
          written,
          normal,
          h.has_events,
          next,
          announced,
          update,
          insert,
          write,
        )
        refl

  run_guarded : Memory.expect id expected new_state s ≡ ok current → Run
  unfolding run_transition plan_transition
  run_guarded good =
      let guards = expect-same id expected new_state current s d e h in
      let (next, free) = next_free id current s d h in
      elim (Result-cases (transitioned_record current new_state outcome time)) [
        | inr (x, bad) ↦ rw (guards, good, bad) refl
        | inl (updated, written) ↦
            elim (Result-cases
              (normalize_artifact_manifest id artifacts (is_terminal_state updated.state))) [
                | inr (x, bad) ↦ rw (guards, good, written, bad) refl
                | inl (m, normal) ↦
                    elim (Result-cases (transition_event current updated (length h.events + 1))) [
                      | inr (x, bad) ↦
                          rw (guards, good, written, normal, h.has_events, next, bad) refl
                      | inl (event, announced) ↦
                          run_rest updated m event good written normal announced
                    ]
              ]
      ]

  -- The transaction on the database writes what the plan of the store in memory says.
  pub run_transition-plan : Run
  unfolding run_transition plan_transition
  run_transition-plan =
      let guards = expect-same id expected new_state current s d e h in
      elim (Result-cases (Memory.expect id expected new_state s)) [
        | inr (x, bad) ↦ rw (guards, bad) refl
        | inl (r, good) ↦
            let same : current ≡ r =
              cc (e, (expect-IsExpected id expected new_state s good).present) in
            run_guarded (good ∙ ap ok (sym same))
      ]

-- One event more.
pub Numbered-events :
    (id : Text) (current : ExecutionRecord) (s : Store) (d : Database)
    (h : HoldsSame id current s d) (event : ExecutionEvent)
    → IsEventOf id (length h.events + 1) event
    → (events_of id (d.execution_events ++ event ∷ []) ≡ h.events ++ event ∷ [])
      × Numbered 1 (h.events ++ event ∷ [])
      × All IsValidEvent (h.events ++ event ∷ [])
Numbered-events id current s d h event made = (
  events_of-append_own id d.execution_events event made.own
      ∙ ap (λ es. es ++ event ∷ []) h.same_events,
  Numbered-append 1 h.events event h.numbered (omega (arith, made.number)),
  All-append IsValidEvent h.events (event ∷ []) h.valid_events (made.valid, tt),
)

module _ (id : Text) (expected : List ExecutionState) (new_state : ExecutionState)
    (outcome : Outcome) (artifacts : Option Manifest) (time : ℕ) (s : Store) (d : Database)
    (agrees : Agrees s d) (current : ExecutionRecord) (e : lookup id s.records ≡ some current)
    (unused : IsUnused id artifacts d) (accounted : Accounted outcome.resources)
    (fits : OutcomeFits outcome) where
  committed-Agrees :
      (p : Plan) (events : List ExecutionEvent)
      → plan_transition id expected new_state outcome artifacts time s ≡ ok (p, events)
      → Agrees
          (updated_store id p.updated (events ++ p.event ∷ []) p.manifest s)
          (rewritten id p.updated (d.execution_events ++ p.event ∷ []) p.manifest d)
  committed-Agrees p events planned =
      let plan = plan_transition-IsPlanned id expected new_state outcome artifacts time s planned in
      let h = agrees.0 id current e in
      let read : plan.current ≡ current = cc (e, plan.guarded.present) in
      let same : events ≡ h.events = cc (h.has_events, plan.has_events) in
      let w = transitioned_record-IsWritten plan.current new_state outcome time plan.written in
      let own : p.updated.execution_id ≡ id =
        w.id ∙ (ap (λ (r : ExecutionRecord). r.execution_id) read ∙ h.own) in
      let made =
        transition_event-IsEventOf id plan.current p.updated (length events + 1) p.event own
          plan.announced in
      let admitted =
        (normalize_artifact_manifest-Admitted id artifacts p.manifest
          (is_terminal_state p.updated.state) plan.normalized).1 in
      rewritten-Agrees id current p.updated (d.execution_events ++ p.event ∷ [])
        (events ++ p.event ∷ []) (p.event ∷ []) p.manifest s d agrees h
        (ap (λ es. es ++ p.event ∷ []) same) own w.validated
        (written_resources plan.current new_state outcome time p.updated plan.written accounted)
        (ap (λ (r : ExecutionRecord). is_terminal_state r.state) (sym read)
          ∙ permitted_live plan.current.state new_state plan.guarded.permitted)
        (Numbered-events id current s d h p.event
          (subst (λ es. IsEventOf id (length es + 1) p.event) same made))
        (λ j apart.
          events_of-append_other j d.execution_events p.event λ f. apart (sym made.own ∙ f))
        admitted

  -- For an execution that the store in memory still holds, resources that pass their validation,
  -- artifact identifiers that no other execution's artifacts have, and an exit code, resources and
  -- artifact sizes that fit in 64 bits, both stores answer a transition alike, with the same record or
  -- the same error, and the database then still holds what the memory holds.
  pub transition-Agrees :
      ((Sqlite.transition id expected new_state outcome artifacts time d).0
        ≡ (Memory.transition id expected new_state outcome artifacts time s).0)
      × Agrees
          (Memory.transition id expected new_state outcome artifacts time s).1
          (Sqlite.transition id expected new_state outcome artifacts time d).1
  unfolding Sqlite.transition Memory.transition commit_transition
  transition-Agrees =
      let run =
        run_transition-plan id expected new_state outcome artifacts time s d current e
          (agrees.0 id current e) unused fits in
      elim (Result-cases (plan_transition id expected new_state outcome artifacts time s)) [
        | inr (x, bad) ↦ rw (run, bad, Memory.transition) (refl, agrees)
        | inl ((p, events), planned) ↦
            rw (run, planned, Memory.transition)
              (refl, retire-Agrees id p.updated.state _ _ (committed-Agrees p events planned))
      ]

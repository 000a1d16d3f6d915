-- ===== src/Store/Sqlite/Cancelled.antt =====
-- `SqliteExecutionStore` against `InMemoryExecutionStore` (src/workspace_guard_mcp/execution_store.py):
-- requests for cancellation.
use sandboxed_workspace_mcp.Base.{
  ℕ, ◌+◌, ◌≡◌, refl, sym, ap, ◌∙◌, subst, false, none, some, Result, ok, err, Result-cases, Text,
  List, [], ◌∷◌, ◌++◌, append_assoc, length, All, All-append, arith, inl, inr,
}
use sandboxed_workspace_mcp.Dict.{lookup}
use sandboxed_workspace_mcp.Execution.State.{ExecutionState, cancelling, ExecutionReason, Error}
use sandboxed_workspace_mcp.Execution.Record.{ExecutionRecord}
use sandboxed_workspace_mcp.Execution.Event.{ExecutionEvent}
use sandboxed_workspace_mcp.Store.Events.{
  transitioned_record, transition_event, cancellation_requested_event,
}
use sandboxed_workspace_mcp.Store.Written.{transitioned_record-IsWritten}
use sandboxed_workspace_mcp.Store.Memory
use sandboxed_workspace_mcp.Store.Memory.{
  Store, plan_cancellation, cancellation, write_record, write_manifest,
}
use sandboxed_workspace_mcp.Store.Plans.{expect-IsExpected}
use sandboxed_workspace_mcp.Store.Writes.{permitted_live}
use sandboxed_workspace_mcp.Store.Pages.{Numbered}
use sandboxed_workspace_mcp.Store.Sqlite
use sandboxed_workspace_mcp.Store.Sqlite.{run_cancellation}
use sandboxed_workspace_mcp.Store.Sqlite.Rows.{
  integers_fit, resource_values, signed_fits, column_fits,
}
use sandboxed_workspace_mcp.Store.Sqlite.Tables.{Database, events_of, has_event}
use sandboxed_workspace_mcp.Store.Sqlite.RoundTrip.{IsValidEvent}
use sandboxed_workspace_mcp.Store.Sqlite.Selected.{
  next_sequence-Numbered, Numbered-append, events_of-append_own, events_of-append_other,
}
use sandboxed_workspace_mcp.Store.Sqlite.Agrees.{HoldsSame, Agrees, expect-same}
use sandboxed_workspace_mcp.Store.Sqlite.Rewritten.{rewritten}
use sandboxed_workspace_mcp.Store.Sqlite.Kept.{rewritten-Agrees}
use sandboxed_workspace_mcp.Store.Sqlite.Changed.{
  written_columns, OutcomeFits, written_fits, written_resources, IsEventOf,
  transition_event-IsEventOf, cancellation_requested_event-IsEventOf, update_execution-ok,
  insert_event-ok,
}
use sandboxed_workspace_mcp.Store.Sqlite.Simulated.{next_free, next_free_above, Numbered-events}

-- The number after the next one is free as well, once the next one is taken.
second_free :
    (id : Text) (current : ExecutionRecord) (s : Store) (d : Database)
    (h : HoldsSame id current s d) (requested : ExecutionEvent)
    → IsEventOf id (length h.events + 1) requested
    → has_event id (length h.events + 2) (d.execution_events ++ requested ∷ []) ≡ false
second_free id current s d h requested made =
    let (logged, numbered, checked) = Numbered-events id current s d h requested made in
    let rows = d.execution_events ++ requested ∷ [] in
    let next = next_sequence-Numbered id rows (subst (Numbered 1) (sym logged) numbered) in
    next_free_above id rows (length h.events + 2)
      (next ∙ (ap (λ es. length es + 1) logged ∙ length_more h.events))
  where
    length_more : (es : List ExecutionEvent) → length (es ++ requested ∷ []) + 1 ≡ length es + 2
    length_more [] = refl
    length_more (e ∷ es) = omega (arith, length_more es)

-- Two events more.
both_events :
    (id : Text) (current : ExecutionRecord) (s : Store) (d : Database)
    (h : HoldsSame id current s d) (requested transitioned : ExecutionEvent)
    → IsEventOf id (length h.events + 1) requested
    → IsEventOf id (length h.events + 2) transitioned
    → (events_of id ((d.execution_events ++ requested ∷ []) ++ transitioned ∷ [])
        ≡ h.events ++ requested ∷ transitioned ∷ [])
      × Numbered 1 (h.events ++ requested ∷ transitioned ∷ [])
      × All IsValidEvent (h.events ++ requested ∷ transitioned ∷ [])
both_events id current s d h requested transitioned first second =
    let (logged, numbered, checked) = Numbered-events id current s d h requested first in
    let shape = append_assoc h.events (requested ∷ []) (transitioned ∷ []) in
    (
      events_of-append_own id (d.execution_events ++ requested ∷ []) transitioned second.own
          ∙ (ap (λ es. es ++ transitioned ∷ []) logged ∙ shape),
      subst (Numbered 1) shape (
          Numbered-append 1 (h.events ++ requested ∷ []) transitioned numbered
            (omega (arith, second.number, length_one h.events))),
      All-append IsValidEvent h.events (requested ∷ transitioned ∷ []) h.valid_events
          (first.valid, (second.valid, tt)),
    )
  where
    length_one : (es : List ExecutionEvent) → length (es ++ requested ∷ []) ≡ length es + 1
    length_one [] = refl
    length_one (e ∷ es) = omega (arith, length_one es)

-- A cancellation writes no integers.
no_integers : (reason : ExecutionReason) (time : ℕ) → OutcomeFits (cancellation reason time)
unfolding integers_fit resource_values signed_fits column_fits
no_integers reason time = refl

after_next : (n : ℕ) → n + 1 + 1 ≡ n + 2
after_next n = omega arith

module _ (id : Text) (expected : List ExecutionState) (reason : ExecutionReason) (time : ℕ)
    (s : Store) (d : Database) (agrees : Agrees s d) (current : ExecutionRecord)
    (e : lookup id s.records ≡ some current) where
  abbrev Planned : Type 0
  Planned = Result Error (ExecutionRecord × List ExecutionEvent)

  abbrev Written : Type 0
  Written = Result Error (ExecutionRecord × Database)

  -- The transaction and the plan of the store in memory raise the same, or write the same.
  data Both : Planned → Written → Type 0 where
    raises : (x : Error) → Both (err x) (err x)
    writes :
        (updated : ExecutionRecord) (events log : List ExecutionEvent)
        → Agrees (write_record id updated events s) (rewritten id updated log none d)
        → Both (ok (updated, events)) (ok (updated, rewritten id updated log none d))

  abbrev Agreement : Type 0
  Agreement =
      Both (plan_cancellation id expected reason time s)
        (run_cancellation id expected reason time d)

  cancelled_rest :
      (updated : ExecutionRecord) (requested transitioned : ExecutionEvent)
      → Memory.expect id expected cancelling s ≡ ok current
      → transitioned_record current cancelling (cancellation reason time) time ≡ ok updated
      → cancellation_requested_event current reason (length (agrees.0 id current e).events + 1) time
        ≡ ok requested
      → transition_event current updated (length (agrees.0 id current e).events + 2)
        ≡ ok transitioned
      → Agreement
  unfolding run_cancellation plan_cancellation write_manifest
  cancelled_rest updated requested transitioned good written asked announced =
      let h = agrees.0 id current e in
      let (next, free) = next_free id current s d h in
      let guarded = expect-IsExpected id expected cancelling s good in
      let w =
        transitioned_record-IsWritten current cancelling (cancellation reason time) time written in
      let columns =
        written_columns current cancelling (cancellation reason time) time updated written in
      let first =
        cancellation_requested_event-IsEventOf id current reason (length h.events + 1) time
          requested h.own asked in
      let second =
        transition_event-IsEventOf id current updated (length h.events + 2) transitioned
          (w.id ∙ h.own) announced in
      let update =
        update_execution-ok id expected current updated d h.row guarded.named
          (written_fits current cancelling (cancellation reason time) time updated written
            (no_integers reason time))
          columns in
      let one =
        insert_event-ok id (length h.events + 1) requested
          (rewritten id updated d.execution_events none d) first free in
      let two =
        insert_event-ok id (length h.events + 2) transitioned
          (rewritten id updated (d.execution_events ++ requested ∷ []) none d) second
          (second_free id current s d h requested first) in
      let log = (d.execution_events ++ requested ∷ []) ++ transitioned ∷ [] in
      let kept =
        rewritten-Agrees id current updated log (h.events ++ requested ∷ transitioned ∷ [])
          (requested ∷ transitioned ∷ []) none s d agrees h refl (w.id ∙ h.own) w.validated
          (written_resources current cancelling (cancellation reason time) time updated written tt)
          (permitted_live current.state cancelling guarded.permitted)
          (both_events id current s d h requested transitioned first second)
          (λ j apart.
            events_of-append_other j (d.execution_events ++ requested ∷ []) transitioned
              (λ f. apart (sym second.own ∙ f))
            ∙ events_of-append_other j d.execution_events requested
                (λ f. apart (sym first.own ∙ f)))
          tt in
      rw
        (
          expect-same id expected cancelling current s d e h,
          good,
          written,
          h.has_events,
          next,
          asked,
          after_next (length h.events),
          announced,
          update,
          one,
          two,
        )
        (writes updated (h.events ++ requested ∷ transitioned ∷ []) log kept)

  cancelled_guarded : Memory.expect id expected cancelling s ≡ ok current → Agreement
  unfolding run_cancellation plan_cancellation
  cancelled_guarded good =
      let h = agrees.0 id current e in
      let guards = expect-same id expected cancelling current s d e h in
      let (next, free) = next_free id current s d h in
      let n = length h.events in
      elim (Result-cases (transitioned_record current cancelling (cancellation reason time) time)) [
        | inr (x, bad) ↦ rw (guards, good, bad) (raises x)
        | inl (updated, written) ↦
            elim (Result-cases (cancellation_requested_event current reason (n + 1) time)) [
              | inr (x, bad) ↦ rw (guards, good, written, h.has_events, next, bad) (raises x)
              | inl (requested, asked) ↦
                  elim (Result-cases (transition_event current updated (n + 2))) [
                    | inr (x, bad) ↦
                        rw (guards, good, written, h.has_events, next, asked, after_next n, bad)
                          (raises x)
                    | inl (transitioned, announced) ↦
                        cancelled_rest updated requested transitioned good written asked announced
                  ]
            ]
      ]

  cancelled_alike : Agreement
  unfolding run_cancellation plan_cancellation
  cancelled_alike =
      let guards = expect-same id expected cancelling current s d e (agrees.0 id current e) in
      elim (Result-cases (Memory.expect id expected cancelling s)) [
        | inr (x, bad) ↦ rw (guards, bad) (raises x)
        | inl (r, good) ↦
            let same : current ≡ r =
              cc (e, (expect-IsExpected id expected cancelling s good).present) in
            cancelled_guarded (good ∙ ap ok (sym same))
      ]

  abbrev answer : Planned → Result Error ExecutionRecord × Store
  answer planned = elim planned [
    | err x ↦ (err x, s)
    | ok (updated, events) ↦ (ok updated, write_record id updated events s)
  ]

  Both-Agrees :
      (planned : Planned) (written : Written)
      → Both planned written
      → ((Sqlite.commit written d).0 ≡ (answer planned).0)
        × Agrees (answer planned).1 (Sqlite.commit written d).1
  Both-Agrees _ _ (raises x) = (refl, agrees)
  Both-Agrees _ _ (writes updated events log kept) = (refl, kept)

  -- For an execution that the store in memory still holds, both stores answer a request for
  -- cancellation alike, and the database then still holds what the memory holds.
  pub request_cancellation-Agrees :
      ((Sqlite.request_cancellation id expected reason time d).0
        ≡ (Memory.request_cancellation id expected reason time s).0)
      × Agrees
          (Memory.request_cancellation id expected reason time s).1
          (Sqlite.request_cancellation id expected reason time d).1
  unfolding Sqlite.request_cancellation Memory.request_cancellation
  request_cancellation-Agrees =
      Both-Agrees (plan_cancellation id expected reason time s)
        (run_cancellation id expected reason time d) cancelled_alike

-- ===== src/Store/Backwards.antt =====
-- A wall clock that steps back between two updates of one execution.
use sandboxed_workspace_mcp.Base.{
  ℕ, ◌≤◌, ◌<◌, ◌≡◌, sym, subst, ◌∙◌, inl, inr, true, Option, some, ok, err, Result-cases, arith,
  Text, List, [], ◌∷◌, ◌++◌,
}
use mathlib.Core.Path.{subst₂}
use sandboxed_workspace_mcp.Dict.{lookup}
use sandboxed_workspace_mcp.Execution.State.{ExecutionState, store_error}
use sandboxed_workspace_mcp.Execution.Record.{ExecutionRecord}
use sandboxed_workspace_mcp.Execution.Event.{ExecutionEvent}
use sandboxed_workspace_mcp.Store.Events.{Outcome, transition_event_of}
use sandboxed_workspace_mcp.Store.Written.{transitioned_record-IsWritten}
use sandboxed_workspace_mcp.Store.History.{
  replay, replay_step, replay_start, is_created, validate_event_history, all_of_execution,
}
use sandboxed_workspace_mcp.Store.Append.{
  IsHistory, history, at_record, replay-append, all_of_execution-append, own_transition,
}
use sandboxed_workspace_mcp.Store.Memory.{
  Store, Manifest, transition, plan_transition, max_event_page_size,
}
use sandboxed_workspace_mcp.Store.Queries.{list_events}
use sandboxed_workspace_mcp.Store.Invariant.{IsValid}
use sandboxed_workspace_mcp.Store.Writes.{permitted_live, not_terminal, transition_event-eq}
use sandboxed_workspace_mcp.Store.Plans.{plan_transition-IsPlanned}
use sandboxed_workspace_mcp.Store.Frame.{committed}

earlier_refused :
    (r r' : ExecutionRecord) (n m : ℕ)
    → r'.updated_at < r.updated_at
    → replay n (at_record r) (transition_event_of r r' m ∷ []) ≡ err store_error
unfolding replay replay_step at_record transition_event_of
earlier_refused r r' n m h = ground arith

rejected :
    (r : ExecutionRecord) (first : ExecutionEvent) (rest : List ExecutionEvent)
    → first.sequence ≡ 1
    → is_created first.event_type ≡ true
    → first.timestamp ≡ r.created_at
    → all_of_execution r.execution_id (first ∷ rest) ≡ true
    → replay 1 (replay_start first) (first ∷ rest) ≡ err store_error
    → validate_event_history r (first ∷ rest) ≡ err store_error
unfolding validate_event_history
rejected r first rest one created moment ids run = ground arith

IsHistory-backwards :
    (r r' : ExecutionRecord) (n : ℕ) {es : List ExecutionEvent}
    → IsHistory r es
    → r'.execution_id ≡ r.execution_id
    → r'.created_at ≡ r.created_at
    → r'.updated_at < r.updated_at
    → validate_event_history r' (es ++ transition_event_of r r' n ∷ []) ≡ err store_error
IsHistory-backwards r r' n (history first rest one created moment ids run) id at earlier =
    rejected r' first (rest ++ transition_event_of r r' n ∷ []) one created (moment ∙ sym at)
      (subst (λ i. all_of_execution i (first ∷ rest ++ transition_event_of r r' n ∷ []) ≡ true)
        (sym id) (all_of_execution-append _ (first ∷ rest) _ ids (own_transition r r' n id)))
      (replay-append 1 _ _ (first ∷ rest) _ run ∙ earlier_refused r r' _ n earlier)

unlisted :
    (id : Text) (cursor limit : ℕ) (s : Store) (r : ExecutionRecord) (es : List ExecutionEvent)
    → lookup id s.records ≡ some r
    → lookup id s.events ≡ some es
    → validate_event_history r es ≡ err store_error
    → 1 ≤ limit
    → limit ≤ max_event_page_size
    → list_events id cursor limit s ≡ err store_error
unfolding list_events
unlisted id cursor limit s r es e f bad low high = ground arith

-- If a transition on a valid store succeeds with a time stamp before that of the record it replaces,
-- every later page of the execution's events is refused as an invalid history.
pub backwards_clock :
    (id : Text) (expected : List ExecutionState) (new_state : ExecutionState) (outcome : Outcome)
    (artifacts : Option Manifest) (time : ℕ) (s : Store) (current updated : ExecutionRecord)
    (cursor limit : ℕ)
    → IsValid s
    → lookup id s.records ≡ some current
    → (transition id expected new_state outcome artifacts time s).0 ≡ ok updated
    → updated.updated_at < current.updated_at
    → 1 ≤ limit
    → limit ≤ max_event_page_size
    → list_events id cursor limit (transition id expected new_state outcome artifacts time s).1
      ≡ err store_error
unfolding transition
backwards_clock id expected new_state outcome artifacts time s current updated cursor limit v e h
      earlier low high =
    elim (Result-cases (plan_transition id expected new_state outcome artifacts time s)) [
      | inl ((p, events), planned) ↦
          let facts =
            plan_transition-IsPlanned id expected new_state outcome artifacts time s planned in
          let live = permitted_live _ _ facts.guarded.permitted in
          let fresh = not_terminal id s facts.current facts.guarded.present live in
          let (records, grown) = committed id s p events v fresh in
          let w =
            transitioned_record-IsWritten facts.current new_state outcome time facts.written in
          let held = v.stored id facts.current facts.guarded.present in
          let here : facts.current ≡ current = cc (e, facts.guarded.present) in
          let made : p.updated ≡ updated = ground arith in
          let es : held.events ≡ events = cc (held.has_events, facts.has_events) in
          let sooner =
            subst₂ (λ (a b : ExecutionRecord). b.updated_at < a.updated_at) (sym here) (sym made)
              earlier in
          rw (planned, transition)
            (unlisted id cursor limit _ p.updated _ records grown
              (rw (transition_event-eq facts.current p.updated _ facts.announced) (
                IsHistory-backwards facts.current p.updated _
                  (subst (IsHistory facts.current) es held.valid_history) w.id w.created sooner))
              low high)
      | inr (x, failed) ↦ absurd (ground arith)
    ]

-- ===== src/Store/Plans.antt =====
-- What a method of the store has established when it begins to write.
use sandboxed_workspace_mcp.Base.{
  ℕ, ◌+◌, ◌≡◌, sym, true, Option, none, some, Result, ok, >>=-eq-ok, arith, Text, List, [], ◌∷◌,
  ◌++◌, length,
}
use mathlib.Core.Path.{subst₂}
use sandboxed_workspace_mcp.Dict.{lookup}
use sandboxed_workspace_mcp.Execution.State.{
  ExecutionState, cancelling, ExecutionReason, Error, ensure_execution_transition,
  is_terminal_state, key_error,
}
use sandboxed_workspace_mcp.Execution.Record.{ExecutionRecord}
use sandboxed_workspace_mcp.Execution.Event.{ExecutionEvent}
use sandboxed_workspace_mcp.Store.Events.{
  Outcome, transitioned_record, transition_event, cancellation_requested_event,
}
use sandboxed_workspace_mcp.Store.Memory.{
  Store, Manifest, Plan, get, found, member, expect, cancellation, plan_transition,
  plan_cancellation, normalize_artifact_manifest,
}

-- The guards have passed for the record that was read.
pub record IsExpected (id : Text) (expected : List ExecutionState) (new_state : ExecutionState)
    (s : Store) (current : ExecutionRecord) : Type 0 where
  pub present : lookup id s.records ≡ some current
  pub named : member current.state expected ≡ true
  pub permitted : ensure_execution_transition current.state new_state ≡ ok tt

pub expect-IsExpected :
    (id : Text) (expected : List ExecutionState) (new_state : ExecutionState) (s : Store)
    {current : ExecutionRecord}
    → expect id expected new_state s ≡ ok current
    → IsExpected id expected new_state s current
unfolding expect get
expect-IsExpected id expected new_state s h = ground arith

found-some {ℓ} : {A : Type ℓ} (o : Option A) (e : Error) {a : A} → found o e ≡ ok a → o ≡ some a
found-some none e h = cc
found-some (some b) e h = cc

ok_pair {ℓ κ} :
    {A : Type ℓ} {B : Type κ} {a c : A} {b d : B}
    → (let x : Result Error (A × B) = ok (a, b) in x) ≡ ok (c, d)
    → (c ≡ a) × (d ≡ b)
ok_pair h = (cc, cc)

pub record IsPlanned (id : Text) (expected : List ExecutionState) (new_state : ExecutionState)
    (outcome : Outcome) (artifacts : Option Manifest) (time : ℕ) (s : Store) (p : Plan)
    (events : List ExecutionEvent) : Type 0 where
  pub current : ExecutionRecord
  pub guarded : IsExpected id expected new_state s current
  pub written : transitioned_record current new_state outcome time ≡ ok p.updated
  pub normalized :
      normalize_artifact_manifest id artifacts (is_terminal_state p.updated.state) ≡ ok p.manifest
  pub has_events : lookup id s.events ≡ some events
  pub announced : transition_event current p.updated (length events + 1) ≡ ok p.event

module _ (id : Text) (expected : List ExecutionState) (new_state : ExecutionState)
    (outcome : Outcome) (artifacts : Option Manifest) (time : ℕ) (s : Store) where
  assemble :
      (current updated : ExecutionRecord) (manifest : Option Manifest) (es : List ExecutionEvent)
      (event : ExecutionEvent) {p : Plan} {events : List ExecutionEvent}
      → expect id expected new_state s ≡ ok current
      → transitioned_record current new_state outcome time ≡ ok updated
      → normalize_artifact_manifest id artifacts (is_terminal_state updated.state) ≡ ok manifest
      → lookup id s.events ≡ some es
      → transition_event current updated (length es + 1) ≡ ok event
      → (p ≡ record { updated = updated; event = event; manifest = manifest }) × (events ≡ es)
      → IsPlanned id expected new_state outcome artifacts time s p events
  assemble current updated manifest es event guards written normal has announced (p_eq, es_eq) =
      subst₂ (λ q fs. IsPlanned id expected new_state outcome artifacts time s q fs) (sym p_eq)
        (sym es_eq)
        (record {
          current = current;
          guarded = expect-IsExpected id expected new_state s guards;
          written = written;
          normalized = normal;
          has_events = has;
          announced = announced;
        })

  pub plan_transition-IsPlanned :
      {p : Plan} {events : List ExecutionEvent}
      → plan_transition id expected new_state outcome artifacts time s ≡ ok (p, events)
      → IsPlanned id expected new_state outcome artifacts time s p events
  unfolding plan_transition
  plan_transition-IsPlanned {p} {events} h =
      let (current, guards, h1) = >>=-eq-ok (expect id expected new_state s) _ h in
      let (updated, written, h2) =
        >>=-eq-ok (transitioned_record current new_state outcome time) _ h1 in
      let (manifest, normal, h3) =
        >>=-eq-ok (normalize_artifact_manifest id artifacts (is_terminal_state updated.state)) _
          h2 in
      let (es, has, h4) = >>=-eq-ok (found (lookup id s.events) key_error) _ h3 in
      let (event, announced, h5) =
        >>=-eq-ok (transition_event current updated (length es + 1)) _ h4 in
      assemble current updated manifest es event guards written normal (found-some _ _ has)
        announced (ok_pair h5)

pub record IsCancelled (id : Text) (expected : List ExecutionState) (reason : ExecutionReason)
    (time : ℕ) (s : Store) (updated : ExecutionRecord) (events : List ExecutionEvent) : Type 0 where
  pub current : ExecutionRecord
  pub before : List ExecutionEvent
  pub requested : ExecutionEvent
  pub transitioned : ExecutionEvent
  pub guarded : IsExpected id expected cancelling s current
  pub written : transitioned_record current cancelling (cancellation reason time) time ≡ ok updated
  pub has_events : lookup id s.events ≡ some before
  pub asked : cancellation_requested_event current reason (length before + 1) time ≡ ok requested
  pub announced : transition_event current updated (length before + 2) ≡ ok transitioned
  pub appended : events ≡ before ++ requested ∷ transitioned ∷ []

module _ (id : Text) (expected : List ExecutionState) (reason : ExecutionReason) (time : ℕ)
    (s : Store) where
  assemble-IsCancelled :
      (current updated : ExecutionRecord) (es : List ExecutionEvent) (e f : ExecutionEvent)
      {updated' : ExecutionRecord} {events : List ExecutionEvent}
      → expect id expected cancelling s ≡ ok current
      → transitioned_record current cancelling (cancellation reason time) time ≡ ok updated
      → lookup id s.events ≡ some es
      → cancellation_requested_event current reason (length es + 1) time ≡ ok e
      → transition_event current updated (length es + 2) ≡ ok f
      → (updated' ≡ updated) × (events ≡ es ++ e ∷ f ∷ [])
      → IsCancelled id expected reason time s updated' events
  assemble-IsCancelled current updated es e f guards written has asked announced (r_eq, es_eq) =
      record {
        current = current;
        before = es;
        requested = e;
        transitioned = f;
        guarded = expect-IsExpected id expected cancelling s guards;
        written = rw r_eq written;
        has_events = has;
        asked = asked;
        announced = rw r_eq announced;
        appended = es_eq;
      }

  pub plan_cancellation-IsCancelled :
      {updated : ExecutionRecord} {events : List ExecutionEvent}
      → plan_cancellation id expected reason time s ≡ ok (updated, events)
      → IsCancelled id expected reason time s updated events
  unfolding plan_cancellation
  plan_cancellation-IsCancelled h =
      let (current, guards, h1) = >>=-eq-ok (expect id expected cancelling s) _ h in
      let (updated, written, h2) =
        >>=-eq-ok (transitioned_record current cancelling (cancellation reason time) time) _ h1 in
      let (es, has, h3) = >>=-eq-ok (found (lookup id s.events) key_error) _ h2 in
      let (e, asked, h4) =
        >>=-eq-ok (cancellation_requested_event current reason (length es + 1) time) _ h3 in
      let (f, announced, h5) = >>=-eq-ok (transition_event current updated (length es + 2)) _ h4 in
      assemble-IsCancelled current updated es e f guards written (found-some _ _ has) asked
        announced (ok_pair h5)

-- ===== src/Store/Append.antt =====
-- How an event history of src/workspace_guard_mcp/execution_store.py grows.
use sandboxed_workspace_mcp.Base.{
  ℕ, suc, ◌+◌, ◌≤◌, ◌<◌, ◌≡◌, refl, sym, subst, ap, ◌∙◌, true, ok, >>=-eq-ok, arith, Text, List, [],
  ◌∷◌, ◌++◌, length,
}
use sandboxed_workspace_mcp.Execution.State.{
  starting, ExecutionReason, ensure_execution_transition, ExecutionState-discrete,
}
use sandboxed_workspace_mcp.Execution.Record.{ExecutionRecord}
use sandboxed_workspace_mcp.Execution.Event.{ExecutionEvent}
use sandboxed_workspace_mcp.Store.Events.{
  created_event_of, transition_event_of, cancellation_requested_event_of,
}
use sandboxed_workspace_mcp.Store.History.{
  Replay, is_created, replay_event, replay_step, replay, replay_start, agrees, all_of_execution,
  validate_event_history,
}

-- Where the replay of a record's history ends.
unfoldable pub at_record : ExecutionRecord → Replay
at_record r = record {
  current_state = r.state;
  previous_timestamp = r.updated_at;
  last_state_timestamp = r.updated_at;
  last_state_reason = r.reason;
  last_state_error_summary = r.error_summary;
}

pub data IsHistory (r : ExecutionRecord) : List ExecutionEvent → Type 0 where
  history :
      (first : ExecutionEvent) (rest : List ExecutionEvent)
      → first.sequence ≡ 1
      → is_created first.event_type ≡ true
      → first.timestamp ≡ r.created_at
      → all_of_execution r.execution_id (first ∷ rest) ≡ true
      → replay 1 (replay_start first) (first ∷ rest) ≡ ok (at_record r)
      → IsHistory r (first ∷ rest)

agrees-at_record : (r : ExecutionRecord) → agrees r (at_record r) ≡ true
unfolding agrees at_record
agrees-at_record r = ground arith

-- The stored check accepts such a history as complete.
pub IsHistory-validates :
    (r : ExecutionRecord) {es : List ExecutionEvent}
    → IsHistory r es
    → validate_event_history r es ≡ ok true
unfolding validate_event_history
IsHistory-validates r (history first rest one created moment ids run) =
    ground (arith, agrees-at_record r)

pub replay-append :
    (n : ℕ) (h h' : Replay) (xs ys : List ExecutionEvent)
    → replay n h xs ≡ ok h'
    → replay n h (xs ++ ys) ≡ replay (n + length xs) h' ys
unfolding replay
replay-append n h h' [] ys e = ground arith
replay-append n h h' (x ∷ xs) ys e =
    let (h1, step, run) = >>=-eq-ok (replay_step n h x) (λ g. replay (suc n) g xs) e in
    rw step (replay-append (suc n) h1 h' xs ys run ∙ ap (λ m. replay m h' ys) (omega arith))

pub all_of_execution-append :
    (id : Text) (xs ys : List ExecutionEvent)
    → all_of_execution id xs ≡ true
    → all_of_execution id ys ≡ true
    → all_of_execution id (xs ++ ys) ≡ true
unfolding all_of_execution
all_of_execution-append id [] ys p q = q
all_of_execution-append id (x ∷ xs) ys p q = ground (arith, all_of_execution-append id xs ys)

pub IsHistory-append :
    (r r' : ExecutionRecord) {es : List ExecutionEvent} (new : List ExecutionEvent)
    → IsHistory r es
    → r'.execution_id ≡ r.execution_id
    → r'.created_at ≡ r.created_at
    → all_of_execution r.execution_id new ≡ true
    → replay (1 + length es) (at_record r) new ≡ ok (at_record r')
    → IsHistory r' (es ++ new)
IsHistory-append r r' new (history first rest one created moment ids run) id at own more =
    history first (rest ++ new) one created (moment ∙ sym at)
      (subst (λ i. all_of_execution i (first ∷ rest ++ new) ≡ true) (sym id)
        (all_of_execution-append _ (first ∷ rest) new ids own))
      (replay-append 1 _ _ (first ∷ rest) new run ∙ more)

-- One event of a permitted transition, no earlier than the last.
replay-transition :
    (r r' : ExecutionRecord) (n : ℕ)
    → 0 < n
    → ensure_execution_transition r.state r'.state ≡ ok tt
    → r.updated_at ≤ r'.updated_at
    → replay (suc n) (at_record r) (transition_event_of r r' (suc n) ∷ []) ≡ ok (at_record r')
unfolding replay replay_step replay_event at_record transition_event_of ExecutionState-discrete
replay-transition r r' n some_events permitted later = ground arith

-- Both events of a cancellation, at one moment.
replay-cancellation :
    (r r' : ExecutionRecord) (reason : ExecutionReason) (n : ℕ)
    → 0 < n
    → ensure_execution_transition r.state r'.state ≡ ok tt
    → r.updated_at ≤ r'.updated_at
    → replay (suc n) (at_record r) (
        cancellation_requested_event_of r reason (suc n) r'.updated_at
        ∷ transition_event_of r r' (suc (suc n))
        ∷ [])
      ≡ ok (at_record r')
unfolding replay replay_step replay_event at_record transition_event_of
    cancellation_requested_event_of ExecutionState-discrete
replay-cancellation r r' reason n some_events permitted later = ground arith

pub own_transition :
    (r r' : ExecutionRecord) (n : ℕ)
    → r'.execution_id ≡ r.execution_id
    → all_of_execution r.execution_id (transition_event_of r r' n ∷ []) ≡ true
unfolding all_of_execution transition_event_of
own_transition r r' n id = ground arith

own_cancellation :
    (r r' : ExecutionRecord) (reason : ExecutionReason) (n m time : ℕ)
    → r'.execution_id ≡ r.execution_id
    → all_of_execution r.execution_id
        (cancellation_requested_event_of r reason n time ∷ transition_event_of r r' m ∷ [])
      ≡ true
unfolding all_of_execution transition_event_of cancellation_requested_event_of
own_cancellation r r' reason n m time id = ground arith

one_more : (n : ℕ) → 1 + n ≡ suc n
one_more n = omega arith

IsHistory-nonempty :
    {r : ExecutionRecord} {es : List ExecutionEvent} → IsHistory r es → 0 < length es
IsHistory-nonempty (history first rest one created moment ids run) = omega arith

module _ (r r' : ExecutionRecord) {es : List ExecutionEvent} (h : IsHistory r es)
    (id : r'.execution_id ≡ r.execution_id) (at : r'.created_at ≡ r.created_at)
    (permitted : ensure_execution_transition r.state r'.state ≡ ok tt)
    (later : r.updated_at ≤ r'.updated_at) where
  pub IsHistory-transition : IsHistory r' (es ++ transition_event_of r r' (suc (length es)) ∷ [])
  IsHistory-transition = IsHistory-append r r' _ h id at (own_transition r r' _ id) (
      rw (one_more (length es))
        (replay-transition r r' (length es) (IsHistory-nonempty h) permitted later))

  pub IsHistory-cancellation :
      (reason : ExecutionReason)
      → IsHistory r' (
          es
          ++ cancellation_requested_event_of r reason (suc (length es)) r'.updated_at
            ∷ transition_event_of r r' (suc (suc (length es)))
            ∷ [])
  IsHistory-cancellation reason =
      IsHistory-append r r' _ h id at (own_cancellation r r' reason _ _ _ id) (
        rw (one_more (length es))
          (replay-cancellation r r' reason (length es) (IsHistory-nonempty h) permitted later))

replay-created :
    (r : ExecutionRecord)
    → r.state ≡ starting
    → r.updated_at ≡ r.created_at
    → replay 1 (replay_start (created_event_of r)) (created_event_of r ∷ []) ≡ ok (at_record r)
unfolding replay replay_step replay_start created_event_of at_record
replay-created r fresh at = ground arith

own_created :
    (r : ExecutionRecord) → all_of_execution r.execution_id (created_event_of r ∷ []) ≡ true
unfolding all_of_execution created_event_of
own_created r = ground arith

-- A new record, stored at its creation, has the one-event history.
pub IsHistory-created :
    (r : ExecutionRecord)
    → r.state ≡ starting
    → r.updated_at ≡ r.created_at
    → IsHistory r (created_event_of r ∷ [])
IsHistory-created r fresh at =
    let run = replay-created r fresh at in
    history (created_event_of r) [] (unfold created_event_of in refl)
      (unfold created_event_of is_created in refl) (unfold created_event_of in refl) (own_created r)
      run

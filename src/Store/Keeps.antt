-- ===== src/Store/Keeps.antt =====
-- The writing operations of `InMemoryExecutionStore` and its invariant.
use sandboxed_workspace_mcp.Base.{
  ℕ, ◌+◌, ◌≤◌, ◌≡◌, refl, sym, subst, ap, ◌∙◌, inl, inr, false, Option, none, some, ok,
  Result-cases, Text, List, [], ◌∷◌, ◌++◌, length, Option-cases,
}
use sandboxed_workspace_mcp.Dict.{lookup, lookup-insert_self, lookup-insert_ne}
use sandboxed_workspace_mcp.Execution.State.{
  ExecutionState, cancelling, ExecutionReason, is_terminal_state,
}
use sandboxed_workspace_mcp.Execution.Record.{ExecutionRecord}
use sandboxed_workspace_mcp.Execution.Event.{ExecutionEvent}
use sandboxed_workspace_mcp.Execution.Validation.{IsWellFormed}
use sandboxed_workspace_mcp.Store.Events.{
  Outcome, cancellation_requested_event, created_event, value_or,
}
use sandboxed_workspace_mcp.Store.Written.{transitioned_record-IsWritten}
use sandboxed_workspace_mcp.Store.Append.{IsHistory, IsHistory-created}
use sandboxed_workspace_mcp.Store.Memory.{
  Store, Manifest, Plan, add_record, create, transition, request_cancellation, plan_transition,
  plan_cancellation, commit_transition, write_manifest, write_record, cancellation,
}
use sandboxed_workspace_mcp.Store.Prune.{IsTerminalAt}
use sandboxed_workspace_mcp.Store.Invariant.{IsValid, IsUpdate, retire-IsValid, live_after}
use sandboxed_workspace_mcp.Store.Plans.{
  IsPlanned, IsCancelled, plan_transition-IsPlanned, plan_cancellation-IsCancelled,
}
use sandboxed_workspace_mcp.Store.Writes.{
  created_event-eq, cancelling_live, starting_live, permitted_live, not_terminal,
  normalized_terminal, written-IsUpdate, IsHistory-extended, IsHistory-cancelled,
}

-- The clock has not gone back since the record was last written.
abbrev pub IsLater : Text → Store → ℕ → Type 0
IsLater id s moment = (r : ExecutionRecord) → lookup id s.records ≡ some r → r.updated_at ≤ moment

module _ (id : Text) (expected : List ExecutionState) (s : Store) (v : IsValid s) where
  commit-IsValid :
      (new_state : ExecutionState) (outcome : Outcome) (artifacts : Option Manifest) (time : ℕ)
      (p : Plan) (events : List ExecutionEvent)
      → IsLater id s (value_or outcome.updated_at time)
      → IsPlanned id expected new_state outcome artifacts time s p events
      → IsValid (commit_transition id p events s)
  unfolding commit_transition
  commit-IsValid new_state outcome artifacts time p events later planned =
      let current = planned.current in
      let guarded = planned.guarded in
      let w = transitioned_record-IsWritten current new_state outcome time planned.written in
      let old = v.stored id current guarded.present in
      let live = permitted_live current.state new_state guarded.permitted in
      let same : old.events ≡ events = cc (old.has_events, planned.has_events) in
      retire-IsValid id p.updated s _
        (written-IsUpdate id current p.updated (events ++ p.event ∷ []) s old (w.id ∙ old.own)
          w.well_formed
          (IsHistory-extended current p.updated old.events events old.valid_history same w.id
            w.created (rw w.new_state guarded.permitted)
            (rw w.moment (later current guarded.present)) planned.announced)
          live p.manifest
          (λ n e. normalized_terminal id artifacts _ n (planned.normalized ∙ ap ok e)))
        v (not_terminal id s current guarded.present live)

  -- `transition` keeps the invariant
  pub transition-IsValid :
      (new_state : ExecutionState) (outcome : Outcome) (artifacts : Option Manifest) (time : ℕ)
      → IsLater id s (value_or outcome.updated_at time)
      → IsValid (transition id expected new_state outcome artifacts time s).1
  unfolding transition
  transition-IsValid new_state outcome artifacts time later =
      elim (Result-cases (plan_transition id expected new_state outcome artifacts time s)) [
        | inl ((p, events), e) ↦
            rw (e, transition)
              (commit-IsValid new_state outcome artifacts time p events later
                (plan_transition-IsPlanned id expected new_state outcome artifacts time s e))
        | inr (e, f) ↦ rw (f, transition) v
      ]

  cancel-IsValid :
      (reason : ExecutionReason) (time : ℕ) (updated : ExecutionRecord)
      (events : List ExecutionEvent)
      → IsLater id s time
      → IsCancelled id expected reason time s updated events
      → IsValid (write_record id updated events s)
  unfolding write_manifest
  cancel-IsValid reason time updated events later c =
      let current = c.current in
      let guarded = c.guarded in
      let w =
        transitioned_record-IsWritten current cancelling (cancellation reason time) time
          c.written in
      let old = v.stored id current guarded.present in
      let live = permitted_live current.state cancelling guarded.permitted in
      let same : old.events ≡ c.before = cc (old.has_events, c.has_events) in
      let grown =
        IsHistory-cancelled current updated reason old.events c.before old.valid_history same w.id
          w.created (rw w.new_state guarded.permitted) (rw w.moment (later current guarded.present))
          (subst
            (λ t.
              cancellation_requested_event current reason (length c.before + 1) t ≡ ok c.requested)
            (sym w.moment) c.asked)
          c.announced in
      let update =
        written-IsUpdate id current updated events s old (w.id ∙ old.own) w.well_formed
          (subst (IsHistory updated) (sym c.appended) grown) live none (λ n e. cc) in
      live_after id updated s (write_record id updated events s) update v
        (not_terminal id s current guarded.present live)
        (ap is_terminal_state w.new_state ∙ cancelling_live)

  -- `request_cancellation` keeps the invariant.
  pub request_cancellation-IsValid :
      (reason : ExecutionReason) (time : ℕ)
      → IsLater id s time
      → IsValid (request_cancellation id expected reason time s).1
  unfolding request_cancellation
  request_cancellation-IsValid reason time later =
      elim (Result-cases (plan_cancellation id expected reason time s)) [
        | inl ((updated, events), e) ↦
            rw (e, request_cancellation)
              (cancel-IsValid reason time updated events later
                (plan_cancellation-IsCancelled id expected reason time s e))
        | inr (e, f) ↦ rw (f, request_cancellation) v
      ]

absent_not_terminal : (id : Text) (s : Store) → lookup id s.records ≡ none → ¬ IsTerminalAt s id
absent_not_terminal id s absent (q, e, terminal) = cc

-- The store after the writes of `create`.
created-IsUpdate :
    (r : ExecutionRecord) (e : ExecutionEvent) (s : Store)
    → IsWellFormed r
    → IsHistory r (e ∷ [])
    → IsUpdate r.execution_id r s (add_record r e s)
unfolding add_record
created-IsUpdate r e s w h = record {
  others = λ j apart. record {
    records = lookup-insert_ne r.execution_id j r s.records apart;
    events = lookup-insert_ne r.execution_id j (e ∷ []) s.events apart;
    manifests = lookup-insert_ne r.execution_id j [] s.artifact_manifests apart;
    complete = lookup-insert_ne r.execution_id j false s.artifact_manifest_complete apart;
  };
  here = lookup-insert_self r.execution_id r s.records;
  stored = record {
    own = refl;
    well_formed = w;
    events = e ∷ [];
    has_events = lookup-insert_self r.execution_id (e ∷ []) s.events;
    valid_history = h;
    manifest = [];
    has_manifest = lookup-insert_self r.execution_id [] s.artifact_manifests;
    complete = false;
    has_complete = lookup-insert_self r.execution_id false s.artifact_manifest_complete;
    settled = λ c. cc;
    no_partial = λ c. refl;
  };
  order = refl;
  limit = refl;
}

module _ (r : ExecutionRecord) (s : Store) (v : IsValid s) (w : IsWellFormed r)
    (at : r.updated_at ≡ r.created_at) where
  added-IsValid :
      (e : ExecutionEvent)
      → created_event r ≡ ok e
      → lookup r.execution_id s.records ≡ none
      → IsValid (add_record r e s)
  added-IsValid e made absent =
      let (exact, fresh) = created_event-eq r made in
      let h = subst (λ x. IsHistory r (x ∷ [])) (sym exact) (IsHistory-created r fresh at) in
      live_after r.execution_id r s (add_record r e s) (created-IsUpdate r e s w h) v
        (λ t. absent_not_terminal r.execution_id s absent t)
        (ap is_terminal_state fresh ∙ starting_live)

  -- `create` keeps the invariant.
  pub create-IsValid : IsValid (create r s).1
  unfolding create
  create-IsValid = elim (Result-cases (created_event r)) [
    | inl (e, made) ↦ elim (Option-cases (lookup r.execution_id s.records)) [
      | inl absent ↦ rw (made, absent, create) (added-IsValid e made absent)
      | inr (q, present) ↦ rw (made, present, create) v
    ]
    | inr (e, failed) ↦ rw (failed, create) v
  ]

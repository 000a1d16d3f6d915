-- ===== src/Store/Behaviour.antt =====
-- What `InMemoryExecutionStore.transition` returns, by its guards.
use sandboxed_workspace_mcp.Base.{
  is_nil, ℕ, suc, ◌+◌, ◌≡◌, ap, ◌∙◌, Option, none, some, ok, err, arith, Text, List, length,
  if◌then◌else◌,
}
use sandboxed_workspace_mcp.Dict.{lookup}
use sandboxed_workspace_mcp.Execution.State.{
  ExecutionState, Error, value_error, unknown_execution, execution_conflict,
  ensure_execution_transition, is_terminal_state,
}
use sandboxed_workspace_mcp.Execution.Record.{ExecutionRecord}
use sandboxed_workspace_mcp.Execution.Event.{ExecutionEvent}
use sandboxed_workspace_mcp.Store.Events.{Outcome, transitioned_record, transition_event}
use sandboxed_workspace_mcp.Store.Written.{transitioned_record-IsWritten, transition_event-total}
use sandboxed_workspace_mcp.Store.Memory.{
  Store, Manifest, get, expect, member, transition, plan_transition, normalize_artifact_manifest,
}
use sandboxed_workspace_mcp.Store.Invariant.{IsValid}

-- The guards in their order: what a refused transition raises.
abbrev pub refusal : Text → List ExecutionState → ExecutionState → Store → Option Error
refusal id expected new_state s =
    if is_nil expected then some value_error else elim (lookup id s.records) [
      | none ↦ some unknown_execution
      | some r ↦
          if member r.state expected
          then elim (ensure_execution_transition r.state new_state) [ ok _ ↦ none | err e ↦ some e ]
          else some execution_conflict
    ]

module _ (id : Text) (expected : List ExecutionState) (new_state : ExecutionState)
    (outcome : Outcome) (artifacts : Option Manifest) (time : ℕ) (s : Store) where
  refused_plan :
      (e : Error)
      → refusal id expected new_state s ≡ some e
      → plan_transition id expected new_state outcome artifacts time s ≡ err e
  unfolding plan_transition expect get
  refused_plan e h = ground arith

  -- A transition that its guards refuse raises the error of the first guard that fails, and leaves
  -- the store as it was.
  pub transition_refused :
      (e : Error)
      → refusal id expected new_state s ≡ some e
      → transition id expected new_state outcome artifacts time s ≡ (err e, s)
  unfolding transition
  transition_refused e h = rw (refused_plan e h, transition)

  accepted_plan :
      (current updated : ExecutionRecord) (manifest : Option Manifest)
      (events : List ExecutionEvent) (event : ExecutionEvent)
      → refusal id expected new_state s ≡ none
      → lookup id s.records ≡ some current
      → transitioned_record current new_state outcome time ≡ ok updated
      → normalize_artifact_manifest id artifacts (is_terminal_state updated.state) ≡ ok manifest
      → lookup id s.events ≡ some events
      → transition_event current updated (length events + 1) ≡ ok event
      → plan_transition id expected new_state outcome artifacts time s
        ≡ ok (record { updated = updated; event = event; manifest = manifest }, events)
  unfolding plan_transition expect get
  accepted_plan current updated manifest events event free e written normal has announced =
      ground arith

  permitted_of :
      (current : ExecutionRecord)
      → refusal id expected new_state s ≡ none
      → lookup id s.records ≡ some current
      → ensure_execution_transition current.state new_state ≡ ok tt
  permitted_of current free e = ground arith

  -- On a valid store the guards, the record's validation and the manifest's are the only obstacles:
  -- once they pass, the event is accepted, no lookup fails, and the new record is returned.
  pub transition_accepted :
      (current updated : ExecutionRecord) (manifest : Option Manifest)
      → IsValid s
      → refusal id expected new_state s ≡ none
      → lookup id s.records ≡ some current
      → transitioned_record current new_state outcome time ≡ ok updated
      → normalize_artifact_manifest id artifacts (is_terminal_state updated.state) ≡ ok manifest
      → (transition id expected new_state outcome artifacts time s).0 ≡ ok updated
  unfolding transition
  transition_accepted current updated manifest v free e written normal =
      let held = v.stored id current e in
      let w = transitioned_record-IsWritten current new_state outcome time written in
      let one : length held.events + 1 ≡ suc (length held.events) = omega arith in
      let permitted = permitted_of current free e in
      let event =
        ap (transition_event current updated) one
        ∙ transition_event-total current updated (length held.events) (rw w.new_state permitted)
            w.well_formed in
      rw (
        accepted_plan current updated manifest held.events _ free e written normal held.has_events
            event,
        transition,
      )

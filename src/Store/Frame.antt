-- ===== src/Store/Frame.antt =====
-- The effect of `InMemoryExecutionStore.transition` on other executions, and on what is read next.
use sandboxed_workspace_mcp.Base.{
  ℕ, ◌<◌, ◌≡◌, ◌≢◌, refl, sym, subst, ap, ◌∙◌, inl, inr, false, Option, none, some, ok,
  Result-cases, arith, Text, List, [], ◌∷◌, ◌++◌, All, length, ltb, Bool-cases, false≢true,
}
use sandboxed_workspace_mcp.Dict.{lookup, lookup-insert_self}
use sandboxed_workspace_mcp.Execution.State.{ExecutionState, is_terminal_state}
use sandboxed_workspace_mcp.Execution.Record.{ExecutionRecord}
use sandboxed_workspace_mcp.Execution.Event.{ExecutionEvent}
use sandboxed_workspace_mcp.Store.Events.{Outcome}
use sandboxed_workspace_mcp.Store.Memory.{
  Store, Manifest, Plan, get, transition, plan_transition, commit_transition, retire, prune,
  forget_terminal, write_manifest, write_record,
}
use sandboxed_workspace_mcp.Store.Invariant.{IsValid, All-apart}
use sandboxed_workspace_mcp.Store.Prune.{
  SameAt, SameAt-refl, SameAt-trans, Shrinks, kept, gone, prune-Shrinks, IsTerminalAt,
  forget_terminal_ne, max-forget_terminal,
}
use sandboxed_workspace_mcp.Store.Writes.{
  write_record_ne, write_manifest_ne, permitted_live, not_terminal,
}
use sandboxed_workspace_mcp.Store.Plans.{plan_transition-IsPlanned}

pub retire-Shrinks :
    (id j : Text) (state : ExecutionState) (t : Store) → Shrinks j t (retire id state t)
unfolding retire
retire-Shrinks id j state t = elim (Bool-cases (is_terminal_state state)) [
  | inl terminal ↦ rw terminal (prune-Shrinks (t.terminal_order ++ id ∷ []) j t)
  | inr live ↦ rw live (kept (SameAt-refl j t))
]

live_kept :
    (j : Text) (r : ExecutionRecord) (s t u : Store)
    → lookup j s.records ≡ some r
    → is_terminal_state r.state ≡ false
    → SameAt j s t
    → Shrinks j t u
    → SameAt j s u
live_kept j r s t u e live same (kept more) = SameAt-trans same more
live_kept j r s t u e live same (gone q f terminal n) =
    let eq : q ≡ r = cc (e, f, same.records) in
    absurd (
      false≢true
        (sym live ∙ (ap (λ (x : ExecutionRecord). is_terminal_state x.state) (sym eq) ∙ terminal)))

module _ (id : Text) (expected : List ExecutionState) (new_state : ExecutionState)
    (outcome : Outcome) (artifacts : Option Manifest) (time : ℕ) (s : Store) where
  -- A transition of one execution, whatever it does to the retained history, leaves the record, the
  -- events and the manifest of every other unfinished execution as they were.
  pub transition_frame :
      (j : Text) (r : ExecutionRecord)
      → id ≢ j
      → lookup j s.records ≡ some r
      → is_terminal_state r.state ≡ false
      → SameAt j s (transition id expected new_state outcome artifacts time s).1
  unfolding transition commit_transition
  transition_frame j r apart e live =
      elim (Result-cases (plan_transition id expected new_state outcome artifacts time s)) [
        | inl ((p, events), ok_) ↦
            rw (ok_, transition)
              (live_kept j r s _ _ e live
                (SameAt-trans (write_record_ne id j p.updated (events ++ p.event ∷ []) s apart) (
                  write_manifest_ne id j p.manifest
                    (write_record id p.updated (events ++ p.event ∷ []) s) apart))
                (retire-Shrinks id j p.updated.state _))
        | inr (x, bad) ↦ rw (bad, transition) (SameAt-refl j s)
      ]

-- The execution at the end of the queue is never forgotten.
prune_last :
    (order : List Text) (id : Text) (t : Store)
    → All (λ j. j ≢ id) order
    → 0 < t.max_retained_terminal_executions
    → SameAt id t (prune (order ++ id ∷ []) t)
unfolding prune
prune_last [] id t apart room = elim (Bool-cases (ltb t.max_retained_terminal_executions 1)) [
  | inl full ↦ absurd (ground arith)
  | inr fits ↦ rw fits (record { records = refl; events = refl; manifests = refl; complete = refl })
]
prune_last (x ∷ xs) id t apart room =
    let room' : 0 < (forget_terminal x t).max_retained_terminal_executions =
      rw max-forget_terminal room in
    elim (Bool-cases (ltb t.max_retained_terminal_executions (length (x ∷ xs ++ id ∷ [])))) [
      | inl full ↦ rw full (
          SameAt-trans (forget_terminal_ne x id t apart.0)
            (prune_last xs id (forget_terminal x t) apart.1 room'))
      | inr fits ↦
          rw fits (record { records = refl; events = refl; manifests = refl; complete = refl })
    ]

retire_last :
    (id : Text) (state : ExecutionState) (t : Store)
    → All (λ j. j ≢ id) t.terminal_order
    → 0 < t.max_retained_terminal_executions
    → SameAt id t (retire id state t)
unfolding retire
retire_last id state t apart room = elim (Bool-cases (is_terminal_state state)) [
  | inl terminal ↦ rw terminal (prune_last t.terminal_order id t apart room)
  | inr live ↦ rw live (SameAt-refl id t)
]

-- The store between the writes and the pruning.
pub record IsWrittenTo (id : Text) (r : ExecutionRecord) (es : List ExecutionEvent) (s t : Store)
    : Type 0 where
  pub records : lookup id t.records ≡ some r
  pub events : lookup id t.events ≡ some es
  pub order : t.terminal_order ≡ s.terminal_order
  pub limit : t.max_retained_terminal_executions ≡ s.max_retained_terminal_executions

writes :
    (id : Text) (m : Option Manifest) (r : ExecutionRecord) (events : List ExecutionEvent)
    (s : Store)
    → IsWrittenTo id r events s (write_manifest id m (write_record id r events s))
unfolding write_manifest write_record
writes id none r events s = record {
  records = lookup-insert_self id r s.records;
  events = lookup-insert_self id events s.events;
  order = refl;
  limit = refl;
}
writes id (some m) r events s = record {
  records = lookup-insert_self id r s.records;
  events = lookup-insert_self id events s.events;
  order = refl;
  limit = refl;
}

pub committed :
    (id : Text) (s : Store) (p : Plan) (events : List ExecutionEvent)
    → IsValid s
    → ¬ IsTerminalAt s id
    → (lookup id (commit_transition id p events s).records ≡ some p.updated)
      × (lookup id (commit_transition id p events s).events ≡ some (events ++ p.event ∷ []))
unfolding commit_transition
committed id s p events v fresh =
    let grown = events ++ p.event ∷ [] in
    let t = write_manifest id p.manifest (write_record id p.updated grown s) in
    let w = writes id p.manifest p.updated grown s in
    let last =
      retire_last id p.updated.state t
        (subst (All (λ j. j ≢ id)) (sym w.order) (All-apart id s fresh s.terminal_order v.terminal))
        (subst (λ n. 0 < n) (sym w.limit) v.positive) in
    (last.records ∙ w.records, last.events ∙ w.events)

-- The record that a transition returns can be read back at once, and its history is the one before
-- the transition with one event more: also where the transition ends the execution and old ones are
-- forgotten.
pub get-transition :
    (id : Text) (expected : List ExecutionState) (new_state : ExecutionState) (outcome : Outcome)
    (artifacts : Option Manifest) (time : ℕ) (s : Store) (updated : ExecutionRecord)
    → IsValid s
    → (transition id expected new_state outcome artifacts time s).0 ≡ ok updated
    → (get id (transition id expected new_state outcome artifacts time s).1 ≡ ok updated)
      × ((es : List ExecutionEvent) × (e : ExecutionEvent) × (lookup id s.events ≡ some es)
          × (lookup id (transition id expected new_state outcome artifacts time s).1.events
              ≡ some (es ++ e ∷ [])))
unfolding transition get
get-transition id expected new_state outcome artifacts time s updated v h =
    elim (Result-cases (plan_transition id expected new_state outcome artifacts time s)) [
      | inl ((p, events), planned) ↦
          let facts =
            plan_transition-IsPlanned id expected new_state outcome artifacts time s planned in
          let live = permitted_live _ _ facts.guarded.permitted in
          let fresh = not_terminal id s facts.current facts.guarded.present live in
          let (records, grown) = committed id s p events v fresh in
          let same : p.updated ≡ updated = ground arith in
          rw (planned, transition)
            ((rw records (ap ok same)), (events, p.event, facts.has_events, grown))
      | inr (e, failed) ↦ absurd (ground arith)
    ]

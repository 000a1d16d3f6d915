-- ===== src/Execution/Lifecycle.antt =====
-- The lifecycle of an execution: what the transition table, the record validator and the event
-- validator of src/workspace_guard_mcp/execution.py promise together.
use sandboxed_workspace_mcp.Base.{
  ℕ, zero, suc, ◌+◌, ◌*◌, ◌≤◌, ◌≡◌, inl, inr, Bool, true, false, not, ◌&&◌, if◌then◌else◌, Option,
  ok, arith, Text, length, leb, utf8_size-le, Bool-cases,
}
use sandboxed_workspace_mcp.Execution.State.{
  ExecutionState, starting, running, cancelling, timed_out, crashed, ExecutionReason, allowed,
  ensure_execution_transition, is_terminal_state, LegacyStatus, legacy_execution_status,
}
use sandboxed_workspace_mcp.Execution.Record.{bounded_text}

-- `n` permitted transitions lead from one state to another.
pub data Reaches (s : ExecutionState) : ExecutionState → ℕ → Type 0 where
  here : Reaches s s zero
  next :
      {t : ExecutionState} {n : ℕ} (u : ExecutionState)
      → Reaches s t n
      → ensure_execution_transition t u ≡ ok tt
      → Reaches s u (suc n)

-- How far a state is along its lifecycle.
abbrev rank : ExecutionState → ℕ
rank starting = 0
rank running = 1
rank cancelling = 2
rank _ = 3

transition_rank :
    (t u : ExecutionState) → ensure_execution_transition t u ≡ ok tt → rank t + 1 ≤ rank u
unfolding ensure_execution_transition allowed
transition_rank starting u h = ground arith
transition_rank t u h = ground arith

Reaches-rank : {s t : ExecutionState} {n : ℕ} → Reaches s t n → rank s + n ≤ rank t
Reaches-rank here = omega arith
Reaches-rank (next {t} {n} u r e) = omega (arith, Reaches-rank r, transition_rank t u e)

rank-le : (t : ExecutionState) → rank t ≤ 3
rank-le starting = omega arith
rank-le _ = omega arith

rank_terminal : (s : ExecutionState) → is_terminal_state s ≡ true → rank s ≡ 3
unfolding is_terminal_state
rank_terminal starting h = cc
rank_terminal s h = ground arith

-- A lifecycle makes at most three transitions, and none from a terminal state.
pub Reaches-bounded :
    (s t : ExecutionState) (n : ℕ) → Reaches s t n → n ≤ (if is_terminal_state s then 0 else 3)
Reaches-bounded s t n r = elim (Bool-cases (is_terminal_state s)) [
  | inl terminal ↦ rw terminal (omega (arith, Reaches-rank r, rank-le t, rank_terminal s terminal))
  | inr live ↦ rw live (omega (arith, Reaches-rank r, rank-le t))
]

-- No transition leads out of a terminal state, and a state that is not terminal may crash and may
-- time out.
pub terminal_iff_stuck :
    (s u : ExecutionState)
    → ((is_terminal_state s && allowed s u) ≡ false)
      × (allowed s crashed ≡ not (is_terminal_state s))
      × (allowed s timed_out ≡ not (is_terminal_state s))
unfolding is_terminal_state allowed
terminal_iff_stuck s u = (ground arith, ground arith, ground arith)

-- A status that tells a client to go on polling.
abbrev pub is_live : LegacyStatus → Bool
is_live LegacyStatus.running = true
is_live LegacyStatus.stopping = true
is_live _ = false

-- The legacy status is "running" or "stopping" exactly for an execution that has not ended, whatever
-- its reason and for services and tasks alike.
pub legacy_status_live :
    (s : ExecutionState) (reason : Option ExecutionReason) (as_service : Bool)
    → is_live (legacy_execution_status s reason as_service) ≡ not (is_terminal_state s)
unfolding legacy_execution_status is_terminal_state
legacy_status_live s reason as_service = ground arith

-- A field whose limit in bytes is four times its limit in characters (the limits of every text field
-- of a record and of an event are so) is accepted exactly for its number of characters: the check of
-- its UTF-8 size never refuses what the length check lets through.
pub utf8_redundant :
    (least most : ℕ) (value : Text)
    → bounded_text least most (most * 4) value
      ≡ (leb least (length value) && leb (length value) most)
unfolding bounded_text
utf8_redundant least most value = ground (arith, utf8_size-le value)

-- ===== src/SafeRegex/Build/Compiled.antt =====
-- `SafeRegex.__init__` from the syntax tree on, and the search on what it builds
-- (src/workspace_guard_mcp/safe_regex.py).
use sandboxed_workspace_mcp.Base.{
  ℕ, suc, ◌≡◌, ◌≤◌, ◌||◌, refl, Bool, false, false≢true, Text, List, [], ◌∷◌, ok, arith, inl, inr,
  length, All,
}
use sandboxed_workspace_mcp.SafeRegex.Machine
use sandboxed_workspace_mcp.SafeRegex.Machine.{
  State, RegexError, safe_regex_error, state_at, reads, search_states,
}
use sandboxed_workspace_mcp.SafeRegex.Machine.Runs.{Wired, IsMachine}
use sandboxed_workspace_mcp.SafeRegex.Syntax.{Node}
use sandboxed_workspace_mcp.SafeRegex.Build.{max_nfa_states, state, add, build, build_machine}
use sandboxed_workspace_mcp.SafeRegex.Build.Slots.{patch-Sound}
use sandboxed_workspace_mcp.SafeRegex.Build.Added.{
  Settles, Settles-bind, dangles, Led, Open, Added, add-Added,
}
use sandboxed_workspace_mcp.SafeRegex.Build.Built.{build-Extends}
use sandboxed_workspace_mcp.SafeRegex.Build.Fragments.{Inside-le, Extends}

-- At most `max_nfa_states` states, every edge to one of them, and an edge out of every state that reads.
abbrev pub IsBounded : List State × ℕ → Type 0
IsBounded (states, start) = (length states ≤ max_nfa_states) × IsMachine states start

All-state_at :
    (P : State → Type 0) (states : List State)
    → ((i : ℕ) (s : State) → state_at states i ≡ ok s → P s)
    → All P states
unfolding state_at
All-state_at P [] h = tt
All-state_at P (s ∷ states) h = (h 0 s refl, All-state_at P states λ i t at. h (suc i) t at)

Open-Wired : (states : List State) → Open (λ k. false) states → All Wired states
Open-Wired states open_at = All-state_at Wired states λ i s at candidate reading.
    elim (open_at i s at candidate reading) [
      | inl led ↦ led
      | inr excused ↦ absurd (false≢true excused)
    ]

no_states : (i : ℕ) (s : State) → ¬ (state_at [] i ≡ ok s)
unfolding state_at
no_states i s h = cc

match-Led : (p : ℕ → Bool) (i : ℕ) → Led p i (state Machine.match)
unfolding reads
match-Led p i candidate reading = absurd (false≢true reading)

-- Each syntax tree is refused as too complex, or gives a machine within the limit whose edges all
-- lead to its states and on which no edge that the search needs is missing; building it raises
-- nothing else.
pub build_machine-IsBounded :
    (fold : ℕ → Text) (node : Node) → Settles IsBounded (build_machine fold node)
unfolding build_machine
build_machine-IsBounded fold node =
    let nothing : Open (λ k. false) [] = λ i s at. absurd (no_states i s at) in
    Settles-bind (Extends (λ k. false) 0) IsBounded (build fold node []) _
      (build-Extends fold node (λ k. false) [] (omega arith, tt, nothing))
      λ (states, fragment) (past, first, inside, sound).
        let q : ℕ → Bool = λ k. false || dangles k fragment.outs in
        Settles-bind (Added q states) IsBounded (add (state Machine.match) states) _
          (add-Added q q (state Machine.match) states sound (tt, tt) (λ k h. h)
            (match-Led q (length states)))
          λ (more, match) (here, grown, done).
            let (patched, run, kept, (bounded, fit, open_at)) =
              patch-Sound (λ k. false) fragment.outs match more
                (Inside-le (length states) (length more) fragment.outs (omega (arith, grown))
                  inside)
                (omega (arith, here, grown)) done in
            rw run (bounded, (omega (arith, first, grown, kept), fit, Open-Wired patched open_at))

-- ===== src/SafeRegex/Machine/Runs.antt =====
-- Runs of a machine over a text (src/workspace_guard_mcp/safe_regex.py).
use sandboxed_workspace_mcp.Base.{
  ℕ, suc, ◌≡◌, ◌<◌, ◌≤◌, true, some, Text, List, ◌∷◌, ok, length, drop, All,
}
use sandboxed_workspace_mcp.SafeRegex.Machine.{State, state_at, is_match, reads}
use sandboxed_workspace_mcp.SafeRegex.Machine.Closure.{Fits}
use sandboxed_workspace_mcp.SafeRegex.Machine.Reached.{Edge}

-- A state that reads has an edge to follow.
abbrev pub Wired : State → Type 0
Wired s = (candidate : Text) → reads s.kind candidate ≡ true → (j : ℕ) × (s.out ≡ some j)

abbrev pub IsMachine : List State → ℕ → Type 0
IsMachine states initial =
    (initial < length states) × All (Fits (length states)) states × All Wired states

-- A step that reads a character: the source's `state.value == candidate`, any character, or a class.
abbrev pub Reads : List State → Text → ℕ → ℕ → Type 0
Reads states candidate i j =
    (s : State) × (state_at states i ≡ ok s) × (reads s.kind candidate ≡ true) × (s.out ≡ some j)

-- The runs of the machine over a text: `At i p` says that some run is in state `i` at position `p`.
-- A run may begin at each position.
pub data At (states : List State) (initial : ℕ) (fold : ℕ → Text) (t : Text) : ℕ → ℕ → Type 0 where
  enter : (p : ℕ) → p ≤ length t → At states initial fold t initial p
  pass :
      (i j p : ℕ)
      → At states initial fold t i p
      → Edge states p (length t) i j
      → At states initial fold t j p
  consume :
      (i j p c : ℕ) (rest : Text)
      → At states initial fold t i p
      → drop p t ≡ c ∷ rest
      → Reads states (fold c) i j
      → At states initial fold t j (suc p)

-- A run that ends in the accepting state.
abbrev pub Accepts : List State → ℕ → (ℕ → Text) → Text → Type 0
Accepts states initial fold t =
    (i : ℕ) × (p : ℕ) × At states initial fold t i p
    × (s : State) × (state_at states i ≡ ok s)
    × (is_match s.kind ≡ true)

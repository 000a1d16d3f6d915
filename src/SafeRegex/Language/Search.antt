-- ===== src/SafeRegex/Language/Search.antt =====
-- The general search against the language of the syntax tree (src/workspace_guard_mcp/safe_regex.py).
use sandboxed_workspace_mcp.Base.{
  ℕ, zero, suc, ◌≡◌, ◌≤◌, ◌↔◌, inl, inr, refl, Bool, true, false, Text, List, ok, length,
}
use sandboxed_workspace_mcp.SafeRegex.Machine.{State, search_states}
use sandboxed_workspace_mcp.SafeRegex.Machine.Runs.{At, enter, pass, consume, Accepts}
use sandboxed_workspace_mcp.SafeRegex.Machine.Search.{search_states-Accepts}
use sandboxed_workspace_mcp.SafeRegex.Syntax.{Node}
use sandboxed_workspace_mcp.SafeRegex.Build.{build_machine}
use sandboxed_workspace_mcp.SafeRegex.Build.Added.{Settles, Settles-both}
use sandboxed_workspace_mcp.SafeRegex.Build.Compiled.{build_machine-IsBounded}
use sandboxed_workspace_mcp.SafeRegex.Build.Traced.{Compiles, build_machine-Compiles}
use sandboxed_workspace_mcp.SafeRegex.Language.{Matches}
use sandboxed_workspace_mcp.SafeRegex.Language.Complete.{Matches-run}
use sandboxed_workspace_mcp.SafeRegex.Language.Leaves.{Run}
use sandboxed_workspace_mcp.SafeRegex.Language.Sound.{Matches-sound}

-- Some part of the text matches the tree.
abbrev pub Occurs : (ℕ → Text) → Text → Node → Type 0
Occurs fold t node = (i : ℕ) × (j : ℕ) × (i ≤ length t) × Matches fold t node i j

-- What is reached from the start runs on from the start.
At-Run :
    (states : List State) (initial : ℕ) (fold : ℕ → Text) (t : Text) (e i n : ℕ)
    → At states initial fold t e i
    → Run states fold t n e i
    → (p : ℕ) × (m : ℕ) × (p ≤ length t) × Run states fold t m initial p
At-Run states initial fold t _ _ n (enter p h) run = (p, n, h, run)
At-Run states initial fold t _ _ n (pass e f i a edge) run =
    At-Run states initial fold t e i (suc n) a (f, i, inl (edge, refl), run)
At-Run states initial fold t _ _ n (consume e f i c rest a d reads) run =
    At-Run states initial fold t e i (suc n) a (f, suc i, inr (c, rest, d, reads, refl), run)

Accepts-Occurs :
    (fold : ℕ → Text) (t : Text) (node : Node) (states : List State) (initial : ℕ)
    → Compiles fold node (states, initial)
    → (Accepts states initial fold t) ↔ (Occurs fold t node)
Accepts-Occurs fold t node states initial (m, s, at, accepts, entry) = (
  (λ (e, i, a, u, there, ends).
      let (p, n, h, run) = At-Run states initial fold t e i zero a (u, there, ends) in
      let (j, k, found, rest, fewer) = Matches-sound states fold t node initial m entry n p run in
      (p, j, h, found)),
  λ (i, j, h, found). (
    m,
    j,
    Matches-run states initial fold t node initial m i j entry found (enter i h),
    s,
    at,
    accepts,
  ),
)

-- On the machine of a tree, the general search returns whatever `should_stop` answers. It answers true
-- only if some part of the text matches the tree, and it answers true if some part matches and
-- `should_stop` answers false at every position.
pub build_machine-Occurs :
    (fold : ℕ → Text) (node : Node) (stops : ℕ → Bool) (t : Text)
    → Settles
        (λ (states, e).
          (found : Bool) × (search_states states e fold stops t ≡ ok found)
          × ((found ≡ true) → Occurs fold t node)
          × (((p : ℕ) → stops p ≡ false) → Occurs fold t node → found ≡ true))
        (build_machine fold node)
build_machine-Occurs fold node stops t =
    Settles-both (build_machine fold node) (build_machine-IsBounded fold node)
      (build_machine-Compiles fold node)
      λ (states, e) (bounded, machine) compiles.
        let (found, run, sound, complete) = search_states-Accepts states e fold stops t machine in
        let same = Accepts-Occurs fold t node states e compiles in
        (found, run, (λ h. same.0 (sound h)), λ never h. complete never (same.1 h))

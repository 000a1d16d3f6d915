-- ===== src/SafeRegex/Language.antt =====
-- What the syntax trees of src/workspace_guard_mcp/safe_regex.py mean, apart from any machine: the
-- parts of a text that match a tree. The children compare this with the machine that is built.
pub mod Wiring
pub mod Complete
pub mod Leaves
pub mod Sound
pub mod Search
use sandboxed_workspace_mcp.Base.{ℕ, suc, ◌≡◌, ◌⊎◌, true, Text, ◌∷◌, length, drop}
use sandboxed_workspace_mcp.SafeRegex.Machine
use sandboxed_workspace_mcp.SafeRegex.Machine.{Kind, reads}
use sandboxed_workspace_mcp.SafeRegex.Syntax.{
  Node, Nodes, empty, literal, class, any, start, end, concat, alt, star, plus, optional, none_left,
  then_node,
}

-- Any number of repetitions.
pub data Star {ℓ} (R : ℕ → ℕ → Type ℓ) : ℕ → ℕ → Type ℓ where
  stop : (i : ℕ) → Star R i i
  again : (i k j : ℕ) → R i k → Star R k j → Star R i j

module _ (fold : ℕ → Text) (t : Text) where
  -- The text has a character at `i` that a state of this kind reads.
  abbrev pub Reading : Kind → ℕ → ℕ → Type 0
  Reading k i j =
      (c : ℕ) × (rest : Text) × (drop i t ≡ c ∷ rest) × (reads k (fold c) ≡ true) × (j ≡ suc i)

  -- The text from `i` to `j` matches the tree.
  abbrev mutual
    pub Matches : Node → ℕ → ℕ → Type 0
    Matches empty i j = i ≡ j
    Matches (literal c) i j = Reading (Machine.literal (fold c)) i j
    Matches (class s) i j = Reading (Machine.class s) i j
    Matches any i j = Reading Machine.any i j
    Matches start i j = (i ≡ 0) × (i ≡ j)
    Matches end i j = (i ≡ length t) × (i ≡ j)
    Matches (concat n ns) i j = (k : ℕ) × Matches n i k × MatchesEach ns k j
    Matches (alt n ns) i j = Matches n i j ⊎ MatchesOne ns i j
    Matches (star n) i j = Star (Matches n) i j
    Matches (plus n) i j = (k : ℕ) × Matches n i k × Star (Matches n) k j
    Matches (optional n) i j = (i ≡ j) ⊎ Matches n i j

    pub MatchesEach : Nodes → ℕ → ℕ → Type 0
    MatchesEach none_left i j = i ≡ j
    MatchesEach (then_node n ns) i j = (k : ℕ) × Matches n i k × MatchesEach ns k j

    pub MatchesOne : Nodes → ℕ → ℕ → Type 0
    MatchesOne none_left i j = ⊥
    MatchesOne (then_node n ns) i j = Matches n i j ⊎ MatchesOne ns i j

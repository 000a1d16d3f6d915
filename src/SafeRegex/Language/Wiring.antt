-- ===== src/SafeRegex/Language/Wiring.antt =====
-- Where a tree stands in a finished machine: `Wired node e x` says that the states from `e` on are
-- those of the tree, and that what follows it is the state `x`.
use sandboxed_workspace_mcp.Base.{ℕ, ◌≡◌, Text, List, some, ok}
use sandboxed_workspace_mcp.SafeRegex.Machine
use sandboxed_workspace_mcp.SafeRegex.Machine.{State, Kind, state_at}
use sandboxed_workspace_mcp.SafeRegex.Syntax.{
  Node, Nodes, empty, literal, class, any, start, end, concat, alt, star, plus, optional, none_left,
  then_node,
}

-- One state of a kind, with its edge.
abbrev pub Leads : List State → Kind → ℕ → ℕ → Type 0
Leads states k e x = (s : State) × (state_at states e ≡ ok s) × (s.kind ≡ k) × (s.out ≡ some x)

abbrev pub Splits : List State → ℕ → ℕ → ℕ → Type 0
Splits states e a b =
    (s : State) × (state_at states e ≡ ok s)
    × (s.kind ≡ Machine.split)
    × (s.out ≡ some a)
    × (s.out1 ≡ some b)

module _ (fold : ℕ → Text) (states : List State) where
  abbrev mutual
    pub Entry : Node → ℕ → ℕ → Type 0
    Entry empty e x = Leads states Machine.jump e x
    Entry (literal c) e x = Leads states (Machine.literal (fold c)) e x
    Entry (class s) e x = Leads states (Machine.class s) e x
    Entry any e x = Leads states Machine.any e x
    Entry start e x = Leads states Machine.start e x
    Entry end e x = Leads states Machine.end e x
    Entry (concat n ns) e x = (k : ℕ) × Entry n e k × Chain ns k x
    Entry (alt n ns) e x = (a : ℕ) × Entry n a x × Joined a ns e x
    Entry (star n) e x = (c : ℕ) × Entry n c e × Splits states e c x
    Entry (plus n) e x = (s : ℕ) × Entry n e s × Splits states s e x
    Entry (optional n) e x = (c : ℕ) × Entry n c x × Splits states e c x

    pub Chain : Nodes → ℕ → ℕ → Type 0
    Chain none_left e x = e ≡ x
    Chain (then_node n ns) e x = (k : ℕ) × Entry n e k × Chain ns k x

    -- The branches so far begin at `a`.
    pub Joined : ℕ → Nodes → ℕ → ℕ → Type 0
    Joined a none_left e x = a ≡ e
    Joined a (then_node n ns) e x =
        (b : ℕ) × (s : ℕ) × Entry n b x × Splits states s a b × Joined s ns e x

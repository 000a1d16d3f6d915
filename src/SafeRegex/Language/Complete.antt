-- ===== src/SafeRegex/Language/Complete.antt =====
-- A match of a tree gives a run through the states that stand for it
-- (src/workspace_guard_mcp/safe_regex.py).
use sandboxed_workspace_mcp.Base.{
  ℕ, ◌≡◌, inl, inr, refl, sym, subst, true, Text, List, [], Option, some, ok, length, arith,
}
use sandboxed_workspace_mcp.SafeRegex.Machine
use sandboxed_workspace_mcp.SafeRegex.Machine.{
  State, Kind, state_at, index_in, pushed, expand, reads,
}
use sandboxed_workspace_mcp.SafeRegex.Machine.Reached.{Edge}
use sandboxed_workspace_mcp.SafeRegex.Machine.Runs.{At, pass, consume}
use sandboxed_workspace_mcp.SafeRegex.Syntax.{
  Node, Nodes, empty, literal, class, any, start, end, concat, alt, star, plus, optional, none_left,
  then_node,
}
use sandboxed_workspace_mcp.SafeRegex.Language.{
  Star, stop, again, Reading, Matches, MatchesEach, MatchesOne,
}
use sandboxed_workspace_mcp.SafeRegex.Language.Wiring.{Leads, Splits, Entry, Chain, Joined}

Edge-from :
    (states : List State) (p len e x : ℕ) (k : Kind) (o o1 : Option ℕ) (s : State)
    → state_at states e ≡ ok s
    → s.kind ≡ k
    → s.out ≡ o
    → s.out1 ≡ o1
    → index_in x (expand p len k o o1 []) ≡ true
    → Edge states p len e x
Edge-from states p len e x k o o1 s at kind out out1 h = (
  s,
  at,
  subst (λ k. index_in x (expand p len k s.out s.out1 []) ≡ true) (sym kind)
      (subst (λ o. index_in x (expand p len k o s.out1 []) ≡ true) (sym out)
        (subst (λ o1. index_in x (expand p len k o o1 []) ≡ true) (sym out1) h)),
)

module _ (states : List State) (initial : ℕ) (fold : ℕ → Text) (t : Text) where
  abbrev Reached : ℕ → ℕ → Type 0
  Reached e i = At states initial fold t e i

  Reading-run :
      (k : Kind) (e x i j : ℕ)
      → Leads states k e x
      → Reading fold t k i j
      → Reached e i
      → Reached x j
  Reading-run k e x i j (s, at, kind, out) (c, rest, d, reading, moved) r =
      subst (Reached x) (sym moved) (
        consume e x i c rest r d
          (s, at, subst (λ k. reads k (fold c) ≡ true) (sym kind) reading, out))

  passing_run :
      (k : Kind) (e x i : ℕ)
      → ((o1 : Option ℕ) → index_in x (expand i (length t) k (some x) o1 []) ≡ true)
      → Leads states k e x
      → Reached e i
      → Reached x i
  passing_run k e x i holds (s, at, kind, out) r =
      pass e x i r
        (Edge-from states i (length t) e x k (some x) s.out1 s at kind out refl (holds s.out1))

  split_left : (e a b i : ℕ) → Splits states e a b → Reached e i → Reached a i
  unfolding expand pushed index_in
  split_left e a b i (s, at, kind, out, out1) r = pass e a i r (
      Edge-from states i (length t) e a Machine.split (some a) (some b) s at kind out out1
        (ground arith))

  split_right : (e a b i : ℕ) → Splits states e a b → Reached e i → Reached b i
  unfolding expand pushed index_in
  split_right e a b i (s, at, kind, out, out1) r = pass e b i r (
      Edge-from states i (length t) e b Machine.split (some a) (some b) s at kind out out1
        (ground arith))

  Star-run :
      (n : Node) (e c x i j : ℕ)
      → ((i j : ℕ) → Matches fold t n i j → Reached c i → Reached e j)
      → Splits states e c x
      → Star (Matches fold t n) i j
      → Reached e i
      → Reached x j
  Star-run n e c x _ _ once split (stop i) r = split_right e c x i split r
  Star-run n e c x _ _ once split (again i k j m more) r =
      Star-run n e c x k j once split more (once i k m (split_left e c x i split r))

  -- The branches joined so far can be entered from the last split.
  Joined-run : (ns : Nodes) (a e x i : ℕ) → Joined fold states a ns e x → Reached e i → Reached a i
  Joined-run none_left a e x i same r = subst (λ e. Reached e i) (sym same) r
  Joined-run (then_node n ns) a e x i (b, s, entry, split, joined) r =
      split_left s a b i split (Joined-run ns s e x i joined r)

  mutual
    unfolding expand pushed index_in

    pub Matches-run :
        (n : Node) (e x i j : ℕ)
        → Entry fold states n e x
        → Matches fold t n i j
        → Reached e i
        → Reached x j
    Matches-run empty e x i j entry m r =
        subst (Reached x) m (passing_run Machine.jump e x i (λ o1. ground arith) entry r)
    Matches-run (literal c) e x i j entry m r =
        Reading-run (Machine.literal (fold c)) e x i j entry m r
    Matches-run (class s) e x i j entry m r = Reading-run (Machine.class s) e x i j entry m r
    Matches-run any e x i j entry m r = Reading-run Machine.any e x i j entry m r
    Matches-run start e x i j entry (here, m) r =
        subst (Reached x) m (passing_run Machine.start e x i (λ o1. ground (arith, here)) entry r)
    Matches-run end e x i j entry (here, m) r =
        subst (Reached x) m (passing_run Machine.end e x i (λ o1. ground (arith, here)) entry r)
    Matches-run (concat n ns) e x i j (k, first, chain) (p, m, each) r =
        MatchesEach-run ns k x p j chain each (Matches-run n e k i p first m r)
    Matches-run (alt n ns) e x i j (a, first, joined) (inl m) r =
        Matches-run n a x i j first m (Joined-run ns a e x i joined r)
    Matches-run (alt n ns) e x i j (a, first, joined) (inr m) r =
        MatchesOne-run ns a e x i j joined m r
    Matches-run (star n) e x i j (c, body, split) m r =
        Star-run n e c x i j (λ i j. Matches-run n c e i j body) split m r
    Matches-run (plus n) e x i j (s, body, split) (k, m, more) r =
        Star-run n s e x k j (λ i j. Matches-run n e s i j body) split more
          (Matches-run n e s i k body m r)
    Matches-run (optional n) e x i j (c, body, split) (inl m) r =
        subst (Reached x) m (split_right e c x i split r)
    Matches-run (optional n) e x i j (c, body, split) (inr m) r =
        Matches-run n c x i j body m (split_left e c x i split r)

    MatchesEach-run :
        (ns : Nodes) (e x i j : ℕ)
        → Chain fold states ns e x
        → MatchesEach fold t ns i j
        → Reached e i
        → Reached x j
    MatchesEach-run none_left e x i j same m r =
        subst (Reached x) m (subst (λ e. Reached e i) same r)
    MatchesEach-run (then_node n ns) e x i j (k, first, chain) (p, m, each) r =
        MatchesEach-run ns k x p j chain each (Matches-run n e k i p first m r)

    MatchesOne-run :
        (ns : Nodes) (a e x i j : ℕ)
        → Joined fold states a ns e x
        → MatchesOne fold t ns i j
        → Reached e i
        → Reached x j
    MatchesOne-run none_left a e x i j same m r = absurd m
    MatchesOne-run (then_node n ns) a e x i j (b, s, entry, split, joined) (inl m) r =
        Matches-run n b x i j entry m (split_right s a b i split (Joined-run ns s e x i joined r))
    MatchesOne-run (then_node n ns) a e x i j (b, s, entry, split, joined) (inr m) r =
        MatchesOne-run ns s e x i j joined m r

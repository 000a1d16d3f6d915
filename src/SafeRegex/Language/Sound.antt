-- ===== src/SafeRegex/Language/Sound.antt =====
-- A run that enters the states of a tree and ends in the accepting state has read a match of the
-- tree first (src/workspace_guard_mcp/safe_regex.py).
use sandboxed_workspace_mcp.Base.{
  ℕ, zero, suc, ◌≡◌, ◌≤◌, ◌⊎◌, inl, inr, refl, sym, subst, Bool, true, false, false≢true, Text,
  List, [], ◌∷◌, Option, some, length, arith, ◌==◌, if◌then◌else◌,
}
use sandboxed_workspace_mcp.SafeRegex.Machine
use sandboxed_workspace_mcp.SafeRegex.Machine.{
  State, Kind, state_at, index_in, pushed, expand, reads, is_match,
}
use sandboxed_workspace_mcp.SafeRegex.Syntax.{
  Node, Nodes, empty, literal, class, any, start, end, concat, alt, star, plus, optional, none_left,
  then_node,
}
use sandboxed_workspace_mcp.SafeRegex.Language.{
  Star, stop, again, Reading, Matches, MatchesEach, MatchesOne,
}
use sandboxed_workspace_mcp.SafeRegex.Language.Wiring.{Leads, Splits, Entry, Chain, Joined}
use sandboxed_workspace_mcp.SafeRegex.Language.Leaves.{
  Run, Leaves, lead-First, only_here, Reading-end, passing_end, split_sound, Leaves-weaken,
}

module _ (states : List State) (fold : ℕ → Text) (t : Text) where
  -- What is known of a run through a tree, for runs of fewer than `fuel` steps.
  abbrev Once : Node → ℕ → ℕ → Type 0
  Once node e x =
      (n i : ℕ) → Run states fold t n e i → Leaves states fold t (Matches fold t node i) n x

  Star-sound :
      (node : Node) (e c x fuel n i : ℕ)
      → Once node c e
      → Splits states e c x
      → n ≤ fuel
      → Run states fold t n e i
      → Leaves states fold t (Star (Matches fold t node) i) n x
  Star-sound node e c x zero n i once split h run =
      let (m, fewer, rest) = split_sound states fold t e c x n i split run in
      absurd (omega (arith, h, fewer))
  Star-sound node e c x (suc fuel) n i once split h run =
      let (m, fewer, rest) = split_sound states fold t e c x n i split run in
      elim rest [
        | inr out ↦ (i, m, stop i, out, fewer)
        | inl in_body ↦
            let (k, p, first, back, less) = once m i in_body in
            Leaves-weaken states fold t (Star (Matches fold t node) k)
              (Star (Matches fold t node) i) p n x (omega (arith, fewer, less))
              (λ j more. again i k j first more)
              (Star-sound node e c x fuel p k once split (omega (arith, h, fewer, less)) back)
      ]

  lead_passes :
      (k : Kind) (e x n i : ℕ) (G : Type 0)
      → is_match k ≡ false
      → ((c : Text) → reads k c ≡ false)
      → ((f : ℕ) (o1 : Option ℕ)
          → index_in f (expand i (length t) k (some x) o1 []) ≡ true
          → G × (f ≡ x))
      → Leads states k e x
      → Run states fold t n e i
      → Leaves states fold t (λ j. G × (i ≡ j)) n x
  lead_passes k e x n i G quiet mute follow lead run =
      let (o1, first) = lead-First states fold t k e x n i quiet lead run in
      passing_end states fold t k x n i o1 G mute (λ f. follow f o1) first

  lead_reads :
      (k : Kind) (e x n i : ℕ)
      → is_match k ≡ false
      → ((f : ℕ) (o1 : Option ℕ) → index_in f (expand i (length t) k (some x) o1 []) ≡ false)
      → Leads states k e x
      → Run states fold t n e i
      → Leaves states fold t (λ j. Reading fold t k i j) n x
  lead_reads k e x n i quiet shut lead run =
      let (o1, first) = lead-First states fold t k e x n i quiet lead run in
      Reading-end states fold t k x n i o1 (λ f. shut f o1) first

  -- An anchor is passed where it holds.
  anchored :
      (b : Bool) (f x : ℕ) → index_in f (if b then x ∷ [] else []) ≡ true → (b ≡ true) × (f ≡ x)
  unfolding index_in
  anchored true f x h = (refl, only_here states fold t f x h)
  anchored false f x h = absurd (false≢true h)

  mutual
    unfolding expand pushed index_in reads is_match

    pub Matches-sound : (node : Node) (e x : ℕ) → Entry fold states node e x → Once node e x
    Matches-sound empty e x entry n i run =
        Leaves-weaken states fold t (λ j. Unit {0} × (i ≡ j)) (λ j. i ≡ j) n n x (omega arith)
          (λ j h. h.1)
          (lead_passes Machine.jump e x n i (Unit {0}) refl (λ c. refl)
            (λ f o1 h. (tt, only_here states fold t f x h)) entry run)
    Matches-sound (literal c) e x entry n i run =
        lead_reads (Machine.literal (fold c)) e x n i refl (λ f o1. refl) entry run
    Matches-sound (class s) e x entry n i run =
        lead_reads (Machine.class s) e x n i refl (λ f o1. refl) entry run
    Matches-sound any e x entry n i run =
        lead_reads Machine.any e x n i refl (λ f o1. refl) entry run
    Matches-sound start e x entry n i run =
        lead_passes Machine.start e x n i (i ≡ 0) refl (λ c. refl)
          (λ f o1 h. let (here, to) = anchored (i == 0) f x h in (ground (arith, here), to)) entry
          run
    Matches-sound end e x entry n i run =
        lead_passes Machine.end e x n i (i ≡ length t) refl (λ c. refl)
          (λ f o1 h. let (here, to) = anchored (i == length t) f x h in (ground (arith, here), to))
          entry run
    Matches-sound (concat node ns) e x (k, first, chain) n i run =
        let (p, m, one, rest, fewer) = Matches-sound node e k first n i run in
        Leaves-weaken states fold t (MatchesEach fold t ns p) (Matches fold t (concat node ns) i)
          (suc m) n x (omega (arith, fewer)) (λ j each. (p, one, each))
          (MatchesEach-sound ns k x chain m p rest)
    Matches-sound (alt node ns) e x (a, first, joined) n i run =
        elim (MatchesOne-sound ns a e x joined n i run) [
          | inl (m, less, at_first) ↦
              Leaves-weaken states fold t (Matches fold t node i) (Matches fold t (alt node ns) i) m
                n x less (λ j h. inl h) (Matches-sound node a x first m i at_first)
          | inr later ↦
              Leaves-weaken states fold t (MatchesOne fold t ns i) (Matches fold t (alt node ns) i)
                n n x (omega arith) (λ j h. inr h) later
        ]
    Matches-sound (star node) e x (c, body, split) n i run =
        Star-sound node e c x n n i (Matches-sound node c e body) split (omega arith) run
    Matches-sound (plus node) e x (s, body, split) n i run =
        let (p, m, one, rest, fewer) = Matches-sound node e s body n i run in
        Leaves-weaken states fold t (Star (Matches fold t node) p) (Matches fold t (plus node) i) m
          n x (omega (arith, fewer)) (λ j more. (p, one, more))
          (Star-sound node s e x m m p (Matches-sound node e s body) split (omega arith) rest)
    Matches-sound (optional node) e x (c, body, split) n i run =
        let (m, fewer, rest) = split_sound states fold t e c x n i split run in
        elim rest [
          | inr out ↦ (i, m, inl refl, out, fewer)
          | inl in_body ↦
              Leaves-weaken states fold t (Matches fold t node i) (Matches fold t (optional node) i)
                m n x (omega (arith, fewer)) (λ j h. inr h)
                (Matches-sound node c x body m i in_body)
        ]

    MatchesEach-sound :
        (ns : Nodes) (e x : ℕ)
        → Chain fold states ns e x
        → (n i : ℕ) → Run states fold t n e i
        → Leaves states fold t (MatchesEach fold t ns i) (suc n) x
    MatchesEach-sound none_left e x same n i run =
        (i, n, refl, subst (λ e. Run states fold t n e i) same run, omega arith)
    MatchesEach-sound (then_node node ns) e x (k, first, chain) n i run =
        let (p, m, one, rest, fewer) = Matches-sound node e k first n i run in
        Leaves-weaken states fold t (MatchesEach fold t ns p)
          (MatchesEach fold t (then_node node ns) i) (suc m) (suc n) x (omega (arith, fewer))
          (λ j each. (p, one, each)) (MatchesEach-sound ns k x chain m p rest)

    -- A run through the joined branches goes on at `a`, or it has read one of the others.
    MatchesOne-sound :
        (ns : Nodes) (a e x : ℕ)
        → Joined fold states a ns e x
        → (n i : ℕ) → Run states fold t n e i
        → ((m : ℕ) × (m ≤ n) × Run states fold t m a i)
          ⊎ Leaves states fold t (MatchesOne fold t ns i) n x
    MatchesOne-sound none_left a e x same n i run =
        inl (n, omega arith, subst (λ e. Run states fold t n e i) (sym same) run)
    MatchesOne-sound (then_node node ns) a e x (b, s, entry, split, joined) n i run =
        elim (MatchesOne-sound ns s e x joined n i run) [
          | inr later ↦ inr (
              Leaves-weaken states fold t (MatchesOne fold t ns i)
                (MatchesOne fold t (then_node node ns) i) n n x (omega arith) (λ j h. inr h) later)
          | inl (m, less, at_split) ↦
              let (p, fewer, rest) = split_sound states fold t s a b m i split at_split in
              elim rest [
                | inl left ↦ inl (p, omega (arith, less, fewer), left)
                | inr right ↦ inr (
                    Leaves-weaken states fold t (Matches fold t node i)
                      (MatchesOne fold t (then_node node ns) i) p n x (omega (arith, less, fewer))
                      (λ j h. inl h) (Matches-sound node b x entry p i right))
              ]
        ]

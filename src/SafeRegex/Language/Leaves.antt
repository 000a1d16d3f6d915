-- ===== src/SafeRegex/Language/Leaves.antt =====
-- How a run goes on from one state of the machine (src/workspace_guard_mcp/safe_regex.py).
use sandboxed_workspace_mcp.Base.{
  ℕ, zero, suc, ◌≡◌, ◌≤◌, ◌<◌, ◌⊎◌, inl, inr, refl, sym, ◌∙◌, subst, true, false, false≢true, Text,
  List, [], ◌∷◌, Option, some, ok, length, drop, arith, ◌==◌, Bool-cases,
}
use sandboxed_workspace_mcp.SafeRegex.Machine
use sandboxed_workspace_mcp.SafeRegex.Machine.{
  State, Kind, state_at, index_in, pushed, expand, reads, is_match,
}
use sandboxed_workspace_mcp.SafeRegex.Machine.Reached.{Edge}
use sandboxed_workspace_mcp.SafeRegex.Machine.Runs.{Reads}
use sandboxed_workspace_mcp.SafeRegex.Language.{Reading}
use sandboxed_workspace_mcp.SafeRegex.Language.Wiring.{Leads, Splits}

module _ (states : List State) (fold : ℕ → Text) (t : Text) where
  -- One step of a run, without a character or with one.
  abbrev pub Step : ℕ → ℕ → ℕ → ℕ → Type 0
  Step e i f j =
      (Edge states i (length t) e f × (j ≡ i))
      ⊎ ((c : ℕ) × (rest : Text) × (drop i t ≡ c ∷ rest) × Reads states (fold c) e f × (j ≡ suc i))

  -- A run of `n` steps from the state `e` at the position `i` ends in an accepting state.
  abbrev pub Run : ℕ → ℕ → ℕ → Type 0
  Run zero e i = (s : State) × (state_at states e ≡ ok s) × (is_match s.kind ≡ true)
  Run (suc n) e i = (f : ℕ) × (j : ℕ) × Step e i f j × Run n f j

  -- The first step from a state of kind `k` with the edges `o` and `o1`.
  abbrev First : Kind → Option ℕ → Option ℕ → ℕ → ℕ → Type 0
  First k o o1 n i =
      (m : ℕ) × (n ≡ suc m)
      × (f : ℕ) × (j : ℕ) × (((index_in f (expand i (length t) k o o1 []) ≡ true) × (j ≡ i))
          ⊎ ((c : ℕ) × (rest : Text) × (drop i t ≡ c ∷ rest)
              × (reads k (fold c) ≡ true)
              × (o ≡ some f)
              × (j ≡ suc i)))
      × Run m f j

  same_state : (e : ℕ) (s u : State) → state_at states e ≡ ok s → state_at states e ≡ ok u → s ≡ u
  same_state e s u h k = cc

  First-step :
      (e n i : ℕ) (s : State)
      → state_at states e ≡ ok s
      → is_match s.kind ≡ false
      → Run n e i
      → First s.kind s.out s.out1 n i
  First-step e zero i s at quiet (u, there, accepts) = absurd (
      false≢true
        (sym quiet ∙ subst (λ s. is_match s.kind ≡ true) (same_state e u s there at) accepts))
  First-step e (suc n) i s at quiet (f, j, inl ((u, there, edge), stays), run) = (
    n,
    refl,
    f,
    j,
    inl (
      subst (λ s. index_in f (expand i (length t) s.kind s.out s.out1 []) ≡ true)
          (same_state e u s there at) edge,
      stays,
    ),
    run,
  )
  First-step e (suc n) i s at quiet (f, j, inr (c, rest, d, (u, there, reading, to), moved), run) =
      let same = same_state e u s there at in
      (
        n,
        refl,
        f,
        j,
        inr (
          c,
          rest,
          d,
          subst (λ s. reads s.kind (fold c) ≡ true) same reading,
          subst (λ s. s.out ≡ some f) same to,
          moved,
        ),
        run,
      )

  -- What a run leaves after the states of a tree: it goes on from `x`, in fewer steps.
  abbrev pub Leaves : (ℕ → Type 0) → ℕ → ℕ → Type 0
  Leaves R n x = (j : ℕ) × (m : ℕ) × R j × Run m x j × (m < n)

  pub lead-First :
      (k : Kind) (e x n i : ℕ)
      → is_match k ≡ false
      → Leads states k e x
      → Run n e i
      → (o1 : Option ℕ) × First k (some x) o1 n i
  lead-First k e x n i quiet (s, at, kind, out) run =
      let first = First-step e n i s at (subst (λ k. is_match k ≡ false) (sym kind) quiet) run in
      (
        s.out1,
        subst (λ o. First k o s.out1 n i) out (subst (λ k. First k s.out s.out1 n i) kind first),
      )

  some-inj : (a b : ℕ) → Path (Option ℕ) (some a) (some b) → a ≡ b
  some-inj a b h = cc

  pub only_here : (f x : ℕ) → index_in f (x ∷ []) ≡ true → f ≡ x
  unfolding index_in
  only_here f x h = ground (arith, h)

  either_edge : (a b f m i : ℕ) → index_in f (b ∷ a ∷ []) ≡ true → Run m f i → Run m a i ⊎ Run m b i
  unfolding index_in
  either_edge a b f m i h run = elim (Bool-cases (f == b)) [
    | inl last ↦ inr (subst (λ f. Run m f i) (ground arith) run)
    | inr other ↦ inl (subst (λ f. Run m f i) (ground (arith, h)) run)
  ]

  pub Reading-end :
      (k : Kind) (x n i : ℕ) (o1 : Option ℕ)
      → ((f : ℕ) → index_in f (expand i (length t) k (some x) o1 []) ≡ false)
      → First k (some x) o1 n i
      → Leaves (λ j. Reading fold t k i j) n x
  Reading-end k x n i o1 shut (m, fewer, f, j, inl (edge, stays), rest) =
      absurd (false≢true (sym (shut f) ∙ edge))
  Reading-end k x n i o1 shut (m, fewer, f, j, inr (c, others, d, reading, to, moved), rest) = (
    j,
    m,
    (c, others, d, reading, moved),
    subst (λ f. Run m f j) (some-inj f x (sym to)) rest,
    omega (arith, fewer),
  )

  pub passing_end :
      (k : Kind) (x n i : ℕ) (o1 : Option ℕ) (G : Type 0)
      → ((c : Text) → reads k c ≡ false)
      → ((f : ℕ) → index_in f (expand i (length t) k (some x) o1 []) ≡ true → G × (f ≡ x))
      → First k (some x) o1 n i
      → Leaves (λ j. G × (i ≡ j)) n x
  passing_end k x n i o1 G mute follow (m, fewer, f, j, inl (edge, stays), rest) =
      let (g, to) = follow f edge in
      (j, m, (g, sym stays), subst (λ f. Run m f j) to rest, omega (arith, fewer))
  passing_end k x n i o1 G mute follow
        (m, fewer, f, j, inr (c, others, d, reading, to, moved), rest) =
      absurd (false≢true (sym (mute (fold c)) ∙ reading))

  -- A run through a split goes on at one of its edges.
  split_end :
      (a b n i : ℕ)
      → First Machine.split (some a) (some b) n i
      → (m : ℕ) × (m < n) × (Run m a i ⊎ Run m b i)
  unfolding expand pushed index_in reads
  split_end a b n i (m, fewer, f, j, inl (edge, stays), rest) =
      (m, omega (arith, fewer), either_edge a b f m i edge (subst (Run m f) stays rest))
  split_end a b n i (m, fewer, f, j, inr (c, others, d, reading, to, moved), rest) =
      absurd (false≢true reading)

  pub split_sound :
      (e a b n i : ℕ)
      → Splits states e a b
      → Run n e i
      → (m : ℕ) × (m < n) × (Run m a i ⊎ Run m b i)
  unfolding is_match
  split_sound e a b n i (s, at, kind, out, out1) run =
      let first = First-step e n i s at (subst (λ k. is_match k ≡ false) (sym kind) refl) run in
      split_end a b n i (
        subst (λ o1. First Machine.split (some a) o1 n i) out1
          (subst (λ o. First Machine.split o s.out1 n i) out
            (subst (λ k. First k s.out s.out1 n i) kind first)))

  pub Leaves-weaken :
      (R Q : ℕ → Type 0) (m n x : ℕ) → m ≤ n → ((j : ℕ) → R j → Q j) → Leaves R m x → Leaves Q n x
  Leaves-weaken R Q m n x h map (j, k, r, run, fewer) =
      (j, k, map j r, run, omega (arith, h, fewer))

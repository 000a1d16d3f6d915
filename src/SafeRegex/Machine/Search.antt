-- ===== src/SafeRegex/Machine/Search.antt =====
-- The general search of `SafeRegex.search` against the runs of the machine
-- (src/workspace_guard_mcp/safe_regex.py).
use sandboxed_workspace_mcp.Base.{
  ℕ, suc, ◌%◌, ◌≡◌, ◌≤◌, false≢true, refl, sym, ◌∙◌, subst, Bool, true, false, ◌&&◌, Text, List, [],
  ◌∷◌, ◌==◌, ok, arith, Bool-cases, inl, inr, length, drop,
}
use sandboxed_workspace_mcp.SafeRegex.Machine.{State, state_at, is_match, scan, search_states}
use sandboxed_workspace_mcp.SafeRegex.Machine.Steps.{any_match-Found, advance-Follows}
use sandboxed_workspace_mcp.SafeRegex.Machine.Runs.{IsMachine, At, Accepts}
use sandboxed_workspace_mcp.SafeRegex.Machine.Positions.{
  drop_step, drop_end, now_or_later, never_stopped, At-le, IsActive, closure-IsActive,
  IsActive-Present, next-Following, first-Following, Found-Accepts, At-Found,
}

module _ (states : List State) (initial : ℕ) (fold : ℕ → Text) (t : Text) where
  -- An accepting run that ends at `p` or later.
  AcceptsFrom : ℕ → Type 0
  AcceptsFrom p =
      (i : ℕ) × (q : ℕ) × (p ≤ q)
      × At states initial fold t i q
      × (s : State) × (state_at states i ≡ ok s)
      × (is_match s.kind ≡ true)

  module _ (stops : ℕ → Bool) (machine : IsMachine states initial) where
    -- What the scan from `p` on answers.
    Scanned : ℕ → List ℕ → Text → Type 0
    Scanned p active rest =
        (b : Bool) × (scan states initial (length t) fold stops p active rest ≡ ok b)
        × ((b ≡ true) → Accepts states initial fold t)
        × (((p : ℕ) → stops p ≡ false) → AcceptsFrom p → b ≡ true)

    scan-Scanned :
        (rest : Text) (p : ℕ) (active : List ℕ)
        → drop p t ≡ rest
        → IsActive states initial fold t p active
        → Scanned p active rest
    unfolding Scanned AcceptsFrom scan
    scan-Scanned [] p active d exact =
        let (b, run, sound, complete) =
          any_match-Found states active (IsActive-Present states initial fold t p active exact) in
        elim (Bool-cases (p % 256 == 0 && stops p)) [
          | inl stopped ↦ rw stopped (
            false,
            refl,
            (λ h. absurd (false≢true h)),
            (λ never accepting. absurd (never_stopped _ _ stopped (never p))),
          )
          | inr going ↦ rw going (
            b,
            run,
            (λ h. Found-Accepts states initial fold t p active exact (sound h)),
            (λ never (i, q, later, a, s, at, accepts). complete (
                At-Found states initial fold t i p s active exact
                  (subst (At states initial fold t i)
                    (drop_end p q t d later (At-le states initial fold t i q a)) a)
                  at accepts)),
          )
        ]
    scan-Scanned (c ∷ rest) p active d exact =
        let (b, run, sound, complete) =
          any_match-Found states active (IsActive-Present states initial fold t p active exact) in
        let (following, went, below, came, led) =
          advance-Follows states (fold c) active (initial ∷ []) machine.1 machine.2
            (IsActive-Present states initial fold t p active exact) (machine.0, tt) in
        let (next, closed, settled) =
          closure-IsActive states initial fold t (suc p) following
            (next-Following states initial fold t p c rest active following d exact came led)
            machine.1 below in
        let (found, after, sound2, complete2) =
          scan-Scanned rest (suc p) next (drop_step p c t rest d) settled in
        elim (Bool-cases (p % 256 == 0 && stops p)) [
          | inl stopped ↦ rw stopped (
            false,
            refl,
            (λ h. absurd (false≢true h)),
            (λ never accepting. absurd (never_stopped _ _ stopped (never p))),
          )
          | inr going ↦ elim (Bool-cases b) [
            | inl matched ↦
                rw (going, run, matched)
                  (
                    true,
                    refl,
                    (λ h. Found-Accepts states initial fold t p active exact (sound matched)),
                    (λ never accepting. refl),
                  )
            | inr unmatched ↦
                rw (going, run, unmatched, went, closed)
                  (
                    found,
                    after,
                    sound2,
                    (λ never (i, q, later, a, s, at, accepts). elim (now_or_later p q later) [
                      | inl now ↦ absurd (
                          false≢true (
                            sym unmatched
                            ∙ complete (
                                At-Found states initial fold t i p s active exact
                                  (subst (At states initial fold t i) now a) at accepts)))
                      | inr past ↦ complete2 never (i, q, past, a, s, at, accepts)
                    ]),
                  )
          ]
        ]

-- On a machine whose edges lead to its own states, the search returns whatever `should_stop` answers:
-- true only if a run over the text, begun at some position, ends in the accepting state, and true if
-- there is such a run and the search is never stopped.
pub search_states-Accepts :
    (states : List State) (initial : ℕ) (fold : ℕ → Text) (stops : ℕ → Bool) (t : Text)
    → IsMachine states initial
    → (found : Bool) × (search_states states initial fold stops t ≡ ok found)
      × ((found ≡ true) → Accepts states initial fold t)
      × (((p : ℕ) → stops p ≡ false) → Accepts states initial fold t → found ≡ true)
unfolding Scanned AcceptsFrom search_states
search_states-Accepts states initial fold stops t machine =
    let (active, closed, settled) =
      closure-IsActive states initial fold t 0 (initial ∷ [])
        (first-Following states initial fold t) machine.1 (machine.0, tt) in
    let (found, run, sound, complete) =
      scan-Scanned states initial fold t stops machine t 0 active refl settled in
    rw closed (
      found,
      run,
      sound,
      λ never (i, q, a, s, at, accepts). complete never (i, q, omega arith, a, s, at, accepts),
    )

-- ===== src/SafeRegex/Machine/Steps.antt =====
-- One step of the general search of `SafeRegex.search` (src/workspace_guard_mcp/safe_regex.py).
use sandboxed_workspace_mcp.Base.{
  ℕ, ◌≡◌, ◌<◌, ◌⊎◌, false≢true, refl, sym, ap, ◌∙◌, subst, Bool, true, false, some, Text, List, [],
  ◌∷◌, ◌==◌, ok, arith, Bool-cases, inl, inr, length, All,
}
use sandboxed_workspace_mcp.SafeRegex.Machine.{
  Kind, split, jump, start, end, literal, class, any, match, State, state_at, index_in, is_active,
  is_match, any_match, reads, follow, advance,
}
use sandboxed_workspace_mcp.SafeRegex.Machine.Closure.{Below, Fits, state_at-All}
use sandboxed_workspace_mcp.SafeRegex.Machine.Reached.{or-cases}
use sandboxed_workspace_mcp.SafeRegex.Machine.Runs.{Wired, Reads}

abbrev pub Present : List State → ℕ → Type 0
Present states i = (s : State) × (state_at states i ≡ ok s)

pub All-index_in {ℓ} :
    (P : ℕ → Type ℓ) (xs : List ℕ) → ((j : ℕ) → index_in j xs ≡ true → P j) → All P xs
unfolding index_in
All-index_in P [] h = tt
All-index_in P (i ∷ xs) h = (h i (ground arith), All-index_in P xs (λ j k. h j (ground (arith, k))))

pub reads-is_active : (k : Kind) (candidate : Text) → reads k candidate ≡ true → is_active k ≡ true
unfolding reads is_active
reads-is_active (literal value) candidate h = refl
reads-is_active (class value) candidate h = refl
reads-is_active any candidate h = refl
reads-is_active match candidate h = refl
reads-is_active split candidate h = h
reads-is_active jump candidate h = h
reads-is_active start candidate h = h
reads-is_active end candidate h = h

pub is_match-is_active : (k : Kind) → is_match k ≡ true → is_active k ≡ true
unfolding is_match is_active
is_match-is_active (literal value) h = refl
is_match-is_active (class value) h = refl
is_match-is_active any h = refl
is_match-is_active match h = refl
is_match-is_active split h = h
is_match-is_active jump h = h
is_match-is_active start h = h
is_match-is_active end h = h

pub head_or_tail :
    (k i : ℕ) (xs : List ℕ) → index_in k (i ∷ xs) ≡ true → (k ≡ i) ⊎ (index_in k xs ≡ true)
unfolding index_in
head_or_tail k i xs h = elim (or-cases (k == i) _ h) [
  | inl same ↦ inl (ground arith)
  | inr old ↦ inr old
]

pub in_tail : (k i : ℕ) (xs : List ℕ) → index_in k xs ≡ true → index_in k (i ∷ xs) ≡ true
unfolding index_in
in_tail k i xs h = ground arith

pub in_head : (k i : ℕ) (xs : List ℕ) → k ≡ i → index_in k (i ∷ xs) ≡ true
unfolding index_in
in_head k i xs h = ground arith

same_state :
    (states : List State) (k i : ℕ) (t s : State)
    → k ≡ i
    → state_at states k ≡ ok t
    → state_at states i ≡ ok s
    → t ≡ s
same_state states k i t s same there at = cc

pub nowhere : (k : ℕ) → ¬ (index_in k [] ≡ true)
unfolding index_in
nowhere k h = false≢true h

-- An accepting state among `active`.
abbrev pub Found : List State → List ℕ → Type 0
Found states active =
    (i : ℕ) × (index_in i active ≡ true)
    × (s : State) × (state_at states i ≡ ok s)
    × (is_match s.kind ≡ true)

module _ (states : List State) where
  pub any_match-Found :
      (active : List ℕ)
      → All (Present states) active
      → (b : Bool) × (any_match states active ≡ ok b)
        × ((b ≡ true) → Found states active)
        × (Found states active → b ≡ true)
  unfolding any_match index_in
  any_match-Found [] a = (false, refl, (λ h. absurd (false≢true h)), (λ f. absurd (false≢true f.1)))
  any_match-Found (i ∷ active) ((s, at), a) = elim (Bool-cases (is_match s.kind)) [
    | inl accepts ↦
        rw (at, accepts) (true, refl, (λ h. (i, ground arith, s, at, accepts)), (λ f. refl))
    | inr other ↦
        let (b, run, sound, complete) = any_match-Found active a in
        rw (at, other)
          (
            b,
            run,
            (λ h.
                let (k, m, t, there, accepts) = sound h in
                (k, in_tail k i active m, t, there, accepts)),
            (λ (k, m, t, there, accepts). elim (head_or_tail k i active m) [
              | inl same ↦ absurd (
                  false≢true (
                    sym other
                    ∙ subst (λ t. is_match t.kind ≡ true) (same_state states k i t s same there at)
                        accepts))
              | inr old ↦ complete (k, old, t, there, accepts)
            ]),
          )
  ]

  -- A state that a step leads to.
  abbrev pub Follows : Text → List ℕ → ℕ → Type 0
  Follows candidate active j = (i : ℕ) × (index_in i active ≡ true) × Reads states candidate i j

  pub advance-Follows :
      (candidate : Text) (active following : List ℕ)
      → All (Fits (length states)) states
      → All Wired states
      → All (Present states) active
      → All (λ i. i < length states) following
      → (out : List ℕ) × (advance states candidate active following ≡ ok out)
        × All (λ i. i < length states) out
        × ((j : ℕ)
            → index_in j out ≡ true
            → (index_in j following ≡ true) ⊎ Follows candidate active j)
        × ((j : ℕ)
            → (index_in j following ≡ true) ⊎ Follows candidate active j
            → index_in j out ≡ true)
  unfolding advance index_in follow
  advance-Follows candidate [] following fit wired a f = (
    following,
    refl,
    f,
    (λ j h. inl h),
    λ j c. elim c [ inl h ↦ h | inr (k, m, r) ↦ absurd (false≢true m) ],
  )
  advance-Follows candidate (i ∷ active) following fit wired ((s, at), a) f =
      elim (Bool-cases (reads s.kind candidate)) [
        | inl reading ↦
            let (n, to_n) = state_at-All Wired states i s wired at candidate reading in
            let below_n =
              subst (Below (length states)) to_n
                (state_at-All (Fits (length states)) states i s fit at).0 in
            let (out, run, below, sound, complete) =
              advance-Follows candidate active (n ∷ following) fit wired a (below_n, f) in
            rw (at, reading, to_n)
              (
                out,
                run,
                below,
                (λ j h. elim (sound j h) [
                  | inl o ↦ elim (head_or_tail j n following o) [
                    | inl same ↦
                        inr
                          (i, in_head i i active refl, (s, at, reading, to_n ∙ ap some (sym same)))
                    | inr old ↦ inl old
                  ]
                  | inr (k, m, r) ↦ inr (k, in_tail k i active m, r)
                ]),
                (λ j c. elim c [
                  | inl o ↦ complete j (inl (in_tail j n following o))
                  | inr (k, m, (t, there, rd, to_j)) ↦ elim (head_or_tail k i active m) [
                    | inl same ↦
                        let to_same =
                          ap (λ t. t.out) (sym (same_state states k i t s same there at)) ∙ to_j in
                        complete j (inl (in_head j n following (cc)))
                    | inr old ↦ complete j (inr (k, old, (t, there, rd, to_j)))
                  ]
                ]),
              )
        | inr other ↦
            let (out, run, below, sound, complete) =
              advance-Follows candidate active following fit wired a f in
            rw (at, other)
              (
                out,
                run,
                below,
                (λ j h. elim (sound j h) [
                  | inl o ↦ inl o
                  | inr (k, m, r) ↦ inr (k, in_tail k i active m, r)
                ]),
                (λ j c. elim c [
                  | inl o ↦ complete j (inl o)
                  | inr (k, m, (t, there, rd, to_j)) ↦ elim (head_or_tail k i active m) [
                    | inl same ↦ absurd (
                        false≢true (
                          sym other
                          ∙ subst (λ t. reads t.kind candidate ≡ true)
                              (same_state states k i t s same there at) rd))
                    | inr old ↦ complete j (inr (k, old, (t, there, rd, to_j)))
                  ]
                ]),
              )
      ]

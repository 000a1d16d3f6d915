-- ===== src/SafeRegex/Machine/Leading.antt =====
-- `SafeRegex._closure` against the edges of each kind of state, said without the code that pushes them
-- (src/workspace_guard_mcp/safe_regex.py).
use sandboxed_workspace_mcp.Base.{
  ℕ, ◌≡◌, ◌<◌, ◌⊎◌, ◌↔◌, false≢true, refl, sym, ap, ◌∙◌, Bool, true, ◌||◌, Option, none, some, List,
  [], ◌==◌, ok, arith, Bool-cases, inl, inr, length, All,
}
use sandboxed_workspace_mcp.SafeRegex.Machine.{
  Kind, split, jump, start, end, literal, class, any, match, State, state_at, index_in, pushed,
  expand, closure,
}
use sandboxed_workspace_mcp.SafeRegex.Machine.Closure.{Fits}
use sandboxed_workspace_mcp.SafeRegex.Machine.Reached.{
  Active, Reaches, begin, on, or-cases, index_in-pushed, closure-Reaches,
}

-- The edges that are passed at a position without reading a character: both of a split, the one of a
-- jump, that of `^` at the start of the text only, and that of `$` at its end only.
pub Passes : ℕ → ℕ → Kind → Option ℕ → Option ℕ → ℕ → Type 0
Passes position len split out out1 j = (out ≡ some j) ⊎ (out1 ≡ some j)
Passes position len jump out out1 j = out ≡ some j
Passes position len start out out1 j = (position ≡ 0) × (out ≡ some j)
Passes position len end out out1 j = (position ≡ len) × (out ≡ some j)
Passes position len (literal value) out out1 j = ⊥
Passes position len (class value) out out1 j = ⊥
Passes position len any out out1 j = ⊥
Passes position len match out out1 j = ⊥

pub data Leads (states : List State) (position len : ℕ) (initial : List ℕ) : ℕ → Type 0 where
  initially : (i : ℕ) → index_in i initial ≡ true → Leads states position len initial i
  onward :
      (i j : ℕ) (s : State)
      → Leads states position len initial i
      → state_at states i ≡ ok s
      → Passes position len s.kind s.out s.out1 j
      → Leads states position len initial j

pushed-some : (o : Option ℕ) (j : ℕ) → (index_in j (pushed o []) ≡ true) ↔ (o ≡ some j)
unfolding pushed index_in
pushed-some none j = ((λ h. absurd (false≢true h)), λ h. absurd cc)
pushed-some (some i) j =
    ((λ h. ap some (ground (arith, h))), λ h. (let same : i ≡ j = cc in ground (arith, same)))

either : (a b : Bool) → (a ≡ true) ⊎ (b ≡ true) → (a || b) ≡ true
either a b (inl h) = rw h refl
either a b (inr h) = ground (arith, h)

-- What `expand` pushes are the edges that are passed.
expand-Passes :
    (position len j : ℕ) (k : Kind) (o p : Option ℕ)
    → (index_in j (expand position len k o p []) ≡ true) ↔ Passes position len k o p j
unfolding expand index_in Passes
expand-Passes position len j split o p = (
  λ h. elim (or-cases _ _ (sym (index_in-pushed j p (pushed o [])) ∙ h)) [
    | inl last ↦ inr ((pushed-some p j).0 last)
    | inr first ↦ inl ((pushed-some o j).0 first)
  ],
  λ h.
      index_in-pushed j p (pushed o [])
      ∙ either _ _ (elim h [
        | inl first ↦ inr ((pushed-some o j).1 first)
        | inr last ↦ inl ((pushed-some p j).1 last)
      ]),
)
expand-Passes position len j jump o p = pushed-some o j
expand-Passes position len j start o p = elim (Bool-cases (position == 0)) [
  | inl first ↦
      rw first ((λ h. (ground arith, (pushed-some o j).0 h)), λ (f, h). (pushed-some o j).1 h)
  | inr later ↦ rw later ((λ h. absurd (false≢true h)), λ (f, h). absurd (ground (arith, f)))
]
expand-Passes position len j end o p = elim (Bool-cases (position == len)) [
  | inl last ↦
      rw last ((λ h. (ground arith, (pushed-some o j).0 h)), λ (f, h). (pushed-some o j).1 h)
  | inr earlier ↦ rw earlier ((λ h. absurd (false≢true h)), λ (f, h). absurd (ground (arith, f)))
]
expand-Passes position len j (literal v) o p = ((λ h. absurd (false≢true h)), λ h. absurd h)
expand-Passes position len j (class v) o p = ((λ h. absurd (false≢true h)), λ h. absurd h)
expand-Passes position len j any o p = ((λ h. absurd (false≢true h)), λ h. absurd h)
expand-Passes position len j match o p = ((λ h. absurd (false≢true h)), λ h. absurd h)

module _ (states : List State) (position len : ℕ) (initial : List ℕ) where
  Reaches-Leads :
      {j : ℕ} → Reaches states position len initial j → Leads states position len initial j
  Reaches-Leads (begin j h) = initially j h
  Reaches-Leads (on i j r (s, found, edge)) =
      onward i j s (Reaches-Leads r) found
        ((expand-Passes position len j s.kind s.out s.out1).0 edge)

  Leads-Reaches :
      {j : ℕ} → Leads states position len initial j → Reaches states position len initial j
  Leads-Reaches (initially j h) = begin j h
  Leads-Reaches (onward i j s r found passed) =
      on i j (Leads-Reaches r)
        (s, found, (expand-Passes position len j s.kind s.out s.out1).1 passed)

  -- With edges and initial states among the states of the machine, the closure raises nothing, and
  -- returns exactly the states that are led to from an initial one without reading a character, `^`
  -- being passed at the start of the text only and `$` at its end only, and that wait for a character
  -- or accept.
  pub closure-Leads :
      All (Fits (length states)) states
      → All (λ i. i < length states) initial
      → (out : List ℕ) × (closure states position len initial ≡ ok out)
        × ((j : ℕ)
            → (index_in j out ≡ true) ↔ (Leads states position len initial j × Active states j))
  closure-Leads fit a =
      let (out, run, exact) = closure-Reaches states position len initial fit a in
      (
        out,
        run,
        λ j. (
          λ h. (Reaches-Leads ((exact j).0 h).0, ((exact j).0 h).1),
          λ (r, a). (exact j).1 (Leads-Reaches r, a),
        ),
      )

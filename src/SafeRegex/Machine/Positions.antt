-- ===== src/SafeRegex/Machine/Positions.antt =====
-- The active set of the general search at one position, and the set at the next
-- (src/workspace_guard_mcp/safe_regex.py).
use sandboxed_workspace_mcp.Base.{
  ℕ, zero, suc, ◌≡◌, ◌<◌, ◌≤◌, ◌⊎◌, ◌↔◌, false≢true, refl, sym, ap, ◌∙◌, subst, Bool, true, false,
  ◌&&◌, Text, List, [], ◌∷◌, ok, arith, inl, inr, length, drop, length-drop, All,
}
use sandboxed_workspace_mcp.SafeRegex.Machine.{State, state_at, index_in, is_match, reads, closure}
use sandboxed_workspace_mcp.SafeRegex.Machine.Closure.{Fits}
use sandboxed_workspace_mcp.SafeRegex.Machine.Reached.{
  Edge, Active, Reaches, begin, on, closure-Reaches,
}
use sandboxed_workspace_mcp.SafeRegex.Machine.Steps.{
  Present, All-index_in, reads-is_active, is_match-is_active, head_or_tail, in_head, nowhere, Found,
  Follows,
}
use sandboxed_workspace_mcp.SafeRegex.Machine.Runs.{Reads, At, enter, pass, consume, Accepts}

pub drop_step : (p c : ℕ) (t rest : Text) → drop p t ≡ c ∷ rest → drop (suc p) t ≡ rest
drop_step zero c [] rest h = cc
drop_step zero c (d ∷ t) rest h = cc
drop_step (suc p) c [] rest h = cc
drop_step (suc p) c (d ∷ t) rest h = drop_step p c t rest h

drop_same :
    (p q c e : ℕ) (t rest others : Text)
    → drop p t ≡ c ∷ rest
    → drop q t ≡ e ∷ others
    → suc q ≡ suc p
    → e ≡ c
drop_same p q c e t rest others d d2 here = let same : q ≡ p = omega (arith, here) in cc

drop_room : (p c : ℕ) (t rest : Text) → drop p t ≡ c ∷ rest → p < length t
drop_room p c t rest h = omega (arith, length-drop p t, ap length h)

pub drop_end : (p q : ℕ) (t : Text) → drop p t ≡ [] → p ≤ q → q ≤ length t → q ≡ p
drop_end p q t h from to = omega (arith, length-drop p t, ap length h)

pub now_or_later : (p q : ℕ) → p ≤ q → (q ≡ p) ⊎ (suc p ≤ q)
now_or_later p q h = ground arith

pub never_stopped : (b s : Bool) → (b && s) ≡ true → ¬ (s ≡ false)
never_stopped true s h never = false≢true (sym never ∙ h)
never_stopped false s h never = false≢true h

module _ (states : List State) (initial : ℕ) (fold : ℕ → Text) (t : Text) where
  pub At-le : (i p : ℕ) → At states initial fold t i p → p ≤ length t
  At-le _ _ (enter p h) = h
  At-le _ _ (pass i j p a e) = At-le i p a
  At-le _ _ (consume i j p c rest a d r) = drop_room p c t rest d

  -- The set that the closure starts from at position `p`.
  pub record Following (p : ℕ) (following : List ℕ) : Type 0 where
    restarts : index_in initial following ≡ true
    reached : (j : ℕ) → index_in j following ≡ true → At states initial fold t j p
    stepped :
        (i j q c : ℕ) (rest : Text)
        → At states initial fold t i q
        → drop q t ≡ c ∷ rest
        → Reads states (fold c) i j
        → suc q ≡ p
        → index_in j following ≡ true

  -- The set `active` at position `p`.
  abbrev pub IsActive : ℕ → List ℕ → Type 0
  IsActive p active =
      (j : ℕ) → (index_in j active ≡ true) ↔ (At states initial fold t j p × Active states j)

  module _ (p : ℕ) (following : List ℕ) (f : Following p following) where
    reaches-At : (j : ℕ) → Reaches states p (length t) following j → At states initial fold t j p
    reaches-At _ (begin j h) = f.reached j h
    reaches-At _ (on i j r e) = pass i j p (reaches-At i r) e

    at_reached :
        (j q : ℕ) → q ≡ p → At states initial fold t j q → Reaches states p (length t) following j
    at_reached _ _ here (enter q h) = begin initial f.restarts
    at_reached _ _ here (pass i j q a e) =
        on i j (at_reached i q here a) (subst (λ q. Edge states q (length t) i j) here e)
    at_reached _ _ here (consume i j q c rest a d r) = begin j (f.stepped i j q c rest a d r here)

    pub closure-IsActive :
        All (Fits (length states)) states
        → All (λ i. i < length states) following
        → (out : List ℕ) × (closure states p (length t) following ≡ ok out) × IsActive p out
    closure-IsActive fit below =
        let (out, run, exact) = closure-Reaches states p (length t) following fit below in
        (
          out,
          run,
          λ j. (
            (λ h. (reaches-At j ((exact j).0 h).0, ((exact j).0 h).1)),
            (λ (a, w). (exact j).1 (at_reached j p refl a, w)),
          ),
        )

  pub IsActive-Present : (p : ℕ) (active : List ℕ) → IsActive p active → All (Present states) active
  IsActive-Present p active exact =
      All-index_in (Present states) active (λ j h. let (a, w) = (exact j).0 h in (w.0, w.1))

  pub next-Following :
      (p c : ℕ) (rest : Text) (active following : List ℕ)
      → drop p t ≡ c ∷ rest
      → IsActive p active
      → ((j : ℕ)
          → index_in j following ≡ true
          → (index_in j (initial ∷ []) ≡ true) ⊎ Follows states (fold c) active j)
      → ((j : ℕ)
          → (index_in j (initial ∷ []) ≡ true) ⊎ Follows states (fold c) active j
          → index_in j following ≡ true)
      → Following (suc p) following
  next-Following p c rest active following d exact sound complete = record {
    restarts = complete initial (inl (in_head initial initial [] refl));
    reached = λ j h. elim (sound j h) [
      | inl o ↦ elim (head_or_tail j initial [] o) [
        | inl same ↦
            subst (λ j. At states initial fold t j (suc p)) (sym same)
              (enter (suc p) (drop_room p c t rest d))
        | inr none_left ↦ absurd (nowhere j none_left)
      ]
      | inr (k, m, r) ↦ consume k j p c rest ((exact k).0 m).0 d r
    ];
    stepped = λ i j q e others a d2 (s, at, reading, to_j) here.
        let same = drop_same p q c e t rest others d d2 here in
        complete j (
          inr (
            i,
            (exact i).1 (
              subst (At states initial fold t i) (omega (arith, here)) a,
              (s, at, reads-is_active s.kind (fold e) reading),
            ),
            (s, at, subst (λ e. reads s.kind (fold e) ≡ true) same reading, to_j),
          ));
  }

  pub first-Following : Following 0 (initial ∷ [])
  unfolding index_in
  first-Following = record {
    restarts = ground arith;
    reached = λ j h. elim (head_or_tail j initial [] h) [
      | inl same ↦ subst (λ j. At states initial fold t j 0) (sym same) (enter 0 (omega arith))
      | inr none_left ↦ absurd (nowhere j none_left)
    ];
    stepped = λ i j q c rest a d r here. absurd (omega (arith, here));
  }

  pub Found-Accepts :
      (p : ℕ) (active : List ℕ)
      → IsActive p active
      → Found states active
      → Accepts states initial fold t
  Found-Accepts p active exact (i, m, s, at, accepts) = (i, p, ((exact i).0 m).0, s, at, accepts)

  pub At-Found :
      (i p : ℕ) (s : State) (active : List ℕ)
      → IsActive p active
      → At states initial fold t i p
      → state_at states i ≡ ok s
      → is_match s.kind ≡ true
      → Found states active
  At-Found i p s active exact a at accepts =
      (i, (exact i).1 (a, (s, at, is_match-is_active s.kind accepts)), s, at, accepts)

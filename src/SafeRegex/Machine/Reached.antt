-- ===== src/SafeRegex/Machine/Reached.antt =====
-- `SafeRegex._closure` against the states that can be reached without reading a character
-- (src/workspace_guard_mcp/safe_regex.py).
use sandboxed_workspace_mcp.Base.{
  ℕ, zero, suc, ◌≡◌, ◌<◌, ◌⊎◌, ◌↔◌, false≢true, refl, sym, ap, ◌∙◌, subst, Bool, true, false, ◌||◌,
  Option, none, some, List, [], ◌∷◌, ◌==◌, if◌then◌else◌, Result, ok, err, arith, Bool-cases, inl,
  inr, length, All, Result-cases,
}
use sandboxed_workspace_mcp.SafeRegex.Machine.{
  RegexError, Kind, split, jump, start, end, literal, class, any, match, State, state_at, index_in,
  pushed, expand, is_active, visit, walk_on, closure,
}
use sandboxed_workspace_mcp.SafeRegex.Machine.Closure.{Fits, closure-total}

-- The edges that the closure follows: those out of a split or a jump, and out of an anchor where it
-- holds.
abbrev pub Edge : List State → ℕ → ℕ → ℕ → ℕ → Type 0
Edge states position len i j =
    (s : State) × (state_at states i ≡ ok s)
    × (index_in j (expand position len s.kind s.out s.out1 []) ≡ true)

-- A state that waits for a character, or that accepts.
abbrev pub Active : List State → ℕ → Type 0
Active states j = (s : State) × (state_at states j ≡ ok s) × (is_active s.kind ≡ true)

pub data Reaches (states : List State) (position len : ℕ) (initial : List ℕ) : ℕ → Type 0 where
  begin : (i : ℕ) → index_in i initial ≡ true → Reaches states position len initial i
  on :
      (i j : ℕ)
      → Reaches states position len initial i
      → Edge states position len i j
      → Reaches states position len initial j

pub index_in-pushed :
    (j : ℕ) (o : Option ℕ) (pending : List ℕ)
    → index_in j (pushed o pending) ≡ (index_in j (pushed o []) || index_in j pending)
unfolding pushed index_in
index_in-pushed j none pending = refl
index_in-pushed j (some i) pending = ground arith

index_in-expand :
    (position len j : ℕ) (k : Kind) (o p : Option ℕ) (pending : List ℕ)
    → index_in j (expand position len k o p pending)
      ≡ (index_in j (expand position len k o p []) || index_in j pending)
unfolding expand index_in
index_in-expand position len j split o p pending = ground (
  arith,
  index_in-pushed j p (pushed o pending),
  index_in-pushed j p (pushed o []),
  index_in-pushed j o pending,
)
index_in-expand position len j jump o p pending = index_in-pushed j o pending
index_in-expand position len j start o p pending = ground (arith, index_in-pushed j o pending)
index_in-expand position len j end o p pending = ground (arith, index_in-pushed j o pending)
index_in-expand position len j (literal v) o p pending = refl
index_in-expand position len j (class v) o p pending = refl
index_in-expand position len j any o p pending = refl
index_in-expand position len j match o p pending = refl

raised : (e : RegexError) (out : List ℕ) → ¬ (Path (Result RegexError (List ℕ)) (err e) (ok out))
raised e out h = cc

pub or-cases : (a b : Bool) → (a || b) ≡ true → (a ≡ true) ⊎ (b ≡ true)
or-cases true b h = inl refl
or-cases false b h = inr h

module _ (states : List State) (position len : ℕ) (initial : List ℕ) where
  -- What holds in every round.
  record Walking (pending seen active : List ℕ) : Type 0 where
    pending_reached : (j : ℕ) → index_in j pending ≡ true → Reaches states position len initial j
    seen_reached : (j : ℕ) → index_in j seen ≡ true → Reaches states position len initial j
    begun : (j : ℕ) → index_in j initial ≡ true → (index_in j pending || index_in j seen) ≡ true
    closed :
        (i j : ℕ)
        → index_in i seen ≡ true
        → Edge states position len i j
        → (index_in j pending || index_in j seen) ≡ true
    active_seen : (j : ℕ) → index_in j active ≡ true → (index_in j seen ≡ true) × Active states j
    seen_active : (j : ℕ) → index_in j seen ≡ true → Active states j → index_in j active ≡ true

  module _ (i : ℕ) (pending seen active : List ℕ) (w : Walking (i ∷ pending) seen active) where
    -- The index was seen before.
    seen_again : index_in i seen ≡ true → Walking pending seen active
    unfolding index_in
    seen_again again = record {
      pending_reached = λ j h. w.pending_reached j (ground (arith, h));
      seen_reached = w.seen_reached;
      begun = λ j h. grind (arith, w.begun j h, again);
      closed = λ k j h e. grind (arith, w.closed k j h e, again);
      active_seen = w.active_seen;
      seen_active = w.seen_active;
    }

    module _ (s : State) (found : state_at states i ≡ ok s) where
      same_state : (k : ℕ) (t : State) → k ≡ i → state_at states k ≡ ok t → t ≡ s
      same_state k t same at = cc

      leads_on :
          (k j : ℕ)
          → k ≡ i
          → Edge states position len k j
          → index_in j (expand position len s.kind s.out s.out1 []) ≡ true
      leads_on k j same (t, at, edge) =
          subst (λ t. index_in j (expand position len t.kind t.out t.out1 []) ≡ true)
            (same_state k t same at) edge

      -- The index is new: its edges go onto the stack.
      new_state :
          Walking
            (expand position len s.kind s.out s.out1 pending)
            (i ∷ seen)
            (if is_active s.kind then i ∷ active else active)
      unfolding index_in
      new_state = record {
        pending_reached = λ j h.
            elim (or-cases _ _
              (sym (index_in-expand position len j s.kind s.out s.out1 pending) ∙ h)) [
                | inl edge ↦ on i j (w.pending_reached i (ground arith)) (s, found, edge)
                | inr later ↦ w.pending_reached j (ground (arith, later))
              ];
        seen_reached = λ j h. elim (or-cases (j == i) _ h) [
          | inl same ↦ w.pending_reached j (ground arith)
          | inr old ↦ w.seen_reached j old
        ];
        begun = λ j h.
            grind (arith, w.begun j h, index_in-expand position len j s.kind s.out s.out1 pending);
        closed = λ k j h e. elim (or-cases (k == i) _ h) [
          | inl same ↦
              let edge = leads_on k j (ground arith) e in
              grind (arith, edge, index_in-expand position len j s.kind s.out s.out1 pending)
          | inr old ↦ grind (
            arith,
            w.closed k j old e,
            index_in-expand position len j s.kind s.out s.out1 pending,
          )
        ];
        active_seen = λ j h. elim (Bool-cases (is_active s.kind)) [
          | inl waits ↦ elim (or-cases (j == i) _ (rw waits at h)) [
            | inl same ↦ (ground arith, (s, ap (state_at states) (ground arith) ∙ found, waits))
            | inr old ↦ (ground (arith, (w.active_seen j old).0), (w.active_seen j old).1)
          ]
          | inr passed ↦
              let old = w.active_seen j (rw passed at h) in (ground (arith, old.0), old.1)
        ];
        seen_active = λ j h (t, at, waits). elim (or-cases (j == i) _ h) [
          | inl same ↦
              let now =
                subst (λ t. is_active t.kind ≡ true) (same_state j t (ground arith) at) waits in
              rw now (ground arith)
          | inr old ↦ ground (arith, w.seen_active j old (t, at, waits))
        ];
      }

  walk_on-Walking :
      (fuel : ℕ) (pending seen active out : List ℕ)
      → Walking pending seen active
      → walk_on fuel states position len pending seen active ≡ ok out
      → (all : List ℕ) × Walking [] all out
  unfolding walk_on visit
  walk_on-Walking fuel [] seen active out w h = (seen, subst (Walking [] seen) (cc) w)
  walk_on-Walking zero (i ∷ pending) seen active out w h = absurd cc
  walk_on-Walking (suc fuel) (i ∷ pending) seen active out w h =
      elim (Bool-cases (index_in i seen)) [
        | inl again ↦
            walk_on-Walking fuel pending seen active out (seen_again i pending seen active w again)
              (rw again at h)
        | inr fresh ↦ elim (Result-cases (state_at states i)) [
          | inl (s, found) ↦
              walk_on-Walking fuel (expand position len s.kind s.out s.out1 pending) (i ∷ seen)
                (if is_active s.kind then i ∷ active else active) out
                (new_state i pending seen active w s found) (rw (fresh, found) at h)
          | inr (e, lost) ↦ absurd (raised e out (rw (fresh, lost) at h))
        ]
      ]

  start_walking : Walking initial [] []
  unfolding index_in
  start_walking = record {
    pending_reached = begin;
    seen_reached = λ j h. absurd (false≢true h);
    begun = λ j h. ground (arith, h);
    closed = λ i j h e. absurd (false≢true h);
    active_seen = λ j h. absurd (false≢true h);
    seen_active = λ j h. absurd (false≢true h);
  }

  reaches_seen :
      (all out : List ℕ)
      → Walking [] all out
      → (j : ℕ) → Reaches states position len initial j
      → index_in j all ≡ true
  unfolding index_in
  reaches_seen all out w _ (begin j h) = w.begun j h
  reaches_seen all out w _ (on i j r e) = w.closed i j (reaches_seen all out w i r) e

  -- With edges and initial states among the states of the machine, the closure raises nothing, and
  -- returns exactly the states that can be reached without reading a character and that wait for one
  -- or accept.
  pub closure-Reaches :
      All (Fits (length states)) states
      → All (λ i. i < length states) initial
      → (out : List ℕ) × (closure states position len initial ≡ ok out)
        × ((j : ℕ)
            → (index_in j out ≡ true) ↔ (Reaches states position len initial j × Active states j))
  unfolding closure
  closure-Reaches fit a =
      let (out, run) = closure-total states position len fit initial a in
      let (all, w) = walk_on-Walking _ initial [] [] out start_walking run in
      (
        out,
        run,
        λ j. (
          λ h. (w.seen_reached j (w.active_seen j h).0, (w.active_seen j h).1),
          λ (r, a). w.seen_active j (reaches_seen all out w j r) a,
        ),
      )

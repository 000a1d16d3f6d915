-- ===== src/SafeRegex/Build/Grows.antt =====
-- How the list of states grows while `SafeRegex._build` runs (src/workspace_guard_mcp/safe_regex.py):
-- a state keeps its kind and its edges, and an open edge may be set.
use sandboxed_workspace_mcp.Base.{
  ℕ, zero, suc, ◌≡◌, ◌≤◌, ◌<◌, inl, inr, refl, ◌∙◌, Option, none, some, List, [], ◌∷◌, ◌++◌, ok,
  length, length-append, All, arith, Bool-cases, leb,
}
use sandboxed_workspace_mcp.SafeRegex.Machine.{State, state_at}
use sandboxed_workspace_mcp.SafeRegex.Build.{Slot, out_slot, out1_slot, Outs, add, max_nfa_states}
use sandboxed_workspace_mcp.SafeRegex.Build.Added.{Settles}

abbrev pub slot_of : Slot → State → Option ℕ
slot_of out_slot s = s.out
slot_of out1_slot s = s.out1

abbrev pub Keeps : List State → List State → Type 0
Keeps states later = (i : ℕ) (s : State) → state_at states i ≡ ok s → state_at later i ≡ ok s

abbrev pub GrownState : State → State → Type 0
GrownState s u =
    (u.kind ≡ s.kind) × ((slot : Slot) (j : ℕ) → slot_of slot s ≡ some j → slot_of slot u ≡ some j)

abbrev pub Grows : List State → List State → Type 0
Grows states later =
    (i : ℕ) (s : State)
    → state_at states i ≡ ok s
    → (u : State) × (state_at later i ≡ ok u) × GrownState s u

pub Keeps-Grows : (states later : List State) → Keeps states later → Grows states later
Keeps-Grows states later kept i s at = (s, kept i s at, (refl, λ slot j h. h))

pub Grows-trans : (a b c : List State) → Grows a b → Grows b c → Grows a c
Grows-trans a b c f g i s at =
    let (u, there, (kind, edges)) = f i s at in
    let (v, after, (kind2, edges2)) = g i u there in
    (v, after, (kind2 ∙ kind, λ slot j h. edges2 slot j (edges slot j h)))

-- The open edges of a fragment, not before the state `lo`.
abbrev pub OpenOuts : ℕ → List State → Outs → Type 0
OpenOuts lo states outs =
    All (λ (i, slot). (lo ≤ i) × (s : State) × (state_at states i ≡ ok s) × (slot_of slot s ≡ none))
      outs

-- The edges lead to `x`.
abbrev pub Targets : ℕ → List State → Outs → Type 0
Targets x states outs =
    All (λ (i, slot). (s : State) × (state_at states i ≡ ok s) × (slot_of slot s ≡ some x)) outs

pub Targets-Grows :
    (x : ℕ) (states later : List State) (outs : Outs)
    → Grows states later
    → Targets x states outs
    → Targets x later outs
Targets-Grows x states later [] g t = tt
Targets-Grows x states later ((i, slot) ∷ outs) g ((s, at, to), t) =
    let (u, there, (kind, edges)) = g i s at in
    ((u, there, edges slot x to), Targets-Grows x states later outs g t)

pub OpenOuts-Keeps :
    (lo low : ℕ) (states later : List State) (outs : Outs)
    → low ≤ lo
    → Keeps states later
    → OpenOuts lo states outs
    → OpenOuts low later outs
OpenOuts-Keeps lo low states later [] h kept o = tt
OpenOuts-Keeps lo low states later ((i, slot) ∷ outs) h kept ((above, s, at, unset), o) = (
  (omega (arith, h, above), s, kept i s at, unset),
  OpenOuts-Keeps lo low states later outs h kept o,
)

pub state_at-below :
    (states : List State) (i : ℕ) (s : State) → state_at states i ≡ ok s → i < length states
unfolding state_at
state_at-below [] i s h = absurd cc
state_at-below (u ∷ states) zero s h = omega arith
state_at-below (u ∷ states) (suc i) s h = omega (arith, state_at-below states i s h)

state_at-last :
    (states : List State) (s : State) → state_at (states ++ s ∷ []) (length states) ≡ ok s
unfolding state_at
state_at-last [] s = refl
state_at-last (u ∷ states) s = state_at-last states s

append-Keeps : (states more : List State) → Keeps states (states ++ more)
unfolding state_at
append-Keeps [] more i s h = absurd cc
append-Keeps (u ∷ states) more zero s h = h
append-Keeps (u ∷ states) more (suc i) s h = append-Keeps states more i s h

abbrev pub Appended : State → List State → List State × ℕ → Type 0
Appended s states (more, index) =
    (index ≡ length states)
    × (length more ≡ suc (length states))
    × Keeps states more
    × (state_at more index ≡ ok s)

pub add-Appended : (s : State) (states : List State) → Settles (Appended s states) (add s states)
unfolding add
add-Appended s states = elim (Bool-cases (leb max_nfa_states (length states))) [
  | inl full ↦ rw full tt
  | inr room ↦ rw room (
    refl,
    omega (arith, length-append states (s ∷ [])),
    append-Keeps states (s ∷ []),
    state_at-last states s,
  )
]

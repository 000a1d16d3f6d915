-- ===== src/SafeRegex/Build/Slots.antt =====
-- `SafeRegex._patch` on a machine under construction (src/workspace_guard_mcp/safe_regex.py).
use sandboxed_workspace_mcp.Base.{
  ℕ, zero, suc, ◌≡◌, ◌≢◌, ◌≤◌, ◌<◌, ◌⊎◌, refl, sym, ap, ◌∙◌, subst, Bool, true, false, ◌||◌, List,
  [], ◌∷◌, ok, arith, inl, inr, length, All,
}
use sandboxed_workspace_mcp.SafeRegex.Machine.{State, state_at, reads}
use sandboxed_workspace_mcp.SafeRegex.Machine.Closure.{Fits}
use sandboxed_workspace_mcp.SafeRegex.Build.{
  max_nfa_states, Slot, out_slot, out1_slot, Outs, set_slot, patch_at, patch,
}
use sandboxed_workspace_mcp.SafeRegex.Build.Added.{dangles, Led, Open, Sound, Sound-weaken}

set_slot-Fits :
    (slot : Slot) (target n : ℕ) (s : State)
    → target < n
    → Fits n s
    → Fits n (set_slot slot target s)
unfolding set_slot
set_slot-Fits out_slot target n s h (b, c) = (h, c)
set_slot-Fits out1_slot target n s h (b, c) = (b, h)

-- A state of the list that a patch of one slot returns is an old one, or the one patched.
abbrev OldOrSet : ℕ → Slot → ℕ → List State → ℕ → State → Type 0
OldOrSet index slot target states i t =
    ((i ≢ index) × (state_at states i ≡ ok t))
    ⊎ ((i ≡ index) × (s : State) × (state_at states i ≡ ok s) × (set_slot slot target s ≡ t))

abbrev Patched : ℕ → Slot → ℕ → List State → List State → Type 0
Patched index slot target states patched =
    (length patched ≡ length states)
    × ((n : ℕ) → target < n → All (Fits n) states → All (Fits n) patched)
    × ((i : ℕ) (t : State) → state_at patched i ≡ ok t → OldOrSet index slot target states i t)

head_patched :
    (slot : Slot) (target : ℕ) (s : State) (states : List State) (i : ℕ) (t : State)
    → state_at (set_slot slot target s ∷ states) i ≡ ok t
    → OldOrSet 0 slot target (s ∷ states) i t
unfolding state_at
head_patched slot target s states zero t h = inr (refl, s, refl, (cc))
head_patched slot target s states (suc i) t h = inl (omega arith, h)

later_patched :
    (index : ℕ) (slot : Slot) (target : ℕ) (s : State) (states patched : List State) (i : ℕ)
    (t : State)
    → ((i : ℕ) (t : State) → state_at patched i ≡ ok t → OldOrSet index slot target states i t)
    → state_at (s ∷ patched) i ≡ ok t
    → OldOrSet (suc index) slot target (s ∷ states) i t
unfolding state_at
later_patched index slot target s states patched zero t at h = inl (omega arith, h)
later_patched index slot target s states patched (suc i) t at h = elim (at i t h) [
  | inl (apart, old) ↦ inl (omega (arith, apart), old)
  | inr (here, u, was, same) ↦ inr (ap suc here, u, was, same)
]

patch_at-Patched :
    (index : ℕ) (slot : Slot) (target : ℕ) (states : List State)
    → index < length states
    → (patched : List State) × (patch_at index slot target states ≡ ok patched)
      × Patched index slot target states patched
unfolding patch_at
patch_at-Patched index slot target [] h = absurd (omega (arith, h))
patch_at-Patched zero slot target (s ∷ states) h = (
  set_slot slot target s ∷ states,
  refl,
  (
    refl,
    (λ n below fit. (set_slot-Fits slot target n s below fit.0, fit.1)),
    head_patched slot target s states,
  ),
)
patch_at-Patched (suc index) slot target (s ∷ states) h =
    let (patched, run, (same, fits, at)) =
      patch_at-Patched index slot target states (omega (arith, h)) in
    rw run (
      s ∷ patched,
      refl,
      (
        omega (arith, same),
        (λ n below fit. (fit.0, fits n below fit.1)),
        λ i t h. later_patched index slot target s states patched i t at h,
      ),
    )

-- An open slot that is patched needs no excuse any more.
set_slot-Led :
    (p : ℕ → Bool) (index : ℕ) (slot : Slot) (target : ℕ) (outs : Outs) (s t : State)
    → set_slot slot target s ≡ t
    → Led (λ k. p k || dangles k ((index, slot) ∷ outs)) index s
    → Led (λ k. p k || dangles k outs) index t
unfolding set_slot dangles
set_slot-Led p index out_slot target outs s t same led candidate reading =
    inl (target, ap (λ t. t.out) (sym same))
set_slot-Led p index out1_slot target outs s t same led candidate reading =
    elim (led candidate (ap (λ t. reads t.kind candidate) same ∙ reading)) [
      | inl (j, to_j) ↦ inl (j, ap (λ t. t.out) (sym same) ∙ to_j)
      | inr excused ↦ inr excused
    ]

other_excused :
    (p : ℕ → Bool) (index i : ℕ) (slot : Slot) (outs : Outs)
    → i ≢ index
    → (p i || dangles i ((index, slot) ∷ outs)) ≡ true
    → (p i || dangles i outs) ≡ true
unfolding dangles
other_excused p index i out_slot outs other h = ground arith
other_excused p index i out1_slot outs other h = h

patched-Open :
    (p : ℕ → Bool) (index : ℕ) (slot : Slot) (target : ℕ) (outs : Outs)
    (states patched : List State)
    → ((i : ℕ) (t : State) → state_at patched i ≡ ok t → OldOrSet index slot target states i t)
    → Open (λ k. p k || dangles k ((index, slot) ∷ outs)) states
    → Open (λ k. p k || dangles k outs) patched
patched-Open p index slot target outs states patched at open_at i t there candidate reading =
    elim (at i t there) [
      | inl (apart, old) ↦ elim (open_at i t old candidate reading) [
        | inl led ↦ inl led
        | inr excused ↦ inr (other_excused p index i slot outs apart excused)
      ]
      | inr (here, s, was, same) ↦
          subst (λ i. Led (λ k. p k || dangles k outs) i t) (sym here)
            (set_slot-Led p index slot target outs s t same (
              subst (λ i. Led (λ k. p k || dangles k ((index, slot) ∷ outs)) i s) here
                (open_at i s was)))
            candidate reading
    ]

nothing_open : (b : Bool) (k : ℕ) → (b || dangles k []) ≡ true → b ≡ true
unfolding dangles
nothing_open true k h = refl
nothing_open false k h = h

pub patch-Sound :
    (p : ℕ → Bool) (outs : Outs) (target : ℕ) (states : List State)
    → All (λ (i, slot). i < length states) outs
    → target < length states
    → Sound (λ k. p k || dangles k outs) states
    → (patched : List State) × (patch outs target states ≡ ok patched)
      × (length patched ≡ length states)
      × Sound p patched
unfolding patch
patch-Sound p [] target states a below sound = (
  states,
  refl,
  refl,
  Sound-weaken (λ k. p k || dangles k []) p states (λ k h. nothing_open (p k) k h) sound,
)
patch-Sound p ((index, slot) ∷ outs) target states a below (bounded, fit, open_at) =
    let (one, run, (same, fits, at)) = patch_at-Patched index slot target states a.0 in
    let sound = patched-Open p index slot target outs states one at open_at in
    let (patched, went, kept, done) =
      patch-Sound p outs target one (subst (λ n. All (λ (i, slot). i < n) outs) (sym same) a.1)
        (subst (λ n. target < n) (sym same) below)
        (
          subst (λ n. n ≤ max_nfa_states) (sym same) bounded,
          subst (λ n. All (Fits n) one) (sym same) (fits (length states) below fit),
          sound,
        ) in
    rw (run, went) (patched, refl, kept ∙ same, done)

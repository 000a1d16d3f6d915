-- ===== src/SafeRegex/Build/Patched.antt =====
-- What `_patch` writes (src/workspace_guard_mcp/safe_regex.py).
use sandboxed_workspace_mcp.Base.{
  ℕ, zero, suc, ◌≡◌, ◌≢◌, ◌⊎◌, inl, inr, refl, ◌∙◌, ap, subst, Option, none, some, List, [], ◌∷◌,
  ok, Result, length, All, arith, ◌==◌, Bool-cases,
}
use sandboxed_workspace_mcp.SafeRegex.Machine.{State, RegexError, state_at}
use sandboxed_workspace_mcp.SafeRegex.Build.{
  Slot, out_slot, out1_slot, Outs, set_slot, patch_at, patch,
}
use sandboxed_workspace_mcp.SafeRegex.Build.Grows.{
  slot_of, GrownState, Grows, Grows-trans, OpenOuts, Targets,
}

set_slot-kind : (slot : Slot) (x : ℕ) (s : State) → (set_slot slot x s).kind ≡ s.kind
unfolding set_slot
set_slot-kind out_slot x s = refl
set_slot-kind out1_slot x s = refl

set_slot-same : (slot : Slot) (x : ℕ) (s : State) → slot_of slot (set_slot slot x s) ≡ some x
unfolding set_slot
set_slot-same out_slot x s = refl
set_slot-same out1_slot x s = refl

-- An edge that a patch with `x` may set.
abbrev Free : ℕ → Option ℕ → Type 0
Free x o = (o ≡ none) ⊎ (o ≡ some x)

set_slot-Free :
    (slot other : Slot) (x : ℕ) (s : State)
    → Free x (slot_of other s)
    → Free x (slot_of other (set_slot slot x s))
unfolding set_slot
set_slot-Free out_slot out_slot x s f = inr refl
set_slot-Free out_slot out1_slot x s f = f
set_slot-Free out1_slot out_slot x s f = f
set_slot-Free out1_slot out1_slot x s f = inr refl

free_edge : (x j : ℕ) (o : Option ℕ) → Free x o → o ≡ some j → Path (Option ℕ) (some x) (some j)
free_edge x j o (inl unset) h = cc
free_edge x j o (inr to) h = cc

set_slot-edges :
    (slot other : Slot) (x j : ℕ) (s : State)
    → Free x (slot_of slot s)
    → slot_of other s ≡ some j
    → slot_of other (set_slot slot x s) ≡ some j
unfolding set_slot
set_slot-edges out_slot out_slot x j s f h = free_edge x j s.out f h
set_slot-edges out_slot out1_slot x j s f h = h
set_slot-edges out1_slot out_slot x j s f h = h
set_slot-edges out1_slot out1_slot x j s f h = free_edge x j s.out1 f h

-- The edges that a patch with `x` sets.
abbrev pub FreeOuts : ℕ → List State → Outs → Type 0
FreeOuts x states outs =
    All (λ (i, slot). (s : State) × (state_at states i ≡ ok s) × Free x (slot_of slot s)) outs

pub OpenOuts-FreeOuts :
    (lo x : ℕ) (states : List State) (outs : Outs)
    → OpenOuts lo states outs
    → FreeOuts x states outs
OpenOuts-FreeOuts lo x states [] o = tt
OpenOuts-FreeOuts lo x states ((i, slot) ∷ outs) ((above, s, at, unset), o) =
    ((s, at, inl unset), OpenOuts-FreeOuts lo x states outs o)

-- A patch of one slot: the state at `index` has its edge set, and the others are as before.
abbrev SetAt : ℕ → Slot → ℕ → State → List State → List State → Type 0
SetAt index slot x s states one =
    (state_at one index ≡ ok (set_slot slot x s))
    × ((i : ℕ) → i ≢ index → state_at one i ≡ state_at states i)

same_beyond :
    (v u : State) (states : List State) (i : ℕ)
    → i ≢ 0
    → state_at (v ∷ states) i ≡ state_at (u ∷ states) i
unfolding state_at
same_beyond v u states zero apart = absurd (apart refl)
same_beyond v u states (suc i) apart = refl

same_after :
    (u : State) (one states : List State) (index i : ℕ)
    → ((i : ℕ) → i ≢ index → state_at one i ≡ state_at states i)
    → i ≢ suc index
    → state_at (u ∷ one) i ≡ state_at (u ∷ states) i
unfolding state_at
same_after u one states index zero others apart = refl
same_after u one states index (suc i) others apart = others i (omega (arith, apart))

patch_at-SetAt :
    (index : ℕ) (slot : Slot) (x : ℕ) (states : List State) (s : State)
    → state_at states index ≡ ok s
    → (one : List State) × (patch_at index slot x states ≡ ok one)
      × (length one ≡ length states)
      × SetAt index slot x s states one
unfolding patch_at state_at
patch_at-SetAt index slot x [] s h = absurd cc
patch_at-SetAt zero slot x (u ∷ states) s h =
    let same : u ≡ s = cc in
    (
      set_slot slot x u ∷ states,
      refl,
      refl,
      (
        subst
            (λ s. Path (Result RegexError State) (ok (set_slot slot x u)) (ok (set_slot slot x s)))
            same refl,
        same_beyond (set_slot slot x u) u states,
      ),
    )
patch_at-SetAt (suc index) slot x (u ∷ states) s h =
    let (one, run, size, (at, others)) = patch_at-SetAt index slot x states s h in
    rw run (u ∷ one, refl, omega (arith, size), (at, λ i. same_after u one states index i others))

SetAt-Grows :
    (index : ℕ) (slot : Slot) (x : ℕ) (s : State) (states one : List State)
    → state_at states index ≡ ok s
    → Free x (slot_of slot s)
    → SetAt index slot x s states one
    → Grows states one
SetAt-Grows index slot x s states one was f (at, others) i u there =
    elim (Bool-cases (i == index)) [
      | inl here ↦
          let same : i ≡ index = ground (arith, here) in
          let is : s ≡ u = cc in
          (
            set_slot slot x s,
            ap (state_at one) same ∙ at,
            subst (λ u. GrownState u (set_slot slot x s)) is
                (set_slot-kind slot x s, λ other j h. set_slot-edges slot other x j s f h),
          )
      | inr away ↦ (u, others i (ground (arith, away)) ∙ there, (refl, λ other j h. h))
    ]

SetAt-FreeOuts :
    (index : ℕ) (slot : Slot) (x : ℕ) (s : State) (states one : List State) (outs : Outs)
    → state_at states index ≡ ok s
    → SetAt index slot x s states one
    → FreeOuts x states outs
    → FreeOuts x one outs
SetAt-FreeOuts index slot x s states one [] was set f = tt
SetAt-FreeOuts index slot x s states one ((i, other) ∷ outs) was (at, others)
      ((u, there, free), f) =
    (
      elim (Bool-cases (i == index)) [
        | inl here ↦
            let same : i ≡ index = ground (arith, here) in
            let is : u ≡ s = cc in
            (
              set_slot slot x s,
              ap (state_at one) same ∙ at,
              set_slot-Free slot other x s (subst (λ u. Free x (slot_of other u)) is free),
            )
        | inr away ↦ (u, others i (ground (arith, away)) ∙ there, free)
      ],
      SetAt-FreeOuts index slot x s states one outs was (at, others) f,
    )

-- A patch of free edges: they lead to `x` afterwards, and the states away from them are as before.
abbrev pub PatchedTo : ℕ → Outs → List State → List State → Type 0
PatchedTo x outs states patched =
    (length patched ≡ length states)
    × Grows states patched
    × Targets x patched outs
    × ((i : ℕ) → All (λ (k, slot). i ≢ k) outs → state_at patched i ≡ state_at states i)

pub patch-PatchedTo :
    (outs : Outs) (x : ℕ) (states : List State)
    → FreeOuts x states outs
    → (patched : List State) × (patch outs x states ≡ ok patched) × PatchedTo x outs states patched
unfolding patch
patch-PatchedTo [] x states f =
    (states, refl, (refl, (λ i s at. (s, at, (refl, λ slot j h. h))), tt, λ i apart. refl))
patch-PatchedTo ((index, slot) ∷ outs) x states ((s, was, free), f) =
    let (one, run, size, set) = patch_at-SetAt index slot x states s was in
    let grown = SetAt-Grows index slot x s states one was free set in
    let (patched, went, (same_size, grows, targets, frame)) =
      patch-PatchedTo outs x one (SetAt-FreeOuts index slot x s states one outs was set f) in
    let (u, there, (kind, edges)) = grows index (set_slot slot x s) set.0 in
    rw (run, went)
      (
        patched,
        refl,
        (
          same_size ∙ size,
          Grows-trans states one patched grown grows,
          ((u, there, edges slot x (set_slot-same slot x s)), targets),
          λ i apart. frame i apart.1 ∙ set.1 i apart.0,
        ),
      )

-- ===== src/SafeRegex/Build/Steps.antt =====
-- The steps of `SafeRegex._build`, and what their states will stand for in a finished machine
-- (src/workspace_guard_mcp/safe_regex.py).
use sandboxed_workspace_mcp.Base.{
  ℕ, ◌≡◌, ◌≢◌, ◌≤◌, ◌<◌, refl, sym, ◌∙◌, subst, Option, none, some, List, [], ◌∷◌, ◌++◌, ok, length,
  All, All-append, arith,
}
use sandboxed_workspace_mcp.SafeRegex.Machine
use sandboxed_workspace_mcp.SafeRegex.Machine.{State, Kind, RegexError, state_at}
use sandboxed_workspace_mcp.SafeRegex.Build.{
  out_slot, out1_slot, Outs, Fragment, state, add, single, join, loop_back, skip,
}
use sandboxed_workspace_mcp.SafeRegex.Build.Added.{Settles, Settles-bind}
use sandboxed_workspace_mcp.SafeRegex.Build.Grows.{
  Keeps, Keeps-Grows, Grows, Grows-trans, OpenOuts, OpenOuts-Keeps, Targets, Targets-Grows,
  state_at-below, Appended, add-Appended,
}
use sandboxed_workspace_mcp.SafeRegex.Build.Patched.{OpenOuts-FreeOuts, PatchedTo, patch-PatchedTo}
use sandboxed_workspace_mcp.SafeRegex.Language.Wiring.{Leads, Splits}

-- New states stand after the old ones, and a fragment's open edges are among the new.
abbrev pub Adds : ℕ → List State → List State → Outs → Type 0
Adds lo states later outs = (lo ≤ length later) × Keeps states later × OpenOuts lo later outs

-- A fragment means `M` between its first state and the state that its open edges come to lead to.
abbrev pub Means : (ℕ → ℕ → List State → Type 0) → List State → Fragment → Type 0
Means M states f =
    (final : List State) (x : ℕ) → Grows states final → Targets x final f.outs → M f.start x final

pub Means-Grows :
    (M : ℕ → ℕ → List State → Type 0) (states later : List State) (f : Fragment)
    → Grows states later
    → Means M states f
    → Means M later f
Means-Grows M states later f g m final x h t = m final x (Grows-trans states later final g h) t

pub single-Means :
    (k : Kind) (states : List State)
    → Settles
        (λ (later, f).
          Adds (length states) states later f.outs × Means (λ e x final. Leads final k e x) later f)
        (single k states)
unfolding single
single-Means k states =
    Settles-bind (Appended (state k) states) _ (add (state k) states) _
      (add-Appended (state k) states)
      λ (later, index) (here, size, kept, at). (
        (omega (arith, size), kept, ((omega (arith, here), state k, at, refl), tt)),
        λ final x g (to, t).
            let (u, there, (kind, edges)) = g index (state k) at in
            let (v, again, out) = to in
            let same : u ≡ v = cc in (u, there, kind, subst (λ v. v.out ≡ some x) (sym same) out),
      )

abbrev pub split_to : Option ℕ → Option ℕ → State
split_to a b = record { kind = Machine.split; out = a; out1 = b }

Splits-Grows :
    (states final : List State) (e a b : ℕ)
    → state_at states e ≡ ok (split_to (some a) (some b))
    → Grows states final
    → Splits final e a b
Splits-Grows states final e a b at g =
    let (u, there, (kind, edges)) = g e (split_to (some a) (some b)) at in
    (u, there, kind, edges out_slot a refl, edges out1_slot b refl)

-- A split whose second edge is set later.
Splits-late :
    (states final : List State) (e a b : ℕ)
    → state_at states e ≡ ok (split_to (some a) none)
    → Grows states final
    → Targets b final ((e, out1_slot) ∷ [])
    → Splits final e a b
Splits-late states final e a b at g ((v, again, out1), t) =
    let (u, there, (kind, edges)) = g e (split_to (some a) none) at in
    let same : u ≡ v = cc in
    (u, there, kind, edges out_slot a refl, subst (λ v. v.out1 ≡ some b) (sym same) out1)

Targets-append :
    (x : ℕ) (states : List State) (front back : Outs)
    → Targets x states (front ++ back)
    → Targets x states front × Targets x states back
Targets-append x states [] back t = (tt, t)
Targets-append x states ((i, slot) ∷ front) back (to, t) =
    let (first, rest) = Targets-append x states front back t in ((to, first), rest)

pub join-Means :
    (lo : ℕ) (result following : Fragment) (states : List State)
    → lo ≤ length states
    → OpenOuts lo states result.outs
    → OpenOuts lo states following.outs
    → Settles
        (λ (later, f).
          Adds lo states later f.outs
          × ((final : List State) (x : ℕ)
              → Grows later final
              → Targets x final f.outs
              → Targets x final result.outs
                × Targets x final following.outs
                × Splits final f.start result.start following.start))
        (join result following states)
unfolding join
join-Means lo result following states h o p =
    let s = split_to (some result.start) (some following.start) in
    Settles-bind (Appended s states) _ (add s states) _ (add-Appended s states)
      λ (later, index) (here, size, kept, at). (
        (
          omega (arith, h, size),
          kept,
          All-append _ result.outs following.outs
              (OpenOuts-Keeps lo lo states later result.outs (omega arith) kept o)
              (OpenOuts-Keeps lo lo states later following.outs (omega arith) kept p),
        ),
        λ final x g t.
            let (first, second) = Targets-append x final result.outs following.outs t in
            (first, second, Splits-Grows later final index result.start following.start at g),
      )

pub skip-Means :
    (lo : ℕ) (child : Fragment) (states : List State)
    → lo ≤ length states
    → OpenOuts lo states child.outs
    → Settles
        (λ (later, f).
          Adds lo states later f.outs
          × ((final : List State) (x : ℕ)
              → Grows later final
              → Targets x final f.outs
              → Targets x final child.outs × Splits final f.start child.start x))
        (skip child states)
unfolding skip
skip-Means lo child states h o =
    let s = split_to (some child.start) none in
    Settles-bind (Appended s states) _ (add s states) _ (add-Appended s states)
      λ (later, index) (here, size, kept, at). (
        (
          omega (arith, h, size),
          kept,
          All-append _ child.outs ((index, out1_slot) ∷ [])
              (OpenOuts-Keeps lo lo states later child.outs (omega arith) kept o)
              ((omega (arith, h, here), s, at, refl), tt),
        ),
        λ final x g t.
            let (first, second) = Targets-append x final child.outs ((index, out1_slot) ∷ []) t in
            (first, Splits-late later final index child.start x at g second),
      )

-- The open edges of a fragment lie below every new state.
pub OpenOuts-away :
    (lo : ℕ) (states : List State) (outs : Outs) (i : ℕ)
    → length states ≤ i
    → OpenOuts lo states outs
    → All (λ (k, slot). i ≢ k) outs
OpenOuts-away lo states [] i h o = tt
OpenOuts-away lo states ((k, slot) ∷ outs) i h ((above, s, at, unset), o) =
    let below = state_at-below states k s at in
    (omega (arith, h, below), OpenOuts-away lo states outs i h o)

-- They lie above every state that was there before.
pub OpenOuts-above :
    (lo : ℕ) (states : List State) (outs : Outs) (i : ℕ)
    → i < lo
    → OpenOuts lo states outs
    → All (λ (k, slot). i ≢ k) outs
OpenOuts-above lo states [] i h o = tt
OpenOuts-above lo states ((k, slot) ∷ outs) i h ((above, s, at, unset), o) =
    (omega (arith, h, above), OpenOuts-above lo states outs i h o)

-- A patch of a fragment's open edges leaves the states before the fragment alone.
pub PatchedTo-Keeps :
    (x : ℕ) (old states patched : List State) (outs : Outs)
    → Keeps old states
    → OpenOuts (length old) states outs
    → PatchedTo x outs states patched
    → Keeps old patched
PatchedTo-Keeps x old states patched outs kept o (size, grows, targets, frame) i s at =
    frame i (OpenOuts-above (length old) states outs i (state_at-below old i s at) o) ∙ kept i s at

pub loop_back-Means :
    (old : List State) (child : Fragment) (states : List State)
    → length old ≤ length states
    → Keeps old states
    → OpenOuts (length old) states child.outs
    → Settles
        (λ (later, index).
          Adds (length old) old later ((index, out1_slot) ∷ [])
          × Grows states later
          × ((final : List State) (x : ℕ)
              → Grows later final
              → Targets x final ((index, out1_slot) ∷ [])
              → Targets index final child.outs × Splits final index child.start x))
        (loop_back child states)
unfolding loop_back
loop_back-Means old child states h kept o =
    let s = split_to (some child.start) none in
    Settles-bind (Appended s states) _ (add s states) _ (add-Appended s states)
      λ (later, index) (here, size, kept2, at).
        let o2 =
          OpenOuts-Keeps (length old) (length old) states later child.outs (omega arith) kept2 o in
        let (patched, run, (same, grows, targets, frame)) =
          patch-PatchedTo child.outs index later
            (OpenOuts-FreeOuts (length old) index later child.outs o2) in
        let there =
          frame index (OpenOuts-away (length old) states child.outs index (omega (arith, here)) o)
          ∙ at in
        rw run (
          ((
            omega (arith, same, size, h),
            PatchedTo-Keeps index old later patched child.outs (λ i u a. kept2 i u (kept i u a)) o2
                (same, grows, targets, frame),
            ((omega (arith, here, h), s, there, refl), tt),
          )),
          Grows-trans states later patched (Keeps-Grows states later kept2) grows,
          λ final x g t. (
            Targets-Grows index patched final child.outs g targets,
            Splits-late patched final index child.start x there g t,
          ),
        )

-- ===== src/SafeRegex/Build/Branches.antt =====
-- The branches of an alternation, joined (src/workspace_guard_mcp/safe_regex.py).
use sandboxed_workspace_mcp.Base.{ℕ, ◌≤◌, refl, ◌∙◌, Text, List, [], ◌∷◌, length, arith}
use sandboxed_workspace_mcp.SafeRegex.Machine.{State}
use sandboxed_workspace_mcp.SafeRegex.Syntax.{Node, Nodes, none_left, then_node}
use sandboxed_workspace_mcp.SafeRegex.Build.{Outs, Fragment, join, join_each}
use sandboxed_workspace_mcp.SafeRegex.Build.Added.{Settles, Settles-bind, Settles-map}
use sandboxed_workspace_mcp.SafeRegex.Build.Grows.{
  Keeps, Keeps-Grows, Grows, Grows-trans, OpenOuts, OpenOuts-Keeps, Targets,
}
use sandboxed_workspace_mcp.SafeRegex.Build.Patched.{PatchedTo}
use sandboxed_workspace_mcp.SafeRegex.Build.Steps.{
  Adds, Means, Means-Grows, join-Means, OpenOuts-away,
}
use sandboxed_workspace_mcp.SafeRegex.Language.Wiring.{Entry, Joined}

-- The open edges of a later fragment are not touched by the patch of an earlier one.
pub OpenOuts-frame :
    (lo x : ℕ) (before states patched : List State) (early late : Outs)
    → OpenOuts lo before early
    → PatchedTo x early states patched
    → OpenOuts (length before) states late
    → OpenOuts (length before) patched late
OpenOuts-frame lo x before states patched early [] o p l = tt
OpenOuts-frame lo x before states patched early ((i, slot) ∷ late) o p ((above, s, at, unset), l) =
    (
      (above, s, p.3 i (OpenOuts-away lo before early i above o) ∙ at, unset),
      OpenOuts-frame lo x before states patched early late o p l,
    )

pub OpenOuts-low :
    (lo low : ℕ) (states : List State) (outs : Outs)
    → low ≤ lo
    → OpenOuts lo states outs
    → OpenOuts low states outs
OpenOuts-low lo low states outs h = OpenOuts-Keeps lo low states states outs h (λ i s at. at)

module _ (fold : ℕ → Text) where
  -- The fragment of a tree.
  abbrev pub IsFragment : Node → List State → List State × Fragment → Type 0
  IsFragment node states (later, f) =
      Adds (length states) states later f.outs
      × Means (λ e x final. Entry fold final node e x) later f

  -- The fragments of the branches of an alternation.
  abbrev pub AreFragments : Nodes → ℕ → List State → List Fragment → Type 0
  AreFragments none_left lo states [] = Unit
  AreFragments none_left lo states (f ∷ fs) = ⊥
  AreFragments (then_node n ns) lo states [] = ⊥
  AreFragments (then_node n ns) lo states (f ∷ fs) =
      OpenOuts lo states f.outs
      × Means (λ e x final. Entry fold final n e x) states f
      × AreFragments ns lo states fs

  pub AreFragments-Keeps :
      (ns : Nodes) (lo low : ℕ) (states later : List State) (fs : List Fragment)
      → low ≤ lo
      → Keeps states later
      → AreFragments ns lo states fs
      → AreFragments ns low later fs
  AreFragments-Keeps none_left lo low states later [] h kept a = tt
  AreFragments-Keeps none_left lo low states later (f ∷ fs) h kept a = a
  AreFragments-Keeps (then_node n ns) lo low states later [] h kept a = a
  AreFragments-Keeps (then_node n ns) lo low states later (f ∷ fs) h kept (o, m, a) = (
    OpenOuts-Keeps lo low states later f.outs h kept o,
    Means-Grows (λ e x final. Entry fold final n e x) states later f (Keeps-Grows states later kept)
        m,
    AreFragments-Keeps ns lo low states later fs h kept a,
  )

  -- The branches joined after `result`.
  abbrev IsJoined : Nodes → ℕ → Fragment → List State → List State × Fragment → Type 0
  IsJoined ns lo result states (later, f) =
      Adds lo states later f.outs
      × ((final : List State) (x : ℕ)
          → Grows later final
          → Targets x final f.outs
          → Targets x final result.outs × Joined fold final result.start ns f.start x)

  pub join_each-IsJoined :
      (ns : Nodes) (lo : ℕ) (result : Fragment) (fs : List Fragment) (states : List State)
      → lo ≤ length states
      → OpenOuts lo states result.outs
      → AreFragments ns lo states fs
      → Settles (IsJoined ns lo result states) (join_each result fs states)
  unfolding join_each
  join_each-IsJoined none_left lo result [] states h o a =
      ((h, (λ i s at. at), o), λ final x g t. (t, refl))
  join_each-IsJoined none_left lo result (f ∷ fs) states h o a = absurd a
  join_each-IsJoined (then_node n ns) lo result [] states h o a = absurd a
  join_each-IsJoined (then_node n ns) lo result (f ∷ fs) states h o (p, m, a) =
      Settles-bind _ (IsJoined (then_node n ns) lo result states) (join result f states) _
        (join-Means lo result f states h o p)
        λ (more, joined) ((high, kept, opened), led).
          Settles-map (join_each joined fs more)
            (join_each-IsJoined ns lo joined fs more high opened
              (AreFragments-Keeps ns lo lo states more fs (omega arith) kept a))
            λ (later, last) ((higher, kept2, opened2), joins). (
              (higher, (λ i s at. kept2 i s (kept i s at)), opened2),
              λ final x g t.
                  let (targets, others) = joins final x g t in
                  let after = Grows-trans more later final (Keeps-Grows more later kept2) g in
                  let (left, right, splits) = led final x after targets in
                  let entry =
                    m final x (Grows-trans states more final (Keeps-Grows states more kept) after)
                      right in
                  (left, (f.start, joined.start, entry, splits, others)),
            )

-- ===== src/SafeRegex/Build/Traced.antt =====
-- What `SafeRegex._build` adds for a tree stands for that tree in every machine that grows from it
-- (src/workspace_guard_mcp/safe_regex.py).
use sandboxed_workspace_mcp.Base.{
  ℕ, ◌≡◌, ◌≤◌, refl, sym, ◌∙◌, subst, Text, List, [], ok, length, arith, true,
}
use sandboxed_workspace_mcp.SafeRegex.Machine
use sandboxed_workspace_mcp.SafeRegex.Machine.{State, Kind, RegexError, state_at, is_match}
use sandboxed_workspace_mcp.SafeRegex.Syntax.{
  Node, Nodes, empty, literal, class, any, start, end, concat, alt, star, plus, optional, none_left,
  then_node,
}
use sandboxed_workspace_mcp.SafeRegex.Build.{
  Fragment, state, add, join_each, loop_back, skip, build, build_rest, build_each, build_machine,
}
use sandboxed_workspace_mcp.SafeRegex.Build.Added.{Settles, Settles-bind, Settles-map}
use sandboxed_workspace_mcp.SafeRegex.Build.Grows.{
  Keeps, Keeps-Grows, Grows, Grows-trans, OpenOuts, OpenOuts-Keeps, Targets, Targets-Grows,
  Appended, add-Appended,
}
use sandboxed_workspace_mcp.SafeRegex.Build.Patched.{OpenOuts-FreeOuts, patch-PatchedTo}
use sandboxed_workspace_mcp.SafeRegex.Build.Steps.{
  Adds, Means-Grows, single-Means, skip-Means, loop_back-Means, OpenOuts-away, PatchedTo-Keeps,
}
use sandboxed_workspace_mcp.SafeRegex.Language.Wiring.{Entry, Chain}
use sandboxed_workspace_mcp.SafeRegex.Build.Branches.{
  OpenOuts-frame, OpenOuts-low, IsFragment, AreFragments, AreFragments-Keeps, join_each-IsJoined,
}

module _ (fold : ℕ → Text) where
  -- The rest of a concatenation after `result`.
  abbrev IsChained : Nodes → List State → Fragment → List State → List State × Fragment → Type 0
  IsChained ns old result states (later, f) =
      Adds (length old) old later f.outs
      × Grows states later
      × (f.start ≡ result.start)
      × ((final : List State) (x : ℕ)
          → Grows later final
          → Targets x final f.outs
          → (k : ℕ) × Targets k final result.outs × Chain fold final ns k x)

  abbrev AreBuilt : Nodes → List State → List State × List Fragment → Type 0
  AreBuilt ns states (later, fs) =
      (length states ≤ length later)
      × Keeps states later
      × AreFragments fold ns (length states) later fs

  mutual
    unfolding build

    build-IsFragment :
        (node : Node) (states : List State)
        → Settles (IsFragment fold node states) (build fold node states)
    build-IsFragment empty states = single-Means Machine.jump states
    build-IsFragment (literal c) states = single-Means (Machine.literal (fold c)) states
    build-IsFragment (class s) states = single-Means (Machine.class s) states
    build-IsFragment any states = single-Means Machine.any states
    build-IsFragment start states = single-Means Machine.start states
    build-IsFragment end states = single-Means Machine.end states
    build-IsFragment (concat n ns) states =
        Settles-bind (IsFragment fold n states) (IsFragment fold (concat n ns) states)
          (build fold n states) _ (build-IsFragment n states)
          λ (more, result) ((high, kept, opened), means).
            Settles-map (build_rest fold result ns more)
              (build_rest-IsChained ns states result more high kept opened)
              λ (later, f) (adds, grows, begins, chained). (
                adds,
                λ final x g t.
                    let (k, targets, chain) = chained final x g t in
                    let entry = means final k (Grows-trans more later final grows g) targets in
                    (k, subst (λ e. Entry fold final n e k) (sym begins) entry, chain),
              )
    build-IsFragment (alt n ns) states =
        Settles-bind (IsFragment fold n states) (IsFragment fold (alt n ns) states)
          (build fold n states) _ (build-IsFragment n states)
          λ (more, result) ((high, kept, opened), means).
            Settles-bind (AreBuilt ns more) (IsFragment fold (alt n ns) states)
              (build_each fold ns more) _ (build_each-AreBuilt ns more)
              λ (others, fs) (higher, kept2, built).
                Settles-map (join_each result fs others)
                  (join_each-IsJoined fold ns (length states) result fs others
                    (omega (arith, high, higher))
                    (OpenOuts-Keeps (length states) (length states) more others result.outs
                      (omega arith) kept2 opened)
                    (AreFragments-Keeps fold ns (length more) (length states) others others fs high
                      (λ i s at. at) built))
                  λ (later, f) ((highest, kept3, opened3), joins). (
                    (highest, (λ i s at. kept3 i s (kept2 i s (kept i s at))), opened3),
                    λ final x g t.
                        let (targets, joined) = joins final x g t in
                        let all = Keeps-Grows more later (λ i s at. kept3 i s (kept2 i s at)) in
                        (
                          result.start,
                          means final x (Grows-trans more later final all g) targets,
                          joined,
                        ),
                  )
    build-IsFragment (star n) states =
        Settles-bind (IsFragment fold n states) (IsFragment fold (star n) states)
          (build fold n states) _ (build-IsFragment n states)
          λ (more, child) ((high, kept, opened), means).
            Settles-bind _ (IsFragment fold (star n) states) (loop_back child more) _
              (loop_back-Means states child more high kept opened)
              λ (looped, index) (adds, grows, led). (
                adds,
                λ final x g t.
                    let (targets, splits) = led final x g t in
                    (
                      child.start,
                      means final index (Grows-trans more looped final grows g) targets,
                      splits,
                    ),
              )
    build-IsFragment (plus n) states =
        Settles-bind (IsFragment fold n states) (IsFragment fold (plus n) states)
          (build fold n states) _ (build-IsFragment n states)
          λ (more, child) ((high, kept, opened), means).
            Settles-bind _ (IsFragment fold (plus n) states) (loop_back child more) _
              (loop_back-Means states child more high kept opened)
              λ (looped, index) (adds, grows, led). (
                adds,
                λ final x g t.
                    let (targets, splits) = led final x g t in
                    (
                      index,
                      means final index (Grows-trans more looped final grows g) targets,
                      splits,
                    ),
              )
    build-IsFragment (optional n) states =
        Settles-bind (IsFragment fold n states) (IsFragment fold (optional n) states)
          (build fold n states) _ (build-IsFragment n states)
          λ (more, child) ((high, kept, opened), means).
            Settles-map (skip child more) (skip-Means (length states) child more high opened)
              λ (later, f) ((higher, kept2, opened2), led). (
                (higher, (λ i s at. kept2 i s (kept i s at)), opened2),
                λ final x g t.
                    let (targets, splits) = led final x g t in
                    (
                      child.start,
                      means final x (Grows-trans more later final (Keeps-Grows more later kept2) g)
                          targets,
                      splits,
                    ),
              )

    build_rest-IsChained :
        (ns : Nodes) (old : List State) (result : Fragment) (states : List State)
        → length old ≤ length states
        → Keeps old states
        → OpenOuts (length old) states result.outs
        → Settles (IsChained ns old result states) (build_rest fold result ns states)
    build_rest-IsChained none_left old result states high kept opened = (
      (high, kept, opened),
      Keeps-Grows states states (λ i s at. at),
      refl,
      λ final x g t. (x, t, refl),
    )
    build_rest-IsChained (then_node n ns) old result states high kept opened =
        Settles-bind (IsFragment fold n states) (IsChained (then_node n ns) old result states)
          (build fold n states) _ (build-IsFragment n states)
          λ (more, following) ((higher, kept2, opened2), means).
            let still =
              OpenOuts-Keeps (length old) (length old) states more result.outs (omega arith) kept2
                opened in
            let (patched, run, to) =
              patch-PatchedTo result.outs following.start more
                (OpenOuts-FreeOuts (length old) following.start more result.outs still) in
            let (same, grows, targets, frame) = to in
            let onward = OpenOuts-low (length states) (length old) patched following.outs high (
              OpenOuts-frame (length old) following.start states more patched result.outs
                following.outs opened to opened2) in
            let old_kept =
              PatchedTo-Keeps following.start old more patched result.outs
                (λ i s at. kept2 i s (kept i s at)) still to in
            rw run (
              Settles-map
                (build_rest fold record { start = result.start; outs = following.outs } ns patched)
                (build_rest-IsChained ns old record { start = result.start; outs = following.outs }
                  patched (omega (arith, same, higher, high)) old_kept onward)
                λ (later, f) (adds, grows2, begins, chained). (
                  adds,
                  Grows-trans states more later (Keeps-Grows states more kept2)
                      (Grows-trans more patched later grows grows2),
                  begins,
                  λ final x g t.
                      let (k, ends, chain) = chained final x g t in
                      let up = Grows-trans patched later final grows2 g in
                      (
                        following.start,
                        Targets-Grows following.start patched final result.outs up targets,
                        (k, means final k (Grows-trans more patched final grows up) ends, chain),
                      ),
                ))

    build_each-AreBuilt :
        (ns : Nodes) (states : List State)
        → Settles (AreBuilt ns states) (build_each fold ns states)
    build_each-AreBuilt none_left states = (omega arith, (λ i s at. at), tt)
    build_each-AreBuilt (then_node n ns) states =
        Settles-bind (IsFragment fold n states) (AreBuilt (then_node n ns) states)
          (build fold n states) _ (build-IsFragment n states)
          λ (more, f) ((high, kept, opened), means).
            Settles-bind (AreBuilt ns more) (AreBuilt (then_node n ns) states)
              (build_each fold ns more) _ (build_each-AreBuilt ns more)
              λ (others, fs) (higher, kept2, built). (
                omega (arith, high, higher),
                (λ i s at. kept2 i s (kept i s at)),
                (
                  OpenOuts-Keeps (length states) (length states) more others f.outs (omega arith)
                      kept2 opened,
                  Means-Grows (λ e x final. Entry fold final n e x) more others f
                      (Keeps-Grows more others kept2) means,
                  AreFragments-Keeps fold ns (length more) (length states) others others fs high
                      (λ i s at. at) built,
                ),
              )

  -- The machine of a tree: from its first state on it is the tree, and the accepting state follows.
  abbrev pub Compiles : Node → List State × ℕ → Type 0
  Compiles node (states, e) =
      (m : ℕ) × (s : State) × (state_at states m ≡ ok s)
      × (is_match s.kind ≡ true)
      × Entry fold states node e m

  pub build_machine-Compiles : (node : Node) → Settles (Compiles node) (build_machine fold node)
  unfolding build_machine is_match
  build_machine-Compiles node =
      Settles-bind (IsFragment fold node []) (Compiles node) (build fold node []) _
        (build-IsFragment node [])
        λ (states, f) ((high, kept, opened), means).
          Settles-bind (Appended (state Machine.match) states) (Compiles node)
            (add (state Machine.match) states) _ (add-Appended (state Machine.match) states)
            λ (more, m) (here, size, kept2, at).
              let still = OpenOuts-Keeps 0 0 states more f.outs (omega arith) kept2 opened in
              let (patched, run, (same, grows, targets, frame)) =
                patch-PatchedTo f.outs m more (OpenOuts-FreeOuts 0 m more f.outs still) in
              rw run (
                m,
                state Machine.match,
                frame m (OpenOuts-away 0 states f.outs m (omega (arith, here)) opened) ∙ at,
                refl,
                means patched m
                    (Grows-trans states more patched (Keeps-Grows states more kept2) grows) targets,
              )

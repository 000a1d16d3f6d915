-- ===== src/SafeRegex/Build/Built.antt =====
-- The machine that `SafeRegex.__init__` builds of a syntax tree (src/workspace_guard_mcp/safe_regex.py).
use sandboxed_workspace_mcp.Base.{ℕ, Bool, ◌||◌, Text, List, arith, length}
use sandboxed_workspace_mcp.SafeRegex.Machine
use sandboxed_workspace_mcp.SafeRegex.Machine.{State, Kind, reads}
use sandboxed_workspace_mcp.SafeRegex.Syntax.{
  Node, Nodes, empty, literal, class, any, start, end, concat, alt, star, plus, optional, none_left,
  then_node,
}
use sandboxed_workspace_mcp.SafeRegex.Build.{Fragment, loop_back, build, build_rest, build_each}
use sandboxed_workspace_mcp.SafeRegex.Build.Slots.{patch-Sound}
use sandboxed_workspace_mcp.SafeRegex.Build.Added.{
  Settles, Settles-bind, dangles, Sound, Sound-weaken,
}
use sandboxed_workspace_mcp.SafeRegex.Build.Fragments.{
  Inside-le, Extends, or_left, single-Extends, loop_back-Extends, skip-Extends, dangles_any,
  join_each-Extends, BuiltEach,
}

module _ (fold : ℕ → Text) where
  mutual
    unfolding build dangles_any

    pub build-Extends :
        (node : Node) (p : ℕ → Bool) (states : List State)
        → Sound p states
        → Settles (Extends p (length states)) (build fold node states)
    build-Extends empty p states sound = single-Extends p Machine.jump states sound
    build-Extends (literal c) p states sound =
        single-Extends p (Machine.literal (fold c)) states sound
    build-Extends (class s) p states sound = single-Extends p (Machine.class s) states sound
    build-Extends any p states sound = single-Extends p Machine.any states sound
    build-Extends start p states sound = single-Extends p Machine.start states sound
    build-Extends end p states sound = single-Extends p Machine.end states sound
    build-Extends (concat node nodes) p states sound =
        Settles-bind (Extends p (length states)) (Extends p (length states))
          (build fold node states) _ (build-Extends node p states sound)
          λ (more, result) built. build_rest-Extends nodes p (length states) result more built
    build-Extends (alt node nodes) p states sound =
        Settles-bind (Extends p (length states)) (Extends p (length states))
          (build fold node states) _ (build-Extends node p states sound)
          λ (more, result) (past, first, inside, done).
            Settles-bind (BuiltEach (λ k. p k || dangles k result.outs) (length more))
              (Extends p (length states)) (build_each fold nodes more) _
              (build_each-BuiltEach nodes (λ k. p k || dangles k result.outs) more done)
              λ (others, fragments) (grown, branches, sound2).
                join_each-Extends p (length states) result fragments others
                  (omega (arith, past, grown))
                  (
                    omega (arith, first, grown),
                    Inside-le (length more) (length others) result.outs grown inside,
                  )
                  branches
                  (Sound-weaken (λ k. p k || dangles k result.outs || dangles_any k fragments) _
                    others (λ k h. ground (arith, h)) sound2)
    build-Extends (star node) p states sound =
        Settles-bind (Extends p (length states)) (Extends p (length states))
          (build fold node states) _ (build-Extends node p states sound)
          λ (more, child) built.
            Settles-bind _ (Extends p (length states)) (loop_back child more) _
              (loop_back-Extends p (length states) child more built)
              λ (looped, index) (past, first, last, sound2).
                (past, last, (last, tt), Sound-weaken p _ looped (λ k h. or_left (p k) _ h) sound2)
    build-Extends (plus node) p states sound =
        Settles-bind (Extends p (length states)) (Extends p (length states))
          (build fold node states) _ (build-Extends node p states sound)
          λ (more, child) built.
            Settles-bind _ (Extends p (length states)) (loop_back child more) _
              (loop_back-Extends p (length states) child more built)
              λ (looped, index) (past, first, last, sound2).
                (past, first, (last, tt), Sound-weaken p _ looped (λ k h. or_left (p k) _ h) sound2)
    build-Extends (optional node) p states sound =
        Settles-bind (Extends p (length states)) (Extends p (length states))
          (build fold node states) _ (build-Extends node p states sound)
          λ (more, child) built. skip-Extends p (length states) child more built

    build_rest-Extends :
        (nodes : Nodes) (p : ℕ → Bool) (n : ℕ) (result : Fragment) (states : List State)
        → Extends p n (states, result)
        → Settles (Extends p n) (build_rest fold result nodes states)
    build_rest-Extends none_left p n result states built = built
    build_rest-Extends (then_node node nodes) p n result states (past, first, inside, sound) =
        Settles-bind (Extends (λ k. p k || dangles k result.outs) (length states)) (Extends p n)
          (build fold node states) _
          (build-Extends node (λ k. p k || dangles k result.outs) states sound)
          λ (more, following) (grown, first2, inside2, sound2).
            let (patched, run, kept, sound3) =
              patch-Sound (λ k. p k || dangles k following.outs) result.outs following.start more
                (Inside-le (length states) (length more) result.outs grown inside) first2
                (Sound-weaken (λ k. p k || dangles k result.outs || dangles k following.outs) _ more
                  (λ k h. ground (arith, h)) sound2) in
            rw run (
              build_rest-Extends nodes p n record { start = result.start; outs = following.outs }
                patched
                (
                  omega (arith, past, grown, kept),
                  omega (arith, first, grown, kept),
                  Inside-le (length more) (length patched) following.outs (omega (arith, kept))
                      inside2,
                  sound3,
                ))

    build_each-BuiltEach :
        (nodes : Nodes) (p : ℕ → Bool) (states : List State)
        → Sound p states
        → Settles (BuiltEach p (length states)) (build_each fold nodes states)
    build_each-BuiltEach none_left p states sound =
        (omega arith, tt, Sound-weaken p _ states (λ k h. or_left (p k) _ h) sound)
    build_each-BuiltEach (then_node node nodes) p states sound =
        Settles-bind (Extends p (length states)) (BuiltEach p (length states))
          (build fold node states) _ (build-Extends node p states sound)
          λ (more, fragment) (past, first, inside, done).
            Settles-bind (BuiltEach (λ k. p k || dangles k fragment.outs) (length more))
              (BuiltEach p (length states)) (build_each fold nodes more) _
              (build_each-BuiltEach nodes (λ k. p k || dangles k fragment.outs) more done)
              λ (others, fragments) (grown, branches, sound2). (
                omega (arith, past, grown),
                (
                  (
                    omega (arith, first, grown),
                    Inside-le (length more) (length others) fragment.outs grown inside,
                  ),
                  branches,
                ),
                Sound-weaken (λ k. p k || dangles k fragment.outs || dangles_any k fragments) _
                    others (λ k h. ground (arith, h)) sound2,
              )

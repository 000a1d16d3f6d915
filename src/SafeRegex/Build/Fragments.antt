-- ===== src/SafeRegex/Build/Fragments.antt =====
-- The steps of `SafeRegex._build` on fragments (src/workspace_guard_mcp/safe_regex.py).
use sandboxed_workspace_mcp.Base.{
  ℕ, ◌≡◌, ◌≤◌, ◌<◌, refl, sym, subst, Bool, true, false, ◌||◌, false≢true, Option, none, some, List,
  [], ◌∷◌, arith, inr, length, All, All-append,
}
use sandboxed_workspace_mcp.SafeRegex.Machine
use sandboxed_workspace_mcp.SafeRegex.Machine.{State, Kind, reads}
use sandboxed_workspace_mcp.SafeRegex.Build.{
  out_slot, out1_slot, Outs, Fragment, state, add, single, join, join_each, loop_back, skip,
}
use sandboxed_workspace_mcp.SafeRegex.Build.Slots.{patch-Sound}
use sandboxed_workspace_mcp.SafeRegex.Build.Added.{
  Settles, Settles-bind, dangles, dangles-append, Led, Sound, Sound-weaken, Added, add-Added,
}

abbrev pub Inside : ℕ → Outs → Type 0
Inside n outs = All (λ (i, slot). i < n) outs

pub Inside-le : (m n : ℕ) (outs : Outs) → m ≤ n → Inside m outs → Inside n outs
Inside-le m n [] h a = tt
Inside-le m n ((i, slot) ∷ outs) h a = (omega (arith, a.0, h), Inside-le m n outs h a.1)

-- A fragment of a machine of at least `n` states: only its own open slots and those that `p`
-- excuses are still to be patched.
abbrev pub Extends : (ℕ → Bool) → ℕ → List State × Fragment → Type 0
Extends p n (states, fragment) =
    (n ≤ length states)
    × (fragment.start < length states)
    × Inside (length states) fragment.outs
    × Sound (λ k. p k || dangles k fragment.outs) states

pub or_left : (a b : Bool) → a ≡ true → (a || b) ≡ true
or_left true b h = refl
or_left false b h = absurd (false≢true h)

pub single-Extends :
    (p : ℕ → Bool) (k : Kind) (states : List State)
    → Sound p states
    → Settles (Extends p (length states)) (single k states)
unfolding single dangles
single-Extends p k states sound =
    let q : ℕ → Bool = λ k. p k || dangles k ((length states, out_slot) ∷ []) in
    Settles-bind (Added q states) (Extends p (length states)) (add (state k) states) _
      (add-Added p q (state k) states sound (tt, tt) (λ k h. or_left (p k) _ h)
        (λ candidate reading. inr (ground arith)))
      λ (more, index) (here, grown, done). (
        omega (arith, grown),
        omega (arith, here, grown),
        (omega (arith, here, grown), tt),
        subst (λ n. Sound (λ k. p k || dangles k ((n, out_slot) ∷ [])) more) (sym here) done,
      )

-- A split does not read.
split-Led :
    (p : ℕ → Bool) (i : ℕ) (out out1 : Option ℕ)
    → Led p i record { kind = Machine.split; out = out; out1 = out1 }
unfolding reads
split-Led p i out out1 candidate reading = absurd (false≢true reading)

module _ (p : ℕ → Bool) (n : ℕ) (child : Fragment) (states : List State)
    (built : Extends p n (states, child)) where
  pub loop_back-Extends :
      Settles
        (λ (looped, index).
          (n ≤ length looped)
          × (child.start < length looped)
          × (index < length looped)
          × Sound p looped)
        (loop_back child states)
  unfolding loop_back
  loop_back-Extends =
      let q : ℕ → Bool = λ k. p k || dangles k child.outs in
      Settles-bind (Added q states) _ (add _ states) _
        (add-Added q q _ states built.3 (built.1, tt) (λ k h. h)
          (split-Led q (length states) (some child.start) none))
        λ (more, index) (here, grown, done).
          let (patched, run, kept, sound) =
            patch-Sound p child.outs index more
              (Inside-le (length states) (length more) child.outs (omega (arith, grown)) built.2)
              (omega (arith, here, grown)) done in
          rw run (
            omega (arith, kept, grown, built.0),
            omega (arith, kept, grown, built.1),
            omega (arith, kept, grown, here),
            sound,
          )

  pub skip-Extends : Settles (Extends p n) (skip child states)
  unfolding skip dangles
  skip-Extends =
      let q : ℕ → Bool = λ k. p k || dangles k child.outs in
      Settles-bind (Added q states) (Extends p n) (add _ states) _
        (add-Added q q _ states built.3 (built.1, tt) (λ k h. h)
          (split-Led q (length states) (some child.start) none))
        λ (more, index) (here, grown, done). (
          omega (arith, grown, built.0),
          omega (arith, here, grown),
          All-append (λ (i, slot). i < length more) child.outs ((index, out1_slot) ∷ [])
              (Inside-le (length states) (length more) child.outs (omega (arith, grown)) built.2)
              (omega (arith, here, grown), tt),
          Sound-weaken q _ more
              (λ k h. ground (arith, h, dangles-append k child.outs ((index, out1_slot) ∷ [])))
              done,
        )

-- Branches that are built and not joined yet.
unfoldable pub dangles_any : ℕ → List Fragment → Bool
dangles_any k [] = false
dangles_any k (f ∷ fragments) = dangles k f.outs || dangles_any k fragments

abbrev Branch : ℕ → Fragment → Type 0
Branch n f = (f.start < n) × Inside n f.outs

Branch-le :
    (m n : ℕ) (fragments : List Fragment)
    → m ≤ n
    → All (Branch m) fragments
    → All (Branch n) fragments
Branch-le m n [] h a = tt
Branch-le m n (f ∷ fragments) h ((first, inside), a) =
    ((omega (arith, first, h), Inside-le m n f.outs h inside), Branch-le m n fragments h a)

join-Extends :
    (p : ℕ → Bool) (n : ℕ) (result following : Fragment) (states : List State)
    → n ≤ length states
    → Branch (length states) result
    → Branch (length states) following
    → Sound (λ k. p k || (dangles k result.outs || dangles k following.outs)) states
    → Settles
        (λ after. (length states ≤ length after.0) × Extends p n after)
        (join result following states)
unfolding join
join-Extends p n result following states h r f sound =
    let q : ℕ → Bool = λ k. p k || (dangles k result.outs || dangles k following.outs) in
    Settles-bind (Added q states) _ (add _ states) _
      (add-Added q q _ states sound (r.0, f.0) (λ k h. h)
        (split-Led q (length states) (some result.start) (some following.start)))
      λ (more, index) (here, grown, done). (
        omega (arith, grown),
        (
          omega (arith, grown, h),
          omega (arith, here, grown),
          All-append (λ (i, slot). i < length more) result.outs following.outs
              (Inside-le (length states) (length more) result.outs (omega (arith, grown)) r.1)
              (Inside-le (length states) (length more) following.outs (omega (arith, grown)) f.1),
          Sound-weaken q _ more
              (λ k h. ground (arith, h, dangles-append k result.outs following.outs)) done,
        ),
      )

pub join_each-Extends :
    (p : ℕ → Bool) (n : ℕ) (result : Fragment) (fragments : List Fragment) (states : List State)
    → n ≤ length states
    → Branch (length states) result
    → All (Branch (length states)) fragments
    → Sound (λ k. p k || (dangles k result.outs || dangles_any k fragments)) states
    → Settles (Extends p n) (join_each result fragments states)
unfolding join_each dangles_any
join_each-Extends p n result [] states h r fs sound = (
  h,
  r.0,
  r.1,
  Sound-weaken (λ k. p k || (dangles k result.outs || false)) _ states (λ k h. ground (arith, h))
      sound,
)
join_each-Extends p n result (following ∷ fragments) states h r (f, fs) sound =
    let q : ℕ → Bool = λ k. p k || dangles_any k fragments in
    Settles-bind (λ after. (length states ≤ length after.0) × Extends q n after) (Extends p n)
      (join result following states) _
      (join-Extends q n result following states h r f (
        Sound-weaken
          (λ k.
            p k || (dangles k result.outs || (dangles k following.outs || dangles_any k fragments)))
          _ states (λ k h. ground (arith, h)) sound))
      λ (more, joined) (grown, (past, first, inside, done)).
        join_each-Extends p n joined fragments more past (first, inside)
          (Branch-le (length states) (length more) fragments grown fs)
          (Sound-weaken (λ k. q k || dangles k joined.outs) _ more (λ k h. ground (arith, h)) done)

-- Branches built one after the other.
abbrev pub BuiltEach : (ℕ → Bool) → ℕ → List State × List Fragment → Type 0
BuiltEach p n (states, fragments) =
    (n ≤ length states)
    × All (Branch (length states)) fragments
    × Sound (λ k. p k || dangles_any k fragments) states

-- ===== src/SafeRegex/Literal/Occurs.antt =====
-- The search for a literal, and the whole of `SafeRegex.search`, against the language of the syntax
-- tree (src/workspace_guard_mcp/safe_regex.py).
use sandboxed_workspace_mcp.Base.{
  ℕ, suc, ◌+◌, ◌≡◌, ◌≤◌, ◌↔◌, refl, sym, ap, ◌∙◌, subst, Bool, true, false, false≢true, Text, [],
  ◌∷◌, map, ◌==◌, length, drop, arith,
}
use sandboxed_workspace_mcp.SafeRegex.Machine.Positions.{drop_step}
use sandboxed_workspace_mcp.SafeRegex.Syntax.{Node, literal}
use sandboxed_workspace_mcp.SafeRegex.Language.Search.{Occurs}
use sandboxed_workspace_mcp.SafeRegex.Literal.{
  LiteralPattern, children, drop_start, drop_end, starts_with, plain_search,
}
use sandboxed_workspace_mcp.SafeRegex.Literal.Strings.{
  text_eq-to, text_eq-from, StartsAt, contains-to, contains-from, ends_with-to, ends_with-from,
}
use sandboxed_workspace_mcp.SafeRegex.Literal.Shape.{
  MatchesAll, Where, children-MatchesAll, drop_start-MatchesAll, drop_end-MatchesAll,
}
use sandboxed_workspace_mcp.SafeRegex.Literal.Folded.{
  FoldsBy, FoldsBy-drop, drop-map, length-map, nil≢cons, both_true, both_of, reads_same,
}

module _ (fold : ℕ → Text) (g : ℕ → ℕ) (t : Text) (folds : FoldsBy fold g t) where
  -- The text of the literals stands at `i`, and they end at `j`.
  abbrev Stands : Text → ℕ → ℕ → Text → Type 0
  Stands needle i j front =
      (starts_with (map g needle) (map g front) ≡ true) × (j ≡ i + length needle)

  abbrev Literals : Text → ℕ → ℕ → Type 0
  Literals needle i j = MatchesAll fold t (map literal needle) i j

  -- One more literal in front.
  one_more :
      (c : ℕ) (needle : Text) (i j : ℕ) (front : Text)
      → drop i t ≡ front
      → fold c ≡ g c ∷ []
      → (Literals needle (suc i) j ↔ Stands needle (suc i) j (drop (suc i) t))
      → Literals (c ∷ needle) i j ↔ Stands (c ∷ needle) i j front
  unfolding starts_with
  one_more c needle i j [] here hc later = (
    (λ (k, (d, rest, e, reading, moved), m). absurd (nil≢cons d rest (sym here ∙ e))),
    λ (front, last). absurd (false≢true front),
  )
  one_more c needle i j (d ∷ rest) here hc later =
      let hd = (subst (FoldsBy fold g) here (FoldsBy-drop fold g i t folds)).0 in
      let next = drop_step i d t rest here in
      (
        (λ (k, (d2, rest2, e, reading, moved), m).
            let same : d2 ≡ d = cc in
            let equal =
              sym (
                reads_same g c d2 (fold c) (fold d2) hc
                  (subst (λ d. fold d ≡ g d ∷ []) (sym same) hd))
              ∙ reading in
            let (front, last) = later.0 (subst (λ k. Literals needle k j) moved m) in
            (
              both_true (g c == g d) _ (subst (λ d. (g c == g d) ≡ true) same equal)
                  (subst (λ u. starts_with (map g needle) (map g u) ≡ true) next front),
              omega (arith, last),
            )),
        λ (front, last).
            let (equal, more) = both_of (g c == g d) _ front in
            (
              suc i,
              (d, rest, here, reads_same g c d (fold c) (fold d) hc hd ∙ equal, refl),
              later.1 (
                subst (λ u. starts_with (map g needle) (map g u) ≡ true) (sym next) more,
                omega (arith, last),
              ),
            ),
      )

  Literals-Stands :
      (needle : Text) (i j : ℕ)
      → FoldsBy fold g needle
      → Literals needle i j ↔ Stands needle i j (drop i t)
  unfolding starts_with
  Literals-Stands [] i j f =
      ((λ same. (refl, omega (arith, same))), λ (front, last). omega (arith, last))
  Literals-Stands (c ∷ needle) i j (hc, f) =
      one_more c needle i j (drop i t) refl hc (Literals-Stands needle (suc i) j f)

  -- Where a literal pattern is in place.
  abbrev pub Placed : Bool → Bool → Text → ℕ → Type 0
  Placed from_start to_end needle i =
      StartsAt (map g needle) (map g t) i
      × Where from_start (i ≡ 0)
      × Where to_end (i + length (map g needle) ≡ length (map g t))

  Stands-StartsAt :
      (needle : Text) (i j : ℕ)
      → i ≤ length t
      → Stands needle i j (drop i t)
      → StartsAt (map g needle) (map g t) i
  Stands-StartsAt needle i j low (front, last) = (
    omega (arith, low, length-map g t),
    subst (λ u. starts_with (map g needle) u ≡ true) (sym (drop-map g i t)) front,
  )

  pub shape-Placed :
      (node : Node) (needle : Text) (from_start to_end : Bool)
      → FoldsBy fold g needle
      → drop_start (children node) ≡ (from_start, (drop_start (children node)).1)
      → drop_end (drop_start (children node)).1 ≡ (to_end, map literal needle)
      → Occurs fold t node ↔ ((i : ℕ) × Placed from_start to_end needle i)
  shape-Placed node needle from_start to_end f starts ends = (
    (λ (i, j, low, m).
        let (at_start, begins) =
          (drop_start-MatchesAll fold t (children node) i j).0
            ((children-MatchesAll fold t node i j).0 m) in
        let (literals, finishes) =
          (drop_end-MatchesAll fold t (drop_start (children node)).1 i j).0 at_start in
        let stands =
          (Literals-Stands needle i j f).0
            (subst (λ ns. MatchesAll fold t ns i j) (ap (λ p. p.1) ends) literals) in
        (
          i,
          (
            Stands-StartsAt needle i j low stands,
            (λ h. begins (ap (λ p. p.0) starts ∙ h)),
            λ h. omega (
              arith,
              stands.1,
              finishes (ap (λ p. p.0) ends ∙ h),
              length-map g needle,
              length-map g t,
            ),
          ),
        )),
    λ (i, ((low, front), begins, finishes)).
        let j = i + length needle in
        let stands : Stands needle i j (drop i t) =
          (subst (λ u. starts_with (map g needle) u ≡ true) (drop-map g i t) front, refl) in
        let literals =
          subst (λ ns. MatchesAll fold t ns i j) (sym (ap (λ p. p.1) ends))
            ((Literals-Stands needle i j f).1 stands) in
        let at_start = (drop_end-MatchesAll fold t (drop_start (children node)).1 i j).1 (
          literals,
          λ h.
              omega (
                arith,
                finishes (sym (ap (λ p. p.0) ends) ∙ h),
                length-map g needle,
                length-map g t,
              ),
        ) in
        let all =
          (drop_start-MatchesAll fold t (children node) i j).1
            (at_start, λ h. begins (sym (ap (λ p. p.0) starts) ∙ h)) in
        (i, j, omega (arith, low, length-map g t), (children-MatchesAll fold t node i j).1 all),
  )

abbrev pub pattern_of : Bool → Bool → Text → LiteralPattern
pattern_of from_start to_end needle = record {
  needle = needle;
  anchored_start = from_start;
  anchored_end = to_end;
}

-- The four searches, as one condition on the place.
pub plain_search-place :
    (from_start to_end : Bool) (text n h : Text)
    → (plain_search (pattern_of from_start to_end text) n h ≡ true) ↔ (
        (i : ℕ) × StartsAt n h i
        × Where from_start (i ≡ 0)
        × Where to_end (i + length n ≡ length h))
unfolding plain_search
plain_search-place true true text n h = (
  (λ e.
      let (front, size) = text_eq-to n h e in
      (0, (omega arith, front), (λ _. refl), λ _. omega (arith, size))),
  λ (i, (low, front), starts, ends).
      let same = starts refl in
      text_eq-from n h (subst (λ i. starts_with n (drop i h) ≡ true) same front)
        (omega (arith, same, ends refl)),
)
plain_search-place true false text n h = (
  (λ e. (0, (omega arith, e), (λ _. refl), λ b. absurd (false≢true b))),
  λ (i, (low, front), starts, ends).
      subst (λ i. starts_with n (drop i h) ≡ true) (starts refl) front,
)
plain_search-place false true text n h = (
  (λ e.
      let (i, here, size) = ends_with-to n h e in
      (i, here, (λ b. absurd (false≢true b)), λ _. size)),
  λ (i, here, starts, ends). ends_with-from n h i here (ends refl),
)
plain_search-place false false text n h = (
  (λ e.
      let (i, here) = contains-to n h e in
      (i, here, (λ b. absurd (false≢true b)), λ b. absurd (false≢true b))),
  λ (i, here, starts, ends). contains-from n h i here,
)

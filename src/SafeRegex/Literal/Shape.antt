-- ===== src/SafeRegex/Literal/Shape.antt =====
-- A tree with a literal pattern: its children are literals between two anchors
-- (src/workspace_guard_mcp/safe_regex.py).
use sandboxed_workspace_mcp.Base.{
  ℕ, ◌≡◌, ◌↔◌, refl, sym, ◌∙◌, subst, Bool, true, false, false≢true, Text, List, [], ◌∷◌, length,
}
use sandboxed_workspace_mcp.SafeRegex.Syntax.{
  Node, Nodes, empty, literal, class, any, start, end, concat, alt, star, plus, optional, none_left,
  then_node,
}
use sandboxed_workspace_mcp.SafeRegex.Language.{Matches, MatchesEach}
use sandboxed_workspace_mcp.SafeRegex.Literal.{list_of, children, drop_start, add_front, drop_end}

abbrev pub Where : Bool → Type 0 → Type 0
Where b A = b ≡ true → A

module _ (fold : ℕ → Text) (t : Text) where
  -- The trees match one after the other.
  abbrev pub MatchesAll : List Node → ℕ → ℕ → Type 0
  MatchesAll [] i j = i ≡ j
  MatchesAll (n ∷ ns) i j = (k : ℕ) × Matches fold t n i k × MatchesAll ns k j

  list_of-MatchesAll :
      (ns : Nodes) (i j : ℕ) → MatchesEach fold t ns i j ↔ MatchesAll (list_of ns) i j
  unfolding list_of
  list_of-MatchesAll none_left i j = ((λ m. m), λ m. m)
  list_of-MatchesAll (then_node n ns) i j = (
    (λ (k, m, each). (k, m, (list_of-MatchesAll ns k j).0 each)),
    λ (k, m, each). (k, m, (list_of-MatchesAll ns k j).1 each),
  )

  single-MatchesAll : (n : Node) (i j : ℕ) → Matches fold t n i j ↔ MatchesAll (n ∷ []) i j
  single-MatchesAll n i j = ((λ m. (j, m, refl)), λ (k, m, same). subst (Matches fold t n i) same m)

  pub children-MatchesAll :
      (n : Node) (i j : ℕ) → Matches fold t n i j ↔ MatchesAll (children n) i j
  unfolding children
  children-MatchesAll (concat n ns) i j = (
    (λ (k, m, each). (k, m, (list_of-MatchesAll ns k j).0 each)),
    λ (k, m, each). (k, m, (list_of-MatchesAll ns k j).1 each),
  )
  children-MatchesAll empty i j = single-MatchesAll empty i j
  children-MatchesAll (literal c) i j = single-MatchesAll (literal c) i j
  children-MatchesAll (class s) i j = single-MatchesAll (class s) i j
  children-MatchesAll any i j = single-MatchesAll any i j
  children-MatchesAll start i j = single-MatchesAll start i j
  children-MatchesAll end i j = single-MatchesAll end i j
  children-MatchesAll (alt n ns) i j = single-MatchesAll (alt n ns) i j
  children-MatchesAll (star n) i j = single-MatchesAll (star n) i j
  children-MatchesAll (plus n) i j = single-MatchesAll (plus n) i j
  children-MatchesAll (optional n) i j = single-MatchesAll (optional n) i j

  same_start :
      (ns : List Node) (i j : ℕ) → MatchesAll ns i j ↔ (MatchesAll ns i j × Where false (i ≡ 0))
  same_start ns i j = ((λ m. (m, λ h. absurd (false≢true h))), λ m. m.0)

  pub drop_start-MatchesAll :
      (ns : List Node) (i j : ℕ)
      → MatchesAll ns i j ↔ (MatchesAll (drop_start ns).1 i j × Where (drop_start ns).0 (i ≡ 0))
  unfolding drop_start
  drop_start-MatchesAll [] i j = same_start [] i j
  drop_start-MatchesAll (start ∷ ns) i j = (
    (λ (k, (here, same), m). (subst (λ k. MatchesAll ns k j) (sym same) m, λ h. here)),
    λ (m, anchored). (i, (anchored refl, refl), m),
  )
  drop_start-MatchesAll (empty ∷ ns) i j = same_start (empty ∷ ns) i j
  drop_start-MatchesAll (literal c ∷ ns) i j = same_start (literal c ∷ ns) i j
  drop_start-MatchesAll (class s ∷ ns) i j = same_start (class s ∷ ns) i j
  drop_start-MatchesAll (any ∷ ns) i j = same_start (any ∷ ns) i j
  drop_start-MatchesAll (end ∷ ns) i j = same_start (end ∷ ns) i j
  drop_start-MatchesAll (concat n ms ∷ ns) i j = same_start (concat n ms ∷ ns) i j
  drop_start-MatchesAll (alt n ms ∷ ns) i j = same_start (alt n ms ∷ ns) i j
  drop_start-MatchesAll (star n ∷ ns) i j = same_start (star n ∷ ns) i j
  drop_start-MatchesAll (plus n ∷ ns) i j = same_start (plus n ∷ ns) i j
  drop_start-MatchesAll (optional n ∷ ns) i j = same_start (optional n ∷ ns) i j

  same_end :
      (ns : List Node) (i j : ℕ)
      → MatchesAll ns i j ↔ (MatchesAll ns i j × Where false (j ≡ length t))
  same_end ns i j = ((λ m. (m, λ h. absurd (false≢true h))), λ m. m.0)

  pub drop_end-MatchesAll :
      (ns : List Node) (i j : ℕ)
      → MatchesAll ns i j ↔ (MatchesAll (drop_end ns).1 i j × Where (drop_end ns).0 (j ≡ length t))
  unfolding drop_end add_front
  drop_end-MatchesAll [] i j = same_end [] i j
  drop_end-MatchesAll (end ∷ []) i j = (
    (λ (k, (here, same), last). (same ∙ last, λ h. sym last ∙ (sym same ∙ here))),
    λ (same, anchored). (j, (same ∙ anchored refl, same), refl),
  )
  drop_end-MatchesAll (start ∷ []) i j = same_end (start ∷ []) i j
  drop_end-MatchesAll (empty ∷ []) i j = same_end (empty ∷ []) i j
  drop_end-MatchesAll (literal c ∷ []) i j = same_end (literal c ∷ []) i j
  drop_end-MatchesAll (class s ∷ []) i j = same_end (class s ∷ []) i j
  drop_end-MatchesAll (any ∷ []) i j = same_end (any ∷ []) i j
  drop_end-MatchesAll (concat n ms ∷ []) i j = same_end (concat n ms ∷ []) i j
  drop_end-MatchesAll (alt n ms ∷ []) i j = same_end (alt n ms ∷ []) i j
  drop_end-MatchesAll (star n ∷ []) i j = same_end (star n ∷ []) i j
  drop_end-MatchesAll (plus n ∷ []) i j = same_end (plus n ∷ []) i j
  drop_end-MatchesAll (optional n ∷ []) i j = same_end (optional n ∷ []) i j
  drop_end-MatchesAll (n ∷ m ∷ ns) i j = (
    (λ (k, here, rest).
        let (front, last) = (drop_end-MatchesAll (m ∷ ns) k j).0 rest in ((k, here, front), last)),
    λ ((k, here, front), last). (k, here, (drop_end-MatchesAll (m ∷ ns) k j).1 (front, last)),
  )

-- ===== src/SafeRegex/CharacterSet/Matches.antt =====
-- `_CharacterSet.matches` against membership in the parser's literals and ranges
-- (src/workspace_guard_mcp/safe_regex.py).
use sandboxed_workspace_mcp.Base.{
  ℕ, ◌≡◌, refl, ap, ◌∙◌, Bool, false, not, ◌&&◌, ◌||◌, List, [], ◌∷◌, ◌++◌, map, Text, text_in, leb,
  if◌then◌else◌, arith, Bool-cases, inl, inr,
}
use sandboxed_workspace_mcp.SafeRegex.CharacterSet.{
  Ranges, folded_range, normalize, sort_ranges, merge_ranges, compile, in_ranges, matches,
}
use sandboxed_workspace_mcp.SafeRegex.CharacterSet.Ranges.{
  any_range, found_at-any_range, merge_ranges-Separate, merge_ranges-any,
}
use sandboxed_workspace_mcp.SafeRegex.CharacterSet.Sorted.{
  Forward, sort_ranges-Ordered, sort_ranges-any,
}

folded_range-Forward : (s t : Text) (rs : Ranges) → Forward rs → Forward (folded_range s t ++ rs)
unfolding folded_range
folded_range-Forward (a ∷ []) (b ∷ []) rs f = elim (Bool-cases (leb a b)) [
  | inl forward ↦ rw forward (ground arith, f)
  | inr reversed ↦ rw reversed f
]
folded_range-Forward [] t rs f = f
folded_range-Forward (a ∷ []) [] rs f = f
folded_range-Forward (a ∷ []) (b ∷ d ∷ more) rs f = f
folded_range-Forward (a ∷ c ∷ more) t rs f = f

normalize-Forward : (fold : ℕ → Text) (rs : Ranges) → Forward (normalize fold rs)
unfolding normalize
normalize-Forward fold [] = tt
normalize-Forward fold ((a, b) ∷ rs) =
    folded_range-Forward (fold a) (fold b) (normalize fold rs) (normalize-Forward fold rs)

-- The reference: a character is one of the folded literals, or it is one code point between the
-- folded ends of a range that are single characters themselves.
abbrev pub between : Text → Text → ℕ → Bool
between (a ∷ []) (b ∷ []) c = leb a c && leb c b
between _ _ c = false

abbrev pub any_between : (ℕ → Text) → Ranges → ℕ → Bool
any_between fold [] c = false
any_between fold ((a, b) ∷ rs) c = between (fold a) (fold b) c || any_between fold rs c

folded_range-between :
    (s t : Text) (rs : Ranges) (c : ℕ)
    → any_range (folded_range s t ++ rs) c ≡ (between s t c || any_range rs c)
unfolding folded_range any_range
folded_range-between (a ∷ []) (b ∷ []) rs c = elim (Bool-cases (leb a b)) [
  | inl forward ↦ rw forward refl
  | inr reversed ↦ rw reversed (ground arith)
]
folded_range-between [] t rs c = refl
folded_range-between (a ∷ []) [] rs c = refl
folded_range-between (a ∷ []) (b ∷ d ∷ more) rs c = refl
folded_range-between (a ∷ x ∷ more) t rs c = refl

normalize-between :
    (fold : ℕ → Text) (rs : Ranges) (c : ℕ)
    → any_range (normalize fold rs) c ≡ any_between fold rs c
unfolding normalize any_range
normalize-between fold [] c = refl
normalize-between fold ((a, b) ∷ rs) c =
    folded_range-between (fold a) (fold b) (normalize fold rs) c
    ∙ ap (λ r. between (fold a) (fold b) c || r) (normalize-between fold rs c)

abbrev pub in_any : (ℕ → Text) → Ranges → Text → Bool
in_any fold ranges (c ∷ []) = any_between fold ranges c
in_any fold ranges _ = false

abbrev pub belongs : (ℕ → Text) → List ℕ → Ranges → Text → Bool
belongs fold literals ranges character =
    text_in character (map fold literals) || in_any fold ranges character

module _ (fold : ℕ → Text) (literals : List ℕ) (ranges : Ranges) (negated : Bool) where
  in_ranges-eq :
      (character : Text)
      → in_ranges character (compile fold literals ranges negated) ≡ in_any fold ranges character
  unfolding in_ranges compile
  in_ranges-eq (c ∷ []) =
      let ordered = sort_ranges-Ordered (normalize fold ranges) (normalize-Forward fold ranges) in
      found_at-any_range (merge_ranges (sort_ranges (normalize fold ranges))) c
        (merge_ranges-Separate _ ordered)
      ∙ (merge_ranges-any _ c ordered
          ∙ (sort_ranges-any (normalize fold ranges) c ∙ normalize-between fold ranges c))
  in_ranges-eq [] = refl
  in_ranges-eq (c ∷ d ∷ rest) = refl

  -- Sorting, merging and searching the ranges lose nothing: a character set matches exactly the texts
  -- that are one of the folded literals, or one code point between the folded ends of a range whose
  -- ends both fold to a single character, or exactly the others if it is negated.
  pub matches-belongs :
      (character : Text)
      → matches (compile fold literals ranges negated) character ≡ (
          if negated
          then not (belongs fold literals ranges character)
          else belongs fold literals ranges character)
  unfolding matches compile
  matches-belongs character =
      ap
        (λ b.
          if negated
          then not (text_in character (map fold literals) || b)
          else text_in character (map fold literals) || b)
        (in_ranges-eq character)

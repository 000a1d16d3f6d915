-- ===== src/SafeRegex/CharacterSet/Ranges.antt =====
-- The search among sorted and separate ranges.
use sandboxed_workspace_mcp.Base.{
  ℕ, zero, suc, ◌+◌, ◌≡◌, ◌≤◌, ◌<◌, refl, sym, ap, ◌∙◌, Bool, false, ◌&&◌, ◌||◌, [], ◌∷◌, leb,
  arith, Bool-cases, inl, inr, max,
}
use sandboxed_workspace_mcp.SafeRegex.CharacterSet.{
  Ranges, starts_of, bisect_right, range_at, ends_after, found_at, merge_from, merge_ranges,
}

-- The reference: a character is in one of the ranges.
unfoldable pub any_range : Ranges → ℕ → Bool
any_range [] c = false
any_range ((a, b) ∷ rs) c = leb a c && leb c b || any_range rs c

-- Every range starts after `n`.
abbrev pub After : ℕ → Ranges → Type 0
After n [] = Unit
After n ((a, b) ∷ rs) = (n < a) × After n rs

abbrev pub Separate : Ranges → Type 0
Separate [] = Unit
Separate ((a, b) ∷ rs) = (a ≤ b) × After b rs × Separate rs

none_reached : (n c : ℕ) (rs : Ranges) → c ≤ n → After n rs → any_range rs c ≡ false
unfolding any_range
none_reached n c [] h a = refl
none_reached n c ((x, y) ∷ rs) h a = ground (arith, none_reached n c rs h a.1)

bisect_none : (n c : ℕ) (rs : Ranges) → c ≤ n → After n rs → bisect_right (starts_of rs) c ≡ 0
unfolding bisect_right
bisect_none n c [] h a = refl
bisect_none n c ((x, y) ∷ rs) h a = ground arith

past_first :
    (n c a b : ℕ) (rs : Ranges)
    → leb c b ≡ false
    → found_at (suc n) ((a, b) ∷ rs) c ≡ found_at n rs c
unfolding found_at range_at ends_after
past_first zero c a b rs h = h
past_first (suc n) c a b rs h = refl

at_first : (c a b : ℕ) (rs : Ranges) → found_at 1 ((a, b) ∷ rs) c ≡ leb c b
unfolding found_at range_at ends_after
at_first c a b rs = refl

-- The binary search finds the one range that can hold the character.
pub found_at-any_range :
    (rs : Ranges) (c : ℕ)
    → Separate rs
    → found_at (bisect_right (starts_of rs) c) rs c ≡ any_range rs c
unfolding bisect_right any_range found_at
found_at-any_range [] c h = refl
found_at-any_range ((a, b) ∷ rs) c h = elim (Bool-cases (leb a c)) [
  | inr low ↦ rw low (sym (none_reached b c rs (ground (arith, h.0)) h.1))
  | inl high ↦ elim (Bool-cases (leb c b)) [
    | inl inside ↦
        rw (high, inside)
          (ap (λ n. found_at (suc n) ((a, b) ∷ rs) c) (bisect_none b c rs (ground arith) h.1)
            ∙ (at_first c a b rs ∙ inside))
    | inr outside ↦
        rw (high, outside)
          (past_first (bisect_right (starts_of rs) c) c a b rs outside
            ∙ found_at-any_range rs c h.2)
  ]
]

-- Starts in ascending order, and no range reversed.
abbrev pub From : ℕ → Ranges → Type 0
From n [] = Unit
From n ((a, b) ∷ rs) = (n ≤ a) × From n rs

abbrev pub Ordered : Ranges → Type 0
Ordered [] = Unit
Ordered ((a, b) ∷ rs) = (a ≤ b) × From a rs × Ordered rs

pub From-le : (m n : ℕ) (rs : Ranges) → m ≤ n → From n rs → From m rs
From-le m n [] h f = tt
From-le m n ((a, b) ∷ rs) h f = (omega (arith, f.0, h), From-le m n rs h f.1)

merge_from-From :
    (n start end : ℕ) (rs : Ranges) → n ≤ start → From n rs → From n (merge_from start end rs)
unfolding merge_from
merge_from-From n start end [] h f = (h, tt)
merge_from-From n start end ((a, b) ∷ rs) h f = elim (Bool-cases (leb a (end + 1))) [
  | inl joined ↦ rw joined (merge_from-From n start (max end b) rs h f.1)
  | inr apart ↦ rw apart (h, merge_from-From n a b rs f.0 f.1)
]

From-After : (m n : ℕ) (rs : Ranges) → m < n → From n rs → After m rs
From-After m n [] h f = tt
From-After m n ((a, b) ∷ rs) h f = (omega (arith, f.0, h), From-After m n rs h f.1)

merge_from-Separate :
    (start end : ℕ) (rs : Ranges)
    → start ≤ end
    → From start rs
    → Ordered rs
    → Separate (merge_from start end rs)
unfolding merge_from
merge_from-Separate start end [] h f o = (h, tt, tt)
merge_from-Separate start end ((a, b) ∷ rs) h f o = elim (Bool-cases (leb a (end + 1))) [
  | inl joined ↦ rw joined (merge_from-Separate start (max end b) rs (omega (arith, h)) f.1 o.2)
  | inr apart ↦ rw apart (
    h,
    From-After end a _ (ground arith) (merge_from-From a a b rs (omega arith) o.1),
    merge_from-Separate a b rs o.0 o.1 o.2,
  )
]

merge_from-any :
    (start end c : ℕ) (rs : Ranges)
    → start ≤ end
    → From start rs
    → Ordered rs
    → any_range (merge_from start end rs) c ≡ (leb start c && leb c end || any_range rs c)
unfolding merge_from any_range
merge_from-any start end c [] h f o = refl
merge_from-any start end c ((a, b) ∷ rs) h f o = elim (Bool-cases (leb a (end + 1))) [
  | inl joined ↦
      rw joined (
        merge_from-any start (max end b) c rs (omega (arith, h)) f.1 o.2 ∙ ground (arith, f.0, o.0))
  | inr apart ↦
      rw apart (ap (λ r. leb start c && leb c end || r) (merge_from-any a b c rs o.0 o.1 o.2))
]

pub merge_ranges-Separate : (rs : Ranges) → Ordered rs → Separate (merge_ranges rs)
unfolding merge_ranges
merge_ranges-Separate [] o = tt
merge_ranges-Separate ((a, b) ∷ rs) o = merge_from-Separate a b rs o.0 o.1 o.2

pub merge_ranges-any :
    (rs : Ranges) (c : ℕ) → Ordered rs → any_range (merge_ranges rs) c ≡ any_range rs c
unfolding merge_ranges any_range
merge_ranges-any [] c o = refl
merge_ranges-any ((a, b) ∷ rs) c o = merge_from-any a b c rs o.0 o.1 o.2

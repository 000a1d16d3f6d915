-- ===== src/SafeRegex/CharacterSet/Sorted.antt =====
-- Sorting the ranges of a character set.
use sandboxed_workspace_mcp.Base.{
  ℕ, ◌≡◌, ◌≤◌, refl, ap, ◌∙◌, true, false, ◌&&◌, ◌||◌, [], ◌∷◌, leb, arith, Bool-cases, inl, inr,
}
use sandboxed_workspace_mcp.SafeRegex.CharacterSet.{Ranges, before, insert_range, sort_ranges}
use sandboxed_workspace_mcp.SafeRegex.CharacterSet.Ranges.{any_range, From, Ordered, From-le}

-- No range is reversed.
abbrev pub Forward : Ranges → Type 0
Forward [] = Unit
Forward ((a, b) ∷ rs) = (a ≤ b) × Forward rs

insert_range-any :
    (a b c : ℕ) (rs : Ranges)
    → any_range (insert_range (a, b) rs) c ≡ (leb a c && leb c b || any_range rs c)
unfolding insert_range any_range
insert_range-any a b c [] = refl
insert_range-any a b c ((x, y) ∷ rs) = ground (arith, insert_range-any a b c rs)

insert_range-From : (n a b : ℕ) (rs : Ranges) → n ≤ a → From n rs → From n (insert_range (a, b) rs)
unfolding insert_range
insert_range-From n a b [] h f = (h, tt)
insert_range-From n a b ((x, y) ∷ rs) h f = elim (Bool-cases (before (a, b) (x, y))) [
  | inl first ↦ rw first (h, f)
  | inr later ↦ rw later (f.0, insert_range-From n a b rs h f.1)
]

before_le : (a b x y : ℕ) → before (a, b) (x, y) ≡ true → a ≤ x
unfolding before
before_le a b x y h = ground arith

after_le : (a b x y : ℕ) → before (a, b) (x, y) ≡ false → x ≤ a
unfolding before
after_le a b x y h = ground arith

insert_range-Ordered :
    (a b : ℕ) (rs : Ranges) → a ≤ b → Ordered rs → Ordered (insert_range (a, b) rs)
unfolding insert_range
insert_range-Ordered a b [] h o = (h, tt, tt)
insert_range-Ordered a b ((x, y) ∷ rs) h o = elim (Bool-cases (before (a, b) (x, y))) [
  | inl first ↦
      rw first (h, (before_le a b x y first, From-le a x rs (before_le a b x y first) o.1), o)
  | inr later ↦ rw later (
    o.0,
    insert_range-From x a b rs (after_le a b x y later) o.1,
    insert_range-Ordered a b rs h o.2,
  )
]

pub sort_ranges-Ordered : (rs : Ranges) → Forward rs → Ordered (sort_ranges rs)
unfolding sort_ranges
sort_ranges-Ordered [] f = tt
sort_ranges-Ordered ((a, b) ∷ rs) f = insert_range-Ordered a b _ f.0 (sort_ranges-Ordered rs f.1)

pub sort_ranges-any : (rs : Ranges) (c : ℕ) → any_range (sort_ranges rs) c ≡ any_range rs c
unfolding sort_ranges any_range
sort_ranges-any [] c = refl
sort_ranges-any ((a, b) ∷ rs) c =
    insert_range-any a b c (sort_ranges rs)
    ∙ ap (λ r. leb a c && leb c b || r) (sort_ranges-any rs c)

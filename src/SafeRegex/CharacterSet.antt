-- ===== src/SafeRegex/CharacterSet.antt =====
-- `_CharacterSet` of src/workspace_guard_mcp/safe_regex.py. A character is a code point and a text of
-- length one; `fold` is `str.casefold` where case is ignored, and the text itself where it is not.
pub mod Ranges
pub mod Sorted
pub mod Matches
use sandboxed_workspace_mcp.Base.{
  ℕ, zero, suc, ◌+◌, ◌-◌, Bool, true, false, not, ◌&&◌, ◌||◌, Option, none, some, Text, text_in,
  List, [], ◌∷◌, ◌++◌, map, leb, ltb, ◌==◌, if◌then◌else◌, max,
}

abbrev pub Ranges : Type 0
Ranges = List (ℕ × ℕ)

pub record CharacterSet : Type 0 where
  pub literals : List Text
  pub ranges : Ranges
  pub range_starts : List ℕ
  pub negated : Bool

-- The body of the loop over the ranges that the parser hands over.
unfoldable pub folded_range : Text → Text → Ranges
folded_range (a ∷ []) (b ∷ []) = if leb a b then (a, b) ∷ [] else []
folded_range _ _ = []

unfoldable pub normalize : (ℕ → Text) → Ranges → Ranges
normalize fold [] = []
normalize fold ((a, b) ∷ rs) = folded_range (fold a) (fold b) ++ normalize fold rs

-- `normalized_ranges.sort()`: pairs in lexicographic order.
unfoldable pub before : ℕ × ℕ → ℕ × ℕ → Bool
before (a, b) (c, d) = ltb a c || a == c && leb b d

unfoldable pub insert_range : ℕ × ℕ → Ranges → Ranges
insert_range r [] = r ∷ []
insert_range r (q ∷ qs) =
    let later = insert_range r qs in if before r q then r ∷ q ∷ qs else q ∷ later

unfoldable pub sort_ranges : Ranges → Ranges
sort_ranges [] = []
sort_ranges (r ∷ rs) = insert_range r (sort_ranges rs)

-- The merging loop; `(start, end)` is `merged_ranges[-1]`.
unfoldable pub merge_from : ℕ → ℕ → Ranges → Ranges
merge_from start end [] = (start, end) ∷ []
merge_from start end ((a, b) ∷ rs) =
    let joined = merge_from start (max end b) rs in
    let apart = merge_from a b rs in if leb a (end + 1) then joined else (start, end) ∷ apart

unfoldable pub merge_ranges : Ranges → Ranges
merge_ranges [] = []
merge_ranges ((a, b) ∷ rs) = merge_from a b rs

abbrev pub starts_of : Ranges → List ℕ
starts_of [] = []
starts_of ((a, b) ∷ rs) = a ∷ starts_of rs

unfoldable pub compile : (ℕ → Text) → List ℕ → Ranges → Bool → CharacterSet
compile fold literals ranges negated =
    let merged = merge_ranges (sort_ranges (normalize fold ranges)) in
    record {
      literals = map fold literals;
      ranges = merged;
      range_starts = starts_of merged;
      negated = negated;
    }

-- `bisect_right` on an ascending list.
unfoldable pub bisect_right : List ℕ → ℕ → ℕ
bisect_right [] c = 0
bisect_right (a ∷ starts) c = let more = bisect_right starts c in if leb a c then suc more else 0

unfoldable pub range_at : Ranges → ℕ → Option (ℕ × ℕ)
range_at [] n = none
range_at (r ∷ rs) zero = some r
range_at (r ∷ rs) (suc n) = range_at rs n

-- `range_index >= 0 and codepoint <= self.ranges[range_index][1]`
unfoldable pub ends_after : ℕ → Option (ℕ × ℕ) → Bool
ends_after c none = false
ends_after c (some (a, b)) = leb c b

unfoldable pub found_at : ℕ → Ranges → ℕ → Bool
found_at zero ranges c = false
found_at (suc index) ranges c = ends_after c (range_at ranges index)

unfoldable pub in_ranges : Text → CharacterSet → Bool
in_ranges (c ∷ []) s = found_at (bisect_right s.range_starts c) s.ranges c
in_ranges _ s = false

unfoldable pub matches : CharacterSet → Text → Bool
matches s character =
    let matched = text_in character s.literals || in_ranges character s in
    if s.negated then not matched else matched

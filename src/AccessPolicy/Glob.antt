-- ===== src/AccessPolicy/Glob.antt =====
-- `_glob_regex` (src/workspace_guard_mcp/access_policy.py): no character of the glob is lost.
use sandboxed_workspace_mcp.Base.{
  ℕ, zero, suc, ◌≡◌, ◌≤◌, refl, ap, ◌∙◌, Option, none, some, Text, text, List, [], ◌∷◌, ◌++◌, ◌==◌,
  length, length-append, arith, Bool-cases, Option-cases, inl, inr,
}
use sandboxed_workspace_mcp.AccessPolicy.{
  Piece, below, directories, anything, segment, one, exact, strip_prefix, single_piece, two_stars,
  leading_directories, final_stars, next_piece, prepend, glob_pieces, glob_regex,
}

-- The wildcard or the character that a piece stands for.
unfoldable pub source_of : Piece → Text
source_of below = text "/**"
source_of directories = text "**/"
source_of anything = text "**"
source_of segment = text "*"
source_of one = text "?"
source_of (exact c) = c ∷ []

unfoldable pub printed : List Piece → Text
printed [] = []
printed (piece ∷ pieces) = source_of piece ++ printed pieces

none≢some : (left : Text) → ¬ (Path (Option Text) none (some left))
none≢some left h = cc

strip_prefix-eq : (prefix t left : Text) → strip_prefix prefix t ≡ some left → prefix ++ left ≡ t
unfolding strip_prefix
strip_prefix-eq [] t left h = cc
strip_prefix-eq (p ∷ prefix) [] left h = absurd cc
strip_prefix-eq (p ∷ prefix) (c ∷ t) left h = elim (Bool-cases (p == c)) [
  | inl same ↦
      let rest = strip_prefix-eq prefix t left (rw same at h) in
      let here : p ≡ c = ground arith in cc
  | inr other ↦ absurd (none≢some left (rw other at h))
]

-- What a round appends and leaves, against the text that it met.
abbrev Splits : Text → Piece × Text → Type 0
Splits t (piece, left) = source_of piece ++ left ≡ t

single_piece-Splits : (c : ℕ) (rest : Text) → Splits (c ∷ rest) (single_piece c, rest)
unfolding single_piece source_of
single_piece-Splits c rest = elim (Bool-cases (c == b'*')) [
  | inl star ↦ rw star (ap (λ d. d ∷ rest) (ground arith))
  | inr other ↦ elim (Bool-cases (c == b'?')) [
    | inl mark ↦ rw (other, mark) (ap (λ d. d ∷ rest) (ground arith))
    | inr plain ↦ rw (other, plain) refl
  ]
]

two_stars-Splits :
    (c : ℕ) (rest : Text)
    → Splits (c ∷ rest) (two_stars c rest (strip_prefix (text "**") (c ∷ rest)))
unfolding two_stars source_of
two_stars-Splits c rest = elim (Option-cases (strip_prefix (text "**") (c ∷ rest))) [
  | inl other ↦ rw other (single_piece-Splits c rest)
  | inr (left, found) ↦ rw found (strip_prefix-eq (text "**") (c ∷ rest) left found)
]

leading_directories-Splits :
    (c : ℕ) (rest : Text)
    → Splits (c ∷ rest) (leading_directories c rest (strip_prefix (text "**/") (c ∷ rest)))
unfolding leading_directories source_of
leading_directories-Splits c rest = elim (Option-cases (strip_prefix (text "**/") (c ∷ rest))) [
  | inl other ↦ rw other (two_stars-Splits c rest)
  | inr (left, found) ↦ rw found (strip_prefix-eq (text "**/") (c ∷ rest) left found)
]

final_stars-Splits :
    (c : ℕ) (rest : Text) (o : Option Text)
    → strip_prefix (text "/**") (c ∷ rest) ≡ o
    → Splits (c ∷ rest) (final_stars c rest o)
unfolding final_stars source_of
final_stars-Splits c rest (some []) found = strip_prefix-eq (text "/**") (c ∷ rest) [] found
final_stars-Splits c rest (some (d ∷ left)) found = leading_directories-Splits c rest
final_stars-Splits c rest none found = leading_directories-Splits c rest

next_piece-Splits : (c : ℕ) (rest : Text) → Splits (c ∷ rest) (next_piece c rest)
unfolding next_piece
next_piece-Splits c rest = final_stars-Splits c rest _ refl

source_of-length : (piece : Piece) → 1 ≤ length (source_of piece)
unfolding source_of
source_of-length below = omega arith
source_of-length directories = omega arith
source_of-length anything = omega arith
source_of-length segment = omega arith
source_of-length one = omega arith
source_of-length (exact c) = omega arith

next_piece-length : (c : ℕ) (rest : Text) → length (next_piece c rest).1 ≤ length rest
next_piece-length c rest =
    let (piece, left) = next_piece c rest in
    omega (
      arith,
      source_of-length piece,
      length-append (source_of piece) left,
      ap length (next_piece-Splits c rest),
    )

glob_pieces-printed :
    (fuel : ℕ) (pattern : Text)
    → length pattern ≤ fuel
    → (pieces : List Piece) × (glob_pieces fuel pattern ≡ some pieces) × (printed pieces ≡ pattern)
unfolding glob_pieces prepend printed
glob_pieces-printed fuel [] h = ([], refl, refl)
glob_pieces-printed zero (c ∷ rest) h = absurd (omega (arith, h))
glob_pieces-printed (suc fuel) (c ∷ rest) h =
    let piece = (next_piece c rest).0 in
    let left = (next_piece c rest).1 in
    let (pieces, run, same) =
      glob_pieces-printed fuel left (omega (arith, h, next_piece-length c rest)) in
    rw run (piece ∷ pieces, refl, ap (λ t. source_of piece ++ t) same ∙ next_piece-Splits c rest)

-- The translation of a glob returns for every text, and its pieces, each written as the wildcard or
-- the character that it stands for, are the glob itself.
pub glob_regex-printed :
    (pattern : Text)
    → (pieces : List Piece) × (glob_regex pattern ≡ some pieces) × (printed pieces ≡ pattern)
unfolding glob_regex
glob_regex-printed pattern = glob_pieces-printed (length pattern) pattern (omega arith)

-- ===== src/AccessPolicy.antt =====
-- src/workspace_guard_mcp/access_policy.py: the translation of a glob, and `AccessPolicy`.
--
-- A translated glob is the list of the pieces of its regular expression; `fullmatch` is the regular
-- expression library on such a list, and `parts` gives the parts of a `PurePosixPath`.
pub mod Glob
pub mod Blocked
use sandboxed_workspace_mcp.Base.{
  is_nil, ℕ, zero, suc, Bool, true, false, not, ◌&&◌, ◌||◌, Option, none, some, Text, text, text_in,
  List, [], ◌∷◌, ◌++◌, ◌==◌, if◌then◌else◌, length,
}

-- `(?:/.*)?`, `(?:[^/]+/)*`, `.*`, `[^/]*`, `[^/]` and an escaped character.
pub data Piece : Type 0 where
  below : Piece
  directories : Piece
  anything : Piece
  segment : Piece
  one : Piece
  exact : ℕ → Piece

-- The text after a prefix, if it has that prefix: `pattern.startswith(prefix, index)`.
unfoldable pub strip_prefix : Text → Text → Option Text
strip_prefix [] t = some t
strip_prefix (p ∷ prefix) [] = none
strip_prefix (p ∷ prefix) (c ∷ t) =
    let more = strip_prefix prefix t in if p == c then more else none

unfoldable pub single_piece : ℕ → Piece
single_piece c = if c == b'*' then segment else if c == b'?' then one else exact c

unfoldable pub two_stars : ℕ → Text → Option Text → Piece × Text
two_stars c rest (some left) = (anything, left)
two_stars c rest none = (single_piece c, rest)

unfoldable pub leading_directories : ℕ → Text → Option Text → Piece × Text
leading_directories c rest (some left) = (directories, left)
leading_directories c rest none = two_stars c rest (strip_prefix (text "**") (c ∷ rest))

unfoldable pub final_stars : ℕ → Text → Option Text → Piece × Text
final_stars c rest (some []) = (below, [])
final_stars c rest (some (d ∷ left)) =
    leading_directories c rest (strip_prefix (text "**/") (c ∷ rest))
final_stars c rest none = leading_directories c rest (strip_prefix (text "**/") (c ∷ rest))

-- The body of the loop, at the character `c`: what it appends, and the text that is left.
unfoldable pub next_piece : ℕ → Text → Piece × Text
next_piece c rest = final_stars c rest (strip_prefix (text "/**") (c ∷ rest))

unfoldable pub prepend : Piece → Option (List Piece) → Option (List Piece)
prepend piece none = none
prepend piece (some pieces) = some (piece ∷ pieces)

-- A round drops a varying number of characters, so the loop runs on fuel.
unfoldable pub glob_pieces : ℕ → Text → Option (List Piece)
glob_pieces fuel [] = some []
glob_pieces zero (c ∷ rest) = none
glob_pieces (suc fuel) (c ∷ rest) =
    let (piece, left) = next_piece c rest in prepend piece (glob_pieces fuel left)

unfoldable pub glob_regex : Text → Option (List Piece)
glob_regex pattern = glob_pieces (length pattern) pattern

-- `"/" in pattern`
unfoldable pub has_slash : Text → Bool
has_slash [] = false
has_slash (c ∷ rest) = c == b'/' || has_slash rest

pub record Rule : Type 0 where
  pub pattern : Text
  pub expression : List Piece
  pub basename_only : Bool

unfoldable pub rule_of : Text → Option Rule
rule_of pattern = elim (glob_regex pattern) [
  | none ↦ none
  | some pieces ↦
      some
        record { pattern = pattern; expression = pieces; basename_only = not (has_slash pattern) }
]

unfoldable pub consed : Option Rule → Option (List Rule) → Option (List Rule)
consed (some rule) (some rules) = some (rule ∷ rules)
consed _ _ = none

-- `AccessPolicy.__init__`
unfoldable pub rules_of : List Text → Option (List Rule)
rules_of [] = some []
rules_of (pattern ∷ patterns) = consed (rule_of pattern) (rules_of patterns)

abbrev pub safe_env_example_names : List Text
safe_env_example_names = text ".env.example" ∷ text ".env.sample" ∷ text ".env.template" ∷ []

-- `answer is not None`
unfoldable pub is_some : Option Text → Bool
is_some none = false
is_some (some answer) = true

-- The part is passed over: an example of an environment file, at the end of the path.
unfoldable pub is_exempt : Rule → Text → Bool → Bool
is_exempt rule part last =
    text_in rule.pattern (text ".env.*" ∷ []) && (text_in part safe_env_example_names && last)

-- `"/".join(parts)`
unfoldable pub joined : List Text → Text
joined [] = []
joined (part ∷ []) = part
joined (part ∷ next ∷ rest) = part ++ b'/' ∷ joined (next ∷ rest)

module _ (fullmatch : List Piece → Text → Bool) where
  -- The loop over the parts, for a rule without a slash.
  unfoldable pub blocks_part : Rule → List Text → Bool
  blocks_part rule [] = false
  blocks_part rule (part ∷ rest) =
      not (is_exempt rule part (is_nil rest)) && fullmatch rule.expression part
      || blocks_part rule rest

  -- The loop over the ancestors, for a rule with a slash; `front` has the parts before.
  unfoldable pub blocks_ancestor : Rule → List Text → List Text → Bool
  blocks_ancestor rule front [] = false
  blocks_ancestor rule front (part ∷ rest) =
      let ancestor = front ++ part ∷ [] in
      fullmatch rule.expression (joined ancestor) || blocks_ancestor rule ancestor rest

  unfoldable pub blocks : Rule → List Text → Bool
  blocks rule path =
      if rule.basename_only then blocks_part rule path else blocks_ancestor rule [] path

  -- The loop over the rules.
  unfoldable pub first_blocking : List Rule → List Text → Option Text
  first_blocking [] path = none
  first_blocking (rule ∷ rules) path =
      let later = first_blocking rules path in if blocks rule path then some rule.pattern else later

  module _ (parts : Text → List Text) where
    unfoldable pub blocking_pattern : List Rule → Text → Option Text
    blocking_pattern rules relative_path =
        if text_in relative_path ([] ∷ text "." ∷ [])
        then none
        else first_blocking rules (parts relative_path)

    unfoldable pub is_blocked : List Rule → Text → Bool
    is_blocked rules relative_path = is_some (blocking_pattern rules relative_path)

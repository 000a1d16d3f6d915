-- ===== src/Tests/PolicyRuns.antt =====
-- The theorems on the access policy, applied to one rule, with a matcher of globs without wildcards
-- and a splitting of paths at the slashes.
use sandboxed_workspace_mcp.Base.{
  ◌≡◌, refl, Bool, true, Text, Text-discrete, text, text_in, List, [], ◌∷◌, ◌++◌, ◌==◌,
  if◌then◌else◌,
}
use sandboxed_workspace_mcp.AccessPolicy.{
  Piece, exact, Rule, is_exempt, blocks_part, blocks, first_blocking, blocking_pattern, is_some,
  is_blocked,
}
use sandboxed_workspace_mcp.AccessPolicy.Glob.{printed, source_of}
use sandboxed_workspace_mcp.AccessPolicy.Blocked.{RootHasNoParts, is_blocked-below}

abbrev same_text : List Piece → Text → Bool
same_text pieces t = text_in t (printed pieces ∷ [])

-- A part is kept if it is neither empty nor the current directory.
abbrev keep_part : Text → List Text → List Text
keep_part part rest = if text_in part ([] ∷ text "." ∷ []) then rest else part ∷ rest

abbrev split_from : Text → Text → List Text
split_from part [] = keep_part part []
split_from part (c ∷ rest) =
    let next = split_from [] rest in
    let same = split_from (part ++ c ∷ []) rest in if c == b'/' then keep_part part next else same

abbrev split_parts : Text → List Text
split_parts t = split_from [] t

abbrev git_rule : Rule
git_rule = record {
  pattern = text ".git";
  expression = exact b'.' ∷ exact b'g' ∷ exact b'i' ∷ exact b't' ∷ [];
  basename_only = true;
}

root_parts_empty : RootHasNoParts split_parts
unfolding text_in Text-discrete
root_parts_empty = (refl, refl)

git_blocked : is_blocked same_text split_parts (git_rule ∷ []) (text "a/.git") ≡ true
unfolding is_blocked is_some blocking_pattern first_blocking blocks blocks_part is_exempt text_in
    Text-discrete printed source_of
git_blocked = refl

inside_git : split_parts (text "a/.git/config") ≡ split_parts (text "a/.git") ++ text "config" ∷ []
unfolding text_in Text-discrete
inside_git = refl

is_blocked-below_example :
    is_blocked same_text split_parts (git_rule ∷ []) (text "a/.git/config") ≡ true
is_blocked-below_example =
    is_blocked-below same_text split_parts root_parts_empty (git_rule ∷ []) (text "a/.git")
      (text "a/.git/config") (text "config" ∷ []) inside_git git_blocked

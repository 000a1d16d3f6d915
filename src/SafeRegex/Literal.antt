-- ===== src/SafeRegex/Literal.antt =====
-- `_extract_literal_pattern`, the object that `SafeRegex.__init__` builds, and the whole of
-- `SafeRegex.search` (src/workspace_guard_mcp/safe_regex.py). `casefold` is `str.casefold` on one
-- character. The search lowers ASCII text only. `should_stop` is asked once where a literal is
-- searched for, and `stops 0` is the answer.
pub mod Strings
pub mod Shape
pub mod Folded
pub mod Occurs
pub mod Search
use sandboxed_workspace_mcp.Base.{
  ℕ, zero, suc, ◌+◌, Bool, true, false, not, ◌&&◌, ◌||◌, Option, none, some, Text, List, [], ◌∷◌,
  map, ◌==◌, leb, ltb, if◌then◌else◌, is_nil, Result, ok, err, ◌>>=◌,
}
use sandboxed_workspace_mcp.SafeRegex.Machine.{State, RegexError, search_states}
use sandboxed_workspace_mcp.SafeRegex.Syntax.{
  Node, Nodes, empty, literal, class, any, start, end, concat, alt, star, plus, optional, none_left,
  then_node,
}
use sandboxed_workspace_mcp.SafeRegex.Build.{build_machine}
use sandboxed_workspace_mcp.SafeRegex.Parser.{read_pattern}

pub record LiteralPattern : Type 0 where
  pub needle : Text
  pub anchored_start : Bool
  pub anchored_end : Bool

unfoldable pub list_of : Nodes → List Node
list_of none_left = []
list_of (then_node n ns) = n ∷ list_of ns

-- `list(node[1:]) if node[0] == "concat" else [node]`
unfoldable pub children : Node → List Node
children (concat n ns) = n ∷ list_of ns
children n = n ∷ []

unfoldable pub drop_start : List Node → Bool × List Node
drop_start (start ∷ ns) = (true, ns)
drop_start ns = (false, ns)

unfoldable pub add_front : Node → Bool × List Node → Bool × List Node
add_front n (anchored, ns) = (anchored, n ∷ ns)

unfoldable pub drop_end : List Node → Bool × List Node
drop_end [] = (false, [])
drop_end (end ∷ []) = (true, [])
drop_end (n ∷ []) = (false, n ∷ [])
drop_end (n ∷ m ∷ ns) = add_front n (drop_end (m ∷ ns))

unfoldable pub add_character : ℕ → Option Text → Option Text
add_character c none = none
add_character c (some needle) = some (c ∷ needle)

unfoldable pub literals_of : List Node → Option Text
literals_of [] = some []
literals_of (literal c ∷ ns) = add_character c (literals_of ns)
literals_of (n ∷ ns) = none

unfoldable pub literal_from : Bool → Bool → Option Text → Option LiteralPattern
literal_from from_start to_end none = none
literal_from from_start to_end (some needle) =
    some record { needle = needle; anchored_start = from_start; anchored_end = to_end }

unfoldable pub extract_literal_pattern : Node → Option LiteralPattern
extract_literal_pattern node =
    let (from_start, ns) = drop_start (children node) in
    let (to_end, ms) = drop_end ns in literal_from from_start to_end (literals_of ms)

pub record SafeRegex : Type 0 where
  pub ignore_case : Bool
  pub states : List State
  pub literal_pattern : Option LiteralPattern
  pub start : ℕ

abbrev pub fold_of : Bool → (ℕ → Text) → ℕ → Text
fold_of ignore_case casefold c = if ignore_case then casefold c else c ∷ []

-- `SafeRegex.__init__`
unfoldable pub compile_regex : ℕ → Bool → (ℕ → Text) → Text → Result RegexError SafeRegex
compile_regex groups ignore_case casefold pattern = do
  node ← read_pattern groups (fold_of ignore_case casefold) pattern
  (states, first) ← build_machine (fold_of ignore_case casefold) node
  ok record {
    ignore_case = ignore_case;
    states = states;
    literal_pattern = extract_literal_pattern node;
    start = first;
  }

-- `str.isascii` and `str.lower` of ASCII text.
unfoldable pub is_ascii : Text → Bool
is_ascii [] = true
is_ascii (c ∷ cs) = ltb c 128 && is_ascii cs

abbrev pub lower : ℕ → ℕ
lower c = if leb b'A' c && leb c b'Z' then c + 32 else c

-- `==`, `startswith`, `endswith` and `in` on strings.
unfoldable pub text_eq : Text → Text → Bool
text_eq [] [] = true
text_eq [] (d ∷ ds) = false
text_eq (c ∷ cs) [] = false
text_eq (c ∷ cs) (d ∷ ds) = c == d && text_eq cs ds

unfoldable pub starts_with : Text → Text → Bool
starts_with [] hay = true
starts_with (c ∷ cs) [] = false
starts_with (c ∷ cs) (d ∷ ds) = c == d && starts_with cs ds

unfoldable pub ends_with : Text → Text → Bool
ends_with needle [] = text_eq needle []
ends_with needle (d ∷ ds) = text_eq needle (d ∷ ds) || ends_with needle ds

unfoldable pub contains : Text → Text → Bool
contains needle [] = starts_with needle []
contains needle (d ∷ ds) = starts_with needle (d ∷ ds) || contains needle ds

unfoldable pub plain_search : LiteralPattern → Text → Text → Bool
plain_search p needle haystack =
    if p.anchored_start && p.anchored_end
    then text_eq needle haystack
    else if p.anchored_start
    then starts_with needle haystack
    else if p.anchored_end
    then ends_with needle haystack
    else contains needle haystack

abbrev pub cased : Bool → Text → Text
cased ignore_case t = if ignore_case then map lower t else t

unfoldable pub literal_search :
    Option LiteralPattern
    → Bool
    → (ℕ → Bool)
    → Text
    → Result RegexError Bool
    → Result RegexError Bool
literal_search none ignore_case stops t general = general
literal_search (some p) ignore_case stops t general =
    if not ignore_case || is_ascii p.needle && is_ascii t
    then if stops 0
      then ok false
      else ok (plain_search p (cased ignore_case p.needle) (cased ignore_case t))
    else general

-- `SafeRegex.search`
unfoldable pub search_text : (ℕ → Text) → (ℕ → Bool) → SafeRegex → Text → Result RegexError Bool
search_text casefold stops r t =
    literal_search r.literal_pattern r.ignore_case stops t
      (search_states r.states r.start (fold_of r.ignore_case casefold) stops t)

-- ===== src/SafeRegex/Parser.antt =====
-- `_Parser` and the checks of `SafeRegex.__init__` (src/workspace_guard_mcp/safe_regex.py). The text
-- that is left stands for `self.index`; every refusal is one error, whatever its message. The methods
-- call each other on fuel. `groups` is the number of nested groups for which the interpreter's
-- stack has room, four frames each; a group beyond it raises `RecursionError`.
pub mod Pieces
pub mod Settled
use sandboxed_workspace_mcp.Base.{
  ℕ, zero, suc, ◌+◌, ◌*◌, Bool, true, false, not, ◌&&◌, ◌||◌, Text, text, utf8_size, List, [], ◌∷◌,
  ◌==◌, ltb, if◌then◌else◌, Result, ok, err, ◌>>=◌, ◌>>◌, raise_if, length,
}
use sandboxed_workspace_mcp.SafeRegex.CharacterSet.{Ranges, compile}
use sandboxed_workspace_mcp.SafeRegex.Machine.{
  State, RegexError, safe_regex_error, recursion_error, unicode_error, out_of_fuel, index_in,
}
use sandboxed_workspace_mcp.SafeRegex.Syntax.{
  Node, Nodes, empty, literal, class, any, start, end, concat, alt, star, plus, optional, none_left,
  then_node,
}
use sandboxed_workspace_mcp.SafeRegex.Build.{build_machine}

abbrev pub max_pattern_characters : ℕ
max_pattern_characters = 1024

abbrev pub max_pattern_bytes : ℕ
max_pattern_bytes = 4096

-- A parsing method: what it returns, and the text after it.
abbrev pub Parsed {ℓ} : Type ℓ → Type ℓ
Parsed A = Result RegexError (A × Text)

-- `self._peek() == character`
unfoldable pub peeks : ℕ → Text → Bool
peeks c [] = false
peeks c (d ∷ rest) = d == c

unfoldable pub escape : Text → Parsed ℕ
escape [] = err safe_regex_error
escape (c ∷ rest) =
    if c == b'n'
    then ok (10, rest)
    else if c == b'r'
    then ok (13, rest)
    else if c == b't'
    then ok (9, rest)
    else if index_in c (text "\\.^$|?*+()[]{}-")
    then ok (c, rest)
    else err safe_regex_error

-- An item of a character class: one character, or the ends of a range.
pub data ClassItem : Type 0 where
  one : ℕ → ClassItem
  range : ℕ → ℕ → ClassItem

-- A character of a class, escaped or not.
unfoldable pub class_character : Text → Parsed ℕ
class_character [] = err safe_regex_error
class_character (c ∷ rest) =
    let escaped = escape rest in if c == b'\\' then escaped else ok (c, rest)

-- `self._peek() == "-" and self._peek(1) not in {None, "]"}`
unfoldable pub starts_range : Text → Bool
starts_range (c ∷ d ∷ rest) = c == b'-' && not (d == b']')
starts_range _ = false

unfoldable pub after_first : Text → Text
after_first [] = []
after_first (c ∷ rest) = rest

unfoldable pub class_item : Text → Parsed ClassItem
class_item t = do
  (low, rest) ← class_character t
  let upper = (do
    (high, others) ← class_character (after_first rest)
    raise_if (ltb high low) safe_regex_error >> ok (range low high, others))
  if starts_range rest then upper else ok (one low, rest)

unfoldable pub add_item : ClassItem → List ℕ × Ranges → List ℕ × Ranges
add_item (one c) (literals, ranges) = (c ∷ literals, ranges)
add_item (range a b) (literals, ranges) = (literals, (a, b) ∷ ranges)

-- The loop over the items, up to the closing bracket.
unfoldable pub class_items : ℕ → Text → Parsed (List ℕ × Ranges)
class_items fuel [] = err safe_regex_error
class_items zero (c ∷ rest) = err out_of_fuel
class_items (suc fuel) (c ∷ rest) = elim (c == b']') [
  | true ↦ ok (([], []), rest)
  | false ↦ do
    (item, others) ← class_item (c ∷ rest)
    (items, left) ← class_items fuel others
    ok (add_item item items, left)
]

unfoldable pub character_class : (ℕ → Text) → Text → Parsed Node
character_class fold t = do
  let negated = peeks b'^' t
  let body = if negated then after_first t else t
  raise_if (peeks b']' body) safe_regex_error
  ((literals, ranges), rest) ← class_items (length body) body
  ok (class (compile fold literals ranges negated), rest)

unfoldable pub is_empty : Node → Bool
is_empty empty = true
is_empty _ = false

unfoldable pub is_quantifier : Text → Bool
is_quantifier [] = false
is_quantifier (c ∷ rest) = c == b'*' || (c == b'+' || c == b'?')

unfoldable pub quantify : ℕ → Node → Node
quantify c n = if c == b'*' then star n else if c == b'+' then plus n else optional n

unfoldable pub quantified : Node → Text → Parsed Node
quantified n [] = ok (n, [])
quantified n (c ∷ rest) =
    if is_quantifier (c ∷ rest)
    then raise_if (is_quantifier rest) safe_regex_error >> ok (quantify c n, rest)
    else ok (n, c ∷ rest)

-- The end of a group.
unfoldable pub close_group : Node → Text → Parsed Node
close_group n [] = err safe_regex_error
close_group n (c ∷ rest) =
    if c == b')'
    then raise_if (is_empty n) safe_regex_error >> ok (n, rest)
    else err safe_regex_error

unfoldable pub sequence_ends : Text → Bool
sequence_ends [] = true
sequence_ends (c ∷ rest) = c == b')' || c == b'|'

unfoldable pub sequence_node : Nodes → Node
sequence_node none_left = empty
sequence_node (then_node n none_left) = n
sequence_node (then_node n (then_node m nodes)) = concat n (then_node m nodes)

unfoldable pub alternation_node : Node → Nodes → Result RegexError Node
alternation_node n none_left = ok n
alternation_node n (then_node m nodes) =
    raise_if (is_empty n) safe_regex_error >> ok (alt n (then_node m nodes))

unfoldable pub escaped_literal : Text → Parsed Node
escaped_literal t = do (c, rest) ← escape t; ok (literal c, rest)

-- An atom that begins with `c`, where `c` does not open a group.
unfoldable pub plain_atom : (ℕ → Text) → ℕ → Text → Parsed Node
plain_atom fold c rest =
    if index_in c (text "*+?{}]")
    then err safe_regex_error
    else if c == b'.'
    then ok (any, rest)
    else if c == b'^'
    then ok (start, rest)
    else if c == b'$'
    then ok (end, rest)
    else if c == b'['
    then character_class fold rest
    else if c == b'\\'
    then escaped_literal rest
    else ok (literal c, rest)

module _ (fold : ℕ → Text) where
  unfoldable mutual
    pub alternation : ℕ → ℕ → Text → Parsed Node
    alternation zero groups t = err out_of_fuel
    alternation (suc fuel) groups t = do
      (nodes, rest) ← sequence fuel groups t
      (branches, others) ← branches fuel groups rest
      n ← alternation_node (sequence_node nodes) branches
      ok (n, others)

    -- The loop over the branches that follow a bar.
    pub branches : ℕ → ℕ → Text → Parsed Nodes
    branches zero groups t = err out_of_fuel
    branches (suc fuel) groups t = elim (peeks b'|' t) [
      | false ↦ ok (none_left, t)
      | true ↦ do
        (nodes, rest) ← sequence fuel groups (after_first t)
        raise_if (is_empty (sequence_node nodes)) safe_regex_error
        (more, others) ← branches fuel groups rest
        ok (then_node (sequence_node nodes) more, others)
    ]

    pub sequence : ℕ → ℕ → Text → Parsed Nodes
    sequence zero groups t = err out_of_fuel
    sequence (suc fuel) groups t = elim (sequence_ends t) [
      | true ↦ ok (none_left, t)
      | false ↦ do
        (n, rest) ← repetition fuel groups t
        (nodes, others) ← sequence fuel groups rest
        ok (then_node n nodes, others)
    ]

    pub repetition : ℕ → ℕ → Text → Parsed Node
    repetition zero groups t = err out_of_fuel
    repetition (suc fuel) groups t = do (n, rest) ← atom fuel groups t; quantified n rest

    pub atom : ℕ → ℕ → Text → Parsed Node
    atom zero groups t = err out_of_fuel
    atom (suc fuel) groups [] = err safe_regex_error
    atom (suc fuel) groups (c ∷ rest) = elim (c == b'(') [
      | false ↦ plain_atom fold c rest
      | true ↦ elim groups [
        | zero ↦ err recursion_error
        | suc inner ↦ do (n, others) ← alternation fuel inner rest; close_group n others
      ]
    ]

unfoldable pub parse : ℕ → (ℕ → Text) → Text → Result RegexError Node
parse groups fold pattern = do
  (n, rest) ← alternation fold (4 * length pattern + 4) groups pattern
  elim rest [ [] ↦ ok n | c ∷ others ↦ err safe_regex_error ]

-- `pattern.encode("utf-8")` raises on a lone surrogate.
unfoldable pub encodable : Text → Bool
encodable [] = true
encodable (c ∷ rest) = (ltb c 0xD800 || ltb 0xDFFF c) && encodable rest

-- The checks of `SafeRegex.__init__`, and the syntax tree.
unfoldable pub read_pattern : ℕ → (ℕ → Text) → Text → Result RegexError Node
read_pattern groups fold pattern = do
  raise_if (length pattern == 0) safe_regex_error
  raise_if (ltb max_pattern_characters (length pattern)) safe_regex_error
  raise_if (not (encodable pattern)) unicode_error
  raise_if (ltb max_pattern_bytes (utf8_size pattern)) safe_regex_error
  parse groups fold pattern

-- The states and `self._start` that `SafeRegex.__init__` computes.
unfoldable pub init : ℕ → (ℕ → Text) → Text → Result RegexError (List State × ℕ)
init groups fold pattern = do n ← read_pattern groups fold pattern; build_machine fold n

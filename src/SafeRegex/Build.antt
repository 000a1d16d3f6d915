-- ===== src/SafeRegex/Build.antt =====
-- `SafeRegex._build`, `_add`, `_patch` and the end of `__init__`
-- (src/workspace_guard_mcp/safe_regex.py), with the list of states passed on explicitly.
pub mod Added
pub mod Slots
pub mod Fragments
pub mod Built
pub mod Compiled
pub mod Grows
pub mod Patched
pub mod Steps
pub mod Branches
pub mod Traced
use sandboxed_workspace_mcp.Base.{
  ℕ, zero, suc, Option, none, some, Text, List, [], ◌∷◌, ◌++◌, if◌then◌else◌, leb, Result, ok, err,
  ◌>>=◌, length,
}
use sandboxed_workspace_mcp.SafeRegex.Machine
use sandboxed_workspace_mcp.SafeRegex.Machine.{
  State, Kind, RegexError, safe_regex_error, index_error,
}
use sandboxed_workspace_mcp.SafeRegex.Syntax.{
  Node, Nodes, empty, literal, class, any, start, end, concat, alt, star, plus, optional, none_left,
  then_node,
}

abbrev pub max_nfa_states : ℕ
max_nfa_states = 4096

-- The attribute that a fragment leaves open.
pub data Slot : Type 0 where
  out_slot out1_slot : Slot

abbrev pub Outs : Type 0
Outs = List (ℕ × Slot)

pub record Fragment : Type 0 where
  pub start : ℕ
  pub outs : Outs

abbrev pub state : Kind → State
state k = record { kind = k; out = none; out1 = none }

unfoldable pub add : State → List State → Result RegexError (List State × ℕ)
add s states =
    if leb max_nfa_states (length states)
    then err safe_regex_error
    else ok (states ++ s ∷ [], length states)

-- `setattr(state, attribute, target)`
unfoldable pub set_slot : Slot → ℕ → State → State
set_slot out_slot target s = record s { out = some target }
set_slot out1_slot target s = record s { out1 = some target }

unfoldable pub patch_at : ℕ → Slot → ℕ → List State → Result RegexError (List State)
patch_at index slot target [] = err index_error
patch_at zero slot target (s ∷ states) = ok (set_slot slot target s ∷ states)
patch_at (suc index) slot target (s ∷ states) = do
  patched ← patch_at index slot target states
  ok (s ∷ patched)

unfoldable pub patch : Outs → ℕ → List State → Result RegexError (List State)
patch [] target states = ok states
patch ((index, slot) ∷ outs) target states = do
  patched ← patch_at index slot target states
  patch outs target patched

abbrev pub Building : Type 0
Building = Result RegexError (List State × Fragment)

-- A fragment of one state, open at `out`.
unfoldable pub single : Kind → List State → Building
single k states = do
  (more, index) ← add (state k) states
  ok (more, record { start = index; outs = (index, out_slot) ∷ [] })

-- The split that joins two branches of an alternation.
unfoldable pub join : Fragment → Fragment → List State → Building
join result following states = do
  (more, index) ←
      add record { kind = Machine.split; out = some result.start; out1 = some following.start }
        states
  ok (more, record { start = index; outs = result.outs ++ following.outs })

unfoldable pub join_each : Fragment → List Fragment → List State → Building
join_each result [] states = ok (states, result)
join_each result (following ∷ fragments) states = do
  (more, joined) ← join result following states
  join_each joined fragments more

-- The split of a star or a plus, with the child's ends led back to it.
unfoldable pub loop_back : Fragment → List State → Result RegexError (List State × ℕ)
loop_back child states = do
  (more, index) ← add record { kind = Machine.split; out = some child.start; out1 = none } states
  patched ← patch child.outs index more
  ok (patched, index)

unfoldable pub skip : Fragment → List State → Building
skip child states = do
  (more, index) ← add record { kind = Machine.split; out = some child.start; out1 = none } states
  ok (more, record { start = index; outs = child.outs ++ (index, out1_slot) ∷ [] })

unfoldable mutual
  pub build : (ℕ → Text) → Node → List State → Building
  build fold empty states = single Machine.jump states
  build fold (literal c) states = single (Machine.literal (fold c)) states
  build fold (class s) states = single (Machine.class s) states
  build fold any states = single Machine.any states
  build fold start states = single Machine.start states
  build fold end states = single Machine.end states
  build fold (concat node nodes) states = do
    (more, result) ← build fold node states
    build_rest fold result nodes more
  build fold (alt node nodes) states = do
    (more, result) ← build fold node states
    (others, fragments) ← build_each fold nodes more
    join_each result fragments others
  build fold (star node) states = do
    (more, child) ← build fold node states
    (looped, index) ← loop_back child more
    ok (looped, record { start = index; outs = (index, out1_slot) ∷ [] })
  build fold (plus node) states = do
    (more, child) ← build fold node states
    (looped, index) ← loop_back child more
    ok (looped, record { start = child.start; outs = (index, out1_slot) ∷ [] })
  build fold (optional node) states = do (more, child) ← build fold node states; skip child more

  pub build_rest : (ℕ → Text) → Fragment → Nodes → List State → Building
  build_rest fold result none_left states = ok (states, result)
  build_rest fold result (then_node node nodes) states = do
    (more, following) ← build fold node states
    patched ← patch result.outs following.start more
    build_rest fold record { start = result.start; outs = following.outs } nodes patched

  pub build_each : (ℕ → Text) → Nodes → List State → Result RegexError (List State × List Fragment)
  build_each fold none_left states = ok (states, [])
  build_each fold (then_node node nodes) states = do
    (more, fragment) ← build fold node states
    (others, fragments) ← build_each fold nodes more
    ok (others, fragment ∷ fragments)

-- `__init__` from the syntax tree on: the states and `self._start`.
unfoldable pub build_machine : (ℕ → Text) → Node → Result RegexError (List State × ℕ)
build_machine fold node = do
  (states, fragment) ← build fold node []
  (more, match) ← add (state Machine.match) states
  patched ← patch fragment.outs match more
  ok (patched, fragment.start)

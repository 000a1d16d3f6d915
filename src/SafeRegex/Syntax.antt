-- ===== src/SafeRegex/Syntax.antt =====
-- The tuples that `_Parser` returns (src/workspace_guard_mcp/safe_regex.py), with the tag of each as
-- a constructor. A literal is one character. A concatenation or an alternation has at least one
-- child, which stands first.
use sandboxed_workspace_mcp.Base.{ℕ}
use sandboxed_workspace_mcp.SafeRegex.CharacterSet.{CharacterSet}

mutual
  pub data Node : Type 0 where
    empty : Node
    literal : ℕ → Node
    class : CharacterSet → Node
    any : Node
    start : Node
    end : Node
    concat : Node → Nodes → Node
    alt : Node → Nodes → Node
    star : Node → Node
    plus : Node → Node
    optional : Node → Node

  pub data Nodes : Type 0 where
    none_left : Nodes
    then_node : Node → Nodes → Nodes

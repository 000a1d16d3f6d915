-- ===== src/Tests/RegexRuns.antt =====
-- The theorems on safe regular expressions, applied to small patterns and machines.
use sandboxed_workspace_mcp.Base.{
  ℕ, utf8_size, utf8_width, ◌≡◌, ◌↔◌, false≢true, refl, Bool, true, false, not, some, none, ok, err,
  Text, text, List, [], ◌∷◌, arith, All,
}
use sandboxed_workspace_mcp.SafeRegex.CharacterSet.{Ranges, compile, matches}
use sandboxed_workspace_mcp.SafeRegex.CharacterSet.Matches.{belongs, matches-belongs}
use sandboxed_workspace_mcp.SafeRegex.Machine
use sandboxed_workspace_mcp.SafeRegex.Machine.{
  recursion_error, State, reads, index_in, closure, search_states,
}
use sandboxed_workspace_mcp.SafeRegex.Machine.Closure.{Fits}
use sandboxed_workspace_mcp.SafeRegex.Machine.Reached.{Active}
use sandboxed_workspace_mcp.SafeRegex.Machine.Leading.{Leads, closure-Leads}
use sandboxed_workspace_mcp.SafeRegex.Machine.Runs.{IsMachine}
use sandboxed_workspace_mcp.SafeRegex.Build.Added.{Settles}
use sandboxed_workspace_mcp.SafeRegex.Parser.{
  read_pattern, encodable, init, parse, alternation, plain_atom, is_quantifier, quantified,
  sequence_ends, sequence_node, alternation_node, peeks,
}
use sandboxed_workspace_mcp.SafeRegex.Syntax.{
  Node, literal, start, concat, star, none_left, then_node,
}
use sandboxed_workspace_mcp.SafeRegex.Build.{build_machine}
use sandboxed_workspace_mcp.SafeRegex.Language.Search.{Occurs, build_machine-Occurs}
use sandboxed_workspace_mcp.SafeRegex.Parser.Settled.{init-IsBounded}
use sandboxed_workspace_mcp.SafeRegex.Build.Compiled.{IsBounded}
use sandboxed_workspace_mcp.SafeRegex.Literal.{lower, compile_regex, search_text}
use sandboxed_workspace_mcp.SafeRegex.Literal.Search.{search_text-Occurs}

-- Case is not ignored.
abbrev exact : ℕ → Text
exact c = c ∷ []

abbrev never_stops : ℕ → Bool
never_stops p = false

abbrev two_ranges : Ranges
two_ranges = (b'k', b'z') ∷ (b'a', b'm') ∷ []

matches-belongs_example :
    matches (compile exact (b'-' ∷ []) two_ranges true) (text "q")
    ≡ not (belongs exact (b'-' ∷ []) two_ranges (text "q"))
matches-belongs_example = matches-belongs exact (b'-' ∷ []) two_ranges true (text "q")

-- The machine of `a*`.
abbrev star_states : List State
star_states =
    record { kind = Machine.literal (text "a"); out = some 1; out1 = none }
    ∷ record { kind = Machine.split; out = some 0; out1 = some 2 }
    ∷ record { kind = Machine.match; out = none; out1 = none }
    ∷ []

star_states-Fits : All (Fits 3) star_states
star_states-Fits = ((omega arith, tt), ((omega arith, omega arith), ((tt, tt), tt)))

star_states-IsMachine : IsMachine star_states 1
unfolding reads
star_states-IsMachine = (
  omega arith,
  star_states-Fits,
  ((λ c h. (1, refl)), ((λ c h. (0, refl)), ((λ c h. absurd (false≢true h)), tt))),
)

closure-Leads_example :
    (out : List ℕ) × (closure star_states 0 2 (1 ∷ []) ≡ ok out)
    × ((j : ℕ)
        → (index_in j out ≡ true) ↔ (Leads star_states 0 2 (1 ∷ []) j × Active star_states j))
closure-Leads_example = closure-Leads star_states 0 2 (1 ∷ []) star_states-Fits (omega arith, tt)

abbrev star_of_a : Node
star_of_a = star (literal b'a')

build_machine-Occurs_example :
    Settles
      (λ (states, e).
        (found : Bool) × (search_states states e exact never_stops (text "ba") ≡ ok found)
        × ((found ≡ true) → Occurs exact (text "ba") star_of_a)
        × (((p : ℕ) → never_stops p ≡ false) → Occurs exact (text "ba") star_of_a → found ≡ true))
      (build_machine exact star_of_a)
build_machine-Occurs_example = build_machine-Occurs exact star_of_a never_stops (text "ba")

abbrev lower_case : ℕ → Text
lower_case c = lower c ∷ []

nested_encodable : encodable (text "(ab|c)*[x-z]") ≡ true
unfolding encodable
nested_encodable = refl

init-IsBounded_example : Settles IsBounded (init 12 exact (text "(ab|c)*[x-z]"))
init-IsBounded_example =
    init-IsBounded 12 exact (text "(ab|c)*[x-z]") (omega arith) nested_encodable

-- Where the stack has room for one group, two nested ones overflow it.
too_deep : read_pattern 1 exact (text "((a))") ≡ err recursion_error
unfolding read_pattern encodable parse alternation utf8_size utf8_width sequence_ends
too_deep = refl

-- The tree of `^aB`.
abbrev anchored_tree : Node
anchored_tree = concat start (then_node (literal b'a') (then_node (literal b'B') none_left))

anchored_tree-read : read_pattern 8 lower_case (text "^aB") ≡ ok anchored_tree
unfolding read_pattern encodable parse alternation utf8_size utf8_width sequence_ends plain_atom
    index_in quantified is_quantifier peeks alternation_node sequence_node
anchored_tree-read = refl

search_text-Occurs_example :
    Settles
      (λ r.
        (found : Bool) × (search_text lower_case never_stops r (text "Abc") ≡ ok found)
        × ((found ≡ true) ↔ Occurs lower_case (text "Abc") anchored_tree))
      (compile_regex 8 true lower_case (text "^aB"))
search_text-Occurs_example =
    search_text-Occurs 8 true lower_case (text "^aB") anchored_tree never_stops (text "Abc")
      (λ c h. refl) (λ p. refl) anchored_tree-read

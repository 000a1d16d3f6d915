-- ===== src/SafeRegex/Literal/Search.antt =====
-- The whole of `SafeRegex.search` against the language of the syntax tree
-- (src/workspace_guard_mcp/safe_regex.py).
use sandboxed_workspace_mcp.Base.{
  ℕ, ◌≡◌, ◌↔◌, refl, sym, ap, subst, Bool, true, false, not, ◌&&◌, ◌||◌, Option, none, some, Text,
  [], ◌∷◌, map, ltb, Bool-cases, Option-cases, inl, inr, Result, ok,
}
use sandboxed_workspace_mcp.SafeRegex.Machine.{RegexError, search_states}
use sandboxed_workspace_mcp.SafeRegex.Syntax.{Node}
use sandboxed_workspace_mcp.SafeRegex.Build.{build_machine}
use sandboxed_workspace_mcp.SafeRegex.Build.Added.{Settles, Settles-bind}
use sandboxed_workspace_mcp.SafeRegex.Parser.{read_pattern}
use sandboxed_workspace_mcp.SafeRegex.Language.Search.{Occurs, build_machine-Occurs}
use sandboxed_workspace_mcp.SafeRegex.Literal.{
  LiteralPattern, children, drop_start, drop_end, literals_of, literal_from,
  extract_literal_pattern, fold_of, compile_regex, is_ascii, lower, plain_search, cased,
  literal_search, search_text,
}
use sandboxed_workspace_mcp.SafeRegex.Literal.Occurs.{shape-Placed, pattern_of, plain_search-place}
use sandboxed_workspace_mcp.SafeRegex.Literal.Folded.{FoldsBy, both_of, literals_of-map}

-- `str.casefold` on ASCII characters.
abbrev pub AsciiFold : (ℕ → Text) → Type 0
AsciiFold casefold = (c : ℕ) → ltb c 128 ≡ true → casefold c ≡ lower c ∷ []

is_ascii-FoldsBy :
    (casefold : ℕ → Text) (t : Text)
    → AsciiFold casefold
    → is_ascii t ≡ true
    → FoldsBy casefold lower t
unfolding is_ascii
is_ascii-FoldsBy casefold [] f h = tt
is_ascii-FoldsBy casefold (c ∷ t) f h =
    let (first, more) = both_of (ltb c 128) (is_ascii t) h in
    (f c first, is_ascii-FoldsBy casefold t f more)

exact-FoldsBy : (casefold : ℕ → Text) (t : Text) → FoldsBy (fold_of false casefold) (λ c. c) t
exact-FoldsBy casefold [] = tt
exact-FoldsBy casefold (c ∷ t) = (refl, exact-FoldsBy casefold t)

map-same : (t : Text) → map (λ c. c) t ≡ t
map-same [] = refl
map-same (c ∷ t) = ap (◌∷◌ c) (map-same t)

none≢some_pattern : (p : LiteralPattern) → ¬ (Path (Option LiteralPattern) none (some p))
none≢some_pattern p h = cc

some_pattern-inj : (p q : LiteralPattern) → Path (Option LiteralPattern) (some p) (some q) → p ≡ q
some_pattern-inj p q h = cc

literal_from-some :
    (from_start to_end : Bool) (found : Option Text) (p : LiteralPattern)
    → literal_from from_start to_end found ≡ some p
    → (needle : Text) × (found ≡ some needle) × (pattern_of from_start to_end needle ≡ p)
unfolding literal_from
literal_from-some from_start to_end none p h = absurd (none≢some_pattern p h)
literal_from-some from_start to_end (some needle) p h =
    (needle, refl, some_pattern-inj (pattern_of from_start to_end needle) p h)

-- A search for the literal finds it exactly if the tree matches somewhere.
plain_search-Occurs :
    (fold : ℕ → Text) (g : ℕ → ℕ) (node : Node) (p : LiteralPattern) (t : Text)
    → extract_literal_pattern node ≡ some p
    → FoldsBy fold g p.needle
    → FoldsBy fold g t
    → (plain_search p (map g p.needle) (map g t) ≡ true) ↔ Occurs fold t node
unfolding extract_literal_pattern
plain_search-Occurs fold g node p t e hn ht =
    let first = drop_start (children node) in
    let last = drop_end first.1 in
    let (needle, found, same) = literal_from-some first.0 last.0 (literals_of last.1) p e in
    let shape =
      shape-Placed fold g t ht node needle first.0 last.0
        (subst (λ p. FoldsBy fold g p.needle) (sym same) hn) refl
        (ap (λ ns. (last.0, ns)) (literals_of-map last.1 needle found)) in
    let place = plain_search-place first.0 last.0 needle (map g needle) (map g t) in
    subst (λ p. (plain_search p (map g p.needle) (map g t) ≡ true) ↔ Occurs fold t node) same
      (
        (λ h. let (i, here, starts, ends) = place.0 h in shape.1 (i, (here, starts, ends))),
        λ h. let (i, (here, starts, ends)) = shape.0 h in place.1 (i, here, starts, ends),
      )

-- The search returns, and tells whether some part of the text matches the tree.
abbrev pub Decides : (ℕ → Text) → Text → Node → Result RegexError Bool → Type 0
Decides fold t node search =
    (found : Bool) × (search ≡ ok found) × ((found ≡ true) ↔ Occurs fold t node)

cased_search-Decides :
    (ignore_case : Bool) (casefold : ℕ → Text) (node : Node) (p : LiteralPattern) (t : Text)
    → AsciiFold casefold
    → extract_literal_pattern node ≡ some p
    → (not ignore_case || is_ascii p.needle && is_ascii t) ≡ true
    → Decides
        (fold_of ignore_case casefold)
        t
        node
        (ok (plain_search p (cased ignore_case p.needle) (cased ignore_case t)))
cased_search-Decides true casefold node p t f e h =
    let (hn, ht) = both_of (is_ascii p.needle) (is_ascii t) h in
    (
      plain_search p (map lower p.needle) (map lower t),
      refl,
      plain_search-Occurs casefold lower node p t e (is_ascii-FoldsBy casefold p.needle f hn)
          (is_ascii-FoldsBy casefold t f ht),
    )
cased_search-Decides false casefold node p t f e h =
    let same =
      plain_search-Occurs (fold_of false casefold) (λ c. c) node p t e
        (exact-FoldsBy casefold p.needle) (exact-FoldsBy casefold t) in
    (
      plain_search p p.needle t,
      refl,
      subst (λ n. (plain_search p n t ≡ true) ↔ Occurs (fold_of false casefold) t node)
          (map-same p.needle)
          (subst
            (λ u.
              (plain_search p (map (λ c. c) p.needle) u ≡ true)
              ↔ Occurs (fold_of false casefold) t node)
            (map-same t) same),
    )

literal_search-Decides :
    (ignore_case : Bool) (casefold : ℕ → Text) (node : Node) (stops : ℕ → Bool) (t : Text)
    (general : Result RegexError Bool)
    → AsciiFold casefold
    → ((p : ℕ) → stops p ≡ false)
    → Decides (fold_of ignore_case casefold) t node general
    → Decides
        (fold_of ignore_case casefold)
        t
        node
        (literal_search (extract_literal_pattern node) ignore_case stops t general)
unfolding literal_search
literal_search-Decides ignore_case casefold node stops t general f never decided =
    elim (Option-cases (extract_literal_pattern node)) [
      | inl nothing ↦ rw nothing decided
      | inr (p, e) ↦ elim (Bool-cases (not ignore_case || is_ascii p.needle && is_ascii t)) [
        | inl fast ↦
            rw (e, fast, never 0) (cased_search-Decides ignore_case casefold node p t f e fast)
        | inr slow ↦ rw (e, slow) decided
      ]
    ]

-- A pattern that is read as a tree, whatever room the stack has for nested groups, either has no
-- machine within the limit on states, or is searched for in this way: where `should_stop` always answers false, and `casefold` lowers ASCII characters,
-- the search returns, by a literal or by the machine, and answers true exactly if some part of the
-- text matches the tree, with the cases folded if the case is ignored.
pub search_text-Occurs :
    (groups : ℕ) (ignore_case : Bool) (casefold : ℕ → Text) (pattern : Text) (node : Node)
    (stops : ℕ → Bool) (t : Text)
    → AsciiFold casefold
    → ((p : ℕ) → stops p ≡ false)
    → read_pattern groups (fold_of ignore_case casefold) pattern ≡ ok node
    → Settles
        (λ r.
          (found : Bool) × (search_text casefold stops r t ≡ ok found)
          × ((found ≡ true) ↔ Occurs (fold_of ignore_case casefold) t node))
        (compile_regex groups ignore_case casefold pattern)
unfolding compile_regex search_text
search_text-Occurs groups ignore_case casefold pattern node stops t f never parsed = rw parsed (
    Settles-bind _ _ (build_machine (fold_of ignore_case casefold) node) _
      (build_machine-Occurs (fold_of ignore_case casefold) node stops t)
      λ (states, first) (found, run, sound, complete).
        literal_search-Decides ignore_case casefold node stops t
          (search_states states first (fold_of ignore_case casefold) stops t) f never
          (found, run, (sound, complete never)))

-- ===== src/SafeRegex/Parser/Settled.antt =====
-- The fuel of `_Parser`'s methods is enough (src/workspace_guard_mcp/safe_regex.py).
use sandboxed_workspace_mcp.Base.{
  ℕ, ◌≡◌, true, zero, suc, ◌+◌, ◌*◌, ◌≤◌, ◌<◌, Text, utf8_size, [], ◌∷◌, ◌==◌, ltb, if◌then◌else◌,
  Result, ok, err, length, arith, Bool-cases, inl, inr,
}
use sandboxed_workspace_mcp.SafeRegex.Machine.{RegexError, safe_regex_error}
use sandboxed_workspace_mcp.SafeRegex.Syntax.{Node}
use sandboxed_workspace_mcp.SafeRegex.Build.Added.{Settles-map, Settles, Settles-bind}
use sandboxed_workspace_mcp.SafeRegex.Build.Compiled.{IsBounded, build_machine-IsBounded}
use sandboxed_workspace_mcp.SafeRegex.Parser.{
  max_pattern_characters, max_pattern_bytes, peeks, after_first, class_items, character_class,
  plain_atom, is_empty, quantified, close_group, sequence_ends, sequence_node, alternation_node,
  alternation, branches, sequence, repetition, atom, parse, init, read_pattern, encodable,
}
use sandboxed_workspace_mcp.SafeRegex.Parser.Pieces.{
  Leaves, raise_if-Settles, length-after_first, class_items-Settles, after_peek,
  alternation_node-Settles, quantified-Settles, close_group-Settles, escaped_literal-Settles,
}

module _ (fold : ℕ → Text) where
  character_class-Settles : (t : Text) → Settles (Leaves (length t)) (character_class fold t)
  unfolding character_class
  character_class-Settles t =
      let body = if peeks b'^' t then after_first t else t in
      let shorter : length body ≤ length t = ground (arith, length-after_first t) in
      raise_if-Settles (Leaves (length t)) (peeks b']' body) _ λ e.
        Settles-bind (Leaves (length body)) (Leaves (length t)) (class_items (length body) body) _
          (class_items-Settles (length body) body (omega arith))
          λ (items, rest) h. omega (arith, h, shorter)

  plain_atom-Settles :
      (c : ℕ) (rest : Text) → Settles (Leaves (length rest)) (plain_atom fold c rest)
  unfolding plain_atom
  plain_atom-Settles c rest =
      ground (arith, character_class-Settles rest, escaped_literal-Settles rest)

  mutual
    unfolding alternation

    alternation-Settles :
        (fuel groups : ℕ) (t : Text)
        → 4 * length t + 3 < fuel
        → length t ≤ groups
        → Settles (Leaves (length t)) (alternation fold fuel groups t)
    alternation-Settles zero groups t h room = absurd (omega (arith, h))
    alternation-Settles (suc fuel) groups t h room =
        Settles-bind (Leaves (length t)) (Leaves (length t)) (sequence fold fuel groups t) _
          (sequence-Settles fuel groups t (omega (arith, h)) (omega (arith, room)))
          λ (nodes, rest) h1.
            Settles-bind (Leaves (length rest)) (Leaves (length t)) (branches fold fuel groups rest)
              _ (branches-Settles fuel groups rest (omega (arith, h, h1)) (omega (arith, h1, room)))
              λ (more, others) h2.
                Settles-bind (λ n. Unit {0}) (Leaves (length t))
                  (alternation_node (sequence_node nodes) more) _
                  (alternation_node-Settles (sequence_node nodes) more) λ n u. omega (arith, h1, h2)

    branches-Settles :
        (fuel groups : ℕ) (t : Text)
        → 4 * length t < fuel
        → length t ≤ groups
        → Settles (Leaves (length t)) (branches fold fuel groups t)
    branches-Settles zero groups t h room = absurd (omega (arith, h))
    branches-Settles (suc fuel) groups t h room = elim (Bool-cases (peeks b'|' t)) [
      | inr last ↦ rw (last, Settles) (omega arith)
      | inl bar ↦
          let shorter = after_peek b'|' t bar in
          rw (bar, Settles)
            (Settles-bind (Leaves (length (after_first t))) (Leaves (length t))
              (sequence fold fuel groups (after_first t)) _
              (sequence-Settles fuel groups (after_first t) (omega (arith, h, shorter))
                (omega (arith, shorter, room)))
              λ (nodes, rest) h1.
                raise_if-Settles (Leaves (length t)) (is_empty (sequence_node nodes)) _ λ e.
                  Settles-bind (Leaves (length rest)) (Leaves (length t))
                    (branches fold fuel groups rest) _
                    (branches-Settles fuel groups rest (omega (arith, h, h1, shorter))
                      (omega (arith, h1, shorter, room)))
                    λ (more, others) h2. omega (arith, h1, h2, shorter))
    ]

    sequence-Settles :
        (fuel groups : ℕ) (t : Text)
        → 4 * length t + 2 < fuel
        → length t ≤ groups
        → Settles (Leaves (length t)) (sequence fold fuel groups t)
    sequence-Settles zero groups t h room = absurd (omega (arith, h))
    sequence-Settles (suc fuel) groups t h room = elim (Bool-cases (sequence_ends t)) [
      | inl over ↦ rw (over, Settles) (omega arith)
      | inr going ↦
          rw (going, Settles)
            (Settles-bind (λ (n, rest). length rest < length t) (Leaves (length t))
              (repetition fold fuel groups t) _
              (repetition-Settles fuel groups t (omega (arith, h)) (omega (arith, room)))
              λ (n, rest) h1.
                Settles-bind (Leaves (length rest)) (Leaves (length t))
                  (sequence fold fuel groups rest) _
                  (sequence-Settles fuel groups rest (omega (arith, h, h1))
                    (omega (arith, h1, room)))
                  λ (nodes, others) h2. omega (arith, h1, h2))
    ]

    repetition-Settles :
        (fuel groups : ℕ) (t : Text)
        → 4 * length t + 1 < fuel
        → length t ≤ groups
        → Settles (λ (n, rest). length rest < length t) (repetition fold fuel groups t)
    repetition-Settles zero groups t h room = absurd (omega (arith, h))
    repetition-Settles (suc fuel) groups t h room =
        Settles-bind (λ (n, rest). length rest < length t) (λ (n, rest). length rest < length t)
          (atom fold fuel groups t) _
          (atom-Settles fuel groups t (omega (arith, h)) (omega (arith, room)))
          λ (n, rest) h1.
            Settles-map (quantified n rest) (quantified-Settles n rest)
              λ (m, others) h2. omega (arith, h1, h2)

    atom-Settles :
        (fuel groups : ℕ) (t : Text)
        → 4 * length t < fuel
        → length t ≤ groups
        → Settles (λ (n, rest). length rest < length t) (atom fold fuel groups t)
    atom-Settles zero groups t h room = absurd (omega (arith, h))
    atom-Settles (suc fuel) groups [] h room = tt
    atom-Settles (suc fuel) zero (c ∷ rest) h room = absurd (omega (arith, room))
    atom-Settles (suc fuel) (suc groups) (c ∷ rest) h room = elim (Bool-cases (c == b'(')) [
      | inr plain ↦
          rw (plain, Settles)
            (Settles-map (plain_atom fold c rest) (plain_atom-Settles c rest)
              λ (m, others) h2. omega (arith, h2))
      | inl opened ↦
          rw (opened, Settles)
            (Settles-bind (Leaves (length rest)) _ (alternation fold fuel groups rest) _
              (alternation-Settles fuel groups rest (omega (arith, h)) (omega (arith, room)))
              λ (n, others) h1.
                Settles-map (close_group n others) (close_group-Settles n others)
                  λ (m, left) h2. omega (arith, h1, h2))
    ]

whole :
    (n : Node) (rest : Text)
    → Settles
        (λ n. Unit {0})
        (elim rest as (λ r. Result RegexError Node) [
          | [] ↦ ok n
          | c ∷ others ↦ err safe_regex_error
        ])
whole n [] = tt
whole n (c ∷ others) = tt

-- `parse` returns a syntax tree or refuses the pattern.
parse-Settles :
    (groups : ℕ) (fold : ℕ → Text) (pattern : Text)
    → length pattern ≤ groups
    → Settles (λ n. Unit {0}) (parse groups fold pattern)
unfolding parse
parse-Settles groups fold pattern room =
    Settles-bind (Leaves (length pattern)) (λ n. Unit {0}) (alternation fold _ groups pattern) _
      (alternation-Settles fold (4 * length pattern + 4) groups pattern (omega arith) room)
      λ (n, rest) h. whole n rest

pub read_pattern-Settles :
    (groups : ℕ) (fold : ℕ → Text) (pattern : Text)
    → length pattern ≤ groups
    → encodable pattern ≡ true
    → Settles (λ n. Unit {0}) (read_pattern groups fold pattern)
unfolding read_pattern
read_pattern-Settles groups fold pattern room valid =
    raise_if-Settles (λ n. Unit {0}) (length pattern == 0) _
      λ given.
        raise_if-Settles (λ n. Unit {0}) (ltb max_pattern_characters (length pattern)) _
          λ short. rw valid (
            raise_if-Settles (λ n. Unit {0}) (ltb max_pattern_bytes (utf8_size pattern)) _
              λ small. parse-Settles groups fold pattern room)

-- Where the pattern holds no lone surrogate, and the interpreter's stack has room for as many nested
-- groups as the pattern has characters, the pattern is refused with `SafeRegexError`, or compiles to a
-- machine within the limit on states whose edges all lead to its states, with an edge out of every
-- state that reads: no other error is raised, and the fuel of the parser is enough.
pub init-IsBounded :
    (groups : ℕ) (fold : ℕ → Text) (pattern : Text)
    → length pattern ≤ groups
    → encodable pattern ≡ true
    → Settles IsBounded (init groups fold pattern)
unfolding init
init-IsBounded groups fold pattern room valid =
    Settles-bind (λ n. Unit {0}) IsBounded (read_pattern groups fold pattern) _
      (read_pattern-Settles groups fold pattern room valid) λ n u. build_machine-IsBounded fold n

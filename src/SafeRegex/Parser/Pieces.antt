-- ===== src/SafeRegex/Parser/Pieces.antt =====
-- The methods of `_Parser` that do not call each other (src/workspace_guard_mcp/safe_regex.py).
use sandboxed_workspace_mcp.Base.{
  ℕ, zero, suc, ◌≡◌, ◌≤◌, refl, false≢true, Bool, true, false, Text, [], ◌∷◌, ◌==◌, ltb, Result, ok,
  ◌>>◌, raise_if, length, arith, Bool-cases, inl, inr,
}
use sandboxed_workspace_mcp.SafeRegex.Machine.{RegexError, safe_regex_error}
use sandboxed_workspace_mcp.SafeRegex.Syntax.{Node, Nodes, none_left, then_node}
use sandboxed_workspace_mcp.SafeRegex.Build.Added.{Settles, Settles-bind}
use sandboxed_workspace_mcp.SafeRegex.Parser.{
  peeks, escape, class_character, after_first, starts_range, range, class_item, class_items,
  is_empty, is_quantifier, quantify, quantified, close_group, alternation_node, escaped_literal,
}

-- A method that leaves at most `n` characters.
abbrev pub Leaves {ℓ} : {A : Type ℓ} → ℕ → A × Text → Type 0
Leaves n (a, rest) = length rest ≤ n

pub raise_if-Settles {ℓ} :
    {A : Type ℓ} (Q : A → Type 0) (b : Bool) (r : Result RegexError A)
    → (b ≡ false → Settles Q r)
    → Settles Q (raise_if b safe_regex_error >> r)
raise_if-Settles Q true r h = tt
raise_if-Settles Q false r h = h refl

pub length-after_first : (t : Text) → length (after_first t) ≤ length t
unfolding after_first
length-after_first [] = omega arith
length-after_first (c ∷ rest) = omega arith

escape-Settles : (t : Text) → Settles (Leaves (length t)) (escape t)
unfolding escape
escape-Settles [] = tt
escape-Settles (c ∷ rest) = ground arith

class_character-Settles :
    (n : ℕ) (t : Text) → length t ≤ suc n → Settles (Leaves n) (class_character t)
unfolding class_character
class_character-Settles n [] h = tt
class_character-Settles n (c ∷ rest) h = ground (arith, escape-Settles rest)

class_item-Settles : (c : ℕ) (rest : Text) → Settles (Leaves (length rest)) (class_item (c ∷ rest))
unfolding class_item
class_item-Settles c rest =
    Settles-bind (Leaves (length rest)) (Leaves (length rest)) (class_character (c ∷ rest)) _
      (class_character-Settles (length rest) (c ∷ rest) (omega arith))
      λ (low, others) h. elim (Bool-cases (starts_range others)) [
        | inr single ↦ rw (single, Settles) h
        | inl ranged ↦
            rw (ranged, Settles)
              (Settles-bind (Leaves (length rest)) (Leaves (length rest))
                (class_character (after_first others)) _
                (class_character-Settles (length rest) (after_first others)
                  (omega (arith, h, length-after_first others)))
                λ (high, more) h2.
                  raise_if-Settles (Leaves (length rest)) (ltb high low) (ok (range low high, more))
                    λ e. h2)
      ]

pub class_items-Settles :
    (fuel : ℕ) (t : Text) → length t ≤ fuel → Settles (Leaves (length t)) (class_items fuel t)
unfolding class_items
class_items-Settles fuel [] h = tt
class_items-Settles zero (c ∷ rest) h = absurd (omega (arith, h))
class_items-Settles (suc fuel) (c ∷ rest) h = elim (Bool-cases (c == b']')) [
  | inl closing ↦ rw (closing, Settles) (omega arith)
  | inr going ↦
      rw (going, Settles)
        (Settles-bind (Leaves (length rest)) (Leaves (suc (length rest))) (class_item (c ∷ rest)) _
          (class_item-Settles c rest)
          λ (item, others) shorter.
            Settles-bind (Leaves (length others)) (Leaves (suc (length rest)))
              (class_items fuel others) _
              (class_items-Settles fuel others (omega (arith, h, shorter)))
              λ (items, left) h2. omega (arith, h2, shorter))
]

pub after_peek : (c : ℕ) (t : Text) → peeks c t ≡ true → suc (length (after_first t)) ≤ length t
unfolding peeks after_first
after_peek c [] h = absurd (false≢true h)
after_peek c (d ∷ rest) h = omega arith

pub alternation_node-Settles :
    (n : Node) (nodes : Nodes) → Settles (λ m. Unit {0}) (alternation_node n nodes)
unfolding alternation_node
alternation_node-Settles n none_left = tt
alternation_node-Settles n (then_node m nodes) =
    raise_if-Settles (λ m. Unit {0}) (is_empty n) (ok _) λ e. tt

pub quantified-Settles : (n : Node) (t : Text) → Settles (Leaves (length t)) (quantified n t)
unfolding quantified
quantified-Settles n [] = omega arith
quantified-Settles n (c ∷ rest) = elim (Bool-cases (is_quantifier (c ∷ rest))) [
  | inr plain ↦ rw (plain, Settles) (omega arith)
  | inl repeated ↦
      rw (repeated, Settles)
        (raise_if-Settles (Leaves (suc (length rest))) (is_quantifier rest)
          (ok (quantify c n, rest)) λ e. omega arith)
]

pub close_group-Settles : (n : Node) (t : Text) → Settles (Leaves (length t)) (close_group n t)
unfolding close_group
close_group-Settles n [] = tt
close_group-Settles n (c ∷ rest) = elim (Bool-cases (c == b')')) [
  | inr other ↦ rw (other, Settles) tt
  | inl closed ↦
      rw (closed, Settles)
        (raise_if-Settles (Leaves (suc (length rest))) (is_empty n) (ok (n, rest)) λ e. omega arith)
]

pub escaped_literal-Settles : (t : Text) → Settles (Leaves (length t)) (escaped_literal t)
unfolding escaped_literal
escaped_literal-Settles t =
    Settles-bind (Leaves (length t)) (Leaves (length t)) (escape t) _ (escape-Settles t)
      λ (c, rest) h. h

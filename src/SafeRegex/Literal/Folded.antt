-- ===== src/SafeRegex/Literal/Folded.antt =====
-- Characters that fold to one character, and the text of a run of literals
-- (src/workspace_guard_mcp/safe_regex.py).
use sandboxed_workspace_mcp.Base.{
  ℕ, zero, suc, ◌≡◌, refl, sym, ap, ◌∙◌, Bool, true, false, false≢true, Option, none, some, Text,
  Text-discrete, if_pos, if_neg, List, [], ◌∷◌, map, ◌==◌, ◌&&◌, length, drop, All, arith,
  Option-cases, inl, inr,
}
use sandboxed_workspace_mcp.SafeRegex.Machine
use sandboxed_workspace_mcp.SafeRegex.Machine.{RegexError, reads, search_states}
use sandboxed_workspace_mcp.SafeRegex.Syntax.{
  Node, empty, literal, class, any, start, end, concat, alt, star, plus, optional,
}
use sandboxed_workspace_mcp.SafeRegex.Literal.{add_character, literals_of}

-- Characters that fold to one character.
abbrev pub FoldsBy : (ℕ → Text) → (ℕ → ℕ) → Text → Type 0
FoldsBy fold g t = All (λ c. fold c ≡ g c ∷ []) t

pub FoldsBy-drop :
    (fold : ℕ → Text) (g : ℕ → ℕ) (i : ℕ) (t : Text) → FoldsBy fold g t → FoldsBy fold g (drop i t)
FoldsBy-drop fold g zero t f = f
FoldsBy-drop fold g (suc i) [] f = tt
FoldsBy-drop fold g (suc i) (c ∷ t) f = FoldsBy-drop fold g i t f.1

pub drop-map : (g : ℕ → ℕ) (i : ℕ) (t : Text) → drop i (map g t) ≡ map g (drop i t)
drop-map g zero t = refl
drop-map g (suc i) [] = refl
drop-map g (suc i) (c ∷ t) = drop-map g i t

pub length-map : (g : ℕ → ℕ) (t : Text) → length (map g t) ≡ length t
length-map g [] = refl
length-map g (c ∷ t) = ap suc (length-map g t)

none≢some : (needle : Text) → ¬ (Path (Option Text) none (some needle))
none≢some needle h = cc

some-inj : (s t : Text) → Path (Option Text) (some s) (some t) → s ≡ t
some-inj s t h = cc

pub nil≢cons : (d : ℕ) (rest : Text) → ¬ (Path Text [] (d ∷ rest))
nil≢cons d rest h = cc

pub both_true : (a b : Bool) → a ≡ true → b ≡ true → (a && b) ≡ true
both_true true b h k = k
both_true false b h k = h

pub both_of : (a b : Bool) → (a && b) ≡ true → (a ≡ true) × (b ≡ true)
both_of true b h = (refl, h)
both_of false b h = absurd (false≢true h)

eq-true : (a b : ℕ) → a ≡ b → (a == b) ≡ true
eq-true a b h = ground arith

eq-false : (a b : ℕ) → ¬ (a ≡ b) → (a == b) ≡ false
eq-false a b h = ground arith

pub reads_same :
    (g : ℕ → ℕ) (c d : ℕ) (u v : Text)
    → u ≡ g c ∷ []
    → v ≡ g d ∷ []
    → reads (Machine.literal u) v ≡ (g c == g d)
unfolding reads
reads_same g c d u v hu hv = elim (Text-discrete u v) [
  | yes e ↦
      let same : g c ≡ g d = cc in
      if_pos (Text-discrete u v) e true false ∙ sym (eq-true (g c) (g d) same)
  | no n ↦
      if_neg (Text-discrete u v) n true false
      ∙ sym (eq-false (g c) (g d) λ h. n (hu ∙ (ap (λ x. x ∷ []) h ∙ sym hv)))
]

pub literals_of-map :
    (ns : List Node) (needle : Text) → literals_of ns ≡ some needle → ns ≡ map literal needle
unfolding literals_of add_character
literals_of-map [] needle h = let same : [] ≡ needle = cc in ap (map literal) same
literals_of-map (literal c ∷ ns) needle h = elim (Option-cases (literals_of ns)) [
  | inl nothing ↦ absurd (none≢some needle (rw nothing at h))
  | inr (rest, found) ↦
      let same : c ∷ rest ≡ needle = some-inj (c ∷ rest) needle (rw found at h) in
      ap (◌∷◌ (literal c)) (literals_of-map ns rest found) ∙ ap (map literal) same
]
literals_of-map (empty ∷ ns) needle h = absurd (none≢some needle h)
literals_of-map (class s ∷ ns) needle h = absurd (none≢some needle h)
literals_of-map (any ∷ ns) needle h = absurd (none≢some needle h)
literals_of-map (start ∷ ns) needle h = absurd (none≢some needle h)
literals_of-map (end ∷ ns) needle h = absurd (none≢some needle h)
literals_of-map (concat n ms ∷ ns) needle h = absurd (none≢some needle h)
literals_of-map (alt n ms ∷ ns) needle h = absurd (none≢some needle h)
literals_of-map (star n ∷ ns) needle h = absurd (none≢some needle h)
literals_of-map (plus n ∷ ns) needle h = absurd (none≢some needle h)
literals_of-map (optional n ∷ ns) needle h = absurd (none≢some needle h)

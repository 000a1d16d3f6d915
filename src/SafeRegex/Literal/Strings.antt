-- ===== src/SafeRegex/Literal/Strings.antt =====
-- The string tests of `SafeRegex.search` as one test at a position
-- (src/workspace_guard_mcp/safe_regex.py).
use sandboxed_workspace_mcp.Base.{
  ℕ, zero, suc, ◌+◌, ◌≡◌, ◌≤◌, refl, true, false≢true, Text, [], ◌∷◌, ◌==◌, length, drop, arith,
  Bool-cases, inl, inr,
}
use sandboxed_workspace_mcp.SafeRegex.Literal.{text_eq, starts_with, ends_with, contains}

pub text_eq-to :
    (n h : Text) → text_eq n h ≡ true → (starts_with n h ≡ true) × (length n ≡ length h)
unfolding text_eq starts_with
text_eq-to [] [] e = (refl, refl)
text_eq-to [] (d ∷ ds) e = absurd (false≢true e)
text_eq-to (c ∷ cs) [] e = absurd (false≢true e)
text_eq-to (c ∷ cs) (d ∷ ds) e = elim (Bool-cases (c == d)) [
  | inl same ↦
      let (front, size) = text_eq-to cs ds (rw same at e) in (rw same front, omega (arith, size))
  | inr other ↦ absurd (false≢true (rw other at e))
]

pub text_eq-from : (n h : Text) → starts_with n h ≡ true → length n ≡ length h → text_eq n h ≡ true
unfolding text_eq starts_with
text_eq-from [] [] e size = refl
text_eq-from [] (d ∷ ds) e size = absurd (omega (arith, size))
text_eq-from (c ∷ cs) [] e size = absurd (false≢true e)
text_eq-from (c ∷ cs) (d ∷ ds) e size = elim (Bool-cases (c == d)) [
  | inl same ↦ rw same (text_eq-from cs ds (rw same at e) (omega (arith, size)))
  | inr other ↦ absurd (false≢true (rw other at e))
]

abbrev pub StartsAt : Text → Text → ℕ → Type 0
StartsAt n h i = (i ≤ length h) × (starts_with n (drop i h) ≡ true)

pub contains-to : (n h : Text) → contains n h ≡ true → (i : ℕ) × StartsAt n h i
unfolding contains
contains-to n [] e = (0, (omega arith, e))
contains-to n (d ∷ ds) e = elim (Bool-cases (starts_with n (d ∷ ds))) [
  | inl here ↦ (0, (omega arith, here))
  | inr later ↦
      let (i, (low, front)) = contains-to n ds (rw later at e) in
      (suc i, (omega (arith, low), front))
]

pub contains-from : (n h : Text) (i : ℕ) → StartsAt n h i → contains n h ≡ true
unfolding contains
contains-from n [] zero (low, front) = front
contains-from n [] (suc i) (low, front) = absurd (omega (arith, low))
contains-from n (d ∷ ds) zero (low, front) = ground (arith, front)
contains-from n (d ∷ ds) (suc i) (low, front) =
    ground (arith, contains-from n ds i (omega (arith, low), front))

pub ends_with-to :
    (n h : Text) → ends_with n h ≡ true → (i : ℕ) × StartsAt n h i × (i + length n ≡ length h)
unfolding ends_with
ends_with-to n [] e =
    let (front, size) = text_eq-to n [] e in (0, (omega arith, front), omega (arith, size))
ends_with-to n (d ∷ ds) e = elim (Bool-cases (text_eq n (d ∷ ds))) [
  | inl whole ↦
      let (front, size) = text_eq-to n (d ∷ ds) whole in
      (0, (omega arith, front), omega (arith, size))
  | inr later ↦
      let (i, (low, front), size) = ends_with-to n ds (rw later at e) in
      (suc i, (omega (arith, low), front), omega (arith, size))
]

pub ends_with-from :
    (n h : Text) (i : ℕ) → StartsAt n h i → i + length n ≡ length h → ends_with n h ≡ true
unfolding ends_with
ends_with-from n [] zero (low, front) size = text_eq-from n [] front (omega (arith, size))
ends_with-from n [] (suc i) (low, front) size = absurd (omega (arith, low))
ends_with-from n (d ∷ ds) zero (low, front) size =
    ground (arith, text_eq-from n (d ∷ ds) front (omega (arith, size)))
ends_with-from n (d ∷ ds) (suc i) (low, front) size =
    ground (arith, ends_with-from n ds i (omega (arith, low), front) (omega (arith, size)))

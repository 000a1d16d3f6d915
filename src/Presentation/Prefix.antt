-- ===== src/Presentation/Prefix.antt =====
-- Cutting a text to a number of bytes (src/workspace_guard_mcp/result_presentation.py and
-- src/workspace_guard_mcp/bounded_output.py).
use sandboxed_workspace_mcp.Base.{
  ℕ, ◌+◌, ◌-◌, ◌≡◌, ◌≤◌, ◌<◌, refl, sym, ap, false, not, Text, [], ◌∷◌, ◌++◌, utf8_size, utf8_width,
  utf8_size-append, leb, arith, Bool-cases, inl, inr, append-nil,
}
use sandboxed_workspace_mcp.Presentation.{
  cut_utf8, preview_utf8, BoundedText, truncate_utf8_result, truncation_marker,
}

-- The longest prefix of `t` of at most `n` bytes.
pub record IsLongest (n : ℕ) (t p : Text) : Type 0 where
  pub rest : Text
  pub split : t ≡ p ++ rest
  pub fits : utf8_size p ≤ n
  pub longest : (c : ℕ) (more : Text) → rest ≡ c ∷ more → n < utf8_size p + utf8_width c

IsLongest-cons :
    (n c : ℕ) (t p : Text)
    → utf8_width c ≤ n
    → IsLongest (n - utf8_width c) t p
    → IsLongest n (c ∷ t) (c ∷ p)
unfolding utf8_size
IsLongest-cons n c t p h i = record {
  rest = i.rest;
  split = ap (◌∷◌ c) i.split;
  fits = omega (arith, i.fits);
  longest = λ d more e. omega (arith, i.longest d more e);
}

pub cut_utf8-IsLongest : (n : ℕ) (t : Text) → IsLongest n t (cut_utf8 n t)
unfolding cut_utf8 utf8_size
cut_utf8-IsLongest n [] = record {
  rest = [];
  split = refl;
  fits = omega arith;
  longest = λ c more e. cc;
}
cut_utf8-IsLongest n (c ∷ cs) = elim (Bool-cases (leb (utf8_width c) n)) [
  | inl room ↦
      rw room (IsLongest-cons n c cs _ (ground arith) (cut_utf8-IsLongest (n - utf8_width c) cs))
  | inr tight ↦ rw tight (record {
    rest = c ∷ cs;
    split = refl;
    fits = omega arith;
    longest = λ d more e. (let first : c ≡ d = cc in rw (sym first) (ground arith));
  })
]

whole-IsLongest : (n : ℕ) (t : Text) → utf8_size t ≤ n → IsLongest n t t
whole-IsLongest n t h = record {
  rest = [];
  split = sym (append-nil t);
  fits = h;
  longest = λ c more e. cc;
}

-- `preview_utf8` returns the longest prefix of the text whose encoding has at most `max_bytes` bytes.
pub preview_utf8-IsLongest :
    (t : Text) (max_bytes : ℕ) → IsLongest max_bytes t (preview_utf8 t max_bytes)
unfolding preview_utf8
preview_utf8-IsLongest t max_bytes = elim (Bool-cases (leb (utf8_size t) max_bytes)) [
  | inl small ↦ rw small (whole-IsLongest max_bytes t (ground arith))
  | inr large ↦ rw large (cut_utf8-IsLongest max_bytes t)
]

-- The outcome of `truncate_utf8_result`.
pub record IsBounded (t : Text) (max_bytes : ℕ) (r : BoundedText) : Type 0 where
  pub fits : utf8_size r.rendered ≤ max_bytes
  pub marked : r.truncated ≡ not (leb (utf8_size t) max_bytes)
  pub whole : r.truncated ≡ false → r.rendered ≡ t

marked_fits :
    (n : ℕ) (p : Text)
    → utf8_size truncation_marker ≤ n
    → utf8_size p ≤ n - utf8_size truncation_marker
    → utf8_size (p ++ truncation_marker) ≤ n
marked_fits n p h i = omega (arith, utf8_size-append p truncation_marker, h, i)

-- `truncate_utf8_result` stays within the bound whatever the bound is, the marker included, marks the
-- result exactly where the text did not fit, and returns an unmarked text as it was.
pub truncate_utf8_result-IsBounded :
    (t : Text) (max_bytes : ℕ) → IsBounded t max_bytes (truncate_utf8_result t max_bytes)
unfolding truncate_utf8_result
truncate_utf8_result-IsBounded t n = elim (Bool-cases (leb (utf8_size t) n)) [
  | inl small ↦ rw small (record { fits = ground arith; marked = rw small; whole = λ e. refl })
  | inr large ↦ elim (Bool-cases (leb n (utf8_size truncation_marker))) [
    | inl tight ↦ rw large (
        rw tight (record {
          fits = (cut_utf8-IsLongest n truncation_marker).fits;
          marked = rw large;
          whole = λ e. cc;
        }))
    | inr room ↦ rw large (
        rw room (record {
          fits =
              marked_fits n _ (ground arith)
                (cut_utf8-IsLongest (n - utf8_size truncation_marker) t).fits;
          marked = rw large;
          whole = λ e. cc;
        }))
  ]
]

-- ===== src/BoundedOutput/Capture.antt =====
-- `BoundedOutput` against the stream of all bytes that were written to it.
use sandboxed_workspace_mcp.Base.{
  ℕ, zero, suc, ◌+◌, ◌-◌, ◌≡◌, refl, sym, ap, ◌∙◌, Bool, true, false, ◌||◌, List, [], ◌∷◌, ◌++◌,
  length, take, ltb, if◌then◌else◌, arith, length-take, length-append, append-nil, append_assoc,
  min,
}
use sandboxed_workspace_mcp.Streams.{
  Bytes, Stream, tag, same, select, select-append, select-tag, take-append, take-tag, length-tag,
}
use sandboxed_workspace_mcp.BoundedOutput.{
  BoundedOutput, Source, from_stdout, from_stderr, from_diagnostic, init, observe, extend, capture,
  append,
}

abbrev pub is_stdout : Source → Bool
is_stdout from_stdout = true
is_stdout from_stderr = false
is_stdout from_diagnostic = false

-- What is captured of a stream.
pub record Captures (limit : ℕ) (s : Stream) (b : BoundedOutput) : Type 0 where
  pub limited : b.limit ≡ limit
  pub out : b.stdout ≡ select true (take limit s)
  pub errors : b.stderr ≡ select false (take limit s)
  pub sized : b.size ≡ min limit (length s)
  pub marked : b.truncated ≡ ltb limit (length s)

init-Captures : (limit : ℕ) → Captures limit [] (init limit)
unfolding init select
init-Captures zero = record {
  limited = refl;
  out = refl;
  errors = refl;
  sized = refl;
  marked = refl;
}
init-Captures (suc n) = record {
  limited = refl;
  out = refl;
  errors = refl;
  sized = omega arith;
  marked = ground arith;
}

-- One write extends the stream.
kept_part :
    (t : Bool) (limit : ℕ) (s : Stream) (u : Bool) (cs : Bytes)
    → select t (take limit (s ++ tag u cs))
      ≡ select t (take limit s) ++ (if same t u then take (limit - length s) cs else [])
kept_part t limit s u cs =
    ap (select t) (
      take-append limit s (tag u cs)
      ∙ ap (λ r. take limit s ++ r) (take-tag u (limit - length s) cs))
    ∙ (select-append t (take limit s) (tag u (take (limit - length s) cs))
        ∙ ap (λ r. select t (take limit s) ++ r) (select-tag t u (take (limit - length s) cs)))

whole : (u : Bool) (s : Stream) (cs : Bytes) → length (s ++ tag u cs) ≡ length s + length cs
whole u s cs = omega (arith, length-append {0} s (tag u cs), length-tag u cs)

nothing_taken {ℓ} : {A : Type ℓ} (n : ℕ) (xs : List A) → n ≡ 0 → take n xs ≡ []
nothing_taken n xs h = rw h refl

-- What one write does, with the test for a full buffer gone.
module _ (source : Source) (cs : Bytes) (b : BoundedOutput) where
  abbrev room : ℕ
  room = b.limit - b.size

  append-limit : (append source cs b).limit ≡ b.limit
  unfolding append capture observe extend
  append-limit = ground arith

  append-out :
      (append source cs b).stdout
      ≡ b.stdout ++ (if same true (is_stdout source) then take room cs else [])
  unfolding append capture observe extend
  append-out = ground (arith, append-nil b.stdout, nothing_taken room cs)

  append-errors :
      (append source cs b).stderr
      ≡ b.stderr ++ (if same false (is_stdout source) then take room cs else [])
  unfolding append capture observe extend
  append-errors = ground (arith, append-nil b.stderr, nothing_taken room cs)

  append-size : (append source cs b).size ≡ b.size + min room (length cs)
  unfolding append capture observe extend
  append-size = ground (arith, length-take room cs)

  append-truncated : (append source cs b).truncated ≡ (b.truncated || ltb room (length cs))
  unfolding append capture observe extend
  append-truncated = ground (arith, length-take room cs)

append-Captures :
    (limit : ℕ) (s : Stream) (source : Source) (cs : Bytes) (b : BoundedOutput)
    → Captures limit s b
    → Captures limit (s ++ tag (is_stdout source) cs) (append source cs b)
append-Captures limit s source cs b h =
    let u = is_stdout source in
    let count = whole u s cs in
    let left : b.limit - b.size ≡ limit - length s = omega (arith, h.limited, h.sized) in
    record {
      limited = append-limit source cs b ∙ h.limited;
      out = append-out source cs b ∙ (rw (left, h.out) (sym (kept_part true limit s u cs)));
      errors =
          append-errors source cs b ∙ (rw (left, h.errors) (sym (kept_part false limit s u cs)));
      sized = omega (arith, append-size source cs b, left, h.sized, count);
      marked = append-truncated source cs b ∙ rw (left, h.marked, count) (ground arith);
    }

-- A run of writes, and the stream of the bytes that they write.
abbrev pub append_all : List (Source × Bytes) → BoundedOutput → BoundedOutput
append_all [] b = b
append_all ((source, bytes) ∷ rest) b = append_all rest (append source bytes b)

abbrev pub stream_of : List (Source × Bytes) → Stream
stream_of [] = []
stream_of ((source, bytes) ∷ rest) = tag (is_stdout source) bytes ++ stream_of rest

run-Captures :
    (limit : ℕ) (s : Stream) (writes : List (Source × Bytes)) (b : BoundedOutput)
    → Captures limit s b
    → Captures limit (s ++ stream_of writes) (append_all writes b)
run-Captures limit s [] b h = rw (append-nil s) h
run-Captures limit s ((source, bytes) ∷ rest) b h =
    let grown =
      run-Captures limit (s ++ tag (is_stdout source) bytes) rest (append source bytes b)
        (append-Captures limit s source bytes b h) in
    rw (sym (append_assoc s (tag (is_stdout source) bytes) (stream_of rest))) grown

-- After any run of writes to a new buffer, the buffer holds the first `limit` bytes of everything that
-- was written, each on its own stream and in order, and it is marked as truncated exactly if more was
-- written.
pub append_all-Captures :
    (limit : ℕ) (writes : List (Source × Bytes))
    → Captures limit (stream_of writes) (append_all writes (init limit))
append_all-Captures limit writes = run-Captures limit [] writes (init limit) (init-Captures limit)

-- How many bytes the program itself wrote to a stream: diagnostics of the server do not count.
abbrev pub written_out : List (Source × Bytes) → ℕ
written_out [] = 0
written_out ((from_stdout, bytes) ∷ rest) = length bytes + written_out rest
written_out ((from_stderr, bytes) ∷ rest) = written_out rest
written_out ((from_diagnostic, bytes) ∷ rest) = written_out rest

abbrev pub written_errors : List (Source × Bytes) → ℕ
written_errors [] = 0
written_errors ((from_stdout, bytes) ∷ rest) = written_errors rest
written_errors ((from_stderr, bytes) ∷ rest) = length bytes + written_errors rest
written_errors ((from_diagnostic, bytes) ∷ rest) = written_errors rest

module _ (source : Source) (cs : Bytes) (b : BoundedOutput) where
  append-observed :
      ((append source cs b).observed_stdout_bytes
        ≡ b.observed_stdout_bytes + written_out ((source, cs) ∷ []))
      × ((append source cs b).observed_stderr_bytes
          ≡ b.observed_stderr_bytes + written_errors ((source, cs) ∷ []))
  unfolding append capture observe extend
  append-observed = (ground arith, ground arith)

one_more_write :
    (source : Source) (cs : Bytes) (rest : List (Source × Bytes))
    → (written_out ((source, cs) ∷ rest) ≡ written_out ((source, cs) ∷ []) + written_out rest)
      × (written_errors ((source, cs) ∷ rest)
          ≡ written_errors ((source, cs) ∷ []) + written_errors rest)
one_more_write from_stdout cs rest = (omega arith, omega arith)
one_more_write from_stderr cs rest = (omega arith, omega arith)
one_more_write from_diagnostic cs rest = (omega arith, omega arith)

-- The lifetime counters count every byte that the program wrote, kept or not, and no byte of the
-- server's own diagnostics.
pub append_all-observed :
    (writes : List (Source × Bytes)) (b : BoundedOutput)
    → ((append_all writes b).observed_stdout_bytes ≡ b.observed_stdout_bytes + written_out writes)
      × ((append_all writes b).observed_stderr_bytes
          ≡ b.observed_stderr_bytes + written_errors writes)
append_all-observed [] b = (omega arith, omega arith)
append_all-observed ((source, cs) ∷ rest) b =
    let later = append_all-observed rest (append source cs b) in
    let now = append-observed source cs b in
    let both = one_more_write source cs rest in
    (omega (arith, later.0, now.0, both.0), omega (arith, later.1, now.1, both.1))

-- ===== src/LogBuffer/Retained.antt =====
-- `TaskLogBuffer` against the stream of all bytes that were written to it
-- (src/workspace_guard_mcp/task_manager.py).
use sandboxed_workspace_mcp.Base.{
  ℕ, zero, suc, ◌+◌, ◌-◌, ◌≡◌, ◌≤◌, refl, sym, ap, ◌∙◌, subst, Bool, true, false, Option, none,
  some, ok, List, [], ◌∷◌, ◌++◌, length, drop, leb, if◌then◌else◌, arith, Bool-cases, inl, inr,
  length-append, length-drop, append-nil, append_assoc, min,
}
use sandboxed_workspace_mcp.Streams.{Bytes, Stream, tag, length-tag}
use sandboxed_workspace_mcp.LogBuffer.{
  LogChunk, LogBuffer, Source, from_stdout, from_stderr, from_diagnostic, on_stdout, init, count,
  trim, replace, push, append,
}
use sandboxed_workspace_mcp.LogBuffer.Trim.{flat, IsRing, IsTrimmed, trim-total}
use sandboxed_workspace_mcp.LogBuffer.Contents.{
  Retains, Retains-size, flat-append, Contiguous-append, grown, length-grown, last_of_last,
  last_of_new, count-Retains,
}

-- The buffer with its end moved on, before the bytes are stored.
abbrev advanced : ℕ → LogBuffer → LogBuffer
advanced n b = record b { next_cursor = b.next_cursor + n }

module _ (capacity : ℕ) (total : Stream) (u : Bool) (bytes : Bytes) (b : LogBuffer)
    (h : Retains capacity total b) where
  replace-Retains :
      leb capacity (length bytes) ≡ true
      → Retains capacity
          (grown capacity total u bytes)
          (replace u bytes (advanced (length bytes) b))
  unfolding replace
  replace-Retains large =
      let enough : capacity ≤ length bytes = ground arith in
      let kept = length-drop (length bytes - b.capacity) bytes in
      let tagged = length-tag u (drop (length bytes - b.capacity) bytes) in
      let same_part = ap (λ n. tag u (drop (length bytes - n) bytes)) h.limited in
      record {
        ring = record {
          sized = omega (
            arith,
            kept,
            tagged,
            length-append {0} (tag u (drop (length bytes - b.capacity) bytes)) [],
          );
          contiguous = (refl, omega (arith, kept, h.ended), refl);
        };
        limited = h.limited;
        contents =
            append-nil (tag u (drop (length bytes - b.capacity) bytes))
            ∙ (same_part ∙ last_of_new capacity total u bytes enough);
        ended = omega (arith, h.ended, length-grown capacity total u bytes);
      }

  abbrev with_chunk : LogBuffer
  with_chunk = push u b.next_cursor bytes (advanced (length bytes) b)

  pushed-IsRing : IsRing with_chunk
  unfolding push
  pushed-IsRing =
      let c : LogChunk = record {
        start = b.next_cursor;
        end = b.next_cursor + length bytes;
        is_stdout = u;
        bytes = bytes;
      } in
      record {
        sized = omega (
          arith,
          h.ring.sized,
          ap length (flat-append b.chunks c),
          length-append {0} (flat b.chunks) (tag u bytes),
          length-tag u bytes,
        );
        contiguous =
            Contiguous-append b.base_cursor b.next_cursor b.chunks c h.ring.contiguous refl refl;
      }

  pushed_bytes : flat with_chunk.chunks ≡ drop (length total - capacity) total ++ tag u bytes
  unfolding push
  pushed_bytes = flat-append b.chunks _ ∙ ap (λ r. r ++ tag u bytes) h.contents

  pushed_size :
      with_chunk.size - with_chunk.capacity ≡ min capacity (length total) + length bytes - capacity
  unfolding push
  pushed_size = omega (arith, Retains-size capacity total b h, h.limited)

  pushed_same :
      (with_chunk.capacity ≡ b.capacity) × (with_chunk.next_cursor ≡ b.next_cursor + length bytes)
  unfolding push
  pushed_same = (refl, refl)

  trimmed-Retains :
      (after : LogBuffer)
      → IsTrimmed with_chunk after
      → Retains capacity (grown capacity total u bytes) after
  trimmed-Retains after t = record {
    ring = t.ring;
    limited = t.capacity ∙ (pushed_same.0 ∙ h.limited);
    contents =
        t.contents
        ∙ (ap (drop (with_chunk.size - with_chunk.capacity)) pushed_bytes
            ∙ last_of_last capacity total u bytes (with_chunk.size - with_chunk.capacity)
                pushed_size);
    ended =
        omega (arith, t.next_cursor, pushed_same.1, h.ended, length-grown capacity total u bytes);
  }

  stored :
      (after : LogBuffer) × ((if leb b.capacity (length bytes)
          then some (replace u bytes (advanced (length bytes) b))
          else trim (suc (suc (length with_chunk.chunks))) with_chunk)
        ≡ some after)
      × Retains capacity (grown capacity total u bytes) after
  stored = elim (Bool-cases (leb b.capacity (length bytes))) [
    | inl large ↦ (
      replace u bytes (advanced (length bytes) b),
      rw large refl,
      replace-Retains (ap (λ n. leb n (length bytes)) (sym h.limited) ∙ large),
    )
    | inr small ↦
        let (after, run, t) =
          trim-total (suc (suc (length with_chunk.chunks))) with_chunk.chunks with_chunk
            pushed-IsRing (omega arith) in
        (after, (rw small run), trimmed-Retains after t)
  ]

pub append-Retains :
    (capacity : ℕ) (total : Stream) (source : Source) (bytes : Bytes) (b : LogBuffer)
    → Retains capacity total b
    → (after : LogBuffer) × (append source bytes b ≡ some after)
      × Retains capacity (total ++ tag (on_stdout source) bytes) after
unfolding append
append-Retains capacity total source [] b h = (b, refl, rw (append-nil total) h)
append-Retains capacity total source (c ∷ cs) b h =
    let n = length (c ∷ cs) in
    let (after, run, kept) =
      stored capacity total (on_stdout source) (c ∷ cs) (count source n b)
        (count-Retains capacity total source n b h) in
    (after, run, kept)

-- A run of writes, and the stream of the bytes that they write.
abbrev pub append_all : List (Source × Bytes) → LogBuffer → Option LogBuffer
append_all [] b = some b
append_all ((source, bytes) ∷ rest) b = elim (append source bytes b) [
  | none ↦ none
  | some b' ↦ append_all rest b'
]

abbrev pub stream_of : List (Source × Bytes) → Stream
stream_of [] = []
stream_of ((source, bytes) ∷ rest) = tag (on_stdout source) bytes ++ stream_of rest

pub run-Retains :
    (capacity : ℕ) (total : Stream) (writes : List (Source × Bytes)) (b : LogBuffer)
    → Retains capacity total b
    → (after : LogBuffer) × (append_all writes b ≡ some after)
      × Retains capacity (total ++ stream_of writes) after
run-Retains capacity total [] b h = (b, refl, rw (append-nil total) h)
run-Retains capacity total ((source, bytes) ∷ rest) b h =
    let (b1, one_write, h1) = append-Retains capacity total source bytes b h in
    let (after, others, kept) =
      run-Retains capacity (total ++ tag (on_stdout source) bytes) rest b1 h1 in
    (
      after,
      rw (one_write, append_all) others,
      subst (λ s. Retains capacity s after)
          (append_assoc total (tag (on_stdout source) bytes) (stream_of rest)) kept,
    )

abbrev pub empty_ring : ℕ → LogBuffer
empty_ring capacity = record {
  capacity = capacity;
  chunks = [];
  base_cursor = 0;
  next_cursor = 0;
  size = 0;
  dropped = false;
  runtime_stdout_bytes = 0;
  runtime_stderr_bytes = 0;
}

empty_ring-Retains : (capacity : ℕ) → Retains capacity [] (empty_ring capacity)
empty_ring-Retains zero = record {
  ring = record { sized = refl; contiguous = refl };
  limited = refl;
  contents = refl;
  ended = refl;
}
empty_ring-Retains (suc n) = record {
  ring = record { sized = refl; contiguous = refl };
  limited = refl;
  contents = (let none_over : 0 - suc n ≡ 0 = omega arith in rw none_over refl);
  ended = refl;
}

pub init-Retains : (capacity : ℕ) {b : LogBuffer} → init capacity ≡ ok b → Retains capacity [] b
unfolding init
init-Retains zero h = cc
init-Retains (suc n) {b} h =
    let same : empty_ring (suc n) ≡ b = cc in
    subst (Retains (suc n) []) same (empty_ring-Retains (suc n))

-- A run of writes to a new ring never fails, and the ring then holds the last `capacity` bytes of all
-- that was written, in order and each under its stream, with the end cursor at their number.
pub append_all-Retains :
    (capacity : ℕ) (b : LogBuffer) (writes : List (Source × Bytes))
    → init capacity ≡ ok b
    → (after : LogBuffer) × (append_all writes b ≡ some after)
      × Retains capacity (stream_of writes) after
append_all-Retains capacity b writes h = run-Retains capacity [] writes b (init-Retains capacity h)

replaced_whole :
    (u : Bool) (bytes : Bytes) (b : LogBuffer)
    → length bytes ≡ b.capacity
    → (flat (replace u bytes b).chunks ≡ tag u bytes) × ((replace u bytes b).dropped ≡ true)
unfolding replace
replaced_whole u bytes b h =
    let none_over : length bytes - b.capacity ≡ 0 = omega (arith, h) in
    (ap (λ n. tag u (drop n bytes) ++ []) none_over ∙ append-nil (tag u bytes), refl)

capacity-count :
    (source : Source) (n : ℕ) (b : LogBuffer) → (count source n b).capacity ≡ b.capacity
unfolding count
capacity-count from_stdout n b = refl
capacity-count from_stderr n b = refl
capacity-count from_diagnostic n b = refl

-- A write of exactly `capacity` bytes to a new ring, by the program or of diagnostics, is retained
-- whole, and the ring is marked as having dropped output all the same.
pub exact_fill :
    (capacity : ℕ) (b : LogBuffer) (source : Source) (bytes : Bytes)
    → init capacity ≡ ok b
    → length bytes ≡ capacity
    → (after : LogBuffer) × (append source bytes b ≡ some after)
      × (flat after.chunks ≡ tag (on_stdout source) bytes)
      × (after.dropped ≡ true)
unfolding append init
exact_fill zero b source bytes h e = cc
exact_fill (suc n) b source [] h e = cc
exact_fill (suc n) b source (c ∷ cs) h e =
    let counted = count source (length (c ∷ cs)) b in
    let limited : b.capacity ≡ suc n = ground arith in
    let counted_limit : counted.capacity ≡ suc n = capacity-count source _ b ∙ limited in
    let full : leb counted.capacity (length (c ∷ cs)) ≡ true = ground arith in
    let (whole, marked) =
      replaced_whole (on_stdout source) (c ∷ cs) (advanced (length (c ∷ cs)) counted)
        (e ∙ sym counted_limit) in
    (
      replace (on_stdout source) (c ∷ cs) (advanced (length (c ∷ cs)) counted),
      rw full refl,
      whole,
      marked,
    )

-- ===== src/LogBuffer/Trim.antt =====
-- `_trim_locked` of src/workspace_guard_mcp/task_manager.py on the bytes that the chunks hold.
use sandboxed_workspace_mcp.Base.{
  ℕ, zero, suc, ◌+◌, ◌-◌, ◌≡◌, ◌≤◌, ◌<◌, refl, sym, ap, ◌∙◌, true, false, ◌||◌, some, List, [], ◌∷◌,
  ◌++◌, length, drop, ltb, leb, if◌then◌else◌, arith, Bool-cases, inl, inr, length-append,
  length-drop,
}
use sandboxed_workspace_mcp.Streams.{Stream, tag, length-tag, drop-tag, drop_front, drop_within}
use sandboxed_workspace_mcp.LogBuffer.{LogChunk, LogBuffer, trim_chunk, trim_step, trim}

-- The bytes of the chunks, each tagged with its stream.
abbrev pub flat : List LogChunk → Stream
flat [] = []
flat (chunk ∷ chunks) = tag chunk.is_stdout chunk.bytes ++ flat chunks

-- The chunks lie end to end between two cursors.
abbrev pub Contiguous : ℕ → List LogChunk → ℕ → Type 0
Contiguous at [] end = at ≡ end
Contiguous at (chunk ∷ chunks) end =
    (chunk.start ≡ at) × (chunk.end ≡ at + length chunk.bytes) × Contiguous chunk.end chunks end

pub record IsRing (b : LogBuffer) : Type 0 where
  pub sized : b.size ≡ length (flat b.chunks)
  pub contiguous : Contiguous b.base_cursor b.chunks b.next_cursor

pub record IsTrimmed (b after : LogBuffer) : Type 0 where
  pub ring : IsRing after
  pub contents : flat after.chunks ≡ drop (b.size - b.capacity) (flat b.chunks)
  pub capacity : after.capacity ≡ b.capacity
  pub next_cursor : after.next_cursor ≡ b.next_cursor
  pub dropped : after.dropped ≡ (b.dropped || ltb b.capacity b.size)
  pub stdout_bytes : after.runtime_stdout_bytes ≡ b.runtime_stdout_bytes
  pub stderr_bytes : after.runtime_stderr_bytes ≡ b.runtime_stderr_bytes

abbrev with_chunks : List LogChunk → LogBuffer → LogBuffer
with_chunks cs b = record b { chunks = cs }

length-flat :
    (c : LogChunk) (cs : List LogChunk) → length (flat (c ∷ cs)) ≡ length c.bytes + length (flat cs)
length-flat c cs =
    omega
      (arith, length-append {0} (tag c.is_stdout c.bytes) (flat cs), length-tag c.is_stdout c.bytes)

fits-IsTrimmed : (b : LogBuffer) → IsRing b → ltb b.capacity b.size ≡ false → IsTrimmed b b
fits-IsTrimmed b r h = record {
  ring = r;
  contents = (let nothing : b.size - b.capacity ≡ 0 = ground arith in rw nothing refl);
  capacity = refl;
  next_cursor = refl;
  dropped = ground arith;
  stdout_bytes = refl;
  stderr_bytes = refl;
}

trim_fits : (fuel : ℕ) (b : LogBuffer) → ltb b.capacity b.size ≡ false → trim (suc fuel) b ≡ some b
unfolding trim
trim_fits fuel b h = rw h

trim_over :
    (fuel : ℕ) (c : LogChunk) (cs : List LogChunk) (b : LogBuffer)
    → ltb b.capacity b.size ≡ true
    → trim (suc fuel) (with_chunks (c ∷ cs) b)
      ≡ trim fuel (trim_chunk c cs (b.size - b.capacity) (with_chunks (c ∷ cs) b))
unfolding trim trim_step
trim_over fuel c cs b h = rw h refl

-- The two outcomes of a round.
abbrev popped : LogChunk → List LogChunk → LogBuffer → LogBuffer
popped c cs b = record b {
  chunks = cs;
  size = b.size - length c.bytes;
  base_cursor = c.end;
  dropped = true;
}

abbrev cut : LogChunk → List LogChunk → LogBuffer → LogBuffer
cut c cs b =
    let overflow = b.size - b.capacity in
    record b {
      chunks = record c { start = c.start + overflow; bytes = drop overflow c.bytes } ∷ cs;
      size = b.size - overflow;
      base_cursor = c.start + overflow;
      dropped = true;
    }

trim_chunk-eq :
    (c : LogChunk) (cs : List LogChunk) (b : LogBuffer)
    → trim_chunk c cs (b.size - b.capacity) b
      ≡ (if leb (length c.bytes) (b.size - b.capacity) then popped c cs b else cut c cs b)
unfolding trim_chunk
trim_chunk-eq c cs b = refl

-- The first chunk is dropped, and the rounds that follow are seen from before it.
module _ (c : LogChunk) (cs : List LogChunk) (b : LogBuffer) (r : IsRing (with_chunks (c ∷ cs) b))
    (over : ltb b.capacity b.size ≡ true) where
  popped-IsRing : IsRing (popped c cs b)
  popped-IsRing = record {
    sized = omega (arith, r.sized, length-flat c cs);
    contiguous = r.contiguous.2;
  }

  popped-IsTrimmed :
      (after : LogBuffer)
      → leb (length c.bytes) (b.size - b.capacity) ≡ true
      → IsTrimmed (popped c cs b) after
      → IsTrimmed (with_chunks (c ∷ cs) b) after
  popped-IsTrimmed after h t =
      let within : length (tag c.is_stdout c.bytes) ≤ b.size - b.capacity =
        ground (arith, length-tag c.is_stdout c.bytes) in
      let left : b.size - length c.bytes - b.capacity
          ≡ b.size - b.capacity - length (tag c.is_stdout c.bytes) =
        omega (arith, length-tag c.is_stdout c.bytes) in
      record {
        ring = t.ring;
        contents =
            t.contents
            ∙ (ap (λ n. drop n (flat cs)) left
                ∙ sym
                    (drop_front (b.size - b.capacity) (tag c.is_stdout c.bytes) (flat cs) within));
        capacity = t.capacity;
        next_cursor = t.next_cursor;
        dropped = ground (arith, t.dropped, over);
        stdout_bytes = t.stdout_bytes;
        stderr_bytes = t.stderr_bytes;
      }

  -- The first chunk is cut, after which the ring is full.
  cut-IsTrimmed :
      leb (length c.bytes) (b.size - b.capacity) ≡ false
      → IsTrimmed (with_chunks (c ∷ cs) b) (cut c cs b)
  cut-IsTrimmed h =
      let overflow = b.size - b.capacity in
      let within : overflow ≤ length c.bytes = ground arith in
      let rest = length-drop overflow c.bytes in
      let whole = length-flat c cs in
      let part = length-flat (record c { bytes = drop overflow c.bytes }) cs in
      record {
        ring = record {
          sized = omega (arith, r.sized, whole, part, rest, within);
          contiguous =
              (refl, omega (arith, r.contiguous.0, r.contiguous.1, rest, within), r.contiguous.2);
        };
        contents = sym (
            drop_within overflow (tag c.is_stdout c.bytes) (flat cs)
              (omega (arith, within, length-tag c.is_stdout c.bytes))
            ∙ ap (λ x. x ++ flat cs) (drop-tag c.is_stdout overflow c.bytes));
        capacity = refl;
        next_cursor = refl;
        dropped = ground arith;
        stdout_bytes = refl;
        stderr_bytes = refl;
      }

pub trim-total :
    (fuel : ℕ) (cs : List LogChunk) (b : LogBuffer)
    → IsRing (with_chunks cs b)
    → suc (length cs) < fuel
    → (after : LogBuffer) × (trim fuel (with_chunks cs b) ≡ some after)
      × IsTrimmed (with_chunks cs b) after
trim-total zero cs b r enough = absurd (omega arith)
trim-total (suc fuel) [] b r enough =
    let fits : ltb b.capacity b.size ≡ false = ground (arith, r.sized) in
    (
      with_chunks [] b,
      trim_fits fuel (with_chunks [] b) fits,
      fits-IsTrimmed (with_chunks [] b) r fits,
    )
trim-total (suc zero) (c ∷ cs) b r enough = absurd (omega arith)
trim-total (suc (suc fuel)) (c ∷ cs) b r enough = elim (Bool-cases (ltb b.capacity b.size)) [
  | inr fits ↦ (
    with_chunks (c ∷ cs) b,
    trim_fits _ (with_chunks (c ∷ cs) b) fits,
    fits-IsTrimmed (with_chunks (c ∷ cs) b) r fits,
  )
  | inl over ↦
      let first =
        trim_over (suc fuel) c cs b over
        ∙ ap (trim (suc fuel)) (trim_chunk-eq c cs (with_chunks (c ∷ cs) b)) in
      elim (Bool-cases (leb (length c.bytes) (b.size - b.capacity))) [
        | inl h ↦
            let (after, run, t) =
              trim-total (suc fuel) cs (popped c cs b) (popped-IsRing c cs b r over)
                (omega arith) in
            (after, first ∙ (rw h run), popped-IsTrimmed c cs b r over after h t)
        | inr h ↦
            let full : ltb (cut c cs b).capacity (cut c cs b).size ≡ false = ground (arith) in
            (
              cut c cs b,
              first ∙ (rw h (trim_fits fuel (cut c cs b) full)),
              cut-IsTrimmed c cs b r over h,
            )
      ]
]

-- ===== src/LogBuffer/Contents.antt =====
-- What a ring holds of the stream of all bytes written (src/workspace_guard_mcp/task_manager.py).
use sandboxed_workspace_mcp.Base.{
  ℕ, ◌+◌, ◌-◌, ◌≡◌, ◌≤◌, refl, sym, ap, ◌∙◌, Bool, List, [], ◌∷◌, ◌++◌, length, drop, arith,
  length-append, length-drop, append-nil, append_assoc, min,
}
use sandboxed_workspace_mcp.Streams.{
  Bytes, Stream, tag, length-tag, drop-tag, drop_front, drop_within, drop-drop,
}
use sandboxed_workspace_mcp.LogBuffer.{
  LogChunk, LogBuffer, Source, from_stdout, from_stderr, from_diagnostic, count,
}
use sandboxed_workspace_mcp.LogBuffer.Trim.{flat, Contiguous, IsRing}

pub record Retains (capacity : ℕ) (total : Stream) (b : LogBuffer) : Type 0 where
  pub ring : IsRing b
  pub limited : b.capacity ≡ capacity
  pub contents : flat b.chunks ≡ drop (length total - capacity) total
  pub ended : b.next_cursor ≡ length total

pub Retains-size :
    (capacity : ℕ) (total : Stream) (b : LogBuffer)
    → Retains capacity total b
    → b.size ≡ min capacity (length total)
Retains-size capacity total b h =
    omega (arith, h.ring.sized, ap length h.contents, length-drop (length total - capacity) total)

pub flat-append :
    (cs : List LogChunk) (c : LogChunk) → flat (cs ++ c ∷ []) ≡ flat cs ++ tag c.is_stdout c.bytes
flat-append [] c = append-nil (tag c.is_stdout c.bytes)
flat-append (d ∷ cs) c =
    ap (λ r. tag d.is_stdout d.bytes ++ r) (flat-append cs c)
    ∙ sym (append_assoc (tag d.is_stdout d.bytes) (flat cs) (tag c.is_stdout c.bytes))

pub Contiguous-append :
    (at end : ℕ) (cs : List LogChunk) (c : LogChunk)
    → Contiguous at cs end
    → c.start ≡ end
    → c.end ≡ end + length c.bytes
    → Contiguous at (cs ++ c ∷ []) c.end
Contiguous-append at end [] c h s e = (s ∙ sym h, e ∙ ap (λ n. n + length c.bytes) (sym h), refl)
Contiguous-append at end (d ∷ cs) c h s e = (h.0, h.1, Contiguous-append d.end end cs c h.2 s e)

-- The cursors enclose as many bytes as the ring holds.
pub span : (at end : ℕ) (cs : List LogChunk) → Contiguous at cs end → at + length (flat cs) ≡ end
span at end [] h = omega (arith, h)
span at end (c ∷ cs) h = omega (
  arith,
  h.1,
  span c.end end cs h.2,
  length-append {0} (tag c.is_stdout c.bytes) (flat cs),
  length-tag c.is_stdout c.bytes,
)

module _ (capacity : ℕ) (total : Stream) (u : Bool) (bytes : Bytes) where
  abbrev pub grown : Stream
  grown = total ++ tag u bytes

  pub length-grown : length grown ≡ length total + length bytes
  length-grown = omega (arith, length-append {0} total (tag u bytes), length-tag u bytes)

  -- The last bytes of the longer stream, found in the last bytes of the shorter one.
  pub last_of_last :
      (k : ℕ)
      → k ≡ min capacity (length total) + length bytes - capacity
      → drop k (drop (length total - capacity) total ++ tag u bytes)
        ≡ drop (length grown - capacity) grown
  last_of_last k e =
      let j = length total - capacity in
      ap (drop k) (sym (drop_within j total (tag u bytes) (omega arith)))
      ∙ (drop-drop k j grown ∙ ap (λ n. drop n grown) (omega (arith, e, length-grown)))

  pub last_of_new :
      capacity ≤ length bytes
      → tag u (drop (length bytes - capacity) bytes) ≡ drop (length grown - capacity) grown
  last_of_new h =
      let past : length total ≤ length grown - capacity = omega (arith, length-grown, h) in
      let left : length bytes - capacity ≡ length grown - capacity - length total =
        omega (arith, length-grown, h) in
      sym (drop-tag u (length bytes - capacity) bytes)
      ∙ (ap (λ n. drop n (tag u bytes)) left
          ∙ sym (drop_front (length grown - capacity) total (tag u bytes) past))

pub count-Retains :
    (capacity : ℕ) (total : Stream) (source : Source) (n : ℕ) (b : LogBuffer)
    → Retains capacity total b
    → Retains capacity total (count source n b)
unfolding count
count-Retains capacity total from_stdout n b h = record {
  ring = record { sized = h.ring.sized; contiguous = h.ring.contiguous };
  limited = h.limited;
  contents = h.contents;
  ended = h.ended;
}
count-Retains capacity total from_stderr n b h = record {
  ring = record { sized = h.ring.sized; contiguous = h.ring.contiguous };
  limited = h.limited;
  contents = h.contents;
  ended = h.ended;
}
count-Retains capacity total from_diagnostic n b h = h

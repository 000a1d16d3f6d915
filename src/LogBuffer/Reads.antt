-- ===== src/LogBuffer/Reads.antt =====
-- `TaskLogBuffer.read` of src/workspace_guard_mcp/task_manager.py against slicing the whole stream.
use sandboxed_workspace_mcp.Base.{
  ℕ, ◌+◌, ◌-◌, ◌≡◌, ◌≤◌, ◌<◌, ap, ◌∙◌, subst, true, false, ok, err, [], length, take, drop, ltb,
  arith, length-drop, length-take, min, max, Text,
}
use sandboxed_workspace_mcp.Presentation.{preview_utf8}
use sandboxed_workspace_mcp.Presentation.Prefix.{IsLongest, preview_utf8-IsLongest}
use sandboxed_workspace_mcp.Streams.{Bytes, Stream, select, drop-drop}
use sandboxed_workspace_mcp.LogBuffer.{
  LogBuffer, log_error, LogPage, Collected, collect_all, decode_bounded, read,
  max_log_response_bytes,
}
use sandboxed_workspace_mcp.LogBuffer.Contents.{Retains, Retains-size, span}
use sandboxed_workspace_mcp.LogBuffer.Chunks.{IsCollected, ahead, collect_all-IsCollected}

-- The bytes of `total` that a read sends: 64 KiB from the cursor on, or from the first byte retained
-- if that is later.
abbrev pub sent : Stream → ℕ → ℕ → Stream
sent total cursor first = take max_log_response_bytes (drop (max cursor first) total)

-- What a page holds. The text of a stream is the longest prefix of its decoded bytes whose encoding
-- has no more bytes than there were.
pub record IsPage (decode : Bytes → Text) (total : Stream) (cursor first : ℕ) (page : LogPage)
    : Type 0 where
  pub starts : page.cursor ≡ max cursor first
  pub out :
      IsLongest
        (length (select true (sent total cursor first)))
        (decode (select true (sent total cursor first)))
        page.stdout
  pub errors :
      IsLongest
        (length (select false (sent total cursor first)))
        (decode (select false (sent total cursor first)))
        page.stderr
  pub resumes : page.next_cursor ≡ min (max cursor first + max_log_response_bytes) (length total)
  pub truncated : page.truncated ≡ ltb cursor first
  pub has_more : page.has_more ≡ ltb page.next_cursor (length total)

decode_bounded-IsLongest :
    (decode : Bytes → Text) (bytes slice : Bytes)
    → bytes ≡ slice
    → IsLongest (length slice) (decode slice) (decode_bounded decode bytes (length bytes))
unfolding decode_bounded preview_utf8
decode_bounded-IsLongest decode bytes slice same =
    subst (λ s. IsLongest (length s) (decode s) (decode_bounded decode bytes (length bytes))) same
      (preview_utf8-IsLongest (decode bytes) (length bytes))

abbrev start : ℕ → Collected
start effective = record {
  next_cursor = effective;
  remaining = max_log_response_bytes;
  stdout = [];
  stderr = [];
}

abbrev page_at : (Bytes → Text) → ℕ → LogBuffer → LogPage
page_at decode cursor b =
    let effective = max cursor b.base_cursor in
    let k = collect_all effective b.chunks (start effective) in
    record {
      cursor = effective;
      next_cursor = k.next_cursor;
      stdout = decode_bounded decode k.stdout (length k.stdout);
      stderr = decode_bounded decode k.stderr (length k.stderr);
      truncated = ltb cursor b.base_cursor;
      has_more = ltb k.next_cursor b.next_cursor;
    }

read_within :
    (decode : Bytes → Text) (cursor : ℕ) (b : LogBuffer)
    → cursor ≤ b.next_cursor
    → read decode cursor b ≡ ok (page_at decode cursor b)
unfolding read
read_within decode cursor b h =
    let inside : ltb b.next_cursor cursor ≡ false = ground arith in rw inside

module _ (capacity : ℕ) (total : Stream) (b : LogBuffer) (cursor : ℕ)
    (h : Retains capacity total b) where
  base_of : b.base_cursor ≡ length total - capacity
  base_of = omega (
    arith,
    span b.base_cursor b.next_cursor b.chunks h.ring.contiguous,
    h.ring.sized,
    Retains-size capacity total b h,
    h.ended,
  )

  ahead_of :
      ahead (max cursor b.base_cursor) b.base_cursor b.chunks
      ≡ drop (max cursor (length total - capacity)) total
  ahead_of =
      let over = max cursor b.base_cursor - b.base_cursor in
      ap (drop over) h.contents
      ∙ (drop-drop over (length total - capacity) total
          ∙ ap (λ n. drop n total) (omega (arith, base_of)))

  page_at-IsPage :
      (decode : Bytes → Text)
      → cursor ≤ length total
      → IsPage decode total cursor (length total - capacity) (page_at decode cursor b)
  page_at-IsPage decode low =
      let effective = max cursor b.base_cursor in
      let i =
        subst
          (λ s. IsCollected s (start effective) (collect_all effective b.chunks (start effective)))
          ahead_of
          (collect_all-IsCollected effective b.base_cursor b.next_cursor b.chunks (start effective)
            h.ring.contiguous (omega arith)) in
      let first = base_of in
      let shown = drop (max cursor (length total - capacity)) total in
      record {
        starts = omega (arith, first);
        out = decode_bounded-IsLongest decode _ _ i.out;
        errors = decode_bounded-IsLongest decode _ _ i.errors;
        resumes = omega (
          arith,
          i.moved,
          first,
          length-take max_log_response_bytes shown,
          length-drop (max cursor (length total - capacity)) total,
          low,
        );
        truncated = ap (ltb cursor) first;
        has_more = ap (ltb (page_at decode cursor b).next_cursor) h.ended;
      }

-- On a ring that retains the last `capacity` bytes of a stream, `read` of a cursor within the stream
-- takes the stream's next 64 KiB from the cursor on, or from the first byte retained if that is
-- later, and gives the cursor after them. It returns the bytes of each stream decoded, and cut to the
-- longest prefix that takes no more bytes than were decoded.
pub read-IsPage :
    (decode : Bytes → Text) (capacity : ℕ) (total : Stream) (b : LogBuffer) (cursor : ℕ)
    → Retains capacity total b
    → cursor ≤ length total
    → (page : LogPage) × (read decode cursor b ≡ ok page)
      × IsPage decode total cursor (length total - capacity) page
read-IsPage decode capacity total b cursor h low = (
  page_at decode cursor b,
  read_within decode cursor b (omega (arith, low, h.ended)),
  page_at-IsPage capacity total b cursor h decode low,
)

-- A cursor beyond the end is refused.
pub read_beyond :
    (decode : Bytes → Text) (capacity : ℕ) (total : Stream) (b : LogBuffer) (cursor : ℕ)
    → Retains capacity total b
    → length total < cursor
    → read decode cursor b ≡ err log_error
unfolding read
read_beyond decode capacity total b cursor h high =
    let outside : ltb b.next_cursor cursor ≡ true = ground (arith, h.ended) in rw outside

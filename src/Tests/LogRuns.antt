-- ===== src/Tests/LogRuns.antt =====
-- The theorems on `TaskLogBuffer`, applied to a ring of four bytes.
use sandboxed_workspace_mcp.Base.{
  ◌≡◌, ◌-◌, refl, true, some, ok, text, List, [], ◌∷◌, arith, length, Text, map, if◌then◌else◌, ltb,
  utf8_size, utf8_width,
}
use sandboxed_workspace_mcp.Streams.{Bytes, tag}
use sandboxed_workspace_mcp.Presentation.{cut_utf8}
use sandboxed_workspace_mcp.LogBuffer.{
  LogBuffer, LogPage, Source, from_stdout, from_stderr, init, append, decode_bounded, read,
}
use sandboxed_workspace_mcp.LogBuffer.Trim.{flat}
use sandboxed_workspace_mcp.LogBuffer.Retained.{
  append_all, stream_of, empty_ring, append_all-Retains, exact_fill,
}
use sandboxed_workspace_mcp.LogBuffer.Contents.{Retains}
use sandboxed_workspace_mcp.LogBuffer.Reads.{IsPage, read-IsPage}

abbrev writes : List (Source × Bytes)
writes = (from_stdout, text "abc") ∷ (from_stderr, text "xy") ∷ []

ring_built : init 4 ≡ ok (empty_ring 4)
unfolding init
ring_built = refl

append_all-Retains_example :
    (after : LogBuffer) × (append_all writes (empty_ring 4) ≡ some after)
    × Retains 4 (stream_of writes) after
append_all-Retains_example = append_all-Retains 4 (empty_ring 4) writes ring_built

filled_ring :
    (after : LogBuffer) × (append_all writes (empty_ring 4) ≡ some after)
    × Retains 4 (stream_of writes) after
filled_ring = append_all-Retains 4 (empty_ring 4) writes ring_built

abbrev filled : LogBuffer
filled = filled_ring.0

-- Decodes ASCII, and replaces any other byte.
abbrev decode_ascii : Bytes → Text
decode_ascii = map (λ c. if ltb c 128 then c else 65533)

read-IsPage_example :
    (page : LogPage) × (read decode_ascii 0 filled ≡ ok page)
    × IsPage decode_ascii (stream_of writes) 0 (length (stream_of writes) - 4) page
read-IsPage_example =
    read-IsPage decode_ascii 4 (stream_of writes) filled 0 filled_ring.2 (omega arith)

-- Three bytes that are no UTF-8 take nine as replacement characters, and the text after them is lost.
lost_text : decode_bounded decode_ascii (255 ∷ 255 ∷ 255 ∷ text "abc") 6 ≡ 65533 ∷ 65533 ∷ []
unfolding decode_bounded cut_utf8 utf8_size utf8_width
lost_text = refl

exact_fill_example :
    (after : LogBuffer) × (append from_stdout (text "full") (empty_ring 4) ≡ some after)
    × (flat after.chunks ≡ tag true (text "full"))
    × (after.dropped ≡ true)
exact_fill_example = exact_fill 4 (empty_ring 4) from_stdout (text "full") ring_built refl

-- ===== src/Tests/OutputRuns.antt =====
-- The theorems on `BoundedOutput`, applied to a capture that overflows.
use sandboxed_workspace_mcp.Streams.{Bytes}
use sandboxed_workspace_mcp.Base.{◌+◌, ◌≡◌, text, List, [], ◌∷◌}
use sandboxed_workspace_mcp.BoundedOutput.{Source, from_stdout, from_diagnostic, init}
use sandboxed_workspace_mcp.BoundedOutput.Capture.{
  Captures, append_all, stream_of, written_out, written_errors, append_all-Captures,
  append_all-observed,
}

abbrev three_writes : List (Source × Bytes)
three_writes =
    (from_stdout, text "abc") ∷ (from_diagnostic, text "xy") ∷ (from_stdout, text "def") ∷ []

append_all-Captures_example : Captures 6 (stream_of three_writes) (append_all three_writes (init 6))
append_all-Captures_example = append_all-Captures 6 three_writes

append_all-observed_example :
    ((append_all three_writes (init 6)).observed_stdout_bytes
      ≡ (init 6).observed_stdout_bytes + written_out three_writes)
    × ((append_all three_writes (init 6)).observed_stderr_bytes
        ≡ (init 6).observed_stderr_bytes + written_errors three_writes)
append_all-observed_example = append_all-observed three_writes (init 6)

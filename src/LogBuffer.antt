-- ===== src/LogBuffer.antt =====
-- `TaskLogBuffer` of src/workspace_guard_mcp/task_manager.py: the byte-bounded ring of a service's
-- output. Each method holds the lock, so it is one step. Bytes are numbers; `bytes.decode` with
-- `errors="replace"` is the parameter `decode` of `read`.
pub mod Trim
pub mod Contents
pub mod Retained
pub mod Chunks
pub mod Reads
use sandboxed_workspace_mcp.Base.{
  ℕ, zero, suc, ◌+◌, ◌-◌, ◌*◌, Bool, true, false, ◌||◌, Option, none, some, Result, ok, err, List,
  [], ◌∷◌, ◌++◌, length, take, drop, ltb, leb, ◌==◌, if◌then◌else◌, max, Text, utf8_size,
}
use sandboxed_workspace_mcp.Streams.{Bytes}
use sandboxed_workspace_mcp.Presentation.{cut_utf8}

pub data LogError : Type 0 where
  value_error log_error : LogError

-- `_LogChunk`; `is_stdout` stands for the stream's name.
pub record LogChunk : Type 0 where
  pub start : ℕ
  pub end : ℕ
  pub is_stdout : Bool
  pub bytes : Bytes

pub record LogBuffer : Type 0 where
  pub capacity : ℕ
  pub chunks : List LogChunk
  pub base_cursor : ℕ
  pub next_cursor : ℕ
  pub size : ℕ
  pub dropped : Bool
  pub runtime_stdout_bytes : ℕ
  pub runtime_stderr_bytes : ℕ

abbrev pub max_log_response_bytes : ℕ
max_log_response_bytes = 64 * 1024

unfoldable pub init : ℕ → Result LogError LogBuffer
init zero = err value_error
init (suc n) = ok (record {
  capacity = suc n;
  chunks = [];
  base_cursor = 0;
  next_cursor = 0;
  size = 0;
  dropped = false;
  runtime_stdout_bytes = 0;
  runtime_stderr_bytes = 0;
})

-- The callers of `_append`: `append_stdout`, `append_stderr` and `append_diagnostic_stderr`.
pub data Source : Type 0 where
  from_stdout from_stderr from_diagnostic : Source

abbrev pub on_stdout : Source → Bool
on_stdout from_stdout = true
on_stdout from_stderr = false
on_stdout from_diagnostic = false

unfoldable pub count : Source → ℕ → LogBuffer → LogBuffer
count from_stdout n b = record b { runtime_stdout_bytes = b.runtime_stdout_bytes + n }
count from_stderr n b = record b { runtime_stderr_bytes = b.runtime_stderr_bytes + n }
count from_diagnostic n b = b

-- The body of the loop of `_trim_locked`; `none` is the `IndexError` of an empty deque.
unfoldable pub trim_chunk : LogChunk → List LogChunk → ℕ → LogBuffer → LogBuffer
trim_chunk first rest overflow b =
    if leb (length first.bytes) overflow
    then record b {
      chunks = rest;
      size = b.size - length first.bytes;
      base_cursor = first.end;
      dropped = true;
    }
    else record b {
      chunks =
          record {
            start = first.start + overflow;
            end = first.end;
            is_stdout = first.is_stdout;
            bytes = drop overflow first.bytes;
          }
          ∷ rest;
      size = b.size - overflow;
      base_cursor = first.start + overflow;
      dropped = true;
    }

unfoldable pub trim_step : LogBuffer → Option LogBuffer
trim_step b = elim b.chunks [
  | [] ↦ none
  | first ∷ rest ↦ some (trim_chunk first rest (b.size - b.capacity) b)
]

-- `_trim_locked`; `none` is an error, or a loop that has not ended after `fuel` tests.
unfoldable pub trim : ℕ → LogBuffer → Option LogBuffer
trim zero b = none
trim (suc fuel) b =
    let again : Option LogBuffer = elim (trim_step b) [ none ↦ none | some b' ↦ trim fuel b' ] in
    if ltb b.capacity b.size then again else some b

-- A write that fills the whole ring: `data[-capacity:]` replaces the chunks.
unfoldable pub replace : Bool → Bytes → LogBuffer → LogBuffer
replace is_stdout bytes b =
    let kept = drop (length bytes - b.capacity) bytes in
    let start = b.next_cursor - length kept in
    record b {
      chunks =
          record { start = start; end = b.next_cursor; is_stdout = is_stdout; bytes = kept } ∷ [];
      base_cursor = start;
      size = length kept;
      dropped = true;
    }

-- The chunk is queued at the end.
unfoldable pub push : Bool → ℕ → Bytes → LogBuffer → LogBuffer
push is_stdout original_start bytes b = record b {
  chunks =
      b.chunks
      ++ record {
        start = original_start;
        end = b.next_cursor;
        is_stdout = is_stdout;
        bytes = bytes;
      }
        ∷ [];
  size = b.size + length bytes;
}

-- The loop of `_trim_locked` gets two tests more than there are chunks.
unfoldable pub append : Source → Bytes → LogBuffer → Option LogBuffer
append source [] b = some b
append source (c ∷ cs) b =
    let bytes = c ∷ cs in
    let counted = count source (length bytes) b in
    let advanced = record counted { next_cursor = counted.next_cursor + length bytes } in
    let pushed = push (on_stdout source) counted.next_cursor bytes advanced in
    let trimmed = trim (suc (suc (length pushed.chunks))) pushed in
    if leb counted.capacity (length bytes)
    then some (replace (on_stdout source) bytes advanced)
    else trimmed

pub record LogPage : Type 0 where
  pub cursor : ℕ
  pub next_cursor : ℕ
  pub stdout : Text
  pub stderr : Text
  pub truncated : Bool
  pub has_more : Bool

-- The variables of the loop of `read`.
pub record Collected : Type 0 where
  pub next_cursor : ℕ
  pub remaining : ℕ
  pub stdout : Bytes
  pub stderr : Bytes

unfoldable pub collect : ℕ → LogChunk → Collected → Collected
collect effective chunk k =
    let offset = effective - chunk.start in
    let accepted = take k.remaining (drop offset chunk.bytes) in
    record {
      next_cursor = chunk.start + offset + length accepted;
      remaining = k.remaining - length accepted;
      stdout = if chunk.is_stdout then k.stdout ++ accepted else k.stdout;
      stderr = if chunk.is_stdout then k.stderr else k.stderr ++ accepted;
    }

unfoldable pub collect_all : ℕ → List LogChunk → Collected → Collected
collect_all effective [] k = k
collect_all effective (chunk ∷ chunks) k =
    let skipped = collect_all effective chunks k in
    let taken = collect effective chunk k in
    let onward = collect_all effective chunks taken in
    if leb chunk.end effective then skipped else if taken.remaining == 0 then taken else onward

-- The rendered text, or what is whole of its first `limit` bytes.
unfoldable pub decode_bounded : (Bytes → Text) → Bytes → ℕ → Text
decode_bounded decode bytes limit =
    let rendered = decode bytes in
    if leb (utf8_size rendered) limit then rendered else cut_utf8 limit rendered

unfoldable pub read : (Bytes → Text) → ℕ → LogBuffer → Result LogError LogPage
read decode cursor b =
    let effective = max cursor b.base_cursor in
    let k = collect_all effective b.chunks (record {
      next_cursor = effective;
      remaining = max_log_response_bytes;
      stdout = [];
      stderr = [];
    }) in
    if ltb b.next_cursor cursor
    then err log_error
    else ok (record {
      cursor = effective;
      next_cursor = k.next_cursor;
      stdout = decode_bounded decode k.stdout (length k.stdout);
      stderr = decode_bounded decode k.stderr (length k.stderr);
      truncated = ltb cursor b.base_cursor;
      has_more = ltb k.next_cursor b.next_cursor;
    })

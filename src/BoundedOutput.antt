-- ===== src/BoundedOutput.antt =====
-- `BoundedOutput` of src/workspace_guard_mcp/task_runner.py: the capture of a task's output. Each
-- method holds the lock, so it is one step. A negative limit behaves as the limit 0. Bytes are numbers.
pub mod Capture
use sandboxed_workspace_mcp.Streams.{Bytes}
use sandboxed_workspace_mcp.Base.{
  ℕ, zero, suc, ◌+◌, ◌-◌, Bool, true, false, ◌||◌, List, [], ◌∷◌, ◌++◌, length, take, ltb, ◌==◌,
  if◌then◌else◌, not,
}

pub record BoundedOutput : Type 0 where
  pub limit : ℕ
  pub stdout : Bytes
  pub stderr : Bytes
  pub size : ℕ
  pub truncated : Bool
  pub observed_stdout_bytes : ℕ
  pub observed_stderr_bytes : ℕ

-- The three methods that write: `stdout`, `stderr` and `diagnostic_stderr`.
pub data Source : Type 0 where
  from_stdout from_stderr from_diagnostic : Source

unfoldable pub init : ℕ → BoundedOutput
init limit = record {
  limit = limit;
  stdout = [];
  stderr = [];
  size = 0;
  truncated = false;
  observed_stdout_bytes = 0;
  observed_stderr_bytes = 0;
}

unfoldable pub observe : Source → ℕ → BoundedOutput → BoundedOutput
observe from_stdout n b = record b { observed_stdout_bytes = b.observed_stdout_bytes + n }
observe from_stderr n b = record b { observed_stderr_bytes = b.observed_stderr_bytes + n }
observe from_diagnostic n b = b

unfoldable pub extend : Source → Bytes → BoundedOutput → BoundedOutput
extend from_stdout accepted b = record b { stdout = b.stdout ++ accepted }
extend from_stderr accepted b = record b { stderr = b.stderr ++ accepted }
extend from_diagnostic accepted b = record b { stderr = b.stderr ++ accepted }

-- `_append` behind the counting.
unfoldable pub capture : Source → Bytes → BoundedOutput → BoundedOutput
capture source bytes b =
    let remaining = b.limit - b.size in
    if remaining == 0
    then record b { truncated = b.truncated || not (length bytes == 0) }
    else (let accepted = take remaining bytes in
        let extended = extend source accepted b in
        record extended {
          size = b.size + length accepted;
          truncated = b.truncated || ltb (length accepted) (length bytes);
        })

unfoldable pub append : Source → Bytes → BoundedOutput → BoundedOutput
append source bytes b = capture source bytes (observe source (length bytes) b)

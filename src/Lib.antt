-- ===== src/Lib.antt =====
-- Verification of the core of workspace-guard-mcp, an MCP server that runs bounded tasks in a
-- workspace. Paths are from the repository's root.
--
-- Parts and files:
-- * `Execution` models src/workspace_guard_mcp/execution.py: `State` the enumerations, the
--   transition table (`allowed`), the error summaries and `legacy_execution_status`; `Record` and
--   `Event` the pydantic models `ExecutionResources`, `ExecutionRecord` and `ExecutionEvent` with
--   their validators. `Lifecycle` and `Validation` hold what follows from them.
-- * `Store` models `InMemoryExecutionStore` of src/workspace_guard_mcp/execution_store.py and the
--   functions that it shares with the SQLite store: `Events` builds events and records, `History`
--   is `_validate_event_history`, `Memory` and `Queries` are the class, one function per method.
--   `Written`, `Append`, `Prune`, `Invariant`, `Plans`, `Writes`, `Keeps`, `Reach`, `Pages`,
--   `Behaviour`, `Frame` and `Backwards` hold the proofs.
-- * `Store.Sqlite` models `SqliteExecutionStore` of the same file on the tables of a database:
--   `Rows` is what is written to a row and read from it, `Tables` the tables and the SQL
--   statements. `RoundTrip`, `Selected`, `Inserted`, `Agrees`, `Rewritten`, `Kept`, `Changed`,
--   `Simulated`, `Cancelled`, `Created`, `Reads` and `Runs` compare it with the store in memory,
--   which forgets old executions where the database keeps them. The columns of enumerations are
--   texts that are parsed, and an integer of 2^63 or more is refused with `overflow_error`.
-- * `ResultCache` models src/workspace_guard_mcp/result_cache.py; `Removal`, `Room`, `Methods`,
--   `Promises`, `Reads`, `RoundTrip` and `Runs` hold the proofs.
-- * `BoundedOutput` models the class of that name in src/workspace_guard_mcp/task_runner.py, and
--   `Capture` compares it with the stream of all bytes written.
-- * `LogBuffer` models `TaskLogBuffer` of src/workspace_guard_mcp/task_manager.py: `Trim` is about
--   the trimming loop, `Contents` and `Retained` about what the ring holds, `Chunks` and `Reads`
--   about its pages.
-- * `Presentation` models src/workspace_guard_mcp/result_presentation.py and
--   src/workspace_guard_mcp/bounded_output.py: `Prefix` is about cutting, `Externalize` about one
--   text and the cache behind it, `Payload` about a tool's result.
-- * `SafeRegex` models src/workspace_guard_mcp/safe_regex.py: `CharacterSet` is `_CharacterSet`,
--   `Syntax` the tuples of a syntax tree, `Parser` is `_Parser` with the checks of `__init__`,
--   `Build` is `_build`, `_add` and `_patch`, `Machine` is `_State`, `_closure` and the general
--   search of `search`, and `Literal` is `_extract_literal_pattern`, the finished object and the
--   whole of `search`. Their children hold the proofs. `Language` says, apart from the code, which
--   parts of a text match a syntax tree; its children relate that to the states of a machine.
-- * `AccessPolicy` models `_glob_regex` and `AccessPolicy` of
--   src/workspace_guard_mcp/access_policy.py; `Glob` is about the translation of a glob, `Blocked`
--   about what a rule blocks.
-- * `Base`, `Dict` and `Streams` are shared: Boolean tests, lists, results of calls that may raise,
--   strings as code points with their UTF-8 size, dictionaries in insertion order, and two byte
--   streams interleaved. `Tests` holds runs.
--
-- How the parts interact: the store builds its records and events through the models of
-- `Execution`, whose validators run at each construction, so a refused value stops an operation
-- before its first write. `Presentation` puts texts into the result cache, and its results rest on
-- those about the cache. `SafeRegex.Literal.compile_regex` chains the parser and the builder, and
-- the search runs on the object that it returns. The output capture, the log ring and the access
-- policy stand alone.
--
-- Conventions: a method that holds its lock throughout is one function from the old state to a
-- result and the new state. An exception is a value of a type of errors such as `Error`,
-- `CacheError` or `RegexError`; its message is left out. A time stamp is a natural number of clock
-- ticks, since the code only compares and adds them; that excludes negative and non-finite ones, of
-- which the models refuse the latter. A field with `ge=0` is a natural number. In `SafeRegex`, the
-- argument `fold` is `str.casefold`, or the text itself where case counts, and `stops` gives the
-- answers of `should_stop`; `groups` is the number of nested groups for which the interpreter's
-- stack has room. In `LogBuffer`, `decode` is `bytes.decode` with `errors="replace"`. In
-- `AccessPolicy`, `fullmatch` is the regular expression library and `parts` is
-- `PurePosixPath.parts`. The results of `time.time()`, of the cache's clock and of its token
-- factory are arguments.
--
-- Fuel: the eviction loop of `put_text` gets one round more than there are entries, and each round
-- removes an entry. The search for an identifier is bounded by `_MAX_COLLISION_RETRIES` in the
-- code. The translation of a glob gets a round per character, and each round takes one at least.
-- The methods of the pattern parser get four rounds per character and four more; a chain of four
-- calls takes a character. The closure gets a round per initial state and two per state of the
-- machine. The trimming loop of the log ring runs on two rounds more than there are chunks. Every
-- other loop is a recursion over a list.
--
-- Not modelled: the upgrades of old SQLite schemas and failures of the database itself, the task
-- manager and runner with their processes, the file system, git, OAuth, the validation of blocked
-- patterns, the container backends, the MCP surface and the command line. `ArtifactRecord` is only
-- the data that the store keeps: its own validators are left out, and so are the type tests on
-- arguments that a typed caller cannot fail. The interpreter's limit on recursion is modelled for
-- the pattern parser only, in groups rather than frames; building a machine and reading a literal
-- off a tree take no more frames per group than the parser. Outside the parser's first checks, a text is
-- a list of code points without lone surrogates.
pub mod Base
pub mod Dict
pub mod Streams
pub mod Execution
pub mod Store
pub mod ResultCache
pub mod BoundedOutput
pub mod LogBuffer
pub mod Presentation
pub mod SafeRegex
pub mod AccessPolicy
pub mod Tests

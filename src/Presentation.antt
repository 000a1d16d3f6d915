-- ===== src/Presentation.antt =====
-- src/workspace_guard_mcp/bounded_output.py and src/workspace_guard_mcp/result_presentation.py: texts
-- cut to a number of UTF-8 bytes, and large fields of a tool's result moved to the result cache.
pub mod Prefix
pub mod Externalize
pub mod Payload
use sandboxed_workspace_mcp.Base.{
  text_in, ℕ, zero, suc, ◌+◌, ◌-◌, ◌*◌, Bool, true, false, ◌||◌, Option, none, some, Result, ok,
  err, Text, text, List, [], ◌∷◌, ◌++◌, utf8_size, utf8_width, leb, if◌then◌else◌, not, length,
  ◌==◌, ite, Text-discrete,
}
use sandboxed_workspace_mcp.Dict.{Dict, lookup, insert}
use sandboxed_workspace_mcp.ResultCache.{CachedResultRef, ResultCache, put_text}

-- `text.encode("utf-8")[:n].decode("utf-8", errors="ignore")`: a prefix of a valid encoding is whole
-- code points and at most one that is cut, which is ignored.
unfoldable pub cut_utf8 : ℕ → Text → Text
cut_utf8 n [] = []
cut_utf8 n (c ∷ cs) =
    let rest = cut_utf8 (n - utf8_width c) cs in if leb (utf8_width c) n then c ∷ rest else []

unfoldable pub preview_utf8 : Text → ℕ → Text
preview_utf8 t max_bytes = if leb (utf8_size t) max_bytes then t else cut_utf8 max_bytes t

abbrev pub truncation_marker : Text
truncation_marker = text "\n\n... OUTPUT TRUNCATED ..."

pub record BoundedText : Type 0 where
  pub rendered : Text
  pub truncated : Bool

unfoldable pub truncate_utf8_result : Text → ℕ → BoundedText
truncate_utf8_result t max_bytes =
    let marker = utf8_size truncation_marker in
    if leb (utf8_size t) max_bytes then record { rendered = t; truncated = false } else record {
      rendered =
          if leb max_bytes marker
          then cut_utf8 max_bytes truncation_marker
          else cut_utf8 (max_bytes - marker) t ++ truncation_marker;
      truncated = true;
    }

abbrev pub default_inline_threshold_bytes : ℕ
default_inline_threshold_bytes = 24 * 1024

pub record ExternalizedText : Type 0 where
  pub inline_text : Text
  pub available_bytes : ℕ
  pub inline_bytes : ℕ
  pub inline_truncated : Bool
  pub resource_uri : Option Text

-- What a call of `put_text` reads from outside: the clock and the token factory.
pub record Call : Type 0 where
  pub now : ℕ
  pub tokens : ℕ → Text

-- The reference, or `None` where the text is too large and where `ResultCacheError` is caught.
unfoldable pub uri_of {ℓ} : {E : Type ℓ} → Result E (Option CachedResultRef) → Option Text
uri_of (ok none) = none
uri_of (ok (some ref)) = some ref.uri
uri_of (err _) = none

unfoldable pub externalize_text :
    Text → ResultCache → Option Text → ℕ → Call → ExternalizedText × ResultCache
externalize_text t cache owner_scope threshold call =
    let (cached, after) = put_text t owner_scope call.now call.tokens cache in
    let preview = preview_utf8 t threshold in
    if leb (utf8_size t) threshold
    then (
      record {
        inline_text = t;
        available_bytes = utf8_size t;
        inline_bytes = utf8_size t;
        inline_truncated = false;
        resource_uri = none;
      },
      cache,
    )
    else (
      record {
        inline_text = preview;
        available_bytes = utf8_size t;
        inline_bytes = utf8_size preview;
        inline_truncated = true;
        resource_uri = uri_of cached;
      },
      after,
    )

-- The values of a payload, as far as the code looks at them: `object_value` is any other object with
-- its truth value.
pub data Value : Type 0 where
  none_value : Value
  bool_value : Bool → Value
  int_value : ℕ → Value
  str_value : Text → Value
  object_value : Bool → Value

unfoldable pub truthy : Value → Bool
truthy none_value = false
truthy (bool_value b) = b
truthy (int_value n) = not (n == 0)
truthy (str_value t) = not (length t == 0)
truthy (object_value b) = b

abbrev pub Payload : Type 0
Payload = Dict Value

-- `bool(payload.get(key, False))`
unfoldable pub flag : Text → Payload → Bool
flag key p = elim (lookup key p) [ none ↦ false | some v ↦ truthy v ]

abbrev pub uri_value : Option Text → Value
uri_value none = none_value
uri_value (some t) = str_value t

-- The five writes of `_externalize_single_text` that every call makes.
unfoldable pub write_result : Text → ExternalizedText → Payload → Payload
write_result field r p = insert (field ++ text "_resource_uri") (uri_value r.resource_uri) (
    insert (field ++ text "_inline_truncated") (bool_value r.inline_truncated) (
      insert (field ++ text "_inline_bytes") (int_value r.inline_bytes) (
        insert (field ++ text "_available_bytes") (int_value r.available_bytes)
          (insert field (str_value r.inline_text) p))))

-- `source_key`, `source_value` and `add_source`: where the flag `source_truncated` comes from.
pub data Provenance : Type 0 where
  from_key : Text → Provenance
  from_value : Bool → Provenance
  no_source : Provenance

unfoldable pub write_source : Provenance → Payload → Payload
write_source (from_key key) p = insert (text "source_truncated") (bool_value (flag key p)) p
write_source (from_value b) p = insert (text "source_truncated") (bool_value b) p
write_source no_source p = p

pub record Step : Type 0 where
  pub changed : Bool
  pub payload : Payload
  pub cache : ResultCache

-- `_externalize_single_text`; the callers pass one word as `field` and `prefix`.
unfoldable pub externalize_single_text :
    Text → Provenance → Option Text → Call → Payload → ResultCache → Step
externalize_single_text field source owner_scope call p cache = elim (lookup field p) [
  | some (str_value t) ↦
      let (r, after) = externalize_text t cache owner_scope default_inline_threshold_bytes call in
      record {
        changed = r.inline_truncated;
        payload = write_source source (write_result field r p);
        cache = after;
      }
  | _ ↦ record { changed = false; payload = p; cache = cache }
]

-- The groups of tools that `externalize_tool_payload` tells apart.
pub data ToolGroup : Type 0 where
  text_tools status_tool read_tool versioned_tools execution_tools log_tool other_tools : ToolGroup

unfoldable pub group_of : Text → ToolGroup
group_of name =
    if text_in name (
      text "tree"
      ∷ text "git_diff"
      ∷ text "workspace_diff"
      ∷ text "git_log"
      ∷ text "git_show"
      ∷ text "run_shell"
      ∷ [])
    then text_tools
    else if text_in name (text "git_status" ∷ [])
    then status_tool
    else if text_in name (text "read_file" ∷ [])
    then read_tool
    else if text_in name (text "read_file_versioned" ∷ text "git_read_file_at_revision" ∷ [])
    then versioned_tools
    else if text_in name (
        text "run_task"
        ∷ text "python_version"
        ∷ text "run_pytest"
        ∷ text "run_python_script"
        ∷ text "run_ruff"
        ∷ text "run_mypy"
        ∷ text "run_pytest_coverage"
        ∷ text "run_command"
        ∷ [])
    then execution_tools
    else if text_in name (text "task_logs" ∷ [])
    then log_tool
    else other_tools

-- The branches for one text, and their flag `truncated`.
unfoldable pub set_truncated : Text → Step → Step
set_truncated field s = record s {
  payload =
      insert (text "truncated")
        (bool_value (
          flag (text "source_truncated") s.payload
          || flag (field ++ text "_inline_truncated") s.payload))
        s.payload;
}

-- The branches for the two streams of an execution.
unfoldable pub externalize_streams : Option Text → Call → Call → Payload → ResultCache → Step
externalize_streams owner_scope first second p cache =
    let source_truncated = flag (text "truncated") p in
    let p1 = insert (text "source_truncated") (bool_value source_truncated) p in
    let out = externalize_single_text (text "stdout") no_source owner_scope first p1 cache in
    let errors =
      externalize_single_text (text "stderr") no_source owner_scope second out.payload out.cache in
    record {
      changed = out.changed || errors.changed;
      payload =
          insert (text "truncated")
            (bool_value (
              source_truncated
              || (flag (text "stdout_inline_truncated") errors.payload
                  || flag (text "stderr_inline_truncated") errors.payload)))
            errors.payload;
      cache = errors.cache;
    }

unfoldable pub externalize_group :
    ToolGroup → Option Text → Call → Call → Payload → ResultCache → Step
externalize_group text_tools owner first second p cache =
    set_truncated (text "text")
      (externalize_single_text (text "text") (from_key (text "truncated")) owner first p cache)
externalize_group status_tool owner first second p cache =
    externalize_single_text (text "text") (from_value false) owner first p cache
externalize_group read_tool owner first second p cache =
    set_truncated (text "content")
      (externalize_single_text (text "content") (from_key (text "truncated")) owner first p cache)
externalize_group versioned_tools owner first second p cache =
    externalize_single_text (text "content") (from_value (flag (text "source_truncated") p)) owner
      first p cache
externalize_group execution_tools owner first second p cache =
    externalize_streams owner first second p cache
externalize_group log_tool owner first second p cache =
    externalize_streams owner first second p cache
externalize_group other_tools owner first second p cache = record {
  changed = false;
  payload = p;
  cache = cache;
}

unfoldable pub externalize_tool_payload :
    Text → Option Text → Call → Call → Payload → ResultCache → Step
externalize_tool_payload name = externalize_group (group_of name)

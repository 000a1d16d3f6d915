-- ===== src/Presentation/Payload.antt =====
-- `externalize_tool_payload` of src/workspace_guard_mcp/result_presentation.py on the results of
-- executions.
use sandboxed_workspace_mcp.Base.{
  ℕ, ◌≡◌, refl, ap, ◌∙◌, Bool, not, ◌||◌, Option, some, Text, text, utf8_size, leb, arith,
  Text-discrete,
}
use sandboxed_workspace_mcp.Dict.{lookup, insert, lookup-insert, lookup-insert_self}
use sandboxed_workspace_mcp.ResultCache.{ResultCache}
use sandboxed_workspace_mcp.Presentation.{
  preview_utf8, ExternalizedText, Call, externalize_text, default_inline_threshold_bytes,
  bool_value, str_value, truthy, Payload, flag, write_result, write_source, no_source,
  externalize_single_text, externalize_streams,
}

found_text :
    (field : Text) (owner_scope : Option Text) (call : Call) (p : Payload) (cache : ResultCache)
    (t : Text)
    → lookup field p ≡ some (str_value t)
    → externalize_single_text field no_source owner_scope call p cache ≡ (
        let r = externalize_text t cache owner_scope default_inline_threshold_bytes call in
        record { changed = r.0.inline_truncated; payload = write_result field r.0 p; cache = r.1 })
unfolding externalize_single_text write_source
found_text field owner_scope call p cache t h = rw (h, externalize_single_text) refl

externalized_text :
    (t : Text) (cache : ResultCache) (owner_scope : Option Text) (n : ℕ) (call : Call)
    → ((externalize_text t cache owner_scope n call).0.inline_text ≡ preview_utf8 t n)
      × ((externalize_text t cache owner_scope n call).0.inline_truncated
          ≡ not (leb (utf8_size t) n))
unfolding externalize_text preview_utf8
externalized_text t cache owner_scope n call = (ground arith, ground arith)

flag_found :
    (key : Text) (p : Payload) (b : Bool) → lookup key p ≡ some (bool_value b) → flag key p ≡ b
unfolding flag truthy
flag_found key p b h = rw (h, flag) refl

module _ (owner_scope : Option Text) (first second : Call) (p : Payload) (cache : ResultCache)
    (t u : Text) (out : lookup (text "stdout") p ≡ some (str_value t))
    (errors : lookup (text "stderr") p ≡ some (str_value u)) where
  abbrev p1 : Payload
  p1 = insert (text "source_truncated") (bool_value (flag (text "truncated") p)) p

  abbrev first_result : ExternalizedText × ResultCache
  first_result = externalize_text t cache owner_scope default_inline_threshold_bytes first

  abbrev p2 : Payload
  p2 = write_result (text "stdout") first_result.0 p1

  abbrev second_result : ExternalizedText × ResultCache
  second_result =
      externalize_text u first_result.1 owner_scope default_inline_threshold_bytes second

  abbrev p3 : Payload
  p3 = write_result (text "stderr") second_result.0 p2

  out_kept : lookup (text "stdout") p1 ≡ some (str_value t)
  unfolding Text-discrete
  out_kept = simp (lookup-insert, out)

  errors_kept : lookup (text "stderr") p2 ≡ some (str_value u)
  unfolding write_result Text-discrete
  errors_kept = simp (lookup-insert, errors)

  abbrev final_flag : Bool
  final_flag =
      flag (text "truncated") p
      || (flag (text "stdout_inline_truncated") p3 || flag (text "stderr_inline_truncated") p3)

  streams-eq :
      (externalize_streams owner_scope first second p cache).payload
      ≡ insert (text "truncated") (bool_value final_flag) p3
  unfolding externalize_streams
  streams-eq =
      rw (found_text (text "stdout") owner_scope first p1 cache t out_kept)
        (rw (found_text (text "stderr") owner_scope second p2 first_result.1 u errors_kept) refl)

  out_flag :
      lookup (text "stdout_inline_truncated") p3 ≡ some (bool_value first_result.0.inline_truncated)
  unfolding write_result Text-discrete
  out_flag = simp lookup-insert

  errors_flag :
      lookup (text "stderr_inline_truncated") p3
      ≡ some (bool_value second_result.0.inline_truncated)
  unfolding write_result Text-discrete
  errors_flag = simp lookup-insert

  flags_read : final_flag ≡ (
      flag (text "truncated") p
      || (not (leb (utf8_size t) default_inline_threshold_bytes)
          || not (leb (utf8_size u) default_inline_threshold_bytes)))
  flags_read =
      let cut = (externalized_text t cache owner_scope default_inline_threshold_bytes first).1 in
      let cut' =
        (externalized_text u first_result.1 owner_scope default_inline_threshold_bytes second).1 in
      ap (λ b. flag (text "truncated") p || (b || flag (text "stderr_inline_truncated") p3))
        (flag_found (text "stdout_inline_truncated") p3 _ out_flag ∙ cut)
      ∙ ap
          (λ b.
            flag (text "truncated") p
            || (not (leb (utf8_size t) default_inline_threshold_bytes) || b))
          (flag_found (text "stderr_inline_truncated") p3 _ errors_flag ∙ cut')

  -- Where the result of an execution has its two streams as texts, the payload that goes out holds
  -- previews of both, of at most 24 KiB each, and its flag `truncated` tells whether the source was
  -- truncated or a preview is shorter than its stream.
  pub externalize_streams_lem :
      (lookup (text "stdout") (externalize_streams owner_scope first second p cache).payload
        ≡ some (str_value (preview_utf8 t default_inline_threshold_bytes)))
      × (lookup (text "stderr") (externalize_streams owner_scope first second p cache).payload
          ≡ some (str_value (preview_utf8 u default_inline_threshold_bytes)))
      × (lookup (text "truncated") (externalize_streams owner_scope first second p cache).payload
          ≡ some (
              bool_value (
                flag (text "truncated") p
                || (not (leb (utf8_size t) default_inline_threshold_bytes)
                    || not (leb (utf8_size u) default_inline_threshold_bytes)))))
  unfolding write_result Text-discrete
  externalize_streams_lem =
      let shown = (externalized_text t cache owner_scope default_inline_threshold_bytes first).0 in
      let shown' =
        (externalized_text u first_result.1 owner_scope default_inline_threshold_bytes second).0 in
      (
        rw streams-eq (simp (lookup-insert, shown)),
        rw streams-eq (simp (lookup-insert, shown')),
        rw streams-eq (
            lookup-insert_self (text "truncated") (bool_value final_flag) p3
            ∙ ap (λ b. some (bool_value b)) flags_read),
      )

-- ===== src/Tests/PresentationRuns.antt =====
-- The theorems on previews and payloads, applied to short texts.
use sandboxed_workspace_mcp.Base.{
  ◌≡◌, refl, not, ◌||◌, some, text, [], ◌∷◌, leb, utf8_size, Text-discrete,
}
use sandboxed_workspace_mcp.Dict.{lookup}
use sandboxed_workspace_mcp.Presentation.{
  preview_utf8, truncate_utf8_result, externalize_text, externalize_streams, Call, Payload, flag,
  str_value, bool_value, default_inline_threshold_bytes,
}
use sandboxed_workspace_mcp.Presentation.Prefix.{
  IsLongest, preview_utf8-IsLongest, IsBounded, truncate_utf8_result-IsBounded,
}
use sandboxed_workspace_mcp.Presentation.Externalize.{
  IsExternalized, externalize_text-IsExternalized,
}
use sandboxed_workspace_mcp.Presentation.Payload.{externalize_streams_lem}
use sandboxed_workspace_mcp.Tests.CacheRuns.{
  empty_cache, empty_cache-IsValid, hello, world, alice, first_token,
}

abbrev call : Call
call = record { now = 5; tokens = λ n. first_token }

abbrev payload : Payload
payload = (text "stdout", str_value hello) ∷ (text "stderr", str_value world) ∷ []

out_there : lookup (text "stdout") payload ≡ some (str_value hello)
unfolding lookup Text-discrete
out_there = refl

errors_there : lookup (text "stderr") payload ≡ some (str_value world)
unfolding lookup Text-discrete
errors_there = refl

preview_utf8-IsLongest_example : IsLongest 3 (text "a∀b") (preview_utf8 (text "a∀b") 3)
preview_utf8-IsLongest_example = preview_utf8-IsLongest (text "a∀b") 3

truncate_utf8_result-IsBounded_example :
    IsBounded
      (text "a text that is too long to be shown as it is")
      30
      (truncate_utf8_result (text "a text that is too long to be shown as it is") 30)
truncate_utf8_result-IsBounded_example =
    truncate_utf8_result-IsBounded (text "a text that is too long to be shown as it is") 30

externalize_text-IsExternalized_example :
    IsExternalized hello alice 3 call empty_cache
      (externalize_text hello empty_cache alice 3 call).0
      (externalize_text hello empty_cache alice 3 call).1
externalize_text-IsExternalized_example =
    externalize_text-IsExternalized hello alice call empty_cache empty_cache-IsValid 3

externalize_streams_lem_example :
    (lookup (text "stdout") (externalize_streams alice call call payload empty_cache).payload
      ≡ some (str_value (preview_utf8 hello default_inline_threshold_bytes)))
    × (lookup (text "stderr") (externalize_streams alice call call payload empty_cache).payload
        ≡ some (str_value (preview_utf8 world default_inline_threshold_bytes)))
    × (lookup (text "truncated") (externalize_streams alice call call payload empty_cache).payload
        ≡ some (
            bool_value (
              flag (text "truncated") payload
              || (not (leb (utf8_size hello) default_inline_threshold_bytes)
                  || not (leb (utf8_size world) default_inline_threshold_bytes)))))
externalize_streams_lem_example =
    externalize_streams_lem alice call call payload empty_cache hello world out_there errors_there

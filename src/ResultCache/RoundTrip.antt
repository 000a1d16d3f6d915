-- ===== src/ResultCache/RoundTrip.antt =====
-- `put_text` followed by `get` (src/workspace_guard_mcp/result_cache.py).
use sandboxed_workspace_mcp.Base.{
  ℕ, ◌≡◌, refl, ap, ◌∙◌, Option, some, none, ok, err, Text, Text-discrete, if_pos, if◌then◌else◌,
}
use sandboxed_workspace_mcp.Dict.{lookup}
use sandboxed_workspace_mcp.Dict.Unique.{lookup-append}
use sandboxed_workspace_mcp.ResultCache.{
  CachedResultRef, ResultCache, cache_miss, entry_of, put_text, get,
}
use sandboxed_workspace_mcp.ResultCache.Methods.{IsValid}
use sandboxed_workspace_mcp.ResultCache.Promises.{put_text-IsValid, put_text-IsStored}
use sandboxed_workspace_mcp.ResultCache.Reads.{readable, result_of, get-readable}

module _ (content : Text) (owner_scope : Option Text) (now : ℕ) (tokens : ℕ → Text)
    (c : ResultCache) (v : IsValid c) where
  -- Where `put_text` on a valid cache returns a reference, `get` of its identifier on the cache that
  -- `put_text` leaves returns the text, with its byte size, to a reader with the same scope before
  -- the end of the time to live, and raises a miss in every other case.
  pub get-put_text :
      (ref : CachedResultRef) (reader : Option Text) (later : ℕ)
      → (put_text content owner_scope now tokens c).0 ≡ ok (some ref)
      → (get ref.result_id reader later (put_text content owner_scope now tokens c).1).0 ≡ (
          if readable (entry_of content owner_scope now c) reader later
          then ok (result_of (entry_of content owner_scope now c))
          else err cache_miss)
  get-put_text ref reader later h =
      let e = entry_of content owner_scope now c in
      let (kept, newest, stored) = put_text-IsStored content owner_scope now tokens c v ref h in
      let here =
        ap (lookup ref.result_id) stored.appended
        ∙ (lookup-append ref.result_id ref.result_id e kept stored.unused
            ∙ if_pos (Text-discrete ref.result_id ref.result_id) refl (some e) none) in
      get-readable ref.result_id reader later _
        (put_text-IsValid content owner_scope now tokens c v) e stored.well_formed here

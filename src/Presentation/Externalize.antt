-- ===== src/Presentation/Externalize.antt =====
-- `externalize_text` of src/workspace_guard_mcp/result_presentation.py, with the result cache behind it.
use sandboxed_workspace_mcp.Base.{
  ℕ, ◌≡◌, ◌≤◌, refl, sym, ap, ◌∙◌, not, Option, none, some, Result, ok, err, Text, [], ◌++◌,
  utf8_size, leb, if◌then◌else◌, arith, Bool-cases, inl, inr, append-nil,
}
use sandboxed_workspace_mcp.ResultCache.{
  CacheError, cache_miss, CachedResultRef, ResultCache, put_text, get, entry_of, result_uri_prefix,
}
use sandboxed_workspace_mcp.ResultCache.Methods.{IsValid}
use sandboxed_workspace_mcp.ResultCache.Promises.{put_text-IsValid, put_text-IsStored}
use sandboxed_workspace_mcp.ResultCache.Reads.{readable, result_of}
use sandboxed_workspace_mcp.ResultCache.RoundTrip.{get-put_text}
use sandboxed_workspace_mcp.Presentation.{ExternalizedText, Call, uri_of, externalize_text}
use sandboxed_workspace_mcp.Presentation.Prefix.{IsLongest, preview_utf8-IsLongest}

-- The address leads to the whole text: for the owner, until the time to live ends.
pub record Leads (t : Text) (owner_scope : Option Text) (call : Call) (before after : ResultCache)
    (uri : Text) : Type 0 where
  pub id : Text
  pub address : uri ≡ result_uri_prefix ++ id
  pub content :
      (reader : Option Text) (later : ℕ)
      → (get id reader later after).0 ≡ (
          if readable (entry_of t owner_scope call.now before) reader later
          then ok (result_of (entry_of t owner_scope call.now before))
          else err cache_miss)

pub record IsExternalized (t : Text) (owner_scope : Option Text) (threshold : ℕ) (call : Call)
    (before : ResultCache) (r : ExternalizedText) (after : ResultCache) : Type 0 where
  pub valid : IsValid after
  pub available : r.available_bytes ≡ utf8_size t
  pub measured : r.inline_bytes ≡ utf8_size r.inline_text
  pub bounded : r.inline_bytes ≤ threshold
  pub longest : IsLongest threshold t r.inline_text
  pub truncated : r.inline_truncated ≡ not (leb (utf8_size t) threshold)
  pub leads : (uri : Text) → r.resource_uri ≡ some uri → Leads t owner_scope call before after uri

module _ (t : Text) (owner_scope : Option Text) (call : Call) (cache : ResultCache)
    (v : IsValid cache) where
  abbrev put : Result CacheError (Option CachedResultRef) × ResultCache
  put = put_text t owner_scope call.now call.tokens cache

  uri_of-some :
      (r : Result CacheError (Option CachedResultRef)) (uri : Text)
      → uri_of r ≡ some uri
      → (ref : CachedResultRef) × (r ≡ ok (some ref)) × (ref.uri ≡ uri)
  unfolding uri_of
  uri_of-some (ok none) uri h = cc
  uri_of-some (ok (some ref)) uri h = (ref, refl, cc)
  uri_of-some (err e) uri h = cc

  stored-Leads : (uri : Text) → uri_of put.0 ≡ some uri → Leads t owner_scope call cache put.1 uri
  stored-Leads uri h =
      let (ref, made, same) = uri_of-some put.0 uri h in
      let (kept, newest, stored) =
        put_text-IsStored t owner_scope call.now call.tokens cache v ref made in
      record {
        id = ref.result_id;
        address = sym same ∙ ap (λ (x : CachedResultRef). x.uri) stored.reference;
        content = λ reader later.
            get-put_text t owner_scope call.now call.tokens cache v ref reader later made;
      }

  -- On a valid cache, `externalize_text` returns the longest preview within the threshold and its true
  -- sizes, marks it exactly where the text is larger, keeps the cache valid, and where it returns an
  -- address, a read of the address's identifier returns the whole text, with the cache's conditions on
  -- the reader and the time.
  pub externalize_text-IsExternalized :
      (threshold : ℕ)
      → IsExternalized t owner_scope threshold call cache
          (externalize_text t cache owner_scope threshold call).0
          (externalize_text t cache owner_scope threshold call).1
  unfolding externalize_text
  externalize_text-IsExternalized threshold = elim (Bool-cases (leb (utf8_size t) threshold)) [
    | inl small ↦
        let p = preview_utf8-IsLongest t threshold in
        rw small (record {
          valid = v;
          available = refl;
          measured = refl;
          bounded = ground arith;
          longest = record {
            rest = [];
            split = sym (append-nil t);
            fits = ground arith;
            longest = λ c more e. cc;
          };
          truncated = rw small;
          leads = λ uri e. cc;
        })
    | inr large ↦
        let p = preview_utf8-IsLongest t threshold in
        rw large (record {
          valid = put_text-IsValid t owner_scope call.now call.tokens cache v;
          available = refl;
          measured = refl;
          bounded = p.fits;
          longest = p;
          truncated = rw large;
          leads = stored-Leads;
        })
  ]

-- ===== src/ResultCache/Promises.antt =====
-- `put_text` of src/workspace_guard_mcp/result_cache.py, as its callers see it.
use sandboxed_workspace_mcp.Base.{
  ℕ, zero, suc, ◌≤◌, ◌≡◌, ◌≢◌, refl, sym, ap, ◌∙◌, subst, Bool, true, false, ◌||◌, Option, none,
  some, Result, ok, err, Result-cases, Text, [], ◌∷◌, ◌++◌, arith, ltb, utf8_size, Bool-cases, inl,
  inr,
}
use sandboxed_workspace_mcp.Dict.{Dict, lookup}
use sandboxed_workspace_mcp.Dict.Unique.{insert_absent}
use sandboxed_workspace_mcp.ResultCache.{
  CacheError, out_of_fuel, CacheEntry, ResultCache, valid_result_id, unique_result_id, entry_of,
  store_entry, publish, put_text, max_collision_retries, CachedResultRef, reference_of,
}
use sandboxed_workspace_mcp.ResultCache.Removal.{live}
use sandboxed_workspace_mcp.ResultCache.Room.{shrink, shrink_fits, shrink-IsNewest, IsNewest}
use sandboxed_workspace_mcp.ResultCache.Methods.{
  IsValid, roomy, roomy-IsValid, put_text-publish, publish-IsValid, unique_result_id-absent,
}

sizes_of :
    (size : ℕ) (c : ResultCache)
    → (ltb c.max_item_bytes size || ltb c.max_total_bytes size) ≡ false
    → (size ≤ c.max_item_bytes) × (size ≤ c.max_total_bytes)
sizes_of size c h = ground arith

only_cache_error :
    (retries call : ℕ) (tokens : ℕ → Text) (d : Dict CacheEntry) (e : CacheError)
    → unique_result_id retries call tokens d ≡ err e
    → e ≢ out_of_fuel
unfolding unique_result_id
only_cache_error zero call tokens d e h = ground arith
only_cache_error (suc retries) call tokens d e h =
    ground (arith, only_cache_error retries (suc call) tokens d e)

-- What a successful `put_text` leaves behind: the entries of `kept`, and the new one as the newest.
pub record IsStored (content : Text) (entry : CacheEntry) (kept : Dict CacheEntry)
    (ref : CachedResultRef) (after : ResultCache) : Type 0 where
  pub well_formed : valid_result_id ref.result_id ≡ true
  pub unused : lookup ref.result_id kept ≡ none
  pub reference : ref ≡ reference_of ref.result_id (utf8_size content)
  pub appended : after.entries ≡ kept ++ (ref.result_id, entry) ∷ []

module _ (content : Text) (owner_scope : Option Text) (now : ℕ) (tokens : ℕ → Text)
    (c : ResultCache) (v : IsValid c) where
  abbrev pub size : ℕ
  size = utf8_size content

  abbrev pub large : Bool
  large = ltb c.max_item_bytes size || ltb c.max_total_bytes size

  abbrev pub put : Result CacheError (Option CachedResultRef) × ResultCache
  put = put_text content owner_scope now tokens c

  pub put-large : large ≡ true → put ≡ (ok none, c)
  unfolding put_text
  put-large h = rw h

  pub put_small : large ≡ false → put ≡ publish content owner_scope now tokens (roomy c v now size)
  put_small h =
      put_text-publish content owner_scope now tokens c v (sizes_of size c h).0
        (sizes_of size c h).1

  -- `put_text` keeps the cache valid, also where no identifier is found and the call raises: the bytes
  -- are counted exactly and stay within their bounds, as do the entries, and no identifier stands
  -- twice.
  pub put_text-IsValid : IsValid put.1
  put_text-IsValid = elim (Bool-cases large) [
    | inl big ↦ rw (put-large big) v
    | inr small ↦ rw (put_small small) (
        publish-IsValid content owner_scope now tokens (roomy c v now size)
          (roomy-IsValid c v now size (sizes_of size c small).1) (sizes_of size c small).0
          (shrink_fits size c v.room (sizes_of size c small).1 (live now c.entries)))
  ]

  publish_ends : (d : ResultCache) → (publish content owner_scope now tokens d).0 ≢ err out_of_fuel
  unfolding publish
  publish_ends d = elim (Result-cases (unique_result_id max_collision_retries 0 tokens d.entries)) [
    | inl (id, found) ↦ rw (found, publish) (λ e. cc)
    | inr (e, failed) ↦
        rw (failed, publish) (λ q. only_cache_error 16 0 tokens d.entries e failed (cc q))
  ]

  -- The eviction loop of `put_text` ends.
  pub put_text_ends : put.0 ≢ err out_of_fuel
  put_text_ends = elim (Bool-cases large) [
    | inl big ↦ rw (put-large big) (λ e. cc)
    | inr small ↦ rw (put_small small) (publish_ends (roomy c v now size))
  ]

  publish_found :
      (d : ResultCache) (id : Text)
      → unique_result_id max_collision_retries 0 tokens d.entries ≡ ok id
      → publish content owner_scope now tokens d
        ≡ (ok (some (reference_of id size)), store_entry id (entry_of content owner_scope now d) d)
  unfolding publish
  publish_found d id found = rw (found, publish) refl

  publish_failed :
      (d : ResultCache) (e : CacheError)
      → unique_result_id max_collision_retries 0 tokens d.entries ≡ err e
      → publish content owner_scope now tokens d ≡ (err e, d)
  unfolding publish
  publish_failed d e failed = rw (failed, publish) refl

  found-IsStored :
      (d : ResultCache) (id : Text)
      → unique_result_id max_collision_retries 0 tokens d.entries ≡ ok id
      → IsStored content
          (entry_of content owner_scope now d)
          d.entries
          (reference_of id size)
          (store_entry id (entry_of content owner_scope now d) d)
  unfolding store_entry
  found-IsStored d id found =
      let fact = unique_result_id-absent max_collision_retries 0 tokens d.entries id found in
      record {
        well_formed = fact.1;
        unused = fact.0;
        reference = refl;
        appended = insert_absent id (entry_of content owner_scope now d) d.entries fact.0;
      }

  publish-IsStored :
      (d : ResultCache) (ref : CachedResultRef)
      → (publish content owner_scope now tokens d).0 ≡ ok (some ref)
      → IsStored content
          (entry_of content owner_scope now d)
          d.entries
          ref
          (publish content owner_scope now tokens d).1
  publish-IsStored d ref h =
      elim (Result-cases (unique_result_id max_collision_retries 0 tokens d.entries)) [
        | inl (id, found) ↦
            let same : reference_of id size ≡ ref =
              (let e : ok (some (reference_of id size)) ≡ ok (some ref) =
                  sym (ap (λ q. q.0) (publish_found d id found)) ∙ h in
                cc) in
            rw (publish_found d id found) (
              subst
                (λ r.
                  IsStored content (entry_of content owner_scope now d) d.entries r
                    (store_entry id (entry_of content owner_scope now d) d))
                same (found-IsStored d id found))
        | inr (e, failed) ↦
            (let q : err e ≡ ok (some ref) = sym (ap (λ q. q.0) (publish_failed d e failed)) ∙ h in
              cc)
      ]

  -- Where `put_text` on a valid cache returns a reference, the cache holds a newest part of the
  -- entries that had not expired, with no entry evicted that still fitted beside the newer ones and
  -- the new text, and behind it the new entry under an identifier that was not in use.
  pub put_text-IsStored :
      (ref : CachedResultRef)
      → put.0 ≡ ok (some ref)
      → (kept : Dict CacheEntry) × IsNewest size c (live now c.entries) kept
        × IsStored content (entry_of content owner_scope now c) kept ref put.1
  put_text-IsStored ref h = elim (Bool-cases large) [
    | inl big ↦ (let q : ok none ≡ ok (some ref) = sym (ap (λ q. q.0) (put-large big)) ∙ h in cc)
    | inr small ↦ (
      shrink size c (live now c.entries),
      shrink-IsNewest size c (live now c.entries),
      rw (put_small small)
          (publish-IsStored (roomy c v now size) ref (sym (ap (λ q. q.0) (put_small small)) ∙ h)),
    )
  ]

-- ===== src/ResultCache/Removal.antt =====
-- `_remove_locked` and `_evict_expired_locked` of src/workspace_guard_mcp/result_cache.py.
use sandboxed_workspace_mcp.Base.{
  ℕ, ◌+◌, ◌-◌, ◌≡◌, ◌≢◌, refl, sym, ap, ◌∙◌, none, some, Text, List, [], ◌∷◌, arith, leb, All,
  if◌then◌else◌, Bool-cases, Option-cases, inl, inr, if_pos,
}
use sandboxed_workspace_mcp.Dict.{Dict, lookup, erase}
use sandboxed_workspace_mcp.Dict.Unique.{Unique, erase_absent, Unique-erase}
use sandboxed_workspace_mcp.ResultCache.{
  CacheEntry, ResultCache, remove, expired_ids, remove_each, evict_expired, accounted,
}

-- The count agrees with the entries, and no identifier stands twice.
pub record IsSound (c : ResultCache) : Type 0 where
  pub unique : Unique c.entries
  pub exact : c.total_bytes ≡ accounted c.entries

-- `c` with other entries and their exact count.
abbrev pub with_entries : Dict CacheEntry → ResultCache → ResultCache
with_entries d c = record c { entries = d; total_bytes = accounted d }

pub with_entries_self : (c : ResultCache) → IsSound c → with_entries c.entries c ≡ c
with_entries_self c h = ground (arith, h.exact)

pub accounted-erase :
    (k : Text) (d : Dict CacheEntry) (e : CacheEntry)
    → Unique d
    → lookup k d ≡ some e
    → accounted d ≡ e.size_bytes + accounted (erase k d)
unfolding lookup erase accounted
accounted-erase k [] e u h = cc
accounted-erase k ((j, w) ∷ d) e u h = ground (arith, accounted-erase k d e, erase_absent j d)

pub remove-eq :
    (id : Text) (c : ResultCache) → IsSound c → remove id c ≡ with_entries (erase id c.entries) c
unfolding remove
remove-eq id c h = elim (Option-cases (lookup id c.entries)) [
  | inl e ↦ rw (e, remove) (rw (erase_absent id c.entries e) (sym (with_entries_self c h)))
  | inr (v, e) ↦
      let less : c.total_bytes - v.size_bytes ≡ accounted (erase id c.entries) =
        omega (arith, h.exact, accounted-erase id c.entries v h.unique e) in
      rw (e, remove) (ap (λ n. record c { entries = erase id c.entries; total_bytes = n }) less)
]

erase_all : List Text → Dict CacheEntry → Dict CacheEntry
erase_all [] d = d
erase_all (id ∷ ids) d = erase_all ids (erase id d)

remove_each-eq :
    (ids : List Text) (c : ResultCache)
    → IsSound c
    → remove_each ids c ≡ with_entries (erase_all ids c.entries) c
unfolding remove_each erase_all
remove_each-eq [] c h = sym (with_entries_self c h)
remove_each-eq (id ∷ ids) c h = rw (remove-eq id c h) (
    remove_each-eq ids (with_entries (erase id c.entries) c)
      (record { unique = Unique-erase id c.entries h.unique; exact = refl }))

-- The entries that have not expired.
unfoldable pub live : ℕ → Dict CacheEntry → Dict CacheEntry
live now [] = []
live now ((id, e) ∷ d) =
    let rest = live now d in if leb e.expires_at now then rest else (id, e) ∷ rest

erase_all-cons :
    (k : Text) (v : CacheEntry) (ids : List Text) (d : Dict CacheEntry)
    → All (λ j. k ≢ j) ids
    → erase_all ids ((k, v) ∷ d) ≡ (k, v) ∷ erase_all ids d
unfolding erase_all erase
erase_all-cons k v [] d h = refl
erase_all-cons k v (j ∷ ids) d h = ground (arith, h.0, erase_all-cons k v ids (erase j d) h.1)

absent_apart :
    (now : ℕ) (k : Text) (d : Dict CacheEntry)
    → lookup k d ≡ none
    → All (λ j. k ≢ j) (expired_ids now d)
unfolding expired_ids lookup
absent_apart now k [] h = tt
absent_apart now k ((j, e) ∷ d) h = elim (Bool-cases (leb e.expires_at now)) [
  | inl old ↦ rw old ((λ p. ground arith), absent_apart now k d (ground arith))
  | inr young ↦ rw young (absent_apart now k d (ground arith))
]

pub erase_head :
    (k : Text) (e : CacheEntry) (d : Dict CacheEntry) → lookup k d ≡ none → erase k ((k, e) ∷ d) ≡ d
unfolding erase
erase_head k e d h = rw (if_pos _ refl) (erase_absent k d h)

erase_all-live :
    (now : ℕ) (d : Dict CacheEntry) → Unique d → erase_all (expired_ids now d) d ≡ live now d
unfolding expired_ids live erase_all
erase_all-live now [] u = refl
erase_all-live now ((k, e) ∷ d) u = elim (Bool-cases (leb e.expires_at now)) [
  | inl old ↦ rw old (rw (erase_head k e d u.0, erase_all) (erase_all-live now d u.1))
  | inr young ↦ rw young (
      erase_all-cons k e (expired_ids now d) d (absent_apart now k d u.0)
      ∙ ap (λ r. (k, e) ∷ r) (erase_all-live now d u.1))
]

-- On a sound cache, `_evict_expired_locked` keeps exactly the live entries, in their order.
pub evict_expired-eq :
    (now : ℕ) (c : ResultCache)
    → IsSound c
    → evict_expired now c ≡ with_entries (live now c.entries) c
unfolding evict_expired
evict_expired-eq now c h =
    remove_each-eq (expired_ids now c.entries) c h
    ∙ ap (λ d. with_entries d c) (erase_all-live now c.entries h.unique)

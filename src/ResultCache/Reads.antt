-- ===== src/ResultCache/Reads.antt =====
-- What can be read back from a `ResultCache`, by whom, and for how long.
use sandboxed_workspace_mcp.Base.{
  ℕ, ◌≡◌, ap, ◌∙◌, subst, Bool, true, false, not, ◌&&◌, Option, none, some, Result, ok, err, Text,
  Text-discrete, Option-Text-discrete, [], ◌∷◌, ite, if_pos, if_neg, arith, leb, length-append, All,
  All-append, if◌then◌else◌, Bool-cases, Option-cases, inl, inr,
}
use sandboxed_workspace_mcp.Dict.{Dict, lookup, erase, lookup-erase}
use sandboxed_workspace_mcp.Dict.Unique.{Unique-erase, length-erase, Unique-append}
use sandboxed_workspace_mcp.ResultCache.{
  CacheError, cache_miss, CachedResult, CacheEntry, ResultCache, valid_result_id, move_to_end,
  read_entry, get,
}
use sandboxed_workspace_mcp.ResultCache.Removal.{live, evict_expired-eq, accounted-erase}
use sandboxed_workspace_mcp.ResultCache.Methods.{
  IsEntry, IsValid, fresh, fresh-IsValid, lookup-live, accounted-append,
}

-- Who may read an entry, and when.
abbrev pub readable : CacheEntry → Option Text → ℕ → Bool
readable e owner_scope now =
    not (leb e.expires_at now) && ite (Option-Text-discrete e.owner_scope owner_scope) true false

abbrev pub result_of : CacheEntry → CachedResult
result_of e = record { content = e.content; mime_type = e.mime_type; size_bytes = e.size_bytes }

-- Choosing between two outcomes with their caches, seen from the outcome.
choose-outcome :
    {P : Type 0} (d : Dec P) (r s : Result CacheError CachedResult) (c1 c2 : ResultCache)
    → (ite {C = Result CacheError CachedResult × ResultCache} d (r, c1) (s, c2)).0
      ≡ (if ite d true false then r else s)
choose-outcome d r s c1 c2 = ground arith

read_found :
    (id : Text) (owner_scope : Option Text) (c : ResultCache) (e : CacheEntry)
    → lookup id c.entries ≡ some e
    → (read_entry id owner_scope c).0 ≡ (
        if ite (Option-Text-discrete e.owner_scope owner_scope) true false
        then ok (result_of e)
        else err cache_miss)
unfolding read_entry
read_found id owner_scope c e found =
    rw (found, read_entry)
      (choose-outcome (Option-Text-discrete e.owner_scope owner_scope) (ok (result_of e))
        (err cache_miss) (move_to_end id e c) c)

read_absent :
    (id : Text) (owner_scope : Option Text) (c : ResultCache)
    → lookup id c.entries ≡ none
    → read_entry id owner_scope c ≡ (err cache_miss, c)
unfolding read_entry
read_absent id owner_scope c absent = rw (absent, read_entry)

All-lookup :
    (P : Text × CacheEntry → Type 0) (k : Text) (e : CacheEntry) (d : Dict CacheEntry)
    → All P d
    → lookup k d ≡ some e
    → P (k, e)
unfolding lookup
All-lookup P k e [] h found = cc
All-lookup P k e ((j, w) ∷ d) h found = elim (Text-discrete j k) [
  | yes p ↦
      let same : w ≡ e = ground arith in subst (λ i. P (i, e)) p (subst (λ x. P (j, x)) same h.0)
  | no p ↦ All-lookup P k e d h.1 (ground arith)
]

All-erase :
    (P : Text × CacheEntry → Type 0) (k : Text) (d : Dict CacheEntry) → All P d → All P (erase k d)
unfolding erase
All-erase P k [] h = tt
All-erase P k ((j, w) ∷ d) h = elim (Text-discrete j k) [
  | yes p ↦ rw (if_pos _ p) (All-erase P k d h.1)
  | no p ↦ rw (if_neg _ p) (h.0, All-erase P k d h.1)
]

moved-IsValid :
    (id : Text) (d : ResultCache) (e : CacheEntry)
    → IsValid d
    → lookup id d.entries ≡ some e
    → IsValid (move_to_end id e d)
unfolding move_to_end
moved-IsValid id d e h found =
    let P = IsEntry d.max_item_bytes d.ttl_seconds in
    let gone : lookup id (erase id d.entries) ≡ none =
      ground (arith, lookup-erase id id d.entries) in
    let bytes = accounted-erase id d.entries e h.sound.unique found in
    let count = length-erase id d.entries e h.sound.unique found in
    record {
      sound = record {
        unique =
            Unique-append id e (erase id d.entries) gone (Unique-erase id d.entries h.sound.unique);
        exact = omega (arith, accounted-append (erase id d.entries) id e, bytes, h.sound.exact);
      };
      few = omega (arith, length-append {0} (erase id d.entries) ((id, e) ∷ []), count, h.few);
      small = h.small;
      entries =
          All-append P (erase id d.entries) ((id, e) ∷ []) (All-erase P id d.entries h.entries)
            (All-lookup P id e d.entries h.entries found, tt);
      room = h.room;
    }

choose-IsValid :
    {P : Type 0} (q : Dec P) (r s : Result CacheError CachedResult) (c1 c2 : ResultCache)
    → IsValid c1
    → IsValid c2
    → IsValid (ite {C = Result CacheError CachedResult × ResultCache} q (r, c1) (s, c2)).1
choose-IsValid (yes p) r s c1 c2 h1 h2 = h1
choose-IsValid (no p) r s c1 c2 h1 h2 = h2

read_entry-IsValid :
    (id : Text) (owner_scope : Option Text) (d : ResultCache)
    → IsValid d
    → IsValid (read_entry id owner_scope d).1
unfolding read_entry
read_entry-IsValid id owner_scope d h = elim (Option-cases (lookup id d.entries)) [
  | inl absent ↦ rw (absent, read_entry) h
  | inr (e, found) ↦
      rw (found, read_entry)
        (choose-IsValid (Option-Text-discrete e.owner_scope owner_scope) (ok (result_of e))
          (err cache_miss) (move_to_end id e d) d (moved-IsValid id d e h found) h)
]

module _ (id : Text) (owner_scope : Option Text) (now : ℕ) (c : ResultCache) (v : IsValid c) where
  get-eq : get id owner_scope now c ≡ (
      if valid_result_id id then read_entry id owner_scope (fresh c v now) else (err cache_miss, c))
  unfolding get
  get-eq = rw (evict_expired-eq now c v.sound)

  pub get_unknown :
      lookup id (live now c.entries) ≡ none → (get id owner_scope now c).0 ≡ err cache_miss
  get_unknown gone = elim (Bool-cases (valid_result_id id)) [
    | inl shape ↦ rw get-eq (rw shape (rw (read_absent id owner_scope (fresh c v now) gone)))
    | inr bad ↦ rw get-eq (rw bad)
  ]

  -- On a valid cache and for a well-formed identifier that is in it, `get` returns the stored text to
  -- a reader with the entry's own scope as long as the entry has not expired, and in every other case
  -- raises the same miss.
  pub get-readable :
      (e : CacheEntry)
      → valid_result_id id ≡ true
      → lookup id c.entries ≡ some e
      → (get id owner_scope now c).0
        ≡ (if readable e owner_scope now then ok (result_of e) else err cache_miss)
  get-readable e shape found =
      let seen = lookup-live now id c.entries e v.sound.unique found in
      elim (Bool-cases (leb e.expires_at now)) [
        | inl old ↦ rw old (get_unknown (seen ∙ ap (λ b. if b then none else some e) old))
        | inr young ↦ rw young (
            rw get-eq (
              rw shape (
                read_found id owner_scope (fresh c v now) e
                  (seen ∙ ap (λ b. if b then none else some e) young))))
      ]

  -- `get` keeps the cache valid, whatever identifier it is called with.
  pub get-IsValid : IsValid (get id owner_scope now c).1
  get-IsValid = elim (Bool-cases (valid_result_id id)) [
    | inl shape ↦
        rw get-eq
          (rw shape (read_entry-IsValid id owner_scope (fresh c v now) (fresh-IsValid c v now)))
    | inr bad ↦ rw get-eq (rw bad v)
  ]

-- ===== src/ResultCache/Methods.antt =====
-- What `put_text` and `get` of src/workspace_guard_mcp/result_cache.py do on a valid cache.
use sandboxed_workspace_mcp.Base.{
  ℕ, zero, suc, ◌+◌, ◌<◌, ◌≤◌, ◌≡◌, refl, true, false, ◌||◌, Option, none, some, ok, Result-cases,
  Text, [], ◌∷◌, ◌++◌, arith, leb, ltb, length, length-append, utf8_size, All, All-append,
  if◌then◌else◌, Bool-cases, inl, inr,
}
use sandboxed_workspace_mcp.Dict.{Dict, lookup}
use sandboxed_workspace_mcp.Dict.Unique.{Unique, insert_absent, Unique-append}
use sandboxed_workspace_mcp.ResultCache.{
  CacheEntry, ResultCache, valid_result_id, is_full, unique_result_id, entry_of, store_entry,
  publish, put_text, accounted, max_collision_retries,
}
use sandboxed_workspace_mcp.ResultCache.Removal.{IsSound, with_entries, live, evict_expired-eq}
use sandboxed_workspace_mcp.ResultCache.Room.{shrink, make_room-eq, shrink_fits}

-- What an entry of a cache satisfies.
pub record IsEntry (max_item ttl : ℕ) (p : Text × CacheEntry) : Type 0 where
  pub measured : p.1.size_bytes ≡ utf8_size p.1.content
  pub admitted : p.1.size_bytes ≤ max_item
  pub fixed_ttl : p.1.expires_at ≡ p.1.created_at + ttl

pub record IsValid (c : ResultCache) : Type 0 where
  pub sound : IsSound c
  pub few : length c.entries ≤ c.max_entries
  pub small : c.total_bytes ≤ c.max_total_bytes
  pub entries : All (IsEntry c.max_item_bytes c.ttl_seconds) c.entries
  pub room : 0 < c.max_entries

pub live-lookup-none :
    (now : ℕ) (k : Text) (d : Dict CacheEntry) → lookup k d ≡ none → lookup k (live now d) ≡ none
unfolding live lookup
live-lookup-none now k [] h = refl
live-lookup-none now k ((j, e) ∷ d) h = ground (arith, live-lookup-none now k d)

live-Unique : (now : ℕ) (d : Dict CacheEntry) → Unique d → Unique (live now d)
unfolding live
live-Unique now [] u = tt
live-Unique now ((k, e) ∷ d) u = elim (Bool-cases (leb e.expires_at now)) [
  | inl old ↦ rw old (live-Unique now d u.1)
  | inr young ↦ rw young (live-lookup-none now k d u.0, live-Unique now d u.1)
]

live-measure :
    (now : ℕ) (d : Dict CacheEntry)
    → (length (live now d) ≤ length d) × (accounted (live now d) ≤ accounted d)
unfolding live accounted
live-measure now [] = (omega arith, omega arith)
live-measure now ((k, e) ∷ d) = ground (arith, live-measure now d)

live-All :
    (P : Text × CacheEntry → Type 0) (now : ℕ) (d : Dict CacheEntry) → All P d → All P (live now d)
unfolding live
live-All P now [] h = tt
live-All P now ((k, e) ∷ d) h = elim (Bool-cases (leb e.expires_at now)) [
  | inl old ↦ rw old (live-All P now d h.1)
  | inr young ↦ rw young (h.0, live-All P now d h.1)
]

shrink-lookup-none :
    (size : ℕ) (c : ResultCache) (k : Text) (d : Dict CacheEntry)
    → lookup k d ≡ none
    → lookup k (shrink size c d) ≡ none
unfolding shrink lookup
shrink-lookup-none size c k [] h = refl
shrink-lookup-none size c k ((j, e) ∷ d) h = ground (arith, shrink-lookup-none size c k d)

shrink-Unique :
    (size : ℕ) (c : ResultCache) (d : Dict CacheEntry) → Unique d → Unique (shrink size c d)
unfolding shrink
shrink-Unique size c [] u = tt
shrink-Unique size c (p ∷ d) u = elim (Bool-cases (is_full size (with_entries (p ∷ d) c))) [
  | inl full ↦ rw full (shrink-Unique size c d u.1)
  | inr done ↦ rw done u
]

shrink-All :
    (P : Text × CacheEntry → Type 0) (size : ℕ) (c : ResultCache) (d : Dict CacheEntry)
    → All P d
    → All P (shrink size c d)
unfolding shrink
shrink-All P size c [] h = tt
shrink-All P size c (p ∷ d) h = elim (Bool-cases (is_full size (with_entries (p ∷ d) c))) [
  | inl full ↦ rw full (shrink-All P size c d h.1)
  | inr done ↦ rw done h
]

pub accounted-append :
    (d : Dict CacheEntry) (k : Text) (e : CacheEntry)
    → accounted (d ++ (k, e) ∷ []) ≡ accounted d + e.size_bytes
unfolding accounted
accounted-append [] k e = omega arith
accounted-append ((j, w) ∷ d) k e = omega (arith, accounted-append d k e)

-- The identifier that is found is not in use.
pub unique_result_id-absent :
    (retries call : ℕ) (tokens : ℕ → Text) (d : Dict CacheEntry) (id : Text)
    → unique_result_id retries call tokens d ≡ ok id
    → (lookup id d ≡ none) × (valid_result_id id ≡ true)
unfolding unique_result_id
unique_result_id-absent zero call tokens d id h = cc
unique_result_id-absent (suc retries) call tokens d id h =
    ground (arith, unique_result_id-absent retries (suc call) tokens d id)

pub room_left :
    (size : ℕ) (c : ResultCache)
    → is_full size c ≡ false
    → (length c.entries < c.max_entries) × (c.total_bytes + size ≤ c.max_total_bytes)
unfolding is_full
room_left size c h = ground arith

module _ (c : ResultCache) (v : IsValid c) where
  -- The cache after the eviction of what has expired, and after making room for `size` bytes.
  abbrev pub fresh : ℕ → ResultCache
  fresh now = with_entries (live now c.entries) c

  abbrev pub roomy : ℕ → ℕ → ResultCache
  roomy now size = with_entries (shrink size c (live now c.entries)) c

  pub fresh-IsValid : (now : ℕ) → IsValid (fresh now)
  fresh-IsValid now = record {
    sound = record { unique = live-Unique now c.entries v.sound.unique; exact = refl };
    few = omega (arith, (live-measure now c.entries).0, v.few);
    small = omega (arith, (live-measure now c.entries).1, v.small, v.sound.exact);
    entries = live-All (IsEntry c.max_item_bytes c.ttl_seconds) now c.entries v.entries;
    room = v.room;
  }

  pub roomy-IsValid : (now size : ℕ) → size ≤ c.max_total_bytes → IsValid (roomy now size)
  roomy-IsValid now size fits =
      let left =
        room_left size (roomy now size) (shrink_fits size c v.room fits (live now c.entries)) in
      record {
        sound = record {
          unique =
              shrink-Unique size c (live now c.entries) (live-Unique now c.entries v.sound.unique);
          exact = refl;
        };
        few = omega (arith, left.0);
        small = omega (arith, left.1);
        entries =
            shrink-All (IsEntry c.max_item_bytes c.ttl_seconds) size c _
              (live-All (IsEntry c.max_item_bytes c.ttl_seconds) now c.entries v.entries);
        room = v.room;
      }

not_larger :
    (size : ℕ) (c : ResultCache)
    → size ≤ c.max_item_bytes
    → size ≤ c.max_total_bytes
    → (ltb c.max_item_bytes size || ltb c.max_total_bytes size) ≡ false
not_larger size c item total = ground arith

-- `put_text` behind its size test, with the loops gone.
pub put_text-publish :
    (content : Text) (owner_scope : Option Text) (now : ℕ) (tokens : ℕ → Text) (c : ResultCache)
    (v : IsValid c)
    → utf8_size content ≤ c.max_item_bytes
    → utf8_size content ≤ c.max_total_bytes
    → put_text content owner_scope now tokens c
      ≡ publish content owner_scope now tokens (roomy c v now (utf8_size content))
unfolding put_text
put_text-publish content owner_scope now tokens c v item total =
    let size = utf8_size content in
    let d = live now c.entries in
    let cleaned = evict_expired-eq now c v.sound in
    let made =
      make_room-eq size c v.room total (suc (length d)) d (live-Unique now c.entries v.sound.unique)
        (omega arith) in
    rw (not_larger size c item total) (rw cleaned (rw made))

pub lookup-live :
    (now : ℕ) (k : Text) (d : Dict CacheEntry) (e : CacheEntry)
    → Unique d
    → lookup k d ≡ some e
    → lookup k (live now d) ≡ (if leb e.expires_at now then none else some e)
unfolding live lookup
lookup-live now k [] e u h = cc
lookup-live now k ((j, w) ∷ d) e u h =
    ground (arith, lookup-live now k d e, live-lookup-none now j d)

module _ (content : Text) (owner_scope : Option Text) (now : ℕ) (tokens : ℕ → Text)
    (c : ResultCache) where
  stored-IsValid :
      (id : Text)
      → IsValid c
      → lookup id c.entries ≡ none
      → utf8_size content ≤ c.max_item_bytes
      → is_full (utf8_size content) c ≡ false
      → IsValid (store_entry id (entry_of content owner_scope now c) c)
  unfolding store_entry
  stored-IsValid id v absent item space =
      let e = entry_of content owner_scope now c in
      let left = room_left (utf8_size content) c space in
      record {
        sound = record {
          unique =
              rw (insert_absent id e c.entries absent)
                (Unique-append id e c.entries absent v.sound.unique);
          exact =
              rw (insert_absent id e c.entries absent)
                (omega (arith, accounted-append c.entries id e, v.sound.exact));
        };
        few =
            rw (insert_absent id e c.entries absent)
              (omega (arith, length-append {0} c.entries ((id, e) ∷ []), left.0));
        small = left.1;
        entries = rw (insert_absent id e c.entries absent) (
            All-append (IsEntry c.max_item_bytes c.ttl_seconds) c.entries ((id, e) ∷ []) v.entries
              (record { measured = refl; admitted = item; fixed_ttl = refl }, tt));
        room = v.room;
      }

  pub publish-IsValid :
      IsValid c
      → utf8_size content ≤ c.max_item_bytes
      → is_full (utf8_size content) c ≡ false
      → IsValid (publish content owner_scope now tokens c).1
  unfolding publish
  publish-IsValid v item space =
      elim (Result-cases (unique_result_id max_collision_retries 0 tokens c.entries)) [
        | inl (id, found) ↦
            rw (found, publish)
              (stored-IsValid id v (unique_result_id-absent 16 0 tokens c.entries id found).0 item
                space)
        | inr (e, failed) ↦ rw (failed, publish) v
      ]

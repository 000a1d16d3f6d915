-- ===== src/ResultCache.antt =====
-- `ResultCache` of src/workspace_guard_mcp/result_cache.py. Every method holds the lock around its
-- reads and writes, so it is one step. The clock's reading `now` and the results `tokens 0`,
-- `tokens 1`, … of the calls of `token_factory` are arguments. Times are counts of clock ticks.
pub mod Removal
pub mod Room
pub mod Methods
pub mod Promises
pub mod Reads
pub mod RoundTrip
pub mod Runs
use sandboxed_workspace_mcp.Base.{
  ℕ, zero, suc, ◌+◌, ◌-◌, ◌*◌, ◌<◌, ◌≤◌, ◌≡◌, Bool, true, false, not, ◌&&◌, ◌||◌, Option, none,
  some, Result, ok, err, Text, text, Option-Text-discrete, List, [], ◌∷◌, ◌++◌, map, ite, utf8_size,
  length, ltb, leb, ◌==◌, if◌then◌else◌,
}
use sandboxed_workspace_mcp.Dict.{Dict, lookup, insert, erase}

-- `out_of_fuel` stands for an eviction loop that does not end.
pub data CacheError : Type 0 where
  value_error cache_error cache_miss out_of_fuel : CacheError

pub record CachedResultRef : Type 0 where
  pub result_id : Text
  pub uri : Text
  pub size_bytes : ℕ
  pub mime_type : Text

pub record CachedResult : Type 0 where
  pub content : Text
  pub mime_type : Text
  pub size_bytes : ℕ

pub record CacheEntry : Type 0 where
  pub content : Text
  pub mime_type : Text
  pub size_bytes : ℕ
  pub created_at : ℕ
  pub expires_at : ℕ
  pub owner_scope : Option Text

pub record ResultCache : Type 0 where
  pub max_entries : ℕ
  pub max_total_bytes : ℕ
  pub max_item_bytes : ℕ
  pub ttl_seconds : ℕ
  pub entries : Dict CacheEntry
  pub total_bytes : ℕ

abbrev pub result_text_mime : Text
result_text_mime = text "text/plain; charset=utf-8"

abbrev pub result_uri_prefix : Text
result_uri_prefix = text "workspaceguard://result/"

abbrev pub max_collision_retries : ℕ
max_collision_retries = 16

unfoldable pub init : ℕ → ℕ → ℕ → ℕ → Result CacheError ResultCache
init max_entries max_total_bytes max_item_bytes ttl_seconds =
    if leb 1 max_entries
      && (leb 1 max_total_bytes
          && (leb 1 max_item_bytes && (leb max_item_bytes max_total_bytes && leb 1 ttl_seconds)))
    then ok (record {
      max_entries = max_entries;
      max_total_bytes = max_total_bytes;
      max_item_bytes = max_item_bytes;
      ttl_seconds = ttl_seconds;
      entries = [];
      total_bytes = 0;
    })
    else err value_error

-- The pattern `[A-Za-z0-9_-]{32}`.
unfoldable pub is_token_character : ℕ → Bool
is_token_character c =
    leb b'A' c && leb c b'Z'
    || (leb b'a' c && leb c b'z' || (leb b'0' c && leb c b'9' || (c == b'_' || c == b'-')))

unfoldable pub all_token_characters : Text → Bool
unfolding is_token_character
all_token_characters [] = true
all_token_characters (c ∷ cs) = is_token_character c && all_token_characters cs

unfoldable pub valid_result_id : Text → Bool
valid_result_id id = length id == 32 && all_token_characters id

-- `_remove_locked`; the identifier always comes from the entries, so `pop` finds it.
unfoldable pub remove : Text → ResultCache → ResultCache
remove id c = elim (lookup id c.entries) [
  | none ↦ c
  | some e ↦ record c { entries = erase id c.entries; total_bytes = c.total_bytes - e.size_bytes }
]

unfoldable pub expired_ids : ℕ → Dict CacheEntry → List Text
expired_ids now [] = []
expired_ids now ((id, e) ∷ d) =
    let rest = expired_ids now d in if leb e.expires_at now then id ∷ rest else rest

unfoldable pub remove_each : List Text → ResultCache → ResultCache
remove_each [] c = c
remove_each (id ∷ ids) c = remove_each ids (remove id c)

unfoldable pub evict_expired : ℕ → ResultCache → ResultCache
evict_expired now c = remove_each (expired_ids now c.entries) c

unfoldable pub evict_lru : ResultCache → ResultCache
evict_lru c = elim c.entries [ [] ↦ c | (id, e) ∷ rest ↦ remove id c ]

-- The condition of the `while` loop.
unfoldable pub is_full : ℕ → ResultCache → Bool
is_full size c =
    leb c.max_entries (length c.entries) || ltb c.max_total_bytes (c.total_bytes + size)

-- `none` is a loop that has not ended after `fuel` rounds.
unfoldable pub make_room : ℕ → ℕ → ResultCache → Option ResultCache
make_room zero size c = none
make_room (suc fuel) size c =
    let rest = make_room fuel size (evict_lru c) in if is_full size c then rest else some c

-- The loop of `_unique_result_id_locked` with `retries` rounds left, at the call number `call`.
unfoldable pub unique_result_id : ℕ → ℕ → (ℕ → Text) → Dict CacheEntry → Result CacheError Text
unique_result_id zero call tokens d = err cache_error
unique_result_id (suc retries) call tokens d =
    let again = unique_result_id retries (suc call) tokens d in
    if valid_result_id (tokens call)
    then elim (lookup (tokens call) d) [ none ↦ ok (tokens call) | some _ ↦ again ]
    else err cache_error

abbrev pub entry_of : Text → Option Text → ℕ → ResultCache → CacheEntry
entry_of content owner_scope now c = record {
  content = content;
  mime_type = result_text_mime;
  size_bytes = utf8_size content;
  created_at = now;
  expires_at = now + c.ttl_seconds;
  owner_scope = owner_scope;
}

unfoldable pub store_entry : Text → CacheEntry → ResultCache → ResultCache
store_entry id e c = record c {
  entries = insert id e c.entries;
  total_bytes = c.total_bytes + e.size_bytes;
}

abbrev pub reference_of : Text → ℕ → CachedResultRef
reference_of id size = record {
  result_id = id;
  uri = result_uri_prefix ++ id;
  size_bytes = size;
  mime_type = result_text_mime;
}

-- The part of `put_text` behind the eviction: what was evicted stays evicted when no token is found.
unfoldable pub publish :
    Text
    → Option Text
    → ℕ
    → (ℕ → Text)
    → ResultCache
    → Result CacheError (Option CachedResultRef) × ResultCache
publish content owner_scope now tokens c =
    elim (unique_result_id max_collision_retries 0 tokens c.entries) [
      | err e ↦ (err e, c)
      | ok id ↦ (
        ok (some (reference_of id (utf8_size content))),
        store_entry id (entry_of content owner_scope now c) c,
      )
    ]

unfoldable pub put_text :
    Text
    → Option Text
    → ℕ
    → (ℕ → Text)
    → ResultCache
    → Result CacheError (Option CachedResultRef) × ResultCache
put_text content owner_scope now tokens c =
    let size = utf8_size content in
    if ltb c.max_item_bytes size || ltb c.max_total_bytes size
    then (ok none, c)
    else (let c1 = evict_expired now c in
        elim (make_room (suc (length c1.entries)) size c1) [
          | none ↦ (err out_of_fuel, c1)
          | some c2 ↦ publish content owner_scope now tokens c2
        ])

-- `move_to_end` of a present key.
unfoldable pub move_to_end : Text → CacheEntry → ResultCache → ResultCache
move_to_end id e c = record c { entries = erase id c.entries ++ (id, e) ∷ [] }

-- The part of `get` behind the eviction.
unfoldable pub read_entry :
    Text → Option Text → ResultCache → Result CacheError CachedResult × ResultCache
read_entry id owner_scope c = elim (lookup id c.entries) [
  | none ↦ (err cache_miss, c)
  | some e ↦
      ite (Option-Text-discrete e.owner_scope owner_scope)
        (
          ok (record { content = e.content; mime_type = e.mime_type; size_bytes = e.size_bytes }),
          move_to_end id e c,
        )
        (err cache_miss, c)
]

unfoldable pub get :
    Text → Option Text → ℕ → ResultCache → Result CacheError CachedResult × ResultCache
get id owner_scope now c =
    if valid_result_id id
    then read_entry id owner_scope (evict_expired now c)
    else (err cache_miss, c)

-- `accounted_bytes`
unfoldable pub accounted : Dict CacheEntry → ℕ
accounted [] = 0
accounted ((id, e) ∷ d) = e.size_bytes + accounted d

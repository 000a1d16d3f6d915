-- ===== src/Tests/CacheRuns.antt =====
-- The theorems on `ResultCache`, applied to a cache with room for one entry.
use sandboxed_workspace_mcp.Base.{
  ◌≡◌, ◌≢◌, refl, true, Option, some, ok, err, Text, text, [], arith, if◌then◌else◌, utf8_size,
  Text-discrete, Option-Text-discrete, utf8_width,
}
use sandboxed_workspace_mcp.Dict.{Dict, lookup, insert, erase}
use sandboxed_workspace_mcp.ResultCache.{
  init, ResultCache, CacheEntry, out_of_fuel, cache_miss, put_text, get, entry_of, reference_of,
  accounted, valid_result_id, is_token_character, all_token_characters, remove, expired_ids,
  remove_each, evict_expired, evict_lru, is_full, make_room, unique_result_id, store_entry, publish,
}
use sandboxed_workspace_mcp.ResultCache.Removal.{live}
use sandboxed_workspace_mcp.ResultCache.Room.{IsNewest}
use sandboxed_workspace_mcp.ResultCache.Methods.{IsValid}
use sandboxed_workspace_mcp.ResultCache.Promises.{
  put_text-IsValid, put_text_ends, put_text-IsStored, IsStored,
}
use sandboxed_workspace_mcp.ResultCache.Reads.{readable, result_of, get-readable}
use sandboxed_workspace_mcp.ResultCache.Runs.{here, next, puts, gets, reached-IsValid}
use sandboxed_workspace_mcp.ResultCache.RoundTrip.{get-put_text}

abbrev pub empty_cache : ResultCache
empty_cache = record {
  max_entries = 1;
  max_total_bytes = 100;
  max_item_bytes = 50;
  ttl_seconds = 60;
  entries = [];
  total_bytes = 0;
}

abbrev pub first_token : Text
first_token = text "AAAAAAAAAAAAAAAAAAAAAAAAAAAAAAAA"

abbrev second_token : Text
second_token = text "BBBBBBBBBBBBBBBBBBBBBBBBBBBBBBBB"

abbrev pub hello : Text
hello = text "hello"

abbrev pub world : Text
world = text "world"

abbrev pub alice : Option Text
alice = some (text "alice")

pub empty_cache-IsValid : IsValid empty_cache
unfolding accounted
empty_cache-IsValid = record {
  sound = record { unique = tt; exact = refl };
  few = omega arith;
  small = omega arith;
  entries = tt;
  room = omega arith;
}

abbrev one_entry : ResultCache
one_entry = (put_text hello alice 5 (λ n. first_token) empty_cache).1

one_entry-IsValid : IsValid one_entry
one_entry-IsValid =
    put_text-IsValid hello alice 5 (λ n. first_token) empty_cache empty_cache-IsValid

second_put :
    (put_text world alice 7 (λ n. second_token) one_entry).0
    ≡ ok (some (reference_of second_token 5))
unfolding is_token_character all_token_characters valid_result_id remove expired_ids remove_each
    evict_expired evict_lru is_full make_room unique_result_id store_entry publish put_text
    accounted lookup insert erase Text-discrete Option-Text-discrete utf8_size utf8_width
second_put = refl

first_shape : valid_result_id first_token ≡ true
unfolding is_token_character all_token_characters valid_result_id remove expired_ids remove_each
    evict_expired evict_lru is_full make_room unique_result_id store_entry publish put_text
    accounted lookup insert erase Text-discrete Option-Text-discrete utf8_size utf8_width
first_shape = refl

first_held : lookup first_token one_entry.entries ≡ some (entry_of hello alice 5 empty_cache)
unfolding is_token_character all_token_characters valid_result_id remove expired_ids remove_each
    evict_expired evict_lru is_full make_room unique_result_id store_entry publish put_text
    accounted lookup insert erase Text-discrete Option-Text-discrete utf8_size utf8_width
first_held = refl

put_text-IsValid_example : IsValid (put_text world alice 7 (λ n. second_token) one_entry).1
put_text-IsValid_example =
    put_text-IsValid world alice 7 (λ n. second_token) one_entry one_entry-IsValid

put_text_ends_example : (put_text world alice 7 (λ n. second_token) one_entry).0 ≢ err out_of_fuel
put_text_ends_example = put_text_ends world alice 7 (λ n. second_token) one_entry one_entry-IsValid

put_text-IsStored_example :
    (kept : Dict CacheEntry) × IsNewest (utf8_size world) one_entry (live 7 one_entry.entries) kept
    × IsStored world
        (entry_of world alice 7 one_entry)
        kept
        (reference_of second_token 5)
        (put_text world alice 7 (λ n. second_token) one_entry).1
put_text-IsStored_example =
    put_text-IsStored world alice 7 (λ n. second_token) one_entry one_entry-IsValid
      (reference_of second_token 5) second_put

get-readable_example : (get first_token alice 9 one_entry).0 ≡ (
    if readable (entry_of hello alice 5 empty_cache) alice 9
    then ok (result_of (entry_of hello alice 5 empty_cache))
    else err cache_miss)
get-readable_example =
    get-readable first_token alice 9 one_entry one_entry-IsValid
      (entry_of hello alice 5 empty_cache) first_shape first_held

get-put_text_example :
    (get second_token alice 20 (put_text world alice 7 (λ n. second_token) one_entry).1).0 ≡ (
      if readable (entry_of world alice 7 one_entry) alice 20
      then ok (result_of (entry_of world alice 7 one_entry))
      else err cache_miss)
get-put_text_example =
    get-put_text world alice 7 (λ n. second_token) one_entry one_entry-IsValid
      (reference_of second_token 5) alice 20 second_put

empty_built : init 1 100 50 60 ≡ ok empty_cache
unfolding init
empty_built = refl

reached-IsValid_example : IsValid (get first_token alice 9 one_entry).1
reached-IsValid_example =
    reached-IsValid 1 100 50 60 empty_cache (get first_token alice 9 one_entry).1 empty_built
      (next (next here (puts hello alice 5 (λ n. first_token))) (gets first_token alice 9))

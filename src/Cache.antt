-- ===== src/Cache.antt =====
-- src/util/cache.h and cache.cc: block contents by address, an `unordered_map` that is never
-- walked through. The size limit CACHE_SIZE of the header is used nowhere.
use replicated_block_store.Prelude.{
  ◌≡◌, none, some, [], arith, Bytes, bytes_eq, bytes_eq_iff, if◌then◌else◌,
}
use replicated_block_store.Map.{Map, find, contains, assign, erase, find-assign, find-erase}

unfoldable pub add_to_cache : Bytes → Bytes → Map Bytes → Map Bytes
add_to_cache key value cache = if contains key cache then cache else assign key value cache

-- A key that is missing reads as the empty text.
unfoldable pub get_value_from_cache : Bytes → Map Bytes → Bytes
get_value_from_cache key cache = elim (find key cache) [ none ↦ [] | some value ↦ value ]

unfoldable pub update_cache : Bytes → Bytes → Map Bytes → Map Bytes
update_cache key value cache = if contains key cache then assign key value cache else cache

unfoldable pub delete_key : Bytes → Map Bytes → Map Bytes
delete_key key cache = if contains key cache then erase key cache else cache

-- Adding leaves an entry that is there.
pub find-add :
    (key j value : Bytes) (cache : Map Bytes)
    → find j (add_to_cache key value cache) ≡ (
        if bytes_eq key j
        then some (elim (find key cache) [ none ↦ value | some old ↦ old ])
        else find j cache)
unfolding add_to_cache contains
find-add key j value cache = ground (arith, find-assign key j value cache, bytes_eq_iff key j)

-- Updating makes no entry where there is none.
pub find-update :
    (key j value : Bytes) (cache : Map Bytes)
    → find j (update_cache key value cache) ≡ (
        if bytes_eq key j
        then elim (find key cache) [ none ↦ none | some old ↦ some value ]
        else find j cache)
unfolding update_cache contains
find-update key j value cache = ground (arith, find-assign key j value cache, bytes_eq_iff key j)

pub find-delete :
    (key j : Bytes) (cache : Map Bytes)
    → find j (delete_key key cache) ≡ (if bytes_eq key j then none else find j cache)
unfolding delete_key contains
find-delete key j cache = ground (arith, find-erase key j cache, bytes_eq_iff key j)

-- ===== src/Cache/Memory.antt =====
-- internal/cache/response_cache.go, `InMemoryCache`: entries that expire.
use nexus_ai_gateway.Common.{
  ℕ, ◌+◌, Bool, true, false, Option, none, some, List, [], String, if◌then◌else◌,
}
use nexus_ai_gateway.Common.Clock.{after}
use nexus_ai_gateway.Common.Dict
use nexus_ai_gateway.Common.Dict.{find, put}

pub record CacheEntry : Type 0 where
  pub value : List ℕ
  pub expires_at : ℕ

pub record InMemoryCache : Type 0 where
  pub entries : Dict.Dict CacheEntry

unfoldable pub new_in_memory_cache : InMemoryCache
new_in_memory_cache = record { entries = [] }

unfoldable pub remove : String → InMemoryCache → InMemoryCache
remove key c = record c { entries = Dict.delete key c.entries }

abbrev pub get_found :
    ℕ → String → InMemoryCache → Option CacheEntry → InMemoryCache × Option (List ℕ)
get_found now key c none = (c, none)
get_found now key c (some e) =
    if after now e.expires_at then (remove key c, none) else (c, some e.value)

unfoldable pub get : ℕ → String → InMemoryCache → InMemoryCache × Option (List ℕ)
get now key c = get_found now key c (find key c.entries)

unfoldable pub set : ℕ → String → List ℕ → ℕ → InMemoryCache → InMemoryCache
set now key value ttl c = record c {
  entries = put key (record { value = value; expires_at = now + ttl }) c.entries;
}

unfoldable pub delete : String → InMemoryCache → InMemoryCache
delete key c = remove key c

abbrev pub exists_found : ℕ → String → InMemoryCache → Option CacheEntry → InMemoryCache × Bool
exists_found now key c none = (c, false)
exists_found now key c (some e) =
    if after now e.expires_at then (remove key c, false) else (c, true)

unfoldable pub exists : ℕ → String → InMemoryCache → InMemoryCache × Bool
exists now key c = exists_found now key c (find key c.entries)

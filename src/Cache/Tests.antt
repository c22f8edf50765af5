-- ===== src/Cache/Tests.antt =====
-- Runs of the cache with a form of a response that keeps the status and the time, and the instances
-- of the properties.
use nexus_ai_gateway.Common.{
  ℕ, ◌≡◌, Bool, true, false, none, some, List, [], ◌∷◌, String, refl, inl, inr, ◌⊎◌,
}
use nexus_ai_gateway.Common.Dict
use nexus_ai_gateway.Common.Dict.{find, put}
use nexus_ai_gateway.Cache.Memory
use nexus_ai_gateway.Cache.Memory.{InMemoryCache, new_in_memory_cache}
use nexus_ai_gateway.Cache.{
  CachedResponse, Codec, ResponseCache, new_response_cache, disable, get, set, delete, in_memory,
}
use nexus_ai_gateway.Cache.Kept.{sets, deletes, run, set-get}

abbrev response : ℕ → ℕ → Bool → CachedResponse
response status cached_at cache_hit = record {
  status_code = status;
  headers = [];
  body = [];
  cached_at = cached_at;
  cache_hit = cache_hit;
}

abbrev read_two : List ℕ → String ⊎ CachedResponse
read_two [] = inl "short"
read_two (status ∷ []) = inl "short"
read_two (status ∷ cached_at ∷ rest) = inr (response status cached_at false)

abbrev json : Codec
json = record { encode = λ r. inr (r.status_code ∷ r.cached_at ∷ []); decode = read_two }

abbrev ten : ResponseCache InMemoryCache
unfolding new_response_cache new_in_memory_cache
ten = new_response_cache new_in_memory_cache 10

disabled_keeps_nothing :
    (set in_memory json 5 "k" (response 200 0 false) (disable ten)).0.store.entries ≡ []
unfolding set disable ten
disabled_keeps_nothing = refl

deleted_is_gone :
    (get in_memory json 6 "k"
      (delete in_memory json "k" (set in_memory json 5 "k" (response 200 0 false) ten).0).0).1
    ≡ inr none
unfolding get set delete ten in_memory Memory.get Memory.set Memory.delete Memory.remove find put
    Dict.delete
deleted_is_gone = refl

set-get_example :
    (get in_memory json 15 "k" (
      run json
        (sets 6 "j" (response 404 0 false) ∷ deletes "i" ∷ [])
        (set in_memory json 5 "k" (response 200 0 false) ten).0)).1
    ≡ inr (some (response 200 5 true))
unfolding ten
set-get_example =
    set-get json 5 15 "k" (response 200 0 false) (200 ∷ 5 ∷ [])
      (sets 6 "j" (response 404 0 false) ∷ deletes "i" ∷ []) ten refl refl refl (refl, (refl, tt))

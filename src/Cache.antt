-- ===== src/Cache.antt =====
-- internal/cache/response_cache.go: the cache of responses over a store, and in Cache/Memory the
-- store in memory. The keys are arguments, and the JSON form of a response is a parameter. A body
-- is its list of bytes. An error is its text.
pub mod Memory
pub mod Kept
pub mod Tests
use nexus_ai_gateway.Common.{
  ℕ, ◌*◌, Bool, true, false, Option, none, some, List, String, ◌⊎◌, inl, inr,
}
use nexus_ai_gateway.Common.Clock.{minute}
use nexus_ai_gateway.Common.Dict.{Dict}
use nexus_ai_gateway.Cache.Memory.{InMemoryCache, new_in_memory_cache}

pub record CachedResponse : Type 0 where
  pub status_code : ℕ
  pub headers : Dict String
  pub body : List ℕ
  pub cached_at : ℕ
  pub cache_hit : Bool

-- The interface of a store: each operation gets the time and may fail.
pub record CacheStore {ℓ} (S : Type ℓ) : Type ℓ where
  pub get : ℕ → String → S → S × (String ⊎ Option (List ℕ))
  pub set : ℕ → String → List ℕ → ℕ → S → S × Option String
  pub delete : String → S → S × Option String
  pub exists : ℕ → String → S → S × (String ⊎ Bool)

-- `json.Marshal` and `json.Unmarshal` of a response.
pub record Codec : Type 0 where
  pub encode : CachedResponse → String ⊎ List ℕ
  pub decode : List ℕ → String ⊎ CachedResponse

pub record ResponseCache {ℓ} (S : Type ℓ) : Type ℓ where
  pub store : S
  pub ttl : ℕ
  pub enabled : Bool

module _ {ℓ} {S : Type ℓ} where
  unfoldable pub new_response_cache : S → ℕ → ResponseCache S
  new_response_cache store ttl = record { store = store; ttl = ttl; enabled = true }

  unfoldable pub enable : ResponseCache S → ResponseCache S
  enable c = record c { enabled = true }

  unfoldable pub disable : ResponseCache S → ResponseCache S
  disable c = record c { enabled = false }

module _ {ℓ} {S : Type ℓ} (st : CacheStore S) (json : Codec) where
  abbrev pub hit : String ⊎ CachedResponse → String ⊎ Option CachedResponse
  hit (inl e) = inl e
  hit (inr r) = inr (some (record r { cache_hit = true }))

  abbrev pub read : String ⊎ Option (List ℕ) → String ⊎ Option CachedResponse
  read (inl e) = inl e
  read (inr none) = inr none
  read (inr (some text)) = hit (json.decode text)

  get_if : Bool → ℕ → String → ResponseCache S → ResponseCache S × (String ⊎ Option CachedResponse)
  get_if false now key c = (c, inr none)
  get_if true now key c =
      let (s, out) = st.get now key c.store in (record c { store = s }, read out)

  unfoldable pub get :
      ℕ → String → ResponseCache S → ResponseCache S × (String ⊎ Option CachedResponse)
  unfolding get_if
  get now key c = get_if c.enabled now key c

  write : ℕ → String → String ⊎ List ℕ → ResponseCache S → ResponseCache S × Option String
  write now key (inl e) c = (c, some e)
  write now key (inr text) c =
      let (s, out) = st.set now key text c.ttl c.store in (record c { store = s }, out)

  set_if : Bool → ℕ → String → CachedResponse → ResponseCache S → ResponseCache S × Option String
  set_if false now key r c = (c, none)
  set_if true now key r c =
      write now key (json.encode (record r { cached_at = now; cache_hit = false })) c

  unfoldable pub set :
      ℕ → String → CachedResponse → ResponseCache S → ResponseCache S × Option String
  unfolding set_if write
  set now key r c = set_if c.enabled now key r c

  unfoldable pub delete : String → ResponseCache S → ResponseCache S × Option String
  delete key c = let (s, out) = st.delete key c.store in (record c { store = s }, out)

-- `Clear` only writes to the log.
unfoldable pub clear {ℓ} : {S : Type ℓ} → ResponseCache S → ResponseCache S
clear c = c

unfoldable pub default_response_cache : ResponseCache InMemoryCache
unfolding new_response_cache
default_response_cache = new_response_cache new_in_memory_cache (5 * minute)

unfoldable pub in_memory : CacheStore InMemoryCache
in_memory = record {
  get = λ now key c. (let (c', v) = Memory.get now key c in (c', inr v));
  set = λ now key value ttl c. (Memory.set now key value ttl c, none);
  delete = λ key c. (Memory.delete key c, none);
  exists = λ now key c. (let (c', b) = Memory.exists now key c in (c', inr b));
}

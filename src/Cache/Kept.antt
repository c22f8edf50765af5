-- ===== src/Cache/Kept.antt =====
-- How long a response is kept in memory, and what is read back.
use nexus_ai_gateway.Common.{
  ℕ, ◌+◌, ◌≡◌, Bool, true, false, Option, none, some, List, [], ◌∷◌, String, if◌then◌else◌, str_eq,
  refl, ap, ◌∙◌, sym, subst, Bool-cases, inl, inr, ◌⊎◌, All,
}
use nexus_ai_gateway.Common.Clock.{after}
use nexus_ai_gateway.Common.Dict.{find, find-put_self, find-put_other, find-delete_other}
use nexus_ai_gateway.Cache.Memory
use nexus_ai_gateway.Cache.Memory.{CacheEntry, InMemoryCache, get_found, exists_found, remove}
use nexus_ai_gateway.Cache.{
  CachedResponse, Codec, ResponseCache, read, hit, get, get_if, write, set_if, set, delete,
  in_memory,
}

-- A call of the cache, with the time of the call.
pub data Op : Type 0 where
  gets : ℕ → String → Op
  sets : ℕ → String → CachedResponse → Op
  deletes : String → Op

abbrev pub key_of : Op → String
key_of (gets now key) = key
key_of (sets now key r) = key
key_of (deletes key) = key

-- The call is for another key.
abbrev pub Spares : String → Op → Type 0
Spares key op = str_eq (key_of op) key ≡ false

module _ (json : Codec) where
  abbrev pub apply : Op → ResponseCache InMemoryCache → ResponseCache InMemoryCache
  apply (gets now key) c = (get in_memory json now key c).0
  apply (sets now key r) c = (set in_memory json now key r c).0
  apply (deletes key) c = (delete in_memory json key c).0

  abbrev pub run : List Op → ResponseCache InMemoryCache → ResponseCache InMemoryCache
  run [] c = c
  run (op ∷ ops) c = run ops (apply op c)

  -- The cache is enabled and holds the entry.
  Holds : String → CacheEntry → ResponseCache InMemoryCache → Type 0
  Holds key e c = (c.enabled ≡ true) × (find key c.store.entries ≡ some e)

  get_found-other :
      (now : ℕ) (key other : String) (m : InMemoryCache) (o : Option CacheEntry)
      → str_eq key other ≡ false
      → find other (get_found now key m o).0.entries ≡ find other m.entries
  unfolding remove
  get_found-other now key other m none d = refl
  get_found-other now key other m (some e) d = elim (Bool-cases (after now e.expires_at)) [
    | inl gone ↦ simp gone (find-delete_other key other m.entries d)
    | inr there ↦ simp there refl
  ]

  -- A lookup under another key leaves the entry.
  get-Holds :
      (b : Bool) (now : ℕ) (key other : String) (e : CacheEntry) (c : ResponseCache InMemoryCache)
      → str_eq key other ≡ false
      → Holds other e c
      → Holds other e (get_if in_memory json b now key c).0
  unfolding Holds get_if in_memory Memory.get
  get-Holds false now key other e c d h = h
  get-Holds true now key other e c d (on, held) =
      (on, get_found-other now key other c.store (find key c.store.entries) d ∙ held)

  write-Holds :
      (now : ℕ) (key other : String) (out : String ⊎ List ℕ) (e : CacheEntry)
      (c : ResponseCache InMemoryCache)
      → str_eq key other ≡ false
      → Holds other e c
      → Holds other e (write in_memory json now key out c).0
  unfolding Holds write in_memory Memory.set
  write-Holds now key other (inl x) e c d h = h
  write-Holds now key other (inr text) e c d (on, held) =
      (on, find-put_other key other _ c.store.entries d ∙ held)

  set-Holds :
      (b : Bool) (now : ℕ) (key other : String) (r : CachedResponse) (e : CacheEntry)
      (c : ResponseCache InMemoryCache)
      → str_eq key other ≡ false
      → Holds other e c
      → Holds other e (set_if in_memory json b now key r c).0
  unfolding set_if
  set-Holds false now key other r e c d h = h
  set-Holds true now key other r e c d h =
      write-Holds now key other (json.encode (record r { cached_at = now; cache_hit = false })) e c
        d h

  apply-Holds :
      (key : String) (e : CacheEntry) (op : Op) (c : ResponseCache InMemoryCache)
      → Spares key op
      → Holds key e c
      → Holds key e (apply op c)
  unfolding Holds get set delete in_memory Memory.delete remove
  apply-Holds key e (gets now k) c s h = get-Holds c.enabled now k key e c s h
  apply-Holds key e (sets now k r) c s h = set-Holds c.enabled now k key r e c s h
  apply-Holds key e (deletes k) c s (on, held) =
      (on, find-delete_other k key c.store.entries s ∙ held)

  run-Holds :
      (key : String) (e : CacheEntry) (ops : List Op) (c : ResponseCache InMemoryCache)
      → All (Spares key) ops
      → Holds key e c
      → Holds key e (run ops c)
  run-Holds key e [] c s h = h
  run-Holds key e (op ∷ ops) c (s, ss) h =
      run-Holds key e ops (apply op c) ss (apply-Holds key e op c s h)

  -- What is read of the entry at an instant.
  abbrev pub entry_at : ℕ → CacheEntry → String ⊎ Option CachedResponse
  entry_at now e =
      if after now e.expires_at then inr none else hit in_memory json (json.decode e.value)

  get_found-read :
      (now : ℕ) (key : String) (m : InMemoryCache) (e : CacheEntry)
      → read in_memory json (inr (get_found now key m (some e)).1) ≡ entry_at now e
  get_found-read now key m e = elim (Bool-cases (after now e.expires_at)) [
    | inl gone ↦ simp gone refl
    | inr there ↦ simp there refl
  ]

  get-Holds_reads :
      (now : ℕ) (key : String) (e : CacheEntry) (c : ResponseCache InMemoryCache)
      → Holds key e c
      → (get in_memory json now key c).1 ≡ entry_at now e
  unfolding Holds get get_if in_memory Memory.get
  get-Holds_reads now key e c (on, held) =
      ap (λ b. (get_if in_memory json b now key c).1) on
      ∙ ap (λ o. read in_memory json (inr (get_found now key c.store o).1)) held
      ∙ get_found-read now key c.store e

  set-Holds_new :
      (now : ℕ) (key : String) (r : CachedResponse) (text : List ℕ)
      (c : ResponseCache InMemoryCache)
      → c.enabled ≡ true
      → json.encode (record r { cached_at = now; cache_hit = false }) ≡ inr text
      → Holds key
          (record { value = text; expires_at = now + c.ttl })
          (set in_memory json now key r c).0
  unfolding Holds set set_if write in_memory Memory.set
  set-Holds_new now key r text c on e =
      let stored : CacheEntry = record { value = text; expires_at = now + c.ttl } in
      subst (λ b. Holds key stored (set_if in_memory json b now key r c).0) (sym on)
        (subst (λ out. Holds key stored (write in_memory json now key out c).0) (sym e)
          (on, find-put_self key stored c.store.entries))

  -- A response that an enabled cache in memory has stored is read back, with the time of its
  -- storing and marked as a hit, until its time to live is over, and not after that, whatever is
  -- done under other keys; JSON is to give the response back.
  pub set-get :
      (now later : ℕ) (key : String) (r : CachedResponse) (text : List ℕ) (ops : List Op)
      (c : ResponseCache InMemoryCache)
      → c.enabled ≡ true
      → json.encode (record r { cached_at = now; cache_hit = false }) ≡ inr text
      → json.decode text ≡ inr (record r { cached_at = now; cache_hit = false })
      → All (Spares key) ops
      → (get in_memory json later key (run ops (set in_memory json now key r c).0)).1 ≡ (
          if after later (now + c.ttl)
          then inr none
          else inr (some (record r { cached_at = now; cache_hit = true })))
  set-get now later key r text ops c on e d s =
      let stored : CacheEntry = record { value = text; expires_at = now + c.ttl } in
      let c' = (set in_memory json now key r c).0 in
      get-Holds_reads later key stored (run ops c')
        (run-Holds key stored ops c' s (set-Holds_new now key r text c on e))
      ∙ ap (λ x. if after later (now + c.ttl) then inr none else hit in_memory json x) d

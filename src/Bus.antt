-- ===== src/Bus.antt =====
-- internal/eventbus/bus.go and types.go: the event bus in memory. `publish_start` is the part of
-- `Publish` under the lock of the bus and `send_rounds` its loop, which takes the lock again for
-- each subscription; what other callers do to the bus in between is a parameter. Lists give an
-- order where the code leaves that of its maps open. Each delivery runs by itself, and `deliver` is
-- what a handler's answer does. IDs that the code generates are arguments. An error is its text.
pub mod Sequencer
pub mod Dlq
pub mod Numbers
pub mod Silence
pub mod Tests
use nexus_ai_gateway.Common.{
  ℕ, zero, suc, ◌+◌, Bool, true, false, ◌&&◌, ◌||◌, not, Option, none, some, List, [], ◌∷◌, ◌++◌,
  String, if◌then◌else◌, ltb, str_eq, ◌⊎◌, inl, inr, select, take,
}
use nexus_ai_gateway.Common.Clock.{elapsed_more}
use nexus_ai_gateway.Common.Dict.{Dict, find, put, delete}
use nexus_ai_gateway.Bus.Sequencer.{EventSequencer, next, new_event_sequencer}
use nexus_ai_gateway.Bus.Dlq.{DlqEntry, DlqStatus, same_status, new_dlq_entry, should_retry}

-- `P` are the payloads, and `V` the values of the metadata.
pub record Event {ℓ κ} (P : Type ℓ) (V : Type κ) : Type (ℓ ⊔ κ) where
  pub id : String
  pub type : String
  pub priority : ℕ
  pub source_agent : String
  pub target_agent : String
  pub correlation_id : String
  pub payload : P
  pub metadata : Dict V
  pub timestamp : ℕ
  pub sequence_number : ℕ
  pub ttl : ℕ

pub record Filter {ℓ} (V : Type ℓ) : Type ℓ where
  pub source_agents : List String
  pub priority_threshold : ℕ
  pub metadata_filters : Dict V

pub record Subscription {ℓ} (V : Type ℓ) : Type ℓ where
  pub id : String
  pub client_id : String
  pub event_types : List String
  pub target_agent : String
  pub filter : Option (Filter V)
  pub created_at : ℕ
  pub active : Bool

-- `H` are the handlers.
pub record LocalEventBus {ℓ κ μ} (H : Type ℓ) (P : Type κ) (V : Type μ) : Type (ℓ ⊔ κ ⊔ μ) where
  pub handler : Option H
  pub dlq_max_retries : ℕ
  pub enable_ordering : Bool
  pub subs : Dict (Subscription V)
  pub sub_topics : Dict (Dict Bool)
  pub handlers : Dict H
  pub dlq : Dict (DlqEntry (Event P V))
  pub event_order : EventSequencer

pub data BusError : Type 0 where
  event_expired client_id_required event_type_required : BusError
  subscription_not_found entry_not_found : String → BusError
  max_retries_exceeded : ℕ → BusError
  not_serialized : String → BusError

-- The keys of a map.
abbrev pub keys {ℓ} : {V : Type ℓ} → Dict V → List String
keys [] = []
keys ((k, v) ∷ m) = k ∷ keys m

abbrev pub or_empty {ℓ} : {V : Type ℓ} → Option (Dict V) → Dict V
or_empty none = []
or_empty (some m) = m

abbrev pub is_some {ℓ} : {A : Type ℓ} → Option A → Bool
is_some none = false
is_some (some a) = true

-- The loops that look for a text.
abbrev pub listed : String → List String → Bool
listed s [] = false
listed s (t ∷ ts) = str_eq t s || listed s ts

abbrev pub is_empty {ℓ} : {A : Type ℓ} → List A → Bool
is_empty [] = true
is_empty (x ∷ xs) = false

-- `""` for a text that is not there.
abbrev pub or_text : String → String → String
or_text s d = if str_eq s "" then d else s

-- `same` is the comparison of two values of the metadata.
abbrev pub metadata_match {ℓ} : {V : Type ℓ} → (V → V → Bool) → Dict V → Dict V → Bool
metadata_match same [] actual = true
metadata_match same ((key, expected) ∷ filters) actual =
    elim (find key actual) [ none ↦ false | some v ↦ same v expected ]
    && metadata_match same filters actual

abbrev pub takes_type : String → List String → Bool
takes_type type [] = false
takes_type type (t ∷ ts) = str_eq t type || str_eq t "" || takes_type type ts

-- The loop that registers a subscription for its types.
unfoldable pub register : String → List String → Dict (Dict Bool) → Dict (Dict Bool)
register id [] topics = topics
register id (t ∷ ts) topics = register id ts (put t (put id true (or_empty (find t topics))) topics)

abbrev pub set_handler {ℓ} : {H : Type ℓ} → String → Option H → Dict H → Dict H
set_handler id none handlers = handlers
set_handler id (some h) handlers = put id h handlers

-- The loop that takes a subscription from its types. A type that has no set stays without one.
unfoldable pub unregister : String → List String → Dict (Dict Bool) → Dict (Dict Bool)
unregister id [] topics = topics
unregister id (t ∷ ts) topics =
    unregister id ts
      (elim (find t topics) [ none ↦ topics | some ids ↦ put t (delete id ids) topics ])

abbrev pub of_client {ℓ} : {V : Type ℓ} → String → Dict (Subscription V) → List (Subscription V)
of_client client_id [] = []
of_client client_id ((id, s) ∷ subs) =
    let rest = of_client client_id subs in if str_eq s.client_id client_id then s ∷ rest else rest

-- The entries with a status, or all, up to a number of them that is not 0.
abbrev pub entries_of {ℓ} : {E : Type ℓ} → Option DlqStatus → Dict (DlqEntry E) → List (DlqEntry E)
entries_of status [] = []
entries_of status ((id, d) ∷ entries) =
    let rest = entries_of status entries in
    if elim status [ none ↦ true | some s ↦ same_status s d.status ] then d ∷ rest else rest

module _ {ℓ κ} {P : Type ℓ} {V : Type κ} where
  unfoldable pub is_expired : ℕ → Event P V → Bool
  is_expired now e = ltb 0 e.ttl && elapsed_more now e.timestamp e.ttl

  -- The partition key.
  abbrev pub key_of : Event P V → String
  key_of e = or_text e.correlation_id e.source_agent

  -- The event with an ID and a time, where it has none.
  abbrev pub filled : ℕ → String → Event P V → Event P V
  filled now new_id e = record e {
    id = or_text e.id new_id;
    timestamp = if ltb 0 e.timestamp then e.timestamp else now;
  }

  unfoldable pub matches_filter : (V → V → Bool) → Event P V → Option (Filter V) → Bool
  matches_filter same e none = true
  matches_filter same e (some f) =
      (is_empty f.source_agents || listed e.source_agent f.source_agents)
      && not (ltb 0 f.priority_threshold && ltb e.priority f.priority_threshold)
      && metadata_match same f.metadata_filters e.metadata

  abbrev pub targeted : Event P V → Dict (Subscription V) → List String
  targeted e [] = []
  targeted e ((id, s) ∷ subs) =
      let rest = targeted e subs in
      if str_eq s.target_agent e.target_agent && takes_type e.type s.event_types
      then s.id ∷ rest
      else rest

module _ {ℓ κ μ} {H : Type ℓ} {P : Type κ} {V : Type μ} where
  unfoldable pub new_bus : Option H → ℕ → Bool → LocalEventBus H P V
  unfolding new_event_sequencer
  new_bus handler dlq_max_retries enable_ordering = record {
    handler = handler;
    dlq_max_retries = dlq_max_retries;
    enable_ordering = enable_ordering;
    subs = [];
    sub_topics =
        ("agent.intent", [])
        ∷ ("agent.decision", [])
        ∷ ("agent.approval", [])
        ∷ ("agent.rejection", [])
        ∷ ("agent.error", [])
        ∷ [];
    handlers = [];
    dlq = [];
    event_order = new_event_sequencer;
  }

  unfoldable pub find_subscribers : Event P V → LocalEventBus H P V → List String
  find_subscribers e b =
      keys (or_empty (find e.type b.sub_topics))
      ++ keys (or_empty (find "" b.sub_topics))
      ++ (if str_eq e.target_agent "" then [] else targeted e b.subs)

  -- The tests of one round of the loop over the subscriptions. A handler without a subscription, at which the code
  -- would panic, gets nothing.
  unfoldable pub receives : (V → V → Bool) → Event P V → LocalEventBus H P V → String → Bool
  receives same e b id = is_some (find id b.handlers) && elim (find id b.subs) [
    | none ↦ false
    | some s ↦ s.active && matches_filter same e s.filter
  ]

  -- With ordering enabled, the event gets the next number of its key.
  abbrev pub sequenced : Bool → Event P V → LocalEventBus H P V → LocalEventBus H P V × Event P V
  sequenced true e b =
      let (order, n) = next (key_of e) b.event_order in
      (record b { event_order = order }, record e { sequence_number = n })
  sequenced false e b = (b, e)

  abbrev pub with_subscribers :
      LocalEventBus H P V × Event P V → LocalEventBus H P V × Event P V × List String
  with_subscribers (b, e) = (b, e, find_subscribers e b)

  -- From the test of the event's time to live to the end of the lock.
  abbrev pub start_if :
      Bool
      → Event P V
      → LocalEventBus H P V
      → BusError ⊎ (LocalEventBus H P V × Event P V × List String)
  start_if true e b = inl event_expired
  start_if false e b = inr (with_subscribers (sequenced b.enable_ordering e b))

  -- `Publish` up to where it gives up the lock: the bus, the event with its number, and the
  -- subscriptions that are to be looked at.
  unfoldable pub publish_start :
      ℕ
      → String
      → Event P V
      → LocalEventBus H P V
      → BusError ⊎ (LocalEventBus H P V × Event P V × List String)
  publish_start now new_id event b =
      let e = filled now new_id event in start_if (is_expired now e) e b

  -- The loop over the subscriptions, from round `n` on: the bus after it, and those that the event
  -- is sent to. `others n` is what other callers do to the bus before the round.
  unfoldable pub send_rounds :
      (V → V → Bool)
      → (ℕ → LocalEventBus H P V → LocalEventBus H P V)
      → ℕ
      → Event P V
      → List String
      → LocalEventBus H P V
      → LocalEventBus H P V × List String
  send_rounds same others n e [] b = (b, [])
  send_rounds same others n e (id ∷ ids) b =
      let b' = others n b in
      let (b'', to) = send_rounds same others (suc n) e ids b' in
      (b'', if receives same e b' id then id ∷ to else to)

  -- `to_json` gives the error of `ToJSON`, if any.
  abbrev pub serialized :
      Option String
      → Event P V
      → LocalEventBus H P V
      → LocalEventBus H P V × List String
      → LocalEventBus H P V × (BusError ⊎ (Event P V × List String))
  serialized none e b (b', to) = (b', inr (e, to))
  serialized (some error) e b sent = (b, inl (not_serialized error))

  abbrev pub publish_rest :
      (V → V → Bool)
      → (Event P V → Option String)
      → (ℕ → LocalEventBus H P V → LocalEventBus H P V)
      → LocalEventBus H P V
      → BusError ⊎ (LocalEventBus H P V × Event P V × List String)
      → LocalEventBus H P V × (BusError ⊎ (Event P V × List String))
  publish_rest same to_json others b (inl error) = (b, inl error)
  publish_rest same to_json others b (inr (b', e, ids)) =
      serialized (to_json e) e b' (send_rounds same others 0 e ids b')

  -- The bus after the call, and the event as it is sent with the subscriptions that it is sent to.
  unfoldable pub publish :
      (V → V → Bool)
      → (Event P V → Option String)
      → (ℕ → LocalEventBus H P V → LocalEventBus H P V)
      → ℕ
      → String
      → Event P V
      → LocalEventBus H P V
      → LocalEventBus H P V × (BusError ⊎ (Event P V × List String))
  publish same to_json others now new_id event b =
      publish_rest same to_json others b (publish_start now new_id event b)

  unfoldable pub send_to_dlq :
      ℕ → String → Event P V → String → LocalEventBus H P V → LocalEventBus H P V
  send_to_dlq now new_id e error b = record b {
    dlq = put new_id (new_dlq_entry now new_id e error b.dlq_max_retries) b.dlq;
  }

  -- A delivery ends, with the error of the handler if there was one.
  unfoldable pub deliver :
      ℕ → String → Event P V → Option String → LocalEventBus H P V → LocalEventBus H P V
  deliver now new_id e none b = b
  deliver now new_id e (some error) b = send_to_dlq now new_id e error b

  unfoldable pub subscribe :
      ℕ → String → Subscription V → LocalEventBus H P V → BusError ⊎ LocalEventBus H P V
  subscribe now new_id sub b =
      let id = or_text sub.id new_id in
      let s = record sub { id = id; created_at = now; active = true } in
      if str_eq sub.client_id ""
      then inl client_id_required
      else if is_empty sub.event_types
      then inl event_type_required
      else inr (record b {
        subs = put id s b.subs;
        sub_topics = register id sub.event_types b.sub_topics;
        handlers = set_handler id b.handler b.handlers;
      })

  -- Each `_found` is its method once the entry has been looked up.
  abbrev pub unsubscribe_found :
      String → LocalEventBus H P V → Option (Subscription V) → BusError ⊎ LocalEventBus H P V
  unsubscribe_found id b none = inl (subscription_not_found id)
  unsubscribe_found id b (some s) = inr (record b {
    subs = put id (record s { active = false }) b.subs;
    sub_topics = unregister id s.event_types b.sub_topics;
    handlers = delete id b.handlers;
  })

  unfoldable pub unsubscribe : String → LocalEventBus H P V → BusError ⊎ LocalEventBus H P V
  unsubscribe id b = unsubscribe_found id b (find id b.subs)

  unfoldable pub get_subscriptions : String → LocalEventBus H P V → List (Subscription V)
  get_subscriptions client_id b = of_client client_id b.subs

  unfoldable pub get_dlq_entries :
      Option DlqStatus → ℕ → LocalEventBus H P V → List (DlqEntry (Event P V))
  get_dlq_entries status limit b =
      let entries = entries_of status b.dlq in if ltb 0 limit then take limit entries else entries

  -- `RecordRetry` changes the entry before it is dropped.
  abbrev pub retry_found :
      String
      → LocalEventBus H P V
      → Option (DlqEntry (Event P V))
      → LocalEventBus H P V × Option BusError
  retry_found id b none = (b, some (entry_not_found id))
  retry_found id b (some d) =
      if should_retry d
      then (record b { dlq = delete id b.dlq }, none)
      else (b, some (max_retries_exceeded d.max_retries))

  unfoldable pub retry_dlq_entry :
      String → LocalEventBus H P V → LocalEventBus H P V × Option BusError
  retry_dlq_entry id b = retry_found id b (find id b.dlq)

  abbrev pub purge_found :
      String
      → LocalEventBus H P V
      → Option (DlqEntry (Event P V))
      → LocalEventBus H P V × Option BusError
  purge_found id b none = (b, some (entry_not_found id))
  purge_found id b (some d) = (record b { dlq = delete id b.dlq }, none)

  unfoldable pub purge_dlq_entry :
      String → LocalEventBus H P V → LocalEventBus H P V × Option BusError
  purge_dlq_entry id b = purge_found id b (find id b.dlq)

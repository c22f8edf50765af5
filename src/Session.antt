-- ===== src/Session.antt =====
-- internal/orchestration/context.go: the sessions of conversations that `ContextManager` keeps. A
-- content is its list of bytes, the ID "msg-7" of a message is `msg 7`, and a metadata value is of
-- any type. A decoded session is what `json.Unmarshal` leaves of the fields that the code reads.
pub mod History
pub mod Context
pub mod Expiry
pub mod Tests
use nexus_ai_gateway.Common.{
  ℕ, ◌+◌, ◌-◌, ◌*◌, ◌/◌, suc, zero, Bool, true, false, Option, none, some, List, [], ◌∷◌, ◌++◌,
  String, if◌then◌else◌, ltb, drop, length, ◌⊎◌, inl, inr,
}
use nexus_ai_gateway.Common.Clock.{after, hour}
use nexus_ai_gateway.Common.Dict.{Dict, find, put, delete}

pub data MessageId : Type 0 where
  unset : MessageId
  msg : ℕ → MessageId

pub record Message {ℓ} (V : Type ℓ) : Type ℓ where
  pub id : MessageId
  pub role : String
  pub content : List ℕ
  pub model : String
  pub tokens : ℕ
  pub timestamp : ℕ
  pub metadata : Dict V

pub record Session {ℓ} (V : Type ℓ) : Type ℓ where
  pub id : String
  pub tenant_id : String
  pub user_id : String
  pub messages : List (Message V)
  pub metadata : Dict V
  pub created_at : ℕ
  pub updated_at : ℕ
  pub expires_at : ℕ
  pub is_active : Bool

pub record ContextManager {ℓ} (V : Type ℓ) : Type ℓ where
  pub sessions : Dict (Session V)
  pub max_history : ℕ
  pub ttl : ℕ
  pub cleanup_tick : ℕ

pub data SessionError : Type 0 where
  session_not_found : String → SessionError
  failed_to_serialize failed_to_deserialize : SessionError

-- The loop over the messages; `none` is its break.
abbrev pub count_tokens {ℓ} : {V : Type ℓ} → ℕ → ℕ → List (Message V) → ℕ × Bool
count_tokens max total [] = (total, true)
count_tokens max total (m ∷ ms) =
    let rest = count_tokens max (total + length m.content / 4) ms in
    if ltb max (total + length m.content / 4) then (total, false) else rest

-- `DeserializeContext` reads these three of the decoded fields, each if it has the right type.
pub record Decoded {ℓ} (V : Type ℓ) : Type ℓ where
  pub tenant_id : Option String
  pub user_id : Option String
  pub metadata : Option (Dict V)

abbrev pub or_else {ℓ} : {A : Type ℓ} → A → Option A → A
or_else d none = d
or_else d (some a) = a

module _ {ℓ} {V : Type ℓ} where
  unfoldable pub new_context_manager : ContextManager V
  new_context_manager = record {
    sessions = [];
    max_history = 50;
    ttl = 24 * hour;
    cleanup_tick = 1 * hour;
  }

  unfoldable pub create_session : ℕ → String → String → String → ContextManager V → ContextManager V
  create_session now session_id tenant_id user_id cm = record cm {
    sessions =
        put session_id
          (record {
            id = session_id;
            tenant_id = tenant_id;
            user_id = user_id;
            messages = [];
            metadata = [];
            created_at = now;
            updated_at = now;
            expires_at = now + cm.ttl;
            is_active = true;
          })
          cm.sessions;
  }

  unfoldable pub get_session : ℕ → String → ContextManager V → Option (Session V)
  get_session now session_id cm = elim (find session_id cm.sessions) [
    | none ↦ none
    | some session ↦ if after now session.expires_at then none else some session
  ]

  -- The cut to the last `max` messages.
  abbrev pub trim : ℕ → List (Message V) → List (Message V)
  trim max ms = if ltb max (length ms) then drop (length ms - max) ms else ms

  -- The message as `AddMessage` stores it.
  abbrev pub stamp : ℕ → Message V → Session V → Message V
  stamp now m session = record m { id = msg (length session.messages + 1); timestamp = now }

  unfoldable pub append_message : ℕ → Message V → ContextManager V → Session V → Session V
  append_message now m cm session = record session {
    messages = trim cm.max_history (session.messages ++ stamp now m session ∷ []);
    updated_at = now;
    expires_at = now + cm.ttl;
  }

  -- The methods that look a session up and change it.
  change_found :
      String
      → (Session V → Session V)
      → ContextManager V
      → Option (Session V)
      → ContextManager V × Option SessionError
  change_found session_id change cm none = (cm, some (session_not_found session_id))
  change_found session_id change cm (some session) =
      (record cm { sessions = put session_id (change session) cm.sessions }, none)

  update :
      String → (Session V → Session V) → ContextManager V → ContextManager V × Option SessionError
  update session_id change cm = change_found session_id change cm (find session_id cm.sessions)

  unfoldable pub add_message :
      ℕ → String → Message V → ContextManager V → ContextManager V × Option SessionError
  unfolding update change_found
  add_message now session_id m cm = update session_id (append_message now m cm) cm

  unfoldable pub get_messages : ℕ → String → ContextManager V → SessionError ⊎ List (Message V)
  get_messages now session_id cm = elim (get_session now session_id cm) [
    | none ↦ inl (session_not_found session_id)
    | some session ↦ inr session.messages
  ]

  unfoldable pub fit : ℕ → List (Message V) → List (Message V) × ℕ
  fit max ms =
      let (total, whole) = count_tokens max 0 ms in
      (if whole then ms else drop (length ms) ms, total)

  unfoldable pub get_context_for_llm :
      ℕ → String → ℕ → ContextManager V → SessionError ⊎ (List (Message V) × ℕ)
  get_context_for_llm now session_id max cm = elim (get_session now session_id cm) [
    | none ↦ inl (session_not_found session_id)
    | some session ↦ inr (fit max session.messages)
  ]

  unfoldable pub clear_session :
      ℕ → String → ContextManager V → ContextManager V × Option SessionError
  unfolding update change_found
  clear_session now session_id cm =
      update session_id (λ session. record session { messages = []; updated_at = now }) cm

  unfoldable pub delete_session : String → ContextManager V → ContextManager V × Option SessionError
  delete_session session_id cm = elim (find session_id cm.sessions) [
    | none ↦ (cm, some (session_not_found session_id))
    | some session ↦ (record cm { sessions = delete session_id cm.sessions }, none)
  ]

  unfoldable pub set_session_metadata :
      ℕ → String → String → V → ContextManager V → ContextManager V × Option SessionError
  unfolding update change_found
  set_session_metadata now session_id key value cm =
      update session_id
        (λ session. record session { metadata = put key value session.metadata; updated_at = now })
        cm

  unfoldable pub get_session_metadata : ℕ → String → String → ContextManager V → Option V
  get_session_metadata now session_id key cm = elim (get_session now session_id cm) [
    | none ↦ none
    | some session ↦ find key session.metadata
  ]

  -- The loop of `Cleanup`, with the number of the removed.
  unfoldable pub sweep : ℕ → Dict (Session V) → Dict (Session V) × ℕ
  sweep now [] = ([], 0)
  sweep now ((id, session) ∷ sessions) =
      let (kept, removed) = sweep now sessions in
      if after now session.expires_at
      then (delete id kept, removed + 1)
      else ((id, session) ∷ kept, removed)

  unfoldable pub cleanup : ℕ → ContextManager V → ContextManager V × ℕ
  cleanup now cm =
      let (kept, removed) = sweep now cm.sessions in (record cm { sessions = kept }, removed)

  unfoldable pub session_count : ContextManager V → ℕ
  session_count cm = length cm.sessions

  unfoldable pub serialize_context :
      (Session V → Option String) → ℕ → String → ContextManager V → SessionError ⊎ String
  serialize_context encode now session_id cm = elim (get_session now session_id cm) [
    | none ↦ inl (session_not_found session_id)
    | some session ↦ elim (encode session) [ none ↦ inl failed_to_serialize | some text ↦ inr text ]
  ]

  restore : String → ContextManager V → Option (Decoded V) → ContextManager V × Option SessionError
  restore session_id cm none = (cm, some failed_to_deserialize)
  restore session_id cm (some d) = (
    record cm {
      sessions =
          put session_id
            (record {
              id = session_id;
              tenant_id = or_else "" d.tenant_id;
              user_id = or_else "" d.user_id;
              messages = [];
              metadata = or_else [] d.metadata;
              created_at = 0;
              updated_at = 0;
              expires_at = 0;
              is_active = true;
            })
            cm.sessions;
    },
    none,
  )

  unfoldable pub deserialize_context :
      (String → Option (Decoded V))
      → String
      → String
      → ContextManager V
      → ContextManager V × Option SessionError
  unfolding restore
  deserialize_context decode session_id text cm = restore session_id cm (decode text)

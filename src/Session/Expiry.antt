-- ===== src/Session/Expiry.antt =====
-- Which sessions are found, and what `Cleanup` and `DeserializeContext` do to them.
use nexus_ai_gateway.Common.{
  ℕ, ◌+◌, ◌≤◌, ◌<◌, ◌≡◌, Option, none, some, [], ◌∷◌, String, if◌then◌else◌, arith, refl, ap, ◌∙◌,
  sym, Bool-cases, inl, inr, true, lt→ltb, ge→ltb,
}
use text.Mathlib.TextEquality.{eq_iff}
use nexus_ai_gateway.Common.Clock.{after}
use nexus_ai_gateway.Common.Dict.{Dict, find, put, find-put_self, find-delete}
use nexus_ai_gateway.Session.{
  Session, ContextManager, Decoded, get_session, sweep, cleanup, deserialize_context, restore,
  add_message, append_message, Message,
}
use nexus_ai_gateway.Session.History.{add_message-found}

still_after : (now later e : ℕ) → now ≤ later → after now e ≡ true → after later e ≡ true
still_after now later e h g = ground arith

module _ {ℓ} {V : Type ℓ} where
  -- What `GetSession` makes of an entry.
  abbrev live : ℕ → Option (Session V) → Option (Session V)
  live now none = none
  live now (some s) = if after now s.expires_at then none else some s

  get_session-live :
      (now : ℕ) (id : String) (cm : ContextManager V)
      → get_session now id cm ≡ live now (find id cm.sessions)
  unfolding get_session
  get_session-live now id cm = refl

  find-sweep :
      (now : ℕ) (id : String) (d : Dict (Session V))
      → find id (sweep now d).0 ≡ live now (find id d)
  unfolding sweep find
  find-sweep now id [] = refl
  find-sweep now id ((i, s) ∷ d) =
      ground (arith, eq_iff i id, find-delete i id (sweep now d).0, find-sweep now id d)

  live-live :
      (now later : ℕ) (o : Option (Session V))
      → now ≤ later
      → live later (live now o) ≡ live later o
  live-live now later none h = refl
  live-live now later (some s) h = elim (Bool-cases (after now s.expires_at)) [
    | inl gone ↦ rw (gone, still_after now later s.expires_at h gone) refl
    | inr there ↦ rw there refl
  ]

  -- `Cleanup` keeps the sessions that `GetSession` finds when it runs, and no others, so that no
  -- later `GetSession` can tell that it ran.
  pub cleanup-get_session :
      (now later : ℕ) (id : String) (cm : ContextManager V)
      → now ≤ later
      → (find id (cleanup now cm).0.sessions ≡ get_session now id cm)
        × (get_session later id (cleanup now cm).0 ≡ get_session later id cm)
  unfolding cleanup
  cleanup-get_session now later id cm h =
      let swept = find-sweep now id cm.sessions in
      (
        swept ∙ sym (get_session-live now id cm),
        get_session-live later id (cleanup now cm).0
            ∙ ap (live later) swept
            ∙ live-live now later (find id cm.sessions) h
            ∙ sym (get_session-live later id cm),
      )

  -- A session restored by `DeserializeContext` has expired: `GetSession` never finds it.
  pub deserialize_context-get_session :
      (decode : String → Option (Decoded V)) (d : Decoded V) (now : ℕ) (id text : String)
      (cm : ContextManager V)
      → decode text ≡ some d
      → 0 < now
      → get_session now id (deserialize_context decode id text cm).0 ≡ none
  unfolding deserialize_context restore
  deserialize_context-get_session decode d now id text cm e h =
      ap (λ o. get_session now id (restore id cm o).0) e
      ∙ get_session-live now id (restore id cm (some d)).0
      ∙ ap (live now) (find-put_self id _ cm.sessions)
      ∙ rw (lt→ltb 0 now h) refl

  -- A message to a stored session, expired or not, makes it found for the time to live from then.
  pub add_message-get_session :
      (now later : ℕ) (id : String) (m : Message V) (cm : ContextManager V) (s : Session V)
      → find id cm.sessions ≡ some s
      → later ≤ now + cm.ttl
      → get_session later id (add_message now id m cm).0 ≡ some (append_message now m cm s)
  unfolding append_message
  add_message-get_session now later id m cm s e h =
      ap (get_session later id) (add_message-found now id m cm s e)
      ∙ get_session-live later id
          (record cm { sessions = put id (append_message now m cm s) cm.sessions })
      ∙ ap (live later) (find-put_self id (append_message now m cm s) cm.sessions)
      ∙ rw (ge→ltb (now + cm.ttl) later h) refl

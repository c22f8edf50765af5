-- ===== src/Bus/Silence.antt =====
-- A subscription that was removed gets no more events.
use nexus_ai_gateway.Common.{
  ℕ, ◌≡◌, Bool, true, false, Option, none, some, List, [], ◌∷◌, String, str_eq, refl, ap, ◌∙◌, sym,
  suc, if◌then◌else◌, arith, subst, Bool-cases, inl, inr, ◌⊎◌, All,
}
use text.Mathlib.TextEquality.{eq_iff}
use nexus_ai_gateway.Common.Dict.{Dict, find, delete, find-put_other, find-delete, find-delete_self}
use nexus_ai_gateway.Bus.Dlq.{DlqEntry, should_retry}
use nexus_ai_gateway.Bus.{
  Event, Subscription, LocalEventBus, BusError, or_text, is_empty, listed, is_expired, filled,
  find_subscribers, receives, sequenced, start_if, publish_start, send_rounds, serialized,
  publish_rest, publish, send_to_dlq, deliver, set_handler, subscribe, unsubscribe_found,
  unsubscribe, retry_found, retry_dlq_entry, purge_found, purge_dlq_entry,
}
use mathlib.Core.Sum.{inl-ne-inr}
use nexus_ai_gateway.Bus.Numbers.{bus_after}

-- A call of one of the operations, with the time and the new ID, the locked part of a call of
-- `Publish`, or the end of a delivery.
pub data Op {ℓ κ} (P : Type ℓ) (V : Type κ) : Type (ℓ ⊔ κ) where
  starts : ℕ → String → Event P V → Op P V
  delivers : ℕ → String → Event P V → Option String → Op P V
  subscribes : ℕ → String → Subscription V → Op P V
  unsubscribes : String → Op P V
  retries : String → Op P V
  purges : String → Op P V

-- A round that finds no handler leaves the subscription out.
not_added :
    (id i : String) (r : Bool) (to : List String)
    → (i ≡ id → r ≡ false)
    → listed id to ≡ false
    → listed id (if r then i ∷ to else to) ≡ false
not_added id i false to h k = k
not_added id i true to h k = elim (Bool-cases (str_eq i id)) [
  | inl same ↦ absurd (ground (arith, h ((eq_iff i id).0 same)))
  | inr other ↦ rw other k
]

module _ {ℓ} {H : Type ℓ} where
  set_handler-find :
      (i id : String) (o : Option H) (handlers : Dict H)
      → str_eq i id ≡ false
      → find id (set_handler i o handlers) ≡ find id handlers
  set_handler-find i id none handlers d = refl
  set_handler-find i id (some h) handlers d = find-put_other i id h handlers d

  find-delete-none :
      (i id : String) (handlers : Dict H)
      → find id handlers ≡ none
      → find id (delete i handlers) ≡ none
  find-delete-none i id handlers h = elim (Bool-cases (str_eq i id)) [
    | inl same ↦ find-delete i id handlers ∙ rw same refl
    | inr other ↦ find-delete i id handlers ∙ rw other h
  ]

module _ {ℓ κ} {P : Type ℓ} {V : Type κ} where
  -- The operation does not subscribe the ID again.
  abbrev pub Spares : String → Op P V → Type 0
  Spares id (starts now new_id e) = Unit
  Spares id (delivers now new_id e error) = Unit
  Spares id (subscribes now new_id sub) = str_eq (or_text sub.id new_id) id ≡ false
  Spares id (unsubscribes i) = Unit
  Spares id (retries i) = Unit
  Spares id (purges i) = Unit

  -- The subscriptions that an event is sent to.
  abbrev pub recipients : BusError ⊎ (Event P V × List String) → List String
  recipients (inl e) = []
  recipients (inr (sent, to)) = to

module _ {ℓ κ μ} {H : Type ℓ} {P : Type κ} {V : Type μ} where
  abbrev pub or_same : LocalEventBus H P V → BusError ⊎ LocalEventBus H P V → LocalEventBus H P V
  or_same b (inl e) = b
  or_same b (inr b') = b'

  abbrev pub apply : Op P V → LocalEventBus H P V → LocalEventBus H P V
  apply (starts now new_id e) b = bus_after b (publish_start now new_id e b)
  apply (delivers now new_id e error) b = deliver now new_id e error b
  apply (subscribes now new_id sub) b = or_same b (subscribe now new_id sub b)
  apply (unsubscribes id) b = or_same b (unsubscribe id b)
  apply (retries id) b = (retry_dlq_entry id b).0
  apply (purges id) b = (purge_dlq_entry id b).0

  abbrev pub run : List (Op P V) → LocalEventBus H P V → LocalEventBus H P V
  run [] b = b
  run (op ∷ ops) b = run ops (apply op b)

  pub Silent : String → LocalEventBus H P V → Type ℓ
  Silent id b = find id b.handlers ≡ none

  sequenced-handlers :
      (o : Bool) (e : Event P V) (b : LocalEventBus H P V)
      → (sequenced o e b).0.handlers ≡ b.handlers
  sequenced-handlers true e b = refl
  sequenced-handlers false e b = refl

  receives-Silent :
      (id : String) (same : V → V → Bool) (e : Event P V) (b : LocalEventBus H P V)
      → Silent id b
      → receives same e b id ≡ false
  unfolding Silent receives
  receives-Silent id same e b h = rw h refl

  start_if-Silent :
      (id : String) (x : Bool) (e : Event P V) (b : LocalEventBus H P V)
      → Silent id b
      → Silent id (bus_after b (start_if x e b))
  unfolding Silent
  start_if-Silent id true e b h = h
  start_if-Silent id false e b h = ap (find id) (sequenced-handlers b.enable_ordering e b) ∙ h

  deliver-Silent :
      (id : String) (now : ℕ) (new_id : String) (e : Event P V) (error : Option String)
      (b : LocalEventBus H P V)
      → Silent id b
      → Silent id (deliver now new_id e error b)
  unfolding Silent deliver send_to_dlq
  deliver-Silent id now new_id e none b h = h
  deliver-Silent id now new_id e (some error) b h = h

  subscribe-Silent :
      (id : String) (now : ℕ) (new_id : String) (sub : Subscription V) (b : LocalEventBus H P V)
      → str_eq (or_text sub.id new_id) id ≡ false
      → Silent id b
      → Silent id (or_same b (subscribe now new_id sub b))
  unfolding Silent subscribe
  subscribe-Silent id now new_id sub b d h = elim (Bool-cases (str_eq sub.client_id "")) [
    | inl anonymous ↦ simp anonymous h
    | inr named ↦ elim (Bool-cases (is_empty sub.event_types)) [
      | inl nothing ↦ simp (named, nothing) h
      | inr wanted ↦
          simp (named, wanted)
            (set_handler-find (or_text sub.id new_id) id b.handler b.handlers d ∙ h)
    ]
  ]

  unsubscribe_found-Silent :
      (id i : String) (b : LocalEventBus H P V) (s : Option (Subscription V))
      → Silent id b
      → Silent id (or_same b (unsubscribe_found i b s))
  unfolding Silent
  unsubscribe_found-Silent id i b none h = h
  unsubscribe_found-Silent id i b (some s) h = find-delete-none i id b.handlers h

  retry_found-Silent :
      (id i : String) (b : LocalEventBus H P V) (d : Option (DlqEntry (Event P V)))
      → Silent id b
      → Silent id (retry_found i b d).0
  unfolding Silent
  retry_found-Silent id i b none h = h
  retry_found-Silent id i b (some d) h = elim (Bool-cases (should_retry d)) [
    | inl again ↦ simp again h
    | inr never ↦ simp never h
  ]

  purge_found-Silent :
      (id i : String) (b : LocalEventBus H P V) (d : Option (DlqEntry (Event P V)))
      → Silent id b
      → Silent id (purge_found i b d).0
  unfolding Silent
  purge_found-Silent id i b none h = h
  purge_found-Silent id i b (some d) h = h

  apply-Silent :
      (id : String) (op : Op P V) (b : LocalEventBus H P V)
      → Spares id op
      → Silent id b
      → Silent id (apply op b)
  unfolding publish_start unsubscribe retry_dlq_entry purge_dlq_entry
  apply-Silent id (starts now new_id e) b s h =
      start_if-Silent id (is_expired now (filled now new_id e)) (filled now new_id e) b h
  apply-Silent id (delivers now new_id e error) b s h = deliver-Silent id now new_id e error b h
  apply-Silent id (subscribes now new_id sub) b s h = subscribe-Silent id now new_id sub b s h
  apply-Silent id (unsubscribes i) b s h = unsubscribe_found-Silent id i b (find i b.subs) h
  apply-Silent id (retries i) b s h = retry_found-Silent id i b (find i b.dlq) h
  apply-Silent id (purges i) b s h = purge_found-Silent id i b (find i b.dlq) h

  run-Silent :
      (id : String) (ops : List (Op P V)) (b : LocalEventBus H P V)
      → All (Spares id) ops
      → Silent id b
      → Silent id (run ops b)
  run-Silent id [] b s h = h
  run-Silent id (op ∷ ops) b (s, ss) h =
      run-Silent id ops (apply op b) ss (apply-Silent id op b s h)

  unsubscribed-Silent :
      (id : String) (b b' : LocalEventBus H P V) (s : Option (Subscription V))
      → unsubscribe_found id b s ≡ inr b'
      → Silent id b'
  unfolding Silent
  unsubscribed-Silent id b b' none e = absurd (inl-ne-inr e)
  unsubscribed-Silent id b b' (some s) e =
      subst (λ x. Silent id (or_same b x)) e (find-delete_self id b.handlers)

  module _ (id : String) (same : V → V → Bool) (others : ℕ → List (Op P V))
      (spares : (n : ℕ) → All (Spares id) (others n)) where
    send_rounds-Silent :
        (n : ℕ) (e : Event P V) (ids : List String) (b : LocalEventBus H P V)
        → Silent id b
        → listed id (send_rounds same (λ k. run (others k)) n e ids b).1 ≡ false
    unfolding send_rounds
    send_rounds-Silent n e [] b h = refl
    send_rounds-Silent n e (i ∷ ids) b h =
        let b' = run (others n) b in
        let h' = run-Silent id (others n) b (spares n) h in
        not_added id i (receives same e b' i)
          (send_rounds same (λ k. run (others k)) (suc n) e ids b').1
          (λ q. subst (λ j. receives same e b' j ≡ false) (sym q) (receives-Silent id same e b' h'))
          (send_rounds-Silent (suc n) e ids b' h')

    serialized-Silent :
        (error : Option String) (e : Event P V) (ids : List String) (b : LocalEventBus H P V)
        → Silent id b
        → listed id
            (recipients (serialized error e b (send_rounds same (λ k. run (others k)) 0 e ids b)).1)
          ≡ false
    serialized-Silent none e ids b h = send_rounds-Silent 0 e ids b h
    serialized-Silent (some error) e ids b h = refl

    publish_rest-Silent :
        (to_json : Event P V → Option String) (x : Bool) (e : Event P V) (b : LocalEventBus H P V)
        → Silent id b
        → listed id
            (recipients (publish_rest same to_json (λ k. run (others k)) b (start_if x e b)).1)
          ≡ false
    publish_rest-Silent to_json true e b h = refl
    publish_rest-Silent to_json false e b h =
        let (b', sent) = sequenced b.enable_ordering e b in
        serialized-Silent (to_json sent) sent (find_subscribers sent b') b'
          (start_if-Silent id false e b h)

    -- Once `Unsubscribe` has removed a subscription, neither a later call of `Publish` nor the
    -- rounds that are left of an earlier one send an event to it, whatever other callers do before
    -- and between the rounds, until its ID is subscribed again.
    pub unsubscribed_gets_nothing :
        (to_json : Event P V → Option String) (ops : List (Op P V)) (now n : ℕ) (new_id : String)
        (e earlier : Event P V) (ids : List String) (b b' : LocalEventBus H P V)
        → unsubscribe id b ≡ inr b'
        → All (Spares id) ops
        → let later = run ops b' in
          (listed id (recipients (publish same to_json (λ k. run (others k)) now new_id e later).1)
            ≡ false)
          × (listed id (send_rounds same (λ k. run (others k)) n earlier ids later).1 ≡ false)
    unfolding publish publish_start unsubscribe
    unsubscribed_gets_nothing to_json ops now n new_id e earlier ids b b' u s =
        let h = run-Silent id ops b' s (unsubscribed-Silent id b b' (find id b.subs) u) in
        (
          publish_rest-Silent to_json (is_expired now (filled now new_id e)) (filled now new_id e)
              (run ops b') h,
          send_rounds-Silent n earlier ids (run ops b') h,
        )

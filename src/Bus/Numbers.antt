-- ===== src/Bus/Numbers.antt =====
-- The sequence numbers of published events.
use nexus_ai_gateway.Common.{
  ℕ, ◌^◌, ◌<◌, ◌≡◌, Bool, true, false, List, [], ◌∷◌, String, if◌then◌else◌, str_eq, refl, ap,
  subst, sym, inl, inr, ◌⊎◌,
}
use nexus_ai_gateway.Bus.Sequencer.{
  get_current, next, is_ordered, draw_all, drawn, drawn-is_ordered,
}
use nexus_ai_gateway.Bus.{
  Event, LocalEventBus, BusError, is_expired, key_of, filled, sequenced, publish_start, start_if,
  with_subscribers,
}

module _ {ℓ κ} {P : Type ℓ} {V : Type κ} where
  -- The keys of the events that have not expired when they are published.
  abbrev accepted : List (ℕ × String × Event P V) → List String
  accepted [] = []
  accepted ((now, new_id, e) ∷ es) =
      let rest = accepted es in
      if is_expired now (filled now new_id e) then rest else key_of (filled now new_id e) ∷ rest

module _ {ℓ κ μ} {H : Type ℓ} {P : Type κ} {V : Type μ} where
  -- The bus after the locked part of `Publish`.
  abbrev pub bus_after :
      LocalEventBus H P V
      → BusError ⊎ (LocalEventBus H P V × Event P V × List String)
      → LocalEventBus H P V
  bus_after b (inl e) = b
  bus_after b (inr (b', sent, to)) = b'

  -- The sequence number, if the event got one, under the key.
  abbrev pub number_under :
      String → BusError ⊎ (LocalEventBus H P V × Event P V × List String) → List ℕ → List ℕ
  number_under key (inl e) ns = ns
  number_under key (inr (b', sent, to)) ns =
      if str_eq (key_of sent) key then sent.sequence_number ∷ ns else ns

  -- The locked parts of calls of `Publish`, in the order in which they hold the lock, each with its
  -- time and new ID.
  abbrev pub publish_all : List (ℕ × String × Event P V) → LocalEventBus H P V → LocalEventBus H P V
  publish_all [] b = b
  publish_all ((now, new_id, e) ∷ es) b =
      publish_all es (bus_after b (publish_start now new_id e b))

  abbrev pub numbers : String → List (ℕ × String × Event P V) → LocalEventBus H P V → List ℕ
  numbers key [] b = []
  numbers key ((now, new_id, e) ∷ es) b =
      let out = publish_start now new_id e b in
      number_under key out (numbers key es (bus_after b out))

module _ {ℓ κ μ} {H : Type ℓ} {P : Type κ} {V : Type μ} (key : String) where
  Follows : List (ℕ × String × Event P V) → LocalEventBus H P V → Type 0
  Follows es b =
      (numbers key es b ≡ drawn key (accepted es) b.event_order)
      × ((publish_all es b).event_order ≡ draw_all (accepted es) b.event_order)

  -- The events after one with the outcome `out` follow, in all.
  FollowsOn :
      List (ℕ × String × Event P V)
      → List String
      → LocalEventBus H P V
      → BusError ⊎ (LocalEventBus H P V × Event P V × List String)
      → Type 0
  FollowsOn es ks b out =
      (number_under key out (numbers key es (bus_after b out)) ≡ drawn key ks b.event_order)
      × ((publish_all es (bus_after b out)).event_order ≡ draw_all ks b.event_order)

  -- Whether or not the event has expired.
  start_if-FollowsOn :
      (expired : Bool) (e : Event P V) (es : List (ℕ × String × Event P V))
      (b : LocalEventBus H P V)
      → ((c : LocalEventBus H P V) → c.enable_ordering ≡ true → Follows es c)
      → b.enable_ordering ≡ true
      → FollowsOn es
          (if expired then accepted es else key_of e ∷ accepted es)
          b
          (start_if expired e b)
  unfolding Follows FollowsOn
  start_if-FollowsOn true e es b h o = h b o
  start_if-FollowsOn false e es b h o =
      let (order, n) = next (key_of e) b.event_order in
      let (ih, last) = h (record b { event_order = order }) o in
      subst
        (λ x. FollowsOn es (key_of e ∷ accepted es) b (inr (with_subscribers (sequenced x e b))))
        (sym o) (ap (λ ns. if str_eq (key_of e) key then n ∷ ns else ns) ih, last)

  numbers-Follows :
      (es : List (ℕ × String × Event P V)) (b : LocalEventBus H P V)
      → b.enable_ordering ≡ true
      → Follows es b
  unfolding Follows FollowsOn publish_start
  numbers-Follows [] b o = (refl, refl)
  numbers-Follows ((now, new_id, event) ∷ es) b o =
      let e = filled now new_id event in
      start_if-FollowsOn (is_expired now e) e es b (numbers-Follows es) o

  -- With ordering enabled, the sequence numbers that calls of `Publish` give to the events of a key
  -- are ordered for the sequencer that they leave, in the order in which the calls hold the lock,
  -- whatever is published under other keys and refused as expired between them, if the last number
  -- of the key before them is below 2^64.
  pub numbers-is_ordered :
      (es : List (ℕ × String × Event P V)) (b : LocalEventBus H P V)
      → b.enable_ordering ≡ true
      → get_current key b.event_order < 2 ^ 64
      → is_ordered key (numbers key es b) (publish_all es b).event_order ≡ true
  unfolding Follows
  numbers-is_ordered es b o h =
      let (ns, order) = numbers-Follows es b o in
      rw (ns, order) (drawn-is_ordered key (accepted es) b.event_order h)

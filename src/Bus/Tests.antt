-- ===== src/Bus/Tests.antt =====
-- Runs of the event bus on concrete subscriptions, and the instances of the properties.
use nexus_ai_gateway.Common.{
  ℕ, ◌≡◌, Bool, true, false, zero, suc, All, Option, none, some, List, [], ◌∷◌, String, refl, arith,
  ◌==◌, length,
}
use nexus_ai_gateway.Common.Dict.{find, put, delete}
use nexus_ai_gateway.Bus.Sequencer.{new_event_sequencer, get_current, next, is_ordered}
use nexus_ai_gateway.Bus.Dlq.{dlq_pending, new_dlq_entry, should_retry, record_retry}
use nexus_ai_gateway.Bus.{
  Event, Subscription, LocalEventBus, listed, is_expired, receives, matches_filter,
  find_subscribers, publish_start, send_rounds, publish, new_bus, subscribe, register, unregister,
  unsubscribe, send_to_dlq, deliver, get_subscriptions, get_dlq_entries, retry_dlq_entry,
  purge_dlq_entry,
}
use nexus_ai_gateway.Bus.Numbers.{publish_all, numbers, numbers-is_ordered}
use nexus_ai_gateway.Bus.Silence.{
  Op, Spares, subscribes, retries, recipients, run, or_same, unsubscribed_gets_nothing,
}

abbrev event : String → String → Event ℕ ℕ
event type target = record {
  id = "e";
  type = type;
  priority = 1;
  source_agent = "a";
  target_agent = target;
  correlation_id = "k";
  payload = 0;
  metadata = [];
  timestamp = 1;
  sequence_number = 0;
  ttl = 0;
}

abbrev wanting : String → String → String → Subscription ℕ
wanting id type target = record {
  id = id;
  client_id = "c";
  event_types = type ∷ [];
  target_agent = target;
  filter =
      some (record { source_agents = "a" ∷ []; priority_threshold = 1; metadata_filters = [] });
  created_at = 0;
  active = false;
}

abbrev same : ℕ → ℕ → Bool
same a b = a == b

-- Every event has its JSON, and no other caller acts.
abbrev json : Event ℕ ℕ → Option String
json e = none

abbrev alone : ℕ → LocalEventBus ℕ ℕ ℕ → LocalEventBus ℕ ℕ ℕ
alone n b = b

-- A bus with the handler 7.
abbrev empty_bus : LocalEventBus ℕ ℕ ℕ
unfolding new_bus
empty_bus = new_bus (some 7) 3 true

abbrev joined : LocalEventBus ℕ ℕ ℕ
unfolding empty_bus subscribe register find put
joined = or_same empty_bus (subscribe 1 "" (wanting "s" "agent.error" "b") empty_bus)

-- An event for any agent is sent once, and one for the agent of the subscription twice.
broadcast_once :
    recipients (publish same json alone 2 "" (event "agent.error" "") joined).1 ≡ "s" ∷ []
unfolding publish publish_start send_rounds is_expired next find_subscribers receives matches_filter
    joined find put
broadcast_once = refl

targeted_twice :
    recipients (publish same json alone 2 "" (event "agent.error" "b") joined).1 ≡ "s" ∷ "s" ∷ []
unfolding publish publish_start send_rounds is_expired next find_subscribers receives matches_filter
    joined find put
targeted_twice = refl

-- An event for another agent is sent too.
other_target_once :
    recipients (publish same json alone 2 "" (event "agent.error" "z") joined).1 ≡ "s" ∷ []
unfolding publish publish_start send_rounds is_expired next find_subscribers receives matches_filter
    joined find put
other_target_once = refl

-- `GetSubscriptions` still lists a subscription that was removed.
removed_is_listed : length (get_subscriptions "c" (or_same joined (unsubscribe "s" joined))) ≡ 1
unfolding get_subscriptions unsubscribe joined find put
removed_is_listed = refl

abbrev failed : LocalEventBus ℕ ℕ ℕ
unfolding joined deliver send_to_dlq new_dlq_entry put
failed = deliver 3 "d" (event "agent.error" "") (some "down") joined

-- A retry drops the entry: nothing is left to retry after it.
retried_is_dropped : get_dlq_entries (some dlq_pending) 0 (retry_dlq_entry "d" failed).0 ≡ []
unfolding get_dlq_entries retry_dlq_entry should_retry failed find delete
retried_is_dropped = refl

purged : get_dlq_entries none 0 (purge_dlq_entry "d" failed).0 ≡ []
unfolding get_dlq_entries purge_dlq_entry failed find delete
purged = refl

-- The first wait is 2 seconds.
first_wait : (record_retry {E = ℕ} 0 (new_dlq_entry 0 "d" 0 "down" 3)).next_retry_at ≡ 2_000_000_000
unfolding record_retry new_dlq_entry
first_wait = refl

abbrev events : List (ℕ × String × Event ℕ ℕ)
events =
    (2, "", event "agent.error" "")
    ∷ (3, "", event "agent.intent" "")
    ∷ (4, "", event "agent.error" "")
    ∷ []

numbers-is_ordered_example :
    is_ordered "k" (numbers "k" events empty_bus) (publish_all events empty_bus).event_order ≡ true
unfolding empty_bus get_current new_event_sequencer find
numbers-is_ordered_example = numbers-is_ordered "k" events empty_bus refl (omega arith)

abbrev left : LocalEventBus ℕ ℕ ℕ
unfolding joined unregister find put delete
left = or_same joined (unsubscribe "s" joined)

-- Other callers subscribe another ID before the first round.
abbrev meanwhile : ℕ → List (Op ℕ ℕ)
meanwhile zero = subscribes 5 "" (wanting "t" "agent.error" "b") ∷ []
meanwhile (suc n) = []

meanwhile-Spares : (n : ℕ) → All (Spares "s") (meanwhile n)
meanwhile-Spares zero = (refl, tt)
meanwhile-Spares (suc n) = tt

unsubscribed_gets_nothing_example :
    (listed "s" (
        recipients
          (publish same json
            (λ k. run (meanwhile k))
            9
            ""
            (event "agent.error" "b")
            (run (retries "d" ∷ []) left)).1)
      ≡ false)
    × (listed "s"
          (send_rounds same
            (λ k. run (meanwhile k))
            0
            (event "agent.error" "b")
            ("s" ∷ [])
            (run (retries "d" ∷ []) left)).1
        ≡ false)
unfolding unsubscribe left find
unsubscribed_gets_nothing_example =
    unsubscribed_gets_nothing "s" same meanwhile meanwhile-Spares json (retries "d" ∷ []) 9 0 ""
      (event "agent.error" "b") (event "agent.error" "b") ("s" ∷ []) joined left refl (tt, tt)

-- An event without JSON is sent to nobody, and its number is used up.
lost_number :
    get_current "k"
      (publish same (λ e. some "cyclic") alone 2 "" (event "agent.error" "") joined).0.event_order
    ≡ 1
unfolding publish publish_start is_expired next get_current joined find put
lost_number = refl

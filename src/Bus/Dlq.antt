-- ===== src/Bus/Dlq.antt =====
-- internal/eventbus/types.go: the entries of the dead letter queue. `E` are the events; the zero
-- time is 0.
use nexus_ai_gateway.Common.{
  ℕ, ◌+◌, ◌*◌, ◌^◌, Bool, true, false, ◌&&◌, not, String, if◌then◌else◌, ltb,
}
use nexus_ai_gateway.Common.Clock.{second}

pub data DlqStatus : Type 0 where
  dlq_pending dlq_retrying dlq_dead dlq_processed : DlqStatus

pub record DlqEntry {ℓ} (E : Type ℓ) : Type ℓ where
  pub id : String
  pub event : E
  pub error : String
  pub retry_count : ℕ
  pub max_retries : ℕ
  pub first_failed_at : ℕ
  pub last_failed_at : ℕ
  pub next_retry_at : ℕ
  pub status : DlqStatus

abbrev pub is_dead : DlqStatus → Bool
is_dead dlq_pending = false
is_dead dlq_retrying = false
is_dead dlq_dead = true
is_dead dlq_processed = false

abbrev pub same_status : DlqStatus → DlqStatus → Bool
same_status dlq_pending dlq_pending = true
same_status dlq_retrying dlq_retrying = true
same_status dlq_dead dlq_dead = true
same_status dlq_processed dlq_processed = true
same_status _ _ = false

-- `1 << n` seconds, at most 300. The shift is an int64: at 63 it is negative, and the product
-- with a second wraps to 0, and from 64 it is 0.
abbrev pub backoff : ℕ → ℕ
backoff n = if ltb n 63 then if ltb 300 (2 ^ n) then 300 * second else 2 ^ n * second else 0

module _ {ℓ} {E : Type ℓ} where
  unfoldable pub new_dlq_entry : ℕ → String → E → String → ℕ → DlqEntry E
  new_dlq_entry now id event error max_retries = record {
    id = id;
    event = event;
    error = error;
    retry_count = 0;
    max_retries = max_retries;
    first_failed_at = now;
    last_failed_at = now;
    next_retry_at = 0;
    status = dlq_pending;
  }

  unfoldable pub should_retry : DlqEntry E → Bool
  should_retry d = ltb d.retry_count d.max_retries && not (is_dead d.status)

  unfoldable pub record_retry : ℕ → DlqEntry E → DlqEntry E
  record_retry now d = record d {
    retry_count = d.retry_count + 1;
    last_failed_at = now;
    status = dlq_retrying;
    next_retry_at = now + backoff (d.retry_count + 1);
  }

  unfoldable pub mark_dead : DlqEntry E → DlqEntry E
  mark_dead d = record d { status = dlq_dead; next_retry_at = 0 }

  unfoldable pub mark_processed : DlqEntry E → DlqEntry E
  mark_processed d = record d { status = dlq_processed; next_retry_at = 0 }

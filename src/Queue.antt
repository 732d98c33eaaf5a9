-- ===== src/Queue.antt =====
-- `PendingEventQueue` of app/webhooks/services/pending_event_queue.py: the groups of pending events,
-- their keys and the constants.
pub mod Aggregation
pub mod State
pub mod Store
pub mod Process
pub mod Runs
pub mod Recovery
use notipus.Base.{ℕ, ◌*◌, String, [], ◌∷◌, concat}
use notipus.Base.Json.{Fields}

-- An item of a pending list: the event's data and the customer's.
pub record PendingItem : Type 0 where
  pub event_data : Fields
  pub customer_data : Fields

abbrev pub delay_seconds : ℕ
delay_seconds = 30

abbrev pub ttl_seconds : ℕ
ttl_seconds = 6 * 60 * 60

abbrev pub orphan_min_age_seconds : ℕ
orphan_min_age_seconds = 35

abbrev pub processing_lock_ttl : ℕ
processing_lock_ttl = 60

abbrev pub max_store_retries : ℕ
max_store_retries = 3

abbrev pub append_lock_ttl_seconds : ℕ
append_lock_ttl_seconds = 5

abbrev pub append_lock_max_attempts : ℕ
append_lock_max_attempts = 20

abbrev pub append_lock_finalize_max_attempts : ℕ
append_lock_finalize_max_attempts = 120

abbrev pub max_send_attempts : ℕ
max_send_attempts = 20

-- A group of events, which share a storage key in a workspace.
pub record Group : Type 0 where
  pub workspace_id : String
  pub idempotency_key : String

unfoldable pub pending_key : Group → String
unfolding concat
pending_key g = concat ("pending_webhook:" ∷ g.workspace_id ∷ ":" ∷ g.idempotency_key ∷ [])

unfoldable pub attempts_key : Group → String
unfolding concat
attempts_key g =
    concat ("pending_webhook_attempts:" ∷ g.workspace_id ∷ ":" ∷ g.idempotency_key ∷ [])

unfoldable pub append_lock_key : Group → String
unfolding concat pending_key
append_lock_key g = concat ("append_lock:" ∷ pending_key g ∷ [])

unfoldable pub processing_lock_key : Group → String
unfolding concat
processing_lock_key g = concat ("processing_lock:" ∷ g.workspace_id ∷ ":" ∷ g.idempotency_key ∷ [])

unfoldable pub timer_key : Group → String
unfolding concat
timer_key g = concat (g.workspace_id ∷ ":" ∷ g.idempotency_key ∷ [])

-- ===== src/Queue/Store.antt =====
-- How an event is queued: `queue_event`, `_store_event`, `_locked_append`, the append lock and the
-- timer, of app/webhooks/services/pending_event_queue.py.
pub mod Waiting
pub mod Queued
pub mod Customers
use notipus.Base.{
  ℕ, zero, suc, ◌+◌, ◌-◌, ◌/◌, String, Bool, true, false, Option, none, some, List, [], ◌∷◌, ◌++◌,
  ◌==◌, concat, contains, if◌then◌else◌,
}
use text.Mathlib.Text.{starts_with}
use notipus.Base.Decimal.{str}
use notipus.Base.Int.{pos}
use notipus.Base.Json.{Fields, number, put}
use notipus.Base.Call.{Outcome, Call, ok, raised, pure, throw, gets, modify, ◌>>=◌, ◌>>◌}
use notipus.Cache.{get, set, add, delete}
use notipus.Queue.{
  PendingItem, Group, pending_key, attempts_key, append_lock_key, timer_key, ttl_seconds,
  append_lock_ttl_seconds, append_lock_max_attempts, max_store_retries,
}
use notipus.Queue.State.{
  Pending, stored, poisoned, QueueError, lock_not_acquired, Backend, State, Op, now, sleep,
  on_pending, on_append_locks, on_attempts, try_finally, items_of,
}

-- `cache.get(key)` is true: the value is an encrypted text, which is never empty.
abbrev pub is_pending : Option Pending → Bool
is_pending none = false
is_pending (some _) = true

unfoldable pub bucket_key : String → ℕ → String
unfolding concat str
bucket_key customer_key bucket = concat (customer_key ∷ ":t" ∷ str bucket ∷ [])

abbrev pub group_of : String → String → Group
group_of workspace_id key = record { workspace_id = workspace_id; idempotency_key = key }

module _ (b : Backend) where
  -- A poisoned entry goes, with the count of its failures.
  unfoldable pub settle_read : Group → Option Pending → Op b (Option (List PendingItem))
  unfolding on_pending on_attempts
  settle_read g none = pure (some [])
  settle_read g (some (stored items)) = pure (some items)
  settle_read g (some poisoned) = do
    on_pending b (λ t. delete b.pending t (pending_key g))
    on_attempts b (λ t. delete b.attempts t (attempts_key g))
    pure none

  unfoldable pub read_pending_items : Group → Op b (Option (List PendingItem))
  unfolding settle_read
  read_pending_items g = do
    raw ← on_pending b (λ t. get b.pending t (pending_key g))
    settle_read g raw

  -- The attempts of a token to take the lock, with a pause after each that fails.
  unfoldable pub try_append_lock : ℕ → Group → ℕ → Op b (Option ℕ)
  unfolding on_append_locks
  try_append_lock zero g token = pure none
  try_append_lock (suc left) g token =
      let rest = try_append_lock left g token in
      do
        taken ←
            on_append_locks b
              (λ t. add b.append_locks t (append_lock_key g) token append_lock_ttl_seconds)
        if taken then pure (some token) else (sleep b 5 >> rest)

  unfoldable pub acquire_append_lock : ℕ → Group → Op b (Option ℕ)
  unfolding try_append_lock
  acquire_append_lock max_attempts g = do
    token ← gets (λ s. s.next_token)
    modify (λ s. record s { next_token = s.next_token + 1 })
    try_append_lock max_attempts g token

  abbrev pub is_held_by : ℕ → Option ℕ → Bool
  is_held_by token none = false
  is_held_by token (some holder) = holder == token

  unfoldable pub release_append_lock : Group → ℕ → Op b (Unit {0})
  unfolding on_append_locks
  release_append_lock g token = do
    holder ← on_append_locks b (λ t. get b.append_locks t (append_lock_key g))
    if is_held_by token holder
        then on_append_locks b (λ t. delete b.append_locks t (append_lock_key g))
        else pure tt

  -- An undecryptable list starts anew.
  abbrev pub existing_items : Option (List PendingItem) → List PendingItem
  existing_items none = []
  existing_items (some items) = items

  unfoldable pub append_item : Group → PendingItem → Op b (Unit {0})
  unfolding read_pending_items
  append_item g item = do
    existing ← read_pending_items g
    on_pending b (λ t.
        set b.pending t (pending_key g) (stored (existing_items existing ++ (item ∷ [])))
          ttl_seconds)

  unfoldable pub append_holding : Group → PendingItem → Option ℕ → Op b (Unit {0})
  unfolding append_item release_append_lock try_finally
  append_holding g item none = throw lock_not_acquired
  append_holding g item (some token) =
      try_finally (append_item g item) (release_append_lock g token)

  unfoldable pub locked_append : Group → PendingItem → Op b (Unit {0})
  unfolding append_holding acquire_append_lock
  locked_append g item = do
    token ← acquire_append_lock append_lock_max_attempts g
    append_holding g item token

  -- After an exception the loop goes on, with a pause, unless no attempt is left.
  unfoldable pub settle_store :
      ℕ
      → ℕ
      → Op b (Unit {0})
      → Outcome QueueError (Unit {0}) × State b
      → Outcome QueueError (Unit {0}) × State b
  settle_store left attempt rest (ok tt, s) = (ok tt, s)
  settle_store zero attempt rest (raised e, s) = (raised e, s)
  settle_store (suc left) attempt rest (raised e, s) = (sleep b (attempt + 1) >> rest) s

  unfoldable pub retry_append : ℕ → ℕ → Group → PendingItem → Op b (Unit {0})
  unfolding settle_store locked_append
  retry_append zero attempt g item s = (ok tt, s)
  retry_append (suc left) attempt g item s =
      settle_store left attempt (retry_append left (attempt + 1) g item) (locked_append g item s)

  unfoldable pub store_event : Group → Fields → Fields → Op b (Unit {0})
  unfolding retry_append
  store_event g event_data customer_data = do
    t ← gets (now b)
    retry_append max_store_retries 0 g (record {
      event_data = put "_queued_at" (number (pos t)) event_data;
      customer_data = customer_data;
    })

  -- The group that a customer's event joins: that of the minute before, if it waits, or that of this
  -- minute. The clock is past its first minute.
  unfoldable pub get_customer_storage_key : String → String → Op b String
  unfolding bucket_key
  get_customer_storage_key customer_key workspace_id = do
    t ← gets (now b)
    let previous = bucket_key customer_key (t / 60 - 1)
    found ← on_pending b (λ t. get b.pending t (pending_key (group_of workspace_id previous)))
    pure (if is_pending found then previous else bucket_key customer_key (t / 60))

  unfoldable pub get_storage_key : String → String → Op b String
  unfolding get_customer_storage_key
  get_storage_key idempotency_key workspace_id =
      if starts_with idempotency_key "customer:"
      then get_customer_storage_key idempotency_key workspace_id
      else pure idempotency_key

  -- The timer of a group is started once.
  unfoldable pub schedule_processing : Group → Op b (Unit {0})
  unfolding timer_key contains
  schedule_processing g = modify (λ s.
      if contains (timer_key g) s.active_timers
      then s
      else record s { active_timers = timer_key g ∷ s.active_timers })

  unfoldable pub queue_event : String → String → Fields → Fields → Op b (Unit {0})
  unfolding get_storage_key store_event schedule_processing
  queue_event idempotency_key workspace_id event_data customer_data = do
    key ← get_storage_key idempotency_key workspace_id
    store_event (group_of workspace_id key) event_data customer_data
    schedule_processing (group_of workspace_id key)

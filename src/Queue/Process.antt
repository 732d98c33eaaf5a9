-- ===== src/Queue/Process.antt =====
-- How a group is processed: `_process_events`, `_remove_processed_items`, `_record_failed_attempt`
-- and the processing lock, of app/webhooks/services/pending_event_queue.py. The delivery of an
-- aggregated event is passed in: it may change the whole state, as other workers do meanwhile.
pub mod Removal
pub mod Finishing
pub mod Delivered
pub mod Sweeps
use notipus.Base.{
  ℕ, ◌+◌, String, Bool, true, false, not, ◌&&◌, Option, none, some, List, [], ◌∷◌, leb, filter,
  str_eq, if◌then◌else◌,
}
use mathlib.Core.Option.{get_or}
use notipus.Base.Json.{Fields}
use notipus.Base.JsonEquality.{same_fields}
use notipus.Base.Call.{Outcome, Call, ok, raised, pure, gets, modify, ◌>>=◌, ◌>>◌}
use notipus.Cache.{get, set, add, delete}
use notipus.Queue.{
  PendingItem, Group, pending_key, attempts_key, processing_lock_key, timer_key, ttl_seconds,
  processing_lock_ttl, append_lock_finalize_max_attempts, max_send_attempts,
}
use notipus.Queue.Aggregation.{aggregate_events}
use notipus.Queue.State.{
  stored, QueueError, Backend, State, Op, on_pending, on_processing_locks, on_attempts, try_finally,
}
use notipus.Queue.Store.{
  read_pending_items, acquire_append_lock, release_append_lock, schedule_processing,
}

unfoldable pub same_item : PendingItem → PendingItem → Bool
unfolding same_fields
same_item i j = same_fields i.event_data j.event_data && same_fields i.customer_data j.customer_data

-- `items.remove(item)`, where a missing item is passed over.
unfoldable pub remove_one : PendingItem → List PendingItem → List PendingItem
unfolding same_item
remove_one i [] = []
remove_one i (j ∷ js) = if same_item j i then js else j ∷ remove_one i js

unfoldable pub remove_all : List PendingItem → List PendingItem → List PendingItem
unfolding remove_one
remove_all [] items = items
remove_all (i ∷ is) items = remove_all is (remove_one i items)

module _ (b : Backend) where
  unfoldable pub write_remainder : Group → List PendingItem → Op b (Unit {0})
  unfolding on_pending
  write_remainder g [] = on_pending b (λ t. delete b.pending t (pending_key g))
  write_remainder g (i ∷ is) =
      on_pending b (λ t. set b.pending t (pending_key g) (stored (i ∷ is)) ttl_seconds)

  unfoldable pub remove_found :
      Group → List PendingItem → Option (List PendingItem) → Op b (List PendingItem)
  unfolding write_remainder remove_all
  remove_found g processed none = pure []
  remove_found g processed (some current) = do
    write_remainder g (remove_all processed current)
    pure (remove_all processed current)

  -- Without the lock the whole list goes.
  unfoldable pub remove_holding : Group → List PendingItem → Option ℕ → Op b (List PendingItem)
  unfolding remove_found try_finally
  remove_holding g processed none = do
    on_pending b (λ t. delete b.pending t (pending_key g))
    pure []
  remove_holding g processed (some token) =
      try_finally (do current ← read_pending_items b g; remove_found g processed current)
        (release_append_lock b g token)

  unfoldable pub remove_processed_items : Group → List PendingItem → Op b (List PendingItem)
  unfolding remove_holding
  remove_processed_items g processed = do
    token ← acquire_append_lock b append_lock_finalize_max_attempts g
    remove_holding g processed token

  unfoldable pub record_failed_attempt : Group → Op b ℕ
  unfolding on_attempts
  record_failed_attempt g = do
    before ← on_attempts b (λ t. get b.attempts t (attempts_key g))
    let attempts = get_or before 0 + 1
    on_attempts b (λ t. set b.attempts t (attempts_key g) attempts ttl_seconds)
    pure attempts

  unfoldable pub acquire_lock : Group → Op b Bool
  unfolding on_processing_locks
  acquire_lock g =
      on_processing_locks b
        (λ t. add b.processing_locks t (processing_lock_key g) tt processing_lock_ttl)

  -- An exception of the cache is logged and passed over.
  unfoldable pub ignore_failure :
      Outcome QueueError (Unit {0}) × State b → Outcome QueueError (Unit {0}) × State b
  ignore_failure (r, s) = (ok tt, s)

  unfoldable pub release_lock : Group → Op b (Unit {0})
  unfolding on_processing_locks ignore_failure
  release_lock g s =
      ignore_failure
        (on_processing_locks b (λ t. delete b.processing_locks t (processing_lock_key g)) s)

  abbrev pub reschedule : Group → List PendingItem → Op b (Unit {0})
  reschedule g [] = pure tt
  reschedule g (i ∷ is) = schedule_processing b g

  -- Events that have been sent, or given up, are removed; a new timer takes those that remain.
  unfoldable pub finish_group : Group → List PendingItem → Op b (Unit {0})
  unfolding remove_processed_items
  finish_group g items = do
    remainder ← remove_processed_items g items
    on_attempts b (λ t. delete b.attempts t (attempts_key g))
    reschedule g remainder

  unfoldable pub settle_delivery : Group → List PendingItem → Bool → Op b (Unit {0})
  unfolding finish_group record_failed_attempt
  settle_delivery g items true = finish_group g items
  settle_delivery g items false = do
    attempts ← record_failed_attempt g
    if leb max_send_attempts attempts then finish_group g items else pure tt

  module _ (deliver : Group → Fields → Fields → Op b Bool) where
    unfoldable pub process_items : Group → Option (List PendingItem) → Op b (Unit {0})
    unfolding settle_delivery aggregate_events
    process_items g none = pure tt
    process_items g (some []) = pure tt
    process_items g (some (i ∷ is)) = do
      let (event, customer) = aggregate_events (i ∷ is)
      success ← deliver g event customer
      settle_delivery g (i ∷ is) success

    unfoldable pub process_locked : Group → Bool → Op b (Unit {0})
    unfolding process_items try_finally release_lock
    process_locked g false = pure tt
    process_locked g true =
        try_finally (do items ← read_pending_items b g; process_items g items) (release_lock g)

    unfoldable pub process_events : Group → Op b (Unit {0})
    unfolding process_locked acquire_lock timer_key
    process_events g = do
      modify (λ s. record s {
        active_timers = filter (λ key. not (str_eq key (timer_key g))) s.active_timers;
      })
      taken ← acquire_lock g
      process_locked g taken

-- ===== src/Examples/Queue.antt =====
-- Instances of the theorems on app/webhooks/services/pending_event_queue.py.
use notipus.Base.{
  String, ℕ, any, ◌≡◌, refl, ◌≤◌, Bool, true, false, some, List, [], ◌∷◌, arith, concat, contains,
  ◌||◌,
}
use notipus.Base.Decimal.{str}
use notipus.Base.Json.{Fields, end, field, text, object, is_true, is_text, get}
use notipus.Base.Call.{ok}
use notipus.Cache.Memory.{steady, fresh}
use notipus.Queue.{PendingItem, Group, pending_key, append_lock_key, processing_lock_key, timer_key}
use notipus.Queue.State.{Backend, State, Op, stored, waiting}
use notipus.Queue.Store.{group_of, queue_event, get_customer_storage_key, bucket_key}
use notipus.Queue.Store.Waiting.{crashed, finalizing_outlasts_crash}
use notipus.Queue.Store.Queued.{Joined, queued_event_waits}
use notipus.Queue.Store.Customers.{within_a_minute_joined}
use notipus.Queue.Process.{process_events, remove_processed_items}
use notipus.Queue.Process.Delivered.{Finished, sent_items_removed}
use notipus.Queue.Process.Finishing.{AllUp}
use notipus.Delivery.{Integration, Outside}
use notipus.Delivery.Pending.{with_desk, deliver_pending}
use notipus.Queue.Aggregation.{aggregate_events, pick_winner, metadata_of, is_failure}
use notipus.Queue.Aggregation.Winner.{PicksPair, aggregate_first_max}
use notipus.Queue.Aggregation.Failure.{failure_surfaces}
use notipus.Queue.Aggregation.Customer.{names_email, email_found}
use notipus.Queue.Recovery.{recover_single_event}
use notipus.Queue.Recovery.Ages.{queued_at, orphan_delivered}

abbrev backend : Backend
backend = record {
  pending = steady;
  append_locks = steady;
  processing_locks = steady;
  attempts = steady;
  World = Unit {0};
}

all_up : AllUp backend
all_up = record {
  pending = λ s t. refl;
  append_locks = λ s t. refl;
  processing_locks = λ s t. refl;
  attempts = λ s t. refl;
}

abbrev group : Group
group = group_of "7" "idem_1"

-- The first event of the group, a payment that failed, and one that comes later.
abbrev created : PendingItem
created = queued_at 100 (field "type" (text "subscription_created") end) end

abbrev declined : PendingItem
declined =
    queued_at 101
      (field "type" (text "payment_failure")
        (field "metadata" (object (field "decline_code" (text "lost_card") end)) end))
      (field "email" (text "a@b.c") end)

abbrev late : PendingItem
late = queued_at 140 (field "type" (text "invoice_paid") end) end

-- The queue at the time 140 with a pending list.
abbrev queue_with : List PendingItem → State backend
queue_with items = record {
  pending = record {
    up = λ t. true;
    entries = ("pending_webhook:7:idem_1", (stored items, 21740)) ∷ [];
  };
  append_locks = fresh;
  processing_locks = fresh;
  attempts = fresh;
  active_timers = "7:idem_1" ∷ [];
  ticks = 14000;
  next_token = 5;
  world = tt;
}

-- Another worker appends an event while the delivery is under way.
abbrev appending : Group → Fields → Fields → Op backend Bool
appending g event customer s =
    (ok true, record s { pending = (queue_with (created ∷ declined ∷ late ∷ [])).pending })

sent_items_removed_example :
    ((process_events backend appending group (queue_with (created ∷ declined ∷ []))).0 ≡ ok tt)
    × Finished backend appending group
        (late ∷ [])
        (process_events backend appending group (queue_with (created ∷ declined ∷ []))).1
unfolding pending_key processing_lock_key append_lock_key timer_key concat
sent_items_removed_example =
    sent_items_removed backend appending group created (declined ∷ []) (late ∷ [])
      (queue_with (created ∷ declined ∷ []))
      (record (queue_with (created ∷ declined ∷ late ∷ [])) {
        active_timers = [];
        processing_locks = record {
          up = λ t. true;
          entries = ("processing_lock:7:idem_1", (tt, 200)) ∷ [];
        };
      })
      all_up (refl, (refl, tt)) refl refl refl refl refl

-- Telegram does not answer.
abbrev outside : Outside Fields (List String)
outside = record {
  build = λ event customer w. (some event, w);
  plugin = λ name. some (λ n credentials w. (false, name ∷ w));
}

abbrev telegram : Integration
telegram = record {
  workspace_id = "7";
  integration_type = "telegram_notifications";
  is_active = true;
  oauth_credentials = field "bot_token" (text "1:a") (field "chat_id" (text "2") end);
}

abbrev delivering_backend : Backend
delivering_backend = with_desk backend steady (List String)

abbrev delivery : Group → Fields → Fields → Op delivering_backend Bool
delivery = deliver_pending backend steady outside (telegram ∷ [])

abbrev delivering_up : AllUp delivering_backend
delivering_up = record {
  pending = λ s t. refl;
  append_locks = λ s t. refl;
  processing_locks = λ s t. refl;
  attempts = λ s t. refl;
}

abbrev delivering_queue : State delivering_backend
delivering_queue = record {
  pending = (queue_with (declined ∷ [])).pending;
  append_locks = fresh;
  processing_locks = fresh;
  attempts = fresh;
  active_timers = [];
  ticks = 14000;
  next_token = 5;
  world = record { cache = fresh; world = [] };
}

failure_surfaces_example :
    (is_text "payment_failure" (get "type" (aggregate_events (created ∷ declined ∷ [])).0)
      || is_true
          (get "has_payment_failure" (metadata_of (aggregate_events (created ∷ declined ∷ [])).0)))
    ≡ true
unfolding is_failure
failure_surfaces_example = failure_surfaces created (declined ∷ []) refl

aggregate_first_max_example :
    PicksPair (declined ∷ created ∷ []) (pick_winner declined (created ∷ []))
    × (get "type" (aggregate_events (declined ∷ created ∷ [])).0
        ≡ get "type" (pick_winner declined (created ∷ [])).0.event_data)
aggregate_first_max_example = aggregate_first_max declined (created ∷ []) "type" refl

email_found_example : is_true (get "email" (aggregate_events (created ∷ declined ∷ [])).1) ≡ (
    is_true (get "email" (pick_winner created (declined ∷ [])).0.customer_data)
    || any names_email (pick_winner created (declined ∷ [])).1)
email_found_example = email_found created (declined ∷ [])

-- The append lock was taken at the time 138, and its holder crashed.
abbrev abandoned : State backend
abandoned = record (queue_with (created ∷ late ∷ [])) {
  append_locks = crashed backend group all_up 138 4 fresh;
}

still_there :
    (r : ℕ)
    → r ≤ 146
    → steady.peek abandoned.pending r (pending_key group) ≡ some (stored (created ∷ late ∷ []))
unfolding pending_key concat
still_there r h = ground arith

finalizing_outlasts_crash_example :
    ((remove_processed_items backend group (created ∷ []) abandoned).0 ≡ ok (late ∷ []))
    × (waiting backend group (remove_processed_items backend group (created ∷ []) abandoned).1
        ≡ late ∷ [])
finalizing_outlasts_crash_example =
    finalizing_outlasts_crash backend group all_up 138 4 fresh abandoned (created ∷ []) (late ∷ [])
      refl (omega arith) (refl, tt) still_there

queued_event_waits_example :
    Joined backend group (field "type" (text "invoice_paid") end) end (queue_with (created ∷ [])) (
      queue_event backend "idem_1" "7"
        (field "type" (text "invoice_paid") end)
        end
        (queue_with (created ∷ [])))
unfolding append_lock_key pending_key concat
queued_event_waits_example =
    queued_event_waits backend "idem_1" "7" (field "type" (text "invoice_paid") end) end
      (queue_with (created ∷ [])) refl all_up refl

-- A customer's group that was opened in the minute before.
abbrev opened : State backend
opened = record (queue_with []) {
  pending = record {
    up = λ t. true;
    entries = ("pending_webhook:7:customer:cus_1:t2", (stored (created ∷ []), 21740)) ∷ [];
  };
  ticks = 18500;
}

abbrev before : State backend
before = record (queue_with []) { pending = fresh }

within_a_minute_joined_example :
    (get_customer_storage_key backend "customer:cus_1" "7" opened).0
    ≡ (get_customer_storage_key backend "customer:cus_1" "7" before).0
unfolding pending_key concat bucket_key str
within_a_minute_joined_example =
    within_a_minute_joined backend "customer:cus_1" "7" before opened (stored (created ∷ [])) all_up
      (omega arith) (omega arith) refl refl refl

abbrev delivering : Group → Fields → Fields → Op backend Bool
delivering g event customer s = (ok true, s)

orphan_delivered_example :
    ((recover_single_event backend delivering ("7" ∷ []) group (queue_with (created ∷ []))).0
      ≡ true)
    × Finished backend delivering group []
        (recover_single_event backend delivering ("7" ∷ []) group (queue_with (created ∷ []))).1
unfolding pending_key processing_lock_key append_lock_key timer_key concat contains
orphan_delivered_example =
    orphan_delivered backend delivering ("7" ∷ []) group
      (field "type" (text "subscription_created") end) 100 end [] [] (queue_with (created ∷ []))
      (record (queue_with (created ∷ [])) {
        active_timers = [];
        processing_locks = record {
          up = λ t. true;
          entries = ("processing_lock:7:idem_1", (tt, 200)) ∷ [];
        };
      })
      all_up (refl, tt) refl (omega arith) refl refl refl refl refl

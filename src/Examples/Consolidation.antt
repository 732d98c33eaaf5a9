-- ===== src/Examples/Consolidation.antt =====
-- Instances of the theorems on app/webhooks/services/event_consolidation.py.
use notipus.Base.{
  ◌≡◌, refl, ap, true, false, none, some, [], ◌∷◌, arith, contains, truthy, non_empty, union,
  eq_iff, no_colon,
}
use notipus.Base.Int.{pos}
use notipus.Base.Call.{ok}
use notipus.Cache.{get, set}
use notipus.Cache.Memory.{memory, MemoryState, fresh}
use notipus.Consolidation.{
  Entry, suppressed, seen, events_of, suppression_key, dedup_key, no_amount, is_filtered, is_exempt,
  mark_events_for_suppression, mark_found, consolidate, should_send_notification, record_id,
  record_event, is_duplicate,
}
use notipus.Consolidation.Suppression.{critical_delivered}
use notipus.Consolidation.Window.{suppressed_in_window}
use notipus.Consolidation.Isolation.{other_transaction_unaffected}
use notipus.Consolidation.Dedup.{is_duplicate-record_event}

-- The marks of a subscription that was created at the time 0.
abbrev created : MemoryState Entry
created = record {
  up = λ t. true;
  entries =
      ("event_suppress:7:cus_1:sub_1", (suppressed ("payment_success" ∷ "invoice_paid" ∷ []), 300))
      ∷ [];
}

created_run :
    should_send_notification memory 0 "subscription_created" "cus_1" "7"
      (some (pos 2900))
      (some "sub_1")
      fresh
    ≡ (ok true, created)
unfolding should_send_notification consolidate mark_found mark_events_for_suppression get set
    events_of is_filtered is_exempt suppression_key no_amount contains truthy non_empty union
created_run = refl

suppressed_in_window_example :
    should_send_notification memory 299 "payment_success" "cus_1" "7"
      (some (pos 2900))
      (some "sub_1")
      created
    ≡ (ok false, created)
unfolding is_exempt is_filtered no_amount contains truthy non_empty
suppressed_in_window_example =
    suppressed_in_window memory 0 "cus_1" "7" "sub_1" fresh created 299 "subscription_created"
      "payment_success" ("payment_success" ∷ "invoice_paid" ∷ []) (some (pos 2900))
      (some (pos 2900)) refl refl refl refl refl created_run refl

other_transaction_unaffected_example :
    (should_send_notification memory 10 "payment_success" "cus_1" "7"
      (some (pos 500))
      (some "sub_2")
      created).0
    ≡ (should_send_notification memory 10 "payment_success" "cus_1" "7"
        (some (pos 500))
        (some "sub_2")
        fresh).0
other_transaction_unaffected_example =
    other_transaction_unaffected memory 0 10 "cus_1" "7" "sub_1" "sub_2" "subscription_created"
      "payment_success" (some (pos 2900)) (some (pos 500)) fresh created
      (ground (arith, eq_iff "sub_1" "sub_2")) (ap (λ r. r.1) created_run) refl refl

abbrev recorded_once : MemoryState Entry
recorded_once = record { up = λ t. true; entries = ("event_dedup:7:evt_1", (seen, 1800)) ∷ [] }

recorded_run : (record_event memory 0 "7" (some "evt_1") fresh).1 ≡ recorded_once
unfolding record_event record_id set dedup_key non_empty
recorded_run = refl

is_duplicate-record_event_example :
    is_duplicate memory 1799 "7" (some "evt_1") recorded_once ≡ (ok true, recorded_once)
unfolding truthy no_colon
is_duplicate-record_event_example =
    is_duplicate-record_event memory "7" 0 fresh recorded_once "7" refl refl 1799 "evt_1" "evt_1"
      refl refl refl recorded_run refl

critical_delivered_example :
    should_send_notification memory 5 "payment_failure" "cus_1" "7" none (some "sub_1") created
    ≡ (ok true, created)
unfolding contains
critical_delivered_example =
    critical_delivered memory 5 "payment_failure" "cus_1" "7" none (some "sub_1") created refl

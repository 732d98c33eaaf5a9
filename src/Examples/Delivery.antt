-- ===== src/Examples/Delivery.antt =====
-- Instances of the theorems on the delivery of notifications, and a run of the queue with it.
use notipus.Base.{
  not, ◌≡◌, refl, String, true, false, none, some, List, [], ◌∷◌, union, contains, truthy,
  non_empty, str_eq, if◌then◌else◌,
}
use notipus.Base.Json.{Fields, end, field, text, object, put, is_true}
use notipus.Base.Call.{ok}
use notipus.Cache.{get, set}
use notipus.Cache.Memory.{memory, fresh, MemoryState}
use notipus.Consolidation.{
  Entry, suppressed, should_send_notification, is_filtered, is_exempt, extract_correlation_id,
  consolidate, events_of, mark_found, mark_events_for_suppression, suppression_key,
}
use notipus.Delivery.{
  Integration, Outside, Desk, send_notification, process_immediately, should_notify,
}
use notipus.Delivery.Sending.{deliveries_agree, unsent_unrecorded}

-- The outside: the names of the plugins that have sent, newest first. Telegram does not answer.
abbrev outside : Outside Fields (List String)
outside = record {
  build = λ event customer w. (some event, w);
  plugin = λ name.
      if str_eq name "teams"
      then none
      else some (λ n credentials w. (not (str_eq name "telegram"), name ∷ w));
}

abbrev integration : String → Fields → Integration
integration type credentials = record {
  workspace_id = "7";
  integration_type = type;
  is_active = true;
  oauth_credentials = credentials;
}

abbrev slack : Integration
slack =
    integration "slack_notifications"
      (field "incoming_webhook" (object (field "url" (text "https://slack") end)) end)

abbrev telegram : Integration
telegram =
    integration "telegram_notifications"
      (field "bot_token" (text "1:a") (field "chat_id" (text "2") end))

abbrev desk : Desk (MemoryState Entry) (List String)
desk = record { cache = fresh; world = [] }

abbrev event : Fields
event =
    field "type" (text "order_created")
      (field "customer_id" (text "cus_1") (field "external_id" (text "ord_1") end))

deliveries_agree_example :
    (send_notification memory 5 outside (slack ∷ telegram ∷ []) (some "7") event end desk).1.world
    ≡ (process_immediately memory 5 outside
        (slack ∷ telegram ∷ [])
        (some "7")
        event
        end
        desk).1.world
deliveries_agree_example =
    deliveries_agree memory 5 outside (slack ∷ telegram ∷ []) (some "7") event end desk

-- Slack is sent to, Telegram fails: the event is not recorded.
abbrev half_sent : Desk (MemoryState Entry) (List String)
half_sent = record {
  cache = record {
    up = λ t. true;
    entries = ("event_suppress:7:cus_1:ord_1", (suppressed ("payment_success" ∷ []), 305)) ∷ [];
  };
  world = "telegram" ∷ "slack" ∷ [];
}

half_sent_run :
    send_notification memory 5 outside (slack ∷ telegram ∷ []) (some "7") event end desk
    ≡ (ok false, half_sent)
unfolding send_notification should_send_notification is_filtered contains is_exempt truthy non_empty
    extract_correlation_id consolidate get events_of mark_found mark_events_for_suppression set
    is_true suppression_key union
half_sent_run = refl

unsent_unrecorded_example :
    half_sent.cache
    ≡ (should_notify memory 5 outside
        (slack ∷ telegram ∷ [])
        (some "7")
        (put "workspace_id" (text "7") event)
        desk).1.cache
unsent_unrecorded_example =
    unsent_unrecorded memory 5 outside (slack ∷ telegram ∷ []) (some "7") event end desk half_sent
      half_sent_run

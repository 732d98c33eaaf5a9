-- ===== src/Examples/Router.antt =====
-- Instances of the theorems on app/webhooks/webhook_router.py.
use notipus.Base.{
  truthy, contains, ℕ, ◌≡◌, refl, String, true, none, some, List, [], ◌∷◌, non_empty, arith,
}
use notipus.Base.Json.{Fields, end, field, text}
use notipus.Base.Call.{ok, raised}
use notipus.Cache.{get, set}
use notipus.Cache.Memory.{memory_counters, steady, fresh, MemoryState}
use notipus.Consolidation.{
  Entry, dedup_key, seen, is_duplicate, should_send_notification, is_filtered, is_exempt,
  record_event,
}
use notipus.Delivery.{Integration, Outside, Desk, process_immediately, processed, not_delivered}
use notipus.Limits.Limiter.{Clock, Limiter, get_cache_key, get_hard_limit, get_organization_limit}
use notipus.Limits.Alerts.{hard_limit}
use notipus.Limits.Breaker.{new_breaker}
use notipus.Billing.Workspaces.{has_active_access, active, cancelled}
use notipus.Queue.State.{Backend, State}
use notipus.Router.{
  Tenant, Request, Server, delivery_error, reply, answered, duplicate_suppressed, get_dedup_key,
  aggregation_key, queued, process_webhook, process_webhook_data,
}
use notipus.Router.Rejection.{Refused, AnsweredWith, rejected_harmless, spent_harmless}
use notipus.Router.Unmarked.{failed_dispatch_unmarked}
use notipus.Queue.Store.{group_of}
use notipus.Queue.Store.Queued.{Joined}
use notipus.Router.Queueing.{queued_webhook_waits}
use notipus.Router.Redelivery.{redelivery_suppressed}

abbrev backend : Backend
backend = record {
  pending = steady;
  append_locks = steady;
  processing_locks = steady;
  attempts = steady;
  World = Unit {0};
}

-- The outside counts what has been sent. Each plugin answers.
abbrev outside : Outside Fields (List String)
outside = record {
  build = λ event customer w. (some event, w);
  plugin = λ name. some (λ n credentials w. (true, name ∷ w));
}

-- No plugin is installed.
abbrev nothing_installed : Outside Fields (List String)
nothing_installed = record { build = λ event customer w. (some event, w); plugin = λ name. none }

abbrev slack : List Integration
slack =
    record {
      workspace_id = "7";
      integration_type = "teams_notifications";
      is_active = true;
      oauth_credentials = field "webhook_url" (text "https://teams") end;
    }
    ∷ []

abbrev clock : ℕ → Clock
clock t = record { time = t; year = 2025; month = 3; month_key = "2025-03" }

abbrev tenant : Tenant
tenant = record {
  row = record {
    id = 7;
    subscription_plan = "pro";
    subscription_status = cancelled;
    trial_end_date = none;
    billing_cycle_anchor = none;
    stripe_customer_id = "cus_7";
    stripe_subscription_id = "sub_7";
    payment_method_added = true;
    ga4_client_id = "";
  };
  organization = record { uuid = "7"; subscription_plan = "pro" };
}

abbrev event : Fields
event =
    field "type" (text "order_created")
      (field "content_hash" (text "ab12") (field "provider" (text "shopify") end))

abbrev request : Request
request = record {
  body = "{}";
  provider_name = "customer_shopify";
  valid = ok true;
  parsed = ok (some event);
  customer_data = ok end;
}

abbrev server :
    Server (Limiter (MemoryState ℕ)) (State backend) (Desk (MemoryState Entry) (List String))
server = record {
  limiter = record {
    breaker = new_breaker;
    fallback = record { entries = []; last_eviction_warn = 0 };
    cache = fresh;
  };
  queue = record {
    pending = fresh;
    append_locks = fresh;
    processing_locks = fresh;
    attempts = fresh;
    active_timers = [];
    ticks = 0;
    next_token = 0;
    world = tt;
  };
  desk = record { cache = fresh; world = [] };
  stored_payloads = [];
  verified_at = none;
}

rejected_harmless_example :
    Refused memory_counters backend steady outside slack true 100 (clock 5) server (
      process_webhook memory_counters backend steady outside slack true 100
        (clock 5)
        (some tenant)
        request
        server)
unfolding has_active_access
rejected_harmless_example =
    rejected_harmless memory_counters backend steady outside slack true 100 (clock 5) (some tenant)
      request server refl

abbrev entitled : Tenant
entitled = record {
  row = record tenant.row { subscription_status = active };
  organization = record { uuid = "7"; subscription_plan = "free" };
}

-- The twenty webhooks of the month have been used.
abbrev exhausted : Limiter (MemoryState ℕ)
exhausted = record {
  breaker = new_breaker;
  fallback = record { entries = []; last_eviction_warn = 0 };
  cache = record { up = λ t. true; entries = (get_cache_key "7" "2025-03", (20, 9000000)) ∷ [] };
}

spent_harmless_example :
    AnsweredWith memory_counters backend steady outside slack true 100
      (clock 5)
      429
      (record server { limiter = exhausted })
      (process_webhook memory_counters backend steady outside slack true 100
        (clock 5)
        (some entitled)
        request
        (record server { limiter = exhausted }))
unfolding has_active_access get_hard_limit get_organization_limit hard_limit get_cache_key
spent_harmless_example =
    spent_harmless memory_counters backend steady outside slack true 100 (clock 5) entitled request
      (record server { limiter = exhausted }) refl refl refl refl (omega arith)

unsent_run :
    process_webhook_data memory_counters backend steady nothing_installed slack true 100
      (clock 5)
      (some tenant)
      request
      event
      server
    ≡ (raised (delivery_error (not_delivered ("teams" ∷ []))), server)
unfolding process_webhook_data is_duplicate non_empty get process_immediately
    should_send_notification is_filtered is_exempt record_event set dedup_key
unsent_run = refl

failed_dispatch_unmarked_example :
    steady.peek server.desk.cache 6 (dedup_key "7" "shopify:sha256:ab12")
    ≡ steady.peek server.desk.cache 6 (dedup_key "7" "shopify:sha256:ab12")
failed_dispatch_unmarked_example =
    failed_dispatch_unmarked memory_counters backend steady nothing_installed slack true 100
      (some tenant) (clock 5) request event server server
      (delivery_error (not_delivered ("teams" ∷ []))) unsent_run 6 "7" "shopify:sha256:ab12"

abbrev sent :
    Server (Limiter (MemoryState ℕ)) (State backend) (Desk (MemoryState Entry) (List String))
sent = record server {
  desk = record {
    cache = record {
      up = λ t. true;
      entries = ("event_dedup:7:shopify:sha256:ab12", (seen, 1805)) ∷ [];
    };
    world = "teams" ∷ [];
  };
}

sent_run :
    process_webhook_data memory_counters backend steady outside slack true 100
      (clock 5)
      (some tenant)
      request
      event
      server
    ≡ (ok (reply 200 (answered processed)), sent)
unfolding process_webhook_data is_duplicate non_empty get process_immediately
    should_send_notification is_filtered is_exempt record_event set dedup_key
sent_run = refl

redelivery_suppressed_example :
    process_webhook_data memory_counters backend steady outside slack true 100
      (clock 1500)
      (some tenant)
      request
      event
      sent
    ≡ (ok (reply 200 duplicate_suppressed), sent)
unfolding get_dedup_key
redelivery_suppressed_example =
    redelivery_suppressed memory_counters backend steady outside slack true 100 (some tenant)
      (clock 5) (clock 1500) request request event end (reply 200 (answered processed)) server sent
      (λ s t. refl) refl refl sent_run refl refl

abbrev created : Fields
created =
    field "type" (text "subscription_created")
      (field "event_id" (text "evt_1") (field "idempotency_key" (text "idem_1") end))

abbrev stripe_request : Request
stripe_request = record request { provider_name = "customer_stripe"; parsed = ok (some created) }

queued_webhook_waits_example :
    ((process_webhook_data memory_counters backend steady outside slack true 100
        (clock 5)
        (some tenant)
        stripe_request
        created
        server).0
      ≡ ok (reply 200 queued))
    × Joined backend (group_of "7" "idem_1") created end server.queue (
      ok tt,
      (process_webhook_data memory_counters backend steady outside slack true 100
          (clock 5)
          (some tenant)
          stripe_request
          created
          server).1.queue,
    )
unfolding get_dedup_key aggregation_key contains truthy
queued_webhook_waits_example =
    queued_webhook_waits memory_counters backend steady outside slack true 100 (clock 5)
      (some tenant) stripe_request created end "idem_1" server (λ s t. refl)
      (record {
        pending = λ s t. refl;
        append_locks = λ s t. refl;
        processing_locks = λ s t. refl;
        attempts = λ s t. refl;
      })
      refl refl refl refl refl refl refl

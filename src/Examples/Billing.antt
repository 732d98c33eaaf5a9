-- ===== src/Examples/Billing.antt =====
-- Instances of the theorems on app/webhooks/services/billing.py.
use notipus.Base.{
  ℕ, ◌≡◌, refl, String, true, false, none, some, [], ◌∷◌, arith, truthy, non_empty, contains,
  concat,
}
use notipus.Base.Int.{pos}
use notipus.Base.Call.{ok}
use notipus.Cache.{add}
use notipus.Cache.Memory.{memory, MemoryState, fresh}
use notipus.Billing.Workspaces.{Workspace, active, first_where}
use notipus.Billing.Sync.{
  Stripe, Subscription, World, synced, get_active_subscription, apply_subscription, first_live,
  Marker, marker, payment_succeeded, first_ga4_delivery, claimed,
}
use notipus.Billing.Handlers.{
  CheckoutSession, checkout_completed, SubscriptionEvent, subscription_changed,
  subscription_deleted, Invoice, id_text,
}
use notipus.Billing.Invoices.{
  paid_invoice, failed_invoice, track_payment_succeeded, track_once, succeeded_key,
}
use notipus.Billing.Rows.{UniqueIds, others}
use notipus.Billing.Checkout.{own_or_free, forged_checkout_harmless}
use notipus.Billing.Convergence.{row_of, stale_change_harmless, stale_deletion_harmless}
use notipus.Billing.Tenants.{SameOthers, subscription_event-others}
use notipus.Billing.Tenants.Invoices.{invoice-others}
use notipus.Billing.Payments.{late_payment_harmless}
use notipus.Billing.Once.{payment_reported_once}

-- A subscription that was cancelled at Stripe.
abbrev ended : Subscription
ended = record {
  status = "canceled";
  id = some "sub_1";
  current_period_end = some 1790000000;
  trial_end = none;
  items = record { plan_name = none; product_name = some "Notipus Pro Plan" } ∷ [];
}

abbrev stripe : Stripe
stripe customer_id = ok (ended ∷ [])

abbrev workspace : ℕ → String → Workspace
workspace id customer_id = record {
  id = id;
  subscription_plan = "pro";
  subscription_status = active;
  trial_end_date = none;
  billing_cycle_anchor = none;
  stripe_customer_id = customer_id;
  stripe_subscription_id = "sub_1";
  payment_method_added = false;
  ga4_client_id = "";
}

abbrev world : World (MemoryState Marker)
world = record { table = workspace 1 "cus_1" ∷ workspace 2 "cus_2" ∷ []; sent = []; ga4 = fresh }

world-UniqueIds : UniqueIds world.table
world-UniqueIds = ((refl, tt), (tt, tt))

-- An event that still says that the subscription is active.
abbrev stale : SubscriptionEvent
stale = record {
  customer = some "cus_1";
  id = some "sub_1";
  status = some "active";
  current_period_end = some 1780000000;
}

stale_change_harmless_example :
    row_of "cus_1" (subscription_changed stripe "cus_1" stale world)
    ≡ row_of "cus_1" (synced stripe "cus_1" world)
unfolding get_active_subscription first_live non_empty contains
stale_change_harmless_example =
    stale_change_harmless "cus_1" ended [] stripe world refl stale "sub_1" 1790000000 refl refl

stale_deletion_harmless_example :
    row_of "cus_1" (subscription_deleted stripe "cus_1" stale world)
    ≡ row_of "cus_1" (synced stripe "cus_1" world)
stale_deletion_harmless_example = stale_deletion_harmless "cus_1" ended [] stripe world refl stale

abbrev invoice_of : String → Invoice
invoice_of sub_id = record {
  id = some "in_1";
  customer = some "cus_1";
  subscription = id_text sub_id;
  amount_paid = some (pos 2900);
  amount_due = some (pos 2900);
  attempt_count = some "1";
}

late_payment_harmless_example :
    row_of "cus_1" (paid_invoice memory 5 stripe (some "sub_1") "cus_1" (invoice_of "sub_1") world)
    ≡ some (record (apply_subscription ended (workspace 1 "cus_1")) { payment_method_added = true })
unfolding first_where get_active_subscription first_live truthy contains
late_payment_harmless_example =
    late_payment_harmless memory 5 stripe "cus_1" "sub_1" (invoice_of "sub_1") (workspace 1 "cus_1")
      world refl refl ended [] refl refl

abbrev reported_world : World (MemoryState Marker)
reported_world = record world {
  sent = payment_succeeded 1 "pro" (pos 2900) (some "in_1") ∷ [];
  ga4 = record {
    up = λ t. true;
    entries = ("ga4_billing:payment_succeeded:in_1", (marker, 604805)) ∷ [];
  };
}

reported_run :
    track_payment_succeeded memory 5 (workspace 1 "cus_1") (invoice_of "sub_1") world
    ≡ reported_world
unfolding track_payment_succeeded track_once succeeded_key first_ga4_delivery claimed add non_empty
    concat
reported_run = refl

payment_reported_once_example :
    (track_payment_succeeded memory 604804
      (workspace 1 "cus_1")
      (invoice_of "sub_1")
      reported_world).sent
    ≡ (payment_succeeded 1 "pro" (pos 2900) (some "in_1") ∷ [])
unfolding non_empty
payment_reported_once_example =
    payment_reported_once memory 5 604804 (workspace 1 "cus_1") (workspace 1 "cus_1")
      (invoice_of "sub_1") "in_1" world reported_world refl refl refl reported_run refl
      (omega arith)

-- A buyer who names the workspace of another customer.
abbrev forged : CheckoutSession
forged = record {
  customer = some "cus_1";
  workspace_id = some 2;
  organization_id = none;
  plan_name = some "Platinum";
  subscription = some "sub_7";
  ga_client_id = none;
}

forged_checkout_harmless_example :
    others (own_or_free "cus_1") (checkout_completed stripe "cus_1" forged world).table
    ≡ (workspace 2 "cus_2" ∷ [])
forged_checkout_harmless_example =
    forged_checkout_harmless "cus_1" stripe forged world world-UniqueIds

subscription_event-others_example :
    SameOthers "cus_1" world (subscription_changed stripe "cus_1" stale world)
    × SameOthers "cus_1" world (subscription_deleted stripe "cus_1" stale world)
subscription_event-others_example =
    subscription_event-others "cus_1" stripe stale world world-UniqueIds

invoice-others_example :
    SameOthers "cus_1" world
      (paid_invoice memory 5 stripe (some "sub_1") "cus_1" (invoice_of "sub_1") world)
    × SameOthers "cus_1" world
        (failed_invoice memory 5 stripe (some "sub_1") "cus_1" (invoice_of "sub_1") world)
invoice-others_example =
    invoice-others memory 5 "cus_1" stripe (some "sub_1") (invoice_of "sub_1") world world-UniqueIds

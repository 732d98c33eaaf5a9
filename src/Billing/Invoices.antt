-- ===== src/Billing/Invoices.antt =====
-- The invoice handlers of `BillingService` in app/webhooks/services/billing.py, with the GA4 events
-- that they send once for each payment.
use notipus.Base.{
  ℕ, String, Bool, true, false, not, Option, none, some, [], ◌∷◌, ◌++◌, str_eq, truthy, non_empty,
  concat, if◌then◌else◌,
}
use mathlib.Core.Option.{get_or}
use notipus.Base.Int.{pos, is_positive}
use notipus.Base.Call.{Outcome}
use notipus.Cache.{Cache}
use notipus.Billing.Workspaces.{Workspace, active, past_due, update_where, first_where, of_customer}
use notipus.Billing.Sync.{
  Stripe, World, Event, payment_succeeded, payment_failed, by_id, synced, LockAttempt,
  StripeSyncLockTimeout, Marker, first_ga4_delivery,
}
use notipus.Billing.Handlers.{Invoice, extract_invoice_subscription_id, locked}

-- What a real payment writes.
abbrev pub activate : Workspace → Workspace
activate w = record w { subscription_status = active; payment_method_added = true }

-- The occurrence that an event is sent for; an invoice with no id has none.
unfoldable pub succeeded_key : Option String → Option String
succeeded_key none = none
succeeded_key (some id) = some (concat ("payment_succeeded:" ∷ id ∷ []))

unfoldable pub failed_key : Option String → Option String → Option String
failed_key none attempt_count = none
failed_key (some id) attempt_count =
    some (concat ("payment_failed:" ∷ id ∷ ":" ∷ get_or attempt_count "None" ∷ []))

module _ (c : Cache Marker) (now : ℕ) where
  -- The event goes out unless this occurrence was seen; an invoice with no id is not told apart.
  unfoldable pub track_once : Option String → Event → World c.State → World c.State
  track_once none event world = record world { sent = world.sent ++ event ∷ [] }
  track_once (some dedup_key) event world =
      let (first, s) = first_ga4_delivery c now dedup_key world.ga4 in
      record world { sent = if first then world.sent ++ event ∷ [] else world.sent; ga4 = s }

  unfoldable pub track_payment_succeeded : Workspace → Invoice → World c.State → World c.State
  unfolding track_once succeeded_key
  track_payment_succeeded w invoice = track_once (succeeded_key (non_empty invoice.id)) (
      payment_succeeded w.id w.subscription_plan (get_or invoice.amount_paid (pos 0))
        (non_empty invoice.id))

  unfoldable pub track_payment_failed : Workspace → Invoice → World c.State → World c.State
  unfolding track_once failed_key
  track_payment_failed w invoice =
      track_once (failed_key (non_empty invoice.id) invoice.attempt_count) (
        payment_failed w.id w.subscription_plan (get_or invoice.amount_due (pos 0))
          (non_empty invoice.id) invoice.attempt_count)

  module _ (stripe : Stripe) where
    -- A real payment activates the workspace; an invoice of nothing changes nothing.
    unfoldable pub apply_payment : Bool → Workspace → Invoice → World c.State → World c.State
    apply_payment true w invoice world =
        track_payment_succeeded w invoice
          (record world { table = update_where (by_id w.id) activate world.table })
    apply_payment false w invoice world = world

    unfoldable pub paid_own :
        String → String → Invoice → Option Workspace → World c.State → World c.State
    paid_own customer_id sub_id invoice none world = world
    paid_own customer_id sub_id invoice (some w) world =
        if not (truthy w.stripe_subscription_id)
        then synced stripe customer_id world
        else if not (str_eq sub_id w.stripe_subscription_id)
        then world
        else synced stripe customer_id
            (apply_payment (is_positive (get_or invoice.amount_paid (pos 0))) w invoice world)

    -- `_apply_paid_subscription_invoice`, under the lock. An invoice of no subscription is ignored.
    unfoldable pub paid_invoice : Option String → String → Invoice → World c.State → World c.State
    paid_invoice none customer_id invoice world = world
    paid_invoice (some sub_id) customer_id invoice world =
        paid_own customer_id sub_id invoice (first_where (of_customer customer_id) world.table)
          world

    unfoldable pub failed_own :
        String → String → Invoice → Option Workspace → World c.State → World c.State
    failed_own customer_id sub_id invoice none world = world
    failed_own customer_id sub_id invoice (some w) world =
        if not (truthy w.stripe_subscription_id)
        then synced stripe customer_id world
        else if not (str_eq sub_id w.stripe_subscription_id)
        then world
        else track_payment_failed w invoice (record world {
          table =
              update_where (by_id w.id) (λ v. record v { subscription_status = past_due })
                world.table;
        })

    unfoldable pub failed_invoice : Option String → String → Invoice → World c.State → World c.State
    failed_invoice none customer_id invoice world = world
    failed_invoice (some sub_id) customer_id invoice world =
        failed_own customer_id sub_id invoice (first_where (of_customer customer_id) world.table)
          world

    -- The lock is taken only for an invoice of a subscription.
    unfoldable pub lock_for : Option String → Option String → Option String
    lock_for none customer_id = none
    lock_for (some sub_id) customer_id = customer_id

    module _ (lock : LockAttempt) where
      unfoldable pub handle_payment_success :
          Invoice → World c.State → Outcome StripeSyncLockTimeout (Unit {0}) × World c.State
      unfolding locked lock_for
      handle_payment_success invoice =
          let sub_id = extract_invoice_subscription_id invoice.subscription in
          locked lock (lock_for sub_id (non_empty invoice.customer))
            (λ customer_id. paid_invoice sub_id customer_id invoice)

      unfoldable pub handle_invoice_paid :
          Invoice → World c.State → Outcome StripeSyncLockTimeout (Unit {0}) × World c.State
      unfolding locked lock_for
      handle_invoice_paid invoice =
          let sub_id = extract_invoice_subscription_id invoice.subscription in
          locked lock (lock_for sub_id (non_empty invoice.customer))
            (λ customer_id. paid_invoice sub_id customer_id invoice)

      unfoldable pub handle_payment_failed :
          Invoice → World c.State → Outcome StripeSyncLockTimeout (Unit {0}) × World c.State
      unfolding locked lock_for
      handle_payment_failed invoice =
          let sub_id = extract_invoice_subscription_id invoice.subscription in
          locked lock (lock_for sub_id (non_empty invoice.customer))
            (λ customer_id. failed_invoice sub_id customer_id invoice)

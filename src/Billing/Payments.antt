-- ===== src/Billing/Payments.antt =====
-- What the invoice handlers of app/webhooks/services/billing.py do to the row of the customer.
use notipus.Base.{
  ℕ, ◌≡◌, refl, ap, ◌∙◌, String, Bool, true, false, Option, none, some, List, ◌∷◌, truthy, str_eq,
  if◌then◌else◌,
}
use mathlib.Core.Option.{get_or}
use notipus.Base.Int.{pos, is_positive}
use notipus.Base.Call.{ok}
use notipus.Cache.{Cache}
use notipus.Billing.Workspaces.{
  Workspace, Table, active, past_due, update_where, first_where, of_customer,
}
use notipus.Billing.Sync.{
  Stripe, Subscription, World, by_id, get_active_subscription, apply_subscription, Marker,
  LockAttempt, no_client, acquire_failed, acquired, timed_out, stripe_sync_lock, Event,
}
use notipus.Billing.Handlers.{Invoice}
use notipus.Billing.Invoices.{
  paid_invoice, paid_own, failed_invoice, failed_own, apply_payment, activate,
  track_payment_succeeded, track_payment_failed, track_once,
}
use notipus.Billing.Rows.{first_where-update_where}
use notipus.Billing.Convergence.{row_of, row-synced, id_refl}

-- A body that changes nothing changes nothing under the lock.
lock-same :
    {S : Type 0} (lock : LockAttempt) (body : S → S) (s : S)
    → body s ≡ s
    → (stripe_sync_lock lock body s).1 ≡ s
unfolding stripe_sync_lock
lock-same no_client body s h = h
lock-same acquire_failed body s h = h
lock-same acquired body s h = h
lock-same timed_out body s h = refl

-- An update of the row of the customer by its id, seen by the customer.
row-update_own :
    (customer_id : String) (f : Workspace → Workspace) (w : Workspace) (ws : Table)
    → ((v : Workspace) → (f v).stripe_customer_id ≡ v.stripe_customer_id)
    → first_where (of_customer customer_id) ws ≡ some w
    → first_where (of_customer customer_id) (update_where (by_id w.id) f ws) ≡ some (f w)
row-update_own customer_id f w ws keep h =
    first_where-update_where (of_customer customer_id) (by_id w.id) f ws
      (λ v. ap (λ c. str_eq c customer_id) (keep v))
    ∙ rw (h, id_refl w.id)

module _ (c : Cache Marker) (now : ℕ) where
  pub table-track_once :
      (key : Option String) (event : Event) (world : World c.State)
      → (track_once c now key event world).table ≡ world.table
  unfolding track_once
  table-track_once none event world = refl
  table-track_once (some key) event world = refl

  module _ (stripe : Stripe) (customer_id sub_id : String) (invoice : Invoice) (w : Workspace)
      (world : World c.State) (found : row_of customer_id world ≡ some w)
      (known : truthy w.stripe_subscription_id ≡ true) where
    -- The row after an own invoice has been applied.
    row-apply_payment :
        (positive : Bool)
        → row_of customer_id (apply_payment c now stripe positive w invoice world)
          ≡ some (record w {
            subscription_status = if positive then active else w.subscription_status;
            payment_method_added = if positive then true else w.payment_method_added;
          })
    unfolding apply_payment track_payment_succeeded
    row-apply_payment false = found
    row-apply_payment true =
        rw (table-track_once) (row-update_own customer_id activate w world.table (λ v. refl) found)

    -- Where Stripe lists a subscription for the customer, a paid invoice of the recorded subscription,
    -- however late, leaves the workspace as a sync alone would, but for the note that a payment method
    -- exists, which a payment of more than nothing leaves.
    pub late_payment_harmless :
        (sub : Subscription) (subs : List Subscription)
        → stripe customer_id ≡ ok (sub ∷ subs)
        → str_eq sub_id w.stripe_subscription_id ≡ true
        → row_of customer_id (paid_invoice c now stripe (some sub_id) customer_id invoice world)
          ≡ some (record (apply_subscription (get_active_subscription sub subs) w) {
            payment_method_added =
                if is_positive (get_or invoice.amount_paid (pos 0))
                then true
                else w.payment_method_added;
          })
    unfolding paid_invoice paid_own apply_subscription
    late_payment_harmless sub subs answer own =
        let positive = is_positive (get_or invoice.amount_paid (pos 0)) in
        rw (
          found,
          known,
          own,
          row-synced customer_id sub subs stripe _ answer,
          row-apply_payment positive,
        )

    -- A failed invoice of the recorded subscription makes the workspace past due and leaves all else
    -- of its row.
    failed_payment_past_due :
        str_eq sub_id w.stripe_subscription_id ≡ true
        → row_of customer_id (failed_invoice c now stripe (some sub_id) customer_id invoice world)
          ≡ some (record w { subscription_status = past_due })
    unfolding failed_invoice failed_own track_payment_failed
    failed_payment_past_due own =
        rw (found, known, own, table-track_once)
          (row-update_own customer_id (λ v. record v { subscription_status = past_due }) w
            world.table (λ v. refl) found)

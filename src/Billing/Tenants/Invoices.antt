-- ===== src/Billing/Tenants/Invoices.antt =====
-- What the invoice handlers of app/webhooks/services/billing.py leave of the workspaces of other
-- customers.
use notipus.Base.{ℕ, ◌≡◌, refl, String, Option, none, some, Bool-cases, inl, inr, truthy, str_eq}
use mathlib.Core.Option.{get_or}
use notipus.Base.Int.{pos, is_positive}
use notipus.Cache.{Cache}
use notipus.Billing.Workspaces.{Workspace, past_due, first_where, of_customer}
use notipus.Billing.Sync.{Stripe, World, Marker}
use notipus.Billing.Handlers.{Invoice}
use notipus.Billing.Invoices.{
  paid_invoice, paid_own, failed_invoice, failed_own, apply_payment, activate,
  track_payment_succeeded, track_payment_failed,
}
use notipus.Billing.Rows.{UniqueIds, others-update_by_id}
use notipus.Billing.Payments.{table-track_once}
use notipus.Billing.Tenants.{SameOthers, synced-others, update_synced-others}

module _ (c : Cache Marker) (now : ℕ) (customer_id : String) where
  paid_own-others :
      (stripe : Stripe) (sub_id : String) (invoice : Invoice) (found : Option Workspace)
      (world : World c.State)
      → UniqueIds world.table
      → first_where (of_customer customer_id) world.table ≡ found
      → SameOthers customer_id world (paid_own c now stripe customer_id sub_id invoice found world)
  unfolding paid_own apply_payment track_payment_succeeded
  paid_own-others stripe sub_id invoice none world u h = refl
  paid_own-others stripe sub_id invoice (some w) world u h =
      elim (Bool-cases (truthy w.stripe_subscription_id)) [
        | inr unknown ↦ rw unknown (synced-others customer_id stripe world u)
        | inl known ↦ elim (Bool-cases (str_eq sub_id w.stripe_subscription_id)) [
          | inr other ↦ rw (known, other)
          | inl own ↦
              rw (known, own)
                (elim (Bool-cases (is_positive (get_or invoice.amount_paid (pos 0)))) [
                  | inr nothing ↦ rw nothing (synced-others customer_id stripe world u)
                  | inl real ↦ rw real (
                      update_synced-others customer_id stripe activate w world _ (λ v. refl)
                        (λ v. refl) u h (table-track_once c now _ _ _))
                ])
        ]
      ]

  -- If ids are unique, a paid invoice of a customer leaves every workspace of another customer as it
  -- was.
  paid-others :
      (stripe : Stripe) (sub_id : Option String) (invoice : Invoice) (world : World c.State)
      → UniqueIds world.table
      → SameOthers customer_id world (paid_invoice c now stripe sub_id customer_id invoice world)
  unfolding paid_invoice
  paid-others stripe none invoice world u = refl
  paid-others stripe (some sub_id) invoice world u =
      paid_own-others stripe sub_id invoice (first_where (of_customer customer_id) world.table)
        world u refl

  failed_own-others :
      (stripe : Stripe) (sub_id : String) (invoice : Invoice) (found : Option Workspace)
      (world : World c.State)
      → UniqueIds world.table
      → first_where (of_customer customer_id) world.table ≡ found
      → SameOthers customer_id world
          (failed_own c now stripe customer_id sub_id invoice found world)
  unfolding failed_own track_payment_failed
  failed_own-others stripe sub_id invoice none world u h = refl
  failed_own-others stripe sub_id invoice (some w) world u h =
      elim (Bool-cases (truthy w.stripe_subscription_id)) [
        | inr unknown ↦ rw unknown (synced-others customer_id stripe world u)
        | inl known ↦ elim (Bool-cases (str_eq sub_id w.stripe_subscription_id)) [
          | inr other ↦ rw (known, other)
          | inl own ↦
              rw (known, own, table-track_once)
                (others-update_by_id (of_customer customer_id) w
                  (λ v. record v { subscription_status = past_due }) world.table (λ v. refl) u h)
        ]
      ]

  -- If ids are unique, a failed invoice of a customer leaves every workspace of another customer as
  -- it was.
  failed-others :
      (stripe : Stripe) (sub_id : Option String) (invoice : Invoice) (world : World c.State)
      → UniqueIds world.table
      → SameOthers customer_id world (failed_invoice c now stripe sub_id customer_id invoice world)
  unfolding failed_invoice
  failed-others stripe none invoice world u = refl
  failed-others stripe (some sub_id) invoice world u =
      failed_own-others stripe sub_id invoice (first_where (of_customer customer_id) world.table)
        world u refl

  -- If ids are unique, neither a paid nor a failed invoice of a customer changes a workspace of another
  -- customer.
  pub invoice-others :
      (stripe : Stripe) (sub_id : Option String) (invoice : Invoice) (world : World c.State)
      → UniqueIds world.table
      → SameOthers customer_id world (paid_invoice c now stripe sub_id customer_id invoice world)
        × SameOthers customer_id world
            (failed_invoice c now stripe sub_id customer_id invoice world)
  invoice-others stripe sub_id invoice world u =
      (paid-others stripe sub_id invoice world u, failed-others stripe sub_id invoice world u)

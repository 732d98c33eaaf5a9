-- ===== src/Billing/Convergence.antt =====
-- What the subscription handlers of app/webhooks/services/billing.py leave in the row of the
-- workspace, where Stripe lists a subscription for the customer.
use notipus.Base.{
  ℕ, ◌≡◌, refl, ap, ◌∙◌, String, Bool, true, false, not, Option, none, some, List, [], ◌∷◌, ◌++◌,
  ◌&&◌, ◌==◌, arith, ltb, Bool-cases, Option-cases, inl, inr, non_empty, str_eq, truthy,
  if◌then◌else◌,
}
use mathlib.Core.Option
use mathlib.Core.Option.{get_or}
use notipus.Base.Call.{ok}
use notipus.Billing.Workspaces.{
  Workspace, Table, cancelled, update_where, first_where, count_where, of_customer,
}
use notipus.Billing.Sync.{
  Stripe, Subscription, World, subscription_cancelled, by_id, synced, sync_workspace_from_stripe,
  sync_first, sync_found, subscriptions_of, get_active_subscription, apply_subscription,
}
use notipus.Billing.Handlers.{
  SubscriptionEvent, write_subscription, unclaimed, claim_subscription_id, sync_if_found,
  subscription_changed, subscription_deleted, cancel_own,
}
use notipus.Billing.Rows.{first_where-update_where, first_where-found, count_where-found}

count_where-none :
    (p : Workspace → Bool) (ws : Table) → first_where p ws ≡ none → ltb 0 (count_where p ws) ≡ false
unfolding first_where count_where
count_where-none p [] h = ground arith
count_where-none p (v ∷ ws) h = ground (arith, count_where-none p ws)

pub id_refl : (n : ℕ) → (n == n) ≡ true
id_refl n = ground arith

-- The workspace of a customer.
abbrev pub row_of : {S : Type 0} → String → World S → Option Workspace
row_of customer_id world = first_where (of_customer customer_id) world.table

module _ {S : Type 0} (customer_id : String) (sub : Subscription) (subs : List Subscription) where
  row-sync_first :
      (found : Option Workspace) (world : World S)
      → row_of customer_id world ≡ found
      → row_of customer_id (sync_first found (sub ∷ subs) world).1
        ≡ Option.map (apply_subscription (get_active_subscription sub subs)) found
  unfolding sync_first sync_found apply_subscription
  row-sync_first none world h = h
  row-sync_first (some w) world h =
      first_where-update_where (of_customer customer_id) (by_id w.id)
        (apply_subscription (get_active_subscription sub subs)) world.table (λ v. refl)
      ∙ rw (h, id_refl w.id)

  -- A sync brings the row to what the subscription says.
  pub row-synced :
      (stripe : Stripe) (world : World S)
      → stripe customer_id ≡ ok (sub ∷ subs)
      → row_of customer_id (synced stripe customer_id world)
        ≡ Option.map
            (apply_subscription (get_active_subscription sub subs))
            (row_of customer_id world)
  unfolding sync_workspace_from_stripe subscriptions_of
  row-synced stripe world answer =
      ap
        (λ a.
          row_of customer_id (sync_first (row_of customer_id world) (subscriptions_of a) world).1)
        answer
      ∙ row-sync_first (row_of customer_id world) world refl

-- An update of a customer's rows, seen by the customer.
row-update :
    (customer_id : String) (f : Workspace → Workspace) (ws : Table)
    → ((w : Workspace) → (f w).stripe_customer_id ≡ w.stripe_customer_id)
    → first_where (of_customer customer_id) (update_where (of_customer customer_id) f ws)
      ≡ Option.map f (first_where (of_customer customer_id) ws)
row-update customer_id f ws keep =
    first_where-update_where (of_customer customer_id) (of_customer customer_id) f ws
      (λ w. ap (λ c. str_eq c customer_id) (keep w))
    ∙ elim (Option-cases (first_where (of_customer customer_id) ws)) [
      | inl missing ↦ rw (missing)
      | inr (w, found) ↦ rw (found, first_where-found (of_customer customer_id) ws w found)
    ]

write-keeps :
    (event : SubscriptionEvent) (w : Workspace)
    → (write_subscription event w).stripe_customer_id ≡ w.stripe_customer_id
unfolding write_subscription
write-keeps event w = refl

-- The row after a claim differs at most in its subscription id.
row-claim :
    (customer_id : String) (sub_id : Option String) (w : Workspace) (ws : Table)
    → first_where (of_customer customer_id) ws ≡ some w
    → (id : String) × (first_where
          (of_customer customer_id)
          (claim_subscription_id customer_id sub_id ws)
        ≡ some (record w { stripe_subscription_id = id }))
unfolding claim_subscription_id
row-claim customer_id none w ws h = (w.stripe_subscription_id, h)
row-claim customer_id (some sub_id) w ws h = (
  if unclaimed customer_id w then sub_id else w.stripe_subscription_id,
  first_where-update_where (of_customer customer_id) (unclaimed customer_id)
        (λ v. record v { stripe_subscription_id = sub_id }) ws (λ v. refl)
      ∙ rw h (ground arith),
)

module _ {S : Type 0} (customer_id : String) (sub : Subscription) (subs : List Subscription)
    (stripe : Stripe) (world : World S) (answer : stripe customer_id ≡ ok (sub ∷ subs)) where
  overwritten :
      (event : SubscriptionEvent) (w : Workspace) (written id : String) (period_end : ℕ)
      → non_empty (get_active_subscription sub subs).id ≡ some id
      → (get_active_subscription sub subs).current_period_end ≡ some period_end
      → apply_subscription
          (get_active_subscription sub subs)
          (record (write_subscription event w) { stripe_subscription_id = written })
        ≡ apply_subscription (get_active_subscription sub subs) w
  unfolding apply_subscription write_subscription
  overwritten event w written id period_end has_id has_end = rw (has_id, has_end)

  -- Where Stripe lists a subscription for the customer, and the one to follow has an id and the end
  -- of a period, a created or updated event leaves the customer's workspace as a sync alone would,
  -- whatever the event says.
  pub stale_change_harmless :
      (event : SubscriptionEvent) (id : String) (period_end : ℕ)
      → non_empty (get_active_subscription sub subs).id ≡ some id
      → (get_active_subscription sub subs).current_period_end ≡ some period_end
      → row_of customer_id (subscription_changed stripe customer_id event world)
        ≡ row_of customer_id (synced stripe customer_id world)
  unfolding subscription_changed sync_if_found
  stale_change_harmless event id period_end has_id has_end =
      let table = update_where (of_customer customer_id) (write_subscription event) world.table in
      elim (Option-cases (row_of customer_id world)) [
        | inl missing ↦ rw (
          count_where-none (of_customer customer_id) world.table missing,
          row-update customer_id (write_subscription event) world.table (write-keeps event),
          row-synced customer_id sub subs stripe world answer,
          missing,
        )
        | inr (w, found) ↦
            let (written, claimed) =
              row-claim customer_id (non_empty event.id) (write_subscription event w) table (
                row-update customer_id (write_subscription event) world.table (write-keeps event)
                ∙ ap (Option.map (write_subscription event)) found) in
            rw
              (
                count_where-found (of_customer customer_id) world.table w found,
                row-synced customer_id sub subs stripe
                    (record world {
                      table = claim_subscription_id customer_id (non_empty event.id) table;
                    })
                    answer,
                claimed,
                row-synced customer_id sub subs stripe world answer,
                found,
              )
              (ap some (overwritten event w written id period_end has_id has_end))
      ]

  cancel_own-row :
      (deleted_id : Option String) (found : Option Workspace)
      → row_of customer_id world ≡ found
      → row_of customer_id (cancel_own stripe customer_id deleted_id found world)
        ≡ row_of customer_id (synced stripe customer_id world)
  unfolding cancel_own apply_subscription
  cancel_own-row none none h = rw (row-synced customer_id sub subs stripe world answer, h)
  cancel_own-row (some id) none h = rw (row-synced customer_id sub subs stripe world answer, h)
  cancel_own-row none (some w) h = refl
  cancel_own-row (some id) (some w) h =
      elim (Bool-cases
        (truthy w.stripe_subscription_id && not (str_eq id w.stripe_subscription_id))) [
          | inl other ↦ rw other
          | inr own ↦ rw (
            own,
            row-synced customer_id sub subs stripe
                (record world {
                  table =
                      update_where (by_id w.id) (λ v. record v { subscription_status = cancelled })
                        world.table;
                  sent = world.sent ++ subscription_cancelled w.id w.subscription_plan ∷ [];
                })
                answer,
            first_where-update_where (of_customer customer_id) (by_id w.id)
                (λ v. record v { subscription_status = cancelled }) world.table (λ v. refl),
            row-synced customer_id sub subs stripe world answer,
            h,
            id_refl w.id,
          )
        ]

  -- Where Stripe lists a subscription for the customer, a deleted event, whichever subscription it
  -- names, leaves the customer's workspace as a sync alone would.
  pub stale_deletion_harmless :
      (event : SubscriptionEvent)
      → row_of customer_id (subscription_deleted stripe customer_id event world)
        ≡ row_of customer_id (synced stripe customer_id world)
  unfolding subscription_deleted
  stale_deletion_harmless event =
      cancel_own-row (non_empty event.id) (row_of customer_id world) refl

-- ===== src/Billing/Tenants.antt =====
-- What the handlers of app/webhooks/services/billing.py leave of the workspaces of other customers.
pub mod Invoices
use notipus.Base.{
  ℕ, ◌≡◌, refl, ap, ◌∙◌, String, Bool, true, false, not, ◌&&◌, Option, none, some, List, [], ◌∷◌,
  ltb, Bool-cases, inl, inr, truthy, str_eq, non_empty,
}
use mathlib.Core.Option.{get_or}
use notipus.Base.Int.{pos, is_positive}
use notipus.Cache.{Cache}
use notipus.Billing.Workspaces.{
  Workspace, Table, cancelled, past_due, update_where, first_where, count_where, of_customer,
}
use notipus.Billing.Sync.{
  Stripe, Subscription, World, by_id, synced, sync_workspace_from_stripe, sync_first, sync_found,
  subscriptions_of, get_active_subscription, apply_subscription, Marker,
}
use notipus.Billing.Handlers.{
  SubscriptionEvent, write_subscription, unclaimed, claim_subscription_id, sync_if_found,
  subscription_changed, subscription_deleted, cancel_own, Invoice,
}
use notipus.Billing.Invoices.{
  paid_invoice, paid_own, failed_invoice, failed_own, apply_payment, activate,
  track_payment_succeeded, track_payment_failed,
}
use notipus.Billing.Rows.{
  UniqueIds, others, UniqueIds-update_where, others-update_where, others-update_by_id,
}
use notipus.Billing.Payments.{table-track_once}

-- The rows of every other customer are the same before and after.
abbrev pub SameOthers : {S : Type 0} → String → World S → World S → Type 0
SameOthers customer_id world world' =
    others (of_customer customer_id) world'.table ≡ others (of_customer customer_id) world.table

module _ (customer_id : String) where
  -- An update of rows of the customer only.
  others-update_within :
      (q : Workspace → Bool) (f : Workspace → Workspace) (ws : Table)
      → ((w : Workspace) → of_customer customer_id w ≡ false → q w ≡ false)
      → ((w : Workspace) → (f w).stripe_customer_id ≡ w.stripe_customer_id)
      → others (of_customer customer_id) (update_where q f ws) ≡ others (of_customer customer_id) ws
  unfolding update_where
  others-update_within q f [] within keep = refl
  others-update_within q f (w ∷ ws) within keep = elim (Bool-cases (of_customer customer_id w)) [
    | inl hit ↦ elim (Bool-cases (q w)) [
      | inl touched ↦ rw (touched, hit, keep w, hit) (others-update_within q f ws within keep)
      | inr kept ↦ rw (kept, hit) (others-update_within q f ws within keep)
    ]
    | inr miss ↦
        rw (within w miss, miss) (ap (λ l. w ∷ l) (others-update_within q f ws within keep))
  ]

  claim-others :
      (sub_id : Option String) (ws : Table)
      → others (of_customer customer_id) (claim_subscription_id customer_id sub_id ws)
        ≡ others (of_customer customer_id) ws
  unfolding claim_subscription_id
  claim-others none ws = refl
  claim-others (some sub_id) ws =
      others-update_within (unclaimed customer_id)
        (λ w. record w { stripe_subscription_id = sub_id }) ws (λ w miss. rw miss) (λ w. refl)

  claim-UniqueIds :
      (sub_id : Option String) (ws : Table)
      → UniqueIds ws
      → UniqueIds (claim_subscription_id customer_id sub_id ws)
  unfolding claim_subscription_id
  claim-UniqueIds none ws u = u
  claim-UniqueIds (some sub_id) ws u =
      UniqueIds-update_where (unclaimed customer_id)
        (λ w. record w { stripe_subscription_id = sub_id }) ws (λ w. refl) u

module _ {S : Type 0} (customer_id : String) where
  sync_found-others :
      (subs : List Subscription) (w : Workspace) (world : World S)
      → UniqueIds world.table
      → first_where (of_customer customer_id) world.table ≡ some w
      → SameOthers customer_id world (sync_found w subs world).1
  unfolding sync_found apply_subscription
  sync_found-others [] w world u h = refl
  sync_found-others (sub ∷ subs) w world u h =
      others-update_by_id (of_customer customer_id) w
        (apply_subscription (get_active_subscription sub subs)) world.table (λ v. refl) u h

  sync_first-others :
      (subs : List Subscription) (found : Option Workspace) (world : World S)
      → UniqueIds world.table
      → first_where (of_customer customer_id) world.table ≡ found
      → SameOthers customer_id world (sync_first found subs world).1
  unfolding sync_first
  sync_first-others subs none world u h = refl
  sync_first-others subs (some w) world u h = sync_found-others subs w world u h

  pub synced-others :
      (stripe : Stripe) (world : World S)
      → UniqueIds world.table
      → SameOthers customer_id world (synced stripe customer_id world)
  unfolding sync_workspace_from_stripe
  synced-others stripe world u =
      sync_first-others (subscriptions_of (stripe customer_id))
        (first_where (of_customer customer_id) world.table) world u refl

  -- An update of one row of the customer, followed by a sync.
  pub update_synced-others :
      (stripe : Stripe) (f : Workspace → Workspace) (w : Workspace) (world written : World S)
      → ((v : Workspace) → (f v).id ≡ v.id)
      → ((v : Workspace) → (f v).stripe_customer_id ≡ v.stripe_customer_id)
      → UniqueIds world.table
      → first_where (of_customer customer_id) world.table ≡ some w
      → written.table ≡ update_where (by_id w.id) f world.table
      → SameOthers customer_id world (synced stripe customer_id written)
  update_synced-others stripe f w world written same_id same_customer u h e =
      synced-others stripe written
        (rw e (UniqueIds-update_where (by_id w.id) f world.table same_id u))
      ∙ rw e (
          others-update_by_id (of_customer customer_id) w f world.table (λ v. rw (same_customer v))
            u h)

  cancel_own-others :
      (stripe : Stripe) (deleted_id : Option String) (found : Option Workspace) (world : World S)
      → UniqueIds world.table
      → first_where (of_customer customer_id) world.table ≡ found
      → SameOthers customer_id world (cancel_own stripe customer_id deleted_id found world)
  unfolding cancel_own
  cancel_own-others stripe none none world u h = refl
  cancel_own-others stripe (some id) none world u h = refl
  cancel_own-others stripe none (some w) world u h = synced-others stripe world u
  cancel_own-others stripe (some id) (some w) world u h =
      elim (Bool-cases
        (truthy w.stripe_subscription_id && not (str_eq id w.stripe_subscription_id))) [
          | inl other ↦ rw other (synced-others stripe world u)
          | inr own ↦ rw own (
              update_synced-others stripe (λ v. record v { subscription_status = cancelled }) w
                world _ (λ v. refl) (λ v. refl) u h refl)
        ]

  -- If ids are unique, a deleted event of a customer leaves every workspace of another customer as it
  -- was.
  deleted-others :
      (stripe : Stripe) (event : SubscriptionEvent) (world : World S)
      → UniqueIds world.table
      → SameOthers customer_id world (subscription_deleted stripe customer_id event world)
  unfolding subscription_deleted
  deleted-others stripe event world u =
      cancel_own-others stripe (non_empty event.id)
        (first_where (of_customer customer_id) world.table) world u refl

  sync_if_found-others :
      (stripe : Stripe) (found : Bool) (world written : World S)
      → UniqueIds written.table
      → SameOthers customer_id world written
      → SameOthers customer_id world (sync_if_found stripe customer_id found written)
  unfolding sync_if_found
  sync_if_found-others stripe true world written u same = synced-others stripe written u ∙ same
  sync_if_found-others stripe false world written u same = same

  -- If ids are unique, a created or updated event of a customer leaves every workspace of another
  -- customer as it was.
  changed-others :
      (stripe : Stripe) (event : SubscriptionEvent) (world : World S)
      → UniqueIds world.table
      → SameOthers customer_id world (subscription_changed stripe customer_id event world)
  unfolding subscription_changed write_subscription
  changed-others stripe event world u =
      let table = update_where (of_customer customer_id) (write_subscription event) world.table in
      let unique =
        UniqueIds-update_where (of_customer customer_id) (write_subscription event) world.table
          (λ w. refl) u in
      let same =
        others-update_where (of_customer customer_id) (write_subscription event) world.table
          (λ w. refl) in
      elim (Bool-cases (ltb 0 (count_where (of_customer customer_id) world.table))) [
        | inl found ↦ rw found (
            sync_if_found-others stripe true world _
              (claim-UniqueIds customer_id (non_empty event.id) table unique)
              (claim-others customer_id (non_empty event.id) table ∙ same))
        | inr none_found ↦
            rw none_found
              (sync_if_found-others stripe false world (record world { table = table }) unique same)
      ]

  -- If ids are unique, neither a created or updated nor a deleted event of a customer changes a
  -- workspace of another customer.
  pub subscription_event-others :
      (stripe : Stripe) (event : SubscriptionEvent) (world : World S)
      → UniqueIds world.table
      → SameOthers customer_id world (subscription_changed stripe customer_id event world)
        × SameOthers customer_id world (subscription_deleted stripe customer_id event world)
  subscription_event-others stripe event world u =
      (changed-others stripe event world u, deleted-others stripe event world u)

-- ===== src/Billing/Handlers.antt =====
-- The webhook handlers of `BillingService` in app/webhooks/services/billing.py. A payload has the
-- fields that the handlers read; a field that may be absent is optional.
use notipus.Base.{
  ℕ, ◌+◌, String, Bool, true, false, ◌&&◌, ◌||◌, not, Option, none, some, List, [], ◌∷◌, ◌++◌, ◌==◌,
  ltb, leb, str_eq, truthy, non_empty, if◌then◌else◌,
}
use mathlib.Core.Option.{get_or}
use notipus.Base.Int.{ℤ}
use notipus.Base.Call.{Outcome, ok}
use notipus.Billing.Workspaces.{
  Workspace, Table, active, cancelled, update_where, count_where, first_where, of_customer,
}
use notipus.Billing.Plans.{map_stripe_status, normalize_plan_name, codes}
use notipus.Billing.Sync.{
  Stripe, World, subscription_cancelled, or_else, by_id, synced, LockAttempt, StripeSyncLockTimeout,
  stripe_sync_lock,
}

pub record SubscriptionEvent : Type 0 where
  pub customer : Option String
  pub id : Option String
  pub status : Option String
  pub current_period_end : Option ℕ

-- `invoice["subscription"]`: absent, an id, or an expanded object with its id.
pub data InvoiceSubscription : Type 0 where
  absent : InvoiceSubscription
  id_text : String → InvoiceSubscription
  expanded : Option String → InvoiceSubscription

-- `attempt_count` is given as its text.
pub record Invoice : Type 0 where
  pub id : Option String
  pub customer : Option String
  pub subscription : InvoiceSubscription
  pub amount_paid : Option ℤ
  pub amount_due : Option ℤ
  pub attempt_count : Option String

pub record CheckoutSession : Type 0 where
  pub customer : Option String
  pub workspace_id : Option ℕ
  pub organization_id : Option ℕ
  pub plan_name : Option String
  pub subscription : Option String
  pub ga_client_id : Option String

-- `_extract_invoice_subscription_id`
unfoldable pub extract_invoice_subscription_id : InvoiceSubscription → Option String
extract_invoice_subscription_id absent = none
extract_invoice_subscription_id (id_text id) = non_empty (some id)
extract_invoice_subscription_id (expanded id) = non_empty id

-- The status and the anchor that a subscription event writes.
unfoldable pub write_subscription : SubscriptionEvent → Workspace → Workspace
write_subscription event w = record w {
  subscription_status = map_stripe_status (get_or event.status "active");
  billing_cycle_anchor = or_else event.current_period_end w.billing_cycle_anchor;
}

-- A row of the customer that has no subscription id yet.
abbrev pub unclaimed : String → Workspace → Bool
unclaimed customer_id w = of_customer customer_id w && str_eq w.stripe_subscription_id ""

unfoldable pub claim_subscription_id : String → Option String → Table → Table
claim_subscription_id customer_id none table = table
claim_subscription_id customer_id (some sub_id) table =
    update_where (unclaimed customer_id) (λ w. record w { stripe_subscription_id = sub_id }) table

abbrev pub digit : ℕ → Bool
digit c = leb b'0' c && leb c b'9'

-- The digits at the beginning, how many they are, and what follows.
unfoldable pub digit_run : List ℕ → ℕ × List ℕ
digit_run [] = (0, [])
digit_run (x ∷ xs) = let (n, rest) = digit_run xs in if digit x then (n + 1, rest) else (0, x ∷ xs)

-- `$` matches at the end and before a last newline.
abbrev pub at_end : List ℕ → Bool
at_end [] = true
at_end (x ∷ []) = x == 10
at_end (x ∷ y ∷ xs) = false

unfoldable pub fraction_ok : List ℕ → Bool
unfolding digit_run
fraction_ok [] = false
fraction_ok (x ∷ xs) =
    let (n, rest) = digit_run xs in x == b'.' && leb 1 n && leb n 20 && at_end rest

-- `is_valid_client_id` of app/core/analytics.py, the pattern `^[0-9]{1,20}\.[0-9]{1,20}$`.
unfoldable pub is_valid_client_id : String → Bool
unfolding fraction_ok
is_valid_client_id value =
    let (n, rest) = digit_run (codes value) in leb 1 n && leb n 20 && fraction_ok rest

-- What a completed checkout writes. A plan name or a client id that is not well formed is ignored.
unfoldable pub plan_of_metadata : Option String → Option String
plan_of_metadata raw_plan_name = elim (non_empty raw_plan_name) [
  | none ↦ none
  | some name ↦ normalize_plan_name name
]

unfoldable pub client_id_of_metadata : Option String → Option String
client_id_of_metadata ga_client_id = elim (non_empty ga_client_id) [
  | none ↦ none
  | some id ↦ if is_valid_client_id id then some id else none
]

unfoldable pub write_checkout : CheckoutSession → Workspace → Workspace
write_checkout session w = record w {
  subscription_status = active;
  payment_method_added = true;
  subscription_plan = get_or (plan_of_metadata session.plan_name) w.subscription_plan;
  stripe_subscription_id = get_or (non_empty session.subscription) w.stripe_subscription_id;
  ga4_client_id = get_or (client_id_of_metadata session.ga_client_id) w.ga4_client_id;
}

-- A genuine checkout matches the workspace by its id and by its customer, if it has one.
abbrev pub claimable : ℕ → String → Workspace → Bool
claimable workspace_id customer_id w =
    by_id workspace_id w && (of_customer customer_id w || str_eq w.stripe_customer_id "")

unfoldable pub rows_of_checkout : Option ℕ → String → Workspace → Bool
rows_of_checkout (some workspace_id) customer_id w = claimable workspace_id customer_id w
rows_of_checkout none customer_id w = of_customer customer_id w

module _ {S : Type 0} (stripe : Stripe) where
  -- Only where rows were changed does the sync follow.
  unfoldable pub sync_if_found : String → Bool → World S → World S
  sync_if_found customer_id true world = synced stripe customer_id world
  sync_if_found customer_id false world = world

  unfoldable pub subscription_changed : String → SubscriptionEvent → World S → World S
  unfolding sync_if_found
  subscription_changed customer_id event world =
      let table = update_where (of_customer customer_id) (write_subscription event) world.table in
      let found = ltb 0 (count_where (of_customer customer_id) world.table) in
      sync_if_found customer_id found (record world {
        table =
            if found then claim_subscription_id customer_id (non_empty event.id) table else table;
      })

  unfoldable pub cancel_own : String → Option String → Option Workspace → World S → World S
  cancel_own customer_id deleted_sub_id none world = world
  cancel_own customer_id none (some w) world = synced stripe customer_id world
  cancel_own customer_id (some deleted_sub_id) (some w) world =
      if truthy w.stripe_subscription_id && not (str_eq deleted_sub_id w.stripe_subscription_id)
      then synced stripe customer_id world
      else synced stripe customer_id (record world {
        table =
            update_where (by_id w.id) (λ v. record v { subscription_status = cancelled })
              world.table;
        sent = world.sent ++ subscription_cancelled w.id w.subscription_plan ∷ [];
      })

  unfoldable pub subscription_deleted : String → SubscriptionEvent → World S → World S
  unfolding cancel_own
  subscription_deleted customer_id event world =
      cancel_own customer_id (non_empty event.id)
        (first_where (of_customer customer_id) world.table) world

  -- A row that matches by its customer keeps its customer.
  unfoldable pub checkout_completed : String → CheckoutSession → World S → World S
  unfolding rows_of_checkout
  checkout_completed customer_id session world =
      let workspace_id = or_else session.workspace_id session.organization_id in
      let rows = rows_of_checkout workspace_id customer_id in
      sync_if_found customer_id (ltb 0 (count_where rows world.table)) (record world {
        table =
            update_where rows
              (λ w. record (write_checkout session w) { stripe_customer_id = customer_id })
              world.table;
      })

-- A handler returns early where the payload names no customer; its body runs under the lock.
unfoldable pub locked :
    {S : Type 0}
    → LockAttempt
    → Option String
    → (String → S → S)
    → S
    → Outcome StripeSyncLockTimeout (Unit {0}) × S
locked lock none body s = (ok tt, s)
locked lock (some customer_id) body s = stripe_sync_lock lock (body customer_id) s

module _ {S : Type 0} (stripe : Stripe) (lock : LockAttempt) where
  unfoldable pub handle_subscription_created :
      SubscriptionEvent → World S → Outcome StripeSyncLockTimeout (Unit {0}) × World S
  unfolding locked
  handle_subscription_created event =
      locked lock (non_empty event.customer) (λ c. subscription_changed stripe c event)

  unfoldable pub handle_subscription_updated :
      SubscriptionEvent → World S → Outcome StripeSyncLockTimeout (Unit {0}) × World S
  unfolding locked
  handle_subscription_updated event =
      locked lock (non_empty event.customer) (λ c. subscription_changed stripe c event)

  unfoldable pub handle_subscription_deleted :
      SubscriptionEvent → World S → Outcome StripeSyncLockTimeout (Unit {0}) × World S
  unfolding locked
  handle_subscription_deleted event =
      locked lock (non_empty event.customer) (λ c. subscription_deleted stripe c event)

  unfoldable pub handle_checkout_completed :
      CheckoutSession → World S → Outcome StripeSyncLockTimeout (Unit {0}) × World S
  unfolding locked
  handle_checkout_completed session =
      locked lock (non_empty session.customer) (λ c. checkout_completed stripe c session)

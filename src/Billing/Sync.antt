-- ===== src/Billing/Sync.antt =====
-- `sync_workspace_from_stripe` of app/webhooks/services/billing.py, and the state that the handlers
-- work on. What Stripe answers is a parameter.
use notipus.Base.{
  ℕ, ◌*◌, String, Bool, true, false, Option, none, some, List, [], ◌∷◌, ◌++◌, ◌==◌, str_eq,
  contains, non_empty, concat, if◌then◌else◌,
}
use mathlib.Core.Option.{get_or}
use notipus.Base.Int.{ℤ}
use notipus.Base.Call.{Outcome, ok, raised}
use notipus.Cache.{Cache, CacheError, add}
use notipus.Billing.Workspaces.{Workspace, Table, update_where, first_where, of_customer}
use notipus.Billing.Plans.{Item, map_stripe_status, extract_plan_name}

-- A subscription, as `get_customer_subscriptions` of app/core/services/stripe.py returns it.
pub record Subscription : Type 0 where
  pub status : String
  pub id : Option String
  pub current_period_end : Option ℕ
  pub trial_end : Option ℕ
  pub items : List Item

pub data StripeError : Type 0 where
  api_error : StripeError

-- What the Stripe API answers when a customer's subscriptions are listed.
abbrev pub Stripe : Type 0
Stripe = String → Outcome StripeError (List Subscription)

-- `get_customer_subscriptions` without `raise_on_error`: an error is an empty list.
unfoldable pub subscriptions_of : Outcome StripeError (List Subscription) → List Subscription
subscriptions_of (ok subs) = subs
subscriptions_of (raised e) = []

-- The GA4 events that are sent, each with the workspace's id and the amount in minor units.
pub data Event : Type 0 where
  plan_change : ℕ → String → String → Event
  subscription_cancelled : ℕ → String → Event
  payment_succeeded : ℕ → String → ℤ → Option String → Event
  payment_failed : ℕ → String → ℤ → Option String → Option String → Event

-- The rows, the events sent so far, and the cache that tells repeated deliveries apart.
pub record World (S : Type 0) : Type 0 where
  pub table : Table
  pub sent : List Event
  pub ga4 : S

-- `x or y`, where 0 counts as nothing.
unfoldable pub non_zero : Option ℕ → Option ℕ
non_zero none = none
non_zero (some t) = if t == 0 then none else some t

abbrev pub or_else {ℓ} : {A : Type ℓ} → Option A → Option A → Option A
or_else (some a) o = some a
or_else none o = o

abbrev pub live_statuses : List String
live_statuses = "active" ∷ "trialing" ∷ "past_due" ∷ []

-- The first live subscription.
unfoldable pub first_live : List Subscription → Option Subscription
first_live [] = none
first_live (sub ∷ subs) = if contains sub.status live_statuses then some sub else first_live subs

-- `_get_active_subscription`, of a list that is not empty.
unfoldable pub get_active_subscription : Subscription → List Subscription → Subscription
unfolding first_live
get_active_subscription sub subs = get_or (first_live (sub ∷ subs)) sub

-- `trial_end` is authoritative, `current_period_end` the fallback.
unfoldable pub trial_end_of : Subscription → Option ℕ
unfolding non_zero
trial_end_of sub = non_zero (or_else (non_zero sub.trial_end) sub.current_period_end)

-- The update of a workspace by a subscription: what the subscription does not say is kept.
unfoldable pub apply_subscription : Subscription → Workspace → Workspace
apply_subscription sub w = record w {
  subscription_status = map_stripe_status sub.status;
  subscription_plan = get_or (extract_plan_name sub.items) w.subscription_plan;
  stripe_subscription_id = get_or (non_empty sub.id) w.stripe_subscription_id;
  billing_cycle_anchor = or_else sub.current_period_end w.billing_cycle_anchor;
  trial_end_date =
      if str_eq sub.status "trialing"
      then or_else (trial_end_of sub) w.trial_end_date
      else w.trial_end_date;
}

abbrev pub by_id : ℕ → Workspace → Bool
by_id id w = w.id == id

-- A plan that has changed is reported.
unfoldable pub track_plan_change : Workspace → Option String → List Event → List Event
track_plan_change w none sent = sent
track_plan_change w (some plan_name) sent =
    if str_eq plan_name w.subscription_plan
    then sent
    else sent ++ plan_change w.id w.subscription_plan plan_name ∷ []

module _ {S : Type 0} where
  unfoldable pub sync_found : Workspace → List Subscription → World S → Bool × World S
  sync_found w [] world = (true, world)
  sync_found w (sub ∷ subs) world =
      let active_sub = get_active_subscription sub subs in
      (
        true,
        record world {
          table = update_where (by_id w.id) (apply_subscription active_sub) world.table;
          sent = track_plan_change w (extract_plan_name active_sub.items) world.sent;
        },
      )

  unfoldable pub sync_first : Option Workspace → List Subscription → World S → Bool × World S
  unfolding sync_found
  sync_first none subs world = (false, world)
  sync_first (some w) subs world = sync_found w subs world

  unfoldable pub sync_workspace_from_stripe : Stripe → String → World S → Bool × World S
  unfolding sync_first
  sync_workspace_from_stripe stripe customer_id world =
      sync_first (first_where (of_customer customer_id) world.table)
        (subscriptions_of (stripe customer_id)) world

  abbrev pub synced : Stripe → String → World S → World S
  synced stripe customer_id world = (sync_workspace_from_stripe stripe customer_id world).1

-- `stripe_sync_lock`: without a client, or if Redis fails, the body runs unlocked.
pub data LockAttempt : Type 0 where
  no_client acquire_failed acquired timed_out : LockAttempt

pub data StripeSyncLockTimeout : Type 0 where
  lock_timeout : StripeSyncLockTimeout

unfoldable pub stripe_sync_lock :
    {S : Type 0} → LockAttempt → (S → S) → S → Outcome StripeSyncLockTimeout (Unit {0}) × S
stripe_sync_lock timed_out body s = (raised lock_timeout, s)
stripe_sync_lock _ body s = (ok tt, body s)

abbrev pub ga4_dedup_ttl_seconds : ℕ
ga4_dedup_ttl_seconds = 60 * 60 * 24 * 7

pub data Marker : Type 0 where
  marker : Marker

-- `_first_ga4_delivery` fails open.
unfoldable pub claimed : Outcome CacheError Bool → Bool
claimed (ok first) = first
claimed (raised e) = true

unfoldable pub first_ga4_delivery : (c : Cache Marker) → ℕ → String → c.State → Bool × c.State
unfolding claimed
first_ga4_delivery c now dedup_key s =
    let (r, s') =
      add c now (concat ("ga4_billing:" ∷ dedup_key ∷ [])) marker ga4_dedup_ttl_seconds s in
    (claimed r, s')

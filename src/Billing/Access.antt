-- ===== src/Billing/Access.antt =====
-- Which Stripe statuses make a workspace active: `map_stripe_status` and `Workspace.is_active`.
use notipus.Base.{◌≡◌, ◌||◌, arith, str_eq}
use notipus.Billing.Workspaces.{Workspace, is_active}
use notipus.Billing.Plans.{map_stripe_status}
use notipus.Billing.Sync.{Subscription, apply_subscription}

-- A workspace that is updated by a subscription is active exactly if the subscription's status is
-- "active" or "trialing"; under any other status, known or not, it is not.
synced_active :
    (sub : Subscription) (w : Workspace)
    → is_active (apply_subscription sub w)
      ≡ (str_eq "active" sub.status || str_eq "trialing" sub.status)
unfolding is_active apply_subscription map_stripe_status
synced_active sub w = ground arith

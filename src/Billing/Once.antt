-- ===== src/Billing/Once.antt =====
-- The GA4 payment event over repeated deliveries: `_first_ga4_delivery` and `_track_payment_succeeded`
-- of app/webhooks/services/billing.py.
use notipus.Base.{
  ℕ, ◌+◌, ◌<◌, ◌≡◌, ap, sym, ◌∙◌, String, true, false, none, some, [], ◌∷◌, ◌++◌, lt→ltb, non_empty,
  concat, eq_refl,
}
use mathlib.Core.Option.{get_or}
use notipus.Base.Int.{pos}
use notipus.Cache.{Cache, add-up}
use notipus.Billing.Workspaces.{Workspace}
use notipus.Billing.Sync.{World, payment_succeeded, Marker, marker, first_ga4_delivery, claimed}
use notipus.Billing.Handlers.{Invoice}
use notipus.Billing.Invoices.{track_once, track_payment_succeeded, succeeded_key}

-- The key of the marker in the cache.
abbrev pub marker_key : String → String
marker_key dedup_key = concat ("ga4_billing:" ∷ dedup_key ∷ [])

abbrev pub payment_key : String → String
payment_key id = marker_key (concat ("payment_succeeded:" ∷ id ∷ []))

module _ (c : Cache Marker) where
  delivery-first :
      (now : ℕ) (key : String) (s : c.State)
      → c.up s now ≡ true
      → c.peek s now (marker_key key) ≡ none
      → first_ga4_delivery c now key s ≡ (true, c.store s now (marker_key key) marker 604800)
  unfolding first_ga4_delivery claimed
  delivery-first now key s u h = rw (add-up c now (marker_key key) marker 604800 u, h)

  delivery-again :
      (now : ℕ) (key : String) (m : Marker) (s : c.State)
      → c.up s now ≡ true
      → c.peek s now (marker_key key) ≡ some m
      → first_ga4_delivery c now key s ≡ (false, s)
  unfolding first_ga4_delivery claimed
  delivery-again now key m s u h = rw (add-up c now (marker_key key) marker 604800 u, h)

  reported :
      (now : ℕ) (w : Workspace) (invoice : Invoice) (id : String) (world : World c.State)
      → non_empty invoice.id ≡ some id
      → c.up world.ga4 now ≡ true
      → c.peek world.ga4 now (payment_key id) ≡ none
      → track_payment_succeeded c now w invoice world ≡ record world {
        sent =
            world.sent
            ++ payment_succeeded w.id w.subscription_plan
                (get_or invoice.amount_paid (pos 0))
                (some id)
              ∷ [];
        ga4 = c.store world.ga4 now (payment_key id) marker 604800;
      }
  unfolding track_payment_succeeded track_once succeeded_key
  reported now w invoice id world named up unseen =
      rw (named, delivery-first now (concat ("payment_succeeded:" ∷ id ∷ [])) world.ga4 up unseen)

  -- If a payment was not reported before, and the cache answers, two deliveries of its invoice within
  -- seven days report it once.
  pub payment_reported_once :
      (now t : ℕ) (w v : Workspace) (invoice : Invoice) (id : String)
      (world between : World c.State)
      → non_empty invoice.id ≡ some id
      → c.up world.ga4 now ≡ true
      → c.peek world.ga4 now (payment_key id) ≡ none
      → track_payment_succeeded c now w invoice world ≡ between
      → c.up between.ga4 t ≡ true
      → t < now + 604800
      → (track_payment_succeeded c t v invoice between).sent
        ≡ world.sent
          ++ payment_succeeded w.id w.subscription_plan
              (get_or invoice.amount_paid (pos 0))
              (some id)
            ∷ []
  unfolding track_payment_succeeded track_once succeeded_key
  payment_reported_once now t w v invoice id world between named up unseen first up' soon =
      let eq = sym first ∙ reported now w invoice id world named up unseen in
      let key = payment_key id in
      rw
        (
          named,
          delivery-again t (concat ("payment_succeeded:" ∷ id ∷ [])) marker between.ga4 up' (
              rw (
                ap (λ x. x.ga4) eq,
                c.peek-store world.ga4 now t 604800 key key marker,
                eq_refl key,
                lt→ltb t (now + 604800) soon,
              )),
        )
        (ap (λ x. x.sent) eq)

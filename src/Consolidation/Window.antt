-- ===== src/Consolidation/Window.antt =====
-- For how long a primary event of app/webhooks/services/event_consolidation.py holds back the
-- payments of its own transaction.
use notipus.Base.{
  ℕ, ◌+◌, String, ◌≡◌, refl, true, false, not, Option, none, some, List, [], arith, ltb, contains,
  contains-union, disjoint, contains-disjoint, union, if◌then◌else◌, Bool-cases, inl, inr, sym, ◌∙◌,
}
use notipus.Base.Dict.{lookup, keys, lookup-eq-none}
use notipus.Base.Int.{ℤ}
use notipus.Base.Call.{ok}
use notipus.Cache.{Cache, get-down}
use notipus.Consolidation.{
  Entry, suppressed, events_of, suppression_key, primary_events, never_suppress,
  zero_amount_filter_events, is_filtered, is_exempt, no_amount, consolidate,
  should_send_notification,
}
use notipus.Consolidation.Suppression.{
  consolidate-hold, consolidate-pass, consolidate-mark, marked_until, should_send-consolidate,
}

-- The events that some primary event holds back are payments, which are neither critical nor primary.
secondary-zero_amount :
    (primary event_type : String) (events : List String)
    → lookup primary primary_events ≡ some events
    → contains event_type events ≡ true
    → contains event_type zero_amount_filter_events ≡ true
unfolding contains
secondary-zero_amount primary event_type events p m = ground arith

payment-not_critical :
    (event_type : String)
    → contains event_type zero_amount_filter_events ≡ true
    → contains event_type never_suppress ≡ false
unfolding disjoint
payment-not_critical event_type =
    contains-disjoint event_type zero_amount_filter_events never_suppress refl

payment-not_primary :
    (event_type : String)
    → contains event_type zero_amount_filter_events ≡ true
    → lookup event_type primary_events ≡ none
unfolding disjoint
payment-not_primary event_type h =
    lookup-eq-none event_type primary_events
      (contains-disjoint event_type zero_amount_filter_events (keys primary_events) refl h)

payment-not_filtered :
    (event_type : String) (amount : Option ℤ)
    → no_amount amount ≡ false
    → is_filtered event_type amount ≡ false
unfolding is_filtered
payment-not_filtered event_type amount h = ground arith

-- An event that is neither critical nor primary is as exempt as the primary one, which is.
exempt_alike :
    (event_type other customer_id workspace_id : String) (correlation_id : Option String)
    → contains other never_suppress ≡ false
    → is_exempt event_type customer_id workspace_id correlation_id ≡ false
    → is_exempt other customer_id workspace_id correlation_id ≡ false
unfolding is_exempt
exempt_alike event_type other customer_id workspace_id correlation_id n e = ground arith

module _ (c : Cache Entry) (now : ℕ) (customer_id workspace_id correlation_id : String)
    (s s' : c.State) where
  -- A primary event that `consolidate` lets through has marked what it holds back.
  consolidate-marked :
      (primary : String) (events : List String)
      → let key = suppression_key workspace_id customer_id correlation_id in
        lookup primary primary_events ≡ some events
        → consolidate c now primary customer_id workspace_id correlation_id s ≡ (ok true, s')
        → c.store s now key (suppressed (union (events_of (c.peek s now key)) events)) 300 ≡ s'
  unfolding consolidate
  consolidate-marked primary events p h =
      let key = suppression_key workspace_id customer_id correlation_id in
      elim (Bool-cases (c.up s now)) [
        | inr down ↦ cc (rw (get-down c now key down) at h)
        | inl u ↦ elim (Bool-cases (contains primary (events_of (c.peek s now key)))) [
          | inl held ↦
              cc
                (h, consolidate-hold c now customer_id workspace_id correlation_id primary s u held)
          | inr n ↦ cc (
            h,
            consolidate-mark c now customer_id workspace_id correlation_id primary events s p u n,
          )
        ]
      ]

  -- After a primary event is sent, the marks of its transaction stand for the window.
  marked_after :
      (t : ℕ) (primary : String) (events : List String) (amount : Option ℤ)
      → let key = suppression_key workspace_id customer_id correlation_id in
        lookup primary primary_events ≡ some events
        → is_exempt primary customer_id workspace_id (some correlation_id) ≡ false
        → is_filtered primary amount ≡ false
        → should_send_notification c now primary customer_id workspace_id amount
            (some correlation_id)
            s
          ≡ (ok true, s')
        → events_of (c.peek s' t key)
          ≡ (if ltb t (now + 300) then union (events_of (c.peek s now key)) events else [])
  marked_after t primary events amount p e f sent =
      let key = suppression_key workspace_id customer_id correlation_id in
      rw
        (← consolidate-marked primary events p (
          sym (
            should_send-consolidate c now customer_id workspace_id correlation_id primary amount f e
              s)
          ∙ sent))
        (marked_until c now customer_id workspace_id correlation_id t primary
          (union (events_of (c.peek s now key)) events) s)

  -- After a primary event of a transaction, neither filtered nor exempt, is sent, a payment of
  -- something, of the same transaction and of a type that the primary event holds back, is suppressed
  -- as long as the window of 300 seconds lasts, and sent once it has passed, if the cache answers
  -- then.
  pub suppressed_in_window :
      (t : ℕ) (primary event_type : String) (events : List String) (amount amount' : Option ℤ)
      → lookup primary primary_events ≡ some events
      → contains event_type events ≡ true
      → is_exempt primary customer_id workspace_id (some correlation_id) ≡ false
      → is_filtered primary amount ≡ false
      → no_amount amount' ≡ false
      → should_send_notification c now primary customer_id workspace_id amount
          (some correlation_id)
          s
        ≡ (ok true, s')
      → c.up s' t ≡ true
      → should_send_notification c t event_type customer_id workspace_id amount'
          (some correlation_id)
          s'
        ≡ (ok (not (ltb t (now + 300))), s')
  unfolding contains
  suppressed_in_window t primary event_type events amount amount' p m e f a sent u =
      let zero = secondary-zero_amount primary event_type events p m in
      let marks = marked_after t primary events amount p e f sent in
      should_send-consolidate c t customer_id workspace_id correlation_id event_type amount'
        (payment-not_filtered event_type amount' a)
        (exempt_alike primary event_type customer_id workspace_id (some correlation_id)
          (payment-not_critical event_type zero) e)
        s'
      ∙ elim (Bool-cases (ltb t (now + 300))) [
        | inl within ↦ rw within (
            consolidate-hold c t customer_id workspace_id correlation_id event_type s' u
              (rw (marks, within, contains-union, m) (ground arith)))
        | inr past ↦ rw past (
            consolidate-pass c t customer_id workspace_id correlation_id event_type s' u
              (rw (marks, past)) (payment-not_primary event_type zero))
      ]

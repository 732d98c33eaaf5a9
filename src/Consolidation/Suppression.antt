-- ===== src/Consolidation/Suppression.antt =====
-- Which notifications `should_send_notification` delivers, and for how long a primary event holds
-- back those that follow it.
use notipus.Base.{
  ℕ, ◌+◌, String, ◌≡◌, refl, true, false, Option, none, some, List, arith, ltb, contains, eq_refl,
  contains-disjoint, disjoint, union, if◌then◌else◌, [],
}
use notipus.Base.Dict.{lookup}
use notipus.Base.Int.{ℤ}
use notipus.Base.Call.{ok}
use notipus.Cache.{Cache, get-up, set-up}
use notipus.Consolidation.{
  Entry, suppressed, events_of, suppression_key, primary_events, never_suppress,
  zero_amount_filter_events, is_filtered, is_exempt, mark_events_for_suppression, mark_found,
  consolidate, should_send_notification,
}

-- The critical events are none of the filtered payments.
critical-not_filtered :
    (event_type : String)
    → contains event_type never_suppress ≡ true
    → contains event_type zero_amount_filter_events ≡ false
unfolding disjoint
critical-not_filtered event_type =
    contains-disjoint event_type never_suppress zero_amount_filter_events refl

not_filtered :
    (event_type : String) (amount : Option ℤ)
    → contains event_type zero_amount_filter_events ≡ false
    → is_filtered event_type amount ≡ false
unfolding is_filtered
not_filtered event_type amount h = rw h

critical-exempt :
    (event_type customer_id workspace_id : String) (correlation_id : Option String)
    → contains event_type never_suppress ≡ true
    → is_exempt event_type customer_id workspace_id correlation_id ≡ true
unfolding is_exempt
critical-exempt event_type customer_id workspace_id correlation_id h = ground arith

module _ (c : Cache Entry) (now : ℕ) where
  -- An event that is not filtered, and that is critical or lacks a customer, a workspace or a
  -- transaction, is sent with no look at the cache.
  exempt_delivered :
      (event_type customer_id workspace_id : String) (amount : Option ℤ)
      (correlation_id : Option String) (s : c.State)
      → is_filtered event_type amount ≡ false
      → is_exempt event_type customer_id workspace_id correlation_id ≡ true
      → should_send_notification c now event_type customer_id workspace_id amount correlation_id s
        ≡ (ok true, s)
  unfolding should_send_notification
  exempt_delivered event_type customer_id workspace_id amount correlation_id s f e = rw (f, e)

  -- A critical event is sent with no look at the cache, whatever its amount and its transaction, and
  -- also while the cache is down.
  pub critical_delivered :
      (event_type customer_id workspace_id : String) (amount : Option ℤ)
      (correlation_id : Option String) (s : c.State)
      → contains event_type never_suppress ≡ true
      → should_send_notification c now event_type customer_id workspace_id amount correlation_id s
        ≡ (ok true, s)
  critical_delivered event_type customer_id workspace_id amount correlation_id s critical =
      exempt_delivered event_type customer_id workspace_id amount correlation_id s
        (not_filtered event_type amount (critical-not_filtered event_type critical))
        (critical-exempt event_type customer_id workspace_id correlation_id critical)

  module _ (customer_id workspace_id correlation_id : String) where
    abbrev pub key : String
    key = suppression_key workspace_id customer_id correlation_id

    pub should_send-consolidate :
        (event_type : String) (amount : Option ℤ)
        → is_filtered event_type amount ≡ false
        → is_exempt event_type customer_id workspace_id (some correlation_id) ≡ false
        → (s : c.State)
        → should_send_notification c now event_type customer_id workspace_id amount
            (some correlation_id)
            s
          ≡ consolidate c now event_type customer_id workspace_id correlation_id s
    unfolding should_send_notification
    should_send-consolidate event_type amount f e s = rw (f, e)

    pub consolidate-hold :
        (event_type : String) (s : c.State)
        → c.up s now ≡ true
        → contains event_type (events_of (c.peek s now key)) ≡ true
        → consolidate c now event_type customer_id workspace_id correlation_id s ≡ (ok false, s)
    unfolding consolidate
    consolidate-hold event_type s u n = rw (get-up c now key u, n)

    pub consolidate-pass :
        (event_type : String) (s : c.State)
        → c.up s now ≡ true
        → contains event_type (events_of (c.peek s now key)) ≡ false
        → lookup event_type primary_events ≡ none
        → consolidate c now event_type customer_id workspace_id correlation_id s ≡ (ok true, s)
    unfolding consolidate mark_found
    consolidate-pass event_type s u n p = rw (get-up c now key u, n, p)

    pub consolidate-mark :
        (event_type : String) (events : List String) (s : c.State)
        → lookup event_type primary_events ≡ some events
        → c.up s now ≡ true
        → contains event_type (events_of (c.peek s now key)) ≡ false
        → consolidate c now event_type customer_id workspace_id correlation_id s ≡ (
          ok true,
          c.store s now key (suppressed (union (events_of (c.peek s now key)) events)) 300,
        )
    unfolding consolidate mark_found mark_events_for_suppression
    consolidate-mark event_type events s p u n =
        rw (get-up c now key u, n, p, get-up c now key u, set-up c now key _ 300 u)

    -- What `consolidate` makes of an event, by what is marked and by the window.
    pub marked_until :
        (t : ℕ) (event_type : String) (events : List String) (s : c.State)
        → events_of (c.peek (c.store s now key (suppressed events) 300) t key)
          ≡ (if ltb t (now + 300) then events else [])
    unfolding events_of
    marked_until t event_type events s =
        rw (c.peek-store s now t 300 key key (suppressed events), eq_refl key) (ground arith)

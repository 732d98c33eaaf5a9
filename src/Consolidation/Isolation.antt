-- ===== src/Consolidation/Isolation.antt =====
-- The suppression of one transaction is no concern of another: a call touches the marks of its own
-- transaction only.
use notipus.Base.{
  ℕ, String, ◌≡◌, ◌≢◌, true, false, Option, some, contains, eq_iff, str_eq, Bool-cases,
  Option-cases, inl, inr, push-injective, concat,
}
use notipus.Base.Dict.{lookup}
use notipus.Base.Int.{ℤ}
use notipus.Cache.{Cache, get-down}
use notipus.Consolidation.{
  Entry, events_of, suppression_key, primary_events, is_filtered, is_exempt, consolidate,
  should_send_notification,
}
use notipus.Consolidation.Suppression.{consolidate-hold, consolidate-pass, consolidate-mark}

-- The key tells the transactions of a customer apart.
suppression_key-ne :
    (workspace_id customer_id a b : String)
    → a ≢ b
    → str_eq
        (suppression_key workspace_id customer_id a)
        (suppression_key workspace_id customer_id b)
      ≡ false
unfolding suppression_key concat
suppression_key-ne workspace_id customer_id a b ne =
    elim (Bool-cases (
      str_eq (suppression_key workspace_id customer_id a)
        (suppression_key workspace_id customer_id b))) [
          | inr other ↦ other
          | inl same ↦ absurd (
              ne (
                push-injective ":" a b (
                  push-injective customer_id _ _ (
                    push-injective ":" _ _ (
                      push-injective workspace_id _ _
                        (push-injective "event_suppress:" _ _ ((eq_iff _ _).0 same)))))))
        ]

module _ (c : Cache Entry) (customer_id workspace_id correlation_id : String) where
  -- A call leaves every other key as it was.
  consolidate-peek_other :
      (now t : ℕ) (event_type other : String) (s : c.State)
      → str_eq (suppression_key workspace_id customer_id correlation_id) other ≡ false
      → c.peek (consolidate c now event_type customer_id workspace_id correlation_id s).1 t other
        ≡ c.peek s t other
  unfolding consolidate
  consolidate-peek_other now t event_type other s ne =
      let k = suppression_key workspace_id customer_id correlation_id in
      elim (Bool-cases (c.up s now)) [
        | inr down ↦ rw (get-down c now k down)
        | inl u ↦ elim (Bool-cases (contains event_type (events_of (c.peek s now k)))) [
          | inl held ↦
              rw
                (consolidate-hold c now customer_id workspace_id correlation_id event_type s u held)
          | inr n ↦ elim (Option-cases (lookup event_type primary_events)) [
            | inl p ↦
                rw (
                  consolidate-pass c now customer_id workspace_id correlation_id event_type s u n p)
            | inr (events, p) ↦ rw (
              consolidate-mark c now customer_id workspace_id correlation_id event_type events s p u
                  n,
              c.peek-store,
              ne,
            )
          ]
        ]
      ]

  -- What a call answers depends on the marks of its own transaction alone.
  consolidate-same_marks :
      (t : ℕ) (event_type : String) (s s' : c.State)
      → let k = suppression_key workspace_id customer_id correlation_id in
        c.up s t ≡ true
        → c.up s' t ≡ true
        → c.peek s' t k ≡ c.peek s t k
        → (consolidate c t event_type customer_id workspace_id correlation_id s').0
          ≡ (consolidate c t event_type customer_id workspace_id correlation_id s).0
  consolidate-same_marks t event_type s s' u u' same =
      let k = suppression_key workspace_id customer_id correlation_id in
      elim (Bool-cases (contains event_type (events_of (c.peek s t k)))) [
        | inl held ↦ rw (
          consolidate-hold c t customer_id workspace_id correlation_id event_type s u held,
          consolidate-hold c t customer_id workspace_id correlation_id event_type s' u'
              (rw same held),
        )
        | inr n ↦ elim (Option-cases (lookup event_type primary_events)) [
          | inl p ↦ rw (
            consolidate-pass c t customer_id workspace_id correlation_id event_type s u n p,
            consolidate-pass c t customer_id workspace_id correlation_id event_type s' u'
                (rw same n) p,
          )
          | inr (events, p) ↦ rw (
            consolidate-mark c t customer_id workspace_id correlation_id event_type events s p u n,
            consolidate-mark c t customer_id workspace_id correlation_id event_type events s' p u'
                (rw same n),
          )
        ]
      ]

module _ (c : Cache Entry) (customer_id workspace_id : String) where
  pub should_send-peek_other :
      (now t : ℕ) (event_type correlation_id other : String) (amount : Option ℤ) (s : c.State)
      → str_eq (suppression_key workspace_id customer_id correlation_id) other ≡ false
      → c.peek
          (should_send_notification c now event_type customer_id workspace_id amount
            (some correlation_id)
            s).1
          t
          other
        ≡ c.peek s t other
  unfolding should_send_notification
  should_send-peek_other now t event_type correlation_id other amount s ne =
      elim (Bool-cases (is_filtered event_type amount)) [
        | inl f ↦ rw f
        | inr f ↦
            elim (Bool-cases
              (is_exempt event_type customer_id workspace_id (some correlation_id))) [
                | inl e ↦ rw (f, e)
                | inr e ↦
                    rw (f, e)
                      (consolidate-peek_other c customer_id workspace_id correlation_id now t
                        event_type other s ne)
              ]
      ]

  should_send-same_marks :
      (t : ℕ) (event_type correlation_id : String) (amount : Option ℤ) (s s' : c.State)
      → let k = suppression_key workspace_id customer_id correlation_id in
        c.up s t ≡ true
        → c.up s' t ≡ true
        → c.peek s' t k ≡ c.peek s t k
        → (should_send_notification c t event_type customer_id workspace_id amount
            (some correlation_id)
            s').0
          ≡ (should_send_notification c t event_type customer_id workspace_id amount
              (some correlation_id)
              s).0
  unfolding should_send_notification
  should_send-same_marks t event_type correlation_id amount s s' u u' same =
      elim (Bool-cases (is_filtered event_type amount)) [
        | inl f ↦ rw f
        | inr f ↦
            elim (Bool-cases
              (is_exempt event_type customer_id workspace_id (some correlation_id))) [
                | inl e ↦ rw (f, e)
                | inr e ↦
                    rw (f, e)
                      (consolidate-same_marks c customer_id workspace_id correlation_id t event_type
                        s s' u u' same)
              ]
      ]

-- Whatever event of one transaction is handled, the answer for an event of another transaction of
-- the same customer and workspace, asked while the cache is up, is the one that it would have been
-- without it.
pub other_transaction_unaffected :
    (c : Cache Entry) (now t : ℕ) (customer_id workspace_id first second event_type other : String)
    (amount amount' : Option ℤ) (s s' : c.State)
    → first ≢ second
    → (should_send_notification c now event_type customer_id workspace_id amount (some first) s).1
      ≡ s'
    → c.up s t ≡ true
    → c.up s' t ≡ true
    → (should_send_notification c t other customer_id workspace_id amount' (some second) s').0
      ≡ (should_send_notification c t other customer_id workspace_id amount' (some second) s).0
other_transaction_unaffected c now t customer_id workspace_id first second event_type other amount
      amount' s s' ne step u u' =
    should_send-same_marks c customer_id workspace_id t other second amount' s s' u u' (
      rw (← step) (
        should_send-peek_other c customer_id workspace_id now t event_type first
          (suppression_key workspace_id customer_id second) amount s
          (suppression_key-ne workspace_id customer_id first second ne)))

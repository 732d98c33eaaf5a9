-- ===== src/Consolidation/Markers.antt =====
-- The marks of `should_send_notification` and those of `record_event` stand under different keys.
use Prim.Native.String.{◌++◌ as push, slice}
use text.Mathlib.TextLemmas.{append_assoc}
use text.Mathlib.TextPositions.{slice-append_left}
use notipus.Base.{
  ℕ, String, ◌≡◌, true, false, Option, none, some, eq_iff, str_eq, Bool-cases, inl, inr, concat, ap,
  sym, ◌∙◌, arith, non_empty,
}
use notipus.Base.Int.{ℤ}
use notipus.Cache.{Cache}
use notipus.Consolidation.{
  Entry, suppression_key, dedup_key, is_filtered, is_exempt, should_send_notification,
}
use notipus.Consolidation.Isolation.{should_send-peek_other}

different_beginnings :
    {A : Type 0} (a b : String) → push "event_suppress:" a ≡ push "event_dedup:" b → A
different_beginnings a b h = absurd (no ((eq_iff first second).1 beginnings))
  where
    first : String
    first = "event_suppre"

    second : String
    second = "event_dedup:"

    beginnings : first ≡ second
    beginnings =
        sym (slice-append_left first (push "ss:" a))
        ∙ ap (λ s. slice s 0 12) (sym (append_assoc first "ss:" a) ∙ h)
        ∙ slice-append_left second b

    no : false ≡ true → ⊥
    no e = cc

suppression_key-ne_dedup_key :
    (workspace_id customer_id correlation_id other id : String)
    → str_eq (suppression_key workspace_id customer_id correlation_id) (dedup_key other id) ≡ false
unfolding suppression_key dedup_key concat
suppression_key-ne_dedup_key workspace_id customer_id correlation_id other id =
    elim (Bool-cases
      (str_eq (suppression_key workspace_id customer_id correlation_id) (dedup_key other id))) [
        | inr ne ↦ ne
        | inl same ↦ different_beginnings _ _ ((eq_iff _ _).0 same)
      ]

unasked :
    (c : Cache Entry) (now : ℕ) (event_type customer_id workspace_id : String) (amount : Option ℤ)
    (s : c.State)
    → (should_send_notification c now event_type customer_id workspace_id amount none s).1 ≡ s
unfolding should_send_notification is_exempt non_empty
unasked c now event_type customer_id workspace_id amount s =
    elim (Bool-cases (is_filtered event_type amount)) [ inl f ↦ rw f | inr f ↦ rw f (ground arith) ]

-- Whether to send an event is asked without a change of the marks of those that were recorded.
pub should_send-dedup :
    (c : Cache Entry) (now t : ℕ) (event_type customer_id workspace_id other id : String)
    (amount : Option ℤ) (correlation_id : Option String) (s : c.State)
    → c.peek
        (should_send_notification c now event_type customer_id workspace_id amount correlation_id
          s).1
        t
        (dedup_key other id)
      ≡ c.peek s t (dedup_key other id)
should_send-dedup c now t event_type customer_id workspace_id other id amount (some k) s =
    should_send-peek_other c customer_id workspace_id now t event_type k (dedup_key other id) amount
      s (suppression_key-ne_dedup_key workspace_id customer_id k other id)
should_send-dedup c now t event_type customer_id workspace_id other id amount none s =
    ap (λ r. c.peek r t (dedup_key other id))
      (unasked c now event_type customer_id workspace_id amount s)

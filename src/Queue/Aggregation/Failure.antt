-- ===== src/Queue/Aggregation/Failure.antt =====
-- A failed payment among the events of a group is not lost.
use notipus.Base.{
  String, ◌≡◌, refl, Bool-cases, inl, inr, true, false, List, [], ◌∷◌, arith, any, str_eq, none,
  some, ◌||◌, contains, Bool, ◌∙◌, Option,
}
use notipus.Base.Json.{
  Json, Fields, get, put, object, boolean, is_true, is_null, is_text, get-put_self, get-put_other,
}
use notipus.Queue.{PendingItem}
use notipus.Queue.Aggregation.Winner.{merge_paid_invoice_metadata-other}
use notipus.Queue.Aggregation.{
  pick_winner, aggregate_events, aggregate_winner, metadata_of, merge_payment_failure,
  merge_paid_invoice_metadata, fold_failure, add_failure, first_failure, add_billing_reason,
  first_billing_reason, is_failure, copy_set, copy_fields, failure_metadata_fields,
}

first_failure-some :
    (items : List PendingItem)
    → any is_failure items ≡ true
    → (e : Fields) × (first_failure items ≡ some e)
unfolding first_failure
first_failure-some [] h = absurd (ground arith)
first_failure-some (i ∷ is) h = elim (Bool-cases (is_failure i)) [
  | inl b ↦ rw b (i.event_data, refl)
  | inr b ↦ rw b (first_failure-some is (ground arith))
]

copy_set-other :
    (field k : String) (v : Json) (m : Fields)
    → str_eq field k ≡ false
    → get k (copy_set field v m) ≡ get k m
unfolding copy_set
copy_set-other field k v m h = elim (Bool-cases (is_null v)) [
  | inl b ↦ rw b
  | inr b ↦ rw b (get-put_other field k v m h)
]

copy_fields-other :
    (fields : List String) (k : String) (from m : Fields)
    → contains k fields ≡ false
    → get k (copy_fields fields from m) ≡ get k m
unfolding copy_fields contains
copy_fields-other [] k from m h = refl
copy_fields-other (field ∷ fields) k from m h =
    copy_fields-other fields k from (copy_set field (get field from) m) (ground arith)
    ∙ copy_set-other field k (get field from) m (ground arith)

add_failure-has : (e m : Fields) → is_true (get "has_payment_failure" (add_failure e m)) ≡ true
unfolding add_failure contains is_true
add_failure-has e m = rw (
  copy_set-other "failed_amount" "has_payment_failure" (get "amount" e)
      (copy_fields failure_metadata_fields (metadata_of e)
        (put "has_payment_failure" (boolean true) m))
      refl,
  copy_fields-other failure_metadata_fields "has_payment_failure" (metadata_of e)
      (put "has_payment_failure" (boolean true) m) refl,
  get-put_self "has_payment_failure" (boolean true) m,
)

metadata_of-put : (m r : Fields) → metadata_of (put "metadata" (object m) r) ≡ m
unfolding metadata_of
metadata_of-put m r = rw (get-put_self "metadata" (object m) r)

add_billing_reason-other :
    (r : Option Json) (m : Fields)
    → get "has_payment_failure" (add_billing_reason r m) ≡ get "has_payment_failure" m
unfolding add_billing_reason
add_billing_reason-other none m = refl
add_billing_reason-other (some v) m = get-put_other "billing_reason" "has_payment_failure" v m refl

merge_paid_invoice_metadata-failure :
    (items : List PendingItem) (r : Fields)
    → get "has_payment_failure" (metadata_of (merge_paid_invoice_metadata items r))
      ≡ get "has_payment_failure" (metadata_of r)
unfolding merge_paid_invoice_metadata
merge_paid_invoice_metadata-failure items r =
    elim (Bool-cases (is_true (get "billing_reason" (metadata_of r)))) [
      | inl b ↦ rw (b, metadata_of-put (metadata_of r) r)
      | inr b ↦
          rw
            (b, metadata_of-put (add_billing_reason (first_billing_reason items) (metadata_of r)) r)
            (add_billing_reason-other (first_billing_reason items) (metadata_of r))
    ]

abbrev surfaces : Fields → Bool
surfaces result =
    is_text "payment_failure" (get "type" result)
    || is_true (get "has_payment_failure" (metadata_of result))

merge_payment_failure-surfaces :
    (items : List PendingItem) (result : Fields)
    → any is_failure items ≡ true
    → surfaces (merge_payment_failure items result) ≡ true
unfolding merge_payment_failure fold_failure
merge_payment_failure-surfaces items result h =
    let (e, found) = first_failure-some items h in
    elim (Bool-cases (is_text "payment_failure" (get "type" result))) [
      | inl failed ↦ rw (failed, failed)
      | inr other ↦
          rw
            (
              other,
              found,
              metadata_of-put (add_failure e (metadata_of result)) result,
              add_failure-has e (metadata_of result),
            )
            (ground arith)
    ]

-- If a payment of the group has failed, then the aggregated event is a failed payment, or its
-- metadata says that there was one.
pub failure_surfaces :
    (x : PendingItem) (xs : List PendingItem)
    → any is_failure (x ∷ xs) ≡ true
    → (is_text "payment_failure" (get "type" (aggregate_events (x ∷ xs)).0)
        || is_true (get "has_payment_failure" (metadata_of (aggregate_events (x ∷ xs)).0)))
      ≡ true
unfolding aggregate_events aggregate_winner
failure_surfaces x xs h =
    rw
      (
        merge_paid_invoice_metadata-other (x ∷ xs) (merge_payment_failure (x ∷ xs) own) "type" refl,
        merge_paid_invoice_metadata-failure (x ∷ xs) (merge_payment_failure (x ∷ xs) own),
      )
      (merge_payment_failure-surfaces (x ∷ xs) own h)
  where
    winner : Fields
    winner = (pick_winner x xs).0.event_data

    own : Fields
    own = put "metadata" (object (metadata_of winner)) winner

-- ===== src/Queue/Aggregation.antt =====
-- `_aggregate_events` of app/webhooks/services/pending_event_queue.py and its helpers: the events of
-- a group become one event and one customer. An assignment into a dictionary is a new dictionary.
pub mod Winner
pub mod Failure
pub mod Customer
use notipus.Base.{
  ℕ, String, Bool, true, false, not, ◌&&◌, ◌||◌, Option, none, some, List, [], ◌∷◌, ltb, contains,
  if◌then◌else◌,
}
use mathlib.Core.Option.{get_or}
use notipus.Base.Dict.{Dict, lookup}
use notipus.Base.Json.{
  Json, boolean, text, object, Fields, end, get, put, is_true, is_null, is_text, as_object,
}
use notipus.Queue.{PendingItem}

abbrev pub type_priorities : Dict ℕ
type_priorities =
    ("trial_started", 100)
    ∷ ("subscription_created", 90)
    ∷ ("subscription_updated", 80)
    ∷ ("subscription_deleted", 80)
    ∷ ("checkout_completed", 70)
    ∷ ("payment_failure", 60)
    ∷ ("payment_success", 50)
    ∷ ("invoice_paid", 40)
    ∷ []

-- `TYPE_PRIORITY.get(type, 0)`. The type of an event is a text, if there is one.
unfoldable pub type_priority : Json → ℕ
type_priority (text event_type) = get_or (lookup event_type type_priorities) 0
type_priority _ = 0

unfoldable pub item_priority : PendingItem → ℕ
item_priority i = type_priority (get "type" i.event_data)

-- An item wins against the items behind it, of which the winner and the others are known.
unfoldable pub compare_winner :
    PendingItem → List PendingItem → PendingItem × List PendingItem → PendingItem × List PendingItem
compare_winner x items (winner, others) =
    if ltb (item_priority x) (item_priority winner) then (winner, x ∷ others) else (x, items)

-- `max` of a list that is not empty, and the items beside it.
unfoldable pub pick_winner : PendingItem → List PendingItem → PendingItem × List PendingItem
unfolding compare_winner
pick_winner x [] = (x, [])
pick_winner x (y ∷ ys) = compare_winner x (y ∷ ys) (pick_winner y ys)

-- The metadata of an event, where anything but a dictionary is an empty one.
unfoldable pub metadata_of : Fields → Fields
metadata_of event_data = get_or (as_object (get "metadata" event_data)) end

-- A field that is missing takes the value that another item has.
unfoldable pub fill : String → Json → Fields → Fields
fill field value customer =
    if is_true value && not (is_true (get field customer))
    then put field value customer
    else customer

unfoldable pub fill_each : List String → Fields → Fields → Fields
unfolding fill
fill_each [] from customer = customer
fill_each (field ∷ fields) from customer =
    fill_each fields from (fill field (get field from) customer)

-- One turn of the loop over the items beside the winner.
unfoldable pub merge_customer : PendingItem → Fields → Fields
unfolding fill_each
merge_customer i customer =
    fill_each ("first_name" ∷ "last_name" ∷ "company_name" ∷ []) i.customer_data (
      fill "email" (get "customer_email" i.event_data)
        (fill "email" (get "email" i.customer_data) customer))

unfoldable pub merge_customers : List PendingItem → Fields → Fields
unfolding merge_customer
merge_customers [] customer = customer
merge_customers (i ∷ is) customer = merge_customers is (merge_customer i customer)

abbrev pub failure_metadata_fields : List String
failure_metadata_fields =
    "failure_reason" ∷ "decline_code" ∷ "attempt_count" ∷ "next_payment_attempt" ∷ []

unfoldable pub is_failure : PendingItem → Bool
is_failure i = is_text "payment_failure" (get "type" i.event_data)

-- The data of the first failure.
unfoldable pub first_failure : List PendingItem → Option Fields
unfolding is_failure
first_failure [] = none
first_failure (i ∷ is) = if is_failure i then some i.event_data else first_failure is

-- `if value is not None: metadata[field] = value`
unfoldable pub copy_set : String → Json → Fields → Fields
copy_set field value metadata = if is_null value then metadata else put field value metadata

unfoldable pub copy_fields : List String → Fields → Fields → Fields
unfolding copy_set
copy_fields [] from metadata = metadata
copy_fields (field ∷ fields) from metadata =
    copy_fields fields from (copy_set field (get field from) metadata)

unfoldable pub add_failure : Fields → Fields → Fields
unfolding copy_fields metadata_of
add_failure failure_event metadata = copy_set "failed_amount" (get "amount" failure_event) (
    copy_fields failure_metadata_fields (metadata_of failure_event)
      (put "has_payment_failure" (boolean true) metadata))

unfoldable pub fold_failure : Option Fields → Fields → Fields
unfolding add_failure
fold_failure none result = result
fold_failure (some failure_event) result =
    put "metadata" (object (add_failure failure_event (metadata_of result))) result

unfoldable pub merge_payment_failure : List PendingItem → Fields → Fields
unfolding fold_failure first_failure
merge_payment_failure items result =
    if is_text "payment_failure" (get "type" result)
    then result
    else fold_failure (first_failure items) result

abbrev pub is_paid_invoice : PendingItem → Bool
is_paid_invoice i =
    is_text "payment_success" (get "type" i.event_data)
    || is_text "invoice_paid" (get "type" i.event_data)

-- The first billing reason of a paid invoice.
unfoldable pub first_billing_reason : List PendingItem → Option Json
unfolding metadata_of
first_billing_reason [] = none
first_billing_reason (i ∷ is) =
    let later = first_billing_reason is in
    let reason = get "billing_reason" (metadata_of i.event_data) in
    if is_paid_invoice i && is_true reason then some reason else later

unfoldable pub add_billing_reason : Option Json → Fields → Fields
add_billing_reason none metadata = metadata
add_billing_reason (some reason) metadata = put "billing_reason" reason metadata

unfoldable pub merge_paid_invoice_metadata : List PendingItem → Fields → Fields
unfolding first_billing_reason add_billing_reason
merge_paid_invoice_metadata items result =
    let metadata = metadata_of result in
    if is_true (get "billing_reason" metadata)
    then put "metadata" (object metadata) result
    else put "metadata" (object (add_billing_reason (first_billing_reason items) metadata)) result

unfoldable pub aggregate_winner :
    List PendingItem → PendingItem × List PendingItem → Fields × Fields
unfolding merge_paid_invoice_metadata merge_payment_failure merge_customers
aggregate_winner items (winner, others) =
    let result = put "metadata" (object (metadata_of winner.event_data)) winner.event_data in
    (
      merge_paid_invoice_metadata items (merge_payment_failure items result),
      merge_customers others winner.customer_data,
    )

unfoldable pub aggregate_events : List PendingItem → Fields × Fields
unfolding aggregate_winner pick_winner
aggregate_events [] = (end, end)
aggregate_events (x ∷ xs) = aggregate_winner (x ∷ xs) (pick_winner x xs)

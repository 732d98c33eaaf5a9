-- ===== src/Queue/Aggregation/Customer.antt =====
-- The customer that `_aggregate_events` gathers from the items of a group.
use notipus.Base.{
  String, ◌≡◌, refl, Bool-cases, inl, inr, Bool, false, List, [], ◌∷◌, arith, any, str_eq, ◌||◌,
  ◌&&◌, contains, ◌∙◌, not,
}
use notipus.Base.Json.{Json, Fields, get, is_true, get-put_self, get-put_other}
use notipus.Queue.{PendingItem}
use notipus.Queue.Aggregation.{
  pick_winner, aggregate_events, aggregate_winner, fill, fill_each, merge_customer, merge_customers,
}

fill_self :
    (field : String) (v : Json) (c : Fields)
    → is_true (get field (fill field v c)) ≡ (is_true (get field c) || is_true v)
unfolding fill
fill_self field v c = elim (Bool-cases (is_true v)) [
  | inl b ↦ elim (Bool-cases (is_true (get field c))) [
    | inl d ↦ rw (b, d, d)
    | inr d ↦ rw (b, d, get-put_self field v c, b)
  ]
  | inr b ↦ rw b (ground arith)
]

fill_other :
    (field k : String) (v : Json) (c : Fields)
    → str_eq field k ≡ false
    → get k (fill field v c) ≡ get k c
unfolding fill
fill_other field k v c h = elim (Bool-cases (is_true v && not (is_true (get field c)))) [
  | inl b ↦ rw b (get-put_other field k v c h)
  | inr b ↦ rw b
]

fill_each_other :
    (fields : List String) (k : String) (from c : Fields)
    → contains k fields ≡ false
    → get k (fill_each fields from c) ≡ get k c
unfolding fill_each contains
fill_each_other [] k from c h = refl
fill_each_other (field ∷ fields) k from c h =
    fill_each_other fields k from (fill field (get field from) c) (ground arith)
    ∙ fill_other field k (get field from) c (ground arith)

-- Whether an item beside the winner names an address.
abbrev pub names_email : PendingItem → Bool
names_email i = is_true (get "email" i.customer_data) || is_true (get "customer_email" i.event_data)

merge_customer-email :
    (i : PendingItem) (c : Fields)
    → is_true (get "email" (merge_customer i c)) ≡ (is_true (get "email" c) || names_email i)
unfolding merge_customer contains
merge_customer-email i c =
    rw
      (
        fill_each_other ("first_name" ∷ "last_name" ∷ "company_name" ∷ []) "email" i.customer_data
            (fill "email" (get "customer_email" i.event_data)
              (fill "email" (get "email" i.customer_data) c))
            refl,
        fill_self "email" (get "customer_email" i.event_data)
            (fill "email" (get "email" i.customer_data) c),
        fill_self "email" (get "email" i.customer_data) c,
      )
      (ground arith)

merge_customers-email :
    (is : List PendingItem) (c : Fields)
    → is_true (get "email" (merge_customers is c)) ≡ (is_true (get "email" c) || any names_email is)
unfolding merge_customers
merge_customers-email [] c = ground arith
merge_customers-email (i ∷ is) c =
    rw (merge_customers-email is (merge_customer i c), merge_customer-email i c) (ground arith)

-- The aggregated customer has an address exactly if the winner's customer has one, or some other
-- item has one, for its customer or as the `customer_email` of its event.
pub email_found :
    (x : PendingItem) (xs : List PendingItem)
    → is_true (get "email" (aggregate_events (x ∷ xs)).1) ≡ (
        is_true (get "email" (pick_winner x xs).0.customer_data)
        || any names_email (pick_winner x xs).1)
unfolding aggregate_events aggregate_winner
email_found x xs = merge_customers-email (pick_winner x xs).1 (pick_winner x xs).0.customer_data

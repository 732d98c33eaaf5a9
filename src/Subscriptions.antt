-- ===== src/Subscriptions.antt =====
-- The amounts, currencies and intervals of Stripe's subscriptions:
-- app/webhooks/utils/subscriptions.py. `parse_int` is what `int` makes of a text.
pub mod Order
pub mod Totals
use notipus.Base.{
  ℕ, ◌+◌, ◌*◌, String, Bool, true, false, Option, none, some, List, [], ◌∷◌, ltb, truthy,
  if◌then◌else◌,
}
use notipus.Base.Int.{ℤ, pos, negsuc, pos_part, neg_part, sub_ℕ}
use notipus.Base.Json.{
  Json, null, boolean, number, text, array, object, Items, nil, cons, Fields, get,
}

-- `a + b`
unfoldable pub add : ℤ → ℤ → ℤ
add a b = sub_ℕ (pos_part a + pos_part b) (neg_part a + neg_part b)

-- `z * q`
unfoldable pub times : ℤ → ℕ → ℤ
times z q = sub_ℕ (pos_part z * q) (neg_part z * q)

-- `a` if it is there, or `b`.
abbrev pub or_else {ℓ} : {A : Type ℓ} → Option A → Option A → Option A
or_else (some a) b = some a
or_else none b = b

abbrev pub listed : Items → List Json
listed nil = []
listed (cons x xs) = x ∷ listed xs

-- `isinstance(value, list)`
abbrev pub as_list : Json → Option (List Json)
as_list (array xs) = some (listed xs)
as_list _ = none

-- The total, with what an item adds to it.
abbrev pub add_found : Option ℤ → Option ℤ → Option ℤ
add_found total none = total
add_found none (some amount) = some (add (pos 0) amount)
add_found (some total) (some amount) = some (add total amount)

module _ (parse_int : String → Option ℤ) where
  unfoldable pub amount_cents : Json → Option ℤ
  amount_cents (number z) = some z
  amount_cents (text s) = parse_int s
  amount_cents _ = none

  -- The amount under a key of a dictionary.
  unfoldable pub amount_in : String → Json → Option ℤ
  unfolding amount_cents
  amount_in key (object d) = amount_cents (get key d)
  amount_in key _ = none

  unfoldable pub extract_item_amount : Fields → Option ℤ
  unfolding amount_in
  extract_item_amount item =
      or_else (amount_in "amount" (get "plan" item)) (amount_in "unit_amount" (get "price" item))

  -- A truth value is an `int` in Python, but at most 1.
  unfoldable pub quantity_of : Json → ℕ
  quantity_of (number (pos n)) = if ltb n 1 then 1 else n
  quantity_of _ = 1

  -- What an item adds to the sum, if its amount can be determined.
  unfoldable pub item_total : Json → Option ℤ
  unfolding quantity_of extract_item_amount times
  item_total (object item) = elim (extract_item_amount item) [
    | some unit_amount ↦ some (times unit_amount (quantity_of (get "quantity" item)))
    | none ↦ none
  ]
  item_total _ = none

  -- The loop, with the total so far, if an item was found.
  unfoldable pub sum_from : Option ℤ → List Json → Option ℤ
  unfolding item_total add
  sum_from total [] = total
  sum_from total (item ∷ items) = sum_from (add_found total (item_total item)) items

  abbrev pub sum_listed : Option (List Json) → Option ℤ
  sum_listed none = none
  sum_listed (some items) = sum_from none items

  unfoldable pub sum_item_amounts : Json → Option ℤ
  unfolding sum_from
  sum_item_amounts items_data = sum_listed (as_list items_data)

  -- The items of a subscription, if it has some.
  abbrev pub items_data : Fields → Json
  items_data sub_data = elim (get "items" sub_data) [ object items ↦ get "data" items | _ ↦ null ]

  unfoldable pub subscription_recurring_amount_cents : Fields → Option ℤ
  unfolding sum_item_amounts amount_in
  subscription_recurring_amount_cents sub_data =
      or_else (sum_item_amounts (items_data sub_data)) (amount_in "amount" (get "plan" sub_data))

-- `_string_field`
unfoldable pub string_field : String → Json → Option String
unfolding truthy
string_field key (object d) = elim (get key d) [
  | text s ↦ if truthy s then some s else none
  | _ ↦ none
]
string_field key _ = none

-- The first item that has a value.
unfoldable pub first_of : (Json → Option String) → List Json → Option String
first_of f [] = none
first_of f (x ∷ xs) = or_else (f x) (first_of f xs)

abbrev pub field_of : String → Json → Json
field_of key (object d) = get key d
field_of key _ = null

abbrev pub first_in : (Json → Option String) → Option (List Json) → Option String
first_in f none = none
first_in f (some items) = first_of f items

unfoldable pub item_currency : Json → Option String
unfolding string_field
item_currency item =
    or_else (string_field "currency" (field_of "price" item))
      (string_field "currency" (field_of "plan" item))

unfoldable pub subscription_currency : Fields → Option String
unfolding item_currency first_of
subscription_currency sub_data = or_else (string_field "currency" (object sub_data)) (
    or_else (string_field "currency" (get "plan" sub_data))
      (first_in item_currency (as_list (field_of "data" (get "items" sub_data)))))

unfoldable pub item_interval : Json → Option String
unfolding string_field
item_interval item =
    or_else (string_field "interval" (field_of "recurring" (field_of "price" item)))
      (string_field "interval" (field_of "plan" item))

unfoldable pub subscription_recurring_interval : Fields → Option String
unfolding item_interval first_of
subscription_recurring_interval sub_data =
    or_else (string_field "interval" (get "plan" sub_data))
      (first_in item_interval (as_list (field_of "data" (get "items" sub_data))))

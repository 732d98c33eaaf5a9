-- ===== src/Examples/Subscriptions.antt =====
-- Instances of the theorems on app/webhooks/utils/subscriptions.py.
use mathlib.Core.List.Perm
use notipus.Base.{◌≡◌, refl, String, Option, none, some}
use notipus.Base.Int.{ℤ, pos, negsuc}
use notipus.Base.Json.{Items, array, nil, cons}
use notipus.Subscriptions.{sum_item_amounts}
use notipus.Subscriptions.Totals.{Line, item_of}

abbrev no_text : String → Option ℤ
no_text s = none

-- Three seats at 20 dollars, and a discount of 5.
abbrev seats : Line
seats = record { plan_amount = none; unit_amount = some (pos 2000); quantity = 3 }

abbrev discount : Line
discount = record { plan_amount = some (negsuc 499); unit_amount = none; quantity = 0 }

abbrev items : Items
items = cons (item_of discount) (cons (item_of seats) nil)

total : sum_item_amounts no_text (array items) ≡ some (pos 5500)
unfolding sum_item_amounts
total = refl

-- ===== src/Subscriptions/Totals.antt =====
-- What the items of a subscription sum up to.
use notipus.Base.{
  ℕ, ◌+◌, ◌*◌, String, Bool, true, false, ◌||◌, Option, none, some, List, [], ◌∷◌, ltb,
  if◌then◌else◌,
}
use notipus.Base.Int.{ℤ, pos, pos_part, neg_part, sub_ℕ}
use notipus.Base.Json.{Json, null, number, object, end, field}
use notipus.Subscriptions.{times}

-- A line of a subscription: the amounts of its plan and of its price, if they have some.
pub record Line : Type 0 where
  pub plan_amount : Option ℤ
  pub unit_amount : Option ℤ
  pub quantity : ℕ

abbrev pub with_amount : String → Option ℤ → Json
with_amount key none = null
with_amount key (some z) = object (field key (number z) end)

-- The line as Stripe lists it.
abbrev pub item_of : Line → Json
item_of l = object (
    field "plan" (with_amount "amount" l.plan_amount) (
      field "price" (with_amount "unit_amount" l.unit_amount)
        (field "quantity" (number (pos l.quantity)) end)))

-- What a line costs by the piece: the amount of its plan, or else that of its price.
abbrev pub piece : Option ℤ → Option ℤ → Option ℤ
piece (some z) price = some z
piece none price = price

-- At least one piece is paid for.
abbrev pub pieces : ℕ → ℕ
pieces q = if ltb q 1 then 1 else q

abbrev pub plus : (ℤ → ℕ) → Option ℤ → ℕ → ℕ → ℕ
plus part none q rest = rest
plus part (some z) q rest = part z * q + rest

-- The charges of all lines, or their credits.
abbrev pub sum_of : (ℤ → ℕ) → List Line → ℕ
sum_of part [] = 0
sum_of part (l ∷ ls) =
    plus part (piece l.plan_amount l.unit_amount) (pieces l.quantity) (sum_of part ls)

abbrev pub has_amount : Option ℤ → Bool
has_amount none = false
has_amount (some z) = true

abbrev pub any_amount : List Line → Bool
any_amount [] = false
any_amount (l ∷ ls) = has_amount (piece l.plan_amount l.unit_amount) || any_amount ls

-- The charges less the credits, if any line has an amount.
abbrev pub balance : List Line → Option ℤ
balance ls = if any_amount ls then some (sub_ℕ (sum_of pos_part ls) (sum_of neg_part ls)) else none

module _ (parse_int : String → Option ℤ) where
  abbrev line_total : Option ℤ → ℕ → Option ℤ
  line_total none q = none
  line_total (some z) q = some (times z q)

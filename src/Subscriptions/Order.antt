-- ===== src/Subscriptions/Order.antt =====
-- The sum of a subscription's items does not depend on their order.
use mathlib.Core.List.{Perm, foldr}
use mathlib.Core.List.Perm
use notipus.Base.{String, ◌≡◌, refl, Option, none, some, List, [], ◌∷◌, arith, ap, ◌∙◌, sym}
use notipus.Base.Int.{ℤ, pos}
use notipus.Base.Json.{Json}
use notipus.Subscriptions.{add, add_found, item_total, sum_from}

add_right_comm : (z a b : ℤ) → add (add z a) b ≡ add (add z b) a
unfolding add
add_right_comm z a b = ground arith

add_found-swap :
    (total a b : Option ℤ) → add_found (add_found total a) b ≡ add_found (add_found total b) a
add_found-swap total none none = refl
add_found-swap none none (some b) = refl
add_found-swap (some z) none (some b) = refl
add_found-swap none (some a) none = refl
add_found-swap (some z) (some a) none = refl
add_found-swap none (some a) (some b) = ap some (add_right_comm (pos 0) a b)
add_found-swap (some z) (some a) (some b) = ap some (add_right_comm z a b)

Option_ℤ-set : IsSet (Option ℤ)
Option_ℤ-set = hlevel

module _ (parse_int : String → Option ℤ) where
  abbrev from_right : Json → Option ℤ → Option ℤ
  from_right item total = add_found total (item_total parse_int item)

  sum_from-add_found :
      (items : List Json) (total a : Option ℤ)
      → sum_from parse_int (add_found total a) items ≡ add_found (sum_from parse_int total items) a
  unfolding sum_from
  sum_from-add_found [] total a = refl
  sum_from-add_found (x ∷ items) total a =
      ap (λ t. sum_from parse_int t items) (add_found-swap total a (item_total parse_int x))
      ∙ sum_from-add_found items (add_found total (item_total parse_int x)) a

  sum_from-foldr :
      (items : List Json) (total : Option ℤ)
      → sum_from parse_int total items ≡ foldr from_right total items
  unfolding sum_from
  sum_from-foldr [] total = refl
  sum_from-foldr (x ∷ items) total =
      sum_from-add_found items total (item_total parse_int x)
      ∙ ap (λ t. add_found t (item_total parse_int x)) (sum_from-foldr items total)

  -- The sum is the same in whatever order the items are listed.
  pub sum_from-perm :
      (xs ys : List Json) → Perm xs ys → sum_from parse_int none xs ≡ sum_from parse_int none ys
  sum_from-perm xs ys same =
      sum_from-foldr xs none
      ∙ Perm.foldr-eq Option_ℤ-set from_right
          (λ x y total. add_found-swap total (item_total parse_int y) (item_total parse_int x)) same
          none
      ∙ sym (sum_from-foldr ys none)

-- ===== src/Base/JsonEquality.antt =====
-- Python's `==` on values that were parsed from JSON. A truth value equals the number 0 or 1, and
-- dictionaries are equal whatever the order of their keys.
use Prim.Native.Nat.{ℕ}
use Prim.Native.String.{String}
use mathlib.Core.Path.{◌≡◌, refl}
use mathlib.Core.Bool.{Bool, true, false, ◌&&◌}
use mathlib.Core.Option.{none, some}
use native.Mathlib.Omega.{arith}
use package.text.Mathlib.Text.{◌==◌ as str_eq}
use package.text.Mathlib.TextEquality.{eq_iff}
use package.text.Mathlib.TextPositions.{eq_refl}
use notipus.Base.Tests.{◌==◌}
use notipus.Base.Int.{ℤ, pos, negsuc}
use notipus.Base.Json.{
  Json, null, boolean, number, text, array, object, Items, nil, cons, Fields, end, field, find,
  size, is_absent, well_keyed, well_keyed_items, well_keyed_fields,
}

abbrev same_int : ℤ → ℤ → Bool
same_int (pos n) (pos m) = n == m
same_int (negsuc n) (negsuc m) = n == m
same_int _ _ = false

-- `int(b)`
abbrev digit : Bool → ℤ
digit true = pos 1
digit false = pos 0

abbrev same_number : ℤ → Json → Bool
same_number z (number w) = same_int z w
same_number z (boolean b) = same_int z (digit b)
same_number z _ = false

-- `a == b`
unfoldable mutual
  pub same : Json → Json → Bool
  same null null = true
  same (boolean a) y = same_number (digit a) y
  same (number z) y = same_number z y
  same (text s) (text t) = str_eq s t
  same (array xs) (array ys) = same_items xs ys
  same (object d) (object e) = (size d == size e) && within d e
  same _ _ = false

  pub same_items : Items → Items → Bool
  same_items nil nil = true
  same_items (cons x xs) (cons y ys) = same x y && same_items xs ys
  same_items _ _ = false

  -- Every entry of the one dictionary is in the other.
  pub within : Fields → Fields → Bool
  within end e = true
  within (field k v d) e = elim (find k e) [ none ↦ false | some w ↦ same v w ] && within d e

unfoldable pub same_fields : Fields → Fields → Bool
unfolding same
same_fields d e = (size d == size e) && within d e

-- Each entry of the one is found in the other.
abbrev Covers : Fields → Fields → Type 0
Covers d e = (k : String) (v : Json) → find k d ≡ some v → find k e ≡ some v

Covers-rest :
    (k : String) (v : Json) (d e : Fields)
    → is_absent (find k d) ≡ true
    → Covers (field k v d) e
    → Covers d e
Covers-rest k v d e a c j w h = c j w (ground (arith, eq_iff k j))

same_number_refl : (n : ℕ) → (n == n) ≡ true
same_number_refl n = ground arith

same_int_refl : (z : ℤ) → same_int z z ≡ true
same_int_refl (pos n) = ground arith
same_int_refl (negsuc n) = ground arith

mutual
  unfolding same

  same_refl : (x : Json) → well_keyed x ≡ true → same x x ≡ true
  same_refl null h = refl
  same_refl (boolean true) h = refl
  same_refl (boolean false) h = refl
  same_refl (number z) h = same_int_refl z
  same_refl (text s) h = eq_refl s
  same_refl (array xs) h = same_items_refl xs h
  same_refl (object d) h = rw (same_number_refl (size d), within_refl d d h (λ k v e. e))

  same_items_refl : (xs : Items) → well_keyed_items xs ≡ true → same_items xs xs ≡ true
  same_items_refl nil h = refl
  same_items_refl (cons x xs) h =
      let first : well_keyed x ≡ true = ground arith in
      let rest : well_keyed_items xs ≡ true = ground arith in
      rw (same_refl x first) (same_items_refl xs rest)

  within_refl : (d e : Fields) → well_keyed_fields d ≡ true → Covers d e → within d e ≡ true
  within_refl end e h c = refl
  within_refl (field k v d) e h c =
      let absent : is_absent (find k d) ≡ true = ground arith in
      let inner : well_keyed v ≡ true = ground arith in
      let rest : well_keyed_fields d ≡ true = ground arith in
      rw (c k v (rw (eq_refl k)), same_refl v inner)
        (within_refl d e rest (Covers-rest k v d e absent c))

-- A dictionary equals itself.
pub same_fields_refl : (d : Fields) → well_keyed_fields d ≡ true → same_fields d d ≡ true
unfolding same_fields
same_fields_refl d h = rw (same_number_refl (size d), within_refl d d h (λ k v e. e))

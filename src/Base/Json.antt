-- ===== src/Base/Json.antt =====
-- Values of Python dictionaries that were parsed from JSON. A number is whole: a fractional amount is
-- given in its smallest unit. A dictionary keeps the order in which its keys were set.
use Prim.Native.Nat.{ℕ, suc}
use Prim.Native.String.{String}
use mathlib.Core.Path.{◌≡◌, refl}
use mathlib.Core.Bool.{Bool, true, false, not, ◌&&◌}
use mathlib.Core.Option.{Option, none, some}
use native.Mathlib.Omega.{arith}
use package.text.Mathlib.Text.{◌==◌ as str_eq}
use package.text.Mathlib.TextEquality.{eq_iff}
use package.text.Mathlib.TextPositions.{eq_refl}
use notipus.Base.Tests.{◌==◌, if◌then◌else◌}
use notipus.Base.Text.{truthy}
use notipus.Base.Int.{ℤ, pos, negsuc}

mutual
  pub data Json : Type 0 where
    null : Json
    boolean : Bool → Json
    number : ℤ → Json
    text : String → Json
    array : Items → Json
    object : Fields → Json

  pub data Items : Type 0 where
    nil : Items
    cons : Json → Items → Items

  pub data Fields : Type 0 where
    end : Fields
    field : String → Json → Fields → Fields

-- `bool(value)`
unfoldable pub is_true : Json → Bool
unfolding truthy
is_true null = false
is_true (boolean b) = b
is_true (number (pos n)) = not (n == 0)
is_true (number (negsuc n)) = true
is_true (text s) = truthy s
is_true (array nil) = false
is_true (array (cons x xs)) = true
is_true (object end) = false
is_true (object (field k v d)) = true

-- `d.get(k)`, where an absent key and one that holds `None` are told apart.
abbrev pub find : String → Fields → Option Json
find k end = none
find k (field j v d) = if str_eq j k then some v else find k d

abbrev pub or_null : Option Json → Json
or_null none = null
or_null (some v) = v

-- `d.get(k)`
abbrev pub get : String → Fields → Json
get k d = or_null (find k d)

abbrev pub is_absent : Option Json → Bool
is_absent none = true
is_absent (some _) = false

abbrev pub size : Fields → ℕ
size end = 0
size (field k v d) = suc (size d)

-- `d[k] = v`
abbrev pub put : String → Json → Fields → Fields
put k v end = field k v end
put k v (field j w d) = if str_eq j k then field k v d else field j w (put k v d)

pub find-put :
    (k j : String) (v : Json) (d : Fields)
    → find j (put k v d) ≡ (if str_eq k j then some v else find j d)
find-put k j v end = refl
find-put k j v (field i w d) = ground (arith, eq_iff k j, eq_iff i k, eq_iff i j, find-put k j v d)

pub get-put_self : (k : String) (v : Json) (d : Fields) → get k (put k v d) ≡ v
get-put_self k v d = rw (find-put k k v d, eq_refl k)

-- `isinstance(value, dict)`
abbrev pub as_object : Json → Option Fields
as_object (object d) = some d
as_object _ = none

-- The text of a value, if it is one.
abbrev pub as_text : Json → Option String
as_text (text s) = some s
as_text _ = none

abbrev pub is_null : Json → Bool
is_null null = true
is_null _ = false

-- Whether the value is a given text.
abbrev pub is_text : String → Json → Bool
is_text t (text s) = str_eq s t
is_text t _ = false

-- The keys of a dictionary differ, as do those of every dictionary in it.
abbrev mutual
  pub well_keyed : Json → Bool
  well_keyed (array xs) = well_keyed_items xs
  well_keyed (object d) = well_keyed_fields d
  well_keyed _ = true

  pub well_keyed_items : Items → Bool
  well_keyed_items nil = true
  well_keyed_items (cons x xs) = well_keyed x && well_keyed_items xs

  pub well_keyed_fields : Fields → Bool
  well_keyed_fields end = true
  well_keyed_fields (field k v d) = (is_absent (find k d) && well_keyed v) && well_keyed_fields d

pub get-put :
    (k j : String) (v : Json) (d : Fields) → get j (put k v d) ≡ (if str_eq k j then v else get j d)
get-put k j v d = rw (find-put k j v d) (ground arith)

pub get-put_other :
    (k j : String) (v : Json) (d : Fields) → str_eq k j ≡ false → get j (put k v d) ≡ get j d
get-put_other k j v d h = rw (get-put k j v d, h)

pub ruleset json_laws = (get-put, get-put_self, get-put_other)

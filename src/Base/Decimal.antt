-- ===== src/Base/Decimal.antt =====
-- `str(n)` of a natural number.
use Prim.Native.Nat.{ℕ, zero, suc, ◌/◌, ◌%◌}
use Prim.Native.String.{String, ◌++◌ as push}
use mathlib.Core.List.{List, [], ◌∷◌}
use notipus.Base.Tests.{ltb, if◌then◌else◌}

abbrev digit_names : List String
digit_names = "0" ∷ "1" ∷ "2" ∷ "3" ∷ "4" ∷ "5" ∷ "6" ∷ "7" ∷ "8" ∷ "9" ∷ []

unfoldable name_at : ℕ → List String → String
name_at n [] = ""
name_at zero (name ∷ names) = name
name_at (suc n) (name ∷ names) = name_at n names

-- A number has fewer digits than the fuel, which is the number's successor.
unfoldable digits : ℕ → ℕ → String
unfolding name_at
digits zero n = ""
digits (suc fuel) n =
    let higher = digits fuel (n / 10) in
    if ltb n 10 then name_at n digit_names else push higher (name_at (n % 10) digit_names)

unfoldable pub str : ℕ → String
unfolding digits
str n = digits (suc n) n

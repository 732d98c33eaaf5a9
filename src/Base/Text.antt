-- ===== src/Base/Text.antt =====
-- Texts put together, as an f-string does, and sets of texts.
use Prim.Native.String.{String, ◌++◌ as push}
use Prim.Native.String.append
use Prim.Native.Char.{Char, code}
use Prim.Native.Nat.{ℕ}
use mathlib.Core.Bool.{Bool, true, false, not, ◌||◌, ◌&&◌}
use mathlib.Core.Option.{Option, none, some}
use mathlib.Core.List.{List, [], ◌∷◌}
use mathlib.Core.Path.{◌≡◌, refl, ap, sym, ◌∙◌}
use native.Mathlib.Omega.{arith}
use text.Mathlib.Text.{◌==◌ as str_eq}
use text.Mathlib.TextEquality.{eq_iff}
use notipus.Base.Tests.{if◌then◌else◌, ◌==◌}

unfoldable pub concat : List String → String
concat [] = ""
concat (s ∷ []) = s
concat (s ∷ t ∷ ss) = push s (concat (t ∷ ss))

-- `x in xs`
unfoldable pub contains : String → List String → Bool
contains x [] = false
contains x (y ∷ ys) = str_eq y x || contains x ys

-- `xs | ys`, for sets of texts.
unfoldable pub union : List String → List String → List String
unfolding contains
union xs [] = xs
union xs (y ∷ ys) = if contains y xs then union xs ys else y ∷ union xs ys

-- A text is true in Python exactly if it is not empty.
unfoldable pub truthy : String → Bool
truthy s = if str_eq s "" then false else true

-- The text of a value that is neither `None` nor empty.
unfoldable pub non_empty : Option String → Option String
unfolding truthy
non_empty none = none
non_empty (some s) = if truthy s then some s else none

pub contains-union :
    (x : String) (xs ys : List String) → contains x (union xs ys) ≡ (contains x xs || contains x ys)
unfolding union contains
contains-union x xs [] = ground arith
contains-union x xs (y ∷ ys) = ground (arith, contains-union x xs ys, eq_iff y x)

-- Two texts with one beginning are equal only if their ends are.
pub push-injective : (s t u : String) → push s t ≡ push s u → t ≡ u
push-injective String.[] t u h = cc (append.nil t, append.nil u)
push-injective (String.◌∷◌ c s) t u h =
    push-injective s t u (cc (append.cons c s t, append.cons c s u))

unfoldable pub no_colon : String → Bool
no_colon String.[] = true
no_colon (String.◌∷◌ c s) = not (code c == b':') && no_colon s

first_code : String → ℕ
first_code String.[] = 0
first_code (String.◌∷◌ c s) = code c

colon_first : (a : String) → push ":" a ≡ String.◌∷◌ ":" a
colon_first a = cc (append.cons ":" "" a, append.nil a)

-- A colon stands before the end of a text that has none.
early_colon :
    {A : Type 0} (c : Char) (s a b : String)
    → no_colon (String.◌∷◌ c s) ≡ true
    → push ":" a ≡ String.◌∷◌ c (push s (push ":" b))
    → A
unfolding no_colon first_code
early_colon c s a b h same = absurd (ground (arith, h, is_colon))
  where
    is_colon : 58 ≡ code c
    is_colon = ap first_code (sym (colon_first a) ∙ same)

-- Texts before the first colon, and after it, can be told from the whole.
pub colon-injective :
    (w v a b : String)
    → no_colon w ≡ true
    → no_colon v ≡ true
    → push w (push ":" a) ≡ push v (push ":" b)
    → (w ≡ v) × (a ≡ b)
unfolding no_colon
colon-injective String.[] String.[] a b h k same =
    (refl, push-injective ":" a b (cc (append.nil (push ":" a), append.nil (push ":" b))))
colon-injective String.[] (String.◌∷◌ d v) a b h k same =
    early_colon d v a b k (cc (same, append.nil (push ":" a), append.cons d v (push ":" b)))
colon-injective (String.◌∷◌ c w) String.[] a b h k same =
    early_colon c w b a h (cc (same, append.nil (push ":" b), append.cons c w (push ":" a)))
colon-injective (String.◌∷◌ c w) (String.◌∷◌ d v) a b h k same =
    let (first, shorter) = parts in
    let (before, after) = colon-injective w v a b (ground (arith, h)) (ground (arith, k)) shorter in
    (cc (first, before), after)
  where
    parts : (c ≡ d) × (push w (push ":" a) ≡ push v (push ":" b))
    parts = (
      cc (same, append.cons c w (push ":" a), append.cons d v (push ":" b)),
      cc (same, append.cons c w (push ":" a), append.cons d v (push ":" b)),
    )

-- No text stands in both sets.
unfoldable pub disjoint : List String → List String → Bool
unfolding contains
disjoint [] ys = true
disjoint (x ∷ xs) ys = not (contains x ys) && disjoint xs ys

pub contains-disjoint :
    (x : String) (xs ys : List String)
    → disjoint xs ys ≡ true
    → contains x xs ≡ true
    → contains x ys ≡ false
unfolding disjoint
contains-disjoint x [] ys d h = cc
contains-disjoint x (y ∷ xs) ys d h = ground (arith, eq_iff y x, contains-disjoint x xs ys)

-- ===== src/Billing/Plans.antt =====
-- Stripe's statuses and the plan names: `map_stripe_status`, `_normalize_plan_name` and
-- `_extract_plan_name_from_subscription` of app/webhooks/services/billing.py. Texts are walked by their
-- code points; `lower` and `strip` are those of ASCII.
use Prim.Native.Char.{code}
use notipus.Base.{
  ℕ, zero, suc, ◌+◌, ◌-◌, ◌≡◌, refl, String, Bool, true, false, ◌&&◌, ◌||◌, Option, none, some,
  List, [], ◌∷◌, map, length, leb, ◌==◌, if◌then◌else◌, non_empty,
}
use mathlib.Core.List.{reverse}
use mathlib.Core.Option.{get_or}
use notipus.Base.Dict.{Dict, lookup}
use notipus.Billing.Workspaces.{Status, active, trial, suspended, past_due, cancelled}

-- `STRIPE_STATUS_MAPPING`
abbrev pub stripe_status_mapping : Dict Status
stripe_status_mapping =
    ("active", active)
    ∷ ("trialing", trial)
    ∷ ("past_due", past_due)
    ∷ ("canceled", cancelled)
    ∷ ("unpaid", past_due)
    ∷ ("incomplete", suspended)
    ∷ ("incomplete_expired", cancelled)
    ∷ ("paused", suspended)
    ∷ []

-- A status that is not understood suspends the workspace.
unfoldable pub map_stripe_status : String → Status
map_stripe_status stripe_status = get_or (lookup stripe_status stripe_status_mapping) suspended

abbrev pub valid_plan_keys : List String
valid_plan_keys = "free" ∷ "basic" ∷ "pro" ∷ "enterprise" ∷ []

abbrev pub codes : String → List ℕ
codes String.[] = []
codes (String.◌∷◌ c s) = code c ∷ codes s

unfoldable pub lower : List ℕ → List ℕ
lower = map λ c. if leb b'A' c && leb c b'Z' then c + 32 else c

unfoldable pub is_prefix : List ℕ → List ℕ → Bool
is_prefix [] xs = true
is_prefix (p ∷ ps) [] = false
is_prefix (p ∷ ps) (x ∷ xs) = p == x && is_prefix ps xs

-- `s.replace(p, "")` for a pattern that is not empty. The number says how many characters of a
-- pattern that was found are left to skip.
unfoldable pub remove_from : List ℕ → ℕ → List ℕ → List ℕ
unfolding is_prefix
remove_from p skip [] = []
remove_from p (suc skip) (x ∷ xs) = remove_from p skip xs
remove_from p zero (x ∷ xs) = elim (is_prefix p (x ∷ xs)) [
  | true ↦ remove_from p (length p - 1) xs
  | false ↦ x ∷ remove_from p zero xs
]

abbrev is_space : ℕ → Bool
is_space c = c == 32 || leb 9 c && leb c 13 || leb 28 c && leb c 31

unfoldable pub lstrip : List ℕ → List ℕ
lstrip [] = []
lstrip (x ∷ xs) = elim (is_space x) [ true ↦ lstrip xs | false ↦ x ∷ xs ]

unfoldable pub strip : List ℕ → List ℕ
unfolding lstrip
strip xs = reverse (lstrip (reverse (lstrip xs)))

unfoldable pub same_codes : List ℕ → List ℕ → Bool
same_codes [] [] = true
same_codes (x ∷ xs) (y ∷ ys) = x == y && same_codes xs ys
same_codes _ _ = false

-- The key with the given code points, if there is one.
unfoldable pub key_of : List String → List ℕ → Option String
unfolding same_codes
key_of [] xs = none
key_of (key ∷ keys) xs = if same_codes (codes key) xs then some key else key_of keys xs

unfoldable pub normalize_plan_name : String → Option String
unfolding lower remove_from strip key_of
normalize_plan_name raw_plan_name = key_of valid_plan_keys (
    strip (
      remove_from (codes " plan") 0
        (remove_from (codes "notipus ") 0 (lower (codes raw_plan_name)))))

-- An item of a subscription, as `_extract_subscription_items` builds it.
pub record Item : Type 0 where
  pub plan_name : Option String
  pub product_name : Option String

-- A name that is missing or empty is passed over, and so is one that is not a plan.
unfoldable pub first_plan : List (Option String) → Option String
first_plan [] = none
first_plan (raw_name ∷ names) = elim (non_empty raw_name) [
  | none ↦ first_plan names
  | some name ↦ elim (normalize_plan_name name) [
    | some plan_name ↦ some plan_name
    | none ↦ first_plan names
  ]
]

unfoldable pub extract_plan_name : List Item → Option String
unfolding first_plan
extract_plan_name [] = none
extract_plan_name (first_item ∷ items) =
    first_plan (first_item.plan_name ∷ first_item.product_name ∷ [])

abbrev samples : List (Option String)
samples =
    map normalize_plan_name
      ("Enterprise Plan" ∷ "Notipus Pro Plan" ∷ " PRO " ∷ "free" ∷ "gold plan" ∷ "" ∷ [])

samples-eq :
    samples ≡ (some "enterprise" ∷ some "pro" ∷ some "pro" ∷ some "free" ∷ none ∷ none ∷ [])
unfolding normalize_plan_name
samples-eq = refl

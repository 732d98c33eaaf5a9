-- ===== src/Limits/Alerts.antt =====
-- Usage alerts: app/core/services/usage_alerts.py. A grace multiplier has two decimal places, and is
-- kept in hundredths. The plan table and the e-mail are outside.
pub mod Crossings
use notipus.Base.{
  ℕ, suc, ◌+◌, ◌*◌, ◌/◌, ◌<◌, max, String, Bool, true, false, Option, none, some, List, [], ◌∷◌,
  ◌==◌, ltb, concat, if◌then◌else◌,
}
use notipus.Base.Call.{Outcome, ok, raised}
use notipus.Cache.{Cache, CacheError, get, set}

abbrev pub grace_multiplier_cache_ttl : ℕ
grace_multiplier_cache_ttl = 300

abbrev pub warning_threshold_percent : ℕ
warning_threshold_percent = 80

abbrev pub default_grace_multiplier : ℕ
default_grace_multiplier = 200

-- `-(-limit * 80 // 100)` rounds up.
unfoldable pub warning_count : ℕ → ℕ
warning_count limit = max 1 ((limit * warning_threshold_percent + 99) / 100)

pub data DatabaseError : Type 0 where
  unreadable : DatabaseError

-- The multiplier of the active plan of a name, from the plan table, which may be unreadable.
abbrev pub PlanTable : Type 0
PlanTable = String → Outcome DatabaseError (Option ℕ)

module _ (c : Cache ℕ) (now : ℕ) where
  unfoldable pub multiplier_key : String → String
  multiplier_key plan_name = concat ("plan_grace_multiplier:" ∷ plan_name ∷ [])

  -- The multiplier is kept for later calls; a cache that fails is ignored.
  unfoldable pub keep_multiplier : String → ℕ → c.State → ℕ × c.State
  keep_multiplier plan_name multiplier s =
      let (_, s') = set c now (multiplier_key plan_name) multiplier grace_multiplier_cache_ttl s in
      (multiplier, s')

  unfoldable pub read_plan : String → Outcome DatabaseError (Option ℕ) → c.State → ℕ × c.State
  unfolding keep_multiplier
  read_plan plan_name (raised e) s = (default_grace_multiplier, s)
  read_plan plan_name (ok none) s = keep_multiplier plan_name default_grace_multiplier s
  read_plan plan_name (ok (some multiplier)) s = keep_multiplier plan_name multiplier s

  unfoldable pub use_cached :
      PlanTable → String → Outcome CacheError (Option ℕ) × c.State → ℕ × c.State
  unfolding read_plan
  use_cached plans plan_name (ok (some cached), s) = (cached, s)
  use_cached plans plan_name (ok none, s) = read_plan plan_name (plans plan_name) s
  use_cached plans plan_name (raised e, s) = read_plan plan_name (plans plan_name) s

  unfoldable pub grace_multiplier_for : PlanTable → String → c.State → ℕ × c.State
  unfolding use_cached
  grace_multiplier_for plans plan_name s =
      use_cached plans plan_name (get c now (multiplier_key plan_name) s)

-- The product with the multiplier, rounded up, and never below the limit.
unfoldable pub hard_limit : ℕ → ℕ → ℕ
hard_limit limit multiplier = max ((limit * multiplier + 99) / 100) limit

pub data Alert : Type 0 where
  warning exceeded paused : Alert

-- Which alert a count sends, if any, where `hard_at` is the hard cap.
unfoldable pub dispatch_crossing_alert : ℕ → ℕ → ℕ → Option Alert
unfolding warning_count
dispatch_crossing_alert new_usage limit hard_at =
    if ltb limit new_usage
    then (if new_usage == hard_at
        then some paused
        else if new_usage == limit + 1
        then some exceeded
        else none)
    else if new_usage == limit
    then (if hard_at == limit
        then some paused
        else if new_usage == warning_count limit
        then some warning
        else none)
    else if new_usage == warning_count limit
    then some warning
    else none

-- ===== src/Limits/Alerts/Crossings.antt =====
-- At which counts app/core/services/usage_alerts.py sends the alerts.
use notipus.Base.{ℕ, ◌+◌, ◌*◌, ◌≤◌, ◌≡◌, ◌≢◌, ◌↔◌, some, arith}
use notipus.Limits.Alerts.{
  warning, exceeded, paused, warning_count, hard_limit, dispatch_crossing_alert,
}

-- The warning count is the least number, from one on, that is at least 80 percent of the limit.
warning_count_least : (limit n : ℕ) → (warning_count limit ≤ n) ↔ (1 ≤ n) × (limit * 80 ≤ n * 100)
unfolding warning_count
warning_count_least limit n = (λ h. (omega arith, omega arith), λ h. omega arith)

-- The warning count of a limit of at least one is between one and the limit.
warning_count_bounds :
    (limit : ℕ) → 1 ≤ limit → (1 ≤ warning_count limit) × (warning_count limit ≤ limit)
unfolding warning_count
warning_count_bounds limit h = (omega arith, omega arith)

-- The hard cap is the least number that is at least the limit and at least the limit times the
-- multiplier, which is given in hundredths.
hard_limit_least :
    (limit multiplier n : ℕ)
    → (hard_limit limit multiplier ≤ n) ↔ (limit ≤ n) × (limit * multiplier ≤ n * 100)
unfolding hard_limit
hard_limit_least limit multiplier n = (λ h. (omega arith, omega arith), λ h. omega arith)

module _ (limit hard n : ℕ) (some_limit : 1 ≤ limit) (above : limit ≤ hard)
    (reached : n ≤ hard) where
  -- For a limit of at least one, a hard cap that is at least the limit, and a count up to the cap,
  -- the pause is announced at the cap and nowhere else.
  paused_at_cap : (dispatch_crossing_alert n limit hard ≡ some paused) ↔ (n ≡ hard)
  unfolding dispatch_crossing_alert
  paused_at_cap = ground arith

  -- For a limit of at least one, a hard cap that is at least the limit, and a count up to
  -- the cap, the alert that the limit is exceeded is sent at the first count past the limit, unless
  -- that is the cap, and nowhere else.
  exceeded_once :
      (dispatch_crossing_alert n limit hard ≡ some exceeded) ↔ (n ≡ limit + 1) × (n ≢ hard)
  unfolding dispatch_crossing_alert
  exceeded_once = ground arith

  -- For a limit of at least one, a hard cap that is at least the limit, and a count up to
  -- the cap, the warning is sent at the warning count, unless that is the cap, and nowhere else.
  warning_once :
      (dispatch_crossing_alert n limit hard ≡ some warning) ↔ (n ≡ warning_count limit) × (n ≢ hard)
  unfolding dispatch_crossing_alert
  warning_once = ground (arith, warning_count_bounds limit some_limit)

-- ===== src/Examples/Limits.antt =====
-- Instances of the theorems on app/webhooks/services/rate_limiter.py and on
-- app/core/services/usage_alerts.py.
use notipus.Base.{ℕ, zero, suc, ◌≤◌, ◌≡◌, refl, true, false, List, [], ◌∷◌, arith, All}
use notipus.Base.Call.{ok}
use notipus.Cache.{get, incr, incr_value}
use notipus.Cache.Memory.{memory_counters, steady_counters, MemoryState, fresh}
use notipus.Limits.Breaker.{
  new_breaker, call_with_circuit_breaker, is_circuit_open, guarded, settle, record_success,
}
use notipus.Limits.Fallback.{Fallback, set_to_fallback}
use notipus.Limits.Alerts.{hard_limit, warning_count, dispatch_crossing_alert}
use notipus.Limits.Limiter.{
  Organization, Clock, Limiter, check_rate_limit, get_hard_limit, get_organization_limit,
  get_cache_key, judge, cache_get_with_health, settle_get, protected, increment_usage,
  safe_cache_incr, settle_incr, incr_or_add, remember, after_incr,
}
use notipus.Limits.Limiter.Enforcement.{
  enforce_rate_limit, proceed, pre_check, after_increment, recheck_cap, exceeds,
}
use notipus.Limits.Limiter.Cap.{raced_within_cap}
use notipus.Limits.Limiter.Healthy.{accepted, counted, enforce_accepts}
use notipus.Limits.Limiter.Outage.{FailsClosed, FailsOpen, outage_by_setting}
use notipus.Limits.Limiter.Month.{serve, serve-month, InMonth}

abbrev acme : Organization
acme = record { uuid = "4f1c"; subscription_plan = "free" }

abbrev july : ℕ → Clock
july time = record { time = time; year = 2026; month = 7; month_key = "2026-07" }

abbrev no_fallback : Fallback
no_fallback = record { entries = []; last_eviction_warn = 0 }

abbrev limiter_with : MemoryState ℕ → Limiter (MemoryState ℕ)
limiter_with s = record { breaker = new_breaker; fallback = no_fallback; cache = s }

-- A cache that holds a count for July.
abbrev holding : ℕ → MemoryState ℕ
holding used = record {
  up = λ t. true;
  entries = (get_cache_key "4f1c" "2026-07", (used, 9000000)) ∷ [];
}

abbrev down : MemoryState ℕ
down = record { up = λ t. false; entries = [] }

abbrev webhooks : ℕ → List Clock
webhooks zero = []
webhooks (suc k) = july 1000 ∷ webhooks k

webhooks-InMonth :
    (k : ℕ) → All (InMonth steady_counters true 100 acme "2026-07" 1000 (λ s t. refl)) (webhooks k)
webhooks-InMonth zero = tt
webhooks-InMonth (suc k) =
    (record { month = refl; after = omega arith; before = omega arith }, webhooks-InMonth k)

serve-month_example : serve steady_counters true 100 acme (webhooks 25) (limiter_with fresh) ≡ 20
unfolding get_hard_limit get_organization_limit hard_limit
serve-month_example =
    serve-month steady_counters true 100 acme "2026-07" 1000 (λ s t. refl) (webhooks 25)
      (limiter_with fresh) (webhooks-InMonth 25) refl (λ t a b. refl)

abbrev noon : Clock
noon = july 1000

-- One request has seen 18, another has counted the 19th meanwhile.
abbrev seen_18 : Limiter (MemoryState ℕ)
seen_18 = limiter_with (holding 18)

abbrev holds_19 : Limiter (MemoryState ℕ)
holds_19 = limiter_with (holding 19)

abbrev holds_20 : Limiter (MemoryState ℕ)
holds_20 = counted memory_counters noon holds_19 refl refl (get_cache_key "4f1c" "2026-07")

accepts_20 :
    enforce_rate_limit memory_counters noon true 100 acme holds_19
    ≡ (ok (accepted noon acme 20 20), holds_20)
unfolding get_hard_limit get_organization_limit hard_limit get_cache_key
accepts_20 = enforce_accepts memory_counters noon holds_19 refl refl true 100 acme (omega arith)

raced_run :
    proceed memory_counters noon true 100 acme
      (pre_check 20 (check_rate_limit memory_counters noon true acme seen_18).0)
      holds_19
    ≡ (ok (accepted noon acme 20 20), holds_20)
unfolding proceed pre_check check_rate_limit get_organization_limit get_hard_limit hard_limit judge
    cache_get_with_health settle_get protected increment_usage safe_cache_incr settle_incr
    incr_or_add remember after_incr get incr incr_value is_circuit_open call_with_circuit_breaker
    guarded settle record_success after_increment recheck_cap exceeds dispatch_crossing_alert
    warning_count set_to_fallback get_cache_key
raced_run = refl

raced_within_cap_example : (accepted noon acme 20 20).info.current_usage ≤ 20
unfolding get_hard_limit get_organization_limit hard_limit
raced_within_cap_example =
    raced_within_cap memory_counters noon true 100 acme seen_18 holds_19 holds_20
      (accepted noon acme 20 20) raced_run refl

outage_by_setting_example :
    FailsClosed memory_counters noon
      (limiter_with down)
      refl
      (enforce_rate_limit memory_counters noon true 100 acme (limiter_with down))
    × FailsOpen memory_counters noon
        (limiter_with down)
        refl
        (enforce_rate_limit memory_counters noon false 100 acme (limiter_with down))
outage_by_setting_example = outage_by_setting memory_counters noon (limiter_with down) refl 100 acme

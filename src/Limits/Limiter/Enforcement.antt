-- ===== src/Limits/Limiter/Enforcement.antt =====
-- `enforce_rate_limit` of app/webhooks/services/rate_limiter.py: the soft limit, the hard cap, the
-- count and the alert of one webhook.
use notipus.Base.{
  ℕ, ◌-◌, Bool, true, false, not, ◌&&◌, Option, none, some, ltb, leb, is_some, if◌then◌else◌,
}
use mathlib.Core.Option.{get_or}
use notipus.Base.Call.{Outcome, ok, raised}
use notipus.Cache.{Counters}
use notipus.Limits.Alerts.{Alert, dispatch_crossing_alert}
use notipus.Limits.Limiter.{
  Organization, Clock, RateLimitInfo, RateLimitException, Refusal, failing_closed,
  hard_limit_reached, State, check_rate_limit, increment_usage, get_hard_limit,
}

-- The information of an allowed webhook, and the alert that was sent for it.
pub record Allowed : Type 0 where
  pub info : RateLimitInfo
  pub alert : Option Alert

abbrev pub refuse : Refusal → RateLimitInfo → RateLimitException
refuse refusal info = record {
  refusal = refusal;
  limit = info.limit;
  current_usage = info.current_usage;
  reset = info.reset;
}

-- Before the increment: the information and the hard cap, if it was needed.
unfoldable pub pre_check :
    ℕ → Bool × RateLimitInfo → Outcome RateLimitException (RateLimitInfo × Option ℕ)
pre_check hard (true, info) = ok (info, none)
pre_check hard (false, info) =
    if is_some info.reason
    then raised (refuse failing_closed info)
    else if leb hard info.current_usage
    then raised (refuse hard_limit_reached info)
    else ok (record info { over_limit = true }, some hard)

-- The hard cap is looked up once more where the count has passed the limit and it was not needed
-- before: two requests may both have seen the count below the limit.
unfoldable pub recheck_cap : ℕ → RateLimitInfo → ℕ → Option ℕ → Option ℕ
recheck_cap hard info new_usage hard_cap =
    if ltb info.limit new_usage && not (is_some hard_cap) then some hard else hard_cap

unfoldable pub exceeds : Option ℕ → ℕ → Bool
exceeds none new_usage = false
exceeds (some cap) new_usage = ltb cap new_usage

-- After the increment. Where the cache had failed, the count is not to be trusted: the cap and the
-- alerts are left out.
unfoldable pub after_increment :
    ℕ → RateLimitInfo → Option ℕ → ℕ → Outcome RateLimitException Allowed
unfolding recheck_cap exceeds
after_increment hard info hard_cap new_usage =
    let counted = record info { current_usage = new_usage } in
    let cap = recheck_cap hard info new_usage hard_cap in
    if info.cache_healthy
    then (if exceeds cap new_usage
        then raised (refuse hard_limit_reached counted)
        else ok (record {
          info = record counted {
            remaining = info.limit - new_usage;
            over_limit = ltb info.limit new_usage;
          };
          alert = dispatch_crossing_alert new_usage info.limit (get_or cap hard);
        }))
    else ok (record { info = counted; alert = none })

module _ (n : Counters) (clock : Clock) (fail_closed : Bool) (multiplier : ℕ)
    (organization : Organization) where
  unfoldable pub proceed :
      Outcome RateLimitException (RateLimitInfo × Option ℕ)
      → State n clock
      → Outcome RateLimitException Allowed × State n clock
  proceed (raised e) l = (raised e, l)
  proceed (ok (info, hard_cap)) l =
      let (new_usage, l') = increment_usage n clock organization l in
      (after_increment (get_hard_limit multiplier organization) info hard_cap new_usage, l')

  unfoldable pub enforce_rate_limit :
      State n clock → Outcome RateLimitException Allowed × State n clock
  unfolding proceed
  enforce_rate_limit l =
      let (checked, l') = check_rate_limit n clock fail_closed organization l in
      proceed (pre_check (get_hard_limit multiplier organization) checked) l'

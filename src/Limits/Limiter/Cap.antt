-- ===== src/Limits/Limiter/Cap.antt =====
-- The hard cap of `enforce_rate_limit` (app/webhooks/services/rate_limiter.py), whatever other requests
-- do between the check and the count.
use notipus.Base.{ℕ, ◌≤◌, ◌≡◌, refl, ◌∙◌, Bool, true, false, Option, none, some, arith}
use notipus.Base.Call.{Outcome, ok, raised}
use notipus.Cache.{Counters}
use notipus.Limits.Alerts.{hard_limit}
use notipus.Limits.Limiter.{
  Organization, Clock, RateLimitException, RateLimitInfo, State, check_rate_limit, judge,
  cache_get_with_health, usage_key, increment_usage, get_hard_limit, get_organization_limit,
}
use notipus.Limits.Limiter.Enforcement.{
  Allowed, pre_check, after_increment, proceed, enforce_rate_limit,
}

pub limit-le-hard :
    (multiplier : ℕ) (o : Organization) → get_organization_limit o ≤ get_hard_limit multiplier o
unfolding get_hard_limit hard_limit
limit-le-hard multiplier o = omega arith

-- A cap that the pre-check has looked up is the hard cap.
abbrev IsCap : ℕ → Option ℕ → Type 0
IsCap hard none = Unit
IsCap hard (some cap) = cap ≡ hard

pre_check-IsCap :
    (hard : ℕ) (b : Bool) (i info : RateLimitInfo) (cap : Option ℕ)
    → pre_check hard (b, i) ≡ ok (info, cap)
    → IsCap hard cap × (info.limit ≡ i.limit)
unfolding pre_check
pre_check-IsCap hard true i info none h = ground arith
pre_check-IsCap hard true i info (some c) h = cc
pre_check-IsCap hard false i info cap h = ground arith

after_increment-le :
    (hard new_usage : ℕ) (info : RateLimitInfo) (cap : Option ℕ) (a : Allowed)
    → info.limit ≤ hard
    → IsCap hard cap
    → after_increment hard info cap new_usage ≡ ok a
    → a.info.cache_healthy ≡ true
    → a.info.current_usage ≤ hard
unfolding after_increment
after_increment-le hard new_usage info none a l c h healthy = ground arith
after_increment-le hard new_usage info (some k) a l c h healthy = ground arith

limit-judge :
    (n : Counters) (clock : Clock) (fail_closed : Bool) (o : Organization)
    (p : record { 0 : ℕ; 1 : Bool }) (l : State n clock)
    → (judge n clock fail_closed o (p, l)).0.1.limit ≡ get_organization_limit o
unfolding judge
limit-judge n clock fail_closed o p l = refl

module _ (n : Counters) (clock : Clock) (fail_closed : Bool) (multiplier : ℕ)
    (o : Organization) where
  proceed-le :
      (r : Outcome RateLimitException (RateLimitInfo × Option ℕ)) (l l' : State n clock)
      (a : Allowed)
      → ((info : RateLimitInfo) (cap : Option ℕ)
          → r ≡ ok (info, cap)
          → IsCap (get_hard_limit multiplier o) cap × (info.limit ≡ get_organization_limit o))
      → proceed n clock fail_closed multiplier o r l ≡ (ok a, l')
      → a.info.cache_healthy ≡ true
      → a.info.current_usage ≤ get_hard_limit multiplier o
  unfolding proceed
  proceed-le (raised e) l l' a known h healthy = cc
  proceed-le (ok (info, cap)) l l' a known h healthy =
      let hard = get_hard_limit multiplier o in
      let facts = known info cap refl in
      after_increment-le hard (increment_usage n clock o l).0 info cap a
        (rw facts.1 (limit-le-hard multiplier o)) facts.0 (cc h) healthy

  -- Where a webhook is checked in one state and counted in any other, as other requests may have
  -- left it between the two, and is accepted with a count that the cache vouched for when it was
  -- checked, the count is within the hard cap.
  pub raced_within_cap :
      (l between l' : State n clock) (a : Allowed)
      → proceed n clock fail_closed multiplier o
          (pre_check (get_hard_limit multiplier o) (check_rate_limit n clock fail_closed o l).0)
          between
        ≡ (ok a, l')
      → a.info.cache_healthy ≡ true
      → a.info.current_usage ≤ get_hard_limit multiplier o
  unfolding check_rate_limit
  raced_within_cap l between l' a h healthy =
      let hard = get_hard_limit multiplier o in
      let (p, l1) = cache_get_with_health n clock (usage_key n clock o) 0 l in
      let (b, i) = (judge n clock fail_closed o (p, l1)).0 in
      proceed-le (pre_check hard (b, i)) between l' a
        (λ info cap e.
          let facts = pre_check-IsCap hard b i info cap e in
          (facts.0, facts.1 ∙ limit-judge n clock fail_closed o p l1))
        h healthy

  -- Where `enforce_rate_limit` accepts a webhook with a count that the cache vouched for when it was
  -- checked, the count is within the hard cap.
  accepted_within_cap :
      (l l' : State n clock) (a : Allowed)
      → enforce_rate_limit n clock fail_closed multiplier o l ≡ (ok a, l')
      → a.info.cache_healthy ≡ true
      → a.info.current_usage ≤ get_hard_limit multiplier o
  unfolding enforce_rate_limit
  accepted_within_cap l l' a h healthy =
      raced_within_cap l (check_rate_limit n clock fail_closed o l).1 l' a h healthy

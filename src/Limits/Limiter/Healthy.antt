-- ===== src/Limits/Limiter/Healthy.antt =====
-- A request while the cache answers and the circuit is closed: the verdict, the new count and the
-- alert are those of the count that the cache holds.
use notipus.Base.{
  ℕ, String, Bool-cases, inl, inr, Option-cases, ◌+◌, ◌-◌, ◌≤◌, ◌<◌, ◌≡◌, ◌⊎◌, refl, Bool, true,
  false, Option, none, some, arith, ltb, leb,
}
use mathlib.Core.Option.{get_or}
use notipus.Base.Call.{Call, ok, raised}
use notipus.Cache.{CacheError, Counters, get, get-up, add-up, incr-up, incr_value}
use notipus.Limits.Breaker.{closed}
use notipus.Limits.Breaker.Opening.{call_closed_ok}
use notipus.Limits.Alerts.{dispatch_crossing_alert}
use notipus.Limits.Fallback.{set_to_fallback}
use notipus.Limits.Limiter.{
  Organization, Clock, hard_limit_reached, RateLimitInfo, State, check_rate_limit, judge,
  cache_get_with_health, settle_get, protected, usage_key, increment_usage, safe_cache_incr,
  settle_incr, remember, incr_or_add, after_incr, after_add, get_hard_limit, get_organization_limit,
  cache_timeout, reset_time,
}
use notipus.Limits.Limiter.Cap.{limit-le-hard}
use notipus.Limits.Limiter.Enforcement.{
  Allowed, pre_check, after_increment, proceed, enforce_rate_limit, refuse,
}

-- What a count of nothing or of some number becomes in the cache.
abbrev pub count_in : (n : Counters) → ℕ → Option ℕ → String → n.cache.State → n.cache.State
count_in n now (some v) key s = n.bump s key
count_in n now none key s = n.cache.store s now key 1 cache_timeout

-- The information of a healthy request, before and after it is counted.
abbrev pub info_of : Clock → Organization → ℕ → RateLimitInfo
info_of clock o used = record {
  limit = get_organization_limit o;
  current_usage = used;
  remaining = get_organization_limit o - used;
  reset = reset_time clock;
  plan = o.subscription_plan;
  fallback_mode = false;
  cache_healthy = true;
  reason = none;
  over_limit = ltb (get_organization_limit o) used;
}

abbrev pub fresh_info : Clock → Organization → ℕ → RateLimitInfo
fresh_info clock o used = record (info_of clock o used) { over_limit = false }

abbrev pub accepted : Clock → Organization → ℕ → ℕ → Allowed
accepted clock o hard used = record {
  info = info_of clock o used;
  alert = dispatch_crossing_alert used (get_organization_limit o) hard;
}

after_increment-ok :
    (hard used : ℕ) (clock : Clock) (o : Organization) (cap : Option ℕ) (before : RateLimitInfo)
    → used < hard
    → (cap ≡ none) ⊎ (cap ≡ some hard)
    → record before { current_usage = 0; remaining = 0; over_limit = false }
      ≡ record (info_of clock o used) { current_usage = 0; remaining = 0; over_limit = false }
    → after_increment hard before cap (used + 1) ≡ ok (accepted clock o hard (used + 1))
unfolding after_increment
after_increment-ok hard used clock o cap before u c same = ground arith

not_reached : (hard used : ℕ) → used < hard → leb hard used ≡ false
not_reached hard used h = ground arith

reached : (hard used : ℕ) → hard ≤ used → leb hard used ≡ true
reached hard used h = ground arith

past_limit : (limit hard used : ℕ) → limit ≤ hard → hard ≤ used → ltb used limit ≡ false
past_limit limit hard used l h = ground arith

module _ (n : Counters) (clock : Clock) (l : State n clock)
    (up : n.cache.up l.cache clock.time ≡ true) (healthy : l.breaker.state ≡ closed) where
  -- A call behind a closed breaker that returns changes the cache alone.
  protected-ok :
      {A : Type 0} (func : Call n.cache.State CacheError A) {a : A} {s : n.cache.State}
      → func l.cache ≡ (ok a, s)
      → protected n clock func l ≡ (ok a, record l { cache = s })
  unfolding protected
  protected-ok func h = rw (call_closed_ok clock.time func l.breaker healthy h)

  cache_get-healthy :
      (key : String)
      → cache_get_with_health n clock key 0 l
        ≡ ((get_or (n.cache.peek l.cache clock.time key) 0, true), l)
  unfolding cache_get_with_health settle_get
  cache_get-healthy key =
      rw (protected-ok (get n.cache clock.time key) (get-up n.cache clock.time key up))

  abbrev held : String → Option ℕ
  held key = n.cache.peek l.cache clock.time key

  incr_or_add-up :
      (key : String)
      → incr_or_add n clock key l.cache
        ≡ (ok (get_or (held key) 0 + 1), count_in n clock.time (held key) key l.cache)
  unfolding incr_or_add after_incr after_add incr_value
  incr_or_add-up key = elim (Option-cases (n.cache.peek l.cache clock.time key)) [
    | inl missing ↦ rw (
      incr-up n clock.time key up,
      missing,
      add-up n.cache clock.time key 1 cache_timeout up,
      missing,
    )
    | inr (v, found) ↦ rw (incr-up n clock.time key up, found)
  ]

  -- The limiter after one more webhook is counted.
  abbrev pub counted : String → State n clock
  counted key = record l {
    cache = count_in n clock.time (held key) key l.cache;
    fallback = set_to_fallback clock.time key (get_or (held key) 0 + 1) l.fallback;
  }

  safe_cache_incr-healthy :
      (key : String) → safe_cache_incr n clock key l ≡ (get_or (held key) 0 + 1, counted key)
  unfolding safe_cache_incr settle_incr remember
  safe_cache_incr-healthy key = rw (protected-ok (incr_or_add n clock key) (incr_or_add-up key))

  module _ (fail_closed : Bool) (multiplier : ℕ) (o : Organization) where
    abbrev pub used : ℕ
    used = get_or (held (usage_key n clock o)) 0

    check-healthy :
        check_rate_limit n clock fail_closed o l
        ≡ ((ltb used (get_organization_limit o), fresh_info clock o used), l)
    unfolding check_rate_limit judge
    check-healthy = rw (cache_get-healthy (usage_key n clock o), healthy)

    -- While the cache answers and the circuit is closed, a webhook is accepted if the count is below
    -- the hard cap; the count rises by one, and the alert is the one of the new count.
    pub enforce_accepts :
        used < get_hard_limit multiplier o
        → enforce_rate_limit n clock fail_closed multiplier o l ≡ (
          ok (accepted clock o (get_hard_limit multiplier o) (used + 1)),
          counted (usage_key n clock o),
        )
    unfolding enforce_rate_limit proceed increment_usage pre_check
    enforce_accepts below =
        let hard = get_hard_limit multiplier o in
        rw check-healthy (elim (Bool-cases (ltb used (get_organization_limit o))) [
          | inl within ↦ rw (
            within,
            safe_cache_incr-healthy (usage_key n clock o),
            after_increment-ok hard used clock o none (fresh_info clock o used) below (inl refl)
                refl,
          )
          | inr grace ↦ rw (
            grace,
            not_reached hard used below,
            safe_cache_incr-healthy (usage_key n clock o),
            after_increment-ok hard used clock o (some hard)
                (record (fresh_info clock o used) { over_limit = true }) below (inr refl) refl,
          )
        ])

    -- While the cache answers and the circuit is closed, a webhook is refused if the count has
    -- reached the hard cap, and nothing is changed.
    pub enforce_refuses :
        get_hard_limit multiplier o ≤ used
        → enforce_rate_limit n clock fail_closed multiplier o l
          ≡ (raised (refuse hard_limit_reached (fresh_info clock o used)), l)
    unfolding enforce_rate_limit proceed pre_check
    enforce_refuses past =
        let hard = get_hard_limit multiplier o in
        rw (
          check-healthy,
          past_limit (get_organization_limit o) hard used (limit-le-hard multiplier o) past,
          reached hard used past,
        )

-- ===== src/Limits/Limiter/Outage.antt =====
-- A request while the cache is down, whatever the state of the circuit: the setting decides, and no
-- count is believed.
use notipus.Base.{ℕ, String, ◌≡◌, refl, Bool, true, false, none}
use notipus.Base.Call.{Outcome, Call, ok, raised}
use notipus.Cache.{Counters, get, get-down}
use notipus.Limits.Breaker.{
  Breaker, Unavailable, call_with_circuit_breaker, is_circuit_open, guarded, settle, circuit_open,
  operation_failed, record_failure,
}
use notipus.Limits.Fallback.{get_from_fallback}
use notipus.Limits.Limiter.{
  Organization, Clock, RateLimitException, failing_closed, State, check_rate_limit, judge,
  cache_get_with_health, settle_get, protected, usage_key,
}
use notipus.Limits.Limiter.Enforcement.{
  Allowed, pre_check, after_increment, proceed, enforce_rate_limit,
}

guarded-raised :
    {S E A : Type 0} (now : ℕ) (func : Call S E A) (p : Bool × Breaker) (s : S) (x : E)
    → func s ≡ (raised x, s)
    → (e : Unavailable) × (b : Breaker) × (guarded now func p s ≡ (raised e, b, s))
unfolding guarded settle
guarded-raised now func (true, b) s x h = (circuit_open, b, refl)
guarded-raised now func (false, b) s x h = (operation_failed, record_failure now b, rw h)

module _ (n : Counters) (clock : Clock) (l : State n clock)
    (down : n.cache.up l.cache clock.time ≡ false) where
  get-unavailable :
      (key : String)
      → (e : Unavailable) × (b : Breaker) × (protected n clock (get n.cache clock.time key) l
          ≡ (raised e, record l { breaker = b }))
  unfolding protected call_with_circuit_breaker
  get-unavailable key =
      let (e, b, h) =
        guarded-raised clock.time (get n.cache clock.time key)
          (is_circuit_open clock.time l.breaker) l.cache _ (get-down n.cache clock.time key down) in
      (e, b, rw h)

  -- A read falls back, is marked as unhealthy, and leaves the cache alone.
  read-unhealthy :
      (key : String)
      → (value : ℕ) × (l' : State n clock) × (cache_get_with_health n clock key 0 l
          ≡ ((value, false), l'))
        × (l'.cache ≡ l.cache)
  unfolding cache_get_with_health settle_get
  read-unhealthy key =
      let (e, b, h) = get-unavailable key in
      let (value, f) = get_from_fallback clock.time key 0 l.fallback in
      (value, record l { breaker = b; fallback = f }, rw h, refl)

  -- The webhook is refused because the cache is down, and the cache is as it was.
  abbrev pub FailsClosed : Outcome RateLimitException Allowed × State n clock → Type 0
  FailsClosed (raised e, l') = (e.refusal ≡ failing_closed) × (l'.cache ≡ l.cache)
  FailsClosed (ok a, l') = ⊥

  -- It is accepted, with no alert and nothing said to remain.
  abbrev pub FailsOpen : Outcome RateLimitException Allowed × State n clock → Type 0
  FailsOpen (ok a, l') = (a.alert ≡ none) × (a.info.cache_healthy ≡ false) × (a.info.remaining ≡ 0)
  FailsOpen (raised e, l') = ⊥

  -- While the cache does not answer, whatever the circuit's state, a webhook is refused under the
  -- setting to fail closed, with the cache unchanged, and accepted under the setting to fail open,
  -- with no alert, nothing said to remain and a count that is marked as not known.
  pub outage_by_setting :
      (multiplier : ℕ) (o : Organization)
      → FailsClosed (enforce_rate_limit n clock true multiplier o l)
        × FailsOpen (enforce_rate_limit n clock false multiplier o l)
  unfolding enforce_rate_limit check_rate_limit judge pre_check proceed after_increment
  outage_by_setting multiplier o =
      let (value, l', h, same) = read-unhealthy (usage_key n clock o) in
      (rw h (refl, same), rw h (refl, refl, refl))

-- ===== src/Limits/Limiter.antt =====
-- `RateLimiter` of app/webhooks/services/rate_limiter.py. Its state is the circuit breaker, the
-- in-memory fallback and the cache. The clock is read once a request; `month_key` is its month, as
-- `strftime` writes it. The grace multiplier of the plan is passed in, as read for the request.
pub mod Enforcement
pub mod Cap
pub mod Healthy
pub mod Month
pub mod Outage
use notipus.Base.{
  ℕ, ◌+◌, ◌*◌, ◌-◌, String, Bool, true, false, not, ◌&&◌, Option, none, some, List, [], ◌∷◌, ltb,
  leb, ◌==◌, concat, if◌then◌else◌,
}
use mathlib.Core.Option.{get_or}
use notipus.Base.Dict.{Dict, lookup}
use notipus.Base.Call.{Outcome, Call, ok, raised, pure, throw, ◌>>=◌}
use notipus.Cache.{Cache, CacheError, missing_key, Counters, get, set, add, incr}
use notipus.Limits.Breaker.{Breaker, CircuitState, closed, Unavailable, call_with_circuit_breaker}
use notipus.Limits.Fallback.{Fallback, get_from_fallback, set_to_fallback}
use notipus.Limits.Alerts.{Alert, hard_limit, dispatch_crossing_alert}

abbrev pub plan_limits : Dict ℕ
plan_limits = ("free", 20) ∷ ("basic", 10000) ∷ ("pro", 100000) ∷ ("enterprise", 1000000) ∷ []

abbrev pub cache_timeout : ℕ
cache_timeout = 60 * 60 * 24 * 31

pub record Organization : Type 0 where
  pub uuid : String
  pub subscription_plan : String

pub record Clock : Type 0 where
  pub time : ℕ
  pub year : ℕ
  pub month : ℕ
  pub month_key : String

-- The first day of the next month, as its year and month.
unfoldable pub reset_time : Clock → ℕ × ℕ
reset_time clock = if clock.month == 12 then (clock.year + 1, 1) else (clock.year, clock.month + 1)

unfoldable pub get_cache_key : String → String → String
unfolding concat
get_cache_key organization_uuid month =
    concat ("webhook_usage:" ∷ organization_uuid ∷ ":" ∷ month ∷ [])

-- A plan that is not listed has the limit of the free one.
unfoldable pub get_organization_limit : Organization → ℕ
get_organization_limit organization = elim (lookup organization.subscription_plan plan_limits) [
  | some limit ↦ limit
  | none ↦ 20
]

unfoldable pub get_hard_limit : ℕ → Organization → ℕ
get_hard_limit multiplier organization = hard_limit (get_organization_limit organization) multiplier

pub data DenyReason : Type 0 where
  cache_unavailable : DenyReason

pub record RateLimitInfo : Type 0 where
  pub limit : ℕ
  pub current_usage : ℕ
  pub remaining : ℕ
  pub reset : ℕ × ℕ
  pub plan : String
  pub fallback_mode : Bool
  pub cache_healthy : Bool
  pub reason : Option DenyReason
  pub over_limit : Bool

-- `RateLimitException`: the message says whether the cache failed or the hard cap was reached.
pub data Refusal : Type 0 where
  failing_closed hard_limit_reached : Refusal

pub record RateLimitException : Type 0 where
  pub refusal : Refusal
  pub limit : ℕ
  pub current_usage : ℕ
  pub reset : ℕ × ℕ

pub record Limiter (S : Type 0) : Type 0 where
  pub breaker : Breaker
  pub fallback : Fallback
  pub cache : S

abbrev pub is_closed : CircuitState → Bool
is_closed closed = true
is_closed _ = false

module _ (n : Counters) (clock : Clock) where
  abbrev pub State : Type 0
  State = Limiter n.cache.State

  -- A cache call behind the breaker, in the limiter's state.
  unfoldable pub protected :
      {A : Type 0} → Call n.cache.State CacheError A → State → Outcome Unavailable A × State
  protected func l =
      let (r, b, s) = call_with_circuit_breaker clock.time func l.breaker l.cache in
      (r, record l { breaker = b; cache = s })

  -- The value of a read, and whether the cache answered; if not, the fallback does.
  unfoldable pub settle_get :
      String → ℕ → Outcome Unavailable (Option ℕ) × State → (ℕ × Bool) × State
  settle_get key default (ok value, l) = ((get_or value default, true), l)
  settle_get key default (raised e, l) =
      let (value, f) = get_from_fallback clock.time key default l.fallback in
      ((value, false), record l { fallback = f })

  unfoldable pub cache_get_with_health : String → ℕ → State → (ℕ × Bool) × State
  unfolding settle_get protected
  cache_get_with_health key default l =
      settle_get key default (protected (get n.cache clock.time key) l)

  unfoldable pub existing : Option ℕ → Call n.cache.State CacheError ℕ
  existing (some count) = pure count
  existing none = throw missing_key

  -- Whoever loses the race to initialise the key increments it.
  unfoldable pub after_add : String → Bool → Call n.cache.State CacheError ℕ
  unfolding existing
  after_add key true = pure 1
  after_add key false = do count ← incr n clock.time key; existing count

  unfoldable pub after_incr : String → Option ℕ → Call n.cache.State CacheError ℕ
  unfolding after_add
  after_incr key (some count) = pure count
  after_incr key none = do added ← add n.cache clock.time key 1 cache_timeout; after_add key added

  -- `_incr` in `_safe_cache_incr`
  unfoldable pub incr_or_add : String → Call n.cache.State CacheError ℕ
  unfolding after_incr
  incr_or_add key = do count ← incr n clock.time key; after_incr key count

  unfoldable pub remember : String → ℕ → State → ℕ × State
  remember key count l =
      (count, record l { fallback = set_to_fallback clock.time key count l.fallback })

  unfoldable pub settle_incr : String → Outcome Unavailable ℕ × State → ℕ × State
  unfolding remember
  settle_incr key (ok count, l) = remember key count l
  settle_incr key (raised e, l) =
      let (count, f) = get_from_fallback clock.time key 0 l.fallback in
      remember key (count + 1) (record l { fallback = f })

  unfoldable pub safe_cache_incr : String → State → ℕ × State
  unfolding settle_incr protected incr_or_add
  safe_cache_incr key l = settle_incr key (protected (incr_or_add key) l)

  abbrev pub usage_key : Organization → String
  usage_key organization = get_cache_key organization.uuid clock.month_key

  -- `fail_closed` is the setting `RATE_LIMIT_FAIL_CLOSED`.
  unfoldable pub judge : Bool → Organization → (ℕ × Bool) × State → (Bool × RateLimitInfo) × State
  judge fail_closed organization ((current_usage, healthy), l) =
      let limit = get_organization_limit organization in
      (
        (
          if healthy then ltb current_usage limit else not fail_closed,
          record {
            limit = limit;
            current_usage = current_usage;
            remaining = if healthy then limit - current_usage else 0;
            reset = reset_time clock;
            plan = organization.subscription_plan;
            fallback_mode = not (is_closed l.breaker.state);
            cache_healthy = healthy;
            reason = if not healthy && fail_closed then some cache_unavailable else none;
            over_limit = false;
          },
        ),
        l,
      )

  unfoldable pub check_rate_limit : Bool → Organization → State → (Bool × RateLimitInfo) × State
  unfolding judge cache_get_with_health reset_time
  check_rate_limit fail_closed organization l =
      judge fail_closed organization (cache_get_with_health (usage_key organization) 0 l)

  unfoldable pub increment_usage : Organization → State → ℕ × State
  unfolding safe_cache_incr
  increment_usage organization l = safe_cache_incr (usage_key organization) l

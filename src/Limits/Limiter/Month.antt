-- ===== src/Limits/Limiter/Month.antt =====
-- The webhooks of one month, one after the other, while the cache answers.
use notipus.Base.{
  ℕ, zero, suc, String, ◌+◌, ◌-◌, ◌≤◌, ◌<◌, ◌≡◌, refl, Bool, true, Option, none, some, List, [],
  ◌∷◌, length, min, arith, All, eq_refl, ◌∙◌, lt→ltb,
}
use mathlib.Core.Option.{get_or}
use native.Mathlib.Decide.{dec_lt}
use notipus.Base.Call.{Outcome, ok, raised}
use notipus.Cache.{Counters}
use notipus.Limits.Breaker.{closed}
use notipus.Limits.Limiter.{
  Organization, Clock, RateLimitException, Limiter, usage_key, get_hard_limit, get_cache_key,
  cache_timeout,
}
use notipus.Limits.Limiter.Enforcement.{Allowed, enforce_rate_limit}
use notipus.Limits.Limiter.Healthy.{enforce_accepts, enforce_refuses, counted, count_in}

-- A count that is there, if it is not zero.
abbrev pub count_of : ℕ → Option ℕ
count_of zero = none
count_of (suc k) = some (suc k)

get_or-count_of : (k : ℕ) → get_or (count_of k) 0 ≡ k
get_or-count_of zero = refl
get_or-count_of (suc k) = refl

abbrev was_accepted : Outcome RateLimitException Allowed → ℕ
was_accepted (ok a) = 1
was_accepted (raised e) = 0

module _ (n : Counters) (fail_closed : Bool) (multiplier : ℕ) (o : Organization) where
  -- How many webhooks of a sequence are accepted.
  pub serve : List Clock → Limiter n.cache.State → ℕ
  serve [] l = 0
  serve (clock ∷ clocks) l =
      let (r, l') = enforce_rate_limit n clock fail_closed multiplier o l in
      was_accepted r + serve clocks l'

  module _ (month_key : String) (start : ℕ)
      (always_up : (s : n.cache.State) (t : ℕ) → n.cache.up s t ≡ true) where
    -- The clock shows the month, before a counter that starts in it can expire.
    pub record InMonth (clock : Clock) : Type 0 where
      pub month : clock.month_key ≡ month_key
      pub after : start ≤ clock.time
      pub before : clock.time < start + cache_timeout

    -- The cache holds a count for the month.
    abbrev pub Holds : ℕ → n.cache.State → Type 0
    Holds k s =
        (t : ℕ)
        → start ≤ t
        → t < start + cache_timeout
        → n.cache.peek s t (get_cache_key o.uuid month_key) ≡ count_of k

    Holds-count_in :
        (k t0 : ℕ) (s : n.cache.State)
        → start ≤ t0
        → Holds k s
        → Holds (suc k) (count_in n t0 (count_of k) (get_cache_key o.uuid month_key) s)
    Holds-count_in zero t0 s a h t b c = rw (
      n.cache.peek-store s t0 t cache_timeout (get_cache_key o.uuid month_key)
          (get_cache_key o.uuid month_key) 1,
      eq_refl (get_cache_key o.uuid month_key),
      lt→ltb t (t0 + cache_timeout) (omega arith),
    )
    Holds-count_in (suc k) t0 s a h t b c = rw (
      n.peek-bump s t (get_cache_key o.uuid month_key) (get_cache_key o.uuid month_key),
      eq_refl (get_cache_key o.uuid month_key),
      h t b c,
    )

    module _ (clock : Clock) (k : ℕ) (l : Limiter n.cache.State) (now : InMonth clock)
        (h : Holds k l.cache) where
      held : n.cache.peek l.cache clock.time (usage_key n clock o) ≡ count_of k
      held = rw now.month (h clock.time now.after now.before)

      used-eq : get_or (n.cache.peek l.cache clock.time (usage_key n clock o)) 0 ≡ k
      used-eq = rw held (get_or-count_of k)

      Holds-counted :
          (c : l.breaker.state ≡ closed)
          → Holds
              (suc k)
              (counted n clock l (always_up l.cache clock.time) c (usage_key n clock o)).cache
      Holds-counted c = rw (held, now.month) (Holds-count_in k clock.time l.cache now.after h)

    -- With a closed circuit, exactly the webhooks that the hard cap has room for are accepted.
    serve-from :
        (clocks : List Clock) (k : ℕ) (l : Limiter n.cache.State)
        → All InMonth clocks
        → l.breaker.state ≡ closed
        → Holds k l.cache
        → serve clocks l ≡ min (length clocks) (get_hard_limit multiplier o - k)
    unfolding serve
    serve-from [] k l m c h = omega arith
    serve-from (clock ∷ clocks) k l (now, later) c h =
        let up = always_up l.cache clock.time in
        let hard = get_hard_limit multiplier o in
        let eq = used-eq clock k l now h in
        elim (dec_lt k hard) [
          | yes room ↦ rw (enforce_accepts n clock l up c fail_closed multiplier o (rw eq room)) (
              omega (
                arith,
                serve-from clocks (suc k) (counted n clock l up c (usage_key n clock o)) later c
                    (Holds-counted clock k l now h c),
              ))
          | no full ↦
              rw (enforce_refuses n clock l up c fail_closed multiplier o (rw eq (omega arith)))
                (omega (arith, serve-from clocks k l later c h))
        ]

    -- If the cache always answers, the circuit is closed and nothing is counted yet for the month, then
    -- of a sequence of webhooks of the month exactly as many are accepted as the hard cap allows: all
    -- of them, or the hard cap if there are more.
    pub serve-month :
        (clocks : List Clock) (l : Limiter n.cache.State)
        → All InMonth clocks
        → l.breaker.state ≡ closed
        → Holds 0 l.cache
        → serve clocks l ≡ min (length clocks) (get_hard_limit multiplier o)
    serve-month clocks l m c h = serve-from clocks 0 l m c h ∙ omega arith

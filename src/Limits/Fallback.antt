-- ===== src/Limits/Fallback.antt =====
-- The in-memory fallback of `RateLimiter` (app/webhooks/services/rate_limiter.py): a dictionary from
-- cache keys to counts, each with the time at which it was written.
pub mod Bound
use notipus.Base.{
  ℕ, ◌+◌, ◌-◌, String, Bool, true, false, Option, none, some, List, [], ◌∷◌, length, take, filter,
  leb, ltb, if◌then◌else◌,
}
use notipus.Base.Dict.{Dict, lookup, insert, erase}
use notipus.Base.Dict.Unique.{erase_all}

abbrev pub fallback_timeout : ℕ
fallback_timeout = 300

abbrev pub max_fallback_keys : ℕ
max_fallback_keys = 10_000

abbrev pub fallback_low_water : ℕ
fallback_low_water = 9_000

abbrev pub eviction_warn_interval : ℕ
eviction_warn_interval = 60

pub record Fallback : Type 0 where
  pub entries : Dict (ℕ × ℕ)
  pub last_eviction_warn : ℕ

-- `current_time - timestamp < timeout`
unfoldable pub is_fresh : ℕ → String × (ℕ × ℕ) → Bool
is_fresh now (key, (value, timestamp)) = ltb now (timestamp + fallback_timeout)

-- `sorted` by the timestamp: entries of one time keep their order.
unfoldable pub insert_by_age : String × (ℕ × ℕ) → Dict (ℕ × ℕ) → Dict (ℕ × ℕ)
insert_by_age (k, (v, t)) [] = (k, (v, t)) ∷ []
insert_by_age (k, (v, t)) ((j, (w, u)) ∷ d) =
    if leb t u then (k, (v, t)) ∷ (j, (w, u)) ∷ d else (j, (w, u)) ∷ insert_by_age (k, (v, t)) d

unfoldable pub sorted_by_age : Dict (ℕ × ℕ) → Dict (ℕ × ℕ)
unfolding insert_by_age
sorted_by_age [] = []
sorted_by_age (e ∷ d) = insert_by_age e (sorted_by_age d)

-- The oldest entries go, down to the low-water mark; the warning is logged once an interval.
unfoldable pub evict_oldest : ℕ → Fallback → Fallback
unfolding sorted_by_age erase_all
evict_oldest now f = record f {
  entries =
      erase_all (take (length f.entries - fallback_low_water) (sorted_by_age f.entries)) f.entries;
  last_eviction_warn =
      if leb (f.last_eviction_warn + eviction_warn_interval) now then now else f.last_eviction_warn;
}

unfoldable pub prune_fallback : ℕ → Fallback → Fallback
prune_fallback now f =
    let kept = record f { entries = filter (is_fresh now) f.entries } in
    if leb (length kept.entries) max_fallback_keys then kept else evict_oldest now kept

unfoldable pub set_to_fallback : ℕ → String → ℕ → Fallback → Fallback
set_to_fallback now key value f =
    prune_fallback now (record f { entries = insert key (value, now) f.entries })

-- What a lookup found: an entry that has expired is removed.
unfoldable pub read_found : ℕ → String → ℕ → Option (ℕ × ℕ) → Fallback → ℕ × Fallback
read_found now key default (some (value, timestamp)) f =
    if is_fresh now (key, (value, timestamp))
    then (value, f)
    else (default, record f { entries = erase key f.entries })
read_found now key default none f = (default, f)

unfoldable pub get_from_fallback : ℕ → String → ℕ → Fallback → ℕ × Fallback
get_from_fallback now key default f = read_found now key default (lookup key f.entries) f

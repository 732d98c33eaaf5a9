-- ===== src/Examples/Breaker.antt =====
-- Instances of the theorems on the circuit breaker, on the fallback and on the usage alerts.
use notipus.Base.{ℕ, ◌≡◌, refl, false, Option, none, some, List, [], ◌∷◌, ◌++◌, arith, contains}
use notipus.Base.Call.{Call, ok, raised}
use notipus.Cache.{CacheError, unavailable, get}
use notipus.Cache.Memory.{memory, MemoryState, fresh}
use notipus.Limits.Breaker.{
  Breaker, new_breaker, opened, call_with_circuit_breaker, circuit_open, operation_failed,
}
use notipus.Limits.Breaker.Validity.{IsValid, call-IsValid}
use notipus.Limits.Breaker.Opening.{
  Ending, success, failure, drive, failures, scattered_failures_open, no_call_while_open,
  trial_settles,
}
use notipus.Limits.Fallback.{Fallback, set_to_fallback, get_from_fallback}
use notipus.Limits.Fallback.Bound.{IsBounded, fallback-IsBounded}

abbrev spread : List (ℕ × Ending)
spread =
    (1, failure) ∷ (2, failure) ∷ (3, success) ∷ (4, failure) ∷ (5, success) ∷ (6, failure) ∷ []

scattered_failures_open_example : (drive (spread ++ (7, failure) ∷ []) new_breaker).state ≡ opened
unfolding failures
scattered_failures_open_example = scattered_failures_open spread 7 new_breaker refl refl

-- A circuit that the fifth failure has opened.
abbrev tripped : Breaker
tripped = record new_breaker { failure_count = 5; last_failure_time = some 100; state = opened }

tripped-IsValid : IsValid tripped
tripped-IsValid = ground arith

abbrev call_get : Call (MemoryState ℕ) CacheError (Option ℕ)
call_get = get memory 161 "k"

abbrev broken : MemoryState ℕ
broken = record { up = λ t. false; entries = [] }

-- A call that finds the cache down.
abbrev call_down : Call (MemoryState ℕ) CacheError (Option ℕ)
call_down s = (raised unavailable, broken)

-- The calls that are attempted while the circuit is open, at 8 and at 60, do not matter.
no_call_while_open_example :
    call_with_circuit_breaker 67 call_get
      (drive ((spread ++ (7, failure) ∷ []) ++ (8, success) ∷ (60, failure) ∷ []) new_breaker)
      fresh
    ≡ (raised circuit_open, drive (spread ++ (7, failure) ∷ []) new_breaker, fresh)
unfolding failures
no_call_while_open_example =
    no_call_while_open call_get fresh spread ((8, success) ∷ (60, failure) ∷ []) 7 67 new_breaker
      refl refl (omega arith, (omega arith, tt)) (omega arith)

call-IsValid_example : IsValid (call_with_circuit_breaker 161 call_get tripped broken).1
call-IsValid_example = call-IsValid 161 call_get tripped broken (omega arith) tripped-IsValid

abbrev one_entry : Fallback
one_entry = record { entries = ("a", (3, 50)) ∷ []; last_eviction_warn = 0 }

one_entry-IsBounded : IsBounded one_entry
unfolding contains
one_entry-IsBounded = record { unique = (refl, tt); bounded = omega arith }

trial_settles_example :
    (call_with_circuit_breaker 161 call_get tripped fresh ≡ (ok none, new_breaker, fresh))
    × (call_with_circuit_breaker 161 call_down tripped fresh ≡ (
      raised operation_failed,
      record tripped { failure_count = 6; last_failure_time = some 161 },
      broken,
    ))
unfolding get
trial_settles_example =
    trial_settles call_get call_down fresh fresh broken 161 100 tripped none unavailable refl refl
      (ground arith) (omega arith) tripped-IsValid refl refl

fallback-IsBounded_example :
    IsBounded (set_to_fallback 100 "b" 4 one_entry)
    × IsBounded (get_from_fallback 100 "b" 0 one_entry).1
fallback-IsBounded_example = fallback-IsBounded 100 "b" 4 0 one_entry one_entry-IsBounded

-- ===== src/Limits/Breaker/Validity.antt =====
-- What every reachable `RedisCircuitBreaker` satisfies.
use notipus.Base.{ℕ, ◌≤◌, ◌<◌, ◌≡◌, ◌≢◌, Bool, true, false, arith, is_some}
use notipus.Base.Call.{Outcome, Call, ok, raised}
use notipus.Limits.Breaker.{
  Breaker, closed, new_breaker, is_circuit_open, record_success, record_failure, settle, guarded,
  call_with_circuit_breaker,
}

-- A closed circuit has counted fewer failures than the threshold; any other has reached it, and
-- knows when the last failure was.
pub record IsValid (b : Breaker) : Type 0 where
  pub below : b.state ≡ closed → b.failure_count < b.failure_threshold
  pub reached : b.state ≢ closed → b.failure_threshold ≤ b.failure_count
  pub timed : b.state ≢ closed → is_some b.last_failure_time ≡ true

new_breaker-IsValid : IsValid new_breaker
new_breaker-IsValid = ground arith

is_circuit_open-IsValid : (now : ℕ) (b : Breaker) → IsValid b → IsValid (is_circuit_open now b).1
unfolding is_circuit_open
is_circuit_open-IsValid now b v = ground arith

record_success-IsValid :
    (b : Breaker) → 0 < b.failure_threshold → IsValid b → IsValid (record_success b)
unfolding record_success
record_success-IsValid b p v = ground arith

record_failure-IsValid : (now : ℕ) (b : Breaker) → IsValid b → IsValid (record_failure now b)
unfolding record_failure
record_failure-IsValid now b v = ground arith

settle-IsValid :
    {S E A : Type 0} (now : ℕ) (b : Breaker) (r : Outcome E A × S)
    → 0 < b.failure_threshold
    → IsValid b
    → IsValid (settle now b r).1
unfolding settle
settle-IsValid now b (ok a, s) p v = record_success-IsValid b p v
settle-IsValid now b (raised e, s) p v = record_failure-IsValid now b v

threshold-is_circuit_open :
    (now : ℕ) (b : Breaker) → (is_circuit_open now b).1.failure_threshold ≡ b.failure_threshold
unfolding is_circuit_open
threshold-is_circuit_open now b = ground arith

guarded-IsValid :
    {S E A : Type 0} (now : ℕ) (func : Call S E A) (p : Bool × Breaker) (s : S)
    → 0 < p.1.failure_threshold
    → IsValid p.1
    → IsValid (guarded now func p s).1
unfolding guarded
guarded-IsValid now func (true, b) s p v = v
guarded-IsValid now func (false, b) s p v = settle-IsValid now b (func s) p v

-- A guarded call keeps a breaker with a positive threshold valid, whatever the call does.
pub call-IsValid :
    {S E A : Type 0} (now : ℕ) (func : Call S E A) (b : Breaker) (s : S)
    → 0 < b.failure_threshold
    → IsValid b
    → IsValid (call_with_circuit_breaker now func b s).1
unfolding call_with_circuit_breaker
call-IsValid now func b s p v =
    guarded-IsValid now func (is_circuit_open now b) s (rw (threshold-is_circuit_open now b) p)
      (is_circuit_open-IsValid now b v)

-- ===== src/Limits/Breaker.antt =====
-- `RedisCircuitBreaker` of app/webhooks/services/rate_limiter.py. Times are whole seconds, and one
-- call reads the clock once.
pub mod Validity
pub mod Opening
use notipus.Base.{
  ℕ, ◌+◌, Bool, true, false, Option, none, some, leb, ltb, ◌==◌, ◌&&◌, not, if◌then◌else◌,
}
use notipus.Base.Call.{Outcome, Call, ok, raised}

-- "CLOSED", "OPEN" and "HALF_OPEN".
pub data CircuitState : Type 0 where
  closed opened half_open : CircuitState

pub record Breaker : Type 0 where
  pub failure_threshold : ℕ
  pub recovery_timeout : ℕ
  pub failure_count : ℕ
  pub last_failure_time : Option ℕ
  pub state : CircuitState

-- `RedisCircuitBreaker()`
abbrev pub new_breaker : Breaker
new_breaker = record {
  failure_threshold = 5;
  recovery_timeout = 60;
  failure_count = 0;
  last_failure_time = none;
  state = closed;
}

-- `last_failure_time and time() - last_failure_time > recovery_timeout`: the time 0 counts as none.
unfoldable pub has_recovered : ℕ → Breaker → Bool
has_recovered now b = elim b.last_failure_time [
  | none ↦ false
  | some t ↦ not (t == 0) && ltb (t + b.recovery_timeout) now
]

unfoldable pub is_circuit_open : ℕ → Breaker → Bool × Breaker
unfolding has_recovered
is_circuit_open now b = elim b.state [
  | opened ↦ (if has_recovered now b then (false, record b { state = half_open }) else (true, b))
  | _ ↦ (false, b)
]

unfoldable pub record_success : Breaker → Breaker
record_success b = elim b.state [
  | half_open ↦ record b { state = closed; failure_count = 0; last_failure_time = none }
  | _ ↦ b
]

unfoldable pub record_failure : ℕ → Breaker → Breaker
record_failure now b = record b {
  failure_count = b.failure_count + 1;
  last_failure_time = some now;
  state = if leb b.failure_threshold (b.failure_count + 1) then opened else b.state;
}

pub data Unavailable : Type 0 where
  circuit_open operation_failed : Unavailable

module _ {S E A : Type 0} where
  -- What the guarded call did is recorded.
  unfoldable pub settle : ℕ → Breaker → Outcome E A × S → Outcome Unavailable A × Breaker × S
  settle now b (ok a, s) = (ok a, record_success b, s)
  settle now b (raised e, s) = (raised operation_failed, record_failure now b, s)

  unfoldable pub guarded : ℕ → Call S E A → Bool × Breaker → S → Outcome Unavailable A × Breaker × S
  guarded now func (true, b) s = (raised circuit_open, b, s)
  guarded now func (false, b) s = settle now b (func s)

  -- The call is made unless the circuit is open.
  unfoldable pub call_with_circuit_breaker :
      ℕ → Call S E A → Breaker → S → Outcome Unavailable A × Breaker × S
  call_with_circuit_breaker now func b s = guarded now func (is_circuit_open now b) s

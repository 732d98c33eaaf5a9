-- ===== src/Limits/Breaker/Opening.antt =====
-- When the circuit of `RedisCircuitBreaker` opens, for how long it stays open, and how one trial call
-- closes or reopens it.
use notipus.Base.{
  ℕ, suc, ◌+◌, ◌≤◌, ◌<◌, ◌≡◌, ◌≢◌, false, none, some, List, [], ◌∷◌, ◌++◌, arith, All, subst, sym,
  refl, ◌∙◌,
}
use notipus.Base.Call.{Call, ok, raised}
use notipus.Limits.Breaker.{
  Breaker, closed, opened, half_open, has_recovered, is_circuit_open, record_success,
  record_failure, settle, guarded, call_with_circuit_breaker, circuit_open, operation_failed,
}
use notipus.Limits.Breaker.Validity.{IsValid}

-- A call that does nothing but end as it is told.
pub data Ending : Type 0 where
  success failure : Ending

pub probe : Ending → Call (Unit {0}) (Unit {0}) (Unit {0})
probe success s = (ok tt, s)
probe failure s = (raised tt, s)

-- The breaker after a sequence of guarded calls, each with its time and its ending.
unfoldable pub drive : List (ℕ × Ending) → Breaker → Breaker
drive [] b = b
drive ((now, e) ∷ calls) b = drive calls (call_with_circuit_breaker now (probe e) b tt).1

unfoldable pub failures : List (ℕ × Ending) → ℕ
failures [] = 0
failures ((now, success) ∷ calls) = failures calls
failures ((now, failure) ∷ calls) = suc (failures calls)

call_closed :
    (now : ℕ) (e : Ending) (b : Breaker)
    → b.state ≡ closed
    → (call_with_circuit_breaker now (probe e) b tt).1
      ≡ elim e [ success ↦ b | failure ↦ record_failure now b ]
unfolding call_with_circuit_breaker is_circuit_open guarded settle probe record_success
call_closed now success b h = ground arith
call_closed now failure b h = ground arith

-- An open circuit whose last failure was at a time.
abbrev OpenSince : ℕ → Breaker → Breaker → Type 0
OpenSince t before b =
    (b.state ≡ opened)
    × (b.last_failure_time ≡ some t)
    × (b.recovery_timeout ≡ before.recovery_timeout)

opens_at :
    (calls : List (ℕ × Ending)) (now : ℕ) (b : Breaker)
    → b.state ≡ closed
    → b.failure_count + failures calls + 1 ≡ b.failure_threshold
    → OpenSince now b (drive (calls ++ (now, failure) ∷ []) b)
unfolding drive failures record_failure
opens_at [] now b h n = rw (call_closed now failure b h) (ground arith, ground arith, ground arith)
opens_at ((t, success) ∷ calls) now b h n =
    rw (drive, call_closed t success b h) (opens_at calls now b h n)
opens_at ((t, failure) ∷ calls) now b h n =
    let rest : OpenSince now (record_failure t b)
        (drive (calls ++ (now, failure) ∷ []) (record_failure t b)) =
      opens_at calls now (record_failure t b) (ground arith) (ground arith) in
    rw (drive, call_closed t failure b h) (rest.0, rest.1, rest.2 ∙ ground arith)

-- From a closed circuit, the failure that completes the threshold opens the circuit, however many
-- successful calls lie between the failures.
pub scattered_failures_open :
    (calls : List (ℕ × Ending)) (now : ℕ) (b : Breaker)
    → b.state ≡ closed
    → b.failure_count + failures calls + 1 ≡ b.failure_threshold
    → (drive (calls ++ (now, failure) ∷ []) b).state ≡ opened
scattered_failures_open calls now b h n = (opens_at calls now b h n).0

is_circuit_open-closed :
    (now : ℕ) (b : Breaker) → b.state ≡ closed → is_circuit_open now b ≡ (false, b)
unfolding is_circuit_open
is_circuit_open-closed now b h = ground arith

record_success-closed : (b : Breaker) → b.state ≡ closed → record_success b ≡ b
unfolding record_success
record_success-closed b h = ground arith

-- Behind a closed circuit a call that returns leaves the breaker as it is.
pub call_closed_ok :
    {S E A : Type 0} (now : ℕ) (func : Call S E A) (b : Breaker) {s s' : S} {a : A}
    → b.state ≡ closed
    → func s ≡ (ok a, s')
    → call_with_circuit_breaker now func b s ≡ (ok a, b, s')
unfolding call_with_circuit_breaker guarded settle
call_closed_ok now func b c h = rw (is_circuit_open-closed now b c, h, record_success-closed b c)

module _ {S E A : Type 0} (func : Call S E A) (s : S) where
  open_call :
      (now t : ℕ) (b : Breaker)
      → b.state ≡ opened
      → b.last_failure_time ≡ some t
      → now ≤ t + b.recovery_timeout
      → call_with_circuit_breaker now func b s ≡ (raised circuit_open, b, s)
  unfolding call_with_circuit_breaker is_circuit_open has_recovered guarded
  open_call now t b h l w = ground arith

  module _ (now t : ℕ) (b : Breaker) (at : b.state ≡ opened) (last : b.last_failure_time ≡ some t)
      (set : t ≢ 0) (passed : t + b.recovery_timeout < now) where
    after_timeout :
        call_with_circuit_breaker now func b s
        ≡ settle now (record b { state = half_open }) (func s)
    unfolding call_with_circuit_breaker is_circuit_open has_recovered guarded
    after_timeout = ground arith

    -- Once more than the recovery timeout has passed since the last failure, which was not at the
    -- time 0, an open circuit makes the call, and if it returns, closes and forgets the failures.
    trial_closes :
        (a : A) (s' : S)
        → func s ≡ (ok a, s')
        → call_with_circuit_breaker now func b s
          ≡ (ok a, record b { state = closed; failure_count = 0; last_failure_time = none }, s')
    unfolding settle record_success
    trial_closes a s' h = rw (after_timeout, h)

    -- Once more than the recovery timeout has passed since the last failure, which was not at the
    -- time 0, an open and valid circuit makes the call, and if it raises, is open again, as of now.
    trial_reopens :
        (e : E) (s' : S)
        → IsValid b
        → func s ≡ (raised e, s')
        → call_with_circuit_breaker now func b s ≡ (
          raised operation_failed,
          record b {
            state = opened;
            failure_count = b.failure_count + 1;
            last_failure_time = some now;
          },
          s',
        )
    unfolding settle record_failure
    trial_reopens e s' v h = rw (after_timeout, h) (ground arith)

-- Once more than the recovery timeout has passed since the last failure, which was not at the time 0,
-- an open and valid circuit makes the next call: if it returns, the circuit closes and forgets the
-- failures; if it raises, the circuit is open again, as of now.
pub trial_settles :
    {S E A : Type 0} (func func' : Call S E A) (s s' s'' : S) (now t : ℕ) (b : Breaker) (a : A)
    (e : E)
    → b.state ≡ opened
    → b.last_failure_time ≡ some t
    → t ≢ 0
    → t + b.recovery_timeout < now
    → IsValid b
    → func s ≡ (ok a, s')
    → func' s ≡ (raised e, s'')
    → (call_with_circuit_breaker now func b s
        ≡ (ok a, record b { state = closed; failure_count = 0; last_failure_time = none }, s'))
      × (call_with_circuit_breaker now func' b s ≡ (
        raised operation_failed,
        record b {
          state = opened;
          failure_count = b.failure_count + 1;
          last_failure_time = some now;
        },
        s'',
      ))
trial_settles func func' s s' s'' now t b a e at last set passed v returns raises = (
  trial_closes func s now t b at last set passed a s' returns,
  trial_reopens func' s now t b at last set passed e s'' v raises,
)

drive-append :
    (calls more : List (ℕ × Ending)) (b : Breaker)
    → drive (calls ++ more) b ≡ drive more (drive calls b)
unfolding drive
drive-append [] more b = refl
drive-append ((t, e) ∷ calls) more b =
    drive-append calls more (call_with_circuit_breaker t (probe e) b tt).1

-- The calls are made by a time.
abbrev pub By : ℕ → List (ℕ × Ending) → Type 0
By t calls = All (λ call. call.0 ≤ t) calls

drive-open :
    (more : List (ℕ × Ending)) (t : ℕ) (b : Breaker)
    → b.state ≡ opened
    → b.last_failure_time ≡ some t
    → By (t + b.recovery_timeout) more
    → drive more b ≡ b
unfolding drive
drive-open [] t b at last early = refl
drive-open ((now, e) ∷ more) t b at last (first, early) =
    rw (open_call (probe e) tt now t b at last first) (drive-open more t b at last early)

-- Once the failure that completes the threshold has opened the circuit, no call is made until more
-- than the recovery timeout has passed since that failure, whatever calls are attempted meanwhile:
-- they neither close the circuit nor prolong the wait, and the breaker stays as the failure left it.
pub no_call_while_open :
    {S E A : Type 0} (func : Call S E A) (s : S) (calls more : List (ℕ × Ending)) (now later : ℕ)
    (b : Breaker)
    → b.state ≡ closed
    → b.failure_count + failures calls + 1 ≡ b.failure_threshold
    → By (now + b.recovery_timeout) more
    → later ≤ now + b.recovery_timeout
    → call_with_circuit_breaker later func (drive ((calls ++ (now, failure) ∷ []) ++ more) b) s
      ≡ (raised circuit_open, drive (calls ++ (now, failure) ∷ []) b, s)
no_call_while_open func s calls more now later b h n early soon =
    let tripped : Breaker = drive (calls ++ (now, failure) ∷ []) b in
    let (at, last, wait) = opens_at calls now b h n in
    rw
      (
        drive-append (calls ++ (now, failure) ∷ []) more b,
        drive-open more now tripped at last (subst (λ r. By (now + r) more) (sym wait) early),
      )
      (open_call func s later now tripped at last (subst (λ r. later ≤ now + r) (sym wait) soon))

-- ===== src/Queue/State.antt =====
-- The state of the queue: its entries in Django's cache, the timers of the process, the clock and
-- whatever a delivery changes outside. The kinds of entries stand in caches of their own, since
-- their keys begin with different words.
use notipus.Base.{ℕ, ◌+◌, ◌/◌, String, ◌≡◌, true, Option, some, List, []}
use notipus.Base.Call.{Outcome, Call, ok, raised}
use notipus.Cache.{Cache, CacheError}
use notipus.Queue.{
  PendingItem, Group, pending_key, attempts_key, append_lock_key, processing_lock_key,
}

-- What the encrypted value of a pending list decrypts to. No key decrypts a poisoned one.
pub data Pending : Type 0 where
  stored : List PendingItem → Pending
  poisoned : Pending

-- An exception of the cache, of the append lock (`RuntimeError`), or of a delivery.
pub data QueueError : Type 0 where
  cache_failed : CacheError → QueueError
  lock_not_acquired : QueueError
  delivery_failed : QueueError

pub record Backend : Type 1 where
  pub pending : Cache Pending
  -- The tokens of those who hold an append lock.
  pub append_locks : Cache ℕ
  pub processing_locks : Cache (Unit {0})
  pub attempts : Cache ℕ
  pub World : Type 0

-- `ticks` counts hundredths of a second. `next_token` is a token that no lock has held, as `uuid4`
-- makes it.
pub record Parts (P L R A W : Type 0) : Type 0 where
  pub pending : P
  pub append_locks : L
  pub processing_locks : R
  pub attempts : A
  pub active_timers : List String
  pub ticks : ℕ
  pub next_token : ℕ
  pub world : W

-- A cache that answers at every time.
abbrev pub AlwaysUp : {V : Type 0} → Cache V → Type 0
AlwaysUp c = (s : c.State) (t : ℕ) → c.up s t ≡ true

abbrev pub fail_with : {E F A : Type 0} → (E → F) → Outcome E A → Outcome F A
fail_with f (ok a) = ok a
fail_with f (raised e) = raised (f e)

-- The outcome of a `finally` clause: an exception in it hides the one before.
abbrev pub and_then : {E A : Type 0} → Outcome E A → Outcome E (Unit {0}) → Outcome E A
and_then r (ok tt) = r
and_then r (raised e) = raised e

-- `try: m finally: f`
unfoldable pub try_finally : {S E A : Type 0} → Call S E A → Call S E (Unit {0}) → Call S E A
try_finally m f s = let (r, s') = m s in let (q, s'') = f s' in (and_then r q, s'')

module _ (b : Backend) where
  abbrev pub State : Type 0
  State =
      Parts b.pending.State b.append_locks.State b.processing_locks.State b.attempts.State b.World

  abbrev pub Op : Type 0 → Type 0
  Op A = Call State QueueError A

  -- `time.time()` in whole seconds
  abbrev pub now : State → ℕ
  now s = s.ticks / 100

  abbrev pub sleep : ℕ → Op (Unit {0})
  sleep n s = (ok tt, record s { ticks = s.ticks + n })

  unfoldable pub on_pending : {A : Type 0} → (ℕ → Call b.pending.State CacheError A) → Op A
  on_pending op s =
      let (r, c) = op (now s) s.pending in (fail_with cache_failed r, record s { pending = c })

  unfoldable pub on_append_locks :
      {A : Type 0} → (ℕ → Call b.append_locks.State CacheError A) → Op A
  on_append_locks op s =
      let (r, c) = op (now s) s.append_locks in
      (fail_with cache_failed r, record s { append_locks = c })

  unfoldable pub on_processing_locks :
      {A : Type 0} → (ℕ → Call b.processing_locks.State CacheError A) → Op A
  on_processing_locks op s =
      let (r, c) = op (now s) s.processing_locks in
      (fail_with cache_failed r, record s { processing_locks = c })

  unfoldable pub on_attempts : {A : Type 0} → (ℕ → Call b.attempts.State CacheError A) → Op A
  on_attempts op s =
      let (r, c) = op (now s) s.attempts in (fail_with cache_failed r, record s { attempts = c })

  abbrev pub items_of : Option Pending → List PendingItem
  items_of (some (stored items)) = items
  items_of _ = []

  -- The events that wait in a group now.
  abbrev pub waiting : Group → State → List PendingItem
  waiting g s = items_of (b.pending.peek s.pending (now s) (pending_key g))

  -- The number of failed deliveries that is remembered of a group.
  abbrev pub failures : Group → State → Option ℕ
  failures g s = b.attempts.peek s.attempts (now s) (attempts_key g)

  abbrev pub append_lock : Group → State → Option ℕ
  append_lock g s = b.append_locks.peek s.append_locks (now s) (append_lock_key g)

  abbrev pub processing_lock : Group → State → Option (Unit {0})
  processing_lock g s = b.processing_locks.peek s.processing_locks (now s) (processing_lock_key g)

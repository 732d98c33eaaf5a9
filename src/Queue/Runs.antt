-- ===== src/Queue/Runs.antt =====
-- The calls of the queue, run while the caches answer: their results and the states they leave.
use notipus.Base.{ℕ, suc, ◌+◌, ◌≡◌, true, false, none, some, List, [], ◌==◌, arith}
use mathlib.Core.Option.{get_or}
use notipus.Base.Call.{ok}
use notipus.Cache.{get-up, set-up, add-up, delete-up}
use notipus.Queue.{
  PendingItem, Group, pending_key, attempts_key, append_lock_key, processing_lock_key, ttl_seconds,
  append_lock_ttl_seconds, processing_lock_ttl,
}
use notipus.Queue.State.{
  stored, Backend, State, AlwaysUp, now, on_pending, on_append_locks, on_attempts,
  on_processing_locks, append_lock, failures, processing_lock,
}
use notipus.Queue.Store.{read_pending_items, settle_read, try_append_lock, release_append_lock}
use notipus.Queue.Process.{record_failed_attempt, acquire_lock, release_lock, ignore_failure}

module _ (b : Backend) (g : Group) (s : State b) where
  pub read-stored :
      (items : List PendingItem)
      → AlwaysUp b.pending
      → b.pending.peek s.pending (now b s) (pending_key g) ≡ some (stored items)
      → read_pending_items b g s ≡ (ok (some items), s)
  unfolding read_pending_items on_pending settle_read
  read-stored items up h =
      rw (get-up b.pending (now b s) (pending_key g) (up s.pending (now b s)), h)

  pub read-missing :
      AlwaysUp b.pending
      → b.pending.peek s.pending (now b s) (pending_key g) ≡ none
      → read_pending_items b g s ≡ (ok (some []), s)
  unfolding read_pending_items on_pending settle_read
  read-missing up h = rw (get-up b.pending (now b s) (pending_key g) (up s.pending (now b s)), h)

  -- The state of one who has taken the append lock with a token.
  abbrev pub with_append_lock : ℕ → State b
  with_append_lock token = record s {
    append_locks =
        b.append_locks.store s.append_locks (now b s) (append_lock_key g) token
          append_lock_ttl_seconds;
  }

  pub try_append_lock-free :
      (left token : ℕ)
      → AlwaysUp b.append_locks
      → append_lock b g s ≡ none
      → try_append_lock b (suc left) g token s ≡ (ok (some token), with_append_lock token)
  unfolding try_append_lock on_append_locks
  try_append_lock-free left token up h = rw (
    add-up b.append_locks (now b s) (append_lock_key g) token append_lock_ttl_seconds
        (up s.append_locks (now b s)),
    h,
  )

  pub try_append_lock-held :
      (left token holder : ℕ)
      → AlwaysUp b.append_locks
      → append_lock b g s ≡ some holder
      → try_append_lock b (suc left) g token s
        ≡ try_append_lock b left g token (record s { ticks = s.ticks + 5 })
  unfolding try_append_lock on_append_locks
  try_append_lock-held left token holder up h = rw (
    add-up b.append_locks (now b s) (append_lock_key g) token append_lock_ttl_seconds
        (up s.append_locks (now b s)),
    h,
  )

  pub release_append_lock-own :
      (token : ℕ)
      → AlwaysUp b.append_locks
      → append_lock b g s ≡ some token
      → release_append_lock b g token s ≡ (
        ok tt,
        record s { append_locks = b.append_locks.remove s.append_locks (append_lock_key g) },
      )
  unfolding release_append_lock on_append_locks
  release_append_lock-own token up h = rw (
    get-up b.append_locks (now b s) (append_lock_key g) (up s.append_locks (now b s)),
    h,
    same_refl token,
    delete-up b.append_locks (now b s) (append_lock_key g) (up s.append_locks (now b s)),
  )
    where
      same_refl : (n : ℕ) → (n == n) ≡ true
      same_refl n = ground arith

  pub record_failed_attempt-up :
      AlwaysUp b.attempts
      → record_failed_attempt b g s ≡ (
        ok (get_or (failures b g s) 0 + 1),
        record s {
          attempts =
              b.attempts.store s.attempts
                (now b s)
                (attempts_key g)
                (get_or (failures b g s) 0 + 1)
                ttl_seconds;
        },
      )
  unfolding record_failed_attempt on_attempts
  record_failed_attempt-up up = rw (
    get-up b.attempts (now b s) (attempts_key g) (up s.attempts (now b s)),
    set-up b.attempts (now b s) (attempts_key g) (get_or (failures b g s) 0 + 1) ttl_seconds
        (up s.attempts (now b s)),
  )

  pub acquire_lock-free :
      AlwaysUp b.processing_locks
      → processing_lock b g s ≡ none
      → acquire_lock b g s ≡ (
        ok true,
        record s {
          processing_locks =
              b.processing_locks.store s.processing_locks
                (now b s)
                (processing_lock_key g)
                tt
                processing_lock_ttl;
        },
      )
  unfolding acquire_lock on_processing_locks
  acquire_lock-free up h = rw (
    add-up b.processing_locks (now b s) (processing_lock_key g) tt processing_lock_ttl
        (up s.processing_locks (now b s)),
    h,
  )

  pub acquire_lock-held :
      AlwaysUp b.processing_locks
      → processing_lock b g s ≡ some tt
      → acquire_lock b g s ≡ (ok false, s)
  unfolding acquire_lock on_processing_locks
  acquire_lock-held up h = rw (
    add-up b.processing_locks (now b s) (processing_lock_key g) tt processing_lock_ttl
        (up s.processing_locks (now b s)),
    h,
  )

  pub release_lock-up :
      AlwaysUp b.processing_locks
      → release_lock b g s ≡ (
        ok tt,
        record s {
          processing_locks = b.processing_locks.remove s.processing_locks (processing_lock_key g);
        },
      )
  unfolding release_lock on_processing_locks ignore_failure
  release_lock-up up = rw (
      delete-up b.processing_locks (now b s) (processing_lock_key g)
        (up s.processing_locks (now b s)))

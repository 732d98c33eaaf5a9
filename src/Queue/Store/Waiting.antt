-- ===== src/Queue/Store/Waiting.antt =====
-- How long a worker waits for the append lock, which a crashed worker leaves until it expires.
use notipus.Base.{
  ℕ, zero, suc, ◌+◌, ◌*◌, ◌/◌, ◌≤◌, ◌≡◌, false, none, some, arith, ltb, eq_refl, Bool-cases, inl,
  All, true, List, ◌++◌, ◌∙◌, refl, inr, if◌then◌else◌,
}
use notipus.Base.Call.{ok}
use notipus.Queue.{PendingItem, Group, pending_key, append_lock_key, append_lock_ttl_seconds}
use notipus.Queue.State.{Backend, State, now, append_lock, stored, waiting}
use notipus.Queue.Store.{acquire_append_lock, try_append_lock}
use notipus.Queue.Process.{remove_processed_items}
use notipus.Queue.Process.Removal.{is_well_keyed}
use notipus.Queue.Process.Finishing.{AllUp, written, remove_holding-own, waiting-written}
use notipus.Queue.Runs.{with_append_lock, try_append_lock-free, try_append_lock-held}

module _ (b : Backend) (g : Group) (up : AllUp b) where
  -- The locks after a worker took that of the group at a time, and left it.
  abbrev pub crashed : ℕ → ℕ → b.append_locks.State → b.append_locks.State
  crashed t token c = b.append_locks.store c t (append_lock_key g) token append_lock_ttl_seconds

  crashed-lock :
      (t holder : ℕ) (c : b.append_locks.State) (s : State b)
      → s.append_locks ≡ crashed t holder c
      → append_lock b g s ≡ (if ltb (now b s) (t + 5) then some holder else none)
  crashed-lock t holder c s h = rw (
    h,
    b.append_locks.peek-store c t (now b s) append_lock_ttl_seconds (append_lock_key g)
        (append_lock_key g) holder,
    eq_refl (append_lock_key g),
  )

  expired : (ticks t : ℕ) → t + 5 ≤ (ticks + 5 * 0) / 100 → ltb (ticks / 100) (t + 5) ≡ false
  expired ticks t h = ground arith

  -- The lock is got, at a time that the attempts reach.
  abbrev Gets : ℕ → ℕ → State b → Type 0
  Gets left token s =
      (r : ℕ) × (r ≤ s.ticks + 5 * left)
      × (try_append_lock b (suc left) g token s
          ≡ (ok (some token), with_append_lock b g (record s { ticks = r }) token))

  try_append_lock-crashed :
      (left token t holder : ℕ) (c : b.append_locks.State) (s : State b)
      → s.append_locks ≡ crashed t holder c
      → t + 5 ≤ (s.ticks + 5 * left) / 100
      → Gets left token s
  try_append_lock-crashed zero token t holder c s h enough = (
    s.ticks,
    omega arith,
    try_append_lock-free b g s 0 token up.append_locks
        (rw (crashed-lock t holder c s h, expired s.ticks t enough)),
  )
  try_append_lock-crashed (suc left) token t holder c s h enough =
      elim (Bool-cases (ltb (now b s) (t + 5))) [
        | inr free ↦ (
          s.ticks,
          omega arith,
          try_append_lock-free b g s (suc left) token up.append_locks
              (rw (crashed-lock t holder c s h, free)),
        )
        | inl held ↦
            let (r, bound, got) =
              try_append_lock-crashed left token t holder c (record s { ticks = s.ticks + 5 }) h
                (omega (arith, enough)) in
            (
              r,
              omega (arith, bound),
              try_append_lock-held b g s (suc left) token holder up.append_locks
                    (rw (crashed-lock t holder c s h, held))
                  ∙ got,
            )
      ]

  soon : (ticks r : ℕ) → r ≤ ticks + 595 → r / 100 ≤ ticks / 100 + 6
  soon ticks r h = omega (arith, h)

  removed_at :
      (r : ℕ) (s : State b) (processed appended : List PendingItem)
      → let s' : State b = record s { ticks = r; next_token = s.next_token + 1 } in
        try_append_lock b 120 g s.next_token (record s { next_token = s.next_token + 1 })
          ≡ (ok (some s.next_token), with_append_lock b g s' s.next_token)
        → All (λ i. is_well_keyed i ≡ true) processed
        → b.pending.peek s.pending (r / 100) (pending_key g) ≡ some (stored (processed ++ appended))
        → remove_processed_items b g processed s ≡ (
          ok appended,
          record s' {
            pending = written b g appended (r / 100) s.pending;
            append_locks =
                b.append_locks.remove
                  (with_append_lock b g s' s.next_token).append_locks
                  (append_lock_key g);
          },
        )
  unfolding remove_processed_items acquire_append_lock
  removed_at r s processed appended got keyed waits = rw got (
      remove_holding-own b g processed appended s.next_token
        (record s { ticks = r; next_token = s.next_token + 1 }) up keyed waits)

  -- A worker that finishes a group removes the items that it sent and no others even if another
  -- worker took the append lock, however short a time ago, and crashed: its attempts last until the
  -- lock has expired, so that it never deletes the whole list. The caches answer, the list does not
  -- change or expire for six seconds, and no dictionary has a key twice.
  pub finalizing_outlasts_crash :
      (t holder : ℕ) (c : b.append_locks.State) (s : State b)
      (processed appended : List PendingItem)
      → s.append_locks ≡ crashed t holder c
      → t ≤ now b s
      → All (λ i. is_well_keyed i ≡ true) processed
      → ((r : ℕ)
          → r ≤ now b s + 6
          → b.pending.peek s.pending r (pending_key g) ≡ some (stored (processed ++ appended)))
      → ((remove_processed_items b g processed s).0 ≡ ok appended)
        × (waiting b g (remove_processed_items b g processed s).1 ≡ appended)
  finalizing_outlasts_crash t holder c s processed appended h past keyed waits =
      let (r, bound, got) =
        try_append_lock-crashed 119 s.next_token t holder c
          (record s { next_token = s.next_token + 1 }) h (omega (arith, past)) in
      rw (removed_at r s processed appended got keyed (waits (r / 100) (soon s.ticks r bound)))
        (refl, waiting-written b g appended s.pending (r / 100))

-- ===== src/Queue/Process/Delivered.antt =====
-- What a delivery that succeeds leaves of a group.
use notipus.Base.{
  ◌≡◌, refl, Bool, true, not, none, some, List, ◌∷◌, ◌++◌, All, eq_refl, filter, str_eq,
}
use notipus.Base.Json.{Fields}
use notipus.Base.Call.{Outcome, ok, continue}
use notipus.Queue.{
  PendingItem, Group, pending_key, attempts_key, processing_lock_key, timer_key,
  processing_lock_ttl,
}
use notipus.Queue.Aggregation.{aggregate_events}
use notipus.Queue.State.{
  stored, QueueError, Backend, State, Op, now, append_lock, try_finally, waiting, failures,
  processing_lock,
}
use notipus.Queue.Process.{process_events, process_locked, process_items, settle_delivery}
use notipus.Queue.Process.Removal.{is_well_keyed}
use notipus.Queue.Process.Finishing.{AllUp, finished, finish_group-up, waiting-written}
use notipus.Queue.Runs.{read-stored, acquire_lock-free, release_lock-up}

module _ (b : Backend) (deliver : Group → Fields → Fields → Op b Bool) (g : Group) where
  -- The state in which a worker delivers: the timer is forgotten and the group is locked.
  abbrev pub taken_over : State b → State b
  taken_over s = record s {
    active_timers = filter (λ key. not (str_eq key (timer_key g))) s.active_timers;
    processing_locks =
        b.processing_locks.store s.processing_locks (now b s) (processing_lock_key g) tt
          processing_lock_ttl;
  }

  abbrev pub released : State b → State b
  released s = record s {
    processing_locks = b.processing_locks.remove s.processing_locks (processing_lock_key g);
  }

  abbrev pub attempt : PendingItem → List PendingItem → State b → Outcome QueueError Bool × State b
  attempt i is s =
      deliver g (aggregate_events (i ∷ is)).0 (aggregate_events (i ∷ is)).1 (taken_over s)

  pub process_events-settle :
      (i : PendingItem) (is : List PendingItem) (s s' : State b)
      → AllUp b
      → processing_lock b g s ≡ none
      → b.pending.peek s.pending (now b s) (pending_key g) ≡ some (stored (i ∷ is))
      → continue (settle_delivery b g (i ∷ is)) (attempt i is s) ≡ (ok tt, s')
      → process_events b deliver g s ≡ (ok tt, released s')
  unfolding process_events process_locked process_items try_finally
  process_events-settle i is s s' up free waits settled = rw (
    acquire_lock-free b g
        (record s {
          active_timers = filter (λ key. not (str_eq key (timer_key g))) s.active_timers;
        })
        up.processing_locks free,
    read-stored b g (taken_over s) (i ∷ is) up.pending waits,
    settled,
    release_lock-up b g s' up.processing_locks,
  )

  pub released-lock : (s : State b) → processing_lock b g (released s) ≡ none
  released-lock s = rw (
    b.processing_locks.peek-remove s.processing_locks (now b s) (processing_lock_key g)
        (processing_lock_key g),
    eq_refl (processing_lock_key g),
  )

  -- What is left of a group that has been finished.
  abbrev pub Finished : List PendingItem → State b → Type 0
  Finished remaining s =
      (waiting b g s ≡ remaining) × (failures b g s ≡ none) × (processing_lock b g s ≡ none)

  pub finished-Finished :
      (remaining : List PendingItem) (s : State b)
      → Finished remaining (released (finished b g remaining s))
  finished-Finished remaining s = (
    waiting-written b g remaining s.pending (now b s),
    rw (
      b.attempts.peek-remove s.attempts (now b s) (attempts_key g) (attempts_key g),
      eq_refl (attempts_key g),
    ),
    released-lock (finished b g remaining s),
  )

  -- A delivery that succeeds, in whatever state it and other workers leave the queue, removes the
  -- items that were sent and no others: exactly the items that were appended meanwhile remain, in
  -- their order. The count of failures and the processing lock are gone. The caches answer, the
  -- group's locks are not held, and no dictionary has a key twice.
  pub sent_items_removed :
      (i : PendingItem) (is appended : List PendingItem) (s s' : State b)
      → AllUp b
      → All (λ j. is_well_keyed j ≡ true) (i ∷ is)
      → processing_lock b g s ≡ none
      → b.pending.peek s.pending (now b s) (pending_key g) ≡ some (stored (i ∷ is))
      → attempt i is s ≡ (ok true, s')
      → append_lock b g s' ≡ none
      → b.pending.peek s'.pending (now b s') (pending_key g) ≡ some (stored ((i ∷ is) ++ appended))
      → ((process_events b deliver g s).0 ≡ ok tt)
        × Finished appended (process_events b deliver g s).1
  unfolding settle_delivery
  sent_items_removed i is appended s s' up keyed free waits sent unlocked after =
      rw
        (process_events-settle i is s (finished b g appended s') up free waits
          (rw sent (finish_group-up b g (i ∷ is) appended s' up keyed unlocked after)))
        (refl, finished-Finished appended s')

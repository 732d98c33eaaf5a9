-- ===== src/Queue/Process/Finishing.antt =====
-- How a group is finished after its delivery, or when it is given up: what `finish_group` leaves.
use notipus.Base.{
  ℕ, suc, ◌+◌, String, ◌≡◌, refl, true, none, some, List, [], ◌∷◌, ◌++◌, arith, All, ltb,
  Bool-cases, inl, inr, eq_refl, contains, if◌then◌else◌,
}
use notipus.Base.Call.{ok}
use notipus.Cache.{set-up, delete-up}
use notipus.Queue.{
  PendingItem, Group, pending_key, attempts_key, append_lock_key, timer_key, ttl_seconds,
  append_lock_ttl_seconds,
}
use notipus.Queue.State.{
  stored, Backend, State, AlwaysUp, now, on_pending, on_attempts, append_lock, try_finally,
  items_of,
}
use notipus.Queue.Store.{acquire_append_lock, schedule_processing}
use notipus.Queue.Process.{
  finish_group, remove_processed_items, remove_holding, remove_found, write_remainder, reschedule,
}
use notipus.Queue.Process.Removal.{is_well_keyed, remove_all-appended}
use notipus.Queue.Runs.{
  read-stored, with_append_lock, try_append_lock-free, release_append_lock-own,
}

-- While all caches answer.
pub record AllUp (b : Backend) : Type 0 where
  pub pending : AlwaysUp b.pending
  pub append_locks : AlwaysUp b.append_locks
  pub processing_locks : AlwaysUp b.processing_locks
  pub attempts : AlwaysUp b.attempts

module _ (b : Backend) (g : Group) where
  abbrev pub written : List PendingItem → ℕ → b.pending.State → b.pending.State
  written [] t c = b.pending.remove c (pending_key g)
  written (i ∷ is) t c = b.pending.store c t (pending_key g) (stored (i ∷ is)) ttl_seconds

  abbrev pub with_timer : List String → List String
  with_timer timers = if contains (timer_key g) timers then timers else timer_key g ∷ timers

  abbrev pub timers_after : List PendingItem → List String → List String
  timers_after [] timers = timers
  timers_after (i ∷ is) timers = with_timer timers

  -- The state in which the group is finished, with the items that remain.
  abbrev pub finished : List PendingItem → State b → State b
  finished remaining s = record s {
    pending = written remaining (now b s) s.pending;
    append_locks =
        b.append_locks.remove
          (b.append_locks.store s.append_locks (now b s) (append_lock_key g) s.next_token
            append_lock_ttl_seconds)
          (append_lock_key g);
    attempts = b.attempts.remove s.attempts (attempts_key g);
    active_timers = timers_after remaining s.active_timers;
    next_token = s.next_token + 1;
  }

  now-lt : (t d : ℕ) → ltb t (t + suc d) ≡ true
  now-lt t d = ground arith

  pub waiting-written :
      (items : List PendingItem) (c : b.pending.State) (t : ℕ)
      → items_of b (b.pending.peek (written items t c) t (pending_key g)) ≡ items
  waiting-written [] c t =
      rw (b.pending.peek-remove c t (pending_key g) (pending_key g), eq_refl (pending_key g))
  waiting-written (i ∷ is) c t = rw (
    b.pending.peek-store c t t ttl_seconds (pending_key g) (pending_key g) (stored (i ∷ is)),
    eq_refl (pending_key g),
    in_time t,
  )
    where
      in_time : (t : ℕ) → ltb t (t + ttl_seconds) ≡ true
      in_time t = ground arith

  write_remainder-up :
      (remaining : List PendingItem) (s : State b)
      → AlwaysUp b.pending
      → write_remainder b g remaining s
        ≡ (ok tt, record s { pending = written remaining (now b s) s.pending })
  unfolding write_remainder on_pending
  write_remainder-up [] s up =
      rw (delete-up b.pending (now b s) (pending_key g) (up s.pending (now b s)))
  write_remainder-up (i ∷ is) s up = rw (
      set-up b.pending (now b s) (pending_key g) (stored (i ∷ is)) ttl_seconds
        (up s.pending (now b s)))

  pub append_lock-own :
      (s : State b) (token : ℕ) → append_lock b g (with_append_lock b g s token) ≡ some token
  append_lock-own s token = rw (
    b.append_locks.peek-store s.append_locks (now b s) (now b s) append_lock_ttl_seconds
        (append_lock_key g) (append_lock_key g) token,
    eq_refl (append_lock_key g),
    now-lt (now b s) 4,
  )

  -- What the holder of the append lock makes of the list.
  pub remove_holding-own :
      (processed appended : List PendingItem) (token : ℕ) (s : State b)
      → AllUp b
      → All (λ i. is_well_keyed i ≡ true) processed
      → b.pending.peek s.pending (now b s) (pending_key g) ≡ some (stored (processed ++ appended))
      → remove_holding b g processed (some token) (with_append_lock b g s token) ≡ (
        ok appended,
        record s {
          pending = written appended (now b s) s.pending;
          append_locks =
              b.append_locks.remove (with_append_lock b g s token).append_locks (append_lock_key g);
        },
      )
  unfolding remove_holding remove_found try_finally
  remove_holding-own processed appended token s up keyed waits = rw (
    read-stored b g s1 (processed ++ appended) up.pending waits,
    remove_all-appended processed appended keyed,
    write_remainder-up appended s1 up.pending,
    release_append_lock-own b g s2 token up.append_locks (append_lock-own s token),
  )
    where
      s1 : State b
      s1 = with_append_lock b g s token

      s2 : State b
      s2 = record s1 { pending = written appended (now b s1) s1.pending }

  remove_processed_items-up :
      (processed appended : List PendingItem) (s : State b)
      → AllUp b
      → All (λ i. is_well_keyed i ≡ true) processed
      → append_lock b g s ≡ none
      → b.pending.peek s.pending (now b s) (pending_key g) ≡ some (stored (processed ++ appended))
      → remove_processed_items b g processed s ≡ (
        ok appended,
        record (finished appended s) { attempts = s.attempts; active_timers = s.active_timers },
      )
  unfolding remove_processed_items acquire_append_lock
  remove_processed_items-up processed appended s up keyed free waits =
      rw (try_append_lock-free b g s1 119 s.next_token up.append_locks free)
        (remove_holding-own processed appended s.next_token s1 up keyed waits)
    where
      s1 : State b
      s1 = record s { next_token = s.next_token + 1 }

  pub schedule_processing-run :
      (s : State b)
      → schedule_processing b g s ≡ (ok tt, record s { active_timers = with_timer s.active_timers })
  unfolding schedule_processing
  schedule_processing-run s = elim (Bool-cases (contains (timer_key g) s.active_timers)) [
    | inl h ↦ rw h
    | inr h ↦ rw h
  ]

  reschedule-run :
      (remaining : List PendingItem) (s : State b)
      → reschedule b g remaining s
        ≡ (ok tt, record s { active_timers = timers_after remaining s.active_timers })
  reschedule-run [] s = refl
  reschedule-run (i ∷ is) s = schedule_processing-run s

  pub finish_group-up :
      (processed appended : List PendingItem) (s : State b)
      → AllUp b
      → All (λ i. is_well_keyed i ≡ true) processed
      → append_lock b g s ≡ none
      → b.pending.peek s.pending (now b s) (pending_key g) ≡ some (stored (processed ++ appended))
      → finish_group b g processed s ≡ (ok tt, finished appended s)
  unfolding finish_group on_attempts
  finish_group-up processed appended s up keyed free waits =
      rw
        (
          remove_processed_items-up processed appended s up keyed free waits,
          delete-up b.attempts (now b s) (attempts_key g) (up.attempts s.attempts (now b s)),
        )
        (reschedule-run appended s3)
    where
      s3 : State b
      s3 = record (finished appended s) { active_timers = s.active_timers }

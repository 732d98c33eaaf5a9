-- ===== src/Queue/Process/Sweeps.antt =====
-- What deliveries that fail make of a group: it is kept for the next sweep, until too many have
-- failed.
use notipus.Base.{
  ℕ, zero, suc, ◌+◌, ◌*◌, ◌/◌, ◌<◌, ◌≡◌, Bool, true, false, none, some, List, ◌∷◌, ◌++◌, arith, All,
  leb, eq_refl,
}
use mathlib.Core.Option.{get_or}
use notipus.Base.Json.{Fields}
use notipus.Base.Call.{ok}
use notipus.Queue.{
  PendingItem, Group, pending_key, attempts_key, append_lock_key, processing_lock_key, ttl_seconds,
}
use notipus.Queue.State.{stored, Backend, State, Op, now, append_lock, failures, processing_lock}
use notipus.Queue.Process.{process_events, settle_delivery}
use notipus.Queue.Process.Removal.{is_well_keyed}
use notipus.Queue.Process.Finishing.{AllUp, finished, finish_group-up}
use notipus.Queue.Process.Delivered.{taken_over, released, attempt, process_events-settle}
use notipus.Queue.Runs.{record_failed_attempt-up}

-- `RECOVERY_SWEEP_INTERVAL_SECONDS`
abbrev pub recovery_sweep_interval_seconds : ℕ
recovery_sweep_interval_seconds = 300

module _ (b : Backend) (deliver : Group → Fields → Fields → Op b Bool) (g : Group) where
  -- One more failure is remembered.
  abbrev pub counted : ℕ → State b → State b
  counted n s = record s {
    attempts = b.attempts.store s.attempts (now b s) (attempts_key g) (n + 1) ttl_seconds;
  }

  pub failed-keeps :
      (i : PendingItem) (is : List PendingItem) (s s' : State b) (n : ℕ)
      → AllUp b
      → processing_lock b g s ≡ none
      → b.pending.peek s.pending (now b s) (pending_key g) ≡ some (stored (i ∷ is))
      → attempt b deliver g i is s ≡ (ok false, s')
      → get_or (failures b g s') 0 ≡ n
      → n + 1 < 20
      → process_events b deliver g s ≡ (ok tt, released b deliver g (counted n s'))
  unfolding settle_delivery
  failed-keeps i is s s' n up free waits failed count few =
      process_events-settle b deliver g i is s (counted n s') up free waits
        (rw (failed, record_failed_attempt-up b g s' up.attempts, count, below))
    where
      below : leb 20 (n + 1) ≡ false
      below = ground arith

  pub failed-drops :
      (i : PendingItem) (is appended : List PendingItem) (s s' : State b) (n : ℕ)
      → AllUp b
      → All (λ j. is_well_keyed j ≡ true) (i ∷ is)
      → processing_lock b g s ≡ none
      → b.pending.peek s.pending (now b s) (pending_key g) ≡ some (stored (i ∷ is))
      → attempt b deliver g i is s ≡ (ok false, s')
      → append_lock b g s' ≡ none
      → b.pending.peek s'.pending (now b s') (pending_key g) ≡ some (stored ((i ∷ is) ++ appended))
      → get_or (failures b g s') 0 ≡ n
      → leb 20 (n + 1) ≡ true
      → process_events b deliver g s
        ≡ (ok tt, released b deliver g (finished b g appended (counted n s')))
  unfolding settle_delivery
  failed-drops i is appended s s' n up keyed free waits failed unlocked after count many =
      process_events-settle b deliver g i is s (finished b g appended (counted n s')) up free waits
        (rw (failed, record_failed_attempt-up b g s' up.attempts, count, many)
          (finish_group-up b g (i ∷ is) appended (counted n s') up keyed unlocked after))

  -- The state after a delivery that changed the world.
  abbrev pub later : State b → b.World → State b
  later s w = record (taken_over b deliver g s) { world = w }

  abbrev pub pause : State b → State b
  pause s = record s { ticks = s.ticks + 100 * recovery_sweep_interval_seconds }

  -- A sweep processes the group and waits for the next one.
  unfoldable pub sweep : State b → State b
  unfolding process_events
  sweep s = pause (process_events b deliver g s).1

  unfoldable pub sweeps : ℕ → State b → State b
  unfolding sweep
  sweeps zero s = s
  sweeps (suc n) s = sweep (sweeps n s)

  -- A group that was stored at a tick waits after a number of failed sweeps.
  abbrev pub Waits : List PendingItem → ℕ → ℕ → State b → Type 0
  Waits items start n s =
      (s.ticks ≡ start + 30000 * n)
      × ((t : ℕ)
          → t < start / 100 + ttl_seconds
          → b.pending.peek s.pending t (pending_key g) ≡ some (stored items))
      × ((t : ℕ) → b.processing_locks.peek s.processing_locks t (processing_lock_key g) ≡ none)
      × ((t : ℕ) → b.append_locks.peek s.append_locks t (append_lock_key g) ≡ none)
      × (get_or (failures b g s) 0 ≡ n)

  -- In the worlds of a kind, the delivery of the items' event fails, changes nothing but the world,
  -- and leaves it one of the kind.
  abbrev pub Fails : (b.World → Type 0) → PendingItem → List PendingItem → Type 0
  Fails Unreachable i is =
      (s : State b)
      → Unreachable s.world
      → (w : b.World) × Unreachable w × (attempt b deliver g i is s ≡ (ok false, later s w))

  module _ (Unreachable : b.World → Type 0) (i : PendingItem) (is : List PendingItem) (start : ℕ)
      (up : AllUp b) (fails : Fails Unreachable i is) where
    unlocked :
        (c : b.processing_locks.State) (t : ℕ)
        → b.processing_locks.peek
            (b.processing_locks.remove c (processing_lock_key g))
            t
            (processing_lock_key g)
          ≡ none
    unlocked c t = rw (
      b.processing_locks.peek-remove c t (processing_lock_key g) (processing_lock_key g),
      eq_refl (processing_lock_key g),
    )

-- ===== src/Queue/Store/Queued.antt =====
-- What `queue_event` leaves of a group.
use notipus.Base.{
  ℕ, ◌+◌, String, ◌≡◌, refl, true, false, Option, none, some, List, [], ◌∷◌, ◌++◌, arith, ltb,
  eq_refl, contains, Bool-cases, inl, inr, sym, subst,
}
use text.Mathlib.Text.{starts_with}
use notipus.Base.Int.{pos}
use notipus.Base.Json.{Fields, number, put}
use notipus.Base.Call.{Outcome, ok, continue, ◌>>◌}
use notipus.Cache.{get-up, set-up, delete-up}
use notipus.Queue.{
  PendingItem, Group, pending_key, attempts_key, append_lock_key, timer_key, ttl_seconds,
  append_lock_ttl_seconds,
}
use notipus.Queue.State.{
  Pending, stored, poisoned, QueueError, Backend, State, now, on_pending, on_attempts, append_lock,
  try_finally, waiting, items_of,
}
use notipus.Queue.Store.{
  read_pending_items, settle_read, append_item, append_holding, locked_append, acquire_append_lock,
  retry_append, settle_store, store_event, get_storage_key, schedule_processing, queue_event,
  group_of, existing_items,
}
use notipus.Queue.Process.Finishing.{AllUp, append_lock-own, with_timer, schedule_processing-run}
use notipus.Queue.Runs.{with_append_lock, try_append_lock-free, release_append_lock-own}

module _ (b : Backend) (g : Group) where
  abbrev pub found : State b → Option Pending
  found s = b.pending.peek s.pending (now b s) (pending_key g)

  -- The attempts are forgotten with a poisoned list.
  abbrev pub attempts_after : Option Pending → b.attempts.State → b.attempts.State
  attempts_after (some poisoned) c = b.attempts.remove c (attempts_key g)
  attempts_after _ c = c

  abbrev pub pending_after : Option Pending → b.pending.State → b.pending.State
  pending_after (some poisoned) c = b.pending.remove c (pending_key g)
  pending_after _ c = c

  abbrev pub read_state : Option Pending → State b → State b
  read_state p s = record s {
    pending = pending_after p s.pending;
    attempts = attempts_after p s.attempts;
  }

  settle_read-existing :
      (p : Option Pending) (s : State b)
      → AllUp b
      → (r : Option (List PendingItem)) × (settle_read b g p s ≡ (ok r, read_state p s))
        × (existing_items b r ≡ items_of b p)
  unfolding settle_read on_pending on_attempts
  settle_read-existing none s up = (some [], refl, refl)
  settle_read-existing (some (stored items)) s up = (some items, refl, refl)
  settle_read-existing (some poisoned) s up = (
    none,
    rw (
      delete-up b.pending (now b s) (pending_key g) (up.pending s.pending (now b s)),
      delete-up b.attempts (now b s) (attempts_key g) (up.attempts s.attempts (now b s)),
    ),
    refl,
  )

  -- The state after an item was appended to what was found.
  abbrev pub appended : PendingItem → Option Pending → State b → State b
  appended item p s =
      let s' = read_state p s in
      record s' {
        pending =
            b.pending.store s'.pending (now b s) (pending_key g)
              (stored (items_of b p ++ (item ∷ []))) ttl_seconds;
      }

  append_item-up :
      (item : PendingItem) (p : Option Pending) (s : State b)
      → AllUp b
      → found s ≡ p
      → append_item b g item s ≡ (ok tt, appended item p s)
  unfolding append_item read_pending_items on_pending
  append_item-up item p s up h =
      let (r, read, items) = settle_read-existing p s up in
      rw (
        get-up b.pending (now b s) (pending_key g) (up.pending s.pending (now b s)),
        h,
        read,
        items,
        set-up b.pending (now b s) (pending_key g) (stored (items_of b p ++ (item ∷ [])))
            ttl_seconds (up.pending (pending_after p s.pending) (now b s)),
      )

  -- The append lock was taken and released.
  abbrev pub relocked : State b → State b
  relocked s = record s {
    append_locks =
        b.append_locks.remove
          (b.append_locks.store s.append_locks (now b s) (append_lock_key g) s.next_token
            append_lock_ttl_seconds)
          (append_lock_key g);
    next_token = s.next_token + 1;
  }

  pub locked_append-up :
      (item : PendingItem) (p : Option Pending) (s : State b)
      → AllUp b
      → append_lock b g s ≡ none
      → found s ≡ p
      → locked_append b g item s ≡ (ok tt, appended item p (relocked s))
  unfolding locked_append acquire_append_lock append_holding try_finally
  locked_append-up item p s up free h = rw (
    try_append_lock-free b g s1 19 s.next_token up.append_locks free,
    append_item-up item p s2 up h,
    release_append_lock-own b g (appended item p s2) s.next_token up.append_locks
        (append_lock-own b g s1 s.next_token),
  )
    where
      s1 : State b
      s1 = record s { next_token = s.next_token + 1 }

      s2 : State b
      s2 = with_append_lock b g s1 s.next_token

  abbrev pub stamped : Fields → Fields → State b → PendingItem
  stamped event_data customer_data s = record {
    event_data = put "_queued_at" (number (pos (now b s))) event_data;
    customer_data = customer_data;
  }

  pub store_event-up :
      (event customer : Fields) (s : State b)
      → AllUp b
      → append_lock b g s ≡ none
      → store_event b g event customer s
        ≡ (ok tt, appended (stamped event customer s) (found s) (relocked s))
  unfolding store_event retry_append settle_store
  store_event-up event customer s up free =
      rw (locked_append-up (stamped event customer s) (found s) s up free refl)

  appended-waiting :
      (item : PendingItem) (p : Option Pending) (s : State b)
      → waiting b g (appended item p s) ≡ items_of b p ++ (item ∷ [])
  appended-waiting item p s = rw (
    b.pending.peek-store (pending_after p s.pending) (now b s) (now b s) ttl_seconds (pending_key g)
        (pending_key g) (stored (items_of b p ++ (item ∷ []))),
    eq_refl (pending_key g),
    in_time (now b s),
  )
    where
      in_time : (t : ℕ) → ltb t (t + ttl_seconds) ≡ true
      in_time t = ground arith

  with_timer-contains :
      (timers : List String) → contains (timer_key g) (with_timer b g timers) ≡ true
  unfolding contains
  with_timer-contains timers = elim (Bool-cases (contains (timer_key g) timers)) [
    | inl h ↦ rw (h, h)
    | inr h ↦ rw (h, eq_refl (timer_key g))
  ]

  -- An event was stored in the group, and a timer of the group runs.
  abbrev pub Joined : Fields → Fields → State b → Outcome QueueError (Unit {0}) × State b → Type 0
  Joined event customer s m =
      (m.0 ≡ ok tt)
      × (waiting b g m.1 ≡ waiting b g s ++ (stamped event customer s ∷ []))
      × (contains (timer_key g) m.1.active_timers ≡ true)

  pub joined :
      (event customer : Fields) (s : State b)
      → AllUp b
      → append_lock b g s ≡ none
      → Joined event customer s ((store_event b g event customer >> schedule_processing b g) s)
  joined event customer s up free =
      subst (λ r. Joined event customer s (continue (λ _. schedule_processing b g) r))
        (sym (store_event-up event customer s up free))
        (subst (λ r. Joined event customer s r)
          (sym (
            schedule_processing-run b g
              (appended (stamped event customer s) (found s) (relocked s))))
          (
            refl,
            appended-waiting (stamped event customer s) (found s) (relocked s),
            with_timer-contains s.active_timers,
          ))

-- An event that has a key of its own joins the events of that key, after them and with the time of
-- its arrival; a list that cannot be decrypted starts anew. A timer of the group runs. The caches
-- answer, and nobody holds the append lock of the group.
pub queued_event_waits :
    (b : Backend) (key workspace_id : String) (event customer : Fields) (s : State b)
    → starts_with key "customer:" ≡ false
    → AllUp b
    → append_lock b (group_of workspace_id key) s ≡ none
    → Joined b
        (group_of workspace_id key)
        event
        customer
        s
        (queue_event b key workspace_id event customer s)
unfolding queue_event get_storage_key
queued_event_waits b key workspace_id event customer s own up free =
    rw own (joined b (group_of workspace_id key) event customer s up free)

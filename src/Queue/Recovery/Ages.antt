-- ===== src/Queue/Recovery/Ages.antt =====
-- Which groups a sweep takes.
use notipus.Base.{
  ℕ, ◌+◌, ◌≤◌, ◌<◌, ◌≡◌, refl, Bool, true, false, ◌||◌, none, some, List, All, ◌∷◌, String, str_eq,
  contains, arith, ap, ◌++◌,
}
use notipus.Base.Int.{pos}
use notipus.Base.Json.{number, Fields, get, put, get-put_self}
use notipus.Base.Call.{Outcome, ok, raised, pure, continue}
use notipus.Queue.{PendingItem, Group, pending_key}
use notipus.Queue.State.{stored, QueueError, Backend, State, Op, now, processing_lock, append_lock}
use notipus.Queue.Process.{process_events}
use notipus.Queue.Process.Removal.{is_well_keyed}
use notipus.Queue.Process.Finishing.{AllUp}
use notipus.Queue.Process.Delivered.{attempt, Finished, sent_items_removed}
use notipus.Queue.Recovery.{
  is_old, is_orphaned, find_workspace, recover_found, recover_orphan, recover_items, or_false,
  recover_single_event,
}
use notipus.Queue.Runs.{read-stored}

-- An item as it is queued at a time.
abbrev pub queued_at : ℕ → Fields → Fields → PendingItem
queued_at stamp event customer = record {
  event_data = put "_queued_at" (number (pos stamp)) event;
  customer_data = customer;
}

is_old-put :
    (t stamp : ℕ) (event : Fields)
    → is_old t (get "_queued_at" (put "_queued_at" (number (pos stamp)) event))
      ≡ is_old t (number (pos stamp))
is_old-put t stamp event = ap (is_old t) (get-put_self "_queued_at" (number (pos stamp)) event)

young : (t stamp : ℕ) → 0 < stamp → t < stamp + 35 → is_old t (number (pos stamp)) ≡ false
unfolding is_old
young t stamp h k = ground arith

old : (t stamp : ℕ) → stamp + 35 ≤ t → is_old t (number (pos stamp)) ≡ true
unfolding is_old
old t stamp k = ground arith

module _ (b : Backend) (deliver : Group → Fields → Fields → Op b Bool) (workspaces : List String)
    (g : Group) where
  -- A sweep leaves a group alone whose first event was queued less than 35 seconds ago: its timer
  -- still runs.
  pub young_group_left :
      (event : Fields) (stamp : ℕ) (customer : Fields) (is : List PendingItem) (s : State b)
      → AllUp b
      → b.pending.peek s.pending (now b s) (pending_key g)
        ≡ some (stored (queued_at stamp event customer ∷ is))
      → 0 < stamp
      → now b s < stamp + 35
      → recover_single_event b deliver workspaces g s ≡ (false, s)
  unfolding recover_single_event recover_items recover_orphan is_orphaned
  young_group_left event stamp customer is s up waits positive recent = rw (
    read-stored b g s (queued_at stamp event customer ∷ is) up.pending waits,
    is_old-put (now b s) stamp event,
    young (now b s) stamp positive recent,
  )

  recovered :
      (m : Outcome QueueError (Unit {0}) × State b)
      → m.0 ≡ ok tt
      → or_false b deliver workspaces (continue (λ _. pure true) m) ≡ (true, m.1)
  recovered (ok tt, s) h = refl
  recovered (raised e, s) h = absurd cc

  recover_orphan-known :
      (s : State b)
      → (str_eq g.workspace_id "global" || contains g.workspace_id workspaces) ≡ true
      → recover_orphan b deliver workspaces g true s
        ≡ continue (λ _. pure true) (process_events b deliver g s)
  unfolding recover_orphan find_workspace recover_found
  recover_orphan-known s known = rw known

  -- A group whose timer was lost, say with its worker, is delivered by the next sweep that finds its
  -- first event 35 seconds old: the sweep reports it, exactly the items that were appended during the
  -- delivery remain, and its count of failures and its lock are gone. Its workspace is there, the
  -- caches answer, the group's locks are not held, and the delivery succeeds.
  pub orphan_delivered :
      (event : Fields) (stamp : ℕ) (customer : Fields) (is appended : List PendingItem)
      (s s' : State b)
      → AllUp b
      → All (λ j. is_well_keyed j ≡ true) (queued_at stamp event customer ∷ is)
      → (str_eq g.workspace_id "global" || contains g.workspace_id workspaces) ≡ true
      → stamp + 35 ≤ now b s
      → processing_lock b g s ≡ none
      → b.pending.peek s.pending (now b s) (pending_key g)
        ≡ some (stored (queued_at stamp event customer ∷ is))
      → attempt b deliver g (queued_at stamp event customer) is s ≡ (ok true, s')
      → append_lock b g s' ≡ none
      → b.pending.peek s'.pending (now b s') (pending_key g)
        ≡ some (stored ((queued_at stamp event customer ∷ is) ++ appended))
      → ((recover_single_event b deliver workspaces g s).0 ≡ true)
        × Finished b deliver g appended (recover_single_event b deliver workspaces g s).1
  unfolding recover_single_event recover_items is_orphaned
  orphan_delivered event stamp customer is appended s s' up keyed known aged free waits sent
        unlocked after =
      let done =
        sent_items_removed b deliver g (queued_at stamp event customer) is appended s s' up keyed
          free waits sent unlocked after in
      rw
        (
          read-stored b g s (queued_at stamp event customer ∷ is) up.pending waits,
          is_old-put (now b s) stamp event,
          old (now b s) stamp aged,
          recover_orphan-known s known,
          recovered (process_events b deliver g s) done.0,
        )
        (refl, done.1)

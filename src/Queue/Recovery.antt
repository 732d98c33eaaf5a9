-- ===== src/Queue/Recovery.antt =====
-- The recovery sweep: `recover_orphaned_events` and its helpers of
-- app/webhooks/services/pending_event_queue.py. The groups whose keys the scan of Redis yields are
-- passed in, as are the workspaces that exist. A worker raises nothing out of a sweep.
pub mod Ages
use notipus.Base.{
  ℕ, ◌+◌, ◌≤◌, ◌==◌, String, Bool, true, false, ◌||◌, Option, none, some, List, [], ◌∷◌, leb,
  str_eq, is_some, contains, if◌then◌else◌,
}
use notipus.Base.Int.{pos, is_positive}
use notipus.Base.Json.{Json, number, Fields, get}
use notipus.Base.Call.{Outcome, Call, ok, raised, pure, gets, continue, ◌>>=◌, ◌>>◌}
use notipus.Cache.{delete}
use notipus.Queue.{PendingItem, Group, pending_key, orphan_min_age_seconds}
use notipus.Queue.State.{QueueError, Backend, State, Op, now, on_pending}
use notipus.Queue.Store.{read_pending_items}
use notipus.Queue.Process.{process_events}

-- An item whose time is missing or not positive is taken to be orphaned. The queue writes the time.
unfoldable pub is_old : ℕ → Json → Bool
is_old t (number (pos stamp)) = if stamp == 0 then true else leb (stamp + orphan_min_age_seconds) t
is_old t _ = true

-- The age of a group is that of its first item.
unfoldable pub is_orphaned : ℕ → List PendingItem → Bool
unfolding is_old
is_orphaned t [] = false
is_orphaned t (i ∷ is) = is_old t (get "_queued_at" i.event_data)

module _ (b : Backend) (deliver : Group → Fields → Fields → Op b Bool)
    (workspaces : List String) where
  -- Whether the workspace of a group is there. The events of one that is not are dropped.
  unfoldable pub find_workspace : Group → Op b Bool
  unfolding contains on_pending
  find_workspace g =
      if str_eq g.workspace_id "global" || contains g.workspace_id workspaces
      then pure true
      else (on_pending b (λ t. delete b.pending t (pending_key g)) >> pure false)

  unfoldable pub recover_found : Group → Bool → Op b Bool
  unfolding process_events
  recover_found g false = pure false
  recover_found g true = process_events b deliver g >> pure true

  unfoldable pub recover_orphan : Group → Bool → Op b Bool
  unfolding find_workspace recover_found
  recover_orphan g false = pure false
  recover_orphan g true = find_workspace g >>= recover_found g

  -- A poisoned list has been dropped by the read.
  unfoldable pub recover_items : Group → Option (List PendingItem) → Op b Bool
  unfolding recover_orphan is_orphaned
  recover_items g none = pure false
  recover_items g (some items) = do t ← gets (now b); recover_orphan g (is_orphaned t items)

  abbrev pub or_false : Outcome QueueError Bool × State b → Bool × State b
  or_false (ok r, s) = (r, s)
  or_false (raised e, s) = (false, s)

  unfoldable pub recover_single_event : Group → State b → Bool × State b
  unfolding recover_items
  recover_single_event g s = or_false ((read_pending_items b g >>= recover_items g) s)

  -- The number of groups that were processed.
  unfoldable pub recover_orphaned_events : List Group → State b → ℕ × State b
  unfolding recover_single_event
  recover_orphaned_events [] s = (0, s)
  recover_orphaned_events (g ∷ gs) s =
      let (recovered, s') = recover_single_event g s in
      let (count, s'') = recover_orphaned_events gs s' in
      (if recovered then 1 + count else count, s'')

-- ===== src/Delivery/Pending.antt =====
-- The delivery that `PendingEventQueue` is run with: `_send_notification` on the cache of the
-- consolidation service and on what is outside.
use notipus.Base.{String, Bool, Option, none, some, List, str_eq, if◌then◌else◌}
use notipus.Base.Json.{Fields}
use notipus.Base.Call.{Outcome, ok, raised}
use notipus.Cache.{Cache}
use notipus.Consolidation.{Entry}
use notipus.Queue.{Group}
use notipus.Queue.State.{QueueError, cache_failed, delivery_failed, Backend, Op, now}
use notipus.Delivery.{Integration, Outside, Desk, DeliveryError, cache_error, send_notification}

-- The workspace of a group. Events of no workspace wait under `global`.
unfoldable pub workspace_of : Group → Option String
workspace_of g = if str_eq g.workspace_id "global" then none else some g.workspace_id

abbrev pub queue_error : {A : Type 0} → Outcome DeliveryError A → Outcome QueueError A
queue_error (ok a) = ok a
queue_error (raised (cache_error e)) = raised (cache_failed e)
queue_error (raised e) = raised delivery_failed

-- A queue whose deliveries change a desk.
abbrev pub with_desk : Backend → Cache Entry → Type 0 → Backend
with_desk b c W = record b { World = Desk c.State W }

module _ {N W : Type 0} (b : Backend) (c : Cache Entry) (o : Outside N W)
    (integrations : List Integration) where
  unfoldable pub deliver_pending : Group → Fields → Fields → Op (with_desk b c W) Bool
  unfolding send_notification workspace_of
  deliver_pending g event customer s =
      let (r, d) =
        send_notification c (now (with_desk b c W) s) o integrations (workspace_of g) event customer
          s.world in
      (queue_error r, record s { world = d })

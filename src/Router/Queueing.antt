-- ===== src/Router/Queueing.antt =====
-- A webhook that waits for others of its transaction: from the router into the queue.
use notipus.Base.{
  ℕ, String, ◌≡◌, refl, Bool, true, false, Option, none, some, List, contains, truthy, is_some,
  subst, sym,
}
use text.Mathlib.Text.{starts_with}
use notipus.Base.Json.{Fields}
use notipus.Base.Call.{Outcome, ok, raised, continue, pure, ◌>>◌}
use notipus.Cache.{Cache, Counters}
use notipus.Consolidation.{Entry, dedup_key}
use notipus.Delivery.{Integration, Outside}
use notipus.Limits.Limiter.{Clock}
use notipus.Queue.State.{QueueError, Backend, State, AlwaysUp, append_lock}
use notipus.Queue.Store.{queue_event, group_of}
use notipus.Queue.Store.Queued.{Joined, queued_event_waits}
use notipus.Queue.Process.Finishing.{AllUp}
use notipus.Router.{
  Tenant, Request, Failure, Response, queued, reply, get_dedup_key, aggregation_key,
  immediate_processing_providers, ServerState, workspace_id, on_queue, map_error, queue_failed,
  record_dedup_marker, dispatch, dispatch_by, dispatch_queued, dispatch_unless,
  process_webhook_data,
}
use notipus.Router.Redelivery.{asked-up, record_dedup_marker-up}

module _ {N W : Type 0} (n : Counters) (b : Backend) (c : Cache Entry) (o : Outside N W)
    (integrations : List Integration) (fail_closed : Bool) (multiplier : ℕ) (clock : Clock)
    (tenant : Option Tenant) (request : Request) where
  abbrev server_workspace : String
  server_workspace = workspace_id n b c o integrations fail_closed multiplier clock tenant request

  -- What a request answers and leaves in the queue, given what the queue answered.
  abbrev Accepts :
      Outcome QueueError (Unit {0}) × State b
      → Outcome Failure Response
        × ServerState n b c o integrations fail_closed multiplier clock tenant request
      → Type 0
  Accepts m r = (r.0 ≡ ok (reply 200 queued)) × (r.1.queue ≡ m.1)

  marked_after :
      (event : Fields) (m : Outcome QueueError (Unit {0}) × State b)
      (s : ServerState n b c o integrations fail_closed multiplier clock tenant request)
      → AlwaysUp c
      → truthy (get_dedup_key event) ≡ true
      → m.0 ≡ ok tt
      → Accepts m (
          continue
            (λ message.
              record_dedup_marker n b c o integrations fail_closed multiplier clock tenant request
                (get_dedup_key event)
              >> pure (reply 200 message))
            (continue (λ _. pure queued) (map_error queue_failed m.0, record s { queue = m.1 })))
  marked_after event (raised e, q) s up real h = absurd cc
  marked_after event (ok tt, q) s up real h =
      rw
        (record_dedup_marker-up n b c o integrations fail_closed multiplier tenant clock request
          (get_dedup_key event) (record s { queue = q }) up real)
        (refl, refl)

  -- A webhook that has a key of its own for those that belong to it, from a provider whose webhooks are
  -- queued, is answered with 200 and joins the items of that key, behind them and with the time of its
  -- arrival, and a timer of the group runs. It has an identity and is no duplicate, the caches answer,
  -- and nobody holds the append lock of the group.
  pub queued_webhook_waits :
      (event customer : Fields) (key : String)
      (s : ServerState n b c o integrations fail_closed multiplier clock tenant request)
      → AlwaysUp c
      → AllUp b
      → truthy (get_dedup_key event) ≡ true
      → request.customer_data ≡ ok customer
      → is_some (c.peek s.desk.cache clock.time (dedup_key server_workspace (get_dedup_key event)))
        ≡ false
      → contains request.provider_name immediate_processing_providers ≡ false
      → aggregation_key event ≡ some key
      → starts_with key "customer:" ≡ false
      → append_lock b (group_of server_workspace key) s.queue ≡ none
      → ((process_webhook_data n b c o integrations fail_closed multiplier clock tenant request
            event s).0
          ≡ ok (reply 200 queued))
        × Joined b (group_of server_workspace key) event customer s.queue (
          ok tt,
          (process_webhook_data n b c o integrations fail_closed multiplier clock tenant request
              event s).1.queue,
        )
  unfolding process_webhook_data dispatch_unless dispatch dispatch_by dispatch_queued on_queue
  queued_webhook_waits event customer key s up all_up real given new delayed together own free =
      let joins =
        queued_event_waits b key server_workspace event customer s.queue own all_up free in
      let accepts =
        marked_after event (queue_event b key server_workspace event customer s.queue) s up real
          joins.0 in
      rw
        (
          given,
          asked-up n b c o integrations fail_closed multiplier tenant clock request
              (get_dedup_key event) s up real,
          new,
          delayed,
          together,
        )
        (
          accepts.0,
          subst (λ q. Joined b (group_of server_workspace key) event customer s.queue (ok tt, q))
              (sym accepts.1) (refl, joins.1, joins.2),
        )

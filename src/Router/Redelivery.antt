-- ===== src/Router/Redelivery.antt =====
-- A webhook that was dispatched is a duplicate when it is sent again.
use notipus.Base.{
  ℕ, ◌+◌, String, ◌≡◌, refl, Bool, true, false, Option, some, ltb, is_some, truthy, non_empty,
  subst, eq_refl, List,
}
use notipus.Base.Json.{Fields}
use notipus.Base.Call.{Outcome, ok, raised, ◌>>=◌, ◌>>◌, continue, pure}
use notipus.Cache.{Cache, Counters, get-up}
use notipus.Consolidation.{Entry, seen, dedup_key, is_duplicate, is_duplicate_id}
use notipus.Consolidation.Dedup.{recorded}
use notipus.Delivery.{Integration, Outside}
use notipus.Limits.Limiter.{Clock}
use notipus.Queue.State.{Backend, AlwaysUp}
use notipus.Router.{
  Tenant, Failure, Request, Response, Message, duplicate_suppressed, reply, get_dedup_key,
  ServerState, on_dedup, workspace_id, record_dedup_marker, dispatch, dispatch_unless,
  process_webhook_data,
}
use notipus.Router.Marks.{CurrentState}

module _ {N W : Type 0} (n : Counters) (b : Backend) (c : Cache Entry) (o : Outside N W)
    (integrations : List Integration) (fail_closed : Bool) (multiplier : ℕ) (tenant : Option Tenant)
    (clock : Clock) (request : Request) where
  -- A mark of the event's key has been set, if the request ends with an answer.
  abbrev Marked :
      String
      → Outcome Failure Response
        × (CurrentState n b c o integrations fail_closed multiplier tenant clock request)
      → Type 0
  Marked key (ok r, s') =
      (before : c.State) × (s'.desk.cache
        ≡ c.store before clock.time
            (dedup_key
              (workspace_id n b c o integrations fail_closed multiplier clock tenant request) key)
            seen 1800)
  Marked key (raised e, s') = Unit

  pub record_dedup_marker-up :
      (key : String)
      (s : (CurrentState n b c o integrations fail_closed multiplier tenant clock request))
      → AlwaysUp c
      → truthy key ≡ true
      → record_dedup_marker n b c o integrations fail_closed multiplier clock tenant request key s
        ≡ (
          ok tt,
          record s {
            desk = record s.desk {
              cache =
                  c.store s.desk.cache clock.time
                    (dedup_key
                      (workspace_id n b c o integrations fail_closed multiplier clock tenant
                        request)
                      key)
                    seen
                    1800;
            };
          },
        )
  unfolding record_dedup_marker on_dedup
  record_dedup_marker-up key s up real = rw (
      recorded c (workspace_id n b c o integrations fail_closed multiplier clock tenant request)
        clock.time s.desk.cache s.desk.cache key real (up s.desk.cache clock.time))

  dispatch_unless-Marked :
      (event customer : Fields)
      (s : (CurrentState n b c o integrations fail_closed multiplier tenant clock request))
      → AlwaysUp c
      → truthy (get_dedup_key event) ≡ true
      → Marked (get_dedup_key event) (
          dispatch_unless n b c o integrations fail_closed multiplier clock tenant request event
            customer false s)
  unfolding dispatch_unless
  dispatch_unless-Marked event customer s up real =
      settled
        (dispatch n b c o integrations fail_closed multiplier clock tenant request event customer s)
    where
      settled :
          (m : Outcome Failure Message
            × (CurrentState n b c o integrations fail_closed multiplier tenant clock request))
          → Marked (get_dedup_key event) (
              continue
                (λ message.
                  record_dedup_marker n b c o integrations fail_closed multiplier clock tenant
                    request
                    (get_dedup_key event)
                  >> pure (reply 200 message))
                m)
      settled (raised e, s1) = tt
      settled (ok message, s1) =
          rw (record_dedup_marker-up (get_dedup_key event) s1 up real) (s1.desk.cache, refl)

  pub asked-up :
      (key : String)
      (s : (CurrentState n b c o integrations fail_closed multiplier tenant clock request))
      → AlwaysUp c
      → truthy key ≡ true
      → on_dedup n b c o integrations fail_closed multiplier clock tenant request
          (is_duplicate c clock.time
            (workspace_id n b c o integrations fail_closed multiplier clock tenant request)
            (some key))
          s
        ≡ (
          ok (
              is_some (
                c.peek s.desk.cache clock.time (
                  dedup_key
                    (workspace_id n b c o integrations fail_closed multiplier clock tenant request)
                    key))),
          s,
        )
  unfolding on_dedup is_duplicate is_duplicate_id non_empty
  asked-up key s up real = rw (
    real,
    get-up c clock.time
        (dedup_key (workspace_id n b c o integrations fail_closed multiplier clock tenant request)
          key)
        (up s.desk.cache clock.time),
  )

  process_webhook_data-Marked :
      (event : Fields)
      (s : (CurrentState n b c o integrations fail_closed multiplier tenant clock request))
      → AlwaysUp c
      → truthy (get_dedup_key event) ≡ true
      → is_some (
          c.peek s.desk.cache clock.time (
            dedup_key
              (workspace_id n b c o integrations fail_closed multiplier clock tenant request)
              (get_dedup_key event)))
        ≡ false
      → Marked (get_dedup_key event) (
          process_webhook_data n b c o integrations fail_closed multiplier clock tenant request
            event s)
  unfolding process_webhook_data
  process_webhook_data-Marked event s up real new = with_customer request.customer_data
    where
      with_customer :
          (customer : Outcome Failure Fields)
          → Marked (get_dedup_key event) (
              continue
                (λ customer.
                  on_dedup n b c o integrations fail_closed multiplier clock tenant request (
                    is_duplicate c clock.time
                      (workspace_id n b c o integrations fail_closed multiplier clock tenant
                        request)
                      (some (get_dedup_key event)))
                  >>= λ duplicate.
                      dispatch_unless n b c o integrations fail_closed multiplier clock tenant
                        request event customer duplicate)
                (customer, s))
      with_customer (raised e) = tt
      with_customer (ok customer) =
          rw (asked-up (get_dedup_key event) s up real, new)
            (dispatch_unless-Marked event customer s up real)

  process_webhook_data-duplicate :
      (event customer : Fields)
      (s : (CurrentState n b c o integrations fail_closed multiplier tenant clock request))
      → AlwaysUp c
      → truthy (get_dedup_key event) ≡ true
      → request.customer_data ≡ ok customer
      → is_some (
          c.peek s.desk.cache clock.time (
            dedup_key
              (workspace_id n b c o integrations fail_closed multiplier clock tenant request)
              (get_dedup_key event)))
        ≡ true
      → process_webhook_data n b c o integrations fail_closed multiplier clock tenant request event
          s
        ≡ (ok (reply 200 duplicate_suppressed), s)
  unfolding process_webhook_data dispatch_unless
  process_webhook_data-duplicate event customer s up real given known =
      rw (given, asked-up (get_dedup_key event) s up real, known)

-- A webhook that is sent again within half an hour after it was answered is acknowledged as a
-- duplicate and changes nothing, whether the first one was queued, delivered or consolidated. The
-- cache answers, the event has an identity, and the first one was no duplicate itself.
pub redelivery_suppressed :
    {N W : Type 0} (n : Counters) (b : Backend) (c : Cache Entry) (o : Outside N W)
    (integrations : List Integration) (fail_closed : Bool) (multiplier : ℕ) (tenant : Option Tenant)
    (clock clock' : Clock) (request request' : Request) (event customer : Fields) (r : Response)
    (s s' : ServerState n b c o integrations fail_closed multiplier clock tenant request)
    → AlwaysUp c
    → truthy (get_dedup_key event) ≡ true
    → is_some (
        c.peek s.desk.cache clock.time (
          dedup_key
            (workspace_id n b c o integrations fail_closed multiplier clock tenant request)
            (get_dedup_key event)))
      ≡ false
    → process_webhook_data n b c o integrations fail_closed multiplier clock tenant request event s
      ≡ (ok r, s')
    → request'.customer_data ≡ ok customer
    → ltb clock'.time (clock.time + 1800) ≡ true
    → process_webhook_data n b c o integrations fail_closed multiplier clock' tenant request' event
        s'
      ≡ (ok (reply 200 duplicate_suppressed), s')
redelivery_suppressed n b c o integrations fail_closed multiplier tenant clock clock' request
      request' event customer r s s' up real new first given soon =
    let (before, stored) =
      subst
        (λ m.
          Marked n b c o integrations fail_closed multiplier tenant clock request
            (get_dedup_key event) m)
        first
        (process_webhook_data-Marked n b c o integrations fail_closed multiplier tenant clock
          request event s up real new) in
    process_webhook_data-duplicate n b c o integrations fail_closed multiplier tenant clock'
      request' event customer s' up real given
      (rw (
        stored,
        c.peek-store before clock.time clock'.time 1800
            (dedup_key
              (workspace_id n b c o integrations fail_closed multiplier clock tenant request)
              (get_dedup_key event))
            (dedup_key
              (workspace_id n b c o integrations fail_closed multiplier clock tenant request)
              (get_dedup_key event))
            seen,
        eq_refl (
            dedup_key
              (workspace_id n b c o integrations fail_closed multiplier clock tenant request)
              (get_dedup_key event)),
        soon,
      ))

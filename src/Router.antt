-- ===== src/Router.antt =====
-- One webhook request: app/webhooks/webhook_router.py. Its state is that of the rate limiter, of the
-- queue and of the delivery, the stored payloads and the mark on the integration. What the source
-- plugin makes of the request is passed in.
pub mod Rejection
pub mod Marks
pub mod Unmarked
pub mod Redelivery
pub mod Queueing
use notipus.Base.{
  ℕ, String, Bool, true, false, ◌&&◌, ◌||◌, Option, none, some, List, [], ◌∷◌, contains, concat,
  truthy, is_some, if◌then◌else◌,
}
use mathlib.Core.Option.{get_or}
use notipus.Base.Json.{Json, text, Fields, end, field, get, is_true, as_text}
use notipus.Base.Call.{Outcome, Call, ok, raised, pure, throw, gets, modify, continue, ◌>>=◌, ◌>>◌}
use notipus.Cache.{Cache, CacheError, Counters}
use notipus.Consolidation.{Entry, is_duplicate, record_event}
use notipus.Delivery.{
  Integration, Outside, Desk, DeliveryError, cache_error, Answer, consolidated, processed,
  process_immediately, send_notification, text_of,
}
use notipus.Limits.Limiter.{Organization, Clock, Limiter, RateLimitInfo, RateLimitException}
use notipus.Limits.Limiter.Enforcement.{Allowed, enforce_rate_limit}
use notipus.Billing.Workspaces.{Workspace, check_workspace_access}
use notipus.Queue.{Group}
use notipus.Queue.State.{Backend, QueueError, State, now}
use notipus.Queue.Store.{queue_event}

abbrev pub aggregatable_event_types : List String
aggregatable_event_types =
    "subscription_created" ∷ "trial_started" ∷ "invoice_paid" ∷ "payment_success" ∷ []

abbrev pub immediate_processing_providers : List String
immediate_processing_providers = "customer_shopify" ∷ "customer_chargify" ∷ []

-- The workspace that a webhook is addressed to, as the billing and the rate limiter read it.
pub record Tenant : Type 0 where
  pub row : Workspace
  pub organization : Organization

-- The exceptions that the source plugins raise, and all others.
pub data Failure : Type 0 where
  invalid_signature : Failure
  webhook_error : Failure
  queue_failed : QueueError → Failure
  delivery_error : DeliveryError → Failure
  unexpected : Failure

-- What the provider's plugin answers for the request.
pub record Request : Type 0 where
  pub body : String
  pub provider_name : String
  pub valid : Outcome Failure Bool
  pub parsed : Outcome Failure (Option Fields)
  pub customer_data : Outcome Failure Fields

pub data Message : Type 0 where
  duplicate_suppressed queued no_notification inactive : Message
  answered : Answer → Message
  limited : RateLimitException → Message
  failed : Failure → Message

-- A response: its status, and the information for the rate limit headers. The headers of a refusal by
-- the limiter are those of its exception, which is in the message.
pub record Response : Type 0 where
  pub status : ℕ
  pub message : Message
  pub headers : Option RateLimitInfo

abbrev pub reply : ℕ → Message → Response
reply status message = record { status = status; message = message; headers = none }

-- The identity of an event: the hash of its signed body, or its id, or its type and its object.
unfoldable pub get_dedup_key : Fields → String
unfolding concat is_true
get_dedup_key event =
    if is_true (get "content_hash" event)
    then concat (
        (if is_true (get "provider" event) then text_of "provider" event else "unknown")
        ∷ ":sha256:"
        ∷ text_of "content_hash" event
        ∷ [])
    else if is_true (get "event_id" event)
    then text_of "event_id" event
    else if is_true (get "external_id" event)
    then concat (text_of "type" event ∷ ":" ∷ text_of "external_id" event ∷ [])
    else ""

abbrev pub workspace_uuid : Option Tenant → Option String
workspace_uuid none = none
workspace_uuid (some t) = some t.organization.uuid

-- `_handle_webhook_exceptions`. A refusal by the rate limiter has been answered before.
unfoldable pub handle_webhook_exceptions : Failure → Response
handle_webhook_exceptions invalid_signature = reply 400 (failed invalid_signature)
handle_webhook_exceptions webhook_error = reply 400 (failed webhook_error)
handle_webhook_exceptions e = reply 500 (failed e)

-- The key under which an event waits for those that belong to it, if it is to wait.
unfoldable pub aggregation_key : Fields → Option String
unfolding is_true contains concat
aggregation_key event =
    if is_true (get "idempotency_key" event)
    then some (text_of "idempotency_key" event)
    else if contains (text_of "type" event) aggregatable_event_types
        && is_true (get "customer_id" event)
    then some (concat ("customer:" ∷ text_of "customer_id" event ∷ []))
    else none

-- `stored_payloads` are the raw bodies, newest first; `verified_at` is the mark of the integration.
pub record Server (L Q D : Type 0) : Type 0 where
  pub limiter : L
  pub queue : Q
  pub desk : D
  pub stored_payloads : List String
  pub verified_at : Option ℕ

abbrev pub map_error : {E F A : Type 0} → (E → F) → Outcome E A → Outcome F A
map_error f (ok a) = ok a
map_error f (raised e) = raised (f e)

module _ {N W : Type 0} (n : Counters) (b : Backend) (c : Cache Entry) (o : Outside N W)
    (integrations : List Integration) (fail_closed : Bool) (multiplier : ℕ) (clock : Clock)
    (tenant : Option Tenant) (request : Request) where
  abbrev pub ServerState : Type 0
  ServerState = Server (Limiter n.cache.State) (State b) (Desk c.State W)

  abbrev pub ServerOp : Type 0 → Type 0
  ServerOp A = Call ServerState Failure A

  unfoldable pub on_desk : {A : Type 0} → Call (Desk c.State W) DeliveryError A → ServerOp A
  on_desk op s = let (r, d) = op s.desk in (map_error delivery_error r, record s { desk = d })

  unfoldable pub on_queue : {A : Type 0} → Call (State b) QueueError A → ServerOp A
  on_queue op s = let (r, q) = op s.queue in (map_error queue_failed r, record s { queue = q })

  unfoldable pub on_dedup : {A : Type 0} → Call c.State CacheError A → ServerOp A
  on_dedup op s =
      let (r, d) = op s.desk.cache in
      (
        map_error (λ e. delivery_error (cache_error e)) r,
        record s { desk = record s.desk { cache = d } },
      )

  abbrev pub return : {A : Type 0} → Outcome Failure A → ServerOp A
  return r s = (r, s)

  abbrev pub workspace_id : String
  workspace_id = get_or (workspace_uuid tenant) "global"

  unfoldable pub record_dedup_marker : String → ServerOp (Unit {0})
  unfolding on_dedup
  record_dedup_marker key = on_dedup (record_event c clock.time workspace_id (some key))

  unfoldable pub dispatch_immediately : Fields → Fields → ServerOp Message
  unfolding on_desk
  dispatch_immediately event customer = do
    answer ←
        on_desk
          (process_immediately c clock.time o integrations (workspace_uuid tenant) event customer)
    pure (answered answer)

  unfoldable pub dispatch_queued : String → Fields → Fields → ServerOp Message
  unfolding on_queue
  dispatch_queued key event customer = do
    on_queue (queue_event b key workspace_id event customer)
    pure queued

  unfoldable pub dispatch_by : Option String → Fields → Fields → ServerOp Message
  unfolding dispatch_queued dispatch_immediately
  dispatch_by none event customer = dispatch_immediately event customer
  dispatch_by (some key) event customer = dispatch_queued key event customer

  -- Providers whose webhooks are complete are not queued.
  unfoldable pub dispatch : Fields → Fields → ServerOp Message
  unfolding dispatch_by aggregation_key contains
  dispatch event customer =
      if contains request.provider_name immediate_processing_providers
      then dispatch_immediately event customer
      else dispatch_by (aggregation_key event) event customer

  -- An event that is no duplicate is dispatched, and marked once that has succeeded.
  unfoldable pub dispatch_unless : Fields → Fields → Bool → ServerOp Response
  unfolding dispatch record_dedup_marker get_dedup_key
  dispatch_unless event customer true = pure (reply 200 duplicate_suppressed)
  dispatch_unless event customer false = do
    message ← dispatch event customer
    record_dedup_marker (get_dedup_key event)
    pure (reply 200 message)

  unfoldable pub process_webhook_data : Fields → ServerOp Response
  unfolding dispatch_unless on_dedup
  process_webhook_data event = do
    customer ← return request.customer_data
    duplicate ← on_dedup (is_duplicate c clock.time workspace_id (some (get_dedup_key event)))
    dispatch_unless event customer duplicate

  -- The limiter is asked for a workspace only.
  unfoldable pub handle_rate_limiting :
      ServerState → Outcome RateLimitException (Option RateLimitInfo) × ServerState
  handle_rate_limiting s = elim tenant [
    | none ↦ (ok none, s)
    | some t ↦
        let (r, l) = enforce_rate_limit n clock fail_closed multiplier t.organization s.limiter in
        (
          elim r [ ok allowed ↦ ok (some allowed.info) | raised e ↦ raised e ],
          record s { limiter = l },
        )
  ]

  abbrev pub add_rate_limit_headers : Option RateLimitInfo → Response → Response
  add_rate_limit_headers info r = record r { headers = info }

  -- The payload is stored for debugging, which raises nothing.
  abbrev pub log_webhook_payload : ServerOp (Unit {0})
  log_webhook_payload =
      modify (λ s. record s { stored_payloads = request.body ∷ s.stored_payloads })

  -- Every endpoint names an integration, which is marked once.
  abbrev pub stamp_of : Option ℕ → Option ℕ
  stamp_of none = some clock.time
  stamp_of (some t) = some t

  abbrev pub stamp_verified : ServerOp (Unit {0})
  stamp_verified = modify (λ s. record s { verified_at = stamp_of s.verified_at })

  unfoldable pub process_parsed : Option Fields → ServerOp Response
  unfolding process_webhook_data
  process_parsed none = pure (reply 200 no_notification)
  process_parsed (some end) = pure (reply 200 no_notification)
  process_parsed (some (field k v d)) = process_webhook_data (field k v d)

  unfoldable pub process_allowed : Option RateLimitInfo → ServerOp Response
  unfolding process_parsed
  process_allowed info = do
    log_webhook_payload
    event ← return request.parsed
    stamp_verified
    response ← process_parsed event
    pure (add_rate_limit_headers info response)

  unfoldable pub settle_limit :
      Outcome RateLimitException (Option RateLimitInfo) × ServerState
      → Outcome Failure Response × ServerState
  unfolding process_allowed
  settle_limit (ok info, s) = process_allowed info s
  settle_limit (raised e, s) = (ok (reply 429 (limited e)), s)

  unfoldable pub process_entitled : Option ℕ → ServerOp Response
  unfolding settle_limit handle_rate_limiting
  process_entitled (some status) s = (ok (reply status inactive), s)
  process_entitled none s = settle_limit (handle_rate_limiting s)

  unfoldable pub process_valid : Bool → ServerOp Response
  unfolding process_entitled check_workspace_access
  process_valid false = throw invalid_signature
  process_valid true =
      process_entitled
        (check_workspace_access clock.time (elim tenant [ none ↦ none | some t ↦ some t.row ]))

  unfoldable pub settle_failure : Outcome Failure Response × ServerState → Response × ServerState
  unfolding handle_webhook_exceptions
  settle_failure (ok r, s) = (r, s)
  settle_failure (raised e, s) = (handle_webhook_exceptions e, s)

  unfoldable pub process_webhook : ServerState → Response × ServerState
  unfolding process_valid settle_failure
  process_webhook s = settle_failure ((return request.valid >>= process_valid) s)

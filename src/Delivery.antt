-- ===== src/Delivery.antt =====
-- How an event is delivered: `collect_destinations` of
-- app/webhooks/services/destination_credentials.py, the delivery of the queue
-- (`PendingEventQueue._send_notification`) and that of the router (`_process_immediately` of
-- app/webhooks/webhook_router.py). The notification builder and the plugins are passed in.
pub mod Sending
pub mod Marks
pub mod Pending
use notipus.Base.{
  ℕ, String, Bool, true, false, not, ◌&&◌, Option, none, some, List, [], ◌∷◌, ◌++◌, str_eq,
  if◌then◌else◌,
}
use mathlib.Core.Option.{get_or}
use notipus.Base.Dict.{Dict}
use notipus.Base.Int.{ℤ}
use notipus.Base.Json.{
  Json, number, text, Fields, end, field, get, put, is_true, as_object, as_text,
}
use notipus.Base.Call.{Outcome, Call, ok, raised, pure, throw, ◌>>=◌, ◌>>◌}
use notipus.Cache.{Cache, CacheError}
use notipus.Consolidation.{Entry, extract_correlation_id, should_send_notification, record_event}
use notipus.Queue.Aggregation.{metadata_of}

-- A row of `Integration`: a workspace has at most one of a type.
pub record Integration : Type 0 where
  pub workspace_id : String
  pub integration_type : String
  pub is_active : Bool
  pub oauth_credentials : Fields

-- `Integration.objects.get(workspace=…, integration_type=…, is_active=True)`
unfoldable pub active_integration : String → String → List Integration → Option Fields
active_integration workspace_id type [] = none
active_integration workspace_id type (i ∷ is) =
    if (str_eq i.workspace_id workspace_id && str_eq i.integration_type type) && i.is_active
    then some i.oauth_credentials
    else active_integration workspace_id type is

unfoldable pub telegram_of : Option Fields → Option Fields
telegram_of none = none
telegram_of (some credentials) =
    if is_true (get "bot_token" credentials) && is_true (get "chat_id" credentials)
    then some (
        field "bot_token" (get "bot_token" credentials)
          (field "chat_id" (get "chat_id" credentials) end))
    else none

unfoldable pub webhook_url_of : Option Json → Option Fields
webhook_url_of none = none
webhook_url_of (some url) = if is_true url then some (field "webhook_url" url end) else none

unfoldable pub teams_of : Option Fields → Option Fields
unfolding webhook_url_of
teams_of none = none
teams_of (some credentials) = webhook_url_of (some (get "webhook_url" credentials))

-- The incoming webhook is a dictionary, if there is one.
unfoldable pub slack_of : Option Fields → Option Fields
unfolding webhook_url_of
slack_of none = none
slack_of (some credentials) =
    webhook_url_of (some (get "url" (get_or (as_object (get "incoming_webhook" credentials)) end)))

unfoldable pub get_slack_credentials : Option String → List Integration → Option Fields
unfolding slack_of active_integration
get_slack_credentials none integrations = none
get_slack_credentials (some workspace_id) integrations =
    slack_of (active_integration workspace_id "slack_notifications" integrations)

unfoldable pub get_telegram_credentials : Option String → List Integration → Option Fields
unfolding telegram_of active_integration
get_telegram_credentials none integrations = none
get_telegram_credentials (some workspace_id) integrations =
    telegram_of (active_integration workspace_id "telegram_notifications" integrations)

unfoldable pub get_teams_credentials : Option String → List Integration → Option Fields
unfolding teams_of active_integration
get_teams_credentials none integrations = none
get_teams_credentials (some workspace_id) integrations =
    teams_of (active_integration workspace_id "teams_notifications" integrations)

abbrev pub one_destination : String → Option Fields → List (String × Fields)
one_destination name none = []
one_destination name (some credentials) = (name, credentials) ∷ []

unfoldable pub collect_destinations : Option String → List Integration → List (String × Fields)
unfolding get_slack_credentials get_telegram_credentials get_teams_credentials
collect_destinations workspace integrations =
    one_destination "slack" (get_slack_credentials workspace integrations)
    ++ one_destination "telegram" (get_telegram_credentials workspace integrations)
    ++ one_destination "teams" (get_teams_credentials workspace integrations)

-- What is outside: `build_rich_notification`, which may raise, and the registry of the destination
-- plugins, whose `format` and `send` may raise.
pub record Outside (N W : Type 0) : Type 0 where
  pub build : Fields → Fields → W → Option N × W
  pub plugin : String → Option (N → Fields → W → Bool × W)

-- `delivered` is whether the plugin returned.
abbrev pub flag : Bool → Bool → Bool
flag delivered all_delivered = delivered && all_delivered

module _ {N W : Type 0} (o : Outside N W) where
  -- One destination: a plugin that is not found fails.
  abbrev pub deliver_by : Option (N → Fields → W → Bool × W) → N → Fields → W → Bool × W
  deliver_by none notification credentials w = (false, w)
  deliver_by (some send) notification credentials w = send notification credentials w

  -- The loop of `_send_notification`: whether all destinations were delivered to so far.
  unfoldable pub deliver_all : List (String × Fields) → N → Bool → W → Bool × W
  deliver_all [] notification all_delivered w = (all_delivered, w)
  deliver_all ((name, credentials) ∷ destinations) notification all_delivered w =
      let (delivered, w') = deliver_by (o.plugin name) notification credentials w in
      deliver_all destinations notification (flag delivered all_delivered) w'

  -- The loop of `_process_immediately`: the destinations that failed so far.
  unfoldable pub deliver_each : List (String × Fields) → N → List String → W → List String × W
  deliver_each [] notification delivery_errors w = (delivery_errors, w)
  deliver_each ((name, credentials) ∷ destinations) notification delivery_errors w =
      let (delivered, w') = deliver_by (o.plugin name) notification credentials w in
      deliver_each destinations notification
        (if delivered then delivery_errors else delivery_errors ++ (name ∷ [])) w'

-- The texts of a dictionary.
unfoldable pub texts_of : Fields → Dict String
texts_of end = []
texts_of (field k (text s) d) = (k, s) ∷ texts_of d
texts_of (field k _ d) = texts_of d

-- A field that holds a text, or an empty one.
abbrev pub text_of : String → Fields → String
text_of k d = get_or (as_text (get k d)) ""

abbrev pub amount_of : Json → Option ℤ
amount_of (number z) = some z
amount_of _ = none

-- What a delivery changes: the cache of the consolidation service and the outside.
pub record Desk (S W : Type 0) : Type 0 where
  pub cache : S
  pub world : W

-- The exceptions of a delivery.
pub data DeliveryError : Type 0 where
  cache_error : CacheError → DeliveryError
  build_error : DeliveryError
  not_delivered : List String → DeliveryError

-- The answers of `_process_immediately`.
pub data Answer : Type 0 where
  consolidated processed : Answer

abbrev pub with_error : {A : Type 0} → Outcome CacheError A → Outcome DeliveryError A
with_error (ok a) = ok a
with_error (raised e) = raised (cache_error e)

module _ {N W : Type 0} (c : Cache Entry) (now : ℕ) (o : Outside N W)
    (integrations : List Integration) (workspace : Option String) where
  abbrev pub DeskOp : Type 0 → Type 0
  DeskOp A = Call (Desk c.State W) DeliveryError A

  unfoldable pub on_cache : {A : Type 0} → Call c.State CacheError A → DeskOp A
  on_cache op d = let (r, s) = op d.cache in (with_error r, record d { cache = s })

  abbrev pub own_workspace_id : String
  own_workspace_id = get_or workspace ""

  -- `should_send_notification` with the arguments of the event.
  unfoldable pub should_notify : Fields → DeskOp Bool
  unfolding on_cache texts_of metadata_of
  should_notify event = on_cache (
      should_send_notification c now (text_of "type" event) (text_of "customer_id" event)
        own_workspace_id (amount_of (get "amount" event))
        (extract_correlation_id (texts_of (metadata_of event)) (as_text (get "external_id" event))))

  unfoldable pub record_sent : Fields → DeskOp (Unit {0})
  unfolding on_cache
  record_sent event =
      on_cache (record_event c now own_workspace_id (as_text (get "external_id" event)))

  abbrev pub built : Fields → Fields → DeskOp (Option N)
  built event customer d =
      let (n, w) = o.build event customer d.world in (ok n, record d { world = w })

  abbrev pub all_sent : List (String × Fields) → N → DeskOp Bool
  all_sent destinations n d =
      let (r, w) = deliver_all o destinations n true d.world in (ok r, record d { world = w })

  unfoldable pub settle_sent : Fields → Bool → DeskOp Bool
  unfolding record_sent
  settle_sent event false = pure false
  settle_sent event true = record_sent event >> pure true

  -- A workspace without destinations has nothing to send.
  unfoldable pub send_to : Fields → List (String × Fields) → N → DeskOp Bool
  unfolding settle_sent deliver_all
  send_to event [] n = pure true
  send_to event (d ∷ ds) n = all_sent (d ∷ ds) n >>= settle_sent event

  unfoldable pub send_built : Fields → Option N → DeskOp Bool
  unfolding send_to collect_destinations
  send_built event none = pure false
  send_built event (some n) = send_to event (collect_destinations workspace integrations) n

  unfoldable pub send_unless : Fields → Fields → Bool → DeskOp Bool
  unfolding send_built record_sent
  send_unless event customer false = record_sent event >> pure true
  send_unless event customer true = built event customer >>= send_built event

  -- `_send_notification`
  unfoldable pub send_notification : Fields → Fields → DeskOp Bool
  unfolding send_unless should_notify
  send_notification event_data customer = do
    let event = put "workspace_id" (text own_workspace_id) event_data
    should ← should_notify event
    send_unless event customer should

  unfoldable pub settle_each :
      List String × W → Desk c.State W → Outcome DeliveryError Answer × Desk c.State W
  settle_each ([], w) d = (ok processed, record d { world = w })
  settle_each (name ∷ names, w) d = (raised (not_delivered (name ∷ names)), record d { world = w })

  unfoldable pub answer_to : List (String × Fields) → N → DeskOp Answer
  unfolding settle_each deliver_each
  answer_to [] n d = (ok processed, d)
  answer_to (e ∷ es) n d = settle_each (deliver_each o (e ∷ es) n [] d.world) d

  unfoldable pub answer_built : Option N → DeskOp Answer
  unfolding answer_to collect_destinations
  answer_built none = throw build_error
  answer_built (some n) = answer_to (collect_destinations workspace integrations) n

  unfoldable pub answer_unless : Fields → Fields → Bool → DeskOp Answer
  unfolding answer_built
  answer_unless event customer false = pure consolidated
  answer_unless event customer true = built event customer >>= answer_built

  -- `_process_immediately`
  unfoldable pub process_immediately : Fields → Fields → DeskOp Answer
  unfolding answer_unless should_notify
  process_immediately event_data customer = do
    let event = put "workspace_id" (text own_workspace_id) event_data
    should ← should_notify event
    answer_unless event customer should

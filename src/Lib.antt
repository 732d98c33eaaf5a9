-- ===== src/Lib.antt =====
-- A model of the core of Notipus, a Django service that receives the webhooks of payment providers,
-- meters them by workspace, and turns them into notifications.
--
-- A webhook goes through `webhook_router.py`: the workspace must have access, the rate limiter counts
-- the request, the event is told apart from those already seen, and a notification is sent unless
-- another event of the same transaction has already brought the news. Stripe's own webhooks on the
-- subscriptions of workspaces change the rows on which access is decided, and the members of a
-- workspace manage each other.
--
-- Which file models which part:
--   Cache             Django's cache, which is third-party code: a record of a state, its operations
--                     and what the documentation promises of them; Cache.Memory keeps the promises.
--                     The services take any such cache. An operation raises while the backend is down.
--   Limits.Breaker    RedisCircuitBreaker of app/webhooks/services/rate_limiter.py. A guarded call takes
--                     any function, as a call that returns or raises in a state of its own.
--   Limits.Fallback   the in-memory fallback of RateLimiter there: `_get_from_fallback`,
--                     `_set_to_fallback` and `_prune_fallback`.
--   Limits.Limiter    RateLimiter there. `check_rate_limit`, `_safe_cache_incr` and `increment_usage`
--                     stand in it, `enforce_rate_limit` in Limits.Limiter.Enforcement, cut in three: the
--                     check before the count, the count, and the check after it.
--   Limits.Alerts     app/core/services/usage_alerts.py: `warning_count`, `grace_multiplier_for`,
--                     `hard_limit` and `_dispatch_crossing_alert`.
--   Consolidation     EventConsolidationService of app/webhooks/services/event_consolidation.py.
--   Billing           BillingService of app/webhooks/services/billing.py. Workspaces has the rows and the
--                     queries on them (Workspace of app/core/models.py), Plans the statuses and the
--                     plan names, Sync the sync from Stripe, the lock and the markers of sent events,
--                     Handlers the handlers of subscriptions and checkouts, Invoices those of invoices.
--   Queue             PendingEventQueue of app/webhooks/services/pending_event_queue.py. Queue has its
--                     keys and constants, State the entries in the cache, Store how an event is queued,
--                     Aggregation `_aggregate_events` and its helpers, Process `_process_events` and what
--                     it calls, Recovery the sweep, and Runs what each call leaves while the caches
--                     answer. What other workers do during a delivery is what the delivery does to the
--                     state.
--   Delivery          `_send_notification` there, `_process_immediately` of app/webhooks/webhook_router.py
--                     and app/webhooks/services/destination_credentials.py; Delivery.Pending is the
--                     delivery that the queue is run with.
--   Router            app/webhooks/webhook_router.py: one request, on the state of the rate limiter, the
--                     queue and the delivery.
--   Subscriptions     app/webhooks/utils/subscriptions.py: amounts, currencies and intervals of
--                     subscriptions.
--   Members           the rules of app/core/permissions.py (Permissions) and the views of
--                     app/core/views/members.py (Views, Acceptance) on the rows of members and
--                     invitations; a view is a function from a Team to a reply and a Team, and History
--                     is any sequence of requests.
--   Examples          runs on concrete data.
--
-- State is passed explicitly. A call of the cache is a function from a state to an outcome and a state
-- (Base.Call); a handler of billing is a function on a World, which has the table of workspaces, the
-- analytics events sent so far and the cache of their markers. Python's `None` is `none`, an exception
-- is the outcome `raised`. A dictionary is an association list (Base.Dict), and the data of an event is
-- a dictionary of JSON values (Base.Json), which are equal as in Python whatever the order of their
-- keys (Base.JsonEquality). The kinds of entries that the queue keeps in the cache have caches of their
-- own, since their keys begin with different words; so do the marks of the consolidation, whose two
-- kinds of keys share one cache.
--
-- Times are whole seconds, and a service reads the clock once a call: code that reads it twice within a
-- call is modelled with equal readings. The queue counts hundredths of a second, since it waits for its
-- lock in steps of that kind; calls of the cache take no time. Numbers have no upper bound, as in Python;
-- the grace multiplier, a decimal with two places, is kept in hundredths, and a number in JSON is whole.
-- Fuel stands only where the code counts attempts (20 and 120 for the append lock, 3 for storing an
-- event) and in the digits of a number, which has fewer digits than the fuel, its successor. Every
-- other loop is over a list.
--
-- Parameters: what `int` makes of a text, the cache, the notification builder and the destination
-- plugins, what the source plugin makes of a request, the rows of integrations and workspaces that
-- a sweep or a delivery looks up, the answer of the Stripe API for each customer, how the attempt
-- to take the Redis lock ends, the table of plans, the multiplier of the organization's plan, and
-- the settings. Names of plans and e-mails are taken as ASCII where the code lowers and strips
-- them. A metadata field of an event that is not a text is left out, as is the provider's spelling
-- of `attempt_count`, which is given as its text.
--
-- Not modelled: the handlers of unforeseen exceptions in `check_rate_limit` and `increment_usage`,
-- logging, the texts and the sending of mails, the purchase event of a checkout, the notices of
-- `handle_trial_ending` and `handle_payment_action_required`, the headers and the statistics of the rate
-- limiter, the threads of the queue (a timer is a name in a list, and an update of a pending list under its
-- lock is not interrupted) and its scan of Redis, whose keys are
-- passed to the sweep, the views that look up the workspace of a path, and the parts of the program
-- beyond these services: the plugins of sources and destinations, the other views, enrichment, and the
-- vendors' clients.
pub mod Base
pub mod Cache
pub mod Consolidation
pub mod Limits
pub mod Billing
pub mod Members
pub mod Queue
pub mod Delivery
pub mod Router
pub mod Subscriptions
pub mod Examples

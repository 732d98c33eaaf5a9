-- ===== src/Consolidation.antt =====
-- `EventConsolidationService` of app/webhooks/services/event_consolidation.py. Its state is the
-- cache; a time is passed to each call. Event types and identifiers are texts, `None` is `none`.
pub mod Suppression
pub mod Window
pub mod Isolation
pub mod Dedup
pub mod Markers
use notipus.Base.{
  ℕ, ◌*◌, String, Bool, true, false, ◌||◌, ◌&&◌, Option, none, some, List, [], ◌∷◌, str_eq, truthy,
  non_empty, is_some, contains, union, concat, not, if◌then◌else◌,
}
use notipus.Base.Dict.{Dict, lookup}
use notipus.Base.Int.{ℤ, is_positive}
use notipus.Base.Call.{Call, pure, ◌>>=◌, ◌>>◌}
use notipus.Cache.{Cache, CacheError, get, set}

abbrev pub consolidation_window_seconds : ℕ
consolidation_window_seconds = 300

abbrev pub dedup_window_multiplier : ℕ
dedup_window_multiplier = 6

abbrev pub primary_events : Dict (List String)
primary_events =
    ("subscription_created", "payment_success" ∷ "invoice_paid" ∷ [])
    ∷ ("subscription_deleted", "invoice_paid" ∷ [])
    ∷ ("checkout_completed", "payment_success" ∷ "invoice_paid" ∷ [])
    ∷ ("order_created", "payment_success" ∷ [])
    ∷ []

abbrev pub never_suppress : List String
never_suppress = "payment_failure" ∷ "payment_action_required" ∷ "trial_ending" ∷ []

abbrev pub correlation_metadata_fields : List String
correlation_metadata_fields = "subscription_id" ∷ "invoice_id" ∷ "charge_id" ∷ "order_id" ∷ []

abbrev pub zero_amount_filter_events : List String
zero_amount_filter_events = "payment_success" ∷ "invoice_paid" ∷ []

-- What the service keeps in the cache: a set of event types, or `True`.
pub data Entry : Type 0 where
  suppressed : List String → Entry
  seen : Entry

-- `cache.get(key) or set()`. A deduplication marker never stands under a suppression key.
unfoldable pub events_of : Option Entry → List String
events_of (some (suppressed events)) = events
events_of _ = []

unfoldable pub suppression_key : String → String → String → String
unfolding concat
suppression_key workspace_id customer_id correlation_id =
    concat ("event_suppress:" ∷ workspace_id ∷ ":" ∷ customer_id ∷ ":" ∷ correlation_id ∷ [])

unfoldable pub dedup_key : String → String → String
unfolding concat
dedup_key workspace_id external_id = concat ("event_dedup:" ∷ workspace_id ∷ ":" ∷ external_id ∷ [])

-- The first metadata field that is set. The identifiers in the metadata are texts.
unfoldable pub first_field : List String → Dict String → Option String
unfolding non_empty
first_field [] metadata = none
first_field (field ∷ fields) metadata = elim (non_empty (lookup field metadata)) [
  | some value ↦ some value
  | none ↦ first_field fields metadata
]

-- A missing metadata dictionary is an empty one.
unfoldable pub extract_correlation_id : Dict String → Option String → Option String
unfolding first_field
extract_correlation_id metadata external_id =
    elim (first_field correlation_metadata_fields metadata) [
      | some value ↦ some value
      | none ↦ non_empty external_id
    ]

-- `amount is None or amount <= 0`
unfoldable pub no_amount : Option ℤ → Bool
no_amount none = true
no_amount (some z) = not (is_positive z)

-- Whether the event is filtered as a payment of nothing.
unfoldable pub is_filtered : String → Option ℤ → Bool
is_filtered event_type amount = contains event_type zero_amount_filter_events && no_amount amount

-- Whether the event is delivered with no look at the cache.
unfoldable pub is_exempt : String → String → String → Option String → Bool
is_exempt event_type customer_id workspace_id correlation_id =
    not (truthy customer_id)
    || not (truthy workspace_id)
    || contains event_type never_suppress
    || not (is_some (non_empty correlation_id))

module _ (c : Cache Entry) (now : ℕ) where
  unfoldable pub mark_events_for_suppression :
      String → String → List String → String → Call c.State CacheError (Unit {0})
  mark_events_for_suppression workspace_id customer_id events_to_suppress correlation_id = do
    let key = suppression_key workspace_id customer_id correlation_id
    existing ← get c now key
    set c now key (suppressed (union (events_of existing) events_to_suppress))
        consolidation_window_seconds

  -- A primary event marks the events that follow it.
  unfoldable pub mark_found :
      Option (List String) → String → String → String → Call c.State CacheError Bool
  mark_found (some events) customer_id workspace_id correlation_id = do
    mark_events_for_suppression workspace_id customer_id events correlation_id
    pure true
  mark_found none customer_id workspace_id correlation_id = pure true

  -- The part of `should_send_notification` that looks at the cache.
  unfoldable pub consolidate : String → String → String → String → Call c.State CacheError Bool
  consolidate event_type customer_id workspace_id correlation_id = do
    found ← get c now (suppression_key workspace_id customer_id correlation_id)
    if contains event_type (events_of found)
        then pure false
        else mark_found (lookup event_type primary_events) customer_id workspace_id correlation_id

  unfoldable pub should_send_notification :
      String → String → String → Option ℤ → Option String → Call c.State CacheError Bool
  should_send_notification event_type customer_id workspace_id amount correlation_id =
      if is_filtered event_type amount
      then pure false
      else if is_exempt event_type customer_id workspace_id correlation_id
      then pure true
      else elim correlation_id [
        | some transaction ↦ consolidate event_type customer_id workspace_id transaction
        | none ↦ pure true
      ]

  unfoldable pub record_id : String → Option String → Call c.State CacheError (Unit {0})
  record_id workspace_id (some id) =
      set c now (dedup_key workspace_id id) seen
        (consolidation_window_seconds * dedup_window_multiplier)
  record_id workspace_id none = pure tt

  -- An event with no identifier is not recorded.
  unfoldable pub record_event : String → Option String → Call c.State CacheError (Unit {0})
  unfolding record_id
  record_event workspace_id external_id = record_id workspace_id (non_empty external_id)

  unfoldable pub is_duplicate_id : String → Option String → Call c.State CacheError Bool
  is_duplicate_id workspace_id (some id) = do
    found ← get c now (dedup_key workspace_id id)
    pure (is_some found)
  is_duplicate_id workspace_id none = pure false

  unfoldable pub is_duplicate : String → Option String → Call c.State CacheError Bool
  unfolding is_duplicate_id
  is_duplicate workspace_id external_id = is_duplicate_id workspace_id (non_empty external_id)

-- ===== src/Router/Marks.antt =====
-- What the marks of dispatched events are, while a webhook is dispatched.
use notipus.Base.{
  ℕ, String, ◌≡◌, refl, Bool, Option, none, some, contains, non_empty, Bool-cases, Option-cases,
  inl, inr, ap, ◌∙◌, List,
}
use notipus.Base.Json.{Fields, put, text, get as get_field, as_text}
use notipus.Base.Call.{Call, continue-state, pure}
use notipus.Cache.{Cache, Counters, get}
use notipus.Consolidation.{Entry, dedup_key, is_duplicate, is_duplicate_id, extract_correlation_id}
use notipus.Consolidation.Markers.{should_send-dedup}
use notipus.Delivery.{
  Integration, Outside, should_notify, own_workspace_id, on_cache, text_of, texts_of, amount_of,
  Desk, DeliveryError, Answer, process_immediately,
}
use notipus.Delivery.Marks.{process_immediately-cache}
use notipus.Limits.Limiter.{Clock}
use notipus.Queue.State.{Backend, State, QueueError}
use notipus.Queue.Aggregation.{metadata_of}
use notipus.Queue.Store.{queue_event}
use notipus.Router.{
  Tenant, Request, answered, queued, aggregation_key, immediate_processing_providers,
  workspace_uuid, ServerState, on_desk, on_queue, workspace_id, dispatch_immediately,
  dispatch_queued, dispatch_by, dispatch,
}

pub is_duplicate-state :
    (c : Cache Entry) (now : ℕ) (workspace : String) (id : Option String) (s : c.State)
    → (is_duplicate c now workspace id s).1 ≡ s
unfolding is_duplicate is_duplicate_id get
is_duplicate-state c now workspace id s = elim (Option-cases (non_empty id)) [
  | inl absent ↦ rw absent
  | inr (k, given) ↦
      rw given (elim (Bool-cases (c.up s now)) [ inl up ↦ rw up | inr down ↦ rw down ])
]

module _ {N W : Type 0} (n : Counters) (b : Backend) (c : Cache Entry) (o : Outside N W)
    (integrations : List Integration) (fail_closed : Bool) (multiplier : ℕ) (tenant : Option Tenant)
    (clock : Clock) (request : Request) where
  -- The marks of dispatched events are those of the state before.
  abbrev pub SameMarks :
      ServerState n b c o integrations fail_closed multiplier clock tenant request
      → ServerState n b c o integrations fail_closed multiplier clock tenant request
      → Type 0
  SameMarks s s' =
      (t : ℕ) (workspace id : String)
      → c.peek s'.desk.cache t (dedup_key workspace id)
        ≡ c.peek s.desk.cache t (dedup_key workspace id)

  should_notify-marks :
      (event : Fields)
      (s : ServerState n b c o integrations fail_closed multiplier clock tenant request) (t : ℕ)
      (workspace id : String)
      → c.peek
          (should_notify c clock.time o integrations (workspace_uuid tenant) event s.desk).1.cache
          t
          (dedup_key workspace id)
        ≡ c.peek s.desk.cache t (dedup_key workspace id)
  unfolding should_notify on_cache
  should_notify-marks event s t workspace id =
      should_send-dedup c clock.time t (text_of "type" event) (text_of "customer_id" event)
        (own_workspace_id c clock.time o integrations (workspace_uuid tenant)) workspace id
        (amount_of (get_field "amount" event))
        (extract_correlation_id (texts_of (metadata_of event))
          (as_text (get_field "external_id" event)))
        s.desk.cache

  dispatch_immediately-marks :
      (event customer : Fields)
      (s : ServerState n b c o integrations fail_closed multiplier clock tenant request)
      → SameMarks s
          (dispatch_immediately n b c o integrations fail_closed multiplier clock tenant request
            event customer s).1
  unfolding dispatch_immediately on_desk
  dispatch_immediately-marks event customer s t workspace id =
      ap (λ r. c.peek r.desk.cache t (dedup_key workspace id))
        (continue-state (λ a. pure (answered a))
          (on_desk n b c o integrations fail_closed multiplier clock tenant request delivery s)
          (λ a r. refl))
      ∙ ap (λ r. c.peek r t (dedup_key workspace id))
          (process_immediately-cache c clock.time o integrations (workspace_uuid tenant) event
            customer s.desk)
      ∙ should_notify-marks
          (put "workspace_id"
            (text (own_workspace_id c clock.time o integrations (workspace_uuid tenant))) event)
          s t workspace id
    where
      delivery : Call (Desk c.State W) DeliveryError Answer
      delivery =
          process_immediately c clock.time o integrations (workspace_uuid tenant) event customer

  dispatch_queued-marks :
      (key : String) (event customer : Fields)
      (s : ServerState n b c o integrations fail_closed multiplier clock tenant request)
      → SameMarks s
          (dispatch_queued n b c o integrations fail_closed multiplier clock tenant request key
            event customer s).1
  unfolding dispatch_queued on_queue
  dispatch_queued-marks key event customer s t workspace id =
      ap (λ r. c.peek r.desk.cache t (dedup_key workspace id))
        (continue-state (λ _. pure queued)
          (on_queue n b c o integrations fail_closed multiplier clock tenant request queueing s)
          (λ a r. refl))
    where
      queueing : Call (State b) QueueError (Unit {0})
      queueing =
          queue_event b key
            (workspace_id n b c o integrations fail_closed multiplier clock tenant request) event
            customer

  dispatch_by-marks :
      (key : Option String) (event customer : Fields)
      (s : ServerState n b c o integrations fail_closed multiplier clock tenant request)
      → SameMarks s
          (dispatch_by n b c o integrations fail_closed multiplier clock tenant request key event
            customer s).1
  unfolding dispatch_by
  dispatch_by-marks none event customer s = dispatch_immediately-marks event customer s
  dispatch_by-marks (some key) event customer s = dispatch_queued-marks key event customer s

  pub dispatch-marks :
      (event customer : Fields)
      (s : ServerState n b c o integrations fail_closed multiplier clock tenant request)
      → SameMarks s
          (dispatch n b c o integrations fail_closed multiplier clock tenant request event customer
            s).1
  unfolding dispatch
  dispatch-marks event customer s =
      elim (Bool-cases (contains request.provider_name immediate_processing_providers)) [
        | inl complete ↦ rw complete (dispatch_immediately-marks event customer s)
        | inr other ↦ rw other (dispatch_by-marks (aggregation_key event) event customer s)
      ]

  abbrev pub CurrentState : Type 0
  CurrentState = ServerState n b c o integrations fail_closed multiplier clock tenant request

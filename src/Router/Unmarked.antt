-- ===== src/Router/Unmarked.antt =====
-- A webhook that could not be processed is no duplicate when it is sent again.
use notipus.Base.{
  ℕ, String, ◌≡◌, refl, Bool, true, false, Option, some, non_empty, Bool-cases, Option-cases, inl,
  inr, ap, subst, ◌∙◌, List,
}
use notipus.Base.Json.{Fields}
use notipus.Base.Call.{Outcome, ok, raised, Call, ◌>>=◌, ◌>>◌, continue, pure}
use notipus.Cache.{Cache, CacheError, Counters, set}
use notipus.Consolidation.{Entry, dedup_key, is_duplicate, record_event, record_id}
use notipus.Delivery.{Integration, Outside, cache_error}
use notipus.Limits.Limiter.{Clock}
use notipus.Queue.State.{Backend}
use notipus.Router.{
  Tenant, Failure, delivery_error, map_error, Request, Response, reply, get_dedup_key, on_dedup,
  workspace_id, record_dedup_marker, dispatch, dispatch_unless, process_webhook_data,
}
use notipus.Router.Marks.{CurrentState, SameMarks, dispatch-marks, is_duplicate-state}

module _ {N W : Type 0} (n : Counters) (b : Backend) (c : Cache Entry) (o : Outside N W)
    (integrations : List Integration) (fail_closed : Bool) (multiplier : ℕ) (tenant : Option Tenant)
    (clock : Clock) (request : Request) where
  -- If an exception ends the request, the marks are the same.
  abbrev KeepsMarks :
      {A : Type 0}
      → (CurrentState n b c o integrations fail_closed multiplier tenant clock request)
      → Outcome Failure A
        × (CurrentState n b c o integrations fail_closed multiplier tenant clock request)
      → Type 0
  KeepsMarks s (ok a, s') = Unit
  KeepsMarks s (raised e, s') =
      SameMarks n b c o integrations fail_closed multiplier tenant clock request s s'

  abbrev IfRaisedSame : {A : Type 0} → c.State → Outcome CacheError A × c.State → Type 0
  IfRaisedSame s (ok a, s') = Unit
  IfRaisedSame s (raised e, s') = s' ≡ s

  -- A mark that could not be recorded has changed nothing.
  record_event-IfRaisedSame :
      (workspace : String) (id : Option String) (s : c.State)
      → IfRaisedSame s (record_event c clock.time workspace id s)
  unfolding record_event record_id set
  record_event-IfRaisedSame workspace id s = elim (Option-cases (non_empty id)) [
    | inl absent ↦ rw absent tt
    | inr (k, given) ↦
        rw given
          (elim (Bool-cases (c.up s clock.time)) [ inl up ↦ rw up tt | inr down ↦ rw down refl ])
  ]

  on_dedup-KeepsMarks :
      {A : Type 0} (op : Call c.State CacheError A)
      (s : (CurrentState n b c o integrations fail_closed multiplier tenant clock request))
      → IfRaisedSame s.desk.cache (op s.desk.cache)
      → KeepsMarks s
          (on_dedup n b c o integrations fail_closed multiplier clock tenant request op s)
  unfolding on_dedup
  on_dedup-KeepsMarks {A = A} op s h = settled (op s.desk.cache) h
    where
      settled :
          (m : Outcome CacheError A × c.State)
          → IfRaisedSame s.desk.cache m
          → KeepsMarks s (
            map_error (λ e. delivery_error (cache_error e)) m.0,
            record s { desk = record s.desk { cache = m.1 } },
          )
      settled (ok a, s') h = tt
      settled (raised e, s') h = λ t workspace id. ap (λ r. c.peek r t (dedup_key workspace id)) h

  SameMarks-KeepsMarks :
      {A : Type 0}
      (s s1 : (CurrentState n b c o integrations fail_closed multiplier tenant clock request))
      (m : Outcome Failure A
        × (CurrentState n b c o integrations fail_closed multiplier tenant clock request))
      → SameMarks n b c o integrations fail_closed multiplier tenant clock request s s1
      → KeepsMarks s1 m
      → KeepsMarks s m
  SameMarks-KeepsMarks s s1 (ok a, s2) same kept = tt
  SameMarks-KeepsMarks s s1 (raised e, s2) same kept =
      λ t workspace id. kept t workspace id ∙ same t workspace id

  continue-KeepsMarks :
      {A B : Type 0}
      (f : A
        → Call
            (CurrentState n b c o integrations fail_closed multiplier tenant clock request)
            Failure
            B)
      (s : (CurrentState n b c o integrations fail_closed multiplier tenant clock request))
      (m : Outcome Failure A
        × (CurrentState n b c o integrations fail_closed multiplier tenant clock request))
      → SameMarks n b c o integrations fail_closed multiplier tenant clock request s m.1
      → ((a : A)
            (s1 : (CurrentState n b c o integrations fail_closed multiplier tenant clock request))
          → KeepsMarks s1 (f a s1))
      → KeepsMarks s (continue f m)
  continue-KeepsMarks f s (ok a, s1) same kept = SameMarks-KeepsMarks s s1 (f a s1) same (kept a s1)
  continue-KeepsMarks f s (raised e, s1) same kept = same

  pure-KeepsMarks :
      {A B : Type 0} (x : B)
      (s : (CurrentState n b c o integrations fail_closed multiplier tenant clock request))
      (m : Outcome Failure A
        × (CurrentState n b c o integrations fail_closed multiplier tenant clock request))
      → KeepsMarks s m
      → KeepsMarks s (continue (λ _. pure x) m)
  pure-KeepsMarks x s (ok a, s1) kept = tt
  pure-KeepsMarks x s (raised e, s1) kept = kept

  dispatch_unless-KeepsMarks :
      (event customer : Fields) (duplicate : Bool)
      (s : (CurrentState n b c o integrations fail_closed multiplier tenant clock request))
      → KeepsMarks s (
          dispatch_unless n b c o integrations fail_closed multiplier clock tenant request event
            customer duplicate s)
  unfolding dispatch_unless record_dedup_marker
  dispatch_unless-KeepsMarks event customer true s = tt
  dispatch_unless-KeepsMarks event customer false s =
      continue-KeepsMarks
        (λ message.
          record_dedup_marker n b c o integrations fail_closed multiplier clock tenant request
            (get_dedup_key event)
          >> pure (reply 200 message))
        s
        (dispatch n b c o integrations fail_closed multiplier clock tenant request event customer s)
        (dispatch-marks n b c o integrations fail_closed multiplier tenant clock request event
          customer s)
        (λ message s1.
          pure-KeepsMarks (reply 200 message) s1
            (record_dedup_marker n b c o integrations fail_closed multiplier clock tenant request
              (get_dedup_key event) s1)
            (on_dedup-KeepsMarks
              (record_event c clock.time
                (workspace_id n b c o integrations fail_closed multiplier clock tenant request)
                (some (get_dedup_key event)))
              s1
              (record_event-IfRaisedSame
                (workspace_id n b c o integrations fail_closed multiplier clock tenant request)
                (some (get_dedup_key event)) s1.desk.cache)))

  process_webhook_data-KeepsMarks :
      (event : Fields)
      (s : (CurrentState n b c o integrations fail_closed multiplier tenant clock request))
      → KeepsMarks s (
          process_webhook_data n b c o integrations fail_closed multiplier clock tenant request
            event s)
  unfolding process_webhook_data on_dedup
  process_webhook_data-KeepsMarks event s =
      continue-KeepsMarks (λ customer. asked >>= λ duplicate. dispatched customer duplicate) s
        (request.customer_data, s) (λ t workspace id. refl)
        (λ customer s1.
          continue-KeepsMarks (dispatched customer) s1 (asked s1)
            (λ t workspace id.
              ap (λ r. c.peek r t (dedup_key workspace id))
                (is_duplicate-state c clock.time
                  (workspace_id n b c o integrations fail_closed multiplier clock tenant request)
                  (some (get_dedup_key event)) s1.desk.cache))
            (λ duplicate s2. dispatch_unless-KeepsMarks event customer duplicate s2))
    where
      asked :
          Call
            (CurrentState n b c o integrations fail_closed multiplier tenant clock request)
            Failure
            Bool
      asked = on_dedup n b c o integrations fail_closed multiplier clock tenant request (
          is_duplicate c clock.time
            (workspace_id n b c o integrations fail_closed multiplier clock tenant request)
            (some (get_dedup_key event)))

      dispatched :
          Fields
          → Bool
          → Call
              (CurrentState n b c o integrations fail_closed multiplier tenant clock request)
              Failure
              Response
      dispatched customer duplicate =
          dispatch_unless n b c o integrations fail_closed multiplier clock tenant request event
            customer duplicate

  -- If the processing of an event ends with an exception, which is answered with an error, then no
  -- mark has changed: neither this event nor another one becomes a duplicate when it is sent again.
  pub failed_dispatch_unmarked :
      (event : Fields)
      (s s' : (CurrentState n b c o integrations fail_closed multiplier tenant clock request))
      (e : Failure)
      → process_webhook_data n b c o integrations fail_closed multiplier clock tenant request event
          s
        ≡ (raised e, s')
      → (t : ℕ) (workspace id : String)
      → c.peek s'.desk.cache t (dedup_key workspace id)
        ≡ c.peek s.desk.cache t (dedup_key workspace id)
  failed_dispatch_unmarked event s s' e h =
      subst (λ r. KeepsMarks s r) h (process_webhook_data-KeepsMarks event s)

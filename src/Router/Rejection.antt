-- ===== src/Router/Rejection.antt =====
-- What a request that is turned away leaves unchanged.
use mathlib.Core.Option.{get_or}
use notipus.Base.{◌≤◌, ℕ, ◌≡◌, refl, Bool, true, false, ◌&&◌, Option, none, some, leb, List}
use notipus.Base.Call.{Outcome, ok, raised, continue}
use notipus.Cache.{Cache, Counters}
use notipus.Consolidation.{Entry}
use notipus.Delivery.{Integration, Outside}
use notipus.Limits.Breaker.{closed}
use notipus.Limits.Limiter.{Clock, get_hard_limit, usage_key}
use notipus.Limits.Limiter.Healthy.{enforce_refuses}
use notipus.Billing.Workspaces.{has_active_access, check_workspace_access}
use notipus.Queue.State.{Backend}
use notipus.Router.{
  Tenant, Failure, invalid_signature, webhook_error, queue_failed, delivery_error, unexpected,
  Request, Response, process_webhook, process_valid, process_entitled, settle_limit, settle_failure,
  handle_rate_limiting, handle_webhook_exceptions, ServerState,
}

-- The plugin has accepted the signature.
abbrev pub is_valid : Outcome Failure Bool → Bool
is_valid (ok b) = b
is_valid (raised e) = false

-- A request for a workspace is entitled if the workspace has access.
abbrev pub is_entitled : ℕ → Option Tenant → Bool
is_entitled now none = true
is_entitled now (some t) = has_active_access now t.row

error_status : (e : Failure) → leb 400 (handle_webhook_exceptions e).status ≡ true
unfolding handle_webhook_exceptions
error_status invalid_signature = refl
error_status webhook_error = refl
error_status (queue_failed e) = refl
error_status (delivery_error e) = refl
error_status unexpected = refl

module _ {N W : Type 0} (n : Counters) (b : Backend) (c : Cache Entry) (o : Outside N W)
    (integrations : List Integration) (fail_closed : Bool) (multiplier : ℕ) (clock : Clock) where
  -- An answer that refuses and a state.
  abbrev pub Refused : {S : Type 0} → S → Response × S → Type 0
  Refused s m = (leb 400 m.0.status ≡ true) × (m.1 ≡ s)

  -- An answer with a status, and a state.
  abbrev pub AnsweredWith : {S : Type 0} → ℕ → S → Response × S → Type 0
  AnsweredWith status s m = (m.0.status ≡ status) × (m.1 ≡ s)

  unentitled :
      (tenant : Option Tenant) (request : Request)
      (s : ServerState n b c o integrations fail_closed multiplier clock tenant request)
      → is_entitled clock.time tenant ≡ false
      → Refused s (
          settle_failure n b c o integrations fail_closed multiplier clock tenant request
            (process_valid n b c o integrations fail_closed multiplier clock tenant request true s))
  unfolding process_valid process_entitled check_workspace_access settle_failure
  unentitled none request s h = absurd cc
  unentitled (some t) request s h = rw h (refl, refl)

  refused :
      (tenant : Option Tenant) (request : Request) (valid : Outcome Failure Bool)
      (s : ServerState n b c o integrations fail_closed multiplier clock tenant request)
      → (is_valid valid && is_entitled clock.time tenant) ≡ false
      → Refused s (
          settle_failure n b c o integrations fail_closed multiplier clock tenant request (
            continue
              (process_valid n b c o integrations fail_closed multiplier clock tenant request)
              (valid, s)))
  unfolding process_valid settle_failure
  refused tenant request (raised e) s h = (error_status e, refl)
  refused tenant request (ok false) s h = (error_status invalid_signature, refl)
  refused tenant request (ok true) s h = unentitled tenant request s h

  -- A request that is not authenticated, or whose workspace has no access, is answered with an error
  -- and changes nothing: no count, no stored payload, no event and no mark.
  pub rejected_harmless :
      (tenant : Option Tenant) (request : Request)
      (s : ServerState n b c o integrations fail_closed multiplier clock tenant request)
      → (is_valid request.valid && is_entitled clock.time tenant) ≡ false
      → Refused s
          (process_webhook n b c o integrations fail_closed multiplier clock tenant request s)
  unfolding process_webhook
  rejected_harmless tenant request s h = refused tenant request request.valid s h

  -- A request of a workspace that has used up its hard cap for the month is answered with 429 and
  -- changes nothing: it is not counted, nor stored, nor dispatched. The signature is valid, the
  -- workspace has access, the cache answers and the circuit is closed.
  pub spent_harmless :
      (t : Tenant) (request : Request)
      (s : ServerState n b c o integrations fail_closed multiplier clock (some t) request)
      → request.valid ≡ ok true
      → has_active_access clock.time t.row ≡ true
      → n.cache.up s.limiter.cache clock.time ≡ true
      → s.limiter.breaker.state ≡ closed
      → get_hard_limit multiplier t.organization
        ≤ get_or (n.cache.peek s.limiter.cache clock.time (usage_key n clock t.organization)) 0
      → AnsweredWith 429 s
          (process_webhook n b c o integrations fail_closed multiplier clock (some t) request s)
  unfolding process_webhook process_valid process_entitled check_workspace_access settle_limit
      handle_rate_limiting settle_failure
  spent_harmless t request s valid access up healthy spent =
      rw
        (
          valid,
          access,
          enforce_refuses n clock s.limiter up healthy fail_closed multiplier t.organization spent,
        )
        (refl, refl)

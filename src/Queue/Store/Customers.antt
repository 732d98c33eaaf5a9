-- ===== src/Queue/Store/Customers.antt =====
-- How the events of a customer find their group.
use text.Mathlib.Text.{starts_with}
use notipus.Base.{
  ℕ, ◌+◌, ◌-◌, ◌/◌, ◌≤◌, String, ◌≡◌, ap, true, Option, none, some, arith, inl, inr, ◌⊎◌,
  if◌then◌else◌, ◌∙◌,
}
use notipus.Base.Json.{Fields}
use notipus.Base.Call.{ok}
use notipus.Cache.{get-up}
use notipus.Queue.{pending_key}
use notipus.Queue.State.{Pending, Backend, State, now, on_pending, append_lock}
use notipus.Queue.Store.{
  get_customer_storage_key, get_storage_key, queue_event, bucket_key, group_of, is_pending,
}
use notipus.Queue.Process.Finishing.{AllUp}
use notipus.Queue.Store.Queued.{Joined, joined, found}

-- An event of a customer, likewise, joins the group that `get_customer_storage_key` names.
queued_event_joins :
    (b : Backend) (key storage_key workspace_id : String) (event customer : Fields) (s : State b)
    → starts_with key "customer:" ≡ true
    → AllUp b
    → get_customer_storage_key b key workspace_id s ≡ (ok storage_key, s)
    → append_lock b (group_of workspace_id storage_key) s ≡ none
    → Joined b
        (group_of workspace_id storage_key)
        event
        customer
        s
        (queue_event b key workspace_id event customer s)
unfolding queue_event get_storage_key
queued_event_joins b key storage_key workspace_id event customer s shared up named free =
    rw (shared, named) (joined b (group_of workspace_id storage_key) event customer s up free)

get_customer_storage_key-up :
    (b : Backend) (key workspace_id : String) (s : State b) (p : Option Pending)
    → AllUp b
    → found b (group_of workspace_id (bucket_key key (now b s / 60 - 1))) s ≡ p
    → get_customer_storage_key b key workspace_id s ≡ (
      ok (
          if is_pending p
          then bucket_key key (now b s / 60 - 1)
          else bucket_key key (now b s / 60)),
      s,
    )
unfolding get_customer_storage_key on_pending
get_customer_storage_key-up b key workspace_id s p up h = rw (
  get-up b.pending (now b s)
      (pending_key (group_of workspace_id (bucket_key key (now b s / 60 - 1))))
      (up.pending s.pending (now b s)),
  h,
)

same_or_next : (t u : ℕ) → t ≤ u → u ≤ t + 60 → (u / 60 ≡ t / 60) ⊎ (u / 60 ≡ t / 60 + 1)
same_or_next t u h k = ground arith

next_minus : (m : ℕ) → m + 1 - 1 ≡ m
next_minus m = omega arith

-- Two events of a customer that arrive within a minute of each other join one group, also across the
-- end of a minute: if the first one opened its group and this still waits, then the second one
-- gets the same storage key.
pub within_a_minute_joined :
    (b : Backend) (key workspace_id : String) (s s' : State b) (p : Pending)
    → AllUp b
    → now b s ≤ now b s'
    → now b s' ≤ now b s + 60
    → found b (group_of workspace_id (bucket_key key (now b s / 60 - 1))) s ≡ none
    → found b (group_of workspace_id (bucket_key key (now b s / 60 - 1))) s' ≡ none
    → found b (group_of workspace_id (bucket_key key (now b s / 60))) s' ≡ some p
    → (get_customer_storage_key b key workspace_id s').0
      ≡ (get_customer_storage_key b key workspace_id s).0
within_a_minute_joined b key workspace_id s s' p up later soon before before' waits =
    rw (get_customer_storage_key-up b key workspace_id s none up before)
      (elim (same_or_next (now b s) (now b s') later soon) [
        | inl same ↦
            rw (get_customer_storage_key-up b key workspace_id s' none up (rw same before'))
              (ap (λ m. ok (bucket_key key m)) same)
        | inr next ↦
            rw
              (get_customer_storage_key-up b key workspace_id s' (some p) up
                (rw (next, next_minus (now b s / 60)) waits))
              (ap (λ m. ok (bucket_key key m)) (ap (λ m. m - 1) next ∙ next_minus (now b s / 60)))
      ])

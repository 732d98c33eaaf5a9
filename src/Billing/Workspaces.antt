-- ===== src/Billing/Workspaces.antt =====
-- The workspace rows that billing reads and writes (`Workspace` of app/core/models.py), and the
-- queries on them. Times are Unix seconds.
use notipus.Base.{
  ℕ, String, Bool, true, false, Option, none, some, List, [], ◌∷◌, length, filter, ltb, str_eq,
  if◌then◌else◌,
}

-- `STATUS_CHOICES`
pub data Status : Type 0 where
  active trial suspended past_due cancelled : Status

pub record Workspace : Type 0 where
  pub id : ℕ
  pub subscription_plan : String
  pub subscription_status : Status
  pub trial_end_date : Option ℕ
  pub billing_cycle_anchor : Option ℕ
  pub stripe_customer_id : String
  pub stripe_subscription_id : String
  pub payment_method_added : Bool
  pub ga4_client_id : String

abbrev pub Table : Type 0
Table = List Workspace

-- `Workspace.is_active`
unfoldable pub is_active : Workspace → Bool
is_active w = elim w.subscription_status [ active ↦ true | trial ↦ true | _ ↦ false ]

-- `Workspace.has_active_access`
unfoldable pub has_active_access : ℕ → Workspace → Bool
has_active_access now w = elim w.subscription_status [
  | active ↦ true
  | trial ↦ elim w.trial_end_date [ none ↦ true | some end_date ↦ ltb now end_date ]
  | _ ↦ false
]

-- `_check_workspace_access`: the status code of a refusal. Global endpoints have no workspace.
unfoldable pub check_workspace_access : ℕ → Option Workspace → Option ℕ
unfolding has_active_access
check_workspace_access now none = none
check_workspace_access now (some w) = if has_active_access now w then none else some 403

-- `Workspace.objects.filter(...).update(...)`: the rows that match are changed.
unfoldable pub update_where : (Workspace → Bool) → (Workspace → Workspace) → Table → Table
update_where p f [] = []
update_where p f (w ∷ ws) = (if p w then f w else w) ∷ update_where p f ws

-- The number of rows that an update changes.
unfoldable pub count_where : (Workspace → Bool) → Table → ℕ
count_where p ws = length (filter p ws)

-- `Workspace.objects.filter(...).first()`
unfoldable pub first_where : (Workspace → Bool) → Table → Option Workspace
first_where p [] = none
first_where p (w ∷ ws) = if p w then some w else first_where p ws

abbrev pub of_customer : String → Workspace → Bool
of_customer customer_id w = str_eq w.stripe_customer_id customer_id

-- ===== src/Members/Permissions.antt =====
-- Roles and what they permit: app/core/permissions.py. A row of `WorkspaceMember` (app/core/models.py)
-- carries the e-mail of its user, as code points. The plan table is outside: what it says of the
-- workspace's plan is passed in.
use notipus.Base.{
  ℕ, ◌-◌, String, Bool, true, false, ◌&&◌, not, Option, none, some, List, [], ◌∷◌, length, filter,
  ◌==◌, leb, if◌then◌else◌,
}
use mathlib.Core.Option.{get_or}
use notipus.Base.Dict.{Dict, lookup}
use notipus.Base.Call.{Outcome, ok, raised}

-- `ROLE_CHOICES`
pub data Role : Type 0 where
  owner admin user : Role

pub record Member : Type 0 where
  pub id : ℕ
  pub user_id : ℕ
  pub email : List ℕ
  pub workspace : ℕ
  pub role : Role
  pub is_active : Bool

-- `role == "owner"`
unfoldable pub is_owner : Role → Bool
is_owner owner = true
is_owner _ = false

-- `role in ("owner", "admin")`
unfoldable pub manages : Role → Bool
manages user = false
manages _ = true

unfoldable pub first_member : (Member → Bool) → List Member → Option Member
first_member p [] = none
first_member p (m ∷ ms) = if p m then some m else first_member p ms

-- The user's active membership.
unfoldable pub get_workspace_member : ℕ → List Member → Option Member
get_workspace_member user_id = first_member λ m. m.user_id == user_id && m.is_active

-- What a view answers: a redirection with a message, or a page that is not found.
pub data Denial : Type 0 where
  own_membership not_permitted invalid_role no_email owner_invites plan_full already_member
        already_invited :
      Denial
  invitation_expired already_accepted wrong_email : Denial

pub data Reply : Type 0 where
  create_workspace dashboard not_found log_in done : Reply
  refused : Denial → Reply

-- `admin_required`: the member that acts, or where the request is sent instead.
unfoldable pub admin_required : Option Member → Outcome Reply Member
unfolding manages
admin_required none = raised create_workspace
admin_required (some member) = if manages member.role then ok member else raised dashboard

unfoldable pub can_remove_member : Member → Member → Bool
unfolding is_owner manages
can_remove_member actor target =
    if not (manages actor.role)
    then false
    else if is_owner target.role && not (is_owner actor.role)
    then false
    else manages actor.role

unfoldable pub can_change_role : Member → Member → Role → Bool
unfolding is_owner manages
can_change_role actor target new_role =
    if not (manages actor.role)
    then false
    else if is_owner actor.role
    then true
    else if is_owner target.role
    then false
    else not (is_owner new_role)

unfoldable pub member_count : ℕ → List Member → ℕ
member_count workspace ms = length (filter (λ m. (m.workspace == workspace) && m.is_active) ms)

-- `max_users` of the workspace's plan, if there is such a plan.
unfoldable pub can_invite_user : Option ℕ → ℕ → List Member → Bool
unfolding member_count
can_invite_user max_users workspace ms = not (leb (get_or max_users 1) (member_count workspace ms))

unfoldable pub get_remaining_seats : Option ℕ → ℕ → List Member → ℕ
unfolding member_count
get_remaining_seats max_users workspace ms = get_or max_users 1 - member_count workspace ms

abbrev pub tier_order : Dict ℕ
tier_order = ("free", 0) ∷ ("trial", 0) ∷ ("basic", 1) ∷ ("pro", 2) ∷ ("enterprise", 3) ∷ []

-- `get_plan_tier`, by the name of the plan: a plan that is not listed is of the lowest tier.
unfoldable pub get_plan_tier : String → ℕ
get_plan_tier subscription_plan = get_or (lookup subscription_plan tier_order) 0

unfoldable pub has_plan_or_higher : String → String → Bool
unfolding get_plan_tier
has_plan_or_higher subscription_plan min_plan =
    leb (get_plan_tier min_plan) (get_plan_tier subscription_plan)

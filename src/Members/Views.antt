-- ===== src/Members/Views.antt =====
-- The views that change the members of a workspace: app/core/views/members.py. An e-mail is a list of
-- code points. Ids are assigned by the database, in order; the mail of an invitation is not modelled.
use notipus.Base.{
  ℕ, suc, ◌+◌, ◌*◌, String, Bool, false, ◌&&◌, not, Option, none, some, List, [], ◌∷◌, ◌++◌, filter,
  any, ◌==◌, ltb, is_some, if◌then◌else◌,
}
use notipus.Base.Call.{Outcome, ok, raised}
use notipus.Billing.Plans.{codes, lower, strip, same_codes}
use notipus.Members.Permissions.{
  Role, owner, admin, user, Member, is_owner, first_member, get_workspace_member, own_membership,
  not_permitted, invalid_role, no_email, owner_invites, plan_full, already_member, already_invited,
  Reply, not_found, done, refused, admin_required, can_remove_member, can_change_role,
  can_invite_user,
}

pub record Invitation : Type 0 where
  pub id : ℕ
  pub token : String
  pub workspace : ℕ
  pub email : List ℕ
  pub role : Role
  pub expires_at : ℕ
  pub accepted_at : Option ℕ

-- The rows of both tables, and the id that the next row gets.
pub record Team : Type 0 where
  pub members : List Member
  pub invitations : List Invitation
  pub next_id : ℕ

abbrev pub invitation_expiry : ℕ
invitation_expiry = 60 * 60 * 24 * 7

unfoldable pub role_named : List ℕ → Option Role
role_named name =
    if same_codes name (codes "owner")
    then some owner
    else if same_codes name (codes "admin")
    then some admin
    else if same_codes name (codes "user")
    then some user
    else none

-- `save(update_fields=...)` of the row with an id.
unfoldable pub save_member : ℕ → (Member → Member) → List Member → List Member
save_member id f [] = []
save_member id f (m ∷ ms) = (if m.id == id then f m else m) ∷ save_member id f ms

-- `get_object_or_404(WorkspaceMember, id, workspace, is_active=True)`
unfoldable pub target_of : ℕ → ℕ → List Member → Option Member
target_of member_id workspace =
    first_member λ m. (m.id == member_id && (m.workspace == workspace)) && m.is_active

unfoldable pub as_admin :
    Outcome Reply Member → (Member → Team → Reply × Team) → Team → Reply × Team
as_admin (ok actor) view team = view actor team
as_admin (raised reply) view team = (reply, team)

abbrev pub acting : ℕ → Team → Outcome Reply Member
acting user_id team = admin_required (get_workspace_member user_id team.members)

unfoldable pub remove_target : Member → Option Member → Team → Reply × Team
remove_target actor none team = (not_found, team)
remove_target actor (some target) team =
    if target.id == actor.id
    then (refused own_membership, team)
    else if can_remove_member actor target
    then (
      done,
      record team {
        members = save_member target.id (λ m. record m { is_active = false }) team.members;
      },
    )
    else (refused not_permitted, team)

unfoldable pub remove_member : ℕ → ℕ → Team → Reply × Team
unfolding as_admin remove_target
remove_member user_id member_id team =
    as_admin (acting user_id team)
      (λ actor t. remove_target actor (target_of member_id actor.workspace t.members) t) team

unfoldable pub change_target : Member → Role → Option Member → Team → Reply × Team
change_target actor new_role none team = (not_found, team)
change_target actor new_role (some target) team =
    if target.id == actor.id
    then (refused own_membership, team)
    else if can_change_role actor target new_role
    then (
      done,
      record team {
        members = save_member target.id (λ m. record m { role = new_role }) team.members;
      },
    )
    else (refused not_permitted, team)

unfoldable pub change_named : Member → Option Role → ℕ → Team → Reply × Team
unfolding change_target
change_named actor none member_id team = (refused invalid_role, team)
change_named actor (some new_role) member_id team =
    change_target actor new_role (target_of member_id actor.workspace team.members) team

unfoldable pub change_role : ℕ → ℕ → String → Team → Reply × Team
unfolding as_admin change_named role_named strip
change_role user_id member_id new_role team =
    as_admin (acting user_id team)
      (λ actor t. change_named actor (role_named (strip (codes new_role))) member_id t) team

-- A pending invitation of an address to a workspace.
abbrev pub pending_for : ℕ → List ℕ → Invitation → Bool
pending_for workspace email i =
    (i.workspace == workspace) && same_codes i.email email && not (is_some i.accepted_at)

unfoldable pub first_invitation : (Invitation → Bool) → List Invitation → Option Invitation
first_invitation p [] = none
first_invitation p (i ∷ is) = if p i then some i else first_invitation p is

unfoldable pub delete_invitation : ℕ → List Invitation → List Invitation
delete_invitation id is = filter (λ i. not (i.id == id)) is

-- The row is created unless the constraint on pending invitations forbids it.
unfoldable pub create_invitation : ℕ → String → ℕ → List ℕ → Role → Team → Reply × Team
create_invitation now token workspace email role team =
    if any (pending_for workspace email) team.invitations
    then (refused already_invited, team)
    else (
      done,
      record team {
        invitations =
            team.invitations
            ++ record {
              id = team.next_id;
              token = token;
              workspace = workspace;
              email = email;
              role = role;
              expires_at = now + invitation_expiry;
              accepted_at = none;
            }
              ∷ [];
        next_id = suc team.next_id;
      },
    )

-- An expired invitation makes room for a fresh one.
unfoldable pub replace_expired :
    ℕ → String → ℕ → List ℕ → Role → Option Invitation → Team → Reply × Team
unfolding create_invitation delete_invitation
replace_expired now token workspace email role none team =
    create_invitation now token workspace email role team
replace_expired now token workspace email role (some i) team =
    if ltb i.expires_at now
    then create_invitation now token workspace email role
        (record team { invitations = delete_invitation i.id team.invitations })
    else (refused already_invited, team)

unfoldable pub invite_checked : Option ℕ → ℕ → String → List ℕ → Member → Role → Team → Reply × Team
unfolding replace_expired
invite_checked max_users now token email actor role team =
    if is_owner role && not (is_owner actor.role)
    then (refused owner_invites, team)
    else if not (can_invite_user max_users actor.workspace team.members)
    then (refused plan_full, team)
    else if any (λ m. (m.workspace == actor.workspace) && same_codes m.email email && m.is_active)
        team.members
    then (refused already_member, team)
    else replace_expired now token actor.workspace email role
        (first_invitation (pending_for actor.workspace email) team.invitations) team

unfoldable pub invite_named :
    Option ℕ → ℕ → String → List ℕ → Member → Option Role → Team → Reply × Team
unfolding invite_checked
invite_named max_users now token [] actor role team = (refused no_email, team)
invite_named max_users now token (c ∷ email) actor none team = (refused invalid_role, team)
invite_named max_users now token (c ∷ email) actor (some role) team =
    invite_checked max_users now token (c ∷ email) actor role team

unfoldable pub invite_member : Option ℕ → ℕ → String → ℕ → List ℕ → String → Team → Reply × Team
unfolding as_admin invite_named role_named strip lower
invite_member max_users now token user_id email role team =
    as_admin (acting user_id team)
      (λ actor t.
        invite_named max_users now token (lower (strip email)) actor (role_named (codes role)) t)
      team

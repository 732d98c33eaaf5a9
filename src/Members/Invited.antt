-- ===== src/Members/Invited.antt =====
-- To invite someone, or to take an invitation back, changes no member: app/core/views/members.py.
use notipus.Base.{
  ℕ, ◌≡◌, refl, String, ◌&&◌, not, Option, none, some, List, [], ◌∷◌, any, ◌==◌, ltb, Bool-cases,
  inl, inr, is_some,
}
use notipus.Base.Call.{Outcome, ok, raised}
use notipus.Billing.Plans.{codes, lower, strip, same_codes}
use notipus.Members.Permissions.{Role, Member, is_owner, Reply, can_invite_user}
use notipus.Members.Views.{
  Invitation, Team, acting, as_admin, role_named, create_invitation, replace_expired,
  invite_checked, invite_named, invite_member, pending_for, first_invitation, delete_invitation,
}
use notipus.Members.Acceptance.{cancel_found, cancel_invitation}

as_admin-same :
    (r : Outcome Reply Member) (view : Member → Team → Reply × Team) (team : Team)
    → ((actor : Member) → (view actor team).1.members ≡ team.members)
    → (as_admin r view team).1.members ≡ team.members
unfolding as_admin
as_admin-same (ok actor) view team h = h actor
as_admin-same (raised reply) view team h = refl

module _ (max_users : Option ℕ) (now : ℕ) (token : String) where
  create-same :
      (workspace : ℕ) (email : List ℕ) (role : Role) (team : Team)
      → (create_invitation now token workspace email role team).1.members ≡ team.members
  unfolding create_invitation
  create-same workspace email role team =
      elim (Bool-cases (any (pending_for workspace email) team.invitations)) [
        | inl taken ↦ rw taken
        | inr free ↦ rw free
      ]

  replace-same :
      (workspace : ℕ) (email : List ℕ) (role : Role) (found : Option Invitation) (team : Team)
      → (replace_expired now token workspace email role found team).1.members ≡ team.members
  unfolding replace_expired
  replace-same workspace email role none team = create-same workspace email role team
  replace-same workspace email role (some i) team = elim (Bool-cases (ltb i.expires_at now)) [
    | inr waiting ↦ rw waiting
    | inl expired ↦ rw expired (
        create-same workspace email role
          (record team { invitations = delete_invitation i.id team.invitations }))
  ]

  invite_checked-same :
      (email : List ℕ) (actor : Member) (role : Role) (team : Team)
      → (invite_checked max_users now token email actor role team).1.members ≡ team.members
  unfolding invite_checked
  invite_checked-same email actor role team =
      elim (Bool-cases (is_owner role && not (is_owner actor.role))) [
        | inl above ↦ rw above
        | inr fitting ↦ elim (Bool-cases (can_invite_user max_users actor.workspace team.members)) [
          | inr full ↦ rw (fitting, full)
          | inl seat ↦
              elim (Bool-cases (
                any
                  (λ m. (m.workspace == actor.workspace) && same_codes m.email email && m.is_active)
                  team.members)) [
                    | inl there ↦ rw (fitting, seat, there)
                    | inr absent ↦
                        rw (fitting, seat, absent)
                          (replace-same actor.workspace email role
                            (first_invitation (pending_for actor.workspace email) team.invitations)
                            team)
                  ]
        ]
      ]

  invite_named-same :
      (email : List ℕ) (actor : Member) (role : Option Role) (team : Team)
      → (invite_named max_users now token email actor role team).1.members ≡ team.members
  unfolding invite_named
  invite_named-same [] actor role team = refl
  invite_named-same (c ∷ email) actor none team = refl
  invite_named-same (c ∷ email) actor (some role) team =
      invite_checked-same (c ∷ email) actor role team

  pub members-invite_member :
      (user_id : ℕ) (email : List ℕ) (role : String) (team : Team)
      → (invite_member max_users now token user_id email role team).1.members ≡ team.members
  unfolding invite_member
  members-invite_member user_id email role team =
      let address = lower (strip email) in
      let named = role_named (codes role) in
      as_admin-same (acting user_id team)
        (λ actor t. invite_named max_users now token address actor named t) team
        (λ actor. invite_named-same address actor named team)

cancel_found-same :
    (found : Option Invitation) (team : Team) → (cancel_found found team).1.members ≡ team.members
unfolding cancel_found
cancel_found-same none team = refl
cancel_found-same (some i) team = refl

pub members-cancel_invitation :
    (user_id invitation_id : ℕ) (team : Team)
    → (cancel_invitation user_id invitation_id team).1.members ≡ team.members
unfolding cancel_invitation
members-cancel_invitation user_id invitation_id team =
    let cancelled = λ (actor : Member). first_invitation (λ i.
      (i.id == invitation_id && (i.workspace == actor.workspace)) && not (is_some i.accepted_at)) in
    as_admin-same (acting user_id team) (λ actor t. cancel_found (cancelled actor t.invitations) t)
      team (λ actor. cancel_found-same (cancelled actor team.invitations) team)

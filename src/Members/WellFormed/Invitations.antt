-- ===== src/Members/WellFormed/Invitations.antt =====
-- Invitations and their acceptance keep the ids of the members apart.
use notipus.Base.{
  ℕ, refl, String, true, ◌&&◌, not, Option, none, some, List, [], ◌∷◌, any, ◌==◌, ltb, Bool-cases,
  inl, inr, is_some,
}
use notipus.Billing.Plans.{codes, lower, strip, same_codes}
use notipus.Members.Permissions.{Role, Member, is_owner, first_member, can_invite_user}
use notipus.Members.Views.{
  Invitation, Team, acting, role_named, delete_invitation, first_invitation, create_invitation,
  replace_expired, invite_checked, invite_named, invite_member, pending_for,
}
use notipus.Members.Acceptance.{
  User, join, process_invitation_acceptance, accept_pending, accept_found, accept_invitation,
  confirm_accept_invitation, cancel_found, cancel_invitation, by_token,
}
use notipus.Members.WellFormed.{
  WellFormed, saved-WellFormed, below-suc, below-append, unique-append, as_admin-WellFormed,
}

join-WellFormed :
    (u : User) (i : Invitation) (found : Option Member) (team : Team)
    → WellFormed team
    → WellFormed (join u i found team)
unfolding join
join-WellFormed u i none team w = record {
  unique = unique-append team.next_id _ team.members refl w.below w.unique;
  below = below-append team.next_id _ team.members refl w.below;
}
join-WellFormed u i (some m) team w = elim (Bool-cases m.is_active) [
  | inl there ↦ rw there w
  | inr left ↦
      rw left (
        saved-WellFormed m.id (λ v. record v { is_active = true; role = i.role }) team (λ v. refl)
          w)
]

-- The invitations are no concern of the members' ids.
with_invitations :
    (invitations : List Invitation) (team : Team)
    → WellFormed team
    → WellFormed (record team { invitations = invitations })
with_invitations invitations team w = record { unique = w.unique; below = w.below }

process-WellFormed :
    (now : ℕ) (u : User) (i : Invitation) (team : Team)
    → WellFormed team
    → WellFormed (process_invitation_acceptance now u i team).1
unfolding process_invitation_acceptance
process-WellFormed now u i team w = elim (Bool-cases (same_codes (lower u.email) (lower i.email))) [
  | inr other ↦ rw other w
  | inl same ↦ rw same (
      let found =
        first_member (λ m. (m.workspace == i.workspace) && (m.user_id == u.id)) team.members in
      with_invitations _ (join u i found team) (join-WellFormed u i found team w))
]

visited-WellFormed :
    (now : ℕ) (visitor : Option User) (i : Invitation) (team : Team)
    → WellFormed team
    → WellFormed (accept_pending now visitor i team).1
unfolding accept_pending
visited-WellFormed now none i team w = w
visited-WellFormed now (some u) i team w = process-WellFormed now u i team w

accept_found-WellFormed :
    (now : ℕ) (visitor : Option User) (found : Option Invitation) (team : Team)
    → WellFormed team
    → WellFormed (accept_found now visitor found team).1
unfolding accept_found
accept_found-WellFormed now visitor none team w = w
accept_found-WellFormed now visitor (some i) team w = elim (Bool-cases (ltb i.expires_at now)) [
  | inl late ↦ rw late w
  | inr timely ↦ elim (Bool-cases (is_some i.accepted_at)) [
    | inl before ↦ rw (timely, before) w
    | inr pending ↦ rw (timely, pending) (visited-WellFormed now visitor i team w)
  ]
]

create-WellFormed :
    (now : ℕ) (token : String) (workspace : ℕ) (email : List ℕ) (role : Role) (team : Team)
    → WellFormed team
    → WellFormed (create_invitation now token workspace email role team).1
unfolding create_invitation
create-WellFormed now token workspace email role team w =
    elim (Bool-cases (any (pending_for workspace email) team.invitations)) [
      | inl taken ↦ rw taken w
      | inr free ↦
          rw free
            (record { unique = w.unique; below = below-suc team.next_id team.members w.below })
    ]

replace-WellFormed :
    (now : ℕ) (token : String) (workspace : ℕ) (email : List ℕ) (role : Role)
    (found : Option Invitation) (team : Team)
    → WellFormed team
    → WellFormed (replace_expired now token workspace email role found team).1
unfolding replace_expired
replace-WellFormed now token workspace email role none team w =
    create-WellFormed now token workspace email role team w
replace-WellFormed now token workspace email role (some i) team w =
    elim (Bool-cases (ltb i.expires_at now)) [
      | inr waiting ↦ rw waiting w
      | inl expired ↦ rw expired (
          create-WellFormed now token workspace email role
            (record team { invitations = delete_invitation i.id team.invitations })
            (with_invitations _ team w))
    ]

module _ (max_users : Option ℕ) (now : ℕ) (token : String) where
  invite_checked-WellFormed :
      (email : List ℕ) (actor : Member) (role : Role) (team : Team)
      → WellFormed team
      → WellFormed (invite_checked max_users now token email actor role team).1
  unfolding invite_checked
  invite_checked-WellFormed email actor role team w =
      elim (Bool-cases (is_owner role && not (is_owner actor.role))) [
        | inl above ↦ rw above w
        | inr fitting ↦ elim (Bool-cases (can_invite_user max_users actor.workspace team.members)) [
          | inr full ↦ rw (fitting, full) w
          | inl seat ↦
              elim (Bool-cases (
                any
                  (λ m. (m.workspace == actor.workspace) && same_codes m.email email && m.is_active)
                  team.members)) [
                    | inl there ↦ rw (fitting, seat, there) w
                    | inr absent ↦
                        rw (fitting, seat, absent)
                          (replace-WellFormed now token actor.workspace email role
                            (first_invitation (pending_for actor.workspace email) team.invitations)
                            team w)
                  ]
        ]
      ]

  invite_named-WellFormed :
      (email : List ℕ) (actor : Member) (role : Option Role) (team : Team)
      → WellFormed team
      → WellFormed (invite_named max_users now token email actor role team).1
  unfolding invite_named
  invite_named-WellFormed [] actor role team w = w
  invite_named-WellFormed (c ∷ email) actor none team w = w
  invite_named-WellFormed (c ∷ email) actor (some role) team w =
      invite_checked-WellFormed (c ∷ email) actor role team w

  pub invite_member-WellFormed :
      (user_id : ℕ) (email : List ℕ) (role : String) (team : Team)
      → WellFormed team
      → WellFormed (invite_member max_users now token user_id email role team).1
  unfolding invite_member
  invite_member-WellFormed user_id email role team w =
      let address = lower (strip email) in
      let named = role_named (codes role) in
      as_admin-WellFormed (acting user_id team)
        (λ actor t. invite_named max_users now token address actor named t) team w
        (λ actor. invite_named-WellFormed address actor named team w)

cancel_found-WellFormed :
    (found : Option Invitation) (team : Team)
    → WellFormed team
    → WellFormed (cancel_found found team).1
unfolding cancel_found
cancel_found-WellFormed none team w = w
cancel_found-WellFormed (some i) team w = with_invitations _ team w

pub cancel_invitation-WellFormed :
    (user_id invitation_id : ℕ) (team : Team)
    → WellFormed team
    → WellFormed (cancel_invitation user_id invitation_id team).1
unfolding cancel_invitation
cancel_invitation-WellFormed user_id invitation_id team w =
    let cancelled = λ (actor : Member). first_invitation (λ i.
      (i.id == invitation_id && (i.workspace == actor.workspace)) && not (is_some i.accepted_at)) in
    as_admin-WellFormed (acting user_id team)
      (λ actor t. cancel_found (cancelled actor t.invitations) t) team w
      (λ actor. cancel_found-WellFormed (cancelled actor team.invitations) team w)

pub accept_invitation-WellFormed :
    (now : ℕ) (visitor : Option User) (token : String) (team : Team)
    → WellFormed team
    → WellFormed (accept_invitation now visitor token team).1
unfolding accept_invitation
accept_invitation-WellFormed now visitor token team w =
    accept_found-WellFormed now visitor (by_token token team) team w

pub confirm_accept_invitation-WellFormed :
    (now : ℕ) (u : User) (token : String) (team : Team)
    → WellFormed team
    → WellFormed (confirm_accept_invitation now u token team).1
unfolding confirm_accept_invitation
confirm_accept_invitation-WellFormed now u token team w =
    accept_found-WellFormed now (some u) (by_token token team) team w

-- ===== src/Members/Acceptance.antt =====
-- How an invitation ends: `cancel_invitation`, `accept_invitation`, `confirm_accept_invitation` and
-- `_process_invitation_acceptance` of app/core/views/members.py. The page that asks a visitor to log in
-- is the reply `log_in`.
use notipus.Base.{
  ℕ, suc, String, true, ◌&&◌, not, Option, none, some, List, [], ◌∷◌, ◌++◌, ◌==◌, ltb, is_some,
  str_eq, if◌then◌else◌,
}
use notipus.Billing.Plans.{lower, same_codes}
use notipus.Members.Permissions.{
  Member, first_member, invitation_expired, already_accepted, wrong_email, Reply, not_found,
  dashboard, log_in, done, refused,
}
use notipus.Members.Views.{
  Invitation, Team, save_member, as_admin, acting, first_invitation, delete_invitation,
}

unfoldable pub cancel_found : Option Invitation → Team → Reply × Team
unfolding delete_invitation
cancel_found none team = (not_found, team)
cancel_found (some i) team =
    (done, record team { invitations = delete_invitation i.id team.invitations })

unfoldable pub cancel_invitation : ℕ → ℕ → Team → Reply × Team
unfolding as_admin cancel_found
cancel_invitation user_id invitation_id team =
    as_admin (acting user_id team)
      (λ actor t.
        cancel_found
          (first_invitation
            (λ i.
              (i.id == invitation_id && (i.workspace == actor.workspace))
              && not (is_some i.accepted_at))
            t.invitations)
          t)
      team

-- Who is logged in: a user's id and e-mail.
pub record User : Type 0 where
  pub id : ℕ
  pub email : List ℕ

unfoldable pub mark_accepted : ℕ → ℕ → List Invitation → List Invitation
mark_accepted now id [] = []
mark_accepted now id (i ∷ is) =
    (if i.id == id then record i { accepted_at = some now } else i) ∷ mark_accepted now id is

-- A member that has left comes back in the role of the invitation; one that is there stays as it is.
unfoldable pub join : User → Invitation → Option Member → Team → Team
join u i none team = record team {
  members =
      team.members
      ++ record {
        id = team.next_id;
        user_id = u.id;
        email = u.email;
        workspace = i.workspace;
        role = i.role;
        is_active = true;
      }
        ∷ [];
  next_id = suc team.next_id;
}
join u i (some m) team = if m.is_active then team else record team {
  members = save_member m.id (λ v. record v { is_active = true; role = i.role }) team.members;
}

unfoldable pub process_invitation_acceptance : ℕ → User → Invitation → Team → Reply × Team
unfolding join mark_accepted lower same_codes
process_invitation_acceptance now u i team =
    if same_codes (lower u.email) (lower i.email)
    then (let joined =
          join u i
            (first_member (λ m. (m.workspace == i.workspace) && (m.user_id == u.id)) team.members)
            team in
        (dashboard, record joined { invitations = mark_accepted now i.id joined.invitations }))
    else (refused wrong_email, team)

-- A visitor who is not logged in is asked to.
unfoldable pub accept_pending : ℕ → Option User → Invitation → Team → Reply × Team
unfolding process_invitation_acceptance
accept_pending now none i team = (log_in, team)
accept_pending now (some u) i team = process_invitation_acceptance now u i team

unfoldable pub accept_found : ℕ → Option User → Option Invitation → Team → Reply × Team
unfolding accept_pending
accept_found now visitor none team = (not_found, team)
accept_found now visitor (some i) team =
    if ltb i.expires_at now
    then (refused invitation_expired, team)
    else if is_some i.accepted_at
    then (refused already_accepted, team)
    else accept_pending now visitor i team

abbrev pub by_token : String → Team → Option Invitation
by_token token team = first_invitation (λ i. str_eq i.token token) team.invitations

unfoldable pub accept_invitation : ℕ → Option User → String → Team → Reply × Team
unfolding accept_found
accept_invitation now visitor token team = accept_found now visitor (by_token token team) team

-- The view is for users that are logged in.
unfoldable pub confirm_accept_invitation : ℕ → User → String → Team → Reply × Team
unfolding accept_found
confirm_accept_invitation now u token team = accept_found now (some u) (by_token token team) team

-- ===== src/Members/History.antt =====
-- The views of app/core/views/members.py in any order, by anyone.
use notipus.Base.{ℕ, ◌≡◌, String, true, Option, some, List}
use notipus.Members.Views.{Team, remove_member, change_role, invite_member}
use notipus.Members.Acceptance.{
  User, cancel_invitation, accept_invitation, confirm_accept_invitation, by_token,
}
use notipus.Members.Owners.{has_owner}
use notipus.Members.Removal.{remove_member-owner}
use notipus.Members.Keeping.{change_role-owner, accept_found-owner}
use notipus.Members.Invited.{members-invite_member, members-cancel_invitation}
use notipus.Members.WellFormed.{WellFormed, remove_member-WellFormed, change_role-WellFormed}
use notipus.Members.WellFormed.Invitations.{
  invite_member-WellFormed, cancel_invitation-WellFormed, accept_invitation-WellFormed,
  confirm_accept_invitation-WellFormed,
}

-- One step from a team to the next: a request that some view has handled.
pub data Step : Team → Team → Type 0 where
  removed :
      (team : Team) (user_id member_id : ℕ) → Step team (remove_member user_id member_id team).1
  changed :
      (team : Team) (user_id member_id : ℕ) (new_role : String)
      → Step team (change_role user_id member_id new_role team).1
  invited :
      (team : Team) (max_users : Option ℕ) (now : ℕ) (token : String) (user_id : ℕ) (email : List ℕ)
      (role : String)
      → Step team (invite_member max_users now token user_id email role team).1
  cancelled :
      (team : Team) (user_id invitation_id : ℕ)
      → Step team (cancel_invitation user_id invitation_id team).1
  visited :
      (team : Team) (now : ℕ) (visitor : Option User) (token : String)
      → Step team (accept_invitation now visitor token team).1
  confirmed :
      (team : Team) (now : ℕ) (u : User) (token : String)
      → Step team (confirm_accept_invitation now u token team).1

-- Any number of steps.
pub data History : Team → Team → Type 0 where
  start : (team : Team) → History team team
  after : (first last next : Team) → History first last → Step last next → History first next

Step-WellFormed : (team next : Team) → Step team next → WellFormed team → WellFormed next
Step-WellFormed _ _ (removed team user_id member_id) w =
    remove_member-WellFormed user_id member_id team w
Step-WellFormed _ _ (changed team user_id member_id new_role) w =
    change_role-WellFormed user_id member_id new_role team w
Step-WellFormed _ _ (invited team max_users now token user_id email role) w =
    invite_member-WellFormed max_users now token user_id email role team w
Step-WellFormed _ _ (cancelled team user_id invitation_id) w =
    cancel_invitation-WellFormed user_id invitation_id team w
Step-WellFormed _ _ (visited team now visitor token) w =
    accept_invitation-WellFormed now visitor token team w
Step-WellFormed _ _ (confirmed team now u token) w =
    confirm_accept_invitation-WellFormed now u token team w

-- From well-formed tables, whatever requests are made, and by whom, the tables stay well formed: the
-- ids of the members are unique.
History-WellFormed : (first last : Team) → History first last → WellFormed first → WellFormed last
History-WellFormed _ _ (start team) w = w
History-WellFormed _ _ (after first last next h s) w =
    Step-WellFormed last next s (History-WellFormed first last h w)

module _ (workspace : ℕ) where
  Step-owner :
      (team next : Team)
      → Step team next
      → WellFormed team
      → has_owner workspace team.members ≡ true
      → has_owner workspace next.members ≡ true
  unfolding accept_invitation confirm_accept_invitation
  Step-owner _ _ (removed team user_id member_id) w o =
      remove_member-owner workspace user_id member_id team w.unique o
  Step-owner _ _ (changed team user_id member_id new_role) w o =
      change_role-owner workspace user_id member_id new_role team w.unique o
  Step-owner _ _ (invited team max_users now token user_id email role) w o =
      rw (members-invite_member max_users now token user_id email role team) o
  Step-owner _ _ (cancelled team user_id invitation_id) w o =
      rw (members-cancel_invitation user_id invitation_id team) o
  Step-owner _ _ (visited team now visitor token) w o =
      accept_found-owner workspace now visitor (by_token token team) team w.unique o
  Step-owner _ _ (confirmed team now u token) w o =
      accept_found-owner workspace now (some u) (by_token token team) team w.unique o

  -- From well-formed tables, a workspace that has an active owner has one after any sequence of
  -- removals, changes of a role, invitations, cancellations and acceptances, by whomever they are asked
  -- for.
  pub History-owner :
      (first last : Team)
      → History first last
      → WellFormed first
      → has_owner workspace first.members ≡ true
      → has_owner workspace last.members ≡ true
  History-owner _ _ (start team) w o = o
  History-owner _ _ (after first last next h s) w o =
      Step-owner last next s (History-WellFormed first last h w) (History-owner first last h w o)

-- ===== src/Examples/Members.antt =====
-- Instances of the theorems on app/core/permissions.py and app/core/views/members.py.
use notipus.Base.{ℕ, ◌≡◌, refl, true, [], ◌∷◌, arith}
use notipus.Billing.Plans.{codes}
use notipus.Members.Permissions.{
  Role, owner, admin, user, Member, is_owner, first_member, get_workspace_member,
}
use notipus.Members.Views.{Team, remove_member, change_role}
use notipus.Members.Owners.{has_owner}
use notipus.Members.WellFormed.{WellFormed}
use notipus.Members.History.{changed, removed, History, start, after, History-owner}
use notipus.Members.Escalation.{owners, admin_leaves_owners}

abbrev member : ℕ → ℕ → Role → Member
member id user_id role = record {
  id = id;
  user_id = user_id;
  email = codes "a@example.com";
  workspace = 7;
  role = role;
  is_active = true;
}

abbrev team : Team
team = record {
  members = member 1 10 owner ∷ member 2 11 admin ∷ member 3 12 user ∷ [];
  invitations = [];
  next_id = 4;
}

team-WellFormed : WellFormed team
team-WellFormed = record {
  unique = ((refl, (refl, tt)), ((refl, tt), (tt, tt)));
  below = (omega arith, (omega arith, (omega arith, tt)));
}

-- The owner makes the admin an owner, who then removes the first.
abbrev promoted : Team
promoted = (change_role 10 2 "owner" team).1

abbrev handed_over : Team
handed_over = (remove_member 11 1 promoted).1

abbrev handover : History team handed_over
handover =
    after team promoted handed_over
      (after team team promoted (start team) (changed team 10 2 "owner")) (removed promoted 11 1)

History-owner_example : has_owner 7 handed_over.members ≡ true
unfolding is_owner
History-owner_example = History-owner 7 team handed_over handover team-WellFormed refl

admin_leaves_owners_example :
    (owners 7 (remove_member 11 1 team).1.members ≡ owners 7 team.members)
    × (owners 7 (change_role 11 1 "user" team).1.members ≡ owners 7 team.members)
unfolding get_workspace_member first_member
admin_leaves_owners_example =
    admin_leaves_owners 7 11 1 "user" (member 2 11 admin) team team-WellFormed.unique refl refl

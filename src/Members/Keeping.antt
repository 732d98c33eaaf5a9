-- ===== src/Members/Keeping.antt =====
-- A change of a role and the acceptance of an invitation leave a workspace with an owner:
-- app/core/views/members.py.
use notipus.Base.{
  ℕ, ◌≡◌, refl, String, Bool, true, false, ◌&&◌, Option, none, some, List, [], ◌∷◌, ◌++◌, ◌==◌, ltb,
  arith, Bool-cases, inl, inr, is_some,
}
use notipus.Billing.Plans.{codes, lower, strip, same_codes}
use notipus.Members.Permissions.{Role, Member, first_member, get_workspace_member, can_change_role}
use notipus.Members.Views.{
  Invitation, Team, target_of, role_named, change_target, change_named, change_role,
}
use notipus.Members.Acceptance.{
  User, join, process_invitation_acceptance, accept_pending, accept_found,
}
use notipus.Members.Owners.{
  UniqueIds, owns, has_owner, save_member-apart, target-apart, saved-owner, change_allowed,
  target-workspace, as_admin-keeps,
}

module _ (workspace : ℕ) where
  change_target-owner :
      (user_id member_id : ℕ) (actor : Member) (new_role : Role) (found : Option Member)
      (team : Team)
      → UniqueIds team.members
      → get_workspace_member user_id team.members ≡ some actor
      → actor.is_active ≡ true
      → target_of member_id actor.workspace team.members ≡ found
      → has_owner workspace team.members ≡ true
      → has_owner workspace (change_target actor new_role found team).1.members ≡ true
  unfolding change_target target_of get_workspace_member
  change_target-owner user_id member_id actor new_role none team u a active t o = o
  change_target-owner user_id member_id actor new_role (some target) team u a active t o =
      elim (Bool-cases (target.id == actor.id)) [
        | inl self ↦ rw self o
        | inr other ↦ elim (Bool-cases (can_change_role actor target new_role)) [
          | inr may_not ↦ rw (other, may_not) o
          | inl may ↦
              rw (other, may)
                (saved-owner workspace (λ m. m.user_id == user_id && m.is_active)
                  (λ m. (m.id == member_id && (m.workspace == actor.workspace)) && m.is_active)
                  (λ m. record m { role = new_role }) actor target team.members u a t
                  (change_allowed workspace actor target new_role active
                    (target-workspace workspace member_id actor target team.members t) other may)
                  o)
        ]
      ]

  change_named-owner :
      (user_id member_id : ℕ) (actor : Member) (role : Option Role) (team : Team)
      → UniqueIds team.members
      → get_workspace_member user_id team.members ≡ some actor
      → actor.is_active ≡ true
      → has_owner workspace team.members ≡ true
      → has_owner workspace (change_named actor role member_id team).1.members ≡ true
  unfolding change_named
  change_named-owner user_id member_id actor none team u a active o = o
  change_named-owner user_id member_id actor (some role) team u a active o =
      change_target-owner user_id member_id actor role
        (target_of member_id actor.workspace team.members) team u a active refl o

  pub change_role-owner :
      (user_id member_id : ℕ) (new_role : String) (team : Team)
      → UniqueIds team.members
      → has_owner workspace team.members ≡ true
      → has_owner workspace (change_role user_id member_id new_role team).1.members ≡ true
  unfolding change_role
  change_role-owner user_id member_id new_role team u o =
      let role = role_named (strip (codes new_role)) in
      as_admin-keeps workspace user_id (λ actor t. change_named actor role member_id t) team o
        (λ actor a active. change_named-owner user_id member_id actor role team u a active o)

  has_owner-append :
      (new : Member) (ms : List Member)
      → has_owner workspace ms ≡ true
      → has_owner workspace (ms ++ new ∷ []) ≡ true
  has_owner-append new [] o = cc
  has_owner-append new (m ∷ ms) o = ground (arith, has_owner-append new ms)

  inactive-owns : (m : Member) → m.is_active ≡ false → owns workspace m ≡ false
  inactive-owns m h = ground arith

  -- Only a member that has left is changed by an invitation.
  join-owner :
      (u : User) (i : Invitation) (p : Member → Bool) (found : Option Member) (team : Team)
      → UniqueIds team.members
      → first_member p team.members ≡ found
      → has_owner workspace team.members ≡ true
      → has_owner workspace (join u i found team).members ≡ true
  unfolding join
  join-owner u i p none team unique h o = has_owner-append _ team.members o
  join-owner u i p (some m) team unique h o = elim (Bool-cases m.is_active) [
    | inl there ↦ rw there o
    | inr left ↦ rw left (
        save_member-apart workspace m.id (λ v. record v { is_active = true; role = i.role })
          team.members (target-apart workspace p m team.members unique h (inactive-owns m left) o))
  ]

  accept_pending-owner :
      (now : ℕ) (visitor : Option User) (i : Invitation) (team : Team)
      → UniqueIds team.members
      → has_owner workspace team.members ≡ true
      → has_owner workspace (accept_pending now visitor i team).1.members ≡ true
  unfolding accept_pending process_invitation_acceptance
  accept_pending-owner now none i team unique o = o
  accept_pending-owner now (some u) i team unique o =
      elim (Bool-cases (same_codes (lower u.email) (lower i.email))) [
        | inr other ↦ rw other o
        | inl same ↦ rw same (
            let mine = λ (m : Member). (m.workspace == i.workspace) && (m.user_id == u.id) in
            join-owner u i mine (first_member mine team.members) team unique refl o)
      ]

  pub accept_found-owner :
      (now : ℕ) (visitor : Option User) (found : Option Invitation) (team : Team)
      → UniqueIds team.members
      → has_owner workspace team.members ≡ true
      → has_owner workspace (accept_found now visitor found team).1.members ≡ true
  unfolding accept_found
  accept_found-owner now visitor none team unique o = o
  accept_found-owner now visitor (some i) team unique o = elim (Bool-cases (ltb i.expires_at now)) [
    | inl late ↦ rw late o
    | inr timely ↦ elim (Bool-cases (is_some i.accepted_at)) [
      | inl before ↦ rw (timely, before) o
      | inr pending ↦ rw (timely, pending) (accept_pending-owner now visitor i team unique o)
    ]
  ]

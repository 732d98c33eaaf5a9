-- ===== src/Members/Removal.antt =====
-- A removal leaves a workspace with an owner: `remove_member` of app/core/views/members.py.
use notipus.Base.{ℕ, ◌≡◌, refl, true, false, ◌&&◌, Option, none, some, ◌==◌, Bool-cases, inl, inr}
use notipus.Members.Permissions.{Member, get_workspace_member, can_remove_member}
use notipus.Members.Views.{Team, target_of, remove_target, remove_member}
use notipus.Members.Owners.{
  UniqueIds, has_owner, saved-owner, remove_allowed, target-workspace, as_admin-keeps,
}

module _ (workspace : ℕ) where
  remove_target-owner :
      (user_id member_id : ℕ) (actor : Member) (found : Option Member) (team : Team)
      → UniqueIds team.members
      → get_workspace_member user_id team.members ≡ some actor
      → actor.is_active ≡ true
      → target_of member_id actor.workspace team.members ≡ found
      → has_owner workspace team.members ≡ true
      → has_owner workspace (remove_target actor found team).1.members ≡ true
  unfolding remove_target target_of get_workspace_member
  remove_target-owner user_id member_id actor none team u a active t o = o
  remove_target-owner user_id member_id actor (some target) team u a active t o =
      elim (Bool-cases (target.id == actor.id)) [
        | inl self ↦ rw self o
        | inr other ↦ elim (Bool-cases (can_remove_member actor target)) [
          | inr may_not ↦ rw (other, may_not) o
          | inl may ↦
              rw (other, may)
                (saved-owner workspace (λ m. m.user_id == user_id && m.is_active)
                  (λ m. (m.id == member_id && (m.workspace == actor.workspace)) && m.is_active)
                  (λ m. record m { is_active = false }) actor target team.members u a t
                  (remove_allowed workspace actor target active
                    (target-workspace workspace member_id actor target team.members t) other may)
                  o)
        ]
      ]

  -- If member ids are unique, the removal of a member, asked for by anyone, leaves a workspace that has
  -- an active owner with one.
  pub remove_member-owner :
      (user_id member_id : ℕ) (team : Team)
      → UniqueIds team.members
      → has_owner workspace team.members ≡ true
      → has_owner workspace (remove_member user_id member_id team).1.members ≡ true
  unfolding remove_member
  remove_member-owner user_id member_id team u o =
      as_admin-keeps workspace user_id _ team o (λ actor a active.
        remove_target-owner user_id member_id actor
          (target_of member_id actor.workspace team.members) team u a active refl o)

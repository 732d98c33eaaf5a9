-- ===== src/Members/Escalation.antt =====
-- What an admin cannot do: `can_remove_member` and `can_change_role` of app/core/permissions.py, as
-- app/core/views/members.py uses them.
use notipus.Base.{
  ℕ, ◌≡◌, refl, ap, sym, subst, String, Bool, true, false, ◌&&◌, not, Option, none, some, List, [],
  ◌∷◌, filter, All, ◌==◌, arith, Bool-cases, inl, inr,
}
use notipus.Base.Call.{ok}
use notipus.Billing.Plans.{codes, strip}
use notipus.Members.Permissions.{
  Role, admin, Member, is_owner, manages, first_member, get_workspace_member, admin_required,
  can_remove_member, can_change_role, can_invite_user, get_remaining_seats,
}
use notipus.Members.Views.{
  Team, save_member, target_of, acting, as_admin, role_named, remove_target, remove_member,
  change_target, change_named, change_role,
}
use notipus.Members.Owners.{
  UniqueIds, owns, eq_comm, found-ne, first_member-head, first_member-tail,
}

-- A workspace has a seat left exactly if it may invite.
seats_left :
    (max_users : Option ℕ) (workspace : ℕ) (ms : List Member)
    → can_invite_user max_users workspace ms ≡ not (get_remaining_seats max_users workspace ms == 0)
unfolding can_invite_user get_remaining_seats
seats_left max_users workspace ms = ground arith

id_refl : (n : ℕ) → (n == n) ≡ true
id_refl n = ground arith

save_member-none :
    (id : ℕ) (f : Member → Member) (ms : List Member)
    → All (λ v. (v.id == id) ≡ false) ms
    → save_member id f ms ≡ ms
unfolding save_member
save_member-none id f [] n = refl
save_member-none id f (m ∷ ms) n = rw (n.0, save_member-none id f ms n.1)

abbrev pub owners : ℕ → List Member → List Member
owners workspace = filter (owns workspace)

module _ (workspace : ℕ) where
  owners-skip :
      (m : Member) (ms : List Member)
      → owns workspace m ≡ false
      → owners workspace (m ∷ ms) ≡ owners workspace ms
  owners-skip m ms h = rw h

  owners-cons :
      (m : Member) (xs ys : List Member)
      → owners workspace xs ≡ owners workspace ys
      → owners workspace (m ∷ xs) ≡ owners workspace (m ∷ ys)
  owners-cons m xs ys h = ground (arith, h)

  own_row :
      (f : Member → Member) (t : Member) (ms : List Member)
      → All (λ v. (v.id == t.id) ≡ false) ms
      → owns workspace t ≡ false
      → owns workspace (f t) ≡ false
      → owners workspace (save_member t.id f (t ∷ ms)) ≡ owners workspace (t ∷ ms)
  unfolding save_member
  own_row f t ms a n n' = rw (id_refl t.id, save_member-none t.id f ms a, n', n)

  -- The save of a row that is no owner's, before and after, leaves the owners.
  saved-owners :
      (p : Member → Bool) (f : Member → Member) (t : Member) (ms : List Member)
      → UniqueIds ms
      → first_member p ms ≡ some t
      → owns workspace t ≡ false
      → owns workspace (f t) ≡ false
      → owners workspace (save_member t.id f ms) ≡ owners workspace ms
  unfolding save_member
  saved-owners p f t [] u h n n' = refl
  saved-owners p f t (m ∷ ms) u h n n' = elim (Bool-cases (p m)) [
    | inl hit ↦
        let same = first_member-head workspace p m t ms h hit in
        subst (λ x. owners workspace (save_member t.id f (x ∷ ms)) ≡ owners workspace (x ∷ ms))
          (sym same)
          (own_row f t ms (subst (λ x. All (λ v. (v.id == x.id) ≡ false) ms) same u.0) n n')
    | inr miss ↦
        let later = first_member-tail workspace p m t ms h miss in
        rw (eq_comm m.id t.id, found-ne workspace p m.id t ms later u.0)
          (owners-cons m (save_member t.id f ms) ms (saved-owners p f t ms u.1 later n n'))
  ]

  not_owner : (m : Member) → is_owner m.role ≡ false → owns workspace m ≡ false
  not_owner m h = ground arith

  remove_lawful :
      (actor target : Member)
      → actor.role ≡ admin
      → can_remove_member actor target ≡ true
      → is_owner target.role ≡ false
  unfolding can_remove_member is_owner manages
  remove_lawful actor target a c = ground arith

  change_lawful :
      (actor target : Member) (new_role : Role)
      → actor.role ≡ admin
      → can_change_role actor target new_role ≡ true
      → (is_owner target.role ≡ false) × (is_owner new_role ≡ false)
  unfolding can_change_role is_owner manages
  change_lawful actor target new_role a c = ground arith

  remove_target-owners :
      (member_id : ℕ) (actor : Member) (found : Option Member) (team : Team)
      → UniqueIds team.members
      → actor.role ≡ admin
      → target_of member_id actor.workspace team.members ≡ found
      → owners workspace (remove_target actor found team).1.members ≡ owners workspace team.members
  unfolding remove_target target_of
  remove_target-owners member_id actor none team u a t = refl
  remove_target-owners member_id actor (some target) team u a t =
      elim (Bool-cases (target.id == actor.id)) [
        | inl self ↦ rw self
        | inr other ↦ elim (Bool-cases (can_remove_member actor target)) [
          | inr may_not ↦ rw (other, may_not)
          | inl may ↦
              rw (other, may)
                (saved-owners
                  (λ m. (m.id == member_id && (m.workspace == actor.workspace)) && m.is_active)
                  (λ m. record m { is_active = false }) target team.members u t
                  (not_owner target (remove_lawful actor target a may))
                  (not_owner (record target { is_active = false })
                    (remove_lawful actor target a may)))
        ]
      ]

  change_target-owners :
      (member_id : ℕ) (actor : Member) (new_role : Role) (found : Option Member) (team : Team)
      → UniqueIds team.members
      → actor.role ≡ admin
      → target_of member_id actor.workspace team.members ≡ found
      → owners workspace (change_target actor new_role found team).1.members
        ≡ owners workspace team.members
  unfolding change_target target_of
  change_target-owners member_id actor new_role none team u a t = refl
  change_target-owners member_id actor new_role (some target) team u a t =
      elim (Bool-cases (target.id == actor.id)) [
        | inl self ↦ rw self
        | inr other ↦ elim (Bool-cases (can_change_role actor target new_role)) [
          | inr may_not ↦ rw (other, may_not)
          | inl may ↦
              rw (other, may)
                (saved-owners
                  (λ m. (m.id == member_id && (m.workspace == actor.workspace)) && m.is_active)
                  (λ m. record m { role = new_role }) target team.members u t
                  (not_owner target (change_lawful actor target new_role a may).0)
                  (not_owner (record target { role = new_role })
                    (change_lawful actor target new_role a may).1))
        ]
      ]

  change_named-owners :
      (member_id : ℕ) (actor : Member) (role : Option Role) (team : Team)
      → UniqueIds team.members
      → actor.role ≡ admin
      → owners workspace (change_named actor role member_id team).1.members
        ≡ owners workspace team.members
  unfolding change_named
  change_named-owners member_id actor none team u a = refl
  change_named-owners member_id actor (some role) team u a =
      change_target-owners member_id actor role (target_of member_id actor.workspace team.members)
        team u a refl

  admin_acts :
      (user_id : ℕ) (actor : Member) (team : Team)
      → get_workspace_member user_id team.members ≡ some actor
      → actor.role ≡ admin
      → acting user_id team ≡ ok actor
  unfolding admin_required manages
  admin_acts user_id actor team h a = rw (h, ap manages a)

  -- If member ids are unique, a removal or a change of a role that an admin asks for leaves the active
  -- owners of every workspace as they were: an admin neither makes nor unmakes an owner.
  pub admin_leaves_owners :
      (user_id member_id : ℕ) (new_role : String) (actor : Member) (team : Team)
      → UniqueIds team.members
      → get_workspace_member user_id team.members ≡ some actor
      → actor.role ≡ admin
      → (owners workspace (remove_member user_id member_id team).1.members
          ≡ owners workspace team.members)
        × (owners workspace (change_role user_id member_id new_role team).1.members
            ≡ owners workspace team.members)
  unfolding remove_member change_role as_admin
  admin_leaves_owners user_id member_id new_role actor team u h a = (
    rw (admin_acts user_id actor team h a) (
        remove_target-owners member_id actor (target_of member_id actor.workspace team.members) team
          u a refl),
    rw (admin_acts user_id actor team h a)
        (change_named-owners member_id actor (role_named (strip (codes new_role))) team u a),
  )

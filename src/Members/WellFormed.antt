-- ===== src/Members/WellFormed.antt =====
-- The rows of the members keep their ids apart, under every view of app/core/views/members.py.
pub mod Invitations
use notipus.Base.{
  ℕ, suc, ◌+◌, ◌≡◌, ◌<◌, refl, String, Bool, true, false, ◌&&◌, not, Option, none, some, List, [],
  ◌∷◌, ◌++◌, any, All, ◌==◌, ltb, arith, Bool-cases, Option-cases, inl, inr, is_some, if◌then◌else◌,
}
use notipus.Base.Call.{Outcome, ok, raised}
use notipus.Billing.Plans.{codes, lower, strip, same_codes}
use notipus.Members.Permissions.{
  Role, Member, is_owner, first_member, Reply, log_in, admin_required, can_remove_member,
  can_change_role, can_invite_user,
}
use notipus.Members.Views.{
  Invitation, Team, save_member, as_admin, acting, target_of, role_named, delete_invitation,
  first_invitation, remove_target, remove_member, change_target, change_named, change_role,
  create_invitation, replace_expired, invite_checked, invite_named, invite_member, pending_for,
}
use notipus.Members.Acceptance.{
  User, join, process_invitation_acceptance, accept_pending, accept_found, accept_invitation,
  confirm_accept_invitation, cancel_found, cancel_invitation, by_token,
}
use notipus.Members.Owners.{UniqueIds}

-- Ids are unique, and below the one that comes next.
pub record WellFormed (team : Team) : Type 0 where
  pub unique : UniqueIds team.members
  pub below : All (λ m. m.id < team.next_id) team.members

save_member-All :
    (P : ℕ → Type 0) (id : ℕ) (f : Member → Member) (ms : List Member)
    → ((m : Member) → (f m).id ≡ m.id)
    → All (λ m. P m.id) ms
    → All (λ m. P m.id) (save_member id f ms)
unfolding save_member
save_member-All P id f [] keep a = tt
save_member-All P id f (m ∷ ms) keep a = elim (Bool-cases (m.id == id)) [
  | inl hit ↦ rw (hit, keep m) (a.0, save_member-All P id f ms keep a.1)
  | inr miss ↦ rw miss (a.0, save_member-All P id f ms keep a.1)
]

save_member-UniqueIds :
    (id : ℕ) (f : Member → Member) (ms : List Member)
    → ((m : Member) → (f m).id ≡ m.id)
    → UniqueIds ms
    → UniqueIds (save_member id f ms)
unfolding save_member
save_member-UniqueIds id f [] keep u = tt
save_member-UniqueIds id f (m ∷ ms) keep u = elim (Bool-cases (m.id == id)) [
  | inl hit ↦
      rw (hit, keep m)
        (
          save_member-All (λ i. (i == m.id) ≡ false) id f ms keep u.0,
          save_member-UniqueIds id f ms keep u.1,
        )
  | inr miss ↦ rw miss (
    save_member-All (λ i. (i == m.id) ≡ false) id f ms keep u.0,
    save_member-UniqueIds id f ms keep u.1,
  )
]

pub saved-WellFormed :
    (id : ℕ) (f : Member → Member) (team : Team)
    → ((m : Member) → (f m).id ≡ m.id)
    → WellFormed team
    → WellFormed (record team { members = save_member id f team.members })
saved-WellFormed id f team keep w = record {
  unique = save_member-UniqueIds id f team.members keep w.unique;
  below = save_member-All (λ i. i < team.next_id) id f team.members keep w.below;
}

pub below-suc : (n : ℕ) (ms : List Member) → All (λ m. m.id < n) ms → All (λ m. m.id < suc n) ms
below-suc n [] a = tt
below-suc n (m ∷ ms) a = (omega arith, below-suc n ms a.1)

pub below-append :
    (n : ℕ) (new : Member) (ms : List Member)
    → new.id ≡ n
    → All (λ m. m.id < n) ms
    → All (λ m. m.id < suc n) (ms ++ new ∷ [])
below-append n new [] e a = (omega arith, tt)
below-append n new (m ∷ ms) e a = (omega arith, below-append n new ms e a.1)

ne-append :
    (id : ℕ) (new : Member) (ms : List Member)
    → (new.id == id) ≡ false
    → All (λ m. (m.id == id) ≡ false) ms
    → All (λ m. (m.id == id) ≡ false) (ms ++ new ∷ [])
ne-append id new [] n a = (n, tt)
ne-append id new (m ∷ ms) n a = (a.0, ne-append id new ms n a.1)

pub unique-append :
    (n : ℕ) (new : Member) (ms : List Member)
    → new.id ≡ n
    → All (λ m. m.id < n) ms
    → UniqueIds ms
    → UniqueIds (ms ++ new ∷ [])
unique-append n new [] e a u = (tt, tt)
unique-append n new (m ∷ ms) e a u =
    (ne-append m.id new ms (ground arith) u.0, unique-append n new ms e a.1 u.1)

pub as_admin-WellFormed :
    (r : Outcome Reply Member) (view : Member → Team → Reply × Team) (team : Team)
    → WellFormed team
    → ((actor : Member) → WellFormed (view actor team).1)
    → WellFormed (as_admin r view team).1
unfolding as_admin
as_admin-WellFormed (ok actor) view team w h = h actor
as_admin-WellFormed (raised reply) view team w h = w

remove_target-WellFormed :
    (actor : Member) (found : Option Member) (team : Team)
    → WellFormed team
    → WellFormed (remove_target actor found team).1
unfolding remove_target
remove_target-WellFormed actor none team w = w
remove_target-WellFormed actor (some target) team w = elim (Bool-cases (target.id == actor.id)) [
  | inl self ↦ rw self w
  | inr other ↦ elim (Bool-cases (can_remove_member actor target)) [
    | inr may_not ↦ rw (other, may_not) w
    | inl may ↦
        rw (other, may)
          (saved-WellFormed target.id (λ m. record m { is_active = false }) team (λ m. refl) w)
  ]
]

change_target-WellFormed :
    (actor : Member) (new_role : Role) (found : Option Member) (team : Team)
    → WellFormed team
    → WellFormed (change_target actor new_role found team).1
unfolding change_target
change_target-WellFormed actor new_role none team w = w
change_target-WellFormed actor new_role (some target) team w =
    elim (Bool-cases (target.id == actor.id)) [
      | inl self ↦ rw self w
      | inr other ↦ elim (Bool-cases (can_change_role actor target new_role)) [
        | inr may_not ↦ rw (other, may_not) w
        | inl may ↦
            rw (other, may)
              (saved-WellFormed target.id (λ m. record m { role = new_role }) team (λ m. refl) w)
      ]
    ]

pub remove_member-WellFormed :
    (user_id member_id : ℕ) (team : Team)
    → WellFormed team
    → WellFormed (remove_member user_id member_id team).1
unfolding remove_member
remove_member-WellFormed user_id member_id team w =
    as_admin-WellFormed (acting user_id team)
      (λ actor t. remove_target actor (target_of member_id actor.workspace t.members) t) team w
      (λ actor.
        remove_target-WellFormed actor (target_of member_id actor.workspace team.members) team w)

change_named-WellFormed :
    (actor : Member) (role : Option Role) (member_id : ℕ) (team : Team)
    → WellFormed team
    → WellFormed (change_named actor role member_id team).1
unfolding change_named
change_named-WellFormed actor none member_id team w = w
change_named-WellFormed actor (some role) member_id team w =
    change_target-WellFormed actor role (target_of member_id actor.workspace team.members) team w

pub change_role-WellFormed :
    (user_id member_id : ℕ) (new_role : String) (team : Team)
    → WellFormed team
    → WellFormed (change_role user_id member_id new_role team).1
unfolding change_role
change_role-WellFormed user_id member_id new_role team w =
    let role = role_named (strip (codes new_role)) in
    as_admin-WellFormed (acting user_id team) (λ actor t. change_named actor role member_id t) team
      w (λ actor. change_named-WellFormed actor role member_id team w)

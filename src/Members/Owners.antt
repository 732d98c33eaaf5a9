-- ===== src/Members/Owners.antt =====
-- A workspace keeps an owner: no view of app/core/views/members.py leaves a workspace that has an active
-- owner without one.
use notipus.Base.{
  ℕ, ◌≡◌, subst, ◌∙◌, Bool, true, false, ◌&&◌, not, some, List, [], ◌∷◌, any, All, ◌==◌, arith,
  Bool-cases, Option-cases, inl, inr,
}
use notipus.Members.Permissions.{
  Role, Member, is_owner, manages, first_member, get_workspace_member, Reply, admin_required,
  can_remove_member, can_change_role,
}
use notipus.Members.Views.{Team, save_member, target_of, as_admin, acting}

abbrev pub UniqueIds : List Member → Type 0
UniqueIds [] = Unit
UniqueIds (m ∷ ms) = All (λ v. (v.id == m.id) ≡ false) ms × UniqueIds ms

-- An active owner of a workspace.
abbrev pub owns : ℕ → Member → Bool
owns workspace m = ((m.workspace == workspace) && m.is_active) && is_owner m.role

abbrev pub has_owner : ℕ → List Member → Bool
has_owner workspace = any (owns workspace)

-- One whose row is not the one with an id.
abbrev pub apart : ℕ → ℕ → Member → Bool
apart workspace id m = owns workspace m && not (m.id == id)

pub eq_comm : (a b : ℕ) → (a == b) ≡ (b == a)
eq_comm a b = ground arith

module _ (workspace : ℕ) where
  -- An owner apart from the row survives a save of the row.
  pub save_member-apart :
      (id : ℕ) (f : Member → Member) (ms : List Member)
      → any (apart workspace id) ms ≡ true
      → has_owner workspace (save_member id f ms) ≡ true
  unfolding save_member
  save_member-apart id f [] h = h
  save_member-apart id f (m ∷ ms) h = ground (arith, save_member-apart id f ms)

  -- The member that acts is an owner apart from any other row.
  actor-apart :
      (p : Member → Bool) (id : ℕ) (a : Member) (ms : List Member)
      → first_member p ms ≡ some a
      → apart workspace id a ≡ true
      → any (apart workspace id) ms ≡ true
  unfolding first_member
  actor-apart p id a [] h o = cc
  actor-apart p id a (m ∷ ms) h o = ground (arith, actor-apart p id a ms)

  none-has_id :
      (id : ℕ) (ms : List Member)
      → All (λ v. (v.id == id) ≡ false) ms
      → has_owner workspace ms ≡ true
      → any (apart workspace id) ms ≡ true
  none-has_id id [] n h = h
  none-has_id id (m ∷ ms) n h = ground (arith, none-has_id id ms)

  pub found-ne :
      (p : Member → Bool) (id : ℕ) (t : Member) (ms : List Member)
      → first_member p ms ≡ some t
      → All (λ v. (v.id == id) ≡ false) ms
      → (t.id == id) ≡ false
  unfolding first_member
  found-ne p id t [] h n = cc
  found-ne p id t (m ∷ ms) h n = ground (arith, found-ne p id t ms)

  pub first_member-head :
      (p : Member → Bool) (m t : Member) (ms : List Member)
      → first_member p (m ∷ ms) ≡ some t
      → p m ≡ true
      → m ≡ t
  unfolding first_member
  first_member-head p m t ms h hit = ground arith

  pub first_member-tail :
      (p : Member → Bool) (m t : Member) (ms : List Member)
      → first_member p (m ∷ ms) ≡ some t
      → p m ≡ false
      → first_member p ms ≡ some t
  unfolding first_member
  first_member-tail p m t ms h miss = ground arith

  apart-head :
      (id : ℕ) (m : Member) (ms : List Member)
      → has_owner workspace (m ∷ ms) ≡ true
      → (m.id == id) ≡ false
      → (has_owner workspace ms ≡ true → any (apart workspace id) ms ≡ true)
      → any (apart workspace id) (m ∷ ms) ≡ true
  apart-head id m ms o n later = ground arith

  apart-tail :
      (id : ℕ) (m : Member) (ms : List Member)
      → any (apart workspace id) ms ≡ true
      → any (apart workspace id) (m ∷ ms) ≡ true
  apart-tail id m ms h = ground arith

  owner-tail :
      (m : Member) (ms : List Member)
      → has_owner workspace (m ∷ ms) ≡ true
      → owns workspace m ≡ false
      → has_owner workspace ms ≡ true
  owner-tail m ms o n = ground arith

  -- A row that was found and is no owner's is not the one of the owner that there is.
  pub target-apart :
      (p : Member → Bool) (t : Member) (ms : List Member)
      → UniqueIds ms
      → first_member p ms ≡ some t
      → owns workspace t ≡ false
      → has_owner workspace ms ≡ true
      → any (apart workspace t.id) ms ≡ true
  unfolding first_member
  target-apart p t [] u h n o = cc
  target-apart p t (m ∷ ms) u h n o = elim (Bool-cases (p m)) [
    | inl hit ↦
        let same = first_member-head p m t ms h hit in
        apart-tail t.id m ms (
          none-has_id t.id ms (subst (λ x. All (λ v. (v.id == x.id) ≡ false) ms) same u.0)
            (owner-tail m ms o (rw same n)))
    | inr miss ↦
        let later = first_member-tail p m t ms h miss in
        apart-head t.id m ms o (eq_comm m.id t.id ∙ found-ne p m.id t ms later u.0)
          (target-apart p t ms u.1 later n)
  ]

  first_member-found :
      (p : Member → Bool) (ms : List Member) (m : Member) → first_member p ms ≡ some m → p m ≡ true
  unfolding first_member
  first_member-found p [] m h = cc
  first_member-found p (v ∷ ms) m h = ground (arith, first_member-found p ms m)

  -- Where only an apart owner may touch an owner's row, a save of the row leaves an owner.
  pub saved-owner :
      (p q : Member → Bool) (f : Member → Member) (actor target : Member) (ms : List Member)
      → UniqueIds ms
      → first_member p ms ≡ some actor
      → first_member q ms ≡ some target
      → (owns workspace target ≡ true → apart workspace target.id actor ≡ true)
      → has_owner workspace ms ≡ true
      → has_owner workspace (save_member target.id f ms) ≡ true
  saved-owner p q f actor target ms u a t allowed o =
      save_member-apart target.id f ms (elim (Bool-cases (owns workspace target)) [
        | inl theirs ↦ actor-apart p target.id actor ms a (allowed theirs)
        | inr other ↦ target-apart q target ms u t other o
      ])

  pub remove_allowed :
      (actor target : Member)
      → actor.is_active ≡ true
      → (target.workspace == actor.workspace) ≡ true
      → (target.id == actor.id) ≡ false
      → can_remove_member actor target ≡ true
      → owns workspace target ≡ true
      → apart workspace target.id actor ≡ true
  unfolding can_remove_member is_owner manages
  remove_allowed actor target a w n c o = ground arith

  pub change_allowed :
      (actor target : Member) (new_role : Role)
      → actor.is_active ≡ true
      → (target.workspace == actor.workspace) ≡ true
      → (target.id == actor.id) ≡ false
      → can_change_role actor target new_role ≡ true
      → owns workspace target ≡ true
      → apart workspace target.id actor ≡ true
  unfolding can_change_role is_owner manages
  change_allowed actor target new_role a w n c o = ground arith

  pub target-workspace :
      (member_id : ℕ) (actor target : Member) (ms : List Member)
      → target_of member_id actor.workspace ms ≡ some target
      → (target.workspace == actor.workspace) ≡ true
  unfolding target_of
  target-workspace member_id actor target ms h =
      let found =
        first_member-found
          (λ m. (m.id == member_id && (m.workspace == actor.workspace)) && m.is_active) ms target
          h in
      ground arith

  pub as_admin-keeps :
      (user_id : ℕ) (view : Member → Team → Reply × Team) (team : Team)
      → has_owner workspace team.members ≡ true
      → ((actor : Member)
          → get_workspace_member user_id team.members ≡ some actor
          → actor.is_active ≡ true
          → has_owner workspace (view actor team).1.members ≡ true)
      → has_owner workspace (as_admin (acting user_id team) view team).1.members ≡ true
  unfolding as_admin admin_required get_workspace_member
  as_admin-keeps user_id view team o keeps =
      elim (Option-cases (get_workspace_member user_id team.members)) [
        | inl outsider ↦ rw outsider o
        | inr (actor, h) ↦
            let found =
              first_member-found (λ m. m.user_id == user_id && m.is_active) team.members actor h in
            elim (Bool-cases (manages actor.role)) [
              | inl may ↦ rw (h, may) (keeps actor h (ground arith))
              | inr may_not ↦ rw (h, may_not) o
            ]
      ]

-- ===== src/Billing/Rows.antt =====
-- Lemmas on the rows of the workspace table: what an update leaves of the rows that it finds, and of
-- those that it does not.
use notipus.Base.{
  ℕ, ◌≡◌, refl, ap, subst, Bool, true, false, not, some, [], ◌∷◌, filter, ◌==◌, arith, All, ltb,
  Bool-cases, inl, inr, if◌then◌else◌,
}
use mathlib.Core.Option
use notipus.Billing.Workspaces.{Workspace, Table, update_where, first_where, count_where}
use notipus.Billing.Sync.{by_id}

-- No two rows have one id: it is the primary key.
abbrev pub UniqueIds : Table → Type 0
UniqueIds [] = Unit
UniqueIds (w ∷ ws) = All (λ v. (v.id == w.id) ≡ false) ws × UniqueIds ws

abbrev pub others : (Workspace → Bool) → Table → Table
others p = filter (λ w. not (p w))

eq_comm : (a b : ℕ) → (a == b) ≡ (b == a)
eq_comm a b = ground arith

-- An optional change keeps what the change keeps.
kept-if {ℓ} :
    {A : Type ℓ} (g : Workspace → A) (b : Bool) (f : Workspace → Workspace) (w : Workspace)
    → g (f w) ≡ g w
    → g (if b then f w else w) ≡ g w
kept-if g true f w h = h
kept-if g false f w h = refl

module _ (p : Workspace → Bool) where
  -- An update that does not touch what a query asks is seen by the query.
  pub first_where-update_where :
      (q : Workspace → Bool) (f : Workspace → Workspace) (ws : Table)
      → ((w : Workspace) → p (f w) ≡ p w)
      → first_where p (update_where q f ws)
        ≡ Option.map (λ w. if q w then f w else w) (first_where p ws)
  unfolding first_where update_where
  first_where-update_where q f [] keep = refl
  first_where-update_where q f (w ∷ ws) keep =
      rw (kept-if p (q w) f w (keep w)) (elim (Bool-cases (p w)) [
        | inl here ↦ rw here
        | inr later ↦ rw later (first_where-update_where q f ws keep)
      ])

  first_where-head :
      (v w : Workspace) (ws : Table) → first_where p (v ∷ ws) ≡ some w → p v ≡ true → v ≡ w
  unfolding first_where
  first_where-head v w ws h hit = ground arith

  first_where-tail :
      (v w : Workspace) (ws : Table)
      → first_where p (v ∷ ws) ≡ some w
      → p v ≡ false
      → first_where p ws ≡ some w
  unfolding first_where
  first_where-tail v w ws h miss = ground arith

  first_where-ne :
      (id : ℕ) (w : Workspace) (ws : Table)
      → first_where p ws ≡ some w
      → All (λ v. (v.id == id) ≡ false) ws
      → (w.id == id) ≡ false
  unfolding first_where
  first_where-ne id w [] h n = cc
  first_where-ne id w (v ∷ ws) h n = ground (arith, first_where-ne id w ws)

  pub first_where-found : (ws : Table) (w : Workspace) → first_where p ws ≡ some w → p w ≡ true
  unfolding first_where
  first_where-found [] w h = cc
  first_where-found (v ∷ ws) w h = ground (arith, first_where-found ws w)

  pub count_where-found :
      (ws : Table) (w : Workspace) → first_where p ws ≡ some w → ltb 0 (count_where p ws) ≡ true
  unfolding first_where count_where
  count_where-found [] w h = cc
  count_where-found (v ∷ ws) w h = ground (arith, count_where-found ws w)

pub update_where-none :
    (id : ℕ) (f : Workspace → Workspace) (ws : Table)
    → All (λ v. (v.id == id) ≡ false) ws
    → update_where (by_id id) f ws ≡ ws
unfolding update_where
update_where-none id f [] n = refl
update_where-none id f (v ∷ ws) n = rw (n.0, update_where-none id f ws n.1)

All-update_where :
    (id : ℕ) (q : Workspace → Bool) (f : Workspace → Workspace) (ws : Table)
    → ((w : Workspace) → (f w).id ≡ w.id)
    → All (λ v. (v.id == id) ≡ false) ws
    → All (λ v. (v.id == id) ≡ false) (update_where q f ws)
unfolding update_where
All-update_where id q f [] keep n = tt
All-update_where id q f (v ∷ ws) keep n =
    (ground (arith, keep v), All-update_where id q f ws keep n.1)

-- Updates keep the ids apart.
pub UniqueIds-update_where :
    (q : Workspace → Bool) (f : Workspace → Workspace) (ws : Table)
    → ((w : Workspace) → (f w).id ≡ w.id)
    → UniqueIds ws
    → UniqueIds (update_where q f ws)
unfolding update_where
UniqueIds-update_where q f [] keep u = tt
UniqueIds-update_where q f (v ∷ ws) keep u = (
  rw (kept-if (λ w. w.id) (q v) f v (keep v)) (All-update_where v.id q f ws keep u.0),
  UniqueIds-update_where q f ws keep u.1,
)

module _ (p : Workspace → Bool) where
  -- An update of the rows that pass a test leaves the others.
  pub others-update_where :
      (f : Workspace → Workspace) (ws : Table)
      → ((w : Workspace) → p (f w) ≡ p w)
      → others p (update_where p f ws) ≡ others p ws
  unfolding update_where
  others-update_where f [] keep = refl
  others-update_where f (w ∷ ws) keep = elim (Bool-cases (p w)) [
    | inl hit ↦ rw (hit, keep w, hit) (others-update_where f ws keep)
    | inr miss ↦ rw (miss, miss) (ap (λ l. w ∷ l) (others-update_where f ws keep))
  ]

  -- So does an update by the id of a row that passes it.
  pub others-update_by_id :
      (w : Workspace) (f : Workspace → Workspace) (ws : Table)
      → ((v : Workspace) → p (f v) ≡ p v)
      → UniqueIds ws
      → first_where p ws ≡ some w
      → others p (update_where (by_id w.id) f ws) ≡ others p ws
  unfolding update_where
  others-update_by_id w f [] keep u h = refl
  others-update_by_id w f (v ∷ ws) keep u h =
      rw (kept-if p (by_id w.id v) f v (keep v)) (elim (Bool-cases (p v)) [
        | inl hit ↦ rw (hit) (
            ap (others p) (
              update_where-none w.id f ws (
                subst (λ x. All (λ y. (y.id == x.id) ≡ false) ws) (first_where-head p v w ws h hit)
                  u.0)))
        | inr miss ↦
            rw
              (
                miss,
                eq_comm v.id w.id,
                first_where-ne p v.id w ws (first_where-tail p v w ws h miss) u.0,
              )
              (ap (λ l. v ∷ l)
                (others-update_by_id w f ws keep u.1 (first_where-tail p v w ws h miss)))
      ])

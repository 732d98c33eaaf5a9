-- ===== src/Billing/Checkout.antt =====
-- What a completed checkout may write: `handle_checkout_completed` of app/webhooks/services/billing.py,
-- whose metadata the buyer can influence.
use notipus.Base.{
  ℕ, ◌≡◌, ◌⊎◌, refl, ap, sym, ◌∙◌, String, Bool, true, false, not, ◌||◌, Option, none, some, List,
  [], ◌∷◌, filter, arith, contains, eq_refl, ltb, Bool-cases, Option-cases, inl, inr, str_eq,
  non_empty,
}
use notipus.Billing.Workspaces.{Workspace, Table, update_where, count_where, of_customer}
use notipus.Billing.Plans.{
  valid_plan_keys, codes, key_of, lower, strip, remove_from, normalize_plan_name,
}
use notipus.Billing.Sync.{Stripe, World, synced, or_else}
use notipus.Billing.Handlers.{
  CheckoutSession, plan_of_metadata, write_checkout, rows_of_checkout, checkout_completed,
  sync_if_found,
}
use notipus.Billing.Rows.{UniqueIds, others, UniqueIds-update_where}
use notipus.Billing.Tenants.{synced-others}

key_of-valid :
    (keys : List String) (xs : List ℕ) (key : String)
    → key_of keys xs ≡ some key
    → contains key keys ≡ true
unfolding key_of contains
key_of-valid [] xs key h = cc
key_of-valid (k ∷ keys) xs key h = ground (arith, key_of-valid keys xs key, eq_refl key)

normalized-valid :
    (name key : String) → normalize_plan_name name ≡ some key → contains key valid_plan_keys ≡ true
unfolding normalize_plan_name
normalized-valid name key h =
    key_of-valid valid_plan_keys
      (strip
        (remove_from (codes " plan") 0 (remove_from (codes "notipus ") 0 (lower (codes name)))))
      key h

-- A plan that is read from the metadata of a checkout is one of the four that there are.
plan_of_metadata-valid :
    (raw_plan_name : Option String) (plan_name : String)
    → plan_of_metadata raw_plan_name ≡ some plan_name
    → contains plan_name valid_plan_keys ≡ true
unfolding plan_of_metadata
plan_of_metadata-valid raw_plan_name plan_name h = elim (Option-cases (non_empty raw_plan_name)) [
  | inl missing ↦ cc (rw (plan_of_metadata, missing) at h)
  | inr (name, given) ↦ normalized-valid name plan_name (rw (plan_of_metadata, given) at h)
]

-- The workspaces that no checkout of a customer may touch: those of another customer.
abbrev pub own_or_free : String → Workspace → Bool
own_or_free customer_id w = of_customer customer_id w || str_eq w.stripe_customer_id ""

write-id : (session : CheckoutSession) (w : Workspace) → (write_checkout session w).id ≡ w.id
unfolding write_checkout
write-id session w = refl

module _ (customer_id : String) where
  row-own_or_free :
      (workspace_id : Option ℕ) (w : Workspace)
      → own_or_free customer_id w ≡ false
      → rows_of_checkout workspace_id customer_id w ≡ false
  unfolding rows_of_checkout
  row-own_or_free none w h = ground arith
  row-own_or_free (some id) w h = ground arith

  others-claim :
      (q : Workspace → Bool) (f : Workspace → Workspace) (ws : Table)
      → ((w : Workspace) → own_or_free customer_id w ≡ false → q w ≡ false)
      → ((w : Workspace) → (f w).stripe_customer_id ≡ customer_id)
      → others (own_or_free customer_id) (update_where q f ws) ≡ others (own_or_free customer_id) ws
  unfolding update_where
  others-claim q f [] within claims = refl
  others-claim q f (w ∷ ws) within claims = elim (Bool-cases (own_or_free customer_id w)) [
    | inr foreign ↦
        rw (within w foreign, foreign) (ap (λ l. w ∷ l) (others-claim q f ws within claims))
    | inl near ↦ elim (Bool-cases (q w)) [
      | inl claimed ↦
          rw (claimed, claims w, eq_refl customer_id, near) (others-claim q f ws within claims)
      | inr left ↦ rw (left, near) (others-claim q f ws within claims)
    ]
  ]

  -- A sync of the customer leaves them too.
  others-near :
      (ws : Table)
      → others (own_or_free customer_id) ws
        ≡ filter (λ w. not (str_eq w.stripe_customer_id "")) (others (of_customer customer_id) ws)
  others-near [] = refl
  others-near (w ∷ ws) = elim (Bool-cases (of_customer customer_id w)) [
    | inl own ↦ rw own (others-near ws)
    | inr other ↦ elim (Bool-cases (str_eq w.stripe_customer_id "")) [
      | inl free ↦ rw (other, free) (others-near ws)
      | inr taken ↦ rw (other, taken) (ap (λ l. w ∷ l) (others-near ws))
    ]
  ]

  synced-foreign :
      {S : Type 0} (stripe : Stripe) (found : Bool) (world : World S)
      → UniqueIds world.table
      → others (own_or_free customer_id) (sync_if_found stripe customer_id found world).table
        ≡ others (own_or_free customer_id) world.table
  unfolding sync_if_found
  synced-foreign stripe false world u = refl
  synced-foreign stripe true world u =
      others-near (synced stripe customer_id world).table
      ∙ ap (filter (λ w. not (str_eq w.stripe_customer_id "")))
          (synced-others customer_id stripe world u)
      ∙ sym (others-near world.table)

  -- If ids are unique, a completed checkout of a customer, whatever its metadata say, leaves every
  -- workspace of another customer as it was.
  pub forged_checkout_harmless :
      {S : Type 0} (stripe : Stripe) (session : CheckoutSession) (world : World S)
      → UniqueIds world.table
      → others (own_or_free customer_id) (checkout_completed stripe customer_id session world).table
        ≡ others (own_or_free customer_id) world.table
  unfolding checkout_completed
  forged_checkout_harmless stripe session world u =
      let rows =
        rows_of_checkout (or_else session.workspace_id session.organization_id) customer_id in
      let write =
        λ (w : Workspace). record (write_checkout session w) { stripe_customer_id = customer_id } in
      synced-foreign stripe (ltb 0 (count_where rows world.table))
        (record world { table = update_where rows write world.table })
        (UniqueIds-update_where rows write world.table (write-id session) u)
      ∙ others-claim rows write world.table
          (row-own_or_free (or_else session.workspace_id session.organization_id)) (λ w. refl)

-- A completed checkout, whatever plan its metadata name, gives a workspace one of the four plans that
-- there are, or leaves its plan as it was.
written_plan :
    (session : CheckoutSession) (w : Workspace)
    → (contains (write_checkout session w).subscription_plan valid_plan_keys ≡ true)
      ⊎ ((write_checkout session w).subscription_plan ≡ w.subscription_plan)
unfolding write_checkout
written_plan session w = elim (Option-cases (plan_of_metadata session.plan_name)) [
  | inl missing ↦ inr (rw missing)
  | inr (plan_name, given) ↦
      inl (rw given (plan_of_metadata-valid session.plan_name plan_name given))
]

-- ===== src/Delivery/Sending.antt =====
-- What the two ways of delivery have in common, and what a failed one leaves.
use notipus.Base.{
  ℕ, String, ◌≡◌, refl, ap, Bool, true, false, Option, none, some, List, [], ◌∷◌, ◌++◌, arith,
  if◌then◌else◌, ◌∙◌, sym,
}
use notipus.Base.Json.{Fields, text, put}
use notipus.Base.Call.{Outcome, ok, raised, continue, pure}
use notipus.Cache.{Cache}
use notipus.Consolidation.{Entry}
use notipus.Delivery.{
  Integration, Outside, deliver_all, deliver_each, deliver_by, flag, Desk, DeliveryError,
  collect_destinations, send_notification, send_unless, send_built, settle_sent, record_sent,
  on_cache, should_notify, process_immediately, answer_unless, answer_built, settle_each,
  own_workspace_id, send_to, answer_to,
}

abbrev is_empty : List String → Bool
is_empty [] = true
is_empty (x ∷ xs) = false

is_empty-append : (xs : List String) (x : String) → is_empty (xs ++ (x ∷ [])) ≡ false
is_empty-append [] x = refl
is_empty-append (y ∷ xs) x = refl

module _ {N W : Type 0} (o : Outside N W) where
  still_empty :
      (delivered : Bool) (errors : List String) (name : String)
      → is_empty (if delivered then errors else errors ++ (name ∷ []))
        ≡ flag delivered (is_empty errors)
  still_empty true errors name = ground arith
  still_empty false errors name = rw (is_empty-append errors name) (ground arith)

  -- The flag of the one loop tells whether the list of the other is empty, and both do the same
  -- outside.
  deliver_all-each :
      (destinations : List (String × Fields)) (n : N) (errors : List String) (w : W)
      → deliver_all o destinations n (is_empty errors) w ≡ (
        is_empty (deliver_each o destinations n errors w).0,
        (deliver_each o destinations n errors w).1,
      )
  unfolding deliver_all deliver_each
  deliver_all-each [] n errors w = refl
  deliver_all-each ((name, credentials) ∷ destinations) n errors w =
      let (delivered, w') = deliver_by o (o.plugin name) n credentials w in
      rw (sym (still_empty delivered errors name))
        (deliver_all-each destinations n (if delivered then errors else errors ++ (name ∷ [])) w')

ok-ne_false : {X : Type 0} → ◌≡◌ {A = Outcome DeliveryError Bool} (ok true) (ok false) → X
ok-ne_false h = absurd cc

raised-ne_ok :
    {X : Type 0} (e : DeliveryError)
    → ◌≡◌ {A = Outcome DeliveryError Bool} (raised e) (ok false)
    → X
raised-ne_ok e h = absurd cc

module _ {N W : Type 0} (c : Cache Entry) (now : ℕ) (o : Outside N W)
    (integrations : List Integration) (workspace : Option String) where
  continue-world :
      (r : Outcome DeliveryError (Unit {0}) × Desk c.State W)
      → (continue {B = Bool} (λ _. pure true) r).1.world ≡ r.1.world
  continue-world (ok tt, d) = refl
  continue-world (raised e, d) = refl

  settle_sent-world :
      (event : Fields) (b : Bool) (d : Desk c.State W)
      → (settle_sent c now o integrations workspace event b d).1.world ≡ d.world
  unfolding settle_sent record_sent on_cache
  settle_sent-world event false d = refl
  settle_sent-world event true d =
      continue-world (record_sent c now o integrations workspace event d)

  settle_each-world :
      (names : List String) (w : W) (d : Desk c.State W)
      → (settle_each c now o integrations workspace (names, w) d).1.world ≡ w
  unfolding settle_each
  settle_each-world [] w d = refl
  settle_each-world (name ∷ names) w d = refl

  to-world :
      (event : Fields) (destinations : List (String × Fields)) (n : N) (d : Desk c.State W)
      → (send_to c now o integrations workspace event destinations n d).1.world
        ≡ (answer_to c now o integrations workspace destinations n d).1.world
  unfolding send_to answer_to
  to-world event [] n d = refl
  to-world event (e ∷ es) n d =
      settle_sent-world event (deliver_all o (e ∷ es) n true d.world).0
        (record d { world = (deliver_all o (e ∷ es) n true d.world).1 })
      ∙ ap (λ r. r.1) (deliver_all-each o (e ∷ es) n [] d.world)
      ∙ sym (
          settle_each-world (deliver_each o (e ∷ es) n [] d.world).0
            (deliver_each o (e ∷ es) n [] d.world).1 d)

  built-world :
      (event : Fields) (n : Option N) (d : Desk c.State W)
      → (send_built c now o integrations workspace event n d).1.world
        ≡ (answer_built c now o integrations workspace n d).1.world
  unfolding send_built answer_built
  built-world event none d = refl
  built-world event (some n) d = to-world event (collect_destinations workspace integrations) n d

  unless-world :
      (event customer : Fields) (should : Outcome DeliveryError Bool × Desk c.State W)
      → (continue (send_unless c now o integrations workspace event customer) should).1.world
        ≡ (continue (answer_unless c now o integrations workspace event customer) should).1.world
  unfolding send_unless answer_unless record_sent on_cache
  unless-world event customer (raised e, d) = refl
  unless-world event customer (ok false, d) =
      continue-world (record_sent c now o integrations workspace event d)
  unless-world event customer (ok true, d) =
      built-world event (o.build event customer d.world).0
        (record d { world = (o.build event customer d.world).1 })

  -- The delivery of the queue and that of the router do the same outside, in every case: with one
  -- event, customer and workspace they build the same notification and call the same plugins, in the
  -- same order, or neither does.
  pub deliveries_agree :
      (event customer : Fields) (d : Desk c.State W)
      → (send_notification c now o integrations workspace event customer d).1.world
        ≡ (process_immediately c now o integrations workspace event customer d).1.world
  unfolding send_notification process_immediately
  deliveries_agree event customer d =
      unless-world stamped customer (should_notify c now o integrations workspace stamped d)
    where
      stamped : Fields
      stamped = put "workspace_id" (text (own_workspace_id c now o integrations workspace)) event

  not_false :
      {A : Type 0} (d d' : Desk c.State W)
      → ◌≡◌ {A = Outcome DeliveryError Bool × Desk c.State W} (ok true, d) (ok false, d')
      → A
  not_false d d' h = ok-ne_false (ap (λ r. r.0) h)

  never_false :
      {A : Type 0} (r : Outcome DeliveryError (Unit {0}) × Desk c.State W) (d' : Desk c.State W)
      → continue (λ _. pure true) r ≡ (ok false, d')
      → A
  never_false (ok tt, d) d' h = not_false d d' h
  never_false (raised e, d) d' h = raised-ne_ok e (ap (λ r. r.0) h)

  settle_sent-false :
      (event : Fields) (b : Bool) (d d' : Desk c.State W)
      → settle_sent c now o integrations workspace event b d ≡ (ok false, d')
      → d'.cache ≡ d.cache
  unfolding settle_sent
  settle_sent-false event false d d' h = sym (ap (λ r. r.1.cache) h)
  settle_sent-false event true d d' h =
      never_false (record_sent c now o integrations workspace event d) d' h

  send_to-false :
      (event : Fields) (destinations : List (String × Fields)) (n : N) (d d' : Desk c.State W)
      → send_to c now o integrations workspace event destinations n d ≡ (ok false, d')
      → d'.cache ≡ d.cache
  unfolding send_to
  send_to-false event [] n d d' h = not_false d d' h
  send_to-false event (e ∷ es) n d d' h =
      settle_sent-false event (deliver_all o (e ∷ es) n true d.world).0
        (record d { world = (deliver_all o (e ∷ es) n true d.world).1 }) d' h

  send_built-false :
      (event : Fields) (n : Option N) (d d' : Desk c.State W)
      → send_built c now o integrations workspace event n d ≡ (ok false, d')
      → d'.cache ≡ d.cache
  unfolding send_built
  send_built-false event none d d' h = sym (ap (λ r. r.1.cache) h)
  send_built-false event (some n) d d' h =
      send_to-false event (collect_destinations workspace integrations) n d d' h

  send_unless-false :
      (event customer : Fields) (r : Outcome DeliveryError Bool × Desk c.State W)
      (d' : Desk c.State W)
      → continue (send_unless c now o integrations workspace event customer) r ≡ (ok false, d')
      → d'.cache ≡ r.1.cache
  unfolding send_unless
  send_unless-false event customer (raised e, d) d' h = raised-ne_ok e (ap (λ r. r.0) h)
  send_unless-false event customer (ok false, d) d' h =
      never_false (record_sent c now o integrations workspace event d) d' h
  send_unless-false event customer (ok true, d) d' h =
      send_built-false event (o.build event customer d.world).0
        (record d { world = (o.build event customer d.world).1 }) d' h

  -- A delivery of the queue that fails has recorded nothing: the cache is as the question whether to
  -- notify has left it, so that the event is no duplicate when it is retried.
  pub unsent_unrecorded :
      (event customer : Fields) (d d' : Desk c.State W)
      → send_notification c now o integrations workspace event customer d ≡ (ok false, d')
      → d'.cache
        ≡ (should_notify c now o integrations workspace
            (put "workspace_id" (text (own_workspace_id c now o integrations workspace)) event)
            d).1.cache
  unfolding send_notification
  unsent_unrecorded event customer d d' h =
      send_unless-false stamped customer (should_notify c now o integrations workspace stamped d) d'
        h
    where
      stamped : Fields
      stamped = put "workspace_id" (text (own_workspace_id c now o integrations workspace)) event

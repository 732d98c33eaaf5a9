-- ===== src/Delivery/Marks.antt =====
-- The router records nothing while it delivers.
use notipus.Base.{ℕ, String, ◌≡◌, refl, Bool, true, false, Option, none, some, List, [], ◌∷◌}
use notipus.Base.Json.{Fields, text, put}
use notipus.Base.Call.{Outcome, ok, raised, continue}
use notipus.Cache.{Cache}
use notipus.Consolidation.{Entry}
use notipus.Delivery.{
  Integration, Outside, deliver_each, Desk, DeliveryError, collect_destinations, should_notify,
  process_immediately, answer_unless, answer_built, settle_each, own_workspace_id, answer_to,
}

module _ {N W : Type 0} (c : Cache Entry) (now : ℕ) (o : Outside N W)
    (integrations : List Integration) (workspace : Option String) where
  settle_each-cache :
      (names : List String) (w : W) (d : Desk c.State W)
      → (settle_each c now o integrations workspace (names, w) d).1.cache ≡ d.cache
  unfolding settle_each
  settle_each-cache [] w d = refl
  settle_each-cache (name ∷ names) w d = refl

  answer_to-cache :
      (destinations : List (String × Fields)) (n : N) (d : Desk c.State W)
      → (answer_to c now o integrations workspace destinations n d).1.cache ≡ d.cache
  unfolding answer_to
  answer_to-cache [] n d = refl
  answer_to-cache (e ∷ es) n d =
      settle_each-cache (deliver_each o (e ∷ es) n [] d.world).0
        (deliver_each o (e ∷ es) n [] d.world).1 d

  answer_built-cache :
      (n : Option N) (d : Desk c.State W)
      → (answer_built c now o integrations workspace n d).1.cache ≡ d.cache
  unfolding answer_built
  answer_built-cache none d = refl
  answer_built-cache (some n) d = answer_to-cache (collect_destinations workspace integrations) n d

  answer_unless-cache :
      (event customer : Fields) (should : Outcome DeliveryError Bool × Desk c.State W)
      → (continue (answer_unless c now o integrations workspace event customer) should).1.cache
        ≡ should.1.cache
  unfolding answer_unless
  answer_unless-cache event customer (raised e, d) = refl
  answer_unless-cache event customer (ok false, d) = refl
  answer_unless-cache event customer (ok true, d) =
      answer_built-cache (o.build event customer d.world).0
        (record d { world = (o.build event customer d.world).1 })

  -- The delivery of the router leaves the cache as the question whether to notify has left it.
  pub process_immediately-cache :
      (event customer : Fields) (d : Desk c.State W)
      → (process_immediately c now o integrations workspace event customer d).1.cache
        ≡ (should_notify c now o integrations workspace
            (put "workspace_id" (text (own_workspace_id c now o integrations workspace)) event)
            d).1.cache
  unfolding process_immediately
  process_immediately-cache event customer d =
      answer_unless-cache stamped customer (should_notify c now o integrations workspace stamped d)
    where
      stamped : Fields
      stamped = put "workspace_id" (text (own_workspace_id c now o integrations workspace)) event

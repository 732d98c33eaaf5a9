-- ===== src/Cache.antt =====
-- Django's cache, which is third-party code: the operations that the services call, with what its
-- documentation promises of them. A call raises exactly while the backend is down.
pub mod Memory
use notipus.Base.{
  ℕ, suc, ◌+◌, String, ◌≡◌, Bool, true, false, Option, none, some, ltb, str_eq, if◌then◌else◌,
}
use mathlib.Core.Option
use notipus.Base.Call.{Outcome, Call, ok, raised}

-- The backend does not answer, or (`ValueError`) a key that `incr` needs is missing.
pub data CacheError : Type 0 where
  unavailable missing_key : CacheError

pub record Cache (V : Type 0) : Type 1 where
  pub State : Type 0
  -- Whether the backend answers at a time.
  pub up : State → ℕ → Bool
  -- The value under a key that has not expired at a time.
  pub peek : State → ℕ → String → Option V
  -- `set` at a time, with a timeout in seconds.
  pub store : State → ℕ → String → V → ℕ → State
  pub remove : State → String → State
  pub peek-store :
      (s : State) (now t timeout : ℕ) (k j : String) (v : V)
      → peek (store s now k v timeout) t j
        ≡ (if str_eq k j then (if ltb t (now + timeout) then some v else none) else peek s t j)
  pub peek-remove :
      (s : State) (t : ℕ) (k j : String)
      → peek (remove s k) t j ≡ (if str_eq k j then none else peek s t j)

-- A cache of counts, with the atomic `incr` of a key that is there, which keeps its expiry.
pub record Counters : Type 1 where
  pub cache : Cache ℕ
  pub bump : cache.State → String → cache.State
  pub peek-bump :
      (s : cache.State) (t : ℕ) (k j : String)
      → cache.peek (bump s k) t j
        ≡ (if str_eq k j then Option.map suc (cache.peek s t j) else cache.peek s t j)

module _ {V : Type 0} (c : Cache V) (now : ℕ) where
  open c use {State, up, peek, store, remove}

  -- Every operation raises while the backend is down.
  abbrev pub attempt : {A : Type 0} → (State → A × State) → Call State CacheError A
  attempt f s = if up s now then (let (a, s') = f s in (ok a, s')) else (raised unavailable, s)

  -- `cache.get(k)`
  unfoldable pub get : String → Call State CacheError (Option V)
  get k = attempt λ s. (peek s now k, s)

  -- `cache.set(k, v, timeout)`
  unfoldable pub set : String → V → ℕ → Call State CacheError (Unit {0})
  set k v timeout = attempt λ s. (tt, store s now k v timeout)

  -- `cache.add(k, v, timeout)` stores only under a key that holds nothing, and says whether it did.
  abbrev pub add_value : Option V → String → V → ℕ → State → Bool × State
  add_value none k v timeout s = (true, store s now k v timeout)
  add_value (some _) k v timeout s = (false, s)

  unfoldable pub add : String → V → ℕ → Call State CacheError Bool
  add k v timeout = attempt λ s. add_value (peek s now k) k v timeout s

  -- `cache.delete(k)`
  unfoldable pub delete : String → Call State CacheError (Unit {0})
  delete k = attempt λ s. (tt, remove s k)

module _ {V : Type 0} (c : Cache V) (now : ℕ) (k : String) {s : c.State} where
  pub get-up : c.up s now ≡ true → get c now k s ≡ (ok (c.peek s now k), s)
  unfolding get
  get-up u = rw u

  pub get-down : c.up s now ≡ false → get c now k s ≡ (raised unavailable, s)
  unfolding get
  get-down u = rw u

  pub set-up :
      (v : V) (timeout : ℕ)
      → c.up s now ≡ true
      → set c now k v timeout s ≡ (ok tt, c.store s now k v timeout)
  unfolding set
  set-up v timeout u = rw u

  pub add-up :
      (v : V) (timeout : ℕ)
      → c.up s now ≡ true
      → let (b, s') = add_value c now (c.peek s now k) k v timeout s in
        add c now k v timeout s ≡ (ok b, s')
  unfolding add
  add-up v timeout u = rw u

  pub delete-up : c.up s now ≡ true → delete c now k s ≡ (ok tt, c.remove s k)
  unfolding delete
  delete-up u = rw u

module _ (n : Counters) (now : ℕ) where
  -- `cache.incr(k)`: the new count, or `none` for the `ValueError` of a missing key.
  unfoldable pub incr_value : Option ℕ → String → n.cache.State → Option ℕ × n.cache.State
  incr_value none k s = (none, s)
  incr_value (some v) k s = (some (v + 1), n.bump s k)

  unfoldable pub incr : String → Call n.cache.State CacheError (Option ℕ)
  incr k = attempt n.cache now λ s. incr_value (n.cache.peek s now k) k s

  pub incr-up :
      (k : String) {s : n.cache.State}
      → n.cache.up s now ≡ true
      → incr k s
        ≡ (ok (incr_value (n.cache.peek s now k) k s).0, (incr_value (n.cache.peek s now k) k s).1)
  unfolding incr
  incr-up k u = rw u

  pub incr-down :
      (k : String) {s : n.cache.State}
      → n.cache.up s now ≡ false
      → incr k s ≡ (raised unavailable, s)
  unfolding incr
  incr-down k u = rw u

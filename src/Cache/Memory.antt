-- ===== src/Cache/Memory.antt =====
-- A cache in memory, which shows that the promises of `Cache` can be kept.
use notipus.Base.{
  ℕ, suc, ◌+◌, Option-cases, inl, inr, eq_iff, String, ◌≡◌, Bool, true, Option, none, some, [],
  arith, ltb, str_eq, if◌then◌else◌,
}
use mathlib.Core.Option
use notipus.Base.Dict.{Dict, lookup, insert, erase, lookup-insert, lookup-erase}
use notipus.Cache.{Cache, Counters}

-- When the backend answers, and each entry with the time at which it expires.
abbrev pub MemoryState : Type 0 → Type 0
MemoryState V = record { up : ℕ → Bool; entries : Dict (V × ℕ) }

module _ {V : Type 0} where
  abbrev pub live : ℕ → Option (V × ℕ) → Option V
  live t none = none
  live t (some (v, expiry)) = if ltb t expiry then some v else none

  abbrev pub peek_in : MemoryState V → ℕ → String → Option V
  peek_in s t k = live t (lookup k s.entries)

  abbrev pub store_in : MemoryState V → ℕ → String → V → ℕ → MemoryState V
  store_in s now k v timeout = record { up = s.up; entries = insert k (v, now + timeout) s.entries }

  abbrev pub remove_in : MemoryState V → String → MemoryState V
  remove_in s k = record { up = s.up; entries = erase k s.entries }

  pub peek-store_in :
      (s : MemoryState V) (now t timeout : ℕ) (k j : String) (v : V)
      → peek_in (store_in s now k v timeout) t j
        ≡ (if str_eq k j then (if ltb t (now + timeout) then some v else none) else peek_in s t j)
  peek-store_in s now t timeout k j v =
      rw (lookup-insert k j (v, now + timeout) s.entries) (ground arith)

  pub peek-remove_in :
      (s : MemoryState V) (t : ℕ) (k j : String)
      → peek_in (remove_in s k) t j ≡ (if str_eq k j then none else peek_in s t j)
  peek-remove_in s t k j = rw (lookup-erase k j s.entries) (ground arith)

  abbrev pub memory : Cache V
  memory = record {
    State = MemoryState V;
    up = λ s t. s.up t;
    peek = peek_in;
    store = store_in;
    remove = remove_in;
    peek-store = peek-store_in;
    peek-remove = peek-remove_in;
  }

-- The same, where the backend always answers.
abbrev pub steady : {V : Type 0} → Cache V
steady = record memory { up = λ s t. true }

abbrev pub bump_found : Option (ℕ × ℕ) → MemoryState ℕ → String → MemoryState ℕ
bump_found none s k = s
bump_found (some (v, expiry)) s k = record {
  up = s.up;
  entries = insert k (suc v, expiry) s.entries;
}

abbrev pub bump_in : MemoryState ℕ → String → MemoryState ℕ
bump_in s k = bump_found (lookup k s.entries) s k

pub peek-bump_in :
    (s : MemoryState ℕ) (t : ℕ) (k j : String)
    → peek_in (bump_in s k) t j
      ≡ (if str_eq k j then Option.map suc (peek_in s t j) else peek_in s t j)
peek-bump_in s t k j = elim (Option-cases (lookup k s.entries)) [
  | inl missing ↦ rw missing (ground (arith, eq_iff k j))
  | inr ((v, expiry), found) ↦
      rw (found, lookup-insert k j (suc v, expiry) s.entries) (ground (arith, eq_iff k j))
]

abbrev pub memory_counters : Counters
memory_counters = record { cache = memory; bump = bump_in; peek-bump = peek-bump_in }

abbrev pub steady_counters : Counters
steady_counters = record { cache = steady; bump = bump_in; peek-bump = peek-bump_in }

-- A backend that always answers and holds nothing.
abbrev pub fresh : {V : Type 0} → MemoryState V
fresh = record { up = λ t. true; entries = [] }

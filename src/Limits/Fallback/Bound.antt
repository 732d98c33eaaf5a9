-- ===== src/Limits/Fallback/Bound.antt =====
-- The size of the in-memory fallback of app/webhooks/services/rate_limiter.py.
use notipus.Base.{
  ℕ, ◌+◌, ◌-◌, ◌≤◌, ◌≡◌, refl, String, true, false, Option, none, some, [], ◌∷◌, length, take,
  filter, leb, leb→le, eq_iff, str_eq, arith, contains, length-take, if◌then◌else◌, Bool-cases, inl,
  inr, eq_refl,
}
use notipus.Base.Dict.{Dict, lookup, insert, keys, length-erase}
use notipus.Base.Dict.Unique.{
  Unique, Within, Unique-insert, Unique-erase, Unique-filter, Unique-take, Within-take,
  Unique-erase_all, length-erase_all,
}
use notipus.Limits.Fallback.{
  Fallback, is_fresh, insert_by_age, sorted_by_age, evict_oldest, prune_fallback, set_to_fallback,
  max_fallback_keys, get_from_fallback, read_found, fallback_low_water,
}

contains-insert_by_age :
    (j : String) (e : String × (ℕ × ℕ)) (d : Dict (ℕ × ℕ))
    → contains j (keys (insert_by_age e d)) ≡ (if str_eq e.0 j then true else contains j (keys d))
unfolding insert_by_age contains
contains-insert_by_age j (k, (v, t)) [] = ground arith
contains-insert_by_age j (k, (v, t)) ((i, (w, u)) ∷ d) =
    ground (arith, contains-insert_by_age j (k, (v, t)) d)

length-insert_by_age :
    (e : String × (ℕ × ℕ)) (d : Dict (ℕ × ℕ)) → length (insert_by_age e d) ≡ length d + 1
unfolding insert_by_age
length-insert_by_age (k, (v, t)) [] = omega arith
length-insert_by_age (k, (v, t)) ((i, (w, u)) ∷ d) =
    ground (arith, length-insert_by_age (k, (v, t)) d)

Unique-insert_by_age :
    (k : String) (v t : ℕ) (d : Dict (ℕ × ℕ))
    → contains k (keys d) ≡ false
    → Unique d
    → Unique (insert_by_age (k, (v, t)) d)
unfolding insert_by_age contains
Unique-insert_by_age k v t [] n u = (refl, tt)
Unique-insert_by_age k v t ((i, (w, r)) ∷ d) n u = ground (
  arith,
  eq_iff i k,
  eq_iff k i,
  contains-insert_by_age i (k, (v, t)) d,
  Unique-insert_by_age k v t d,
)

contains-sorted_by_age :
    (j : String) (d : Dict (ℕ × ℕ)) → contains j (keys (sorted_by_age d)) ≡ contains j (keys d)
unfolding sorted_by_age contains
contains-sorted_by_age j [] = refl
contains-sorted_by_age j ((i, (w, u)) ∷ d) =
    ground
      (arith, contains-insert_by_age j (i, (w, u)) (sorted_by_age d), contains-sorted_by_age j d)

length-sorted_by_age : (d : Dict (ℕ × ℕ)) → length (sorted_by_age d) ≡ length d
unfolding sorted_by_age
length-sorted_by_age [] = refl
length-sorted_by_age (e ∷ d) =
    omega (arith, length-insert_by_age e (sorted_by_age d), length-sorted_by_age d)

Unique-sorted_by_age : (d : Dict (ℕ × ℕ)) → Unique d → Unique (sorted_by_age d)
unfolding sorted_by_age
Unique-sorted_by_age [] u = tt
Unique-sorted_by_age ((i, (w, t)) ∷ d) u =
    Unique-insert_by_age i w t (sorted_by_age d) (rw (contains-sorted_by_age i d) u.0)
      (Unique-sorted_by_age d u.1)

Within-of_contains :
    (r d : Dict (ℕ × ℕ))
    → ((j : String) → contains j (keys r) ≡ true → contains j (keys d) ≡ true)
    → Within r d
unfolding contains
Within-of_contains [] d h = tt
Within-of_contains ((i, (w, t)) ∷ r) d h =
    (h i (ground (arith, eq_refl i)), Within-of_contains r d (λ j m. h j (ground arith)))

Within-sorted_by_age : (d : Dict (ℕ × ℕ)) → Within (sorted_by_age d) d
Within-sorted_by_age d =
    Within-of_contains (sorted_by_age d) d (λ j m. rw (contains-sorted_by_age j d) at m)

-- Over the low-water mark, an eviction leaves exactly the low-water mark.
length-evict_oldest :
    (now : ℕ) (f : Fallback)
    → Unique f.entries
    → fallback_low_water ≤ length f.entries
    → length (evict_oldest now f).entries ≡ fallback_low_water
unfolding evict_oldest
length-evict_oldest now f u h =
    let n = length f.entries - fallback_low_water in
    let sorted = sorted_by_age f.entries in
    omega (
      arith,
      length-erase_all (take n sorted) f.entries
          (Unique-take n sorted (Unique-sorted_by_age f.entries u)) u
          (Within-take n sorted f.entries (Within-sorted_by_age f.entries)),
      length-take n sorted (omega (arith, length-sorted_by_age f.entries)),
    )

pub record IsBounded (f : Fallback) : Type 0 where
  pub unique : Unique f.entries
  pub bounded : length f.entries ≤ max_fallback_keys

Unique-evict_oldest :
    (now : ℕ) (f : Fallback) → Unique f.entries → Unique (evict_oldest now f).entries
unfolding evict_oldest
Unique-evict_oldest now f u =
    Unique-erase_all (take (length f.entries - fallback_low_water) (sorted_by_age f.entries))
      f.entries u

evict-IsBounded :
    (now : ℕ) (f : Fallback)
    → Unique f.entries
    → fallback_low_water ≤ length f.entries
    → IsBounded (evict_oldest now f)
evict-IsBounded now f u h = record {
  unique = Unique-evict_oldest now f u;
  bounded = omega (arith, length-evict_oldest now f u h);
}

prune-IsBounded : (now : ℕ) (f : Fallback) → Unique f.entries → IsBounded (prune_fallback now f)
unfolding prune_fallback
prune-IsBounded now f u =
    let kept = record f { entries = filter (is_fresh now) f.entries } in
    elim (Bool-cases (leb (length kept.entries) max_fallback_keys)) [
      | inl few ↦
          rw few
            (record { unique = Unique-filter (is_fresh now) f.entries u; bounded = leb→le _ _ few })
      | inr many ↦
          rw many
            (evict-IsBounded now kept (Unique-filter (is_fresh now) f.entries u) (ground arith))
    ]

-- A write leaves a bounded fallback bounded: no key stands twice, and there are at most 10000 keys.
set_to_fallback-IsBounded :
    (now : ℕ) (key : String) (value : ℕ) (f : Fallback)
    → IsBounded f
    → IsBounded (set_to_fallback now key value f)
unfolding set_to_fallback
set_to_fallback-IsBounded now key value f b =
    prune-IsBounded now (record f { entries = insert key (value, now) f.entries })
      (Unique-insert key (value, now) f.entries b.unique)

read_found-IsBounded :
    (now : ℕ) (key : String) (default : ℕ) (found : Option (ℕ × ℕ)) (f : Fallback)
    → IsBounded f
    → IsBounded (read_found now key default found f).1
unfolding read_found
read_found-IsBounded now key default none f b = b
read_found-IsBounded now key default (some (value, timestamp)) f b =
    elim (Bool-cases (is_fresh now (key, (value, timestamp)))) [
      | inl fresh ↦ rw fresh b
      | inr stale ↦ rw stale (record {
        unique = Unique-erase key f.entries b.unique;
        bounded = omega (arith, b.bounded, length-erase key f.entries);
      })
    ]

-- A read, which may remove an entry, leaves a bounded fallback bounded.
get_from_fallback-IsBounded :
    (now : ℕ) (key : String) (default : ℕ) (f : Fallback)
    → IsBounded f
    → IsBounded (get_from_fallback now key default f).1
unfolding get_from_fallback
get_from_fallback-IsBounded now key default f b =
    read_found-IsBounded now key default (lookup key f.entries) f b

-- A write and a read, which may remove an entry, leave a bounded fallback bounded: no key stands
-- twice, and there are at most 10000 keys.
pub fallback-IsBounded :
    (now : ℕ) (key : String) (value default : ℕ) (f : Fallback)
    → IsBounded f
    → IsBounded (set_to_fallback now key value f)
      × IsBounded (get_from_fallback now key default f).1
fallback-IsBounded now key value default f b =
    (set_to_fallback-IsBounded now key value f b, get_from_fallback-IsBounded now key default f b)

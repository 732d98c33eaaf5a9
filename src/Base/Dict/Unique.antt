-- ===== src/Base/Dict/Unique.antt =====
-- Dictionaries in which no key stands twice, as Python's are.
use Prim.Native.Nat.{ℕ, zero, suc, ◌+◌}
use Prim.Native.String.{String}
use mathlib.Core.Path.{◌≡◌, refl}
use mathlib.Core.Bool.{Bool, true, false}
use mathlib.Core.List.{[], ◌∷◌}
use native.Mathlib.Omega.{arith}
use text.Mathlib.Text.{◌==◌ as str_eq}
use text.Mathlib.TextEquality.{eq_iff}
use notipus.Base.Tests.{if◌then◌else◌}
use notipus.Base.Lists.{length, take, filter}
use notipus.Base.Text.{contains}
use notipus.Base.Dict.{Dict, insert, erase, keys}

module _ {ℓ} {V : Type ℓ} where
  abbrev pub Unique : Dict V → Type 0
  Unique [] = Unit
  Unique ((k, v) ∷ d) = (contains k (keys d) ≡ false) × Unique d

  -- Every key of the first is one of the second.
  abbrev pub Within : Dict V → Dict V → Type 0
  Within [] d = Unit
  Within ((k, v) ∷ r) d = (contains k (keys d) ≡ true) × Within r d

  pub contains-keys-insert :
      (k j : String) (v : V) (d : Dict V)
      → contains j (keys (insert k v d)) ≡ (if str_eq k j then true else contains j (keys d))
  unfolding contains
  contains-keys-insert k j v [] = ground arith
  contains-keys-insert k j v ((i, w) ∷ d) =
      ground (arith, eq_iff k j, eq_iff i k, eq_iff i j, contains-keys-insert k j v d)

  pub contains-keys-erase :
      (k j : String) (d : Dict V)
      → contains j (keys (erase k d)) ≡ (if str_eq k j then false else contains j (keys d))
  unfolding contains
  contains-keys-erase k j [] = ground arith
  contains-keys-erase k j ((i, w) ∷ d) =
      ground (arith, eq_iff k j, eq_iff i k, eq_iff i j, contains-keys-erase k j d)

  pub Unique-insert : (k : String) (v : V) (d : Dict V) → Unique d → Unique (insert k v d)
  unfolding contains
  Unique-insert k v [] u = (refl, tt)
  Unique-insert k v ((i, w) ∷ d) u =
      ground (arith, eq_iff i k, eq_iff k i, Unique-insert k v d u.1, contains-keys-insert k i v d)

  pub Unique-erase : (k : String) (d : Dict V) → Unique d → Unique (erase k d)
  Unique-erase k [] u = tt
  Unique-erase k ((i, w) ∷ d) u =
      ground (arith, eq_iff k i, eq_iff i k, Unique-erase k d u.1, contains-keys-erase k i d)

  contains-keys-filter :
      (p : String × V → Bool) (j : String) (d : Dict V)
      → contains j (keys d) ≡ false
      → contains j (keys (filter p d)) ≡ false
  unfolding contains
  contains-keys-filter p j [] h = refl
  contains-keys-filter p j ((i, w) ∷ d) h = ground (arith, contains-keys-filter p j d)

  pub Unique-filter : (p : String × V → Bool) (d : Dict V) → Unique d → Unique (filter p d)
  Unique-filter p [] u = tt
  Unique-filter p ((i, w) ∷ d) u = ground (arith, Unique-filter p d u.1, contains-keys-filter p i d)

  contains-keys-take :
      (n : ℕ) (j : String) (d : Dict V)
      → contains j (keys d) ≡ false
      → contains j (keys (take n d)) ≡ false
  unfolding contains
  contains-keys-take zero j d h = refl
  contains-keys-take (suc n) j [] h = refl
  contains-keys-take (suc n) j ((i, w) ∷ d) h = ground (arith, contains-keys-take n j d)

  pub Unique-take : (n : ℕ) (d : Dict V) → Unique d → Unique (take n d)
  Unique-take zero d u = tt
  Unique-take (suc n) [] u = tt
  Unique-take (suc n) ((i, w) ∷ d) u = (contains-keys-take n i d u.0, Unique-take n d u.1)

  pub Within-take : (n : ℕ) (r d : Dict V) → Within r d → Within (take n r) d
  Within-take zero r d h = tt
  Within-take (suc n) [] d h = tt
  Within-take (suc n) ((i, w) ∷ r) d h = (h.0, Within-take n r d h.1)

  erase-absent : (k : String) (d : Dict V) → contains k (keys d) ≡ false → erase k d ≡ d
  unfolding contains
  erase-absent k [] h = refl
  erase-absent k ((i, w) ∷ d) h = ground (arith, erase-absent k d)

  -- An entry that is there is one entry.
  pub length-erase_present :
      (k : String) (d : Dict V)
      → Unique d
      → contains k (keys d) ≡ true
      → length (erase k d) + 1 ≡ length d
  unfolding contains
  length-erase_present k [] u h = cc
  length-erase_present k ((i, w) ∷ d) u h =
      ground (arith, eq_iff i k, erase-absent k d, length-erase_present k d u.1)

  Within-erase :
      (k : String) (r d : Dict V) → contains k (keys r) ≡ false → Within r d → Within r (erase k d)
  unfolding contains
  Within-erase k [] d n h = tt
  Within-erase k ((i, w) ∷ r) d n h =
      ground (arith, eq_iff k i, eq_iff i k, contains-keys-erase k i d, Within-erase k r d)

  -- `for key, _ in stale: del d[key]`
  unfoldable pub erase_all : Dict V → Dict V → Dict V
  erase_all [] d = d
  erase_all ((k, v) ∷ stale) d = erase_all stale (erase k d)

  pub Unique-erase_all : (stale d : Dict V) → Unique d → Unique (erase_all stale d)
  unfolding erase_all
  Unique-erase_all [] d u = u
  Unique-erase_all ((k, v) ∷ stale) d u = Unique-erase_all stale (erase k d) (Unique-erase k d u)

  pub length-erase_all :
      (stale d : Dict V)
      → Unique stale
      → Unique d
      → Within stale d
      → length (erase_all stale d) + length stale ≡ length d
  unfolding erase_all
  length-erase_all [] d us u h = omega arith
  length-erase_all ((k, v) ∷ stale) d us u h = omega (
    arith,
    length-erase_present k d u h.0,
    length-erase_all stale (erase k d) us.1 (Unique-erase k d u) (Within-erase k stale d us.0 h.1),
  )

-- ===== src/Base/Call.antt =====
-- Python calls that change a state and may raise: what was changed before a raise stays changed.
use mathlib.Core.Path.{◌≡◌, refl}

pub data Outcome {ℓ} (E A : Type ℓ) : Type ℓ where
  ok : A → Outcome E A
  raised : E → Outcome E A

abbrev pub Call : Type 0 → Type 0 → Type 0 → Type 0
Call S E A = S → Outcome E A × S

module _ {S E A : Type 0} where
  abbrev pub pure : A → Call S E A
  pure a s = (ok a, s)

  abbrev pub throw : E → Call S E A
  throw e s = (raised e, s)

  abbrev pub gets : (S → A) → Call S E A
  gets f s = (ok (f s), s)

abbrev pub modify : {S E : Type 0} → (S → S) → Call S E (Unit {0})
modify f s = (ok tt, f s)

-- The rest of a call, after what came before has returned or raised.
abbrev pub continue : {S E A B : Type 0} → (A → Call S E B) → Outcome E A × S → Outcome E B × S
continue f (ok a, s) = f a s
continue f (raised e, s) = (raised e, s)

infixl 5 ◌>>=◌ ◌>>◌
abbrev pub ◌>>=◌ : {S E A B : Type 0} → Call S E A → (A → Call S E B) → Call S E B
◌>>=◌ m f s = continue f (m s)

abbrev pub ◌>>◌ : {S E A B : Type 0} → Call S E A → Call S E B → Call S E B
m >> k = m >>= λ _. k

-- What does not change the state may follow.
pub continue-state :
    {S E A B : Type 0} (f : A → Call S E B) (m : Outcome E A × S)
    → ((a : A) (s : S) → (f a s).1 ≡ s)
    → (continue f m).1 ≡ m.1
continue-state f (ok a, s) h = h a s
continue-state f (raised e, s) h = refl

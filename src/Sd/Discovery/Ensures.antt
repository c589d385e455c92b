-- ===== src/Sd/Discovery/Ensures.antt =====
-- Postconditions of the methods of `ServiceDiscovery`.
use paf.Prelude.Action.{
  Result, ok, raised, Error, key_error, assertion_error, attribute_error, type_error, IsFatal,
  ◌>>=◌,
}
use paf.Sd.Discovery.{Discovery, Method}

-- A method that returns leaves a state as `P` says, and one that raises an error of sd.py leaves one
-- as `E` says. It raises no `KeyError` and fails no assertion. Nothing is said of the state where a
-- `TypeError` or an `AttributeError` stops the server.
abbrev pub Ensures :
    {A : Type 0} → (Discovery → Type 0) → (A → Discovery → Type 0) → Result A × Discovery → Type 0
Ensures E P (ok a, st) = P a st
Ensures E P (raised type_error, st) = Unit
Ensures E P (raised attribute_error, st) = Unit
Ensures E P (raised key_error, st) = ⊥
Ensures E P (raised assertion_error, st) = ⊥
Ensures E P (raised _, st) = E st

module _ {A B : Type 0} (E : Discovery → Type 0) (P : A → Discovery → Type 0)
    (Q : B → Discovery → Type 0) where
  raised-Ensures :
      (e : Error) (st : Discovery)
      → Ensures {A = A} E P (raised e, st)
      → Ensures {A = B} E Q (raised e, st)
  raised-Ensures type_error st h = tt
  raised-Ensures attribute_error st h = tt
  raised-Ensures key_error st h = h
  raised-Ensures assertion_error st h = h
  raised-Ensures _ st h = h

  pub bind-Ensures :
      (x : Result A × Discovery) (f : A → Method B)
      → Ensures E P x
      → ((a : A) (st : Discovery) → P a st → Ensures E Q (f a st))
      → Ensures {A = B} E Q
          (let (r, st) = x in elim r [ ok a ↦ f a st | raised e ↦ (raised e, st) ])
  bind-Ensures (ok a, st) f h k = k a st h
  bind-Ensures (raised e, st) f h k = raised-Ensures e st h

  -- The rule for a step of a `do` block.
  pub >>=-Ensures :
      (m : Method A) (f : A → Method B) (st : Discovery)
      → Ensures E P (m st)
      → ((a : A) (st' : Discovery) → P a st' → Ensures E Q (f a st'))
      → Ensures E Q ((m >>= f) st)
  >>=-Ensures m f st h k = bind-Ensures (m st) f h k

pub fatal-Ensures :
    {A : Type 0} (E : Discovery → Type 0) (P : A → Discovery → Type 0) (e : Error) (st : Discovery)
    → IsFatal e
    → Ensures E P (raised e, st)
fatal-Ensures E P type_error st h = tt
fatal-Ensures E P attribute_error st h = tt
fatal-Ensures E P _ st h = absurd h

pub mono-Ensures :
    {A : Type 0} (E : Discovery → Type 0) (P Q : A → Discovery → Type 0)
    → ((a : A) (st : Discovery) → P a st → Q a st)
    → (x : Result A × Discovery) → Ensures E P x
    → Ensures E Q x
mono-Ensures E P Q k (ok a, st) h = k a st h
mono-Ensures E P Q k (raised type_error, st) h = tt
mono-Ensures E P Q k (raised attribute_error, st) h = tt
mono-Ensures E P Q k (raised key_error, st) h = h
mono-Ensures E P Q k (raised assertion_error, st) h = h
mono-Ensures E P Q k (raised _, st) h = h

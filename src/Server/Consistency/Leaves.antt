-- ===== src/Server/Consistency/Leaves.antt =====
-- Postconditions of the methods of `Server` and `Connection`.
use paf.Prelude.{ℕ, ◌≡◌, refl, Option, none, some, nat_eq}
use paf.Prelude.Dict.{lookup}
use paf.Prelude.Action.{
  Result, ok, raised, Error, key_error, assertion_error, attribute_error, type_error, index_error,
  ◌>>=◌, lift, or_raise, IsFatal,
}
use paf.Server.State.{Connection, Server, Method, connection}
use paf.Server.Consistency.{IsConsistent}

-- A method that returns leaves a state as `P` says, and one that raises an exception of sd.py,
-- filter.py or proto.py one as `E` says. Nothing is said of the state where another exception stops
-- the server.
abbrev pub Leaves :
    {A : Type 0} → (Server → Type 0) → (A → Server → Type 0) → Result A × Server → Type 0
Leaves E P (ok a, st) = P a st
Leaves E P (raised key_error, st) = Unit
Leaves E P (raised assertion_error, st) = Unit
Leaves E P (raised attribute_error, st) = Unit
Leaves E P (raised type_error, st) = Unit
Leaves E P (raised index_error, st) = Unit
Leaves E P (raised _, st) = E st

module _ {A B : Type 0} (E : Server → Type 0) (P : A → Server → Type 0)
    (Q : B → Server → Type 0) where
  raised-Leaves :
      (e : Error) (st : Server)
      → Leaves {A = A} E P (raised e, st)
      → Leaves {A = B} E Q (raised e, st)
  raised-Leaves key_error st h = tt
  raised-Leaves assertion_error st h = tt
  raised-Leaves attribute_error st h = tt
  raised-Leaves type_error st h = tt
  raised-Leaves index_error st h = tt
  raised-Leaves _ st h = h

  pub bind-Leaves :
      (x : Result A × Server) (f : A → Method B)
      → Leaves E P x
      → ((a : A) (st : Server) → P a st → Leaves E Q (f a st))
      → Leaves {A = B} E Q (let (r, st) = x in elim r [ ok a ↦ f a st | raised e ↦ (raised e, st) ])
  bind-Leaves (ok a, st) f h k = k a st h
  bind-Leaves (raised e, st) f h k = raised-Leaves e st h

  pub >>=-Leaves :
      (m : Method A) (f : A → Method B) (st : Server)
      → Leaves E P (m st)
      → ((a : A) (st' : Server) → P a st' → Leaves E Q (f a st'))
      → Leaves E Q ((m >>= f) st)
  >>=-Leaves m f st h k = bind-Leaves (m st) f h k

pub mono-Leaves :
    {A : Type 0} (E : Server → Type 0) (P Q : A → Server → Type 0)
    → ((a : A) (st : Server) → P a st → Q a st)
    → (x : Result A × Server) → Leaves E P x
    → Leaves E Q x
mono-Leaves E P Q k (ok a, st) h = k a st h
mono-Leaves E P Q k (raised key_error, st) h = tt
mono-Leaves E P Q k (raised assertion_error, st) h = tt
mono-Leaves E P Q k (raised attribute_error, st) h = tt
mono-Leaves E P Q k (raised type_error, st) h = tt
mono-Leaves E P Q k (raised index_error, st) h = tt
mono-Leaves E P Q k (raised _, st) h = h

module _ {A B : Type 0} (E : Server → Type 0) (Q : B → Server → Type 0) where
  pub or_raise-Leaves :
      (o : Option A) (e : Error) (f : A → Method B) (st : Server)
      → Leaves {A = B} E Q (raised e, st)
      → ((a : A) → o ≡ some a → Leaves E Q (f a st))
      → Leaves E Q ((or_raise o e >>= f) st)
  or_raise-Leaves none e f st h k = h
  or_raise-Leaves (some a) e f st h k = k a refl

  pub lift-Leaves :
      (r : Result A) (f : A → Method B) (st : Server)
      → ((e : Error) → r ≡ raised e → Leaves {A = B} E Q (raised e, st))
      → ((a : A) → r ≡ ok a → Leaves E Q (f a st))
      → Leaves E Q ((lift r >>= f) st)
  lift-Leaves (raised e) f st h k = h e refl
  lift-Leaves (ok a) f st h k = k a refl

pub fatal-Leaves :
    (B : Type 0) (E : Server → Type 0) (Q : B → Server → Type 0) (e : Error) (st : Server)
    → IsFatal e
    → Leaves {A = B} E Q (raised e, st)
fatal-Leaves B E Q type_error st h = tt
fatal-Leaves B E Q attribute_error st h = tt
fatal-Leaves B E Q _ st h = absurd h

-- A method that begins with its connection.
pub connection-Leaves :
    {B : Type 0} (E : Server → Type 0) (Q : B → Server → Type 0) (c : ℕ) (f : Connection → Method B)
    (st : Server)
    → ((conn : Connection) → lookup c st.connections ≡ some conn → Leaves E Q (f conn st))
    → Leaves E Q ((connection c >>= f) st)
connection-Leaves E Q c f st k =
    or_raise-Leaves E Q (lookup c (Server.connections st)) attribute_error f st tt k

-- The same of a method that is about the invariant only.
abbrev pub Preserves : {A : Type 0} → Result A × Server → Type 0
Preserves = Leaves IsConsistent (λ _ st'. IsConsistent st')

pub >>=-Preserves :
    {A B : Type 0} (m : Method A) (f : A → Method B) (st : Server)
    → Preserves (m st)
    → ((a : A) (st' : Server) → IsConsistent st' → Preserves (f a st'))
    → Preserves ((m >>= f) st)
>>=-Preserves m f st h k =
    >>=-Leaves IsConsistent (λ _ st'. IsConsistent st') (λ _ st'. IsConsistent st') m f st h k

pub raised-Preserves :
    (A : Type 0) (e : Error) (st : Server) → IsConsistent st → Preserves {A = A} (raised e, st)
raised-Preserves A key_error st h = tt
raised-Preserves A assertion_error st h = tt
raised-Preserves A attribute_error st h = tt
raised-Preserves A type_error st h = tt
raised-Preserves A index_error st h = tt
raised-Preserves A _ st h = h

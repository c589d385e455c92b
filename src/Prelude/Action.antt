-- ===== src/Prelude/Action.antt =====
-- Methods of an object: state and exceptions. The state comes back after a raise too, since what
-- was written before the exception stays written.
use mathlib.Core.Bool.{Bool}
use mathlib.Core.Option.{Option, none, some}
use paf.Prelude.Tests.{if◌then◌else◌}

-- The exceptions that leave a method. The first five are the classes of sd.py, and the next two
-- `ParseError` of filter.py and `ProtocolError` of proto.py. Then comes `xcm.error`, where a call of a
-- socket raises it outside of a `try`; the others are Python's own, which no caller catches.
pub data Error : Type 0 where
  permission_error generation_error not_found_error already_exists_error resource_error : Error
  parse_error protocol_error : Error
  xcm_error : Error
  key_error assertion_error attribute_error type_error index_error : Error

pub data Result (A : Type 0) : Type 0 where
  ok : A → Result A
  raised : Error → Result A

abbrev pub Action : Type 0 → Type 0 → Type 0
Action S A = S → Result A × S

module _ {S A : Type 0} where
  abbrev pub pure : A → Action S A
  pure a s = (ok a, s)

  abbrev pub raise : Error → Action S A
  raise e s = (raised e, s)

  abbrev pub gets : (S → A) → Action S A
  gets f s = (ok (f s), s)

  abbrev pub lift : Result A → Action S A
  lift r s = (r, s)

  abbrev pub or_raise : Option A → Error → Action S A
  or_raise none e s = (raised e, s)
  or_raise (some a) e s = (ok a, s)

infixl 5 ◌>>=◌ ◌>>◌
abbrev pub ◌>>=◌ : {S A B : Type 0} → Action S A → (A → Action S B) → Action S B
◌>>=◌ m f s = let (r, s') = m s in elim r [ ok a ↦ f a s' | raised e ↦ (raised e, s') ]

abbrev pub ◌>>◌ : {S A B : Type 0} → Action S A → Action S B → Action S B
m >> k = m >>= λ _. k

module _ {S : Type 0} where
  abbrev pub raise_if : Bool → Error → Action S (Unit {0})
  raise_if c e s = (if c then raised e else ok tt, s)

  abbrev pub modify : (S → S) → Action S (Unit {0})
  modify f s = (ok tt, f s)

abbrev pub bind {ℓ} : {A : Type 0} {B : Type ℓ} → Result A → (A → B) → (Error → B) → B
bind (ok a) f g = f a
bind (raised e) f g = g e

-- The exceptions that stop the server wherever they are raised.
abbrev pub IsFatal : Error → Type 0
IsFatal type_error = Unit
IsFatal attribute_error = Unit
IsFatal _ = ⊥

-- Whatever is raised is fatal.
abbrev pub OnlyFatal : {A : Type 0} → Result A → Type 0
OnlyFatal (ok _) = Unit
OnlyFatal (raised e) = IsFatal e

pub bind-OnlyFatal :
    {A B : Type 0} (r : Result A) (f : A → Result B)
    → OnlyFatal r
    → ((a : A) → OnlyFatal (f a))
    → OnlyFatal (bind r f (λ e. raised e))
bind-OnlyFatal (ok a) f h k = k a
bind-OnlyFatal (raised e) f h k = h

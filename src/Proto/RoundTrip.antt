-- ===== src/Proto/RoundTrip.antt =====
-- paf/proto.py: a field that is put into a message is pulled from it again.
use paf.Prelude.{◌≤◌, ◌≡◌, refl, Bool, none, some, arith, nat_eq, text_eq, text_beq_iff, ◌∷◌, true}
use paf.Prelude.Dict.{lookup, insert, erase, lookup-insert_self, erase-insert_new}
use paf.Prelude.Int.{pos}
use paf.Proto.Props.{str, int, float, IsProps, from_wire-to_wire}
use paf.Proto.Fields.{
  Kind, Field, Message, Pulled, plain, props, non_negative_int_max, present, pull_field,
  non_negative_int, number, props_value, convert, pull, wire, put,
}

-- The values that a field of each class is meant for. `None` is no value of a field.
abbrev pub IsValue : Kind → Pulled → Type 0
IsValue Kind.string_field (plain (str s)) = Unit
IsValue Kind.non_negative_int_field (plain (int (pos n))) = n ≤ non_negative_int_max
IsValue Kind.number_field (plain (int n)) = Unit
IsValue Kind.number_field (plain (float x)) = Unit
IsValue Kind.props_field (props p) = IsProps p
IsValue _ _ = ⊥

pub convert-wire :
    (k : Kind) (v : Pulled)
    → IsValue k v
    → (convert k (wire v) ≡ some v) × (present (some (wire v)) ≡ some (wire v))
unfolding convert non_negative_int number props_value
convert-wire Kind.string_field (plain (str s)) h = (refl, refl)
convert-wire Kind.non_negative_int_field (plain (int (pos n))) h = (ground arith, refl)
convert-wire Kind.number_field (plain (int n)) h = (refl, refl)
convert-wire Kind.number_field (plain (float x)) h = (refl, refl)
convert-wire Kind.props_field (props p) h = (rw (from_wire-to_wire p h) refl, refl)
convert-wire _ _ h = absurd h

pub pull-found :
    (f : Field) (v : Pulled) (msg rest : Message) (opt : Bool)
    → lookup f.name msg ≡ some (wire v)
    → erase f.name msg ≡ rest
    → convert f.kind (wire v) ≡ some v
    → present (some (wire v)) ≡ some (wire v)
    → pull f opt msg ≡ some (some v, rest)
unfolding pull pull_field
pull-found f v msg rest opt e gone c p = ground arith

-- The first entry of a message.
pub pull-front :
    (f : Field) (v : Pulled) (rest : Message) (opt : Bool)
    → IsValue f.kind v
    → pull f opt ((f.name, wire v) ∷ rest) ≡ some (some v, rest)
unfolding lookup erase
pull-front f v rest opt h =
    let (c, p) = convert-wire f.kind v h in
    pull-found f v ((f.name, wire v) ∷ rest) rest opt (ground (arith, text_beq_iff f.name f.name))
      (ground (arith, text_beq_iff f.name f.name)) c p

-- A field that is not in a message.
pub pull-absent :
    (f : Field) (msg : Message) → lookup f.name msg ≡ none → pull f true msg ≡ some (none, msg)
unfolding pull pull_field
pull-absent f msg e = ground arith

-- A value of a field's class, put into a message that lacks the field, is pulled from it as it was, and
-- the message is the one of before; so for a field that may be left out. Properties go through the
-- lists of the wire, and integers up to 2^63 - 1 through the check of their bounds.
pub pull-put :
    (f : Field) (v : Pulled) (msg : Message) (opt : Bool)
    → IsValue f.kind v
    → lookup f.name msg ≡ none
    → pull f opt (put f v msg) ≡ some (some v, msg)
unfolding put
pull-put f v msg opt h new =
    let (c, p) = convert-wire f.kind v h in
    pull-found f v (insert f.name (wire v) msg) msg opt (lookup-insert_self f.name (wire v) msg)
      (erase-insert_new f.name (wire v) msg new) c p

-- ===== src/Proto/Props.antt =====
-- paf/proto.py, `PropsField.from_wire` and `to_wire`: the properties of a service in a message.
use paf.Prelude.{
  ◌≡◌, refl, sym, ap, ◌∙◌, Bool, true, false, ◌||◌, Option, none, some, List, [], ◌∷◌, ◌++◌, Text,
  text_beq, nat_beq, append_assoc, append-nil, arith, if◌then◌else◌,
}
use paf.Prelude.Int.{ℤ, pos, negsuc}
use paf.Filter.Syntax.{Value, Props}

-- What `json.loads` returns. A number that is no integer is kept as it is written. The keys of an
-- object are texts, and occur once.
mutual
  pub data Json : Type 0 where
    str : Text → Json
    int : ℤ → Json
    bool : Bool → Json
    float : Text → Json
    null : Json
    list : Jsons → Json
    object : Members → Json

  pub data Jsons : Type 0 where
    no_items : Jsons
    item : Json → Jsons → Jsons

  pub data Members : Type 0 where
    no_members : Members
    member : Text → Json → Members → Members

-- Python's `==` between values, where `True` is 1 and `False` is 0.
abbrev pub as_int : Bool → ℤ
as_int true = pos 1
as_int false = pos 0

unfoldable pub int_beq : ℤ → ℤ → Bool
int_beq (pos n) (pos m) = nat_beq n m
int_beq (pos n) (negsuc m) = false
int_beq (negsuc n) (pos m) = false
int_beq (negsuc n) (negsuc m) = nat_beq n m

unfoldable pub value_beq : Value → Value → Bool
unfolding int_beq
value_beq (Value.str s) (Value.str t) = text_beq s t
value_beq (Value.str s) (Value.int n) = false
value_beq (Value.str s) (Value.bool b) = false
value_beq (Value.int n) (Value.str t) = false
value_beq (Value.int n) (Value.int m) = int_beq n m
value_beq (Value.int n) (Value.bool b) = int_beq n (as_int b)
value_beq (Value.bool a) (Value.str t) = false
value_beq (Value.bool a) (Value.int m) = int_beq (as_int a) m
value_beq (Value.bool a) (Value.bool b) = int_beq (as_int a) (as_int b)

unfoldable pub has_value : Value → List Value → Bool
unfolding value_beq
has_value v [] = false
has_value v (w ∷ ws) = value_beq w v || has_value v ws

-- `props[key].add(value)`
abbrev pub add_value : Value → List Value → List Value
add_value v ws = if has_value v ws then ws else ws ++ v ∷ []

abbrev pub read_value : Json → Option Value
read_value (str s) = some (Value.str s)
read_value (int n) = some (Value.int n)
read_value (bool b) = some (Value.bool b)
read_value _ = none

-- The values of a key, after those that the set has; `none` is a `ProtocolError`.
unfoldable pub read_values : Jsons → List Value → Option (List Value)
unfolding has_value
read_values no_items ws = some ws
read_values (item j js) ws = elim (read_value j) [
  | none ↦ none
  | some v ↦ read_values js (add_value v ws)
]

-- A key comes into the `defaultdict` with its first value.
abbrev pub with_key : Text → List Value → Props → Props
with_key key [] props = props
with_key key (v ∷ vs) props = (key, v ∷ vs) ∷ props

unfoldable pub from_wire : Members → Option Props
unfolding read_values
from_wire no_members = some []
from_wire (member key (list js) ms) =
    let rest = from_wire ms in
    elim (read_values js []) [
      | none ↦ none
      | some vs ↦ elim rest [ none ↦ none | some props ↦ some (with_key key vs props) ]
    ]
from_wire (member key _ ms) = none

abbrev pub wire_value : Value → Json
wire_value (Value.str s) = str s
wire_value (Value.int n) = int n
wire_value (Value.bool b) = bool b

unfoldable pub wire_values : List Value → Jsons
wire_values [] = no_items
wire_values (v ∷ vs) = item (wire_value v) (wire_values vs)

unfoldable pub to_wire : Props → Members
unfolding wire_values
to_wire [] = no_members
to_wire ((key, []) ∷ props) = to_wire props
to_wire ((key, v ∷ vs) ∷ props) = member key (list (wire_values (v ∷ vs))) (to_wire props)

-- The values that follow those of a set are new to it, one after the other.
abbrev pub IsFresh : List Value → List Value → Type 0
IsFresh ws [] = Unit
IsFresh ws (v ∷ vs) = (has_value v ws ≡ false) × IsFresh (ws ++ v ∷ []) vs

-- Every key has a value, and the values of a key are a set.
abbrev pub IsProps : Props → Type 0
IsProps [] = Unit
IsProps ((key, []) ∷ props) = ⊥
IsProps ((key, v ∷ vs) ∷ props) = IsFresh [] (v ∷ vs) × IsProps props

read_values-item :
    (v : Value) (js : Jsons) (ws : List Value)
    → read_values (item (wire_value v) js) ws ≡ read_values js (add_value v ws)
unfolding read_values
read_values-item (Value.str s) js ws = refl
read_values-item (Value.int n) js ws = refl
read_values-item (Value.bool b) js ws = refl

add_value_new :
    (v : Value) (ws : List Value) → has_value v ws ≡ false → add_value v ws ≡ ws ++ v ∷ []
add_value_new v ws h = rw h refl

read_values-wire_values :
    (vs ws : List Value) → IsFresh ws vs → read_values (wire_values vs) ws ≡ some (ws ++ vs)
unfolding read_values wire_values
read_values-wire_values [] ws h = ap some (sym (append-nil ws))
read_values-wire_values (v ∷ vs) ws h =
    read_values-item v (wire_values vs) ws
    ∙ ap (read_values (wire_values vs)) (add_value_new v ws h.0)
    ∙ read_values-wire_values vs (ws ++ v ∷ []) h.1
    ∙ ap some (append_assoc ws (v ∷ []) vs)

from_wire-member :
    (key : Text) (js : Jsons) (ms : Members) (vs : List Value) (props : Props)
    → read_values js [] ≡ some vs
    → from_wire ms ≡ some props
    → from_wire (member key (list js) ms) ≡ some (with_key key vs props)
unfolding from_wire
from_wire-member key js ms vs props e e' = ground arith

-- Properties in which every key has a value, and no value twice, are read back from a message as they
-- were put into it.
pub from_wire-to_wire : (props : Props) → IsProps props → from_wire (to_wire props) ≡ some props
unfolding from_wire to_wire
from_wire-to_wire [] h = refl
from_wire-to_wire ((key, []) ∷ props) h = absurd h
from_wire-to_wire ((key, v ∷ vs) ∷ props) h =
    from_wire-member key (wire_values (v ∷ vs)) (to_wire props) (v ∷ vs) props
      (read_values-wire_values (v ∷ vs) [] h.0) (from_wire-to_wire props h.1)

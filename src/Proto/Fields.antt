-- ===== src/Proto/Fields.antt =====
-- paf/proto.py, `Field` and its subclasses.
use paf.Prelude.{
  ℕ, Bool, Option, none, some, [], ◌∷◌, Text, leb, ◌==◌, nat_eq, text_eq, if◌then◌else◌,
}
use paf.Prelude.Dict.{Dict, lookup, insert, erase}
use paf.Prelude.Int.{pos}
use paf.Filter.Syntax.{Props}
use paf.Proto.Props.{Json, int, bool, float, null, object, from_wire, to_wire}

-- The subclass of a field.
pub data Kind : Type 0 where
  string_field non_negative_int_field number_field props_field : Kind

pub record Field : Type 0 where
  pub name : Text
  pub kind : Kind

-- `self.name.replace('-', '_')`
unfoldable pub underscored : Text → Text
underscored [] = []
underscored (c ∷ s) = (if c == b'-' then b'_' else c) ∷ underscored s

abbrev pub python_name : Field → Text
python_name f = underscored f.name

-- A message in the making, or what is left of one.
abbrev pub Message : Type 0
Message = Dict Text Json

-- The Python value that a field stands for.
pub data Pulled : Type 0 where
  plain : Json → Pulled
  props : Props → Pulled

-- `NON_NEGATIVE_INT_MAX`, which is 2^63 - 1
abbrev pub non_negative_int_max : ℕ
non_negative_int_max = 9223372036854775807

-- `None` stands for a field that is missing, and for one whose value is `null`.
abbrev pub present : Option Json → Option Json
present (some null) = none
present o = o

-- `Field.pull`: the value, and the message without the field; `none` is a `ProtocolError`. A field that
-- may be left out gives `None`, the inner `none`, and the message as it is.
unfoldable pub pull_field : Field → Bool → Message → Option (Option Json × Message)
pull_field f opt msg = elim (present (lookup f.name msg)) [
  | none ↦ if opt then some (none, msg) else none
  | some value ↦ some (some value, erase f.name msg)
]

-- `NonNegativeIntField.pull`. Python's `True` and `False` are integers.
unfoldable pub non_negative_int : Json → Option Json
non_negative_int (int (pos n)) = if leb n non_negative_int_max then some (int (pos n)) else none
non_negative_int (bool b) = some (bool b)
non_negative_int _ = none

unfoldable pub number : Json → Option Json
number (int n) = some (int n)
number (bool b) = some (bool b)
number (float x) = some (float x)
number _ = none

unfoldable pub props_value : Json → Option Props
unfolding from_wire
props_value (object ms) = from_wire ms
props_value _ = none

abbrev pub as_plain : Option Json → Option Pulled
as_plain none = none
as_plain (some j) = some (plain j)

abbrev pub as_props : Option Props → Option Pulled
as_props none = none
as_props (some p) = some (props p)

-- What a subclass checks and converts. A `StringField` takes any value.
unfoldable pub convert : Kind → Json → Option Pulled
unfolding non_negative_int number props_value
convert Kind.string_field j = some (plain j)
convert Kind.non_negative_int_field j = as_plain (non_negative_int j)
convert Kind.number_field j = as_plain (number j)
convert Kind.props_field j = as_props (props_value j)

abbrev pub converted : Field → Option Json × Message → Option (Option Pulled × Message)
converted f (none, msg) = some (none, msg)
converted f (some j, msg) = elim (convert f.kind j) [ none ↦ none | some v ↦ some (some v, msg) ]

-- `pull` of the field's class
unfoldable pub pull : Field → Bool → Message → Option (Option Pulled × Message)
unfolding pull_field convert
pull f opt msg = elim (pull_field f opt msg) [ none ↦ none | some r ↦ converted f r ]

abbrev pub wire : Pulled → Json
wire (plain j) = j
wire (props p) = object (to_wire p)

-- `put` of the field's class
unfoldable pub put : Field → Pulled → Message → Message
put f v msg = insert f.name (wire v) msg

-- ===== src/Filter/Syntax.antt =====
-- paf/filter.py, the classes of filters, and the properties of services that they are matched
-- against.
use paf.Prelude.{ℕ, Bool, ◌||◌, Option, List, Text, ◌==◌, nat_eq}
use paf.Prelude.Dict.{Dict}
use paf.Prelude.Int.{ℤ}

-- A property value. JSON's `true` and `false` arrive as Python's `bool`, which is an `int` to
-- `isinstance` and not to `type(value) == int`.
pub data Value : Type 0 where
  str : Text → Value
  int : ℤ → Value
  bool : Bool → Value

-- A value of the dict is a set of values, listed in the order in which the set is walked.
abbrev pub Props : Type 0
Props = Dict Text (List Value)

-- `Filters` are the operands of a `CompositeFilter`.
mutual
  pub data Filter : Type 0 where
    equal : Text → Text → Filter
    greater_than less_than : Text → ℤ → Filter
    present : Text → Filter
    substring : Text → Option Text → List Text → Option Text → Filter
    not_filter : Filter → Filter
    and_filter or_filter : Filters → Filter

  pub data Filters : Type 0 where
    no_operands : Filters
    operand : Filter → Filters → Filters

-- `SPECIALS`, where `!` is missing.
unfoldable pub is_special : ℕ → Bool
is_special c =
    c == b'('
    || (c == b')'
        || (c == b'*'
            || (c == 92 || (c == b'&' || (c == b'|' || (c == b'=' || (c == b'>' || c == b'<')))))))

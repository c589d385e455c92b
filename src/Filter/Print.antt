-- ===== src/Filter/Print.antt =====
-- paf/filter.py: `escape`, and `__str__` of each class.
use paf.Prelude.{Option, none, some, List, [], ◌∷◌, ◌++◌, Text, if◌then◌else◌}
use paf.Prelude.Int.{print_int}
use paf.Filter.Syntax.{
  Filter, Filters, equal, greater_than, less_than, present, substring, not_filter, and_filter,
  or_filter, no_operands, operand, is_special,
}

unfoldable pub escape : Text → Text
unfolding is_special
escape [] = []
escape (c ∷ s) = if is_special c then 92 ∷ c ∷ escape s else c ∷ escape s

-- `for im in self.intermediate: s += "%s%s" % (escape(im), ANY)`
unfoldable pub print_intermediates : List Text → Text
unfolding escape
print_intermediates [] = []
print_intermediates (im ∷ ims) = escape im ++ b'*' ∷ print_intermediates ims

abbrev pub print_optional : Option Text → Text
print_optional none = []
print_optional (some s) = escape s

-- What stands between `(` and `)`.
unfoldable mutual
  pub body : Filter → Text
  body (equal key value) = escape key ++ b'=' ∷ escape value
  body (greater_than key n) = escape key ++ b'>' ∷ escape (print_int n)
  body (less_than key n) = escape key ++ b'<' ∷ escape (print_int n)
  body (present key) = escape key ++ b'=' ∷ b'*' ∷ []
  body (substring key initial intermediate final) =
      escape key
      ++ b'='
        ∷ (print_optional initial
            ++ b'*' ∷ (print_intermediates intermediate ++ print_optional final))
  body (not_filter f) = b'!' ∷ b'(' ∷ (body f ++ b')' ∷ [])
  body (and_filter fs) = b'&' ∷ bodies fs
  body (or_filter fs) = b'|' ∷ bodies fs

  pub bodies : Filters → Text
  bodies no_operands = []
  bodies (operand f fs) = b'(' ∷ (body f ++ b')' ∷ bodies fs)

-- `str(filter)`
unfoldable pub print : Filter → Text
unfolding body
print f = b'(' ∷ (body f ++ b')' ∷ [])

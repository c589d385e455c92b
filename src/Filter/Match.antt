-- ===== src/Filter/Match.antt =====
-- paf/filter.py, `match` of each class. A match raises `TypeError` where `re` is given a value that is
-- no string.
use paf.Prelude.{
  Bool, true, false, not, ◌&&◌, ◌||◌, Option, none, some, List, [], ◌∷◌, ◌++◌, Text, ◌==◌, nat_eq,
  text_eq,
}
use paf.Prelude.Dict.{lookup, contains}
use paf.Prelude.Action.{Result, ok, raised, type_error, bind}
use paf.Prelude.Int.{ℤ, ltb_ℤ, print_int}
use paf.Filter.Syntax.{
  Value, str, int, bool, Props, Filter, Filters, equal, greater_than, less_than, present, substring,
  not_filter, and_filter, or_filter, no_operands, operand,
}

-- The parts of the regular expression that `Substring.__init__` builds between `^` and `$`: an
-- escaped text, or `.*`.
pub data Piece : Type 0 where
  literal : Text → Piece
  any : Piece

abbrev pub intermediates : List Text → List Piece
intermediates [] = []
intermediates (im ∷ ims) = literal im ∷ any ∷ intermediates ims

unfoldable pub pattern_of : Option Text → List Text → Option Text → List Piece
pattern_of initial intermediate final =
    let start : List Piece = elim initial [ some s ↦ literal s ∷ any ∷ [] | none ↦ any ∷ [] ] in
    let end : List Piece = elim final [ some s ↦ literal s ∷ [] | none ↦ [] ] in
    start ++ (intermediates intermediate ++ end)

-- `$` stands at the end, and before a newline at the end.
unfoldable pub at_end : Text → Bool
at_end [] = true
at_end (c ∷ []) = c == 10
at_end (c ∷ d ∷ s) = false

-- A literal is consumed in front.
unfoldable pub after_literal : (Text → Bool) → Text → Text → Bool
after_literal k [] s = k s
after_literal k (c ∷ l) [] = false
after_literal k (c ∷ l) (d ∷ s) = c == d && after_literal k l s

-- `.*` consumes any number of characters that are no newline.
unfoldable pub after_any : (Text → Bool) → Text → Bool
after_any k [] = k []
after_any k (c ∷ s) = k (c ∷ s) || (not (c == 10) && after_any k s)

-- Does the expression match the text from its start?
unfoldable pub matches_pattern : List Piece → Text → Bool
unfolding after_literal after_any at_end
matches_pattern [] s = at_end s
matches_pattern (literal l ∷ ps) s = after_literal (matches_pattern ps) l s
matches_pattern (any ∷ ps) s = after_any (matches_pattern ps) s

-- `str(value)`
unfoldable pub value_str : Value → Text
unfolding print_int
value_str (str s) = s
value_str (int n) = print_int n
value_str (bool true) = b'T' ∷ b'r' ∷ b'u' ∷ b'e' ∷ []
value_str (bool false) = b'F' ∷ b'a' ∷ b'l' ∷ b's' ∷ b'e' ∷ []

-- `type(value) == int and value > self.value`, and the same for `<`.
unfoldable pub is_greater : ℤ → Value → Bool
is_greater n (int v) = ltb_ℤ n v
is_greater n (str s) = false
is_greater n (bool b) = false

unfoldable pub is_less : ℤ → Value → Bool
is_less n (int v) = ltb_ℤ v n
is_less n (str s) = false
is_less n (bool b) = false

unfoldable pub search : List Piece → Value → Result Bool
unfolding matches_pattern
search ps (str s) = ok (matches_pattern ps s)
search ps (int n) = raised type_error
search ps (bool b) = raised type_error

-- `for value in values: if test(value): return True`
unfoldable pub any_value : (Value → Result Bool) → List Value → Result Bool
any_value test [] = ok false
any_value test (v ∷ vs) =
    let rest = any_value test vs in
    elim (test v) [ ok true ↦ ok true | ok false ↦ rest | raised e ↦ raised e ]

-- The values of a key are tested, if the service has the key.
unfoldable pub match_values : (Value → Result Bool) → Text → Props → Result Bool
unfolding any_value
match_values test key props = elim (lookup key props) [
  | none ↦ ok false
  | some values ↦ any_value test values
]

unfoldable mutual
  pub matches : Filter → Props → Result Bool
  matches (equal key value) props = match_values (λ v. ok (value == value_str v)) key props
  matches (greater_than key n) props = match_values (λ v. ok (is_greater n v)) key props
  matches (less_than key n) props = match_values (λ v. ok (is_less n v)) key props
  matches (present key) props = ok (contains key props)
  matches (substring key initial intermediate final) props =
      match_values (search (pattern_of initial intermediate final)) key props
  matches (not_filter f) props = bind (matches f props) (λ b. ok (not b)) (λ e. raised e)
  matches (and_filter fs) props = all_match fs props
  matches (or_filter fs) props = any_match fs props

  pub all_match : Filters → Props → Result Bool
  all_match no_operands props = ok true
  all_match (operand f fs) props =
      let rest = all_match fs props in
      elim (matches f props) [ ok true ↦ rest | ok false ↦ ok false | raised e ↦ raised e ]

  pub any_match : Filters → Props → Result Bool
  any_match no_operands props = ok false
  any_match (operand f fs) props =
      let rest = any_match fs props in
      elim (matches f props) [ ok true ↦ ok true | ok false ↦ rest | raised e ↦ raised e ]

-- ===== src/Filter/Parse.antt =====
-- paf/filter.py: the recursive descent. What a parse has not consumed is the state's text from its
-- offset on. The loops and the recursion of the source take fuel.
use paf.Prelude.{
  ℕ, zero, suc, ◌+◌, ◌*◌, ◌-◌, Bool, true, false, ◌&&◌, Option, none, some, List, [], ◌∷◌, ◌++◌,
  Text, ◌==◌, nat_eq, leb, ltb, length, if◌then◌else◌,
}
use paf.Prelude.Int.{ℤ, pos, negsuc}
use paf.Filter.Syntax.{
  Filter, Filters, equal, greater_than, less_than, present, substring, not_filter, and_filter,
  or_filter, no_operands, operand, is_special,
}

-- `failed` is a `ParseError`; `out_of_fuel` has no counterpart in the source.
pub data Parsed (A : Type 0) : Type 0 where
  parsed : A → Text → Parsed A
  failed out_of_fuel : Parsed A

abbrev pub Parser : Type 0 → Type 0
Parser A = Text → Parsed A

module _ {A B : Type 0} where
  infixl 5 ◌>>=◌ ◌>>◌
  abbrev pub ◌>>=◌ : Parser A → (A → Parser B) → Parser B
  ◌>>=◌ p f s = elim (p s) [
    | parsed a rest ↦ f a rest
    | failed ↦ failed
    | out_of_fuel ↦ out_of_fuel
  ]

  abbrev pub ◌>>◌ : Parser A → Parser B → Parser B
  p >> q = p >>= λ _. q

module _ {A : Type 0} where
  abbrev pub pure : A → Parser A
  pure a s = parsed a s

  abbrev pub fail : Parser A
  fail s = failed

-- `current`
unfoldable pub current : Parser ℕ
current [] = failed
current (c ∷ s) = parsed c (c ∷ s)

-- `is_current`
unfoldable pub is_current : ℕ → Parser Bool
is_current expected [] = failed
is_current expected (c ∷ s) = parsed (c == expected) (c ∷ s)

-- `skip`
unfoldable pub skip : Parser (Unit {0})
skip [] = failed
skip (c ∷ s) = parsed tt s

-- `expect`
unfoldable pub expect : ℕ → Parser (Unit {0})
expect expected [] = failed
expect expected (c ∷ s) = if c == expected then parsed tt s else failed

-- `_parse_str`, on whether the last character was the escape, and the text so far.
unfoldable pub parse_str_from : Bool → Text → Parser Text
unfolding is_special
parse_str_from escaped out [] = failed
parse_str_from true out (c ∷ s) =
    let rest = parse_str_from false (out ++ c ∷ []) s in if is_special c then rest else failed
parse_str_from false out (c ∷ s) =
    let escape = parse_str_from true out s in
    let plain = parse_str_from false (out ++ c ∷ []) s in
    if c == 92 then escape else if is_special c then parsed out (c ∷ s) else plain

unfoldable pub parse_str : Parser Text
unfolding parse_str_from
parse_str = parse_str_from false []

abbrev pub is_empty : Text → Bool
is_empty [] = true
is_empty (c ∷ s) = false

-- `_check_value` and `_check_key`
abbrev pub check_nonempty : Text → Parser (Unit {0})
check_nonempty value = if is_empty value then fail else pure tt

abbrev pub optional : Text → Option Text
optional [] = none
optional (c ∷ s) = some (c ∷ s)

-- The loop of `_parse_equal` behind the first `*`: the intermediate parts and the final one.
unfoldable pub parse_parts : ℕ → List Text → Parser (List Text × Option Text)
unfolding parse_str is_current skip
parse_parts zero parts s = out_of_fuel
parse_parts (suc fuel) parts s =
    (do
      value ← parse_str
      any ← is_current b'*'
      let more : Parser (List Text × Option Text) = (do
        check_nonempty value
        skip
        λ rest. parse_parts fuel (parts ++ value ∷ []) rest)
      if any then more else pure (parts, optional value))
      s

abbrev pub make_substring : Text → Option Text → List Text × Option Text → Filter
make_substring key none ([], none) = present key
make_substring key initial (parts, final) = substring key initial parts final

unfoldable pub parse_equal : Text → Parser Filter
unfolding expect parse_parts
parse_equal key = do
  expect b'='
  value ← parse_str
  any ← is_current b'*'
  let whole : Parser Filter = check_nonempty value >> pure (equal key value)
  let parts : Parser Filter = (do
    skip
    found ← (λ s. parse_parts (suc (length s)) [] s)
    pure (make_substring key (optional value) found))
  if any then parts else whole

-- The decimal digits of `int(value)`, with single underscores between them. `between` says that the
-- last character was a digit.
unfoldable pub parse_digits : Bool → ℕ → Text → Option ℕ
parse_digits between acc [] = if between then some acc else none
parse_digits between acc (c ∷ s) =
    let digit = parse_digits true (acc * 10 + (c - b'0')) s in
    let underscore = parse_digits false acc s in
    if leb b'0' c && leb c b'9' then digit else (if c == b'_' && between then underscore else none)

-- `-n` for a number, as Python's `int` has no negative zero.
abbrev pub negative : ℕ → ℤ
negative zero = pos 0
negative (suc n) = negsuc n

abbrev pub signed : (ℕ → ℤ) → Option ℕ → Option ℤ
signed f none = none
signed f (some n) = some (f n)

-- `int(value)` of a text of ASCII characters that `strip` leaves alone; `none` is its `ValueError`.
-- (A text that `strip` changes begins or ends with white space, and has no such reading either.)
-- Python's `int` also reads decimal digits that are not ASCII; they have no reading here.
unfoldable pub parse_int : Text → Option ℤ
unfolding parse_digits
parse_int [] = none
parse_int (c ∷ s) =
    if c == b'-'
    then signed negative (parse_digits false 0 s)
    else (if c == b'+'
        then signed pos (parse_digits false 0 s)
        else signed pos (parse_digits false 0 (c ∷ s)))

-- `_parse_greater_and_less_than`
unfoldable pub parse_comparison : ℕ → (ℤ → Filter) → Parser Filter
unfolding parse_int
parse_comparison op make = do
  expect op
  value ← parse_str
  elim (parse_int value) [ none ↦ fail | some n ↦ pure (make n) ]

unfoldable pub parse_simple : Parser Filter
unfolding parse_equal parse_comparison
parse_simple = do
  key ← parse_str
  check_nonempty key
  equals ← is_current b'='
  greater ← is_current b'>'
  less ← is_current b'<'
  if equals
      then parse_equal key
      else (if greater
          then parse_comparison b'>' (greater_than key)
          else (if less then parse_comparison b'<' (less_than key) else fail))

-- `_parse`, and the loop of `_parse_composite` over the operands, which counts them. A call takes one
-- unit of fuel.
unfoldable mutual
  pub parse_filter : ℕ → Parser Filter
  parse_filter zero s = out_of_fuel
  parse_filter (suc fuel) s =
      let conjunction : Parser Filter = (do
        expect b'&'
        fs ← (λ rest. parse_operands fuel 0 rest)
        pure (and_filter fs)) in
      let disjunction : Parser Filter = (do
        expect b'|'
        fs ← (λ rest. parse_operands fuel 0 rest)
        pure (or_filter fs)) in
      let negation : Parser Filter = (do
        expect b'!'
        expect b'('
        f ← (λ rest. parse_filter fuel rest)
        expect b')'
        pure (not_filter f)) in
      (do
        c ← current
        if c == b'&'
            then conjunction
            else (if c == b'|'
                then disjunction
                else (if c == b'!' then negation else parse_simple)))
        s

  pub parse_operands : ℕ → ℕ → Parser Filters
  parse_operands zero count s = out_of_fuel
  parse_operands (suc fuel) count s =
      let more : Parser Filters = (do
        skip
        f ← (λ rest. parse_filter fuel rest)
        expect b')'
        fs ← (λ rest. parse_operands fuel (suc count) rest)
        pure (operand f fs)) in
      (do
        c ← current
        if c == b'('
            then more
            else (if c == b')' then (if ltb count 2 then fail else pure no_operands) else fail))
        s

abbrev pub at_end : Filter → Parser Filter
at_end f [] = parsed f []
at_end f (c ∷ s) = failed

-- `parse`, with fuel that is always enough.
unfoldable pub parse : Text → Parsed Filter
unfolding parse_filter
parse s =
    (do expect b'('; f ← (λ rest. parse_filter (suc (length rest)) rest); expect b')'; at_end f) s

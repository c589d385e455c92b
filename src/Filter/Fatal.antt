-- ===== src/Filter/Fatal.antt =====
-- paf/filter.py, `match`: what it raises, for the proofs about the methods that call it.
use paf.Prelude.{Bool, true, false, Option, none, some, List, [], ◌∷◌, Text, text_eq}
use paf.Prelude.Dict.{lookup}
use paf.Prelude.Action.{Result, ok, raised, OnlyFatal, bind-OnlyFatal}
use paf.Filter.Syntax.{
  Value, str, int, bool, Props, Filter, Filters, equal, greater_than, less_than, present, substring,
  not_filter, and_filter, or_filter, no_operands, operand,
}
use paf.Filter.Match.{
  Piece, search, any_value, match_values, matches, all_match, any_match, pattern_of,
}

any_value-OnlyFatal :
    (test : Value → Result Bool) (vs : List Value)
    → ((v : Value) → OnlyFatal (test v))
    → OnlyFatal (any_value test vs)
unfolding any_value
any_value-OnlyFatal test [] h = tt
any_value-OnlyFatal test (v ∷ vs) h = go (test v) (h v) (any_value-OnlyFatal test vs h)
  where
    go :
        (r : Result Bool)
        → OnlyFatal r
        → OnlyFatal (any_value test vs)
        → OnlyFatal
            (elim r [ ok true ↦ ok true | ok false ↦ any_value test vs | raised e ↦ raised e ])
    go (ok true) h rest = tt
    go (ok false) h rest = rest
    go (raised e) h rest = h

match_values-OnlyFatal :
    (test : Value → Result Bool) (key : Text) (props : Props)
    → ((v : Value) → OnlyFatal (test v))
    → OnlyFatal (match_values test key props)
unfolding match_values
match_values-OnlyFatal test key props h = go (lookup key props)
  where
    go :
        (o : Option (List Value))
        → OnlyFatal {A = Bool} (elim o [ none ↦ ok false | some values ↦ any_value test values ])
    go none = tt
    go (some values) = any_value-OnlyFatal test values h

search-OnlyFatal : (ps : List Piece) (v : Value) → OnlyFatal (search ps v)
unfolding search
search-OnlyFatal ps (str s) = tt
search-OnlyFatal ps (int n) = tt
search-OnlyFatal ps (bool b) = tt

choose-OnlyFatal :
    (r yes_ no_ : Result Bool)
    → OnlyFatal r
    → OnlyFatal yes_
    → OnlyFatal no_
    → OnlyFatal (elim r [ ok true ↦ yes_ | ok false ↦ no_ | raised e ↦ raised e ])
choose-OnlyFatal (ok true) y n h hy hn = hy
choose-OnlyFatal (ok false) y n h hy hn = hn
choose-OnlyFatal (raised e) y n h hy hn = h

mutual
  unfolding matches

  matches_fatal : (f : Filter) (props : Props) → OnlyFatal (matches f props)
  matches_fatal (equal key value) props = match_values-OnlyFatal _ key props (λ v. tt)
  matches_fatal (greater_than key n) props = match_values-OnlyFatal _ key props (λ v. tt)
  matches_fatal (less_than key n) props = match_values-OnlyFatal _ key props (λ v. tt)
  matches_fatal (present key) props = tt
  matches_fatal (substring key initial intermediate final) props =
      match_values-OnlyFatal _ key props (search-OnlyFatal (pattern_of initial intermediate final))
  matches_fatal (not_filter f) props =
      bind-OnlyFatal (matches f props) _ (matches_fatal f props) (λ b. tt)
  matches_fatal (and_filter fs) props = all_fatal fs props
  matches_fatal (or_filter fs) props = any_fatal fs props

  all_fatal : (fs : Filters) (props : Props) → OnlyFatal (all_match fs props)
  all_fatal no_operands props = tt
  all_fatal (operand f fs) props =
      choose-OnlyFatal (matches f props) (all_match fs props) (ok false) (matches_fatal f props)
        (all_fatal fs props) tt

  any_fatal : (fs : Filters) (props : Props) → OnlyFatal (any_match fs props)
  any_fatal no_operands props = tt
  any_fatal (operand f fs) props =
      choose-OnlyFatal (matches f props) (ok true) (any_match fs props) (matches_fatal f props) tt
        (any_fatal fs props)

-- A match of any filter returns, or raises a `TypeError` or an `AttributeError`, which no caller
-- handles.
pub matches-OnlyFatal : (f : Filter) (props : Props) → OnlyFatal (matches f props)
matches-OnlyFatal f props = matches_fatal f props

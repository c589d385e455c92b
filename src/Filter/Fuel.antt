-- ===== src/Filter/Fuel.antt =====
-- paf/filter.py: the fuel of the parser, and how much of the text it consumes.
use paf.Prelude.{
  ℕ, zero, suc, ◌≤◌, ◌<◌, Bool, true, false, Option, none, some, List, [], ◌∷◌, ◌++◌, Text, arith,
  length, ◌==◌, nat_eq, ltb, if◌then◌else◌,
}
use paf.Prelude.Int.{ℤ}
use paf.Filter.Syntax.{
  Filter, greater_than, less_than, operand, no_operands, not_filter, and_filter, or_filter,
  is_special,
}
use paf.Filter.Parse.{
  Parsed, parsed, failed, out_of_fuel, Parser, ◌>>=◌, ◌>>◌, pure, fail, current, is_current, skip,
  expect, parse_str_from, parse_str, check_nonempty, optional, parse_parts, make_substring,
  parse_equal, parse_int, parse_comparison, parse_simple, parse_filter, parse_operands, at_end,
  parse,
}

-- The run kept within its fuel and left no more than `n` characters.
abbrev pub Leaves : {A : Type 0} → ℕ → Parsed A → Type 0
Leaves n (parsed a rest) = length rest ≤ n
Leaves n failed = Unit
Leaves n out_of_fuel = ⊥

module _ {A B : Type 0} where
  >>=-Leaves :
      (p : Parser A) (f : A → Parser B) (s : Text) (n m : ℕ)
      → Leaves n (p s)
      → ((a : A) (rest : Text) → length rest ≤ n → Leaves m (f a rest))
      → Leaves m ((p >>= f) s)
  >>=-Leaves p f s n m h k = go (p s) h
    where
      go :
          (r : Parsed A)
          → Leaves n r
          → Leaves m
              (elim r [ parsed a rest ↦ f a rest | failed ↦ failed | out_of_fuel ↦ out_of_fuel ])
      go (parsed a rest) h' = k a rest h'
      go failed h' = tt
      go out_of_fuel h' = absurd h'

module _ {A : Type 0} where
  if-Leaves :
      (b : Bool) (n : ℕ) (x y : Parsed A) → Leaves n x → Leaves n y → Leaves n (if b then x else y)
  if-Leaves true n x y hx hy = hx
  if-Leaves false n x y hx hy = hy

  choose-Leaves :
      (b : Bool) (n : ℕ) (p q : Parser A) (s : Text)
      → Leaves n (p s)
      → Leaves n (q s)
      → Leaves n ((if b then p else q) s)
  choose-Leaves true n p q s hp hq = hp
  choose-Leaves false n p q s hp hq = hq

  le-Leaves : (n m : ℕ) (r : Parsed A) → n ≤ m → Leaves n r → Leaves m r
  le-Leaves n m (parsed a rest) le h = omega arith
  le-Leaves n m failed le h = tt
  le-Leaves n m out_of_fuel le h = h

skip-Leaves : (s : Text) (n : ℕ) → length s ≤ suc n → Leaves n (skip s)
unfolding skip
skip-Leaves [] n h = tt
skip-Leaves (c ∷ s) n h = omega arith

expect-Leaves : (x : ℕ) (s : Text) (n : ℕ) → length s ≤ suc n → Leaves n (expect x s)
unfolding expect
expect-Leaves x [] n h = tt
expect-Leaves x (c ∷ s) n h = if-Leaves (c == x) n (parsed tt s) failed (omega arith) tt

current-Leaves : (s : Text) → Leaves (length s) (current s)
unfolding current
current-Leaves [] = tt
current-Leaves (c ∷ s) = omega arith

is_current-Leaves : (x : ℕ) (s : Text) → Leaves (length s) (is_current x s)
unfolding is_current
is_current-Leaves x [] = tt
is_current-Leaves x (c ∷ s) = omega arith

parse_str_from-Leaves :
    (escaped : Bool) (out s : Text) (n : ℕ) → length s ≤ n → Leaves n (parse_str_from escaped out s)
unfolding parse_str_from
parse_str_from-Leaves escaped out [] n h = tt
parse_str_from-Leaves true out (c ∷ s) n h =
    if-Leaves (is_special c) n _ failed
      (parse_str_from-Leaves false (out ++ c ∷ []) s n (omega arith)) tt
parse_str_from-Leaves false out (c ∷ s) n h =
    if-Leaves (c == 92) n _ _ (parse_str_from-Leaves true out s n (omega arith)) (
      if-Leaves (is_special c) n _ _ h
        (parse_str_from-Leaves false (out ++ c ∷ []) s n (omega arith)))

parse_str-Leaves : (s : Text) → Leaves (length s) (parse_str s)
unfolding parse_str
parse_str-Leaves s = parse_str_from-Leaves false [] s (length s) (omega arith)

check_nonempty-Leaves : (v s : Text) → Leaves (length s) (check_nonempty v s)
check_nonempty-Leaves [] s = tt
check_nonempty-Leaves (c ∷ v) s = omega arith

module _ {A : Type 0} where
  -- What follows a character taken has less to read.
  skip-then :
      (f : Unit {0} → Parser A) (s : Text) (m : ℕ)
      → ((rest : Text) → suc (length rest) ≤ length s → Leaves m (f tt rest))
      → Leaves m ((skip >>= f) s)
  unfolding skip
  skip-then f [] m h = tt
  skip-then f (c ∷ s) m h = h s (omega arith)

  expect-then :
      (x : ℕ) (f : Unit {0} → Parser A) (s : Text) (m : ℕ)
      → ((rest : Text) → suc (length rest) ≤ length s → Leaves m (f tt rest))
      → Leaves m ((expect x >>= f) s)
  unfolding expect
  expect-then x f [] m h = tt
  expect-then x f (c ∷ s) m h = go (c == x)
    where
      go : (b : Bool) → Leaves m (((λ _. if b then parsed tt s else failed) >>= f) s)
      go true = h s (omega arith)
      go false = tt

parse_parts-Leaves :
    (fuel : ℕ) (parts : List Text) (s : Text)
    → length s < fuel
    → Leaves (length s) (parse_parts fuel parts s)
unfolding parse_parts
parse_parts-Leaves zero parts s h = absurd (omega arith)
parse_parts-Leaves (suc fuel) parts s h =
    >>=-Leaves parse_str _ s (length s) (length s) (parse_str-Leaves s) λ value s₁ h₁.
      >>=-Leaves (is_current b'*') _ s₁ (length s₁) (length s) (is_current-Leaves b'*' s₁)
        λ any s₂ h₂.
          choose-Leaves any (length s) _ (pure (parts, optional value)) s₂
            (>>=-Leaves (check_nonempty value) _ s₂ (length s₂) (length s)
              (check_nonempty-Leaves value s₂)
              λ _ s₃ h₃. skip-then _ s₃ (length s) λ rest h₄.
                le-Leaves (length rest) (length s) _ (omega arith)
                  (parse_parts-Leaves fuel (parts ++ value ∷ []) rest (omega arith)))
            (omega arith)

parse_equal-Leaves : (key s : Text) → Leaves (length s) (parse_equal key s)
unfolding parse_equal
parse_equal-Leaves key s = expect-then b'=' _ s (length s) λ s₁ h₁.
    >>=-Leaves parse_str _ s₁ (length s₁) (length s) (parse_str-Leaves s₁) λ value s₂ h₂.
      >>=-Leaves (is_current b'*') _ s₂ (length s₂) (length s) (is_current-Leaves b'*' s₂)
        λ any s₃ h₃.
          choose-Leaves any (length s) _ _ s₃
            (skip-then _ s₃ (length s) λ s₄ h₄.
              >>=-Leaves (λ x. parse_parts (suc (length x)) [] x)
                (λ x. pure (make_substring key (optional value) x)) s₄ (length s₄) (length s)
                (parse_parts-Leaves (suc (length s₄)) [] s₄ (omega arith))
                λ found s₅ h₅. omega arith)
            (>>=-Leaves (check_nonempty value) _ s₃ (length s₃) (length s)
              (check_nonempty-Leaves value s₃) λ _ s₄ h₄. omega arith)

number-Leaves :
    (make : ℤ → Filter) (n : Option ℤ) (s : Text)
    → Leaves
        (length s)
        ((elim n as (λ _. Parser Filter) [ none ↦ fail | some i ↦ pure (make i) ]) s)
number-Leaves make none s = tt
number-Leaves make (some i) s = omega arith

parse_comparison-Leaves :
    (x : ℕ) (make : ℤ → Filter) (s : Text) → Leaves (length s) (parse_comparison x make s)
unfolding parse_comparison
parse_comparison-Leaves x make s = expect-then x _ s (length s) λ s₁ h₁.
    >>=-Leaves parse_str _ s₁ (length s₁) (length s) (parse_str-Leaves s₁) λ value s₂ h₂.
      le-Leaves (length s₂) (length s) _ (omega arith) (number-Leaves make (parse_int value) s₂)

parse_simple-Leaves : (s : Text) → Leaves (length s) (parse_simple s)
unfolding parse_simple
parse_simple-Leaves s =
    >>=-Leaves parse_str _ s (length s) (length s) (parse_str-Leaves s) λ key s₁ h₁.
      >>=-Leaves (check_nonempty key) _ s₁ (length s₁) (length s) (check_nonempty-Leaves key s₁)
        λ _ s₂ h₂.
          >>=-Leaves (is_current b'=') _ s₂ (length s₂) (length s) (is_current-Leaves b'=' s₂)
            λ equals s₃ h₃.
              >>=-Leaves (is_current b'>') _ s₃ (length s₃) (length s) (is_current-Leaves b'>' s₃)
                λ greater s₄ h₄.
                  >>=-Leaves (is_current b'<') _ s₄ (length s₄) (length s)
                    (is_current-Leaves b'<' s₄)
                    λ less s₅ h₅.
                      choose-Leaves equals (length s) _ _ s₅
                        (le-Leaves (length s₅) (length s) _ (omega arith)
                          (parse_equal-Leaves key s₅))
                        (choose-Leaves greater (length s) _ _ s₅
                          (le-Leaves (length s₅) (length s) _ (omega arith)
                            (parse_comparison-Leaves b'>' (greater_than key) s₅))
                          (choose-Leaves less (length s) _ _ s₅
                            (le-Leaves (length s₅) (length s) _ (omega arith)
                              (parse_comparison-Leaves b'<' (less_than key) s₅))
                            tt))

mutual
  unfolding parse_filter parse_operands

  parse_filter-Leaves :
      (fuel : ℕ) (s : Text) → length s < fuel → Leaves (length s) (parse_filter fuel s)
  parse_filter-Leaves zero s h = absurd (omega arith)
  parse_filter-Leaves (suc fuel) s h =
      >>=-Leaves current _ s (length s) (length s) (current-Leaves s) λ c s₁ h₁.
        choose-Leaves (c == b'&') (length s) _ _ s₁
          (expect-then b'&' _ s₁ (length s) λ s₂ h₂.
            >>=-Leaves (λ x. parse_operands fuel 0 x) (λ fs. pure (and_filter fs)) s₂ (length s₂)
              (length s) (parse_operands-Leaves fuel 0 s₂ (omega arith)) λ fs s₃ h₃. omega arith)
          (choose-Leaves (c == b'|') (length s) _ _ s₁
            (expect-then b'|' _ s₁ (length s) λ s₂ h₂.
              >>=-Leaves (λ x. parse_operands fuel 0 x) (λ fs. pure (or_filter fs)) s₂ (length s₂)
                (length s) (parse_operands-Leaves fuel 0 s₂ (omega arith)) λ fs s₃ h₃. omega arith)
            (choose-Leaves (c == b'!') (length s) _ _ s₁
              (expect-then b'!' _ s₁ (length s) λ s₂ h₂. expect-then b'(' _ s₂ (length s) λ s₃ h₃.
                >>=-Leaves (λ x. parse_filter fuel x) (λ f. expect b')' >> pure (not_filter f)) s₃
                  (length s₃) (length s) (parse_filter-Leaves fuel s₃ (omega arith))
                  λ f s₄ h₄. expect-then b')' _ s₄ (length s) λ s₅ h₅. omega arith)
              (le-Leaves (length s₁) (length s) _ (omega arith) (parse_simple-Leaves s₁))))

  parse_operands-Leaves :
      (fuel count : ℕ) (s : Text)
      → length s < fuel
      → Leaves (length s) (parse_operands fuel count s)
  parse_operands-Leaves zero count s h = absurd (omega arith)
  parse_operands-Leaves (suc fuel) count s h =
      >>=-Leaves current _ s (length s) (length s) (current-Leaves s) λ c s₁ h₁.
        choose-Leaves (c == b'(') (length s) _ _ s₁
          (skip-then _ s₁ (length s) λ s₂ h₂.
            >>=-Leaves (λ x. parse_filter fuel x)
              (λ f.
                expect b')'
                >> ((λ x. parse_operands fuel (suc count) x) >>= λ fs. pure (operand f fs)))
              s₂ (length s₂) (length s) (parse_filter-Leaves fuel s₂ (omega arith))
              λ f s₃ h₃. expect-then b')' _ s₃ (length s) λ s₄ h₄.
                >>=-Leaves (λ x. parse_operands fuel (suc count) x) (λ fs. pure (operand f fs)) s₄
                  (length s₄) (length s) (parse_operands-Leaves fuel (suc count) s₄ (omega arith))
                  λ fs s₅ h₅. omega arith)
          (choose-Leaves (c == b')') (length s) _ _ s₁
            (choose-Leaves (ltb count 2) (length s) fail (pure no_operands) s₁ tt (omega arith)) tt)

at_end-Leaves : (f : Filter) (s : Text) → Leaves 0 (at_end f s)
at_end-Leaves f [] = omega arith
at_end-Leaves f (c ∷ s) = tt

-- A parse of any text ends within the fuel that `parse` gives it, and a filter that it returns is
-- read from the whole text: nothing is left behind it.
pub parse-Leaves : (s : Text) → Leaves 0 (parse s)
unfolding parse
parse-Leaves s = expect-then b'(' _ s 0 λ s₁ h₁.
    >>=-Leaves (λ x. parse_filter (suc (length x)) x) (λ f. expect b')' >> at_end f) s₁ (length s₁)
      0 (parse_filter-Leaves (suc (length s₁)) s₁ (omega arith))
      λ f s₂ h₂. expect-then b')' _ s₂ 0 λ s₃ h₃. at_end-Leaves f s₃

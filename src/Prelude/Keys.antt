-- ===== src/Prelude/Keys.antt =====
-- The keys of a dict, and lists without repetition.
use mathlib.Core.Path.{◌≡◌, refl, ap}
use mathlib.Core.Bool.{Bool, true, false, not, ◌&&◌, ◌||◌}
use mathlib.Core.Option.{none, some}
use mathlib.Core.List.{List, [], ◌∷◌, ◌++◌}
use native.Mathlib.Omega.{arith}
use paf.Prelude.Tests.{Eq, ◌==◌}
use paf.Prelude.Dict.{Dict, lookup, insert, erase}

module _ {κ} {K : Type κ} ⦃e : Eq K⦄ where
  abbrev pub occurs : K → List K → Bool
  occurs k [] = false
  occurs k (j ∷ js) = j == k || occurs k js

  -- No key occurs twice.
  abbrev pub apart : List K → Bool
  apart [] = true
  apart (k ∷ ks) = not (occurs k ks) && apart ks

  occurs-append : (k : K) (js ks : List K) → occurs k (js ++ ks) ≡ (occurs k js || occurs k ks)
  occurs-append k [] ks = refl
  occurs-append k (j ∷ js) ks = ground (arith, occurs-append k js ks)

  -- A key behind others is none of them.
  pub apart-before : (k : K) (js ks : List K) → apart (js ++ k ∷ ks) ≡ true → occurs k js ≡ false
  apart-before k [] ks h = refl
  apart-before k (j ∷ js) ks h =
      ground
        (arith, apart-before k js ks, occurs-append j js (k ∷ ks), e.beq_iff j k, e.beq_iff k j)

  pub apart-rest : (js ks : List K) → apart (js ++ ks) ≡ true → apart ks ≡ true
  apart-rest [] ks h = h
  apart-rest (j ∷ js) ks h = ground (arith, apart-rest js ks)

  pub apart-front : (js ks : List K) → apart (js ++ ks) ≡ true → apart js ≡ true
  apart-front [] ks h = refl
  apart-front (j ∷ js) ks h = ground (arith, apart-front js ks, occurs-append j js ks)

  pub apart-head : (k : K) (ks : List K) → apart (k ∷ ks) ≡ true → occurs k ks ≡ false
  apart-head k ks h = ground arith

  pub apart-drop : (k : K) (js ks : List K) → apart (js ++ k ∷ ks) ≡ true → apart (js ++ ks) ≡ true
  apart-drop k [] ks h = ground arith
  apart-drop k (j ∷ js) ks h =
      ground (arith, apart-drop k js ks, occurs-append j js (k ∷ ks), occurs-append j js ks)

module _ {κ ℓ} {K : Type κ} {V : Type ℓ} ⦃e : Eq K⦄ where
  abbrev pub all_keys : Dict K V → List K
  all_keys [] = []
  all_keys ((k, v) ∷ d) = k ∷ all_keys d

  pub all_keys-append : (c d : Dict K V) → all_keys (c ++ d) ≡ all_keys c ++ all_keys d
  all_keys-append [] d = refl
  all_keys-append ((k, v) ∷ c) d = ap (λ ks. k ∷ ks) (all_keys-append c d)

  pub lookup-absent : (k : K) (d : Dict K V) → occurs k (all_keys d) ≡ false → lookup k d ≡ none
  unfolding lookup
  lookup-absent k [] h = refl
  lookup-absent k ((j, v) ∷ d) h = ground (arith, lookup-absent k d)

  -- A new key goes to the end.
  pub insert_new :
      (k : K) (v : V) (d : Dict K V) → lookup k d ≡ none → insert k v d ≡ d ++ (k, v) ∷ []
  unfolding lookup insert
  insert_new k v [] h = refl
  insert_new k v ((j, w) ∷ d) h = ground (arith, insert_new k v d)

  pub lookup-front : (k : K) (v : V) (d : Dict K V) → lookup k ((k, v) ∷ d) ≡ some v
  unfolding lookup
  lookup-front k v d = ground (arith, e.beq_iff k k)

  pub erase-front : (k : K) (v : V) (d : Dict K V) → erase k ((k, v) ∷ d) ≡ d
  unfolding erase
  erase-front k v d = ground (arith, e.beq_iff k k)

-- ===== src/Prelude/Dict.antt =====
-- A Python dict in insertion order: lookup, assignment, deletion, and sums over its values.
use Prim.Native.Nat.{ℕ, ◌+◌, ◌≤◌}
use mathlib.Core.Path.{◌≡◌, refl}
use mathlib.Core.Logic.{◌≢◌}
use mathlib.Core.Bool.{Bool, true, false}
use mathlib.Core.Option.{Option, none, some}
use mathlib.Core.List.{List, [], ◌∷◌}
use native.Mathlib.Omega.{arith}
use paf.Prelude.Tests.{Eq, ◌==◌, if◌then◌else◌}

abbrev pub Dict {ℓ κ} : Type ℓ → Type κ → Type (ℓ ⊔ κ)
Dict K V = List (K × V)

abbrev pub is_some {ℓ} : {V : Type ℓ} → Option V → Bool
is_some none = false
is_some (some _) = true

module _ {ℓ κ} {K : Type ℓ} {V : Type κ} ⦃e : Eq K⦄ where
  unfoldable pub lookup : K → Dict K V → Option V
  lookup k [] = none
  lookup k ((j, v) ∷ d) = if j == k then some v else lookup k d

  -- `k in d`
  abbrev pub contains : K → Dict K V → Bool
  contains k d = is_some (lookup k d)

  -- `d[k] = v`
  unfoldable pub insert : K → V → Dict K V → Dict K V
  insert k v [] = (k, v) ∷ []
  insert k v ((j, w) ∷ d) = if j == k then (j, v) ∷ d else (j, w) ∷ insert k v d

  -- `del d[k]`
  unfoldable pub erase : K → Dict K V → Dict K V
  erase k [] = []
  erase k ((j, w) ∷ d) = if j == k then d else (j, w) ∷ erase k d

  -- No key is bound twice.
  abbrev pub IsUnique : Dict K V → Type κ
  IsUnique [] = Unit
  IsUnique ((k, v) ∷ d) = (lookup k d ≡ none) × IsUnique d

  pub lookup-insert :
      (k j : K) (v : V) (d : Dict K V)
      → lookup j (insert k v d) ≡ (if k == j then some v else lookup j d)
  unfolding lookup insert
  lookup-insert k j v [] = refl
  lookup-insert k j v ((i, w) ∷ d) =
      ground (arith, e.beq_iff k j, e.beq_iff i k, e.beq_iff i j, lookup-insert k j v d)

  pub lookup-insert_self : (k : K) (v : V) (d : Dict K V) → lookup k (insert k v d) ≡ some v
  lookup-insert_self k v d = ground (arith, lookup-insert k k v d, e.beq_iff k k)

  pub lookup-insert_ne :
      (k j : K) (v : V) (d : Dict K V) → k ≢ j → lookup j (insert k v d) ≡ lookup j d
  lookup-insert_ne k j v d ne = ground (arith, lookup-insert k j v d, e.beq_iff k j)

  pub lookup-erase_ne : (k j : K) (d : Dict K V) → k ≢ j → lookup j (erase k d) ≡ lookup j d
  unfolding lookup erase
  lookup-erase_ne k j [] ne = refl
  lookup-erase_ne k j ((i, w) ∷ d) ne =
      ground (arith, e.beq_iff i k, e.beq_iff i j, lookup-erase_ne k j d ne)

  pub lookup-erase_self : (k : K) (d : Dict K V) → IsUnique d → lookup k (erase k d) ≡ none
  unfolding lookup erase
  lookup-erase_self k [] u = refl
  lookup-erase_self k ((i, w) ∷ d) u = ground (arith, e.beq_iff i k, lookup-erase_self k d u.1)

  pub IsUnique-insert : (k : K) (v : V) (d : Dict K V) → IsUnique d → IsUnique (insert k v d)
  unfolding lookup insert
  IsUnique-insert k v [] u = (refl, tt)
  IsUnique-insert k v ((i, w) ∷ d) u =
      ground (arith, e.beq_iff i k, e.beq_iff k i, IsUnique-insert k v d u.1, lookup-insert k i v d)

  pub IsUnique-erase : (k : K) (d : Dict K V) → IsUnique d → IsUnique (erase k d)
  unfolding lookup erase
  IsUnique-erase k [] u = tt
  IsUnique-erase k ((i, w) ∷ d) u =
      ground (arith, e.beq_iff i k, e.beq_iff k i, IsUnique-erase k d u.1, lookup-erase_ne k i d)

  -- The sum of a measure over the values.
  unfoldable pub sum_by : (V → ℕ) → Dict K V → ℕ
  sum_by f [] = 0
  sum_by f ((k, v) ∷ d) = f v + sum_by f d

  pub sum_by-insert_new :
      (f : V → ℕ) (k : K) (v : V) (d : Dict K V)
      → lookup k d ≡ none
      → sum_by f (insert k v d) ≡ sum_by f d + f v
  unfolding lookup insert sum_by
  sum_by-insert_new f k v [] h = omega arith
  sum_by-insert_new f k v ((i, w) ∷ d) h = ground (arith, sum_by-insert_new f k v d)

  pub sum_by-insert :
      (f : V → ℕ) (k : K) (v w : V) (d : Dict K V)
      → lookup k d ≡ some w
      → sum_by f (insert k v d) + f w ≡ sum_by f d + f v
  unfolding lookup insert sum_by
  sum_by-insert f k v w [] h = cc
  sum_by-insert f k v w ((i, w') ∷ d) h = ground (arith, sum_by-insert f k v w d)

  pub sum_by-erase :
      (f : V → ℕ) (k : K) (w : V) (d : Dict K V)
      → lookup k d ≡ some w
      → sum_by f (erase k d) + f w ≡ sum_by f d
  unfolding lookup erase sum_by
  sum_by-erase f k w [] h = cc
  sum_by-erase f k w ((i, w') ∷ d) h = ground (arith, sum_by-erase f k w d)

  pub le-sum_by :
      (f : V → ℕ) (k : K) (w : V) (d : Dict K V) → lookup k d ≡ some w → f w ≤ sum_by f d
  le-sum_by f k w d h = omega (arith, sum_by-erase f k w d h)

module _ {ℓ κ} {K : Type ℓ} {V : Type κ} ⦃e : Eq K⦄ where
  pub insert-insert : (k : K) (v w : V) (d : Dict K V) → insert k v (insert k w d) ≡ insert k v d
  unfolding insert
  insert-insert k v w [] = ground (arith, e.beq_iff k k)
  insert-insert k v w ((i, w') ∷ d) = ground (arith, e.beq_iff i k, insert-insert k v w d)

  pub insert-lookup : (k : K) (v : V) (d : Dict K V) → lookup k d ≡ some v → insert k v d ≡ d
  unfolding lookup insert
  insert-lookup k v [] h = cc
  insert-lookup k v ((i, w') ∷ d) h = ground (arith, insert-lookup k v d)

  pub erase-insert_new :
      (k : K) (v : V) (d : Dict K V) → lookup k d ≡ none → erase k (insert k v d) ≡ d
  unfolding lookup insert erase
  erase-insert_new k v [] h = ground (arith, e.beq_iff k k)
  erase-insert_new k v ((i, w) ∷ d) h = ground (arith, e.beq_iff i k, erase-insert_new k v d)

  pub erase-insert :
      (k : K) (v : V) (d : Dict K V) → lookup k d ≢ none → erase k (insert k v d) ≡ erase k d
  unfolding lookup insert erase
  erase-insert k v [] h = absurd (h refl)
  erase-insert k v ((i, w') ∷ d) h = ground (arith, erase-insert k v d)

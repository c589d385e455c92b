-- ===== src/Sd/Timeouts/Order.antt =====
-- paf/sd.py, `TimeoutQueue`: the order of the queue and its entries.
use paf.Prelude.{
  ℕ, ◌≤◌, ◌<◌, ◌≡◌, refl, subst, inl, inr, Bool, false, ◌||◌, Option, none, some, List, [], ◌∷◌,
  arith, leb, ◌==◌, nat_eq, nat_beq, if◌then◌else◌, All, Bool-cases, Option-cases,
}
use paf.Prelude.Dict.{lookup, erase, IsUnique}
use paf.Sd.Timeouts.{Timeouts, add_behind, or_front, add, remove, timed_out}

abbrev pub IsSorted : Timeouts → Type 0
IsSorted [] = Unit
IsSorted ((i, v) ∷ q) = All (λ (e : ℕ × ℕ). v ≤ e.1) q × IsSorted q

All-le :
    (v w : ℕ) (q : Timeouts)
    → v ≤ w
    → All (λ (e : ℕ × ℕ). w ≤ e.1) q
    → All (λ (e : ℕ × ℕ). v ≤ e.1) q
All-le v w [] h a = tt
All-le v w ((i, x) ∷ q) h a = (omega arith, All-le v w q h a.1)

-- What the loop has found, by how it ended.
abbrev Adds : ℕ → Timeouts → Option Timeouts → Type 0
Adds value q none = All (λ (e : ℕ × ℕ). value ≤ e.1) q
Adds value q (some q') =
    IsSorted q'
    × ((m : ℕ) → All (λ (e : ℕ × ℕ). m ≤ e.1) q → (m ≤ value) × All (λ (e : ℕ × ℕ). m ≤ e.1) q')

add_behind-Adds : (id value : ℕ) (q : Timeouts) → IsSorted q → Adds value q (add_behind id value q)
unfolding add_behind
add_behind-Adds id value [] s = tt
add_behind-Adds id value ((i, v) ∷ q) s =
    let ih : Adds value q (add_behind id value q) = add_behind-Adds id value q s.1 in
    elim (Option-cases (add_behind id value q)) [
      | inl e ↦ elim (Bool-cases (leb v value)) [
        | inl le ↦
            rw (e, le)
              (
                ((ground arith, s.0), ((subst (Adds value q) e ih), s.1)),
                λ m a. (ground arith, (a.0, (ground arith, a.1))),
              )
        | inr gt ↦ rw (e, gt) (ground arith, (subst (Adds value q) e ih))
      ]
      | inr (q', e) ↦ rw e (
        ((((subst (Adds value q) e ih).1 v s.0).1), (subst (Adds value q) e ih).0),
        λ m a. (
          ((subst (Adds value q) e ih).1 m a.1).0,
          (a.0, ((subst (Adds value q) e ih).1 m a.1).1),
        ),
      )
    ]

or_front-IsSorted :
    (o : Option Timeouts) (id value : ℕ) (q : Timeouts)
    → IsSorted q
    → Adds value q o
    → IsSorted (or_front o id value q)
or_front-IsSorted none id value q s found = (found, s)
or_front-IsSorted (some q') id value q s found = found.0

-- `add` keeps the queue sorted.
pub add-IsSorted : (id value : ℕ) (q : Timeouts) → IsSorted q → IsSorted (add id value q)
unfolding add
add-IsSorted id value q s =
    or_front-IsSorted (add_behind id value q) id value q s (add_behind-Adds id value q s)

All-remove :
    (m id : ℕ) (q : Timeouts)
    → All (λ (e : ℕ × ℕ). m ≤ e.1) q
    → All (λ (e : ℕ × ℕ). m ≤ e.1) (remove id q)
unfolding remove
All-remove m id [] a = tt
All-remove m id ((i, v) ∷ q) a = ground (arith, All-remove m id q a.1)

pub remove-IsSorted : (id : ℕ) (q : Timeouts) → IsSorted q → IsSorted (remove id q)
unfolding remove
remove-IsSorted id [] s = tt
remove-IsSorted id ((i, v) ∷ q) s = ground (arith, remove-IsSorted id q s.1, All-remove v id q s.0)

pub remove-eq-erase : (id : ℕ) (q : Timeouts) → remove id q ≡ erase id q
unfolding remove erase
remove-eq-erase id [] = refl
remove-eq-erase id ((i, v) ∷ q) = ground (arith, remove-eq-erase id q)

-- Where the new entry goes, the lookups are those of the queue with it in front.
abbrev pub Finds : ℕ → ℕ → Timeouts → Option Timeouts → Type 0
Finds id value q none = Unit
Finds id value q (some q') =
    IsUnique q' × ((j : ℕ) → lookup j q' ≡ (if id == j then some value else lookup j q))

add_behind-Finds :
    (id value : ℕ) (q : Timeouts)
    → IsUnique q
    → lookup id q ≡ none
    → Finds id value q (add_behind id value q)
unfolding add_behind lookup
add_behind-Finds id value [] u h = tt
add_behind-Finds id value ((i, v) ∷ q) u h =
    let ne : nat_beq i id ≡ false = ground arith in
    let ih : Finds id value q (add_behind id value q) =
      add_behind-Finds id value q u.1 (ground arith) in
    elim (Option-cases (add_behind id value q)) [
      | inl e ↦ elim (Bool-cases (leb v value)) [
        | inl le ↦ rw (e, le) ((ground arith, (ground arith, u.1)), λ j. ground arith)
        | inr gt ↦ rw (e, gt) tt
      ]
      | inr (q', e) ↦
          let ih' : Finds id value q (some q') = subst (Finds id value q) e ih in
          rw e ((ground (arith, ih'.1 i), ih'.0), λ j. ground (arith, ih'.1 j))
    ]

or_front-Finds :
    (o : Option Timeouts) (id value : ℕ) (q : Timeouts)
    → IsUnique q
    → lookup id q ≡ none
    → Finds id value q o
    → Finds id value q (some (or_front o id value q))
unfolding lookup
or_front-Finds none id value q u h found = ((h, u), λ j. refl)
or_front-Finds (some q') id value q u h found = found

-- What `add` puts into a queue that lacks the id: that entry, once, and nothing else.
pub add-Finds :
    (id value : ℕ) (q : Timeouts)
    → IsUnique q
    → lookup id q ≡ none
    → Finds id value q (some (add id value q))
unfolding add
add-Finds id value q u h =
    or_front-Finds (add_behind id value q) id value q u h (add_behind-Finds id value q u h)

abbrev pub mem : ℕ → List ℕ → Bool
mem j [] = false
mem j (i ∷ ids) = i == j || mem j ids

abbrev pub is_due : ℕ → Option ℕ → Bool
is_due now none = false
is_due now (some v) = leb v now

late-is_due :
    (now v j : ℕ) (q : Timeouts)
    → now < v
    → All (λ (e : ℕ × ℕ). v ≤ e.1) q
    → is_due now (lookup j q) ≡ false
unfolding lookup
late-is_due now v j [] h a = refl
late-is_due now v j ((i, w) ∷ q) h a = ground (arith, late-is_due now v j q h a.1)

-- In a sorted queue the ids of `timed_out` are those of all entries that are due, and of no others.
pub mem-timed_out :
    (now j : ℕ) (q : Timeouts)
    → IsSorted q
    → IsUnique q
    → mem j (timed_out now q) ≡ is_due now (lookup j q)
unfolding timed_out lookup
mem-timed_out now j [] s u = refl
mem-timed_out now j ((i, v) ∷ q) s u =
    ground (arith, mem-timed_out now j q s.1 u.1, late-is_due now v j q)

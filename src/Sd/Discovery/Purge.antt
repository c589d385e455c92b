-- ===== src/Sd/Discovery/Purge.antt =====
-- paf/sd.py, `ServiceDiscovery.purge_orphans`: exactly the orphans that are due go.
use paf.Prelude.{
  ℕ, ◌≡◌, refl, ap, ◌∙◌, Bool, true, false, none, List, [], ◌∷◌, nat_eq, nat_beq, nat_beq_iff,
  arith, inl, inr, Bool-cases, Option-cases, if◌then◌else◌, ltb,
}
use paf.Prelude.Dict.{lookup, erase, is_some, IsUnique, lookup-erase_self, lookup-erase_ne}
use paf.Prelude.Action.{pure}
use paf.Sd.Timeouts.{Timeouts, timed_out}
use paf.Sd.Timeouts.Order.{mem, is_due, mem-timed_out}
use paf.Sd.Discovery.{Discovery, unpublish_service, unpublish_services, purge_orphans}
use paf.Sd.Discovery.Ensures.{Ensures, mono-Ensures, >>=-Ensures}
use paf.Sd.Discovery.Orphans.{timeout_of}
use paf.Sd.Discovery.Invariant.{IsValid}
use paf.Sd.Discovery.Removal.{Removed, unpublish_service-Removed}

abbrev Distinct : List ℕ → Type 0
Distinct [] = Unit
Distinct (i ∷ ids) = (mem i ids ≡ false) × Distinct ids

mem-timed_out_some :
    (now j : ℕ) (q : Timeouts) → mem j (timed_out now q) ≡ true → is_some (lookup j q) ≡ true
unfolding timed_out lookup
mem-timed_out_some now j [] h = h
mem-timed_out_some now j ((i, v) ∷ q) h = ground (arith, mem-timed_out_some now j q)

timed_out-Distinct : (now : ℕ) (q : Timeouts) → IsUnique q → Distinct (timed_out now q)
unfolding timed_out
timed_out-Distinct now [] u = tt
timed_out-Distinct now ((i, v) ∷ q) u = elim (Bool-cases (ltb now v)) [
  | inl late ↦ rw late tt
  | inr due ↦ rw due (ground (arith, mem-timed_out_some now i q), timed_out-Distinct now q u.1)
]

-- The services with these ids are gone, and the others are as before.
abbrev pub AllRemoved : List ℕ → Discovery → Discovery → Type 0
AllRemoved ids st st' =
    IsValid st'
    × ((j : ℕ) → lookup j st'.services ≡ (if mem j ids then none else lookup j st.services))

unpublish_services-AllRemoved :
    (ids : List ℕ) (st : Discovery)
    → IsValid st
    → Distinct ids
    → ((j : ℕ) → mem j ids ≡ true → is_some (lookup j st.services) ≡ true)
    → Ensures IsValid (λ _ st'. AllRemoved ids st st') (unpublish_services ids st)
unfolding unpublish_services
unpublish_services-AllRemoved [] st h d there = (h, λ j. refl)
unpublish_services-AllRemoved (i ∷ ids) st h d there =
    >>=-Ensures IsValid (λ _ st'. Removed i st st') (λ _ st'. AllRemoved (i ∷ ids) st st')
      (unpublish_service i) (λ _. unpublish_services ids) st
      (elim (Option-cases (lookup i st.services)) [
        | inl missing ↦ absurd (ground (arith, there i, nat_beq_iff i i))
        | inr (s, e) ↦ unpublish_service-Removed i st h s e
      ])
      (λ _ st' (h', gone).
        mono-Ensures IsValid (λ _ y. AllRemoved ids st' y) (λ _ y. AllRemoved (i ∷ ids) st y)
          (λ _ y (v, looks).
            (v, λ j. ground (arith, looks j, nat_beq_iff i j, look st' gone j, d.0)))
          (unpublish_services ids st')
          (unpublish_services-AllRemoved ids st' h' d.1
            (λ j m. ground (arith, there j, nat_beq_iff i j, look st' gone j, d.0))))
  where
    look :
        (x : Discovery)
        → x.services ≡ erase i st.services
        → (j : ℕ) → lookup j x.services ≡ (if nat_beq i j then none else lookup j st.services)
    look x gone j = ground (
      arith,
      nat_beq_iff i j,
      lookup-erase_self i st.services h.timed.unique,
      lookup-erase_ne i j st.services,
    )

-- A purge of a valid state, where it returns, returns the ids of exactly the orphans whose timeout has
-- passed, has removed exactly these services, and keeps the invariant. An error of sd.py leaves a valid
-- state. Nothing is said of the state where a `TypeError` or an `AttributeError` stops the server.
pub purge_orphans-AllRemoved :
    (now : ℕ) (st : Discovery)
    → IsValid st
    → Ensures IsValid
        (λ ids st'.
          IsValid st'
          × ((j : ℕ) → mem j ids ≡ is_due now (timeout_of (lookup j st.services)))
          × ((j : ℕ)
              → lookup j st'.services ≡ (
                  if is_due now (timeout_of (lookup j st.services))
                  then none
                  else lookup j st.services)))
        (purge_orphans now st)
unfolding purge_orphans
purge_orphans-AllRemoved now st h =
    let ids : List ℕ = timed_out now st.orphans in
    let due : (j : ℕ) → mem j ids ≡ is_due now (timeout_of (lookup j st.services)) = λ j.
      mem-timed_out now j st.orphans h.timed.sorted h.timed.once
      ∙ ap (is_due now) (h.timed.timed j) in
    >>=-Ensures IsValid (λ _ st'. AllRemoved ids st st') _ (unpublish_services ids) (λ _. pure ids)
      st
      (unpublish_services-AllRemoved ids st h (timed_out-Distinct now st.orphans h.timed.once)
        (λ j m. due_exists now j (due j) m))
      (λ _ st' (v, looks). (
        v,
        due,
        λ j. looks j ∙ ap (λ (b : Bool). if b then none else lookup j st.services) (due j),
      ))
  where
    due_exists :
        (now j : ℕ)
        → mem j (timed_out now st.orphans) ≡ is_due now (timeout_of (lookup j st.services))
        → mem j (timed_out now st.orphans) ≡ true
        → is_some (lookup j st.services) ≡ true
    due_exists now j e m = elim (Option-cases (lookup j st.services)) [
      | inl none_ ↦ cc
      | inr (s, some_) ↦ rw some_
    ]

-- ===== src/Sd/Resources/Transfer.antt =====
-- paf/sd.py, `ResourceManager.transfer`: a failed transfer gives back what it took.
use paf.Prelude.{none, ◌+◌, ◌≡◌, refl, arith, subst, sym, Text, text_eq, text_beq_iff}
use paf.Prelude.Dict.{lookup}
use paf.Prelude.Action.{Result, bind, ok, raised, resource_error, key_error, assertion_error}
use paf.Sd.Resources.{
  ResourceType, ResourceManager, total, allocate, deallocate, transfer, give_back,
}
use paf.Sd.Resources.Ledger.{type_beq_refl, used, IsValid, same}
use paf.Sd.Resources.Allocate.{Holds, Allocates, allocate-Allocates}
use paf.Sd.Resources.Release.{Overdraws, Deallocates, deallocate-Deallocates, room_again}

-- What a call of `transfer` has done to the ledger, by how it ended.
abbrev pub Transfers :
    Text → Text → ResourceType → ResourceManager → Result (Unit {0}) × ResourceManager → Type 0
Transfers a b t rm (ok _, rm') =
    IsValid rm'
    × ((v : Text) (s : ResourceType) → used v s rm' + same a t v s ≡ used v s rm + same b t v s)
    × ((s : ResourceType) → total s rm' ≡ total s rm)
Transfers a b t rm (raised resource_error, rm') = IsValid rm' × Holds rm rm'
Transfers a b t rm (raised key_error, rm') = (rm' ≡ rm) × (lookup a rm.consumers ≡ none)
Transfers a b t rm (raised assertion_error, rm') = Overdraws a t rm rm'
Transfers a b t rm (raised _, rm') = ⊥

give_back_eq :
    (a : Text) (t : ResourceType) (rm rm' : ResourceManager) (r : Result (Unit {0}))
    → allocate a t rm ≡ (r, rm')
    → give_back a t (raised resource_error) rm
      ≡ bind r (λ _. (raised resource_error, rm')) (λ err. (raised err, rm'))
give_back_eq a t rm rm' (ok _) e = ground arith
give_back_eq a t rm rm' (raised err) e = ground arith

transfer_eq :
    (a b : Text) (t : ResourceType) (rm rm' : ResourceManager) (r : Result (Unit {0}))
    → deallocate a t rm ≡ (r, rm')
    → transfer a b t rm
      ≡ bind r
          (λ _. let (r', rm₂) = allocate b t rm' in give_back a t r' rm₂)
          (λ err. (raised err, rm'))
unfolding transfer
transfer_eq a b t rm rm' (ok _) e = ground arith
transfer_eq a b t rm rm' (raised err) e = ground arith

module _ (a b : Text) (t : ResourceType) (rm : ResourceManager) (valid : IsValid rm) where
  give_back-Transfers :
      (rm₁ rm₂ : ResourceManager)
      → Deallocates a t rm (ok tt, rm₁)
      → Allocates b t rm₁ (raised resource_error, rm₂)
      → (x : Result (Unit {0}) × ResourceManager) → allocate a t rm₂ ≡ x
      → Allocates a t rm₂ x
      → Transfers a b t rm (give_back a t (raised resource_error) rm₂)
  give_back-Transfers rm₁ rm₂ (_, k₁, p₁, u₁, t₁) (_, _, (k₂, u₂, t₂)) (ok _, rm₃) e
        (valid₃, k₃, room, u₃, t₃) =
      subst (Transfers a b t rm) (sym (give_back_eq a t rm₂ rm₃ (ok tt) e)) (
        valid₃,
        (
          (ground arith, ground arith),
          (λ v s. omega (arith, u₁ v s, u₂ v s, u₃ v s)),
          λ s. omega (arith, t₁ s, t₂ s, t₃ s),
        ),
      )
  give_back-Transfers rm₁ rm₂ (_, k₁, p₁, u₁, t₁) (_, _, (k₂, u₂, t₂)) (raised resource_error, rm₃)
        e (valid₃, full, same_) =
      absurd (
        ground (
          arith,
          room_again a t rm rm₂ valid,
          u₁ a t,
          u₂ a t,
          t₁ t,
          t₂ t,
          type_beq_refl t,
          text_beq_iff a a,
        ))
  give_back-Transfers rm₁ rm₂ d f (raised _, rm₃) e x = absurd x

  allocate-Transfers :
      (rm₁ : ResourceManager)
      → deallocate a t rm ≡ (ok tt, rm₁)
      → Deallocates a t rm (ok tt, rm₁)
      → (x : Result (Unit {0}) × ResourceManager) → allocate b t rm₁ ≡ x
      → Allocates b t rm₁ x
      → Transfers a b t rm (give_back a t x.0 x.1)
  allocate-Transfers rm₁ e₁ (_, k₁, p₁, u₁, t₁) (ok _, rm₂) e₂ (v₂, k₂, room, u₂, t₂) =
      (v₂, (λ v s. omega (arith, u₁ v s, u₂ v s)), λ s. omega (arith, t₁ s, t₂ s))
  allocate-Transfers rm₁ e₁ d (raised resource_error, rm₂) e₂ f =
      give_back-Transfers rm₁ rm₂ d f (allocate a t rm₂) refl (allocate-Allocates a t rm₂ f.0)
  allocate-Transfers rm₁ e₁ d (raised _, rm₂) e₂ f = absurd f

  deallocate-Transfers :
      (x : Result (Unit {0}) × ResourceManager)
      → deallocate a t rm ≡ x
      → Deallocates a t rm x
      → Transfers a b t rm (transfer a b t rm)
  deallocate-Transfers (ok _, rm₁) e d =
      subst (Transfers a b t rm) (sym (transfer_eq a b t rm rm₁ (ok tt) e))
        (allocate-Transfers rm₁ e d (allocate b t rm₁) refl (allocate-Allocates b t rm₁ d.0))
  deallocate-Transfers (raised key_error, rm₁) e d =
      subst (Transfers a b t rm) (sym (transfer_eq a b t rm rm₁ (raised key_error) e)) d
  deallocate-Transfers (raised assertion_error, rm₁) e d =
      subst (Transfers a b t rm) (sym (transfer_eq a b t rm rm₁ (raised assertion_error) e)) d
  deallocate-Transfers (raised _, rm₁) e d = absurd d

-- A transfer moves one resource of the type from the first user to the second, or raises
-- `ResourceError` and leaves every count as it was: the allocation that gives back what was taken
-- always succeeds. The limits hold afterwards and the total is unchanged. It fails otherwise only where
-- the first user holds none: with a `KeyError`, which changes nothing, where that user has no consumer,
-- and with an `AssertionError` that leaves the count at -1, and all else as it was, where there is one.
pub transfer-Transfers :
    (a b : Text) (t : ResourceType) (rm : ResourceManager)
    → IsValid rm
    → Transfers a b t rm (transfer a b t rm)
transfer-Transfers a b t rm valid =
    deallocate-Transfers a b t rm valid (deallocate a t rm) refl
      (deallocate-Deallocates a t rm valid)

-- ===== src/Sd/Resources/Allocate.antt =====
-- paf/sd.py, `ResourceManager.allocate`: a grant adds one, and a refusal means that a limit is reached.
use paf.Prelude.{
  ◌+◌, ◌≡◌, refl, inl, inr, Bool, true, false, ◌||◌, arith, Text, text_eq, text_beq_iff, bit,
  Bool-cases,
}
use paf.Prelude.Dict.{lookup}
use paf.Prelude.Action.{Result, ok, raised, resource_error}
use paf.Sd.Resources.{
  ResourceType, at, Limits, Consumer, is_reached, ResourceManager, total, allocate,
}
use paf.Sd.Resources.Ledger.{
  type_beq, at-set_at, type_beq_refl, type_beq→eq, used, IsWithin, IsValid, slot, put, count_up,
  allocate_lem, same, used-put, total-put, put-IsValid, slot-IsWithin, used-slot, level-slot,
  IsBelow-suc, IsBelow-le,
}

count_up-IsWithin :
    (t : ResourceType) (c : Consumer) (l : Limits)
    → IsWithin l c
    → is_reached (at t c.max_resources) (at t c.used_resources) ≡ false
    → IsWithin l (count_up t c)
count_up-IsWithin t c l w h = record {
  limits_eq = w.limits_eq;
  below = λ s. elim (Bool-cases (type_beq s t)) [
    | inl e ↦ rw (type_beq→eq s t e) (
        IsBelow-suc (at t l) (at t c.used_resources) _
          (ground
            (arith, at-set_at t t (at t c.used_resources + 1) c.used_resources, type_beq_refl t))
          (rw (← w.limits_eq) h) (w.below t))
    | inr e ↦
        IsBelow-le (at s l) (at s c.used_resources) _
          (ground (arith, at-set_at s t (at t c.used_resources + 1) c.used_resources)) (w.below s)
  ];
}

-- One of the two limits that `allocate` tests is reached.
abbrev pub is_full : Text → ResourceType → ResourceManager → Bool
is_full u t rm =
    is_reached (at t rm.max_total_resources) (total t rm)
    || is_reached (at t rm.max_user_resources) (used u t rm)

-- The limits are those of before.
abbrev pub KeepsLimits : ResourceManager → ResourceManager → Type 0
KeepsLimits rm rm' =
    (rm'.max_user_resources ≡ rm.max_user_resources)
    × (rm'.max_total_resources ≡ rm.max_total_resources)

-- Nothing has changed but, perhaps, a consumer that holds nothing.
abbrev pub Holds : ResourceManager → ResourceManager → Type 0
Holds rm rm' =
    KeepsLimits rm rm'
    × ((v : Text) (s : ResourceType) → used v s rm' ≡ used v s rm)
    × ((s : ResourceType) → total s rm' ≡ total s rm)

-- What a call of `allocate` has done to the ledger, by how it ended.
abbrev pub Allocates :
    Text → ResourceType → ResourceManager → Result (Unit {0}) × ResourceManager → Type 0
Allocates u t rm (ok _, rm') =
    IsValid rm'
    × KeepsLimits rm rm'
    × (is_full u t rm ≡ false)
    × ((v : Text) (s : ResourceType) → used v s rm' ≡ used v s rm + same u t v s)
    × ((s : ResourceType) → total s rm' ≡ total s rm + bit (type_beq s t))
Allocates u t rm (raised resource_error, rm') = IsValid rm' × (is_full u t rm ≡ true) × Holds rm rm'
Allocates u t rm (raised _, rm') = ⊥

put-slot-IsValid :
    (u : Text) (rm : ResourceManager)
    → IsValid rm
    → let rm' = put u (slot u rm (lookup u rm.consumers)) rm in IsValid rm' × Holds rm rm'
put-slot-IsValid u rm valid =
    let c : Consumer = slot u rm (lookup u rm.consumers) in
    (
      put-IsValid u c rm valid (slot-IsWithin u rm valid) (λ s. level-slot u s rm (valid.level s))
          (λ s.
            IsBelow-le (at s rm.max_total_resources) (total s rm) _
              (omega (arith, total-put u s c rm, used-slot u s rm)) (valid.total_below s)),
      (
        (refl, refl),
        (λ v s. ground (arith, used-put u v s c rm, used-slot u s rm, text_beq_iff u v)),
        λ s. omega (arith, total-put u s c rm, used-slot u s rm),
      ),
    )

count_up_slot :
    (u : Text) (t : ResourceType) (rm : ResourceManager) (c : Consumer)
    → IsValid rm
    → IsWithin rm.max_user_resources c
    → ((s : ResourceType) → at s c.used_resources ≡ used u s rm)
    → ((s : ResourceType) → at s c.below_zero ≡ 0)
    → is_reached (at t rm.max_total_resources) (total t rm) ≡ false
    → is_reached (at t c.max_resources) (at t c.used_resources) ≡ false
    → Allocates u t rm (ok tt, put u (count_up t c) rm)
count_up_slot u t rm c valid w at_slot level total_open user_open =
    let grown : (s : ResourceType)
        → total s (put u (count_up t c) rm) ≡ total s rm + bit (type_beq s t) =
      λ s. ground (
        arith,
        total-put u s (count_up t c) rm,
        at_slot s,
        at_slot t,
        at-set_at s t (at t c.used_resources + 1) c.used_resources,
        type_beq→eq s t,
      ) in
    (
      put-IsValid u (count_up t c) rm valid
          (count_up-IsWithin t c rm.max_user_resources w user_open) level
          (λ s. elim (Bool-cases (type_beq s t)) [
            | inl e ↦ rw (type_beq→eq s t e) (
                IsBelow-suc (at t rm.max_total_resources) (total t rm) _
                  (ground (arith, grown t, type_beq_refl t)) total_open (valid.total_below t))
            | inr e ↦
                IsBelow-le (at s rm.max_total_resources) (total s rm) _ (ground (arith, grown s))
                  (valid.total_below s)
          ]),
      (refl, refl),
      ground (arith, at_slot t, w.limits_eq),
      (λ v s. ground (
        arith,
        used-put u v s (count_up t c) rm,
        at_slot s,
        at_slot t,
        text_beq_iff u v,
        at-set_at s t (at t c.used_resources + 1) c.used_resources,
        type_beq→eq s t,
      )),
      grown,
    )

-- An allocation either adds one resource of that type to that user, with both limits not reached
-- before, or raises `ResourceError` with a limit reached and leaves every count alone. The limits
-- hold after it on both outcomes, and no other exception leaves it.
pub allocate-Allocates :
    (u : Text) (t : ResourceType) (rm : ResourceManager)
    → IsValid rm
    → Allocates u t rm (allocate u t rm)
allocate-Allocates u t rm valid =
    elim (Bool-cases (is_reached (at t rm.max_total_resources) (total t rm))) [
      | inl full ↦
          rw (allocate_lem u t rm _ refl (valid.level t) (level-slot u t rm (valid.level t)), full)
            (valid, (rw full), ((refl, refl), (λ v s. refl), λ s. refl))
      | inr open_ ↦ elim (Bool-cases (is_reached (at t c.max_resources) (at t c.used_resources))) [
        | inl full ↦
            rw
              (
                allocate_lem u t rm _ refl (valid.level t) (level-slot u t rm (valid.level t)),
                open_,
                full,
              )
              (kept.0, ground (arith, used-slot u t rm, w.limits_eq), kept.1)
        | inr free ↦
            rw
              (
                allocate_lem u t rm _ refl (valid.level t) (level-slot u t rm (valid.level t)),
                open_,
                free,
              )
              (count_up_slot u t rm c valid w (λ s. used-slot u s rm)
                (λ s. level-slot u s rm (valid.level s)) open_ free)
      ]
    ]
  where
    c : Consumer
    c = slot u rm (lookup u rm.consumers)

    w : IsWithin rm.max_user_resources c
    w = slot-IsWithin u rm valid

    kept : IsValid (put u c rm) × Holds rm (put u c rm)
    kept = put-slot-IsValid u rm valid

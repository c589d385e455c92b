-- ===== src/Sd/Resources/Release.antt =====
-- paf/sd.py, `ResourceManager.deallocate` and `transfer`: what leaves one user's count, and where it goes.
use paf.Prelude.{
  ℕ, ◌+◌, ◌-◌, ◌<◌, ◌≡◌, refl, inl, inr, false, Option, none, some, arith, Text, text_eq, text_beq,
  text_beq_iff, bit, Bool-cases, Option-cases, ltb, if◌then◌else◌,
}
use paf.Prelude.Dict.{
  lookup, erase, IsUnique, lookup-erase_ne, lookup-erase_self, IsUnique-erase, sum_by-erase,
}
use paf.Prelude.Action.{Result, Error, ok, raised, key_error, assertion_error}
use paf.Sd.Resources.{
  shortfall, set_at, ResourceType, at, Limits, Consumer, is_reached, has_allocations,
  ResourceManager, total, deallocate,
}
use paf.Sd.Resources.Ledger.{
  type_beq, at-set_at, type_beq→eq, used, IsBelow, IsWithin, IsValid, put, count_down,
  deallocate_lem, same, used-put, total-put, put-IsValid, level-at, IsBelow-le, IsBelow-zero,
}
use paf.Sd.Resources.Allocate.{is_full, KeepsLimits}

count_down-IsWithin :
    (t : ResourceType) (c : Consumer) (l : Limits) → IsWithin l c → IsWithin l (count_down t c)
count_down-IsWithin t c l w = record {
  limits_eq = w.limits_eq;
  below = λ s.
      IsBelow-le (at s l) (at s c.used_resources) _
        (ground
          (arith, at-set_at s t (at t c.used_resources - 1) c.used_resources, type_beq→eq s t))
        (w.below s);
}

abbrev drop : Text → ResourceManager → ResourceManager
drop u rm = record rm { consumers = erase u rm.consumers }

used-drop :
    (u v : Text) (s : ResourceType) (rm : ResourceManager)
    → IsUnique rm.consumers
    → used v s (drop u rm) ≡ (if text_beq u v then 0 else used v s rm)
unfolding used
used-drop u v s rm unique = ground (
  arith,
  lookup-erase_self u rm.consumers unique,
  lookup-erase_ne u v rm.consumers,
  text_beq_iff u v,
)

total-drop :
    (u : Text) (s : ResourceType) (c : Consumer) (rm : ResourceManager)
    → lookup u rm.consumers ≡ some c
    → total s (drop u rm) + at s c.used_resources ≡ total s rm
unfolding total
total-drop u s c rm h = sum_by-erase (λ (x : Consumer). at s x.used_resources) u c rm.consumers h

drop-IsValid :
    (u : Text) (c : Consumer) (rm : ResourceManager)
    → lookup u rm.consumers ≡ some c
    → IsValid rm
    → IsValid (drop u rm)
drop-IsValid u c rm h valid = record {
  unique = IsUnique-erase u rm.consumers valid.unique;
  within = λ v c' e. valid.within v c' (
      ground (
        arith,
        lookup-erase_self u rm.consumers valid.unique,
        lookup-erase_ne u v rm.consumers,
        text_beq_iff u v,
      ));
  total_below = λ s.
      IsBelow-le (at s rm.max_total_resources) (total s rm) _ (omega (arith, total-drop u s c rm h))
        (valid.total_below s);
  level = λ s.
      unfold shortfall in
      omega (
        arith,
        valid.level s,
        sum_by-erase (λ (x : Consumer). at s x.below_zero) u c rm.consumers h,
      );
}

idle-at : (s : ResourceType) (c : Consumer) → has_allocations c ≡ false → at s c.used_resources ≡ 0
unfolding has_allocations
idle-at s c h = ground arith

-- The consumer that a failed assertion leaves: the count of this type is -1.
abbrev pub overdrawn : ResourceType → Consumer → Consumer
overdrawn t c = record c { below_zero = set_at t 1 c.below_zero }

-- The user has a consumer, which held nothing of this type, and whose count is at -1 now; nothing else
-- has changed.
abbrev pub Overdraws : Text → ResourceType → ResourceManager → ResourceManager → Type 0
Overdraws u t rm rm' =
    (c : Consumer) × (lookup u rm.consumers ≡ some c)
    × (at t c.used_resources ≡ 0)
    × (rm' ≡ put u (overdrawn t c) rm)

-- What a call of `deallocate` has done to the ledger, by how it ended.
abbrev pub Deallocates :
    Text → ResourceType → ResourceManager → Result (Unit {0}) × ResourceManager → Type 0
Deallocates u t rm (ok _, rm') =
    IsValid rm'
    × KeepsLimits rm rm'
    × (0 < used u t rm)
    × ((v : Text) (s : ResourceType) → used v s rm' + same u t v s ≡ used v s rm)
    × ((s : ResourceType) → total s rm' + bit (type_beq s t) ≡ total s rm)
Deallocates u t rm (raised key_error, rm') = (rm' ≡ rm) × (lookup u rm.consumers ≡ none)
Deallocates u t rm (raised assertion_error, rm') = Overdraws u t rm rm'
Deallocates u t rm (raised _, rm') = ⊥

-- It raises only where the user holds none.
pub raised-used :
    (u : Text) (t : ResourceType) (rm rm' : ResourceManager) (e : Error)
    → Deallocates u t rm (raised e, rm')
    → used u t rm ≡ 0
unfolding used
raised-used u t rm rm' key_error (_, missing) = rw missing refl
raised-used u t rm rm' assertion_error (c, there, zero_, _) = rw there zero_
raised-used u t rm rm' _ h = absurd h

module _ (u : Text) (t : ResourceType) (rm : ResourceManager) (c : Consumer) (valid : IsValid rm)
    (h : lookup u rm.consumers ≡ some c) (pos : 0 < at t c.used_resources) where
  at-used : (s : ResourceType) → used u s rm ≡ at s c.used_resources
  unfolding used
  at-used s = rw h

  put_down : Deallocates u t rm (ok tt, put u (count_down t c) rm)
  put_down =
      let shrunk : (s : ResourceType)
          → total s (put u (count_down t c) rm) + bit (type_beq s t) ≡ total s rm =
        λ s. ground (
          arith,
          total-put u s (count_down t c) rm,
          at-used s,
          at-set_at s t (at t c.used_resources - 1) c.used_resources,
          type_beq→eq s t,
        ) in
      (
        put-IsValid u (count_down t c) rm valid
            (count_down-IsWithin t c rm.max_user_resources (valid.within u c h))
            (λ s. level-at u s c rm (valid.level s) h)
            (λ s.
              IsBelow-le (at s rm.max_total_resources) (total s rm) _ (omega (arith, shrunk s))
                (valid.total_below s)),
        (refl, refl),
        rw (at-used t) pos,
        (λ v s. ground (
          arith,
          used-put u v s (count_down t c) rm,
          at-used s,
          text_beq_iff u v,
          at-set_at s t (at t c.used_resources - 1) c.used_resources,
          type_beq→eq s t,
        )),
        shrunk,
      )

  drop_down : has_allocations (count_down t c) ≡ false → Deallocates u t rm (ok tt, drop u rm)
  drop_down idle =
      let one : (s : ResourceType) → at s c.used_resources ≡ bit (type_beq s t) = λ s. ground (
        arith,
        idle-at s (count_down t c) idle,
        at-set_at s t (at t c.used_resources - 1) c.used_resources,
        type_beq→eq s t,
      ) in
      (
        drop-IsValid u c rm h valid,
        (refl, refl),
        rw (at-used t) pos,
        (λ v s.
            ground (arith, used-drop u v s rm valid.unique, at-used s, text_beq_iff u v, one s)),
        λ s. omega (arith, total-drop u s c rm h, one s),
      )

deallocate_missing :
    (u : Text) (t : ResourceType) (rm : ResourceManager)
    → lookup u rm.consumers ≡ none
    → deallocate u t rm ≡ (raised key_error, rm)
unfolding deallocate
deallocate_missing u t rm h = ground arith

deallocate_zero :
    (u : Text) (t : ResourceType) (rm : ResourceManager) (c : Consumer)
    → lookup u rm.consumers ≡ some c
    → at t c.used_resources ≡ 0
    → at t c.below_zero ≡ 0
    → deallocate u t rm ≡ (raised assertion_error, put u (overdrawn t c) rm)
unfolding deallocate
deallocate_zero u t rm c h z level = ground arith

-- A release takes one resource of that type from that user, who held one, and the limits hold after
-- it. Otherwise it raises a `KeyError` and changes nothing, where the user has no consumer, or an
-- `AssertionError`, where the consumer holds none of the type: its count is -1 then, and nothing else
-- has changed.
pub deallocate-Deallocates :
    (u : Text) (t : ResourceType) (rm : ResourceManager)
    → IsValid rm
    → Deallocates u t rm (deallocate u t rm)
deallocate-Deallocates u t rm valid = elim (Option-cases (lookup u rm.consumers)) [
  | inl e ↦ rw (deallocate_missing u t rm e) (refl, e)
  | inr (c, e) ↦ elim (Bool-cases (ltb 0 (at t c.used_resources))) [
    | inl pos ↦ elim (Bool-cases (has_allocations (count_down t c))) [
      | inl busy ↦
          rw (deallocate_lem u t rm c e (ground arith) (level-at u t c rm (valid.level t) e), busy)
            (put_down u t rm c valid e (ground arith))
      | inr idle ↦
          rw (deallocate_lem u t rm c e (ground arith) (level-at u t c rm (valid.level t) e), idle)
            (drop_down u t rm c valid e (ground arith) idle)
    ]
    | inr zero_ ↦
        rw (deallocate_zero u t rm c e (ground arith) (level-at u t c rm (valid.level t) e))
          (c, e, ground arith, refl)
  ]
]

used-IsBelow :
    (u : Text) (t : ResourceType) (rm : ResourceManager)
    → IsValid rm
    → IsBelow (at t rm.max_user_resources) (used u t rm)
unfolding used
used-IsBelow u t rm valid = elim (Option-cases (lookup u rm.consumers)) [
  | inl e ↦ rw e (IsBelow-zero (at t rm.max_user_resources) 0 refl)
  | inr (c, e) ↦ rw e ((valid.within u c e).below t)
]

not_reached : (o : Option ℕ) (m n : ℕ) → IsBelow o n → m < n → is_reached o m ≡ false
not_reached none m n h lt = refl
not_reached (some k) m n h lt = ground arith

-- Once one unit is released, there is room to take it again.
pub room_again :
    (u : Text) (t : ResourceType) (rm rm' : ResourceManager)
    → IsValid rm
    → KeepsLimits rm rm'
    → used u t rm' < used u t rm
    → total t rm' < total t rm
    → is_full u t rm' ≡ false
room_again u t rm rm' valid keep a b = simp (
  keep.0,
  keep.1,
  not_reached (at t rm.max_total_resources) (total t rm') (total t rm) (valid.total_below t) b,
  not_reached (at t rm.max_user_resources) (used u t rm') (used u t rm) (used-IsBelow u t rm valid)
      a,
)

-- ===== src/Sd/Resources/Ledger.antt =====
-- paf/sd.py, `ResourceManager` against an abstract ledger: how much each user holds of each type.
use paf.Prelude.{
  ℕ, ◌+◌, ◌-◌, ◌≤◌, ◌<◌, ◌≡◌, refl, ap, inl, inr, Bool, true, false, ◌&&◌, Option, none, some,
  arith, Text, text_eq, text_beq, text_beq_iff, bit, Option-cases, if◌then◌else◌,
}
use paf.Prelude.Dict.{
  lookup, insert, erase, IsUnique, lookup-insert, lookup-insert_self, IsUnique-insert,
  insert-insert, insert-lookup, erase-insert, sum_by-insert, sum_by-insert_new, le-sum_by,
}
use paf.Prelude.Action.{ok, raised, resource_error}
use paf.Sd.Resources.{
  ResourceType, Resources, at, set_at, Limits, Consumer, new_consumer, is_reached, has_allocations,
  raised_by, shortfall, ResourceManager, total, allocate, deallocate,
}

abbrev pub type_beq : ResourceType → ResourceType → Bool
type_beq ResourceType.client ResourceType.client = true
type_beq ResourceType.subscription ResourceType.subscription = true
type_beq ResourceType.service ResourceType.service = true
type_beq _ _ = false

pub at-set_at :
    (s t : ResourceType) (a : ℕ) (r : Resources ℕ)
    → at s (set_at t a r) ≡ (if type_beq s t then a else at s r)
at-set_at s t a r = ground arith

pub type_beq_refl : (t : ResourceType) → type_beq t t ≡ true
type_beq_refl t = ground arith

pub type_beq→eq : (s t : ResourceType) → type_beq s t ≡ true → s ≡ t
type_beq→eq s t h = ground arith

abbrev pub held : ResourceType → Option Consumer → ℕ
held t none = 0
held t (some c) = at t c.used_resources

-- What the manager holds for a user: the abstract ledger.
unfoldable pub used : Text → ResourceType → ResourceManager → ℕ
used u t rm = held t (lookup u rm.consumers)

abbrev pub IsBelow : Option ℕ → ℕ → Type 0
IsBelow none n = Unit
IsBelow (some m) n = n ≤ m

pub record IsWithin (limits : Limits) (c : Consumer) : Type 0 where
  pub limits_eq : c.max_resources ≡ limits
  pub below : (t : ResourceType) → IsBelow (at t limits) (at t c.used_resources)

-- No limit is exceeded, every consumer was made with the manager's limits, and no count is below 0.
pub record IsValid (rm : ResourceManager) : Type 0 where
  pub unique : IsUnique rm.consumers
  pub within :
      (u : Text) (c : Consumer) → lookup u rm.consumers ≡ some c → IsWithin rm.max_user_resources c
  pub total_below : (t : ResourceType) → IsBelow (at t rm.max_total_resources) (total t rm)
  pub level : (t : ResourceType) → shortfall t rm ≡ 0

-- The consumer that `allocate` works on: the user's, or a new one.
abbrev pub slot : Text → ResourceManager → Option Consumer → Consumer
slot u rm none = new_consumer u rm.max_user_resources
slot u rm (some c) = c

abbrev pub put : Text → Consumer → ResourceManager → ResourceManager
put u c rm = record rm { consumers = insert u c rm.consumers }

abbrev pub count_up : ResourceType → Consumer → Consumer
count_up t c = record c { used_resources = set_at t (at t c.used_resources + 1) c.used_resources }

abbrev pub count_down : ResourceType → Consumer → Consumer
count_down t c = record c { used_resources = set_at t (at t c.used_resources - 1) c.used_resources }

raised_by-zero : (n : ℕ) (o : Option ℕ) → n ≡ 0 → raised_by n o ≡ o
raised_by-zero n none z = refl
raised_by-zero n (some k) z = ap some (omega arith)

pub allocate_lem :
    (u : Text) (t : ResourceType) (rm : ResourceManager) (c : Consumer)
    → c ≡ slot u rm (lookup u rm.consumers)
    → shortfall t rm ≡ 0
    → at t c.below_zero ≡ 0
    → allocate u t rm ≡ (
        if is_reached (at t rm.max_total_resources) (total t rm)
        then (raised resource_error, rm)
        else if is_reached (at t c.max_resources) (at t c.used_resources)
        then (raised resource_error, put u c rm)
        else (ok tt, put u (count_up t c) rm))
unfolding allocate
allocate_lem u t rm c h z z' = elim (Option-cases (lookup u rm.consumers)) [
  | inl e ↦ ground (
    arith,
    raised_by-zero (shortfall t rm) (at t rm.max_total_resources) z,
    raised_by-zero (at t c.below_zero) (at t c.max_resources) z',
    lookup-insert_self u c rm.consumers,
    insert-insert u (count_up t c) c rm.consumers,
    insert-insert u c c rm.consumers,
  )
  | inr (c', e) ↦ ground (
    arith,
    raised_by-zero (shortfall t rm) (at t rm.max_total_resources) z,
    raised_by-zero (at t c.below_zero) (at t c.max_resources) z',
    insert-lookup u c rm.consumers,
  )
]

pub deallocate_lem :
    (u : Text) (t : ResourceType) (rm : ResourceManager) (c : Consumer)
    → lookup u rm.consumers ≡ some c
    → 0 < at t c.used_resources
    → at t c.below_zero ≡ 0
    → deallocate u t rm ≡ (
      ok tt,
      if has_allocations (count_down t c)
          then put u (count_down t c) rm
          else record rm { consumers = erase u rm.consumers },
    )
unfolding deallocate
deallocate_lem u t rm c h pos z = ground (
  arith,
  lookup-insert_self u (count_down t c) rm.consumers,
  erase-insert u (count_down t c) rm.consumers,
)

abbrev pub same : Text → ResourceType → Text → ResourceType → ℕ
same u t v s = bit (text_beq u v && type_beq s t)

pub used-put :
    (u v : Text) (s : ResourceType) (c : Consumer) (rm : ResourceManager)
    → used v s (put u c rm) ≡ (if text_beq u v then at s c.used_resources else used v s rm)
unfolding used
used-put u v s c rm = ground (arith, lookup-insert u v c rm.consumers)

pub total-put :
    (u : Text) (s : ResourceType) (c : Consumer) (rm : ResourceManager)
    → total s (put u c rm) + used u s rm ≡ total s rm + at s c.used_resources
unfolding total used
total-put u s c rm = elim (Option-cases (lookup u rm.consumers)) [
  | inl e ↦ rw e (
      omega (arith, sum_by-insert_new (λ (x : Consumer). at s x.used_resources) u c rm.consumers e))
  | inr (w, e) ↦ rw e (sum_by-insert (λ (x : Consumer). at s x.used_resources) u c w rm.consumers e)
]

pub shortfall-put :
    (u : Text) (s : ResourceType) (c : Consumer) (rm : ResourceManager)
    → shortfall s rm ≡ 0
    → at s c.below_zero ≡ 0
    → shortfall s (put u c rm) ≡ 0
unfolding shortfall
shortfall-put u s c rm z z' = elim (Option-cases (lookup u rm.consumers)) [
  | inl e ↦
      omega (arith, sum_by-insert_new (λ (x : Consumer). at s x.below_zero) u c rm.consumers e)
  | inr (w, e) ↦
      omega (arith, sum_by-insert (λ (x : Consumer). at s x.below_zero) u c w rm.consumers e)
]

pub level-at :
    (u : Text) (s : ResourceType) (c : Consumer) (rm : ResourceManager)
    → shortfall s rm ≡ 0
    → lookup u rm.consumers ≡ some c
    → at s c.below_zero ≡ 0
unfolding shortfall
level-at u s c rm z e =
    omega (arith, le-sum_by (λ (x : Consumer). at s x.below_zero) u c rm.consumers e)

pub level-slot :
    (u : Text) (s : ResourceType) (rm : ResourceManager)
    → shortfall s rm ≡ 0
    → at s (slot u rm (lookup u rm.consumers)).below_zero ≡ 0
level-slot u s rm z = elim (Option-cases (lookup u rm.consumers)) [
  | inl e ↦ rw e (ground arith)
  | inr (c, e) ↦ rw e (level-at u s c rm z e)
]

pub put-IsValid :
    (u : Text) (c : Consumer) (rm : ResourceManager)
    → IsValid rm
    → IsWithin rm.max_user_resources c
    → ((s : ResourceType) → at s c.below_zero ≡ 0)
    → ((s : ResourceType) → IsBelow (at s rm.max_total_resources) (total s (put u c rm)))
    → IsValid (put u c rm)
put-IsValid u c rm valid w z below = record {
  unique = IsUnique-insert u c rm.consumers valid.unique;
  within = λ v c' e.
      ground (arith, lookup-insert u v c rm.consumers, valid.within v c', text_beq_iff u v);
  total_below = below;
  level = λ s. shortfall-put u s c rm (valid.level s) (z s);
}

pub IsBelow-zero : (o : Option ℕ) (n : ℕ) → n ≡ 0 → IsBelow o n
IsBelow-zero none n h = tt
IsBelow-zero (some m) n h = omega arith

pub IsBelow-suc :
    (o : Option ℕ) (n m : ℕ) → m ≡ n + 1 → is_reached o n ≡ false → IsBelow o n → IsBelow o m
IsBelow-suc none n m e open_ h = tt
IsBelow-suc (some k) n m e open_ h = ground arith

pub IsBelow-le : (o : Option ℕ) (n m : ℕ) → m ≤ n → IsBelow o n → IsBelow o m
IsBelow-le none n m le h = tt
IsBelow-le (some k) n m le h = omega arith

pub slot-IsWithin :
    (u : Text) (rm : ResourceManager)
    → IsValid rm
    → IsWithin rm.max_user_resources (slot u rm (lookup u rm.consumers))
slot-IsWithin u rm valid = elim (Option-cases (lookup u rm.consumers)) [
  | inl e ↦ rw e (record {
    limits_eq = refl;
    below = λ t. IsBelow-zero (at t rm.max_user_resources) _ (ground arith);
  })
  | inr (c, e) ↦ rw e (valid.within u c e)
]

pub used-slot :
    (u : Text) (s : ResourceType) (rm : ResourceManager)
    → at s (slot u rm (lookup u rm.consumers)).used_resources ≡ used u s rm
unfolding used
used-slot u s rm = elim (Option-cases (lookup u rm.consumers)) [
  | inl e ↦ rw e (ground arith)
  | inr (c, e) ↦ rw e
]

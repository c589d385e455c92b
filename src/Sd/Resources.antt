-- ===== src/Sd/Resources.antt =====
-- paf/sd.py: `Consumer` and `ResourceManager`, which count what each user holds against a limit per
-- user and a limit in total.
pub mod Ledger
pub mod Allocate
pub mod Release
pub mod Transfer
use paf.Prelude.{
  ℕ, ◌+◌, ◌-◌, Bool, ◌||◌, Option, none, some, not, nat_beq, ltb, if◌then◌else◌, Text, text_eq,
}
use paf.Prelude.Dict.{Dict, lookup, contains, insert, erase, sum_by}
use paf.Prelude.Action.{
  Action, Result, ok, raised, resource_error, assertion_error, key_error, ◌>>=◌, ◌>>◌, raise_if,
  or_raise, gets, modify,
}

pub data ResourceType : Type 0 where
  client subscription service : ResourceType

-- The dicts over `ResourceType` that `resources` builds.
pub record Resources (A : Type 0) : Type 0 where
  pub clients : A
  pub subscriptions : A
  pub services : A

module _ {A : Type 0} where
  -- `r[t]`
  abbrev pub at : ResourceType → Resources A → A
  at ResourceType.client r = r.clients
  at ResourceType.subscription r = r.subscriptions
  at ResourceType.service r = r.services

  -- `r[t] = a`
  abbrev pub set_at : ResourceType → A → Resources A → Resources A
  set_at ResourceType.client a r = record r { clients = a }
  set_at ResourceType.subscription a r = record r { subscriptions = a }
  set_at ResourceType.service a r = record r { services = a }

-- `None` is no limit.
abbrev pub Limits : Type 0
Limits = Resources (Option ℕ)

-- Python's count is `used_resources` less `below_zero`, of which one is 0: a failed assertion leaves a
-- count of -1.
pub record Consumer : Type 0 where
  pub user_id : Text
  pub max_resources : Limits
  pub used_resources : Resources ℕ
  pub below_zero : Resources ℕ

abbrev pub new_consumer : Text → Limits → Consumer
new_consumer user limits = record {
  user_id = user;
  max_resources = limits;
  used_resources = record { clients = 0; subscriptions = 0; services = 0 };
  below_zero = record { clients = 0; subscriptions = 0; services = 0 };
}

-- `max is not None and used == max`
abbrev pub is_reached : Option ℕ → ℕ → Bool
is_reached none used = Bool.false
is_reached (some limit) used = nat_beq used limit

-- The limit that a count less `below` is compared with, when the count itself is.
abbrev pub raised_by : ℕ → Option ℕ → Option ℕ
raised_by below none = none
raised_by below (some limit) = some (limit + below)

-- `self.used_resources[resource_type] += 1`, and `-= 1`
abbrev pub one_more : ResourceType → Consumer → Consumer
one_more t c =
    if ltb 0 (at t c.below_zero)
    then record c { below_zero = set_at t (at t c.below_zero - 1) c.below_zero }
    else record c { used_resources = set_at t (at t c.used_resources + 1) c.used_resources }

abbrev pub one_less : ResourceType → Consumer → Consumer
one_less t c =
    if ltb 0 (at t c.used_resources)
    then record c { used_resources = set_at t (at t c.used_resources - 1) c.used_resources }
    else record c { below_zero = set_at t (at t c.below_zero + 1) c.below_zero }

unfoldable pub consumer_allocate : ResourceType → Action Consumer (Unit {0})
consumer_allocate t = do
  c ← gets (λ (c : Consumer). c)
  raise_if
      (is_reached (raised_by (at t c.below_zero) (at t c.max_resources)) (at t c.used_resources))
      resource_error
  modify (one_more t)

unfoldable pub consumer_deallocate : ResourceType → Action Consumer (Unit {0})
consumer_deallocate t = do
  modify (one_less t)
  raise_if (← gets (λ (c : Consumer). ltb 0 (at t c.below_zero))) assertion_error

unfoldable pub has_allocations : Consumer → Bool
has_allocations c =
    ltb 0 c.used_resources.clients
    || (ltb 0 c.used_resources.subscriptions || ltb 0 c.used_resources.services)

pub record ResourceManager : Type 0 where
  pub max_user_resources : Limits
  pub max_total_resources : Limits
  pub consumers : Dict Text Consumer

abbrev pub Method : Type 0 → Type 0
Method A = Action ResourceManager A

-- `self.consumers[user_id]` as the receiver of a method.
abbrev pub on_consumer : {A : Type 0} → Text → Action Consumer A → Method A
on_consumer user m = do
  c ← (λ rm. or_raise (lookup user (ResourceManager.consumers rm)) key_error rm)
  λ rm.
      let (r, c') = m c in
      (r, record rm { consumers = insert user c' (ResourceManager.consumers rm) })

unfoldable pub total : ResourceType → ResourceManager → ℕ
total t rm = sum_by (λ (c : Consumer). at t c.used_resources) rm.consumers

-- What Python's `total` is less than this one.
unfoldable pub shortfall : ResourceType → ResourceManager → ℕ
shortfall t rm = sum_by (λ (c : Consumer). at t c.below_zero) rm.consumers

unfoldable pub check_total : ResourceType → Method (Unit {0})
unfolding total shortfall
check_total t rm =
    raise_if (is_reached (raised_by (shortfall t rm) (at t rm.max_total_resources)) (total t rm))
      resource_error rm

-- `if user_id not in self.consumers: self.consumers[user_id] = Consumer(...)`
unfoldable pub assure_consumer : Text → ResourceManager → ResourceManager
assure_consumer user rm = if contains user rm.consumers then rm else record rm {
  consumers = insert user (new_consumer user rm.max_user_resources) rm.consumers;
}

unfoldable pub allocate : Text → ResourceType → Method (Unit {0})
unfolding check_total assure_consumer consumer_allocate
allocate user t = do
  check_total t
  modify (assure_consumer user)
  on_consumer user (consumer_allocate t)

-- `if not consumer.has_allocations(): del self.consumers[user_id]`
unfoldable pub drop_idle : Text → Method (Unit {0})
unfolding has_allocations
drop_idle user = do
  consumer ← (λ rm. or_raise (lookup user (ResourceManager.consumers rm)) key_error rm)
  modify (λ (rm : ResourceManager).
      if has_allocations consumer then rm else record rm { consumers = erase user rm.consumers })

unfoldable pub deallocate : Text → ResourceType → Method (Unit {0})
unfolding consumer_deallocate drop_idle
deallocate user t = do on_consumer user (consumer_deallocate t); drop_idle user

-- The handler of `transfer`: allocate for the old user again, and raise the error on.
abbrev pub give_back : Text → ResourceType → Result (Unit {0}) → Method (Unit {0})
give_back user t (ok _) rm = (ok tt, rm)
give_back user t (raised resource_error) rm =
    (allocate user t >> (λ rm'. (raised resource_error, rm'))) rm
give_back user t (raised e) rm = (raised e, rm)

unfoldable pub transfer : Text → Text → ResourceType → Method (Unit {0})
transfer from_user to_user t = do
  deallocate from_user t
  λ rm. let (r, rm') = allocate to_user t rm in give_back from_user t r rm'

-- ===== src/Sd/Service.antt =====
-- paf/sd.py: `Generation` and `Service`, whose changes go through `add`, `modify` or `remove` and then
-- `commit` or `rollback`.
use paf.Prelude.{ℕ, ◌+◌, ◌*◌, Bool, true, false, Option, none, some, Text, text_beq, if◌then◌else◌}
use paf.Prelude.Dict.{is_some}
use paf.Prelude.Action.{
  Result, ok, raised, bind, assertion_error, attribute_error, permission_error,
}
use paf.Filter.Syntax.{Props}

pub data ChangeType : Type 0 where
  added modified removed : ChangeType

-- A generation with all of `GENERATION_FIELD_NAMES`. Times count microseconds.
pub record Generation : Type 0 where
  pub generation : ℕ
  pub props : Props
  pub ttl : ℕ
  pub orphan_since : Option ℕ
  pub client_id : ℕ
  pub user_id : Text

-- A generation under construction, where an attribute may not be set yet.
pub record Draft : Type 0 where
  pub generation : Option ℕ
  pub props : Option Props
  pub ttl : Option ℕ
  pub orphan_since : Option (Option ℕ)
  pub client_id : Option ℕ
  pub user_id : Option Text

-- `Generation()`
abbrev pub blank : Draft
blank = record {
  generation = none;
  props = none;
  ttl = none;
  orphan_since = none;
  client_id = none;
  user_id = none;
}

-- `self.cur.copy()`
abbrev pub copy : Generation → Draft
copy g = record {
  generation = some g.generation;
  props = some g.props;
  ttl = some g.ttl;
  orphan_since = some g.orphan_since;
  client_id = some g.client_id;
  user_id = some g.user_id;
}

infixl 5 ◌>>=◌
abbrev ◌>>=◌ : {A B : Type 0} → Option A → (A → Option B) → Option B
none >>= f = none
some a >>= f = f a

-- The draft as a generation, where `is_consistent` holds of it.
unfoldable pub consistent : Draft → Option Generation
consistent d = do
  generation ← d.generation
  props ← d.props
  ttl ← d.ttl
  orphan_since ← d.orphan_since
  client_id ← d.client_id
  user_id ← d.user_id
  some (record {
    generation = generation;
    props = props;
    ttl = ttl;
    orphan_since = orphan_since;
    client_id = client_id;
    user_id = user_id;
  })

pub record Service : Type 0 where
  pub service_id : ℕ
  pub prev : Option Generation
  pub cur : Option Generation
  pub next : Option Draft
  pub change : Option ChangeType

abbrev pub new_service : ℕ → Service
new_service id = record { service_id = id; prev = none; cur = none; next = none; change = none }

-- `getattr(self.cur, name)` and `getattr(self.prev, name)`, where `None` has no such attribute.
abbrev pub getter : {A : Type 0} → (Generation → A) → Option Generation → Result A
getter f none = raised attribute_error
getter f (some g) = ok (f g)

abbrev pub is_orphan : Generation → Bool
is_orphan g = is_some g.orphan_since

abbrev pub second : ℕ
second = 1_000_000

-- `self.orphan_since() + self.ttl()`, of a generation that is an orphan.
abbrev pub orphan_timeout : Generation → Option ℕ
orphan_timeout g = elim (Generation.orphan_since g) [
  | none ↦ none
  | some t ↦ some (t + Generation.ttl g * second)
]

-- The decorators `assure_not_changing`, `assure_changing` and `assure_writable`.
abbrev pub is_changing : Option ChangeType → Bool
is_changing none = false
is_changing (some _) = true

abbrev pub is_writable : Option ChangeType → Bool
is_writable none = false
is_writable (some ChangeType.removed) = false
is_writable (some _) = true

abbrev pub assure : {A : Type 0} → Bool → A → Result A
assure true a = ok a
assure false a = raised assertion_error

unfoldable pub add : Service → Result Service
add s =
    if is_changing s.change
    then raised assertion_error
    else ok (record s { change = some ChangeType.added; next = some blank })

-- Of a service with no current generation Python would have set `change` before the exception; a
-- service in the dict always has one.
unfoldable pub modify : Service → Result Service
modify s = if is_changing s.change then raised assertion_error else elim (Service.cur s) [
  | none ↦ raised attribute_error
  | some g ↦ ok (record s { change = some ChangeType.modified; next = some (copy g) })
]

unfoldable pub remove : Service → Result Service
remove s =
    if is_changing s.change
    then raised assertion_error
    else ok (record s { change = some ChangeType.removed })

-- `set_<name>`: an assignment to the draft.
abbrev pub setter : (Draft → Draft) → Service → Result Service
setter f s =
    if is_writable s.change
    then elim (Service.next s) [
      | none ↦ raised attribute_error
      | some d ↦ ok (record s { next = some (f d) })
    ]
    else raised assertion_error

abbrev pub set_generation : ℕ → Service → Result Service
set_generation n = setter (λ d. record d { generation = some n })

abbrev pub set_props : Props → Service → Result Service
set_props p = setter (λ d. record d { props = some p })

abbrev pub set_ttl : ℕ → Service → Result Service
set_ttl n = setter (λ d. record d { ttl = some n })

abbrev pub set_orphan_since : Option ℕ → Service → Result Service
set_orphan_since t = setter (λ d. record d { orphan_since = some t })

abbrev pub set_client_id : ℕ → Service → Result Service
set_client_id n = setter (λ d. record d { client_id = some n })

abbrev pub set_user_id : Text → Service → Result Service
set_user_id u = setter (λ d. record d { user_id = some u })

abbrev pub make_orphan : ℕ → Service → Result Service
make_orphan now = set_orphan_since (some now)

abbrev pub adopted : Service → Result Service
adopted = set_orphan_since none

-- The assertion of `commit` that the new generation is consistent; a removal has none.
abbrev pub next_generation : ChangeType → Option Draft → Result (Option Generation)
next_generation ChangeType.removed none = ok none
next_generation ChangeType.removed (some d) = ok (consistent d)
next_generation _ none = raised attribute_error
next_generation _ (some d) = elim (consistent d) [
  | none ↦ raised assertion_error
  | some g ↦ ok (some g)
]

-- The part of `commit` before the callback: the change that the callback is told of, and the service.
unfoldable pub commit : Service → Result (ChangeType × Service)
unfolding consistent
commit s = elim (Service.change s) [
  | none ↦ raised assertion_error
  | some c ↦
      bind (next_generation c s.next)
        (λ g. ok (c, record s { prev = s.cur; cur = g; next = none; change = none }))
        (λ e. raised e)
]

unfoldable pub rollback : Service → Result Service
rollback s =
    if is_changing s.change
    then ok (record s { change = none; next = none })
    else raised assertion_error

unfoldable pub check_access : Text → Service → Result (Unit {0})
check_access user s = elim (Service.cur s) [
  | none ↦ raised attribute_error
  | some g ↦ if text_beq user (Generation.user_id g) then ok tt else raised permission_error
]

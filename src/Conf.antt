-- ===== src/Conf.antt =====
-- paf/conf.py: what a configuration file, as YAML gives it, makes of the default configuration. The keys
-- of its dicts are texts. `facility_code` stands for the table of the logging library.
pub mod Limit
use paf.Prelude.{
  ℕ, Bool, true, false, Option, none, some, List, [], ◌∷◌, ◌++◌, Text, ◌==◌, nat_eq, text_eq,
  if◌then◌else◌,
}
use paf.Prelude.Dict.{Dict, lookup}
use paf.Prelude.Int.{ℤ, pos}
use paf.Proto.Props.{
  Json, Jsons, no_items, item, str, int, bool, null, list, object, Members, no_members, member,
}
use paf.Sd.Resources.{Resources, Limits, ResourceType, set_at}
use paf.Server.Transaction.{message_of}

-- The classes of errors: a parameter that is missing, an illegal value, and a value of another type.
pub data ConfError : Type 0 where
  missing_field_error format_error value_type_error : ConfError

pub data Loaded (A : Type 0) : Type 0 where
  loaded : A → Loaded A
  refused : ConfError → Loaded A

abbrev pub then_load : {A B : Type 0} → Loaded A → (A → Loaded B) → Loaded B
then_load (loaded a) f = f a
then_load (refused e) f = refused e

pub data LogLevel : Type 0 where
  debug info warning error critical : LogLevel

pub record LogConf : Type 0 where
  pub console : Bool
  pub syslog : Bool
  pub facility : ℕ
  pub filter : LogLevel

pub record Conf : Type 0 where
  pub log : LogConf
  pub domains : List (List Text)
  pub user : Limits
  pub total : Limits

-- `isinstance(value, int) and value >= 0`, where Python's `True` is the integer 1.
abbrev pub limit_value : Json → Option ℕ
limit_value (int (pos n)) = some n
limit_value (bool true) = some 1
limit_value (bool false) = some 0
limit_value _ = none

unfoldable pub limit_type : Text → Option ResourceType
limit_type name =
    if name == b'c' ∷ b'l' ∷ b'i' ∷ b'e' ∷ b'n' ∷ b't' ∷ b's' ∷ []
    then some ResourceType.client
    else (if name == b's' ∷ b'e' ∷ b'r' ∷ b'v' ∷ b'i' ∷ b'c' ∷ b'e' ∷ b's' ∷ []
        then some ResourceType.service
        else (if name
              == b's' ∷ b'u' ∷ b'b' ∷ b's' ∷ b'c' ∷ b'r' ∷ b'i' ∷ b'p' ∷ b't' ∷ b'i' ∷ b'o' ∷ b'n'
                ∷ b's' ∷ []
            then some ResourceType.subscription
            else none))

-- `ResourcesClassConf.set_limit`
unfoldable pub set_limit : Text → Json → Limits → Loaded Limits
unfolding limit_type
set_limit name value limits = elim (limit_value value) [
  | none ↦ refused format_error
  | some n ↦ elim (limit_type name) [
    | none ↦ refused format_error
    | some t ↦ loaded (set_at t (some n) limits)
  ]
]

-- `ResourcesClassConf()`
abbrev pub no_limits : Limits
no_limits = record { clients = none; subscriptions = none; services = none }

-- `resource_class_copy`, on a class that is there.
unfoldable pub resource_class_copy : Members → Limits → Loaded Limits
unfolding set_limit
resource_class_copy no_members limits = loaded limits
resource_class_copy (member name value ms) limits =
    then_load (set_limit name value limits) (resource_class_copy ms)

-- The types that `assure_type` is called with.
abbrev pub as_dict : Json → Option Members
as_dict (object ms) = some ms
as_dict _ = none

abbrev pub as_list : Json → Option Jsons
as_list (list js) = some js
as_list _ = none

abbrev pub as_text : Json → Option Text
as_text (str s) = some s
as_text _ = none

abbrev pub as_bool : Json → Option Bool
as_bool (bool b) = some b
as_bool _ = none

abbrev pub is_null : Json → Bool
is_null null = true
is_null _ = false

-- `dict_lookup`, with the test of `assure_type` as a function that takes the value apart.
unfoldable pub dict_lookup :
    {A : Type 0} → Members → Text → (Json → Option A) → Bool → Loaded (Option A)
unfolding message_of
dict_lookup dict key as_type required = elim (lookup key (message_of dict)) [
  | none ↦ if required then refused missing_field_error else loaded none
  | some value ↦ elim (is_null value) [
    | true ↦ if required then refused missing_field_error else loaded none
    | false ↦ elim (as_type value) [ none ↦ refused value_type_error | some a ↦ loaded (some a) ]
  ]
]

-- `dict_copy` that is not required: what was there stays where the dict has no value.
abbrev pub dict_copy :
    {A B : Type 0} → Members → Text → (Json → Option A) → (A → B → Loaded B) → B → Loaded B
dict_copy dict key as_type set_value b =
    then_load (dict_lookup dict key as_type false)
      (λ o. elim o [ none ↦ loaded b | some a ↦ set_value a b ])

abbrev pub level_of : Text → Option LogLevel
level_of name =
    if name == b'd' ∷ b'e' ∷ b'b' ∷ b'u' ∷ b'g' ∷ []
    then some debug
    else (if name == b'i' ∷ b'n' ∷ b'f' ∷ b'o' ∷ []
        then some info
        else (if name == b'w' ∷ b'a' ∷ b'r' ∷ b'n' ∷ b'i' ∷ b'n' ∷ b'g' ∷ []
            then some warning
            else (if name == b'e' ∷ b'r' ∷ b'r' ∷ b'o' ∷ b'r' ∷ []
                then some error
                else (if name == b'c' ∷ b'r' ∷ b'i' ∷ b't' ∷ b'i' ∷ b'c' ∷ b'a' ∷ b'l' ∷ []
                    then some critical
                    else none))))

abbrev pub set_filter : Text → LogConf → Loaded LogConf
set_filter name log = elim (level_of name) [
  | none ↦ refused format_error
  | some level ↦ loaded (record log { filter = level })
]

-- `DomainConf`, and `domains_populate` on a list that is there.
unfoldable pub add_addrs : Jsons → Loaded (List Text)
add_addrs no_items = loaded []
add_addrs (item addr addrs) = elim (as_text addr) [
  | none ↦ refused format_error
  | some text ↦ then_load (add_addrs addrs) (λ texts. loaded (text ∷ texts))
]

unfoldable pub domains_populate : Jsons → List (List Text) → Loaded (List (List Text))
unfolding dict_lookup add_addrs
domains_populate no_items domains = loaded domains
domains_populate (item domain rest) domains = elim (as_dict domain) [
  | none ↦ refused value_type_error
  | some dict ↦
      then_load (dict_lookup dict (b'a' ∷ b'd' ∷ b'd' ∷ b'r' ∷ b's' ∷ []) as_list true) (λ addrs.
        elim addrs [
          | none ↦ refused missing_field_error
          | some items ↦
              then_load (add_addrs items) (λ texts. domains_populate rest (domains ++ texts ∷ []))
        ])
]

-- `resources_populate`, on a dict that is there.
unfoldable pub resources_populate : Members → Conf → Loaded Conf
unfolding dict_lookup resource_class_copy
resources_populate dict conf =
    then_load
      (dict_copy dict (b'u' ∷ b's' ∷ b'e' ∷ b'r' ∷ []) as_dict resource_class_copy (Conf.user conf))
      (λ user.
        then_load
          (dict_copy dict (b't' ∷ b'o' ∷ b't' ∷ b'a' ∷ b'l' ∷ []) as_dict resource_class_copy
            conf.total)
          (λ total. loaded (record conf { user = user; total = total })))

module _ (facility_code : Text → Option ℕ) where
  abbrev pub set_facility : Text → LogConf → Loaded LogConf
  set_facility name log = elim (facility_code name) [
    | none ↦ refused format_error
    | some code ↦ loaded (record log { facility = code })
  ]

  -- `log_populate`, on a dict that is there.
  unfoldable pub log_populate : Members → LogConf → Loaded LogConf
  unfolding dict_lookup
  log_populate dict log =
      then_load
        (dict_copy dict (b'c' ∷ b'o' ∷ b'n' ∷ b's' ∷ b'o' ∷ b'l' ∷ b'e' ∷ []) as_bool
          (λ b l. loaded (record l { console = b })) log)
        (λ log₁.
          then_load
            (dict_copy dict (b's' ∷ b'y' ∷ b's' ∷ b'l' ∷ b'o' ∷ b'g' ∷ []) as_bool
              (λ b l. loaded (record l { syslog = b })) log₁)
            (λ log₂.
              then_load
                (dict_copy dict (b'f' ∷ b'a' ∷ b'c' ∷ b'i' ∷ b'l' ∷ b'i' ∷ b't' ∷ b'y' ∷ []) as_text
                  set_facility log₂)
                (dict_copy dict (b'f' ∷ b'i' ∷ b'l' ∷ b't' ∷ b'e' ∷ b'r' ∷ []) as_text set_filter)))

  unfoldable pub populate : Json → Conf → Loaded Conf
  unfolding log_populate domains_populate resources_populate dict_lookup
  populate source conf = elim (as_dict source) [
    | none ↦ refused value_type_error
    | some dict ↦
        then_load (dict_copy dict (b'l' ∷ b'o' ∷ b'g' ∷ []) as_dict log_populate (Conf.log conf))
          (λ log.
            then_load
              (dict_copy dict (b'd' ∷ b'o' ∷ b'm' ∷ b'a' ∷ b'i' ∷ b'n' ∷ b's' ∷ []) as_list
                domains_populate conf.domains)
              (λ domains.
                dict_copy dict (b'r' ∷ b'e' ∷ b's' ∷ b'o' ∷ b'u' ∷ b'r' ∷ b'c' ∷ b'e' ∷ b's' ∷ [])
                  as_dict resources_populate (record conf { log = log; domains = domains })))
  ]

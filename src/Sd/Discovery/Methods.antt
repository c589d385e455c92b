-- ===== src/Sd/Discovery/Methods.antt =====
-- paf/sd.py, `ServiceDiscovery`: the methods that the server calls.
use paf.Prelude.{
  ℕ, Bool, ◌||◌, not, Option, none, some, List, [], ◌∷◌, Text, nat_eq, nat_beq, ltb, if◌then◌else◌,
}
use paf.Prelude.Dict.{Dict, lookup, contains, insert, erase}
use paf.Prelude.Action.{
  Result, ok, raised, bind, ◌>>=◌, ◌>>◌, lift, pure, raise, raise_if, gets, or_raise,
  modify as modify_state, attribute_error, not_found_error, already_exists_error, generation_error,
  key_error, assertion_error,
}
use paf.Filter.Syntax.{Props, Filter}
use paf.Sd.Resources.{ResourceType, allocate, deallocate}
use paf.Sd.Timeouts
use paf.Sd.Service
use paf.Sd.Service.{
  Generation, Service, ChangeType, is_orphan, new_service, set_generation, set_props, set_ttl,
  set_client_id, set_user_id, make_orphan, adopted, getter, check_access,
}
use paf.Sd.Subscription.{Subscription, notify, subscription_check_access}
use paf.Sd.Discovery.Defs.{
  Discovery, Method, on_manager, store, called, commit_service, update_service,
}

-- Setters in a row, in the body of a `with` block.
infixl 4 ◌then_set◌
abbrev pub ◌then_set◌ :
    (Service → Result Service) → (Service → Result Service) → Service → Result Service
◌then_set◌ f g s = bind (f s) g (λ e. raised e)

-- `_get_user_id`
abbrev pub get_user_id : ℕ → Method Text
get_user_id client st = or_raise (lookup client (Discovery.clients st)) not_found_error st

unfoldable pub client_connect : ℕ → Text → Method (Unit {0})
client_connect client user = do
  raise_if (← gets (λ (st : Discovery). contains client st.clients)) already_exists_error
  on_manager (allocate user ResourceType.client)
  modify_state (λ (st : Discovery). record st { clients = insert client user st.clients })

unfoldable pub has_client : ℕ → Discovery → Bool
has_client client st = contains client st.clients

-- One round of the loop over `get_services_with_client_id`, at the service with this id.
unfoldable pub orphan_service : ℕ → ℕ → ℕ → Method (Unit {0})
orphan_service now client id st = elim (lookup id (Discovery.services st)) [
  | none ↦ (ok tt, st)
  | some s ↦ elim (Service.cur s) [
    | none ↦ (raised attribute_error, st)
    | some g ↦
        if nat_beq (Generation.client_id g) client
        then update_service id s (make_orphan now) st
        else (ok tt, st)
  ]
]

unfoldable pub orphan_services : ℕ → ℕ → List ℕ → Method (Unit {0})
orphan_services now client [] = pure tt
orphan_services now client (id ∷ ids) = do
  orphan_service now client id
  orphan_services now client ids

abbrev pub keys {ℓ} : {V : Type ℓ} → Dict ℕ V → List ℕ
keys [] = []
keys ((k, v) ∷ d) = k ∷ keys d

-- `get_subscriptions_with_client_id`
unfoldable pub subscriptions_of : ℕ → Dict ℕ Subscription → List Subscription
subscriptions_of client [] = []
subscriptions_of client ((_, sub) ∷ subs) =
    let rest = subscriptions_of client subs in
    if nat_beq (Subscription.client_id sub) client then sub ∷ rest else rest

-- `_remove_subscription`
unfoldable pub drop_subscription : Subscription → Method (Unit {0})
drop_subscription sub = do
  raise_if (← gets (λ (st : Discovery). not (contains sub.sub_id st.subscriptions))) key_error
  modify_state (λ (st : Discovery). record st { subscriptions = erase sub.sub_id st.subscriptions })
  on_manager (deallocate sub.user_id ResourceType.subscription)

unfoldable pub drop_subscriptions : List Subscription → Method (Unit {0})
drop_subscriptions [] = pure tt
drop_subscriptions (sub ∷ subs) = do drop_subscription sub; drop_subscriptions subs

unfoldable pub client_disconnect : ℕ → ℕ → Method (Unit {0})
client_disconnect now client = do
  user ← get_user_id client
  on_manager (deallocate user ResourceType.client)
  λ (st : Discovery). orphan_services now client (keys st.services) st
  λ (st : Discovery). drop_subscriptions (subscriptions_of client st.subscriptions) st
  modify_state (λ (st : Discovery). record st { clients = erase client st.clients })

-- The bodies of the three `with` blocks of `publish`.
abbrev pub claim : ℕ → Service → Result Service
claim client = set_client_id client then_set adopted

abbrev pub advance : ℕ → Props → ℕ → ℕ → Service → Result Service
advance generation props ttl client =
    set_generation generation
    then_set set_props props
    then_set set_ttl ttl
    then_set adopted
    then_set set_client_id client

abbrev pub introduce : ℕ → Props → ℕ → ℕ → Text → Service → Result Service
introduce generation props ttl client user =
    set_generation generation
    then_set set_props props
    then_set set_ttl ttl
    then_set set_client_id client
    then_set adopted
    then_set set_user_id user

-- `publish`, where the service exists at generation `g`.
unfoldable pub republish : ℕ → ℕ → Props → ℕ → ℕ → Service → Generation → Method (Unit {0})
republish id generation props ttl client s g =
    if nat_beq generation g.generation
    then (if not (nat_beq g.client_id client) || is_orphan g
        then update_service id s (claim client)
        else pure tt)
    else (if ltb g.generation generation
        then update_service id s (advance generation props ttl client)
        else raise generation_error)

-- `publish`, where it does not: the service enters the dict last, before the commit.
unfoldable pub publish_new : ℕ → ℕ → Props → ℕ → ℕ → Text → Method (Unit {0})
publish_new id generation props ttl client user = do
  on_manager (allocate user ResourceType.service)
  λ st.
      bind (Service.add (new_service id))
        (λ s₁.
          bind (introduce generation props ttl client user s₁)
            (λ s₂. commit_service (store id) s₂ st) (λ e. (raised e, st)))
        (λ e. (raised e, st))

-- The service that `publish` returns is read by its caller's log message only.
unfoldable pub publish : ℕ → ℕ → Props → ℕ → ℕ → Method (Unit {0})
publish id generation props ttl client = do
  user ← get_user_id client
  λ st. elim (lookup id (Discovery.services st)) [
    | none ↦ publish_new id generation props ttl client user st
    | some s ↦
        bind (check_access user s)
          (λ _. elim (Service.cur s) [
            | none ↦ (raised attribute_error, st)
            | some g ↦ republish id generation props ttl client s g st
          ])
          (λ e. (raised e, st))
  ]

-- `_unpublish`: the service has left the dict when the change is committed.
unfoldable pub unpublish_service : ℕ → Method (Unit {0})
unpublish_service id = do
  s ← (λ st. or_raise (lookup id (Discovery.services st)) key_error st)
  modify_state (λ (st : Discovery). record st { services = erase id st.services })
  s₁ ← lift (Service.remove s)
  user ← lift (getter Generation.user_id s₁.cur)
  on_manager (deallocate user ResourceType.service)
  commit_service (λ _ st. st) s₁

unfoldable pub unpublish : ℕ → ℕ → Method (Unit {0})
unpublish id client = do
  user ← get_user_id client
  s ← (λ st. or_raise (lookup id (Discovery.services st)) not_found_error st)
  lift (check_access user s)
  unpublish_service id

unfoldable pub unpublish_services : List ℕ → Method (Unit {0})
unpublish_services [] = pure tt
unpublish_services (id ∷ ids) = do unpublish_service id; unpublish_services ids

unfoldable pub purge_orphans : ℕ → Method (List ℕ)
purge_orphans now = do
  ids ← gets (λ (st : Discovery). Timeouts.timed_out now st.orphans)
  unpublish_services ids
  pure ids

unfoldable pub next_orphan_timeout : Discovery → Option ℕ
next_orphan_timeout st = Timeouts.next_timeout st.orphans

unfoldable pub has_service : ℕ → Discovery → Bool
has_service id st = contains id st.services

unfoldable pub get_service : ℕ → Method Service
get_service id st = or_raise (lookup id (Discovery.services st)) not_found_error st

unfoldable pub create_subscription : ℕ → Option Filter → ℕ → Method (Unit {0})
create_subscription sub_id filter client = do
  user ← get_user_id client
  raise_if (← gets (λ (st : Discovery). contains sub_id st.subscriptions)) already_exists_error
  on_manager (allocate user ResourceType.subscription)
  let sub : Subscription = record {
    sub_id = sub_id;
    filter = filter;
    client_id = client;
    user_id = user;
  }
  modify_state
      (λ (st : Discovery). record st { subscriptions = insert sub_id sub st.subscriptions })

-- `for service in self.services.values(): subscription.notify(ChangeType.ADDED, service)`
unfoldable pub notify_services : Subscription → Dict ℕ Service → Method (Unit {0})
notify_services sub [] = pure tt
notify_services sub ((_, s) ∷ services) = do
  t ← lift (notify sub ChangeType.added s)
  modify_state (called sub s t)
  notify_services sub services

unfoldable pub activate_subscription : ℕ → Method (Unit {0})
activate_subscription sub_id = do
  sub ← (λ st. or_raise (lookup sub_id (Discovery.subscriptions st)) key_error st)
  λ (st : Discovery). notify_services sub st.services st

unfoldable pub remove_subscription : ℕ → ℕ → Method (Unit {0})
remove_subscription sub_id client = do
  raise_if (← gets (λ (st : Discovery). not (contains client st.clients))) assertion_error
  sub ← (λ st. or_raise (lookup sub_id (Discovery.subscriptions st)) not_found_error st)
  lift (subscription_check_access client sub)
  drop_subscription sub

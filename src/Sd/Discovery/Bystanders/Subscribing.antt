-- ===== src/Sd/Discovery/Bystanders/Subscribing.antt =====
-- paf/sd.py, `ServiceDiscovery`: the methods of subscriptions leave the clients alone.
use paf.Prelude.{ℕ, ◌≡◌, refl, Bool, not, Option, none, some, List, [], ◌∷◌, Text, nat_eq}
use paf.Prelude.Dict.{Dict, lookup, insert, erase, is_some}
use paf.Prelude.Action.{
  Result, ok, raised, Error, ◌>>=◌, ◌>>◌, or_raise, lift, raise_if, gets, modify as modify_state,
}
use paf.Filter.Syntax.{Filter}
use paf.Sd.Resources.{ResourceType, allocate, deallocate}
use paf.Sd.Service.{Service, ChangeType}
use paf.Sd.Subscription.{Subscription, MatchType, notify, subscription_check_access}
use paf.Sd.Discovery.{
  Discovery, Method, on_manager, Call, create_subscription, remove_subscription, drop_subscription,
  activate_subscription, notify_services, called, get_user_id,
}
use paf.Sd.Discovery.Bystanders.{
  >>=-LeavesClients, LeavesClients, get_user_id-LeavesClients, or_raise-LeavesClients,
}

abbrev entered : ℕ → Option Filter → ℕ → Text → Discovery → Discovery
entered id filter client user st = record st {
  subscriptions =
      insert id (record { sub_id = id; filter = filter; client_id = client; user_id = user })
        st.subscriptions;
}

abbrev is_taken : ℕ → Method Bool
is_taken id = gets (λ (st : Discovery). is_some (lookup id st.subscriptions))

pub create_subscription-LeavesClients :
    (id : ℕ) (filter : Option Filter) (client : ℕ)
    → LeavesClients (create_subscription id filter client)
unfolding create_subscription
create_subscription-LeavesClients id filter client =
    >>=-LeavesClients (get_user_id client)
      (λ user. is_taken id >>= λ b.
        raise_if b Error.already_exists_error
        >> (on_manager (allocate user ResourceType.subscription)
            >> modify_state (entered id filter client user)))
      (get_user_id-LeavesClients client)
      (λ user.
        >>=-LeavesClients (is_taken id)
          (λ b.
            raise_if b Error.already_exists_error
            >> (on_manager (allocate user ResourceType.subscription)
                >> modify_state (entered id filter client user)))
          (λ st. refl)
          (λ b.
            >>=-LeavesClients (raise_if b Error.already_exists_error)
              (λ _.
                on_manager (allocate user ResourceType.subscription)
                >> modify_state (entered id filter client user))
              (λ st. refl)
              (λ _.
                >>=-LeavesClients (on_manager (allocate user ResourceType.subscription))
                  (λ _. modify_state (entered id filter client user)) (λ st. refl) (λ _ st. refl))))

-- `raise_if` on a test of the state.
abbrev refuse_if : (Discovery → Bool) → Error → Method (Unit {0})
refuse_if test e = gets test >>= λ b. raise_if b e

refuse_if-LeavesClients : (test : Discovery → Bool) (e : Error) → LeavesClients (refuse_if test e)
refuse_if-LeavesClients test e =
    >>=-LeavesClients (gets test) (λ b. raise_if b e) (λ st. refl) (λ b st. refl)

drop_subscription-LeavesClients : (sub : Subscription) → LeavesClients (drop_subscription sub)
unfolding drop_subscription
drop_subscription-LeavesClients sub =
    >>=-LeavesClients
      (gets (λ (st : Discovery). not (is_some (lookup sub.sub_id st.subscriptions))))
      (λ b.
        raise_if b Error.key_error
        >> (modify_state
              (λ (st : Discovery). record st { subscriptions = erase sub.sub_id st.subscriptions })
            >> on_manager (deallocate sub.user_id ResourceType.subscription)))
      (λ st. refl)
      (λ b.
        >>=-LeavesClients (raise_if b Error.key_error)
          (λ _.
            modify_state
              (λ (st : Discovery). record st { subscriptions = erase sub.sub_id st.subscriptions })
            >> on_manager (deallocate sub.user_id ResourceType.subscription))
          (λ st. refl)
          (λ _.
            >>=-LeavesClients
              (modify_state (λ (st : Discovery). record st {
                subscriptions = erase sub.sub_id st.subscriptions;
              }))
              (λ _. on_manager (deallocate sub.user_id ResourceType.subscription)) (λ st. refl)
              (λ _ st. refl)))

pub remove_subscription-LeavesClients :
    (id client : ℕ) → LeavesClients (remove_subscription id client)
unfolding remove_subscription
remove_subscription-LeavesClients id client =
    >>=-LeavesClients (gets (λ (st : Discovery). not (is_some (lookup client st.clients))))
      (λ b.
        raise_if b Error.assertion_error
        >> ((λ st. or_raise (lookup id (Discovery.subscriptions st)) Error.not_found_error st)
            >>= λ sub. lift (subscription_check_access client sub) >> drop_subscription sub))
      (λ st. refl)
      (λ b.
        >>=-LeavesClients (raise_if b Error.assertion_error)
          (λ _.
            (λ st. or_raise (lookup id (Discovery.subscriptions st)) Error.not_found_error st)
            >>= λ sub. lift (subscription_check_access client sub) >> drop_subscription sub)
          (λ st. refl)
          (λ _.
            >>=-LeavesClients
              (λ st. or_raise (lookup id (Discovery.subscriptions st)) Error.not_found_error st)
              (λ sub. lift (subscription_check_access client sub) >> drop_subscription sub)
              (λ st. or_raise-LeavesClients (lookup id st.subscriptions) Error.not_found_error st)
              (λ sub.
                >>=-LeavesClients (lift (subscription_check_access client sub))
                  (λ _. drop_subscription sub) (λ st. refl)
                  (λ _. drop_subscription-LeavesClients sub))))

-- Activating a subscription calls its callback, and changes nothing else.
abbrev pub IsCalling : Discovery → Result (Unit {0}) × Discovery → Type 0
IsCalling st x = (cs : List Call) × (x.1 ≡ record st { calls = cs })

notify_services-IsCalling :
    (sub : Subscription) (services : Dict ℕ Service) (st : Discovery)
    → IsCalling st (notify_services sub services st)
unfolding notify_services
notify_services-IsCalling sub [] st = (st.calls, refl)
notify_services-IsCalling sub ((_, s) ∷ services) st =
    go (notify sub ChangeType.added s) (λ st'. notify_services-IsCalling sub services st')
  where
    go :
        (r : Result (Option MatchType))
        → ((st' : Discovery) → IsCalling st' (notify_services sub services st'))
        → IsCalling st
            ((lift r >>= λ t. modify_state (called sub s t) >> notify_services sub services) st)
    go (raised e) rest = (st.calls, refl)
    go (ok none) rest = rest st
    go (ok (some t)) rest = let (cs, e) = rest (called sub s (some t) st) in (cs, e)

pub activate_subscription-IsCalling :
    (id : ℕ) (st : Discovery) → IsCalling st (activate_subscription id st)
unfolding activate_subscription
activate_subscription-IsCalling id st = go (lookup id st.subscriptions)
  where
    go :
        (o : Option Subscription)
        → IsCalling st (
            (or_raise o Error.key_error >>= λ sub (st' : Discovery).
            notify_services sub st'.services st')
              st)
    go none = (st.calls, refl)
    go (some sub) = notify_services-IsCalling sub st.services st

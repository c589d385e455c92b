-- ===== src/Server/Consistency/Listing.antt =====
-- paf/server.py: the requests that list services, subscriptions and clients, and ping, keep the invariant.
use paf.Prelude.{
  ℕ, ◌/◌, refl, Bool, true, false, Option, none, some, List, [], ◌∷◌, nat_eq, if◌then◌else◌,
}
use paf.Prelude.Dict.{Dict}
use paf.Prelude.Action.{Result, ok, raised, Error, ◌>>=◌, ◌>>◌, lift, pure, OnlyFatal}
use paf.Proto.Fields.{Message, Pulled, props}
use paf.Filter.Syntax.{Filter}
use paf.Filter.Fatal.{matches-OnlyFatal}
use paf.Sd.Service.{Generation, Service}
use paf.Sd.Subscription.{Subscription}
use paf.Server.Transaction.{Transaction, accept, complete, notify}
use paf.Server.State.{Connection, Server, Method, respond, nat_value, text_value, time_arg}
use paf.Server.Handlers.{
  parse_filter_arg, list_subscriptions, subscriptions_request, is_listed, list_services, services,
  services_request, services_reason, ping_request, client_of, list_clients, clients_request,
}
use paf.Server.Consistency.{IsConsistent}
use paf.Server.Consistency.Leaves.{
  Preserves, >>=-Preserves, raised-Preserves, or_raise-Leaves, lift-Leaves, fatal-Leaves,
  connection-Leaves,
}
use paf.Server.Consistency.Rules.{
  Always, respond-Preserves, respond_then-Preserves, failing-Preserves,
}

-- An accept, a list that the state gives, and the end.
listed-Preserves :
    (c : ℕ) (ta : Transaction) (list : Server → Method (Unit {0})) (st : Server)
    → IsConsistent st
    → ((st' : Server) → IsConsistent st' → Preserves (list st' st'))
    → Preserves (
        (respond c (accept [] [] ta)
            >> ((λ (x : Server). list x x) >> respond c (complete [] [] ta)))
          st)
listed-Preserves c ta list st h k =
    respond_then-Preserves c (accept [] [] ta)
      ((λ (x : Server). list x x) >> respond c (complete [] [] ta)) st h
      (λ st₁ h₁.
        >>=-Preserves (λ (x : Server). list x x) (λ _. respond c (complete [] [] ta)) st₁ (k st₁ h₁)
          (λ _ st₂ h₂. respond-Preserves c (complete [] [] ta) st₂ h₂))

list_subscriptions-Preserves :
    (c : ℕ) (ta : Transaction) (subs : Dict ℕ Subscription) (st : Server)
    → IsConsistent st
    → Preserves (list_subscriptions c ta subs st)
unfolding list_subscriptions
list_subscriptions-Preserves c ta [] st h = h
list_subscriptions-Preserves c ta ((_, sub) ∷ subs) st h =
    respond_then-Preserves c _ (list_subscriptions c ta subs) st h
      (list_subscriptions-Preserves c ta subs)

pub subscriptions_request-Preserves :
    (c : ℕ) (ta : Transaction) (st : Server)
    → IsConsistent st
    → Preserves (subscriptions_request c ta st)
unfolding subscriptions_request
subscriptions_request-Preserves c ta st h =
    listed-Preserves c ta (λ x. list_subscriptions c ta x.sd.subscriptions) st h
      (λ st' h'. list_subscriptions-Preserves c ta st'.sd.subscriptions st' h')

is_listed-OnlyFatal : (filter : Option Filter) (g : Generation) → OnlyFatal (is_listed filter g)
unfolding is_listed
is_listed-OnlyFatal none g = tt
is_listed-OnlyFatal (some f) g = matches-OnlyFatal f g.props

abbrev told : ℕ → Transaction → Service → Generation → Option Message
told c ta s g =
    notify
      (nat_value (Service.service_id s)
        ∷ nat_value g.generation
        ∷ props g.props
        ∷ nat_value g.ttl
        ∷ nat_value g.client_id
        ∷ [])
      ((
        b'o' ∷ b'r' ∷ b'p' ∷ b'h' ∷ b'a' ∷ b'n' ∷ b'_' ∷ b's' ∷ b'i' ∷ b'n' ∷ b'c' ∷ b'e' ∷ [],
        time_arg g.orphan_since,
      )
        ∷ [])
      ta

list_services-Preserves :
    (c : ℕ) (ta : Transaction) (filter : Option Filter) (services : Dict ℕ Service) (st : Server)
    → IsConsistent st
    → Preserves (list_services c ta filter services st)
unfolding list_services
list_services-Preserves c ta filter [] st h = h
list_services-Preserves c ta filter ((_, s) ∷ rest) st h =
    let tell : Generation → Bool → Method (Unit {0}) =
      λ g b. (if b then respond c (told c ta s g) else pure tt) in
    or_raise-Leaves IsConsistent Always (Service.cur s) Error.attribute_error
      (λ g. lift (is_listed filter g) >>= λ b. tell g b >> list_services c ta filter rest) st tt
      (λ g _.
        listed g (is_listed filter g) (is_listed-OnlyFatal filter g)
          (λ st' h'. list_services-Preserves c ta filter rest st' h'))
  where
    listed :
        (g : Generation) (r : Result Bool)
        → OnlyFatal r
        → ((st' : Server) → IsConsistent st' → Preserves (list_services c ta filter rest st'))
        → Preserves (
            (lift r >>= λ b.
            (if b then respond c (told c ta s g) else pure tt) >> list_services c ta filter rest)
              st)
    listed g (raised e) only k = fatal-Leaves (Unit {0}) IsConsistent Always e st only
    listed g (ok false) only k = k st h
    listed g (ok true) only k =
        respond_then-Preserves c (told c ta s g) (list_services c ta filter rest) st h k

services-Preserves :
    (c : ℕ) (ta : Transaction) (arg : Option Pulled) (st : Server)
    → IsConsistent st
    → Preserves (services c ta arg st)
unfolding services
services-Preserves c ta arg st h =
    let list : Option Filter → Server → Method (Unit {0}) =
      λ filter x. list_services c ta filter x.sd.services in
    lift-Leaves IsConsistent Always (parse_filter_arg arg)
      (λ filter.
        respond c (accept [] [] ta)
        >> ((λ (x : Server). list filter x x) >> respond c (complete [] [] ta)))
      st (λ e _. raised-Preserves (Unit {0}) e st h)
      (λ filter _.
        listed-Preserves c ta (list filter) st h
          (λ st' h'. list_services-Preserves c ta filter st'.sd.services st' h'))

pub services_request-Preserves :
    (c : ℕ) (ta : Transaction) (arg : Option Pulled) (st : Server)
    → IsConsistent st
    → Preserves (services_request c ta arg st)
unfolding services_request
services_request-Preserves c ta arg st h =
    failing-Preserves c ta services_reason (services c ta arg) st (refl, refl, refl, refl, refl)
      (services-Preserves c ta arg st h)

pub ping_request-Preserves :
    (c : ℕ) (ta : Transaction) (st : Server) → IsConsistent st → Preserves (ping_request c ta st)
unfolding ping_request
ping_request-Preserves c ta st h = respond-Preserves c (complete [] [] ta) st h

abbrev client_message : Transaction → Connection → ℕ → Option Message
client_message ta conn client =
    notify
      (nat_value client ∷ text_value conn.conn_addr ∷ nat_value (conn.connect_time / 1000000) ∷ [])
      [] ta

list_clients-Preserves :
    (c : ℕ) (ta : Transaction) (ds : List ℕ) (st : Server)
    → IsConsistent st
    → Preserves (list_clients c ta ds st)
unfolding list_clients
list_clients-Preserves c ta [] st h = h
list_clients-Preserves c ta (d ∷ ds) st h =
    let rest : Connection → ℕ → Method (Unit {0}) =
      λ conn client. respond c (client_message ta conn client) >> list_clients c ta ds in
    connection-Leaves IsConsistent Always d (λ conn. client_of conn >>= rest conn) st
      (λ conn _.
        or_raise-Leaves IsConsistent Always conn.client_id Error.not_found_error (rest conn) st h
          (λ client _.
            respond_then-Preserves c (client_message ta conn client) (list_clients c ta ds) st h
              (λ st' h'. list_clients-Preserves c ta ds st' h')))

pub clients_request-Preserves :
    (c : ℕ) (ta : Transaction) (st : Server) → IsConsistent st → Preserves (clients_request c ta st)
unfolding clients_request
clients_request-Preserves c ta st h =
    listed-Preserves c ta (λ x. list_clients c ta x.client_connections) st h
      (λ st' h'. list_clients-Preserves c ta st'.client_connections st' h')

-- ===== src/Server/Handlers.antt =====
-- paf/server.py, `Connection`: the handlers of the requests. What a handler yields is sent by `respond`,
-- before the handler goes on.
use paf.Prelude.{
  ℕ, ◌/◌, Bool, true, false, not, ◌&&◌, ◌||◌, Option, none, some, List, [], ◌∷◌, Text, leb, nat_eq,
  nat_beq, text_eq, if◌then◌else◌,
}
use paf.Prelude.Dict.{Dict, lookup, insert, erase}
use paf.Prelude.Action.{
  Result, ok, raised, Error, ◌>>=◌, ◌>>◌, lift, pure, raise, or_raise, raise_if, gets, modify,
}
use paf.Filter.Syntax.{Filter, Props}
use paf.Filter.Parse.{Parsed, parsed, failed, out_of_fuel, parse}
use paf.Filter.Print.{print}
use paf.Filter.Match.{matches}
use paf.Proto.Props.{str}
use paf.Proto.Fields.{Pulled, plain, props}
use paf.Sd.Service.{Generation, Service, getter}
use paf.Sd.Subscription.{Subscription}
use paf.Sd.Discovery
use paf.Sd.Discovery.{Discovery}
use paf.Server.Transaction.{Transaction, complete, fail, accept, notify}
use paf.Server.UserId.{determine_user_id}
use paf.Server.State.{
  Connection, Server, Method, connection, set_connection, respond, nat_value, text_value, time_arg,
  on_sd,
}

-- `proto.VERSION`
abbrev pub version : ℕ
version = 2

-- `ta.fail(fail_reason=reason)`, sent.
abbrev pub respond_failure : ℕ → Transaction → Text → Method (Unit {0})
respond_failure c ta reason = respond c (
    fail []
      ((
        b'f' ∷ b'a' ∷ b'i' ∷ b'l' ∷ b'_' ∷ b'r' ∷ b'e' ∷ b'a' ∷ b's' ∷ b'o' ∷ b'n' ∷ [],
        some (text_value reason),
      )
        ∷ [])
      ta)

-- The `except` clauses of a handler: the reason that is given for an exception, if one catches it.
unfoldable pub failing :
    ℕ → Transaction → (Error → Option Text) → Method (Unit {0}) → Method (Unit {0})
unfolding respond
failing c ta reason m st =
    let (r, st') = m st in
    elim r [
      | ok a ↦ (ok a, st')
      | raised e ↦ elim (reason e) [
        | none ↦ (raised e, st')
        | some text ↦ respond_failure c ta text st'
      ]
    ]

abbrev pub hello_reason : Error → Option Text
hello_reason Error.already_exists_error = some (
    b'c' ∷ b'l' ∷ b'i' ∷ b'e' ∷ b'n' ∷ b't' ∷ b'-' ∷ b'i' ∷ b'd' ∷ b'-' ∷ b'e' ∷ b'x' ∷ b'i' ∷ b's'
    ∷ b't' ∷ b's' ∷ [])
hello_reason Error.resource_error = some (
    b'i' ∷ b'n' ∷ b's' ∷ b'u' ∷ b'f' ∷ b'f' ∷ b'i' ∷ b'c' ∷ b'i' ∷ b'e' ∷ b'n' ∷ b't' ∷ b'-' ∷ b'r'
    ∷ b'e' ∷ b's' ∷ b'o' ∷ b'u' ∷ b'r' ∷ b'c' ∷ b'e' ∷ b's' ∷ [])
hello_reason _ = none

abbrev pub subscribe_reason : Error → Option Text
subscribe_reason Error.parse_error = some (
    b'i' ∷ b'n' ∷ b'v' ∷ b'a' ∷ b'l' ∷ b'i' ∷ b'd' ∷ b'-' ∷ b'f' ∷ b'i' ∷ b'l' ∷ b't' ∷ b'e' ∷ b'r'
    ∷ b'-' ∷ b's' ∷ b'y' ∷ b'n' ∷ b't' ∷ b'a' ∷ b'x' ∷ [])
subscribe_reason Error.already_exists_error = some (
    b's' ∷ b'u' ∷ b'b' ∷ b's' ∷ b'c' ∷ b'r' ∷ b'i' ∷ b'p' ∷ b't' ∷ b'i' ∷ b'o' ∷ b'n' ∷ b'-' ∷ b'i'
    ∷ b'd' ∷ b'-' ∷ b'e' ∷ b'x' ∷ b'i' ∷ b's' ∷ b't' ∷ b's' ∷ [])
subscribe_reason Error.resource_error = some (
    b'i' ∷ b'n' ∷ b's' ∷ b'u' ∷ b'f' ∷ b'f' ∷ b'i' ∷ b'c' ∷ b'i' ∷ b'e' ∷ b'n' ∷ b't' ∷ b'-' ∷ b'r'
    ∷ b'e' ∷ b's' ∷ b'o' ∷ b'u' ∷ b'r' ∷ b'c' ∷ b'e' ∷ b's' ∷ [])
subscribe_reason _ = none

abbrev pub unsubscribe_reason : Error → Option Text
unsubscribe_reason Error.permission_error = some (
    b'p' ∷ b'e' ∷ b'r' ∷ b'm' ∷ b'i' ∷ b's' ∷ b's' ∷ b'i' ∷ b'o' ∷ b'n' ∷ b'-' ∷ b'd' ∷ b'e' ∷ b'n'
    ∷ b'i' ∷ b'e' ∷ b'd' ∷ [])
unsubscribe_reason Error.not_found_error = some (
    b'n' ∷ b'o' ∷ b'n' ∷ b'-' ∷ b'e' ∷ b'x' ∷ b'i' ∷ b's' ∷ b't' ∷ b'e' ∷ b'n' ∷ b't' ∷ b'-' ∷ b's'
    ∷ b'u' ∷ b'b' ∷ b's' ∷ b'c' ∷ b'r' ∷ b'i' ∷ b'p' ∷ b't' ∷ b'i' ∷ b'o' ∷ b'n' ∷ b'-' ∷ b'i'
    ∷ b'd' ∷ [])
unsubscribe_reason _ = none

abbrev pub services_reason : Error → Option Text
services_reason Error.parse_error = some (
    b'i' ∷ b'n' ∷ b'v' ∷ b'a' ∷ b'l' ∷ b'i' ∷ b'd' ∷ b'-' ∷ b'f' ∷ b'i' ∷ b'l' ∷ b't' ∷ b'e' ∷ b'r'
    ∷ b'-' ∷ b's' ∷ b'y' ∷ b'n' ∷ b't' ∷ b'a' ∷ b'x' ∷ [])
services_reason _ = none

abbrev pub publish_reason : Error → Option Text
publish_reason Error.permission_error = some (
    b'p' ∷ b'e' ∷ b'r' ∷ b'm' ∷ b'i' ∷ b's' ∷ b's' ∷ b'i' ∷ b'o' ∷ b'n' ∷ b'-' ∷ b'd' ∷ b'e' ∷ b'n'
    ∷ b'i' ∷ b'e' ∷ b'd' ∷ [])
publish_reason Error.resource_error = some (
    b'i' ∷ b'n' ∷ b's' ∷ b'u' ∷ b'f' ∷ b'f' ∷ b'i' ∷ b'c' ∷ b'i' ∷ b'e' ∷ b'n' ∷ b't' ∷ b'-' ∷ b'r'
    ∷ b'e' ∷ b's' ∷ b'o' ∷ b'u' ∷ b'r' ∷ b'c' ∷ b'e' ∷ b's' ∷ [])
publish_reason Error.generation_error = some (
    b'o' ∷ b'l' ∷ b'd' ∷ b'-' ∷ b'g' ∷ b'e' ∷ b'n' ∷ b'e' ∷ b'r' ∷ b'a' ∷ b't' ∷ b'i' ∷ b'o' ∷ b'n'
    ∷ [])
publish_reason _ = none

abbrev pub unpublish_reason : Error → Option Text
unpublish_reason Error.permission_error = some (
    b'p' ∷ b'e' ∷ b'r' ∷ b'm' ∷ b'i' ∷ b's' ∷ b's' ∷ b'i' ∷ b'o' ∷ b'n' ∷ b'-' ∷ b'd' ∷ b'e' ∷ b'n'
    ∷ b'i' ∷ b'e' ∷ b'd' ∷ [])
unpublish_reason Error.not_found_error = some (
    b'n' ∷ b'o' ∷ b'n' ∷ b'-' ∷ b'e' ∷ b'x' ∷ b'i' ∷ b's' ∷ b't' ∷ b'e' ∷ b'n' ∷ b't' ∷ b'-' ∷ b's'
    ∷ b'e' ∷ b'r' ∷ b'v' ∷ b'i' ∷ b'c' ∷ b'e' ∷ b'-' ∷ b'i' ∷ b'd' ∷ [])
unpublish_reason _ = none

-- `Server.conn_handshake_completed`, where a set that lacks the connection raises a `KeyError`.
abbrev pub has_number : ℕ → List ℕ → Bool
has_number c [] = false
has_number c (d ∷ ds) = nat_beq d c || has_number c ds

abbrev pub without : ℕ → List ℕ → List ℕ
without c [] = []
without c (d ∷ ds) = if nat_beq d c then ds else d ∷ without c ds

unfoldable pub conn_handshake_completed : ℕ → Method (Unit {0})
conn_handshake_completed c = do
  raise_if (← gets (λ (st : Server). not (has_number c st.clientless_connections))) Error.key_error
  modify (λ (st : Server). record st {
    clientless_connections = without c st.clientless_connections;
    client_connections = c ∷ without c st.client_connections;
  })

-- The client id of a connection; `ServiceDiscovery` knows no client `None`.
abbrev pub client_of : Connection → Method ℕ
client_of conn = or_raise conn.client_id Error.not_found_error

-- The `try` block of `hello_request`.
unfoldable pub connect_client : ℕ → Transaction → ℕ → Text → Method (Unit {0})
unfolding on_sd conn_handshake_completed respond
connect_client c ta client user = do
  on_sd (Discovery.client_connect client user)
  conn ← connection c
  modify (set_connection c (record conn { handshaked = true }))
  conn_handshake_completed c
  respond c (complete (nat_value version ∷ []) [] ta)

-- `hello_request` from the check of the versions on.
unfoldable pub shake_hands : ℕ → Transaction → ℕ → ℕ → ℕ → Method (Unit {0})
unfolding connect_client failing determine_user_id
shake_hands c ta client min_version max_version = do
  conn ← connection c
  user ← lift (determine_user_id conn.conn_addr conn.subject_key_id)
  let known = failing c ta hello_reason (connect_client c ta client user)
  let unknown = respond_failure c ta (
      b'u' ∷ b'n' ∷ b's' ∷ b'u' ∷ b'p' ∷ b'p' ∷ b'o' ∷ b'r' ∷ b't' ∷ b'e' ∷ b'd' ∷ b'-' ∷ b'p'
      ∷ b'r' ∷ b'o' ∷ b't' ∷ b'o' ∷ b'c' ∷ b'o' ∷ b'l' ∷ b'-' ∷ b'v' ∷ b'e' ∷ b'r' ∷ b's' ∷ b'i'
      ∷ b'o' ∷ b'n' ∷ [])
  if leb min_version version && leb version max_version then known else unknown

-- `hello_request`. To deny a change of the client id it names `proto.FAIL_PERMISSION_DENIED`, which
-- proto.py does not have.
unfoldable pub hello_request : ℕ → Transaction → ℕ → ℕ → ℕ → Method (Unit {0})
unfolding shake_hands respond
hello_request c ta client min_version max_version = do
  conn ← connection c
  let hands = shake_hands c ta client min_version max_version
  let again = respond c (complete (nat_value version ∷ []) [] ta)
  let first = modify (set_connection c (record conn { client_id = some client })) >> hands
  elim conn.client_id [
    | none ↦ first
    | some known ↦
        if nat_beq known client
        then (if conn.handshaked then again else hands)
        else raise Error.attribute_error
  ]

-- `paf.filter.parse` of a filter that was given. A value that is no text is refused with a
-- `TypeError`. (`out_of_fuel` does not occur.)
abbrev pub parsed_filter : Parsed Filter → Result (Option Filter)
parsed_filter (parsed f rest) = ok (some f)
parsed_filter failed = raised Error.parse_error
parsed_filter out_of_fuel = raised Error.parse_error

unfoldable pub parse_filter_arg : Option Pulled → Result (Option Filter)
unfolding parse
parse_filter_arg none = ok none
parse_filter_arg (some (plain (str s))) = parsed_filter (parse s)
parse_filter_arg (some _) = raised Error.type_error

unfoldable pub subscribe : ℕ → Transaction → ℕ → Option Pulled → Method (Unit {0})
unfolding parse_filter_arg on_sd respond
subscribe c ta sub_id arg = do
  filter ← lift (parse_filter_arg arg)
  conn ← connection c
  client ← client_of conn
  on_sd (Discovery.create_subscription sub_id filter client)
  conn' ← connection c
  modify (λ (st : Server). record st { callbacks = insert sub_id c st.callbacks })
  modify (set_connection c (record conn' { sub_tas = insert sub_id ta conn'.sub_tas }))
  respond c (accept [] [] ta)
  on_sd (Discovery.activate_subscription sub_id)

unfoldable pub subscribe_request : ℕ → Transaction → ℕ → Option Pulled → Method (Unit {0})
unfolding subscribe failing
subscribe_request c ta sub_id filter = failing c ta subscribe_reason (subscribe c ta sub_id filter)

unfoldable pub unsubscribe : ℕ → Transaction → ℕ → Method (Unit {0})
unfolding on_sd respond
unsubscribe c ta sub_id = do
  conn ← connection c
  client ← client_of conn
  on_sd (Discovery.remove_subscription sub_id client)
  conn' ← connection c
  sub_ta ← or_raise (lookup sub_id conn'.sub_tas) Error.key_error
  modify (set_connection c (record conn' { sub_tas = erase sub_id conn'.sub_tas }))
  respond c (complete [] [] sub_ta)
  respond c (complete [] [] ta)

unfoldable pub unsubscribe_request : ℕ → Transaction → ℕ → Method (Unit {0})
unfolding unsubscribe failing
unsubscribe_request c ta sub_id = failing c ta unsubscribe_reason (unsubscribe c ta sub_id)

-- `for sub in self.sd.get_subscriptions()`
abbrev pub filter_arg : Option Filter → Option Pulled
filter_arg none = none
filter_arg (some f) = some (text_value (print f))

unfoldable pub list_subscriptions : ℕ → Transaction → Dict ℕ Subscription → Method (Unit {0})
unfolding respond
list_subscriptions c ta [] = pure tt
list_subscriptions c ta ((_, sub) ∷ subs) = do
  respond c (
      notify (nat_value (Subscription.sub_id sub) ∷ nat_value sub.client_id ∷ [])
        ((b'f' ∷ b'i' ∷ b'l' ∷ b't' ∷ b'e' ∷ b'r' ∷ [], filter_arg sub.filter) ∷ []) ta)
  list_subscriptions c ta subs

unfoldable pub subscriptions_request : ℕ → Transaction → Method (Unit {0})
unfolding list_subscriptions respond
subscriptions_request c ta = do
  respond c (accept [] [] ta)
  λ (st : Server). list_subscriptions c ta st.sd.subscriptions st
  respond c (complete [] [] ta)

-- `filter is None or filter.match(service.props())`
unfoldable pub is_listed : Option Filter → Generation → Result Bool
is_listed none g = ok true
is_listed (some f) g = matches f g.props

-- `for service in self.sd.get_services()`
unfoldable pub list_services : ℕ → Transaction → Option Filter → Dict ℕ Service → Method (Unit {0})
unfolding is_listed respond
list_services c ta filter [] = pure tt
list_services c ta filter ((_, s) ∷ services) = do
  g ← or_raise (Service.cur s) Error.attribute_error
  listed ← lift (is_listed filter g)
  let told = respond c (
      notify
        (nat_value (Service.service_id s)
          ∷ nat_value g.generation
          ∷ props g.props
          ∷ nat_value g.ttl
          ∷ nat_value g.client_id
          ∷ [])
        ((
          b'o' ∷ b'r' ∷ b'p' ∷ b'h' ∷ b'a' ∷ b'n' ∷ b'_' ∷ b's' ∷ b'i' ∷ b'n' ∷ b'c' ∷ b'e' ∷ [],
          time_arg g.orphan_since,
        )
          ∷ [])
        ta)
  if listed then told else pure tt
  list_services c ta filter services

unfoldable pub services : ℕ → Transaction → Option Pulled → Method (Unit {0})
unfolding parse_filter_arg list_services respond
services c ta arg = do
  filter ← lift (parse_filter_arg arg)
  respond c (accept [] [] ta)
  λ (st : Server). list_services c ta filter st.sd.services st
  respond c (complete [] [] ta)

unfoldable pub services_request : ℕ → Transaction → Option Pulled → Method (Unit {0})
unfolding services failing
services_request c ta filter = failing c ta services_reason (services c ta filter)

unfoldable pub publish_request : ℕ → Transaction → ℕ → ℕ → Props → ℕ → Method (Unit {0})
unfolding on_sd respond failing
publish_request c ta id generation service_props ttl = failing c ta publish_reason (do
  conn ← connection c
  client ← client_of conn
  on_sd (Discovery.publish id generation service_props ttl client)
  respond c (complete [] [] ta))

unfoldable pub unpublish_request : ℕ → Transaction → ℕ → Method (Unit {0})
unfolding on_sd respond failing
unpublish_request c ta id = failing c ta unpublish_reason (do
  s ← on_sd (Discovery.get_service id)
  lift (getter Generation.props (Service.cur s))
  conn ← connection c
  client ← client_of conn
  on_sd (Discovery.unpublish id client)
  respond c (complete [] [] ta))

unfoldable pub ping_request : ℕ → Transaction → Method (Unit {0})
unfolding respond
ping_request c ta = respond c (complete [] [] ta)

-- `for conn in self.server.client_connections`
unfoldable pub list_clients : ℕ → Transaction → List ℕ → Method (Unit {0})
unfolding respond
list_clients c ta [] = pure tt
list_clients c ta (d ∷ ds) = do
  conn ← connection d
  client ← client_of conn
  respond c (
      notify
        (nat_value client
          ∷ text_value conn.conn_addr
          ∷ nat_value (conn.connect_time / 1000000)
          ∷ [])
        [] ta)
  list_clients c ta ds

unfoldable pub clients_request : ℕ → Transaction → Method (Unit {0})
unfolding list_clients respond
clients_request c ta = do
  respond c (accept [] [] ta)
  λ (st : Server). list_clients c ta st.client_connections st
  respond c (complete [] [] ta)

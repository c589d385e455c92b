-- ===== src/Server/Connection.antt =====
-- paf/server.py, `Connection`: a request, what a socket brings, and the end of a connection.
pub mod Batches
use paf.Prelude.{
  ℕ, zero, suc, true, false, ◌||◌, Option, none, some, List, [], ◌∷◌, Text, ◌==◌, ltb, length,
  nat_eq, text_eq, if◌then◌else◌,
}
use paf.Prelude.Dict.{lookup}
use paf.Prelude.Int.{pos}
use paf.Prelude.Action.{Error, ◌>>=◌, ◌>>◌, lift, pure, raise, modify}
use paf.Filter.Syntax.{Props}
use paf.Proto.Props.{Json, int, bool}
use paf.Proto.Fields.{Message, Pulled, plain, props}
use paf.Proto.Types.{
  cmd_hello, cmd_subscribe, cmd_unsubscribe, cmd_subscriptions, cmd_services, cmd_publish,
  cmd_unpublish, cmd_ping, cmd_clients, field_filter,
}
use paf.Server.Transaction
use paf.Server.Transaction.{Transaction, Request}
use paf.Server.State.{Method, connection, set_connection, respond}
use paf.Server.Handlers.{
  respond_failure, hello_request, subscribe_request, unsubscribe_request, subscriptions_request,
  services_request, publish_request, unpublish_request, ping_request, clients_request,
}

-- A positional argument that a `NonNegativeIntField` has pulled. Python's `True` is 1, and `False` 0.
abbrev pub id_arg : Option Pulled → Option ℕ
id_arg (some (plain (int (pos n)))) = some n
id_arg (some (plain (bool true))) = some 1
id_arg (some (plain (bool false))) = some 0
id_arg _ = none

-- A handler that is called with one number, with three, and as `publish_request` is; other arguments
-- are a `TypeError` of Python's.
abbrev pub with_id : List (Option Pulled) → (ℕ → Method (Unit {0})) → Method (Unit {0})
with_id (a ∷ []) f = elim (id_arg a) [ none ↦ raise Error.type_error | some n ↦ f n ]
with_id _ f = raise Error.type_error

abbrev pub with_ids :
    Option ℕ → Option ℕ → Option ℕ → (ℕ → ℕ → ℕ → Method (Unit {0})) → Method (Unit {0})
with_ids (some a) (some b) (some c) f = f a b c
with_ids _ _ _ f = raise Error.type_error

abbrev pub with_three : List (Option Pulled) → (ℕ → ℕ → ℕ → Method (Unit {0})) → Method (Unit {0})
with_three (a ∷ b ∷ c ∷ []) f = with_ids (id_arg a) (id_arg b) (id_arg c) f
with_three _ f = raise Error.type_error

abbrev pub with_service :
    List (Option Pulled) → (ℕ → ℕ → Props → ℕ → Method (Unit {0})) → Method (Unit {0})
with_service (a ∷ b ∷ some (props p) ∷ c ∷ []) f =
    with_ids (id_arg a) (id_arg b) (id_arg c) (λ id generation ttl. f id generation p ttl)
with_service _ f = raise Error.type_error

abbrev pub with_none : List (Option Pulled) → Method (Unit {0}) → Method (Unit {0})
with_none [] m = m
with_none (_ ∷ _) m = raise Error.type_error

-- `invoke_handler`: the method is the one named after the command.
unfoldable pub invoke_handler : ℕ → Request → Method (Unit {0})
unfolding hello_request subscribe_request unsubscribe_request subscriptions_request services_request
    publish_request unpublish_request ping_request clients_request
invoke_handler c r =
    let ta : Transaction = r.transaction in
    let cmd : Text = ta.ta_type.cmd in
    let filter : Option Pulled = lookup field_filter.name r.optargs in
    if cmd == cmd_hello
    then with_three r.args (hello_request c ta)
    else (if cmd == cmd_subscribe
        then with_id r.args (λ sub_id. subscribe_request c ta sub_id filter)
        else (if cmd == cmd_unsubscribe
            then with_id r.args (unsubscribe_request c ta)
            else (if cmd == cmd_subscriptions
                then with_none r.args (subscriptions_request c ta)
                else (if cmd == cmd_services
                    then with_none r.args (services_request c ta filter)
                    else (if cmd == cmd_publish
                        then with_service r.args (publish_request c ta)
                        else (if cmd == cmd_unpublish
                            then with_id r.args (unpublish_request c ta)
                            else (if cmd == cmd_ping
                                then with_none r.args (ping_request c ta)
                                else (if cmd == cmd_clients
                                    then with_none r.args (clients_request c ta)
                                    else raise Error.attribute_error))))))))

-- `proto.FAIL_REASON_NO_HELLO`
abbrev pub no_hello : Text
no_hello = b'n' ∷ b'o' ∷ b'-' ∷ b'h' ∷ b'e' ∷ b'l' ∷ b'l' ∷ b'o' ∷ []

-- `request`, on what `json.loads` has made of the message.
unfoldable pub request : ℕ → Option Json → Method (Unit {0})
unfolding invoke_handler Transaction.request respond
request c json = do
  r ← lift (Transaction.request json)
  conn ← connection c
  let refused = respond_failure c r.transaction no_hello
  if r.transaction.ta_type.cmd == cmd_hello || conn.handshaked then invoke_handler c r else refused

-- What `receive` of a socket does: a message, in the form of `json.loads`; an empty one, when the other
-- side has closed; nothing there yet (`EAGAIN`); or another error.
pub data Received : Type 0 where
  message : Option Json → Received
  closed again broken : Received

-- What `send` of a socket does.
pub data Sent : Type 0 where
  sent not_yet lost : Sent

-- How a round with the socket ends: it goes on, or it has raised an `xcm.error`.
pub data Round : Type 0 where
  goes_on ends : Round

unfoldable pub try_receive : ℕ → Received → Method Round
unfolding request
try_receive c (message json) = request c json >> pure goes_on
try_receive c closed = pure ends
try_receive c again = pure goes_on
try_receive c broken = pure ends

-- The loop of `try_send`, on the messages that are out and on what each call of `send` does. A message
-- that was not sent goes back to the front, and the loop goes on.
unfoldable pub send_batch : ℕ → List Message → List Sent → List Message × Round
send_batch zero msgs outcomes = (msgs, goes_on)
send_batch (suc n) [] outcomes = ([], goes_on)
send_batch (suc n) (msg ∷ msgs) [] = (msg ∷ msgs, goes_on)
send_batch (suc n) (msg ∷ msgs) (sent ∷ outcomes) = send_batch n msgs outcomes
send_batch (suc n) (msg ∷ msgs) (not_yet ∷ outcomes) = send_batch n (msg ∷ msgs) outcomes
send_batch (suc n) (msg ∷ msgs) (lost ∷ outcomes) = (msgs, ends)

abbrev pub max_send_batch : ℕ
max_send_batch = 64

abbrev pub least : ℕ → ℕ → ℕ
least a b = if ltb a b then a else b

unfoldable pub try_send : ℕ → List Sent → Method Round
unfolding send_batch
try_send c outcomes = do
  conn ← connection c
  let r : List Message × Round =
      send_batch (least max_send_batch (length conn.out_wire_msgs)) conn.out_wire_msgs outcomes
  modify (set_connection c (record conn { out_wire_msgs = r.0 }))
  pure r.1

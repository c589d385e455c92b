-- ===== src/Server/Listener.antt =====
-- paf/server.py, `Server`, and `Connection.activate` and `terminate`, which reach into it. A method takes
-- the time that `time.time()` returns as `now`, and what the sockets do.
pub mod Capacity
use paf.Prelude.{
  ℕ, zero, suc, ◌+◌, ◌-◌, ◌*◌, Bool, true, false, not, ◌&&◌, ◌||◌, Option, none, some, List, [],
  ◌∷◌, ◌++◌, Text, ltb, length, nat_eq, nat_beq, if◌then◌else◌,
}
use paf.Prelude.Dict.{Dict, lookup, insert, erase}
use paf.Prelude.Action.{
  Action, Result, ok, raised, Error, ◌>>=◌, ◌>>◌, lift, pure, raise, gets, modify,
}
use paf.Sd.Resources.{Resources, ResourceManager}
use paf.Sd.Discovery
use paf.Sd.Discovery.{Discovery, has_client, next_orphan_timeout}
use paf.Server.State.{
  Condition, Connection, Server, Method, connection, set_connection, update_source, sendable,
  receivable, on_sd,
}
use paf.Server.Handlers.{client_of, without}
use paf.Server.Connection.{Received, Sent, Round, goes_on, ends, try_receive, try_send, least}

abbrev pub num_connections : Server → ℕ
num_connections st = length st.clientless_connections + length st.client_connections

-- `self.sd.max_total_clients()`
abbrev pub max_total_clients : Server → Option ℕ
max_total_clients st = Resources.clients (ResourceManager.max_total_resources st.sd.manager)

-- `max_clients_reached`: what is left, the maximum less the number, is 0.
unfoldable pub max_clients_reached : Server → Bool
max_clients_reached st = elim (max_total_clients st) [
  | none ↦ false
  | some m ↦ nat_beq m (num_connections st)
]

-- `client_capacity_left`, where a negative number is 0, as in `range`.
unfoldable pub client_capacity_left : Server → Option ℕ
client_capacity_left st = elim (max_total_clients st) [
  | none ↦ none
  | some m ↦ some (m - num_connections st)
]

abbrev pub set_all : Bool → Dict ℕ Bool → Dict ℕ Bool
set_all b [] = []
set_all b ((s, _) ∷ d) = (s, b) ∷ set_all b d

-- `conn_terminated`
unfoldable pub conn_terminated : ℕ → Server → Server
unfolding max_clients_reached
conn_terminated c st = record st {
  acceptable = if max_clients_reached st then set_all true st.acceptable else st.acceptable;
  client_connections = without c st.client_connections;
  clientless_connections = without c st.clientless_connections;
}

-- `Connection.terminate`, which takes the connection's source from the event loop and closes its
-- socket: the connection is no more.
unfoldable pub terminate : ℕ → ℕ → Method (Unit {0})
unfolding conn_terminated on_sd
terminate now c = do
  conn ← connection c
  let disconnect = client_of conn >>= λ client. on_sd (Discovery.client_disconnect now client)
  if conn.handshaked then disconnect else pure tt
  modify (λ (st : Server). conn_terminated c (record st { connections = erase c st.connections }))

abbrev pub update_connection : ℕ → Method Round
update_connection c = do
  conn ← connection c
  modify (set_connection c (update_source conn))
  pure goes_on

-- The `try` block of `activate`.
unfoldable pub turn : ℕ → Received → List Sent → Method Round
unfolding try_receive try_send update_source
turn c received outcomes = do
  conn ← connection c
  round ← (if receivable conn then try_receive c received else pure goes_on)
  let send = (do
    conn' ← connection c
    round' ← (if sendable conn' then try_send c outcomes else pure goes_on)
    elim round' [ ends ↦ pure ends | goes_on ↦ update_connection c ])
  elim round [ ends ↦ pure ends | goes_on ↦ send ]

-- The `except` clauses of `activate`, for `xcm.error` and `proto.Error`.
abbrev pub close_or : Method (Unit {0}) → Result Round → Method (Unit {0})
close_or close (ok goes_on) st = (ok tt, st)
close_or close (ok ends) st = close st
close_or close (raised Error.protocol_error) st = close st
close_or close (raised e) st = (raised e, st)

unfoldable pub activate : ℕ → ℕ → Received → List Sent → Method (Unit {0})
unfolding turn terminate
activate now c received outcomes st =
    let (r, st') = turn c received outcomes st in close_or (terminate now c) r st'

abbrev pub purge_interval : ℕ
purge_interval = 1000000

abbrev pub max_handshake_time : ℕ
max_handshake_time = 2000000

-- `schedule_purge`
unfoldable pub schedule_purge : ℕ → Server → Server
schedule_purge now st =
    if ltb 0 (length st.clientless_connections)
    then record st { purge_timer = some (now + purge_interval) }
    else st

-- The test of `purge_connections`, where a clock that has gone back gives a negative time.
abbrev pub is_unknown : Discovery → Option ℕ → Bool
is_unknown sd none = true
is_unknown sd (some client) = not (has_client client sd)

abbrev pub is_late : ℕ → Connection → Bool
is_late now conn = ltb (conn.connect_time + max_handshake_time) now

unfoldable pub failed_connections : ℕ → Server → List ℕ → List ℕ
unfolding has_client
failed_connections now st [] = []
failed_connections now st (c ∷ cs) =
    let rest = failed_connections now st cs in
    elim (lookup c (Server.connections st)) [
      | none ↦ rest
      | some conn ↦ if is_unknown st.sd conn.client_id && is_late now conn then c ∷ rest else rest
    ]

unfoldable pub terminate_all : ℕ → List ℕ → Method (Unit {0})
unfolding terminate
terminate_all now [] = pure tt
terminate_all now (c ∷ cs) = do terminate now c; terminate_all now cs

unfoldable pub purge_connections : ℕ → Method (Unit {0})
unfolding failed_connections terminate_all
purge_connections now = do
  failed ← gets (λ (st : Server). failed_connections now st st.clientless_connections)
  terminate_all now failed

unfoldable pub purge_timer_activate : ℕ → Method (Unit {0})
unfolding purge_connections schedule_purge
purge_timer_activate now = do
  modify (λ (st : Server). record st { purge_timer = none })
  purge_connections now
  modify (schedule_purge now)

unfoldable pub orphan_timer_activate : ℕ → Method (Unit {0})
unfolding on_sd next_orphan_timeout
orphan_timer_activate now = do
  on_sd (Discovery.purge_orphans now)
  modify (λ (st : Server). record st { orphan_timer = next_orphan_timeout st.sd })

-- A connection that `accept` of a listening socket gives: its address, its key identifier, and the time.
-- A list of them ends where `accept` raises an `xcm.error`.
pub record Accepted : Type 0 where
  pub conn_addr : Text
  pub subject_key_id : Option (List ℕ)
  pub connect_time : ℕ

-- `Connection(...)`
abbrev pub new_connection : Accepted → Connection
new_connection a = record {
  client_id = none;
  conn_addr = a.conn_addr;
  subject_key_id = a.subject_key_id;
  sub_tas = [];
  connect_time = a.connect_time;
  handshaked = false;
  out_wire_msgs = [];
  condition = record { sendable = false; receivable = true };
}

-- `Server.update_source`, of the source of a listening socket.
unfoldable pub update_listener : ℕ → Server → Server
unfolding max_clients_reached
update_listener s st = record st {
  acceptable = insert s (not (max_clients_reached st)) st.acceptable;
}

-- A round of the loop of `sock_activate` that accepts a connection.
unfoldable pub accept_one : ℕ → Accepted → Server → Server
unfolding update_listener schedule_purge
accept_one s a st =
    let st' : Server = update_listener s st in
    schedule_purge a.connect_time (record st' {
      connections = insert st'.next_connection (new_connection a) st'.connections;
      next_connection = suc st'.next_connection;
      clientless_connections = st'.next_connection ∷ st'.clientless_connections;
    })

-- The loop, over what each call of `accept` does, with the connections that it may still accept.
unfoldable pub accept_batch : ℕ → ℕ → List Accepted → Server → Server
unfolding accept_one update_listener
accept_batch s zero as_ st = st
accept_batch s (suc n) [] st = update_listener s st
accept_batch s (suc n) (a ∷ as_) st = accept_batch s n as_ (accept_one s a st)

abbrev pub max_accept_batch : ℕ
max_accept_batch = 16

abbrev pub batch_size : Option ℕ → ℕ
batch_size none = max_accept_batch
batch_size (some left) = least left max_accept_batch

-- What a listening socket does: whether a call of `finish` returns, and what its `accept` gives.
pub record Listening : Type 0 where
  pub finishes : Bool
  pub accepts : List Accepted

-- `sock.finish()`, and then `source.update(0)`
abbrev pub finish_sock : ℕ → Bool → Method (Unit {0})
finish_sock s true st = (ok tt, record st { acceptable = insert s false st.acceptable })
finish_sock s false st = (raised Error.xcm_error, st)

-- `sock_activate` at one listening socket, and at all of them.
unfoldable pub activate_listener : ℕ → Listening → Method (Unit {0})
unfolding max_clients_reached accept_batch client_capacity_left
activate_listener s sock st =
    if max_clients_reached st
    then finish_sock s sock.finishes st
    else (ok tt, accept_batch s (batch_size (client_capacity_left st)) sock.accepts st)

unfoldable pub sock_activate : List (ℕ × Listening) → Method (Unit {0})
unfolding activate_listener
sock_activate [] = pure tt
sock_activate ((s, sock) ∷ rest) = do activate_listener s sock; sock_activate rest

-- The loops of `Server.terminate` over the two sets of connections.
unfoldable pub terminate_clientless : ℕ → List ℕ → Method (Unit {0})
unfolding terminate
terminate_clientless now [] = pure tt
terminate_clientless now (c ∷ cs) = do
  modify
      (λ (st : Server). record st { clientless_connections = without c st.clientless_connections })
  terminate now c
  terminate_clientless now cs

unfoldable pub terminate_clients : ℕ → List ℕ → Method (Unit {0})
unfolding terminate
terminate_clients now [] = pure tt
terminate_clients now (c ∷ cs) = do
  modify (λ (st : Server). record st { client_connections = without c st.client_connections })
  terminate now c
  terminate_clients now cs

-- `Server.terminate`, which then closes the listening sockets.
unfoldable pub terminate_server : ℕ → Method (Unit {0})
unfolding terminate_clientless terminate_clients
terminate_server now = do
  λ (st : Server). terminate_clientless now st.clientless_connections st
  λ (st : Server). terminate_clients now st.client_connections st
  modify (λ (st : Server). record st { acceptable = [] })

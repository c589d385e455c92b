-- ===== src/Server/State.antt =====
-- paf/server.py: the state of the server and its connections, and the callbacks from `ServiceDiscovery`.
use paf.Prelude.{
  ℕ, ◌+◌, ◌/◌, ◌%◌, Bool, Option, none, some, List, [], ◌∷◌, ◌++◌, Text, ltb, length, nat_eq,
  text_eq,
}
use paf.Prelude.Dict.{Dict, lookup, insert}
use paf.Prelude.Int.{pos, print_nat}
use paf.Prelude.Action.{
  Action, Result, ok, raised, Error, ◌>>=◌, ◌>>◌, lift, pure, raise, or_raise, modify,
}
use paf.Proto.Props.{str, int, float}
use paf.Proto.Fields.{Message, Pulled, plain, props}
use paf.Sd.Service.{Generation, Service}
use paf.Sd.Subscription.{MatchType}
use paf.Sd.Discovery
use paf.Sd.Discovery.{Discovery, Call, match_cb, service_change_cb, next_orphan_timeout}
use paf.Server.Transaction.{Transaction, notify}

-- What a connection's source waits for.
pub record Condition : Type 0 where
  pub sendable : Bool
  pub receivable : Bool

-- `subject_key_id` is the attribute of the socket, if it has one. The messages are those before
-- `json.dumps`.
pub record Connection : Type 0 where
  pub client_id : Option ℕ
  pub conn_addr : Text
  pub subject_key_id : Option (List ℕ)
  pub sub_tas : Dict ℕ Transaction
  pub connect_time : ℕ
  pub handshaked : Bool
  pub out_wire_msgs : List Message
  pub condition : Condition

-- The connections are objects, each with a number. `callbacks` has for the id of a subscription the
-- connection whose method `subscription_triggered` is its callback. `acceptable` has for the number of
-- a listening socket whether its source waits for connections.
pub record Server : Type 0 where
  pub sd : Discovery
  pub connections : Dict ℕ Connection
  pub next_connection : ℕ
  pub callbacks : Dict ℕ ℕ
  pub clientless_connections : List ℕ
  pub client_connections : List ℕ
  pub orphan_timer : Option ℕ
  pub purge_timer : Option ℕ
  pub acceptable : Dict ℕ Bool

abbrev pub Method : Type 0 → Type 0
Method A = Action Server A

abbrev pub soft_out_wire_limit : ℕ
soft_out_wire_limit = 128

abbrev pub sendable : Connection → Bool
sendable conn = ltb 0 (length conn.out_wire_msgs)

abbrev pub receivable : Connection → Bool
receivable conn = ltb (length conn.out_wire_msgs) soft_out_wire_limit

-- `update_source`
unfoldable pub update_source : Connection → Connection
update_source conn = record conn {
  condition = record { sendable = sendable conn; receivable = receivable conn };
}

-- The connection as `self`, in a method of it. A connection that has been terminated has no methods
-- that are called.
abbrev pub connection : ℕ → Method Connection
connection c st = or_raise (lookup c (Server.connections st)) Error.attribute_error st

abbrev pub set_connection : ℕ → Connection → Server → Server
set_connection c conn st = record st { connections = insert c conn st.connections }

-- `respond`
abbrev pub queued : Message → Connection → Connection
queued msg conn = update_source (record conn { out_wire_msgs = conn.out_wire_msgs ++ msg ∷ [] })

-- A response of a transaction's method, `none` where its assertion fails, is sent by `respond`.
unfoldable pub respond : ℕ → Option Message → Method (Unit {0})
unfolding update_source
respond c none = raise Error.assertion_error
respond c (some msg) = do conn ← connection c; modify (set_connection c (queued msg conn))

abbrev pub nat_value : ℕ → Pulled
nat_value n = plain (int (pos n))

abbrev pub text_value : Text → Pulled
text_value s = plain (str s)

-- Six decimal digits.
abbrev pub micros : ℕ → Text
micros n =
    (b'0' + n / 100000 % 10)
    ∷ (b'0' + n / 10000 % 10)
    ∷ (b'0' + n / 1000 % 10)
    ∷ (b'0' + n / 100 % 10)
    ∷ (b'0' + n / 10 % 10)
    ∷ (b'0' + n % 10)
    ∷ []

-- A time in seconds: the whole decimal fraction, where Python writes the shortest one that it reads
-- as the same number.
abbrev pub time_value : ℕ → Pulled
time_value t = plain (float (print_nat (t / 1000000) ++ b'.' ∷ micros (t % 1000000)))

abbrev pub match_text : MatchType → Text
match_text MatchType.appeared = b'a' ∷ b'p' ∷ b'p' ∷ b'e' ∷ b'a' ∷ b'r' ∷ b'e' ∷ b'd' ∷ []
match_text MatchType.modified = b'm' ∷ b'o' ∷ b'd' ∷ b'i' ∷ b'f' ∷ b'i' ∷ b'e' ∷ b'd' ∷ []
match_text MatchType.disappeared =
    b'd' ∷ b'i' ∷ b's' ∷ b'a' ∷ b'p' ∷ b'p' ∷ b'e' ∷ b'a' ∷ b'r' ∷ b'e' ∷ b'd' ∷ []

abbrev pub time_arg : Option ℕ → Option Pulled
time_arg none = none
time_arg (some t) = some (time_value t)

-- The keyword arguments of a notification about a generation.
abbrev pub described : Generation → Dict Text (Option Pulled)
described g =
    (
      b'g' ∷ b'e' ∷ b'n' ∷ b'e' ∷ b'r' ∷ b'a' ∷ b't' ∷ b'i' ∷ b'o' ∷ b'n' ∷ [],
      some (nat_value g.generation),
    )
    ∷ (
      b's' ∷ b'e' ∷ b'r' ∷ b'v' ∷ b'i' ∷ b'c' ∷ b'e' ∷ b'_' ∷ b'p' ∷ b'r' ∷ b'o' ∷ b'p' ∷ b's' ∷ [],
      some (props g.props),
    )
    ∷ (b't' ∷ b't' ∷ b'l' ∷ [], some (nat_value g.ttl))
    ∷ (
      b'c' ∷ b'l' ∷ b'i' ∷ b'e' ∷ b'n' ∷ b't' ∷ b'_' ∷ b'i' ∷ b'd' ∷ [],
      some (nat_value g.client_id),
    )
    ∷ (
      b'o' ∷ b'r' ∷ b'p' ∷ b'h' ∷ b'a' ∷ b'n' ∷ b'_' ∷ b's' ∷ b'i' ∷ b'n' ∷ b'c' ∷ b'e' ∷ [],
      time_arg g.orphan_since,
    )
    ∷ []

-- A call of `ta.notify` by `subscription_triggered`. Its log message reads the properties that a service
-- which disappeared had.
unfoldable pub notification : Transaction → MatchType → Service → Result (Option Message)
unfolding notify
notification ta MatchType.disappeared s = elim (Service.prev s) [
  | none ↦ raised Error.attribute_error
  | some g ↦
      ok
        (notify (text_value (match_text MatchType.disappeared) ∷ nat_value s.service_id ∷ []) [] ta)
]
notification ta t s = elim (Service.cur s) [
  | none ↦ raised Error.attribute_error
  | some g ↦ ok (notify (text_value (match_text t) ∷ nat_value s.service_id ∷ []) (described g) ta)
]

-- `subscription_triggered` of the connection that made the subscription, which is there, since it is the
-- one that calls; it is looked up for a log message only.
unfoldable pub subscription_triggered : ℕ → ℕ → MatchType → Service → Method (Unit {0})
unfolding notification respond
subscription_triggered c sub_id t s = do
  conn ← connection c
  ta ← or_raise (lookup sub_id conn.sub_tas) Error.key_error
  msg ← lift (notification ta t s)
  respond c msg

-- `Server.check_orphans`
unfoldable pub check_orphans : Method (Unit {0})
unfolding next_orphan_timeout
check_orphans = modify (λ (st : Server). record st { orphan_timer = next_orphan_timeout st.sd })

-- One call that `ServiceDiscovery` makes.
unfoldable pub deliver : Call → Method (Unit {0})
unfolding subscription_triggered check_orphans
deliver (match_cb sub_id t s) = do
  c ← (λ st. or_raise (lookup sub_id (Server.callbacks st)) Error.key_error st)
  subscription_triggered c sub_id t s
deliver (service_change_cb change s) = check_orphans

unfoldable pub deliver_all : List Call → Method (Unit {0})
unfolding deliver
deliver_all [] = pure tt
deliver_all (call ∷ calls) = do deliver call; deliver_all calls

-- A call of a method of `ServiceDiscovery`. The callbacks are made when it is done: they read the
-- snapshot of the service, what connections keep, and the queue of orphans, where the last call counts;
-- and they change nothing that the method reads.
unfoldable pub on_sd : {A : Type 0} → Discovery.Method A → Method A
unfolding deliver_all
on_sd m st =
    let (r, sd) = m (record st.sd { calls = [] }) in
    (deliver_all sd.calls >> lift r) (record st { sd = record sd { calls = [] } })

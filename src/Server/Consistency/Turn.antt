-- ===== src/Server/Consistency/Turn.antt =====
-- paf/server.py: a turn of a connection, which receives and sends, keeps the invariant.
use paf.Prelude.{ℕ, refl, Bool, true, false, List, length, nat_eq, if◌then◌else◌}
use paf.Prelude.Action.{◌>>=◌, ◌>>◌, pure, modify}
use paf.Proto.Fields.{Message}
use paf.Server.State.{
  Connection, Server, Method, connection, set_connection, update_source, sendable, receivable,
}
use paf.Server.Connection.{
  Received, message, closed, again, broken, Sent, Round, goes_on, ends, request, try_receive,
  send_batch, max_send_batch, least, try_send,
}
use paf.Server.Listener.{update_connection, turn}
use paf.Server.Consistency.{IsConsistent}
use paf.Server.Consistency.Leaves.{Preserves, >>=-Preserves, connection-Leaves}
use paf.Server.Consistency.Rules.{Always, set_connection-IsConsistent}
use paf.Server.Consistency.Dispatch.{request-Preserves}

try_receive-Preserves :
    (c : ℕ) (r : Received) (st : Server) → IsConsistent st → Preserves (try_receive c r st)
unfolding try_receive
try_receive-Preserves c (message json) st h =
    >>=-Preserves (request c json) (λ _. pure goes_on) st (request-Preserves c json st h)
      (λ _ st' h'. h')
try_receive-Preserves c closed st h = h
try_receive-Preserves c again st h = h
try_receive-Preserves c broken st h = h

abbrev batch_of : Connection → List Sent → List Message × Round
batch_of conn outcomes =
    send_batch (least max_send_batch (length conn.out_wire_msgs)) conn.out_wire_msgs outcomes

try_send-Preserves :
    (c : ℕ) (outcomes : List Sent) (st : Server)
    → IsConsistent st
    → Preserves (try_send c outcomes st)
unfolding try_send
try_send-Preserves c outcomes st h =
    connection-Leaves IsConsistent Always c
      (λ conn.
        modify (set_connection c (record conn { out_wire_msgs = (batch_of conn outcomes).0 }))
        >> pure (batch_of conn outcomes).1)
      st
      (λ conn e.
        set_connection-IsConsistent c conn
          (record conn { out_wire_msgs = (batch_of conn outcomes).0 }) st h e refl)

update_connection-Preserves :
    (c : ℕ) (st : Server) → IsConsistent st → Preserves (update_connection c st)
unfolding update_source
update_connection-Preserves c st h =
    connection-Leaves IsConsistent Always c
      (λ conn. modify (set_connection c (update_source conn)) >> pure goes_on) st
      (λ conn e. set_connection-IsConsistent c conn (update_source conn) st h e refl)

if-Preserves :
    (b : Bool) (m : Method Round) (st : Server)
    → IsConsistent st
    → Preserves (m st)
    → Preserves ((if b then m else pure goes_on) st)
if-Preserves true m st h k = k
if-Preserves false m st h k = h

abbrev finish : ℕ → Round → Method Round
finish c round = elim round [ ends ↦ pure ends | goes_on ↦ update_connection c ]

finish-Preserves :
    (c : ℕ) (round : Round) (st : Server) → IsConsistent st → Preserves (finish c round st)
finish-Preserves c ends st h = h
finish-Preserves c goes_on st h = update_connection-Preserves c st h

abbrev sending : ℕ → List Sent → Method Round
sending c outcomes = connection c >>= λ conn.
    (if sendable conn then try_send c outcomes else pure goes_on) >>= finish c

sending-Preserves :
    (c : ℕ) (outcomes : List Sent) (st : Server)
    → IsConsistent st
    → Preserves (sending c outcomes st)
sending-Preserves c outcomes st h =
    connection-Leaves IsConsistent Always c
      (λ conn. (if sendable conn then try_send c outcomes else pure goes_on) >>= finish c) st
      (λ conn _.
        >>=-Preserves (if sendable conn then try_send c outcomes else pure goes_on) (finish c) st
          (if-Preserves (sendable conn) (try_send c outcomes) st h
            (try_send-Preserves c outcomes st h))
          (λ round st' h'. finish-Preserves c round st' h'))

abbrev after : ℕ → List Sent → Round → Method Round
after c outcomes round = elim round [ ends ↦ pure ends | goes_on ↦ sending c outcomes ]

after-Preserves :
    (c : ℕ) (outcomes : List Sent) (round : Round) (st : Server)
    → IsConsistent st
    → Preserves (after c outcomes round st)
after-Preserves c outcomes ends st h = h
after-Preserves c outcomes goes_on st h = sending-Preserves c outcomes st h

pub turn-Preserves :
    (c : ℕ) (received : Received) (outcomes : List Sent) (st : Server)
    → IsConsistent st
    → Preserves (turn c received outcomes st)
unfolding turn
turn-Preserves c received outcomes st h =
    connection-Leaves IsConsistent Always c
      (λ conn.
        (if receivable conn then try_receive c received else pure goes_on) >>= after c outcomes)
      st
      (λ conn _.
        >>=-Preserves (if receivable conn then try_receive c received else pure goes_on)
          (after c outcomes) st
          (if-Preserves (receivable conn) (try_receive c received) st h
            (try_receive-Preserves c received st h))
          (λ round st' h'. after-Preserves c outcomes round st' h'))

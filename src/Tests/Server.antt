-- ===== src/Tests/Server.antt =====
-- Concrete messages, connections and a server for paf/server.py, and what the theorems say of them.
use paf.Prelude.{
  ℕ, ◌+◌, ◌++◌, length, ◌≤◌, ◌≡◌, refl, true, false, none, some, List, [], ◌∷◌, nat_eq, text_eq,
  text_beq, arith,
}
use paf.Prelude.Dict.{lookup}
use paf.Prelude.Int.{pos}
use paf.Prelude.Action.{ok}
use paf.Proto.Props.{Json, str, int, object, member, no_members}
use paf.Proto.Fields.{Field, Message, Pulled, plain, python_name, pull, underscored}
use paf.Proto.Types.{
  InteractionType, field_ta_cmd, field_ta_id, field_msg_type, field_client_id,
  field_proto_min_version, field_proto_max_version, ta_hello, ta_ping, ta_subscribe,
}
use paf.Proto.Batch.Entries.{Optional, optargs_of, received}
use paf.Client
use paf.Client.{
  msg_type_request, msg_type_fail, EventType, TransactionState, produce_request, consume_message,
}
use paf.Client.Steps.{Step}
use paf.Server.Transaction
use paf.Server.Transaction.{Request, find_type, fail}
use paf.Server.Transaction.Wire.{sends, consume_message-sends}
use paf.Server.Transaction.Requests.{members_of, request-produce_request}
use paf.Server.State.{Server}
use paf.Server.Connection.{message, closed, sent, not_yet, lost, request, send_batch}
use paf.Server.Connection.Batches.{sent_count, lost_count, send_batch-prefix}
use paf.Server.Consistency.{badge_of, IsConsistent}
use paf.Server.Consistency.Leaves.{Preserves}
use paf.Server.Consistency.Dispatch.{request-Preserves}
use paf.Server.Consistency.Ending.{Survives}
use paf.Server.Consistency.Runs.{Event, accepting, active, purging, orphaning, run, run-Survives}
use paf.Server.Listener.{new_connection, Accepted, Listening, sock_activate}
use paf.Server.Listener.Capacity.{HasCapacity, sock_activate-HasCapacity}
use paf.Tests.Discovery.{empty, empty-IsValid}

-- A subscription's filter, and a notification with a generation and without an owner.
abbrev filters : List Optional
filters = some (some (plain (str (b'(' ∷ b'a' ∷ b'=' ∷ b'*' ∷ b')' ∷ [])))) ∷ []

abbrev generations : List Optional
generations = some (some (plain (int (pos 4)))) ∷ none ∷ none ∷ some none ∷ none ∷ []

abbrev match_args : List Pulled
match_args = plain (str (b'm' ∷ [])) ∷ plain (int (pos 3)) ∷ []

request-produce_request_example :
    (msg : Message) × (produce_request
        (plain (int (pos 9)) ∷ [])
        (optargs_of ta_subscribe.opt_request_fields filters)
        (Client.new_transaction ta_subscribe 17)
      ≡ (
        some msg,
        record { ta_id = 17; ta_type = ta_subscribe; state = TransactionState.requesting },
      ))
    × (Transaction.request (some (object (members_of msg)))
        ≡ ok (record {
          transaction = record { ta_id = plain (int (pos 17)); ta_type = ta_subscribe };
          args = some (plain (int (pos 9))) ∷ [];
          optargs = received Field.name ta_subscribe.opt_request_fields filters;
        }))
unfolding find_type text_beq underscored
request-produce_request_example =
    request-produce_request ta_subscribe 17 (plain (int (pos 9)) ∷ []) filters refl (omega arith)
      (omega arith, tt) (tt, tt) refl (refl, tt)

consume_message-sends_example :
    (msg : Message) × (rest : Message) × (sends EventType.notify match_args
        (optargs_of ta_subscribe.opt_notify_fields generations)
        (record { ta_id = plain (int (pos 17)); ta_type = ta_subscribe })
      ≡ some msg)
    × (pull field_ta_id false msg ≡ some (some (plain (int (pos 17))), rest))
    × (consume_message rest
          (record { ta_id = 17; ta_type = ta_subscribe; state = TransactionState.accepted })
        ≡ (
          some (record {
            event = EventType.notify;
            args = some (plain (str (b'm' ∷ []))) ∷ some (plain (int (pos 3))) ∷ [];
            optargs = received python_name ta_subscribe.opt_notify_fields generations;
          }),
          record { ta_id = 17; ta_type = ta_subscribe; state = TransactionState.accepted },
        ))
unfolding text_beq underscored
consume_message-sends_example =
    consume_message-sends ta_subscribe EventType.notify TransactionState.accepted
      TransactionState.accepted 17 (plain (int (pos 17))) match_args generations
      (Step.notifies InteractionType.multi_response) refl (omega arith) (tt, (omega arith, tt))
      (omega arith, tt) refl

-- A server with three listening sockets that three clients may be connected to.
abbrev listening : Server
listening = record {
  sd = empty;
  connections = [];
  next_connection = 0;
  callbacks = [];
  clientless_connections = [];
  client_connections = [];
  orphan_timer = none;
  purge_timer = none;
  acceptable = (0, true) ∷ (1, true) ∷ (2, true) ∷ [];
}

abbrev caller : Accepted
caller = record { conn_addr = b'x' ∷ []; subject_key_id = none; connect_time = 5 }

abbrev pair : Listening
pair = record { finishes = true; accepts = caller ∷ caller ∷ [] }

-- The limit is reached at the second socket, and the third one's `finish` raises an `xcm.error`.
abbrev callers : List (ℕ × Listening)
callers = (0, pair) ∷ (1, pair) ∷ (2, record pair { finishes = false }) ∷ []

sock_activate-HasCapacity_example :
    HasCapacity (sock_activate callers listening).1
    × ((sock_activate callers listening).1.sd ≡ empty)
sock_activate-HasCapacity_example = sock_activate-HasCapacity callers listening (omega arith)

listening-IsConsistent : IsConsistent listening
unfolding lookup badge_of
listening-IsConsistent = record {
  valid = empty-IsValid;
  unique = tt;
  connected = λ c client e. cc;
  alone = λ c d client e e'. cc;
  numbered = λ c b e. cc;
}

-- Two connections, a hello on the first one, a publication, and the other side closes it.
abbrev hello : Json
hello = object (
    member field_ta_cmd.name (str ta_hello.cmd) (
      member field_ta_id.name (int (pos 1)) (
        member field_msg_type.name (str msg_type_request) (
          member field_client_id.name (int (pos 7)) (
            member field_proto_min_version.name (int (pos 2))
              (member field_proto_max_version.name (int (pos 2)) no_members))))))

abbrev ping : Json
ping = object (
    member field_ta_cmd.name (str ta_ping.cmd) (
      member field_ta_id.name (int (pos 2))
        (member field_msg_type.name (str msg_type_request) no_members)))

abbrev events : List Event
events =
    accepting ((0, pair) ∷ [])
    ∷ active 6 0 (message (some hello)) (sent ∷ [])
    ∷ active 7 0 (message (some ping)) (not_yet ∷ [])
    ∷ orphaning 8
    ∷ active 9 0 closed []
    ∷ purging 9000000
    ∷ []

run-Survives_example : Survives (run events listening)
run-Survives_example = run-Survives events listening listening-IsConsistent

-- A server with a connection that has not shaken hands, and its hello.
abbrev hosting : Server
hosting = record listening {
  connections = (0, new_connection caller) ∷ [];
  next_connection = 1;
  clientless_connections = 0 ∷ [];
}

hosting-IsConsistent : IsConsistent hosting
unfolding lookup badge_of
hosting-IsConsistent = record {
  valid = empty-IsValid;
  unique = (refl, tt);
  connected = λ c client e. ground arith;
  alone = λ c d client e e'. ground arith;
  numbered = λ c b e. ground arith;
}

request-Preserves_example : Preserves (request 0 (some hello) hosting)
request-Preserves_example = request-Preserves 0 (some hello) hosting hosting-IsConsistent

send_batch-prefix_example :
    (out : List Message) × (((field_ta_id.name, int (pos 1)) ∷ []) ∷ [] ∷ []
      ≡ out
        ++ (send_batch 2 (((field_ta_id.name, int (pos 1)) ∷ []) ∷ [] ∷ []) (sent ∷ lost ∷ [])).0)
    × (length out ≤ 2)
    × (length out
        ≤ sent_count (sent ∷ lost ∷ [])
          + lost_count
              (send_batch 2
                (((field_ta_id.name, int (pos 1)) ∷ []) ∷ [] ∷ [])
                (sent ∷ lost ∷ [])).1)
send_batch-prefix_example =
    send_batch-prefix 2 (((field_ta_id.name, int (pos 1)) ∷ []) ∷ [] ∷ []) (sent ∷ lost ∷ [])

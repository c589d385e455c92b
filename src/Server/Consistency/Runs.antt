-- ===== src/Server/Consistency/Runs.antt =====
-- paf/server.py: the callbacks of the event loop, and runs of them.
use paf.Prelude.{
  ℕ, suc, zero, ◌+◌, ◌≡◌, refl, Bool, true, false, Option, none, some, List, [], ◌∷◌, nat_eq, ltb,
  length, arith, inl, inr, if◌then◌else◌,
}
use paf.Prelude.Dict.{insert, IsUnique-insert}
use paf.Prelude.Action.{Result, ok, raised, ◌>>◌, pure, modify}
use paf.Sd.Discovery
use paf.Sd.Discovery.{Discovery, next_orphan_timeout}
use paf.Sd.Discovery.Invariant.{IsValid}
use paf.Sd.Discovery.Ensures.{mono-Ensures}
use paf.Sd.Discovery.Purge.{purge_orphans-AllRemoved}
use paf.Sd.Discovery.Bystanders.Unpublishing.{purge_orphans-LeavesClients}
use paf.Server.State.{Server, Method, set_connection, on_sd}
use paf.Server.Connection.{Received, Sent}
use paf.Server.Listener.{
  purge_interval, activate, failed_connections, terminate, terminate_all, purge_connections,
  schedule_purge, purge_timer_activate, orphan_timer_activate, Accepted, new_connection,
  max_clients_reached, client_capacity_left, batch_size, update_listener, accept_one, accept_batch,
  Listening, finish_sock, activate_listener, sock_activate,
}
use paf.Server.Consistency.{badge_of, IsConsistent, keep-IsConsistent, set_connection-cases}
use paf.Server.Consistency.Leaves.{Preserves, >>=-Leaves}
use paf.Server.Consistency.Rules.{Always, keeping-Preserves}
use paf.Server.Consistency.Ending.{
  Whatever, Survives, raised-Leaves, terminate-Survives, activate-Survives,
}

if-IsConsistent :
    (b : Bool) (st st' : Server)
    → IsConsistent st
    → IsConsistent st'
    → IsConsistent (if b then st else st')
if-IsConsistent true st st' h h' = h
if-IsConsistent false st st' h h' = h'

schedule_purge-IsConsistent :
    (now : ℕ) (st : Server) → IsConsistent st → IsConsistent (schedule_purge now st)
unfolding schedule_purge badge_of
schedule_purge-IsConsistent now st h =
    if-IsConsistent (ltb 0 (length st.clientless_connections))
      (record st { purge_timer = some (now + purge_interval) }) st
      (keep-IsConsistent st (record st { purge_timer = some (now + purge_interval) }) h h.valid refl
        (λ c. refl) h.unique refl)
      h

update_listener-IsConsistent :
    (s : ℕ) (st : Server) → IsConsistent st → IsConsistent (update_listener s st)
unfolding update_listener badge_of
update_listener-IsConsistent s st h =
    keep-IsConsistent st (update_listener s st) h h.valid refl (λ c. refl) h.unique refl

-- A new connection has a number that no connection has, no client id, and no handshake behind it.
entered-IsConsistent :
    (a : Accepted) (cs : List ℕ) (st : Server)
    → IsConsistent st
    → IsConsistent (record st {
      connections = insert st.next_connection (new_connection a) st.connections;
      next_connection = suc st.next_connection;
      clientless_connections = cs;
    })
unfolding badge_of
entered-IsConsistent a cs st h = record {
  valid = h.valid;
  unique = IsUnique-insert st.next_connection (new_connection a) st.connections h.unique;
  connected = λ c client e. h.connected c client (before c client e);
  alone = λ c d client e e'. h.alone c d client (before c client e) (before d client e');
  numbered = λ c b e. elim (set_connection-cases st.next_connection c (new_connection a) b st e) [
    | inl (same, _, _) ↦ omega (arith, same)
    | inr e' ↦ omega (arith, h.numbered c b e')
  ];
}
  where
    before :
        (c : ℕ) (client : Option ℕ)
        → badge_of c (set_connection st.next_connection (new_connection a) st) ≡ some (client, true)
        → badge_of c st ≡ some (client, true)
    before c client e =
        elim (set_connection-cases st.next_connection c (new_connection a) (client, true) st e) [
          | inl (_, _, hands) ↦ cc
          | inr e' ↦ e'
        ]

accept_one-IsConsistent :
    (s : ℕ) (a : Accepted) (st : Server) → IsConsistent st → IsConsistent (accept_one s a st)
unfolding accept_one
accept_one-IsConsistent s a st h =
    let st' : Server = update_listener s st in
    schedule_purge-IsConsistent a.connect_time _ (
      entered-IsConsistent a (st'.next_connection ∷ st'.clientless_connections) st'
        (update_listener-IsConsistent s st h))

accept_batch-IsConsistent :
    (s n : ℕ) (as_ : List Accepted) (st : Server)
    → IsConsistent st
    → IsConsistent (accept_batch s n as_ st)
unfolding accept_batch
accept_batch-IsConsistent s zero as_ st h = h
accept_batch-IsConsistent s (suc n) [] st h = update_listener-IsConsistent s st h
accept_batch-IsConsistent s (suc n) (a ∷ as_) st h =
    accept_batch-IsConsistent s n as_ (accept_one s a st) (accept_one-IsConsistent s a st h)

finish_sock-Survives :
    (s : ℕ) (finishes : Bool) (st : Server) → IsConsistent st → Survives (finish_sock s finishes st)
unfolding badge_of
finish_sock-Survives s true st h =
    keep-IsConsistent st (record st { acceptable = insert s false st.acceptable }) h h.valid refl
      (λ c. refl) h.unique refl
finish_sock-Survives s false st h = tt

activate_listener-Survives :
    (s : ℕ) (sock : Listening) (st : Server)
    → IsConsistent st
    → Survives (activate_listener s sock st)
unfolding activate_listener
activate_listener-Survives s sock st h = go (max_clients_reached st)
  where
    go :
        (b : Bool)
        → Survives (
            if b
            then finish_sock s sock.finishes st
            else (ok tt, accept_batch s (batch_size (client_capacity_left st)) sock.accepts st))
    go true = finish_sock-Survives s sock.finishes st h
    go false = accept_batch-IsConsistent s (batch_size (client_capacity_left st)) sock.accepts st h

sock_activate-Survives :
    (socks : List (ℕ × Listening)) (st : Server)
    → IsConsistent st
    → Survives (sock_activate socks st)
unfolding sock_activate
sock_activate-Survives [] st h = h
sock_activate-Survives ((s, sock) ∷ socks) st h =
    >>=-Leaves Whatever Always Always (activate_listener s sock) (λ _. sock_activate socks) st
      (activate_listener-Survives s sock st h) (λ _ st' h'. sock_activate-Survives socks st' h')

terminate_all-Survives :
    (now : ℕ) (cs : List ℕ) (st : Server) → IsConsistent st → Survives (terminate_all now cs st)
unfolding terminate_all
terminate_all-Survives now [] st h = h
terminate_all-Survives now (c ∷ cs) st h =
    >>=-Leaves Whatever Always Always (terminate now c) (λ _. terminate_all now cs) st
      (terminate-Survives now c st h) (λ _ st' h'. terminate_all-Survives now cs st' h')

purge_timer_activate-Survives :
    (now : ℕ) (st : Server) → IsConsistent st → Survives (purge_timer_activate now st)
unfolding purge_timer_activate purge_connections badge_of
purge_timer_activate-Survives now st h =
    let st' : Server = record st { purge_timer = none } in
    let failed : List ℕ = failed_connections now st' st'.clientless_connections in
    >>=-Leaves Whatever Always Always (terminate_all now failed) (λ _. modify (schedule_purge now))
      st'
      (terminate_all-Survives now failed st'
        (keep-IsConsistent st st' h h.valid refl (λ c. refl) h.unique refl))
      (λ _ st₁ h₁. schedule_purge-IsConsistent now st₁ h₁)

weaken : {A : Type 0} (x : Result A × Server) → Preserves x → Survives x
weaken (ok a, st) h = h
weaken {A} (raised e, st) h = raised-Leaves A Always e st

orphan_timer_activate-Survives :
    (now : ℕ) (st : Server) → IsConsistent st → Survives (orphan_timer_activate now st)
unfolding orphan_timer_activate badge_of
orphan_timer_activate-Survives now st h =
    let schedule : Server → Server = λ x. record x { orphan_timer = next_orphan_timeout x.sd } in
    >>=-Leaves Whatever Always Always (on_sd (Discovery.purge_orphans now)) (λ _. modify schedule)
      st
      (weaken (on_sd (Discovery.purge_orphans now) st) (
        keeping-Preserves (Discovery.purge_orphans now) st h
          (λ sd v _.
            mono-Ensures IsValid _ (λ _ y. IsValid y) (λ _ y p. p.0)
              (Discovery.purge_orphans now sd) (purge_orphans-AllRemoved now sd v))
          (purge_orphans-LeavesClients now)))
      (λ _ st' h'. keep-IsConsistent st' (schedule st') h' h'.valid refl (λ c. refl) h'.unique refl)

-- A call that the event loop makes: for the listening sockets, for a connection, and for the two timers,
-- with what the sockets do and the time.
pub data Event : Type 0 where
  accepting : List (ℕ × Listening) → Event
  active : ℕ → ℕ → Received → List Sent → Event
  purging orphaning : ℕ → Event

abbrev pub handled : Event → Method (Unit {0})
handled (accepting socks) = sock_activate socks
handled (active now c received outcomes) = activate now c received outcomes
handled (purging now) = purge_timer_activate now
handled (orphaning now) = orphan_timer_activate now

-- One call after another, until one raises an exception.
unfoldable pub run : List Event → Method (Unit {0})
run [] = pure tt
run (event ∷ events) = do handled event; run events

handled-Survives : (event : Event) (st : Server) → IsConsistent st → Survives (handled event st)
handled-Survives (accepting socks) st h = sock_activate-Survives socks st h
handled-Survives (active now c received outcomes) st h =
    activate-Survives now c received outcomes st h
handled-Survives (purging now) st h = purge_timer_activate-Survives now st h
handled-Survives (orphaning now) st h = orphan_timer_activate-Survives now st h

-- However the event loop calls the server, and whatever its sockets bring, a consistent server that
-- no exception stops is consistent at the end: `ServiceDiscovery` is valid, each connection that has
-- shaken hands has the id of a connected client, and no two of them the same.
pub run-Survives : (events : List Event) (st : Server) → IsConsistent st → Survives (run events st)
unfolding run
run-Survives [] st h = h
run-Survives (event ∷ events) st h =
    >>=-Leaves Whatever Always Always (handled event) (λ _. run events) st
      (handled-Survives event st h) (λ _ st' h'. run-Survives events st' h')

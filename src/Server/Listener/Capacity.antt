-- ===== src/Server/Listener/Capacity.antt =====
-- paf/server.py, `Server.sock_activate`: how many connections there are.
use paf.Prelude.{
  ℕ, zero, suc, ◌+◌, ◌-◌, ◌≤◌, ◌≡◌, refl, subst, sym, ◌∙◌, Option, none, some, List, [], ◌∷◌, arith,
  Bool, true, false, inl, inr, Bool-cases,
}
use paf.Sd.Discovery.{Discovery}
use paf.Prelude.Action.{Result, ok, raised, ◌>>◌}
use paf.Server.State.{Server, Method}
use paf.Server.Listener.{
  Accepted, Listening, finish_sock, num_connections, max_total_clients, max_clients_reached,
  client_capacity_left, schedule_purge, update_listener, accept_one, accept_batch, batch_size,
  activate_listener, sock_activate,
}

abbrev pub IsAtMost : Option ℕ → ℕ → Type 0
IsAtMost none n = Unit
IsAtMost (some m) n = n ≤ m

-- There are no more connections than the limit on clients.
abbrev pub HasCapacity : Server → Type 0
HasCapacity st = IsAtMost (max_total_clients st) (num_connections st)

accept_one-num :
    (s : ℕ) (a : Accepted) (st : Server)
    → (num_connections (accept_one s a st) ≡ suc (num_connections st))
      × ((accept_one s a st).sd ≡ st.sd)
unfolding accept_one update_listener schedule_purge
accept_one-num s a st = (ground arith, ground arith)

accept_batch-num :
    (s n : ℕ) (as_ : List Accepted) (st : Server)
    → (num_connections (accept_batch s n as_ st) ≤ num_connections st + n)
      × ((accept_batch s n as_ st).sd ≡ st.sd)
unfolding accept_batch update_listener
accept_batch-num s zero as_ st = (omega arith, refl)
accept_batch-num s (suc n) [] st = (omega arith, refl)
accept_batch-num s (suc n) (a ∷ as_) st =
    let (one, sd_one) = accept_one-num s a st in
    let (more, sd_more) = accept_batch-num s n as_ (accept_one s a st) in (omega arith, cc)

batch-IsAtMost :
    (o : Option ℕ) (n k : ℕ)
    → IsAtMost o n
    → k ≤ n + batch_size (elim o as (λ _. Option ℕ) [ none ↦ none | some m ↦ some (m - n) ])
    → IsAtMost o k
batch-IsAtMost none n k h le = tt
batch-IsAtMost (some m) n k h le = ground arith

-- The state after a method, whatever its outcome: there is still room, and `sd` is untouched.
abbrev pub HasRoom : Server → Result (Unit {0}) × Server → Type 0
HasRoom st (r, st') = HasCapacity st' × (st'.sd ≡ st.sd)

finish_sock-HasRoom :
    (s : ℕ) (finishes : Bool) (st : Server)
    → HasCapacity st
    → HasRoom st (finish_sock s finishes st)
finish_sock-HasRoom s true st h = (h, refl)
finish_sock-HasRoom s false st h = (h, refl)

activate_listener-HasRoom :
    (s : ℕ) (sock : Listening) (st : Server)
    → HasCapacity st
    → HasRoom st (activate_listener s sock st)
unfolding activate_listener client_capacity_left
activate_listener-HasRoom s sock st h =
    let b : ℕ = batch_size (client_capacity_left st) in
    let (more, sd) = accept_batch-num s b sock.accepts st in
    elim (Bool-cases (max_clients_reached st)) [
      | inl full ↦ rw full (finish_sock-HasRoom s sock.finishes st h)
      | inr open_ ↦ rw open_ (
        subst
            (λ (d : Discovery).
              IsAtMost d.manager.max_total_resources.clients
                (num_connections (accept_batch s b sock.accepts st)))
            (sym sd)
            (batch-IsAtMost (max_total_clients st) (num_connections st)
              (num_connections (accept_batch s b sock.accepts st)) h more),
        sd,
      )
    ]

then-HasRoom :
    (st : Server) (x : Result (Unit {0}) × Server) (f : Method (Unit {0}))
    → HasRoom st x
    → ((st' : Server) → HasCapacity st' → HasRoom st' (f st'))
    → HasRoom st (((λ _. x) >> f) st)
then-HasRoom st (ok a, st') f (h, e) k = let (h', e') = k st' h in (h', e' ∙ e)
then-HasRoom st (raised err, st') f h k = h

-- Accepting connections, at every listening socket and whatever their sockets bring, leaves no more
-- connections than the limit on clients, where there were no more before, and nothing that
-- `ServiceDiscovery` keeps is changed. So it is also where a socket's `finish` raises an `xcm.error`,
-- which leaves the method.
pub sock_activate-HasCapacity :
    (socks : List (ℕ × Listening)) (st : Server)
    → HasCapacity st
    → HasCapacity (sock_activate socks st).1 × ((sock_activate socks st).1.sd ≡ st.sd)
unfolding sock_activate
sock_activate-HasCapacity [] st h = (h, refl)
sock_activate-HasCapacity ((s, sock) ∷ socks) st h =
    then-HasRoom st (activate_listener s sock st) (sock_activate socks)
      (activate_listener-HasRoom s sock st h) (λ st' h'. sock_activate-HasCapacity socks st' h')

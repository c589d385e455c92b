-- ===== src/Server/Consistency/Dispatch.antt =====
-- paf/server.py: a request keeps the invariant, whatever the message is.
use paf.Prelude.{
  ℕ, Bool, true, false, ◌||◌, Option, none, some, List, [], ◌∷◌, Text, ◌==◌, nat_eq, text_eq,
  if◌then◌else◌,
}
use paf.Prelude.Dict.{lookup}
use paf.Prelude.Action.{Error, ◌>>=◌, raise}
use paf.Filter.Syntax.{Props}
use paf.Proto.Props.{Json}
use paf.Proto.Fields.{Pulled, props}
use paf.Proto.Types.{
  cmd_hello, cmd_subscribe, cmd_unsubscribe, cmd_subscriptions, cmd_services, cmd_publish,
  cmd_unpublish, cmd_ping, cmd_clients, field_filter,
}
use paf.Server.Transaction
use paf.Server.Transaction.{Transaction, Request}
use paf.Server.State.{Connection, Server, Method, connection}
use paf.Server.Handlers.{
  respond_failure, hello_request, subscribe_request, unsubscribe_request, subscriptions_request,
  services_request, publish_request, unpublish_request, ping_request, clients_request,
}
use paf.Server.Connection.{
  id_arg, with_id, with_ids, with_three, with_service, with_none, invoke_handler, no_hello, request,
}
use paf.Server.Consistency.{IsConsistent}
use paf.Server.Consistency.Leaves.{Preserves, raised-Preserves, lift-Leaves, connection-Leaves}
use paf.Server.Consistency.Rules.{Always, respond-Preserves}
use paf.Server.Consistency.Subscribing.{subscribe_request-Preserves, unsubscribe_request-Preserves}
use paf.Server.Consistency.Publishing.{publish_request-Preserves, unpublish_request-Preserves}
use paf.Server.Consistency.Listing.{
  subscriptions_request-Preserves, services_request-Preserves, ping_request-Preserves,
  clients_request-Preserves,
}
use paf.Server.Consistency.Handshake.{hello_request-Preserves}

module _ (st : Server) where
  -- The choice among the handlers, as a list.
  abbrev choose : Text → List (Text × Method (Unit {0})) → Method (Unit {0})
  choose cmd [] = raise Error.attribute_error
  choose cmd ((name, m) ∷ rest) = if cmd == name then m else choose cmd rest

  abbrev EachPreserves : List (Text × Method (Unit {0})) → Type 0
  EachPreserves [] = Unit
  EachPreserves ((name, m) ∷ rest) = Preserves (m st) × EachPreserves rest

  if-Preserves :
      (b : Bool) (m n : Method (Unit {0}))
      → Preserves (m st)
      → Preserves (n st)
      → Preserves ((if b then m else n) st)
  if-Preserves true m n h h' = h
  if-Preserves false m n h h' = h'

  choose-Preserves :
      (cmd : Text) (ms : List (Text × Method (Unit {0})))
      → EachPreserves ms
      → Preserves (choose cmd ms st)
  choose-Preserves cmd [] h = tt
  choose-Preserves cmd ((name, m) ∷ rest) (h, hs) =
      if-Preserves (cmd == name) m (choose cmd rest) h (choose-Preserves cmd rest hs)

  with_id-Preserves :
      (args : List (Option Pulled)) (f : ℕ → Method (Unit {0}))
      → ((n : ℕ) → Preserves (f n st))
      → Preserves (with_id args f st)
  with_id-Preserves [] f k = tt
  with_id-Preserves (a ∷ []) f k = go (id_arg a)
    where
      go :
          (o : Option ℕ)
          → Preserves (
              (elim o as (λ _. Method (Unit {0})) [ none ↦ raise Error.type_error | some n ↦ f n ])
                st)
      go none = tt
      go (some n) = k n
  with_id-Preserves (a ∷ _ ∷ _) f k = tt

  with_ids-Preserves :
      (o₁ o₂ o₃ : Option ℕ) (f : ℕ → ℕ → ℕ → Method (Unit {0}))
      → ((a b c : ℕ) → Preserves (f a b c st))
      → Preserves (with_ids o₁ o₂ o₃ f st)
  with_ids-Preserves (some a) (some b) (some c) f k = k a b c
  with_ids-Preserves _ _ _ f k = tt

  with_three-Preserves :
      (args : List (Option Pulled)) (f : ℕ → ℕ → ℕ → Method (Unit {0}))
      → ((a b c : ℕ) → Preserves (f a b c st))
      → Preserves (with_three args f st)
  with_three-Preserves (a ∷ b ∷ c ∷ []) f k =
      with_ids-Preserves (id_arg a) (id_arg b) (id_arg c) f k
  with_three-Preserves _ f k = tt

  with_service-Preserves :
      (args : List (Option Pulled)) (f : ℕ → ℕ → Props → ℕ → Method (Unit {0}))
      → ((id generation : ℕ) (p : Props) (ttl : ℕ) → Preserves (f id generation p ttl st))
      → Preserves (with_service args f st)
  with_service-Preserves (a ∷ b ∷ some (props p) ∷ c ∷ []) f k =
      with_ids-Preserves (id_arg a) (id_arg b) (id_arg c)
        (λ id generation ttl. f id generation p ttl) (λ id generation ttl. k id generation p ttl)
  with_service-Preserves _ f k = tt

  with_none-Preserves :
      (args : List (Option Pulled)) (m : Method (Unit {0}))
      → Preserves (m st)
      → Preserves (with_none args m st)
  with_none-Preserves [] m h = h
  with_none-Preserves (_ ∷ _) m h = tt

pub invoke_handler-Preserves :
    (c : ℕ) (r : Request) (st : Server) → IsConsistent st → Preserves (invoke_handler c r st)
unfolding invoke_handler
invoke_handler-Preserves c r st h =
    let ta : Transaction = r.transaction in
    let filter : Option Pulled = lookup field_filter.name r.optargs in
    let cmd : Text = ta.ta_type.cmd in
    choose-Preserves st cmd
      ((cmd_hello, with_three r.args (hello_request c ta))
        ∷ (cmd_subscribe, with_id r.args (λ sub_id. subscribe_request c ta sub_id filter))
        ∷ (cmd_unsubscribe, with_id r.args (unsubscribe_request c ta))
        ∷ (cmd_subscriptions, with_none r.args (subscriptions_request c ta))
        ∷ (cmd_services, with_none r.args (services_request c ta filter))
        ∷ (cmd_publish, with_service r.args (publish_request c ta))
        ∷ (cmd_unpublish, with_id r.args (unpublish_request c ta))
        ∷ (cmd_ping, with_none r.args (ping_request c ta))
        ∷ (cmd_clients, with_none r.args (clients_request c ta))
        ∷ [])
      (
        with_three-Preserves st r.args (hello_request c ta)
            (λ client low high. hello_request-Preserves c ta client low high st h),
        (
          with_id-Preserves st r.args (λ sub_id. subscribe_request c ta sub_id filter)
              (λ sub_id. subscribe_request-Preserves c ta sub_id filter st h),
          (
            with_id-Preserves st r.args (unsubscribe_request c ta)
                (λ sub_id. unsubscribe_request-Preserves c ta sub_id st h),
            (
              with_none-Preserves st r.args (subscriptions_request c ta)
                  (subscriptions_request-Preserves c ta st h),
              (
                with_none-Preserves st r.args (services_request c ta filter)
                    (services_request-Preserves c ta filter st h),
                (
                  with_service-Preserves st r.args (publish_request c ta) (λ id generation p ttl.
                      publish_request-Preserves c ta id generation p ttl st h),
                  (
                    with_id-Preserves st r.args (unpublish_request c ta)
                        (λ id. unpublish_request-Preserves c ta id st h),
                    (
                      with_none-Preserves st r.args (ping_request c ta)
                          (ping_request-Preserves c ta st h),
                      (
                        with_none-Preserves st r.args (clients_request c ta)
                            (clients_request-Preserves c ta st h),
                        tt,
                      ),
                    ),
                  ),
                ),
              ),
            ),
          ),
        ),
      )

-- A request, whatever the message is and whoever sends it, leaves the connections and the clients
-- consistent where it returns, and also where it raises an exception of sd.py, filter.py or proto.py.
-- Nothing is said of the state where another exception stops the server.
pub request-Preserves :
    (c : ℕ) (json : Option Json) (st : Server) → IsConsistent st → Preserves (request c json st)
unfolding request
request-Preserves c json st h =
    let handle : Request → Connection → Method (Unit {0}) = λ r conn.
      if r.transaction.ta_type.cmd == cmd_hello || conn.handshaked
      then invoke_handler c r
      else respond_failure c r.transaction no_hello in
    lift-Leaves IsConsistent Always (Transaction.request json) (λ r. connection c >>= handle r) st
      (λ e _. raised-Preserves (Unit {0}) e st h)
      (λ r _. connection-Leaves IsConsistent Always c (handle r) st (λ conn _.
        if-Preserves st (r.transaction.ta_type.cmd == cmd_hello || conn.handshaked)
          (invoke_handler c r) (respond_failure c r.transaction no_hello)
          (invoke_handler-Preserves c r st h) (respond-Preserves c _ st h)))

-- ===== src/Server/Consistency/Subscribing.antt =====
-- paf/server.py: the requests to subscribe and to unsubscribe keep the invariant.
use paf.Prelude.{
  ℕ, ◌≡◌, ◌∙◌, arith, refl, sym, ap, subst, Option, none, some, [], inl, inr, Option-cases, nat_eq,
}
use paf.Prelude.Dict.{lookup, insert, erase}
use paf.Prelude.Action.{Result, raised, Error, ◌>>=◌, ◌>>◌, modify, or_raise}
use paf.Proto.Fields.{Pulled}
use paf.Filter.Syntax.{Filter}
use paf.Sd.Discovery
use paf.Sd.Discovery.{Discovery}
use paf.Sd.Discovery.Invariant.{IsValid, nothing}
use paf.Sd.Discovery.Ensures.{mono-Ensures}
use paf.Sd.Discovery.Dropping.{Left}
use paf.Sd.Discovery.Subscribing.{
  Subscribes, create_subscription-Ensures, remove_subscription-Ensures,
}
use paf.Sd.Discovery.Bystanders.Subscribing.{
  create_subscription-LeavesClients, remove_subscription-LeavesClients,
  activate_subscription-IsCalling,
}
use paf.Server.Transaction.{Transaction, accept, complete}
use paf.Server.State.{Connection, Server, Method, connection, set_connection, respond, on_sd}
use paf.Server.Handlers.{
  unsubscribe, unsubscribe_request, unsubscribe_reason, parse_filter_arg, client_of, subscribe,
  subscribe_request, subscribe_reason,
}
use paf.Server.Consistency.{badge_of, IsConsistent, keep-IsConsistent}
use paf.Server.Consistency.Leaves.{
  Preserves, >>=-Preserves, raised-Preserves, or_raise-Leaves, lift-Leaves, connection-Leaves,
}
use paf.Server.Consistency.Rules.{
  Always, client-Preserves, any-Preserves, respond-Preserves, respond_then-Preserves,
  set_connection-IsConsistent, with_sd, with_sd-IsConsistent, on_sd-Preserves, keeping-Preserves,
  failing-Preserves, calls-IsValid,
}

-- Nothing but the history of calls changes.
activate_subscription-Preserves :
    (id : ℕ) (st : Server)
    → IsConsistent st
    → Preserves (on_sd (Discovery.activate_subscription id) st)
activate_subscription-Preserves id st h =
    let sd₀ : Discovery = record st.sd { calls = [] } in
    let (cs, e) = activate_subscription-IsCalling id sd₀ in
    on_sd-Preserves (Discovery.activate_subscription id) st (
      any-Preserves ((Discovery.activate_subscription id sd₀).0)
        (with_sd ((Discovery.activate_subscription id sd₀).1) st)
        (with_sd-IsConsistent ((Discovery.activate_subscription id sd₀).1) st h
          (subst IsValid (sym e) (calls-IsValid cs sd₀ (calls-IsValid [] st.sd h.valid)))
          (ap (λ (d : Discovery). d.clients) e)))

abbrev subscribed : ℕ → Transaction → ℕ → Connection → Method (Unit {0})
subscribed c ta sub_id conn = do
  modify (λ (st : Server). record st { callbacks = insert sub_id c st.callbacks })
  modify (set_connection c (record conn { sub_tas = insert sub_id ta conn.sub_tas }))
  respond c (accept [] [] ta)
  on_sd (Discovery.activate_subscription sub_id)

subscribed-Preserves :
    (c : ℕ) (ta : Transaction) (sub_id : ℕ) (conn : Connection) (st : Server)
    → IsConsistent st
    → lookup c st.connections ≡ some conn
    → Preserves (subscribed c ta sub_id conn st)
unfolding badge_of
subscribed-Preserves c ta sub_id conn st h e =
    let st₁ : Server = record st { callbacks = insert sub_id c st.callbacks } in
    let conn' : Connection = record conn { sub_tas = insert sub_id ta conn.sub_tas } in
    respond_then-Preserves c (accept [] [] ta) (on_sd (Discovery.activate_subscription sub_id))
      (set_connection c conn' st₁)
      (set_connection-IsConsistent c conn conn' st₁
        (keep-IsConsistent st st₁ h h.valid refl (λ d. refl) h.unique refl) e refl)
      (λ st' h'. activate_subscription-Preserves sub_id st' h')

subscribe-Preserves :
    (c : ℕ) (ta : Transaction) (sub_id : ℕ) (arg : Option Pulled) (st : Server)
    → IsConsistent st
    → Preserves (subscribe c ta sub_id arg st)
unfolding subscribe
subscribe-Preserves c ta sub_id arg st h =
    let rest : Option Filter → ℕ → Method (Unit {0}) = λ filter client.
      on_sd (Discovery.create_subscription sub_id filter client)
      >> (connection c >>= subscribed c ta sub_id) in
    lift-Leaves IsConsistent Always (parse_filter_arg arg)
      (λ filter. connection c >>= λ conn. client_of conn >>= rest filter) st
      (λ e _. raised-Preserves (Unit {0}) e st h)
      (λ filter _. client-Preserves c (rest filter) st h (λ client.
        >>=-Preserves (on_sd (Discovery.create_subscription sub_id filter client))
          (λ _. connection c >>= subscribed c ta sub_id) st
          (keeping-Preserves (Discovery.create_subscription sub_id filter client) st h
            (λ sd v _.
              mono-Ensures IsValid (Subscribes sub_id filter client sd v) (λ _ y. IsValid y)
                (λ _ y p. p.0) (Discovery.create_subscription sub_id filter client sd)
                (create_subscription-Ensures sub_id filter client sd v))
            (create_subscription-LeavesClients sub_id filter client))
          (λ _ st' h'.
            connection-Leaves IsConsistent Always c (subscribed c ta sub_id) st'
              (λ conn e. subscribed-Preserves c ta sub_id conn st' h' e))))

pub subscribe_request-Preserves :
    (c : ℕ) (ta : Transaction) (sub_id : ℕ) (arg : Option Pulled) (st : Server)
    → IsConsistent st
    → Preserves (subscribe_request c ta sub_id arg st)
unfolding subscribe_request
subscribe_request-Preserves c ta sub_id arg st h =
    failing-Preserves c ta subscribe_reason (subscribe c ta sub_id arg) st
      (refl, refl, refl, refl, refl) (subscribe-Preserves c ta sub_id arg st h)

-- A client that is not connected fails the assertion, which stops the server.
remove_subscription_unknown :
    (id client : ℕ) (sd : Discovery)
    → lookup client sd.clients ≡ none
    → (Discovery.remove_subscription id client sd).0 ≡ raised Error.assertion_error
unfolding Discovery.remove_subscription
remove_subscription_unknown id client sd e = ground arith

remove-Preserves :
    (id client : ℕ) (st : Server)
    → IsConsistent st
    → Preserves (on_sd (Discovery.remove_subscription id client) st)
remove-Preserves id client st h = elim (Option-cases (lookup client st.sd.clients)) [
  | inl e ↦
      let x : Result (Unit {0}) × Discovery =
        Discovery.remove_subscription id client (record st.sd { calls = [] }) in
      on_sd-Preserves (Discovery.remove_subscription id client) st (
        subst (λ (r : Result (Unit {0})). Preserves (r, with_sd x.1 st))
          (sym (remove_subscription_unknown id client (record st.sd { calls = [] }) e)) tt)
  | inr (user, e) ↦
      keeping-Preserves (Discovery.remove_subscription id client) st h
        (λ sd v same.
          mono-Ensures IsValid (λ _ y. Left nothing sd (erase id sd.subscriptions) y)
            (λ _ y. IsValid y) (λ _ y p. p.0) (Discovery.remove_subscription id client sd)
            (remove_subscription-Ensures id client user sd v (ap (lookup client) same ∙ e)))
        (remove_subscription-LeavesClients id client)
]

abbrev unsubscribed : ℕ → Transaction → ℕ → Connection → Transaction → Method (Unit {0})
unsubscribed c ta sub_id conn sub_ta = do
  modify (set_connection c (record conn { sub_tas = erase sub_id conn.sub_tas }))
  respond c (complete [] [] sub_ta)
  respond c (complete [] [] ta)

unsubscribe-Preserves :
    (c : ℕ) (ta : Transaction) (sub_id : ℕ) (st : Server)
    → IsConsistent st
    → Preserves (unsubscribe c ta sub_id st)
unfolding unsubscribe
unsubscribe-Preserves c ta sub_id st h =
    let rest : Connection → Method (Unit {0}) = λ conn.
      or_raise (lookup sub_id conn.sub_tas) Error.key_error >>= unsubscribed c ta sub_id conn in
    client-Preserves c
      (λ client. on_sd (Discovery.remove_subscription sub_id client) >> (connection c >>= rest)) st
      h
      (λ client.
        >>=-Preserves (on_sd (Discovery.remove_subscription sub_id client))
          (λ _. connection c >>= rest) st (remove-Preserves sub_id client st h)
          (λ _ st₁ h₁. connection-Leaves IsConsistent Always c rest st₁ (λ conn e.
            or_raise-Leaves IsConsistent Always (lookup sub_id conn.sub_tas) Error.key_error
              (unsubscribed c ta sub_id conn) st₁ tt
              (λ sub_ta _.
                let conn' : Connection = record conn { sub_tas = erase sub_id conn.sub_tas } in
                respond_then-Preserves c (complete [] [] sub_ta) (respond c (complete [] [] ta))
                  (set_connection c conn' st₁)
                  (set_connection-IsConsistent c conn conn' st₁ h₁ e refl)
                  (λ st₂ h₂. respond-Preserves c (complete [] [] ta) st₂ h₂)))))

pub unsubscribe_request-Preserves :
    (c : ℕ) (ta : Transaction) (sub_id : ℕ) (st : Server)
    → IsConsistent st
    → Preserves (unsubscribe_request c ta sub_id st)
unfolding unsubscribe_request
unsubscribe_request-Preserves c ta sub_id st h =
    failing-Preserves c ta unsubscribe_reason (unsubscribe c ta sub_id) st
      (refl, refl, refl, refl, refl) (unsubscribe-Preserves c ta sub_id st h)

-- ===== src/Server/Consistency/Publishing.antt =====
-- paf/server.py: the requests to publish and to unpublish keep the invariant.
use paf.Prelude.{ℕ, refl, Option, none, some, [], nat_eq}
use paf.Prelude.Dict.{lookup}
use paf.Prelude.Action.{Error, ◌>>=◌, ◌>>◌, lift, or_raise}
use paf.Filter.Syntax.{Props}
use paf.Sd.Service.{Generation, Service, getter}
use paf.Sd.Discovery
use paf.Sd.Discovery.{Discovery}
use paf.Sd.Discovery.Invariant.{IsValid}
use paf.Sd.Discovery.Ensures.{mono-Ensures}
use paf.Sd.Discovery.Bystanders.Unpublishing.{unpublish-LeavesClients}
use paf.Sd.Discovery.Bystanders.{publish-LeavesClients}
use paf.Server.Transaction.{Transaction, complete}
use paf.Server.State.{Server, Method, connection, respond, on_sd}
use paf.Sd.Discovery.Publishing.{IsPublished, publish-Publishes}
use paf.Sd.Discovery.Removal.{Removed, unpublish-Removes}
use paf.Server.Handlers.{
  publish_request, publish_reason, unpublish_request, unpublish_reason, client_of,
}
use paf.Server.Consistency.{IsConsistent}
use paf.Server.Consistency.Leaves.{Preserves, >>=-Preserves, raised-Preserves, lift-Leaves}
use paf.Server.Consistency.Rules.{
  Always, client-Preserves, respond-Preserves, with_sd, with_sd-IsConsistent, on_sd-Preserves,
  keeping-Preserves, failing-Preserves,
}

-- A method of `ServiceDiscovery`, and the response when it returns.
done-Preserves :
    (c : ℕ) (ta : Transaction) (m : ℕ → Discovery.Method (Unit {0})) (st : Server)
    → IsConsistent st
    → ((client : ℕ) → Preserves (on_sd (m client) st))
    → Preserves (
        (connection c >>= λ conn.
        client_of conn >>= λ client. on_sd (m client) >> respond c (complete [] [] ta))
          st)
done-Preserves c ta m st h k =
    client-Preserves c (λ client. on_sd (m client) >> respond c (complete [] [] ta)) st h
      (λ client.
        >>=-Preserves (on_sd (m client)) (λ _. respond c (complete [] [] ta)) st (k client)
          (λ _ st₁ h₁. respond-Preserves c (complete [] [] ta) st₁ h₁))

pub publish_request-Preserves :
    (c : ℕ) (ta : Transaction) (id generation : ℕ) (props : Props) (ttl : ℕ) (st : Server)
    → IsConsistent st
    → Preserves (publish_request c ta id generation props ttl st)
unfolding publish_request
publish_request-Preserves c ta id generation props ttl st h =
    failing-Preserves c ta publish_reason
      (connection c >>= λ conn. client_of conn >>= λ client.
        on_sd (Discovery.publish id generation props ttl client) >> respond c (complete [] [] ta))
      st (refl, refl, refl, refl, refl)
      (done-Preserves c ta (Discovery.publish id generation props ttl) st h (λ client.
        keeping-Preserves (Discovery.publish id generation props ttl client) st h
          (λ sd v _.
            mono-Ensures IsValid (λ _ y. IsPublished id generation props ttl client sd y)
              (λ _ y. IsValid y) (λ _ y p. p.valid)
              (Discovery.publish id generation props ttl client sd)
              (publish-Publishes id generation props ttl client sd v))
          (publish-LeavesClients id generation props ttl client)))

unpublish-Preserves :
    (id client : ℕ) (st : Server)
    → IsConsistent st
    → Preserves (on_sd (Discovery.unpublish id client) st)
unpublish-Preserves id client st h =
    keeping-Preserves (Discovery.unpublish id client) st h
      (λ sd v _.
        mono-Ensures IsValid (λ _ y. Removed id sd y) (λ _ y. IsValid y) (λ _ y p. p.0)
          (Discovery.unpublish id client sd) (unpublish-Removes id sd v client))
      (unpublish-LeavesClients id client)

get_service-Preserves :
    (id : ℕ) (st : Server) → IsConsistent st → Preserves (on_sd (Discovery.get_service id) st)
unfolding Discovery.get_service
get_service-Preserves id st h =
    on_sd-Preserves (Discovery.get_service id) st (go (lookup id st.sd.services))
  where
    go :
        (o : Option Service)
        → let (r, sd) =
            or_raise {S = Discovery} o Error.not_found_error (record st.sd { calls = [] }) in
          Preserves (r, with_sd sd st)
    go none = with_sd-IsConsistent st.sd st h h.valid refl
    go (some s) = with_sd-IsConsistent st.sd st h h.valid refl

pub unpublish_request-Preserves :
    (c : ℕ) (ta : Transaction) (id : ℕ) (st : Server)
    → IsConsistent st
    → Preserves (unpublish_request c ta id st)
unfolding unpublish_request
unpublish_request-Preserves c ta id st h =
    let rest : Method (Unit {0}) = connection c >>= λ conn. client_of conn >>= λ client.
    on_sd (Discovery.unpublish id client) >> respond c (complete [] [] ta) in
    failing-Preserves c ta unpublish_reason
      (on_sd (Discovery.get_service id) >>= λ s.
        lift (getter Generation.props (Service.cur s)) >> rest)
      st (refl, refl, refl, refl, refl)
      (>>=-Preserves (on_sd (Discovery.get_service id))
        (λ s. lift (getter Generation.props (Service.cur s)) >> rest) st
        (get_service-Preserves id st h)
        (λ s st₁ h₁.
          lift-Leaves IsConsistent Always (getter Generation.props (Service.cur s)) (λ _. rest) st₁
            (λ e _. raised-Preserves (Unit {0}) e st₁ h₁)
            (λ _ _.
              done-Preserves c ta (Discovery.unpublish id) st₁ h₁
                (λ client. unpublish-Preserves id client st₁ h₁))))

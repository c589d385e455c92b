-- ===== src/Sd/Discovery/Disconnect.antt =====
-- paf/sd.py, `ServiceDiscovery.client_disconnect`.
use paf.Prelude.{
  ℕ, ◌≡◌, refl, subst, sym, ap, ◌∙◌, Option, none, some, List, [], ◌∷◌, Text, text_beq,
  text_beq_iff, ◌≢◌, nat_eq, nat_beq, nat_beq_iff, bit, arith, inl, inr, Bool-cases, Option-cases,
  if◌then◌else◌,
}
use paf.Prelude.Dict.{
  Dict, lookup, erase, IsUnique-erase, lookup-erase_ne, lookup-erase_self, le-sum_by,
}
use paf.Prelude.Action.{ok, raised, Error, ◌>>◌, modify as modify_state}
use paf.Sd.Resources.{ResourceType, deallocate}
use paf.Sd.Resources.Ledger.{same}
use paf.Sd.Service.{Generation, Service, ChangeType, make_orphan}
use paf.Sd.Subscription.{Subscription}
use paf.Sd.Discovery.{
  Discovery, on_manager, update_service, store, service_commit, orphan_service, orphan_services,
  drop_subscriptions, subscriptions_of, client_disconnect, keys,
}
use paf.Sd.Discovery.Commit.{resting, update_service_lem}
use paf.Sd.Discovery.Ensures.{Ensures, mono-Ensures, >>=-Ensures}
use paf.Sd.Discovery.Invariant.{IsAhead, IsValid, Offset, nothing}
use paf.Sd.Discovery.Dropping.{listed, owned_by, subscriptions_of-linked, drop_subscriptions-Left}
use paf.Sd.Discovery.Invariant.Updates.{OnlyManager, deallocate-Ensures, erase_client-IsBalanced}
use paf.Sd.Discovery.Invariant.Commits.{Kept, modified-Ensures}

abbrev pub orphaned : ℕ → Generation → Generation
orphaned now g = record g { orphan_since = some now }

-- The clients and the subscriptions are those of before, and the invariant holds up to `d`.
abbrev Between : Offset → Discovery → Discovery → Type 0
Between d st st' =
    IsAhead d nothing st' × (st'.clients ≡ st.clients) × (st'.subscriptions ≡ st.subscriptions)

pub orphan_eq :
    (id now : ℕ) (prev : Option Generation) (g : Generation) (st : Discovery)
    → let s : Service = resting id (some g) (orphaned now g) in
      update_service id (resting id prev g) (make_orphan now) st
      ≡ service_commit ChangeType.modified s (store id s st)
orphan_eq id now prev g st =
    update_service_lem id prev g (orphaned now g) (make_orphan now) st (λ d e. rw e refl)

module _ (d : Offset) (now client : ℕ) where
  pub orphan_resting_eq :
      (id : ℕ) (prev : Option Generation) (g : Generation) (st : Discovery)
      → lookup id st.services ≡ some (resting id prev g)
      → orphan_service now client id st ≡ (
          if nat_beq g.client_id client
          then update_service id (resting id prev g) (make_orphan now) st
          else (ok tt, st))
  unfolding orphan_service
  orphan_resting_eq id prev g st e = ground arith

  orphan_missing :
      (id : ℕ) (st : Discovery)
      → lookup id st.services ≡ none
      → orphan_service now client id st ≡ (ok tt, st)
  unfolding orphan_service
  orphan_missing id st e = ground arith

  orphan_resting :
      (id : ℕ) (prev : Option Generation) (g : Generation) (st : Discovery)
      → IsAhead d nothing st
      → lookup id st.services ≡ some (resting id prev g)
      → Ensures IsValid (λ _ st'. Between d st st') (orphan_service now client id st)
  orphan_resting id prev g st h e =
      subst (Ensures IsValid (λ _ st'. Between d st st')) (sym (orphan_resting_eq id prev g st e))
        (elim (Bool-cases (nat_beq g.client_id client)) [
          | inl mine ↦ rw mine (
              subst (Ensures IsValid (λ _ st'. Between d st st')) (sym (orphan_eq id now prev g st))
                (mono-Ensures IsValid
                  (λ _ y.
                    IsAhead d nothing y
                    × Kept (store id (resting id (some g) (orphaned now g)) st) y)
                  (λ _ y. Between d st y) (λ _ y (v, (_, c, s, _)). (v, c, s)) _
                  (modified-Ensures IsValid d nothing st id prev g (orphaned now g) h e refl)))
          | inr other ↦ rw other (h, refl, refl)
        ])

  orphan_service-Between :
      (id : ℕ) (st : Discovery)
      → IsAhead d nothing st
      → Ensures IsValid (λ _ st'. Between d st st') (orphan_service now client id st)
  orphan_service-Between id st h = elim (Option-cases (lookup id st.services)) [
    | inl e ↦
        subst (Ensures IsValid (λ _ st'. Between d st st')) (sym (orphan_missing id st e))
          (h, refl, refl)
    | inr (s, e) ↦
        let (g, rest) = h.timed.at_rest id s e in orphan_resting id s.prev g st h (e ∙ ap some rest)
  ]

  orphan_services-Between :
      (ids : List ℕ) (st : Discovery)
      → IsAhead d nothing st
      → Ensures IsValid (λ _ st'. Between d st st') (orphan_services now client ids st)
  unfolding orphan_services
  orphan_services-Between [] st h = (h, refl, refl)
  orphan_services-Between (id ∷ ids) st h =
      >>=-Ensures IsValid (λ _ st'. Between d st st') (λ _ st'. Between d st st')
        (orphan_service now client id) (λ _. orphan_services now client ids) st
        (orphan_service-Between id st h)
        (λ _ st' (v, c, s).
          mono-Ensures IsValid (λ _ y. Between d st' y) (λ _ y. Between d st y)
            (λ _ y (v', c', s'). (v', c' ∙ c, s' ∙ s)) (orphan_services now client ids st')
            (orphan_services-Between ids st' v))

-- The client, and no other, has gone, and the state is valid.
abbrev pub Gone : ℕ → Dict ℕ Text → Discovery → Type 0
Gone client clients st' =
    IsValid st' × (lookup client st'.clients ≡ none) × (st'.clients ≡ erase client clients)

module _ (now client : ℕ) (user : Text) where
  abbrev owed : Offset
  owed = same user ResourceType.client

  -- What is left to do at the end: no subscription of the client is left, and its place is given back.
  erase_client-IsValid :
      (st : Discovery)
      → IsAhead owed nothing st
      → lookup client st.clients ≡ some user
      → ((id : ℕ) (sub : Subscription)
          → lookup id st.subscriptions ≡ some sub
          → sub.client_id ≢ client)
      → IsValid (record st { clients = erase client st.clients })
  erase_client-IsValid st h e others = record {
    timed = h.timed;
    balanced = erase_client-IsBalanced owed st client user e h.balanced;
    linked = record {
      clients = IsUnique-erase client st.clients h.linked.clients;
      subscriptions = h.linked.subscriptions;
      under_id = h.linked.under_id;
      owner = λ id sub es.
          lookup-erase_ne client sub.client_id st.clients (λ same_. others id sub es (sym same_))
          ∙ h.linked.owner id sub es;
    };
  }

  release-Between :
      (st : Discovery)
      → IsValid st
      → lookup client st.clients ≡ some user
      → Ensures IsValid
          (λ _ st'. Between owed st st')
          (on_manager (deallocate user ResourceType.client) st)
  release-Between st h e =
      mono-Ensures IsValid (λ _ y. OnlyManager owed nothing st y) (λ _ y. Between owed st y)
        (λ _ y (rm, eq, b). subst (Between owed st) (sym eq) (
          record {
            timed = h.timed;
            balanced = b;
            linked = record {
              clients = h.linked.clients;
              subscriptions = h.linked.subscriptions;
              under_id = h.linked.under_id;
              owner = h.linked.owner;
            };
          },
          refl,
          refl,
        ))
        (on_manager (deallocate user ResourceType.client) st)
        (deallocate-Ensures IsValid user ResourceType.client nothing nothing owed nothing st
          h.balanced
          (ground (
            arith,
            h.balanced.balance user ResourceType.client,
            le-sum_by (λ (v : Text). bit (text_beq user v)) client user st.clients e,
            text_beq_iff user user,
          ))
          (λ v s. omega arith))

  -- The rest of the method, from the loop over the services on.
  drop_all-Ensures :
      (clients : Dict ℕ Text) (st : Discovery)
      → IsAhead owed nothing st
      → st.clients ≡ clients
      → lookup client st.clients ≡ some user
      → Ensures IsValid
          (λ _ st'. Gone client clients st')
          ((drop_subscriptions (subscriptions_of client st.subscriptions)
              >> modify_state (λ (x : Discovery). record x { clients = erase client x.clients }))
            st)
  drop_all-Ensures clients st h same_clients e =
      let subs : List Subscription = subscriptions_of client st.subscriptions in
      let (all_in, exactly) = subscriptions_of-linked client st h.linked in
      >>=-Ensures IsValid
        (λ _ y.
          IsAhead owed nothing y
          × (y.clients ≡ st.clients)
          × ((id : ℕ)
              → lookup id y.subscriptions
                ≡ (if listed id subs then none else lookup id st.subscriptions)))
        (λ _ y. Gone client clients y) (drop_subscriptions subs)
        (λ _. modify_state (λ (x : Discovery). record x { clients = erase client x.clients })) st
        (drop_subscriptions-Left IsValid owed (λ u. ground arith) subs st h all_in)
        (λ _ y (v, c, looks). (
          erase_client-IsValid y v (ap (lookup client) c ∙ e)
              (λ id sub es. others id sub (sym (looks id) ∙ es) (exactly id)),
          lookup-erase_self client y.clients v.linked.clients,
          ap (erase client) (c ∙ same_clients),
        ))
    where
      others :
          (id : ℕ) (sub : Subscription)
          → (if listed id (subscriptions_of client st.subscriptions)
              then none
              else lookup id st.subscriptions)
            ≡ some sub
          → listed id (subscriptions_of client st.subscriptions)
            ≡ owned_by client (lookup id st.subscriptions)
          → sub.client_id ≢ client
      others id sub es exact mine = ground (arith, nat_beq_iff sub.client_id client)

  client_disconnect_eq :
      (st : Discovery)
      → lookup client st.clients ≡ some user
      → client_disconnect now client st
        ≡ (on_manager (deallocate user ResourceType.client) >> (λ (st₁ : Discovery).
              (orphan_services now client (keys st₁.services) >> (λ (st₂ : Discovery).
                  (drop_subscriptions (subscriptions_of client st₂.subscriptions)
                      >> modify_state
                          (λ (x : Discovery). record x { clients = erase client x.clients }))
                    st₂))
                st₁))
            st
  unfolding client_disconnect
  client_disconnect_eq st e = ground arith

  known_client-Ensures :
      (st : Discovery)
      → IsValid st
      → lookup client st.clients ≡ some user
      → Ensures IsValid (λ _ st'. Gone client st.clients st') (client_disconnect now client st)
  known_client-Ensures st h e =
      let Q : Unit {0} → Discovery → Type 0 = λ _ y. Gone client st.clients y in
      subst (Ensures IsValid Q) (sym (client_disconnect_eq st e)) (
        >>=-Ensures IsValid (λ _ y. Between owed st y) Q
          (on_manager (deallocate user ResourceType.client)) _ st (release-Between st h e)
          (λ _ st₁ (v₁, c₁, s₁).
            >>=-Ensures IsValid (λ _ y. Between owed st₁ y) Q
              (orphan_services now client (keys st₁.services)) _ st₁
              (orphan_services-Between owed now client (keys st₁.services) st₁ v₁)
              (λ _ st₂ (v₂, c₂, s₂).
                drop_all-Ensures st.clients st₂ v₂ (c₂ ∙ c₁) (ap (lookup client) (c₂ ∙ c₁) ∙ e))))

client_disconnect_unknown :
    (now client : ℕ) (st : Discovery)
    → lookup client st.clients ≡ none
    → client_disconnect now client st ≡ (raised Error.not_found_error, st)
unfolding client_disconnect
client_disconnect_unknown now client st e = ground arith

-- Disconnecting a client from a valid state, where it returns, leaves a valid state in which it is not
-- connected, while the other clients are those of before: the counts of the resources have gone down
-- with what there is, no subscription is left without its client, and the queue holds the services that
-- became orphans. An error of sd.py leaves a valid state. No `KeyError` is raised and no assertion
-- fails. Nothing is said of the state where a `TypeError` or an `AttributeError` stops the server.
pub client_disconnect-Ensures :
    (now client : ℕ) (st : Discovery)
    → IsValid st
    → Ensures IsValid (λ _ st'. Gone client st.clients st') (client_disconnect now client st)
client_disconnect-Ensures now client st h = elim (Option-cases (lookup client st.clients)) [
  | inl e ↦
      subst (Ensures IsValid (λ _ st'. Gone client st.clients st'))
        (sym (client_disconnect_unknown now client st e)) h
  | inr (user, e) ↦ known_client-Ensures now client user st h e
]

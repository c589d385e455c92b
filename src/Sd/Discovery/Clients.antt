-- ===== src/Sd/Discovery/Clients.antt =====
-- paf/sd.py, `ServiceDiscovery.client_connect`.
use paf.Prelude.{
  true, ap, ℕ, ◌≡◌, refl, subst, sym, none, some, Text, nat_eq, nat_beq_iff, arith, inl, inr,
  Option-cases,
}
use paf.Prelude.Dict.{is_some, lookup, insert, IsUnique-insert, lookup-insert, lookup-insert_self}
use paf.Prelude.Action.{
  already_exists_error, resource_error, Result, ok, raised, ◌>>◌, modify as modify_state,
}
use paf.Sd.Resources.{ResourceType, ResourceManager, allocate}
use paf.Sd.Resources.Allocate.{is_full, Allocates, allocate-Allocates}
use paf.Sd.Resources.Ledger.{same}
use paf.Sd.Discovery.{Discovery, client_connect, on_manager}
use paf.Sd.Discovery.Ensures.{Ensures, >>=-Ensures}
use paf.Sd.Discovery.Invariant.{IsBalanced, IsValid, nothing}
use paf.Sd.Discovery.Invariant.Updates.{OnlyManager, allocate-Ensures, insert_client-IsBalanced}

-- A connect leaves a valid state, where it returns and where it raises an error of sd.py.
pub client_connect-Ensures :
    (client : ℕ) (user : Text) (st : Discovery)
    → IsValid st
    → Ensures IsValid
        (λ _ st'. IsValid st' × (lookup client st'.clients ≡ some user))
        (client_connect client user st)
unfolding client_connect
client_connect-Ensures client user st h = elim (Option-cases (lookup client st.clients)) [
  | inr (u, e) ↦ rw e h
  | inl e ↦ rw e (
      >>=-Ensures IsValid (λ _ st'. OnlyManager nothing (same user ResourceType.client) st st')
        (λ _ st'. IsValid st' × (lookup client st'.clients ≡ some user))
        (on_manager (allocate user ResourceType.client))
        (λ _. modify_state (λ (x : Discovery). record x { clients = insert client user x.clients }))
        st (allocate-Ensures user ResourceType.client st h)
        (λ _ st' (rm, eq, b).
          subst
            (λ (x : Discovery).
              IsValid (record x { clients = insert client user x.clients })
              × (lookup client (insert client user x.clients) ≡ some user))
            (sym eq) (connected rm e b, lookup-insert_self client user st.clients)))
]
  where
    connected :
        (rm : ResourceManager)
        → lookup client st.clients ≡ none
        → IsBalanced nothing (same user ResourceType.client) (record st { manager = rm })
        → IsValid (record st { manager = rm; clients = insert client user st.clients })
    connected rm e b = record {
      timed = h.timed;
      balanced = insert_client-IsBalanced nothing (record st { manager = rm }) client user e b;
      linked = record {
        clients = IsUnique-insert client user st.clients h.linked.clients;
        subscriptions = h.linked.subscriptions;
        under_id = h.linked.under_id;
        owner = λ id sub es. ground (
          arith,
          h.linked.owner id sub es,
          lookup-insert client sub.client_id user st.clients,
          nat_beq_iff client sub.client_id,
        );
      };
    }

connect_again :
    (client : ℕ) (user u : Text) (st : Discovery)
    → lookup client st.clients ≡ some u
    → client_connect client user st ≡ (raised already_exists_error, st)
unfolding client_connect
connect_again client user u st e = ground arith

connect_new :
    (client : ℕ) (user : Text) (st : Discovery)
    → lookup client st.clients ≡ none
    → client_connect client user st
      ≡ (on_manager (λ _. allocate user ResourceType.client st.manager)
            >> modify_state
                (λ (y : Discovery). record y { clients = insert client user y.clients }))
          st
unfolding client_connect
connect_new client user st e = ground arith

-- What a connect has done, by how it ended.
abbrev pub Connects : ℕ → Text → Discovery → Result (Unit {0}) × Discovery → Type 0
Connects client user st (ok a, st') =
    IsValid st' × (lookup client st.clients ≡ none) × (st'.clients ≡ insert client user st.clients)
Connects client user st (raised already_exists_error, st') =
    (st' ≡ st) × (is_some (lookup client st.clients) ≡ true)
Connects client user st (raised resource_error, st') =
    IsValid st' × (is_full user ResourceType.client st.manager ≡ true) × (st'.clients ≡ st.clients)
Connects client user st (raised _, st') = ⊥

-- Connecting a client to a valid state ends in one of three ways, and in no other. It returns, and the
-- client, which was not connected, is entered for its user in a valid state. It raises
-- `AlreadyExistsError`, where the client is connected, and changes nothing. Or it raises
-- `ResourceError`, where a limit on clients is reached, and leaves a valid state with the clients of
-- before.
pub client_connect-Connects :
    (client : ℕ) (user : Text) (st : Discovery)
    → IsValid st
    → Connects client user st (client_connect client user st)
client_connect-Connects client user st h = ended (client_connect-Ensures client user st h)
  where
    go :
        (x : Result (Unit {0}) × ResourceManager)
        → lookup client st.clients ≡ none
        → Allocates user ResourceType.client st.manager x
        → Ensures IsValid
            (λ _ st'. IsValid st' × (lookup client st'.clients ≡ some user))
            ((on_manager (λ _. x)
                >> modify_state
                    (λ (y : Discovery). record y { clients = insert client user y.clients }))
              st)
        → Connects client user st (
            (on_manager (λ _. x)
                >> modify_state
                    (λ (y : Discovery). record y { clients = insert client user y.clients }))
              st)
    go (ok a, rm) e granted (valid, known) = (valid, e, refl)
    go (raised resource_error, rm) e (_, full, _) valid = (valid, full, refl)
    go (raised _, rm) e granted valid = absurd granted

    ended :
        Ensures IsValid
          (λ _ st'. IsValid st' × (lookup client st'.clients ≡ some user))
          (client_connect client user st)
        → Connects client user st (client_connect client user st)
    ended valid = elim (Option-cases (lookup client st.clients)) [
      | inr (u, e) ↦
          subst (Connects client user st) (sym (connect_again client user u st e))
            (refl, ap is_some e)
      | inl e ↦ subst (Connects client user st) (sym (connect_new client user st e)) (
          go (allocate user ResourceType.client st.manager) e
            (allocate-Allocates user ResourceType.client st.manager h.balanced.valid)
            (subst
              (Ensures IsValid (λ _ st'. IsValid st' × (lookup client st'.clients ≡ some user)))
              (connect_new client user st e) valid))
    ]

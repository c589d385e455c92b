-- ===== src/Sd/Discovery/Subscribing.antt =====
-- paf/sd.py, `ServiceDiscovery`: subscriptions are created, activated and removed.
use paf.Prelude.{
  ℕ, ◌≡◌, refl, subst, sym, ap, ◌∙◌, true, false, Option, none, some, Text, nat_eq, nat_beq,
  nat_beq_iff, arith, inl, inr, Bool-cases, Option-cases,
}
use paf.Prelude.Dict.{lookup, insert, erase, IsUnique-insert, lookup-insert, lookup-insert_self}
use paf.Prelude.Action.{raised, Error, ◌>>◌, modify as modify_state}
use paf.Filter.Syntax.{Filter}
use paf.Sd.Resources.{ResourceType, ResourceManager, allocate}
use paf.Sd.Resources.Ledger.{same}
use paf.Sd.Subscription.{Subscription, subscription_check_access}
use paf.Sd.Discovery.{
  Discovery, create_subscription, remove_subscription, drop_subscription, on_manager,
}
use paf.Sd.Discovery.Ensures.{Ensures, >>=-Ensures}
use paf.Sd.Discovery.Invariant.{IsValid, IsBalanced, nothing}
use paf.Sd.Discovery.Invariant.Updates.{
  OnlyManager, allocate-Ensures, insert_subscription-IsBalanced,
}
use paf.Sd.Discovery.Dropping.{Left, drop_subscription-Left}

abbrev subscribed : ℕ → Option Filter → ℕ → Text → Subscription
subscribed id filter client user = record {
  sub_id = id;
  filter = filter;
  client_id = client;
  user_id = user;
}

module _ (id : ℕ) (filter : Option Filter) (client : ℕ) (st : Discovery) (h : IsValid st) where
  unknown :
      lookup client st.clients ≡ none
      → create_subscription id filter client st ≡ (raised Error.not_found_error, st)
  unfolding create_subscription
  unknown e = ground arith

  taken :
      (user : Text) (sub : Subscription)
      → lookup client st.clients ≡ some user
      → lookup id st.subscriptions ≡ some sub
      → create_subscription id filter client st ≡ (raised Error.already_exists_error, st)
  unfolding create_subscription
  taken user sub e e' = ground arith

  fresh :
      (user : Text)
      → lookup client st.clients ≡ some user
      → lookup id st.subscriptions ≡ none
      → create_subscription id filter client st
        ≡ (on_manager (allocate user ResourceType.subscription)
              >> modify_state (λ (x : Discovery). record x {
                subscriptions = insert id (subscribed id filter client user) x.subscriptions;
              }))
            st
  unfolding create_subscription
  fresh user e e' = ground arith

  enters :
      (user : Text) (rm : ResourceManager)
      → lookup client st.clients ≡ some user
      → lookup id st.subscriptions ≡ none
      → IsBalanced nothing (same user ResourceType.subscription) (record st { manager = rm })
      → IsValid (record st {
        manager = rm;
        subscriptions = insert id (subscribed id filter client user) st.subscriptions;
      })
  enters user rm e new b =
      let sub : Subscription = subscribed id filter client user in
      record {
        timed = h.timed;
        balanced = insert_subscription-IsBalanced nothing (record st { manager = rm }) id sub new b;
        linked = record {
          clients = h.linked.clients;
          subscriptions = IsUnique-insert id sub st.subscriptions h.linked.subscriptions;
          under_id = λ j x es. ground (
            arith,
            nat_beq_iff id j,
            lookup-insert id j sub st.subscriptions,
            h.linked.under_id j x,
          );
          owner = λ j x es. ground (
            arith,
            nat_beq_iff id j,
            lookup-insert id j sub st.subscriptions,
            h.linked.owner j x,
          );
        };
      }

  -- The subscription of a client, if it is connected.
  abbrev subscribed_by : Option Text → Option Subscription
  subscribed_by none = none
  subscribed_by (some user) = some (subscribed id filter client user)

  abbrev pub Subscribes : Unit {0} → Discovery → Type 0
  Subscribes _ st' =
      IsValid st' × (lookup id st'.subscriptions ≡ subscribed_by (lookup client st.clients))

  -- Creating a subscription in a valid state leaves a valid state in which the subscription stands
  -- under its id, for its client and that client's user. An error of sd.py leaves a valid state; no
  -- `KeyError` is raised and no assertion fails.
  pub create_subscription-Ensures :
      Ensures IsValid Subscribes (create_subscription id filter client st)
  create_subscription-Ensures = elim (Option-cases (lookup client st.clients)) [
    | inl e ↦ subst (Ensures IsValid Subscribes) (sym (unknown e)) h
    | inr (user, e) ↦ elim (Option-cases (lookup id st.subscriptions)) [
      | inr (sub, e') ↦ subst (Ensures IsValid Subscribes) (sym (taken user sub e e')) h
      | inl new ↦ subst (Ensures IsValid Subscribes) (sym (fresh user e new)) (
          >>=-Ensures IsValid
            (λ _ y. OnlyManager nothing (same user ResourceType.subscription) st y) Subscribes
            (on_manager (allocate user ResourceType.subscription))
            (λ _. modify_state (λ (x : Discovery). record x {
              subscriptions = insert id (subscribed id filter client user) x.subscriptions;
            }))
            st (allocate-Ensures user ResourceType.subscription st h)
            (λ _ y (rm, eq, b).
              subst
                (λ (x : Discovery). Subscribes tt (record x {
                  subscriptions = insert id (subscribed id filter client user) x.subscriptions;
                }))
                (sym eq)
                (
                  enters user rm e new b,
                  (lookup-insert_self id (subscribed id filter client user) st.subscriptions
                      ∙ ap (subscribed_by) (sym e)),
                )))
    ]
  ]

remove_missing :
    (id client : ℕ) (user : Text) (st : Discovery)
    → lookup client st.clients ≡ some user
    → lookup id st.subscriptions ≡ none
    → remove_subscription id client st ≡ (raised Error.not_found_error, st)
unfolding remove_subscription
remove_missing id client user st e e' = ground arith

remove_mine :
    (id client : ℕ) (user : Text) (sub : Subscription) (st : Discovery)
    → lookup client st.clients ≡ some user
    → lookup id st.subscriptions ≡ some sub
    → nat_beq client sub.client_id ≡ true
    → remove_subscription id client st ≡ drop_subscription sub st
unfolding remove_subscription subscription_check_access
remove_mine id client user sub st e e' mine = ground arith

remove_other :
    (id client : ℕ) (user : Text) (sub : Subscription) (st : Discovery)
    → lookup client st.clients ≡ some user
    → lookup id st.subscriptions ≡ some sub
    → nat_beq client sub.client_id ≡ false
    → remove_subscription id client st ≡ (raised Error.permission_error, st)
unfolding remove_subscription subscription_check_access
remove_other id client user sub st e e' other = ground arith

-- Removing a subscription, for a client that is connected, leaves a valid state with the
-- subscriptions of before less that one, and the same clients. An error of sd.py leaves a valid
-- state; no `KeyError` is raised and no assertion fails.
pub remove_subscription-Ensures :
    (id client : ℕ) (user : Text) (st : Discovery)
    → IsValid st
    → lookup client st.clients ≡ some user
    → Ensures IsValid
        (λ _ st'. Left nothing st (erase id st.subscriptions) st')
        (remove_subscription id client st)
remove_subscription-Ensures id client user st h e =
    elim (Option-cases (lookup id st.subscriptions)) [
      | inl missing ↦
          subst (Ensures IsValid (λ _ st'. Left nothing st (erase id st.subscriptions) st'))
            (sym (remove_missing id client user st e missing)) h
      | inr (sub, there) ↦ elim (Bool-cases (nat_beq client sub.client_id)) [
        | inl mine ↦
            subst (Ensures IsValid (λ _ st'. Left nothing st (erase id st.subscriptions) st'))
              (sym (remove_mine id client user sub st e there mine))
              (subst
                (λ k.
                  Ensures IsValid (λ _ st'. Left nothing st (erase k st.subscriptions) st')
                    (drop_subscription sub st))
                (h.linked.under_id id sub there)
                (drop_subscription-Left IsValid nothing (λ u. refl) sub st h
                  (ap (λ k. lookup k st.subscriptions) (h.linked.under_id id sub there) ∙ there)))
        | inr other ↦
            subst (Ensures IsValid (λ _ st'. Left nothing st (erase id st.subscriptions) st'))
              (sym (remove_other id client user sub st e there other)) h
      ]
    ]

-- ===== src/Sd/Discovery/Publishing.antt =====
-- paf/sd.py, `ServiceDiscovery.publish`.
use paf.Prelude.{
  true, false, ℕ, ◌≡◌, refl, subst, sym, ap, ◌∙◌, Option, none, some, Text, text_beq, text_beq_iff,
  nat_eq, nat_beq, nat_beq_iff, ltb, not, ◌||◌, arith, inl, inr, Bool-cases, Option-cases,
  if◌then◌else◌,
}
use paf.Prelude.Dict.{lookup, is_some, lookup-insert}
use paf.Prelude.Action.{Result, raised, Error, bind}
use paf.Filter.Syntax.{Props}
use paf.Sd.Resources.{ResourceType, ResourceManager, allocate}
use paf.Sd.Resources.Ledger.{same}
use paf.Sd.Service
use paf.Sd.Service.{Generation, Service, ChangeType, Draft, copy, check_access}
use paf.Sd.Discovery.{
  Discovery, publish, republish, publish_new, update_service, commit_service, store, claim, advance,
  on_manager, service_commit,
}
use paf.Sd.Discovery.Commit.{resting, update_service_lem}
use paf.Sd.Discovery.Ensures.{Ensures, mono-Ensures, >>=-Ensures}
use paf.Sd.Discovery.Invariant.{IsAhead, IsValid, nothing}
use paf.Sd.Discovery.Invariant.Updates.{OnlyManager, allocate-Ensures}
use paf.Sd.Discovery.Invariant.Commits.{Kept, modified-Ensures, added-Ensures}

-- The properties and the time to live that a publication leaves: those that are published, or, where the
-- service is at that generation already, those that it has.
abbrev pub content : ℕ → Props → ℕ → Option Service → Props × ℕ
content generation props ttl none = (props, ttl)
content generation props ttl (some s) = elim (Service.cur s) [
  | none ↦ (props, ttl)
  | some g ↦ if nat_beq generation g.generation then (g.props, g.ttl) else (props, ttl)
]

-- What a client's publication of a service leaves: the service belongs to the client and its user, has
-- the generation that was published with its properties and time to live, and is no orphan; the other
-- services are those of before, and so are the clients and the subscriptions.
pub record IsPublished (id generation : ℕ) (props : Props) (ttl client : ℕ) (st st' : Discovery)
    : Type 0 where
  pub valid : IsValid st'
  pub service : Service
  pub published : Generation
  pub cur_eq : service.cur ≡ some published
  pub services_eq :
      (j : ℕ)
      → lookup j st'.services ≡ (if nat_beq id j then some service else lookup j st.services)
  pub content_eq :
      (published.props, published.ttl) ≡ content generation props ttl (lookup id st.services)
  pub generation_eq : published.generation ≡ generation
  pub client_eq : published.client_id ≡ client
  pub orphan_eq : published.orphan_since ≡ none
  pub user_eq : lookup client st.clients ≡ some published.user_id
  pub clients_eq : st'.clients ≡ st.clients
  pub subscriptions_eq : st'.subscriptions ≡ st.subscriptions

abbrev claimed : ℕ → Generation → Generation
claimed client g = record g { orphan_since = none; client_id = client }

abbrev advanced : ℕ → Props → ℕ → ℕ → Generation → Generation
advanced generation props ttl client g = record {
  generation = generation;
  props = props;
  ttl = ttl;
  orphan_since = none;
  client_id = client;
  user_id = g.user_id;
}

claim_eq :
    (id : ℕ) (prev : Option Generation) (g : Generation) (client : ℕ) (st : Discovery)
    → let s : Service = resting id (some g) (claimed client g) in
      update_service id (resting id prev g) (claim client) st
      ≡ service_commit ChangeType.modified s (store id s st)
claim_eq id prev g client st =
    update_service_lem id prev g (claimed client g) (claim client) st (λ d e. rw e refl)

advance_eq :
    (id : ℕ) (prev : Option Generation) (g : Generation) (generation : ℕ) (props : Props)
    (ttl client : ℕ) (st : Discovery)
    → let s : Service = resting id (some g) (advanced generation props ttl client g) in
      update_service id (resting id prev g) (advance generation props ttl client) st
      ≡ service_commit ChangeType.modified s (store id s st)
advance_eq id prev g generation props ttl client st =
    update_service_lem id prev g (advanced generation props ttl client g)
      (advance generation props ttl client) st (λ d e. rw e refl)

module _ (id generation : ℕ) (props : Props) (ttl client : ℕ) (st : Discovery)
    (h : IsValid st) where
  abbrev Publishes : Result (Unit {0}) × Discovery → Type 0
  Publishes = Ensures IsValid (λ _ st'. IsPublished id generation props ttl client st st')

  stored-Publishes :
      (rm : ResourceManager) (prev : Option Generation) (g : Generation)
      → lookup client st.clients ≡ some g.user_id
      → (g.props, g.ttl) ≡ content generation props ttl (lookup id st.services)
      → g.generation ≡ generation
      → g.client_id ≡ client
      → g.orphan_since ≡ none
      → (x : Result (Unit {0}) × Discovery)
      → Ensures IsValid
          (λ _ st'.
            IsAhead nothing nothing st'
            × Kept (store id (resting id prev g) (record st { manager = rm })) st')
          x
      → Publishes x
  stored-Publishes rm prev g user ep eg ec eo x h' =
      let s : Service = resting id prev g in
      mono-Ensures IsValid
        (λ _ y. IsAhead nothing nothing y × Kept (store id s (record st { manager = rm })) y)
        (λ _ y. IsPublished id generation props ttl client st y)
        (λ _ y (v, (_, c, subs, sv)). record {
          valid = v;
          service = s;
          published = g;
          cur_eq = refl;
          services_eq = λ j. ap (lookup j) sv ∙ lookup-insert id j s st.services;
          content_eq = ep;
          generation_eq = eg;
          client_eq = ec;
          orphan_eq = eo;
          user_eq = user;
          clients_eq = c;
          subscriptions_eq = subs;
        })
        x h'

  -- A service that is published again as it stands.
  unchanged-Publishes :
      (prev : Option Generation) (g : Generation)
      → lookup id st.services ≡ some (resting id prev g)
      → lookup client st.clients ≡ some g.user_id
      → (g.props, g.ttl) ≡ content generation props ttl (lookup id st.services)
      → g.generation ≡ generation
      → g.client_id ≡ client
      → g.orphan_since ≡ none
      → IsPublished id generation props ttl client st st
  unchanged-Publishes prev g e user ep eg ec eo = record {
    valid = h;
    service = resting id prev g;
    published = g;
    cur_eq = refl;
    services_eq = λ j. ground (arith, nat_beq_iff id j);
    content_eq = ep;
    generation_eq = eg;
    client_eq = ec;
    orphan_eq = eo;
    user_eq = user;
    clients_eq = refl;
    subscriptions_eq = refl;
  }

  same_content :
      (prev : Option Generation) (g : Generation)
      → lookup id st.services ≡ some (resting id prev g)
      → nat_beq generation g.generation ≡ true
      → (g.props, g.ttl) ≡ content generation props ttl (lookup id st.services)
  same_content prev g e same_ = rw (e, same_) refl

  new_content :
      (prev : Option Generation) (g : Generation)
      → lookup id st.services ≡ some (resting id prev g)
      → nat_beq generation g.generation ≡ false
      → (props, ttl) ≡ content generation props ttl (lookup id st.services)
  new_content prev g e differs = rw (e, differs) refl

  republish-Publishes :
      (prev : Option Generation) (g : Generation)
      → lookup id st.services ≡ some (resting id prev g)
      → lookup client st.clients ≡ some g.user_id
      → Publishes (republish id generation props ttl client (resting id prev g) g st)
  unfolding republish
  republish-Publishes prev g e user = elim (Bool-cases (nat_beq generation g.generation)) [
    | inl same_ ↦ elim (Bool-cases (not (nat_beq g.client_id client) || is_some g.orphan_since)) [
      | inl back ↦
          rw (same_, back)
            (subst Publishes (sym (claim_eq id prev g client st)) (
              stored-Publishes st.manager (some g) (claimed client g) user
                (same_content prev g e same_) (ground (arith, nat_beq_iff generation g.generation))
                refl refl _
                (modified-Ensures IsValid nothing nothing st id prev g (claimed client g) h e
                  refl)))
      | inr still ↦
          rw (same_, still)
            (unchanged-Publishes prev g e user (same_content prev g e same_)
              (ground (arith, nat_beq_iff generation g.generation))
              (ground (arith, nat_beq_iff g.client_id client)) (ground arith))
    ]
    | inr differs ↦ elim (Bool-cases (ltb g.generation generation)) [
      | inl newer ↦
          rw (differs, newer)
            (subst Publishes (sym (advance_eq id prev g generation props ttl client st)) (
              stored-Publishes st.manager (some g) (advanced generation props ttl client g) user
                (new_content prev g e differs) refl refl refl _
                (modified-Ensures IsValid nothing nothing st id prev g
                  (advanced generation props ttl client g) h e refl)))
      | inr older ↦ rw (differs, older) h
    ]
  ]

  abbrev first : Text → Generation
  first user = record {
    generation = generation;
    props = props;
    ttl = ttl;
    orphan_since = none;
    client_id = client;
    user_id = user;
  }

  publish_new-Publishes :
      (user : Text)
      → lookup client st.clients ≡ some user
      → lookup id st.services ≡ none
      → Publishes (publish_new id generation props ttl client user st)
  unfolding publish_new Service.add commit_service Service.commit
  publish_new-Publishes user known e =
      >>=-Ensures IsValid (λ _ st'. OnlyManager nothing (same user ResourceType.service) st st')
        (λ _ st'. IsPublished id generation props ttl client st st')
        (on_manager (allocate user ResourceType.service)) _ st
        (allocate-Ensures user ResourceType.service st h)
        (λ _ st' (rm, eq, b).
          subst
            (λ (x : Discovery). Publishes (
              service_commit ChangeType.added (resting id none (first user))
                (store id (resting id none (first user)) x)))
            (sym eq)
            (stored-Publishes rm none (first user) known (ap (content generation props ttl) (sym e))
              refl refl refl _
              (added-Ensures IsValid (record st { manager = rm }) id (first user)
                (record {
                  timed = h.timed;
                  balanced = b;
                  linked = record {
                    clients = h.linked.clients;
                    subscriptions = h.linked.subscriptions;
                    under_id = h.linked.under_id;
                    owner = h.linked.owner;
                  };
                })
                e)))

  existing-Publishes :
      (user : Text) (s : Service)
      → lookup client st.clients ≡ some user
      → lookup id st.services ≡ some s
      → Publishes (
          bind
            (check_access user s)
            (λ _. elim (Service.cur s) [
              | none ↦ (raised Error.attribute_error, st)
              | some g ↦ republish id generation props ttl client s g st
            ])
            (λ e. (raised e, st)))
  unfolding check_access
  existing-Publishes user s known e =
      let (g, rest) = h.timed.at_rest id s e in
      subst
        (λ (x : Service). Publishes (
          bind (check_access user x)
            (λ _. elim (Service.cur x) [
              | none ↦ (raised Error.attribute_error, st)
              | some g' ↦ republish id generation props ttl client x g' st
            ])
            (λ err. (raised err, st))))
        (sym rest)
        (elim (Bool-cases (text_beq user g.user_id)) [
          | inl owner ↦ rw owner (
              republish-Publishes s.prev g (e ∙ ap some rest)
                (known ∙ ap some ((text_beq_iff user g.user_id).0 owner)))
          | inr other ↦ rw other h
        ])

  publish_unknown :
      lookup client st.clients ≡ none
      → publish id generation props ttl client st ≡ (raised Error.not_found_error, st)
  unfolding publish
  publish_unknown e = ground arith

  publish_new_eq :
      (user : Text)
      → lookup client st.clients ≡ some user
      → lookup id st.services ≡ none
      → publish id generation props ttl client st
        ≡ publish_new id generation props ttl client user st
  unfolding publish
  publish_new_eq user e new = ground arith

  publish_existing_eq :
      (user : Text) (s : Service)
      → lookup client st.clients ≡ some user
      → lookup id st.services ≡ some s
      → publish id generation props ttl client st
        ≡ bind
            (check_access user s)
            (λ _. elim (Service.cur s) [
              | none ↦ (raised Error.attribute_error, st)
              | some g ↦ republish id generation props ttl client s g st
            ])
            (λ err. (raised err, st))
  unfolding publish
  publish_existing_eq user s e old = ground arith

  -- A publication, of a new service or of one that is claimed again or advanced, leaves the state as
  -- `IsPublished` says where it returns. An error of sd.py leaves a valid state. Nothing is said of the
  -- state where a `TypeError` or an `AttributeError` stops the server.
  pub publish-Publishes : Publishes (publish id generation props ttl client st)
  publish-Publishes = elim (Option-cases (lookup client st.clients)) [
    | inl e ↦ subst Publishes (sym (publish_unknown e)) h
    | inr (user, e) ↦ elim (Option-cases (lookup id st.services)) [
      | inl new ↦
          subst Publishes (sym (publish_new_eq user e new)) (publish_new-Publishes user e new)
      | inr (s, old) ↦
          subst Publishes (sym (publish_existing_eq user s e old)) (existing-Publishes user s e old)
    ]
  ]

-- ===== src/Sd/Discovery/Bystanders.antt =====
-- paf/sd.py, `ServiceDiscovery`: the methods that leave the dict of clients alone, however they end.
pub mod Unpublishing
pub mod Subscribing
use paf.Prelude.{
  ℕ, ◌≡◌, refl, ap, ◌∙◌, Bool, true, false, not, ◌||◌, Option, none, some, List, [], ◌∷◌, Text,
  nat_eq, nat_beq, ltb, if◌then◌else◌,
}
use paf.Prelude.Dict.{Dict, lookup, insert, erase, is_some}
use paf.Prelude.Action.{
  Result, ok, raised, Error, bind, ◌>>=◌, ◌>>◌, or_raise, lift, raise_if, gets, pure,
  modify as modify_state,
}
use paf.Filter.Syntax.{Filter, Props}
use paf.Sd.Resources.{ResourceType, allocate, deallocate}
use paf.Sd.Service
use paf.Sd.Timeouts
use paf.Sd.Service.{Generation, Service, ChangeType, new_service, check_access, getter, is_orphan}
use paf.Sd.Subscription.{Subscription, MatchType, notify, subscription_check_access}
use paf.Sd.Discovery.{
  Discovery, Method, on_manager, service_commit, commit_service, update_service, store, republish,
  publish_new, publish, unpublish_service, Call, unpublish, create_subscription,
  remove_subscription, drop_subscription, activate_subscription, notify_services, called,
  get_user_id, claim, advance, introduce, unpublish_services, purge_orphans,
}
use paf.Sd.Discovery.Commit.{Commits, service_commit-Commits}

-- The outcome has these clients.
abbrev pub HasClients : {A : Type 0} → Dict ℕ Text → Result A × Discovery → Type 0
HasClients clients x = Discovery.clients x.1 ≡ clients

abbrev pub LeavesClients : {A : Type 0} → Method A → Type 0
LeavesClients m = (st : Discovery) → HasClients st.clients (m st)

module _ {A B : Type 0} (clients : Dict ℕ Text) where
  bind-HasClients :
      (r : Result A) (f : A → Result B × Discovery) (g : Error → Result B × Discovery)
      → ((a : A) → HasClients clients (f a))
      → ((e : Error) → HasClients clients (g e))
      → HasClients clients (bind r f g)
  bind-HasClients (ok a) f g h k = h a
  bind-HasClients (raised e) f g h k = k e

  option-HasClients :
      (o : Option A) (y : Result B × Discovery) (f : A → Result B × Discovery)
      → HasClients clients y
      → ((a : A) → HasClients clients (f a))
      → HasClients clients (elim o as (λ _. Result B × Discovery) [ none ↦ y | some a ↦ f a ])
  option-HasClients none y f h k = h
  option-HasClients (some a) y f h k = k a

module _ {B : Type 0} (clients : Dict ℕ Text) where
  if-HasClients :
      (b : Bool) (m k : Method B) (st : Discovery)
      → HasClients clients (m st)
      → HasClients clients (k st)
      → HasClients clients ((if b then m else k) st)
  if-HasClients true m k st h j = h
  if-HasClients false m k st h j = j

module _ {A B : Type 0} where
  pub >>=-LeavesClients :
      (m : Method A) (f : A → Method B)
      → LeavesClients m
      → ((a : A) → LeavesClients (f a))
      → LeavesClients (m >>= f)
  >>=-LeavesClients m f h k st = go (m st) (h st)
    where
      go :
          (x : Result A × Discovery)
          → HasClients st.clients x
          → HasClients {A = B} st.clients
              (let (r, s) = x in elim r [ ok a ↦ f a s | raised e ↦ (raised e, s) ])
      go (ok a, s) e = k a s ∙ e
      go (raised err, s) e = e

service_commit-LeavesClients : (c : ChangeType) (s : Service) → LeavesClients (service_commit c s)
service_commit-LeavesClients c s st = go (service_commit c s st) (service_commit-Commits c s st)
  where
    go : (x : Result (Unit {0}) × Discovery) → Commits c s st x → HasClients st.clients x
    go (ok _, st') (q, cs, m, e) = ap (λ (d : Discovery). d.clients) e
    go (raised err, st') (cs, e, m) = ap (λ (d : Discovery). d.clients) e

pub commit_service-HasClients :
    (put : Service → Discovery → Discovery) (s : Service) (st : Discovery)
    → ((s' : Service) → (put s' st).clients ≡ st.clients)
    → HasClients st.clients (commit_service put s st)
unfolding commit_service
commit_service-HasClients put s st h =
    bind-HasClients st.clients (Service.commit s) _ _
      (λ (c, s'). service_commit-LeavesClients c s' (put s' st) ∙ h s') (λ e. h s)

update_service-LeavesClients :
    (id : ℕ) (s : Service) (body : Service → Result Service)
    → LeavesClients (update_service id s body)
unfolding update_service
update_service-LeavesClients id s body st =
    bind-HasClients st.clients (Service.modify s) _ _
      (λ s₁.
        bind-HasClients st.clients (body s₁) _ _
          (λ s₂. commit_service-HasClients (store id) s₂ st (λ s'. refl))
          (λ e. bind-HasClients st.clients (Service.rollback s₁) _ _ (λ s₂. refl) (λ e'. refl)))
      (λ e. refl)

republish-LeavesClients :
    (id generation : ℕ) (props : Props) (ttl client : ℕ) (s : Service) (g : Generation)
    → LeavesClients (republish id generation props ttl client s g)
unfolding republish
republish-LeavesClients id generation props ttl client s g st =
    if-HasClients st.clients (nat_beq generation g.generation) _ _ st
      (if-HasClients st.clients (not (nat_beq g.client_id client) || is_orphan g) _ _ st
        (update_service-LeavesClients id s (claim client) st) refl)
      (if-HasClients st.clients (ltb g.generation generation) _ _ st
        (update_service-LeavesClients id s (advance generation props ttl client) st) refl)

abbrev new_service_commit : ℕ → ℕ → Props → ℕ → ℕ → Text → Method (Unit {0})
new_service_commit id generation props ttl client user st =
    bind (Service.add (new_service id))
      (λ s₁.
        bind (introduce generation props ttl client user s₁) (λ s₂. commit_service (store id) s₂ st)
          (λ e. (raised e, st)))
      (λ e. (raised e, st))

new_service_commit-LeavesClients :
    (id generation : ℕ) (props : Props) (ttl client : ℕ) (user : Text)
    → LeavesClients (new_service_commit id generation props ttl client user)
new_service_commit-LeavesClients id generation props ttl client user st =
    bind-HasClients st.clients (Service.add (new_service id)) _ _
      (λ s₁.
        bind-HasClients st.clients (introduce generation props ttl client user s₁) _ _
          (λ s₂. commit_service-HasClients (store id) s₂ st (λ s'. refl)) (λ e. refl))
      (λ e. refl)

publish_new-LeavesClients :
    (id generation : ℕ) (props : Props) (ttl client : ℕ) (user : Text)
    → LeavesClients (publish_new id generation props ttl client user)
unfolding publish_new
publish_new-LeavesClients id generation props ttl client user =
    >>=-LeavesClients (on_manager (allocate user ResourceType.service))
      (λ _. new_service_commit id generation props ttl client user) (λ st. refl)
      (λ _. new_service_commit-LeavesClients id generation props ttl client user)

pub or_raise-LeavesClients :
    {A : Type 0} (o : Option A) (e : Error) (st : Discovery)
    → HasClients {A = A} st.clients (or_raise o e st)
or_raise-LeavesClients none e st = refl
or_raise-LeavesClients (some a) e st = refl

pub get_user_id-LeavesClients : (client : ℕ) → LeavesClients (get_user_id client)
get_user_id-LeavesClients client st =
    or_raise-LeavesClients (lookup client st.clients) Error.not_found_error st

module _ (id generation : ℕ) (props : Props) (ttl client : ℕ) where
  abbrev published_by : Text → Method (Unit {0})
  published_by user st = elim (lookup id (Discovery.services st)) [
    | none ↦ publish_new id generation props ttl client user st
    | some s ↦
        bind (check_access user s)
          (λ _. elim (Service.cur s) [
            | none ↦ (raised Error.attribute_error, st)
            | some g ↦ republish id generation props ttl client s g st
          ])
          (λ e. (raised e, st))
  ]

  published_by-LeavesClients : (user : Text) → LeavesClients (published_by user)
  published_by-LeavesClients user st =
      option-HasClients st.clients (lookup id st.services) _ _
        (publish_new-LeavesClients id generation props ttl client user st)
        (λ s.
          bind-HasClients st.clients (check_access user s) _ _
            (λ _.
              option-HasClients st.clients (Service.cur s) _ _ refl
                (λ g. republish-LeavesClients id generation props ttl client s g st))
            (λ e. refl))

  pub publish-LeavesClients : LeavesClients (publish id generation props ttl client)
  unfolding publish
  publish-LeavesClients =
      >>=-LeavesClients (get_user_id client) published_by (get_user_id-LeavesClients client)
        published_by-LeavesClients

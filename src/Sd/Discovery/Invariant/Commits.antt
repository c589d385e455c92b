-- ===== src/Sd/Discovery/Invariant/Commits.antt =====
-- How a committed change of a service moves the invariant.
use paf.Prelude.{ℕ, ◌≡◌, refl, subst, sym, ap, ◌∙◌, Option, none, some, List, Text, nat_eq, arith}
use paf.Prelude.Dict.{lookup, erase}
use paf.Prelude.Action.{Result, ok, raised}
use paf.Sd.Resources.{ResourceType, ResourceManager}
use paf.Sd.Resources.Ledger.{same}
use paf.Sd.Timeouts.{Timeouts}
use paf.Sd.Service.{Generation, Service, ChangeType, orphan_timeout}
use paf.Sd.Discovery.{Discovery, Call, store, service_commit}
use paf.Sd.Discovery.Commit.{resting, maintained, Commits, service_commit-Commits}
use paf.Sd.Discovery.Ensures.{Ensures, fatal-Ensures}
use paf.Sd.Discovery.Orphans.{IsTimed, retimed-Tracks, insert-IsTimed, erase-IsTimed, timeout_of}
use paf.Sd.Discovery.Invariant.{IsBalanced, IsLinked, IsAhead, Offset, nothing, count}
use paf.Sd.Discovery.Invariant.Updates.{update_service-IsBalanced, insert_service-IsBalanced}

-- The parts of the state that a commit does not touch.
abbrev pub Kept : Discovery → Discovery → Type 0
Kept st st' =
    (st'.manager ≡ st.manager)
    × (st'.clients ≡ st.clients)
    × (st'.subscriptions ≡ st.subscriptions)
    × (st'.services ≡ st.services)

abbrev after : Discovery → Timeouts → List Call → Discovery
after st q cs = record st { orphans = q; calls = cs }

count-after :
    (st : Discovery) (q : Timeouts) (cs : List Call) (u : Text) (t : ResourceType)
    → count u t (after st q cs) ≡ count u t st
count-after st q cs u ResourceType.client = refl
count-after st q cs u _ = refl

-- The invariant, with its services and its queue as they stand after a commit.
after-IsAhead :
    (d c : Offset) (st : Discovery) (q : Timeouts) (cs : List Call)
    → IsTimed st.services q
    → IsBalanced d c st
    → IsLinked st
    → IsAhead d c (after st q cs)
after-IsAhead d c st q cs timed b linked = record {
  timed = timed;
  balanced = record {
    valid = b.valid;
    balance = λ w s. omega (arith, count-after st q cs w s, b.balance w s);
  };
  linked = record {
    clients = linked.clients;
    subscriptions = linked.subscriptions;
    under_id = linked.under_id;
    owner = linked.owner;
  };
}

module _ (E : Discovery → Type 0) (d c : Offset) (st : Discovery) (ch : ChangeType)
    (s : Service) where
  -- Where the queue as it is maintained fits the services, the commit ends in the invariant.
  pub commit-Ensures :
      ((q : Timeouts)
        → maintained ch s.service_id s.prev s.cur st.orphans ≡ ok q
        → IsTimed st.services q)
      → IsBalanced d c st
      → IsLinked st
      → Ensures E (λ _ st'. IsAhead d c st' × Kept st st') (service_commit ch s st)
  commit-Ensures timed b linked = go (service_commit ch s st) (service_commit-Commits ch s st)
    where
      go :
          (x : Result (Unit {0}) × Discovery)
          → Commits ch s st x
          → Ensures E (λ _ st'. IsAhead d c st' × Kept st st') x
      go (ok _, st') (q, cs, m, eq) =
          subst (λ x. IsAhead d c x × Kept st x) (sym eq)
            (after-IsAhead d c st q cs (timed q m) b linked, (refl, refl, refl, refl))
      go (raised e, st') (cs, eq, fatal) =
          fatal-Ensures {A = Unit {0}} E (λ _ x. IsAhead d c x × Kept st x) e st' fatal

-- A modification that keeps the user of the service.
pub modified-Ensures :
    (E : Discovery → Type 0) (d c : Offset) (st : Discovery) (id : ℕ) (prev : Option Generation)
    (g g' : Generation)
    → IsAhead d c st
    → lookup id st.services ≡ some (resting id prev g)
    → g'.user_id ≡ g.user_id
    → let s : Service = resting id (some g) g' in
      Ensures E
        (λ _ st'. IsAhead d c st' × Kept (store id s st) st')
        (service_commit ChangeType.modified s (store id s st))
modified-Ensures E d c st id prev g g' h e user =
    let s : Service = resting id (some g) g' in
    commit-Ensures E d c (store id s st) ChangeType.modified s
      (λ q m. insert-IsTimed id st.services st.orphans q h.timed (some g) g' (
        retimed-Tracks id st.orphans h.timed.sorted h.timed.once (orphan_timeout g)
          (orphan_timeout g') q (h.timed.timed id ∙ ap timeout_of e) m))
      (update_service-IsBalanced d st id (resting id prev g) s (λ w. rw user refl) e c h.balanced)
      (record {
        clients = h.linked.clients;
        subscriptions = h.linked.subscriptions;
        under_id = h.linked.under_id;
        owner = h.linked.owner;
      })

-- A service that enters the dict with its first generation.
pub added-Ensures :
    (E : Discovery → Type 0) (st : Discovery) (id : ℕ) (g : Generation)
    → IsAhead nothing (same g.user_id ResourceType.service) st
    → lookup id st.services ≡ none
    → let s : Service = resting id none g in
      Ensures E
        (λ _ st'. IsAhead nothing nothing st' × Kept (store id s st) st')
        (service_commit ChangeType.added s (store id s st))
added-Ensures E st id g h e =
    let s : Service = resting id none g in
    commit-Ensures E nothing nothing (store id s st) ChangeType.added s
      (λ q m. insert-IsTimed id st.services st.orphans q h.timed none g (
        retimed-Tracks id st.orphans h.timed.sorted h.timed.once none (orphan_timeout g) q
          (h.timed.timed id ∙ ap timeout_of e) m))
      (insert_service-IsBalanced nothing st id s g refl e h.balanced)
      (record {
        clients = h.linked.clients;
        subscriptions = h.linked.subscriptions;
        under_id = h.linked.under_id;
        owner = h.linked.owner;
      })

-- A service that has left the dict, after it was given back to the manager.
pub removed-Ensures :
    (E : Discovery → Type 0) (st : Discovery) (rm : ResourceManager) (id : ℕ)
    (prev : Option Generation) (g : Generation)
    → IsTimed st.services st.orphans
    → IsLinked st
    → lookup id st.services ≡ some (resting id prev g)
    → let st₁ : Discovery = record st { manager = rm; services = erase id st.services } in
      let s : Service = record {
        service_id = id;
        prev = some g;
        cur = none;
        next = none;
        change = none;
      } in
      IsBalanced nothing nothing st₁
      → Ensures E
          (λ _ st'. IsAhead nothing nothing st' × Kept st₁ st')
          (service_commit ChangeType.removed s st₁)
removed-Ensures E st rm id prev g timed linked e b =
    commit-Ensures E nothing nothing (record st { manager = rm; services = erase id st.services })
      ChangeType.removed
      (record { service_id = id; prev = some g; cur = none; next = none; change = none })
      (λ q m. erase-IsTimed id st.services st.orphans q timed (
        retimed-Tracks id st.orphans timed.sorted timed.once (orphan_timeout g) none q
          (timed.timed id ∙ ap timeout_of e) m))
      b
      (record {
        clients = linked.clients;
        subscriptions = linked.subscriptions;
        under_id = linked.under_id;
        owner = linked.owner;
      })

-- ===== src/Sd/Discovery/Commit.antt =====
-- paf/sd.py, `Service.commit` and `_service_commit`: what a committed change does to the state.
use paf.Prelude.{
  ℕ, ◌≡◌, refl, subst, sym, Bool, true, Option, none, some, List, [], ◌∷◌, ◌++◌, arith,
}
use paf.Prelude.Dict.{Dict}
use paf.Prelude.Action.{Result, ok, raised, bind, OnlyFatal, bind-OnlyFatal, attribute_error}
use paf.Sd.Timeouts
use paf.Sd.Timeouts.{Timeouts}
use paf.Sd.Service
use paf.Sd.Service.{
  Generation, Service, Draft, ChangeType, is_orphan, orphan_timeout, copy, consistent,
}
use paf.Filter.Syntax.{Filter}
use paf.Filter.Match.{matches}
use paf.Filter.Fatal.{matches-OnlyFatal}
use paf.Sd.Subscription.{Subscription, MatchType, notify, matches_generation, subscription_matches}
use paf.Sd.Discovery.{
  Discovery, Call, service_change_cb, store, called, notify_all, maintain_orphans, service_commit,
  commit_service, update_service,
}

-- A service that no `with` block is changing.
abbrev pub resting : ℕ → Option Generation → Generation → Service
resting id prev g = record {
  service_id = id;
  prev = prev;
  cur = some g;
  next = none;
  change = none;
}

-- `_maintain_orphans` on the queue alone, from the timeout before to the one after.
abbrev pub retimed : ℕ → Option ℕ → Option ℕ → Timeouts → Result Timeouts
retimed id none none q = ok q
retimed id none (some t) q = ok (Timeouts.add id t q)
retimed id (some _) none q = ok (Timeouts.remove id q)
retimed id (some _) (some _) q = raised attribute_error

abbrev pub maintained :
    ChangeType → ℕ → Option Generation → Option Generation → Timeouts → Result Timeouts
maintained ChangeType.added id prev none q = raised attribute_error
maintained ChangeType.added id prev (some g) q = retimed id none (orphan_timeout g) q
maintained ChangeType.modified id none cur q = raised attribute_error
maintained ChangeType.modified id (some p) none q = raised attribute_error
maintained ChangeType.modified id (some p) (some g) q =
    retimed id (orphan_timeout p) (orphan_timeout g) q
maintained ChangeType.removed id none cur q = raised attribute_error
maintained ChangeType.removed id (some p) cur q = retimed id (orphan_timeout p) none q

maintain_orphans_lem :
    (c : ChangeType) (id : ℕ) (prev cur : Option Generation) (st : Discovery)
    → maintain_orphans c id prev cur st
      ≡ bind
          (maintained c id prev cur st.orphans)
          (λ q. (ok tt, record st { orphans = q }))
          (λ e. (raised e, st))
unfolding maintain_orphans
maintain_orphans_lem ChangeType.added id prev none st = refl
maintain_orphans_lem ChangeType.added id prev (some g) st = ground arith
maintain_orphans_lem ChangeType.modified id none cur st = refl
maintain_orphans_lem ChangeType.modified id (some p) none st = refl
maintain_orphans_lem ChangeType.modified id (some p) (some g) st = ground arith
maintain_orphans_lem ChangeType.removed id none cur st = refl
maintain_orphans_lem ChangeType.removed id (some p) cur st = ground arith

matches_generation-OnlyFatal :
    (sub : Subscription) (g : Option Generation) → OnlyFatal (matches_generation sub g)
unfolding matches_generation subscription_matches
matches_generation-OnlyFatal sub none = tt
matches_generation-OnlyFatal sub (some g) = go sub.filter
  where
    go :
        (o : Option Filter)
        → OnlyFatal {A = Bool} (elim o [ none ↦ ok true | some f ↦ matches f (Generation.props g) ])
    go none = tt
    go (some f) = matches-OnlyFatal f g.props

notify-OnlyFatal : (sub : Subscription) (c : ChangeType) (s : Service) → OnlyFatal (notify sub c s)
unfolding notify
notify-OnlyFatal sub ChangeType.added s =
    bind-OnlyFatal (matches_generation sub s.cur) _ (matches_generation-OnlyFatal sub s.cur)
      (λ b. tt)
notify-OnlyFatal sub ChangeType.modified s =
    bind-OnlyFatal (matches_generation sub s.prev) _ (matches_generation-OnlyFatal sub s.prev) (λ b.
      bind-OnlyFatal (matches_generation sub s.cur) _ (matches_generation-OnlyFatal sub s.cur)
        (λ b'. tt))
notify-OnlyFatal sub ChangeType.removed s =
    bind-OnlyFatal (matches_generation sub s.prev) _ (matches_generation-OnlyFatal sub s.prev)
      (λ b. tt)

retimed-OnlyFatal : (id : ℕ) (was is : Option ℕ) (q : Timeouts) → OnlyFatal (retimed id was is q)
retimed-OnlyFatal id none none q = tt
retimed-OnlyFatal id none (some t) q = tt
retimed-OnlyFatal id (some w) none q = tt
retimed-OnlyFatal id (some w) (some t) q = tt

maintained-OnlyFatal :
    (c : ChangeType) (id : ℕ) (prev cur : Option Generation) (q : Timeouts)
    → OnlyFatal (maintained c id prev cur q)
maintained-OnlyFatal ChangeType.added id prev none q = tt
maintained-OnlyFatal ChangeType.added id prev (some g) q =
    retimed-OnlyFatal id none (orphan_timeout g) q
maintained-OnlyFatal ChangeType.modified id none cur q = tt
maintained-OnlyFatal ChangeType.modified id (some p) none q = tt
maintained-OnlyFatal ChangeType.modified id (some p) (some g) q =
    retimed-OnlyFatal id (orphan_timeout p) (orphan_timeout g) q
maintained-OnlyFatal ChangeType.removed id none cur q = tt
maintained-OnlyFatal ChangeType.removed id (some p) cur q =
    retimed-OnlyFatal id (orphan_timeout p) none q

-- Only the history of calls has changed, and what was raised is fatal.
abbrev pub OnlyCalls : Discovery → Result (Unit {0}) × Discovery → Type 0
OnlyCalls st (r, st') = (cs : List Call) × (st' ≡ record st { calls = cs }) × OnlyFatal r

notify_all-cons :
    (id : ℕ) (sub : Subscription) (subs : Dict ℕ Subscription) (c : ChangeType) (s : Service)
    (st : Discovery)
    → notify_all ((id, sub) ∷ subs) c s st
      ≡ bind (notify sub c s) (λ t. notify_all subs c s (called sub s t st)) (λ e. (raised e, st))
unfolding notify_all
notify_all-cons id sub subs c s st = ground arith

-- The calls that the callbacks have got are all that the notifications change.
pub notify_all-calls :
    (subs : Dict ℕ Subscription) (c : ChangeType) (s : Service) (st : Discovery)
    → OnlyCalls st (notify_all subs c s st)
notify_all-calls [] c s st = unfold notify_all in (st.calls, refl, tt)
notify_all-calls ((id, sub) ∷ subs) c s st =
    rw (notify_all-cons id sub subs c s st)
      (go (λ st'. notify_all-calls subs c s st') (notify sub c s) (notify-OnlyFatal sub c s))
  where
    go :
        ((st' : Discovery) → OnlyCalls st' (notify_all subs c s st'))
        → (r : Result (Option MatchType)) → OnlyFatal r
        → OnlyCalls st (bind r (λ t. notify_all subs c s (called sub s t st)) (λ e. (raised e, st)))
    go rest (raised e) h = (st.calls, refl, h)
    go rest (ok none) h = rest st
    go rest (ok (some t)) h = rest (called sub s (some t) st)

-- What a commit has done, by how it ended.
abbrev pub Commits : ChangeType → Service → Discovery → Result (Unit {0}) × Discovery → Type 0
Commits c s st (ok _, st') =
    (q : Timeouts) × (cs : List Call) × (maintained c s.service_id s.prev s.cur st.orphans ≡ ok q)
    × (st' ≡ record st { orphans = q; calls = cs })
Commits c s st (raised e, st') = OnlyCalls st (raised e, st')

pub update_service_lem :
    (id : ℕ) (prev : Option Generation) (g g' : Generation) (body : Service → Result Service)
    (st : Discovery)
    → ((d : Draft)
        → d ≡ copy g
        → body (record {
          service_id = id;
          prev = prev;
          cur = some g;
          next = some d;
          change = some ChangeType.modified;
        })
          ≡ ok (record {
            service_id = id;
            prev = prev;
            cur = some g;
            next = some (copy g');
            change = some ChangeType.modified;
          }))
    → let s : Service = resting id (some g) g' in
      update_service id (resting id prev g) body st
      ≡ service_commit ChangeType.modified s (store id s st)
unfolding update_service Service.modify commit_service Service.commit
update_service_lem id prev g g' body st h = rw (h (copy g) refl)

service_commit_eq :
    (c : ChangeType) (s : Service) (st st₁ : Discovery) (r : Result (Unit {0}))
    → notify_all st.subscriptions c s st ≡ (r, st₁)
    → service_commit c s st
      ≡ bind r
          (λ _.
            bind
              (maintained c s.service_id s.prev s.cur st₁.orphans)
              (λ q. (
                ok tt,
                record st₁ { orphans = q; calls = st₁.calls ++ service_change_cb c s ∷ [] },
              ))
              (λ e. (raised e, st₁)))
          (λ e. (raised e, st₁))
unfolding service_commit
service_commit_eq c s st st₁ r e =
    ground (arith, maintain_orphans_lem c s.service_id s.prev s.cur st₁)

module _ (c : ChangeType) (s : Service) (st : Discovery) where
  maintained-Commits :
      (cs : List Call) (m : Result Timeouts)
      → maintained c s.service_id s.prev s.cur st.orphans ≡ m
      → OnlyFatal m
      → Commits c s st (
          bind m
            (λ q. (ok tt, record st { orphans = q; calls = cs ++ service_change_cb c s ∷ [] }))
            (λ e. (raised e, record st { calls = cs })))
  maintained-Commits cs (ok q) h f = (q, _, h, refl)
  maintained-Commits cs (raised e) h f = (cs, refl, f)

  notified-Commits :
      (r : Result (Unit {0})) (st₁ : Discovery) (cs : List Call)
      → notify_all st.subscriptions c s st ≡ (r, st₁)
      → record st { calls = cs } ≡ st₁
      → OnlyFatal r
      → Commits c s st (service_commit c s st)
  notified-Commits r st₁ cs e h f =
      subst (Commits c s st) (sym (service_commit_eq c s st st₁ r e)) (
        subst
          (λ x. Commits c s st (
            bind r
              (λ _.
                bind (maintained c s.service_id s.prev s.cur x.orphans)
                  (λ q. (
                    ok tt,
                    record x { orphans = q; calls = x.calls ++ service_change_cb c s ∷ [] },
                  ))
                  (λ err. (raised err, x)))
              (λ err. (raised err, x))))
          h (go r f))
    where
      go :
          (r : Result (Unit {0}))
          → OnlyFatal r
          → Commits c s st (
              bind r
                (λ _.
                  bind
                    (maintained c s.service_id s.prev s.cur st.orphans)
                    (λ q.
                      (ok tt, record st { orphans = q; calls = cs ++ service_change_cb c s ∷ [] }))
                    (λ err. (raised err, record st { calls = cs })))
                (λ err. (raised err, record st { calls = cs })))
      go (ok _) h =
          maintained-Commits cs (maintained c s.service_id s.prev s.cur st.orphans) refl
            (maintained-OnlyFatal c s.service_id s.prev s.cur st.orphans)
      go (raised err) h = (cs, refl, h)

-- A commit that succeeds has maintained the queue of orphans, and changed nothing else but the
-- history of calls; one that raises has changed no more than that history.
pub service_commit-Commits :
    (c : ChangeType) (s : Service) (st : Discovery) → Commits c s st (service_commit c s st)
service_commit-Commits c s st =
    let told = notify_all-calls st.subscriptions c s st in
    notified-Commits c s st (notify_all st.subscriptions c s st).0
      (notify_all st.subscriptions c s st).1 told.0 refl (sym told.1) told.2

-- ===== src/Sd/Discovery/Defs.antt =====
-- paf/sd.py, `ServiceDiscovery`: its state, and how a change of a service is committed.
use paf.Prelude.{
  ℕ, Bool, true, false, Option, none, some, List, [], ◌∷◌, ◌++◌, Text, nat_eq, if◌then◌else◌,
}
use paf.Prelude.Dict.{Dict, insert}
use paf.Prelude.Action.{
  Action, Result, raised, bind, ◌>>=◌, ◌>>◌, lift, pure, raise, modify as modify_state,
  attribute_error,
}
use paf.Sd.Resources.{ResourceManager}
use paf.Sd.Timeouts
use paf.Sd.Timeouts.{Timeouts}
use paf.Sd.Service
use paf.Sd.Service.{Generation, Service, ChangeType, is_orphan, orphan_timeout}
use paf.Sd.Subscription.{Subscription, MatchType, notify}

-- A call of a callback: `match_cb` of a subscription, and `service_change_cb`.
pub data Call : Type 0 where
  match_cb : ℕ → MatchType → Service → Call
  service_change_cb : ChangeType → Service → Call

-- `calls` is the history of the callbacks' calls, the first one first. The callbacks of the server
-- send messages and set a timer: they change none of these fields.
pub record Discovery : Type 0 where
  pub manager : ResourceManager
  pub services : Dict ℕ Service
  pub subscriptions : Dict ℕ Subscription
  pub clients : Dict ℕ Text
  pub orphans : Timeouts
  pub calls : List Call

abbrev pub Method : Type 0 → Type 0
Method A = Action Discovery A

abbrev pub on_manager : {A : Type 0} → Action ResourceManager A → Method A
on_manager m st = let (r, rm) = m (Discovery.manager st) in (r, record st { manager = rm })

abbrev pub on_orphans : (Timeouts → Timeouts) → Discovery → Discovery
on_orphans f st = record st { orphans = f st.orphans }

abbrev pub call : Call → Discovery → Discovery
call c st = record st { calls = st.calls ++ c ∷ [] }

abbrev pub store : ℕ → Service → Discovery → Discovery
store id s st = record st { services = insert id s st.services }

abbrev pub called : Subscription → Service → Option MatchType → Discovery → Discovery
called sub s none st = st
called sub s (some t) st = call (match_cb sub.sub_id t s) st

-- `for subscription in self.subscriptions.values(): subscription.notify(change, service)`
unfoldable pub notify_all : Dict ℕ Subscription → ChangeType → Service → Method (Unit {0})
notify_all [] c s = pure tt
notify_all ((_, sub) ∷ subs) c s = do
  t ← lift (notify sub c s)
  modify_state (called sub s t)
  notify_all subs c s

-- `self.orphans.add(service.service_id, service.orphan_timeout())`
abbrev pub add_orphan : ℕ → Option ℕ → Method (Unit {0})
add_orphan id none = raise attribute_error
add_orphan id (some t) = modify_state (on_orphans (Timeouts.add id t))

-- The branches of `_maintain_orphans` for a modification, by `was_orphan` and `is_orphan`. In the
-- last one the code calls `service.had_orphan_timeout`, which `Service` does not have.
abbrev pub maintain_modified : ℕ → Bool → Bool → Option ℕ → Method (Unit {0})
maintain_modified id true false timeout = modify_state (on_orphans (Timeouts.remove id))
maintain_modified id false true timeout = add_orphan id timeout
maintain_modified id true true timeout = raise attribute_error
maintain_modified id false false timeout = pure tt

-- `_maintain_orphans`, on the service's previous and current generations.
unfoldable pub maintain_orphans :
    ChangeType → ℕ → Option Generation → Option Generation → Method (Unit {0})
maintain_orphans ChangeType.added id prev none = raise attribute_error
maintain_orphans ChangeType.added id prev (some g) =
    if is_orphan g then add_orphan id (orphan_timeout g) else pure tt
maintain_orphans ChangeType.modified id none cur = raise attribute_error
maintain_orphans ChangeType.modified id (some p) none = raise attribute_error
maintain_orphans ChangeType.modified id (some p) (some g) =
    maintain_modified id (is_orphan p) (is_orphan g) (orphan_timeout g)
maintain_orphans ChangeType.removed id none cur = raise attribute_error
maintain_orphans ChangeType.removed id (some p) cur =
    if is_orphan p then modify_state (on_orphans (Timeouts.remove id)) else pure tt

-- `_service_commit`
unfoldable pub service_commit : ChangeType → Service → Method (Unit {0})
service_commit c s = do
  λ (st : Discovery). notify_all st.subscriptions c s st
  maintain_orphans c s.service_id s.prev s.cur
  modify_state (call (service_change_cb c s))

-- `commit`, with the service stored where the caller's reference to it is.
unfoldable pub commit_service : (Service → Discovery → Discovery) → Service → Method (Unit {0})
commit_service put s st =
    bind (Service.commit s) (λ (c, s'). service_commit c s' (put s' st)) (λ e. (raised e, put s st))

-- `with service.modify(): body`, of the service that the dict holds under the id.
unfoldable pub update_service : ℕ → Service → (Service → Result Service) → Method (Unit {0})
update_service id s body st =
    bind (Service.modify s)
      (λ s₁.
        bind (body s₁) (λ s₂. commit_service (store id) s₂ st)
          (λ e.
            bind (Service.rollback s₁) (λ s₂. (raised e, store id s₂ st)) (λ e'. (raised e', st))))
      (λ e. (raised e, st))

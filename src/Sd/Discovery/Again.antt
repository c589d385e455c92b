-- ===== src/Sd/Discovery/Again.antt =====
-- paf/sd.py, `_maintain_orphans`: what becomes of an orphan that is made an orphan again.
use paf.Prelude.{ℕ, ◌≡◌, sym, subst, Option, some, nat_eq, nat_beq_iff, arith}
use paf.Prelude.Dict.{lookup}
use paf.Prelude.Action.{Result, ok, raised, IsFatal}
use paf.Sd.Service.{Generation, Service, ChangeType}
use paf.Sd.Discovery.{Discovery, store, orphan_service}
use paf.Sd.Discovery.Commit.{resting, Commits, service_commit-Commits}
use paf.Sd.Discovery.Disconnect.{orphaned, orphan_eq, orphan_resting_eq}
use paf.Sd.Discovery.Invariant.{nothing}

-- The call does not return, and what it raises stops the server.
abbrev pub IsStopped : Result (Unit {0}) × Discovery → Type 0
IsStopped (ok _, st) = ⊥
IsStopped (raised e, st) = IsFatal e

commit_again :
    (id : ℕ) (since now : ℕ) (g : Generation) (st : Discovery) (x : Result (Unit {0}) × Discovery)
    → Commits ChangeType.modified (resting id (some (orphaned since g)) (orphaned now g)) st x
    → IsStopped x
commit_again id since now g st (ok _, st') (q, cs, m, eq) = ground arith
commit_again id since now g st (raised e, st') (cs, eq, fatal) = fatal

-- The round of `client_disconnect` at a service of the client that is an orphan already never returns:
-- it raises a `TypeError` or an `AttributeError`, which stops the server.
pub orphan_service-IsStopped :
    (now client id since : ℕ) (prev : Option Generation) (g : Generation) (st : Discovery)
    → lookup id st.services ≡ some (resting id prev (orphaned since g))
    → g.client_id ≡ client
    → IsStopped (orphan_service now client id st)
orphan_service-IsStopped now client id since prev g st e mine =
    let s : Service = resting id (some (orphaned since g)) (orphaned now g) in
    subst IsStopped (sym (orphan_resting_eq nothing now client id prev (orphaned since g) st e)) (
      rw ((nat_beq_iff g.client_id client).1 mine) (
        subst IsStopped (sym (orphan_eq id now prev (orphaned since g) st)) (
          commit_again id since now g (store id s st) _
            (service_commit-Commits ChangeType.modified s (store id s st)))))

-- ===== src/EventLoop/Leaving.antt =====
-- paf/eventloop.py: a source that is removed.
use paf.Prelude.{
  ℕ, ◌≡◌, refl, sym, ap, subst, ◌∙◌, Bool, true, false, not, Option, none, some, nat_eq,
  nat_beq_iff, arith, if◌then◌else◌,
}
use paf.Prelude.Dict.{
  IsUnique, lookup, insert, erase, contains, lookup-insert, lookup-erase_ne, IsUnique-erase,
}
use paf.Prelude.Action.{Result, ok, raised, Error, ◌>>=◌, ◌>>◌, gets, modify, raise_if}
use paf.EventLoop.{Source, EventLoop, Method, store, unregister_timeout, unregister_active, remove}
use paf.EventLoop.Synced.{IsSynced, Matches, fd_entry, active_flag, unset, unset-IsUnique}
use paf.EventLoop.Listening.{Ends, release, unset-heard, unregister_fd-Ends, unset-none, unset-some}
use paf.EventLoop.Matching.{leave-Matches}

-- No exception is raised.
abbrev IsOk : Result (Unit {0}) → Type 0
IsOk (ok a) = Unit
IsOk (raised e) = ⊥

abbrev pub Returns : (EventLoop → Type 0) → Result (Unit {0}) × EventLoop → Type 0
Returns P (ok a, loop) = P loop
Returns P (raised e, loop) = ⊥

Returns-Ends :
    (P : EventLoop → Type 0) (x : Result (Unit {0}) × EventLoop) → IsOk x.0 → Ends P x → Returns P x
Returns-Ends P (ok a, y) fine h = h
Returns-Ends P (raised err, y) fine h = fine

module _ (s : ℕ) (src : Source) (loop : EventLoop) (e : lookup s loop.sources ≡ some src)
    (h : IsSynced loop) where
  abbrev unlistened : Source
  unlistened = record src { listener = false }

  left :
      (o : Option (ℕ × Option ℕ))
      → lookup s loop.source_fd ≡ o
      → Matches (unset s loop.source_fd) (release o loop.fd_source)
  left none e = subst (λ d. Matches d loop.fd_source) (unset-none s loop.source_fd e) h.owners
  left (some (fd, mask)) e =
      subst (λ d. Matches d (erase fd loop.fd_source)) (unset-some s fd mask loop.source_fd e)
        (leave-Matches s fd mask loop.source_fd loop.fd_source h.owners h.unique_fds h.unique_owners
          e)

  released-IsUnique : (o : Option (ℕ × Option ℕ)) → IsUnique (release o loop.fd_source)
  released-IsUnique none = h.unique_owners
  released-IsUnique (some (fd, mask)) = IsUnique-erase fd loop.fd_source h.unique_owners

  removed : IsSynced (record loop {
    sources = insert s unlistened loop.sources;
    source_handler = erase s loop.source_handler;
    source_timeout = unset s loop.source_timeout;
    source_active = unset s loop.source_active;
    source_fd = unset s loop.source_fd;
    fd_source = release (lookup s loop.source_fd) loop.fd_source;
  })
  removed = record {
    timeouts = λ j.
        unset-heard (λ x. x.timeout) s j unlistened loop.sources loop.source_timeout
          h.unique_timeouts refl (h.timeouts j);
    actives = λ j.
        unset-heard active_flag s j unlistened loop.sources loop.source_active h.unique_actives refl
          (h.actives j);
    fds = λ j.
        unset-heard fd_entry s j unlistened loop.sources loop.source_fd h.unique_fds refl (h.fds j);
    owners = left (lookup s loop.source_fd) refl;
    unique_fds = unset-IsUnique s loop.source_fd h.unique_fds;
    unique_owners = released-IsUnique (lookup s loop.source_fd);
    handled = λ j x e' hears. ground (
      arith,
      h.handled j x,
      lookup-insert s j unlistened loop.sources,
      lookup-erase_ne s j loop.source_handler,
      nat_beq_iff s j,
    );
    unique_timeouts = unset-IsUnique s loop.source_timeout h.unique_timeouts;
    unique_actives = unset-IsUnique s loop.source_active h.unique_actives;
  }

  unregister_timeout_eq :
      (x : EventLoop)
      → unregister_timeout s x ≡ record x { source_timeout = unset s x.source_timeout }
  unregister_timeout_eq x = go (contains s x.source_timeout)
    where
      go :
          (b : Bool)
          → (if b then record x { source_timeout = erase s x.source_timeout } else x)
            ≡ record x { source_timeout = if b then erase s x.source_timeout else x.source_timeout }
      go true = refl
      go false = refl

  unregister_active_eq :
      (x : EventLoop) → unregister_active s x ≡ record x { source_active = unset s x.source_active }
  unregister_active_eq x = go (contains s x.source_active)
    where
      go :
          (b : Bool)
          → (if b then record x { source_active = erase s x.source_active } else x)
            ≡ record x { source_active = if b then erase s x.source_active else x.source_active }
      go true = refl
      go false = refl

  -- What `remove` does behind the file descriptor.
  abbrev forget : Method (Unit {0})
  forget = do
    modify (λ (x : EventLoop). unregister_active s (unregister_timeout s x))
    raise_if (← gets (λ (x : EventLoop). not (contains s x.source_handler))) Error.key_error
    modify (λ (x : EventLoop). record x { source_handler = erase s x.source_handler })

  forget-Ends : Ends IsSynced (
      forget (record (store s unlistened loop) {
        source_fd = unset s loop.source_fd;
        fd_source = release (lookup s loop.source_fd) loop.fd_source;
      }))
  forget-Ends =
      let loop₁ : EventLoop = record (store s unlistened loop) {
        source_fd = unset s loop.source_fd;
        fd_source = release (lookup s loop.source_fd) loop.fd_source;
      } in
      let eq : unregister_active s (unregister_timeout s loop₁) ≡ record loop₁ {
        source_timeout = unset s loop.source_timeout;
        source_active = unset s loop.source_active;
      } =
        ap (unregister_active s) (unregister_timeout_eq loop₁)
        ∙ unregister_active_eq (record loop₁ { source_timeout = unset s loop.source_timeout }) in
      subst
        (λ (x : EventLoop). Ends IsSynced (
          (raise_if (not (contains s x.source_handler)) Error.key_error
              >> modify (λ (y : EventLoop). record y { source_handler = erase s y.source_handler }))
            x))
        (sym eq) (go (not (contains s loop.source_handler)))
    where
      go :
          (b : Bool)
          → Ends IsSynced (
              (raise_if b Error.key_error
                  >> modify
                      (λ (y : EventLoop). record y { source_handler = erase s y.source_handler }))
                (record (store s unlistened loop) {
                  source_fd = unset s loop.source_fd;
                  fd_source = release (lookup s loop.source_fd) loop.fd_source;
                  source_timeout = unset s loop.source_timeout;
                  source_active = unset s loop.source_active;
                }))
      go true = tt
      go false = removed

  forget-returns : (x : EventLoop) → contains s x.source_handler ≡ true → IsOk (forget x).0
  forget-returns x has =
      let eq : unregister_active s (unregister_timeout s x) ≡ record x {
        source_timeout = unset s x.source_timeout;
        source_active = unset s x.source_active;
      } =
        ap (unregister_active s) (unregister_timeout_eq x)
        ∙ unregister_active_eq (record x { source_timeout = unset s x.source_timeout }) in
      subst
        (λ (y : EventLoop).
          IsOk
            ((raise_if (not (contains s y.source_handler)) Error.key_error
                >> modify
                    (λ (z : EventLoop). record z { source_handler = erase s z.source_handler }))
              y).0)
        (sym eq) (go (contains s x.source_handler) has)
    where
      go :
          (b : Bool)
          → b ≡ true
          → IsOk
              ((raise_if (not b) Error.key_error
                  >> modify
                      (λ (z : EventLoop). record z { source_handler = erase s z.source_handler }))
                (record x {
                  source_timeout = unset s x.source_timeout;
                  source_active = unset s x.source_active;
                })).0
      go true _ = tt
      go false un = absurd (ground arith)

  handler_there : src.listener ≡ true → contains s loop.source_handler ≡ true
  handler_there hears = ground (arith, h.handled s src e hears)

  owner_there :
      (fd : ℕ) (mask : Option ℕ)
      → lookup s loop.source_fd ≡ some (fd, mask)
      → contains fd loop.fd_source ≡ true
  owner_there fd mask there = let owned = (h.owners fd s).1 mask there in ground (arith, owned)

  remove-returns : src.listener ≡ true → IsOk (remove s src loop).0
  unfolding remove
  remove-returns hears = go (lookup s loop.source_fd) refl
    where
      leaving :
          (fd : ℕ) (b : Bool)
          → b ≡ true
          → IsOk
              (((raise_if (not b) Error.key_error
                    >> modify (λ (x : EventLoop). record x { fd_source = erase fd x.fd_source }))
                  >> forget)
                (record (store s unlistened loop) { source_fd = erase s loop.source_fd })).0
      leaving fd true _ =
          forget-returns
            (record (store s unlistened loop) {
              source_fd = erase s loop.source_fd;
              fd_source = erase fd loop.fd_source;
            })
            (handler_there hears)
      leaving fd false un = absurd (ground arith)

      go :
          (o : Option (ℕ × Option ℕ))
          → lookup s loop.source_fd ≡ o
          → IsOk
              (((λ _. elim o as (λ _. Result (Unit {0}) × EventLoop) [
                | none ↦ (ok tt, store s unlistened loop)
                | some (fd, mask) ↦
                    (raise_if (not (contains fd loop.fd_source)) Error.key_error
                        >> modify
                            (λ (x : EventLoop). record x { fd_source = erase fd x.fd_source }))
                      (record (store s unlistened loop) { source_fd = erase s loop.source_fd })
              ])
                  >> forget)
                (store s unlistened loop)).0
      go none _ = forget-returns (store s unlistened loop) (handler_there hears)
      go (some (fd, mask)) there =
          leaving fd (contains fd loop.fd_source) (owner_there fd mask there)

  pub remove-IsSynced : src.listener ≡ true → Returns IsSynced (remove s src loop)
  unfolding remove
  remove-IsSynced hears =
      Returns-Ends IsSynced (remove s src loop) (remove-returns hears)
        (unregister_fd-Ends IsSynced s (store s unlistened loop) forget forget-Ends)

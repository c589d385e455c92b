-- ===== src/EventLoop/Members.antt =====
-- paf/eventloop.py: a source that is added.
use paf.Prelude.{ℕ, ◌≡◌, refl, sym, ap, subst, ◌∙◌, true, false, Option, none, some, nat_eq, arith}
use paf.Prelude.Dict.{IsUnique, lookup, insert, lookup-insert, IsUnique-insert}
use paf.Prelude.Action.{◌>>◌, modify}
use paf.EventLoop.{Source, EventLoop, Method, store, register_active, register_fd, add}
use paf.EventLoop.Synced.{IsSynced, Matches, entry, fd_entry, heard, active_flag, unheard}
use paf.EventLoop.Listening.{
  Adds, enter, occupy, enter-IsUnique, enter-heard, register_timeout_eq, register_active_eq,
  register_fd-Adds,
}
use paf.EventLoop.Matching.{enter-Matches}

module _ (s : ℕ) (src : Source) (loop : EventLoop) (e : lookup s loop.sources ≡ some src)
    (h : IsSynced loop) where
  heard_as :
      {V : Type 0} (field : Source → Option V)
      → src.listener ≡ false
      → heard field (lookup s loop.sources) ≡ none
  heard_as field deaf = ap (heard field) e ∙ unheard field src deaf

  abbrev listened : Source
  listened = record src { listener = true }

  -- What is free before a source with that file descriptor enters.
  abbrev IsFree : Option ℕ → Type 0
  IsFree o = (fd : ℕ) → o ≡ some fd → lookup fd loop.fd_source ≡ none

  entered :
      (o mask : Option ℕ)
      → lookup s loop.source_fd ≡ none
      → IsFree o
      → Matches (enter s (entry o mask) loop.source_fd) (occupy s o loop.fd_source)
  entered none mask new free = h.owners
  entered (some fd) mask new free =
      enter-Matches s fd mask loop.source_fd loop.fd_source h.owners new (free fd refl)

  occupied-IsUnique : (o : Option ℕ) → IsUnique (occupy s o loop.fd_source)
  occupied-IsUnique none = h.unique_owners
  occupied-IsUnique (some fd) = IsUnique-insert fd s loop.fd_source h.unique_owners

  added :
      (handler : ℕ)
      → src.listener ≡ false
      → IsFree src.fd
      → IsSynced (record loop {
        sources = insert s listened loop.sources;
        source_handler = insert s handler loop.source_handler;
        source_timeout = enter s src.timeout loop.source_timeout;
        source_active = enter s (active_flag src) loop.source_active;
        source_fd = enter s (fd_entry src) loop.source_fd;
        fd_source = occupy s src.fd loop.fd_source;
      })
  added handler deaf free = record {
    timeouts = λ j.
        enter-heard (λ x. x.timeout) s j listened loop.sources loop.source_timeout
          (h.timeouts s ∙ heard_as (λ x. x.timeout) deaf) refl (h.timeouts j);
    actives = λ j.
        enter-heard active_flag s j listened loop.sources loop.source_active
          (h.actives s ∙ heard_as active_flag deaf) refl (h.actives j);
    fds = λ j.
        enter-heard fd_entry s j listened loop.sources loop.source_fd
          (h.fds s ∙ heard_as fd_entry deaf) refl (h.fds j);
    owners = entered src.fd src.mask (h.fds s ∙ heard_as fd_entry deaf) free;
    unique_fds = enter-IsUnique s (fd_entry src) loop.source_fd h.unique_fds;
    unique_owners = occupied-IsUnique src.fd;
    handled = λ j x e' hears. ground (
      arith,
      h.handled j x,
      lookup-insert s j listened loop.sources,
      lookup-insert s j handler loop.source_handler,
    );
    unique_timeouts = enter-IsUnique s src.timeout loop.source_timeout h.unique_timeouts;
    unique_actives = enter-IsUnique s (active_flag src) loop.source_active h.unique_actives;
  }

  -- A source that the loop does not listen to is added, and the tables are in step with the sources
  -- again, those of file descriptors included; or the assertion fails, and then the tables have the file
  -- descriptor already. No other exception is raised, those of epoll aside.
  pub add-IsSynced :
      (handler : ℕ)
      → src.listener ≡ false
      → Adds src loop.fd_source IsSynced (add s handler src loop)
  unfolding add
  add-IsSynced handler deaf =
      let loop₀ : EventLoop = record loop {
        source_handler = insert s handler loop.source_handler;
      } in
      let loop₁ : EventLoop = record loop₀ {
        source_timeout = enter s src.timeout loop.source_timeout;
      } in
      let finish : Method (Unit {0}) =
        modify (λ (x : EventLoop). store s listened (register_active s src x)) in
      subst (λ (x : EventLoop). Adds src loop.fd_source IsSynced ((register_fd s src >> finish) x))
        (sym (register_timeout_eq s src loop₀))
        (register_fd-Adds IsSynced s src loop₁ finish (λ free.
          let loop₂ : EventLoop = record loop₁ {
            source_fd = enter s (fd_entry src) loop.source_fd;
            fd_source = occupy s src.fd loop.fd_source;
          } in
          subst (λ (x : EventLoop). IsSynced (store s listened x))
            (sym (register_active_eq s src loop₂)) (added handler deaf free)))

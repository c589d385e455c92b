-- ===== src/EventLoop/Listening.antt =====
-- paf/eventloop.py: `add` and `remove` keep the tables in step with the sources.
use paf.Prelude.{
  ℕ, ◌≡◌, refl, sym, ap, subst, ◌∙◌, Bool, true, false, not, Option, none, some, nat_eq, nat_beq,
  nat_beq_iff, arith, if◌then◌else◌,
}
use paf.Prelude.Dict.{
  Dict, lookup, insert, erase, contains, IsUnique, lookup-insert, IsUnique-insert,
}
use paf.Prelude.Action.{Result, ok, raised, Error, ◌>>=◌, ◌>>◌, pure, gets, modify, raise_if}
use paf.EventLoop.{
  Source, EventLoop, Method, register_timeout, register_active, register_fd, unregister_fd,
}
use paf.EventLoop.Synced.{
  fd_entry, entry, heard, heard-insert, active_flag, flag, unset, unset-lookup,
}

abbrev pub Ends : (EventLoop → Type 0) → Result (Unit {0}) × EventLoop → Type 0
Ends P (ok a, loop) = P loop
Ends P (raised e, loop) = Unit

-- An added source leaves a loop as `P` says, or the assertion fails, as the table has its file
-- descriptor already.
abbrev pub Adds : Source → Dict ℕ ℕ → (EventLoop → Type 0) → Result (Unit {0}) × EventLoop → Type 0
Adds src owners P (ok a, loop) = P loop
Adds src owners P (raised e, loop) =
    (e ≡ Error.assertion_error) × ((fd : ℕ) × (src.fd ≡ some fd) × (contains fd owners ≡ true))

module _ {V : Type 0} where
  abbrev pub enter : ℕ → Option V → Dict ℕ V → Dict ℕ V
  enter s o d = elim o [ none ↦ d | some v ↦ insert s v d ]

  enter-lookup :
      (s j : ℕ) (o : Option V) (d : Dict ℕ V)
      → lookup s d ≡ none
      → lookup j (enter s o d) ≡ (if nat_beq s j then o else lookup j d)
  enter-lookup s j none d new = ground (arith, new, nat_beq_iff s j)
  enter-lookup s j (some v) d new = lookup-insert s j v d

  pub enter-IsUnique : (s : ℕ) (o : Option V) (d : Dict ℕ V) → IsUnique d → IsUnique (enter s o d)
  enter-IsUnique s none d u = u
  enter-IsUnique s (some v) d u = IsUnique-insert s v d u

  pub enter-heard :
      (field : Source → Option V) (s j : ℕ) (src : Source) (sources : Dict ℕ Source) (d : Dict ℕ V)
      → lookup s d ≡ none
      → src.listener ≡ true
      → lookup j d ≡ heard field (lookup j sources)
      → lookup j (enter s (field src) d) ≡ heard field (lookup j (insert s src sources))
  enter-heard field s j src sources d new hears before =
      enter-lookup s j (field src) d new
      ∙ ground (arith, hears, before)
      ∙ sym (heard-insert field s j src sources)

  pub unset-heard :
      (field : Source → Option V) (s j : ℕ) (src : Source) (sources : Dict ℕ Source) (d : Dict ℕ V)
      → IsUnique d
      → src.listener ≡ false
      → lookup j d ≡ heard field (lookup j sources)
      → lookup j (unset s d) ≡ heard field (lookup j (insert s src sources))
  unset-heard field s j src sources d u deaf before =
      unset-lookup s j d u ∙ ground (arith, deaf, before) ∙ sym (heard-insert field s j src sources)

pub register_timeout_eq :
    (s : ℕ) (src : Source) (loop : EventLoop)
    → register_timeout s src loop
      ≡ record loop { source_timeout = enter s src.timeout loop.source_timeout }
register_timeout_eq s src loop = go src.timeout
  where
    go :
        (o : Option ℕ)
        → elim o as (λ _. EventLoop) [
          | none ↦ loop
          | some t ↦ record loop { source_timeout = insert s t loop.source_timeout }
        ]
          ≡ record loop { source_timeout = enter s o loop.source_timeout }
    go none = refl
    go (some t) = refl

pub register_active_eq :
    (s : ℕ) (src : Source) (loop : EventLoop)
    → register_active s src loop
      ≡ record loop { source_active = enter s (active_flag src) loop.source_active }
register_active_eq s src loop = go src.active
  where
    go :
        (b : Bool)
        → (if b then record loop { source_active = insert s tt loop.source_active } else loop)
          ≡ record loop { source_active = enter s (flag b) loop.source_active }
    go true = refl
    go false = refl

-- The owners of the file descriptors when a source enters with its own, and when one leaves.
abbrev pub occupy : ℕ → Option ℕ → Dict ℕ ℕ → Dict ℕ ℕ
occupy s o owners = elim o [ none ↦ owners | some fd ↦ insert fd s owners ]

abbrev pub release : Option (ℕ × Option ℕ) → Dict ℕ ℕ → Dict ℕ ℕ
release o owners = elim o [ none ↦ owners | some (fd, mask) ↦ erase fd owners ]

abbrev Enters : ℕ → Option ℕ → Option ℕ → EventLoop → Result (Unit {0}) × EventLoop → Type 0
Enters s o mask loop (ok a, y) =
    (y ≡ record loop {
      source_fd = enter s (entry o mask) loop.source_fd;
      fd_source = occupy s o loop.fd_source;
    })
    × ((fd : ℕ) → o ≡ some fd → lookup fd loop.fd_source ≡ none)
Enters s o mask loop (raised e, y) =
    (e ≡ Error.assertion_error) × ((fd : ℕ) × (o ≡ some fd) × (contains fd loop.fd_source ≡ true))

abbrev Registers : ℕ → Source → EventLoop → Result (Unit {0}) × EventLoop → Type 0
Registers s src loop x = Enters s src.fd src.mask loop x

free_fd :
    (fd fd' : ℕ) (owners : Dict ℕ ℕ)
    → contains fd owners ≡ false
    → some fd ≡ some fd'
    → lookup fd' owners ≡ none
free_fd fd fd' owners e same = ground arith

register_fd-Registers :
    (s : ℕ) (src : Source) (loop : EventLoop) → Registers s src loop (register_fd s src loop)
register_fd-Registers s src loop = go src.fd
  where
    entering :
        (fd : ℕ) (b : Bool)
        → contains fd loop.fd_source ≡ b
        → Enters s (some fd) src.mask loop (
            (raise_if b Error.assertion_error
                >> modify (λ (x : EventLoop). record x { fd_source = insert fd s x.fd_source }))
              (record loop { source_fd = insert s (fd, src.mask) loop.source_fd }))
    entering fd true e = (refl, (fd, refl, e))
    entering fd false e = (refl, λ fd' same. free_fd fd fd' loop.fd_source e same)

    go :
        (o : Option ℕ)
        → Enters s o src.mask loop (
            (elim o as (λ _. Method (Unit {0})) [
              | none ↦ pure tt
              | some fd ↦
                  modify (λ (x : EventLoop). record x {
                    source_fd = insert s (fd, src.mask) x.source_fd;
                  })
                  >> (gets (λ (x : EventLoop). contains fd x.fd_source) >>= λ b.
                      raise_if b Error.assertion_error
                      >> modify
                          (λ (x : EventLoop). record x { fd_source = insert fd s x.fd_source }))
            ])
              loop)
    go none = (refl, λ fd same. ground arith)
    go (some fd) = entering fd (contains fd loop.fd_source) refl

abbrev Leaves :
    Dict ℕ (ℕ × Option ℕ) → Dict ℕ ℕ → EventLoop → Result (Unit {0}) × EventLoop → Type 0
Leaves fds owners loop (ok a, y) = y ≡ record loop { source_fd = fds; fd_source = owners }
Leaves fds owners loop (raised e, y) = Unit

abbrev Unregisters : ℕ → EventLoop → Result (Unit {0}) × EventLoop → Type 0
Unregisters s loop x =
    Leaves (unset s loop.source_fd) (release (lookup s loop.source_fd) loop.fd_source) loop x

pub unset-none : (s : ℕ) (fds : Dict ℕ (ℕ × Option ℕ)) → lookup s fds ≡ none → fds ≡ unset s fds
unset-none s fds e = ground arith

pub unset-some :
    (s fd : ℕ) (mask : Option ℕ) (fds : Dict ℕ (ℕ × Option ℕ))
    → lookup s fds ≡ some (fd, mask)
    → erase s fds ≡ unset s fds
unset-some s fd mask fds e = ground arith

unregister_fd-Unregisters : (s : ℕ) (loop : EventLoop) → Unregisters s loop (unregister_fd s loop)
unregister_fd-Unregisters s loop = go (lookup s loop.source_fd) refl
  where
    leaving :
        (fd : ℕ) (b : Bool)
        → Leaves (erase s loop.source_fd) (erase fd loop.fd_source) loop (
            (raise_if b Error.key_error
                >> modify (λ (x : EventLoop). record x { fd_source = erase fd x.fd_source }))
              (record loop { source_fd = erase s loop.source_fd }))
    leaving fd true = tt
    leaving fd false = refl

    go :
        (o : Option (ℕ × Option ℕ))
        → lookup s loop.source_fd ≡ o
        → Leaves
            (unset s loop.source_fd)
            (release o loop.fd_source)
            loop
            (elim o as (λ _. Result (Unit {0}) × EventLoop) [
              | none ↦ (ok tt, loop)
              | some (fd, mask) ↦
                  (raise_if (not (contains fd loop.fd_source)) Error.key_error
                      >> modify (λ (x : EventLoop). record x { fd_source = erase fd x.fd_source }))
                    (record loop { source_fd = erase s loop.source_fd })
            ])
    go none e = ap (λ d. record loop { source_fd = d }) (unset-none s loop.source_fd e)
    go (some (fd, mask)) e =
        subst
          (λ d. Leaves d (erase fd loop.fd_source) loop (
            (raise_if (not (contains fd loop.fd_source)) Error.key_error
                >> modify (λ (x : EventLoop). record x { fd_source = erase fd x.fd_source }))
              (record loop { source_fd = erase s loop.source_fd })))
          (unset-some s fd mask loop.source_fd e) (leaving fd (not (contains fd loop.fd_source)))

-- Registering, and then the rest of a method.
pub register_fd-Adds :
    (P : EventLoop → Type 0) (s : ℕ) (src : Source) (loop : EventLoop) (f : Method (Unit {0}))
    → (((fd : ℕ) → src.fd ≡ some fd → lookup fd loop.fd_source ≡ none)
        → Adds src loop.fd_source P (
            f (record loop {
              source_fd = enter s (fd_entry src) loop.source_fd;
              fd_source = occupy s src.fd loop.fd_source;
            })))
    → Adds src loop.fd_source P ((register_fd s src >> f) loop)
register_fd-Adds P s src loop f k = go (register_fd s src loop) (register_fd-Registers s src loop)
  where
    go :
        (x : Result (Unit {0}) × EventLoop)
        → Registers s src loop x
        → Adds src loop.fd_source P (((λ _. x) >> f) loop)
    go (ok a, y) (e, free) = subst (λ z. Adds src loop.fd_source P (f z)) (sym e) (k free)
    go (raised err, y) taken = taken

pub unregister_fd-Ends :
    (P : EventLoop → Type 0) (s : ℕ) (loop : EventLoop) (f : Method (Unit {0}))
    → Ends P (
        f (record loop {
          source_fd = unset s loop.source_fd;
          fd_source = release (lookup s loop.source_fd) loop.fd_source;
        }))
    → Ends P ((unregister_fd s >> f) loop)
unregister_fd-Ends P s loop f k = go (unregister_fd s loop) (unregister_fd-Unregisters s loop)
  where
    go : (x : Result (Unit {0}) × EventLoop) → Unregisters s loop x → Ends P (((λ _. x) >> f) loop)
    go (ok a, y) e = subst (λ z. Ends P (f z)) (sym e) k
    go (raised err, y) _ = tt

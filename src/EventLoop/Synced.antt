-- ===== src/EventLoop/Synced.antt =====
-- paf/eventloop.py: the tables of timeouts, active sources and handlers agree with the sources.
use paf.Prelude.{
  ℕ, ◌≡◌, ◌≢◌, ◌⊎◌, refl, sym, ap, subst, ◌∙◌, Bool, true, false, Option, none, some, nat_eq,
  nat_beq, nat_beq_iff, arith, inl, inr, Bool-cases, if◌then◌else◌,
}
use paf.Prelude.Dict.{
  Dict, lookup, insert, erase, contains, IsUnique, lookup-insert, lookup-erase_ne,
  lookup-erase_self, IsUnique-insert, IsUnique-erase,
}
use paf.EventLoop.{
  Source, EventLoop, store, changed_timeout, set_timeout, changed_active, set_active, option_beq,
  bool_beq,
}

abbrev pub flag : Bool → Option (Unit {0})
flag true = some tt
flag false = none

-- What the tables have to hold for a source.
abbrev pub heard : {V : Type 0} → (Source → Option V) → Option Source → Option V
heard field none = none
heard field (some src) = if src.listener then field src else none

abbrev pub active_flag : Source → Option (Unit {0})
active_flag src = flag src.active

abbrev pub entry : Option ℕ → Option ℕ → Option (ℕ × Option ℕ)
entry none mask = none
entry (some fd) mask = some (fd, mask)

abbrev pub fd_entry : Source → Option (ℕ × Option ℕ)
fd_entry src = entry src.fd src.mask

-- The source that a file descriptor has is the one that has it.
abbrev pub Matches : Dict ℕ (ℕ × Option ℕ) → Dict ℕ ℕ → Type 0
Matches fds owners =
    (fd s : ℕ)
    → (lookup fd owners ≡ some s → (mask : Option ℕ) × (lookup s fds ≡ some (fd, mask)))
      × ((mask : Option ℕ) → lookup s fds ≡ some (fd, mask) → lookup fd owners ≡ some s)

-- A source stands in the tables with its timeout, with its file descriptor, and as active, exactly while
-- the loop listens to it, and it has a handler then. The two tables of file descriptors match.
pub record IsSynced (loop : EventLoop) : Type 0 where
  pub timeouts :
      (s : ℕ) → lookup s loop.source_timeout ≡ heard (λ src. src.timeout) (lookup s loop.sources)
  pub actives : (s : ℕ) → lookup s loop.source_active ≡ heard active_flag (lookup s loop.sources)
  pub fds : (s : ℕ) → lookup s loop.source_fd ≡ heard fd_entry (lookup s loop.sources)
  pub owners : Matches loop.source_fd loop.fd_source
  pub unique_fds : IsUnique loop.source_fd
  pub unique_owners : IsUnique loop.fd_source
  pub handled :
      (s : ℕ) (src : Source)
      → lookup s loop.sources ≡ some src
      → src.listener ≡ true
      → lookup s loop.source_handler ≢ none
  pub unique_timeouts : IsUnique loop.source_timeout
  pub unique_actives : IsUnique loop.source_active

module _ {V : Type 0} where
  abbrev pub unset : ℕ → Dict ℕ V → Dict ℕ V
  unset s d = if contains s d then erase s d else d

  -- A table when a source is taken out and put in again.
  abbrev reset : ℕ → Option V → Dict ℕ V → Dict ℕ V
  reset s o d = elim o [ none ↦ unset s d | some v ↦ insert s v (unset s d) ]

  pub unset-lookup :
      (s j : ℕ) (d : Dict ℕ V)
      → IsUnique d
      → lookup j (unset s d) ≡ (if nat_beq s j then none else lookup j d)
  unset-lookup s j d u =
      ground (arith, lookup-erase_self s d u, lookup-erase_ne s j d, nat_beq_iff s j)

  pub unset-IsUnique : (s : ℕ) (d : Dict ℕ V) → IsUnique d → IsUnique (unset s d)
  unset-IsUnique s d u = go (contains s d)
    where
      go : (b : Bool) → IsUnique (if b then erase s d else d)
      go true = IsUnique-erase s d u
      go false = u

  reset-lookup :
      (s j : ℕ) (o : Option V) (d : Dict ℕ V)
      → IsUnique d
      → lookup j (reset s o d) ≡ (if nat_beq s j then o else lookup j d)
  reset-lookup s j none d u = unset-lookup s j d u
  reset-lookup s j (some v) d u =
      ground (arith, lookup-insert s j v (unset s d), unset-lookup s j d u)

  reset-IsUnique : (s : ℕ) (o : Option V) (d : Dict ℕ V) → IsUnique d → IsUnique (reset s o d)
  reset-IsUnique s none d u = unset-IsUnique s d u
  reset-IsUnique s (some v) d u = IsUnique-insert s v (unset s d) (unset-IsUnique s d u)

changed_timeout_eq :
    (s : ℕ) (src : Source) (loop : EventLoop)
    → src.listener ≡ true
    → changed_timeout s src loop
      ≡ record loop { source_timeout = reset s src.timeout loop.source_timeout }
changed_timeout_eq s src loop hears = rw hears (go src.timeout (contains s loop.source_timeout))
  where
    go :
        (o : Option ℕ) (b : Bool)
        → elim o as (λ _. EventLoop) [
          | none ↦ if b then record loop { source_timeout = erase s loop.source_timeout } else loop
          | some t ↦
              let x : EventLoop =
                (if b
                  then record loop { source_timeout = erase s loop.source_timeout }
                  else loop) in
              record x { source_timeout = insert s t x.source_timeout }
        ]
          ≡ record loop {
            source_timeout = elim o as (λ _. Dict ℕ ℕ) [
              | none ↦ if b then erase s loop.source_timeout else loop.source_timeout
              | some t ↦ insert s t (if b then erase s loop.source_timeout else loop.source_timeout)
            ];
          }
    go none true = refl
    go none false = refl
    go (some t) true = refl
    go (some t) false = refl

changed_active_eq :
    (s : ℕ) (src : Source) (loop : EventLoop)
    → src.listener ≡ true
    → changed_active s src loop
      ≡ record loop { source_active = reset s (active_flag src) loop.source_active }
changed_active_eq s src loop hears = rw hears (go src.active (contains s loop.source_active))
  where
    go :
        (a b : Bool)
        → (let x : EventLoop =
              (if b then record loop { source_active = erase s loop.source_active } else loop) in
            if a then record x { source_active = insert s tt x.source_active } else x)
          ≡ record loop {
            source_active = elim (flag a) as (λ _. Dict ℕ (Unit {0})) [
              | none ↦ if b then erase s loop.source_active else loop.source_active
              | some t ↦ insert s t (if b then erase s loop.source_active else loop.source_active)
            ];
          }
    go false true = refl
    go false false = refl
    go true true = refl
    go true false = refl

pub heard-insert :
    {V : Type 0} (field : Source → Option V) (s j : ℕ) (src : Source) (sources : Dict ℕ Source)
    → heard field (lookup j (insert s src sources))
      ≡ (if nat_beq s j then heard field (some src) else heard field (lookup j sources))
heard-insert field s j src sources =
    ap (heard field) (lookup-insert s j src sources) ∙ go (nat_beq s j)
  where
    go :
        (b : Bool)
        → heard field (if b then some src else lookup j sources)
          ≡ (if b then heard field (some src) else heard field (lookup j sources))
    go true = refl
    go false = refl

-- A field that changes, and its table with it.
reset-heard :
    {V : Type 0} (field : Source → Option V) (s j : ℕ) (src : Source) (sources : Dict ℕ Source)
    (d : Dict ℕ V)
    → IsUnique d
    → src.listener ≡ true
    → lookup j d ≡ heard field (lookup j sources)
    → lookup j (reset s (field src) d) ≡ heard field (lookup j (insert s src sources))
reset-heard field s j src sources d u hears before =
    reset-lookup s j (field src) d u
    ∙ ground (arith, hears, before)
    ∙ sym (heard-insert field s j src sources)

-- One that stays, or that nobody listens to.
same-heard :
    {V : Type 0} (field : Source → Option V) (s j : ℕ) (src src' : Source) (sources : Dict ℕ Source)
    → lookup s sources ≡ some src
    → heard field (some src') ≡ heard field (some src)
    → heard field (lookup j (insert s src' sources)) ≡ heard field (lookup j sources)
same-heard field s j src src' sources e same =
    heard-insert field s j src' sources ∙ ground (arith, nat_beq_iff s j, e, same)

handled-insert :
    (s : ℕ) (src src' : Source) (loop : EventLoop)
    → IsSynced loop
    → lookup s loop.sources ≡ some src
    → src'.listener ≡ src.listener
    → (j : ℕ) (x : Source) → lookup j (insert s src' loop.sources) ≡ some x
    → x.listener ≡ true
    → lookup j loop.source_handler ≢ none
handled-insert s src src' loop h e same j x e' hears =
    go (nat_beq s j) refl (sym (lookup-insert s j src' loop.sources) ∙ e')
  where
    go :
        (b : Bool)
        → nat_beq s j ≡ b
        → (if b then some src' else lookup j loop.sources) ≡ some x
        → lookup j loop.source_handler ≢ none
    go false _ before = h.handled j x before hears
    go true here now =
        h.handled j src (subst (λ k. lookup k loop.sources ≡ some src) ((nat_beq_iff s j).0 here) e)
          (sym same ∙ cc)

silent_timeout :
    (s : ℕ) (src : Source) (loop : EventLoop)
    → src.listener ≡ false
    → changed_timeout s src loop ≡ loop
silent_timeout s src loop deaf = ground arith

silent_active :
    (s : ℕ) (src : Source) (loop : EventLoop)
    → src.listener ≡ false
    → changed_active s src loop ≡ loop
silent_active s src loop deaf = ground arith

pub unheard :
    {V : Type 0} (field : Source → Option V) (src : Source)
    → src.listener ≡ false
    → heard field (some src) ≡ none
unheard field src deaf = ground arith

module _ (s : ℕ) (src : Source) (loop : EventLoop) (e : lookup s loop.sources ≡ some src)
    (h : IsSynced loop) where
  -- A timeout that is set or cleared on a source keeps the tables in step with the sources, whether
  -- the loop listens to the source or not.
  pub set_timeout-IsSynced : (timeout : Option ℕ) → IsSynced (set_timeout s timeout src loop)
  unfolding set_timeout
  set_timeout-IsSynced timeout = go (option_beq src.timeout timeout) (Bool-cases src.listener)
    where
      go :
          (b : Bool)
          → ((src.listener ≡ true) ⊎ (src.listener ≡ false))
          → IsSynced (
              if b
              then loop
              else changed_timeout s
                  (record src { timeout = timeout })
                  (store s (record src { timeout = timeout }) loop))
      go true _ = h
      go false (inl hears) =
          let new : Source = record src { timeout = timeout } in
          subst IsSynced (sym (changed_timeout_eq s new (store s new loop) hears)) (record {
            timeouts = λ j.
                reset-heard (λ x. x.timeout) s j new loop.sources loop.source_timeout
                  h.unique_timeouts hears (h.timeouts j);
            actives =
                λ j. h.actives j ∙ sym (same-heard active_flag s j src new loop.sources e refl);
            fds = λ j. h.fds j ∙ sym (same-heard fd_entry s j src new loop.sources e refl);
            owners = h.owners;
            unique_fds = h.unique_fds;
            unique_owners = h.unique_owners;
            handled = handled-insert s src new loop h e refl;
            unique_timeouts = reset-IsUnique s timeout loop.source_timeout h.unique_timeouts;
            unique_actives = h.unique_actives;
          })
      go false (inr deaf) =
          let new : Source = record src { timeout = timeout } in
          subst IsSynced (sym (silent_timeout s new (store s new loop) deaf)) (record {
            timeouts = λ j.
                h.timeouts j
                ∙ sym (
                    same-heard (λ x. x.timeout) s j src new loop.sources e
                      (unheard (λ x. x.timeout) new deaf
                        ∙ sym (unheard (λ x. x.timeout) src deaf)));
            actives =
                λ j. h.actives j ∙ sym (same-heard active_flag s j src new loop.sources e refl);
            fds = λ j. h.fds j ∙ sym (same-heard fd_entry s j src new loop.sources e refl);
            owners = h.owners;
            unique_fds = h.unique_fds;
            unique_owners = h.unique_owners;
            handled = handled-insert s src new loop h e refl;
            unique_timeouts = h.unique_timeouts;
            unique_actives = h.unique_actives;
          })

  -- So does a source that becomes active or inactive.
  pub set_active-IsSynced : (active : Bool) → IsSynced (set_active s active src loop)
  unfolding set_active
  set_active-IsSynced active = go (bool_beq src.active active) (Bool-cases src.listener)
    where
      go :
          (b : Bool)
          → ((src.listener ≡ true) ⊎ (src.listener ≡ false))
          → IsSynced (
              if b
              then loop
              else changed_active s
                  (record src { active = active })
                  (store s (record src { active = active }) loop))
      go true _ = h
      go false (inl hears) =
          let new : Source = record src { active = active } in
          subst IsSynced (sym (changed_active_eq s new (store s new loop) hears)) (record {
            timeouts = λ j.
                h.timeouts j ∙ sym (same-heard (λ x. x.timeout) s j src new loop.sources e refl);
            actives = λ j.
                reset-heard active_flag s j new loop.sources loop.source_active h.unique_actives
                  hears (h.actives j);
            fds = λ j. h.fds j ∙ sym (same-heard fd_entry s j src new loop.sources e refl);
            owners = h.owners;
            unique_fds = h.unique_fds;
            unique_owners = h.unique_owners;
            handled = handled-insert s src new loop h e refl;
            unique_timeouts = h.unique_timeouts;
            unique_actives = reset-IsUnique s (active_flag new) loop.source_active h.unique_actives;
          })
      go false (inr deaf) =
          let new : Source = record src { active = active } in
          subst IsSynced (sym (silent_active s new (store s new loop) deaf)) (record {
            timeouts = λ j.
                h.timeouts j ∙ sym (same-heard (λ x. x.timeout) s j src new loop.sources e refl);
            actives = λ j.
                h.actives j
                ∙ sym (
                    same-heard active_flag s j src new loop.sources e
                      (unheard active_flag new deaf ∙ sym (unheard active_flag src deaf)));
            fds = λ j. h.fds j ∙ sym (same-heard fd_entry s j src new loop.sources e refl);
            owners = h.owners;
            unique_fds = h.unique_fds;
            unique_owners = h.unique_owners;
            handled = handled-insert s src new loop h e refl;
            unique_timeouts = h.unique_timeouts;
            unique_actives = h.unique_actives;
          })

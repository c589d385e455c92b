-- ===== src/Sd/Discovery/Orphans.antt =====
-- paf/sd.py, `ServiceDiscovery`: the queue holds the orphans, each with its timeout.
use paf.Prelude.{
  ℕ, ◌≡◌, subst, inl, inr, Option, none, some, arith, nat_eq, nat_beq, nat_beq_iff, Bool-cases,
  if◌then◌else◌,
}
use paf.Prelude.Dict.{
  Dict, lookup, insert, erase, IsUnique, lookup-insert, lookup-erase_self, lookup-erase_ne,
  IsUnique-insert, IsUnique-erase,
}
use paf.Prelude.Action.{ok}
use paf.Sd.Timeouts
use paf.Sd.Timeouts.{Timeouts}
use paf.Sd.Timeouts.Order.{IsSorted, add-IsSorted, add-Finds, remove-IsSorted, remove-eq-erase}
use paf.Sd.Service.{Generation, Service, orphan_timeout}
use paf.Sd.Discovery.Commit.{resting, retimed}

-- The timeout that a service waits for, if it is an orphan.
abbrev pub timeout_of : Option Service → Option ℕ
timeout_of none = none
timeout_of (some s) = elim (Service.cur s) [ none ↦ none | some g ↦ orphan_timeout g ]

-- Every service in the dict is at rest under its own id, and the queue, in order, holds exactly the
-- orphans, each once and with its timeout.
pub record IsTimed (services : Dict ℕ Service) (q : Timeouts) : Type 0 where
  pub unique : IsUnique services
  pub at_rest :
      (id : ℕ) (s : Service)
      → lookup id services ≡ some s
      → (g : Generation) × (s ≡ resting id s.prev g)
  pub sorted : IsSorted q
  pub once : IsUnique q
  pub timed : (id : ℕ) → lookup id q ≡ timeout_of (lookup id services)

-- What maintaining the queue does to its lookups, from the timeout before to the one after.
pub record Tracks (id : ℕ) (timeout : Option ℕ) (q q' : Timeouts) : Type 0 where
  pub sorted : IsSorted q'
  pub once : IsUnique q'
  pub timed : (j : ℕ) → lookup j q' ≡ (if nat_beq id j then timeout else lookup j q)

module _ (id : ℕ) (q : Timeouts) (s : IsSorted q) (u : IsUnique q) where
  add-Tracks : (t : ℕ) → lookup id q ≡ none → Tracks id (some t) q (Timeouts.add id t q)
  add-Tracks t h = record {
    sorted = add-IsSorted id t q s;
    once = (add-Finds id t q u h).0;
    timed = (add-Finds id t q u h).1;
  }

  remove-Tracks : Tracks id none q (Timeouts.remove id q)
  remove-Tracks = record {
    sorted = remove-IsSorted id q s;
    once = rw (remove-eq-erase id q) (IsUnique-erase id q u);
    timed = λ j.
        rw (remove-eq-erase id q)
          (ground (arith, nat_beq_iff id j, lookup-erase_self id q u, lookup-erase_ne id j q));
  }

  keep-Tracks : lookup id q ≡ none → Tracks id none q q
  keep-Tracks h = record { sorted = s; once = u; timed = λ j. ground (arith, nat_beq_iff id j) }

  pub retimed-Tracks :
      (was is : Option ℕ) (q' : Timeouts)
      → lookup id q ≡ was
      → retimed id was is q ≡ ok q'
      → Tracks id is q q'
  retimed-Tracks none none q' h e = subst (Tracks id none q) (cc) (keep-Tracks h)
  retimed-Tracks none (some t) q' h e = subst (Tracks id (some t) q) (cc) (add-Tracks t h)
  retimed-Tracks (some w) none q' h e = subst (Tracks id none q) (cc) remove-Tracks
  retimed-Tracks (some w) (some t) q' h e = cc

module _ (id : ℕ) (services : Dict ℕ Service) (q q' : Timeouts) (timed : IsTimed services q) where
  -- A service is put under its id, and the queue follows.
  pub insert-IsTimed :
      (prev : Option Generation) (g : Generation)
      → Tracks id (orphan_timeout g) q q'
      → IsTimed (insert id (resting id prev g) services) q'
  insert-IsTimed prev g t = record {
    unique = IsUnique-insert id (resting id prev g) services timed.unique;
    at_rest = λ j s e. elim (Bool-cases (nat_beq id j)) [
      | inl same ↦
          (g, ground (arith, lookup-insert id j (resting id prev g) services, nat_beq_iff id j))
      | inr other ↦
          timed.at_rest j s (ground (arith, lookup-insert id j (resting id prev g) services))
    ];
    sorted = t.sorted;
    once = t.once;
    timed = λ j.
        ground (arith, t.timed j, timed.timed j, lookup-insert id j (resting id prev g) services);
  }

  pub erase-IsTimed : Tracks id none q q' → IsTimed (erase id services) q'
  erase-IsTimed t = record {
    unique = IsUnique-erase id services timed.unique;
    at_rest = λ j s e. timed.at_rest j s (
        ground (
          arith,
          nat_beq_iff id j,
          lookup-erase_self id services timed.unique,
          lookup-erase_ne id j services,
        ));
    sorted = t.sorted;
    once = t.once;
    timed = λ j. ground (
      arith,
      t.timed j,
      timed.timed j,
      nat_beq_iff id j,
      lookup-erase_self id services timed.unique,
      lookup-erase_ne id j services,
    );
  }

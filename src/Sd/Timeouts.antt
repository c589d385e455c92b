-- ===== src/Sd/Timeouts.antt =====
-- paf/sd.py, `TimeoutQueue`: pairs of an id and a timeout, the earliest first.
pub mod Order
use paf.Prelude.{ℕ, Bool, Option, none, some, List, [], ◌∷◌, leb, ltb, ◌==◌, nat_eq, if◌then◌else◌}
use paf.Prelude.Dict.{Dict}

abbrev pub Timeouts : Type 0
Timeouts = Dict ℕ ℕ

-- The loop of `add`, from the last entry to the first: the new entry goes in behind the last one
-- that is not later. `none` when the loop ends without such an entry.
unfoldable pub add_behind : ℕ → ℕ → Timeouts → Option Timeouts
add_behind id value [] = none
add_behind id value ((i, v) ∷ q) =
    let here : Option Timeouts = if leb v value then some ((i, v) ∷ (id, value) ∷ q) else none in
    elim (add_behind id value q) [ some q' ↦ some ((i, v) ∷ q') | none ↦ here ]

-- `appendleft` after a loop that has not returned.
abbrev pub or_front : Option Timeouts → ℕ → ℕ → Timeouts → Timeouts
or_front none id value q = (id, value) ∷ q
or_front (some q') id value q = q'

unfoldable pub add : ℕ → ℕ → Timeouts → Timeouts
unfolding add_behind
add id value q = or_front (add_behind id value q) id value q

unfoldable pub remove : ℕ → Timeouts → Timeouts
remove target [] = []
remove target ((i, v) ∷ q) = if i == target then q else (i, v) ∷ remove target q

unfoldable pub update : ℕ → ℕ → Timeouts → Timeouts
update id value q = add id value (remove id q)

unfoldable pub next_timeout : Timeouts → Option ℕ
next_timeout [] = none
next_timeout ((i, v) ∷ q) = some v

-- The loop of `ServiceDiscovery.purge_orphans` over the queue, up to its `break`.
unfoldable pub timed_out : ℕ → Timeouts → List ℕ
timed_out now [] = []
timed_out now ((i, v) ∷ q) = if ltb now v then [] else i ∷ timed_out now q

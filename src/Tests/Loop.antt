-- ===== src/Tests/Loop.antt =====
-- A concrete event loop for paf/eventloop.py, and what the theorems say of it.
use paf.Prelude.{ℕ, ◌≡◌, ◌≢◌, ◌↔◌, refl, true, Option, some, List, [], ◌∷◌, nat_eq, arith}
use paf.Prelude.Dict.{lookup}
use paf.Prelude.Int.{pos}
use paf.Prelude.Action.{ok}
use paf.EventLoop.{
  Source, EventLoop, new_source, set_timeout, set_active, add, remove, next_relative_timeout,
  fire_timeouts,
}
use paf.EventLoop.Synced.{IsSynced, set_timeout-IsSynced, set_active-IsSynced}
use paf.EventLoop.Listening.{Adds}
use paf.EventLoop.Members.{add-IsSynced}
use paf.EventLoop.Leaving.{Returns, remove-IsSynced}
use paf.EventLoop.Due.{fire_timeouts-due}

-- A timer that the loop listens to, and a socket's source that it does not yet.
abbrev timer : Source
timer = record new_source { timeout = some 50; listener = true }

abbrev socket : Source
socket = record new_source { fd = some 4; mask = some 1 }

-- A socket's source that the loop listens to.
abbrev peer : Source
peer = record new_source { fd = some 5; mask = some 1; listener = true }

abbrev looping : EventLoop
looping = record {
  sources = (0, timer) ∷ (1, socket) ∷ (2, peer) ∷ [];
  source_handler = (0, 10) ∷ (2, 12) ∷ [];
  source_fd = (2, (5, some 1)) ∷ [];
  source_timeout = (0, 50) ∷ [];
  source_active = [];
  fd_source = (5, 2) ∷ [];
}

owned :
    (fd s : ℕ)
    → lookup fd looping.fd_source ≡ some s
    → (mask : Option ℕ) × (lookup s looping.source_fd ≡ some (fd, mask))
unfolding lookup
owned fd s e = (some 1, ground arith)

looping-IsSynced : IsSynced looping
unfolding lookup
looping-IsSynced = record {
  timeouts = λ s. ground arith;
  actives = λ s. ground arith;
  fds = λ s. ground arith;
  owners = λ fd s. (λ e. owned fd s e, λ mask e. ground arith);
  unique_fds = (refl, tt);
  unique_owners = (refl, tt);
  handled = λ s src e hears. ground arith;
  unique_timeouts = (refl, tt);
  unique_actives = tt;
}

set_timeout-IsSynced_example : IsSynced (set_timeout 0 (some 70) timer looping)
unfolding lookup
set_timeout-IsSynced_example = set_timeout-IsSynced 0 timer looping refl looping-IsSynced (some 70)

set_active-IsSynced_example : IsSynced (set_active 0 true timer looping)
unfolding lookup
set_active-IsSynced_example = set_active-IsSynced 0 timer looping refl looping-IsSynced true

add-IsSynced_example : Adds socket looping.fd_source IsSynced (add 1 11 socket looping)
unfolding lookup
add-IsSynced_example = add-IsSynced 1 socket looping refl looping-IsSynced 11 refl

remove-IsSynced_example : Returns IsSynced (remove 2 peer looping)
unfolding lookup
remove-IsSynced_example = remove-IsSynced 2 peer looping refl looping-IsSynced refl

fire_timeouts-due_example :
    (handlers : List ℕ) × (fire_timeouts 60 looping ≡ ok handlers)
    × ((next_relative_timeout 60 looping ≡ pos 0) ↔ (handlers ≢ []))
fire_timeouts-due_example = fire_timeouts-due 60 looping looping-IsSynced

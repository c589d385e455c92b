-- ===== src/EventLoop.antt =====
-- paf/eventloop.py, `Source` and `EventLoop`, but for epoll and the signals. Sources and handlers are
-- objects, each with a number; a file descriptor is registered with epoll where it is entered here.
pub mod Due
pub mod Synced
pub mod Listening
pub mod Matching
pub mod Members
pub mod Leaving
use paf.Prelude.{
  ℕ, ◌-◌, Bool, true, false, not, ◌&&◌, ◌||◌, Option, none, some, List, [], ◌∷◌, leb, ltb, nat_eq,
  nat_beq, if◌then◌else◌,
}
use paf.Prelude.Dict.{Dict, lookup, insert, erase, is_some, contains}
use paf.Prelude.Int.{ℤ, pos, negsuc}
use paf.Prelude.Action.{
  Action, Result, ok, raised, Error, ◌>>=◌, ◌>>◌, or_raise, raise_if, pure, gets, modify,
}

-- `listener` says whether the event loop listens to the source.
pub record Source : Type 0 where
  pub fd : Option ℕ
  pub mask : Option ℕ
  pub timeout : Option ℕ
  pub active : Bool
  pub listener : Bool

pub record EventLoop : Type 0 where
  pub sources : Dict ℕ Source
  pub source_handler : Dict ℕ ℕ
  pub source_fd : Dict ℕ (ℕ × Option ℕ)
  pub source_timeout : Dict ℕ ℕ
  pub source_active : Dict ℕ (Unit {0})
  pub fd_source : Dict ℕ ℕ

abbrev pub Method : Type 0 → Type 0
Method A = Action EventLoop A

abbrev pub new_source : Source
new_source = record { fd = none; mask = none; timeout = none; active = false; listener = false }

abbrev pub store : ℕ → Source → EventLoop → EventLoop
store s src loop = record loop { sources = insert s src loop.sources }

-- `_register_timeout` and `_unregister_timeout`
abbrev pub register_timeout : ℕ → Source → EventLoop → EventLoop
register_timeout s src loop = elim src.timeout [
  | none ↦ loop
  | some t ↦ record loop { source_timeout = insert s t loop.source_timeout }
]

abbrev pub unregister_timeout : ℕ → EventLoop → EventLoop
unregister_timeout s loop =
    if contains s loop.source_timeout
    then record loop { source_timeout = erase s loop.source_timeout }
    else loop

-- `_register_active` and `_unregister_active`
abbrev pub register_active : ℕ → Source → EventLoop → EventLoop
register_active s src loop =
    if src.active then record loop { source_active = insert s tt loop.source_active } else loop

abbrev pub unregister_active : ℕ → EventLoop → EventLoop
unregister_active s loop =
    if contains s loop.source_active
    then record loop { source_active = erase s loop.source_active }
    else loop

-- `_register_fd` and `_unregister_fd`
abbrev pub register_fd : ℕ → Source → Method (Unit {0})
register_fd s src = elim src.fd [
  | none ↦ pure tt
  | some fd ↦ do
    modify
        (λ (loop : EventLoop). record loop { source_fd = insert s (fd, src.mask) loop.source_fd })
    raise_if (← gets (λ (loop : EventLoop). contains fd loop.fd_source)) Error.assertion_error
    modify (λ (loop : EventLoop). record loop { fd_source = insert fd s loop.fd_source })
]

abbrev pub unregister_fd : ℕ → Method (Unit {0})
unregister_fd s loop = elim (lookup s (EventLoop.source_fd loop)) [
  | none ↦ (ok tt, loop)
  | some (fd, mask) ↦
      (raise_if (not (contains fd loop.fd_source)) Error.key_error
          >> modify (λ (x : EventLoop). record x { fd_source = erase fd x.fd_source }))
        (record loop { source_fd = erase s loop.source_fd })
]

abbrev pub option_beq : Option ℕ → Option ℕ → Bool
option_beq none none = true
option_beq (some a) (some b) = nat_beq a b
option_beq _ _ = false

-- `set_timeout`, and with `none` `clear_timeout`; the listener's `changed_timeout`.
abbrev pub changed_timeout : ℕ → Source → EventLoop → EventLoop
changed_timeout s src loop =
    if src.listener then register_timeout s src (unregister_timeout s loop) else loop

unfoldable pub set_timeout : ℕ → Option ℕ → Source → EventLoop → EventLoop
set_timeout s timeout src loop =
    if option_beq src.timeout timeout
    then loop
    else (let src' : Source = record src { timeout = timeout } in
        changed_timeout s src' (store s src' loop))

-- `set_active`, and with `false` `clear_active`; the listener's `changed_active`.
abbrev pub changed_active : ℕ → Source → EventLoop → EventLoop
changed_active s src loop =
    if src.listener then register_active s src (unregister_active s loop) else loop

abbrev pub bool_beq : Bool → Bool → Bool
bool_beq true b = b
bool_beq false b = not b

unfoldable pub set_active : ℕ → Bool → Source → EventLoop → EventLoop
set_active s active src loop =
    if bool_beq src.active active
    then loop
    else (let src' : Source = record src { active = active } in
        changed_active s src' (store s src' loop))

-- `set_fd`; the listener's `changed_fd`.
unfoldable pub set_fd : ℕ → ℕ → ℕ → Source → Method (Unit {0})
set_fd s fd mask src = do
  let src' : Source = record src { fd = some fd; mask = some mask }
  let change =
      modify (store s src')
      >> (if src'.listener then unregister_fd s >> register_fd s src' else pure tt)
  if option_beq src.fd (some fd) && option_beq src.mask (some mask) then pure tt else change

-- `clear_fd`
unfoldable pub clear_fd : ℕ → Source → Method (Unit {0})
clear_fd s src = do
  let src' : Source = record src { fd = none; mask = none }
  let change =
      modify (store s src')
      >> (if src'.listener then unregister_fd s >> register_fd s src' else pure tt)
  if is_some src.fd then change else pure tt

unfoldable pub add : ℕ → ℕ → Source → Method (Unit {0})
add s handler src = do
  modify (λ (loop : EventLoop).
      register_timeout s src
        (record loop { source_handler = insert s handler loop.source_handler }))
  register_fd s src
  modify
      (λ (loop : EventLoop). store s (record src { listener = true }) (register_active s src loop))

unfoldable pub remove : ℕ → Source → Method (Unit {0})
remove s src = do
  modify (store s (record src { listener = false }))
  unregister_fd s
  modify (λ (loop : EventLoop). unregister_active s (unregister_timeout s loop))
  raise_if (← gets (λ (loop : EventLoop). not (contains s loop.source_handler))) Error.key_error
  modify (λ (loop : EventLoop). record loop { source_handler = erase s loop.source_handler })

-- `EPOLL_MAX_TIMEOUT`, in microseconds.
abbrev pub epoll_max_timeout : ℕ
epoll_max_timeout = 2147483647000

unfoldable pub insert_sorted : ℕ → List ℕ → List ℕ
insert_sorted v [] = v ∷ []
insert_sorted v (x ∷ xs) = if leb v x then v ∷ x ∷ xs else x ∷ insert_sorted v xs

unfoldable pub sorted : List ℕ → List ℕ
unfolding insert_sorted
sorted [] = []
sorted (v ∷ vs) = insert_sorted v (sorted vs)

unfoldable pub values : Dict ℕ ℕ → List ℕ
values [] = []
values ((_, v) ∷ d) = v ∷ values d

abbrev pub limited : ℕ → ℕ
limited left = if ltb epoll_max_timeout left then epoll_max_timeout else left

-- `next_relative_timeout`, where a time that has passed leaves 0.
unfoldable pub next_relative_timeout : ℕ → EventLoop → ℤ
unfolding sorted values
next_relative_timeout now loop = elim (sorted (values (EventLoop.source_timeout loop))) [
  | [] ↦ negsuc 0
  | t ∷ _ ↦ pos (limited (t - now))
]

-- The loop of `fire_timeouts`: the handlers that it goes on to call.
unfoldable pub active_handlers : ℕ → Dict ℕ ℕ → EventLoop → Result (List ℕ)
active_handlers now [] loop = ok []
active_handlers now ((s, t) ∷ d) loop =
    let rest : Result (List ℕ) = active_handlers now d loop in
    if leb t now
    then elim (lookup s (EventLoop.source_handler loop)) [
      | none ↦ raised Error.key_error
      | some handler ↦ elim rest [ ok handlers ↦ ok (handler ∷ handlers) | raised e ↦ raised e ]
    ]
    else rest

unfoldable pub fire_timeouts : ℕ → EventLoop → Result (List ℕ)
unfolding active_handlers
fire_timeouts now loop = active_handlers now loop.source_timeout loop

-- ===== src/EventLoop/Due.antt =====
-- paf/eventloop.py: `next_relative_timeout` and `fire_timeouts` agree.
use paf.Prelude.{
  ℕ, ◌-◌, ◌≡◌, ◌≢◌, ◌↔◌, nat_beq_iff, refl, sym, ap, ◌∙◌, Bool, true, false, ◌||◌, Option, none,
  some, List, [], ◌∷◌, leb, nat_eq, arith, inl, inr, Bool-cases, Option-cases,
}
use paf.Prelude.Dict.{Dict, lookup}
use paf.Prelude.Int.{ℤ, pos, negsuc}
use paf.Prelude.Action.{ok}
use paf.EventLoop.Synced.{IsSynced, heard, unheard}
use paf.EventLoop.{
  Source, EventLoop, insert_sorted, sorted, values, limited, next_relative_timeout, active_handlers,
  fire_timeouts,
}

-- Is the first of these times due?
abbrev first_due : ℕ → List ℕ → Bool
first_due now [] = false
first_due now (t ∷ ts) = leb t now

-- Is a timeout due?
abbrev any_due : ℕ → Dict ℕ ℕ → Bool
any_due now [] = false
any_due now ((s, t) ∷ d) = leb t now || any_due now d

insert_sorted-due :
    (now v : ℕ) (ts : List ℕ) → first_due now (insert_sorted v ts) ≡ (leb v now || first_due now ts)
unfolding insert_sorted
insert_sorted-due now v [] = ground arith
insert_sorted-due now v (t ∷ ts) = ground arith

sorted-due : (now : ℕ) (d : Dict ℕ ℕ) → first_due now (sorted (values d)) ≡ any_due now d
unfolding sorted values
sorted-due now [] = refl
sorted-due now ((s, t) ∷ d) =
    insert_sorted-due now t (sorted (values d)) ∙ ap (λ b. leb t now || b) (sorted-due now d)

due-limited : (now t : ℕ) → limited (t - now) ≡ 0 → leb t now ≡ true
due-limited now t e = ground arith

limited-due : (now t : ℕ) → leb t now ≡ true → limited (t - now) ≡ 0
limited-due now t e = ground arith

-- What the poll is given, from the sorted timeouts.
next_zero :
    (now : ℕ) (ts : List ℕ)
    → (elim ts as (λ _. ℤ) [ [] ↦ negsuc 0 | t ∷ _ ↦ pos (limited (t - now)) ] ≡ pos 0)
      ↔ (first_due now ts ≡ true)
next_zero now [] = ((λ e. cc), (λ e. cc))
next_zero now (t ∷ ts) = ((λ e. due-limited now t cc), (λ e. ap pos (limited-due now t e)))

-- Every source with a timeout has a handler.
abbrev IsHandled : Dict ℕ ℕ → EventLoop → Type 0
IsHandled [] loop = Unit
IsHandled ((s, t) ∷ d) loop = (lookup s (EventLoop.source_handler loop) ≢ none) × IsHandled d loop

active_handlers-due :
    (now : ℕ) (d : Dict ℕ ℕ) (loop : EventLoop)
    → IsHandled d loop
    → (handlers : List ℕ) × (active_handlers now d loop ≡ ok handlers)
      × ((any_due now d ≡ true) ↔ (handlers ≢ []))
unfolding active_handlers
active_handlers-due now [] loop h = ([], refl, ((λ e. cc), (λ n. absurd (n refl))))
active_handlers-due now ((s, t) ∷ d) loop (h, hs) =
    let (handlers, found, due) = active_handlers-due now d loop hs in
    elim (Bool-cases (leb t now)) [
      | inr early ↦ (
        handlers,
        ground (arith, found),
        ((λ e. due.0 (ground arith)), (λ n. ground (arith, due.1 n))),
      )
      | inl now_due ↦ elim (Option-cases (lookup s (EventLoop.source_handler loop))) [
        | inl missing ↦ absurd (h missing)
        | inr (handler, there) ↦
            (handler ∷ handlers, ground (arith, found, there), ((λ _ e. cc), (λ _. ground arith)))
      ]
    ]

listed-IsHandled :
    (d : Dict ℕ ℕ) (loop : EventLoop)
    → ((s : ℕ) → lookup s d ≢ none → lookup s loop.source_handler ≢ none)
    → IsHandled d loop
unfolding lookup
listed-IsHandled [] loop h = tt
listed-IsHandled ((s, t) ∷ d) loop h = (
  h s (ground (arith, nat_beq_iff s s)),
  listed-IsHandled d loop (λ j there. h j (ground (arith, there))),
)

heard-handled :
    (s : ℕ) (o : Option Source) (loop : EventLoop)
    → IsSynced loop
    → lookup s loop.sources ≡ o
    → heard (λ src. src.timeout) o ≢ none
    → lookup s loop.source_handler ≢ none
heard-handled s none loop h e there = absurd (there refl)
heard-handled s (some src) loop h e there = elim (Bool-cases src.listener) [
  | inl hears ↦ h.handled s src e hears
  | inr deaf ↦ absurd (there (unheard (λ x. x.timeout) src deaf))
]

timeouts-IsHandled : (loop : EventLoop) → IsSynced loop → IsHandled loop.source_timeout loop
timeouts-IsHandled loop h =
    listed-IsHandled loop.source_timeout loop (λ s there.
      heard-handled s (lookup s loop.sources) loop h refl (λ e. there (h.timeouts s ∙ e)))

-- The loop does not wait exactly if `fire_timeouts` then finds a handler to call: where the tables are
-- in step with the sources, `fire_timeouts` raises no `KeyError`, and finds a handler exactly if the
-- timeout of the poll is 0.
pub fire_timeouts-due :
    (now : ℕ) (loop : EventLoop)
    → IsSynced loop
    → (handlers : List ℕ) × (fire_timeouts now loop ≡ ok handlers)
      × ((next_relative_timeout now loop ≡ pos 0) ↔ (handlers ≢ []))
unfolding fire_timeouts next_relative_timeout
fire_timeouts-due now loop h =
    let d : Dict ℕ ℕ = loop.source_timeout in
    let (handlers, found, due) = active_handlers-due now d loop (timeouts-IsHandled loop h) in
    let (to, from) = next_zero now (sorted (values d)) in
    (
      handlers,
      found,
      ((λ e. due.0 (sym (sorted-due now d) ∙ to e)), (λ n. from (sorted-due now d ∙ due.1 n))),
    )

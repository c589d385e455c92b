-- ===== src/Client/Steps.antt =====
-- paf/client.py, `Transaction.consume_message`: the states that a message leads to.
use paf.Prelude.{
  ◌≡◌, refl, sym, subst, ◌⊎◌, inl, inr, Bool, true, false, ◌&&◌, ◌||◌, Option, none, some, arith,
  if◌then◌else◌,
}
use paf.Proto.Fields.{Message, Pulled, pull}
use paf.Proto.Types.{TransactionType, InteractionType, field_ta_cmd, field_msg_type}
use paf.Client.{
  EventType, TransactionState, Transaction, Response, event_of, is_text, state_beq, is_multi,
  is_single, pull_response, consume_event, consume_message, msg_type_accept, msg_type_notify,
  msg_type_complete, msg_type_fail,
}

-- A transaction with one response completes or fails. One with several is accepted first, and then
-- notifies until it completes. Any transaction may fail at any time, also one that has ended.
pub data Step : InteractionType → TransactionState → EventType → TransactionState → Type 0 where
  accepts :
      Step InteractionType.multi_response TransactionState.requesting EventType.accept
        TransactionState.accepted
  notifies :
      (ia : InteractionType)
      → Step ia TransactionState.accepted EventType.notify TransactionState.accepted
  responds :
      Step InteractionType.single_response TransactionState.requesting EventType.complete
        TransactionState.terminated
  completes :
      Step InteractionType.multi_response TransactionState.accepted EventType.complete
        TransactionState.terminated
  fails :
      (ia : InteractionType) (s : TransactionState)
      → Step ia s EventType.fail TransactionState.terminated

abbrev pub Leads :
    InteractionType → TransactionState → Option (EventType × TransactionState) → Type 0
Leads ia s none = Unit
Leads ia s (some (e, s')) = Step ia s e s'

-- What has become of a transaction: it took a step for the event that the callback gets; or the message
-- was refused, which leaves the state as it was or after the step that its type asked for.
abbrev pub Consumes : Transaction → Option Response × Transaction → Type 0
Consumes ta (some r, ta') =
    Step ta.ta_type.ia_type ta.state r.event ta'.state
    × (ta'.ta_type ≡ ta.ta_type)
    × (ta'.ta_id ≡ ta.ta_id)
Consumes ta (none, ta') =
    ((ta'.state ≡ ta.state) ⊎ ((e : EventType) × Step ta.ta_type.ia_type ta.state e ta'.state))
    × (ta'.ta_type ≡ ta.ta_type)
    × (ta'.ta_id ≡ ta.ta_id)

if-Leads :
    (ia : InteractionType) (s : TransactionState) (b : Bool)
    (x y : Option (EventType × TransactionState))
    → (b ≡ true → Leads ia s x)
    → Leads ia s y
    → Leads ia s (if b then x else y)
if-Leads ia s true x y h k = h refl
if-Leads ia s false x y h k = k

accept-Step :
    (ia : InteractionType) (s : TransactionState) (a : Bool)
    → a && (state_beq s TransactionState.requesting && is_multi ia) ≡ true
    → Step ia s EventType.accept TransactionState.accepted
accept-Step InteractionType.multi_response TransactionState.requesting a h = accepts
accept-Step ia s a h = absurd (ground arith)

notify-Step :
    (ia : InteractionType) (s : TransactionState) (n : Bool)
    → n && state_beq s TransactionState.accepted ≡ true
    → Step ia s EventType.notify s
notify-Step ia TransactionState.accepted n h = notifies ia
notify-Step ia s n h = absurd (ground arith)

complete-Step :
    (ia : InteractionType) (s : TransactionState) (c : Bool)
    → c
        && ((state_beq s TransactionState.requesting && is_single ia)
            || (state_beq s TransactionState.accepted && is_multi ia))
      ≡ true
    → Step ia s EventType.complete TransactionState.terminated
complete-Step InteractionType.single_response TransactionState.requesting c h = responds
complete-Step InteractionType.multi_response TransactionState.accepted c h = completes
complete-Step ia s c h = absurd (ground arith)

event_of-Leads :
    (t : Option Pulled) (s : TransactionState) (ia : InteractionType) → Leads ia s (event_of t s ia)
unfolding event_of
event_of-Leads t s ia = if-Leads ia s _ _ _ (accept-Step ia s (is_text msg_type_accept t)) (
    if-Leads ia s _ _ _ (notify-Step ia s (is_text msg_type_notify t)) (
      if-Leads ia s _ _ _ (complete-Step ia s (is_text msg_type_complete t)) (
        if-Leads ia s (is_text msg_type_fail t) (some (EventType.fail, TransactionState.terminated))
          none (λ _. fails ia s) tt)))

module _ (ta : Transaction) where
  stays : Consumes ta (none, ta)
  stays = (inl refl, refl, refl)

  module _ (msg : Message) where
    stepped-Consumes :
        (e : EventType) (s' : TransactionState)
        → Step ta.ta_type.ia_type ta.state e s'
        → (o : Option Response) → ((r : Response) → o ≡ some r → r.event ≡ e)
        → Consumes ta (o, record ta { state = s' })
    stepped-Consumes e s' step none same = (inr (e, step), refl, refl)
    stepped-Consumes e s' step (some r) same =
        (subst (λ e'. Step ta.ta_type.ia_type ta.state e' s') (sym (same r refl)) step, refl, refl)

    pull_response-event :
        (t : TransactionType) (e : EventType) (r : Response)
        → pull_response t e msg ≡ some r
        → r.event ≡ e
    unfolding pull_response
    pull_response-event t e r h = ground arith

    consume_event-Consumes : (t : Option Pulled) → Consumes ta (consume_event ta t msg)
    unfolding consume_event
    consume_event-Consumes t =
        go (event_of t ta.state ta.ta_type.ia_type) (event_of-Leads t ta.state ta.ta_type.ia_type)
      where
        go :
            (x : Option (EventType × TransactionState))
            → Leads ta.ta_type.ia_type ta.state x
            → Consumes ta (elim x [
              | none ↦ (none, ta)
              | some (e, s') ↦ (pull_response ta.ta_type e msg, record ta { state = s' })
            ])
        go none h = stays
        go (some (e, s')) step =
            stepped-Consumes e s' step (pull_response ta.ta_type e msg)
              (pull_response-event ta.ta_type e)

    command-Consumes :
        (b : Bool) (o : Option (Option Pulled × Message))
        → ((t : Option Pulled) (rest : Message) → Consumes ta (consume_event ta t rest))
        → Consumes ta (
            if b
            then elim o [
              | none ↦ (none, ta)
              | some (msg_type, rest) ↦ consume_event ta msg_type rest
            ]
            else (none, ta))
    command-Consumes false o h = stays
    command-Consumes true none h = stays
    command-Consumes true (some (t, rest)) h = h t rest

-- A message takes the transaction along a step for the event that the callback gets. A message that is
-- refused leaves the state as it was, or as after such a step: the state changes before the fields are
-- read. The transaction's id and type stay.
pub consume_message-Consumes :
    (msg : Message) (ta : Transaction) → Consumes ta (consume_message msg ta)
unfolding consume_message
consume_message-Consumes msg ta = go (pull field_ta_cmd false msg)
  where
    go :
        (x : Option (Option Pulled × Message))
        → Consumes ta (elim x [
          | none ↦ (none, ta)
          | some (cmd, rest) ↦
              if is_text ta.ta_type.cmd cmd
              then elim (pull field_msg_type false rest) [
                | none ↦ (none, ta)
                | some (msg_type, rest') ↦ consume_event ta msg_type rest'
              ]
              else (none, ta)
        ])
    go none = stays ta
    go (some (cmd, rest)) =
        command-Consumes ta msg (is_text ta.ta_type.cmd cmd) (pull field_msg_type false rest)
          (λ t rest'. consume_event-Consumes ta rest' t)

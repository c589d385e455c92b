-- ===== src/Client.antt =====
-- paf/client.py, `Transaction`: the client's end of a transaction.
pub mod Steps
use paf.Prelude.{
  ℕ, Bool, true, false, ◌&&◌, ◌||◌, Option, none, some, List, [], ◌∷◌, Text, ◌==◌, nat_eq, text_eq,
  if◌then◌else◌,
}
use paf.Prelude.Dict.{Dict, lookup, insert, erase, is_some}
use paf.Prelude.Int.{ℤ, pos}
use paf.Proto.Props.{Json, str, int}
use paf.Proto.Fields.{Field, Message, Pulled, plain, python_name, pull, put}
use paf.Proto.Batch.{pull_all, pull_opts, put_all, put_opts}
use paf.Proto.Types.{TransactionType, InteractionType, field_ta_cmd, field_ta_id, field_msg_type}

pub data EventType : Type 0 where
  accept notify complete fail : EventType

pub data TransactionState : Type 0 where
  idle requesting accepted terminated : TransactionState

pub record Transaction : Type 0 where
  pub ta_id : ℕ
  pub ta_type : TransactionType
  pub state : TransactionState

abbrev pub new_transaction : TransactionType → ℕ → Transaction
new_transaction type id = record { ta_id = id; ta_type = type; state = TransactionState.idle }

-- The values of `msg-type`.
abbrev pub msg_type_request : Text
msg_type_request = b'r' ∷ b'e' ∷ b'q' ∷ b'u' ∷ b'e' ∷ b's' ∷ b't' ∷ []

abbrev pub msg_type_accept : Text
msg_type_accept = b'a' ∷ b'c' ∷ b'c' ∷ b'e' ∷ b'p' ∷ b't' ∷ []

abbrev pub msg_type_notify : Text
msg_type_notify = b'n' ∷ b'o' ∷ b't' ∷ b'i' ∷ b'f' ∷ b'y' ∷ []

abbrev pub msg_type_complete : Text
msg_type_complete = b'c' ∷ b'o' ∷ b'm' ∷ b'p' ∷ b'l' ∷ b'e' ∷ b't' ∷ b'e' ∷ []

abbrev pub msg_type_fail : Text
msg_type_fail = b'f' ∷ b'a' ∷ b'i' ∷ b'l' ∷ []

-- Does a pulled text equal this one? A `StringField` may have given a value of another type.
abbrev pub is_text : Text → Option Pulled → Bool
is_text t (some (plain (str s))) = s == t
is_text t _ = false

abbrev pub state_beq : TransactionState → TransactionState → Bool
state_beq TransactionState.idle TransactionState.idle = true
state_beq TransactionState.requesting TransactionState.requesting = true
state_beq TransactionState.accepted TransactionState.accepted = true
state_beq TransactionState.terminated TransactionState.terminated = true
state_beq _ _ = false

abbrev pub is_multi : InteractionType → Bool
is_multi InteractionType.multi_response = true
is_multi InteractionType.single_response = false

abbrev pub is_single : InteractionType → Bool
is_single InteractionType.multi_response = false
is_single InteractionType.single_response = true

-- The `if` chain of `consume_message`: the event and the next state, or `none` for the `else`.
unfoldable pub event_of :
    Option Pulled → TransactionState → InteractionType → Option (EventType × TransactionState)
event_of msg_type state ia =
    if is_text msg_type_accept msg_type
      && (state_beq state TransactionState.requesting && is_multi ia)
    then some (EventType.accept, TransactionState.accepted)
    else (if is_text msg_type_notify msg_type && state_beq state TransactionState.accepted
        then some (EventType.notify, state)
        else (if is_text msg_type_complete msg_type
              && ((state_beq state TransactionState.requesting && is_single ia)
                  || (state_beq state TransactionState.accepted && is_multi ia))
            then some (EventType.complete, TransactionState.terminated)
            else (if is_text msg_type_fail msg_type
                then some (EventType.fail, TransactionState.terminated)
                else none)))

abbrev pub fields_of : EventType → TransactionType → List Field
fields_of EventType.accept t = t.accept_fields
fields_of EventType.notify t = t.notify_fields
fields_of EventType.complete t = t.complete_fields
fields_of EventType.fail t = t.fail_fields

abbrev pub opt_fields_of : EventType → TransactionType → List Field
opt_fields_of EventType.accept t = t.opt_accept_fields
opt_fields_of EventType.notify t = t.opt_notify_fields
opt_fields_of EventType.complete t = t.opt_complete_fields
opt_fields_of EventType.fail t = t.opt_fail_fields

-- The arguments that the callback is called with.
pub record Response : Type 0 where
  pub event : EventType
  pub args : List (Option Pulled)
  pub optargs : Dict Text Pulled

-- Unknown fields are an error.
abbrev pub response :
    EventType → List (Option Pulled) → Dict Text Pulled × Message → Option Response
response event args (optargs, []) = some (record { event = event; args = args; optargs = optargs })
response event args (optargs, _ ∷ _) = none

unfoldable pub pull_response : TransactionType → EventType → Message → Option Response
unfolding pull_all pull_opts
pull_response t event msg = elim (pull_all (fields_of event t) msg) [
  | none ↦ none
  | some (args, rest) ↦ elim (pull_opts python_name (opt_fields_of event t) [] rest) [
    | none ↦ none
    | some r ↦ response event args r
  ]
]

-- `consume_message` behind its two first fields. The state has changed where a field is refused.
unfoldable pub consume_event : Transaction → Option Pulled → Message → Option Response × Transaction
unfolding event_of pull_response
consume_event ta msg_type msg = elim (event_of msg_type ta.state ta.ta_type.ia_type) [
  | none ↦ (none, ta)
  | some (event, state) ↦ (pull_response ta.ta_type event msg, record ta { state = state })
]

-- `consume_message`: what the callback is called with, or `none` for a `ProtocolError`.
unfoldable pub consume_message : Message → Transaction → Option Response × Transaction
unfolding consume_event pull
consume_message msg ta = elim (pull field_ta_cmd false msg) [
  | none ↦ (none, ta)
  | some (cmd, rest) ↦
      if is_text ta.ta_type.cmd cmd
      then elim (pull field_msg_type false rest) [
        | none ↦ (none, ta)
        | some (msg_type, rest') ↦ consume_event ta msg_type rest'
      ]
      else (none, ta)
]

abbrev pub requested :
    Transaction → Message × Dict Text (Option Pulled) → Option Message × Transaction
requested ta (msg, []) = (some msg, record ta { state = TransactionState.requesting })
requested ta (msg, _ ∷ _) = (none, ta)

-- `produce_request`, where `none` is a failed assertion.
unfoldable pub produce_request :
    List Pulled → Dict Text (Option Pulled) → Transaction → Option Message × Transaction
unfolding put_all put_opts
produce_request args optargs ta =
    let head : Message = put field_msg_type (plain (str msg_type_request)) (
      put field_ta_id (plain (int (pos ta.ta_id)))
        (put field_ta_cmd (plain (str ta.ta_type.cmd)) [])) in
    elim (put_all ta.ta_type.request_fields args head) [
      | none ↦ (none, ta)
      | some msg ↦ requested ta (put_opts Field.name ta.ta_type.opt_request_fields optargs msg)
    ]

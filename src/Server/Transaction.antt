-- ===== src/Server/Transaction.antt =====
-- paf/server.py, `Transaction`: the server's end of a transaction.
pub mod Wire
pub mod Requests
use paf.Prelude.{
  Bool, true, false, Option, none, some, List, [], ◌∷◌, Text, ◌==◌, nat_eq, text_eq, if◌then◌else◌,
}
use paf.Prelude.Dict.{Dict}
use paf.Prelude.Action.{Result, ok, raised, Error, bind}
use paf.Proto.Props.{Json, str, list, object, Members, no_members, member}
use paf.Proto.Fields.{Field, Message, Pulled, plain, python_name, pull, put}
use paf.Proto.Batch.{pull_all, pull_opts, put_all, put_opts}
use paf.Proto.Types.{
  TransactionType, InteractionType, field_ta_cmd, field_ta_id, field_msg_type, ta_hello,
  ta_subscribe, ta_unsubscribe, ta_subscriptions, ta_services, ta_publish, ta_unpublish, ta_ping,
  ta_clients,
}
use paf.Client.{
  is_text, is_multi, msg_type_request, msg_type_accept, msg_type_notify, msg_type_complete,
  msg_type_fail,
}

-- The id is the value that the client sent.
pub record Transaction : Type 0 where
  pub ta_id : Pulled
  pub ta_type : TransactionType

-- `TA_TYPES`
abbrev pub ta_types : List TransactionType
ta_types =
    ta_hello ∷ ta_subscribe ∷ ta_unsubscribe ∷ ta_subscriptions ∷ ta_services ∷ ta_publish
    ∷ ta_unpublish ∷ ta_ping ∷ ta_clients ∷ []

unfoldable pub find_type : Text → List TransactionType → Option TransactionType
find_type cmd [] = none
find_type cmd (t ∷ ts) = if t.cmd == cmd then some t else find_type cmd ts

abbrev pub known : Option TransactionType → Result TransactionType
known none = raised Error.protocol_error
known (some t) = ok t

-- `lookup_type`. A list or an object cannot be looked up in a dict at all.
unfoldable pub lookup_type : Option Pulled → Result TransactionType
unfolding find_type
lookup_type (some (plain (str cmd))) = known (find_type cmd ta_types)
lookup_type (some (plain (list js))) = raised Error.type_error
lookup_type (some (plain (object ms))) = raised Error.type_error
lookup_type _ = raised Error.protocol_error

abbrev pub pulled : {A : Type 0} → Option A → Result A
pulled none = raised Error.protocol_error
pulled (some a) = ok a

-- What the handler is called with.
pub record Request : Type 0 where
  pub transaction : Transaction
  pub args : List (Option Pulled)
  pub optargs : Dict Text Pulled

abbrev pub no_more :
    Transaction → List (Option Pulled) → Dict Text Pulled × Message → Result Request
no_more ta args (optargs, []) = ok (record { transaction = ta; args = args; optargs = optargs })
no_more ta args (optargs, _ ∷ _) = raised Error.protocol_error

-- The fields of a request of this type.
unfoldable pub pull_request : Transaction → Message → Result Request
unfolding pull_all pull_opts
pull_request ta msg =
    bind (pulled (pull_all ta.ta_type.request_fields msg))
      (λ (args, rest).
        bind (pulled (pull_opts Field.name ta.ta_type.opt_request_fields [] rest)) (no_more ta args)
          (λ e. raised e))
      (λ e. raised e)

-- A request's command, id and type, and the rest of it.
unfoldable pub read_request : Message → Result Request
unfolding pull lookup_type pull_request
read_request msg =
    bind (pulled (pull field_ta_cmd false msg))
      (λ (cmd, rest₁).
        bind (pulled (pull field_ta_id false rest₁))
          (λ (id, rest₂).
            bind (pulled (pull field_msg_type false rest₂))
              (λ (msg_type, rest₃). elim id [
                | none ↦ raised Error.protocol_error
                | some ta_id ↦
                    if is_text msg_type_request msg_type
                    then bind (lookup_type cmd)
                        (λ t. pull_request (record { ta_id = ta_id; ta_type = t }) rest₃)
                        (λ e. raised e)
                    else raised Error.protocol_error
              ])
              (λ e. raised e))
          (λ e. raised e))
      (λ e. raised e)

-- The object that `json.loads` returns, as a dict.
unfoldable pub message_of : Members → Message
message_of no_members = []
message_of (member name value ms) = (name, value) ∷ message_of ms

-- `request`, on what `json.loads` has made of the message, where `none` is its `ValueError`. Of JSON's
-- values only an object has a method `get`.
unfoldable pub request : Option Json → Result Request
unfolding read_request message_of
request none = raised Error.protocol_error
request (some (object ms)) = read_request (message_of ms)
request (some _) = raised Error.attribute_error

abbrev pub complete_message : Message × Dict Text (Option Pulled) → Option Message
complete_message (msg, []) = some msg
complete_message (msg, _ ∷ _) = none

-- The head of a response.
unfoldable pub head : Text → Transaction → Message
unfolding put
head msg_type ta =
    put field_msg_type (plain (str msg_type))
      (put field_ta_id ta.ta_id (put field_ta_cmd (plain (str ta.ta_type.cmd)) []))

-- `response`, before `json.dumps`; `none` is a failed assertion.
unfoldable pub response :
    Text
    → List Field
    → List Field
    → List Pulled
    → Dict Text (Option Pulled)
    → Transaction
    → Option Message
unfolding head put_all put_opts
response msg_type fields opt_fields args optargs ta =
    elim (put_all fields args (head msg_type ta)) [
      | none ↦ none
      | some msg ↦ complete_message (put_opts python_name opt_fields optargs msg)
    ]

unfoldable pub complete : List Pulled → Dict Text (Option Pulled) → Transaction → Option Message
unfolding response
complete args optargs ta =
    response msg_type_complete ta.ta_type.complete_fields ta.ta_type.opt_complete_fields args
      optargs ta

unfoldable pub fail : List Pulled → Dict Text (Option Pulled) → Transaction → Option Message
unfolding response
fail args optargs ta =
    response msg_type_fail ta.ta_type.fail_fields ta.ta_type.opt_fail_fields args optargs ta

unfoldable pub accept : List Pulled → Dict Text (Option Pulled) → Transaction → Option Message
unfolding response
accept args optargs ta =
    if is_multi ta.ta_type.ia_type
    then response msg_type_accept ta.ta_type.accept_fields ta.ta_type.opt_accept_fields args optargs
        ta
    else none

unfoldable pub notify : List Pulled → Dict Text (Option Pulled) → Transaction → Option Message
unfolding response
notify args optargs ta =
    if is_multi ta.ta_type.ia_type
    then response msg_type_notify ta.ta_type.notify_fields ta.ta_type.opt_notify_fields args optargs
        ta
    else none

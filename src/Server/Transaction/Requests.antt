-- ===== src/Server/Transaction/Requests.antt =====
-- paf/client.py and paf/server.py: the server reads the request that a client's transaction produces.
use paf.Prelude.{
  ℕ, ◌≤◌, ◌≡◌, refl, ap, ◌∙◌, Bool, true, false, ◌&&◌, Option, some, List, [], ◌∷◌, ◌++◌, map, Text,
  arith, nat_eq, text_eq, text_beq, All,
}
use paf.Prelude.Dict.{Dict, insert}
use paf.Prelude.Keys.{apart-rest}
use paf.Prelude.Int.{pos}
use paf.Prelude.Action.{ok}
use paf.Proto.Props.{str, int, object, Members, no_members, member}
use paf.Proto.Fields.{
  Field, Message, Pulled, plain, underscored, pull, put, wire, non_negative_int_max,
}
use paf.Proto.RoundTrip.{pull-front}
use paf.Proto.Batch.{pull_all, pull_opts, put_all, put_opts}
use paf.Proto.Batch.Entries.{
  names, AreValues, entries, Optional, AreOptional, optargs_of, opt_entries, received, AreNamed,
}
use paf.Proto.Types.{TransactionType, field_ta_cmd, field_ta_id, field_msg_type}
use paf.Client
use paf.Client.{
  EventType, TransactionState, fields_of, opt_fields_of, produce_request, msg_type_request, is_text,
}
use paf.Server.Transaction.{
  Transaction, Request, request, read_request, pull_request, lookup_type, find_type, message_of,
  ta_types,
}
use paf.Server.Transaction.Wire.{
  head_names, is_formed, start, put_fields, put_optional_fields, pull_fields, pull_optional_fields,
}

-- A dict as `json.loads` gives it back from `json.dumps`.
unfoldable pub members_of : Message → Members
members_of [] = no_members
members_of ((name, value) ∷ msg) = member name value (members_of msg)

message_of-members_of : (msg : Message) → message_of (members_of msg) ≡ msg
unfolding message_of members_of
message_of-members_of [] = refl
message_of-members_of ((name, value) ∷ msg) =
    ap (λ m. (name, value) ∷ m) (message_of-members_of msg)

produce_request-step :
    (vs : List Pulled) (optargs : Dict Text (Option Pulled)) (ta : Client.Transaction)
    (msg end : Message)
    → put_all ta.ta_type.request_fields vs
        (start ta.ta_type.cmd (plain (int (pos ta.ta_id))) msg_type_request)
      ≡ some msg
    → put_opts Field.name ta.ta_type.opt_request_fields optargs msg ≡ (end, [])
    → produce_request vs optargs ta ≡ (some end, record ta { state = TransactionState.requesting })
unfolding produce_request put insert text_beq
produce_request-step vs optargs ta msg end e e' = ground arith

pull_request-step :
    (ta : Transaction) (msg rest : Message) (args : List (Option Pulled))
    (optargs : Dict Text Pulled)
    → pull_all ta.ta_type.request_fields msg ≡ some (args, rest)
    → pull_opts Field.name ta.ta_type.opt_request_fields [] rest ≡ some (optargs, [])
    → pull_request ta msg ≡ ok (record { transaction = ta; args = args; optargs = optargs })
unfolding pull_request
pull_request-step ta msg rest args optargs e e' = ground arith

read_request-step :
    (msg rest₁ rest₂ rest₃ : Message) (id : Pulled) (t : TransactionType) (r : Request)
    → pull field_ta_cmd false msg ≡ some (some (plain (str t.cmd)), rest₁)
    → pull field_ta_id false rest₁ ≡ some (some id, rest₂)
    → pull field_msg_type false rest₂ ≡ some (some (plain (str msg_type_request)), rest₃)
    → find_type t.cmd ta_types ≡ some t
    → pull_request (record { ta_id = id; ta_type = t }) rest₃ ≡ ok r
    → read_request msg ≡ ok r
unfolding read_request lookup_type text_beq
read_request-step msg rest₁ rest₂ rest₃ id t r e₁ e₂ e₃ e₄ e₅ = rw (e₁, e₂, e₃, e₄, e₅) refl

-- The request that a client's transaction produces from values of its fields is read by the server as
-- a request of that transaction, with those values, and with the optional ones that are not `None`;
-- the client's end waits for the response then. The type is one that the server knows, and the id
-- fits its field.
pub request-produce_request :
    (t : TransactionType) (n : ℕ) (vs : List Pulled) (gs : List Optional)
    → find_type t.cmd ta_types ≡ some t
    → n ≤ non_negative_int_max
    → AreValues t.request_fields vs
    → AreOptional t.opt_request_fields gs
    → is_formed t.request_fields t.opt_request_fields ≡ true
    → AreNamed Field.name t.opt_request_fields
    → (msg : Message) × (produce_request vs
          (optargs_of t.opt_request_fields gs)
          (Client.new_transaction t n)
        ≡ (some msg, record { ta_id = n; ta_type = t; state = TransactionState.requesting }))
      × (request (some (object (members_of msg)))
          ≡ ok (record {
            transaction = record { ta_id = plain (int (pos n)); ta_type = t };
            args = map some vs;
            optargs = received Field.name t.opt_request_fields gs;
          }))
unfolding request
request-produce_request t n vs gs known bound values optional formed named =
    let id : Pulled = plain (int (pos n)) in
    let fs : List Field = t.request_fields in
    let opts : List Field = t.opt_request_fields in
    let es : Message = entries fs vs ++ opt_entries opts gs in
    let typed : Message = (field_msg_type.name, str msg_type_request) ∷ es in
    (
      start t.cmd id msg_type_request ++ es,
      produce_request-step vs (optargs_of opts gs) (Client.new_transaction t n)
          (start t.cmd id msg_type_request ++ entries fs vs) (start t.cmd id msg_type_request ++ es)
          (put_fields Field.name t.cmd id msg_type_request fs opts vs gs values optional formed
            named)
          (put_optional_fields Field.name t.cmd id msg_type_request fs opts vs gs values optional
            formed named),
      ap read_request (message_of-members_of (start t.cmd id msg_type_request ++ es))
          ∙ read_request-step (start t.cmd id msg_type_request ++ es)
              ((field_ta_id.name, wire id) ∷ typed) typed es id t
              (record {
                transaction = record { ta_id = id; ta_type = t };
                args = map some vs;
                optargs = received Field.name opts gs;
              })
              (pull-front field_ta_cmd (plain (str t.cmd)) ((field_ta_id.name, wire id) ∷ typed)
                false tt)
              (pull-front field_ta_id id typed false bound)
              (pull-front field_msg_type (plain (str msg_type_request)) es false tt) known
              (pull_request-step (record { ta_id = id; ta_type = t }) es (opt_entries opts gs)
                (map some vs) (received Field.name opts gs)
                (pull_fields Field.name t.cmd id msg_type_request fs opts vs gs values optional
                  formed named)
                (pull_optional_fields Field.name t.cmd id msg_type_request fs opts vs gs values
                  optional formed named Field.name
                  (apart-rest (names fs) (names opts)
                    (apart-rest head_names (names fs ++ names opts) (ground arith))))),
    )

-- The tables have no two fields of one name in a message.
abbrev pub is_well_formed : TransactionType → Bool
is_well_formed t =
    is_formed t.request_fields t.opt_request_fields
    && (is_formed t.accept_fields t.opt_accept_fields
        && (is_formed t.notify_fields t.opt_notify_fields
            && (is_formed t.complete_fields t.opt_complete_fields
                && is_formed t.fail_fields t.opt_fail_fields)))

pub ta_types-All : All (λ t. is_well_formed t ≡ true) ta_types
unfolding text_beq underscored
ta_types-All = (refl, (refl, (refl, (refl, (refl, (refl, (refl, (refl, (refl, tt)))))))))

-- ===== src/Server/Transaction/Wire.antt =====
-- paf/server.py and paf/client.py: what one end of a transaction sends, the other end reads.
use paf.Prelude.{
  ◌≡◌, refl, ap, ◌∙◌, Bool, true, false, ◌&&◌, Option, some, List, [], ◌∷◌, ◌++◌, map, append_assoc,
  Text, arith, nat_eq, text_eq, text_beq, text_beq_iff, ℕ,
}
use paf.Prelude.Dict.{Dict, lookup, insert, erase}
use paf.Prelude.Keys.{apart, apart-front, apart-rest, all_keys, all_keys-append}
use paf.Proto.Props.{str}
use paf.Proto.Fields.{Kind, Field, Message, Pulled, plain, python_name, pull, put, wire}
use paf.Proto.RoundTrip.{IsValue, pull-front, pull-found, convert-wire}
use paf.Proto.Batch.{pull_all, pull_opts, put_all, put_opts}
use paf.Proto.Batch.Entries.{
  names, AreValues, entries, Optional, AreOptional, optargs_of, opt_entries, received,
  put_all-entries, pull_all-entries, put_opts-entries, pull_opts-entries, AreNamed,
}
use paf.Proto.Types.{TransactionType, InteractionType, field_ta_cmd, field_ta_id, field_msg_type}
use paf.Client
use paf.Client.{
  EventType, TransactionState, Response, fields_of, opt_fields_of, event_of, is_text, is_multi,
  pull_response, consume_event, consume_message, produce_request, requested, msg_type_request,
  msg_type_accept, msg_type_notify, msg_type_complete, msg_type_fail,
}
use paf.Client.Steps.{Step, accepts, notifies, responds, completes, fails}
use paf.Server.Transaction.{Transaction, head, response, complete, fail, accept, notify}

abbrev pub head_names : List Text
head_names = names (field_ta_cmd ∷ field_ta_id ∷ field_msg_type ∷ [])

-- No two fields of a message have the same name, also where dashes have become underscores.
abbrev pub is_formed : List Field → List Field → Bool
is_formed fs opts = apart (head_names ++ (names fs ++ names opts)) && apart (map python_name opts)

abbrev pub start : Text → Pulled → Text → Message
start cmd id msg_type =
    (field_ta_cmd.name, str cmd)
    ∷ (field_ta_id.name, wire id)
    ∷ (field_msg_type.name, str msg_type)
    ∷ []

all_keys-entries :
    (fs : List Field) (vs : List Pulled) → AreValues fs vs → all_keys (entries fs vs) ≡ names fs
all_keys-entries [] [] h = refl
all_keys-entries [] (v ∷ vs) h = absurd h
all_keys-entries (f ∷ fs) [] h = absurd h
all_keys-entries (f ∷ fs) (v ∷ vs) h = ap (λ ks. f.name ∷ ks) (all_keys-entries fs vs h.1)

-- The fields and the optional fields, put behind a start.
module _ (key : Field → Text) (cmd : Text) (id : Pulled) (msg_type : Text) (fs opts : List Field)
    (vs : List Pulled) (gs : List Optional) (values : AreValues fs vs)
    (optional : AreOptional opts gs) (formed : is_formed fs opts ≡ true)
    (named : AreNamed key opts) where
  started : Message
  started = start cmd id msg_type

  all_apart : apart (head_names ++ (names fs ++ names opts)) ≡ true
  all_apart = ground arith

  pub put_fields :
      put_all fs vs (start cmd id msg_type) ≡ some (start cmd id msg_type ++ entries fs vs)
  put_fields = put_all-entries fs vs (start cmd id msg_type) values (
      apart-front (head_names ++ names fs) (names opts)
        (ap apart (append_assoc head_names (names fs) (names opts)) ∙ all_apart))

  pub put_optional_fields :
      put_opts key opts (optargs_of opts gs) (start cmd id msg_type ++ entries fs vs)
      ≡ (start cmd id msg_type ++ (entries fs vs ++ opt_entries opts gs), [])
  put_optional_fields =
      put_opts-entries key opts gs (start cmd id msg_type ++ entries fs vs) named optional
        (ground arith)
        (ap (λ ks. apart (ks ++ names opts))
            (all_keys-append (start cmd id msg_type) (entries fs vs)
              ∙ ap (λ ks. head_names ++ ks) (all_keys-entries fs vs values))
          ∙ ap apart (append_assoc head_names (names fs) (names opts))
          ∙ all_apart)
      ∙ ap (λ m. (m, []))
          (append_assoc (start cmd id msg_type) (entries fs vs) (opt_entries opts gs))

  -- They are pulled again by the other end.
  pub pull_fields :
      pull_all fs (entries fs vs ++ opt_entries opts gs) ≡ some (map some vs, opt_entries opts gs)
  pull_fields = pull_all-entries fs vs (opt_entries opts gs) values

  pub pull_optional_fields :
      (name : Field → Text)
      → apart (map name opts) ≡ true
      → pull_opts name opts [] (opt_entries opts gs) ≡ some (received name opts gs, [])
  pull_optional_fields name distinct =
      pull_opts-entries name opts gs [] optional
        (apart-rest (head_names ++ names fs) (names opts)
          (ap apart (append_assoc head_names (names fs) (names opts)) ∙ all_apart))
        distinct

named_self : (fs : List Field) → AreNamed python_name fs
named_self [] = tt
named_self (f ∷ fs) = (refl, named_self fs)

head-start :
    (msg_type : Text) (ta : Transaction) → head msg_type ta ≡ start ta.ta_type.cmd ta.ta_id msg_type
unfolding head put insert text_beq
head-start msg_type ta = refl

response-step :
    (msg_type : Text) (fs opts : List Field) (vs : List Pulled)
    (optargs : Dict Text (Option Pulled)) (ta : Transaction) (msg end : Message)
    → put_all fs vs (head msg_type ta) ≡ some msg
    → put_opts python_name opts optargs msg ≡ (end, [])
    → response msg_type fs opts vs optargs ta ≡ some end
unfolding response
response-step msg_type fs opts vs optargs ta msg end e e' = ground arith

response-entries :
    (msg_type : Text) (fs opts : List Field) (vs : List Pulled) (gs : List Optional)
    (ta : Transaction)
    → AreValues fs vs
    → AreOptional opts gs
    → is_formed fs opts ≡ true
    → response msg_type fs opts vs (optargs_of opts gs) ta
      ≡ some (start ta.ta_type.cmd ta.ta_id msg_type ++ (entries fs vs ++ opt_entries opts gs))
response-entries msg_type fs opts vs gs ta values optional formed =
    response-step msg_type fs opts vs (optargs_of opts gs) ta
      (start ta.ta_type.cmd ta.ta_id msg_type ++ entries fs vs)
      (start ta.ta_type.cmd ta.ta_id msg_type ++ (entries fs vs ++ opt_entries opts gs))
      (ap (put_all fs vs) (head-start msg_type ta)
        ∙ put_fields python_name ta.ta_type.cmd ta.ta_id msg_type fs opts vs gs values optional
            formed (named_self opts))
      (put_optional_fields python_name ta.ta_type.cmd ta.ta_id msg_type fs opts vs gs values
        optional formed (named_self opts))

-- The value of `msg-type` for an event, and the method that sends it.
abbrev pub text_of : EventType → Text
text_of EventType.accept = msg_type_accept
text_of EventType.notify = msg_type_notify
text_of EventType.complete = msg_type_complete
text_of EventType.fail = msg_type_fail

abbrev pub sends :
    EventType → List Pulled → Dict Text (Option Pulled) → Transaction → Option Message
sends EventType.accept = accept
sends EventType.notify = notify
sends EventType.complete = complete
sends EventType.fail = fail

-- What the methods assert of the type.
abbrev pub IsSendable : EventType → TransactionType → Type 0
IsSendable EventType.accept t = is_multi t.ia_type ≡ true
IsSendable EventType.notify t = is_multi t.ia_type ≡ true
IsSendable _ t = Unit

sends-response :
    (e : EventType) (vs : List Pulled) (optargs : Dict Text (Option Pulled)) (ta : Transaction)
    → IsSendable e ta.ta_type
    → sends e vs optargs ta
      ≡ response (text_of e) (fields_of e ta.ta_type) (opt_fields_of e ta.ta_type) vs optargs ta
unfolding accept notify complete fail
sends-response EventType.accept vs optargs ta h = rw h refl
sends-response EventType.notify vs optargs ta h = rw h refl
sends-response EventType.complete vs optargs ta h = refl
sends-response EventType.fail vs optargs ta h = refl

event_of-Step :
    (ia : InteractionType) (s s' : TransactionState) (e : EventType)
    → Step ia s e s'
    → event_of (some (plain (str (text_of e)))) s ia ≡ some (e, s')
unfolding event_of text_beq
event_of-Step _ _ _ _ accepts = refl
event_of-Step _ _ _ _ (notifies ia) = refl
event_of-Step _ _ _ _ responds = refl
event_of-Step _ _ _ _ completes = refl
event_of-Step _ _ _ _ (fails ia s) = refl

pull_id :
    (cmd msg_type : Text) (id : Pulled) (es : Message)
    → IsValue Kind.non_negative_int_field id
    → pull field_ta_id false (start cmd id msg_type ++ es)
      ≡ some (some id, (field_ta_cmd.name, str cmd) ∷ (field_msg_type.name, str msg_type) ∷ es)
unfolding lookup erase text_beq
pull_id cmd msg_type id es h =
    let (c, p) = convert-wire Kind.non_negative_int_field id h in
    pull-found field_ta_id id (start cmd id msg_type ++ es)
      ((field_ta_cmd.name, str cmd) ∷ (field_msg_type.name, str msg_type) ∷ es) false refl refl c p

consume-step :
    (msg rest rest' : Message) (ta : Client.Transaction) (cmd : Text) (msg_type : Option Pulled)
    (e : EventType) (s' : TransactionState) (r : Response)
    → pull field_ta_cmd false msg ≡ some (some (plain (str cmd)), rest)
    → text_beq cmd ta.ta_type.cmd ≡ true
    → pull field_msg_type false rest ≡ some (msg_type, rest')
    → event_of msg_type ta.state ta.ta_type.ia_type ≡ some (e, s')
    → pull_response ta.ta_type e rest' ≡ some r
    → consume_message msg ta ≡ (some r, record ta { state = s' })
unfolding consume_message consume_event
consume-step msg rest rest' ta cmd msg_type e s' r e₁ e₂ e₃ e₄ e₅ = ground arith

pull_response-step :
    (t : TransactionType) (e : EventType) (msg rest : Message) (args : List (Option Pulled))
    (optargs : Dict Text Pulled)
    → pull_all (fields_of e t) msg ≡ some (args, rest)
    → pull_opts python_name (opt_fields_of e t) [] rest ≡ some (optargs, [])
    → pull_response t e msg ≡ some (record { event = e; args = args; optargs = optargs })
unfolding pull_response
pull_response-step t e msg rest args optargs e₁ e₂ = ground arith

-- What the server sends for an event of a transaction, the client reads: it finds the id of the
-- transaction, and where the protocol allows the event in its state, its callback gets the event with
-- the arguments that the server gave, the optional ones as far as they are not `None`, and the state
-- is the next one. The values are of the classes of their fields, and no two fields share a name.
pub consume_message-sends :
    (t : TransactionType) (e : EventType) (s s' : TransactionState) (n : ℕ) (id : Pulled)
    (vs : List Pulled) (gs : List Optional)
    → Step t.ia_type s e s'
    → IsSendable e t
    → IsValue Kind.non_negative_int_field id
    → AreValues (fields_of e t) vs
    → AreOptional (opt_fields_of e t) gs
    → is_formed (fields_of e t) (opt_fields_of e t) ≡ true
    → (msg : Message) × (rest : Message) × (sends e vs
          (optargs_of (opt_fields_of e t) gs)
          (record { ta_id = id; ta_type = t })
        ≡ some msg)
      × (pull field_ta_id false msg ≡ some (some id, rest))
      × (consume_message rest (record { ta_id = n; ta_type = t; state = s }) ≡ (
        some (record {
          event = e;
          args = map some vs;
          optargs = received python_name (opt_fields_of e t) gs;
        }),
        record { ta_id = n; ta_type = t; state = s' },
      ))
consume_message-sends t e s s' n id vs gs step sendable id_value values optional formed =
    let fs : List Field = fields_of e t in
    let opts : List Field = opt_fields_of e t in
    let es : Message = entries fs vs ++ opt_entries opts gs in
    let rest' : Message = (field_msg_type.name, str (text_of e)) ∷ es in
    (
      start t.cmd id (text_of e) ++ es,
      (field_ta_cmd.name, str t.cmd) ∷ rest',
      sends-response e vs (optargs_of opts gs) (record { ta_id = id; ta_type = t }) sendable
          ∙ response-entries (text_of e) fs opts vs gs (record { ta_id = id; ta_type = t }) values
              optional formed,
      pull_id t.cmd (text_of e) id es id_value,
      consume-step ((field_ta_cmd.name, str t.cmd) ∷ rest') rest' es
          (record { ta_id = n; ta_type = t; state = s }) t.cmd (some (plain (str (text_of e)))) e s'
          (record { event = e; args = map some vs; optargs = received python_name opts gs })
          (pull-front field_ta_cmd (plain (str t.cmd)) rest' false tt)
          ((text_beq_iff t.cmd t.cmd).1 refl)
          (pull-front field_msg_type (plain (str (text_of e))) es false tt)
          (event_of-Step t.ia_type s s' e step)
          (pull_response-step t e es (opt_entries opts gs) (map some vs)
            (received python_name opts gs)
            (pull_fields python_name t.cmd id (text_of e) fs opts vs gs values optional formed
              (named_self opts))
            (pull_optional_fields python_name t.cmd id (text_of e) fs opts vs gs values optional
              formed (named_self opts) python_name (ground arith))),
    )

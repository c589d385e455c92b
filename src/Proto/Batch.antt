-- ===== src/Proto/Batch.antt =====
-- paf/client.py and paf/server.py: the loops that put the fields of a transaction into a message and
-- pull them from one.
pub mod Entries
use paf.Prelude.{
  Bool, true, false, Option, none, some, List, [], ◌∷◌, Text, nat_eq, text_eq, if◌then◌else◌,
}
use paf.Prelude.Dict.{Dict, lookup, insert, erase, is_some}
use paf.Proto.Fields.{Field, Message, Pulled, python_name, pull, put}

-- `[field.pull(in_msg) for field in fields]`
unfoldable pub pull_all : List Field → Message → Option (List (Option Pulled) × Message)
unfolding pull
pull_all [] msg = some ([], msg)
pull_all (f ∷ fs) msg = elim (pull f false msg) [
  | none ↦ none
  | some (v, rest) ↦ elim (pull_all fs rest) [ none ↦ none | some (vs, end) ↦ some (v ∷ vs, end) ]
]

abbrev pub with_optarg : Text → Option Pulled → Dict Text Pulled → Dict Text Pulled
with_optarg key none optargs = optargs
with_optarg key (some v) optargs = insert key v optargs

-- The loop over the fields that may be left out. The client keeps them under their Python names, the
-- server under their names.
unfoldable pub pull_opts :
    (Field → Text) → List Field → Dict Text Pulled → Message → Option (Dict Text Pulled × Message)
unfolding pull
pull_opts key [] optargs msg = some (optargs, msg)
pull_opts key (f ∷ fs) optargs msg = elim (pull f true msg) [
  | none ↦ none
  | some (v, rest) ↦ pull_opts key fs (with_optarg (key f) v optargs) rest
]

-- A list of arguments put into the fields; `none` where the number of arguments is not that of the fields.
unfoldable pub put_all : List Field → List Pulled → Message → Option Message
unfolding put
put_all [] [] msg = some msg
put_all [] (v ∷ vs) msg = none
put_all (f ∷ fs) [] msg = none
put_all (f ∷ fs) (v ∷ vs) msg = put_all fs vs (put f v msg)

abbrev pub put_optional : Field → Option (Option Pulled) → Message → Message
put_optional f (some (some v)) msg = put f v msg
put_optional f _ msg = msg

-- The loop over the fields that may be left out: the message, and the arguments that are left. An
-- argument may be `None`. The client looks for a field's name, and the server for its Python name.
unfoldable pub put_opts :
    (Field → Text)
    → List Field
    → Dict Text (Option Pulled)
    → Message
    → Message × Dict Text (Option Pulled)
unfolding put
put_opts key [] optargs msg = (msg, optargs)
put_opts key (f ∷ fs) optargs msg =
    let given =
      put_opts key fs (erase (key f) optargs)
        (put_optional f (lookup (python_name f) optargs) msg) in
    let left_out = put_opts key fs optargs msg in
    if is_some (lookup (key f) optargs) then given else left_out

-- ===== src/Tests/Messages.antt =====
-- Concrete messages for paf/proto.py and paf/client.py, and what the theorems say of them.
use paf.Prelude.{◌≡◌, refl, true, some, [], ◌∷◌, nat_eq, text_eq, text_beq}
use paf.Prelude.Dict.{lookup}
use paf.Prelude.Int.{pos, negsuc}
use paf.Filter.Syntax.{Value, Props}
use paf.Proto.Props.{
  str, int, from_wire, to_wire, from_wire-to_wire, has_value, value_beq, int_beq, IsProps,
}
use paf.Proto.Fields.{Message, props, pull, put}
use paf.Proto.RoundTrip.{pull-put}
use paf.Proto.Types.{
  field_ta_cmd, field_ta_id, field_msg_type, field_service_props, field_match_type,
  field_service_id, ta_subscribe,
}
use paf.Client.{Transaction, TransactionState, consume_message, msg_type_notify}
use paf.Client.Steps.{Consumes, consume_message-Consumes}

abbrev some_props : Props
some_props =
    (b'a' ∷ [], Value.str (b'b' ∷ []) ∷ Value.int (negsuc 4) ∷ Value.bool true ∷ [])
    ∷ (b'c' ∷ [], Value.int (pos 0) ∷ [])
    ∷ []

some_props-IsProps : IsProps some_props
unfolding has_value value_beq int_beq text_beq
some_props-IsProps = ((refl, (refl, (refl, tt))), ((refl, tt), tt))

from_wire-to_wire_example : from_wire (to_wire some_props) ≡ some some_props
from_wire-to_wire_example = from_wire-to_wire some_props some_props-IsProps

abbrev head : Message
head = (field_ta_id.name, int (pos 17)) ∷ []

pull-put_example :
    pull field_service_props true (put field_service_props (props some_props) head)
    ≡ some (some (props some_props), head)
unfolding lookup text_beq
pull-put_example = pull-put field_service_props (props some_props) head true some_props-IsProps refl

abbrev subscribing : Transaction
subscribing = record { ta_id = 17; ta_type = ta_subscribe; state = TransactionState.accepted }

abbrev notification : Message
notification =
    (field_ta_cmd.name, str ta_subscribe.cmd)
    ∷ (field_msg_type.name, str msg_type_notify)
    ∷ (field_match_type.name, str (b'x' ∷ []))
    ∷ (field_service_id.name, int (pos 3))
    ∷ []

consume_message-Consumes_example : Consumes subscribing (consume_message notification subscribing)
consume_message-Consumes_example = consume_message-Consumes notification subscribing

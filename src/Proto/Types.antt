-- ===== src/Proto/Types.antt =====
-- paf/proto.py: the fields of the protocol, and the types of its transactions.
use paf.Prelude.{List, [], ◌∷◌, Text}
use paf.Proto.Fields.{Kind, Field}

abbrev pub field_ta_cmd : Field
field_ta_cmd = record {
  name = b't' ∷ b'a' ∷ b'-' ∷ b'c' ∷ b'm' ∷ b'd' ∷ [];
  kind = Kind.string_field;
}

abbrev pub field_ta_id : Field
field_ta_id = record {
  name = b't' ∷ b'a' ∷ b'-' ∷ b'i' ∷ b'd' ∷ [];
  kind = Kind.non_negative_int_field;
}

abbrev pub field_msg_type : Field
field_msg_type = record {
  name = b'm' ∷ b's' ∷ b'g' ∷ b'-' ∷ b't' ∷ b'y' ∷ b'p' ∷ b'e' ∷ [];
  kind = Kind.string_field;
}

abbrev pub field_fail_reason : Field
field_fail_reason = record {
  name = b'f' ∷ b'a' ∷ b'i' ∷ b'l' ∷ b'-' ∷ b'r' ∷ b'e' ∷ b'a' ∷ b's' ∷ b'o' ∷ b'n' ∷ [];
  kind = Kind.string_field;
}

abbrev pub field_proto_min_version : Field
field_proto_min_version = record {
  name =
      b'p' ∷ b'r' ∷ b'o' ∷ b't' ∷ b'o' ∷ b'c' ∷ b'o' ∷ b'l' ∷ b'-' ∷ b'm' ∷ b'i' ∷ b'n' ∷ b'i'
      ∷ b'm' ∷ b'u' ∷ b'm' ∷ b'-' ∷ b'v' ∷ b'e' ∷ b'r' ∷ b's' ∷ b'i' ∷ b'o' ∷ b'n' ∷ [];
  kind = Kind.non_negative_int_field;
}

abbrev pub field_proto_max_version : Field
field_proto_max_version = record {
  name =
      b'p' ∷ b'r' ∷ b'o' ∷ b't' ∷ b'o' ∷ b'c' ∷ b'o' ∷ b'l' ∷ b'-' ∷ b'm' ∷ b'a' ∷ b'x' ∷ b'i'
      ∷ b'm' ∷ b'u' ∷ b'm' ∷ b'-' ∷ b'v' ∷ b'e' ∷ b'r' ∷ b's' ∷ b'i' ∷ b'o' ∷ b'n' ∷ [];
  kind = Kind.non_negative_int_field;
}

abbrev pub field_proto_version : Field
field_proto_version = record {
  name =
      b'p' ∷ b'r' ∷ b'o' ∷ b't' ∷ b'o' ∷ b'c' ∷ b'o' ∷ b'l' ∷ b'-' ∷ b'v' ∷ b'e' ∷ b'r' ∷ b's'
      ∷ b'i' ∷ b'o' ∷ b'n' ∷ [];
  kind = Kind.non_negative_int_field;
}

abbrev pub field_service_props : Field
field_service_props = record {
  name =
      b's' ∷ b'e' ∷ b'r' ∷ b'v' ∷ b'i' ∷ b'c' ∷ b'e' ∷ b'-' ∷ b'p' ∷ b'r' ∷ b'o' ∷ b'p' ∷ b's' ∷ [];
  kind = Kind.props_field;
}

abbrev pub field_service_id : Field
field_service_id = record {
  name = b's' ∷ b'e' ∷ b'r' ∷ b'v' ∷ b'i' ∷ b'c' ∷ b'e' ∷ b'-' ∷ b'i' ∷ b'd' ∷ [];
  kind = Kind.non_negative_int_field;
}

abbrev pub field_generation : Field
field_generation = record {
  name = b'g' ∷ b'e' ∷ b'n' ∷ b'e' ∷ b'r' ∷ b'a' ∷ b't' ∷ b'i' ∷ b'o' ∷ b'n' ∷ [];
  kind = Kind.non_negative_int_field;
}

abbrev pub field_ttl : Field
field_ttl = record { name = b't' ∷ b't' ∷ b'l' ∷ []; kind = Kind.non_negative_int_field }

abbrev pub field_orphan_since : Field
field_orphan_since = record {
  name = b'o' ∷ b'r' ∷ b'p' ∷ b'h' ∷ b'a' ∷ b'n' ∷ b'-' ∷ b's' ∷ b'i' ∷ b'n' ∷ b'c' ∷ b'e' ∷ [];
  kind = Kind.number_field;
}

abbrev pub field_subscription_id : Field
field_subscription_id = record {
  name =
      b's' ∷ b'u' ∷ b'b' ∷ b's' ∷ b'c' ∷ b'r' ∷ b'i' ∷ b'p' ∷ b't' ∷ b'i' ∷ b'o' ∷ b'n' ∷ b'-'
      ∷ b'i' ∷ b'd' ∷ [];
  kind = Kind.non_negative_int_field;
}

abbrev pub field_filter : Field
field_filter = record {
  name = b'f' ∷ b'i' ∷ b'l' ∷ b't' ∷ b'e' ∷ b'r' ∷ [];
  kind = Kind.string_field;
}

abbrev pub field_client_id : Field
field_client_id = record {
  name = b'c' ∷ b'l' ∷ b'i' ∷ b'e' ∷ b'n' ∷ b't' ∷ b'-' ∷ b'i' ∷ b'd' ∷ [];
  kind = Kind.non_negative_int_field;
}

abbrev pub field_client_addr : Field
field_client_addr = record {
  name =
      b'c' ∷ b'l' ∷ b'i' ∷ b'e' ∷ b'n' ∷ b't' ∷ b'-' ∷ b'a' ∷ b'd' ∷ b'd' ∷ b'r' ∷ b'e' ∷ b's'
      ∷ b's' ∷ [];
  kind = Kind.string_field;
}

abbrev pub field_time : Field
field_time = record { name = b't' ∷ b'i' ∷ b'm' ∷ b'e' ∷ []; kind = Kind.non_negative_int_field }

abbrev pub field_match_type : Field
field_match_type = record {
  name = b'm' ∷ b'a' ∷ b't' ∷ b'c' ∷ b'h' ∷ b'-' ∷ b't' ∷ b'y' ∷ b'p' ∷ b'e' ∷ [];
  kind = Kind.string_field;
}

abbrev pub cmd_hello : Text
cmd_hello = b'h' ∷ b'e' ∷ b'l' ∷ b'l' ∷ b'o' ∷ []

abbrev pub cmd_subscribe : Text
cmd_subscribe = b's' ∷ b'u' ∷ b'b' ∷ b's' ∷ b'c' ∷ b'r' ∷ b'i' ∷ b'b' ∷ b'e' ∷ []

abbrev pub cmd_unsubscribe : Text
cmd_unsubscribe = b'u' ∷ b'n' ∷ b's' ∷ b'u' ∷ b'b' ∷ b's' ∷ b'c' ∷ b'r' ∷ b'i' ∷ b'b' ∷ b'e' ∷ []

abbrev pub cmd_subscriptions : Text
cmd_subscriptions =
    b's' ∷ b'u' ∷ b'b' ∷ b's' ∷ b'c' ∷ b'r' ∷ b'i' ∷ b'p' ∷ b't' ∷ b'i' ∷ b'o' ∷ b'n' ∷ b's' ∷ []

abbrev pub cmd_services : Text
cmd_services = b's' ∷ b'e' ∷ b'r' ∷ b'v' ∷ b'i' ∷ b'c' ∷ b'e' ∷ b's' ∷ []

abbrev pub cmd_publish : Text
cmd_publish = b'p' ∷ b'u' ∷ b'b' ∷ b'l' ∷ b'i' ∷ b's' ∷ b'h' ∷ []

abbrev pub cmd_unpublish : Text
cmd_unpublish = b'u' ∷ b'n' ∷ b'p' ∷ b'u' ∷ b'b' ∷ b'l' ∷ b'i' ∷ b's' ∷ b'h' ∷ []

abbrev pub cmd_ping : Text
cmd_ping = b'p' ∷ b'i' ∷ b'n' ∷ b'g' ∷ []

abbrev pub cmd_clients : Text
cmd_clients = b'c' ∷ b'l' ∷ b'i' ∷ b'e' ∷ b'n' ∷ b't' ∷ b's' ∷ []

pub data InteractionType : Type 0 where
  single_response multi_response : InteractionType

pub record TransactionType : Type 0 where
  pub cmd : Text
  pub ia_type : InteractionType
  pub request_fields : List Field
  pub opt_request_fields : List Field
  pub accept_fields : List Field
  pub opt_accept_fields : List Field
  pub notify_fields : List Field
  pub opt_notify_fields : List Field
  pub complete_fields : List Field
  pub opt_complete_fields : List Field
  pub fail_fields : List Field
  pub opt_fail_fields : List Field

abbrev pub ta_hello : TransactionType
ta_hello = record {
  cmd = cmd_hello;
  ia_type = InteractionType.single_response;
  request_fields = field_client_id ∷ field_proto_min_version ∷ field_proto_max_version ∷ [];
  opt_request_fields = [];
  accept_fields = [];
  opt_accept_fields = [];
  notify_fields = [];
  opt_notify_fields = [];
  complete_fields = field_proto_version ∷ [];
  opt_complete_fields = [];
  fail_fields = [];
  opt_fail_fields = field_fail_reason ∷ [];
}

abbrev pub ta_subscribe : TransactionType
ta_subscribe = record {
  cmd = cmd_subscribe;
  ia_type = InteractionType.multi_response;
  request_fields = field_subscription_id ∷ [];
  opt_request_fields = field_filter ∷ [];
  accept_fields = [];
  opt_accept_fields = [];
  notify_fields = field_match_type ∷ field_service_id ∷ [];
  opt_notify_fields =
      field_generation ∷ field_service_props ∷ field_ttl ∷ field_client_id ∷ field_orphan_since
      ∷ [];
  complete_fields = [];
  opt_complete_fields = [];
  fail_fields = [];
  opt_fail_fields = field_fail_reason ∷ [];
}

abbrev pub ta_unsubscribe : TransactionType
ta_unsubscribe = record {
  cmd = cmd_unsubscribe;
  ia_type = InteractionType.single_response;
  request_fields = field_subscription_id ∷ [];
  opt_request_fields = [];
  accept_fields = [];
  opt_accept_fields = [];
  notify_fields = [];
  opt_notify_fields = [];
  complete_fields = [];
  opt_complete_fields = [];
  fail_fields = [];
  opt_fail_fields = field_fail_reason ∷ [];
}

abbrev pub ta_subscriptions : TransactionType
ta_subscriptions = record {
  cmd = cmd_subscriptions;
  ia_type = InteractionType.multi_response;
  request_fields = [];
  opt_request_fields = [];
  accept_fields = [];
  opt_accept_fields = [];
  notify_fields = field_subscription_id ∷ field_client_id ∷ [];
  opt_notify_fields = field_filter ∷ [];
  complete_fields = [];
  opt_complete_fields = [];
  fail_fields = [];
  opt_fail_fields = [];
}

abbrev pub ta_services : TransactionType
ta_services = record {
  cmd = cmd_services;
  ia_type = InteractionType.multi_response;
  request_fields = [];
  opt_request_fields = field_filter ∷ [];
  accept_fields = [];
  opt_accept_fields = [];
  notify_fields =
      field_service_id ∷ field_generation ∷ field_service_props ∷ field_ttl ∷ field_client_id ∷ [];
  opt_notify_fields = field_orphan_since ∷ [];
  complete_fields = [];
  opt_complete_fields = [];
  fail_fields = [];
  opt_fail_fields = field_fail_reason ∷ [];
}

abbrev pub ta_publish : TransactionType
ta_publish = record {
  cmd = cmd_publish;
  ia_type = InteractionType.single_response;
  request_fields = field_service_id ∷ field_generation ∷ field_service_props ∷ field_ttl ∷ [];
  opt_request_fields = [];
  accept_fields = [];
  opt_accept_fields = [];
  notify_fields = [];
  opt_notify_fields = [];
  complete_fields = [];
  opt_complete_fields = [];
  fail_fields = [];
  opt_fail_fields = field_fail_reason ∷ [];
}

abbrev pub ta_unpublish : TransactionType
ta_unpublish = record {
  cmd = cmd_unpublish;
  ia_type = InteractionType.single_response;
  request_fields = field_service_id ∷ [];
  opt_request_fields = [];
  accept_fields = [];
  opt_accept_fields = [];
  notify_fields = [];
  opt_notify_fields = [];
  complete_fields = [];
  opt_complete_fields = [];
  fail_fields = [];
  opt_fail_fields = field_fail_reason ∷ [];
}

abbrev pub ta_ping : TransactionType
ta_ping = record {
  cmd = cmd_ping;
  ia_type = InteractionType.single_response;
  request_fields = [];
  opt_request_fields = [];
  accept_fields = [];
  opt_accept_fields = [];
  notify_fields = [];
  opt_notify_fields = [];
  complete_fields = [];
  opt_complete_fields = [];
  fail_fields = [];
  opt_fail_fields = field_fail_reason ∷ [];
}

abbrev pub ta_clients : TransactionType
ta_clients = record {
  cmd = cmd_clients;
  ia_type = InteractionType.multi_response;
  request_fields = [];
  opt_request_fields = [];
  accept_fields = [];
  opt_accept_fields = [];
  notify_fields = field_client_id ∷ field_client_addr ∷ field_time ∷ [];
  opt_notify_fields = [];
  complete_fields = [];
  opt_complete_fields = [];
  fail_fields = [];
  opt_fail_fields = [];
}

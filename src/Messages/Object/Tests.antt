-- ===== src/Messages/Object/Tests.antt =====
-- The claims about objects at concrete messages.
use libquicr.Prelude.{◌≡◌, refl, true, false, none, some, [], ◌∷◌, ◌++◌, ok, ◌>>=◌, inl, inr, arith}
use libquicr.CtrlTypes.Pairs.{kvp_wire}
use libquicr.UintVar.Wire.{wire}
use libquicr.Messages.Types.{stream_header_properties, StreamHeaderProperties, explicit}
use libquicr.Messages.Extensions.{
  Extensions, AllProgress, pairs, find, push_value, serialize_extensions, parse_all_extensions,
}
use libquicr.Messages.Extensions.Both.{
  ExtensionsFit, all_start, received_all, parse_all_extensions-serialize_extensions,
}
use libquicr.Messages.Object.SubGroup.{
  StreamSubGroupObject, parse_subgroup_object, serialize_subgroup_object,
}
use libquicr.Messages.Object.SubGroup.RoundTrip.{
  received_object, parse_subgroup_object-serialize_subgroup_object,
}
use libquicr.Messages.Object.Fetch.{FetchObject, parse_fetch_object, serialize_fetch_object}
use libquicr.Messages.Object.Fetch.RoundTrip.{
  received_object as received_fetch_object, parse_fetch_object-serialize_fetch_object,
}
use libquicr.Messages.Object.Datagram.{
  ObjectDatagram, parse_object_datagram, serialize_object_datagram,
}
use libquicr.Messages.Object.Datagram.RoundTrip.{
  received_datagram, parse_object_datagram-serialize_object_datagram,
}
use libquicr.Messages.Object.Status.{
  ObjectDatagramStatus, parse_datagram_status, serialize_datagram_status,
}
use libquicr.Messages.Object.Status.RoundTrip.{
  received_status, parse_datagram_status-serialize_datagram_status,
}

abbrev mutable : Extensions
mutable = (2, (5 ∷ []) ∷ []) ∷ (7, (1 ∷ 2 ∷ []) ∷ []) ∷ []

abbrev immutable : Extensions
immutable = (3, (9 ∷ []) ∷ []) ∷ []

both_fit : ExtensionsFit (some mutable) (some immutable)
unfolding pairs find kvp_wire push_value wire
both_fit = record {
  in_order = ((λ e. cc), (omega arith, tt), ((λ e. cc), tt, tt));
  no_block = refl;
  immutable = (
    ((λ e. cc), tt, tt),
    (((omega arith, inr (refl, omega arith)), omega arith), tt),
    refl,
    omega arith,
  );
  encodes = (
    ((omega arith, inl (refl, omega arith, (omega arith, tt), omega arith)), omega arith),
    (
      ((omega arith, inr (refl, omega arith)), omega arith),
      (((omega arith, inr (refl, omega arith)), omega arith), tt),
    ),
  );
  short = omega arith;
}

none_fit : ExtensionsFit none none
unfolding pairs find
none_fit = record {
  in_order = tt;
  no_block = refl;
  immutable = tt;
  encodes = tt;
  short = omega arith;
}

parse_all_extensions-serialize_extensions_example :
    (serialize_extensions (some mutable) (some immutable) [] >>= λ b.
    parse_all_extensions (b ++ (1 ∷ [])) all_start)
    ≡ ok (true, 1 ∷ [], received_all (some mutable) (some immutable))
parse_all_extensions-serialize_extensions_example =
    parse_all_extensions-serialize_extensions (some mutable) (some immutable) (1 ∷ []) both_fit

abbrev with_both : AllProgress
with_both = record all_start {
  mutable = record all_start.mutable { extensions = some mutable };
  immutable_extensions = some immutable;
}

abbrev datagram : ObjectDatagram
datagram = record {
  track_alias = 1;
  group_id = 2;
  object_id = 3;
  priority = 4;
  parsing = with_both;
  payload_len = 0;
  payload = 10 ∷ 11 ∷ [];
  end_of_group = true;
  type = none;
  current_pos = 0;
  parse_completed = false;
}

abbrev empty_datagram : ObjectDatagram
empty_datagram = record datagram { parsing = all_start; payload = []; end_of_group = false }

parse_object_datagram-serialize_object_datagram_example :
    (serialize_object_datagram datagram [] >>= λ b. parse_object_datagram b empty_datagram)
    ≡ ok (true, [], received_datagram datagram empty_datagram)
parse_object_datagram-serialize_object_datagram_example =
    parse_object_datagram-serialize_object_datagram datagram empty_datagram both_fit (omega arith)
      (omega arith) (omega arith) (omega arith) refl refl

abbrev datagram_status : ObjectDatagramStatus
datagram_status = record {
  track_alias = 1;
  group_id = 2;
  object_id = 3;
  priority = 4;
  parsing = with_both;
  status = 3;
  type = none;
  current_pos = 0;
  parse_completed = false;
}

abbrev empty_status : ObjectDatagramStatus
empty_status = record datagram_status { parsing = all_start; status = 0 }

parse_datagram_status-serialize_datagram_status_example :
    (serialize_datagram_status datagram_status [] >>= λ b.
    parse_datagram_status (b ++ (1 ∷ [])) empty_status)
    ≡ ok (true, 1 ∷ [], received_status datagram_status empty_status)
parse_datagram_status-serialize_datagram_status_example =
    parse_datagram_status-serialize_datagram_status datagram_status empty_status (1 ∷ []) both_fit
      (omega arith) (omega arith) (omega arith) (omega arith) refl refl

abbrev fetch_object : FetchObject
fetch_object = record {
  group_id = 1;
  subgroup_id = 2;
  object_id = 3;
  publisher_priority = 4;
  parsing = with_both;
  payload_len = 0;
  object_status = 3;
  payload = [];
  current_pos = 0;
  parse_completed = false;
}

abbrev empty_fetch_object : FetchObject
empty_fetch_object = record fetch_object { parsing = all_start; object_status = 0 }

parse_fetch_object-serialize_fetch_object_example :
    (serialize_fetch_object fetch_object [] >>= λ b.
    parse_fetch_object (b ++ (1 ∷ [])) empty_fetch_object)
    ≡ ok (true, 1 ∷ [], received_fetch_object fetch_object empty_fetch_object)
parse_fetch_object-serialize_fetch_object_example =
    parse_fetch_object-serialize_fetch_object fetch_object empty_fetch_object (1 ∷ []) both_fit
      (omega arith) (omega arith) (omega arith) (omega arith) (omega arith) refl refl

abbrev stream_object : StreamSubGroupObject
stream_object = record {
  object_delta = 1;
  payload_len = 0;
  object_status = 0;
  parsing = with_both;
  payload = 10 ∷ [];
  stream_type = some 0x15;
  current_pos = 0;
  parse_completed = false;
}

abbrev empty_stream_object : StreamSubGroupObject
empty_stream_object = record stream_object { parsing = all_start; payload = [] }

abbrev with_subgroups : StreamHeaderProperties
with_subgroups = record {
  subgroup_id_type = explicit;
  end_of_group = false;
  may_contain_extensions = true;
}

type_known : stream_header_properties 0x15 ≡ ok with_subgroups
unfolding stream_header_properties
type_known = refl

parse_subgroup_object-serialize_subgroup_object_example :
    (serialize_subgroup_object stream_object [] >>= λ b.
    parse_subgroup_object (b ++ (1 ∷ [])) empty_stream_object)
    ≡ ok (true, 1 ∷ [], received_object true stream_object empty_stream_object)
parse_subgroup_object-serialize_subgroup_object_example =
    parse_subgroup_object-serialize_subgroup_object stream_object empty_stream_object 0x15
      with_subgroups (1 ∷ []) refl refl type_known (both_fit, omega arith, omega arith, omega arith)
      refl refl

-- ===== src/Track/Deliver/Receive.antt =====
-- What a subscriber does with one whole object, and with one whole header.
use libquicr.Prelude.{
  ℕ, ◌+◌, ◌%◌, ◌^◌, ◌≡◌, refl, sym, true, false, Option, none, some, List, [], append-nil, ok,
  arith, ltb,
}
use libquicr.StreamBuffer.Object.{
  StreamBuffer, init_any, init_any_b, get_any, get_any_b, reinit_any_b, reset_any, clear,
  any_has_value_b, reset_any_b,
}
use libquicr.StreamBuffer.{decode_uint_v, read_uint_v}
use libquicr.Messages.Types.{stream_header_properties, StreamHeaderProperties}
use libquicr.Messages.StreamHeader.{StreamHeaderSubGroup}
use libquicr.Messages.StreamHeader.RoundTrip.{
  header_wire, received_header, HeaderFits, parse_stream_header-wire,
}
use libquicr.Messages.Object.SubGroup.{StreamSubGroupObject, parse_subgroup_object, case0}
use libquicr.Messages.Object.SubGroup.RoundTrip.{
  Fits, object_wire, received_object, parse_subgroup_object-wire,
}
use libquicr.Track.Subscribe.{
  SubscribeTrackHandler, new_header, new_object, next_id, headers_of, note_received, deliver,
  object_data_recv, stream_start, stream_more, stream_data_recv,
}
use libquicr.Track.Deliver.{never}

-- A buffer that waits for the next object of a stream.
abbrev pub at_rest :
    StreamHeaderSubGroup → Option ℕ → StreamBuffer ℕ StreamHeaderSubGroup StreamSubGroupObject
at_rest hdr type = record {
  buffer = [];
  parsed_data = some hdr;
  parsed_data_b = some (record new_object { stream_type = type });
  parsed_data_type = none;
}

-- The handler when it has passed an object on.
unfoldable pub passed_on :
    StreamHeaderSubGroup → ℕ → StreamSubGroupObject → SubscribeTrackHandler → SubscribeTrackHandler
passed_on hdr subgroup_id obj h =
    let id = next_id hdr obj.object_delta h in
    record (note_received (headers_of id subgroup_id hdr obj) obj.payload h) {
      stream_buffer = at_rest hdr none;
      next_object_id = some ((id + 1) % 2 ^ 64);
      current_group_id = hdr.group_id;
      current_subgroup_id = subgroup_id;
    }

pub stream_more-wire :
    (o : StreamSubGroupObject) (hdr : StreamHeaderSubGroup) (p : StreamHeaderProperties)
    (type : Option ℕ) (subgroup_id : ℕ) (h : SubscribeTrackHandler)
    → h.stream_buffer ≡ at_rest hdr type
    → hdr.subgroup_id ≡ some subgroup_id
    → stream_header_properties hdr.type ≡ ok p
    → o.stream_type ≡ some hdr.type
    → Fits p.may_contain_extensions o
    → stream_more never (object_wire p.may_contain_extensions o) h
      ≡ ok (
          passed_on hdr subgroup_id
            (received_object p.may_contain_extensions o
              (record new_object { stream_type = some hdr.type }))
            h)
unfolding stream_more object_data_recv deliver get_any get_any_b any_has_value_b reinit_any_b
    passed_on next_id note_received init_any_b reset_any_b
stream_more-wire o hdr p type subgroup_id h rest sub known t fits =
    let parsed =
      parse_subgroup_object-wire o (record new_object { stream_type = some hdr.type }) hdr.type p []
        refl known fits refl refl in
    rw (rest, known, sym (append-nil (object_wire p.may_contain_extensions o)), parsed, sub) refl

-- The handler when it has the header of a new stream.
unfoldable pub started : ℕ → StreamHeaderSubGroup → SubscribeTrackHandler → SubscribeTrackHandler
started stream_id hdr h = record h {
  stream_buffer = at_rest hdr (some hdr.type);
  current_stream_id = stream_id;
}

no_object_yet :
    (type : Option ℕ)
    → parse_subgroup_object [] (record new_object { stream_type = type })
      ≡ ok (false, [], record new_object { stream_type = type })
unfolding parse_subgroup_object case0 decode_uint_v read_uint_v
no_object_yet type = refl

stream_start-wire :
    (hdr : StreamHeaderSubGroup) (p : StreamHeaderProperties) (h : SubscribeTrackHandler)
    → stream_header_properties hdr.type ≡ ok p
    → HeaderFits p.subgroup_id_type hdr
    → stream_start never (header_wire hdr) h
      ≡ ok (record h {
        stream_buffer = at_rest (received_header p.subgroup_id_type hdr) (some hdr.type);
      })
unfolding stream_start object_data_recv get_any get_any_b any_has_value_b init_any init_any_b clear
    reset_any
stream_start-wire hdr p h known fits =
    let parsed = parse_stream_header-wire hdr new_header p [] known fits refl in
    rw (sym (append-nil (header_wire hdr)), parsed, known, no_object_yet (some hdr.type)) refl

pub stream_data_recv_start :
    (id : ℕ) (hdr : StreamHeaderSubGroup) (p : StreamHeaderProperties) (h : SubscribeTrackHandler)
    → h.current_stream_id ≡ id
    → stream_header_properties hdr.type ≡ ok p
    → HeaderFits p.subgroup_id_type hdr
    → stream_data_recv never true (id + 1) (header_wire hdr) h
      ≡ ok (started (id + 1) (received_header p.subgroup_id_type hdr) h)
unfolding stream_data_recv started
stream_data_recv_start id hdr p h here known fits =
    let newest : ltb (id + 1) id ≡ false = ground arith in
    rw (here, newest) (stream_start-wire hdr p (record h { current_stream_id = id + 1 }) known fits)

pub stream_data_recv_more :
    (bytes : List ℕ) (h : SubscribeTrackHandler)
    → stream_data_recv never false h.current_stream_id bytes h ≡ stream_more never bytes h
unfolding stream_data_recv
stream_data_recv_more bytes h =
    let newest : ltb h.current_stream_id h.current_stream_id ≡ false = ground arith in
    rw newest refl

-- ===== src/Track/Subscribe.antt =====
-- `SubscribeTrackHandler`: src/subscribe_track_handler.cpp.
use libquicr.Prelude.{
  ℕ, ◌+◌, Bool, true, false, not, ◌||◌, Option, none, some, List, [], ◌∷◌, Outcome, ok, throws,
  protocol_violation, ◌>>=◌, if◌then◌else◌, ◌==◌, ltb, u64, length,
}
use libquicr.StreamBuffer.{push}
use libquicr.StreamBuffer.Object.{
  StreamBuffer, init_any, init_any_b, get_any, get_any_b, reinit_any_b, clear, any_has_value_b,
}
use libquicr.Messages.Types.{SubgroupIdType, set_from_first_object, stream_header_properties}
use libquicr.Messages.Extensions.Both.{all_start}
use libquicr.Messages.StreamHeader.{StreamHeaderSubGroup, parse_stream_header}
use libquicr.Messages.Object.SubGroup.{StreamSubGroupObject, parse_subgroup_object}
use libquicr.Messages.Object.Datagram.{ObjectDatagram, parse_object_datagram}
use libquicr.Track.{datagram, stream, ObjectHeaders, value}

-- `received` are the calls of `ObjectReceived`, the latest in front.
pub record SubscribeTrackHandler : Type 0 where
  pub stream_buffer : StreamBuffer ℕ StreamHeaderSubGroup StreamSubGroupObject
  pub next_object_id : Option ℕ
  pub current_group_id : ℕ
  pub current_subgroup_id : ℕ
  pub current_stream_id : ℕ
  pub objects_received : ℕ
  pub bytes_received : ℕ
  pub received : List (ObjectHeaders × List ℕ)

-- The messages as `std::any::emplace` makes them.
abbrev pub new_header : StreamHeaderSubGroup
new_header = record {
  type = 0;
  track_alias = 0;
  group_id = 0;
  subgroup_id = none;
  priority = 0;
  current_pos = 0;
  parse_completed = false;
}

abbrev pub new_object : StreamSubGroupObject
new_object = record {
  object_delta = 0;
  payload_len = 0;
  object_status = 0;
  parsing = all_start;
  payload = [];
  stream_type = none;
  current_pos = 0;
  parse_completed = false;
}

-- A datagram is parsed into a local message; the members without an initialiser are all written before
-- it is complete.
abbrev pub new_datagram : ObjectDatagram
new_datagram = record {
  track_alias = 0;
  group_id = 0;
  object_id = 0;
  priority = 0;
  parsing = all_start;
  payload_len = 0;
  payload = [];
  end_of_group = false;
  type = none;
  current_pos = 0;
  parse_completed = false;
}

abbrev pub differs : ℕ → Option ℕ → Bool
differs n none = true
differs n (some m) = not (n == m)

unfoldable pub next_id : StreamHeaderSubGroup → ℕ → SubscribeTrackHandler → ℕ
next_id hdr delta h = elim h.next_object_id [
  | none ↦ delta
  | some next ↦
      if not (h.current_group_id == hdr.group_id) || differs h.current_subgroup_id hdr.subgroup_id
      then delta
      else u64 (next + delta)
]

-- `if (!s_hdr.subgroup_id.has_value()) …`
abbrev pub with_subgroup :
    Option ℕ → SubgroupIdType → ℕ → StreamHeaderSubGroup → Outcome StreamHeaderSubGroup
with_subgroup (some id) type next hdr = ok hdr
with_subgroup none set_from_first_object next hdr = ok (record hdr { subgroup_id = some next })
with_subgroup none _ next hdr = throws protocol_violation

abbrev pub headers_of : ℕ → ℕ → StreamHeaderSubGroup → StreamSubGroupObject → ObjectHeaders
headers_of object_id subgroup_id hdr obj = record {
  group_id = hdr.group_id;
  object_id = object_id;
  subgroup_id = subgroup_id;
  payload_length = length obj.payload;
  status = obj.object_status;
  priority = some hdr.priority;
  ttl = none;
  track_mode = some stream;
  extensions = obj.parsing.mutable.extensions;
  immutable_extensions = obj.parsing.immutable_extensions;
}

abbrev pub set_header : StreamHeaderSubGroup → SubscribeTrackHandler → SubscribeTrackHandler
set_header hdr h = record h { stream_buffer = record h.stream_buffer { parsed_data = some hdr } }

-- The metrics and the call of `ObjectReceived`.
unfoldable pub note_received :
    ObjectHeaders → List ℕ → SubscribeTrackHandler → SubscribeTrackHandler
note_received headers payload h = record h {
  objects_received = u64 (h.objects_received + 1);
  bytes_received = u64 (h.bytes_received + length payload);
  received = (headers, payload) ∷ h.received;
}

-- `fails` says whether `ObjectReceived`, which an application overrides, throws for these arguments.
module _ (fails : ObjectHeaders → List ℕ → Bool) where
  -- What follows when an object is complete.
  unfoldable pub deliver :
      SubgroupIdType
      → StreamHeaderSubGroup
      → StreamSubGroupObject
      → SubscribeTrackHandler
      → Outcome SubscribeTrackHandler
  deliver type hdr obj h =
      let next = next_id hdr obj.object_delta h in
      do
        current ← value hdr.subgroup_id
        hdr ← with_subgroup hdr.subgroup_id type next hdr
        subgroup_id ← value hdr.subgroup_id
        let headers = headers_of next subgroup_id hdr obj
        let h = set_header hdr h
        let h = note_received headers obj.payload h
        ok (record h {
          next_object_id = some (if fails headers obj.payload then next else u64 (next + 1));
          current_group_id = hdr.group_id;
          current_subgroup_id = current;
          stream_buffer = reinit_any_b new_object h.stream_buffer;
        })

  -- What a call does with the buffer behind the header: one object at most is taken from it.
  unfoldable pub object_data_recv : SubscribeTrackHandler → Outcome SubscribeTrackHandler
  object_data_recv h = do
    hdr ← get_any h.stream_buffer
    let s =
        if any_has_value_b h.stream_buffer
        then h.stream_buffer
        else init_any_b new_object h.stream_buffer
    obj ← get_any_b s
    properties ← stream_header_properties hdr.type
    r ← parse_subgroup_object s.buffer (record obj { stream_type = some hdr.type })
    let h = record h { stream_buffer = record s { buffer = r.1; parsed_data_b = some r.2 } }
    if r.0 then deliver properties.subgroup_id_type hdr r.2 h else ok h

  unfoldable pub stream_start : List ℕ → SubscribeTrackHandler → Outcome SubscribeTrackHandler
  stream_start bytes h = do
    let s = init_any new_header (clear h.stream_buffer)
    hdr ← get_any s
    r ← parse_stream_header (push bytes s.buffer) hdr
    let h = record h { stream_buffer = record s { buffer = r.1; parsed_data = some r.2 } }
    if r.0 then object_data_recv h else ok h

  unfoldable pub stream_more : List ℕ → SubscribeTrackHandler → Outcome SubscribeTrackHandler
  stream_more bytes h = object_data_recv (record h {
    stream_buffer = record h.stream_buffer { buffer = push bytes h.stream_buffer.buffer };
  })

  -- Data of a stream that is not the newest are ignored. When this throws, the state that is left is
  -- not modelled: the transport closes the connection.
  unfoldable pub stream_data_recv :
      Bool → ℕ → List ℕ → SubscribeTrackHandler → Outcome SubscribeTrackHandler
  stream_data_recv is_start stream_id bytes h =
      if ltb stream_id h.current_stream_id
      then ok h
      else (let h = record h { current_stream_id = stream_id } in
          if is_start then stream_start bytes h else stream_more bytes h)

  abbrev datagram_headers : ObjectDatagram → ObjectHeaders
  datagram_headers msg = record {
    group_id = msg.group_id;
    object_id = msg.object_id;
    subgroup_id = 0;
    payload_length = length msg.payload;
    status = 0;
    priority = some msg.priority;
    ttl = none;
    track_mode = some datagram;
    extensions = msg.parsing.mutable.extensions;
    immutable_extensions = msg.parsing.immutable_extensions;
  }

  unfoldable pub dgram_data_recv : List ℕ → SubscribeTrackHandler → Outcome SubscribeTrackHandler
  dgram_data_recv bytes h = do
    let s = clear h.stream_buffer
    r ← parse_object_datagram (push bytes s.buffer) new_datagram
    let h = record h { stream_buffer = record s { buffer = r.1 } }
    if r.0 then ok (note_received (datagram_headers r.2) r.2.payload h) else ok h

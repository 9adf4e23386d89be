-- ===== src/Track/Publish/Object.antt =====
-- `PublishTrackHandler::PublishObject`: src/publish_track_handler.cpp.
use libquicr.Prelude.{
  ℕ, ◌+◌, ◌-◌, ◌%◌, ◌^◌, Bool, true, false, not, ◌||◌, Option, none, some, List, [], Outcome, ok,
  ◌>>=◌, if◌then◌else◌, ◌==◌, ltb, u64, length,
}
use libquicr.CtrlTypes.{le_bytes}
use libquicr.Messages.Types.{SubgroupIdType, explicit, stream_header_properties}
use libquicr.Messages.Extensions.{Extensions, AllProgress, push_value, or_empty}
use libquicr.Messages.Extensions.Both.{all_start}
use libquicr.Messages.StreamHeader.{serialize_stream_header}
use libquicr.Messages.Object.SubGroup.{StreamSubGroupObject, serialize_subgroup_object}
use libquicr.Messages.Object.Datagram.{ObjectDatagram, serialize_object_datagram}
use libquicr.Track.{TrackMode, datagram, stream, ObjectHeaders, Enqueue, value, value_or}
use libquicr.Track.Publish.{
  PublishTrackHandler, Result, publish_gate, through, enqueue_made, stream_flags, datagram_flags,
  object_ok, internal_error, object_no_subscribers,
}

abbrev pub has_value : {A : Type 0} → Option A → Bool
has_value none = false
has_value (some a) = true

-- Changes of subgroups and groups need a new stream.
unfoldable pub is_stream_header_needed : ObjectHeaders → PublishTrackHandler → Bool
is_stream_header_needed headers p =
    not (has_value p.latest_object_id)
    || (not (p.latest_sub_group_id == headers.subgroup_id)
        || not (p.latest_group_id == headers.group_id))

abbrev pub set_track_mode : Option TrackMode → PublishTrackHandler → PublishTrackHandler
set_track_mode none p = p
set_track_mode (some mode) p = record p { default_track_mode = mode }

unfoldable pub group_id_delta : Option ℕ → ℕ → ℕ → ℕ
group_id_delta none latest_group_id group_id = 0
group_id_delta (some l) latest_group_id group_id =
    if ltb group_id latest_group_id then 0 else group_id - latest_group_id

unfoldable pub object_id_delta : Option ℕ → ℕ → ℕ
object_id_delta none object_id = u64 (object_id + 1) - 1
object_id_delta (some latest) object_id =
    (if ltb object_id latest then object_id else object_id - latest) - 1

-- The bytes of the gap as they lie in memory, the lowest first.
abbrev pub add_gap : ℕ → ℕ → Option Extensions → Option Extensions
add_gap key gap extensions = some (push_value key (le_bytes 8 gap) (or_empty extensions))

abbrev pub prior_group_id_gap : ℕ
prior_group_id_gap = 0x3c

abbrev pub prior_object_id_gap : ℕ
prior_object_id_gap = 0x3e

unfoldable pub object_extensions : ℕ → ℕ → Option Extensions → Option Extensions
object_extensions group_delta object_delta extensions =
    let e =
      if ltb 1 group_delta
      then add_gap prior_group_id_gap (group_delta - 1) extensions
      else extensions in
    if ltb 0 object_delta then add_gap prior_object_id_gap object_delta e else e

unfoldable pub note_published :
    ℕ → ObjectHeaders → List ℕ → PublishTrackHandler → PublishTrackHandler
note_published group_delta headers payload p = record p {
  pending_new_group_request_id = if group_delta == 0 then p.pending_new_group_request_id else none;
  latest_group_id = headers.group_id;
  latest_sub_group_id = headers.subgroup_id;
  latest_object_id = some headers.object_id;
  bytes_published = u64 (p.bytes_published + length payload);
  objects_published = u64 (p.objects_published + 1);
}

abbrev pub subgroup_of : SubgroupIdType → ℕ → Option ℕ
subgroup_of explicit subgroup_id = some subgroup_id
subgroup_of _ subgroup_id = none

abbrev pub priority_of : ObjectHeaders → PublishTrackHandler → ℕ
priority_of headers p = value_or headers.priority p.default_priority

-- The members that `PublishObject` does not set are written by no serialiser.
unfoldable pub stream_header : ObjectHeaders → PublishTrackHandler → Outcome (List ℕ)
stream_header headers p = do
  properties ← stream_header_properties p.stream_mode
  track_alias ← value p.track_alias
  serialize_stream_header
      (record {
        type = p.stream_mode;
        track_alias = track_alias;
        group_id = headers.group_id;
        subgroup_id = subgroup_of properties.subgroup_id_type headers.subgroup_id;
        priority = priority_of headers p;
        current_pos = 0;
        parse_completed = false;
      })
      []

-- What the parsers' part of a message holds when it is made to be sent.
abbrev pub sent_extensions : Option Extensions → Option Extensions → AllProgress
sent_extensions ext im = record all_start {
  mutable = record all_start.mutable { extensions = ext };
  immutable_extensions = im;
}

-- `unset` is what the object's `object_status` holds, which nothing sets.
unfoldable pub stream_object :
    ℕ → ℕ → Option Extensions → ObjectHeaders → List ℕ → PublishTrackHandler → StreamSubGroupObject
stream_object unset delta ext headers payload p = record {
  object_delta = delta;
  payload_len = 0;
  object_status = unset;
  parsing = sent_extensions ext headers.immutable_extensions;
  payload = payload;
  stream_type = some p.stream_mode;
  current_pos = 0;
  parse_completed = false;
}

unfoldable pub datagram_object :
    Option Extensions → ObjectHeaders → List ℕ → ℕ → PublishTrackHandler → ObjectDatagram
datagram_object ext headers payload track_alias p = record {
  track_alias = track_alias;
  group_id = headers.group_id;
  object_id = headers.object_id;
  priority = priority_of headers p;
  parsing = sent_extensions ext headers.immutable_extensions;
  payload_len = 0;
  payload = payload;
  end_of_group = false;
  type = none;
  current_pos = 0;
  parse_completed = false;
}

-- `ttl` is narrowed to 16 bits.
abbrev pub object_call : Bool → Bool → ObjectHeaders → PublishTrackHandler → List ℕ → Enqueue
object_call reliable new_stream headers p bytes = record {
  context_id = p.connection_handle;
  data_ctx_id = p.publish_data_ctx_id;
  group_id = headers.group_id;
  bytes = bytes;
  priority = priority_of headers p;
  ttl_ms = value_or headers.ttl p.default_ttl % 2 ^ 16;
  delay_ms = 0;
  flags = if reliable then stream_flags new_stream else datagram_flags;
}

module _ (answer : List Enqueue → ℕ) (unset : ℕ) where
  unfoldable pub send_stream_object :
      ℕ → Option Extensions → ObjectHeaders → List ℕ → PublishTrackHandler → Result
  send_stream_object delta ext headers payload p =
      enqueue_made answer
        (serialize_subgroup_object (stream_object unset delta ext headers payload p) [])
        (object_call true false headers p) p λ p. (p, ok object_ok)

  unfoldable pub send_object :
      TrackMode
      → Bool
      → ℕ
      → Option Extensions
      → ObjectHeaders
      → List ℕ
      → PublishTrackHandler
      → Result
  send_object datagram new_stream delta ext headers payload p =
      enqueue_made answer
        (value p.track_alias >>= λ track_alias.
          serialize_object_datagram (datagram_object ext headers payload track_alias p) [])
        (object_call false false headers p) p λ p. (p, ok object_ok)
  send_object stream false delta ext headers payload p =
      send_stream_object delta ext headers payload p
  send_object stream true delta ext headers payload p =
      enqueue_made answer (stream_header headers p) (object_call true true headers p) p
        λ p. send_stream_object delta ext headers payload p

  -- The method behind its `switch`.
  unfoldable pub publish_going : ObjectHeaders → List ℕ → Bool → PublishTrackHandler → Result
  publish_going headers payload new_stream p =
      let p = set_track_mode headers.track_mode p in
      let group_delta = group_id_delta p.latest_object_id p.latest_group_id headers.group_id in
      let object_delta = object_id_delta p.latest_object_id headers.object_id in
      let ext = object_extensions group_delta object_delta headers.extensions in
      let p = note_published group_delta headers payload p in
      if has_value p.request_id
      then send_object p.default_track_mode new_stream object_delta ext headers payload p
      else (p, ok object_no_subscribers)

  unfoldable pub publish_object : ObjectHeaders → List ℕ → PublishTrackHandler → Result
  publish_object headers payload p =
      if p.transport
      then through (publish_gate p.publish_status (is_stream_header_needed headers p)) p
          (publish_going headers payload)
      else (p, ok internal_error)

-- ===== src/Track/Deliver/Send.antt =====
-- What a publisher sends for one object.
use libquicr.Prelude.{ℕ, ◌≡◌, refl, true, false, Option, none, some, List, ◌∷◌, ok}
use libquicr.Messages.Types.{SubgroupIdType, stream_header_properties, StreamHeaderProperties}
use libquicr.Messages.Extensions.{Extensions}
use libquicr.Messages.StreamHeader.{StreamHeaderSubGroup}
use libquicr.Messages.StreamHeader.RoundTrip.{header_wire, HeaderFits, serialize_stream_header-wire}
use libquicr.Messages.Object.SubGroup.{StreamSubGroupObject}
use libquicr.Messages.Object.SubGroup.RoundTrip.{Fits, object_wire, serialize_subgroup_object-wire}
use libquicr.Track.{stream, ObjectHeaders, Enqueue}
use libquicr.Track.Publish.{PublishTrackHandler, status_ok, publish_gate, object_ok, enqueue}
use libquicr.Track.Publish.Object.{
  is_stream_header_needed, group_id_delta, object_id_delta, object_extensions, note_published,
  stream_header, stream_object, object_call, send_stream_object, send_object, publish_going,
  publish_object, priority_of, subgroup_of,
}
use libquicr.Track.Deliver.{accepts}

-- A publisher in stream mode that may send, with a request and an alias, and otherwise any.
abbrev pub ready : ℕ → ℕ → PublishTrackHandler → PublishTrackHandler
ready request_id alias p = record p {
  transport = true;
  request_id = some request_id;
  publish_status = status_ok;
  default_track_mode = stream;
  track_alias = some alias;
}

-- The object's own message, and the extensions in it.
abbrev pub sent_object : ℕ → ObjectHeaders → List ℕ → PublishTrackHandler → StreamSubGroupObject
sent_object unset headers payload p =
    let delta = object_id_delta p.latest_object_id headers.object_id in
    stream_object unset delta
      (object_extensions (group_id_delta p.latest_object_id p.latest_group_id headers.group_id)
        delta headers.extensions)
      headers payload p

-- The header of the stream that the object opens.
abbrev pub sent_header :
    ℕ → SubgroupIdType → ObjectHeaders → PublishTrackHandler → StreamHeaderSubGroup
sent_header alias type headers p = record {
  type = p.stream_mode;
  track_alias = alias;
  group_id = headers.group_id;
  subgroup_id = subgroup_of type headers.subgroup_id;
  priority = priority_of headers p;
  current_pos = 0;
  parse_completed = false;
}

module _ (unset : ℕ) (headers : ObjectHeaders) (payload : List ℕ) where
  pub send_stream_object-wire :
      (delta : ℕ) (ext : Option Extensions) (p : PublishTrackHandler)
      (props : StreamHeaderProperties)
      → stream_header_properties p.stream_mode ≡ ok props
      → Fits props.may_contain_extensions (stream_object unset delta ext headers payload p)
      → send_stream_object accepts unset delta ext headers payload p ≡ (
        record p {
          sent =
              object_call true false headers p (
                object_wire props.may_contain_extensions
                  (stream_object unset delta ext headers payload p))
              ∷ p.sent;
        },
        ok object_ok,
      )
  unfolding send_stream_object enqueue stream_object
  send_stream_object-wire delta ext p props known fits =
      rw
        (serialize_subgroup_object-wire (stream_object unset delta ext headers payload p)
          p.stream_mode props refl known fits)
        refl

  -- The publisher when it has noted the object, and the calls that it makes for it.
  abbrev pub noted : PublishTrackHandler → PublishTrackHandler
  noted p =
      note_published (group_id_delta p.latest_object_id p.latest_group_id headers.group_id) headers
        payload p

  abbrev pub call_of_object : StreamHeaderProperties → PublishTrackHandler → Enqueue
  call_of_object props p =
      object_call true false headers p
        (object_wire props.may_contain_extensions (sent_object unset headers payload p))

  abbrev pub call_of_header : ℕ → StreamHeaderProperties → PublishTrackHandler → Enqueue
  call_of_header alias props p =
      object_call true true headers p
        (header_wire (sent_header alias props.subgroup_id_type headers p))

  module _ (request_id alias : ℕ) (p : PublishTrackHandler) (props : StreamHeaderProperties) where
    pub publish_object_stays :
        stream_header_properties p.stream_mode ≡ ok props
        → headers.track_mode ≡ none
        → is_stream_header_needed headers p ≡ false
        → Fits props.may_contain_extensions (sent_object unset headers payload p)
        → publish_object accepts unset headers payload (ready request_id alias p) ≡ (
          record (noted (ready request_id alias p)) { sent = call_of_object props p ∷ p.sent },
          ok object_ok,
        )
    unfolding publish_object publish_going publish_gate note_published send_object stream_object
        send_stream_object is_stream_header_needed
    publish_object_stays known unchanged needed fits =
        rw (needed, unchanged)
          (send_stream_object-wire _ _ (noted (ready request_id alias p)) props known fits)

    pub publish_object_opens :
        stream_header_properties p.stream_mode ≡ ok props
        → headers.track_mode ≡ none
        → is_stream_header_needed headers p ≡ true
        → HeaderFits props.subgroup_id_type (sent_header alias props.subgroup_id_type headers p)
        → Fits props.may_contain_extensions (sent_object unset headers payload p)
        → publish_object accepts unset headers payload (ready request_id alias p) ≡ (
          record (noted (ready request_id alias p)) {
            sent = call_of_object props p ∷ call_of_header alias props p ∷ p.sent;
          },
          ok object_ok,
        )
    unfolding publish_object publish_going publish_gate note_published send_object stream_object
        send_stream_object is_stream_header_needed stream_header enqueue
    publish_object_opens known unchanged needed header fits =
        let made =
          serialize_stream_header-wire (sent_header alias props.subgroup_id_type headers p) props
            known header in
        rw (needed, unchanged, known, made)
          (send_stream_object-wire _ _
            (record (noted (ready request_id alias p)) {
              sent = call_of_header alias props p ∷ p.sent;
            })
            props known fits)

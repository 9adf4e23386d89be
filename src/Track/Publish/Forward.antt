-- ===== src/Track/Publish/Forward.antt =====
-- `PublishTrackHandler::ForwardPublishedData`: src/publish_track_handler.cpp.
use libquicr.Prelude.{ℕ, ◌+◌, Bool, Option, none, some, List, ok, if◌then◌else◌, u64, length}
use libquicr.Track.{TrackMode, datagram, stream, EnqueueFlags, Enqueue}
use libquicr.Track.Publish.{
  PublishTrackHandler, Result, forward_gate, through, enqueue, stream_flags, datagram_flags,
  object_ok, internal_error, object_no_subscribers,
}

abbrev pub forward_flags : TrackMode → Bool → EnqueueFlags
forward_flags datagram is_new_stream = datagram_flags
forward_flags stream is_new_stream = stream_flags is_new_stream

abbrev pub forward_call : Bool → List ℕ → PublishTrackHandler → Enqueue
forward_call is_new_stream bytes p = record {
  context_id = p.connection_handle;
  data_ctx_id = p.publish_data_ctx_id;
  group_id = p.latest_group_id;
  bytes = bytes;
  priority = p.default_priority;
  ttl_ms = p.default_ttl;
  delay_ms = 0;
  flags = forward_flags p.default_track_mode is_new_stream;
}

module _ (answer : List Enqueue → ℕ) where
  abbrev forward_to : Option ℕ → Bool → List ℕ → PublishTrackHandler → Result
  forward_to none is_new_stream bytes p = (p, ok object_no_subscribers)
  forward_to (some request_id) is_new_stream bytes p =
      enqueue answer (forward_call is_new_stream bytes p) p λ p. (p, ok object_ok)

  -- The parameter `is_new_stream` is used for the flags, whatever the `switch` decides.
  unfoldable pub forward_published_data : Bool → List ℕ → PublishTrackHandler → Result
  forward_published_data is_new_stream bytes p =
      if p.transport
      then (through (forward_gate p.publish_status is_new_stream) p λ _ p.
          let p = record p { bytes_published = u64 (p.bytes_published + length bytes) } in
          forward_to p.request_id is_new_stream bytes p)
      else (p, ok internal_error)

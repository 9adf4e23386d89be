-- ===== src/Track/Publish.antt =====
-- `PublishTrackHandler`: the state, the status gates and the calls of the transport.
pub mod Object
pub mod Forward
pub mod Laws
use libquicr.Prelude.{
  ℕ, ◌+◌, ◌-◌, ◌%◌, ◌^◌, Bool, true, false, not, ◌||◌, Option, none, some, List, [], ◌∷◌, Outcome,
  ok, throws, undefined, unfinished, invalid_argument, transport_error, ◌>>=◌, if◌then◌else◌, ◌==◌,
  ltb, u64, length,
}
use libquicr.Track.{
  TrackMode, datagram, stream, ObjectHeaders, EnqueueFlags, Enqueue, value, value_or,
}

pub data Status : Type 0 where
  status_ok not_connected not_announced pending_announce_response announce_not_authorized : Status
  no_subscribers sending_unannounce subscription_updated new_group_requested : Status
  pending_publish_ok paused : Status

pub data PublishObjectStatus : Type 0 where
  object_ok internal_error object_not_authorized object_not_announced : PublishObjectStatus
  object_no_subscribers object_payload_length_exceeded previous_object_truncated :
      PublishObjectStatus
  no_previous_object object_data_complete object_continuation_data_needed : PublishObjectStatus
  object_data_incomplete object_data_too_large : PublishObjectStatus
  previous_object_not_complete_must_start_new_group : PublishObjectStatus
  previous_object_not_complete_must_start_new_track : PublishObjectStatus
  object_paused object_pending_publish_ok : PublishObjectStatus

-- `transport` says whether the weak pointer can be locked; `sent` are the calls of its `Enqueue`, the
-- latest in front. `object_msg_buffer_` is cleared before each use and is no part of the state.
pub record PublishTrackHandler : Type 0 where
  pub transport : Bool
  pub connection_handle : ℕ
  pub request_id : Option ℕ
  pub publish_status : Status
  pub default_track_mode : TrackMode
  pub stream_mode : ℕ
  pub default_priority : ℕ
  pub default_ttl : ℕ
  pub publish_data_ctx_id : ℕ
  pub latest_group_id : ℕ
  pub latest_sub_group_id : ℕ
  pub latest_object_id : Option ℕ
  pub track_alias : Option ℕ
  pub pending_new_group_request_id : Option ℕ
  pub bytes_published : ℕ
  pub objects_published : ℕ
  pub objects_dropped_not_ok : ℕ
  pub sent : List Enqueue

-- A method's effect on the handler, and how the call ends.
abbrev pub Result : Type 0
Result = PublishTrackHandler × Outcome PublishObjectStatus

abbrev pub may_publish : Status → Bool
may_publish status_ok = true
may_publish new_group_requested = true
may_publish subscription_updated = true
may_publish _ = false

unfoldable pub can_publish : PublishTrackHandler → Bool
can_publish p = may_publish p.publish_status

abbrev pub stream_mode_of : TrackMode → Option ℕ → ℕ → Outcome ℕ
stream_mode_of datagram (some mode) unset = throws invalid_argument
stream_mode_of datagram none unset = ok unset
stream_mode_of stream mode unset = ok (value_or mode 0x11)

-- The constructor. `unset` stands for the values of the members that it leaves uninitialised.
unfoldable pub create : TrackMode → ℕ → ℕ → Option ℕ → ℕ → Outcome PublishTrackHandler
create mode priority ttl stream_mode unset = stream_mode_of mode stream_mode unset >>= λ m.
    ok (record {
      transport = false;
      connection_handle = unset;
      request_id = none;
      publish_status = not_announced;
      default_track_mode = mode;
      stream_mode = m;
      default_priority = priority;
      default_ttl = ttl;
      publish_data_ctx_id = unset;
      latest_group_id = 0;
      latest_sub_group_id = 0;
      latest_object_id = none;
      track_alias = none;
      pending_new_group_request_id = none;
      bytes_published = 0;
      objects_published = 0;
      objects_dropped_not_ok = 0;
      sent = [];
    })

-- What the `switch` on the status decides: to return, or to go on with a status and with a new stream
-- or not.
pub data Gate : Type 0 where
  refused : PublishObjectStatus → Gate
  going : Status → Bool → Gate

unfoldable pub publish_gate : Status → Bool → Gate
publish_gate status_ok header_needed = going status_ok header_needed
publish_gate paused header_needed = refused object_paused
publish_gate no_subscribers header_needed = refused object_no_subscribers
publish_gate pending_announce_response header_needed = refused object_not_announced
publish_gate not_announced header_needed = refused object_not_announced
publish_gate not_connected header_needed = refused object_not_announced
publish_gate announce_not_authorized header_needed = refused object_not_authorized
publish_gate new_group_requested false = going new_group_requested false
publish_gate new_group_requested true = going status_ok true
publish_gate subscription_updated header_needed = going status_ok true
publish_gate sending_unannounce header_needed = refused internal_error
publish_gate pending_publish_ok header_needed = refused internal_error

unfoldable pub forward_gate : Status → Bool → Gate
forward_gate status_ok is_new_stream = going status_ok is_new_stream
forward_gate paused is_new_stream = refused object_paused
forward_gate no_subscribers is_new_stream = refused object_no_subscribers
forward_gate pending_announce_response is_new_stream = refused object_not_announced
forward_gate not_announced is_new_stream = refused object_not_announced
forward_gate not_connected is_new_stream = refused object_not_announced
forward_gate announce_not_authorized is_new_stream = refused object_not_authorized
forward_gate new_group_requested false = going new_group_requested false
forward_gate new_group_requested true = going status_ok true
forward_gate subscription_updated false = going subscription_updated false
forward_gate subscription_updated true = going status_ok true
forward_gate pending_publish_ok is_new_stream = refused object_pending_publish_ok
forward_gate sending_unannounce is_new_stream = refused internal_error

unfoldable pub refuse : PublishObjectStatus → PublishTrackHandler → Result
refuse status p =
    (record p { objects_dropped_not_ok = u64 (p.objects_dropped_not_ok + 1) }, ok status)

abbrev pub stream_flags : Bool → EnqueueFlags
stream_flags new_stream = record {
  use_reliable = true;
  new_stream = new_stream;
  clear_tx_queue = new_stream;
  use_reset = false;
}

abbrev pub datagram_flags : EnqueueFlags
datagram_flags = record {
  use_reliable = false;
  new_stream = false;
  clear_tx_queue = false;
  use_reset = false;
}

-- `PublishObject` and `ForwardPublishedData` behind the `switch`.
abbrev pub through : Gate → PublishTrackHandler → (Bool → PublishTrackHandler → Result) → Result
through (refused status) p k = refuse status p
through (going status new_stream) p k = k new_stream (record p { publish_status = status })

-- The transport answers a call of `Enqueue`, knowing those before it, by an error or by 0 for `kNone`.
module _ (answer : List Enqueue → ℕ) where
  unfoldable pub enqueue : Enqueue → PublishTrackHandler → (PublishTrackHandler → Result) → Result
  enqueue call p k =
      let p = record p { sent = call ∷ p.sent } in
      if answer p.sent == 0 then k p else (p, throws (transport_error (answer p.sent)))

  -- The bytes are made before the call, unless that throws.
  abbrev pub enqueue_made :
      Outcome (List ℕ)
      → (List ℕ → Enqueue)
      → PublishTrackHandler
      → (PublishTrackHandler → Result)
      → Result
  enqueue_made (ok bytes) call p k = enqueue (call bytes) p k
  enqueue_made (throws e) call p k = (p, throws e)
  enqueue_made undefined call p k = (p, undefined)
  enqueue_made unfinished call p k = (p, unfinished)

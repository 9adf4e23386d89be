-- ===== src/Track/Fetch.antt =====
-- `FetchTrackHandler` and `JoiningFetchHandler`: src/fetch_track_handler.cpp and
-- src/joining_fetch_handler.cpp.
use libquicr.Prelude.{
  ℕ, ◌+◌, Bool, true, false, none, some, List, [], ◌∷◌, Outcome, ok, ◌>>=◌, if◌then◌else◌, u64,
  length,
}
use libquicr.StreamBuffer.{push}
use libquicr.StreamBuffer.Object.{
  StreamBuffer, init_any, init_any_b, get_any, get_any_b, reinit_any_b, clear, any_has_value_b,
}
use libquicr.Messages.Extensions.Both.{all_start}
use libquicr.Messages.FetchHeader.{FetchHeader, parse_fetch_header}
use libquicr.Messages.Object.Fetch.{FetchObject, parse_fetch_object}
use libquicr.Track.{stream, ObjectHeaders}

abbrev pub FetchBuffer : Type 0
FetchBuffer = StreamBuffer ℕ FetchHeader FetchObject

-- `received` are the calls of `ObjectReceived`, the latest in front. An exception that the
-- application's `ObjectReceived` throws is caught and changes nothing here.
pub record FetchTrackHandler : Type 0 where
  pub stream_buffer : FetchBuffer
  pub objects_received : ℕ
  pub bytes_received : ℕ
  pub received : List (ObjectHeaders × List ℕ)

-- A joining fetch passes objects on to the handler of its subscription, without metrics.
pub record JoiningFetchHandler : Type 0 where
  pub stream_buffer : FetchBuffer
  pub received : List (ObjectHeaders × List ℕ)

-- The messages as `std::any::emplace` makes them.
abbrev pub new_header : FetchHeader
new_header = record { type = 5; request_id = 0; current_pos = 0; parse_completed = false }

abbrev pub new_object : FetchObject
new_object = record {
  group_id = 0;
  subgroup_id = 0;
  object_id = 0;
  publisher_priority = 0;
  parsing = all_start;
  payload_len = 0;
  object_status = 0;
  payload = [];
  current_pos = 0;
  parse_completed = false;
}

abbrev pub fetch_headers : FetchObject → ObjectHeaders
fetch_headers obj = record {
  group_id = obj.group_id;
  object_id = obj.object_id;
  subgroup_id = obj.subgroup_id;
  payload_length = length obj.payload;
  status = obj.object_status;
  priority = some obj.publisher_priority;
  ttl = none;
  track_mode = some stream;
  extensions = obj.parsing.mutable.extensions;
  immutable_extensions = obj.parsing.immutable_extensions;
}

-- What both handlers do first: the buffer, and whether the header is complete.
unfoldable pub fetch_start : Bool → List ℕ → FetchBuffer → Outcome (Bool × FetchBuffer)
fetch_start true bytes s = do
  let s = init_any new_header (clear s)
  hdr ← get_any s
  r ← parse_fetch_header (push bytes s.buffer) hdr
  ok (r.0, record s { buffer = r.1; parsed_data = some r.2 })
fetch_start false bytes s = ok (true, record s { buffer = push bytes s.buffer })

-- The object that the buffer works on takes what it can from it.
unfoldable pub fetch_parse : FetchBuffer → Outcome (Bool × FetchBuffer × FetchObject)
fetch_parse s = do
  obj ← get_any_b s
  r ← parse_fetch_object s.buffer obj
  ok (r.0, record s { buffer = r.1; parsed_data_b = some r.2 }, r.2)

unfoldable pub note_fetched : FetchObject → FetchTrackHandler → FetchTrackHandler
note_fetched obj h = record h {
  objects_received = u64 (h.objects_received + 1);
  bytes_received = u64 (h.bytes_received + length obj.payload);
  received = (fetch_headers obj, obj.payload) ∷ h.received;
}

unfoldable pub fetch_object_recv : FetchTrackHandler → Outcome FetchTrackHandler
fetch_object_recv h = do
  r ← fetch_parse (
      if any_has_value_b h.stream_buffer
      then h.stream_buffer
      else init_any_b new_object h.stream_buffer)
  if r.0
      then (ok (record (note_fetched r.2 h) { stream_buffer = reinit_any_b new_object r.1 }))
      else ok (record h { stream_buffer = r.1 })

unfoldable pub fetch_data_recv : Bool → List ℕ → FetchTrackHandler → Outcome FetchTrackHandler
fetch_data_recv is_start bytes h = do
  r ← fetch_start is_start bytes h.stream_buffer
  let h = record h { stream_buffer = r.1 }
  if r.0 then fetch_object_recv h else ok h

-- The message is made anew for each call, whatever the last one has read of it.
unfoldable pub joining_object_recv : JoiningFetchHandler → Outcome JoiningFetchHandler
joining_object_recv h = do
  r ← fetch_parse (init_any_b new_object h.stream_buffer)
  if r.0
      then (ok (record {
        stream_buffer = reinit_any_b new_object r.1;
        received = (fetch_headers r.2, r.2.payload) ∷ h.received;
      }))
      else ok (record h { stream_buffer = r.1 })

unfoldable pub joining_data_recv : Bool → List ℕ → JoiningFetchHandler → Outcome JoiningFetchHandler
joining_data_recv is_start bytes h = do
  r ← fetch_start is_start bytes h.stream_buffer
  let h = record h { stream_buffer = r.1 }
  if r.0 then joining_object_recv h else ok h

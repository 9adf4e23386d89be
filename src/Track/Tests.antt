-- ===== src/Track/Tests.antt =====
-- The claims about the track handlers at concrete handlers and objects.
use libquicr.Prelude.{
  ℕ, ◌<◌, ◌^◌, ◌≡◌, refl, true, false, none, some, List, [], ◌∷◌, ok, inl, arith, ◌++◌, append-nil,
  length, length-append,
}
use libquicr.Messages.Types.{explicit, stream_header_properties, StreamHeaderProperties}
use libquicr.UintVar.Wire.{wire}
use libquicr.CtrlTypes.{le_bytes, le_word}
use libquicr.Messages.Extensions.RoundTrip.{length-wire_bound}
use libquicr.CtrlTypes.Pairs.{kvp_wire, le_bytes-IsByte}
use libquicr.Messages.Extensions.{push_value, pairs, find}
use libquicr.Messages.Extensions.Both.{ExtensionsFit}
use libquicr.Messages.Object.SubGroup.RoundTrip.{Fits}
use libquicr.Track.{stream, datagram, ObjectHeaders}
use libquicr.Track.Publish.{PublishTrackHandler, status_ok}
use libquicr.Track.Publish.Object.{
  object_extensions, group_id_delta, object_id_delta, stream_object, note_published,
}
use libquicr.Track.Subscribe.{SubscribeTrackHandler}
use libquicr.Track.Publish.{paused, can_publish}
use libquicr.Track.Publish.Object.{publish_object}
use libquicr.Track.Publish.Forward.{forward_published_data}
use libquicr.Track.Publish.Laws.{IsRefused, publish_object-IsRefused}
use libquicr.Track.Deliver.{accepts}
use libquicr.Track.Deliver.{relay}
use libquicr.Track.Deliver.Send.{sent_object}
use libquicr.Track.Deliver.Session.{Sendable, InSync}
use libquicr.Track.Deliver.Receive.{at_rest}
use libquicr.Track.Deliver.Misnumbered.{relay_misnumbers}
use libquicr.Messages.StreamHeader.{StreamHeaderSubGroup}
use libquicr.Track.Deliver.Run.{begins, continues, changes, IsRun}
use libquicr.Track.Deliver.Relay.{log_of, relay-log}

abbrev publisher : PublishTrackHandler
publisher = record {
  transport = true;
  connection_handle = 1;
  request_id = some 2;
  publish_status = status_ok;
  default_track_mode = stream;
  stream_mode = 0x15;
  default_priority = 3;
  default_ttl = 100;
  publish_data_ctx_id = 4;
  latest_group_id = 0;
  latest_sub_group_id = 0;
  latest_object_id = none;
  track_alias = some 5;
  pending_new_group_request_id = none;
  bytes_published = 0;
  objects_published = 0;
  objects_dropped_not_ok = 0;
  sent = [];
}

abbrev subscriber : SubscribeTrackHandler
subscriber = record {
  stream_buffer = record {
    buffer = [];
    parsed_data = none;
    parsed_data_b = none;
    parsed_data_type = none;
  };
  next_object_id = none;
  current_group_id = 0;
  current_subgroup_id = 0;
  current_stream_id = 7;
  objects_received = 0;
  bytes_received = 0;
  received = [];
}

abbrev object_at : ℕ → ℕ → ℕ → ObjectHeaders
object_at group_id subgroup_id object_id = record {
  group_id = group_id;
  object_id = object_id;
  subgroup_id = subgroup_id;
  payload_length = 1;
  status = 0;
  priority = none;
  ttl = none;
  track_mode = none;
  extensions = none;
  immutable_extensions = none;
}

abbrev with_subgroups : StreamHeaderProperties
with_subgroups = record {
  subgroup_id_type = explicit;
  end_of_group = false;
  may_contain_extensions = true;
}

type_known : stream_header_properties 0x15 ≡ ok with_subgroups
unfolding stream_header_properties
type_known = refl

none_fit : ExtensionsFit none none
unfolding pairs find
none_fit = record {
  in_order = tt;
  no_block = refl;
  immutable = tt;
  encodes = tt;
  short = omega arith;
}

short_pair : (k v : ℕ) → length ((wire k ++ wire v) ++ []) < 2 ^ 62
short_pair k v = rw append-nil (
    omega
      (arith, length-append (wire k) (wire v), (length-wire_bound k).1, (length-wire_bound v).1))

gap_fit : (gap : ℕ) → gap < 2 ^ 62 → ExtensionsFit (some ((0x3e, le_bytes 8 gap ∷ []) ∷ [])) none
unfolding pairs find kvp_wire
gap_fit gap low = record {
  in_order = ((λ e. cc), tt, tt);
  no_block = refl;
  immutable = tt;
  encodes = (
    (
      (omega arith, inl (refl, omega arith, le_bytes-IsByte 8 gap, omega (arith, low))),
      omega arith,
    ),
    tt,
  );
  short = short_pair 0x3e (le_word (le_bytes 8 gap));
}

abbrev objects : List (ObjectHeaders × List ℕ)
objects =
    (object_at 1 2 5, 10 ∷ [])
    ∷ (object_at 1 2 6, 11 ∷ [])
    ∷ (object_at 1 2 9, 12 ∷ 13 ∷ [])
    ∷ (object_at 2 0 0, 14 ∷ [])
    ∷ []

sendable :
    (p : PublishTrackHandler) (g s o x : ℕ) (xs : List ℕ)
    → p.stream_mode ≡ 0x15
    → (g < 2 ^ 62) × (s < 2 ^ 62) × (o < 2 ^ 62)
    → Fits true (sent_object 0 (object_at g s o) (x ∷ xs) p)
    → Sendable 0 5 with_subgroups p (object_at g s o) (x ∷ xs)
sendable p g s o x xs mode (hg, hs, ho) fits = record {
  mode = refl;
  some_bytes = λ e. cc;
  id_bound = ho;
  header = (rw mode (omega arith), omega arith, hg, hs);
  subgroup = refl;
  object = fits;
}

objects-IsRun : IsRun 0 2 5 with_subgroups objects publisher
unfolding stream_object note_published object_id_delta group_id_delta object_extensions push_value
objects-IsRun = (
  sendable publisher 1 2 5 10 [] refl (omega arith, omega arith, omega arith)
      (gap_fit 5 (omega arith), omega arith, omega arith, omega arith),
  begins refl,
  (
    sendable _ 1 2 6 11 [] refl (omega arith, omega arith, omega arith)
        (none_fit, omega arith, omega arith, omega arith),
    continues 5 refl refl refl (omega arith),
    (
      sendable _ 1 2 9 12 (13 ∷ []) refl (omega arith, omega arith, omega arith)
          (gap_fit 2 (omega arith), omega arith, omega arith, omega arith),
      continues 6 refl refl refl (omega arith),
      (
        sendable _ 2 0 0 14 [] refl (omega arith, omega arith, omega arith)
            (none_fit, omega arith, omega arith, omega arith),
        changes (inl (λ e. omega (arith, e))) refl,
        tt,
      ),
    ),
  ),
)

relay-log_example :
    log_of (relay 0 objects publisher (7, subscriber))
    ≡ ok (
        (2, 0, 0, 14 ∷ []) ∷ (1, 2, 9, 12 ∷ 13 ∷ []) ∷ (1, 2, 6, 11 ∷ []) ∷ (1, 2, 5, 10 ∷ []) ∷ [])
relay-log_example =
    relay-log 0 2 5 with_subgroups objects publisher (7, subscriber) type_known
      (inl (refl, refl, refl)) objects-IsRun

abbrev stream_header : StreamHeaderSubGroup
stream_header = record {
  type = 0x15;
  track_alias = 5;
  group_id = 1;
  subgroup_id = some 0;
  priority = 3;
  current_pos = 5;
  parse_completed = true;
}

abbrev later : PublishTrackHandler
later = record publisher { latest_group_id = 1; latest_object_id = some 4 }

abbrev in_step : SubscribeTrackHandler
in_step = record subscriber {
  stream_buffer = at_rest stream_header none;
  next_object_id = some 5;
  current_group_id = 1;
}

in_step-InSync : InSync later (7, in_step)
in_step-InSync = record {
  hdr = stream_header;
  last = 4;
  newest = refl;
  resting = refl;
  type = refl;
  group = refl;
  subgroup = refl;
  latest = refl;
  next = refl;
  current_group = refl;
  current_subgroup = refl;
}

later-Sendable : Sendable 0 5 with_subgroups later (object_at 2 0 3) (9 ∷ [])
unfolding stream_object object_id_delta group_id_delta object_extensions push_value
later-Sendable =
    sendable later 2 0 3 9 [] refl (omega arith, omega arith, omega arith)
      (gap_fit 2 (omega arith), omega arith, omega arith, omega arith)

relay_misnumbers_example :
    (log_of (relay 0 ((object_at 2 0 3, 9 ∷ []) ∷ []) later (7, in_step))
      ≡ ok ((2, 0, 2, 9 ∷ []) ∷ []))
    × (2 < 3)
unfolding object_id_delta
relay_misnumbers_example =
    relay_misnumbers 0 2 5 with_subgroups (object_at 2 0 3) (9 ∷ []) later (7, in_step) type_known
      in_step-InSync later-Sendable (inl (λ e. omega (arith, e))) (λ e. omega (arith, e))

abbrev stopped : PublishTrackHandler
stopped = record publisher { publish_status = paused }

publish_object-IsRefused_example :
    IsRefused stopped (publish_object accepts 0 (object_at 1 2 3) (9 ∷ []) stopped)
    × IsRefused stopped (forward_published_data accepts true (9 ∷ []) stopped)
unfolding can_publish
publish_object-IsRefused_example =
    publish_object-IsRefused accepts 0 (object_at 1 2 3) (9 ∷ []) true stopped refl refl

abbrev for_datagrams : PublishTrackHandler
for_datagrams = record publisher { default_track_mode = datagram }

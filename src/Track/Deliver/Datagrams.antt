-- ===== src/Track/Deliver/Datagrams.antt =====
-- An object published in a datagram.
use libquicr.Prelude.{ℕ, List}
use libquicr.Messages.Object.Datagram.{ObjectDatagram}
use libquicr.Track.{datagram, ObjectHeaders}
use libquicr.Track.Publish.{PublishTrackHandler}
use libquicr.Track.Publish.Object.{
  group_id_delta, object_id_delta, object_extensions, datagram_object,
}
use libquicr.Track.Deliver.Send.{ready}

abbrev pub ready_datagram : ℕ → ℕ → PublishTrackHandler → PublishTrackHandler
ready_datagram request_id alias p = record (ready request_id alias p) {
  default_track_mode = datagram;
}

-- The message in the datagram.
abbrev pub sent_datagram : ObjectHeaders → List ℕ → ℕ → PublishTrackHandler → ObjectDatagram
sent_datagram headers payload alias p =
    datagram_object
      (object_extensions (group_id_delta p.latest_object_id p.latest_group_id headers.group_id)
        (object_id_delta p.latest_object_id headers.object_id) headers.extensions)
      headers payload alias p

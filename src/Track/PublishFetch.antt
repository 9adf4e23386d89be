-- ===== src/Track/PublishFetch.antt =====
-- `PublishFetchHandler`: src/publish_fetch_handler.cpp.
use libquicr.Prelude.{
  ℕ, Bool, true, false, not, Option, none, some, List, [], Outcome, ok, if◌then◌else◌,
}
use libquicr.Messages.FetchHeader.{serialize_fetch_header}
use libquicr.Messages.Object.Fetch.{FetchObject, serialize_fetch_object}
use libquicr.Track.{ObjectHeaders, Enqueue}
use libquicr.Track.Publish.{
  PublishTrackHandler, PublishObjectStatus, enqueue_made, object_ok, internal_error,
  object_no_subscribers,
}
use libquicr.Track.Publish.Object.{sent_extensions, priority_of, object_call}

-- `base` is the part that the class inherits.
pub record PublishFetchHandler : Type 0 where
  pub base : PublishTrackHandler
  pub group_order : ℕ
  pub sent_first_header : Bool

-- The header and the object of a call, and the bytes of each.
unfoldable pub fetch_header : ℕ → Outcome (List ℕ)
fetch_header request_id =
    serialize_fetch_header
      (record { type = 5; request_id = request_id; current_pos = 0; parse_completed = false }) []

-- `unset` is what `subgroup_id` and `object_status` hold, which nothing sets.
unfoldable pub fetch_object : ℕ → ObjectHeaders → List ℕ → PublishTrackHandler → FetchObject
fetch_object unset headers payload p = record {
  group_id = headers.group_id;
  subgroup_id = unset;
  object_id = headers.object_id;
  publisher_priority = priority_of headers p;
  parsing = sent_extensions headers.extensions headers.immutable_extensions;
  payload_len = 0;
  object_status = unset;
  payload = payload;
  current_pos = 0;
  parse_completed = false;
}

module _ (answer : List Enqueue → ℕ) (unset : ℕ) where
  unfoldable pub send_fetch_object :
      ObjectHeaders
      → List ℕ
      → PublishTrackHandler
      → PublishTrackHandler × Outcome PublishObjectStatus
  send_fetch_object headers payload p =
      enqueue_made answer (serialize_fetch_object (fetch_object unset headers payload p) [])
        (object_call true false headers p) p λ p. (p, ok object_ok)

  abbrev send_fetch :
      Option ℕ
      → Bool
      → ObjectHeaders
      → List ℕ
      → PublishTrackHandler
      → PublishTrackHandler × Outcome PublishObjectStatus
  send_fetch none new_stream headers payload p = (p, ok object_no_subscribers)
  send_fetch (some request_id) false headers payload p = send_fetch_object headers payload p
  send_fetch (some request_id) true headers payload p =
      enqueue_made answer (fetch_header request_id) (object_call true true headers p) p
        λ p. send_fetch_object headers payload p

  unfoldable pub publish_fetch_object :
      ObjectHeaders
      → List ℕ
      → PublishFetchHandler
      → PublishFetchHandler × Outcome PublishObjectStatus
  publish_fetch_object headers payload h =
      if h.base.transport
      then (let r = send_fetch h.base.request_id (not h.sent_first_header) headers payload h.base in
          (record h { base = r.0; sent_first_header = true }, r.1))
      else (h, ok internal_error)

-- ===== src/Track/Deliver/Session.antt =====
-- A publisher and a subscriber in step.

use libquicr.Prelude.{
  ℕ, ◌+◌, ◌%◌, ◌^◌, ◌<◌, ◌≡◌, ◌≢◌, refl, sym, ◌∙◌, ap, Option, none, some, List, [], ◌∷◌, map, ok,
  arith,
}
use libquicr.Messages.Types.{stream_header_properties, StreamHeaderProperties}
use libquicr.Messages.StreamHeader.{StreamHeaderSubGroup}
use libquicr.Messages.StreamHeader.RoundTrip.{HeaderFits, received_id, received_header}
use libquicr.Messages.Object.SubGroup.RoundTrip.{Fits, received_object}
use libquicr.Track.{ObjectHeaders}
use libquicr.Track.Publish.{PublishTrackHandler}
use libquicr.Track.Publish.Object.{object_id_delta, note_published, stream_object, subgroup_of}
use libquicr.Track.Subscribe.{SubscribeTrackHandler, new_object, next_id, note_received}
use libquicr.Track.Deliver.{Receiver, carry, carry_all}
use libquicr.Track.Deliver.Receive.{
  at_rest, passed_on, started, stream_more-wire, stream_data_recv_start, stream_data_recv_more,
}
use libquicr.Track.Deliver.Send.{sent_object, sent_header, noted, call_of_object, call_of_header}

-- What a subscriber's application can tell of an object: where it belongs, and its bytes.
abbrev pub seen : ObjectHeaders × List ℕ → ℕ × ℕ × ℕ × List ℕ
seen (headers, payload) = (headers.group_id, headers.subgroup_id, headers.object_id, payload)

-- The subscriber has read everything, and knows the group, the subgroup and the id that the publisher
-- published last.
pub record InSync (p : PublishTrackHandler) (r : Receiver) : Type 0 where
  pub hdr : StreamHeaderSubGroup
  pub last : ℕ
  pub newest : r.1.current_stream_id ≡ r.0
  pub resting : r.1.stream_buffer ≡ at_rest hdr none
  pub type : hdr.type ≡ p.stream_mode
  pub group : hdr.group_id ≡ p.latest_group_id
  pub subgroup : hdr.subgroup_id ≡ some p.latest_sub_group_id
  pub latest : p.latest_object_id ≡ some last
  pub next : r.1.next_object_id ≡ some ((last + 1) % 2 ^ 64)
  pub current_group : r.1.current_group_id ≡ p.latest_group_id
  pub current_subgroup : r.1.current_subgroup_id ≡ p.latest_sub_group_id

-- An object that this publisher can send: its header and its own message can be encoded, its subgroup
-- can be told from the header, and it has bytes.
pub record Sendable (unset alias : ℕ) (props : StreamHeaderProperties) (p : PublishTrackHandler)
    (headers : ObjectHeaders) (payload : List ℕ) : Type 0 where
  pub mode : headers.track_mode ≡ none
  pub some_bytes : payload ≢ []
  pub id_bound : headers.object_id < 2 ^ 62
  pub header :
      HeaderFits props.subgroup_id_type (sent_header alias props.subgroup_id_type headers p)
  pub subgroup :
      received_id props.subgroup_id_type (subgroup_of props.subgroup_id_type headers.subgroup_id)
      ≡ some headers.subgroup_id
  pub object : Fits props.may_contain_extensions (sent_object unset headers payload p)

module _ (unset : ℕ) (props : StreamHeaderProperties) (headers : ObjectHeaders) (x : ℕ)
    (xs : List ℕ) (p : PublishTrackHandler) where
  -- An object that the subscriber reads with the right id leaves both in step.
  passed_on-InSync :
      (hdr : StreamHeaderSubGroup) (id : ℕ) (h : SubscribeTrackHandler)
      → h.current_stream_id ≡ id
      → hdr.type ≡ p.stream_mode
      → hdr.group_id ≡ headers.group_id
      → hdr.subgroup_id ≡ some headers.subgroup_id
      → next_id hdr (object_id_delta p.latest_object_id headers.object_id) h ≡ headers.object_id
      → (let obj =
            received_object props.may_contain_extensions
              (sent_object unset headers (x ∷ xs) p)
              (record new_object { stream_type = some hdr.type }) in
          let r : Receiver = (id, passed_on hdr headers.subgroup_id obj h) in
          InSync (noted unset headers (x ∷ xs) p) r
          × (map seen r.1.received ≡ seen (headers, x ∷ xs) ∷ map seen h.received))
  unfolding passed_on note_published stream_object note_received
  passed_on-InSync hdr id h here type group subgroup right = (
    record {
      hdr = hdr;
      last = headers.object_id;
      newest = here;
      resting = refl;
      type = type;
      group = group;
      subgroup = subgroup;
      latest = refl;
      next = rw right refl;
      current_group = group;
      current_subgroup = refl;
    },
    rw (right, group) refl,
  )

  carry_object :
      (hdr : StreamHeaderSubGroup) (type : Option ℕ) (id : ℕ) (h : SubscribeTrackHandler)
      → h.current_stream_id ≡ id
      → h.stream_buffer ≡ at_rest hdr type
      → hdr.type ≡ p.stream_mode
      → hdr.subgroup_id ≡ some headers.subgroup_id
      → stream_header_properties p.stream_mode ≡ ok props
      → Fits props.may_contain_extensions (sent_object unset headers (x ∷ xs) p)
      → carry (call_of_object unset headers (x ∷ xs) props p) (id, h)
        ≡ ok (
          id,
          passed_on hdr headers.subgroup_id
              (received_object props.may_contain_extensions
                (sent_object unset headers (x ∷ xs) p)
                (record new_object { stream_type = some hdr.type }))
              h,
        )
  unfolding stream_object
  carry_object hdr type id h here resting typed subgroup known fits =
      rw
        (
          sym here,
          stream_data_recv_more _ h,
          stream_more-wire (sent_object unset headers (x ∷ xs) p) hdr props type headers.subgroup_id
              h resting subgroup (ap stream_header_properties typed ∙ known) (ap some (sym typed))
              fits,
        )
        refl

  next_id_follows :
      (r : Receiver) (s : InSync p r)
      → headers.group_id ≡ p.latest_group_id
      → headers.subgroup_id ≡ p.latest_sub_group_id
      → s.last < headers.object_id
      → headers.object_id < 2 ^ 62
      → next_id s.hdr (object_id_delta p.latest_object_id headers.object_id) r.1 ≡ headers.object_id
  unfolding next_id object_id_delta
  next_id_follows r s group subgroup more low =
      rw (s.next, s.current_group, s.group, s.current_subgroup, s.subgroup, s.latest)
        (ground (arith, more, low))

  -- An object of the stream that the subscriber reads.
  pub step_stays :
      (alias : ℕ) (r : Receiver)
      → stream_header_properties p.stream_mode ≡ ok props
      → Sendable unset alias props p headers (x ∷ xs)
      → (s : InSync p r) → headers.group_id ≡ p.latest_group_id
      → headers.subgroup_id ≡ p.latest_sub_group_id
      → s.last < headers.object_id
      → (r' : Receiver) × (carry_all (call_of_object unset headers (x ∷ xs) props p ∷ []) r ≡ ok r')
        × InSync (noted unset headers (x ∷ xs) p) r'
        × (map seen r'.1.received ≡ seen (headers, x ∷ xs) ∷ map seen r.1.received)
  unfolding carry_all
  step_stays alias (id, h) known can s group subgroup more =
      let sub = s.subgroup ∙ ap some (sym subgroup) in
      let right = next_id_follows (id, h) s group subgroup more can.id_bound in
      let (sync, logged) =
        passed_on-InSync s.hdr id h s.newest s.type (s.group ∙ sym group) sub right in
      let carried = carry_object s.hdr none id h s.newest s.resting s.type sub known can.object in
      (_, carried, sync, logged)

  -- The header of the stream that this object opens, as it is received.
  abbrev pub opened : ℕ → StreamHeaderSubGroup
  opened alias =
      received_header props.subgroup_id_type (sent_header alias props.subgroup_id_type headers p)

  pub carry_all_opens :
      (alias : ℕ) (r : Receiver)
      → stream_header_properties p.stream_mode ≡ ok props
      → Sendable unset alias props p headers (x ∷ xs)
      → r.1.current_stream_id ≡ r.0
      → carry_all
          (call_of_object unset headers (x ∷ xs) props p
            ∷ call_of_header unset headers (x ∷ xs) alias props p
            ∷ [])
          r
        ≡ ok (
          r.0 + 1,
          passed_on
              (opened alias)
              headers.subgroup_id
              (received_object props.may_contain_extensions
                (sent_object unset headers (x ∷ xs) p)
                (record new_object { stream_type = some p.stream_mode }))
              (started (r.0 + 1) (opened alias) r.1),
        )
  unfolding carry_all started
  carry_all_opens alias (id, h) known can here =
      let hdr = opened alias in
      let h' = started (id + 1) hdr h in
      let begun =
        stream_data_recv_start id (sent_header alias props.subgroup_id_type headers p) props h here
          known can.header in
      rw begun
        (carry_object hdr (some hdr.type) (id + 1) h' refl refl refl can.subgroup known can.object)

  -- An object that opens a stream of its own.
  pub step_opens :
      (alias : ℕ) (r : Receiver)
      → stream_header_properties p.stream_mode ≡ ok props
      → Sendable unset alias props p headers (x ∷ xs)
      → r.1.current_stream_id ≡ r.0
      → (let hdr =
            received_header props.subgroup_id_type
              (sent_header alias props.subgroup_id_type headers p) in
          next_id hdr (object_id_delta p.latest_object_id headers.object_id) r.1
          ≡ headers.object_id)
      → (r' : Receiver) × (carry_all
            (call_of_object unset headers (x ∷ xs) props p
              ∷ call_of_header unset headers (x ∷ xs) alias props p
              ∷ [])
            r
          ≡ ok r')
        × InSync (noted unset headers (x ∷ xs) p) r'
        × (map seen r'.1.received ≡ seen (headers, x ∷ xs) ∷ map seen r.1.received)
  unfolding started next_id
  step_opens alias r known can here right =
      let id = r.0 in
      let h' = started (id + 1) (opened alias) r.1 in
      let (sync, logged) =
        passed_on-InSync (opened alias) (id + 1) h' refl refl refl can.subgroup right in
      (_, carry_all_opens alias r known can here, sync, logged)

-- ===== src/Track/Deliver/Misnumbered.antt =====
-- The first object of another group or subgroup when its id is not 0.
use libquicr.Prelude.{ℕ, ◌+◌, ◌<◌, ◌≡◌, ◌≢◌, refl, List, [], ◌∷◌, map, ok, ◌⊎◌, arith, some}
use libquicr.Messages.Types.{stream_header_properties, StreamHeaderProperties}
use libquicr.Track.{ObjectHeaders}
use libquicr.Track.Publish.{PublishTrackHandler}
use libquicr.Track.Publish.Object.{object_id_delta, stream_object}
use libquicr.Track.Subscribe.{next_id, note_received}
use libquicr.Track.Deliver.{Receiver, relay}
use libquicr.Track.Deliver.Receive.{passed_on, started}
use libquicr.Track.Deliver.Send.{ready, publish_object_opens}
use libquicr.Track.Deliver.Session.{seen, InSync, Sendable, carry_all_opens, opened}
use libquicr.Track.Deliver.Run.{quiet, needed_changed}
use libquicr.Track.Deliver.Relay.{log_of}

-- The id that the subscriber reads is what the publisher wrote.
next_id_changed :
    (unset alias : ℕ) (props : StreamHeaderProperties) (headers : ObjectHeaders) (x : ℕ)
    (xs : List ℕ) (delta : ℕ) (p : PublishTrackHandler) (r : Receiver) (s : InSync p r)
    → Sendable unset alias props p headers (x ∷ xs)
    → (headers.group_id ≢ p.latest_group_id) ⊎ (headers.subgroup_id ≢ p.latest_sub_group_id)
    → next_id
        (opened unset props headers x xs p alias)
        delta
        (started (r.0 + 1) (opened unset props headers x xs p alias) r.1)
      ≡ delta
unfolding next_id started
next_id_changed unset alias props headers x xs delta p r s can changed =
    rw (s.next, s.current_group, s.current_subgroup, can.subgroup) (ground (arith, changed))

object_id_delta_low :
    (last object_id : ℕ) → object_id ≢ 0 → object_id_delta (some last) object_id < object_id
unfolding object_id_delta
object_id_delta_low last object_id n = ground (arith, n)

-- A ready publisher and a subscriber that are in step give the first object of another group or
-- subgroup a wrong id when its id is not 0: it arrives with a lower one, which is the distance that the
-- publisher took to the last object of the other group or subgroup. The length that the headers state
-- is free.
pub relay_misnumbers :
    (unset request_id alias : ℕ) (props : StreamHeaderProperties) (headers : ObjectHeaders)
    (payload : List ℕ) (p : PublishTrackHandler) (r : Receiver)
    → stream_header_properties p.stream_mode ≡ ok props
    → InSync (quiet p) r
    → Sendable unset alias props (quiet p) headers payload
    → (headers.group_id ≢ p.latest_group_id) ⊎ (headers.subgroup_id ≢ p.latest_sub_group_id)
    → headers.object_id ≢ 0
    → (let delta = object_id_delta p.latest_object_id headers.object_id in
        (log_of (relay unset ((headers, payload) ∷ []) (ready request_id alias p) r)
          ≡ ok ((headers.group_id, headers.subgroup_id, delta, payload) ∷ map seen r.1.received))
        × (delta < headers.object_id))
unfolding relay passed_on note_received stream_object started
relay_misnumbers unset request_id alias props headers [] p r known s can changed n =
    absurd (can.some_bytes refl)
relay_misnumbers unset request_id alias props headers (x ∷ xs) p r known s can changed n =
    let sent =
      publish_object_opens unset headers (x ∷ xs) request_id alias (quiet p) props known can.mode
        (needed_changed headers (quiet p) changed) can.header can.object in
    let carried = carry_all_opens unset props headers x xs (quiet p) alias r known can s.newest in
    (
      rw (sent, carried, next_id_changed unset alias props headers x xs _ (quiet p) r s can changed)
          refl,
      rw s.latest (object_id_delta_low s.last headers.object_id n),
    )

-- ===== src/Track/Deliver/Run.antt =====
-- A run of objects from a publisher to a subscriber.
use libquicr.Prelude.{
  ℕ, ◌^◌, ◌<◌, ◌≡◌, ◌≢◌, refl, ◌∙◌, true, false, none, some, List, [], ◌∷◌, map, ok, arith, ◌⊎◌,
  inl, inr,
}
use libquicr.Messages.Types.{stream_header_properties, StreamHeaderProperties}
use libquicr.Messages.StreamHeader.{StreamHeaderSubGroup}
use libquicr.Messages.StreamHeader.RoundTrip.{received_header}
use libquicr.Track.{ObjectHeaders, Enqueue}
use libquicr.Track.Publish.{PublishTrackHandler, object_ok}
use libquicr.Track.Publish.Object.{is_stream_header_needed, object_id_delta, publish_object}
use libquicr.Track.Subscribe.{next_id}
use libquicr.Track.Deliver.{accepts, Receiver, carry_all}
use libquicr.Track.Deliver.Send.{
  ready, sent_header, noted, call_of_object, call_of_header, publish_object_stays,
  publish_object_opens,
}
use libquicr.Track.Deliver.Session.{seen, InSync, Sendable, step_stays, step_opens}

abbrev pub quiet : PublishTrackHandler → PublishTrackHandler
quiet p = record p { sent = [] }

-- The next object is the first, or one with a higher id in the same subgroup, or object 0 of another
-- group or subgroup.
pub data Follows (p : PublishTrackHandler) (headers : ObjectHeaders) : Type 0 where
  begins : p.latest_object_id ≡ none → Follows p headers
  continues :
      (last : ℕ)
      → p.latest_object_id ≡ some last
      → headers.group_id ≡ p.latest_group_id
      → headers.subgroup_id ≡ p.latest_sub_group_id
      → last < headers.object_id
      → Follows p headers
  changes :
      (headers.group_id ≢ p.latest_group_id) ⊎ (headers.subgroup_id ≢ p.latest_sub_group_id)
      → headers.object_id ≡ 0
      → Follows p headers

-- Neither side has seen an object, or both are in step.
abbrev pub Aligned : PublishTrackHandler → Receiver → Type 0
Aligned p r =
    ((p.latest_object_id ≡ none) × (r.1.next_object_id ≡ none) × (r.1.current_stream_id ≡ r.0))
    ⊎ InSync p r

needed_not :
    (headers : ObjectHeaders) (p : PublishTrackHandler) (r : Receiver) (s : InSync p r)
    → headers.group_id ≡ p.latest_group_id
    → headers.subgroup_id ≡ p.latest_sub_group_id
    → is_stream_header_needed headers p ≡ false
unfolding is_stream_header_needed
needed_not headers p r s group subgroup = rw (s.latest, group, subgroup) (ground arith)

needed_first :
    (headers : ObjectHeaders) (p : PublishTrackHandler)
    → p.latest_object_id ≡ none
    → is_stream_header_needed headers p ≡ true
unfolding is_stream_header_needed
needed_first headers p first = rw first refl

pub needed_changed :
    (headers : ObjectHeaders) (p : PublishTrackHandler)
    → (headers.group_id ≢ p.latest_group_id) ⊎ (headers.subgroup_id ≢ p.latest_sub_group_id)
    → is_stream_header_needed headers p ≡ true
unfolding is_stream_header_needed
needed_changed headers p changed = ground arith

id_first :
    (hdr : StreamHeaderSubGroup) (headers : ObjectHeaders) (p : PublishTrackHandler) (r : Receiver)
    → p.latest_object_id ≡ none
    → r.1.next_object_id ≡ none
    → headers.object_id < 2 ^ 62
    → next_id hdr (object_id_delta p.latest_object_id headers.object_id) r.1 ≡ headers.object_id
unfolding next_id object_id_delta
id_first hdr headers p r first none_next low = rw (first, none_next) (omega (arith, low))

id_changed :
    (hdr : StreamHeaderSubGroup) (headers : ObjectHeaders) (p : PublishTrackHandler) (r : Receiver)
    (s : InSync p r)
    → hdr.group_id ≡ headers.group_id
    → hdr.subgroup_id ≡ some headers.subgroup_id
    → (headers.group_id ≢ p.latest_group_id) ⊎ (headers.subgroup_id ≢ p.latest_sub_group_id)
    → headers.object_id ≡ 0
    → next_id hdr (object_id_delta p.latest_object_id headers.object_id) r.1 ≡ headers.object_id
unfolding next_id object_id_delta
id_changed hdr headers p r s group subgroup changed zero_id =
    rw (s.next, s.current_group, s.current_subgroup, s.latest, group, subgroup, zero_id)
      (ground (arith, changed))

module _ (unset request_id alias : ℕ) (props : StreamHeaderProperties) where
  -- Each object of a run follows those before it and can be sent.
  abbrev pub IsRun : List (ObjectHeaders × List ℕ) → PublishTrackHandler → Type 0
  IsRun [] p = Unit
  IsRun ((headers, payload) ∷ objects) p =
      Sendable unset alias props p headers payload
      × Follows p headers
      × IsRun objects (noted unset headers payload p)

  -- What one object does on both sides.
  pub record Step (headers : ObjectHeaders) (payload : List ℕ) (p : PublishTrackHandler)
      (r : Receiver) : Type 0 where
    pub calls : List Enqueue
    pub after : Receiver
    pub published : publish_object accepts unset headers payload (ready request_id alias p) ≡ (
      record (noted unset headers payload (ready request_id alias p)) { sent = calls },
      ok object_ok,
    )
    pub carried : carry_all calls r ≡ ok after
    pub sync : InSync (noted unset headers payload p) after
    pub logged : map seen after.1.received ≡ seen (headers, payload) ∷ map seen r.1.received

  step_new :
      (headers : ObjectHeaders) (x : ℕ) (xs : List ℕ) (p : PublishTrackHandler) (r : Receiver)
      → stream_header_properties p.stream_mode ≡ ok props
      → p.sent ≡ []
      → Sendable unset alias props p headers (x ∷ xs)
      → r.1.current_stream_id ≡ r.0
      → is_stream_header_needed headers p ≡ true
      → (let hdr =
            received_header props.subgroup_id_type
              (sent_header alias props.subgroup_id_type headers p) in
          next_id hdr (object_id_delta p.latest_object_id headers.object_id) r.1
          ≡ headers.object_id)
      → Step headers (x ∷ xs) p r
  step_new headers x xs p r known quiet_p can here needed right =
      let (after, carried, sync, logged) =
        step_opens unset props headers x xs p alias r known can here right in
      record {
        calls =
            call_of_object unset headers (x ∷ xs) props p
            ∷ call_of_header unset headers (x ∷ xs) alias props p
            ∷ [];
        after = after;
        published =
            publish_object_opens unset headers (x ∷ xs) request_id alias p props known can.mode
              needed can.header can.object
            ∙ rw quiet_p refl;
        carried = carried;
        sync = sync;
        logged = logged;
      }

  step_same :
      (headers : ObjectHeaders) (x : ℕ) (xs : List ℕ) (p : PublishTrackHandler) (r : Receiver)
      → stream_header_properties p.stream_mode ≡ ok props
      → p.sent ≡ []
      → Sendable unset alias props p headers (x ∷ xs)
      → (s : InSync p r) → headers.group_id ≡ p.latest_group_id
      → headers.subgroup_id ≡ p.latest_sub_group_id
      → s.last < headers.object_id
      → Step headers (x ∷ xs) p r
  step_same headers x xs p r known quiet_p can s group subgroup more =
      let (after, carried, sync, logged) =
        step_stays unset props headers x xs p alias r known can s group subgroup more in
      record {
        calls = call_of_object unset headers (x ∷ xs) props p ∷ [];
        after = after;
        published =
            publish_object_stays unset headers (x ∷ xs) request_id alias p props known can.mode
              (needed_not headers p r s group subgroup) can.object
            ∙ rw quiet_p refl;
        carried = carried;
        sync = sync;
        logged = logged;
      }

  pub step :
      (headers : ObjectHeaders) (payload : List ℕ) (p : PublishTrackHandler) (r : Receiver)
      → stream_header_properties p.stream_mode ≡ ok props
      → p.sent ≡ []
      → Aligned p r
      → Sendable unset alias props p headers payload
      → Follows p headers
      → Step headers payload p r
  step headers [] p r known quiet_p at can follows = absurd (can.some_bytes refl)
  step headers (x ∷ xs) p r known quiet_p (inl (first, next, here)) can follows =
      step_new headers x xs p r known quiet_p can here (needed_first headers p first)
        (id_first _ headers p r first next can.id_bound)
  step headers (x ∷ xs) p r known quiet_p (inr s) can (begins first) = absurd (cc (first, s.latest))
  step headers (x ∷ xs) p r known quiet_p (inr s) can (continues last latest group subgroup more) =
      let same : last ≡ s.last = cc (latest, s.latest) in
      step_same headers x xs p r known quiet_p can s group subgroup (omega (arith, more, same))
  step headers (x ∷ xs) p r known quiet_p (inr s) can (changes changed zero_id) =
      step_new headers x xs p r known quiet_p can s.newest (needed_changed headers p changed)
        (id_changed _ headers p r s refl can.subgroup changed zero_id)

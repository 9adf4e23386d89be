-- ===== src/Track/Deliver/Relay.antt =====
-- What arrives of a run of objects.
use libquicr.Prelude.{ℕ, ◌≡◌, refl, ◌∙◌, ap, List, [], ◌∷◌, map, Outcome, ok, ◌>>=◌, inr}
use libquicr.Messages.Types.{stream_header_properties, StreamHeaderProperties}
use libquicr.Track.{ObjectHeaders}
use libquicr.Track.Publish.{PublishTrackHandler}
use libquicr.Track.Publish.Object.{note_published}
use libquicr.Track.Deliver.{Receiver, relay}
use libquicr.Track.Deliver.Send.{ready, noted}
use libquicr.Track.Deliver.Session.{seen}
use libquicr.Track.Deliver.Run.{quiet, Aligned, IsRun, step}

-- A log that entries are added to one by one, the latest in front.
abbrev pub logged_onto : {A : Type 0} → List A → List A → List A
logged_onto [] log = log
logged_onto (x ∷ xs) log = logged_onto xs (x ∷ log)

-- What the receiver has been given, as its application sees it.
abbrev pub log_of : Outcome (PublishTrackHandler × Receiver) → Outcome (List (ℕ × ℕ × ℕ × List ℕ))
log_of run = run >>= λ s. ok (map seen s.1.1.received)

-- A ready publisher and a subscriber that have both seen no object, or are in step, relay a run of
-- objects without loss: every object arrives once, in order, in its group and subgroup, with its id
-- and its bytes. In a run, an object has a higher id than the one before it in the same subgroup, and
-- the first object of another group or subgroup has the id 0; each can be encoded, with extensions for
-- the gaps before it, is not empty, and the header of its stream tells its subgroup. The length that
-- the headers of an object state is free: the publisher does not compare it with the bytes.
pub relay-log :
    (unset request_id alias : ℕ) (props : StreamHeaderProperties)
    (objects : List (ObjectHeaders × List ℕ)) (p : PublishTrackHandler) (r : Receiver)
    → stream_header_properties p.stream_mode ≡ ok props
    → Aligned (quiet p) r
    → IsRun unset request_id alias props objects (quiet p)
    → log_of (relay unset objects (ready request_id alias p) r)
      ≡ ok (logged_onto (map seen objects) (map seen r.1.received))
unfolding relay note_published
relay-log unset request_id alias props [] p r known at run = refl
relay-log unset request_id alias props ((headers, payload) ∷ objects) p r known at
      (can, follows, run) =
    let s =
      step unset request_id alias props headers payload (quiet p) r known refl at can follows in
    let p' = record (noted unset headers payload p) { sent = s.calls } in
    rw (s.published, s.carried)
      (relay-log unset request_id alias props objects p' s.after known (inr s.sync) run
        ∙ ap (λ log. ok (logged_onto (map seen objects) log)) s.logged)

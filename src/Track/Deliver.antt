-- ===== src/Track/Deliver.antt =====
-- A publisher's calls carried to a subscriber.
pub mod Receive
pub mod Send
pub mod Session
pub mod Run
pub mod Relay
pub mod Misnumbered
pub mod Datagrams
use libquicr.Prelude.{ℕ, ◌+◌, Bool, true, false, List, [], ◌∷◌, Outcome, ok, ◌>>=◌, if◌then◌else◌}
use libquicr.Track.{ObjectHeaders, Enqueue}
use libquicr.Track.Publish.{PublishTrackHandler}
use libquicr.Track.Publish.Object.{publish_object}
use libquicr.Track.Subscribe.{SubscribeTrackHandler, stream_data_recv}

-- A transport that takes every call, and an application that throws for no object.
abbrev pub accepts : List Enqueue → ℕ
accepts calls = 0

abbrev pub never : ObjectHeaders → List ℕ → Bool
never headers payload = false

-- The newest stream of the receiver and the receiver.
abbrev pub Receiver : Type 0
Receiver = ℕ × SubscribeTrackHandler

-- The bytes of a call arrive in one piece, on a new stream if it asks for one.
abbrev pub carry : Enqueue → Receiver → Outcome Receiver
carry call (id, h) =
    let new_stream = call.flags.new_stream in
    let id = if new_stream then id + 1 else id in
    stream_data_recv never new_stream id call.bytes h >>= λ h. ok (id, h)

-- The calls that were made, the latest in front.
unfoldable pub carry_all : List Enqueue → Receiver → Outcome Receiver
carry_all [] r = ok r
carry_all (call ∷ earlier) r = carry_all earlier r >>= carry call

-- Objects are published one by one, and what each call sends arrives before the next is made.
unfoldable pub relay :
    ℕ
    → List (ObjectHeaders × List ℕ)
    → PublishTrackHandler
    → Receiver
    → Outcome (PublishTrackHandler × Receiver)
relay unset [] p r = ok (p, r)
relay unset ((headers, payload) ∷ objects) p r =
    let p = (publish_object accepts unset headers payload (record p { sent = [] })).0 in
    carry_all p.sent r >>= λ r. relay unset objects p r

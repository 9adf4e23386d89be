-- ===== src/Track/Publish/Laws.antt =====
-- When a publisher sends, and what it may not send.
use libquicr.Prelude.{
  ℕ, ◌+◌, ◌≡◌, ◌≢◌, refl, Bool, true, false, List, ok, if◌then◌else◌, arith, u64,
}
use libquicr.Track.{ObjectHeaders, Enqueue}
use libquicr.Track.Publish.{
  Status, PublishTrackHandler, PublishObjectStatus, object_ok, Result, Gate, can_publish,
  publish_gate, forward_gate, refused, going, refuse, through, may_publish,
}
use libquicr.Track.Publish.Object.{is_stream_header_needed, publish_object}
use libquicr.Track.Publish.Forward.{forward_published_data}

-- A call that is refused: nothing is sent, and the handler only counts the object.
abbrev pub IsRefused : PublishTrackHandler → Result → Type 0
IsRefused p (p', result) =
    (p' ≡ record p { objects_dropped_not_ok = u64 (p.objects_dropped_not_ok + 1) })
    × ((status : PublishObjectStatus) × (result ≡ ok status) × (status ≢ object_ok))

-- A gate that refuses, with a status that is not `kOk`.
abbrev Refuses : Gate → Type 0
Refuses (refused outcome) = outcome ≢ object_ok
Refuses (going next new_stream) = ⊥

gates_refuse :
    (s : Status) (b : Bool)
    → may_publish s ≡ false
    → Refuses (publish_gate s b) × Refuses (forward_gate s b)
unfolding publish_gate forward_gate
gates_refuse s b h = ground arith

through-IsRefused :
    (g : Gate) (p : PublishTrackHandler) (k : Bool → PublishTrackHandler → Result)
    → Refuses g
    → IsRefused p (through g p k)
unfolding refuse
through-IsRefused (refused outcome) p k h = (refl, (outcome, refl, h))
through-IsRefused (going next new_stream) p k h = absurd h

if_alive :
    (b : Bool) (p : PublishTrackHandler) (here gone : Result)
    → b ≡ true
    → IsRefused p here
    → IsRefused p (if b then here else gone)
if_alive true p here gone h r = r
if_alive false p here gone h r = cc

-- Where `CanPublish` says no, both ways of publishing are refused on a live transport, whatever it
-- would answer: nothing is sent, the handler keeps its state but for the count of dropped objects, and
-- the status that is returned is not `kOk`. A track that is not announced stays so: neither call
-- announces it.
pub publish_object-IsRefused :
    (answer : List Enqueue → ℕ) (unset : ℕ) (headers : ObjectHeaders) (payload : List ℕ)
    (is_new_stream : Bool) (p : PublishTrackHandler)
    → p.transport ≡ true
    → can_publish p ≡ false
    → IsRefused p (publish_object answer unset headers payload p)
      × IsRefused p (forward_published_data answer is_new_stream payload p)
unfolding publish_object forward_published_data can_publish
publish_object-IsRefused answer unset headers payload is_new_stream p alive not_ok = (
  if_alive p.transport p _ _ alive (
      through-IsRefused (publish_gate p.publish_status (is_stream_header_needed headers p)) p _
        (gates_refuse p.publish_status _ not_ok).0),
  if_alive p.transport p _ _ alive (
      through-IsRefused (forward_gate p.publish_status is_new_stream) p _
        (gates_refuse p.publish_status is_new_stream not_ok).1),
)

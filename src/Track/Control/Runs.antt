-- ===== src/Track/Control/Runs.antt =====
-- What the peer of a subscription is told while an application pauses and resumes it.
use libquicr.Prelude.{
  ℕ, ◌+◌, ◌*◌, ◌^◌, ◌<◌, ◌≡◌, Bool, true, not, some, List, [], ◌∷◌, Outcome, ok, ◌%◌, Option, none,
}
use libquicr.Track.{Enqueue}
use libquicr.Track.Control.{SubscribeUpdate, Connection, Subscription, ctrl_call, is_paused, calls}

-- Whether the last update, if there is one, asks for the objects; at first they are asked for.
abbrev pub forwarding : List SubscribeUpdate → Bool
forwarding [] = true
forwarding (update ∷ updates) = update.forward

-- The request ids of the updates, the latest in front, are below `next`, higher from one to the next,
-- and even or odd as `next` is.
abbrev pub IdsRise : ℕ → List SubscribeUpdate → Type 0
IdsRise next [] = Unit
IdsRise next (update ∷ updates) =
    (update.request_id < next)
    × (update.request_id % 2 ≡ next % 2)
    × IdsRise update.request_id updates

-- A call uses up one request id at most.
module _ (serialize : SubscribeUpdate → Option (List ℕ)) (answer : Enqueue → ℕ) where
  -- The updates, the latest in front, and the calls of `Enqueue` on their connection: an update that can
  -- be serialised was enqueued on the control stream, in order, and one that cannot was lost; the
  -- other calls are other users'.
  pub data Handed (ctrl : ℕ) : List SubscribeUpdate → List Enqueue → Type 0 where
    nothing : Handed ctrl [] []
    another :
        {us : List SubscribeUpdate} {calls : List Enqueue} (e : Enqueue)
        → Handed ctrl us calls
        → Handed ctrl us (e ∷ calls)
    enqueued :
        {us : List SubscribeUpdate} {calls : List Enqueue} (u : SubscribeUpdate) (bytes : List ℕ)
        (c : Connection)
        → serialize u ≡ some bytes
        → Handed ctrl us calls
        → Handed ctrl (u ∷ us) (ctrl_call ctrl bytes c ∷ calls)
    lost :
        {us : List SubscribeUpdate} {calls : List Enqueue} (u : SubscribeUpdate)
        → serialize u ≡ none
        → Handed ctrl us calls
        → Handed ctrl (u ∷ us) calls

  pub record ConnectionInStep (left ctrl : ℕ) (us : List SubscribeUpdate) (c : Connection)
      : Type 0 where
    pub room : c.next_request_id + 2 * left < 2 ^ 64
    pub ids : IdsRise c.next_request_id us
    pub control : c.ctrl_data_ctx_id ≡ some ctrl
    pub handed : Handed ctrl us c.sent

  -- The handler has a request id and a live transport that knows its connection, with a control stream;
  -- its status is what it last asked for; and `left` request ids remain below 2^64.
  pub record InStep (left ctrl : ℕ) (s : Subscription) : Type 0 where
    pub live : s.transport ≡ true
    pub asked : not (is_paused s.status) ≡ forwarding s.updates
    pub connection : Connection
    pub known : s.connection ≡ some connection
    pub in_step : ConnectionInStep left ctrl s.updates connection
    pub id : ℕ
    pub requested : s.request_id ≡ some id

  abbrev pub StaysInStep : ℕ → ℕ → Outcome Subscription → Type 0
  StaysInStep left ctrl r = (s : Subscription) × (r ≡ ok s) × InStep left ctrl s

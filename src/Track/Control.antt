-- ===== src/Track/Control.antt =====
-- The control messages that a `SubscribeTrackHandler` asks for: src/subscribe_track_handler.cpp. These
-- functions are `noexcept`, so an exception that the model has as their result ends the program.
pub mod Runs
mod Tests
use libquicr.Prelude.{
  ℕ, ◌+◌, Bool, true, false, not, ◌||◌, Option, none, some, List, [], ◌∷◌, Outcome, ok, throws,
  out_of_range, ◌>>=◌, if◌then◌else◌, ltb, u64, Exception, transport_error, ◌==◌,
}
use libquicr.Track.{value, Enqueue, EnqueueFlags}

pub data Status : Type 0 where
  status_ok not_connected error not_authorized not_subscribed pending_response : Status
  sending_unsubscribe paused new_group_requested cancelled done_by_fin done_by_reset : Status

-- A call of `Transport::SendSubscribeUpdate`; connection, track and start location are the handler's.
pub record SubscribeUpdate : Type 0 where
  pub request_id : ℕ
  pub subscribe_request_id : ℕ
  pub end_group_id : ℕ
  pub priority : ℕ
  pub forward : Bool
  pub new_group_request : Bool

-- `ConnectionContext`, which all handlers of a connection share. `sent` are the calls of `Enqueue`, the
-- latest in front; `closed` says whether `CloseConnection` was called.
pub record Connection : Type 0 where
  pub connection_handle : ℕ
  pub next_request_id : ℕ
  pub ctrl_data_ctx_id : Option ℕ
  pub sent : List Enqueue
  pub closed : Bool

-- `transport` says whether the weak pointer can be locked, `connection` is what the transport has of
-- the handler's connection; `updates` are the calls of `SendSubscribeUpdate`, the latest in front.
pub record Subscription : Type 0 where
  pub transport : Bool
  pub connection : Option Connection
  pub request_id : Option ℕ
  pub status : Status
  pub priority : ℕ
  pub support_new_group_request : Bool
  pub pending_new_group_request_id : Option ℕ
  pub updates : List SubscribeUpdate

abbrev pub is_paused : Status → Bool
is_paused paused = true
is_paused _ = false

abbrev pub is_ok : Status → Bool
is_ok status_ok = true
is_ok _ = false

abbrev pub is_not_connected : Status → Bool
is_not_connected not_connected = true
is_not_connected _ = false

-- `connections_.at`
abbrev pub get_connection : Option Connection → Outcome Connection
get_connection none = throws out_of_range
get_connection (some c) = ok c

-- `GetNextRequestId`, taken as one step: the id, and the connection after it.
abbrev pub get_next_request_id : Connection → ℕ × Connection
get_next_request_id c =
    (c.next_request_id, record c { next_request_id = u64 (c.next_request_id + 2) })

-- The call of `Enqueue` for a control message.
abbrev pub ctrl_call : ℕ → List ℕ → Connection → Enqueue
ctrl_call ctrl_data_ctx_id bytes c = record {
  context_id = c.connection_handle;
  data_ctx_id = ctrl_data_ctx_id;
  group_id = 0;
  bytes = bytes;
  priority = 0;
  ttl_ms = 2000;
  delay_ms = 0;
  flags = record {
    use_reliable = true;
    new_stream = false;
    clear_tx_queue = false;
    use_reset = false;
  };
}

-- `serialize` is the generated operator that makes the bytes of an update, or throws where it is none;
-- `answer` is what `Enqueue` returns.
module _ (serialize : SubscribeUpdate → Option (List ℕ)) (answer : Enqueue → ℕ) where
  -- The connection after `SendCtrlMsg`, and what it threw.
  unfoldable pub send_ctrl_msg : List ℕ → Connection → Connection × Option Exception
  send_ctrl_msg bytes c = elim c.ctrl_data_ctx_id [
    | none ↦ (record c { closed = true }, none)
    | some id ↦
        let enqueued = ctrl_call id bytes c in
        (
          record c { sent = enqueued ∷ c.sent },
          (if answer enqueued == 0 then none else some (transport_error (answer enqueued))),
        )
  ]

  -- Whatever is thrown in it is caught.
  unfoldable pub send_subscribe_update : SubscribeUpdate → Connection → Connection
  send_subscribe_update update c = elim (serialize update) [
    | none ↦ c
    | some bytes ↦ (send_ctrl_msg bytes c).0
  ]

  -- What the three calls below end with.
  unfoldable pub send_update : ℕ → Bool → Bool → Subscription → Outcome Subscription
  send_update end_group_id forward new_group_request s = do
    c ← get_connection s.connection
    id ← value s.request_id
    let next = get_next_request_id c
    let update : SubscribeUpdate = record {
      request_id = next.0;
      subscribe_request_id = id;
      end_group_id = end_group_id;
      priority = s.priority;
      forward = forward;
      new_group_request = new_group_request;
    }
    ok (record s {
      connection = some (send_subscribe_update update next.1);
      updates = update ∷ s.updates;
    })

  unfoldable pub pause : Subscription → Outcome Subscription
  pause s =
      if not s.transport || is_paused s.status || is_not_connected s.status
      then ok s
      else send_update 0 false false (record s { status = paused })

  unfoldable pub resume : Subscription → Outcome Subscription
  resume s =
      if not s.transport
      then ok s
      else if not (is_paused s.status)
      then ok s
      else send_update 0 true false (record s { status = status_ok })

  unfoldable pub request_new_group : ℕ → Subscription → Outcome Subscription
  request_new_group group_id s =
      if not s.transport || not (is_ok s.status) || not s.support_new_group_request
      then ok s
      else send_update group_id true true s

abbrev pub newer : Option ℕ → ℕ → Bool
newer none group_id = true
newer (some pending) group_id = ltb pending group_id

unfoldable pub set_new_group_request_id : ℕ → Subscription → Subscription
set_new_group_request_id group_id s = record s {
  pending_new_group_request_id =
      some (if newer s.pending_new_group_request_id group_id then group_id else 0);
}

-- What happens to a subscription: calls of an application, and what other users of its connection do,
-- who take an id or send a message.
pub data Call : Type 0 where
  call_pause call_resume another_takes_id : Call
  call_request_new_group call_set_new_group_request_id : ℕ → Call
  call_support_new_group_request : Bool → Call
  call_set_priority : ℕ → Call
  another_sends : Enqueue → Call

abbrev pub map_connection : (Connection → Connection) → Option Connection → Option Connection
map_connection f none = none
map_connection f (some c) = some (f c)

abbrev pub on_connection : (Connection → Connection) → Subscription → Subscription
on_connection f s = record s { connection = map_connection f s.connection }

module _ (serialize : SubscribeUpdate → Option (List ℕ)) (answer : Enqueue → ℕ) where
  unfoldable pub call : Call → Subscription → Outcome Subscription
  call call_pause s = pause serialize answer s
  call call_resume s = resume serialize answer s
  call another_takes_id s = ok (on_connection (λ c. (get_next_request_id c).1) s)
  call (call_request_new_group group_id) s = request_new_group serialize answer group_id s
  call (call_set_new_group_request_id group_id) s = ok (set_new_group_request_id group_id s)
  call (call_support_new_group_request is_supported) s =
      ok (record s { support_new_group_request = is_supported })
  call (call_set_priority priority) s = ok (record s { priority = priority })
  call (another_sends enqueued) s =
      ok (on_connection (λ c. record c { sent = enqueued ∷ c.sent }) s)

  abbrev pub calls : List Call → Subscription → Outcome Subscription
  calls [] s = ok s
  calls (c ∷ cs) s = do s ← call c s; calls cs s

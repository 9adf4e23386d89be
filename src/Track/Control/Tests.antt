-- ===== src/Track/Control/Tests.antt =====
-- A subscription that is paused and resumed.
use libquicr.Prelude.{
  ℕ, ◌≡◌, refl, Bool, true, false, none, some, List, [], ◌∷◌, map, ok, ◌>>=◌, if◌then◌else◌, ◌==◌,
  Option,
}
use libquicr.Track.Control.{
  Subscription, Call, call_pause, call_resume, call_request_new_group,
  call_support_new_group_request, call_set_priority, status_ok, pending_response, call, calls,
  pause, resume, send_update, request_new_group, Connection, SubscribeUpdate, another_takes_id,
  send_subscribe_update, send_ctrl_msg,
}
use libquicr.Track.{Enqueue}

abbrev connection : Connection
connection = record {
  connection_handle = 1;
  next_request_id = 6;
  ctrl_data_ctx_id = some 4;
  sent = [];
  closed = false;
}

abbrev subscription : Subscription
subscription = record {
  transport = true;
  connection = some connection;
  request_id = some 2;
  status = status_ok;
  priority = 3;
  support_new_group_request = false;
  pending_new_group_request_id = none;
  updates = [];
}

-- A serialiser for the tests, which refuses the id 10, and a transport that takes nothing.
abbrev id_and_forward : SubscribeUpdate → Option (List ℕ)
id_and_forward u =
    if u.request_id == 10 then none else some (u.request_id ∷ (if u.forward then 1 else 0) ∷ [])

abbrev refuses : Enqueue → ℕ
refuses call = 1

-- The second pause sends nothing, and another user of the connection takes an id.
abbrev some_calls : List Call
some_calls =
    call_pause
    ∷ call_pause
    ∷ another_takes_id
    ∷ call_set_priority 1
    ∷ call_resume
    ∷ call_support_new_group_request true
    ∷ call_request_new_group 9
    ∷ []

abbrev asked_and_sent : Subscription → List (ℕ × ℕ × Bool × ℕ) × List (List ℕ)
asked_and_sent s = (
  map {B = ℕ × ℕ × Bool × ℕ} (λ u. (u.request_id, u.priority, u.forward, u.end_group_id)) s.updates,
  elim s.connection [ none ↦ [] | some c ↦ map (λ e. e.bytes) c.sent ],
)

-- The resumption, whose update cannot be serialised, does not reach the transport, and leaves the status
-- as if it had.
sent_by_some_calls :
    (calls id_and_forward refuses some_calls subscription >>= λ s. ok (asked_and_sent s))
    ≡ ok (
      (12, 1, true, 9) ∷ (10, 1, true, 0) ∷ (6, 3, false, 0) ∷ [],
      (12 ∷ 1 ∷ []) ∷ (6 ∷ 0 ∷ []) ∷ [],
    )
unfolding call pause resume send_update request_new_group send_subscribe_update send_ctrl_msg
sent_by_some_calls = refl

-- A subscription that awaits its answer is taken for an accepted one when it has been paused.
resumes_as_ok :
    (calls id_and_forward refuses
        (call_pause ∷ call_resume ∷ [])
        (record subscription { status = pending_response })
      >>= λ s. ok s.status)
    ≡ ok status_ok
unfolding call pause resume send_update
resumes_as_ok = refl

-- ===== src/Track.antt =====
-- The track handlers: src/publish_track_handler.cpp, src/publish_fetch_handler.cpp,
-- src/subscribe_track_handler.cpp, src/fetch_track_handler.cpp and src/joining_fetch_handler.cpp, with
-- the objects that they exchange (include/quicr/object.h) and the calls that they make of the transport.
pub mod Publish
pub mod PublishFetch
pub mod Subscribe
pub mod Control
pub mod Fetch
pub mod Deliver
mod Tests
use libquicr.Prelude.{
  ℕ, Bool, true, false, Option, none, some, List, [], ◌∷◌, Outcome, ok, throws, bad_optional_access,
}
use libquicr.Messages.Extensions.{Extensions}

pub data TrackMode : Type 0 where
  datagram stream : TrackMode

-- `status` is a byte.
pub record ObjectHeaders : Type 0 where
  pub group_id : ℕ
  pub object_id : ℕ
  pub subgroup_id : ℕ
  pub payload_length : ℕ
  pub status : ℕ
  pub priority : Option ℕ
  pub ttl : Option ℕ
  pub track_mode : Option TrackMode
  pub extensions : Option Extensions
  pub immutable_extensions : Option Extensions

pub record EnqueueFlags : Type 0 where
  pub use_reliable : Bool
  pub new_stream : Bool
  pub clear_tx_queue : Bool
  pub use_reset : Bool

-- A call of `ITransport::Enqueue`.
pub record Enqueue : Type 0 where
  pub context_id : ℕ
  pub data_ctx_id : ℕ
  pub group_id : ℕ
  pub bytes : List ℕ
  pub priority : ℕ
  pub ttl_ms : ℕ
  pub delay_ms : ℕ
  pub flags : EnqueueFlags

-- `optional.value()` and `optional.value_or`.
abbrev pub value : {A : Type 0} → Option A → Outcome A
value none = throws bad_optional_access
value (some a) = ok a

abbrev pub value_or : {A : Type 0} → Option A → A → A
value_or none d = d
value_or (some a) d = a

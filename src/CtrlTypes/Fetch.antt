-- ===== src/CtrlTypes/Fetch.antt =====
-- include/quicr/detail/ctrl_message_types.h and src/ctrl_message_types.cpp: standalone fetches.
pub mod RoundTrip
use libquicr.Prelude.{ℕ, Bool, List, Outcome, ok, ◌>>=◌}
use libquicr.TrackName.{TrackNamespace}
use libquicr.CtrlTypes.{Reader, write_bytes, read_bytes, Location, write_location, read_location}
use libquicr.CtrlTypes.Namespace.{write_namespace, read_namespace}

pub record StandaloneFetch : Type 0 where
  pub track_namespace : TrackNamespace
  pub track_name : List ℕ
  pub start : Location
  pub end : Location

unfoldable pub write_standalone_fetch : StandaloneFetch → List ℕ → Outcome (List ℕ)
write_standalone_fetch value buffer = do
  b ← write_namespace value.track_namespace buffer
  b ← write_bytes value.track_name b
  b ← write_location value.start b
  write_location value.end b

module _ (hash : List ℕ → ℕ) (can_allocate : ℕ → Bool) where
  unfoldable pub read_standalone_fetch : Reader StandaloneFetch
  read_standalone_fetch buffer = do
    n ← read_namespace hash can_allocate buffer
    t ← read_bytes n.1
    s ← read_location t.1
    e ← read_location s.1
    ok (record { track_namespace = n.0; track_name = t.0; start = s.0; end = e.0 }, e.1)

-- ===== src/CtrlTypes/Fetch/RoundTrip.antt =====
-- A standalone fetch that is written is read back.
use libquicr.Prelude.{
  ℕ, ◌^◌, ◌<◌, ◌≡◌, Bool, true, List, [], ◌++◌, append_assoc, ok, ◌>>=◌, length, All,
}
use libquicr.UintVar.Wire.{wire}
use libquicr.TrackName.{make}
use libquicr.CtrlTypes.{Location, write_location, read_location}
use libquicr.CtrlTypes.Ints.{write_u64-wire, read_u64-wire, write_bytes-wire, read_bytes-wire}
use libquicr.CtrlTypes.Namespace.RoundTrip.{
  IsShort, namespace_wire, write_namespace-wire, read_namespace-wire,
}
use libquicr.CtrlTypes.Fetch.{StandaloneFetch, write_standalone_fetch, read_standalone_fetch}

-- A location whose numbers can be written.
abbrev pub LocationFits : Location → Type 0
LocationFits l = (l.group < 2 ^ 62) × (l.object < 2 ^ 62)

abbrev location_wire : Location → List ℕ
location_wire l = wire l.group ++ wire l.object

write_location-wire :
    (l : Location) (b : List ℕ) → LocationFits l → write_location l b ≡ ok (b ++ location_wire l)
unfolding write_location
write_location-wire l b h =
    rw (write_u64-wire l.group b h.0, write_u64-wire l.object (b ++ wire l.group) h.1, append_assoc)

read_location-wire :
    (l : Location) (rest : List ℕ)
    → LocationFits l
    → read_location (location_wire l ++ rest) ≡ ok (l, rest)
unfolding read_location
read_location-wire l rest h = rw (
  append_assoc,
  read_u64-wire l.group (wire l.object ++ rest) h.0,
  read_u64-wire l.object rest h.1,
)

-- A standalone fetch of a namespace that was made of entries is written and read back, and what
-- follows is left, when no entry and no name has 2^62 bytes or more, the groups and objects are
-- below 2^62, and there is memory for the vectors of the entries.
pub read_standalone_fetch-write_standalone_fetch :
    (hash : List ℕ → ℕ) (can_allocate : ℕ → Bool) (entries : List (List ℕ)) (f : StandaloneFetch)
    (rest : List ℕ)
    → make hash entries ≡ ok f.track_namespace
    → All IsShort entries
    → can_allocate (length entries) ≡ true
    → IsShort f.track_name
    → LocationFits f.start
    → LocationFits f.end
    → (write_standalone_fetch f [] >>= λ b. read_standalone_fetch hash can_allocate (b ++ rest))
      ≡ ok (f, rest)
unfolding write_standalone_fetch read_standalone_fetch
read_standalone_fetch-write_standalone_fetch hash can_allocate entries f rest made short enough name
      start end =
    rw (
      write_namespace-wire hash entries f.track_namespace [] made short,
      write_bytes-wire f.track_name (namespace_wire entries) name,
      write_location-wire f.start _ start,
      write_location-wire f.end _ end,
      append_assoc,
      append_assoc (namespace_wire entries ++ (wire (length f.track_name) ++ f.track_name)),
      append_assoc (namespace_wire entries),
      append_assoc (wire (length f.track_name)),
      read_namespace-wire hash can_allocate entries f.track_namespace _ made short enough,
      read_bytes-wire f.track_name _ name,
      read_location-wire f.start _ start,
      read_location-wire f.end rest end,
    )

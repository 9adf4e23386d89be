-- ===== src/CtrlTypes/Ints.antt =====
-- Round trips of the integers, byte strings and small structures of control messages.
use libquicr.Prelude.{
  ℕ, ◌%◌, ◌^◌, ◌≤◌, ◌<◌, ◌≡◌, refl, false, List, [], ◌++◌, append_assoc, ok, throws, undefined,
  invalid_argument, ◌>>=◌, ltb, leb, length, take, drop, length-append, take-append_self,
  drop-append_self, le→leb, le→ltb, arith, drop-append, take-append,
}
use libquicr.UintVar.Wire.{
  wire, encode-canonical, encode_refuses, bytes-canonical, get-canonical, size-canonical,
}
use libquicr.UintVar.RoundTrip.{from_bytes-wire}
use libquicr.CtrlTypes.{
  write_u64, read_u64, write_u16, read_u16, write_bytes, read_bytes, ControlMessage,
  write_control_message, read_control_message, Location, write_location, read_location,
  JoiningFetch, write_joining_fetch, read_joining_fetch,
}

pub write_u64-wire : (v : ℕ) (b : List ℕ) → v < 2 ^ 62 → write_u64 v b ≡ ok (b ++ wire v)
unfolding write_u64
write_u64-wire v b h = rw (encode-canonical v h, bytes-canonical v h)

pub write_u64_refuses :
    (v : ℕ) (b : List ℕ) → 2 ^ 62 ≤ v → v < 2 ^ 64 → write_u64 v b ≡ throws invalid_argument
unfolding write_u64
write_u64_refuses v b l h = rw (encode_refuses v l h)

pub read_u64-wire : (v : ℕ) (rest : List ℕ) → v < 2 ^ 62 → read_u64 (wire v ++ rest) ≡ ok (v, rest)
unfolding read_u64
read_u64-wire v rest h =
    rw (from_bytes-wire v rest h, get-canonical v h, size-canonical v h, drop-append_self)

pub write_bytes-wire :
    (value b : List ℕ)
    → length value < 2 ^ 62
    → write_bytes value b ≡ ok (b ++ (wire (length value) ++ value))
unfolding write_bytes
write_bytes-wire value b h = rw (write_u64-wire (length value) b h, append_assoc)

pub read_bytes-wire :
    (value rest : List ℕ)
    → length value < 2 ^ 62
    → read_bytes (wire (length value) ++ (value ++ rest)) ≡ ok (value, rest)
unfolding read_bytes
read_bytes-wire value rest h = rw (
  read_u64-wire (length value) (value ++ rest) h,
  le→leb _ _ fits,
  take-append_self,
  drop-append_self,
)
  where
    fits : length value ≤ length (value ++ rest)
    fits = omega (arith, length-append value rest)

-- A declared length below 2^62 that is beyond the end of the span makes `operator>>` read past it.
pub read_bytes_past :
    (n : ℕ) (rest : List ℕ) → n < 2 ^ 62 → length rest < n → read_bytes (wire n ++ rest) ≡ undefined
unfolding read_bytes
read_bytes_past n rest h l = rw (read_u64-wire n rest h, short)
  where
    short : leb n (length rest) ≡ false
    short = ground arith

-- A location whose group and object are below 2^62 is written and read back, and what follows is
-- left.
pub read_location-write_location :
    (l : Location) (rest : List ℕ)
    → l.group < 2 ^ 62
    → l.object < 2 ^ 62
    → (do b ← write_location l []; read_location (b ++ rest)) ≡ ok (l, rest)
unfolding write_location read_location
read_location-write_location l rest g o = rw (
  write_u64-wire l.group [] g,
  write_u64-wire l.object (wire l.group) o,
  append_assoc,
  read_u64-wire l.group (wire l.object ++ rest) g,
  read_u64-wire l.object rest o,
)

pub read_joining_fetch-write_joining_fetch :
    (f : JoiningFetch) (rest : List ℕ)
    → f.request_id < 2 ^ 62
    → f.joining_start < 2 ^ 62
    → (do b ← write_joining_fetch f []; read_joining_fetch (b ++ rest)) ≡ ok (f, rest)
unfolding write_joining_fetch read_joining_fetch
read_joining_fetch-write_joining_fetch f rest r s = rw (
  write_u64-wire f.request_id [] r,
  write_u64-wire f.joining_start (wire f.request_id) s,
  append_assoc,
  read_u64-wire f.request_id (wire f.joining_start ++ rest) r,
  read_u64-wire f.joining_start rest s,
)

read_u16_lem :
    (n : ℕ) (rest : List ℕ) → n < 2 ^ 16 → read_u16 (write_u16 n [] ++ rest) ≡ ok (n, rest)
unfolding read_u16 write_u16
read_u16_lem n rest h = ground arith

write_u16-append : (n : ℕ) (b : List ℕ) → write_u16 n b ≡ b ++ write_u16 n []
unfolding write_u16
write_u16-append n b = refl

-- What is read back of a control message that was written, of a type below 2^62 and a payload of
-- any length: the type, and as many bytes of the payload as its length modulo 2^16 says; the rest
-- of the payload is left in front of what follows.
pub read_control_message-write_control_message :
    (m : ControlMessage) (rest : List ℕ)
    → m.type < 2 ^ 62
    → (do b ← write_control_message m []; read_control_message (b ++ rest))
      ≡ ok (
        record { type = m.type; payload = take (length m.payload % 2 ^ 16) m.payload },
        drop (length m.payload % 2 ^ 16) m.payload ++ rest,
      )
unfolding write_control_message read_control_message
read_control_message-write_control_message m rest h = rw (
  write_u64-wire m.type [] h,
  write_u16-append n (wire m.type),
  append_assoc (wire m.type ++ write_u16 n []) m.payload rest,
  append_assoc (wire m.type) (write_u16 n []) (m.payload ++ rest),
  read_u64-wire m.type (write_u16 n [] ++ (m.payload ++ rest)) h,
  read_u16_lem n (m.payload ++ rest) small,
  enough,
  take-append n m.payload rest fits,
  drop-append n m.payload rest fits,
)
  where
    n : ℕ
    n = length m.payload % 2 ^ 16

    small : n < 2 ^ 16
    small = omega arith

    fits : n ≤ length m.payload
    fits = omega arith

    enough : ltb (length (m.payload ++ rest)) n ≡ false
    enough = le→ltb _ _ (omega (arith, length-append m.payload rest))

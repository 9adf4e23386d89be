-- ===== src/CtrlTypes.antt =====
-- include/quicr/detail/ctrl_message_types.h and src/ctrl_message_types.cpp: how the parts of a
-- control message are appended to a byte vector (`operator<<`, here `write_*`) and read from the
-- front of a span (`operator>>`, here `read_*`, which returns the value and the span that is left).
-- Where a write throws, the bytes that it had already appended are not modelled.
pub mod Ints
pub mod Pairs
pub mod Enums
pub mod Namespace
pub mod Fetch
mod Tests
use libquicr.Prelude.{
  ℕ, zero, suc, ◌+◌, ◌*◌, ◌/◌, ◌%◌, ◌^◌, Bool, true, false, ◌&&◌, ◌||◌, List, [], ◌∷◌, ◌++◌,
  Outcome, ok, throws, undefined, invalid_argument, ◌>>=◌, ltb, leb, ◌==◌, if◌then◌else◌, length,
  take, drop, min, max,
}
use libquicr.UintVar.{encode, from_bytes, size, get, bytes}

-- What `operator>>` gives: the value and the span behind it.
abbrev pub Reader : Type 0 → Type 0
Reader A = List ℕ → Outcome (A × List ℕ)

-- `buffer << UintVar(value)` and `buffer << uint64_t`
unfoldable pub write_u64 : ℕ → List ℕ → Outcome (List ℕ)
write_u64 value buffer = do u ← encode value; ok (buffer ++ bytes u)

unfoldable pub read_u64 : Reader ℕ
read_u64 buffer = do u ← from_bytes buffer; ok (get u, drop (size u) buffer)

unfoldable pub write_u8 : ℕ → List ℕ → List ℕ
write_u8 value buffer = buffer ++ (value ∷ [])

unfoldable pub read_u8 : Reader ℕ
read_u8 [] = throws invalid_argument
read_u8 (b ∷ bs) = ok (b, bs)

unfoldable pub write_u16 : ℕ → List ℕ → List ℕ
write_u16 value buffer = buffer ++ ((value / 2 ^ 8 % 256) ∷ (value % 256) ∷ [])

unfoldable pub read_u16 : Reader ℕ
read_u16 [] = throws invalid_argument
read_u16 (b ∷ []) = throws invalid_argument
read_u16 (b ∷ c ∷ bs) = ok (b * 256 + c, bs)

unfoldable pub write_bytes : List ℕ → List ℕ → Outcome (List ℕ)
write_bytes value buffer = do b ← write_u64 (length value) buffer; ok (b ++ value)

-- `std::next(buffer.begin(), size)` with no test of `size`: past the end the behaviour is undefined.
unfoldable pub read_bytes : Reader (List ℕ)
read_bytes buffer = do
  r ← read_u64 buffer
  if leb r.0 (length r.1) then ok (take r.0 r.1, drop r.0 r.1) else undefined

pub record KeyValuePair : Type 0 where
  pub type : ℕ
  pub value : List ℕ

-- `memcpy` of at most eight bytes into a `uint64_t` that is 0, on a little-endian machine.
abbrev pub le_word : List ℕ → ℕ
le_word [] = 0
le_word (b ∷ bs) = b + 256 * le_word bs

-- The first `n` bytes of a `uint64_t` in memory.
abbrev pub le_bytes : ℕ → ℕ → List ℕ
le_bytes zero v = []
le_bytes (suc n) v = (v % 256) ∷ le_bytes n (v / 256)

-- `KeyValuePair::Size()`
unfoldable pub kvp_size : KeyValuePair → Outcome ℕ
kvp_size kvp = do
  t ← encode kvp.type
  if kvp.type % 2 == 0
      then (if ltb 8 (length kvp.value)
          then throws invalid_argument
          else (encode (le_word kvp.value) >>= λ v. ok (size t + size v)))
      else (encode (length kvp.value) >>= λ n. ok (size t + size n + length kvp.value))

-- `memcmp(a, b, n) == 0` on two ranges of one length.
abbrev pub bytes_eq : List ℕ → List ℕ → Bool
bytes_eq [] [] = true
bytes_eq (x ∷ xs) (y ∷ ys) = x == y && bytes_eq xs ys
bytes_eq _ _ = false

abbrev pub all_zero : List ℕ → Bool
all_zero [] = true
all_zero (b ∷ bs) = b == 0 && all_zero bs

-- The comparison of two values of even type behind the guard in `kvp_eq`, its only caller: each has at
-- most eight bytes.
unfoldable pub even_eq : List ℕ → List ℕ → Bool
even_eq a b =
    let smaller = min (length a) (length b) in
    let longer = if ltb (length b) (length a) then a else b in
    bytes_eq (take smaller a) (take smaller b)
    && (if max (length a) (length b) == smaller then true else all_zero (drop smaller longer))

-- `operator==`
unfoldable pub kvp_eq : KeyValuePair → KeyValuePair → Outcome Bool
kvp_eq a b =
    if a.type == b.type
    then (if a.type % 2 == 0
        then (if ltb 8 (length a.value) || ltb 8 (length b.value)
            then throws invalid_argument
            else ok (even_eq a.value b.value))
        else ok (bytes_eq a.value b.value))
    else ok false

unfoldable pub write_kvp : KeyValuePair → List ℕ → Outcome (List ℕ)
write_kvp kvp buffer = do
  b ← write_u64 kvp.type buffer
  if kvp.type % 2 == 0
      then (if ltb 8 (length kvp.value)
          then throws invalid_argument
          else write_u64 (le_word kvp.value) b)
      else write_bytes kvp.value b

-- The value of an even type is resized to the bytes of its varint, and takes that many bytes of it.
unfoldable pub read_kvp_value : ℕ → Reader (List ℕ)
read_kvp_value type buffer =
    if type % 2 == 0
    then (from_bytes buffer >>= λ u. ok (le_bytes (size u) (get u), drop (size u) buffer))
    else read_bytes buffer

unfoldable pub read_kvp : Reader KeyValuePair
read_kvp buffer = do
  t ← read_u64 buffer
  v ← read_kvp_value t.0 t.1
  ok (record { type = t.0; value = v.0 }, v.1)

pub record ControlMessage : Type 0 where
  pub type : ℕ
  pub payload : List ℕ

-- The length is cast to `uint16_t`.
unfoldable pub write_control_message : ControlMessage → List ℕ → Outcome (List ℕ)
write_control_message message buffer = do
  b ← write_u64 message.type buffer
  ok (write_u16 (length message.payload % 2 ^ 16) b ++ message.payload)

unfoldable pub read_control_message : Reader ControlMessage
read_control_message buffer = do
  t ← read_u64 buffer
  n ← read_u16 t.1
  if ltb (length n.1) n.0
      then throws invalid_argument
      else ok (record { type = t.0; payload = take n.0 n.1 }, drop n.0 n.1)

pub record Location : Type 0 where
  pub group : ℕ
  pub object : ℕ

unfoldable pub write_location : Location → List ℕ → Outcome (List ℕ)
write_location location buffer = do b ← write_u64 location.group buffer; write_u64 location.object b

unfoldable pub read_location : Reader Location
read_location buffer = do
  g ← read_u64 buffer
  o ← read_u64 g.1
  ok (record { group = g.0; object = o.0 }, o.1)

pub record JoiningFetch : Type 0 where
  pub request_id : ℕ
  pub joining_start : ℕ

unfoldable pub write_joining_fetch : JoiningFetch → List ℕ → Outcome (List ℕ)
write_joining_fetch fetch buffer = do
  b ← write_u64 fetch.request_id buffer
  write_u64 fetch.joining_start b

unfoldable pub read_joining_fetch : Reader JoiningFetch
read_joining_fetch buffer = do
  r ← read_u64 buffer
  s ← read_u64 r.1
  ok (record { request_id = r.0; joining_start = s.0 }, s.1)

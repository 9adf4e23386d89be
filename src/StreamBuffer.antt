-- ===== src/StreamBuffer.antt =====
-- include/quicr/detail/stream_buffer.h: a byte queue that messages are parsed from.
-- The operations on `buffer_` are functions on its elements; those on the parsed data are on the
-- whole object. `D` and `E` stand for the types that the two `std::any` are cast to. A length
-- parameter of type `uint32_t` is reduced where a wider value is passed.
pub mod Object
pub mod Decode
pub mod RoundTrip
pub mod Bytes
mod Tests
use libquicr.Prelude.{
  ℕ, ◌+◌, ◌%◌, ◌^◌, Bool, true, false, ◌||◌, Option, none, some, List, [], ◌∷◌, ◌++◌, Outcome, ok,
  ◌>>=◌, ltb, leb, ◌==◌, u32, if◌then◌else◌, length, take, drop,
}
use libquicr.UintVar.{UintVar, encode, from_bytes, size_of, get, bytes}

module _ {A : Type 0} where
  -- `Front()`
  abbrev pub front : List A → Option A
  front [] = none
  front (x ∷ xs) = some x

  abbrev pub empty : List A → Bool
  empty [] = true
  empty (x ∷ xs) = false

  unfoldable pub front_internal : ℕ → List A → List A
  front_internal n buffer = if ltb (length buffer) n then [] else take n buffer

  -- `Front(length)`
  unfoldable pub front_n : ℕ → List A → List A
  front_n n buffer = if empty buffer then [] else front_internal (u32 n) buffer

  -- `Pop()`
  abbrev pub pop : List A → List A
  pop [] = []
  pop (x ∷ xs) = xs

  unfoldable pub pop_internal : ℕ → List A → List A
  pop_internal n buffer = if leb (length buffer) n then [] else drop n buffer

  -- `Pop(length)`
  unfoldable pub pop_n : ℕ → List A → List A
  pop_n n buffer = if u32 n == 0 || empty buffer then buffer else pop_internal (u32 n) buffer

  unfoldable pub available : ℕ → List A → Bool
  available n buffer = leb (u32 n) (length buffer)

  -- `Push(span)`, and `Push(value)` for one element.
  abbrev pub push : List A → List A → List A
  push value buffer = buffer ++ value

-- `none` stands for `std::nullopt`; the second part is the buffer afterwards.
abbrev pub Read : Type 0 → Type 0
Read A = Outcome (Option A × List ℕ)

unfoldable pub push_length_bytes : List ℕ → List ℕ → Outcome (List ℕ)
push_length_bytes value buffer = do
  u ← encode (length value)
  ok (push value (push (bytes u) buffer))

-- `ReadUintV(pop)` on a buffer that is not empty: `msb` is its front.
unfoldable pub read_uint_v_from : Bool → ℕ → List ℕ → Read UintVar
read_uint_v_from popping msb buffer =
    if available (size_of msb) buffer
    then (do
      u ← from_bytes (front_internal (u32 (size_of msb)) buffer)
      ok (some u, if popping then pop_internal (u32 (size_of msb)) buffer else buffer))
    else ok (none, buffer)

unfoldable pub read_uint_v : Bool → List ℕ → Read UintVar
read_uint_v popping [] = ok (none, [])
read_uint_v popping (b ∷ bs) = read_uint_v_from popping b (b ∷ bs)

unfoldable pub decode_uint_v : Bool → List ℕ → Read ℕ
decode_uint_v popping buffer = do
  r ← read_uint_v popping buffer
  elim r.0 [ none ↦ ok (none, r.1) | some u ↦ ok (some (get u), r.1) ]

-- The branch of `DecodeBytes` where the length prefix is there, of `uv_len` bytes and value `len`.
unfoldable pub split_bytes : ℕ → List ℕ → Read (List ℕ)
split_bytes len rest = ok (some (front_internal (u32 len) rest), pop_internal (u32 len) rest)

unfoldable pub take_bytes : ℕ → ℕ → List ℕ → Read (List ℕ)
take_bytes uv_len len buffer =
    if leb ((uv_len + len) % 2 ^ 64) (length buffer)
    then split_bytes len (pop_internal (u32 uv_len) buffer)
    else ok (none, buffer)

unfoldable pub decode_bytes_from : ℕ → List ℕ → Read (List ℕ)
decode_bytes_from msb buffer =
    if available (size_of msb) buffer
    then (do
      u ← from_bytes (front_internal (u32 (size_of msb)) buffer)
      take_bytes (size_of msb) (get u) buffer)
    else ok (none, buffer)

unfoldable pub decode_bytes : List ℕ → Read (List ℕ)
decode_bytes [] = ok (none, [])
decode_bytes (b ∷ bs) = decode_bytes_from b (b ∷ bs)

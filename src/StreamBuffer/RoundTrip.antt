-- ===== src/StreamBuffer/RoundTrip.antt =====
-- What is pushed onto the stream buffer is decoded again.
use libquicr.Prelude.{
  ℕ, ◌+◌, ◌-◌, ◌%◌, ◌^◌, ◌≤◌, ◌<◌, ◌≡◌, ◌∙◌, true, some, List, [], ◌∷◌, ◌++◌, ok, ◌>>=◌, leb, u32,
  length, take, drop, replicate, append_assoc, arith, length-append, take-append_self,
  drop-append_self, le→leb,
}
use libquicr.UintVar.{UintVar, encode, from_bytes, size_of, get, bytes}
use libquicr.UintVar
use libquicr.UintVar.Wire.{
  wire, canonical, front-wire-append, size_of-wire, get-canonical, length-wire, encode-canonical,
  bytes-canonical,
}
use libquicr.UintVar.RoundTrip.{wire_pos}
use libquicr.StreamBuffer.{
  push_length_bytes, read_uint_v, decode_uint_v, take_bytes, split_bytes, decode_bytes, push,
}
use libquicr.StreamBuffer.Decode.{
  head_var, read_uint_v_all, decode_bytes_all, front_internal_lem, pop_internal_lem,
}

-- The reading lemmas on a buffer that is not known to be a cons.
read_uint_v_lem :
    (bs : List ℕ)
    → 1 ≤ length bs
    → size_of (UintVar.front bs) ≤ length bs
    → read_uint_v true bs
      ≡ ok (
        some (record {
          be_value =
              take (size_of (UintVar.front bs)) bs ++ replicate (8 - size_of (UintVar.front bs)) 0;
        }),
        drop (size_of (UintVar.front bs)) bs,
      )
unfolding head_var
read_uint_v_lem [] l h = elim l [ ]
read_uint_v_lem (b ∷ bs) l h = read_uint_v_all true b bs h

decode_bytes_lem :
    (bs : List ℕ)
    → 1 ≤ length bs
    → size_of (UintVar.front bs) ≤ length bs
    → decode_bytes bs
      ≡ take_bytes
          (size_of (UintVar.front bs))
          (get (record {
            be_value =
                take (size_of (UintVar.front bs)) bs
                ++ replicate (8 - size_of (UintVar.front bs)) 0;
          }))
          bs
unfolding head_var
decode_bytes_lem [] l h = elim l [ ]
decode_bytes_lem (b ∷ bs) l h = decode_bytes_all b bs h

module _ (v : ℕ) (rest : List ℕ) (small : v < 2 ^ 62) where
  wire_fits :
      (1 ≤ length (wire v ++ rest))
      × (size_of (UintVar.front (wire v ++ rest)) ≤ length (wire v ++ rest))
  wire_fits =
      rw (front-wire-append v rest, size_of-wire v small)
        (omega (arith, wire_pos v, length-append (wire v) rest))

  pub read_uint_v-wire : read_uint_v true (wire v ++ rest) ≡ ok (some (canonical v), rest)
  unfolding canonical
  read_uint_v-wire =
      read_uint_v_lem (wire v ++ rest) wire_fits.0 wire_fits.1
      ∙ rw (front-wire-append v rest, size_of-wire v small, take-append_self, drop-append_self)

  pub decode_uint_v-wire : decode_uint_v true (wire v ++ rest) ≡ ok (some v, rest)
  unfolding decode_uint_v
  decode_uint_v-wire = rw (read_uint_v-wire, get-canonical v small)

  decode_bytes-wire :
      decode_bytes (wire v ++ rest) ≡ take_bytes (length (wire v)) v (wire v ++ rest)
  unfolding canonical
  decode_bytes-wire =
      decode_bytes_lem (wire v ++ rest) wire_fits.0 wire_fits.1
      ∙ rw (front-wire-append v rest, size_of-wire v small, take-append_self, get-canonical v small)

length-wire_bound : (v : ℕ) → length (wire v) ≤ 8
length-wire_bound v = ground (arith, length-wire v)

split_bytes_lem :
    (value rest : List ℕ)
    → length value < 2 ^ 32
    → split_bytes (length value) (value ++ rest) ≡ ok (some value, rest)
unfolding split_bytes
split_bytes_lem value rest h = rw (
  narrow,
  front_internal_lem (length value) (value ++ rest) fits,
  pop_internal_lem (length value) (value ++ rest) fits,
  take-append_self,
  drop-append_self,
)
  where
    narrow : u32 (length value) ≡ length value
    narrow = omega arith

    fits : length value ≤ length (value ++ rest)
    fits = omega (arith, length-append value rest)

take_bytes_lem :
    (front value rest : List ℕ)
    → length front ≤ 8
    → length value < 2 ^ 32
    → take_bytes (length front) (length value) (front ++ (value ++ rest)) ≡ ok (some value, rest)
unfolding take_bytes
take_bytes_lem front value rest f h =
    rw
      (
        enough,
        narrow,
        pop_internal_lem (length front) (front ++ (value ++ rest)) fits,
        drop-append_self,
      )
      (split_bytes_lem value rest h)
  where
    narrow : u32 (length front) ≡ length front
    narrow = omega arith

    fits : length front ≤ length (front ++ (value ++ rest))
    fits = omega (arith, length-append front (value ++ rest))

    enough : leb ((length front + length value) % 2 ^ 64) (length (front ++ (value ++ rest))) ≡ true
    enough =
        le→leb _ _ (omega (arith, length-append front (value ++ rest), length-append value rest))

pub decode_bytes-append :
    (value rest : List ℕ)
    → length value < 2 ^ 32
    → decode_bytes (wire (length value) ++ (value ++ rest)) ≡ ok (some value, rest)
decode_bytes-append value rest h =
    decode_bytes-wire (length value) (value ++ rest) (omega arith)
    ∙ take_bytes_lem (wire (length value)) value rest (length-wire_bound _) h

-- `PushLengthBytes` of fewer than 2 ^ 32 bytes succeeds behind any buffer, and `DecodeBytes`
-- returns them and leaves what was pushed behind.
pub decode_bytes-push_length_bytes :
    (value rest : List ℕ)
    → length value < 2 ^ 32
    → (do b ← push_length_bytes value []; decode_bytes (push rest b)) ≡ ok (some value, rest)
unfolding push_length_bytes
decode_bytes-push_length_bytes value rest h =
    rw
      (
        encode-canonical (length value) (omega arith),
        bytes-canonical (length value) (omega arith),
        append_assoc,
      )
      (decode_bytes-append value rest h)

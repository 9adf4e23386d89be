-- ===== src/StreamBuffer/Tests.antt =====
-- Concrete buffers, and the theorems at them.
use libquicr.Prelude.{◌≡◌, refl, true, none, some, [], ◌∷◌, ok, arith}
use libquicr.UintVar.{size_of, size, get, from_bytes, from_be}
use libquicr.StreamBuffer.{
  decode_uint_v, read_uint_v, read_uint_v_from, available, front_internal, pop_internal,
  decode_bytes, decode_bytes_from, take_bytes,
}
use libquicr.StreamBuffer.Decode.{IsStable}
use libquicr.StreamBuffer.Bytes.{decode_bytes-IsStable}

decode_two : decode_uint_v true (0x7b ∷ 0xbd ∷ 5 ∷ []) ≡ ok (some 15293, 5 ∷ [])
unfolding decode_uint_v read_uint_v read_uint_v_from available front_internal pop_internal size_of
    size get from_bytes from_be
decode_two = refl

decode_short : decode_bytes (3 ∷ 10 ∷ 11 ∷ []) ≡ ok (none, 3 ∷ 10 ∷ 11 ∷ [])
unfolding decode_bytes decode_bytes_from take_bytes available front_internal pop_internal size_of
    size get from_bytes from_be
decode_short = refl

decode_bytes-IsStable_example : IsStable decode_bytes (2 ∷ 10 ∷ 11 ∷ 12 ∷ [])
decode_bytes-IsStable_example = decode_bytes-IsStable (2 ∷ 10 ∷ 11 ∷ 12 ∷ []) (omega arith)

-- ===== src/UintVar/Tests.antt =====
-- Concrete variable-length integers (test/uintvar.cpp has some of them), and the theorems at
-- concrete values.
use libquicr.Prelude.{
  ℕ, ◌^◌, ◌≡◌, refl, Outcome, List, [], ◌∷◌, ok, throws, invalid_argument, ◌>>=◌, arith,
}
use libquicr.UintVar.{UintVar, be_bytes, from_be, encode, size_of, size, from_bytes, get, bytes}
use libquicr.UintVar.RoundTrip.{stored, encode_lem}

bytes_of : ℕ → Outcome (List ℕ)
bytes_of v = encode v >>= λ u. ok (bytes u)

encode_37 : bytes_of 37 ≡ ok (0x25 ∷ [])
unfolding bytes_of encode be_bytes bytes size size_of
encode_37 = refl

encode_15293 : bytes_of 15293 ≡ ok (0x7b ∷ 0xbd ∷ [])
unfolding bytes_of encode be_bytes bytes size size_of
encode_15293 = refl

encode_494878333 : bytes_of 494878333 ≡ ok (0x9d ∷ 0x7f ∷ 0x3e ∷ 0x7d ∷ [])
unfolding bytes_of encode be_bytes bytes size size_of
encode_494878333 = refl

encode_151288809941952652 :
    bytes_of 151288809941952652 ≡ ok (0xc2 ∷ 0x19 ∷ 0x7c ∷ 0x5e ∷ 0xff ∷ 0x14 ∷ 0xe8 ∷ 0x8c ∷ [])
unfolding bytes_of encode be_bytes bytes size size_of
encode_151288809941952652 = refl

-- A form that is longer than it need be is accepted, and holds the same number.
padded : (from_bytes (0x40 ∷ 0x25 ∷ 0x99 ∷ []) >>= λ u. ok (get u)) ≡ ok 37
unfolding from_bytes get from_be size size_of
padded = refl

encode_lem_example : (encode (2 ^ 63) >>= λ u. ok (stored u)) ≡ throws invalid_argument
encode_lem_example = encode_lem (2 ^ 63) (omega arith)

abbrev two_bytes : UintVar
two_bytes = record { be_value = 0x7b ∷ 0xbd ∷ 0 ∷ 0 ∷ 0 ∷ 0 ∷ 0 ∷ 0 ∷ [] }

two_bytes_read : from_bytes (0x7b ∷ 0xbd ∷ 9 ∷ []) ≡ ok two_bytes
unfolding from_bytes size_of
two_bytes_read = refl

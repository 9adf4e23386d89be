-- ===== src/UintVar/Wire.antt =====
-- The QUIC encoding, written out, and what the constructors of `UintVar` make of it.
use libquicr.Prelude.{
  take-append_self, ℕ, ◌+◌, ◌-◌, ◌/◌, ◌%◌, ◌^◌, ◌≤◌, ◌<◌, ◌≡◌, List, [], ◌∷◌, ◌++◌, ok, throws,
  invalid_argument, ltb, if◌then◌else◌, length, replicate, arith,
}
use libquicr.UintVar.{UintVar, encode, size_of, size, get, bytes, front}
use libquicr.UintVar.Bits.{high_two, low_six, set_two, set_high, set_second, size_of-class}

-- RFC 9000, section 16: two bits for the length, the number in the others, highest byte first.
unfoldable pub wire : ℕ → List ℕ
wire v =
    if ltb v (2 ^ 6)
    then v ∷ []
    else if ltb v (2 ^ 14)
    then (64 + v / 2 ^ 8) ∷ (v % 256) ∷ []
    else if ltb v (2 ^ 30)
    then (128 + v / 2 ^ 24) ∷ (v / 2 ^ 16 % 256) ∷ (v / 2 ^ 8 % 256) ∷ (v % 256) ∷ []
    else (192 + v / 2 ^ 56)
      ∷ (v / 2 ^ 48 % 256)
      ∷ (v / 2 ^ 40 % 256)
      ∷ (v / 2 ^ 32 % 256)
      ∷ (v / 2 ^ 24 % 256)
      ∷ (v / 2 ^ 16 % 256)
      ∷ (v / 2 ^ 8 % 256)
      ∷ (v % 256)
      ∷ []

-- The `UintVar` whose bytes are the encoding.
unfoldable pub canonical : ℕ → UintVar
canonical v = record { be_value = wire v ++ replicate (8 - length (wire v)) 0 }

abbrev byte_at : ℕ → ℕ → ℕ
byte_at k v = v / 2 ^ k % 256

-- The constructor makes the encoding of every value below 2 ^ 62.
pub encode-canonical : (v : ℕ) → v < 2 ^ 62 → encode v ≡ ok (canonical v)
unfolding encode canonical wire
encode-canonical v h = ground (
  arith,
  high_two (byte_at 56 v),
  set_two (byte_at 56 v),
  set_high (byte_at 24 v),
  set_second (byte_at 8 v),
)

-- It refuses every other 64-bit value.
pub encode_refuses : (v : ℕ) → 2 ^ 62 ≤ v → v < 2 ^ 64 → encode v ≡ throws invalid_argument
unfolding encode
encode_refuses v h w = ground (arith, high_two (byte_at 56 v))

pub length-wire :
    (v : ℕ)
    → length (wire v)
      ≡ (if ltb v (2 ^ 6) then 1 else if ltb v (2 ^ 14) then 2 else if ltb v (2 ^ 30) then 4 else 8)
unfolding wire
length-wire v = ground arith

pub size_of-wire : (v : ℕ) → v < 2 ^ 62 → size_of (front (wire v)) ≡ length (wire v)
unfolding wire
size_of-wire v h = ground (
  arith,
  size_of-class v,
  size_of-class (64 + v / 2 ^ 8),
  size_of-class (128 + v / 2 ^ 24),
  size_of-class (192 + v / 2 ^ 56),
)

pub front-wire-append : (v : ℕ) (rest : List ℕ) → front (wire v ++ rest) ≡ front (wire v)
unfolding wire
front-wire-append v rest = ground arith

pub size-canonical : (v : ℕ) → v < 2 ^ 62 → size (canonical v) ≡ length (wire v)
unfolding size canonical
size-canonical v h = rw front-wire-append (size_of-wire v h)

pub bytes-canonical : (v : ℕ) → v < 2 ^ 62 → bytes (canonical v) ≡ wire v
unfolding bytes canonical
bytes-canonical v h = rw (size-canonical v h) (take-append_self (wire v) _)

module _ (v : ℕ) where
  get_one : v < 2 ^ 6 → get (canonical v) ≡ v
  unfolding get canonical wire
  get_one h = ground (arith, size_of-class v, low_six v)

  get_two : 2 ^ 6 ≤ v → v < 2 ^ 14 → get (canonical v) ≡ v
  unfolding get canonical wire
  get_two l h = ground (arith, size_of-class (64 + v / 2 ^ 8), low_six (64 + v / 2 ^ 8))

  get_four : 2 ^ 14 ≤ v → v < 2 ^ 30 → get (canonical v) ≡ v
  unfolding get canonical wire
  get_four l h = ground (arith, size_of-class (128 + v / 2 ^ 24), low_six (128 + v / 2 ^ 24))

  get_eight : 2 ^ 30 ≤ v → v < 2 ^ 62 → get (canonical v) ≡ v
  unfolding get canonical wire
  get_eight l h = ground (arith, size_of-class (192 + v / 2 ^ 56), low_six (192 + v / 2 ^ 56))

pub get-canonical : (v : ℕ) → v < 2 ^ 62 → get (canonical v) ≡ v
get-canonical v h = ground (arith, get_one v, get_two v, get_four v, get_eight v)

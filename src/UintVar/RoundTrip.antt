-- ===== src/UintVar/RoundTrip.antt =====
-- Writing and reading a `UintVar` again, and what reading promises on any bytes.
use libquicr.Prelude.{
  ℕ, ◌-◌, ◌^◌, ◌≤◌, ◌<◌, ◌≡◌, List, [], ◌∷◌, ◌++◌, ok, throws, invalid_argument, ◌>>=◌, ltb,
  if◌then◌else◌, length, take, take-append, take-append_self, length-append, replicate, arith, inl,
  inr, Bool-cases, ltb→lt, ltb→le, ◌∙◌,
}
use libquicr.UintVar.{UintVar, encode, size_of, from_bytes, get, bytes, front}
use libquicr.UintVar.Wire.{
  wire, canonical, encode-canonical, encode_refuses, get-canonical, length-wire, size_of-wire,
  front-wire-append, bytes-canonical,
}

abbrev pub stored : UintVar → List ℕ × ℕ
stored u = (bytes u, get u)

-- A `uint64_t` below 2 ^ 62 is stored, written as in RFC 9000 and read back by `Get`; any other is
-- refused with `std::invalid_argument`.
pub encode_lem :
    (v : ℕ)
    → v < 2 ^ 64
    → (do u ← encode v; ok (stored u))
      ≡ (if ltb v (2 ^ 62) then ok (wire v, v) else throws invalid_argument)
encode_lem v h = elim (Bool-cases (ltb v (2 ^ 62))) [
  | inl t ↦
      let small : v < 2 ^ 62 = ltb→lt _ _ t in
      rw (t, encode-canonical v small, bytes-canonical v small, get-canonical v small)
  | inr f ↦ rw (f, encode_refuses v (ltb→le _ _ f) h)
]

pub size_of_bounds : (b : ℕ) → (1 ≤ size_of b) × (size_of b ≤ 8)
unfolding size_of
size_of_bounds b = ground arith

pub from_bytes_lem :
    (bs : List ℕ)
    → 1 ≤ length bs
    → size_of (front bs) ≤ length bs
    → from_bytes bs
      ≡ ok (record {
        be_value = take (size_of (front bs)) bs ++ replicate (8 - size_of (front bs)) 0;
      })
unfolding from_bytes
from_bytes_lem [] l h = elim l [ ]
from_bytes_lem (b ∷ bs) l h = ground arith

pub wire_pos : (v : ℕ) → 1 ≤ length (wire v)
wire_pos v = ground (arith, length-wire v)

-- Whatever follows an encoding, the constructor reads just the encoding.
pub from_bytes-wire :
    (v : ℕ) (rest : List ℕ) → v < 2 ^ 62 → from_bytes (wire v ++ rest) ≡ ok (canonical v)
unfolding canonical
from_bytes-wire v rest h =
    from_bytes_lem (wire v ++ rest) (omega (arith, wire_pos v, length-append (wire v) rest))
      (rw (front-wire-append v rest, size_of-wire v h) (omega (arith, length-append (wire v) rest)))
    ∙ rw (front-wire-append v rest, size_of-wire v h, take-append_self)

-- Writing a value below 2^62 and reading it back, with any bytes behind it, gives the same
-- `UintVar`.
pub from_bytes-bytes :
    (v : ℕ) (rest : List ℕ)
    → v < 2 ^ 62
    → (do u ← encode v; from_bytes (bytes u ++ rest)) ≡ encode v
from_bytes-bytes v rest h =
    rw (encode-canonical v h, bytes-canonical v h) (from_bytes-wire v rest h)

-- The constructor looks at no byte past those that the first one asks for.
pub from_bytes-append :
    (bs more : List ℕ)
    → 1 ≤ length bs
    → size_of (front bs) ≤ length bs
    → from_bytes (bs ++ more) ≡ from_bytes bs
unfolding from_bytes
from_bytes-append [] more l h = elim l [ ]
from_bytes-append (b ∷ bs) more l h =
    ground (arith, length-append (b ∷ bs) more, take-append (size_of b) (b ∷ bs) more h)

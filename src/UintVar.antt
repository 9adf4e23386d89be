-- ===== src/UintVar.antt =====
-- include/quicr/detail/uintvar.h: QUIC variable-length integers, on a little-endian machine.
-- `be_value_` is its eight bytes. A `bit_cast` to `uint64_t` reads them lowest first, so `>> 8 * k`
-- on that word moves the bytes k places to the front, `<< 8 * k` moves them k places to the back,
-- and an `|` or `&` with a byte constant is on the first byte.
pub mod Bits
pub mod Wire
pub mod RoundTrip
pub mod Bounds
mod Tests
use libquicr.Prelude.{
  ℕ, zero, suc, ◌+◌, ◌-◌, ◌*◌, ◌/◌, ◌%◌, ◌^◌, bit_and, bit_or, Bool, true, false, not, ◌||◌, List,
  [], ◌∷◌, ◌++◌, Outcome, ok, throws, invalid_argument, ltb, ◌==◌, if◌then◌else◌, length, take,
  drop, replicate,
}

pub record UintVar : Type 0 where
  pub be_value : List ℕ

-- The bytes of a `uint64_t`, highest first: `bit_cast` of `SwapBytes(value)`.
unfoldable pub be_bytes : ℕ → List ℕ
be_bytes v =
    (v / 2 ^ 56 % 256)
    ∷ (v / 2 ^ 48 % 256)
    ∷ (v / 2 ^ 40 % 256)
    ∷ (v / 2 ^ 32 % 256)
    ∷ (v / 2 ^ 24 % 256)
    ∷ (v / 2 ^ 16 % 256)
    ∷ (v / 2 ^ 8 % 256)
    ∷ (v % 256)
    ∷ []

abbrev pub from_be_loop : ℕ → List ℕ → ℕ
from_be_loop acc [] = acc
from_be_loop acc (b ∷ bs) = from_be_loop (acc * 256 + b) bs

-- `SwapBytes` of the word that the bytes are.
unfoldable pub from_be : List ℕ → ℕ
from_be bs = from_be_loop 0 bs

abbrev pub front : List ℕ → ℕ
front [] = 0
front (b ∷ bs) = b

abbrev or_front : ℕ → List ℕ → List ℕ
or_front m [] = []
or_front m (b ∷ bs) = bit_or b m ∷ bs

abbrev and_front : ℕ → List ℕ → List ℕ
and_front m [] = []
and_front m (b ∷ bs) = bit_and b m ∷ bs

-- `word >>= 8 * k`
abbrev shift_front : ℕ → List ℕ → List ℕ
shift_front k bs = drop k bs ++ replicate k 0

-- `word << 8 * k`
abbrev shift_back : ℕ → List ℕ → List ℕ
shift_back k bs = replicate k 0 ++ take (8 - k) bs

abbrev pub k14bit_length : ℕ
k14bit_length = 63

abbrev pub k30bit_length : ℕ
k30bit_length = 16383

abbrev pub k62bit_length : ℕ
k62bit_length = 1073741823

-- The constructor from a value.
unfoldable pub encode : ℕ → Outcome UintVar
unfolding be_bytes
encode value =
    let be = be_bytes value in
    if not (bit_and (front be) 0xc0 == 0)
    then throws invalid_argument
    else ok (record {
      be_value =
          if ltb k62bit_length value
          then or_front 0xc0 be
          else if ltb k30bit_length value
          then or_front 0x80 (shift_front 4 be)
          else if ltb k14bit_length value
          then or_front 0x40 (shift_front 6 be)
          else shift_front 7 be;
    })

-- `Size(msb_bytes)`, the static one.
unfoldable pub size_of : ℕ → ℕ
size_of msb =
    if bit_and msb 0xc0 == 0xc0
    then 8
    else if bit_and msb 0x80 == 0x80
    then 4
    else if bit_and msb 0x40 == 0x40
    then 2
    else 1

-- `Size()`
unfoldable pub size : UintVar → ℕ
unfolding size_of
size u = size_of (front u.be_value)

-- The constructor from bytes.
unfoldable pub from_bytes : List ℕ → Outcome UintVar
from_bytes bytes =
    if length bytes == 0 || ltb (length bytes) (size_of (front bytes))
    then throws invalid_argument
    else ok (record {
      be_value = take (size_of (front bytes)) bytes ++ replicate (8 - size_of (front bytes)) 0;
    })

-- `Get()`
unfoldable pub get : UintVar → ℕ
unfolding from_be size
get u = from_be (shift_back (8 - size u) (and_front 0x3f u.be_value))

-- The bytes from `begin()` to `end()`.
unfoldable pub bytes : UintVar → List ℕ
bytes u = take (size u) u.be_value

-- `operator=(uint64_t)`: the old value is kept when the new one is refused.
unfoldable pub assign : UintVar → ℕ → Outcome UintVar
unfolding encode
assign u value = encode value

-- ===== src/UintVar/Bits.antt =====
-- Bit operations of `UintVar` on a byte, in plain arithmetic.
use libquicr.Prelude.{
  ℕ, ◌+◌, ◌*◌, ◌/◌, ◌%◌, ◌<◌, ◌≡◌, refl, bit_and, bit_or, true, ◌==◌, ==_iff, each_under,
  each_under_apply, if◌then◌else◌, leb,
}
use libquicr.UintVar.{size_of}

high_two_table : each_under (λ x. bit_and x 0xc0 == x / 64 * 64) 256 ≡ true
unfolding each_under
high_two_table = refl

pub high_two : (x : ℕ) → x < 256 → bit_and x 0xc0 ≡ x / 64 * 64
high_two x h = (==_iff _ _).0 (each_under_apply _ 256 x h high_two_table)

low_six_table : each_under (λ x. bit_and x 0x3f == x % 64) 256 ≡ true
unfolding each_under
low_six_table = refl

pub low_six : (x : ℕ) → x < 256 → bit_and x 0x3f ≡ x % 64
low_six x h = (==_iff _ _).0 (each_under_apply _ 256 x h low_six_table)

set_two_table : each_under (λ x. bit_or x 0xc0 == x + 192) 64 ≡ true
unfolding each_under
set_two_table = refl

pub set_two : (x : ℕ) → x < 64 → bit_or x 0xc0 ≡ x + 192
set_two x h = (==_iff _ _).0 (each_under_apply _ 64 x h set_two_table)

set_high_table : each_under (λ x. bit_or x 0x80 == x + 128) 64 ≡ true
unfolding each_under
set_high_table = refl

pub set_high : (x : ℕ) → x < 64 → bit_or x 0x80 ≡ x + 128
set_high x h = (==_iff _ _).0 (each_under_apply _ 64 x h set_high_table)

set_second_table : each_under (λ x. bit_or x 0x40 == x + 64) 64 ≡ true
unfolding each_under
set_second_table = refl

pub set_second : (x : ℕ) → x < 64 → bit_or x 0x40 ≡ x + 64
set_second x h = (==_iff _ _).0 (each_under_apply _ 64 x h set_second_table)

-- The size that the two high bits of a byte stand for.
abbrev pub size_by_class : ℕ → ℕ
size_by_class x = if leb 192 x then 8 else if leb 128 x then 4 else if leb 64 x then 2 else 1

size_table : each_under (λ x. size_of x == size_by_class x) 256 ≡ true
unfolding each_under size_of
size_table = refl

pub size_of-class : (x : ℕ) → x < 256 → size_of x ≡ size_by_class x
size_of-class x h = (==_iff _ _).0 (each_under_apply _ 256 x h size_table)

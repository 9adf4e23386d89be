-- ===== src/UintVar/Bounds.antt =====
-- What `Get` can return for a `UintVar` that was read from bytes.
use libquicr.Prelude.{
  ok, ℕ, suc, ◌-◌, ◌^◌, ◌≤◌, ◌<◌, ◌≡◌, List, [], ◌∷◌, ◌++◌, length, take, replicate, All, arith,
  ◌⊎◌, inl, inr,
}
use libquicr.UintVar.{UintVar, from_bytes, size_of, get}
use libquicr.UintVar.Bits.{low_six, size_of-class}

abbrev pub IsByte : ℕ → Type 0
IsByte b = b < 256

-- The four sizes, and what the first byte is then.
size_cases :
    (b : ℕ) → b < 256 → (size_of b ≡ 1) ⊎ (size_of b ≡ 2) ⊎ (size_of b ≡ 4) ⊎ (size_of b ≡ 8)
size_cases b h = ground (arith, size_of-class b h)

get_one :
    (b : ℕ) (bs : List ℕ)
    → All IsByte (b ∷ bs)
    → size_of b ≡ 1
    → 1 ≤ suc (length bs)
    → get (record { be_value = take 1 (b ∷ bs) ++ replicate 7 0 }) < 2 ^ 62
unfolding get
get_one b r h q l = rw (q, low_six b h.0) (omega arith)

get_two :
    (b : ℕ) (bs : List ℕ)
    → All IsByte (b ∷ bs)
    → size_of b ≡ 2
    → 2 ≤ suc (length bs)
    → get (record { be_value = take 2 (b ∷ bs) ++ replicate 6 0 }) < 2 ^ 62
unfolding get
get_two b [] h q l = absurd (omega arith)
get_two b (c ∷ r) h q l = rw (q, low_six b h.0) (omega arith)

get_four :
    (b : ℕ) (bs : List ℕ)
    → All IsByte (b ∷ bs)
    → size_of b ≡ 4
    → 4 ≤ suc (length bs)
    → get (record { be_value = take 4 (b ∷ bs) ++ replicate 4 0 }) < 2 ^ 62
unfolding get
get_four b [] h q l = absurd (omega arith)
get_four b (c ∷ []) h q l = absurd (omega arith)
get_four b (c ∷ d ∷ []) h q l = absurd (omega arith)
get_four b (c ∷ d ∷ e ∷ r) h q l = rw (q, low_six b h.0) (omega arith)

get_eight :
    (b : ℕ) (bs : List ℕ)
    → All IsByte (b ∷ bs)
    → size_of b ≡ 8
    → 8 ≤ suc (length bs)
    → get (record { be_value = take 8 (b ∷ bs) ++ replicate 0 0 }) < 2 ^ 62
unfolding get
get_eight b [] h q l = absurd (omega arith)
get_eight b (c ∷ []) h q l = absurd (omega arith)
get_eight b (c ∷ d ∷ []) h q l = absurd (omega arith)
get_eight b (c ∷ d ∷ e ∷ []) h q l = absurd (omega arith)
get_eight b (c ∷ d ∷ e ∷ f ∷ []) h q l = absurd (omega arith)
get_eight b (c ∷ d ∷ e ∷ f ∷ g ∷ []) h q l = absurd (omega arith)
get_eight b (c ∷ d ∷ e ∷ f ∷ g ∷ i ∷ []) h q l = absurd (omega arith)
get_eight b (c ∷ d ∷ e ∷ f ∷ g ∷ i ∷ j ∷ r) h q l = rw (q, low_six b h.0) (omega arith)

-- A `UintVar` that is read from bytes is below 2 ^ 62.
pub get-lt :
    (b : ℕ) (bs : List ℕ)
    → All IsByte (b ∷ bs)
    → size_of b ≤ suc (length bs)
    → get (record { be_value = take (size_of b) (b ∷ bs) ++ replicate (8 - size_of b) 0 }) < 2 ^ 62
get-lt b bs h l = elim (size_cases b h.0) [
  | inl e ↦ rw e (get_one b bs h e (omega arith))
  | inr (inl e) ↦ rw e (get_two b bs h e (omega arith))
  | inr (inr (inl e)) ↦ rw e (get_four b bs h e (omega arith))
  | inr (inr (inr e)) ↦ rw e (get_eight b bs h e (omega arith))
]

-- A `UintVar` that is made from bytes has a value below 2^62, so that it can be written again.
pub get-lt_of_from_bytes :
    (bs : List ℕ) {u : UintVar} → All IsByte bs → from_bytes bs ≡ ok u → get u < 2 ^ 62
unfolding from_bytes
get-lt_of_from_bytes [] h e = cc
get-lt_of_from_bytes (b ∷ bs) h e = ground (arith, get-lt b bs h)

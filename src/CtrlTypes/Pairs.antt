-- ===== src/CtrlTypes/Pairs.antt =====
-- Key-value pairs: what `operator==` compares, and that a pair written is read back equal.
use libquicr.Prelude.{
  ◌≢◌, ℕ, zero, suc, ◌/◌, ◌%◌, ◌^◌, ◌≤◌, ◌<◌, ◌≡◌, refl, sym, ap, ◌∙◌, ◌⊎◌, inl, inr, ◌↔◌, Bool,
  true, false, ◌&&◌, List, [], ◌∷◌, ◌++◌, append_assoc, Outcome, ok, ◌>>=◌, ◌==◌, if◌then◌else◌,
  length, min, length-append, drop-append_self, le→ltb, arith, All, ==_refl, Bool-cases, ltb, ◌||◌,
  throws, invalid_argument,
}
use libquicr.UintVar.Wire.{wire, encode-canonical, get-canonical, size-canonical, length-wire}
use libquicr.UintVar.RoundTrip.{from_bytes-wire}
use libquicr.UintVar.Bounds.{IsByte}
use libquicr.CtrlTypes.{
  KeyValuePair, le_word, le_bytes, kvp_size, bytes_eq, all_zero, even_eq, kvp_eq, write_kvp,
  read_kvp_value, read_kvp,
}
use libquicr.CtrlTypes.Ints.{write_u64-wire, read_u64-wire, write_bytes-wire, read_bytes-wire}

abbrev padded_eq : List ℕ → List ℕ → Bool
padded_eq [] b = all_zero b
padded_eq (x ∷ a) [] = all_zero (x ∷ a)
padded_eq (x ∷ a) (y ∷ b) = x == y && padded_eq a b

min-suc : (m n : ℕ) → min (suc m) (suc n) ≡ suc (min m n)
min-suc m n = omega arith

even_eq_lem : (a b : List ℕ) → even_eq a b ≡ padded_eq a b
unfolding even_eq
even_eq_lem [] [] = refl
even_eq_lem [] (y ∷ b) = ground arith
even_eq_lem (x ∷ a) [] = ground arith
even_eq_lem (x ∷ a) (y ∷ b) = rw (min-suc (length a) (length b)) (ground (arith, even_eq_lem a b))

all_zero_iff : (a : List ℕ) → (all_zero a ≡ true) ↔ (le_word a ≡ 0)
all_zero_iff [] = ((λ _. refl), (λ _. refl))
all_zero_iff (x ∷ a) = ground (arith, all_zero_iff a)

padded_eq_iff :
    (a b : List ℕ) → All IsByte a → All IsByte b → (padded_eq a b ≡ true) ↔ (le_word a ≡ le_word b)
padded_eq_iff [] b ha hb = ground (arith, all_zero_iff b)
padded_eq_iff (x ∷ a) [] ha hb = ground (arith, all_zero_iff (x ∷ a))
padded_eq_iff (x ∷ a) (y ∷ b) ha hb = ground (arith, padded_eq_iff a b ha.1 hb.1)

pub even_eq_iff :
    (a b : List ℕ) → All IsByte a → All IsByte b → (even_eq a b ≡ true) ↔ (le_word a ≡ le_word b)
even_eq_iff a b ha hb = rw (even_eq_lem a b) (padded_eq_iff a b ha hb)

le_word-le_bytes : (v : ℕ) → v < 2 ^ 62 → le_word (le_bytes (length (wire v)) v) ≡ v
le_word-le_bytes v h = rw (length-wire v) (ground arith)

kvp_eq_even :
    (t : ℕ) (a b : List ℕ)
    → t % 2 ≡ 0
    → length a ≤ 8
    → length b ≤ 8
    → kvp_eq (record { type = t; value = a }) (record { type = t; value = b }) ≡ ok (even_eq a b)
unfolding kvp_eq
kvp_eq_even t a b e la lb = ground arith

-- Two pairs of one even type compare as equal just when their values are one little-endian number, when
-- these have at most eight bytes, and the comparison throws when either has more.
pub kvp_eq_iff :
    (t : ℕ) (a b : List ℕ)
    → t % 2 ≡ 0
    → All IsByte a
    → All IsByte b
    → ((length a ≤ 8)
        × (length b ≤ 8)
        × ((kvp_eq (record { type = t; value = a }) (record { type = t; value = b }) ≡ ok true)
            ↔ (le_word a ≡ le_word b)))
      ⊎ (((8 < length a) ⊎ (8 < length b))
          × (kvp_eq (record { type = t; value = a }) (record { type = t; value = b })
              ≡ throws invalid_argument))
unfolding kvp_eq
kvp_eq_iff t a b e ha hb = elim (Bool-cases (ltb 8 (length a) || ltb 8 (length b))) [
  | inl long ↦ inr (ground (arith, long), ground (arith, long, e))
  | inr fits ↦
      let la : length a ≤ 8 = ground (arith, fits) in
      let lb : length b ≤ 8 = ground (arith, fits) in
      let same = even_eq_iff a b ha hb in
      inl (la, lb, rw (kvp_eq_even t a b e la lb) ((λ h. same.0 cc), (λ h. ap ok (same.1 h))))
]

bytes_eq_refl : (a : List ℕ) → bytes_eq a a ≡ true
bytes_eq_refl [] = refl
bytes_eq_refl (x ∷ xs) = rw (==_refl x) (bytes_eq_refl xs)

kvp_eq_odd :
    (t : ℕ) (a : List ℕ)
    → t % 2 ≢ 0
    → kvp_eq (record { type = t; value = a }) (record { type = t; value = a }) ≡ ok true
unfolding kvp_eq
kvp_eq_odd t a e = ground (arith, bytes_eq_refl a)

-- A pair that can be written: an even type holds at most eight bytes, whose number is a varint.
abbrev pub KvpFits : KeyValuePair → Type 0
KvpFits p =
    (p.type < 2 ^ 62)
    × (((p.type % 2 ≡ 0) × (length p.value ≤ 8) × All IsByte p.value × (le_word p.value < 2 ^ 62))
        ⊎ ((p.type % 2 ≡ 1) × (length p.value < 2 ^ 62)))

unfoldable pub kvp_wire : KeyValuePair → List ℕ
kvp_wire p =
    wire p.type
    ++ (if p.type % 2 == 0 then wire (le_word p.value) else wire (length p.value) ++ p.value)

even_test : (t : ℕ) → t % 2 ≡ 0 → (t % 2 == 0) ≡ true
even_test t e = ground arith

odd_test : (t : ℕ) → t % 2 ≡ 1 → (t % 2 == 0) ≡ false
odd_test t e = ground arith

pub write_kvp-wire :
    (p : KeyValuePair) (b : List ℕ) → KvpFits p → write_kvp p b ≡ ok (b ++ kvp_wire p)
unfolding write_kvp kvp_wire
write_kvp-wire p b (ht, inl (even, la, bs, small)) = rw (
  write_u64-wire p.type b ht,
  even_test p.type even,
  le→ltb 8 (length p.value) la,
  write_u64-wire (le_word p.value) (b ++ wire p.type) small,
  append_assoc,
)
write_kvp-wire p b (ht, inr (odd, la)) = rw (
  write_u64-wire p.type b ht,
  odd_test p.type odd,
  write_bytes-wire p.value (b ++ wire p.type) la,
  append_assoc,
)

-- For a pair of a type below 2^62, whose value is at most eight bytes of a number below 2^62 if the
-- type is even, and fewer than 2^62 bytes if it is odd, `Size()` is the number of bytes that
-- `operator<<` appends.
pub kvp_size-write_kvp :
    (p : KeyValuePair) → KvpFits p → (do b ← write_kvp p []; ok (length b)) ≡ kvp_size p
unfolding kvp_size kvp_wire
kvp_size-write_kvp p h = rw (write_kvp-wire p [] h) (sizes p h)
  where
    sizes : (p : KeyValuePair) → KvpFits p → ok (length (kvp_wire p)) ≡ kvp_size p
    sizes p (ht, inl (even, la, bs, small)) = rw (
      encode-canonical p.type ht,
      even_test p.type even,
      le→ltb 8 (length p.value) la,
      encode-canonical (le_word p.value) small,
      length-append,
      size-canonical p.type ht,
      size-canonical (le_word p.value) small,
    )
    sizes p (ht, inr (odd, la)) =
        rw
          (
            encode-canonical p.type ht,
            odd_test p.type odd,
            encode-canonical (length p.value) la,
            length-append,
            length-append,
            size-canonical p.type ht,
            size-canonical (length p.value) la,
          )
          (ground arith)

read_kvp-wire_even :
    (t v : ℕ) (rest : List ℕ)
    → t % 2 ≡ 0
    → t < 2 ^ 62
    → v < 2 ^ 62
    → read_kvp (wire t ++ (wire v ++ rest))
      ≡ ok (record { type = t; value = le_bytes (length (wire v)) v }, rest)
unfolding read_kvp read_kvp_value
read_kvp-wire_even t v rest even ht hv = rw (
  read_u64-wire t (wire v ++ rest) ht,
  even_test t even,
  from_bytes-wire v rest hv,
  size-canonical v hv,
  get-canonical v hv,
  drop-append_self,
)

read_kvp-wire_odd :
    (t : ℕ) (value rest : List ℕ)
    → t % 2 ≡ 1
    → t < 2 ^ 62
    → length value < 2 ^ 62
    → read_kvp (wire t ++ (wire (length value) ++ (value ++ rest)))
      ≡ ok (record { type = t; value = value }, rest)
unfolding read_kvp read_kvp_value
read_kvp-wire_odd t value rest odd ht hv =
    rw (read_u64-wire t _ ht, odd_test t odd, read_bytes-wire value rest hv)

pub le_bytes-IsByte : (n v : ℕ) → All IsByte (le_bytes n v)
le_bytes-IsByte zero v = tt
le_bytes-IsByte (suc n) v = (omega arith, le_bytes-IsByte n (v / 256))

length-le_bytes : (n v : ℕ) → length (le_bytes n v) ≡ n
length-le_bytes zero v = refl
length-le_bytes (suc n) v = ap suc (length-le_bytes n (v / 256))

length-wire_bound : (v : ℕ) → length (wire v) ≤ 8
length-wire_bound v = ground (arith, length-wire v)

kvp_eq-le_bytes :
    (t v : ℕ) (a : List ℕ)
    → t % 2 ≡ 0
    → length a ≤ 8
    → All IsByte a
    → le_word a ≡ v
    → v < 2 ^ 62
    → kvp_eq
        (record { type = t; value = a })
        (record { type = t; value = le_bytes (length (wire v)) v })
      ≡ ok true
kvp_eq-le_bytes t v a even la bs e hv =
    kvp_eq_even t a (le_bytes (length (wire v)) v) even la
      (rw (length-le_bytes (length (wire v)) v) (length-wire_bound v))
    ∙ ap ok (
        (even_eq_iff a (le_bytes (length (wire v)) v) bs (le_bytes-IsByte _ v)).1
          (e ∙ sym (le_word-le_bytes v hv)))

abbrev pub pure_pair : {A B : Type 0} → A → B → Outcome (A × B)
pure_pair a b = ok (a, b)

-- A pair of a type below 2^62, whose value is at most eight bytes of a number below 2^62 if the
-- type is even, and fewer than 2^62 bytes if it is odd, is written and read back equal in the sense
-- of `operator==`, and what follows is left.
pub read_kvp-write_kvp :
    (p : KeyValuePair) (rest : List ℕ)
    → KvpFits p
    → (do b ← write_kvp p []; r ← read_kvp (b ++ rest); same ← kvp_eq p r.0; pure_pair same r.1)
      ≡ ok (true, rest)
unfolding kvp_wire
read_kvp-write_kvp p rest (ht, inl (even, la, bs, small)) = rw (
  write_kvp-wire p [] (ht, inl (even, la, bs, small)),
  even_test p.type even,
  append_assoc,
  read_kvp-wire_even p.type (le_word p.value) rest even ht small,
  kvp_eq-le_bytes p.type (le_word p.value) p.value even la bs refl small,
)
read_kvp-write_kvp p rest (ht, inr (odd, la)) = rw (
  write_kvp-wire p [] (ht, inr (odd, la)),
  odd_test p.type odd,
  append_assoc,
  append_assoc,
  read_kvp-wire_odd p.type p.value rest odd ht la,
  kvp_eq_odd p.type p.value (λ e. omega arith),
)

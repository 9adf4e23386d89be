-- ===== src/StreamBuffer/Decode.antt =====
-- What the decoding operations of the stream buffer do on every buffer.
use libquicr.Prelude.{
  take-append-drop, take-append-drop, ℕ, zero, suc, ◌-◌, ◌≤◌, ◌<◌, ◌≡◌, refl, sym, ap, ◌∙◌, ◌⊎◌,
  inl, inr, Bool, true, none, some, List, [], ◌∷◌, ◌++◌, ok, ltb, u32, if◌then◌else◌, length, take,
  drop, replicate, arith, length-append, length-take, length-drop, take-append, drop-append,
  drop_all, Bool-cases, ltb→lt, ltb→le, le→leb,
}
use libquicr.UintVar.{UintVar, encode, from_bytes, size_of, get, bytes}
use libquicr.UintVar
use libquicr.UintVar.RoundTrip.{size_of_bounds, from_bytes_lem, from_bytes-append}
use libquicr.StreamBuffer.{
  front_internal, pop_internal, available, Read, read_uint_v_from, read_uint_v, decode_uint_v,
  take_bytes, decode_bytes_from, decode_bytes,
}

-- The `UintVar` at the front of a buffer that holds all its bytes.
unfoldable pub head_var : ℕ → List ℕ → UintVar
head_var b bs = record { be_value = take (size_of b) (b ∷ bs) ++ replicate (8 - size_of b) 0 }

pub front_internal_lem : (n : ℕ) (bs : List ℕ) → n ≤ length bs → front_internal n bs ≡ take n bs
unfolding front_internal
front_internal_lem n bs h = ground arith

pub pop_internal_lem : (n : ℕ) (bs : List ℕ) → n ≤ length bs → pop_internal n bs ≡ drop n bs
unfolding pop_internal
pop_internal_lem n bs h = ground (arith, drop_all n bs)

size_u32 : (b : ℕ) → u32 (size_of b) ≡ size_of b
size_u32 b = omega (arith, size_of_bounds b)

front-take : (n b : ℕ) (bs : List ℕ) → 1 ≤ n → UintVar.front (take n (b ∷ bs)) ≡ b
front-take zero b bs h = elim h [ ]
front-take (suc n) b bs h = refl

from_bytes_front :
    (b : ℕ) (bs : List ℕ)
    → size_of b ≤ suc (length bs)
    → from_bytes (front_internal (u32 (size_of b)) (b ∷ bs)) ≡ ok (head_var b bs)
unfolding head_var
from_bytes_front b bs h =
    rw (size_u32 b, front_internal_lem (size_of b) (b ∷ bs) h)
      (sym (
          from_bytes-append (take (size_of b) (b ∷ bs)) (drop (size_of b) (b ∷ bs))
            (omega (arith, length-take (size_of b) (b ∷ bs) h, size_of_bounds b))
            (rw (front-take (size_of b) b bs (size_of_bounds b).0)
              (omega (arith, length-take (size_of b) (b ∷ bs) h))))
        ∙ ap from_bytes (take-append-drop (size_of b) (b ∷ bs))
        ∙ from_bytes_lem (b ∷ bs) (omega arith) h)

pub read_uint_v_all :
    (popping : Bool) (b : ℕ) (bs : List ℕ)
    → size_of b ≤ suc (length bs)
    → read_uint_v popping (b ∷ bs)
      ≡ ok (some (head_var b bs), if popping then drop (size_of b) (b ∷ bs) else b ∷ bs)
unfolding read_uint_v read_uint_v_from
read_uint_v_all popping b bs h =
    rw (avail, from_bytes_front b bs h, size_u32 b, pop_internal_lem (size_of b) (b ∷ bs) h)
  where
    avail : available (size_of b) (b ∷ bs) ≡ true
    avail = unfold available in rw (size_u32 b) (le→leb _ _ h)

read_uint_v_short :
    (popping : Bool) (b : ℕ) (bs : List ℕ)
    → suc (length bs) < size_of b
    → read_uint_v popping (b ∷ bs) ≡ ok (none, b ∷ bs)
unfolding read_uint_v read_uint_v_from available
read_uint_v_short popping b bs h = ground (arith, size_of_bounds b)

-- A read either finds too little and leaves the buffer as it was, or takes at least one byte off
-- its front; what is pushed behind does not change what it takes.
abbrev pub IsStable : {A : Type 0} → (List ℕ → Read A) → List ℕ → Type 0
IsStable {A} read b =
    (read b ≡ ok (none, b))
    ⊎ ((a : A) × (rest : List ℕ) × (read b ≡ ok (some a, rest))
        × ((more : List ℕ) → read (b ++ more) ≡ ok (some a, rest ++ more))
        × (length rest < length b)
        × ((taken : List ℕ) × (taken ++ rest ≡ b)))

pub head_var-append :
    (b : ℕ) (bs more : List ℕ)
    → size_of b ≤ suc (length bs)
    → head_var b (bs ++ more) ≡ head_var b bs
unfolding head_var
head_var-append b bs more h =
    ap (λ t. record { be_value = t ++ replicate (8 - size_of b) 0 })
      (take-append (size_of b) (b ∷ bs) more h)

pub read_uint_v-IsStable : (b : List ℕ) → IsStable (read_uint_v true) b
unfolding read_uint_v
read_uint_v-IsStable [] = inl refl
read_uint_v-IsStable (b ∷ bs) = elim (Bool-cases (ltb (suc (length bs)) (size_of b))) [
  | inl short ↦ inl (read_uint_v_short true b bs (ltb→lt _ _ short))
  | inr long ↦
      let enough : size_of b ≤ suc (length bs) = ltb→le _ _ long in
      inr (
        head_var b bs,
        drop (size_of b) (b ∷ bs),
        read_uint_v_all true b bs enough,
        (λ more.
            read_uint_v_all true b (bs ++ more) (omega (arith, length-append bs more, enough))
            ∙ rw (head_var-append b bs more enough, drop-append (size_of b) (b ∷ bs) more enough)),
        omega (arith, length-drop (size_of b) (b ∷ bs), size_of_bounds b),
        (take (size_of b) (b ∷ bs), take-append-drop (size_of b) (b ∷ bs)),
      )
]

-- `DecodeUintV` either returns nothing and leaves the buffer as it is, or returns the same number
-- whatever arrives behind it later, and takes at least a byte off the front.
pub decode_uint_v-IsStable : (b : List ℕ) → IsStable (decode_uint_v true) b
unfolding decode_uint_v
decode_uint_v-IsStable b = elim (read_uint_v-IsStable b) [
  | inl none_left ↦ inl (rw none_left)
  | inr (u, rest, now, later, less, taken) ↦
      inr (get u, rest, rw now, (λ more. rw (later more)), less, taken)
]

pub decode_bytes_all :
    (b : ℕ) (bs : List ℕ)
    → size_of b ≤ suc (length bs)
    → decode_bytes (b ∷ bs) ≡ take_bytes (size_of b) (get (head_var b bs)) (b ∷ bs)
unfolding decode_bytes decode_bytes_from
decode_bytes_all b bs h = rw (avail, from_bytes_front b bs h)
  where
    avail : available (size_of b) (b ∷ bs) ≡ true
    avail = unfold available in rw (size_u32 b) (le→leb _ _ h)

pub decode_bytes_short :
    (b : ℕ) (bs : List ℕ) → suc (length bs) < size_of b → decode_bytes (b ∷ bs) ≡ ok (none, b ∷ bs)
unfolding decode_bytes decode_bytes_from available
decode_bytes_short b bs h = ground (arith, size_of_bounds b)

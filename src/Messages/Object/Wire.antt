-- ===== src/Messages/Object/Wire.antt =====
-- The bytes at the end of an object, and how they are taken off again.
use mathlib.Core.Path.{subst}
use libquicr.Prelude.{
  ℕ, suc, ◌+◌, ◌%◌, ◌^◌, ◌<◌, ◌≡◌, refl, Bool, true, false, Option, some, List, [], ◌∷◌, ◌++◌,
  append_assoc, append-nil, ok, arith, length, length-append, drop, take-append_self,
  drop-append_self, Bool-cases, inl, inr, ltb, leb, ◌==◌, if◌then◌else◌, u32,
}
use libquicr.UintVar.Wire.{wire}
use libquicr.Messages.Extensions.{Extensions, AllProgress, or_empty, pairs}
use libquicr.Messages.Extensions.Write.{pairs_wire}
use libquicr.Messages.Extensions.Maps.{block_length}
use libquicr.Messages.Extensions.Both.{image, received_all, all_start}
use libquicr.CtrlTypes.{write_u8}
use libquicr.CtrlTypes.Ints.{write_u64-wire}
use libquicr.StreamBuffer.RoundTrip.{decode_uint_v-wire}
use libquicr.StreamBuffer.{decode_uint_v, available, front_n, front_internal, pop_n, pop_internal}
use libquicr.Messages.Object.{take_payload, write_payload}

-- What is received of extensions that are there or are not, and their bytes.
abbrev pub received_some : Bool → Option Extensions → Option Extensions → AllProgress
received_some true ext im = received_all ext im
received_some false ext im = all_start

unfoldable pub some_wire : Bool → Option Extensions → Option Extensions → List ℕ
some_wire true ext im =
    wire (block_length (image im (or_empty ext))) ++ pairs_wire (pairs (image im (or_empty ext)))
some_wire false ext im = []

abbrev pub payload_wire : List ℕ → ℕ → List ℕ
payload_wire [] status = 0 ∷ wire status
payload_wire (b ∷ bs) status = wire (length (b ∷ bs)) ++ (b ∷ bs)

pub write_payload-wire :
    (payload : List ℕ) (status : ℕ) (b : List ℕ)
    → status < 2 ^ 8
    → length payload < 2 ^ 32
    → write_payload payload status b ≡ ok (b ++ payload_wire payload status)
unfolding write_payload write_u8
write_payload-wire [] status b hs hl =
    let same : status % 2 ^ 8 ≡ status = omega (arith, hs) in
    rw (same, write_u64-wire status (b ++ (0 ∷ [])) (omega (arith, hs)), append_assoc) refl
write_payload-wire (x ∷ xs) status b hs hl =
    rw (write_u64-wire (length (x ∷ xs)) b (omega (arith, hl)), append_assoc) refl

-- `Front(length)` and `Pop(length)` of the bytes in front.
pub front_n-append :
    (x : ℕ) (xs rest : List ℕ)
    → length (x ∷ xs) < 2 ^ 32
    → front_n (length (x ∷ xs)) (x ∷ xs ++ rest) ≡ x ∷ xs
unfolding front_n front_internal
front_n-append x xs rest h =
    let n : u32 (suc (length xs)) ≡ suc (length xs) = omega (arith, h) in
    let long : ltb (suc (length (xs ++ rest))) (suc (length xs)) ≡ false =
      ground (arith, length-append xs rest) in
    rw (n, long, take-append_self xs rest) refl

pop_internal_lem :
    (n : ℕ) (b rest : List ℕ)
    → length b ≡ n + length rest
    → drop n b ≡ rest
    → (if leb (suc (length b)) (suc n) then [] else drop n b) ≡ rest
pop_internal_lem n b [] l d = elim (Bool-cases (leb (suc (length b)) (suc n))) [
  | inl t ↦ rw t refl
  | inr f ↦ rw f d
]
pop_internal_lem n b (r ∷ rest) l d =
    let more : leb (suc (length b)) (suc n) ≡ false = ground (arith, l) in rw more d

pub pop_n-append :
    (x : ℕ) (xs rest : List ℕ)
    → length (x ∷ xs) < 2 ^ 32
    → pop_n (length (x ∷ xs)) (x ∷ xs ++ rest) ≡ rest
unfolding pop_n pop_internal
pop_n-append x xs rest h =
    let n : u32 (suc (length xs)) ≡ suc (length xs) = omega (arith, h) in
    let some_bytes : (suc (length xs) == 0) ≡ false = ground arith in
    rw (n, some_bytes)
      (pop_internal_lem (length xs) (xs ++ rest) rest (length-append xs rest)
        (drop-append_self xs rest))

pub available-append :
    (xs rest : List ℕ) → length xs < 2 ^ 32 → available (length xs) (xs ++ rest) ≡ true
unfolding available
available-append xs rest h = ground (arith, length-append xs rest)

-- Taking all the bytes.
pub take_whole :
    (x : ℕ) (xs : List ℕ)
    → length (x ∷ xs) < 2 ^ 32
    → let n = length (x ∷ xs) in
      let b = x ∷ xs in (available n b ≡ true) × (front_n n b ≡ b) × (pop_n n b ≡ [])
take_whole x xs h =
    let n = length (x ∷ xs) in
    let e = append-nil xs in
    (
      subst (λ b. available n (x ∷ b) ≡ true) e (available-append (x ∷ xs) [] h),
      subst (λ b. front_n n (x ∷ b) ≡ x ∷ xs) e (front_n-append x xs [] h),
      subst (λ b. pop_n n (x ∷ b) ≡ []) e (pop_n-append x xs [] h),
    )

pub take_payload-append :
    (x : ℕ) (xs rest : List ℕ)
    → length (x ∷ xs) < 2 ^ 32
    → take_payload (length (x ∷ xs)) (x ∷ xs ++ rest) ≡ ok (some (x ∷ xs), rest)
unfolding take_payload
take_payload-append x xs rest h =
    rw (available-append (x ∷ xs) rest h, front_n-append x xs rest h, pop_n-append x xs rest h) refl

pub decode_uint_v_zero : (b : List ℕ) → decode_uint_v true (0 ∷ b) ≡ ok (some 0, b)
unfolding wire
decode_uint_v_zero b = decode_uint_v-wire 0 b (omega arith)

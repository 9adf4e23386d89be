-- ===== src/StreamBuffer/Bytes.antt =====
-- `DecodeBytes` on any bytes.
use libquicr.Prelude.{
  ℕ, ◌+◌, ◌%◌, ◌^◌, ◌≤◌, ◌<◌, ◌≡◌, refl, ◌∙◌, inl, inr, true, none, some, List, [], ◌∷◌, ◌++◌, ok,
  ltb, leb, u32, length, take, drop, length-append, length-drop, take-append, drop-append,
  take-append-drop, All, Bool-cases, le→leb, ltb→lt, ltb→le, arith, append_assoc, append-nil, suc,
}
use libquicr.UintVar.{size_of, get}
use libquicr.UintVar.RoundTrip.{size_of_bounds}
use libquicr.UintVar.Bounds.{IsByte, get-lt}
use libquicr.StreamBuffer.{split_bytes, take_bytes, decode_bytes}
use libquicr.StreamBuffer.Decode.{
  head_var, head_var-append, front_internal_lem, pop_internal_lem, decode_bytes_all,
  decode_bytes_short, IsStable,
}

split_bytes-append :
    (n : ℕ) (bs more : List ℕ)
    → n ≤ length bs
    → split_bytes n (bs ++ more) ≡ ok (some (take (u32 n) bs), drop (u32 n) bs ++ more)
unfolding split_bytes
split_bytes-append n bs more h = rw (
  front_internal_lem (u32 n) (bs ++ more) wide,
  pop_internal_lem (u32 n) (bs ++ more) wide,
  take-append (u32 n) bs more fits,
  drop-append (u32 n) bs more fits,
)
  where
    fits : u32 n ≤ length bs
    fits = omega arith

    wide : u32 n ≤ length (bs ++ more)
    wide = omega (arith, length-append bs more)

module _ (uv_len len : ℕ) (bs : List ℕ) (small : uv_len ≤ 8) (bound : len < 2 ^ 62) where
  take_bytes-append :
      (more : List ℕ)
      → uv_len + len ≤ length bs
      → take_bytes uv_len len (bs ++ more)
        ≡ ok (some (take (u32 len) (drop uv_len bs)), drop (u32 len) (drop uv_len bs) ++ more)
  unfolding take_bytes
  take_bytes-append more h =
      rw
        (enough, narrow, pop_internal_lem uv_len (bs ++ more) wide, drop-append uv_len bs more fits)
        (split_bytes-append len (drop uv_len bs) more (omega (arith, length-drop uv_len bs)))
    where
      enough : leb ((uv_len + len) % 2 ^ 64) (length (bs ++ more)) ≡ true
      enough = le→leb _ _ (omega (arith, length-append bs more))

      narrow : u32 uv_len ≡ uv_len
      narrow = omega arith

      fits : uv_len ≤ length bs
      fits = omega arith

      wide : uv_len ≤ length (bs ++ more)
      wide = omega (arith, length-append bs more)

  take_bytes_short : length bs < uv_len + len → take_bytes uv_len len bs ≡ ok (none, bs)
  unfolding take_bytes
  take_bytes_short h = ground arith

take_bytes-IsStable :
    (b : ℕ) (bs : List ℕ)
    → All IsByte (b ∷ bs)
    → size_of b ≤ suc (length bs)
    → IsStable decode_bytes (b ∷ bs)
take_bytes-IsStable b bs h l = elim (Bool-cases (ltb (suc (length bs)) (size_of b + len))) [
  | inl short ↦ inl (
      decode_bytes_all b bs l
      ∙ take_bytes_short (size_of b) len (b ∷ bs) small bound (ltb→lt _ _ short))
  | inr long ↦
      let fits : size_of b + len ≤ suc (length bs) = ltb→le _ _ long in
      let later : (more : List ℕ)
          → decode_bytes ((b ∷ bs) ++ more) ≡ ok (some value, rest ++ more) =
        λ more.
          decode_bytes_all b (bs ++ more) (omega (arith, length-append bs more))
          ∙ rw (head_var-append b bs more l)
              (take_bytes-append (size_of b) len (b ∷ bs) small bound more fits) in
      inr (
        value,
        rest,
        rw (append-nil bs, append-nil rest) at (later []),
        later,
        omega (
          arith,
          length-drop (size_of b) (b ∷ bs),
          length-drop (u32 len) (drop (size_of b) (b ∷ bs)),
          size_of_bounds b,
        ),
        (
          take (size_of b) (b ∷ bs) ++ value,
          append_assoc (take (size_of b) (b ∷ bs)) value rest
              ∙ rw (take-append-drop (u32 len) (drop (size_of b) (b ∷ bs)))
                  (take-append-drop (size_of b) (b ∷ bs)),
        ),
      )
]
  where
    len : ℕ
    len = get (head_var b bs)

    bound : len < 2 ^ 62
    bound = unfold head_var in get-lt b bs h l

    small : size_of b ≤ 8
    small = (size_of_bounds b).1

    value : List ℕ
    value = take (u32 len) (drop (size_of b) (b ∷ bs))

    rest : List ℕ
    rest = drop (u32 len) (drop (size_of b) (b ∷ bs))

-- On bytes, `DecodeBytes` either returns nothing and leaves the buffer as it is, or returns the
-- same bytes whatever arrives behind them later, and takes at least a byte off the front.
pub decode_bytes-IsStable : (b : List ℕ) → All IsByte b → IsStable decode_bytes b
unfolding decode_bytes
decode_bytes-IsStable [] h = inl refl
decode_bytes-IsStable (b ∷ bs) h = elim (Bool-cases (ltb (suc (length bs)) (size_of b))) [
  | inl short ↦ inl (decode_bytes_short b bs (ltb→lt _ _ short))
  | inr long ↦ take_bytes-IsStable b bs h (ltb→le _ _ long)
]

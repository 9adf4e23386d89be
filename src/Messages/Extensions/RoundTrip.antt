-- ===== src/Messages/Extensions/RoundTrip.antt =====
-- Extensions that are serialised are parsed again.
use libquicr.Prelude.{
  ℕ, zero, suc, ◌+◌, ◌%◌, ◌^◌, ◌≤◌, ◌<◌, ◌≡◌, refl, List, [], ◌∷◌, ◌++◌, append_assoc, ok, length,
  length-append, All, arith, inl, inr, Option, some, none, true, false, ◌==◌, if◌then◌else◌, sub64,
  u64,
}
use libquicr.UintVar.Wire.{wire, get-canonical, size-canonical, encode-canonical, length-wire}
use libquicr.CtrlTypes.{KeyValuePair, le_bytes, le_word}
use libquicr.CtrlTypes.Pairs.{KvpFits, kvp_wire}
use libquicr.StreamBuffer.RoundTrip.{read_uint_v-wire, decode_bytes-append}
use libquicr.Messages.Extensions.{
  chain, Extensions, Progress, push_extension, parse_value, parse_tag, parse_pair, parse_pairs,
  parse_block, parse_length, parse_extensions,
}
use libquicr.Messages.Extensions.Write.{pairs_wire}

-- The value that the receiver stores: of an even type, the eight bytes of the number.
unfoldable pub received_value : KeyValuePair → List ℕ
received_value p = if p.type % 2 == 0 then le_bytes 8 (le_word p.value) else p.value

abbrev pub PairFits : KeyValuePair → Type 0
PairFits p = KvpFits p × (length p.value < 2 ^ 32)

pub length-wire_bound : (v : ℕ) → (1 ≤ length (wire v)) × (length (wire v) ≤ 8)
length-wire_bound v = ground (arith, length-wire v)

even_test : (t : ℕ) → t % 2 ≡ 0 → (t % 2 == 0) ≡ true
even_test t e = ground arith

odd_test : (t : ℕ) → t % 2 ≡ 1 → (t % 2 == 0) ≡ false
odd_test t e = ground arith

module _ (t : ℕ) (rest : List ℕ) (p : Progress) where
  parse_value_even :
      (v : ℕ)
      → t % 2 ≡ 0
      → v < 2 ^ 62
      → parse_value t (wire v ++ rest) p
        ≡ ok (
          true,
          rest,
          record p {
            extensions = push_extension t (le_bytes 8 v) p.extensions;
            bytes_remaining = sub64 p.bytes_remaining (length (wire v));
            current_header = none;
          },
        )
  unfolding parse_value
  parse_value_even v even h =
      rw (even_test t even, read_uint_v-wire v rest h, get-canonical v h, size-canonical v h)

  parse_value_odd :
      (value : List ℕ)
      → t % 2 ≡ 1
      → length value < 2 ^ 32
      → parse_value t (wire (length value) ++ (value ++ rest)) p
        ≡ ok (
          true,
          rest,
          record p {
            extensions = push_extension t value p.extensions;
            bytes_remaining =
                sub64 p.bytes_remaining (u64 (length value + length (wire (length value))));
            current_header = none;
          },
        )
  unfolding parse_value
  parse_value_odd value odd h = rw (
    odd_test t odd,
    decode_bytes-append value rest h,
    encode-canonical (length value) (omega arith),
    size-canonical (length value) (omega arith),
  )

  parse_pair_tag :
      t < 2 ^ 62
      → p.current_header ≡ none
      → parse_pair (wire t ++ rest) p
        ≡ parse_value t rest (record p {
          bytes_remaining = sub64 p.bytes_remaining (length (wire t));
          current_header = some t;
        })
  unfolding parse_pair parse_tag
  parse_pair_tag h c = rw (c, read_uint_v-wire t rest h, get-canonical t h, size-canonical t h)

-- One round on the encoding of a pair: the pair is stored, and its bytes are counted.
parse_pair-wire :
    (kvp : KeyValuePair) (rest : List ℕ) (p : Progress) (k : ℕ)
    → PairFits kvp
    → p.current_header ≡ none
    → p.bytes_remaining ≡ length (kvp_wire kvp) + k
    → p.bytes_remaining < 2 ^ 62
    → parse_pair (kvp_wire kvp ++ rest) p
      ≡ ok (
        true,
        rest,
        record p {
          extensions = push_extension kvp.type (received_value kvp) p.extensions;
          bytes_remaining = k;
          current_header = none;
        },
      )
unfolding kvp_wire received_value
parse_pair-wire kvp rest p k ((ht, inl (even, la, bs, small)), short) c r l =
    let v : ℕ = le_word kvp.value in
    let split : p.bytes_remaining ≡ length (wire kvp.type ++ wire v) + k =
      rw (even_test kvp.type even) at r in
    let counted : sub64 (sub64 p.bytes_remaining (length (wire kvp.type))) (length (wire v)) ≡ k =
      omega (arith, split, length-append (wire kvp.type) (wire v)) in
    rw (
      even_test kvp.type even,
      append_assoc,
      parse_pair_tag kvp.type (wire v ++ rest) p ht c,
      parse_value_even kvp.type rest _ v even small,
      counted,
    )
parse_pair-wire kvp rest p k ((ht, inr (odd, la)), short) c r l =
    let n : ℕ = length kvp.value in
    let split : p.bytes_remaining ≡ length (wire kvp.type ++ (wire n ++ kvp.value)) + k =
      rw (odd_test kvp.type odd) at r in
    let counted : sub64 (sub64 p.bytes_remaining (length (wire kvp.type)))
          (u64 (n + length (wire n)))
        ≡ k =
      omega (
        arith,
        split,
        length-append (wire kvp.type) (wire n ++ kvp.value),
        length-append (wire n) kvp.value,
      ) in
    rw (
      odd_test kvp.type odd,
      append_assoc,
      append_assoc,
      parse_pair_tag kvp.type (wire n ++ (kvp.value ++ rest)) p ht c,
      parse_value_odd kvp.type rest _ kvp.value odd short,
      counted,
    )

-- What the receiver's map becomes, pair by pair.
abbrev pub store : List KeyValuePair → Option Extensions → Option Extensions
store [] e = e
store (kvp ∷ kvps) e = store kvps (push_extension kvp.type (received_value kvp) e)

pub kvp_wire_pos : (p : KeyValuePair) → 1 ≤ length (kvp_wire p)
unfolding kvp_wire
kvp_wire_pos p = omega (arith, length-append {0} (wire p.type), length-wire_bound p.type)

pub parse_pairs_more :
    (f : ℕ) (b : List ℕ) (p : Progress)
    → (p.bytes_remaining == 0) ≡ false
    → parse_pairs (suc f) b p ≡ chain (parse_pair b p) (λ c q. parse_pairs f c q)
unfolding parse_pairs
parse_pairs_more f b p h = rw (h, parse_pairs)

pub parse_pairs-wire :
    (ps : List KeyValuePair) (f : ℕ) (rest : List ℕ) (p : Progress)
    → All PairFits ps
    → p.current_header ≡ none
    → p.bytes_remaining ≡ length (pairs_wire ps)
    → p.bytes_remaining < 2 ^ 62
    → length (pairs_wire ps) < f
    → parse_pairs f (pairs_wire ps ++ rest) p
      ≡ ok (
        true,
        rest,
        record p { extensions = store ps p.extensions; bytes_remaining = 0; current_header = none },
      )
parse_pairs-wire ps zero rest p h c r l f = absurd (omega arith)
parse_pairs-wire [] (suc f) rest p h c r l lf =
    unfold parse_pairs in rw (r, parse_pairs) (rw (r, c))
parse_pairs-wire (kvp ∷ kvps) (suc f) rest p h c r l lf =
    rw
      (
        parse_pairs_more f _ p more,
        append_assoc,
        parse_pair-wire kvp (pairs_wire kvps ++ rest) p (length (pairs_wire kvps)) h.0 c total l,
      )
      (parse_pairs-wire kvps f rest _ h.1 refl refl (omega (arith, total))
        (omega (arith, kvp_wire_pos kvp, length-append (kvp_wire kvp) (pairs_wire kvps))))
  where
    total : p.bytes_remaining ≡ length (kvp_wire kvp) + length (pairs_wire kvps)
    total = omega (arith, length-append (kvp_wire kvp) (pairs_wire kvps))

    more : (p.bytes_remaining == 0) ≡ false
    more = ground (arith, total, kvp_wire_pos kvp)

abbrev pub start : Progress
start = record {
  headers_length = none;
  extensions = none;
  bytes_remaining = 0;
  current_header = none;
}

-- The map that the receiver has: no map where the block is empty.
unfoldable pub received : ℕ → List KeyValuePair → Option Extensions
received n ps = if n == 0 then none else store ps (some [])

pub parse_block-wire :
    (ps : List KeyValuePair) (rest : List ℕ)
    → All PairFits ps
    → length (pairs_wire ps) < 2 ^ 62
    → parse_extensions (wire (length (pairs_wire ps)) ++ (pairs_wire ps ++ rest)) start
      ≡ ok (
        true,
        rest,
        record {
          headers_length = some (length (pairs_wire ps));
          extensions = received (length (pairs_wire ps)) ps;
          bytes_remaining = 0;
          current_header = none;
        },
      )
unfolding parse_extensions parse_length parse_block received
parse_block-wire [] rest h l = rw (read_uint_v-wire 0 rest l, get-canonical 0 l)
parse_block-wire (kvp ∷ kvps) rest h l =
    rw (read_uint_v-wire _ (pairs_wire (kvp ∷ kvps) ++ rest) l, get-canonical _ l, more)
      (parse_pairs-wire (kvp ∷ kvps) _ rest _ h refl refl l
        (omega (arith, length-append (pairs_wire (kvp ∷ kvps)) rest)))
  where
    more : (length (pairs_wire (kvp ∷ kvps)) == 0) ≡ false
    more = ground (arith, kvp_wire_pos kvp, length-append (kvp_wire kvp) (pairs_wire kvps))

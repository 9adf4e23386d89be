-- ===== src/Messages/Extensions/Write.antt =====
-- What `SerializeExtensions` appends for a map of extensions.
use libquicr.Prelude.{
  ℕ, ◌^◌, ◌<◌, ◌≡◌, refl, sym, List, [], ◌∷◌, ◌++◌, append_assoc, append-nil, ok, length,
  length-append, All,
}
use libquicr.UintVar.Wire.{wire}
use libquicr.CtrlTypes.{KeyValuePair, kvp_size}
use libquicr.CtrlTypes.Ints.{write_u64-wire}
use libquicr.CtrlTypes.Pairs.{KvpFits, kvp_wire, write_kvp-wire, kvp_size-write_kvp}
use libquicr.Messages.Extensions.{Extensions, pairs, total_length, write_pairs, write_extensions}

-- The encodings of pairs, one behind the other.
abbrev pub pairs_wire : List KeyValuePair → List ℕ
pairs_wire [] = []
pairs_wire (kvp ∷ kvps) = kvp_wire kvp ++ pairs_wire kvps

kvp_size-wire : (p : KeyValuePair) → KvpFits p → kvp_size p ≡ ok (length (kvp_wire p))
kvp_size-wire p h = rw (write_kvp-wire p [] h) at (sym (kvp_size-write_kvp p h))

total_length-wire :
    (ps : List KeyValuePair) → All KvpFits ps → total_length ps ≡ ok (length (pairs_wire ps))
unfolding total_length
total_length-wire [] h = refl
total_length-wire (p ∷ ps) h = rw (kvp_size-wire p h.0, total_length-wire ps h.1, length-append)

pub write_pairs-wire :
    (ps : List KeyValuePair) (b : List ℕ)
    → All KvpFits ps
    → write_pairs ps b ≡ ok (b ++ pairs_wire ps)
unfolding write_pairs
write_pairs-wire [] b h = rw append-nil
write_pairs-wire (p ∷ ps) b h =
    rw (write_kvp-wire p b h.0, write_pairs-wire ps (b ++ kvp_wire p) h.1, append_assoc)

-- The length that is written first is the number of bytes that follow it.
pub write_extensions-wire :
    (m : Extensions) (b : List ℕ)
    → All KvpFits (pairs m)
    → length (pairs_wire (pairs m)) < 2 ^ 62
    → write_extensions m b
      ≡ ok (b ++ (wire (length (pairs_wire (pairs m))) ++ pairs_wire (pairs m)))
unfolding write_extensions
write_extensions-wire m b h l = rw (
  total_length-wire (pairs m) h,
  write_u64-wire _ b l,
  write_pairs-wire (pairs m) _ h,
  append_assoc,
)

-- ===== src/Messages/Extensions.antt =====
-- Extension headers: `ParseExtensions` and `SerializeExtensions` of src/messages.cpp.
-- `std::map` is a list of its entries in the order of the keys.
pub mod Write
pub mod RoundTrip
pub mod Maps
pub mod Fuel
pub mod Both
use libquicr.Prelude.{
  ℕ, zero, suc, ◌+◌, ◌-◌, ◌%◌, ◌^◌, Bool, true, false, ◌&&◌, not, Option, none, some, List, [], ◌∷◌,
  ◌++◌, map, Outcome, ok, throws, undefined, unfinished, protocol_violation, ◌>>=◌, ltb, ◌==◌, u64,
  sub64, if◌then◌else◌, length,
}
use libquicr.UintVar.{encode, get, size}
use libquicr.StreamBuffer.{read_uint_v, decode_bytes}
use libquicr.CtrlTypes.{KeyValuePair, le_bytes, kvp_size, write_kvp, write_u64}
use libquicr.Messages.Stage.{Parsed, need}

abbrev pub Extensions : Type 0
Extensions = List (ℕ × List (List ℕ))

-- `map[key].push_back(value)`
unfoldable pub push_value : ℕ → List ℕ → Extensions → Extensions
push_value key value [] = (key, value ∷ []) ∷ []
push_value key value ((k, vs) ∷ m) =
    if k == key
    then (k, vs ++ (value ∷ [])) ∷ m
    else if ltb key k
    then (key, value ∷ []) ∷ (k, vs) ∷ m
    else (k, vs) ∷ push_value key value m

unfoldable pub find : ℕ → Extensions → Option (List (List ℕ))
find key [] = none
find key ((k, vs) ∷ m) = if k == key then some vs else find key m

abbrev pub has_value : {A : Type 0} → Option A → Bool
has_value none = false
has_value (some a) = true

-- What a caller keeps between two calls of `ParseExtensions`.
pub record Progress : Type 0 where
  pub headers_length : Option ℕ
  pub extensions : Option Extensions
  pub bytes_remaining : ℕ
  pub current_header : Option ℕ

abbrev pub push_extension : ℕ → List ℕ → Option Extensions → Option Extensions
push_extension tag value none = none
push_extension tag value (some m) = some (push_value tag value m)

-- The data of a pair with this tag; true when the loop goes on.
unfoldable pub parse_value : ℕ → List ℕ → Progress → Parsed Progress
parse_value tag buffer p =
    if tag % 2 == 0
    then (need (read_uint_v true buffer) p λ value rest. ok (
      true,
      rest,
      record p {
        extensions = push_extension tag (le_bytes 8 (get value)) p.extensions;
        bytes_remaining = sub64 p.bytes_remaining (size value);
        current_header = none;
      },
    ))
    else (need (decode_bytes buffer) p λ bytes rest. encode (length bytes) >>= λ prefix. ok (
      true,
      rest,
      record p {
        extensions = push_extension tag bytes p.extensions;
        bytes_remaining = sub64 p.bytes_remaining (u64 (length bytes + size prefix));
        current_header = none;
      },
    ))

unfoldable pub parse_tag : Option ℕ → List ℕ → Progress → Parsed Progress
parse_tag (some tag) buffer p = parse_value tag buffer p
parse_tag none buffer p = need (read_uint_v true buffer) p λ tag_field rest.
    parse_value (get tag_field) rest (record p {
      bytes_remaining = sub64 p.bytes_remaining (size tag_field);
      current_header = some (get tag_field);
    })

-- One round of the loop.
unfoldable pub parse_pair : List ℕ → Progress → Parsed Progress
parse_pair buffer p = parse_tag p.current_header buffer p

abbrev pub chain : {M : Type 0} → Parsed M → (List ℕ → M → Parsed M) → Parsed M
chain (ok (true, b, m)) k = k b m
chain (ok (false, b, m)) k = ok (false, b, m)
chain (throws e) k = throws e
chain undefined k = undefined
chain unfinished k = unfinished

-- `while (extension_bytes_remaining > 0)`
unfoldable pub parse_pairs : ℕ → List ℕ → Progress → Parsed Progress
parse_pairs zero buffer p = unfinished
parse_pairs (suc fuel) buffer p = elim (p.bytes_remaining == 0) [
  | true ↦ ok (true, buffer, p)
  | false ↦ chain (parse_pair buffer p) (λ b q. parse_pairs fuel b q)
]

abbrev or_new : Option Extensions → Option Extensions
or_new none = some []
or_new (some m) = some m

-- Behind the length: `n` is `*extension_headers_length`. A round that goes on takes a byte from the
-- buffer, and the fuel is one more than its bytes.
unfoldable pub parse_block : ℕ → List ℕ → Progress → Parsed Progress
parse_block n buffer p =
    if n == 0
    then ok (true, buffer, p)
    else parse_pairs (suc (length buffer)) buffer (record p { extensions = or_new p.extensions })

unfoldable pub parse_length : Option ℕ → List ℕ → Progress → Parsed Progress
parse_length (some n) buffer p = parse_block n buffer p
parse_length none buffer p = need (read_uint_v true buffer) p λ len rest.
    parse_block (get len) rest
      (record p { headers_length = some (get len); bytes_remaining = get len })

-- The first `ParseExtensions`.
unfoldable pub parse_extensions : List ℕ → Progress → Parsed Progress
parse_extensions buffer p = parse_length p.headers_length buffer p

-- The pairs that `operator<<` writes, in its order.
unfoldable pub pairs : Extensions → List KeyValuePair
pairs [] = []
pairs ((key, values) ∷ m) = map (λ value. record { type = key; value = value }) values ++ pairs m

-- The vectors are in memory, so the sum of their sizes does not wrap.
unfoldable pub total_length : List KeyValuePair → Outcome ℕ
total_length [] = ok 0
total_length (kvp ∷ kvps) = do n ← kvp_size kvp; rest ← total_length kvps; ok (n + rest)

unfoldable pub write_pairs : List KeyValuePair → List ℕ → Outcome (List ℕ)
write_pairs [] buffer = ok buffer
write_pairs (kvp ∷ kvps) buffer = do b ← write_kvp kvp buffer; write_pairs kvps b

-- `operator<<(Bytes&, const Extensions&)`
unfoldable pub write_extensions : Extensions → List ℕ → Outcome (List ℕ)
write_extensions extensions buffer = do
  n ← total_length (pairs extensions)
  b ← write_u64 n buffer
  write_pairs (pairs extensions) b

-- `operator<<(Bytes&, const std::optional<Extensions>&)`
unfoldable pub write_optional_extensions : Option Extensions → List ℕ → Outcome (List ℕ)
write_optional_extensions none buffer = ok (buffer ++ (0 ∷ []))
write_optional_extensions (some extensions) buffer = write_extensions extensions buffer

abbrev pub immutable_key : ℕ
immutable_key = 0xb

-- The combined map: the mutable extensions, and the immutable ones serialised under their key.
unfoldable pub combine : Option Extensions → Extensions → Outcome Extensions
combine none combined = ok combined
combine (some []) combined = ok combined
combine (some (e ∷ es)) combined =
    if has_value (find immutable_key (e ∷ es))
    then throws protocol_violation
    else (write_pairs (pairs (e ∷ es)) [] >>= λ bytes. ok (push_value immutable_key bytes combined))

abbrev pub or_empty : Option Extensions → Extensions
or_empty none = []
or_empty (some m) = m

unfoldable pub serialize_extensions :
    Option Extensions → Option Extensions → List ℕ → Outcome (List ℕ)
serialize_extensions extensions immutable_extensions buffer = do
  combined ← combine immutable_extensions (or_empty extensions)
  write_extensions combined buffer

-- The second `ParseExtensions`, on what is parsed: `im` is `immutable_extensions`.
unfoldable pub check_immutable : Option Extensions → Outcome (Bool × Option Extensions)
check_immutable none = ok (true, none)
check_immutable (some m) =
    if has_value (find immutable_key m) then throws protocol_violation else ok (true, some m)

-- The bytes of the first immutable entry are parsed from a buffer of their own.
unfoldable pub parse_immutable :
    List (List ℕ) → Option Extensions → Outcome (Bool × Option Extensions)
parse_immutable [] im = ok (true, im)
parse_immutable (bytes ∷ more) im =
    parse_extensions bytes (record {
      headers_length = some (length bytes);
      extensions = im;
      bytes_remaining = length bytes;
      current_header = none;
    })
    >>= λ r. if r.0 then check_immutable r.2.extensions else ok (false, r.2.extensions)

unfoldable pub extract_immutable :
    Option Extensions → Option Extensions → Outcome (Bool × Option Extensions)
extract_immutable none im = ok (true, im)
extract_immutable (some m) im = elim (find immutable_key m) [
  | none ↦ ok (true, im)
  | some values ↦ parse_immutable values im
]

pub record AllProgress : Type 0 where
  pub mutable : Progress
  pub immutable_extensions : Option Extensions

abbrev pub with_immutable : List ℕ → Progress → Bool × Option Extensions → Parsed AllProgress
with_immutable buffer p (done, im) =
    ok (done, buffer, record { mutable = p; immutable_extensions = im })

unfoldable pub parse_all_extensions : List ℕ → AllProgress → Parsed AllProgress
parse_all_extensions buffer p = parse_extensions buffer p.mutable >>= λ r.
    if r.0
    then (extract_immutable r.2.extensions p.immutable_extensions >>= λ x. with_immutable r.1 r.2 x)
    else ok (false, r.1, record p { mutable = r.2 })

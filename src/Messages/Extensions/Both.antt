-- ===== src/Messages/Extensions/Both.antt =====
-- `SerializeExtensions` and the `ParseExtensions` that also extracts the immutable extensions.
use libquicr.Prelude.{
  ℕ, suc, ◌^◌, ◌≤◌, ◌<◌, ◌≡◌, ◌≢◌, refl, sym, ◌∙◌, ap, true, false, Option, none, some, List, [],
  ◌∷◌, ◌++◌, map, append_assoc, append-nil, ok, ◌>>=◌, length, length-append, All, arith, ltb, ◌==◌,
  if◌then◌else◌, Bool-cases, inl, inr,
}
use libquicr.UintVar.Wire.{wire}
use libquicr.CtrlTypes.Pairs.{kvp_wire}
use libquicr.Messages.Extensions.{
  Extensions, Progress, AllProgress, push_value, find, immutable_key, combine, or_empty, pairs,
  serialize_extensions, parse_block, parse_length, parse_extensions, check_immutable,
  parse_immutable, extract_immutable, parse_all_extensions, parse_pairs,
}
use libquicr.Messages.Extensions.Write.{pairs_wire, write_pairs-wire, write_extensions-wire}
use libquicr.Messages.Extensions.RoundTrip.{
  PairFits, received_value, start, received, parse_pairs-wire, parse_block-wire, kvp_wire_pos,
}
use libquicr.Messages.Extensions.Maps.{
  pair, IsMap, received_map, store-pairs, All-Below_nil, block_length, fits, received_lem,
}

-- The immutable extensions travel as bytes under one key of the mutable ones.
abbrev pub image : Option Extensions → Extensions → Extensions
image none m = m
image (some []) m = m
image (some (e ∷ es)) m = push_value immutable_key (pairs_wire (pairs (e ∷ es))) m

abbrev pub ImmutableFits : Option Extensions → Type 0
ImmutableFits none = Unit
ImmutableFits (some im) =
    IsMap im × All PairFits (pairs im) × (find immutable_key im ≡ none) × (block_length im < 2 ^ 62)

-- What a sender may put in a message: maps in order of their keys, without the key of the immutable
-- block, of pairs that can be encoded.
pub record ExtensionsFit (ext im : Option Extensions) : Type 0 where
  pub in_order : IsMap (or_empty ext)
  pub no_block : find immutable_key (or_empty ext) ≡ none
  pub immutable : ImmutableFits im
  pub encodes : All PairFits (pairs (image im (or_empty ext)))
  pub short : block_length (image im (or_empty ext)) < 2 ^ 62

-- What a receiver has afterwards.
unfoldable pub received_extensions : Option Extensions → Option Extensions → Option Extensions
received_extensions ext im =
    if block_length (image im (or_empty ext)) == 0
    then none
    else some (received_map (image im (or_empty ext)))

unfoldable pub received_immutable : Option Extensions → Option Extensions
received_immutable none = none
received_immutable (some []) = none
received_immutable (some (e ∷ es)) = some (received_map (e ∷ es))

abbrev pub all_start : AllProgress
all_start = record { mutable = start; immutable_extensions = none }

abbrev pub received_all : Option Extensions → Option Extensions → AllProgress
received_all ext im = record {
  mutable = record {
    headers_length = some (block_length (image im (or_empty ext)));
    extensions = received_extensions ext im;
    bytes_remaining = 0;
    current_header = none;
  };
  immutable_extensions = received_immutable im;
}

combine_lem :
    (im : Option Extensions) (m : Extensions) → ImmutableFits im → combine im m ≡ ok (image im m)
unfolding combine
combine_lem none m h = refl
combine_lem (some []) m h = refl
combine_lem (some (e ∷ es)) m h =
    rw (h.2, write_pairs-wire (pairs (e ∷ es)) [] (fits (pairs (e ∷ es)) h.1)) refl

-- The key of the block in a map that had none.
find-push_value :
    (k : ℕ) (v : List ℕ) (m : Extensions)
    → find k m ≡ none
    → find k (push_value k v m) ≡ some (v ∷ [])
unfolding find push_value
find-push_value k v [] h = ground arith
find-push_value k v ((j, ws) ∷ m) h = ground (arith, find-push_value k v m)

IsAbove-push_value :
    (j k : ℕ) (v : List ℕ) (m : Extensions)
    → j < k
    → All (λ e. j < e.0) m
    → All (λ e. j < e.0) (push_value k v m)
unfolding push_value
IsAbove-push_value j k v [] h a = (h, tt)
IsAbove-push_value j k v ((i, ws) ∷ m) h a = ground (arith, IsAbove-push_value j k v m)

IsAbove-trans : (j k : ℕ) (m : Extensions) → j < k → All (λ e. k < e.0) m → All (λ e. j < e.0) m
IsAbove-trans j k [] h a = tt
IsAbove-trans j k (e ∷ m) h (l, a) = (omega (arith, h, l), IsAbove-trans j k m h a)

IsMap-push_value :
    (k : ℕ) (v : List ℕ) (m : Extensions) → IsMap m → find k m ≡ none → IsMap (push_value k v m)
unfolding push_value find
IsMap-push_value k v [] h f = ((λ e. cc), tt, tt)
IsMap-push_value k v ((j, ws) ∷ m) h f = elim (Bool-cases (j == k)) [
  | inl t ↦ absurd (ground (arith, t, f))
  | inr n ↦ rw n (elim (Bool-cases (ltb k j)) [
    | inl l ↦ rw l ((λ e. cc), (ground (arith, l), IsAbove-trans k j m (ground (arith, l)) h.1), h)
    | inr g ↦ rw g (
      h.0,
      IsAbove-push_value j k v m (ground (arith, n, g)) h.1,
      IsMap-push_value k v m h.2 (ground (arith, n, f)),
    )
  ])
]

find-received_map : (k : ℕ) (m : Extensions) → find k m ≡ none → find k (received_map m) ≡ none
unfolding find received_map
find-received_map k [] h = refl
find-received_map k ((j, ws) ∷ m) h = ground (arith, find-received_map k m)

find-received_map-some :
    (k : ℕ) (m : Extensions) (vs : List (List ℕ))
    → find k m ≡ some vs
    → find k (received_map m) ≡ some (map (λ v. received_value (pair k v)) vs)
unfolding find received_map
find-received_map-some k [] vs h = cc
find-received_map-some k ((j, ws) ∷ m) vs h = elim (Bool-cases (j == k)) [
  | inl t ↦
      let e : j ≡ k = ground (arith, t) in
      let same : ws ≡ vs = ground (arith, t, h) in rw t (rw (e, same) refl)
  | inr n ↦ rw n (find-received_map-some k m vs (ground (arith, n, h)))
]

pairs_wire_pos : (m : Extensions) → m ≢ [] → IsMap m → 1 ≤ length (pairs_wire (pairs m))
unfolding pairs
pairs_wire_pos [] n h = absurd (n refl)
pairs_wire_pos ((k, []) ∷ m) n h = absurd (h.0 refl)
pairs_wire_pos ((k, v ∷ vs) ∷ m) n h = omega (
  arith,
  kvp_wire_pos (pair k v),
  length-append (kvp_wire (pair k v)) (pairs_wire (map (pair k) vs ++ pairs m)),
)

-- The bytes of the immutable block in a buffer of their own.
parse_immutable-wire :
    (im : Extensions)
    → im ≢ []
    → IsMap im
    → All PairFits (pairs im)
    → find immutable_key im ≡ none
    → length (pairs_wire (pairs im)) < 2 ^ 62
    → parse_immutable (pairs_wire (pairs im) ∷ []) none ≡ ok (true, some (received_map im))
unfolding parse_immutable parse_extensions parse_length parse_block check_immutable
parse_immutable-wire im n h f free l =
    let bytes = pairs_wire (pairs im) in
    let some_bytes : (length bytes == 0) ≡ false = ground (arith, pairs_wire_pos im n h) in
    let p : Progress = record {
      headers_length = some (length bytes);
      extensions = some [];
      bytes_remaining = length bytes;
      current_header = none;
    } in
    let parsed =
      ap (λ b. parse_pairs (suc (length bytes)) b p) (sym (append-nil bytes))
      ∙ parse_pairs-wire (pairs im) (suc (length bytes)) [] p f refl refl l (omega arith) in
    rw
      (
        some_bytes,
        parsed,
        store-pairs im [] h (All-Below_nil im),
        find-received_map immutable_key im free,
      )
      refl

image-IsMap : (ext im : Option Extensions) → ExtensionsFit ext im → IsMap (image im (or_empty ext))
image-IsMap ext none f = f.in_order
image-IsMap ext (some []) f = f.in_order
image-IsMap ext (some (e ∷ es)) f =
    IsMap-push_value immutable_key _ (or_empty ext) f.in_order f.no_block

push_value_more : (k : ℕ) (v : List ℕ) (m : Extensions) → push_value k v m ≢ []
unfolding push_value
push_value_more k v [] e = cc
push_value_more k v ((j, ws) ∷ m) e = ground (arith, e)

extract_none :
    (m : Extensions) (n : ℕ)
    → find immutable_key m ≡ none
    → extract_immutable (if n == 0 then none else some (received_map m)) none ≡ ok (true, none)
unfolding extract_immutable
extract_none m n h = elim (Bool-cases (n == 0)) [
  | inl z ↦ rw z refl
  | inr g ↦ rw g (rw (extract_immutable, find-received_map immutable_key m h) refl)
]

extract_some :
    (m im : Extensions) (n : ℕ)
    → (n == 0) ≡ false
    → find immutable_key m ≡ some (pairs_wire (pairs im) ∷ [])
    → im ≢ []
    → ImmutableFits (some im)
    → extract_immutable (if n == 0 then none else some (received_map m)) none
      ≡ ok (true, some (received_map im))
unfolding extract_immutable
extract_some m im n more found some_im f =
    let there : find immutable_key (received_map m) ≡ some (pairs_wire (pairs im) ∷ []) =
      find-received_map-some immutable_key m (pairs_wire (pairs im) ∷ []) found
      ∙ unfold received_value in refl in
    rw more (rw (extract_immutable, there) (parse_immutable-wire im some_im f.0 f.1 f.2 f.3))

-- What extracting finds in the map that was received.
extract_immutable-image :
    (ext im : Option Extensions)
    → ExtensionsFit ext im
    → extract_immutable (received_extensions ext im) none ≡ ok (true, received_immutable im)
unfolding received_extensions received_immutable
extract_immutable-image ext none f = extract_none (or_empty ext) _ f.no_block
extract_immutable-image ext (some []) f = extract_none (or_empty ext) _ f.no_block
extract_immutable-image ext (some (e ∷ es)) f =
    let m = push_value immutable_key (pairs_wire (pairs (e ∷ es))) (or_empty ext) in
    extract_some m (e ∷ es) (block_length m)
      (ground (
        arith,
        pairs_wire_pos m (push_value_more immutable_key _ (or_empty ext))
            (image-IsMap ext (some (e ∷ es)) f),
      ))
      (find-push_value immutable_key _ (or_empty ext) f.no_block) (λ e. cc) f.immutable

pub serialize_extensions-wire :
    (ext im : Option Extensions) (b : List ℕ)
    → ExtensionsFit ext im
    → let c = image im (or_empty ext) in
      serialize_extensions ext im b ≡ ok (b ++ (wire (block_length c) ++ pairs_wire (pairs c)))
unfolding serialize_extensions
serialize_extensions-wire ext im b f =
    let c = image im (or_empty ext) in
    rw
      (
        combine_lem im (or_empty ext) f.immutable,
        write_extensions-wire c b (fits (pairs c) f.encodes) f.short,
      )
      refl

pub parse_all_extensions-wire :
    (ext im : Option Extensions) (rest : List ℕ)
    → ExtensionsFit ext im
    → let c = image im (or_empty ext) in
      parse_all_extensions (wire (block_length c) ++ (pairs_wire (pairs c) ++ rest)) all_start
      ≡ ok (true, rest, received_all ext im)
unfolding parse_all_extensions
parse_all_extensions-wire ext im rest f =
    let c = image im (or_empty ext) in
    let same : received (block_length c) (pairs c) ≡ received_extensions ext im =
      received_lem c (image-IsMap ext im f) ∙ (unfold received_extensions in refl) in
    rw (parse_block-wire (pairs c) rest f.encodes f.short, same, extract_immutable-image ext im f)
      refl

-- Extensions that fit are serialised and parsed again, the immutable ones too, and what follows is left:
-- the receiver's mutable map is the image of the sender's, with the immutable block under its key.
pub parse_all_extensions-serialize_extensions :
    (ext im : Option Extensions) (rest : List ℕ)
    → ExtensionsFit ext im
    → (do b ← serialize_extensions ext im []; parse_all_extensions (b ++ rest) all_start)
      ≡ ok (true, rest, received_all ext im)
parse_all_extensions-serialize_extensions ext im rest f =
    let c = image im (or_empty ext) in
    rw
      (
        serialize_extensions-wire ext im [] f,
        append_assoc (wire (block_length c)) (pairs_wire (pairs c)) rest,
      )
      (parse_all_extensions-wire ext im rest f)

-- ===== src/TrackName.antt =====
-- include/quicr/track_name.h: track namespaces and full track names, for any `quicr::hash`.
pub mod Entries
pub mod Prefix
pub mod Hash
mod Tests
use Prim.Native.Nat.{bit_xor}
use libquicr.Prelude.{
  ℕ, zero, suc, ◌+◌, ◌*◌, ◌/◌, ◌%◌, ◌^◌, Bool, true, false, ◌||◌, not, List, [], ◌∷◌, ◌++◌, map,
  Outcome, ok, throws, invalid_argument, if◌then◌else◌, ◌==◌, ltb, leb, length, take, drop, u64,
  min,
}

-- A span of `bytes_` is its offset and its size.
pub record TrackNamespace : Type 0 where
  pub bytes : List ℕ
  pub entries : List (ℕ × ℕ)
  pub hashes : List ℕ

abbrev pub flat : List (List ℕ) → List ℕ
flat [] = []
flat (entry ∷ entries) = entry ++ flat entries

-- The loops that lay the entries out one behind another.
abbrev pub spans : ℕ → List (List ℕ) → List (ℕ × ℕ)
spans offset [] = []
spans offset (entry ∷ entries) = (offset, length entry) ∷ spans (offset + length entry) entries

abbrev pub respan : ℕ → List (ℕ × ℕ) → List (ℕ × ℕ)
respan offset [] = []
respan offset ((old, size) ∷ entries) = (offset, size) ∷ respan (offset + size) entries

abbrev pub span_bytes : List ℕ → ℕ × ℕ → List ℕ
span_bytes bytes (offset, size) = take size (drop offset bytes)

unfoldable pub get_entries : TrackNamespace → List (List ℕ)
get_entries n = map (span_bytes n.bytes) n.entries

-- The copy constructor and assignment: the spans are made anew in the copied bytes.
unfoldable pub copy : TrackNamespace → TrackNamespace
copy n = record n { entries = respan 0 n.entries }

-- The move constructor gives the new object and what is left of the old one, whose vectors are empty.
unfoldable pub move : TrackNamespace → TrackNamespace × TrackNamespace
move n =
    (record n { entries = respan 0 n.entries }, record { bytes = []; entries = []; hashes = [] })

abbrev pub list_eq : List ℕ → List ℕ → Bool
list_eq [] [] = true
list_eq (x ∷ xs) (y ∷ ys) = if x == y then list_eq xs ys else false
list_eq _ _ = false

abbrev pub list_lt : List ℕ → List ℕ → Bool
list_lt xs [] = false
list_lt [] (y ∷ ys) = true
list_lt (x ∷ xs) (y ∷ ys) = if ltb x y then true else if ltb y x then false else list_lt xs ys

-- `operator==` and `operator<`; the other comparisons are made of these.
unfoldable pub equal : TrackNamespace → TrackNamespace → Bool
equal n m = list_eq n.bytes m.bytes

unfoldable pub less : TrackNamespace → TrackNamespace → Bool
less n m = list_lt n.bytes m.bytes

-- `for (i = 0; i < n; i++)` over two vectors of hashes that both have `n` of them.
abbrev pub same_hashes : ℕ → List ℕ → List ℕ → Bool
same_hashes (suc n) (x ∷ xs) (y ∷ ys) = if x == y then same_hashes n xs ys else false
same_hashes _ _ _ = true

unfoldable pub is_prefix_of : TrackNamespace → TrackNamespace → Bool
is_prefix_of n m =
    if ltb (length m.hashes) (length n.hashes)
    then false
    else same_hashes (length n.hashes) n.hashes m.hashes

unfoldable pub has_same_prefix : TrackNamespace → TrackNamespace → Bool
has_same_prefix n m = same_hashes (min (length n.hashes) (length m.hashes)) n.hashes m.hashes

unfoldable pub hash_combine : ℕ → ℕ → ℕ
hash_combine seed value =
    bit_xor seed (u64 (value + 0x9e3779b9 + u64 (seed * 2 ^ 6) + value / 2 ^ 2))

-- `(h << 2) >> 2`
abbrev pub low_62 : ℕ → ℕ
low_62 h = u64 (h * 2 ^ 2) / 2 ^ 2

pub record FullTrackName : Type 0 where
  pub name_space : TrackNamespace
  pub name : List ℕ

pub record TrackHash : Type 0 where
  pub track_namespace_hash : ℕ
  pub track_name_hash : ℕ
  pub track_fullname_hash : ℕ

unfoldable pub track_hash_of : ℕ → ℕ → TrackHash
track_hash_of name_space name = record {
  track_namespace_hash = name_space;
  track_name_hash = name;
  track_fullname_hash = low_62 (hash_combine (hash_combine 0 name_space) name);
}

module _ (hash : List ℕ → ℕ) where
  -- The constructors from vectors of entries.
  unfoldable pub make : List (List ℕ) → Outcome TrackNamespace
  make entries =
      if ltb 32 (length entries) || length entries == 0
      then throws invalid_argument
      else ok
          (record { bytes = flat entries; entries = spans 0 entries; hashes = map hash entries })

  -- `std::hash<FullTrackName>`
  unfoldable pub full_name_hash : FullTrackName → ℕ
  full_name_hash ftn =
      low_62 (hash_combine (hash_combine 0 (hash ftn.name_space.bytes)) (hash ftn.name))

  unfoldable pub track_hash : FullTrackName → TrackHash
  track_hash ftn = record {
    track_namespace_hash = hash ftn.name_space.bytes;
    track_name_hash = hash ftn.name;
    track_fullname_hash = full_name_hash ftn;
  }

-- ===== src/TrackName/Tests.antt =====
-- The claims about track names at concrete names.
use libquicr.Prelude.{ℕ, ◌+◌, ◌≡◌, ◌↔◌, refl, true, List, [], ◌∷◌, ◌++◌, ok, ◌>>=◌, arith, ◌||◌}
use libquicr.UintVar.Wire.{wire}
use libquicr.CtrlTypes.{write_u64}
use libquicr.TrackName.{
  TrackNamespace, FullTrackName, make, get_entries, copy, equal, flat, is_prefix_of,
  has_same_prefix, track_hash, track_hash_of,
}
use libquicr.TrackName.Entries.{get_entries-make, equal-flat}
use libquicr.TrackName.Prefix.{IsPrefix, is_prefix_of-IsPrefix, has_same_prefix-is_prefix_of}
use libquicr.TrackName.Hash.{write_u64-track_fullname_hash}

-- A hash for the tests.
abbrev sum : List ℕ → ℕ
sum [] = 0
sum (x ∷ xs) = x + sum xs

abbrev left : List (List ℕ)
left = (1 ∷ 2 ∷ []) ∷ (3 ∷ []) ∷ []

abbrev right : List (List ℕ)
right = (1 ∷ []) ∷ (2 ∷ 3 ∷ []) ∷ []

abbrev longer : List (List ℕ)
longer = (1 ∷ 2 ∷ []) ∷ (3 ∷ []) ∷ (4 ∷ []) ∷ []

abbrev left_space : TrackNamespace
left_space = record { bytes = 1 ∷ 2 ∷ 3 ∷ []; entries = (0, 2) ∷ (2, 1) ∷ []; hashes = 3 ∷ 3 ∷ [] }

abbrev right_space : TrackNamespace
right_space = record { bytes = 1 ∷ 2 ∷ 3 ∷ []; entries = (0, 1) ∷ (1, 2) ∷ []; hashes = 1 ∷ 5 ∷ [] }

abbrev longer_space : TrackNamespace
longer_space = record {
  bytes = 1 ∷ 2 ∷ 3 ∷ 4 ∷ [];
  entries = (0, 2) ∷ (2, 1) ∷ (3, 1) ∷ [];
  hashes = 3 ∷ 3 ∷ 4 ∷ [];
}

left_made : make sum left ≡ ok left_space
unfolding make
left_made = refl

right_made : make sum right ≡ ok right_space
unfolding make
right_made = refl

longer_made : make sum longer ≡ ok longer_space
unfolding make
longer_made = refl

get_entries-make_example :
    ((make sum left >>= λ n. ok (get_entries n)) ≡ ok left)
    × ((make sum left >>= λ n. ok (get_entries (copy n))) ≡ ok left)
get_entries-make_example = get_entries-make sum left (omega arith) (omega arith)

-- Different entries with the same bytes are equal.
equal-flat_example : (equal left_space right_space ≡ true) ↔ (flat left ≡ flat right)
equal-flat_example = equal-flat sum left right left_space right_space left_made right_made

is_prefix_of-IsPrefix_example : (is_prefix_of left_space longer_space ≡ true) ↔ IsPrefix left longer
is_prefix_of-IsPrefix_example =
    is_prefix_of-IsPrefix sum left longer left_space longer_space left_made longer_made
      ((λ e. refl), ((λ e. refl), tt))

has_same_prefix-is_prefix_of_example :
    has_same_prefix longer_space left_space
    ≡ (is_prefix_of longer_space left_space || is_prefix_of left_space longer_space)
has_same_prefix-is_prefix_of_example = has_same_prefix-is_prefix_of longer_space left_space

abbrev full_name : FullTrackName
full_name = record { name_space = left_space; name = 7 ∷ [] }

write_u64-track_fullname_hash_example :
    (let h = (track_hash sum full_name).track_fullname_hash in write_u64 h [] ≡ ok ([] ++ wire h))
    × (let h = (track_hash_of 6 7).track_fullname_hash in write_u64 h [] ≡ ok ([] ++ wire h))
write_u64-track_fullname_hash_example = write_u64-track_fullname_hash sum full_name 6 7 []

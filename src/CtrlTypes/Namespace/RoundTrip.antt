-- ===== src/CtrlTypes/Namespace/RoundTrip.antt =====
-- Track namespaces are read back, those that were made and those that were read.
use libquicr.Prelude.{
  ℕ, ◌^◌, ◌≤◌, ◌<◌, ◌≡◌, refl, sym, ap, ◌∙◌, Bool, true, false, ◌||◌, Bool-cases, inl, inr, List,
  [], ◌∷◌, ◌++◌, append_assoc, append-nil, ok, ◌>>=◌, ltb, ◌==◌, length, All, arith,
}
use libquicr.UintVar.Wire.{wire}
use libquicr.TrackName.{TrackNamespace, get_entries, make}
use libquicr.TrackName.Entries.{get_entries-make}
use libquicr.CtrlTypes.Ints.{write_u64-wire, read_u64-wire, write_bytes-wire, read_bytes-wire}
use libquicr.CtrlTypes.Namespace.{
  max_size, write_entries, read_entries, write_namespace, read_namespace,
}

-- A byte string whose length can be written.
abbrev pub IsShort : List ℕ → Type 0
IsShort entry = length entry < 2 ^ 62

abbrev pub entries_wire : List (List ℕ) → List ℕ
entries_wire [] = []
entries_wire (entry ∷ entries) = wire (length entry) ++ (entry ++ entries_wire entries)

abbrev pub namespace_wire : List (List ℕ) → List ℕ
namespace_wire entries = wire (length entries) ++ entries_wire entries

write_entries-wire :
    (entries : List (List ℕ)) (b : List ℕ)
    → All IsShort entries
    → write_entries entries b ≡ ok (b ++ entries_wire entries)
write_entries-wire [] b h = rw (append-nil b) refl
write_entries-wire (entry ∷ entries) b h = rw (
  write_bytes-wire entry b h.0,
  write_entries-wire entries (b ++ (wire (length entry) ++ entry)) h.1,
  append_assoc,
  append_assoc,
)

read_entries-wire :
    (entries : List (List ℕ)) (rest : List ℕ)
    → All IsShort entries
    → read_entries (length entries) (entries_wire entries ++ rest) ≡ ok (entries, rest)
read_entries-wire [] rest h = refl
read_entries-wire (entry ∷ entries) rest h = rw (
  append_assoc,
  append_assoc,
  read_bytes-wire entry (entries_wire entries ++ rest) h.0,
  read_entries-wire entries rest h.1,
)

make_bounds :
    (hash : List ℕ → ℕ) (entries : List (List ℕ)) (n : TrackNamespace)
    → make hash entries ≡ ok n
    → (1 ≤ length entries) × (length entries ≤ 32)
unfolding make
make_bounds hash entries n h = elim (Bool-cases (ltb 32 (length entries) || length entries == 0)) [
  | inl t ↦ absurd (ground (arith, t, h))
  | inr f ↦ (ground (arith, f), ground (arith, f))
]

get_entries_of_make :
    (hash : List ℕ → ℕ) (entries : List (List ℕ)) (n : TrackNamespace)
    → make hash entries ≡ ok n
    → get_entries n ≡ entries
get_entries_of_make hash entries n h =
    let (some_entries, few) = make_bounds hash entries n h in
    let same : ok (get_entries n) ≡ ok entries =
      sym (ap (λ m. m >>= λ n. ok (get_entries n)) h)
      ∙ (get_entries-make hash entries some_entries few).0 in
    cc

pub write_namespace-wire :
    (hash : List ℕ → ℕ) (entries : List (List ℕ)) (n : TrackNamespace) (b : List ℕ)
    → make hash entries ≡ ok n
    → All IsShort entries
    → write_namespace n b ≡ ok (b ++ namespace_wire entries)
unfolding write_namespace
write_namespace-wire hash entries n b h short =
    let (some_entries, few) = make_bounds hash entries n h in
    rw (
      get_entries_of_make hash entries n h,
      write_u64-wire (length entries) b (omega arith),
      write_entries-wire entries (b ++ wire (length entries)) short,
      append_assoc,
    )

pub read_namespace-wire :
    (hash : List ℕ → ℕ) (can_allocate : ℕ → Bool) (entries : List (List ℕ)) (n : TrackNamespace)
    (rest : List ℕ)
    → make hash entries ≡ ok n
    → All IsShort entries
    → can_allocate (length entries) ≡ true
    → read_namespace hash can_allocate (namespace_wire entries ++ rest) ≡ ok (n, rest)
unfolding read_namespace
read_namespace-wire hash can_allocate entries n rest h short enough =
    let (some_entries, few) = make_bounds hash entries n h in
    let fits : ltb max_size (length entries) ≡ false = ground (arith, few) in
    rw (
      append_assoc,
      read_u64-wire (length entries) (entries_wire entries ++ rest) (omega arith),
      fits,
      enough,
      read_entries-wire entries rest short,
      h,
    )

-- A namespace that was made of entries, none of 2^62 bytes or more, is written and read back where
-- there is memory for so many vectors, and what follows is left.
pub read_namespace-write_namespace :
    (hash : List ℕ → ℕ) (can_allocate : ℕ → Bool) (entries : List (List ℕ)) (n : TrackNamespace)
    (rest : List ℕ)
    → make hash entries ≡ ok n
    → All IsShort entries
    → can_allocate (length entries) ≡ true
    → (write_namespace n [] >>= λ b. read_namespace hash can_allocate (b ++ rest)) ≡ ok (n, rest)
read_namespace-write_namespace hash can_allocate entries n rest h short enough = rw (
  write_namespace-wire hash entries n [] h short,
  read_namespace-wire hash can_allocate entries n rest h short enough,
)

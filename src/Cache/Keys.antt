-- ===== src/Cache/Keys.antt =====
-- Keys in the map of a cache and in its buckets.
use libquicr.Prelude.{
  ℕ, ◌<◌, ◌≡◌, refl, Bool, false, ◌||◌, none, some, List, [], ◌∷◌, ◌++◌, arith, ltb, ◌==◌,
  if◌then◌else◌, All, Bool-cases, inl, inr, map,
}
use libquicr.Cache.{erase_all}
use libquicr.Cache.Map.{lookup, assign, erase}

abbrev pub has_key : ℕ → List ℕ → Bool
has_key k [] = false
has_key k (j ∷ js) = k == j || has_key k js

pub has_key-append :
    (k : ℕ) (xs ys : List ℕ) → has_key k (xs ++ ys) ≡ (has_key k xs || has_key k ys)
has_key-append k [] ys = refl
has_key-append k (x ∷ xs) ys = ground (arith, has_key-append k xs ys)

module _ {A : Type 0} where
  abbrev pub IsAbove : ℕ → List (ℕ × A) → Type 0
  IsAbove k m = All (λ e. k < e.0) m

  abbrev pub IsSorted : List (ℕ × A) → Type 0
  IsSorted [] = Unit
  IsSorted ((k, a) ∷ m) = IsAbove k m × IsSorted m

  IsAbove-trans : (j k : ℕ) (m : List (ℕ × A)) → j < k → IsAbove k m → IsAbove j m
  IsAbove-trans j k [] h above = tt
  IsAbove-trans j k (e ∷ m) h (lt, above) = (omega arith, IsAbove-trans j k m h above)

  lookup_above : (k : ℕ) (m : List (ℕ × A)) → IsAbove k m → lookup k m ≡ none
  lookup_above k [] above = refl
  lookup_above k ((j, a) ∷ m) (lt, above) = ground (arith, lookup_above k m above)

  IsAbove-erase : (j k : ℕ) (m : List (ℕ × A)) → IsAbove j m → IsAbove j (erase k m)
  IsAbove-erase j k [] above = tt
  IsAbove-erase j k ((i, a) ∷ m) (lt, above) = elim (Bool-cases (k == i)) [
    | inl t ↦ rw t above
    | inr f ↦ rw f (lt, IsAbove-erase j k m above)
  ]

  pub erase-IsSorted : (k : ℕ) (m : List (ℕ × A)) → IsSorted m → IsSorted (erase k m)
  erase-IsSorted k [] s = tt
  erase-IsSorted k ((i, a) ∷ m) (above, s) = elim (Bool-cases (k == i)) [
    | inl t ↦ rw t s
    | inr f ↦ rw f (IsAbove-erase i k m above, erase-IsSorted k m s)
  ]

  pub erase_all-IsSorted : (ks : List ℕ) (m : List (ℕ × A)) → IsSorted m → IsSorted (erase_all ks m)
  erase_all-IsSorted [] m s = s
  erase_all-IsSorted (k ∷ ks) m s = erase_all-IsSorted ks (erase k m) (erase-IsSorted k m s)

  abbrev pub keys : List (ℕ × A) → List ℕ
  keys m = map (λ e. e.0) m

  IsAbove-keys : (k : ℕ) (m n : List (ℕ × A)) → keys m ≡ keys n → IsAbove k n → IsAbove k m
  IsAbove-keys k [] n h above = tt
  IsAbove-keys k (x ∷ m) [] h above = cc
  IsAbove-keys k ((i, a) ∷ m) ((j, b) ∷ n) h (lt, above) =
      let here : i ≡ j = cc in
      let behind : keys m ≡ keys n = cc in (rw here lt, IsAbove-keys k m n behind above)

  -- Whether a map is sorted depends on its keys alone.
  pub IsSorted-keys : (m n : List (ℕ × A)) → keys m ≡ keys n → IsSorted n → IsSorted m
  IsSorted-keys [] n h s = tt
  IsSorted-keys (x ∷ m) [] h s = cc
  IsSorted-keys ((i, a) ∷ m) ((j, b) ∷ n) h (above, s) =
      let here : i ≡ j = cc in
      let behind : keys m ≡ keys n = cc in
      (rw here (IsAbove-keys j m n behind above), IsSorted-keys m n behind s)

  IsAbove-assign :
      (j k : ℕ) (v : A) (m : List (ℕ × A)) → j < k → IsAbove j m → IsAbove j (assign k v m)
  IsAbove-assign j k v [] h above = (h, tt)
  IsAbove-assign j k v ((i, a) ∷ m) h (lt, above) = elim (Bool-cases (k == i)) [
    | inl t ↦ rw t (h, above)
    | inr f ↦ rw f (elim (Bool-cases (ltb k i)) [
      | inl t ↦ rw t (h, (lt, above))
      | inr g ↦ rw g (lt, IsAbove-assign j k v m h above)
    ])
  ]

  pub assign-IsSorted : (k : ℕ) (v : A) (m : List (ℕ × A)) → IsSorted m → IsSorted (assign k v m)
  assign-IsSorted k v [] s = (tt, tt)
  assign-IsSorted k v ((i, a) ∷ m) (above, s) = elim (Bool-cases (k == i)) [
    | inl t ↦ rw t (let e : k ≡ i = ground arith in rw e (above, s))
    | inr f ↦ rw f (elim (Bool-cases (ltb k i)) [
      | inl t ↦ rw t ((ground arith, IsAbove-trans k i m (ground arith) above), (above, s))
      | inr g ↦ rw g (IsAbove-assign i k v m (ground arith) above, assign-IsSorted k v m s)
    ])
  ]

  pub lookup-assign :
      (j k : ℕ) (v : A) (m : List (ℕ × A))
      → lookup j (assign k v m) ≡ (if j == k then some v else lookup j m)
  lookup-assign j k v [] = refl
  lookup-assign j k v ((i, a) ∷ m) = ground (arith, lookup-assign j k v m)

  pub lookup-erase :
      (j k : ℕ) (m : List (ℕ × A))
      → IsSorted m
      → lookup j (erase k m) ≡ (if j == k then none else lookup j m)
  lookup-erase j k [] s = ground arith
  lookup-erase j k ((i, a) ∷ m) (above, s) =
      ground (arith, lookup-erase j k m s, lookup_above i m above)

  pub lookup-erase_all :
      (j : ℕ) (ks : List ℕ) (m : List (ℕ × A))
      → IsSorted m
      → lookup j (erase_all ks m) ≡ (if has_key j ks then none else lookup j m)
  lookup-erase_all j [] m s = refl
  lookup-erase_all j (k ∷ ks) m s =
      ground (arith, lookup-erase_all j ks (erase k m) (erase-IsSorted k m s), lookup-erase j k m s)
